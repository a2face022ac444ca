-- ===== src/Output/Params.antt =====
-- gateway-go/outwrap.go: the numeric parameters of a CSI sequence.
use imsai_8080_esp_tty_gtw.Prelude.{
  Bool, ℕ, ◌-◌, ◌&&◌, List, Bytes, [], ◌∷◌, leb, if◌then◌else◌, trim_space, split,
}
use imsai_8080_esp_tty_gtw.Word.{int_add, int_mul}

abbrev pub is_digit : ℕ → Bool
is_digit c = leb b'0' c && leb c b'9'

-- The loop of `atoiDefault` from the value `n` on.
unfoldable pub atoi_from : ℕ → Bytes → ℕ → ℕ
atoi_from d [] n = n
atoi_from d (c ∷ cs) n =
    let rest = atoi_from d cs (int_add (int_mul n 10) (c - b'0')) in if is_digit c then rest else d

abbrev atoi_trimmed : Bytes → ℕ → ℕ
atoi_trimmed [] d = d
atoi_trimmed (c ∷ cs) d = atoi_from d (c ∷ cs) 0

unfoldable pub atoi_default : Bytes → ℕ → ℕ
atoi_default s d = atoi_trimmed (trim_space s) d

-- `csi[:len(csi)-1]`.
abbrev pub drop_last : Bytes → Bytes
drop_last [] = []
drop_last (c ∷ []) = []
drop_last (c ∷ d ∷ cs) = c ∷ drop_last (d ∷ cs)

-- The first two parts, as far as they are there.
abbrev pub two_params : List Bytes → ℕ × ℕ
two_params [] = (0, 0)
two_params (a ∷ []) = (atoi_default a 0, 0)
two_params (a ∷ b ∷ _) = (atoi_default a 0, atoi_default b 0)

unfoldable pub csi_params2 : Bytes → ℕ × ℕ
csi_params2 [] = (0, 0)
csi_params2 (c ∷ cs) = two_params (split b';' (drop_last (c ∷ cs)))

unfoldable pub csi_param1 : Bytes → ℕ
csi_param1 csi = (csi_params2 csi).0
