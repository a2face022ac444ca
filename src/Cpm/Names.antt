-- ===== src/Cpm/Names.antt =====
-- gateway-go/cpmdir.go: `cpmName`.
use imsai_8080_esp_tty_gtw.Prelude.{◌%◌, Bytes, [], ◌∷◌, ◌++◌, ◌==◌, if◌then◌else◌}

-- The closure `clean`; `c & 0x7f` is `c % 128`.
unfoldable pub clean : Bytes → Bytes
clean [] = []
clean (c ∷ cs) = let rest = clean cs in if c % 128 == b' ' then rest else (c % 128) ∷ rest

abbrev pub join_ext : Bytes → Bytes → Bytes
join_ext n [] = n
join_ext n (x ∷ xs) = n ++ (b'.' ∷ x ∷ xs)

unfoldable pub cpm_name : Bytes → Bytes → Bytes
unfolding clean
cpm_name name ext = join_ext (clean name) (clean ext)
