-- ===== src/Prelude/Text.antt =====
-- A Go string or byte slice is the list of its bytes; literals are ASCII. The functions of `strings`
-- that the gateway calls, over such lists.
use Prim.Native.Char.{code}
use Prim.Native.String.{String}
use Prim.Native.Nat.{ℕ, ◌+◌, ◌-◌}
use mathlib.Core.Path.{◌≡◌, refl}
use mathlib.Core.Logic.{◌↔◌}
use mathlib.Core.Bool.{Bool, true, false, ◌&&◌, ◌||◌}
use mathlib.Core.List.{List, [], ◌∷◌, ◌++◌, map, reverse}
use native.Mathlib.Omega.{arith}
use imsai_8080_esp_tty_gtw.Prelude.Compare.{ltb, leb, ◌==◌, if◌then◌else◌}
use imsai_8080_esp_tty_gtw.Prelude.Lists.{length, replicate}

abbrev pub Bytes : Type 0
Bytes = List ℕ

abbrev pub codes : String → Bytes
codes String.[] = []
codes (String.◌∷◌ c s) = code c ∷ codes s

-- `==` on strings.
unfoldable pub text_eq : Bytes → Bytes → Bool
text_eq [] [] = true
text_eq (x ∷ xs) (y ∷ ys) = x == y && text_eq xs ys
text_eq _ _ = false

pub text_eq_iff : (a b : Bytes) → (text_eq a b ≡ true) ↔ (a ≡ b)
unfolding text_eq
text_eq_iff (x ∷ a) (y ∷ b) = ground (arith, text_eq_iff a b)
text_eq_iff _ _ = ground arith

pub text_eq_refl : (a : Bytes) → text_eq a a ≡ true
text_eq_refl a = (text_eq_iff a a).1 refl

-- The ASCII white space that `strings.TrimSpace` cuts.
abbrev pub is_space : ℕ → Bool
is_space c = c == 32 || leb 9 c && leb c 13

unfoldable pub trim_left : Bytes → Bytes
trim_left [] = []
trim_left (c ∷ cs) = let rest = trim_left cs in if is_space c then rest else c ∷ cs

unfoldable pub trim_space : Bytes → Bytes
unfolding trim_left
trim_space s = reverse (trim_left (reverse (trim_left s)))

unfoldable pub upper_byte : ℕ → ℕ
upper_byte c = if leb b'a' c && leb c b'z' then c - 32 else c

unfoldable pub lower_byte : ℕ → ℕ
lower_byte c = if leb b'A' c && leb c b'Z' then c + 32 else c

-- `strings.ToUpper` and `strings.ToLower` on ASCII.
unfoldable pub to_upper : Bytes → Bytes
unfolding upper_byte
to_upper = map upper_byte

unfoldable pub to_lower : Bytes → Bytes
unfolding lower_byte
to_lower = map lower_byte

-- `strings.Split` by a separator of one byte: `cur` is the part being read, the result is its
-- first part and the parts behind it (a split always has a first part).
unfoldable pub split_from : ℕ → Bytes → Bytes → Bytes × List Bytes
split_from sep cur [] = (cur, [])
split_from sep cur (c ∷ cs) =
    let (first, rest) = split_from sep (if c == sep then [] else cur ++ c ∷ []) cs in
    if c == sep then (cur, first ∷ rest) else (first, rest)

abbrev pub split : ℕ → Bytes → List Bytes
split sep s = let (first, rest) = split_from sep [] s in first ∷ rest

unfoldable pub has_prefix : Bytes → Bytes → Bool
has_prefix s [] = true
has_prefix [] (y ∷ ys) = false
has_prefix (x ∷ xs) (y ∷ ys) = x == y && has_prefix xs ys

abbrev pub has_suffix : Bytes → Bytes → Bool
has_suffix s e = has_prefix (reverse s) (reverse e)

-- `<` on strings: by the first byte that differs, a prefix first.
unfoldable pub text_lt : Bytes → Bytes → Bool
text_lt s [] = false
text_lt [] (y ∷ ys) = true
text_lt (x ∷ xs) (y ∷ ys) = let rest = text_lt xs ys in if x == y then rest else ltb x y

-- `strings.Contains`.
unfoldable pub contains : Bytes → Bytes → Bool
contains [] sub = has_prefix [] sub
contains (c ∷ cs) sub = let rest = contains cs sub in has_prefix (c ∷ cs) sub || rest

-- `%-*s` and `%*s` of `fmt`, for texts of one byte to a character.
abbrev pub pad_right : ℕ → Bytes → Bytes
pad_right w s = s ++ replicate (w - length s) b' '

abbrev pub pad_left : ℕ → Bytes → Bytes
pad_left w s = replicate (w - length s) b' ' ++ s

-- `strings.Join`.
abbrev pub join : Bytes → List Bytes → Bytes
join sep [] = []
join sep (s ∷ []) = s
join sep (s ∷ t ∷ ts) = s ++ (sep ++ join sep (t ∷ ts))
