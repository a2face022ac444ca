-- ===== src/Config/Parse.antt =====
-- gateway-go/config.go: `parseResize`, and `strconv.Atoi`, which it calls.
use imsai_8080_esp_tty_gtw.Prelude.{
  ℕ, ◌+◌, ◌-◌, ◌*◌, Bool, true, false, ◌&&◌, ◌||◌, Bytes, List, [], ◌∷◌, ◌++◌, Option, none, some,
  codes, ltb, leb, ◌==◌, if◌then◌else◌, text_eq, to_lower, trim_space, split, Result, ok, err,
}
use imsai_8080_esp_tty_gtw.Word.{int_half, int_mod, is_pos}
use imsai_8080_esp_tty_gtw.Output.Params.{is_digit}

-- The digits of a number, of any size.
unfoldable pub digits_value : ℕ → Bytes → Option ℕ
digits_value n [] = some n
digits_value n (c ∷ cs) =
    let rest = digits_value (n * 10 + (c - b'0')) cs in if is_digit c then rest else none

abbrev unsigned : Bytes → Option ℕ
unsigned [] = none
unsigned (c ∷ cs) = digits_value 0 (c ∷ cs)

-- A value out of range is an error.
abbrev in_range : Bool → Option ℕ → Option ℕ
in_range negative none = none
in_range false (some n) = if ltb n int_half then some n else none
in_range true (some n) =
    if n == 0 then some 0 else if leb n int_half then some (int_mod - n) else none

unfoldable pub atoi : Bytes → Option ℕ
unfolding digits_value
atoi [] = none
atoi (c ∷ cs) =
    if c == b'-'
    then in_range true (unsigned cs)
    else if c == b'+'
    then in_range false (unsigned cs)
    else in_range false (unsigned (c ∷ cs))

abbrev pub is_off : Bytes → Bool
is_off s =
    text_eq s []
    || text_eq s (codes "off")
    || text_eq s (codes "none")
    || text_eq s (codes "no")
    || text_eq s (codes "0")
    || text_eq s (codes "false")

-- `%q` of a text in which nothing is to be escaped.
abbrev pub quoted : Bytes → Bytes
quoted v = codes "\"" ++ (v ++ codes "\"")

abbrev pub bad_geometry : Bytes → Bytes
bad_geometry spec =
    codes "invalid geometry " ++ (quoted spec ++ codes " (expected positive <cols>x<rows>)")

abbrev pub checked : Bytes → Option ℕ → Option ℕ → Result (ℕ × ℕ)
checked spec (some c) (some r) = if is_pos c && is_pos r then ok (c, r) else err (bad_geometry spec)
checked spec _ _ = err (bad_geometry spec)

-- On the parts between the `x`s; any number but two is an error.
abbrev pub two_parts : Bytes → List Bytes → Result (ℕ × ℕ)
two_parts spec (c ∷ r ∷ []) = checked spec (atoi (trim_space c)) (atoi (trim_space r))
two_parts spec _ = err (codes "expected <cols>x<rows> (e.g. 80x24) or off")

unfoldable pub parse_resize : Bytes → Result (ℕ × ℕ)
parse_resize spec =
    let s = to_lower (trim_space spec) in
    if is_off s then ok (0, 0) else two_parts spec (split b'x' s)
