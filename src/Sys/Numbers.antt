-- ===== src/Sys/Numbers.antt =====
-- gateway-go/sys.go: `fmtUptime`, `parityStr`, and `%04X` of `fmt`.
use imsai_8080_esp_tty_gtw.Prelude.{
  ℕ, zero, suc, ◌+◌, ◌-◌, ◌/◌, ◌%◌, Bool, not, ◌&&◌, Bytes, [], ◌∷◌, ◌++◌, codes, ltb, ◌==◌,
  if◌then◌else◌, length, replicate,
}
use imsai_8080_esp_tty_gtw.Word.{int_mod, int_half}
use imsai_8080_esp_tty_gtw.Decimal.{show_nat}

-- The sign and the size of an integer.
abbrev pub is_neg : ℕ → Bool
is_neg n = not (ltb n int_half)

abbrev pub magnitude : ℕ → ℕ
magnitude n = if ltb n int_half then n else int_mod - n

-- Go's `/` and `%` cut towards zero, so that the parts of a negative number are the negated parts of
-- its size.
abbrev pub show_part : Bool → ℕ → Bytes
show_part negative n = if negative && not (n == 0) then b'-' ∷ show_nat n else show_nat n

unfoldable pub fmt_uptime : ℕ → Bytes
fmt_uptime sec =
    let negative = is_neg sec in
    let size = magnitude sec in
    let d = size / 86400 in
    let h = size % 86400 / 3600 in
    let m = size % 3600 / 60 in
    let s = size % 60 in
    let minutes = show_part negative m ++ (codes "m " ++ (show_part negative s ++ codes "s")) in
    let hours = show_part negative h ++ (codes "h " ++ minutes) in
    if not negative && ltb 0 d
    then show_nat d ++ (codes "d " ++ hours)
    else if not negative && ltb 0 h
    then hours
    else minutes

abbrev pub parity_str : ℕ → Bytes
parity_str p = if p == 1 then codes "O" else if p == 2 then codes "E" else codes "N"

abbrev pub hex_digit : ℕ → ℕ
hex_digit d = if ltb d 10 then b'0' + d else b'A' + (d - 10)

-- A number below 2 ^ 64 has at most 16 digits, which is the fuel.
unfoldable pub hex_onto : ℕ → ℕ → Bytes → Bytes
hex_onto zero n acc = acc
hex_onto (suc f) n acc =
    let acc' = hex_digit (n % 16) ∷ acc in
    let more = hex_onto f (n / 16) acc' in if ltb n 16 then acc' else more

abbrev pub zeros_to : ℕ → Bytes → Bytes
zeros_to w s = replicate (w - length s) b'0' ++ s

-- `%04X`: the sign counts for the width.
unfoldable pub show_hex4 : ℕ → Bytes
unfolding hex_onto
show_hex4 n =
    let digits = hex_onto 16 (magnitude n) [] in
    if is_neg n then b'-' ∷ zeros_to 3 digits else zeros_to 4 digits
