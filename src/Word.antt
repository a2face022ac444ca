-- ===== src/Word.antt =====
-- Go's `int` on the 64-bit targets: the two's complement pattern of a value, a number below 2 ^ 64.
use imsai_8080_esp_tty_gtw.Prelude.{
  ℕ, ◌+◌, ◌-◌, ◌*◌, ◌%◌, ◌<◌, ◌≡◌, Bool, true, ◌&&◌, arith, ltb, if◌then◌else◌,
}

abbrev pub int_mod : ℕ
int_mod = 18446744073709551616

abbrev pub int_half : ℕ
int_half = 9223372036854775808

abbrev pub int_add : ℕ → ℕ → ℕ
int_add a b = (a + b) % int_mod

abbrev pub int_sub : ℕ → ℕ → ℕ
int_sub a b = (a + int_mod - b) % int_mod

abbrev pub int_mul : ℕ → ℕ → ℕ
int_mul a b = (a * b) % int_mod

-- `a > 0`, as a signed comparison.
abbrev pub is_pos : ℕ → Bool
is_pos a = ltb 0 a && ltb a int_half

-- `max(1, a)`.
abbrev pub at_least_one : ℕ → ℕ
at_least_one a = if is_pos a then a else 1

pub is_pos_of_lt : (a : ℕ) → 0 < a → a < int_half → is_pos a ≡ true
is_pos_of_lt a h k = ground arith
