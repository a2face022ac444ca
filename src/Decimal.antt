-- ===== src/Decimal.antt =====
-- `%d` of `fmt` for a number that is not negative, and `atoiDefault` of gateway-go/outwrap.go as its
-- inverse.
use imsai_8080_esp_tty_gtw.Prelude.{
  inr, inl, Bool-cases, ℕ, zero, suc, ◌+◌, ◌-◌, ◌/◌, ◌%◌, ◌<◌, true, Bytes, [], ◌∷◌, ◌≡◌, refl,
  arith, ltb, reverse, trim_left, trim_space, if◌then◌else◌, All, All-++,
}
use mathlib.Core.List.{reverse-append, reverse-reverse}
use imsai_8080_esp_tty_gtw.Word.{int_mod, int_half}
use imsai_8080_esp_tty_gtw.Output.Params.{is_digit, atoi_from, atoi_default}

-- One digit for each turn; a number has fewer digits than its successor, which is the fuel.
unfoldable pub digits_onto : ℕ → ℕ → Bytes → Bytes
digits_onto zero n acc = acc
digits_onto (suc f) n acc =
    let acc' = (b'0' + n % 10) ∷ acc in
    let more = digits_onto f (n / 10) acc' in if ltb n 10 then acc' else more

unfoldable pub show_nat : ℕ → Bytes
unfolding digits_onto
show_nat n = digits_onto (suc n) n []

-- `%d` for an `int`, or an `int64`, by its pattern.
unfoldable pub show_int : ℕ → Bytes
unfolding show_nat
show_int n = if ltb n int_half then show_nat n else b'-' ∷ show_nat (int_mod - n)

abbrev pub IsDigits : Bytes → Type 0
IsDigits = All (λ c. is_digit c ≡ true)

digits_onto-IsDigits : (f n : ℕ) (acc : Bytes) → IsDigits acc → IsDigits (digits_onto f n acc)
unfolding digits_onto
digits_onto-IsDigits zero n acc h = h
digits_onto-IsDigits (suc f) n acc h = elim (Bool-cases (ltb n 10)) [
  | inl e ↦ rw e (digit n, h)
  | inr e ↦ rw e (digits_onto-IsDigits f (n / 10) ((b'0' + n % 10) ∷ acc) (digit n, h))
]
  where
    digit : (m : ℕ) → is_digit (b'0' + m % 10) ≡ true
    digit m = ground arith

pub show_nat-IsDigits : (n : ℕ) → IsDigits (show_nat n)
unfolding show_nat
show_nat-IsDigits n = digits_onto-IsDigits (suc n) n [] tt

atoi_from-digits_onto :
    (d f n : ℕ) (acc : Bytes)
    → n < f
    → n < int_mod
    → atoi_from d (digits_onto f n acc) 0 ≡ atoi_from d acc n
unfolding atoi_from digits_onto
atoi_from-digits_onto d zero n acc h k = elim h [ ]
atoi_from-digits_onto d (suc f) n acc h k =
    ground (arith, atoi_from-digits_onto d f (n / 10) ((b'0' + n % 10) ∷ acc))

trim_left_digits : (s : Bytes) → IsDigits s → trim_left s ≡ s
unfolding trim_left
trim_left_digits [] h = refl
trim_left_digits (c ∷ cs) h = ground arith

reverse-IsDigits : (s : Bytes) → IsDigits s → IsDigits (reverse s)
reverse-IsDigits [] h = tt
reverse-IsDigits (c ∷ cs) h =
    rw (reverse-append (c ∷ []) cs)
      (All-++ (λ c. is_digit c ≡ true) (reverse cs) (c ∷ []) (reverse-IsDigits cs h.1) (h.0, tt))

pub trim_space_digits : (s : Bytes) → IsDigits s → trim_space s ≡ s
unfolding trim_space
trim_space_digits s h =
    rw (trim_left_digits s h, trim_left_digits (reverse s) (reverse-IsDigits s h))
      (reverse-reverse s)

digits_onto-cons :
    (f n a : ℕ) (acc : Bytes) → (c : ℕ) × (cs : Bytes) × (digits_onto f n (a ∷ acc) ≡ c ∷ cs)
unfolding digits_onto
digits_onto-cons zero n a acc = (a, acc, refl)
digits_onto-cons (suc f) n a acc = elim (Bool-cases (ltb n 10)) [
  | inl e ↦ (b'0' + n % 10, a ∷ acc, rw e)
  | inr e ↦
      let (c, cs, h) = digits_onto-cons f (n / 10) (b'0' + n % 10) (a ∷ acc) in (c, cs, rw e h)
]

show_nat-cons : (n : ℕ) → (c : ℕ) × (cs : Bytes) × (show_nat n ≡ c ∷ cs)
unfolding show_nat
show_nat-cons n = elim (Bool-cases (ltb n 10)) [
  | inl e ↦ (b'0' + n % 10, [], rw e)
  | inr e ↦ let (c, cs, h) = digits_onto-cons n (n / 10) (b'0' + n % 10) [] in (c, cs, rw e h)
]

atoi_from-show_nat : (n d : ℕ) → n < int_mod → atoi_from d (show_nat n) 0 ≡ n
unfolding show_nat atoi_from
atoi_from-show_nat n d h = atoi_from-digits_onto d (suc n) n [] (omega arith) h

-- What `%d` prints for a number that an `int` holds, `atoiDefault` reads back, whatever its default.
pub atoi_default-show_nat : (n d : ℕ) → n < int_mod → atoi_default (show_nat n) d ≡ n
unfolding atoi_default
atoi_default-show_nat n d h =
    let (c, cs, e) = show_nat-cons n in
    rw (trim_space_digits (show_nat n) (show_nat-IsDigits n), e)
      (rw (← e) (atoi_from-show_nat n d h))
