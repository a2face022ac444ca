-- ===== src/Sys/Passwords.antt =====
-- gateway-go/sys.go: which variables are passwords.
use imsai_8080_esp_tty_gtw.Prelude.{
  Bool, true, false, ◌||◌, Bytes, [], ◌∷◌, ◌++◌, ◌≡◌, refl, ap, ◌∙◌, codes, contains, has_prefix,
  to_upper, upper_byte, ==_refl,
}
use imsai_8080_esp_tty_gtw.Sys.Format.{is_secret}

-- PASSWORD stands in the name, in any case.
abbrev pub IsPassword : Bytes → Type 0
IsPassword k =
    (before : Bytes) × (word : Bytes) × (after : Bytes) × (k ≡ before ++ (word ++ after))
    × (to_upper word ≡ codes "PASSWORD")

has_prefix-append : (s rest : Bytes) → has_prefix (s ++ rest) s ≡ true
unfolding has_prefix
has_prefix-append [] rest = refl
has_prefix-append (x ∷ s) rest = rw (==_refl x, has_prefix-append s rest) refl

contains-has_prefix : (s sub : Bytes) → has_prefix s sub ≡ true → contains s sub ≡ true
unfolding contains
contains-has_prefix [] sub h = h
contains-has_prefix (c ∷ s) sub h = rw h refl

contains-append : (before sub after : Bytes) → contains (before ++ (sub ++ after)) sub ≡ true
unfolding contains
contains-append [] sub after = contains-has_prefix (sub ++ after) sub (has_prefix-append sub after)
contains-append (c ∷ before) sub after =
    ap (λ (b : Bool). has_prefix (c ∷ (before ++ (sub ++ after))) sub || b)
      (contains-append before sub after)
    ∙ or_true (has_prefix (c ∷ (before ++ (sub ++ after))) sub)
  where
    or_true : (b : Bool) → (b || true) ≡ true
    or_true true = refl
    or_true false = refl

to_upper-append : (xs ys : Bytes) → to_upper (xs ++ ys) ≡ to_upper xs ++ to_upper ys
unfolding to_upper
to_upper-append [] ys = refl
to_upper-append (x ∷ xs) ys = ap (λ (s : Bytes). upper_byte x ∷ s) (to_upper-append xs ys)

pub is_secret-IsPassword : (k : Bytes) → IsPassword k → is_secret k ≡ true
is_secret-IsPassword k (before, word, after, parts, upper) =
    let password = codes "PASSWORD" in
    let split : to_upper k ≡ to_upper before ++ (password ++ to_upper after) =
      ap to_upper parts
      ∙ to_upper-append before (word ++ after)
      ∙ ap (λ (s : Bytes). to_upper before ++ s)
          (to_upper-append word after ∙ ap (λ (s : Bytes). s ++ to_upper after) upper) in
    ap (λ (s : Bytes). contains s password) split
    ∙ contains-append (to_upper before) password (to_upper after)
