-- ===== src/Cpm/Attributes.antt =====
-- gateway-go/cpmdir.go: the attribute bits of a directory entry are no part of the file's name.
use imsai_8080_esp_tty_gtw.Prelude.{
  inr, inl, Bool-cases, ℕ, ◌%◌, Bool, true, not, ◌&&◌, Bytes, [], ◌∷◌, ◌≡◌, refl, arith, ◌==◌, ltb,
  All, All-++,
}
use imsai_8080_esp_tty_gtw.Cpm.Names.{join_ext, clean, cpm_name}

-- The same bytes up to bit 7.
abbrev pub SameLow : Bytes → Bytes → Type 0
SameLow [] [] = Unit
SameLow (x ∷ xs) (y ∷ ys) = (x % 128 ≡ y % 128) × SameLow xs ys
SameLow _ _ = ⊥

clean-SameLow : (a b : Bytes) → SameLow a b → clean a ≡ clean b
unfolding clean
clean-SameLow [] [] h = refl
clean-SameLow [] (y ∷ b) h = absurd h
clean-SameLow (x ∷ a) [] h = absurd h
clean-SameLow (x ∷ a) (y ∷ b) h = rw (h.0, clean-SameLow a b h.1)

-- Two entries whose name and extension fields differ only in attribute bits have the same name.
pub cpm_name-SameLow : (n m x y : Bytes) → SameLow n m → SameLow x y → cpm_name n x ≡ cpm_name m y
unfolding cpm_name
cpm_name-SameLow n m x y h k = rw (clean-SameLow n m h, clean-SameLow x y k)

abbrev pub is_shown : ℕ → Bool
is_shown c = ltb c 128 && not (c == b' ')

clean_shown : (a : Bytes) → All (λ c. is_shown c ≡ true) (clean a)
unfolding clean
clean_shown [] = tt
clean_shown (c ∷ cs) = elim (Bool-cases (c % 128 == b' ')) [
  | inl e ↦ rw e (clean_shown cs)
  | inr e ↦ rw e (ground arith, clean_shown cs)
]

-- A name as listed holds no space and no byte above 127, whatever the directory holds.
pub cpm_name_shown : (n x : Bytes) → All (λ c. is_shown c ≡ true) (cpm_name n x)
unfolding cpm_name
cpm_name_shown n x = go (clean x) (clean_shown x)
  where
    go :
        (x' : Bytes)
        → All (λ c. is_shown c ≡ true) x'
        → All (λ c. is_shown c ≡ true) (join_ext (clean n) x')
    go [] h = clean_shown n
    go (d ∷ ds) h = All-++ _ (clean n) (b'.' ∷ d ∷ ds) (clean_shown n) (refl, h)
