-- ===== src/Cpm/Order.antt =====
-- gateway-go/cpmdir.go: each user's files are sorted by name, whatever the order of Go's map.
use imsai_8080_esp_tty_gtw.Prelude.{
  inr, keep, inl, Bool-cases, ℕ, true, false, Bytes, List, [], ◌∷◌, ◌≡◌, refl, arith, ◌==◌, All,
  text_lt,
}
use imsai_8080_esp_tty_gtw.Cpm.Directory.{sort_files, insert_file, by_user, CpmFile}

text_lt_irrefl : (a : Bytes) → text_lt a a ≡ false
unfolding text_lt
text_lt_irrefl [] = refl
text_lt_irrefl (x ∷ a) = ground (arith, text_lt_irrefl a)

-- `<=` on strings, as "not greater", is a total order.
text_le_trans : (a b c : Bytes) → text_lt b a ≡ false → text_lt c b ≡ false → text_lt c a ≡ false
unfolding text_lt
text_le_trans [] b [] h k = refl
text_le_trans [] b (z ∷ c) h k = refl
text_le_trans (x ∷ a) [] c h k = cc
text_le_trans (x ∷ a) (y ∷ b) [] h k = cc
text_le_trans (x ∷ a) (y ∷ b) (z ∷ c) h k = ground (arith, text_le_trans a b c)

text_lt_asym : (a b : Bytes) → text_lt a b ≡ true → text_lt b a ≡ false
unfolding text_lt
text_lt_asym [] b h = refl
text_lt_asym (x ∷ a) [] h = cc
text_lt_asym (x ∷ a) (y ∷ b) h = ground (arith, text_lt_asym a b)

-- No name behind `f` is smaller.
abbrev pub IsFirst : CpmFile → List CpmFile → Type 0
IsFirst f = All (λ g. text_lt g.name f.name ≡ false)

abbrev pub IsSorted : List CpmFile → Type 0
IsSorted [] = Unit
IsSorted (f ∷ fs) = IsFirst f fs × IsSorted fs

IsFirst-le :
    (f g : CpmFile) (fs : List CpmFile)
    → text_lt g.name f.name ≡ false
    → IsFirst g fs
    → IsFirst f fs
IsFirst-le f g [] h k = tt
IsFirst-le f g (x ∷ fs) h k = (text_le_trans f.name g.name x.name h k.0, IsFirst-le f g fs h k.1)

IsFirst-insert_file :
    (f g : CpmFile) (fs : List CpmFile)
    → text_lt f.name g.name ≡ false
    → IsFirst g fs
    → IsFirst g (insert_file f fs)
unfolding insert_file
IsFirst-insert_file f g [] h k = (h, tt)
IsFirst-insert_file f g (x ∷ fs) h k = elim (Bool-cases (text_lt f.name x.name)) [
  | inl e ↦ rw e (h, k)
  | inr e ↦ rw e (k.0, IsFirst-insert_file f g fs h k.1)
]

insert_file-IsSorted : (f : CpmFile) (fs : List CpmFile) → IsSorted fs → IsSorted (insert_file f fs)
unfolding insert_file
insert_file-IsSorted f [] h = (tt, tt)
insert_file-IsSorted f (x ∷ fs) h = elim (Bool-cases (text_lt f.name x.name)) [
  | inl e ↦ let le = text_lt_asym f.name x.name e in rw e ((le, IsFirst-le f x fs le h.0), h)
  | inr e ↦ rw e (IsFirst-insert_file f x fs e h.0, insert_file-IsSorted f fs h.1)
]

-- Each user's list is sorted by name, byte by byte, from any collection of files.
pub by_user-IsSorted : (fs : List CpmFile) (u : ℕ) → IsSorted (by_user fs u)
unfolding by_user
by_user-IsSorted fs u = sort (keep (λ f. f.user == u) fs)
  where
    sort : (gs : List CpmFile) → IsSorted (sort_files gs)
    sort [] = tt
    sort (g ∷ gs) = insert_file-IsSorted g (sort_files gs) (sort gs)
