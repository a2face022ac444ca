-- ===== src/Prelude/Sort.antt =====
-- Sorting by a text: insertion, so that equal keys keep their order.
use mathlib.Core.List.{List, [], ◌∷◌}
use imsai_8080_esp_tty_gtw.Prelude.Compare.{if◌then◌else◌}
use imsai_8080_esp_tty_gtw.Prelude.Text.{Bytes, text_lt}

module _ {ℓ} {A : Type ℓ} (key : A → Bytes) where
  unfoldable pub insert_on : A → List A → List A
  insert_on a [] = a ∷ []
  insert_on a (b ∷ bs) =
      let rest = insert_on a bs in if text_lt (key b) (key a) then b ∷ rest else a ∷ b ∷ bs

  unfoldable pub sort_on : List A → List A
  unfolding insert_on
  sort_on [] = []
  sort_on (a ∷ more) = insert_on a (sort_on more)
