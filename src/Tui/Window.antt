-- ===== src/Tui/Window.antt =====
-- gateway-go/tui.go: `tuiDraw`, the windows of the library and of the images to mount.
use mathlib.Core.Option
use mathlib.Core.Path.{ap₂}
use imsai_8080_esp_tty_gtw.Prelude.{
  ℕ, zero, suc, ◌+◌, ◌-◌, ◌<◌, ◌≤◌, Bool, true, false, Bytes, List, [], ◌∷◌, ◌++◌, Option, some,
  ◌≡◌, refl, sym, ap, ◌∙◌, subst, ◌⊎◌, arith, length, take, drop, get_elem?, ◌==◌, if◌then◌else◌,
  append_assoc,
}
use imsai_8080_esp_tty_gtw.Tui.Ansi.{move_to, pad, truncate}
use imsai_8080_esp_tty_gtw.Tui.Model.{TuiModel}
use imsai_8080_esp_tty_gtw.Tui.Rows.{list_rows, reversed, window_start, visible_rows}
use imsai_8080_esp_tty_gtw.Tui.Draw.{list_pane, bottom_row}

-- `part` stands in `whole`.
abbrev pub IsPart : Bytes → Bytes → Type 0
IsPart part whole = (before : Bytes) × (after : Bytes) × (whole ≡ before ++ (part ++ after))

IsPart-append : (part front back : Bytes) → IsPart part back → IsPart part (front ++ back)
IsPart-append part front back (before, after, e) = (
  front ++ before,
  after,
  ap (λ (s : Bytes). front ++ s) e ∙ sym (append_assoc front before (part ++ after)),
)

abbrev pub marked_row : ℕ → ℕ → Bytes → Bytes
marked_row w row line = move_to row 1 ++ reversed (pad line w)

chosen_row :
    (b : Bool) (front chosen other back : Bytes)
    → b ≡ true
    → front ++ ((if b then chosen else other) ++ back) ≡ (front ++ chosen) ++ back
chosen_row true front chosen other back e = sym (append_assoc front chosen back)
chosen_row false front chosen other back e = absurd cc

list_rows-marked_row :
    (w sel i k row : ℕ) (line : Bytes) (lines : List Bytes)
    → sel ≡ i + k
    → get_elem? lines k ≡ some line
    → IsPart (marked_row w (row + k) line) (list_rows w sel i row lines)
unfolding list_rows
list_rows-marked_row w sel i k row line [] at e = absurd cc
list_rows-marked_row w sel i zero row line (l ∷ lines) at e =
    let same : l ≡ line = ap (λ (o : Option Bytes). Option.get_or o l) e in
    let here : (i == sel) ≡ true = ground arith in
    let down : row ≡ row + 0 = omega arith in
    (
      [],
      list_rows w sel (i + 1) (row + 1) lines,
      chosen_row (i == sel) (move_to row 1) (reversed (pad l w)) (truncate l w) _ here
          ∙ ap₂ (λ (r : ℕ) (t : Bytes). marked_row w r t ++ list_rows w sel (i + 1) (row + 1) lines)
              down same,
    )
list_rows-marked_row w sel i (suc k) row line (l ∷ lines) at e =
    let further : sel ≡ (i + 1) + k = omega arith in
    let down : (row + 1) + k ≡ row + suc k = omega arith in
    let cell = if i == sel then reversed (pad l w) else truncate l w in
    IsPart-append _ (move_to row 1) _ (
      IsPart-append _ cell _ (
        subst (λ (r : ℕ). IsPart (marked_row w r line) (list_rows w sel (i + 1) (row + 1) lines))
          down (list_rows-marked_row w sel (i + 1) k (row + 1) line lines further e)))

get_elem?-drop :
    {A : Type 0} (start k : ℕ) (xs : List A)
    → get_elem? (drop start xs) k ≡ get_elem? xs (start + k)
get_elem?-drop zero k xs = let same : k ≡ 0 + k = omega arith in ap (λ (n : ℕ). get_elem? xs n) same
get_elem?-drop (suc start) k [] = refl
get_elem?-drop (suc start) k (x ∷ xs) =
    let same : suc (start + k) ≡ suc start + k = omega arith in
    get_elem?-drop start k xs ∙ ap (λ (n : ℕ). get_elem? (x ∷ xs) n) same

get_elem?-take :
    {A : Type 0} (max k : ℕ) (xs : List A) → k < max → get_elem? (take max xs) k ≡ get_elem? xs k
get_elem?-take zero k xs lt = absurd (omega arith)
get_elem?-take (suc max) k [] lt = refl
get_elem?-take (suc max) zero (x ∷ xs) lt = refl
get_elem?-take (suc max) (suc k) (x ∷ xs) lt = get_elem?-take max k xs (omega arith)

length-take_le : {A : Type 0} (max : ℕ) (xs : List A) → length (take max xs) ≤ max
length-take_le zero xs = omega arith
length-take_le (suc max) [] = omega arith
length-take_le (suc max) (x ∷ xs) = omega (arith, length-take_le max xs)

get_elem?_lt : {A : Type 0} (k : ℕ) (xs : List A) (x : A) → get_elem? xs k ≡ some x → k < length xs
get_elem?_lt k [] x e = absurd cc
get_elem?_lt zero (y ∷ xs) x e = omega arith
get_elem?_lt (suc k) (y ∷ xs) x e = omega (arith, get_elem?_lt k xs x e)

-- The window has the selected line.
window_start-window :
    (max sel : ℕ) → 0 < max → (k : ℕ) × (k < max) × (sel ≡ window_start max sel + k)
unfolding window_start
window_start-window max sel some_row = (sel - window_start max sel, ground arith, ground arith)

visible_rows-bounds :
    (rows : ℕ) → (0 < visible_rows rows 6) × ((rows < 9) ⊎ (6 + visible_rows rows 6 + 1 < rows))
visible_rows-bounds rows = (ground arith, ground arith)

-- The selected line of a list is drawn, marked, below the heading and above the bottom line, which
-- is on the screen when the window has nine rows.
pub list_pane-marked_row :
    (m : TuiModel) (w rows sel : ℕ) (heading : Bytes) (lines : List Bytes) (hint line : Bytes)
    → get_elem? lines sel ≡ some line
    → (let pane = list_pane m w rows sel heading lines hint in
        (row : ℕ) × IsPart (marked_row w row line) pane.drawn
        × (5 < row)
        × (row < pane.next_row)
        × (pane.next_row < bottom_row rows pane.next_row)
        × ((rows < 9) ⊎ (bottom_row rows pane.next_row < rows)))
unfolding list_pane
list_pane-marked_row m w rows sel heading lines hint line e =
    let max = visible_rows rows 6 in
    let start = window_start max sel in
    let shown = take max (drop start lines) in
    let (some_row, room) = visible_rows-bounds rows in
    let (k, lt, at) = window_start-window max sel some_row in
    let found : get_elem? shown k ≡ some line =
      get_elem?-take max k (drop start lines) lt
      ∙ get_elem?-drop start k lines
      ∙ ap (λ (n : ℕ). get_elem? lines n) (sym at)
      ∙ e in
    let few = length-take_le max (drop start lines) in
    let within = get_elem?_lt k shown line found in
    (
      6 + k,
      IsPart-append _ (move_to 4 1 ++ heading) _
          (list_rows-marked_row w sel start k 6 line shown at found),
      omega arith,
      omega arith,
      ground arith,
      ground arith,
    )
