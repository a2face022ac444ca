-- ===== src/Tui/Rows.antt =====
-- gateway-go/tui.go: the rows of a list, a window of a list, and the drawing of the front panel
-- (`drawPanel`, `ledForCol`).
use imsai_8080_esp_tty_gtw.Prelude.{
  ℕ, ◌+◌, ◌-◌, ◌/◌, Bytes, List, [], ◌∷◌, ◌++◌, Option, none, some, codes, ltb, leb, ◌==◌,
  if◌then◌else◌, length, replicate,
}
use imsai_8080_esp_tty_gtw.Tui.Ansi.{ansi_reverse, ansi_reset, move_to, pad, truncate, center_cell}
use imsai_8080_esp_tty_gtw.Tui.Model.{PanelSwitch, panel_switches, led_on}

abbrev pub reversed : Bytes → Bytes
reversed s = ansi_reverse ++ (s ++ ansi_reset)

-- The rows of a list from `row` on, `i` being the index of the first; the selected one is marked.
unfoldable pub list_rows : ℕ → ℕ → ℕ → ℕ → List Bytes → Bytes
list_rows w sel i row [] = []
list_rows w sel i row (line ∷ lines) =
    move_to row 1
    ++ ((if i == sel then reversed (pad line w) else truncate line w)
        ++ list_rows w sel (i + 1) (row + 1) lines)

unfoldable pub text_rows : ℕ → ℕ → List Bytes → Bytes
text_rows w row [] = []
text_rows w row (line ∷ lines) = move_to row 1 ++ (truncate line w ++ text_rows w (row + 1) lines)

-- The first index of the window of `max` rows in which `sel` stands.
unfoldable pub window_start : ℕ → ℕ → ℕ
window_start max sel = if leb max sel then sel - max + 1 else 0

abbrev pub at_least : ℕ → ℕ → ℕ
at_least k n = if ltb n k then k else n

-- `rows - row - 2`, and 1 where that is less.
abbrev pub visible_rows : ℕ → ℕ → ℕ
visible_rows rows row = at_least 1 (rows - row - 2)

-- The lamp above a switch: the place and the letter in the status, and the name.
abbrev pub led_for_col : ℕ → Option (ℕ × ℕ × Bytes)
led_for_col i =
    if i == 2
    then some (1, b'I', codes "INTER")
    else if i == 3
    then some (2, b'R', codes "RUN")
    else if i == 4
    then some (3, b'W', codes "WAIT")
    else if i == 5
    then some (4, b'H', codes "HOLD")
    else none

abbrev pub col_w : ℕ
col_w = 12

abbrev pub lamp_cell : Bytes → Option (ℕ × ℕ × Bytes) → Bytes
lamp_cell status none = center_cell [] col_w
lamp_cell status (some (idx, ch, name)) =
    let lamp = b'(' ∷ (name ++ b')' ∷ []) in
    let total = col_w - length lamp in
    let left = total / 2 in
    replicate left b' '
    ++ ((if led_on status idx ch then reversed lamp else lamp) ++ replicate (total - left) b' ')

abbrev pub leds : Bytes → ℕ → List PanelSwitch → Bytes
leds status i [] = []
leds status i (sw ∷ sws) = lamp_cell status (led_for_col i) ++ leds status (i + 1) sws

-- The cell of every switch, the selected one marked.
abbrev pub switch_cells : ℕ → ℕ → Bytes → List PanelSwitch → Bytes
switch_cells sel i cell [] = []
switch_cells sel i cell (sw ∷ sws) =
    (if i == sel then reversed (center_cell cell col_w) else center_cell cell col_w)
    ++ switch_cells sel (i + 1) cell sws

abbrev pub labels : (PanelSwitch → Bytes) → List PanelSwitch → Bytes
labels label [] = []
labels label (sw ∷ sws) = center_cell (label sw) col_w ++ labels label sws

-- The lines without the margin, one row each.
abbrev pub plain_rows : ℕ → List Bytes → Bytes
plain_rows row [] = []
plain_rows row (line ∷ lines) = move_to row 1 ++ (codes " " ++ (line ++ plain_rows (row + 1) lines))

-- With the next free row.
unfoldable pub draw_panel : Bytes → ℕ → ℕ → ℕ × Bytes
draw_panel status sel_sw row =
    let lines =
      labels (λ sw. sw.up_label) panel_switches
      ∷ switch_cells sel_sw 0 (codes "[ ^ ]") panel_switches
      ∷ switch_cells sel_sw 0 (codes "[ = ]") panel_switches
      ∷ switch_cells sel_sw 0 (codes "[ v ]") panel_switches
      ∷ labels (λ sw. sw.down_label) panel_switches
      ∷ [] in
    (
      row + 2 + 5,
      move_to row 1 ++ (codes " " ++ (leds status 0 panel_switches ++ plain_rows (row + 2) lines)),
    )
