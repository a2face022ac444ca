-- ===== src/Tui/Ansi.antt =====
-- gateway-go/tui.go: the escape sequences and the helpers of the renderer. Positions and widths are
-- not negative where the code computes them, and a Go int below 1 reads as 0 here.
use imsai_8080_esp_tty_gtw.Prelude.{
  [], ◌∷◌, ◌/◌, ℕ, ◌-◌, Bytes, ◌++◌, codes, leb, ltb, if◌then◌else◌, length, take, replicate,
}
use imsai_8080_esp_tty_gtw.Decimal.{show_nat}

abbrev pub csi : Bytes
csi = 0x1b ∷ b'[' ∷ []

abbrev pub ansi_enter_alt : Bytes
ansi_enter_alt = csi ++ codes "?1049h"

abbrev pub ansi_leave_alt : Bytes
ansi_leave_alt = csi ++ codes "?1049l"

abbrev pub ansi_hide_cur : Bytes
ansi_hide_cur = csi ++ codes "?25l"

abbrev pub ansi_show_cur : Bytes
ansi_show_cur = csi ++ codes "?25h"

abbrev pub ansi_wrap_off : Bytes
ansi_wrap_off = csi ++ codes "?7l"

abbrev pub ansi_wrap_on : Bytes
ansi_wrap_on = csi ++ codes "?7h"

abbrev pub ansi_clear : Bytes
ansi_clear = csi ++ codes "2J"

abbrev pub ansi_reverse : Bytes
ansi_reverse = csi ++ codes "7m"

abbrev pub ansi_bold : Bytes
ansi_bold = csi ++ codes "1m"

abbrev pub ansi_yellow : Bytes
ansi_yellow = csi ++ codes "33m"

abbrev pub ansi_reset : Bytes
ansi_reset = csi ++ codes "0m"

-- `if x < 1 { x = 1 }`.
abbrev pub floor_one : ℕ → ℕ
floor_one x = if ltb x 1 then 1 else x

unfoldable pub move_to : ℕ → ℕ → Bytes
move_to row col =
    csi ++ (show_nat (floor_one row) ++ (b';' ∷ (show_nat (floor_one col) ++ b'H' ∷ [])))

unfoldable pub pad : Bytes → ℕ → Bytes
pad s n = if leb n (length s) then take n s else s ++ replicate (n - length s) b' '

unfoldable pub truncate : Bytes → ℕ → Bytes
truncate s n = if ltb n (length s) then take n s else s

unfoldable pub center_cell : Bytes → ℕ → Bytes
center_cell s w =
    let s' = if ltb w (length s) then take w s else s in
    let total = w - length s' in
    replicate (total / 2) b' ' ++ (s' ++ replicate (total - total / 2) b' ')
