-- ===== src/Tui/Modes.antt =====
-- gateway-go/tui.go: `tuiKey`: what a key does in each mode. `none` is a panic.
use imsai_8080_esp_tty_gtw.Prelude.{
  ℕ, ◌+◌, Bool, true, false, ◌||◌, [], Option, none, some, ◌==◌, if◌then◌else◌, length,
}
use imsai_8080_esp_tty_gtw.Tui.Keys.{
  Key, k_char, k_enter, k_esc, k_up, k_down, k_left, k_right, k_page_up, k_page_down,
}
use imsai_8080_esp_tty_gtw.Tui.Model.{
  Mode, tm_disks, tm_lib, TuiModel, Control, Outside, minus, up_one, down_one, page_up, page_down,
  panel_switches,
}
use imsai_8080_esp_tty_gtw.Tui.Cpa.{enter_panel, refresh_panel, do_actuate}
use imsai_8080_esp_tty_gtw.Tui.Disks.{refresh_disks, open_library, do_eject, do_mount}
use imsai_8080_esp_tty_gtw.Tui.Library.{
  enter_system, refresh_system, enter_lib, refresh_lib, do_preview, preview_set_user,
  ask_delete_lib,
}

-- The panel goes on, or closes.
abbrev pub stay : Control → Option (Control × Bool)
stay c = some (c, false)

abbrev pub close : Control → Option (Control × Bool)
close c = some (c, true)

abbrev pub stay_if : Option Control → Option (Control × Bool)
stay_if none = none
stay_if (some c) = stay c

-- Either case of a letter.
abbrev pub is_letter : ℕ → ℕ → ℕ → Bool
is_letter ch lower upper = ch == lower || ch == upper

abbrev pub with_m : Control → TuiModel → Control
with_m c m = record c { m = m }

unfoldable pub disks_char : Outside → Control → ℕ → Option (Control × Bool)
disks_char o c ch =
    if is_letter ch b'q' b'Q'
    then close c
    else if ch == 9
    then stay (enter_panel o c)
    else if is_letter ch b'r' b'R'
    then stay (refresh_disks o c)
    else if is_letter ch b'e' b'E'
    then stay_if (do_eject o c)
    else if is_letter ch b'm' b'M'
    then stay_if (open_library o c)
    else stay c

unfoldable pub disks_key : Outside → Control → Key → Option (Control × Bool)
unfolding disks_char
disks_key o c k =
    let n = length c.m.disks in
    let move = λ (i : ℕ). stay (with_m c (record c.m { sel = i })) in
    elim k [
      | k_up ↦ move (up_one c.m.sel)
      | k_down ↦ move (down_one c.m.sel n)
      | k_page_up ↦ move (page_up c.m c.m.sel n)
      | k_page_down ↦ move (page_down c.m c.m.sel n)
      | k_enter ↦ stay_if (open_library o c)
      | k_esc ↦ close c
      | k_char ch ↦ disks_char o c ch
      | _ ↦ stay c
    ]

unfoldable pub panel_char : Outside → Control → ℕ → Option (Control × Bool)
panel_char o c ch =
    if is_letter ch b'q' b'Q'
    then close c
    else if ch == 9
    then stay (enter_system o c)
    else if is_letter ch b'r' b'R'
    then stay (refresh_panel o c)
    else if is_letter ch b'u' b'U'
    then stay_if (do_actuate o c true)
    else if is_letter ch b'd' b'D'
    then stay_if (do_actuate o c false)
    else stay c

unfoldable pub panel_key : Outside → Control → Key → Option (Control × Bool)
unfolding panel_char
panel_key o c k =
    let move = λ (i : ℕ). stay (with_m c (record c.m { sel_sw = i })) in
    elim k [
      | k_left ↦ move (up_one c.m.sel_sw)
      | k_right ↦ move (down_one c.m.sel_sw (length panel_switches))
      | k_up ↦ stay_if (do_actuate o c true)
      | k_down ↦ stay_if (do_actuate o c false)
      | k_esc ↦ close c
      | k_char ch ↦ panel_char o c ch
      | _ ↦ stay c
    ]

unfoldable pub system_char : Outside → Control → ℕ → Option (Control × Bool)
system_char o c ch =
    if is_letter ch b'q' b'Q'
    then close c
    else if ch == 9
    then stay (enter_lib o c)
    else if is_letter ch b'r' b'R'
    then stay (refresh_system o c)
    else stay c

unfoldable pub system_key : Outside → Control → Key → Option (Control × Bool)
unfolding system_char
system_key o c k =
    let n = length c.m.sys_lines in
    let move = λ (i : ℕ). stay (with_m c (record c.m { sys_scroll = i })) in
    elim k [
      | k_up ↦ move (up_one c.m.sys_scroll)
      | k_down ↦ move (down_one c.m.sys_scroll n)
      | k_page_up ↦ move (page_up c.m c.m.sys_scroll n)
      | k_page_down ↦ move (page_down c.m c.m.sys_scroll n)
      | k_esc ↦ close c
      | k_char ch ↦ system_char o c ch
      | _ ↦ stay c
    ]

-- `m.mode = mode; m.status = ""`.
abbrev pub back_to : Control → Mode → Control
back_to c mode = record c { m = record c.m { mode = mode; status = [] } }

unfoldable pub lib_char : Outside → Control → ℕ → Option (Control × Bool)
lib_char o c ch =
    if is_letter ch b'q' b'Q'
    then close c
    else if ch == 9
    then stay (back_to c tm_disks)
    else if is_letter ch b'r' b'R'
    then stay (refresh_lib o c)
    else if is_letter ch b'v' b'V'
    then stay (do_preview o c)
    else if is_letter ch b'd' b'D'
    then stay (ask_delete_lib c)
    else stay c

unfoldable pub lib_key : Outside → Control → Key → Option (Control × Bool)
unfolding lib_char
lib_key o c k =
    let n = length c.m.lib_items in
    let move = λ (i : ℕ). stay (with_m c (record c.m { lib_item_sel = i })) in
    elim k [
      | k_up ↦ move (up_one c.m.lib_item_sel)
      | k_down ↦ move (down_one c.m.lib_item_sel n)
      | k_page_up ↦ move (page_up c.m c.m.lib_item_sel n)
      | k_page_down ↦ move (page_down c.m c.m.lib_item_sel n)
      | k_enter ↦ stay (do_preview o c)
      | k_esc ↦ close c
      | k_char ch ↦ lib_char o c ch
      | _ ↦ stay c
    ]

-- Esc and q go back.
abbrev pub back_char : Control → Mode → ℕ → Option (Control × Bool)
back_char c mode ch = if is_letter ch b'q' b'Q' then stay (back_to c mode) else stay c

unfoldable pub preview_key : Outside → Control → Key → Option (Control × Bool)
preview_key o c k =
    let n = length c.m.prev_lines in
    let move = λ (i : ℕ). stay (with_m c (record c.m { prev_scroll = i })) in
    elim k [
      | k_up ↦ move (up_one c.m.prev_scroll)
      | k_down ↦ move (down_one c.m.prev_scroll n)
      | k_page_up ↦ move (page_up c.m c.m.prev_scroll n)
      | k_page_down ↦ move (page_down c.m c.m.prev_scroll n)
      | k_left ↦ stay (preview_set_user c (minus c.m.prev_user_idx 1))
      | k_right ↦ stay (preview_set_user c (some (c.m.prev_user_idx + 1)))
      | k_esc ↦ stay (back_to c tm_lib)
      | k_char ch ↦ back_char c tm_lib ch
      | _ ↦ stay c
    ]

unfoldable pub picker_key : Outside → Control → Key → Option (Control × Bool)
picker_key o c k =
    let n = length c.m.lib_view in
    let move = λ (i : ℕ). stay (with_m c (record c.m { lib_sel = i })) in
    elim k [
      | k_up ↦ move (up_one c.m.lib_sel)
      | k_down ↦ move (down_one c.m.lib_sel n)
      | k_page_up ↦ move (page_up c.m c.m.lib_sel n)
      | k_page_down ↦ move (page_down c.m c.m.lib_sel n)
      | k_enter ↦ stay (do_mount o c)
      | k_esc ↦ stay (back_to c tm_disks)
      | k_char ch ↦ back_char c tm_disks ch
      | _ ↦ stay c
    ]
