-- ===== src/Tui/Handle.antt =====
-- gateway-go/tui.go: `tuiKey`, `tuiFeed` and the opening of the panel. `none` is a panic.
use imsai_8080_esp_tty_gtw.Prelude.{
  Bool, true, false, Bytes, List, [], ◌∷◌, Option, none, some, if◌then◌else◌,
}
use imsai_8080_esp_tty_gtw.Tui.Keys.{Key, k_char, k_enter, k_esc, decode}
use imsai_8080_esp_tty_gtw.Tui.Model.{
  tm_disks, tm_library, tm_panel, tm_system, tm_lib, tm_lib_preview, Control, Outside, new_model,
}
use imsai_8080_esp_tty_gtw.Tui.Modes.{
  close, disks_key, is_letter, lib_key, panel_key, picker_key, preview_key, stay, system_key,
}
use imsai_8080_esp_tty_gtw.Tui.Draw.{tui_draw}
use imsai_8080_esp_tty_gtw.Tui.Cpa.{say}
use imsai_8080_esp_tty_gtw.Tui.Disks.{refresh_disks}
use imsai_8080_esp_tty_gtw.Tui.Library.{delete_lib}
use imsai_8080_esp_tty_gtw.Prelude.{codes}

-- The question is over.
abbrev pub answered_no_more : Control → Control
answered_no_more c = record c {
  m = record c.m { confirm = false; confirm_act = none; confirm_msg = [] };
}

abbrev pub run_confirmed : Outside → Control → Option Bytes → Control
run_confirmed o c none = c
run_confirmed o c (some name) = delete_lib o c name

abbrev pub cancelled : Control → Control
cancelled c = say (answered_no_more c) (codes "cancelled")

-- A pending question takes every key.
unfoldable pub confirm_key : Outside → Control → Key → Control
confirm_key o c k = elim k [
  | k_char ch ↦
      if is_letter ch b'y' b'Y'
      then run_confirmed o (answered_no_more c) c.m.confirm_act
      else if is_letter ch b'n' b'N'
      then cancelled c
      else c
  | k_esc ↦ cancelled c
  | _ ↦ c
]

abbrev pub is_navigation : Key → Bool
is_navigation k = elim k [ k_char _ ↦ false | k_enter ↦ false | k_esc ↦ false | _ ↦ true ]

abbrev pub browsing : Control → Key → Control
browsing c k = if is_navigation k then say c [] else c

unfoldable pub mode_key : Outside → Control → Key → Option (Control × Bool)
unfolding disks_key panel_key system_key lib_key preview_key picker_key
mode_key o c k = elim c.m.mode [
  | tm_disks ↦ disks_key o c k
  | tm_panel ↦ panel_key o c k
  | tm_system ↦ system_key o c k
  | tm_lib ↦ lib_key o c k
  | tm_lib_preview ↦ preview_key o c k
  | tm_library ↦ picker_key o c k
]

-- With whether the panel is to close.
unfoldable pub tui_key : Outside → Control → Key → Option (Control × Bool)
unfolding confirm_key mode_key
tui_key o c k = if c.m.confirm then stay (confirm_key o c k) else mode_key o (browsing c k) k

-- The keys of a read, to the first that closes the panel.
unfoldable pub tui_keys : Outside → Control → List Key → Option (Control × Bool)
unfolding tui_key
tui_keys o c [] = stay c
tui_keys o c (k ∷ ks) = elim (tui_key o c k) [
  | none ↦ none
  | some (c', exited) ↦ elim exited [ true ↦ close c' | false ↦ tui_keys o c' ks ]
]

abbrev pub drawn_if_open : Option (Control × Bool) → Option (Control × Bool)
drawn_if_open none = none
drawn_if_open (some (c, true)) = close c
drawn_if_open (some (c, false)) = stay (tui_draw c)

unfoldable pub tui_feed : Outside → Control → Bytes → Option (Control × Bool)
unfolding tui_keys
tui_feed o c bytes =
    let (dec, keys) = decode c.m.dec bytes in
    drawn_if_open (tui_keys o (record c { m = record c.m { dec = dec } }) keys)

-- `enterTUI`, without the sequences that are written between the two.
unfoldable pub open_tui : Outside → Control → Control
open_tui o c = tui_draw (refresh_disks o (record c { m = new_model }))
