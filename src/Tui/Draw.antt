-- ===== src/Tui/Draw.antt =====
-- gateway-go/tui.go: `tuiDraw`. What is drawn is joined in the order of the writes to the builder.
use imsai_8080_esp_tty_gtw.Prelude.{
  ℕ, ◌+◌, ◌-◌, Bool, true, false, ◌||◌, Bytes, List, [], ◌∷◌, ◌++◌, Option, none, some, codes, ltb,
  ◌==◌, if◌then◌else◌, length, take, drop, map, text_eq, pad_right, pad_left,
}
use imsai_8080_esp_tty_gtw.Decimal.{show_nat, show_int}
use imsai_8080_esp_tty_gtw.Device.Lists.{DriveEntry, LibEntry}
use imsai_8080_esp_tty_gtw.Tui.Ansi.{
  ansi_clear, ansi_bold, ansi_reset, ansi_yellow, move_to, truncate,
}
use imsai_8080_esp_tty_gtw.Tui.Model.{
  Mode, tm_disks, tm_library, tm_panel, tm_system, tm_lib, tm_lib_preview, TuiModel, Control,
}
use imsai_8080_esp_tty_gtw.Tui.Rows.{
  reversed, list_rows, text_rows, window_start, at_least, visible_rows, draw_panel,
}

abbrev pub product_name : Bytes
product_name = codes "IMSAI 8080 esp Replica - TTY Gateway Control"

abbrev pub version : Bytes
version = codes "0.3.8"

-- 80 by 24 where the client told no size, or an empty one.
unfoldable pub window_size : Option (ℕ × ℕ) → ℕ × ℕ
window_size none = (80, 24)
window_size (some (cols, rows)) = if cols == 0 || rows == 0 then (80, 24) else (cols, rows)

abbrev pub tab : Bytes → Bool → Bytes
tab label true = reversed (codes " " ++ (label ++ codes " "))
tab label false = codes " " ++ (label ++ codes " ")

abbrev pub on_disks : Mode → Bool
on_disks tm_disks = true
on_disks tm_library = true
on_disks _ = false

abbrev pub on_lib : Mode → Bool
on_lib tm_lib = true
on_lib tm_lib_preview = true
on_lib _ = false

abbrev pub on_panel : Mode → Bool
on_panel tm_panel = true
on_panel _ = false

abbrev pub on_system : Mode → Bool
on_system tm_system = true
on_system _ = false

unfoldable pub title : Mode → Bytes
title mode =
    ansi_clear
    ++ (move_to 1 1
        ++ ((ansi_bold
              ++ (codes " "
                  ++ (product_name ++ (codes " v" ++ (version ++ (codes " " ++ ansi_reset))))))
            ++ (move_to 2 1
                ++ (tab (codes "Disks") (on_disks mode)
                    ++ (codes " "
                        ++ (tab (codes "Panel") (on_panel mode)
                            ++ (codes " "
                                ++ (tab (codes "SYS") (on_system mode)
                                    ++ (codes " "
                                        ++ (tab (codes "LIB") (on_lib mode)
                                            ++ codes "   (Tab to switch)"))))))))))

abbrev pub drive_line : DriveEntry → Bytes
drive_line d =
    codes " "
    ++ (pad_right 3 (d.id ++ codes ":")
        ++ (codes " "
            ++ ((if text_eq d.image [] then codes "(empty)" else d.image)
                ++ ((if d.hard_disk then codes "  [HDD]" else [])
                    ++ (if d.remote then codes "  [remote]" else [])))))

abbrev pub longest : ℕ → List LibEntry → ℕ
longest w [] = w
longest w (it ∷ items) =
    longest (if ltb w (length it.filename) then length it.filename else w) items

abbrev pub lib_line : ℕ → LibEntry → Bytes
lib_line name_w it =
    codes " "
    ++ (pad_right name_w it.filename
        ++ (codes "  " ++ (pad_left 9 (show_int it.size) ++ codes " bytes")))

abbrev pub scroll_note : ℕ → ℕ → ℕ → Bytes
scroll_note visible scroll n =
    if ltb visible n
    then codes "   ["
      ++ (show_nat (scroll + 1)
          ++ (codes "-"
              ++ (show_nat (if ltb n (scroll + visible) then n else scroll + visible)
                  ++ (codes "/" ++ (show_nat n ++ codes "]")))))
    else []

-- `if scroll > n-1 { scroll = max(0, n-1) }`.
abbrev pub scroll_within : ℕ → ℕ → ℕ
scroll_within scroll n = if ltb n (scroll + 1) then n - 1 else scroll

-- What a pane draws: the model with its scroll put right, the next free row, the bytes and the hint.
pub record Pane : Type 0 where
  pub model : TuiModel
  pub next_row : ℕ
  pub drawn : Bytes
  pub hint : Bytes

-- The rows of a window of a list, behind a heading and an empty row.
unfoldable pub list_pane : TuiModel → ℕ → ℕ → ℕ → Bytes → List Bytes → Bytes → Pane
list_pane m w rows sel heading lines hint =
    let max = visible_rows rows 6 in
    let start = window_start max sel in
    let shown = take max (drop start lines) in
    record {
      model = m;
      next_row = 6 + length shown;
      drawn = (move_to 4 1 ++ heading) ++ list_rows w sel start 6 shown;
      hint = hint;
    }

unfoldable pub disks_pane : TuiModel → ℕ → Pane
disks_pane m w = record {
  model = m;
  next_row = 6 + length m.disks;
  drawn = (move_to 4 1 ++ codes "Drives:") ++ list_rows w m.sel 0 6 (map drive_line m.disks);
  hint = codes "Up/Dn select   e eject   Enter/m mount   r refresh   Tab panel   q quit";
}

unfoldable pub preview_pane : TuiModel → ℕ → ℕ → Pane
preview_pane m w rows =
    let visible = visible_rows rows 4 in
    let n = length m.prev_lines in
    let scroll = scroll_within m.prev_scroll n in
    let shown = take visible (drop scroll m.prev_lines) in
    let user_nav =
      if ltb 1 (length m.prev_users)
      then codes "   Left/Right user ("
        ++ (show_nat (m.prev_user_idx + 1)
            ++ (codes "/" ++ (show_nat (length m.prev_users) ++ codes ")")))
      else [] in
    record {
      model = record m { prev_scroll = scroll };
      next_row = 4 + length shown;
      drawn = text_rows w 4 shown;
      hint =
          codes "Up/Dn/PgUp/PgDn scroll"
          ++ (scroll_note visible scroll n ++ (user_nav ++ codes "   q/Esc back"));
    }

unfoldable pub system_pane : TuiModel → ℕ → ℕ → Pane
system_pane m w rows =
    let visible = visible_rows rows 4 in
    let n = length m.sys_lines in
    let scroll = scroll_within m.sys_scroll n in
    let shown = take visible (drop scroll m.sys_lines) in
    record {
      model = record m { sys_scroll = scroll };
      next_row = 4 + length shown;
      drawn = text_rows w 4 shown;
      hint =
          codes "Up/Dn/PgUp/PgDn scroll"
          ++ (scroll_note visible scroll n ++ codes "   r refresh   Tab LIB   q quit");
    }

unfoldable pub panel_pane : TuiModel → Bytes → Pane
panel_pane m cpa_status =
    let (row, drawn) = draw_panel cpa_status m.sel_sw 4 in
    record {
      model = m;
      next_row = row;
      drawn = drawn;
      hint = codes "Left/Right select   Up/Dn actuate   r refresh   Tab SYS   q quit";
    }

unfoldable pub pane_of : TuiModel → Bytes → ℕ → ℕ → Pane
unfolding list_pane disks_pane preview_pane system_pane panel_pane
pane_of m cpa_status w rows = elim m.mode [
  | tm_disks ↦ disks_pane m w
  | tm_library ↦
      list_pane m w rows m.lib_sel (codes "Mount into " ++ (m.lib_for ++ codes " - pick an image:"))
        (map (λ f. codes " " ++ f) m.lib_view) (codes "Up/Dn/PgUp/PgDn   Enter mount   q/Esc back")
  | tm_lib ↦
      list_pane m w rows m.lib_item_sel
        (codes "Library (" ++ (show_nat (length m.lib_items) ++ codes " images):"))
        (map (lib_line (longest 0 m.lib_items)) m.lib_items)
        (codes "Up/Dn/PgUp/PgDn   Enter/v view   d delete   r refresh   Tab disks   q quit")
  | tm_lib_preview ↦ preview_pane m w rows
  | tm_panel ↦ panel_pane m cpa_status
  | tm_system ↦ system_pane m w rows
]

-- The bottom line: a question, else a message, else the hint.
unfoldable pub bottom_bar : TuiModel → ℕ → Bytes → Bytes
bottom_bar m w hint =
    if m.confirm
    then reversed (truncate m.confirm_msg w)
    else if text_eq m.status []
    then truncate hint w
    else ansi_yellow ++ (truncate m.status w ++ ansi_reset)

abbrev pub bottom_row : ℕ → ℕ → ℕ
bottom_row rows row = at_least (row + 1) (rows - 1)

unfoldable pub tui_draw : Control → Control
unfolding window_size title pane_of bottom_bar
tui_draw c =
    let (cols, rows) = window_size c.size in
    let w = cols - 1 in
    let m = record c.m { page_step = at_least 1 (rows - 6) } in
    let pane = pane_of m c.cpa_status w rows in
    record c {
      m = pane.model;
      out =
          c.out
          ++ (title m.mode
              ++ (pane.drawn
                  ++ (move_to (bottom_row rows pane.next_row) 1
                      ++ bottom_bar pane.model w pane.hint)));
    }
