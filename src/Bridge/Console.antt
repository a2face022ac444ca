-- ===== src/Bridge/Console.antt =====
-- gateway-go/bridge.go, gateway-go/tui.go: the way from the device to the client: the loop body of
-- `pumpWSToTCP` behind the filter, `enterTUI`, `exitTUI`, and the end of `runBridge`. A frame that
-- cannot be written ends the pump (Bridge/Run); the writes of `enterTUI` and `exitTUI`, whose errors
-- the code ignores, are taken to succeed.
use imsai_8080_esp_tty_gtw.Prelude.{
  ℕ, ◌-◌, Bool, true, false, ◌&&◌, Bytes, List, [], ◌∷◌, ◌++◌, length, drop, ltb, if◌then◌else◌,
}
use imsai_8080_esp_tty_gtw.Bridge.Session.{Panel, Session}
use imsai_8080_esp_tty_gtw.Tui.Ansi.{
  ansi_enter_alt, ansi_hide_cur, ansi_wrap_off, ansi_show_cur, ansi_wrap_on, ansi_leave_alt,
}

-- `tuiOutBufMax`.
abbrev pub tui_out_buf_max : ℕ
tui_out_buf_max = 262144

-- `b[len(b)-max:]` where `b` is longer than `max`.
abbrev pub keep_last : ℕ → Bytes → Bytes
keep_last max b = if ltb max (length b) then drop (length b - max) b else b

module _ {P : Type 0} where
  unfoldable pub device_frame : Session P → Bytes → Session P
  device_frame s bytes =
      if s.tui
      then record s { out_buf = keep_last tui_out_buf_max (s.out_buf ++ bytes) }
      else record s { to_client = s.to_client ++ bytes }

  unfoldable pub device_frames : Session P → List Bytes → Session P
  device_frames s [] = s
  device_frames s (f ∷ fs) = device_frames (device_frame s f) fs

  unfoldable pub enter_tui : Panel P → Session P → Session P
  enter_tui panel s =
      let (p, drawn) = panel.open_panel s.panel in
      record s {
        tui = true;
        panel = p;
        to_client = s.to_client ++ (ansi_enter_alt ++ ansi_hide_cur ++ ansi_wrap_off ++ drawn);
      }

  unfoldable pub exit_tui : Session P → Session P
  exit_tui s = record s {
    tui = false;
    out_buf = [];
    to_client = s.to_client ++ (ansi_show_cur ++ ansi_wrap_on ++ ansi_leave_alt) ++ s.out_buf;
  }

  -- What `runBridge` does to the session when both pumps have ended. The error of the write is
  -- ignored; `writable` says whether it succeeds, by all that would be written then.
  unfoldable pub end_bridge : (Bytes → Bool) → Session P → Session P
  end_bridge writable s =
      let restored = s.to_client ++ (ansi_show_cur ++ ansi_wrap_on ++ ansi_leave_alt) in
      if s.tui && writable restored
      then record s { tui = false; to_client = restored }
      else record s { tui = false }
