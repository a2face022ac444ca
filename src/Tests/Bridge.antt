-- ===== src/Tests/Bridge.antt =====
-- A session with a panel that closes at its first input.
use imsai_8080_esp_tty_gtw.Prelude.{
  ℕ, ◌+◌, Bool, true, false, Bytes, List, [], ◌∷◌, ◌++◌, ◌≡◌, refl, arith, codes, has_prefix,
}
use imsai_8080_esp_tty_gtw.Config.Settings.{Config, default_config}
use imsai_8080_esp_tty_gtw.Tui.Ansi.{ansi_show_cur, ansi_wrap_on, ansi_leave_alt}
use imsai_8080_esp_tty_gtw.Bridge.Session.{Panel, Session}
use imsai_8080_esp_tty_gtw.Bridge.Console.{
  tui_out_buf_max, keep_last, enter_tui, exit_tui, end_bridge,
}
use imsai_8080_esp_tty_gtw.Bridge.Pump.{filter_of, filtered, pump_ws_to_tcp}
use imsai_8080_esp_tty_gtw.Terminal.Input.{TerminalInput, new_terminal_input}
use imsai_8080_esp_tty_gtw.Bridge.Buffer.{
  concat_all, exit_tui-pump_ws_to_tcp, pump_ws_to_tcp-end_bridge,
}
use imsai_8080_esp_tty_gtw.Bridge.Gateway.{
  Gateway, started, admit, Reached, start, step, arrive, Round, unreachable, bridged, going, rounds,
}
use imsai_8080_esp_tty_gtw.Bridge.Admission.{IsCounted, Reached-IsCounted}
use imsai_8080_esp_tty_gtw.Bridge.Reconnect.{rounds_unlimited}

abbrev accepts_all : ℕ → Bool
accepts_all k = true

abbrev quick : Panel ℕ
quick = record { open_panel = λ p. (0, codes "panel"); feed = λ p bytes. (p + 1, [], true) }

abbrev idle : Session ℕ
idle = record {
  cfg = record default_config { hotkey_bytes = 0x1c ∷ [] };
  ws = record { sent = []; writes = 0 };
  tui = false;
  panel = 0;
  out_buf = [];
  hk_match = 0;
  to_client = [];
}

abbrev shown : Session ℕ
shown = record idle { tui = true; out_buf = codes "old" }

abbrev two_frames : List Bytes
two_frames = codes "A" ∷ codes "B" ∷ []

exit_tui-pump_ws_to_tcp_example : exit_tui (pump_ws_to_tcp shown two_frames) ≡ record shown {
  tui = false;
  out_buf = [];
  to_client =
      shown.to_client
      ++ (ansi_show_cur ++ ansi_wrap_on ++ ansi_leave_alt)
      ++ keep_last tui_out_buf_max
          (shown.out_buf ++ (filtered (filter_of shown.cfg) (concat_all two_frames)).1);
}
exit_tui-pump_ws_to_tcp_example = exit_tui-pump_ws_to_tcp shown two_frames refl (omega arith)

abbrev writes_all : Bytes → Bool
writes_all b = true

-- The panel is open when the connection ends, with output held back.
pump_ws_to_tcp-end_bridge_example :
    (let s' = pump_ws_to_tcp (end_bridge writes_all shown) two_frames in
      (s' ≡ record shown {
        tui = false;
        to_client =
            (shown.to_client ++ (ansi_show_cur ++ ansi_wrap_on ++ ansi_leave_alt))
            ++ (filtered (filter_of shown.cfg) (concat_all two_frames)).1;
      })
      × ((exit_tui (enter_tui quick s')).to_client
          ≡ (enter_tui quick s').to_client
            ++ (ansi_show_cur ++ ansi_wrap_on ++ ansi_leave_alt)
            ++ shown.out_buf)
      × ((exit_tui (enter_tui quick s')).out_buf ≡ []))
pump_ws_to_tcp-end_bridge_example =
    pump_ws_to_tcp-end_bridge quick writes_all shown two_frames refl refl

abbrev one_client : Gateway
one_client = admit default_config started 7

Reached-one : Reached default_config one_client
Reached-one = step start (arrive started 7)

Reached-IsCounted_example : IsCounted default_config one_client
Reached-IsCounted_example = Reached-IsCounted default_config one_client Reached-one

abbrev twice : Config
twice = record default_config { reconnect_max = 2 }

abbrev lost : List Round
lost = unreachable true ∷ bridged (codes "device WS closed") true ∷ []

rounds_unlimited_example : (a' : ℕ) × (rounds default_config (going 3) lost ≡ going a')
unfolding has_prefix
rounds_unlimited_example = rounds_unlimited default_config 3 lost refl refl (refl, (refl, tt))

abbrev telnet_client : TerminalInput
telnet_client = new_terminal_input (codes "auto") (codes "cr")

-- A line that is cut between its CR and its LF.
abbrev two_reads : List Bytes
two_reads = (codes "DIR" ++ 13 ∷ []) ∷ (10 ∷ codes "A") ∷ []
