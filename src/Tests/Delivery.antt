-- ===== src/Tests/Delivery.antt =====
-- Runs of a bridge. A frame, the hotkey, a frame for the open panel, and a key that closes it.
use imsai_8080_esp_tty_gtw.Prelude.{
  ℕ, ◌+◌, Bool, true, false, Bytes, List, [], ◌∷◌, ◌++◌, none, some, ok, err, inl, text_eq,
  has_prefix, ◌≡◌, refl, arith, codes,
}
use imsai_8080_esp_tty_gtw.Config.Settings.{default_config}
use imsai_8080_esp_tty_gtw.Tui.Ansi.{
  ansi_enter_alt, ansi_hide_cur, ansi_wrap_off, ansi_show_cur, ansi_wrap_on, ansi_leave_alt,
}
use imsai_8080_esp_tty_gtw.Bridge.Session.{Panel, Session}
use imsai_8080_esp_tty_gtw.Bridge.Console.{device_frame, enter_tui, exit_tui}
use imsai_8080_esp_tty_gtw.Bridge.Input.{cut_at, forward_some, feed_panel, matched, handle_input}
use imsai_8080_esp_tty_gtw.Bridge.Delivery.{IsDelivered}
use imsai_8080_esp_tty_gtw.Bridge.Locks.{
  begun, tested, written, typed, test_frame, write_frame, IsDeliveredBut,
  Interleaved-IsDeliveredBut,
}
use imsai_8080_esp_tty_gtw.Bridge.Pump.{filter_of, filtered}
use imsai_8080_esp_tty_gtw.Bridge.Sent.{IsSent}
use imsai_8080_esp_tty_gtw.Terminal.Input.{TerminalInput, new_terminal_input}
use imsai_8080_esp_tty_gtw.Terminal.Feed.{feed_all, feed_telnet}
use imsai_8080_esp_tty_gtw.Terminal.Eol.{normalize_eol, normalize_from, normalize_byte, emit_eol}
use imsai_8080_esp_tty_gtw.Terminal.Process.{process, parse_telnet}
use imsai_8080_esp_tty_gtw.Bridge.Run.{
  end_of_file, Event, device_event, client_event, show_output, device_turn, handle_all,
  reply_and_handle, take_bytes, client_turn, run_event, run_events, start_bridge, run_bridge,
}
use imsai_8080_esp_tty_gtw.Bridge.Run.Typing.{typed_bytes}
use imsai_8080_esp_tty_gtw.Bridge.Run.Typed.{run_events-IsSent}
use imsai_8080_esp_tty_gtw.Bridge.Run.Delivered.{taken, Fits, run_events-IsDelivered}
use imsai_8080_esp_tty_gtw.Bridge.Run.Over.{IsOverBy, run_bridge-IsOver}

abbrev accepts_all : ℕ → Bool
accepts_all k = true

abbrev one_key : Panel ℕ
one_key = record { open_panel = λ p. (0, codes "panel"); feed = λ p bytes. (p + 1, [], true) }

abbrev quiet : Session ℕ
quiet = record {
  cfg = record default_config { hotkey_bytes = 0x1c ∷ [] };
  ws = record { sent = []; writes = 0 };
  tui = false;
  panel = 0;
  out_buf = [];
  hk_match = 0;
  to_client = [];
}

abbrev with_panel : Session ℕ
with_panel = record quiet {
  tui = true;
  to_client = codes "A>" ++ (ansi_enter_alt ++ ansi_hide_cur ++ ansi_wrap_off ++ codes "panel");
}

abbrev closed_again : Session ℕ
closed_again = record quiet {
  panel = 1;
  to_client =
      with_panel.to_client
      ++ []
      ++ (ansi_show_cur ++ ansi_wrap_on ++ ansi_leave_alt)
      ++ codes "DIR";
}

hotkey_opens :
    handle_input one_key accepts_all 4 (device_frame quiet (codes "A>")) (0x1c ∷ [])
    ≡ some (with_panel, [])
unfolding handle_input cut_at forward_some matched enter_tui device_frame
hotkey_opens = refl

key_closes :
    handle_input one_key accepts_all 4 (device_frame with_panel (codes "DIR")) (codes "q")
    ≡ some (closed_again, [])
unfolding handle_input feed_panel exit_tui device_frame
key_closes = refl

abbrev writes_all : Bytes → Bool
writes_all b = true

abbrev caller : TerminalInput
caller = new_terminal_input (codes "auto") (codes "cr")

-- A line in two reads with output between them, before the client hangs up.
abbrev a_line : List Event
a_line =
    device_event (ok (codes "A>"))
    ∷ client_event (codes "DIR" ++ 13 ∷ []) none
    ∷ device_event (ok (codes "DIR"))
    ∷ client_event (10 ∷ codes "X") (some end_of_file)
    ∷ []

run_events-IsSent_example :
    (let begun = start_bridge one_key accepts_all writes_all caller quiet none in
      let r = run_events one_key accepts_all writes_all begun a_line in
      (r.term ≡ (process caller (typed_bytes a_line)).term)
      × IsSent
          (record begun.session { to_client = r.session.to_client })
          r.session
          (process caller (typed_bytes a_line)).to_ws)
unfolding has_prefix process parse_telnet feed_all feed_telnet normalize_eol normalize_from
    normalize_byte emit_eol text_eq new_terminal_input
run_events-IsSent_example =
    run_events-IsSent one_key accepts_all writes_all caller quiet none a_line (λ k. refl)
      (λ b. refl) (inl (0x1c, refl)) (omega arith) refl refl

-- Output, the hotkey, output for the open panel, and a lost connection.
abbrev with_hotkey : List Event
with_hotkey =
    device_event (ok (codes "A>"))
    ∷ client_event (0x1c ∷ []) none
    ∷ device_event (ok (codes "DIR"))
    ∷ device_event (err (codes "EOF"))
    ∷ []

abbrev plain : Session ℕ
plain = record quiet { cfg = record quiet.cfg { crlf_out = false; cols = 0; mode = codes "raw" } }

abbrev raw_caller : TerminalInput
raw_caller = new_terminal_input (codes "raw") (codes "raw")

with_hotkey-Fits :
    Fits one_key accepts_all writes_all
      (start_bridge one_key accepts_all writes_all raw_caller plain (some []))
      with_hotkey
unfolding run_event device_turn client_turn take_bytes show_output reply_and_handle handle_all
    handle_input cut_at forward_some matched enter_tui device_frame filtered filter_of process
    parse_telnet normalize_eol text_eq new_terminal_input
with_hotkey-Fits = (omega arith, (tt, (omega arith, (tt, tt))))

run_events-IsDelivered_example :
    (let r =
        run_events one_key accepts_all writes_all
          (start_bridge one_key accepts_all writes_all raw_caller plain (some []))
          with_hotkey in
      IsDelivered (filtered (filter_of plain.cfg) (taken with_hotkey)).1 r.session
      × (r.capture ≡ some (codes "A>DIR")))
run_events-IsDelivered_example =
    run_events-IsDelivered one_key accepts_all writes_all (λ b. refl) raw_caller plain (some [])
      with_hotkey refl with_hotkey-Fits

-- The device ends the connection; a frame that was received is still read, and the client's pump,
-- which types on, meets its deadline.
abbrev device_gone : List Event
device_gone = client_event (codes "DIR") none ∷ device_event (err (codes "EOF")) ∷ []

abbrev stopping : List Event
stopping =
    device_event (ok (codes "A>")) ∷ client_event (codes "X") none ∷ device_event (err []) ∷ []

run_bridge-IsOver_example :
    IsOverBy one_key accepts_all writes_all
      (run_events one_key accepts_all writes_all
        (start_bridge one_key accepts_all writes_all caller quiet none)
        device_gone).reason
      (run_bridge one_key accepts_all writes_all caller quiet none device_gone stopping)
run_bridge-IsOver_example =
    run_bridge-IsOver one_key accepts_all writes_all caller quiet none device_gone stopping refl
      refl

-- The hotkey comes between the test of a frame and its write, which goes over the panel.
abbrev opened_between : Session ℕ
opened_between = record quiet {
  tui = true;
  to_client = ansi_enter_alt ++ ansi_hide_cur ++ ansi_wrap_off ++ codes "panel";
}

opened_first : handle_input one_key accepts_all 4 quiet (0x1c ∷ []) ≡ some (opened_between, [])
unfolding handle_input cut_at forward_some matched enter_tui
opened_first = refl

Interleaved-IsDeliveredBut_example :
    IsDeliveredBut one_key accepts_all (codes "A>") (write_frame opened_between (codes "A>")) none
unfolding test_frame
Interleaved-IsDeliveredBut_example =
    Interleaved-IsDeliveredBut one_key accepts_all (codes "A>")
      (write_frame opened_between (codes "A>")) none
      (written (codes "A>")
        (typed 4 (0x1c ∷ []) (tested (codes "A>") (begun quiet refl) (omega arith)) opened_first))
