-- ===== src/Bridge/Handle.antt =====
-- gateway-go/bridge.go: `handleClient` from the admission of a client to the end of its session, around
-- the loop of Bridge/Client.
pub mod Tidy
pub mod Ended
use imsai_8080_esp_tty_gtw.Prelude.{
  ℕ, ◌+◌, Bool, true, false, Bytes, List, [], ◌∷◌, ◌++◌, Option, none, some, Result, ok, err, codes,
  if◌then◌else◌, text_eq,
}
use imsai_8080_esp_tty_gtw.Decimal.{show_nat, show_int}
use imsai_8080_esp_tty_gtw.Config.Settings.{Config}
use imsai_8080_esp_tty_gtw.Terminal.Input.{TerminalInput, new_terminal_input}
use imsai_8080_esp_tty_gtw.Bridge.Session.{Panel, Session}
use imsai_8080_esp_tty_gtw.Bridge.Gateway.{is_full}
use imsai_8080_esp_tty_gtw.Bridge.Greeting.{crlf}
use imsai_8080_esp_tty_gtw.Bridge.Client.{
  Front, Client, Call, keep_alive, hang_up, log_line, Visit, Looped, goes_on, in_bridge, left,
  tty_url, client_loop,
}

-- What the system gives around the loop: whether the capture file could be opened, the counter of the
-- sessions when this one has left, which others take and leave at the same time (`release` of
-- Bridge/Gateway), and the seconds it took.
pub record Around : Type 0 where
  pub opened : Result (Unit {0})
  pub others : ℕ
  pub elapsed : Bytes

-- The client was turned away, its session goes on after the visits given, in the loop or in a bridge
-- that runs (with a Boolean: a pump has ended, and /tty is closed), or it has ended with a reason.
pub data Handled (P : Type 0) : Type 0 where
  turned_away : List Call → Bytes → Handled P
  serving : Client P → Handled P
  bridging : Client P → Bool → Handled P
  served : Client P → Bytes → Handled P

abbrev pub busy : Bytes
busy = crlf ++ (codes "Gateway busy: console session already in use." ++ crlf)

abbrev pub rejecting : Config → Bytes → ℕ → Bytes
rejecting cfg peer in_use =
    codes "rejecting "
    ++ (peer
        ++ (codes ": "
            ++ (show_nat in_use
                ++ (codes "/" ++ (show_int cfg.max_sessions ++ codes " sessions in use")))))

abbrev pub session_up : Config → Bytes → ℕ → Bytes
session_up cfg peer cur =
    codes "session up: "
    ++ (peer
        ++ (codes " <-> "
            ++ (tty_url cfg
                ++ (codes " ("
                    ++ (show_nat cur
                        ++ (codes "/"
                            ++ (show_int cfg.max_sessions
                                ++ (codes ", mode="
                                    ++ (cfg.mode
                                        ++ (codes " eol=" ++ (cfg.eol ++ codes ")")))))))))))

abbrev pub session_down : Config → Bytes → Bytes → Around → Bytes
session_down cfg peer reason around =
    codes "session down: "
    ++ (peer
        ++ (codes " after "
            ++ (around.elapsed
                ++ (codes "s (cause: "
                    ++ (reason
                        ++ (codes ") ("
                            ++ (show_nat around.others
                                ++ (codes "/" ++ (show_int cfg.max_sessions ++ codes ")")))))))))

-- The capture file, empty when it is opened.
abbrev pub capture_of : Config → Result (Unit {0}) → Option Bytes × List Call
capture_of cfg (err e) = (
  none,
  log_line (codes "WARNING")
        (codes "cannot open capture file " ++ (cfg.capture ++ (codes ": " ++ e)))
      ∷ [],
)
capture_of cfg (ok done) =
    (some [], log_line (codes "INFO") (codes "capturing device output to " ++ cfg.capture) ∷ [])

unfoldable pub open_capture : Config → Result (Unit {0}) → Option Bytes × List Call
open_capture cfg opened = if text_eq cfg.capture [] then (none, []) else capture_of cfg opened

-- The session of a client that was let in, as number `cur`.
unfoldable pub new_client : {P : Type 0} → Config → Bytes → ℕ → P → Result (Unit {0}) → Client P
unfolding open_capture
new_client cfg peer cur p opened =
    let (capture, lines) = open_capture cfg opened in
    record {
      term = new_terminal_input cfg.mode cfg.eol;
      session = record {
        cfg = cfg;
        ws = record { sent = []; writes = 0 };
        tui = false;
        panel = p;
        out_buf = [];
        hk_match = 0;
        to_client = [];
      };
      capture = capture;
      attempt = 0;
      announced = false;
      calls = keep_alive ∷ log_line (codes "INFO") (session_up cfg peer cur) ∷ lines;
    }

module _ {P : Type 0} (front : Front P) (cfg : Config) (writable : Bytes → Bool)
    (peer delay_text : Bytes) where
  abbrev pub end_session : Around → Looped P → Handled P
  end_session around (goes_on c) = serving c
  end_session around (in_bridge c closed) = bridging c closed
  end_session around (left c reason) =
      served
        (record c {
          session = record c.session { panel = front.close c.session.panel };
          calls =
              c.calls
              ++ log_line (codes "INFO") (session_down cfg peer reason around) ∷ []
              ++ hang_up ∷ [];
        })
        reason

  -- A client that comes when `sessions` are in use.
  unfoldable pub handle_client : ℕ → P → Around → List Visit → Handled P
  handle_client sessions p around visits =
      let c = new_client cfg peer (sessions + 1) p around.opened in
      if is_full cfg sessions
      then turned_away (log_line (codes "WARNING") (rejecting cfg peer sessions) ∷ hang_up ∷ [])
          (if writable busy then busy else [])
      else end_session around (client_loop front cfg writable peer delay_text (goes_on c) visits)
