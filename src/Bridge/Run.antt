-- ===== src/Bridge/Run.antt =====
-- gateway-go/bridge.go: `runBridge` with its two pumps, `pumpWSToTCP` and `pumpTCPToWS`. The pumps run
-- at the same time; an order of what they meet is a list of events, each the turn of one pump.
pub mod Causes
pub mod Ends
pub mod Over
pub mod First
pub mod Kept
pub mod Delivered
pub mod Typing
pub mod Typed
use mathlib.Core.Option
use imsai_8080_esp_tty_gtw.Prelude.{
  ℕ, ◌+◌, ◌*◌, Bool, ◌||◌, Bytes, List, [], ◌∷◌, ◌++◌, Option, none, some, Result, ok, err, codes,
  length, map, if◌then◌else◌, text_eq,
}
use imsai_8080_esp_tty_gtw.Config.Settings.{Config}
use imsai_8080_esp_tty_gtw.Output.Filter.{OutProc}
use imsai_8080_esp_tty_gtw.Terminal.Input.{TerminalInput}
use imsai_8080_esp_tty_gtw.Terminal.Process.{process}
use imsai_8080_esp_tty_gtw.Bridge.Session.{Panel, Session}
use imsai_8080_esp_tty_gtw.Bridge.Console.{device_frame, end_bridge}
use imsai_8080_esp_tty_gtw.Bridge.Input.{handle_input, ws_closed}
use imsai_8080_esp_tty_gtw.Bridge.Pump.{filter_of, filtered}

-- The errors of a read from the client that the code tells apart.
pub data ReadError : Type 0 where
  timed_out : ReadError
  end_of_file : ReadError
  other_error : ReadError

abbrev pub cause_of : ReadError → Bytes
cause_of timed_out = codes "stopped"
cause_of end_of_file = codes "client closed connection"
cause_of other_error = codes "client TCP read failed"

abbrev pub write_failed : Bytes
write_failed = codes "client TCP write failed"

-- What one read from the device gives, or one from the client: bytes and an error can come together.
pub data Event : Type 0 where
  device_event : Result Bytes → Event
  client_event : Bytes → Option ReadError → Event

-- `device_end` and `client_end` are what the pumps have returned, `reason` what the channel was sent
-- first. `capture` is what was written to the capture file, where there is one.
pub record BridgeRun (P : Type 0) : Type 0 where
  pub term : TerminalInput
  pub session : Session P
  pub filter : Option OutProc
  pub capture : Option Bytes
  pub device_end : Option Bytes
  pub client_end : Option Bytes
  pub reason : Option Bytes

-- Once a pump has ended, the WebSocket is closed and the client's reads have a deadline that is
-- past. What the pumps meet then: frames that were received before, or the error of the closed
-- WebSocket, and the deadline whatever the client sends.
abbrev pub late : Event → Event
late (device_event read) = device_event read
late (client_event bytes failure) = client_event [] (some timed_out)

-- A bridge that runs, with one pump or both, or has returned with its reason.
pub data Bridged (P : Type 0) : Type 0 where
  running : BridgeRun P → Bridged P
  returned : BridgeRun P → Bytes → Bridged P

abbrev pub first_of : Option Bytes → Bytes → Option Bytes
first_of none cause = some cause
first_of (some reason) cause = some reason

-- `accepts` says whether a write to the device succeeds, by the number of those before (so also one of
-- a turn during which the WebSocket is closed), and `writable` whether one to the client does, by
-- all that would be written then. A failed write is taken to write nothing; the writes of the panel,
-- whose errors the code ignores, are taken to succeed (Bridge/Session).
module _ {P : Type 0} (panel : Panel P) (accepts : ℕ → Bool) (writable : Bytes → Bool) where
  abbrev pub end_device : BridgeRun P → Bytes → BridgeRun P
  end_device r cause = record r { device_end = some cause; reason = first_of r.reason cause }

  abbrev pub end_client : BridgeRun P → Bytes → BridgeRun P
  end_client r cause = record r { client_end = some cause; reason = first_of r.reason cause }

  -- The open panel keeps the output from the client.
  unfoldable pub show_output : BridgeRun P → Bytes → BridgeRun P
  show_output r out =
      if r.session.tui || writable (r.session.to_client ++ out)
      then record r { session = device_frame r.session out }
      else end_device r write_failed

  unfoldable pub device_turn : BridgeRun P → Result Bytes → BridgeRun P
  device_turn r (err e) = end_device r ws_closed
  device_turn r (ok bytes) =
      let (filter', out) = filtered r.filter bytes in
      show_output (record r { filter = filter'; capture = Option.map (λ c. c ++ bytes) r.capture })
        out

  -- With as many turns as the loop can need (Bridge/Turns).
  unfoldable pub handle_all : Session P → Bytes → Session P × Bytes
  handle_all s bytes = elim (handle_input panel accepts (2 * length bytes + 2) s bytes) [
    | none ↦ (s, [])
    | some r ↦ r
  ]

  abbrev pub end_if_failed : BridgeRun P → Session P × Bytes → BridgeRun P
  end_if_failed r (s, cause) =
      let r' = record r { session = s } in if text_eq cause [] then r' else end_client r' cause

  -- Behind `Process`: its reply, if there is one, then the cleaned bytes.
  unfoldable pub reply_and_handle : BridgeRun P → Bytes → Bytes → BridgeRun P
  reply_and_handle r reply to_ws =
      let s = r.session in
      if text_eq reply [] || writable (s.to_client ++ reply)
      then end_if_failed r (handle_all (record s { to_client = s.to_client ++ reply }) to_ws)
      else end_client r write_failed

  unfoldable pub take_bytes : BridgeRun P → Bytes → BridgeRun P
  take_bytes r [] = r
  take_bytes r (b ∷ bs) =
      let p = process r.term (b ∷ bs) in
      reply_and_handle (record r { term = p.term }) p.to_client p.to_ws

  -- The error of the read, unless its bytes have ended the pump.
  abbrev pub end_if_read_failed : BridgeRun P → Option ReadError → Option Bytes → BridgeRun P
  end_if_read_failed r none over = r
  end_if_read_failed r (some e) none = end_client r (cause_of e)
  end_if_read_failed r (some e) (some cause) = r

  unfoldable pub client_turn : BridgeRun P → Bytes → Option ReadError → BridgeRun P
  client_turn r bytes failure =
      let r' = take_bytes r bytes in end_if_read_failed r' failure r'.client_end

  -- A pump that has returned takes no more turns.
  abbrev pub device_unless : BridgeRun P → Result Bytes → Option Bytes → BridgeRun P
  device_unless r read none = device_turn r read
  device_unless r read (some cause) = r

  abbrev pub client_unless : BridgeRun P → Bytes → Option ReadError → Option Bytes → BridgeRun P
  client_unless r bytes failure none = client_turn r bytes failure
  client_unless r bytes failure (some cause) = r

  unfoldable pub run_event : BridgeRun P → Event → BridgeRun P
  run_event r (device_event read) = device_unless r read r.device_end
  run_event r (client_event bytes failure) = client_unless r bytes failure r.client_end

  unfoldable pub run_events : BridgeRun P → List Event → BridgeRun P
  run_events r [] = r
  run_events r (e ∷ es) = run_events (run_event r e) es

  abbrev pub start_bridge : TerminalInput → Session P → Option Bytes → BridgeRun P
  start_bridge t s capture = record {
    term = t;
    session = record s { ws = record { sent = []; writes = 0 } };
    filter = filter_of s.cfg;
    capture = capture;
    device_end = none;
    client_end = none;
    reason = none;
  }

  -- Before a pump has ended nothing is closed, and nothing comes after it.
  abbrev pub run_late : BridgeRun P → List Event → Option Bytes → BridgeRun P
  run_late r after none = r
  run_late r after (some reason) = run_events r (map late after)

  -- On what the pumps have returned and what the channel was sent first: both results are collected.
  abbrev pub both_results : BridgeRun P → Option Bytes → Option Bytes → Option Bytes → Bridged P
  both_results r (some device) (some client) (some reason) =
      returned (record r { session = end_bridge writable r.session }) reason
  both_results r _ _ _ = running r

  -- On a new connection, with the events before the WebSocket is closed, and those after it. A pump
  -- that is blocked takes no turn: without an event that ends it the bridge runs on.
  unfoldable pub run_bridge :
      TerminalInput → Session P → Option Bytes → List Event → List Event → Bridged P
  run_bridge t s capture before after =
      let r = run_events (start_bridge t s capture) before in
      let r' = run_late r after r.reason in both_results r' r'.device_end r'.client_end r'.reason
