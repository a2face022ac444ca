-- ===== src/Bridge/Client.antt =====
-- gateway-go/bridge.go: `handleClient` behind the admission of the client (Bridge/Gateway): `dialWS`,
-- and the loop that connects, greets, runs the bridge and tries again. What each turn of the loop
-- meets is a `Visit`; what it asks of the system, and its lines for the log, are a list of calls.
pub mod Rounds
pub mod Limit
use imsai_8080_esp_tty_gtw.Prelude.{
  ℕ, ◌+◌, Bool, true, false, not, ◌&&◌, ◌||◌, Bytes, List, [], ◌∷◌, ◌++◌, Option, none, some,
  Result, ok, err, codes, ltb, if◌then◌else◌, has_prefix, text_eq,
}
use imsai_8080_esp_tty_gtw.Word.{is_pos}
use imsai_8080_esp_tty_gtw.Decimal.{show_nat, show_int}
use imsai_8080_esp_tty_gtw.Config.Settings.{Config}
use imsai_8080_esp_tty_gtw.Terminal.Input.{TerminalInput, new_terminal_input}
use imsai_8080_esp_tty_gtw.Bridge.Session.{Panel, Session}
use imsai_8080_esp_tty_gtw.Bridge.Gateway.{gave_up}
use imsai_8080_esp_tty_gtw.Bridge.Greeting.{crlf}
use imsai_8080_esp_tty_gtw.Bridge.Run.{
  Event, BridgeRun, Bridged, running, returned, run_bridge, write_failed,
}

abbrev pub tty_url : Config → Bytes
tty_url cfg = codes "ws://" ++ (cfg.host ++ (codes ":" ++ (show_int cfg.ws_port ++ codes "/tty")))

-- The panel of a session, the greeting of its client, which opens the front panel, and `closeCPA`.
-- The greeting is told which writes succeed and given a dialer for /cpa (Tui/Cpa); it gives what it
-- writes, and true if all of it could be written.
pub record Front (P : Type 0) : Type 0 where
  pub panel : Panel P
  pub greet :
      (Bytes → Bool) → (Bytes → Option Bytes) → TerminalInput → P → TerminalInput × P × Bytes × Bool
  pub close : P → P

-- A dial of /tty and whether it succeeds, the end of that connection, the greeting, a pause, a line of
-- the log, and the keep-alive of the client's connection and its end.
pub data Call : Type 0 where
  dial_tty : Bytes → Bool → Call
  close_tty : Call
  greet_client : Call
  keep_alive : Call
  hang_up : Call
  sleep : ℕ → Call
  log_line : Bytes → Bytes → Call

pub record Client (P : Type 0) : Type 0 where
  pub term : TerminalInput
  pub session : Session P
  pub capture : Option Bytes
  pub attempt : ℕ
  pub announced : Bool
  pub calls : List Call

-- The dial fails with an error, or there is a connection: the dialer for /cpa, which writes the
-- connection takes, and the events of its two pumps before it is closed, and after.
pub data Visit : Type 0 where
  refused : Bytes → Visit
  connected : (Bytes → Option Bytes) → (ℕ → Bool) → List Event → List Event → Visit

-- Whether the loop goes on, is in the bridge, where the Boolean says whether a pump has ended and
-- /tty is closed, or is left with a reason.
pub data Looped (P : Type 0) : Type 0 where
  goes_on : Client P → Looped P
  in_bridge : Client P → Bool → Looped P
  left : Client P → Bytes → Looped P

abbrev pub says : {P : Type 0} → Client P → Bytes → Client P
says c bytes = record c { session = record c.session { to_client = c.session.to_client ++ bytes } }

abbrev pub calling : {P : Type 0} → Client P → Call → Client P
calling c call = record c { calls = c.calls ++ call ∷ [] }

abbrev pub reconnected : Bytes
reconnected = crlf ++ (codes "[gateway] reconnected." ++ crlf)

abbrev pub giving_up : Bytes
giving_up = crlf ++ (codes "[gateway] giving up reconnecting." ++ crlf)

-- `delay_text` is `%.0f` of the delay, in seconds.
abbrev pub notice : Bytes → Bytes → ℕ → Bytes
notice delay_text reason attempt =
    crlf
    ++ (codes "[gateway] console link lost ("
        ++ (reason
            ++ (codes "); reconnecting in "
                ++ (delay_text
                    ++ (codes "s (attempt " ++ (show_nat attempt ++ (codes ")..." ++ crlf)))))))

abbrev pub reconnecting : Bytes → ℕ → Bytes → Bytes
reconnecting peer attempt reason =
    codes "reconnecting "
    ++ (peer
        ++ (codes ": attempt "
            ++ (show_nat attempt ++ (codes " after '" ++ (reason ++ codes "'")))))

abbrev pub connect_failed : Bytes → Bytes → Bytes
connect_failed peer e = codes "WS connect failed for " ++ (peer ++ (codes ": " ++ e))

-- A message whose failed write the code ignores.
abbrev pub says_if : {P : Type 0} → (Bytes → Bool) → Client P → Bytes → Client P
says_if writable c bytes =
    let old = c.session.to_client in
    record c {
      session = record c.session {
        to_client = if writable (old ++ bytes) then old ++ bytes else old;
      };
    }

abbrev pub with_run : {P : Type 0} → Client P → BridgeRun P → Client P
with_run c r = record c { term = r.term; session = r.session; capture = r.capture }

-- A bridge that runs has closed /tty when a pump has ended.
abbrev pub still_bridged : {P : Type 0} → Client P → Option Bytes → Looped P
still_bridged c none = in_bridge c false
still_bridged c (some reason) = in_bridge (calling c close_tty) true

module _ {P : Type 0} (front : Front P) (cfg : Config) (writable : Bytes → Bool)
    (peer delay_text : Bytes) where
  -- The end of the loop's body.
  unfoldable pub client_retry : Client P → Bytes → Looped P
  client_retry c reason =
      let tried = record c { attempt = c.attempt + 1 } in
      let told = says tried (notice delay_text reason tried.attempt) in
      if has_prefix reason (codes "client") || not cfg.reconnect
      then left c reason
      else if is_pos cfg.reconnect_max && ltb cfg.reconnect_max tried.attempt
      then left (says_if writable tried giving_up) (gave_up reason cfg.reconnect_max)
      else if writable told.session.to_client
      then goes_on (
          calling (calling told (log_line (codes "INFO") (reconnecting peer tried.attempt reason)))
            (sleep cfg.reconnect_delay))
      else left tried (codes "client gone during reconnect")

  -- Behind `runBridge`, which closes /tty.
  abbrev pub after_bridge : Client P → Bridged P → Looped P
  after_bridge c (running r) = still_bridged (with_run c r) r.reason
  after_bridge c (returned r reason) = client_retry (calling (with_run c r) close_tty) reason

  -- The bridge on the new connection, and the end of the loop's body with its reason.
  unfoldable pub bridge_client : Client P → (ℕ → Bool) → List Event → List Event → Looped P
  bridge_client c accepts before after =
      after_bridge c
        (run_bridge front.panel accepts writable c.term c.session c.capture before after)

  abbrev pub greeting_done : Client P → TerminalInput × P × Bytes × Bool → Client P × Bool
  greeting_done c (t, p, out, good) =
      let s' = record c.session { panel = p } in
      (says (record c { term = t; session = s'; announced = good }) out, good)

  -- The first connection; the bytes of the greeting stand behind all that was written.
  unfoldable pub greet_first : Client P → (Bytes → Option Bytes) → Client P × Bool
  greet_first c dialer =
      greeting_done (calling c greet_client)
        (front.greet (λ out. writable (c.session.to_client ++ out)) dialer c.term c.session.panel)

  abbrev pub after_greeting : Client P × Bool → (ℕ → Bool) → List Event → List Event → Looped P
  after_greeting (c, true) accepts before after = bridge_client c accepts before after
  after_greeting (c, false) accepts before after = left (calling c close_tty) write_failed

  -- Behind a dial that succeeded.
  unfoldable pub on_connection :
      Client P → (Bytes → Option Bytes) → (ℕ → Bool) → List Event → List Event → Looped P
  on_connection c dialer accepts before after =
      let c' = record c { attempt = 0 } in
      if c.announced
      then bridge_client (says_if writable c' reconnected) accepts before after
      else after_greeting (greet_first c' dialer) accepts before after

  unfoldable pub client_round : Client P → Visit → Looped P
  client_round c (refused e) =
      let dialled = calling c (dial_tty (tty_url cfg) false) in
      client_retry (calling dialled (log_line (codes "WARNING") (connect_failed peer e)))
        (codes "device unreachable")
  client_round c (connected dialer accepts before after) =
      on_connection (calling c (dial_tty (tty_url cfg) true)) dialer accepts before after

  unfoldable pub client_loop : Looped P → List Visit → Looped P
  client_loop l [] = l
  client_loop (in_bridge c closed) (v ∷ vs) = in_bridge c closed
  client_loop (left c reason) (v ∷ vs) = left c reason
  client_loop (goes_on c) (v ∷ vs) = client_loop (client_round c v) vs
