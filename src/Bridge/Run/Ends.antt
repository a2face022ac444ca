-- ===== src/Bridge/Run/Ends.antt =====
-- gateway-go/bridge.go: a pump of `runBridge` that has ended stays so, and the close of the WebSocket
-- and the deadline end it.
use imsai_8080_esp_tty_gtw.Prelude.{
  ℕ, Bool, true, false, ◌||◌, Bytes, List, [], ◌∷◌, Option, none, some, Result, ok, err, ◌≡◌, refl,
  ◌∙◌, map, if_both, text_eq,
}
use imsai_8080_esp_tty_gtw.Bridge.Session.{Panel}
use imsai_8080_esp_tty_gtw.Bridge.Input.{ws_closed}
use imsai_8080_esp_tty_gtw.Bridge.Run.{
  ReadError, timed_out, cause_of, Event, device_event, client_event, BridgeRun, show_output,
  device_turn, reply_and_handle, take_bytes, end_if_read_failed, client_turn, device_unless,
  client_unless, run_event, run_events, late,
}

-- A read from the device gives an error.
abbrev pub device_fails : List Event → Bool
device_fails [] = false
device_fails (device_event (err e) ∷ es) = true
device_fails (device_event (ok bytes) ∷ es) = device_fails es
device_fails (client_event bytes failure ∷ es) = device_fails es

-- The client's pump reads.
abbrev pub client_reads : List Event → Bool
client_reads [] = false
client_reads (device_event read ∷ es) = client_reads es
client_reads (client_event bytes failure ∷ es) = true

module _ {P : Type 0} (panel : Panel P) (accepts : ℕ → Bool) (writable : Bytes → Bool) where
  -- The turns of one pump do not end the other one.
  device_unless-client_end :
      (r : BridgeRun P) (read : Result Bytes) (d : Option Bytes)
      → (device_unless panel accepts writable r read d).client_end ≡ r.client_end
  unfolding device_turn show_output
  device_unless-client_end r read (some cause) = refl
  device_unless-client_end r (err e) none = refl
  device_unless-client_end r (ok bytes) none =
      if_both (λ (r' : BridgeRun P). r'.client_end ≡ r.client_end) (r.session.tui || writable _)
        refl refl

  take_bytes-device_end :
      (r : BridgeRun P) (bytes : Bytes)
      → (take_bytes panel accepts writable r bytes).device_end ≡ r.device_end
  unfolding take_bytes reply_and_handle
  take_bytes-device_end r [] = refl
  take_bytes-device_end r (b ∷ bs) =
      if_both (λ (r' : BridgeRun P). r'.device_end ≡ r.device_end) (text_eq _ [] || writable _)
        (if_both (λ (r' : BridgeRun P). r'.device_end ≡ r.device_end) (text_eq _ []) refl refl) refl

  end_if_read_failed-device_end :
      (r : BridgeRun P) (failure : Option ReadError) (over : Option Bytes)
      → (end_if_read_failed panel accepts writable r failure over).device_end ≡ r.device_end
  end_if_read_failed-device_end r none over = refl
  end_if_read_failed-device_end r (some f) none = refl
  end_if_read_failed-device_end r (some f) (some cause) = refl

  client_unless-device_end :
      (r : BridgeRun P) (bytes : Bytes) (failure : Option ReadError) (c : Option Bytes)
      → (client_unless panel accepts writable r bytes failure c).device_end ≡ r.device_end
  unfolding client_turn
  client_unless-device_end r bytes failure (some cause) = refl
  client_unless-device_end r bytes failure none =
      end_if_read_failed-device_end (take_bytes panel accepts writable r bytes) failure _
      ∙ take_bytes-device_end r bytes

  -- A pump that has ended takes no turn.
  device_unless_over :
      (r : BridgeRun P) (read : Result Bytes) (d : Option Bytes) (cause : Bytes)
      → d ≡ some cause
      → r.device_end ≡ some cause
      → (device_unless panel accepts writable r read d).device_end ≡ some cause
  device_unless_over r read none cause over e = cc
  device_unless_over r read (some why) cause over e = e

  client_unless_over :
      (r : BridgeRun P) (bytes : Bytes) (failure : Option ReadError) (c : Option Bytes)
      (cause : Bytes)
      → c ≡ some cause
      → r.client_end ≡ some cause
      → (client_unless panel accepts writable r bytes failure c).client_end ≡ some cause
  client_unless_over r bytes failure none cause over e = cc
  client_unless_over r bytes failure (some why) cause over e = e

  run_events-device_end :
      (r : BridgeRun P) (es : List Event) (cause : Bytes)
      → r.device_end ≡ some cause
      → (run_events panel accepts writable r es).device_end ≡ some cause
  unfolding run_events run_event
  run_events-device_end r [] cause e = e
  run_events-device_end r (device_event read ∷ es) cause e =
      run_events-device_end (device_unless panel accepts writable r read r.device_end) es cause
        (device_unless_over r read r.device_end cause e e)
  run_events-device_end r (client_event bytes failure ∷ es) cause e =
      run_events-device_end (client_unless panel accepts writable r bytes failure r.client_end) es
        cause (client_unless-device_end r bytes failure r.client_end ∙ e)

  run_events-client_end :
      (r : BridgeRun P) (es : List Event) (cause : Bytes)
      → r.client_end ≡ some cause
      → (run_events panel accepts writable r es).client_end ≡ some cause
  unfolding run_events run_event
  run_events-client_end r [] cause e = e
  run_events-client_end r (client_event bytes failure ∷ es) cause e =
      run_events-client_end (client_unless panel accepts writable r bytes failure r.client_end) es
        cause (client_unless_over r bytes failure r.client_end cause e e)
  run_events-client_end r (device_event read ∷ es) cause e =
      run_events-client_end (device_unless panel accepts writable r read r.device_end) es cause
        (device_unless-client_end r read r.device_end ∙ e)

  closed_on :
      (r : BridgeRun P) (why : Bytes) (d : Option Bytes)
      → r.device_end ≡ d
      → (cause : Bytes) × ((device_unless panel accepts writable r (err why) d).device_end
          ≡ some cause)
  unfolding device_turn
  closed_on r why none runs = (ws_closed, refl)
  closed_on r why (some cause) over = (cause, over)

  stopped_on :
      (r : BridgeRun P) (c : Option Bytes)
      → r.client_end ≡ c
      → (cause : Bytes) × ((client_unless panel accepts writable r [] (some timed_out) c).client_end
          ≡ some cause)
  unfolding client_turn take_bytes
  stopped_on r none runs = rw runs (cause_of timed_out, refl)
  stopped_on r (some why) over = (why, over)

  -- An error of a read from the device ends its pump.
  pub late-device_end :
      (r : BridgeRun P) (es : List Event)
      → device_fails es ≡ true
      → (cause : Bytes) × ((run_events panel accepts writable r (map late es)).device_end
          ≡ some cause)
  unfolding run_events run_event
  late-device_end r [] h = cc
  late-device_end r (device_event (err e) ∷ es) h =
      let (cause, over) = closed_on r e r.device_end refl in
      (
        cause,
        run_events-device_end (device_unless panel accepts writable r (err e) r.device_end)
            (map late es) cause over,
      )
  late-device_end r (device_event (ok bytes) ∷ es) h =
      late-device_end (device_unless panel accepts writable r (ok bytes) r.device_end) es h
  late-device_end r (client_event bytes failure ∷ es) h =
      late-device_end (client_unless panel accepts writable r [] (some timed_out) r.client_end) es h

  -- Behind the deadline, a read ends the client's pump.
  pub late-client_end :
      (r : BridgeRun P) (es : List Event)
      → client_reads es ≡ true
      → (cause : Bytes) × ((run_events panel accepts writable r (map late es)).client_end
          ≡ some cause)
  unfolding run_events run_event
  late-client_end r [] h = cc
  late-client_end r (device_event read ∷ es) h =
      late-client_end (device_unless panel accepts writable r read r.device_end) es h
  late-client_end r (client_event bytes failure ∷ es) h =
      let (cause, over) = stopped_on r r.client_end refl in
      (
        cause,
        run_events-client_end
            (client_unless panel accepts writable r [] (some timed_out) r.client_end) (map late es)
            cause over,
      )
