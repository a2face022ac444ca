-- ===== src/Bridge/Run/Kept.antt =====
-- gateway-go/bridge.go: what the turns of the client leave alone in the run of a bridge.
use imsai_8080_esp_tty_gtw.Prelude.{
  ℕ, ◌+◌, ◌*◌, Bool, Bytes, List, [], ◌∷◌, ◌++◌, Option, none, some, Result, ◌≡◌, refl, inl, inr,
  length, text_eq, ◌||◌, Bool-cases,
}
use imsai_8080_esp_tty_gtw.Output.Filter.{OutProc}
use imsai_8080_esp_tty_gtw.Bridge.Session.{Panel, Session}
use imsai_8080_esp_tty_gtw.Bridge.Input.{handle_input}
use imsai_8080_esp_tty_gtw.Bridge.Turns.{handle_input_total}
use imsai_8080_esp_tty_gtw.Bridge.Delivery.{mix_own, IsDelivered, handle_input-IsDelivered}
use imsai_8080_esp_tty_gtw.Bridge.Run.{
  ReadError, Event, device_event, client_event, BridgeRun, handle_all, end_if_failed,
  reply_and_handle, take_bytes, end_if_read_failed, client_turn, device_unless, client_unless,
  run_event, run_events,
}

module _ {P : Type 0} (panel : Panel P) (accepts : ℕ → Bool) (writable : Bytes → Bool) where
  -- The session has been delivered `all`; the rest of a run that the client's turns leave alone.
  abbrev pub IsAt : Bytes → Option OutProc → Option Bytes → Option Bytes → BridgeRun P → Type 0
  IsAt all f c d r =
      IsDelivered all r.session × ((r.filter ≡ f) × (r.capture ≡ c) × (r.device_end ≡ d))

  pub handle_all_lem :
      (s : Session P) (bytes : Bytes)
      → handle_input panel accepts (2 * length bytes + 2) s bytes
        ≡ some (handle_all panel accepts writable s bytes)
  unfolding handle_all
  handle_all_lem s bytes =
      let (r, e) = handle_input_total panel accepts s bytes in rw (e, handle_all) refl

  module _ (all : Bytes) (f : Option OutProc) (c d : Option Bytes) where
    end_if_failed-IsAt :
        (r : BridgeRun P) (s : Session P) (cause : Bytes)
        → IsDelivered all s
        → IsAt all f c d r
        → IsAt all f c d (end_if_failed panel accepts writable r (s, cause))
    end_if_failed-IsAt r s cause x (old, k) = elim (Bool-cases (text_eq cause [])) [
      | inl e ↦ rw e (x, k)
      | inr e ↦ rw e (x, k)
    ]

    reply_and_handle-IsAt :
        (r : BridgeRun P) (reply to_ws : Bytes)
        → IsAt all f c d r
        → IsAt all f c d (reply_and_handle panel accepts writable r reply to_ws)
    unfolding reply_and_handle
    reply_and_handle-IsAt r reply to_ws (x, k) =
        let s = record r.session { to_client = r.session.to_client ++ reply } in
        let told : IsDelivered all s = record {
          dev = x.dev;
          mix = mix_own reply x.mix;
          whole = x.whole;
          buffered = x.buffered;
        } in
        elim (Bool-cases (text_eq reply [] || writable (r.session.to_client ++ reply))) [
          | inl good ↦
              rw (good, reply_and_handle)
                (end_if_failed-IsAt r _ _
                  (handle_input-IsDelivered panel accepts all _ s _ to_ws _ (handle_all_lem s to_ws)
                    told)
                  (x, k))
          | inr bad ↦ rw (bad, reply_and_handle) (x, k)
        ]

    take_bytes-IsAt :
        (r : BridgeRun P) (bytes : Bytes)
        → IsAt all f c d r
        → IsAt all f c d (take_bytes panel accepts writable r bytes)
    unfolding take_bytes
    take_bytes-IsAt r [] k = k
    take_bytes-IsAt r (b ∷ bs) k = reply_and_handle-IsAt _ _ _ k

    end_if_read_failed-IsAt :
        (r : BridgeRun P) (failure : Option ReadError) (over : Option Bytes)
        → IsAt all f c d r
        → IsAt all f c d (end_if_read_failed panel accepts writable r failure over)
    end_if_read_failed-IsAt r none over k = k
    end_if_read_failed-IsAt r (some e) none k = k
    end_if_read_failed-IsAt r (some e) (some cause) k = k

    pub client_unless-IsAt :
        (r : BridgeRun P) (bytes : Bytes) (failure : Option ReadError) (over : Option Bytes)
        → IsAt all f c d r
        → IsAt all f c d (client_unless panel accepts writable r bytes failure over)
    unfolding client_turn
    client_unless-IsAt r bytes failure none k =
        end_if_read_failed-IsAt _ failure _ (take_bytes-IsAt r bytes k)
    client_unless-IsAt r bytes failure (some cause) k = k

  -- When the device pump has ended nothing more is delivered or captured.
  module _ (all : Bytes) (f : Option OutProc) (c : Option Bytes) (cause : Bytes) where
    device_unless-IsAt :
        (r : BridgeRun P) (read : Result Bytes) (over : Option Bytes)
        → r.device_end ≡ over
        → IsAt all f c (some cause) r
        → IsAt all f c (some cause) (device_unless panel accepts writable r read over)
    device_unless-IsAt r read none runs (x, (e1, e2, over)) = absurd cc
    device_unless-IsAt r read (some why) over k = k

    pub run_events_over :
        (r : BridgeRun P) (es : List Event)
        → IsAt all f c (some cause) r
        → IsAt all f c (some cause) (run_events panel accepts writable r es)
    unfolding run_events run_event
    run_events_over r [] k = k
    run_events_over r (device_event read ∷ es) k =
        run_events_over (device_unless panel accepts writable r read r.device_end) es
          (device_unless-IsAt r read r.device_end refl k)
    run_events_over r (client_event bytes failure ∷ es) k =
        run_events_over (client_unless panel accepts writable r bytes failure r.client_end) es
          (client_unless-IsAt all f c (some cause) r bytes failure r.client_end k)
