-- ===== src/Bridge/Run/First.antt =====
-- gateway-go/bridge.go: the reason of `runBridge` is the cause of the pump that ends first.
use imsai_8080_esp_tty_gtw.Prelude.{
  ℕ, Bool, Bytes, List, [], ◌∷◌, Option, none, some, Result, ok, err, ◌≡◌, ap, if_both, text_eq,
  ◌||◌,
}
use imsai_8080_esp_tty_gtw.Bridge.Session.{Panel}
use imsai_8080_esp_tty_gtw.Bridge.Run.{
  ReadError, Event, device_event, client_event, BridgeRun, first_of, show_output, device_turn,
  reply_and_handle, take_bytes, end_if_read_failed, client_turn, device_unless, client_unless,
  run_event, run_events,
}

module _ {P : Type 0} (panel : Panel P) (accepts : ℕ → Bool) (writable : Bytes → Bool)
    (reason : Bytes) where
  abbrev pub IsSettled : BridgeRun P → Type 0
  IsSettled r = r.reason ≡ some reason

  first_kept : (o : Option Bytes) (cause : Bytes) → o ≡ some reason → first_of o cause ≡ some reason
  first_kept o cause e = ap (λ o. first_of o cause) e

  device_unless-IsSettled :
      (r : BridgeRun P) (read : Result Bytes) (over : Option Bytes)
      → IsSettled r
      → IsSettled (device_unless panel accepts writable r read over)
  unfolding device_turn show_output
  device_unless-IsSettled r read (some cause) e = e
  device_unless-IsSettled r (err why) none e = first_kept r.reason _ e
  device_unless-IsSettled r (ok bytes) none e =
      if_both IsSettled (r.session.tui || writable _) e (first_kept r.reason _ e)

  take_bytes-IsSettled :
      (r : BridgeRun P) (bytes : Bytes)
      → IsSettled r
      → IsSettled (take_bytes panel accepts writable r bytes)
  unfolding take_bytes reply_and_handle
  take_bytes-IsSettled r [] e = e
  take_bytes-IsSettled r (b ∷ bs) e =
      if_both IsSettled (text_eq _ [] || writable _)
        (if_both IsSettled (text_eq _ []) e (first_kept r.reason _ e)) (first_kept r.reason _ e)

  end_if_read_failed-IsSettled :
      (r : BridgeRun P) (failure : Option ReadError) (over : Option Bytes)
      → IsSettled r
      → IsSettled (end_if_read_failed panel accepts writable r failure over)
  end_if_read_failed-IsSettled r none over e = e
  end_if_read_failed-IsSettled r (some f) none e = first_kept r.reason _ e
  end_if_read_failed-IsSettled r (some f) (some cause) e = e

  client_unless-IsSettled :
      (r : BridgeRun P) (bytes : Bytes) (failure : Option ReadError) (over : Option Bytes)
      → IsSettled r
      → IsSettled (client_unless panel accepts writable r bytes failure over)
  unfolding client_turn
  client_unless-IsSettled r bytes failure (some cause) e = e
  client_unless-IsSettled r bytes failure none e =
      end_if_read_failed-IsSettled _ failure _ (take_bytes-IsSettled r bytes e)

  -- Nothing that the other pump meets changes the reason.
  pub run_events-IsSettled :
      (r : BridgeRun P) (es : List Event)
      → IsSettled r
      → IsSettled (run_events panel accepts writable r es)
  unfolding run_events run_event
  run_events-IsSettled r [] e = e
  run_events-IsSettled r (device_event read ∷ es) e =
      run_events-IsSettled (device_unless panel accepts writable r read r.device_end) es
        (device_unless-IsSettled r read r.device_end e)
  run_events-IsSettled r (client_event bytes failure ∷ es) e =
      run_events-IsSettled (client_unless panel accepts writable r bytes failure r.client_end) es
        (client_unless-IsSettled r bytes failure r.client_end e)
