-- ===== src/Bridge/Run/Causes.antt =====
-- gateway-go/bridge.go: how the two pumps of `runBridge` end.
use imsai_8080_esp_tty_gtw.Prelude.{
  ℕ, zero, suc, ◌+◌, ◌*◌, Bool, Bytes, List, [], ◌∷◌, ◌++◌, Option, none, some, Result, ok, err,
  ◌≡◌, refl, ◌⊎◌, inl, inr, arith, length, get_or, take, text_eq, Bool-cases, Option-cases, ◌||◌,
}
use imsai_8080_esp_tty_gtw.Bridge.Session.{Panel, Session}
use imsai_8080_esp_tty_gtw.Bridge.Input.{
  cut_at, forward, forward_some, feed_panel, matched, handle_input, ws_closed,
}
use imsai_8080_esp_tty_gtw.Bridge.Run.{
  device_unless, client_unless, device_unless, client_unless, ReadError, cause_of, write_failed,
  Event, device_event, client_event, BridgeRun, first_of, show_output, device_turn, handle_all,
  end_if_failed, reply_and_handle, take_bytes, end_if_read_failed, client_turn, run_event,
  run_events,
}

abbrev pub IsDeviceCause : Option Bytes → Type 0
IsDeviceCause none = Unit
IsDeviceCause (some cause) = (cause ≡ ws_closed) ⊎ (cause ≡ write_failed)

abbrev pub IsClientCause : Option Bytes → Type 0
IsClientCause none = Unit
IsClientCause (some cause) =
    (cause ≡ ws_closed) ⊎ (cause ≡ write_failed) ⊎ ((e : ReadError) × (cause ≡ cause_of e))

-- The reason is what one of the pumps has returned.
abbrev pub IsFirst : Option Bytes → Option Bytes → Option Bytes → Type 0
IsFirst none d c = (d ≡ none) × (c ≡ none)
IsFirst (some reason) d c = (d ≡ some reason) ⊎ (c ≡ some reason)

abbrev IsEndedBy : Option Bytes → Option Bytes → Option Bytes → Type 0
IsEndedBy d c reason = IsDeviceCause d × IsClientCause c × IsFirst reason d c

module _ {P : Type 0} (panel : Panel P) (accepts : ℕ → Bool) where
  handle_input_cause :
      (turns : ℕ) (s s' : Session P) (bytes cause : Bytes)
      → handle_input panel accepts turns s bytes ≡ some (s', cause)
      → (cause ≡ []) ⊎ (cause ≡ ws_closed)
  unfolding handle_input
  handle_input_cause zero s s' bytes cause e = cc
  handle_input_cause (suc turns) s s' [] cause e = inl cc
  handle_input_cause (suc turns) s s' (b ∷ bs) cause e =
      let hk = s.cfg.hotkey_bytes in
      let kept = (forward panel accepts s (take s.hk_match hk)).1 in
      let shown = handle_input_cause turns (feed_panel panel accepts s (b ∷ bs)) s' [] cause in
      let more = handle_input_cause turns (matched panel accepts s (s.hk_match + 1)) s' bs cause in
      let again = handle_input_cause turns (record kept { hk_match = 0 }) s' (b ∷ bs) cause in
      elim (Option-cases (cut_at (get_or hk 0 0) (b ∷ bs))) [
        | inl n ↦ ground (arith, shown, more, again, n)
        | inr ((pre, post), p) ↦ ground (
          arith,
          shown,
          more,
          again,
          p,
          handle_input_cause turns (matched panel accepts (forward_some panel accepts s pre).1 1) s'
              post cause,
        )
      ]

device_ended :
    (c reason : Option Bytes) (cause : Bytes)
    → IsDeviceCause (some cause)
    → IsEndedBy none c reason
    → IsEndedBy (some cause) c (first_of reason cause)
device_ended c none cause known (d, k, f) = (known, k, inl refl)
device_ended c (some reason) cause known (d, k, inl e) = cc
device_ended c (some reason) cause known (d, k, inr e) = (known, k, inr e)

client_ended :
    (d reason : Option Bytes) (cause : Bytes)
    → IsClientCause (some cause)
    → IsEndedBy d none reason
    → IsEndedBy d (some cause) (first_of reason cause)
client_ended d none cause known (k, c, f) = (k, known, inr refl)
client_ended d (some reason) cause known (k, c, inl e) = (k, known, inl e)
client_ended d (some reason) cause known (k, c, inr e) = cc

module _ {P : Type 0} (panel : Panel P) (accepts : ℕ → Bool) (writable : Bytes → Bool) where
  -- The reason of a run is what one of its pumps has returned, and what they return is known.
  abbrev pub IsTracked : BridgeRun P → Type 0
  IsTracked r = IsEndedBy r.device_end r.client_end r.reason

  handle_all_cause :
      (s : Session P) (bytes : Bytes)
      → (let cause = (handle_all panel accepts writable s bytes).1 in
          (cause ≡ []) ⊎ (cause ≡ ws_closed))
  unfolding handle_all
  handle_all_cause s bytes =
      elim (Option-cases (handle_input panel accepts (2 * length bytes + 2) s bytes)) [
        | inl n ↦ rw (n, handle_all) (inl refl)
        | inr ((s', cause), e) ↦
            rw (e, handle_all) (handle_input_cause panel accepts _ s s' bytes cause e)
      ]

  show_output-IsTracked :
      (r : BridgeRun P) (out : Bytes)
      → r.device_end ≡ none
      → IsTracked r
      → IsTracked (show_output panel accepts writable r out)
  unfolding show_output
  show_output-IsTracked r out runs k =
      elim (Bool-cases (r.session.tui || writable (r.session.to_client ++ out))) [
        | inl good ↦ rw (good, show_output) k
        | inr bad ↦
            rw (bad, show_output)
              (device_ended r.client_end r.reason write_failed (inr refl) (rw runs at k))
      ]

  device_turn-IsTracked :
      (r : BridgeRun P) (read : Result Bytes)
      → r.device_end ≡ none
      → IsTracked r
      → IsTracked (device_turn panel accepts writable r read)
  unfolding device_turn
  device_turn-IsTracked r (err e) runs k =
      device_ended r.client_end r.reason ws_closed (inl refl) (rw runs at k)
  device_turn-IsTracked r (ok bytes) runs k = show_output-IsTracked _ _ runs k

  end_if_failed-IsTracked :
      (r : BridgeRun P) (s : Session P) (cause : Bytes)
      → (cause ≡ []) ⊎ (cause ≡ ws_closed)
      → r.client_end ≡ none
      → IsTracked r
      → IsTracked (end_if_failed panel accepts writable r (s, cause))
  unfolding text_eq
  end_if_failed-IsTracked r s cause (inl e) runs k = rw e k
  end_if_failed-IsTracked r s cause (inr e) runs k =
      rw e (client_ended r.device_end r.reason ws_closed (inl refl) (rw runs at k))

  reply_and_handle-IsTracked :
      (r : BridgeRun P) (reply to_ws : Bytes)
      → r.client_end ≡ none
      → IsTracked r
      → IsTracked (reply_and_handle panel accepts writable r reply to_ws)
  unfolding reply_and_handle
  reply_and_handle-IsTracked r reply to_ws runs k =
      let told = record r.session { to_client = r.session.to_client ++ reply } in
      elim (Bool-cases (text_eq reply [] || writable (r.session.to_client ++ reply))) [
        | inl good ↦
            rw (good, reply_and_handle)
              (end_if_failed-IsTracked r _ _ (handle_all_cause told to_ws) runs k)
        | inr bad ↦
            rw (bad, reply_and_handle)
              (client_ended r.device_end r.reason write_failed (inr (inl refl)) (rw runs at k))
      ]

  take_bytes-IsTracked :
      (r : BridgeRun P) (bytes : Bytes)
      → r.client_end ≡ none
      → IsTracked r
      → IsTracked (take_bytes panel accepts writable r bytes)
  unfolding take_bytes
  take_bytes-IsTracked r [] runs k = k
  take_bytes-IsTracked r (b ∷ bs) runs k = reply_and_handle-IsTracked _ _ _ runs k

  end_if_read_failed-IsTracked :
      (r : BridgeRun P) (failure : Option ReadError) (c : Option Bytes)
      → r.client_end ≡ c
      → IsTracked r
      → IsTracked (end_if_read_failed panel accepts writable r failure c)
  end_if_read_failed-IsTracked r none c e k = k
  end_if_read_failed-IsTracked r (some f) none runs k =
      client_ended r.device_end r.reason (cause_of f) (inr (inr (f, refl))) (rw runs at k)
  end_if_read_failed-IsTracked r (some f) (some cause) e k = k

  device_unless-IsTracked :
      (r : BridgeRun P) (read : Result Bytes) (d : Option Bytes)
      → r.device_end ≡ d
      → IsTracked r
      → IsTracked (device_unless panel accepts writable r read d)
  device_unless-IsTracked r read none runs k = device_turn-IsTracked r read runs k
  device_unless-IsTracked r read (some cause) e k = k

  client_unless-IsTracked :
      (r : BridgeRun P) (bytes : Bytes) (failure : Option ReadError) (c : Option Bytes)
      → r.client_end ≡ c
      → IsTracked r
      → IsTracked (client_unless panel accepts writable r bytes failure c)
  unfolding client_turn
  client_unless-IsTracked r bytes failure none runs k =
      end_if_read_failed-IsTracked (take_bytes panel accepts writable r bytes) failure _ refl
        (take_bytes-IsTracked r bytes runs k)
  client_unless-IsTracked r bytes failure (some cause) e k = k

  pub run_event-IsTracked :
      (r : BridgeRun P) (e : Event) → IsTracked r → IsTracked (run_event panel accepts writable r e)
  unfolding run_event
  run_event-IsTracked r (device_event read) k = device_unless-IsTracked r read r.device_end refl k
  run_event-IsTracked r (client_event bytes failure) k =
      client_unless-IsTracked r bytes failure r.client_end refl k

  pub run_events-IsTracked :
      (r : BridgeRun P) (es : List Event)
      → IsTracked r
      → IsTracked (run_events panel accepts writable r es)
  unfolding run_events
  run_events-IsTracked r [] k = k
  run_events-IsTracked r (e ∷ es) k =
      run_events-IsTracked (run_event panel accepts writable r e) es (run_event-IsTracked r e k)

  pub run_events-append :
      (r : BridgeRun P) (es fs : List Event)
      → run_events panel accepts writable r (es ++ fs)
        ≡ run_events panel accepts writable (run_events panel accepts writable r es) fs
  unfolding run_events
  run_events-append r [] fs = refl
  run_events-append r (e ∷ es) fs = run_events-append (run_event panel accepts writable r e) es fs
