-- ===== src/Bridge/Run/Delivered.antt =====
-- gateway-go/bridge.go: what the device sends while `runBridge` runs comes to the client, and to the
-- capture file.
use mathlib.Core.Option
use imsai_8080_esp_tty_gtw.Prelude.{
  ℕ, ◌≤◌, Bool, true, false, Bytes, List, [], ◌∷◌, ◌++◌, Option, none, some, ok, err, ◌≡◌, refl,
  sym, ap, subst, ◌∙◌, inr, length, append_assoc, append-nil, ◌||◌,
}
use imsai_8080_esp_tty_gtw.Output.Filter.{OutProc}
use imsai_8080_esp_tty_gtw.Terminal.Input.{TerminalInput}
use imsai_8080_esp_tty_gtw.Bridge.Session.{Panel, Session}
use imsai_8080_esp_tty_gtw.Bridge.Console.{tui_out_buf_max, device_frame}
use imsai_8080_esp_tty_gtw.Bridge.Input.{ws_closed}
use imsai_8080_esp_tty_gtw.Bridge.Pump.{filter_of, filtered}
use imsai_8080_esp_tty_gtw.Bridge.Buffer.{filtered-append, filtered-nil}
use imsai_8080_esp_tty_gtw.Bridge.Delivery.{
  mix_none, mix_own, IsDelivered, device_frame-IsDelivered,
}
use imsai_8080_esp_tty_gtw.Bridge.Run.Kept.{IsAt, client_unless-IsAt, run_events_over}
use imsai_8080_esp_tty_gtw.Bridge.Run.{
  Event, device_event, client_event, BridgeRun, show_output, device_turn, device_unless,
  client_unless, run_event, run_events, start_bridge,
}

-- The bytes of the device up to its first error.
abbrev pub taken : List Event → Bytes
taken [] = []
taken (device_event (ok bytes) ∷ es) = bytes ++ taken es
taken (device_event (err e) ∷ es) = []
taken (client_event bytes failure ∷ es) = taken es

module _ {P : Type 0} (panel : Panel P) (accepts : ℕ → Bool) (writable : Bytes → Bool) where
  -- The output of an event fits into the buffer, and that of those behind it.
  abbrev pub FitsOne : BridgeRun P → Event → Type 0
  FitsOne r (device_event (ok bytes)) =
      length (r.session.out_buf ++ (filtered r.filter bytes).1) ≤ tui_out_buf_max
  FitsOne r (device_event (err e)) = Unit
  FitsOne r (client_event bytes failure) = Unit

  abbrev pub Fits : BridgeRun P → List Event → Type 0
  Fits r [] = Unit
  Fits r (e ∷ es) = FitsOne r e × Fits (run_event panel accepts writable r e) es

  module _ (up : (b : Bytes) → writable b ≡ true) where
    pub show_output_up :
        (r : BridgeRun P) (out : Bytes)
        → show_output panel accepts writable r out
          ≡ record r { session = device_frame r.session out }
    unfolding show_output
    show_output_up r out =
        rw (up (r.session.to_client ++ out), or_true r.session.tui, show_output) refl
      where
        or_true : (b : Bool) → (b || true) ≡ true
        or_true true = refl
        or_true false = refl

    device_unless_ok :
        (all : Bytes) (f : Option OutProc) (c : Option Bytes) (r : BridgeRun P) (bytes : Bytes)
        (over : Option Bytes)
        → r.device_end ≡ over
        → IsAt panel accepts writable all f c none r
        → length (r.session.out_buf ++ (filtered r.filter bytes).1) ≤ tui_out_buf_max
        → IsAt panel accepts writable
            (all ++ (filtered f bytes).1)
            (filtered f bytes).0
            (Option.map (λ o. o ++ bytes) c)
            none
            (device_unless panel accepts writable r (ok bytes) over)
    unfolding device_turn
    device_unless_ok all f c r bytes none runs (x, (e1, e2, e3)) fits =
        rw (show_output_up _ (filtered r.filter bytes).1) (
          rw⁻¹ e1 (
            device_frame-IsDelivered all r.session (filtered r.filter bytes).1 fits x,
            (refl, ap (Option.map (λ o. o ++ bytes)) e2, e3),
          ))
    device_unless_ok all f c r bytes (some why) over (x, (e1, e2, e3)) fits = absurd cc

    -- What the run has delivered and captured in the end, from a state of it.
    abbrev IsDone : Bytes → Option OutProc → Option Bytes → Bytes → BridgeRun P → Type 0
    IsDone all f c bytes r =
        IsDelivered (all ++ (filtered f bytes).1) r.session
        × (r.capture ≡ Option.map (λ o. o ++ bytes) c)

    map-append :
        (c : Option Bytes) (xs ys : Bytes)
        → Option.map (λ o. o ++ ys) (Option.map (λ o. o ++ xs) c)
          ≡ Option.map (λ o. o ++ (xs ++ ys)) c
    map-append none xs ys = refl
    map-append (some o) xs ys = ap some (append_assoc o xs ys)

    map-nil : (c : Option Bytes) → Option.map (λ o. o ++ []) c ≡ c
    map-nil none = refl
    map-nil (some o) = ap some (append-nil o)

    IsAt-IsDone :
        (all : Bytes) (f : Option OutProc) (c d : Option Bytes) (r : BridgeRun P)
        → IsAt panel accepts writable all f c d r
        → IsDone all f c [] r
    IsAt-IsDone all f c d r (x, (e1, e2, e3)) =
        rw (filtered-nil f, append-nil all, map-nil c) (x, e2)

    IsDone-append :
        (all : Bytes) (f : Option OutProc) (c : Option Bytes) (xs ys : Bytes) (r : BridgeRun P)
        → IsDone (all ++ (filtered f xs).1) (filtered f xs).0 (Option.map (λ o. o ++ xs) c) ys r
        → IsDone all f c (xs ++ ys) r
    IsDone-append all f c xs ys r (x, e) = (
      subst (λ (a : Bytes). IsDelivered a r.session)
          (append_assoc all (filtered f xs).1 (filtered (filtered f xs).0 ys).1
            ∙ ap (λ (p : Option OutProc × Bytes). all ++ p.1) (sym (filtered-append f xs ys)))
          x,
      e ∙ map-append c xs ys,
    )

    device_unless_err :
        (all : Bytes) (f : Option OutProc) (c : Option Bytes) (r : BridgeRun P) (e : Bytes)
        (over : Option Bytes)
        → r.device_end ≡ over
        → IsAt panel accepts writable all f c none r
        → IsAt panel accepts writable all f c
            (some ws_closed)
            (device_unless panel accepts writable r (err e) over)
    unfolding device_turn
    device_unless_err all f c r e none runs (x, (e1, e2, e3)) = (x, (e1, e2, refl))
    device_unless_err all f c r e (some why) over (x, (e1, e2, e3)) = absurd cc

    run_events_from :
        (all : Bytes) (f : Option OutProc) (c : Option Bytes) (r : BridgeRun P) (es : List Event)
        → IsAt panel accepts writable all f c none r
        → Fits r es
        → IsDone all f c (taken es) (run_events panel accepts writable r es)
    unfolding run_events run_event
    run_events_from all f c r [] k fits = IsAt-IsDone all f c none r k
    run_events_from all f c r (device_event (err e) ∷ es) k fits =
        IsAt-IsDone all f c (some ws_closed)
          (run_events panel accepts writable
            (device_unless panel accepts writable r (err e) r.device_end) es)
          (run_events_over panel accepts writable all f c ws_closed
            (device_unless panel accepts writable r (err e) r.device_end) es
            (device_unless_err all f c r e r.device_end refl k))
    run_events_from all f c r (device_event (ok bytes) ∷ es) k (here, fits) =
        IsDone-append all f c bytes (taken es)
          (run_events panel accepts writable
            (device_unless panel accepts writable r (ok bytes) r.device_end) es)
          (run_events_from (all ++ (filtered f bytes).1) (filtered f bytes).0
            (Option.map (λ o. o ++ bytes) c)
            (device_unless panel accepts writable r (ok bytes) r.device_end) es
            (device_unless_ok all f c r bytes r.device_end refl k here) fits)
    run_events_from all f c r (client_event bytes failure ∷ es) k (here, fits) =
        run_events_from all f c (client_unless panel accepts writable r bytes failure r.client_end)
          es (client_unless-IsAt panel accepts writable all f c none r bytes failure r.client_end k)
          fits

    -- From the start of a bridge with nothing buffered, whatever is typed and in whatever order the
    -- device and the client go on, as long as writes to the client succeed and the buffer of the open
    -- panel does not overflow: all that the device sends up to its first error is, as the filter of
    -- the connection leaves it, with the client, in order, among the bytes of the gateway, but for
    -- what is buffered while the panel is open; and the capture file, where there is one, has got it
    -- as it came.
    pub run_events-IsDelivered :
        (t : TerminalInput) (s : Session P) (capture : Option Bytes) (es : List Event)
        → s.out_buf ≡ []
        → Fits (start_bridge panel accepts writable t s capture) es
        → (let r =
              run_events panel accepts writable
                (start_bridge panel accepts writable t s capture)
                es in
            IsDelivered (filtered (filter_of s.cfg) (taken es)).1 r.session
            × (r.capture ≡ Option.map (λ o. o ++ taken es) capture))
    run_events-IsDelivered t s capture es empty fits =
        let begun : IsDelivered [] (record s { ws = record { sent = []; writes = 0 } }) = record {
          dev = [];
          mix = mix_own s.to_client mix_none;
          whole = empty;
          buffered = inr empty;
        } in
        run_events_from [] (filter_of s.cfg) capture
          (start_bridge panel accepts writable t s capture) es (begun, (refl, refl, refl)) fits
