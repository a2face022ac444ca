-- ===== src/Bridge/Run/Typed.antt =====
-- gateway-go/bridge.go: what the client types while `runBridge` runs reaches the device, whatever the
-- device sends meanwhile.
use imsai_8080_esp_tty_gtw.Prelude.{
  ℕ, ◌<◌, Bool, true, false, Bytes, List, [], ◌∷◌, ◌++◌, Option, none, some, Result, ok, err, ◌≡◌,
  refl, sym, ap, subst, ◌∙◌, length, append_assoc, append-nil, text_eq, ◌||◌,
}
use imsai_8080_esp_tty_gtw.Terminal.Input.{TerminalInput}
use imsai_8080_esp_tty_gtw.Terminal.Process.{process}
use imsai_8080_esp_tty_gtw.Config.Valid.{IsHotkey}
use imsai_8080_esp_tty_gtw.Bridge.Session.{Panel, Session}
use imsai_8080_esp_tty_gtw.Bridge.Pump.{filtered}
use imsai_8080_esp_tty_gtw.Bridge.Cut.{occurs}
use imsai_8080_esp_tty_gtw.Bridge.Sent.{held, IsSent, none-IsSent}
use imsai_8080_esp_tty_gtw.Bridge.Stream.{process-nil}
use imsai_8080_esp_tty_gtw.Bridge.Buffer.{closed_frame}
use imsai_8080_esp_tty_gtw.Bridge.Run.{
  ReadError, cause_of, Event, device_event, client_event, BridgeRun, device_turn, handle_all,
  end_client, end_if_failed, reply_and_handle, take_bytes, end_if_read_failed, client_turn,
  device_unless, client_unless, run_event, run_events, start_bridge,
}
use imsai_8080_esp_tty_gtw.Bridge.Run.Typing.{
  typed_bytes, IsTyped, IsAbsent, IsAbsent-front, told-IsTyped, read_more,
}
use imsai_8080_esp_tty_gtw.Bridge.Run.Delivered.{show_output_up}

module _ {P : Type 0} (panel : Panel P) (accepts : ℕ → Bool) (writable : Bytes → Bool)
    (takes : (k : ℕ) → accepts k ≡ true) (up : (b : Bytes) → writable b ≡ true) (t0 : TerminalInput)
    (s0 : Session P) (key : IsHotkey s0.cfg.hotkey_bytes) where
  abbrev HasTyped : Bytes → BridgeRun P → Type 0
  HasTyped seen r = IsTyped panel accepts writable takes up t0 s0 key seen r.term r.session

  reply_up :
      (r : BridgeRun P) (reply to_ws : Bytes) (s' : Session P)
      → handle_all panel accepts writable
          (record r.session { to_client = r.session.to_client ++ reply })
          to_ws
        ≡ (s', [])
      → reply_and_handle panel accepts writable r reply to_ws ≡ record r { session = s' }
  unfolding reply_and_handle text_eq
  reply_up r reply to_ws s' e =
      rw (up (r.session.to_client ++ reply), or_true (text_eq reply []), reply_and_handle)
        (ap (end_if_failed panel accepts writable r) e)
    where
      or_true : (b : Bool) → (b || true) ≡ true
      or_true true = refl
      or_true false = refl

  take_bytes-HasTyped :
      (seen bytes : Bytes) (r : BridgeRun P)
      → r.client_end ≡ none
      → IsAbsent panel accepts writable takes up t0 s0 key (seen ++ bytes)
      → HasTyped seen r
      → (let r' = take_bytes panel accepts writable r bytes in
          (r'.client_end ≡ none) × HasTyped (seen ++ bytes) r')
  unfolding take_bytes
  take_bytes-HasTyped seen [] r runs absent a =
      (runs, subst (λ x. HasTyped x r) (sym (append-nil seen)) a)
  take_bytes-HasTyped seen (b ∷ bs) r runs absent a =
      let p = process r.term (b ∷ bs) in
      let told = record r.session { to_client = r.session.to_client ++ p.to_client } in
      let (s', run, more) =
        read_more panel accepts writable takes up t0 s0 key seen (b ∷ bs) r.term told absent (
          told-IsTyped panel accepts writable takes up t0 s0 key seen r.term r.session
            told.to_client a) in
      subst (λ r'. (r'.client_end ≡ none) × HasTyped (seen ++ b ∷ bs) r')
        (sym (reply_up (record r { term = p.term }) p.to_client p.to_ws s' run)) (runs, more)

  -- The turns of the device leave what the client has typed alone.
  device_unless-HasTyped :
      (seen : Bytes) (r : BridgeRun P) (read : Result Bytes) (over : Option Bytes)
      → HasTyped seen r
      → (let r' = device_unless panel accepts writable r read over in
          (r'.client_end ≡ r.client_end) × HasTyped seen r')
  unfolding device_turn
  device_unless-HasTyped seen r read (some why) a = (refl, a)
  device_unless-HasTyped seen r (err e) none a = (refl, a)
  device_unless-HasTyped seen r (ok bytes) none a =
      let out = (filtered r.filter bytes).1 in
      rw
        (
          show_output_up panel accepts writable up _ out,
          closed_frame r.session out a.sent.still_closed,
        )
        (
          refl,
          told-IsTyped panel accepts writable takes up t0 s0 key seen r.term r.session
              (r.session.to_client ++ out) a,
        )

  -- When the client pump has ended nothing more is taken from it.
  run_events_ended :
      (seen cause : Bytes) (r : BridgeRun P) (es : List Event)
      → r.client_end ≡ some cause
      → HasTyped seen r
      → HasTyped seen (run_events panel accepts writable r es)
  unfolding run_events run_event
  run_events_ended seen cause r [] over a = a
  run_events_ended seen cause r (device_event read ∷ es) over a =
      let (same, a') = device_unless-HasTyped seen r read r.device_end a in
      run_events_ended seen cause (device_unless panel accepts writable r read r.device_end) es
        (same ∙ over) a'
  run_events_ended seen cause r (client_event bytes failure ∷ es) over a =
      subst (λ r'. HasTyped seen (run_events panel accepts writable r' es))
        (sym (ap (client_unless panel accepts writable r bytes failure) over))
        (run_events_ended seen cause r es over a)

  client_runs :
      (r : BridgeRun P) (bytes : Bytes) (failure : Option ReadError)
      → r.client_end ≡ none
      → (take_bytes panel accepts writable r bytes).client_end ≡ none
      → client_unless panel accepts writable r bytes failure r.client_end
        ≡ end_if_read_failed panel accepts writable
            (take_bytes panel accepts writable r bytes)
            failure
            none
  unfolding client_turn
  client_runs r bytes failure runs still =
      ap (client_unless panel accepts writable r bytes failure) runs
      ∙ ap
          (end_if_read_failed panel accepts writable (take_bytes panel accepts writable r bytes)
            failure)
          still

  run_events-HasTyped :
      (seen : Bytes) (r : BridgeRun P) (es : List Event)
      → r.client_end ≡ none
      → IsAbsent panel accepts writable takes up t0 s0 key (seen ++ typed_bytes es)
      → HasTyped seen r
      → HasTyped (seen ++ typed_bytes es) (run_events panel accepts writable r es)
  unfolding run_events run_event
  run_events-HasTyped seen r [] runs absent a = subst (λ x. HasTyped x r) (sym (append-nil seen)) a
  run_events-HasTyped seen r (device_event read ∷ es) runs absent a =
      let (same, a') = device_unless-HasTyped seen r read r.device_end a in
      run_events-HasTyped seen (device_unless panel accepts writable r read r.device_end) es
        (same ∙ runs) absent a'
  run_events-HasTyped seen r (client_event bytes none ∷ es) runs absent a =
      let joined = append_assoc seen bytes (typed_bytes es) in
      let absent' : IsAbsent panel accepts writable takes up t0 s0 key
          ((seen ++ bytes) ++ typed_bytes es) =
        subst (IsAbsent panel accepts writable takes up t0 s0 key) (sym joined) absent in
      let (still, a') =
        take_bytes-HasTyped seen bytes r runs
          (IsAbsent-front panel accepts writable takes up t0 s0 key (seen ++ bytes) (typed_bytes es)
            absent')
          a in
      subst
        (λ r'.
          HasTyped (seen ++ (bytes ++ typed_bytes es)) (run_events panel accepts writable r' es))
        (sym (client_runs r bytes none runs still))
        (subst
          (λ x.
            HasTyped x
              (run_events panel accepts writable (take_bytes panel accepts writable r bytes) es))
          joined
          (run_events-HasTyped (seen ++ bytes) (take_bytes panel accepts writable r bytes) es still
            absent' a'))
  run_events-HasTyped seen r (client_event bytes (some e) ∷ es) runs absent a =
      let (still, a') = take_bytes-HasTyped seen bytes r runs absent a in
      subst (λ r'. HasTyped (seen ++ bytes) (run_events panel accepts writable r' es))
        (sym (client_runs r bytes (some e) runs still))
        (run_events_ended (seen ++ bytes) (cause_of e)
          (end_client panel accepts writable (take_bytes panel accepts writable r bytes)
            (cause_of e))
          es refl a')

-- For a hotkey of one byte, or of ESC and one byte, with less than all of it held, when the device
-- and the client take what is written to them and the panel is closed: in whatever order the device
-- and the client go on, all that the client types up to its first error comes to the device whole,
-- once and in order, as the cleaned text of all the bytes at once, but for a first byte of the hotkey
-- at the end, which is held, as long as the hotkey is not completed in that text.
pub run_events-IsSent :
    {P : Type 0} (panel : Panel P) (accepts : ℕ → Bool) (writable : Bytes → Bool)
    (t : TerminalInput) (s : Session P) (capture : Option Bytes) (es : List Event)
    → ((k : ℕ) → accepts k ≡ true)
    → ((b : Bytes) → writable b ≡ true)
    → IsHotkey s.cfg.hotkey_bytes
    → s.hk_match < length s.cfg.hotkey_bytes
    → s.tui ≡ false
    → occurs s.cfg.hotkey_bytes (held s ++ (process t (typed_bytes es)).to_ws) ≡ false
    → (let begun = start_bridge panel accepts writable t s capture in
        let r = run_events panel accepts writable begun es in
        (r.term ≡ (process t (typed_bytes es)).term)
        × IsSent
            (record begun.session { to_client = r.session.to_client })
            r.session
            (process t (typed_bytes es)).to_ws)
run_events-IsSent panel accepts writable t s capture es takes up key short closed absent =
    let begun = start_bridge panel accepts writable t s capture in
    let first : IsTyped panel accepts writable takes up t begun.session key [] t begun.session =
      record {
        sent =
            subst (λ p. IsSent begun.session begun.session p.to_ws) (sym (process-nil t))
              (none-IsSent begun.session closed short);
        term_so_far = ap (λ p. p.term) (sym (process-nil t));
      } in
    let a =
      run_events-HasTyped panel accepts writable takes up t begun.session key [] begun es refl
        absent first in
    (a.term_so_far, a.sent)
