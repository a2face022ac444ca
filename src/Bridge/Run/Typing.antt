-- ===== src/Bridge/Run/Typing.antt =====
-- gateway-go/bridge.go: one more read of what the client types while `runBridge` runs.
use imsai_8080_esp_tty_gtw.Prelude.{
  ℕ, Bool, true, false, Bytes, List, [], ◌∷◌, ◌++◌, none, some, ◌≡◌, refl, sym, ap, subst, ◌∙◌,
  append_assoc,
}
use imsai_8080_esp_tty_gtw.Terminal.Input.{TerminalInput}
use imsai_8080_esp_tty_gtw.Terminal.Process.{process}
use imsai_8080_esp_tty_gtw.Terminal.Chunks.{process-append}
use imsai_8080_esp_tty_gtw.Config.Valid.{IsHotkey}
use imsai_8080_esp_tty_gtw.Bridge.Session.{Panel, Session}
use imsai_8080_esp_tty_gtw.Bridge.Cut.{occurs, occurs_suffix, occurs_front}
use imsai_8080_esp_tty_gtw.Bridge.Sent.{held, IsSent, both-IsSent}
use imsai_8080_esp_tty_gtw.Bridge.Keystrokes.{handle_input_transparent}
use imsai_8080_esp_tty_gtw.Bridge.Run.{Event, device_event, client_event, handle_all}
use imsai_8080_esp_tty_gtw.Bridge.Run.Kept.{handle_all_lem}

-- The bytes of the client up to its first error.
abbrev pub typed_bytes : List Event → Bytes
typed_bytes [] = []
typed_bytes (device_event read ∷ es) = typed_bytes es
typed_bytes (client_event bytes none ∷ es) = bytes ++ typed_bytes es
typed_bytes (client_event bytes (some e) ∷ es) = bytes

module _ {P : Type 0} where
  -- Whatever the client has been told.
  IsSent-anyway :
      (s s' : Session P) (xs told : Bytes)
      → IsSent s s' xs
      → IsSent (record s { to_client = told }) (record s' { to_client = told }) xs
  IsSent-anyway s s' xs told a = record {
    delivered = a.delivered;
    still_closed = a.still_closed;
    still_short = a.still_short;
    client_same = refl;
    cfg_same = a.cfg_same;
  }

module _ {P : Type 0} (panel : Panel P) (accepts : ℕ → Bool) (writable : Bytes → Bool)
    (takes : (k : ℕ) → accepts k ≡ true) (up : (b : Bytes) → writable b ≡ true) (t0 : TerminalInput)
    (s0 : Session P) (key : IsHotkey s0.cfg.hotkey_bytes) where
  -- From `t0` and `s0` the client has typed `seen`, and it went to the device.
  pub record IsTyped (seen : Bytes) (t : TerminalInput) (s : Session P) : Type 0 where
    pub sent : IsSent (record s0 { to_client = s.to_client }) s (process t0 seen).to_ws
    pub term_so_far : t ≡ (process t0 seen).term

  abbrev pub IsAbsent : Bytes → Type 0
  IsAbsent seen = occurs s0.cfg.hotkey_bytes (held s0 ++ (process t0 seen).to_ws) ≡ false

  pub IsAbsent-front : (seen more : Bytes) → IsAbsent (seen ++ more) → IsAbsent seen
  IsAbsent-front seen more absent =
      let hk = s0.cfg.hotkey_bytes in
      let p = process t0 seen in
      let q = process p.term more in
      occurs_front hk (held s0 ++ p.to_ws) q.to_ws (
        subst (λ o. occurs hk o ≡ false) (sym (append_assoc (held s0) p.to_ws q.to_ws))
          (subst (λ r. occurs hk (held s0 ++ r.to_ws) ≡ false) (process-append t0 seen more)
            absent))

  pub told-IsTyped :
      (seen : Bytes) (t : TerminalInput) (s : Session P) (told : Bytes)
      → IsTyped seen t s
      → IsTyped seen t (record s { to_client = told })
  told-IsTyped seen t s told a = record {
    sent =
        IsSent-anyway (record s0 { to_client = s.to_client }) s (process t0 seen).to_ws told a.sent;
    term_so_far = a.term_so_far;
  }

  -- The client has typed `bytes` more, which the device took: `s'` is behind `s`.
  more-IsTyped :
      (seen bytes : Bytes) (s s' : Session P)
      → (let p = process t0 seen in
          let q = process p.term bytes in
          IsTyped seen p.term s → IsSent s s' q.to_ws → IsTyped (seen ++ bytes) q.term s')
  more-IsTyped seen bytes s s' a b =
      let p = process t0 seen in
      let q = process p.term bytes in
      let whole = process-append t0 seen bytes in
      let both =
        both-IsSent (record s0 { to_client = s.to_client }) s s' p.to_ws q.to_ws a.sent b in
      record {
        sent =
            subst (λ r. IsSent (record s0 { to_client = s'.to_client }) s' r.to_ws) (sym whole)
              (IsSent-anyway (record s0 { to_client = s.to_client }) s' (p.to_ws ++ q.to_ws)
                s'.to_client both);
        term_so_far = ap (λ r. r.term) (sym whole);
      }

  -- The hotkey is not completed by the next read.
  next_absent :
      (seen bytes : Bytes) (s : Session P)
      → IsAbsent (seen ++ bytes)
      → IsTyped seen (process t0 seen).term s
      → occurs s.cfg.hotkey_bytes (held s ++ (process (process t0 seen).term bytes).to_ws) ≡ false
  next_absent seen bytes s absent a =
      let hk = s0.cfg.hotkey_bytes in
      let p = process t0 seen in
      let q = process p.term bytes in
      let (passed, got, left) = a.sent.delivered in
      let all_absent : occurs hk (held s0 ++ (p.to_ws ++ q.to_ws)) ≡ false =
        subst (λ r. occurs hk (held s0 ++ r.to_ws) ≡ false) (process-append t0 seen bytes) absent in
      let joined : held s0 ++ (p.to_ws ++ q.to_ws) ≡ passed ++ (held s ++ q.to_ws) =
        sym (append_assoc (held s0) p.to_ws q.to_ws)
        ∙ ap (λ o. o ++ q.to_ws) (sym left)
        ∙ append_assoc passed (held s) q.to_ws in
      subst (λ c. occurs c.hotkey_bytes (held s ++ q.to_ws) ≡ false) (sym a.sent.cfg_same)
        (occurs_suffix hk passed (held s ++ q.to_ws)
          (subst (λ o. occurs hk o ≡ false) joined all_absent))

  some_injective : {x y : Session P × Bytes} → some x ≡ some y → x ≡ y
  some_injective e = cc

  -- One read more.
  handle_all-IsTyped :
      (seen bytes : Bytes) (s : Session P)
      → IsAbsent (seen ++ bytes)
      → IsTyped seen (process t0 seen).term s
      → (let q = process (process t0 seen).term bytes in
          (s' : Session P) × (handle_all panel accepts writable s q.to_ws ≡ (s', []))
          × IsTyped (seen ++ bytes) q.term s')
  handle_all-IsTyped seen bytes s absent a =
      let q = process (process t0 seen).term bytes in
      let (s', run, sent) =
        handle_input_transparent panel accepts takes s q.to_ws
          (subst (λ c. IsHotkey c.hotkey_bytes) (sym a.sent.cfg_same) key) a.sent.still_short
          a.sent.still_closed (next_absent seen bytes s absent a) in
      (
        s',
        some_injective (sym (handle_all_lem panel accepts writable s q.to_ws) ∙ run),
        more-IsTyped seen bytes s s' a sent,
      )

  pub read_more :
      (seen bytes : Bytes) (t : TerminalInput) (s : Session P)
      → IsAbsent (seen ++ bytes)
      → IsTyped seen t s
      → (s' : Session P) × (handle_all panel accepts writable s (process t bytes).to_ws ≡ (s', []))
        × IsTyped (seen ++ bytes) (process t bytes).term s'
  read_more seen bytes t s absent a =
      subst
        (λ t.
          (s' : Session P) × (handle_all panel accepts writable s (process t bytes).to_ws
            ≡ (s', []))
          × IsTyped (seen ++ bytes) (process t bytes).term s')
        (sym a.term_so_far)
        (handle_all-IsTyped seen bytes s absent (record { sent = a.sent; term_so_far = refl }))
