-- ===== src/Bridge/Stream.antt =====
-- gateway-go/bridge.go: what the client types reaches the device, however it is read.
use imsai_8080_esp_tty_gtw.Prelude.{
  ap, sym, ◌∙◌, subst, refl, arith, ◌≡◌, ◌<◌, ℕ, ◌+◌, ◌*◌, Bool, true, false, Bytes, List, [], ◌∷◌,
  ◌++◌, some, length, text_eq, append_assoc, append-nil,
}
use imsai_8080_esp_tty_gtw.Terminal.Input.{TerminalInput}
use imsai_8080_esp_tty_gtw.Terminal.Feed.{feed_all}
use imsai_8080_esp_tty_gtw.Terminal.Eol.{normalize_eol, normalize_from}
use imsai_8080_esp_tty_gtw.Terminal.Process.{process, parse_telnet}
use imsai_8080_esp_tty_gtw.Terminal.Chunks.{process-append}
use imsai_8080_esp_tty_gtw.Config.Valid.{IsHotkey}
use imsai_8080_esp_tty_gtw.Bridge.Session.{Panel, Session}
use imsai_8080_esp_tty_gtw.Bridge.Input.{handle_input}
use imsai_8080_esp_tty_gtw.Bridge.Buffer.{concat_all}
use imsai_8080_esp_tty_gtw.Bridge.Cut.{occurs, occurs_suffix, occurs_front}
use imsai_8080_esp_tty_gtw.Bridge.Sent.{held, IsSent, none-IsSent, both-IsSent}
use imsai_8080_esp_tty_gtw.Bridge.Keystrokes.{handle_input_transparent}
use imsai_8080_esp_tty_gtw.Bridge.Reads.{one_read, pump_tcp_to_ws}

pub process-nil :
    (t : TerminalInput) → process t [] ≡ record { term = t; to_ws = []; to_client = [] }
unfolding process feed_all normalize_eol normalize_from parse_telnet
process-nil t = ground arith

module _ {P : Type 0} where
  -- The session behind the replies of the Telnet layer.
  abbrev pub told : Session P → Bytes → Session P
  told s reply = record s { to_client = s.to_client ++ reply }

  told-IsSent :
      (s s' : Session P) (xs reply : Bytes)
      → IsSent s s' xs
      → IsSent (told s reply) (told s' reply) xs
  told-IsSent s s' xs reply a = record {
    delivered = a.delivered;
    still_closed = a.still_closed;
    still_short = a.still_short;
    client_same = ap (λ o. o ++ reply) a.client_same;
    cfg_same = a.cfg_same;
  }

module _ {P : Type 0} (panel : Panel P) (accepts : ℕ → Bool) (up : (k : ℕ) → accepts k ≡ true) where
  one_read_lem :
      (t : TerminalInput) (s s' : Session P) (bytes : Bytes)
      → (let p = process t bytes in
          handle_input panel accepts (2 * length p.to_ws + 2) (told s p.to_client) p.to_ws)
        ≡ some (s', [])
      → one_read panel accepts t s bytes ≡ some ((process t bytes).term, s', [])
  unfolding one_read
  one_read_lem t s s' bytes e = ground arith

  pump_step :
      (t t' : TerminalInput) (s s' : Session P) (bytes : Bytes) (reads : List Bytes)
      → one_read panel accepts t s bytes ≡ some (t', s', [])
      → pump_tcp_to_ws panel accepts t s (bytes ∷ reads) ≡ pump_tcp_to_ws panel accepts t' s' reads
  unfolding pump_tcp_to_ws text_eq
  pump_step t t' s s' bytes reads e = ground arith

  pump_end :
      (t : TerminalInput) (s : Session P) → pump_tcp_to_ws panel accepts t s [] ≡ some (t, s, [])
  unfolding pump_tcp_to_ws
  pump_end t s = refl

  -- For a hotkey of one byte, or of ESC and one byte, with less than all of it held: when the
  -- device takes what is sent to it and the panel is closed, what the client types comes to the
  -- device whole, once and in order, however it is cut into reads, as long as the hotkey is not
  -- completed: it is the cleaned text of all the bytes at once, but for a first byte of the hotkey
  -- at the end, which is held; the client gets the replies of the Telnet layer and nothing else.
  pub pump_tcp_to_ws_transparent :
      (t : TerminalInput) (s : Session P) (reads : List Bytes)
      → IsHotkey s.cfg.hotkey_bytes
      → s.hk_match < length s.cfg.hotkey_bytes
      → s.tui ≡ false
      → occurs s.cfg.hotkey_bytes (held s ++ (process t (concat_all reads)).to_ws) ≡ false
      → (s' : Session P) × (pump_tcp_to_ws panel accepts t s reads
          ≡ some ((process t (concat_all reads)).term, s', []))
        × IsSent
            (told s (process t (concat_all reads)).to_client)
            s'
            (process t (concat_all reads)).to_ws
  pump_tcp_to_ws_transparent t s [] key short closed absent = (
    s,
    pump_end t s ∙ ap (λ p. some (p.term, s, [])) (sym (process-nil t)),
    subst (λ p. IsSent (told s p.to_client) s p.to_ws) (sym (process-nil t))
        (subst (λ o. IsSent (record s { to_client = o }) s []) (sym (append-nil s.to_client))
          (none-IsSent s closed short)),
  )
  pump_tcp_to_ws_transparent t s (bytes ∷ reads) key short closed absent =
      let hk = s.cfg.hotkey_bytes in
      let p = process t bytes in
      let q = process p.term (concat_all reads) in
      let whole = process-append t bytes (concat_all reads) in
      let all_absent : occurs hk ((held s ++ p.to_ws) ++ q.to_ws) ≡ false =
        subst (λ o. occurs hk o ≡ false) (sym (append_assoc (held s) p.to_ws q.to_ws))
          (subst (λ r. occurs hk (held s ++ r.to_ws) ≡ false) whole absent) in
      let (s1, run, sent) =
        handle_input_transparent panel accepts up (told s p.to_client) p.to_ws key short closed
          (occurs_front hk (held s ++ p.to_ws) q.to_ws all_absent) in
      let hk_same : s1.cfg.hotkey_bytes ≡ hk = ap (λ c. c.hotkey_bytes) sent.cfg_same in
      let (passed, got, left) = sent.delivered in
      let absent1 : occurs hk (held s1 ++ q.to_ws) ≡ false =
        occurs_suffix hk passed (held s1 ++ q.to_ws) (
          subst (λ o. occurs hk o ≡ false)
            (ap (λ o. o ++ q.to_ws) (sym left) ∙ append_assoc passed (held s1) q.to_ws)
            all_absent) in
      let (s2, rest, sent') =
        pump_tcp_to_ws_transparent p.term s1 reads (subst IsHotkey (sym hk_same) key)
          sent.still_short sent.still_closed
          (subst (λ h. occurs h (held s1 ++ q.to_ws) ≡ false) (sym hk_same) absent1) in
      (
        s2,
        pump_step t p.term s s1 bytes reads (one_read_lem t s s1 bytes run)
            ∙ rest
            ∙ ap (λ r. some (r.term, s2, [])) (sym whole),
        subst (λ r. IsSent (told s r.to_client) s2 r.to_ws) (sym whole)
            (subst (λ o. IsSent (record s { to_client = o }) s2 (p.to_ws ++ q.to_ws))
              (append_assoc s.to_client p.to_client q.to_client)
              (both-IsSent (told (told s p.to_client) q.to_client) (told s1 q.to_client) s2 p.to_ws
                q.to_ws (told-IsSent (told s p.to_client) s1 p.to_ws q.to_client sent) sent')),
      )
