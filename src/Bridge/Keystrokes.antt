-- ===== src/Bridge/Keystrokes.antt =====
-- gateway-go/bridge.go: keystrokes that do not spell the hotkey all reach the device.
use imsai_8080_esp_tty_gtw.Prelude.{
  subst, ◌⊎◌, inr, inl, Option-cases, sym, ap, ◌∙◌, ℕ, zero, suc, ◌+◌, ◌*◌, ◌<◌, Bool, true, false,
  Bytes, [], ◌∷◌, ◌++◌, none, some, ◌≡◌, refl, arith, length, get_or, ◌==◌, append-nil,
}
use imsai_8080_esp_tty_gtw.Bridge.Ws.{received}
use imsai_8080_esp_tty_gtw.Bridge.Session.{Panel, Session}
use imsai_8080_esp_tty_gtw.Bridge.Input.{cut_at, forward, forward_some, matched, handle_input}
use imsai_8080_esp_tty_gtw.Bridge.Turns.{length-cut_at}
use imsai_8080_esp_tty_gtw.Bridge.Cut.{
  occurs, occurs_suffix, cut_at_split, cut_at_absent, occurs-second,
}
use imsai_8080_esp_tty_gtw.Config.Valid.{IsHotkey}
use imsai_8080_esp_tty_gtw.Bridge.Sent.{held, IsSent, none-IsSent, both-IsSent}
use imsai_8080_esp_tty_gtw.Bridge.Transparent.{received-send_to_ws}

module _ {P : Type 0} (panel : Panel P) (accepts : ℕ → Bool) (up : (k : ℕ) → accepts k ≡ true) where
  forward_good : (s : Session P) (bytes : Bytes) → (forward panel accepts s bytes).0 ≡ true
  unfolding forward
  forward_good s bytes = (received-send_to_ws accepts up s.cfg s.ws bytes).0

  received-forward :
      (s : Session P) (bytes : Bytes)
      → received (forward panel accepts s bytes).1.ws.sent ≡ received s.ws.sent ++ bytes
  unfolding forward
  received-forward s bytes = (received-send_to_ws accepts up s.cfg s.ws bytes).1

  turn_end :
      (turns : ℕ) (s : Session P) → handle_input panel accepts (suc turns) s [] ≡ some (s, [])
  unfolding handle_input
  turn_end turns s = refl

  -- A turn that finds no key sends all and ends.
  turn_plain :
      (turns : ℕ) (s : Session P) (b : ℕ) (bs : Bytes)
      → s.tui ≡ false
      → (length s.cfg.hotkey_bytes == 0) ≡ false
      → s.hk_match ≡ 0
      → cut_at (get_or s.cfg.hotkey_bytes 0 0) (b ∷ bs) ≡ none
      → handle_input panel accepts (suc turns) s (b ∷ bs)
        ≡ some ((forward panel accepts s (b ∷ bs)).1, [])
  unfolding handle_input
  turn_plain turns s b bs closed some_key fresh absent = ground (arith, forward_good s (b ∷ bs))

  forward_some_good :
      (s : Session P) (bytes : Bytes) → (forward_some panel accepts s bytes).0 ≡ true
  unfolding forward_some
  forward_some_good s [] = refl
  forward_some_good s (x ∷ xs) = forward_good s (x ∷ xs)

  -- A turn that finds the first byte of the key sends what stands before it.
  turn_cut :
      (turns : ℕ) (s : Session P) (b : ℕ) (bs pre post : Bytes)
      → s.tui ≡ false
      → (length s.cfg.hotkey_bytes == 0) ≡ false
      → s.hk_match ≡ 0
      → cut_at (get_or s.cfg.hotkey_bytes 0 0) (b ∷ bs) ≡ some (pre, post)
      → handle_input panel accepts (suc turns) s (b ∷ bs)
        ≡ handle_input panel accepts turns
            (matched panel accepts (forward_some panel accepts s pre).1 1)
            post
  unfolding handle_input
  turn_cut turns s b bs pre post closed some_key fresh found =
      ground (arith, forward_some_good s pre)

  -- A turn that breaks a started key off sends what is held.
  turn_break :
      (turns : ℕ) (s : Session P) (b : ℕ) (bs : Bytes)
      → s.tui ≡ false
      → (length s.cfg.hotkey_bytes == 0) ≡ false
      → (s.hk_match == 0) ≡ false
      → (b == get_or s.cfg.hotkey_bytes s.hk_match 0) ≡ false
      → handle_input panel accepts (suc turns) s (b ∷ bs)
        ≡ handle_input panel accepts turns
            (record (forward panel accepts s (held s)).1 { hk_match = 0 })
            (b ∷ bs)
  unfolding handle_input
  turn_break turns s b bs closed some_key started other = ground (arith, forward_good s (held s))

  forward-IsSent :
      (s : Session P) (bytes : Bytes)
      → s.tui ≡ false
      → s.hk_match ≡ 0
      → s.hk_match < length s.cfg.hotkey_bytes
      → IsSent s (forward panel accepts s bytes).1 bytes
  unfolding forward
  forward-IsSent s bytes closed fresh short = record {
    delivered = (bytes, received-forward s bytes, simp fresh (append-nil bytes));
    still_closed = closed;
    still_short = short;
    client_same = refl;
    cfg_same = refl;
  }

  -- Input that does not have a hotkey of one byte is sent at once.
  handle_input-key :
      (s : Session P) (h : ℕ) (bytes : Bytes)
      → s.cfg.hotkey_bytes ≡ h ∷ []
      → s.hk_match ≡ 0
      → s.tui ≡ false
      → occurs (h ∷ []) bytes ≡ false
      → (turns : ℕ) → 2 * length bytes + 1 < turns
      → (s' : Session P) × (handle_input panel accepts turns s bytes ≡ some (s', []))
        × IsSent s s' bytes
  handle_input-key s h bytes key fresh closed absent zero l = absurd (omega arith)
  handle_input-key s h [] key fresh closed absent (suc turns) l =
      (s, turn_end turns s, none-IsSent s closed (ground (arith, key)))
  handle_input-key s h (b ∷ bs) key fresh closed absent (suc turns) l = (
    (forward panel accepts s (b ∷ bs)).1,
    turn_plain turns s b bs closed (simp key refl) fresh
        (simp key (cut_at_absent h (b ∷ bs) absent)),
    forward-IsSent s (b ∷ bs) closed fresh (ground (arith, key)),
  )

  forward_some-IsSent :
      (s : Session P) (bytes : Bytes)
      → s.tui ≡ false
      → s.hk_match ≡ 0
      → s.hk_match < length s.cfg.hotkey_bytes
      → IsSent s (forward_some panel accepts s bytes).1 bytes
        × ((forward_some panel accepts s bytes).1.hk_match ≡ 0)
  unfolding forward_some forward
  forward_some-IsSent s [] closed fresh short = (none-IsSent s closed short, fresh)
  forward_some-IsSent s (b ∷ bs) closed fresh short =
      (forward-IsSent s (b ∷ bs) closed fresh short, fresh)

  -- The first of two bytes is held.
  held-IsSent :
      (s : Session P) (e k : ℕ)
      → s.cfg.hotkey_bytes ≡ e ∷ k ∷ []
      → s.hk_match ≡ 0
      → s.tui ≡ false
      → IsSent s (record s { hk_match = 1 }) (e ∷ [])
  held-IsSent s e k key fresh closed = record {
    delivered = ([], sym (append-nil (received s.ws.sent)), simp (key, fresh) refl);
    still_closed = closed;
    still_short = ground (arith, key);
    client_same = refl;
    cfg_same = refl;
  }

  matched_first :
      (s : Session P) (e k : ℕ)
      → s.cfg.hotkey_bytes ≡ e ∷ k ∷ []
      → matched panel accepts s 1 ≡ record s { hk_match = 1 }
  unfolding matched
  matched_first s e k key = simp key refl

  -- What was held is sent.
  break-IsSent :
      (s : Session P)
      → s.tui ≡ false
      → s.hk_match < length s.cfg.hotkey_bytes
      → IsSent s (record (forward panel accepts s (held s)).1 { hk_match = 0 }) []
  unfolding forward
  break-IsSent s closed short = record {
    delivered = (held s, received-forward s (held s), refl);
    still_closed = closed;
    still_short = omega arith;
    client_same = refl;
    cfg_same = refl;
  }

  -- Of a hotkey of two bytes, the first may be held back.
  handle_input-chord :
      (s : Session P) (e k : ℕ) (bytes : Bytes)
      → s.cfg.hotkey_bytes ≡ e ∷ k ∷ []
      → (s.hk_match ≡ 0) ⊎ (s.hk_match ≡ 1)
      → s.tui ≡ false
      → occurs (e ∷ k ∷ []) (held s ++ bytes) ≡ false
      → (turns : ℕ) → 2 * length bytes + s.hk_match < turns
      → (s' : Session P) × (handle_input panel accepts turns s bytes ≡ some (s', []))
        × IsSent s s' bytes
  handle_input-chord s e k bytes key at closed absent zero l = absurd (omega arith)
  handle_input-chord s e k [] key at closed absent (suc turns) l =
      (s, turn_end turns s, none-IsSent s closed (ground (arith, key)))
  handle_input-chord s e k (b ∷ bs) key (inl fresh) closed absent (suc turns) l =
      elim (Option-cases (cut_at e (b ∷ bs))) [
        | inl n ↦ (
          (forward panel accepts s (b ∷ bs)).1,
          turn_plain turns s b bs closed (simp key refl) fresh (simp key n),
          forward-IsSent s (b ∷ bs) closed fresh (ground (arith, key)),
        )
        | inr ((pre, post), p) ↦
            let (sent1, fresh1) = forward_some-IsSent s pre closed fresh (ground (arith, key)) in
            let u = (forward_some panel accepts s pre).1 in
            let key1 : u.cfg.hotkey_bytes ≡ e ∷ k ∷ [] =
              ap (λ c. c.hotkey_bytes) sent1.cfg_same ∙ key in
            let t = record u { hk_match = 1 } in
            let text = cut_at_split e (b ∷ bs) pre post p in
            let absent1 : occurs (e ∷ k ∷ []) (held t ++ post) ≡ false = simp key1 (
              occurs_suffix (e ∷ k ∷ []) pre (e ∷ post)
                (subst (λ xs. occurs (e ∷ k ∷ []) xs ≡ false) text (simp fresh at absent))) in
            let (s', run, sent2) =
              handle_input-chord t e k post key1 (inr refl) sent1.still_closed absent1 turns
                (omega (arith, l, length-cut_at e (b ∷ bs) pre post p)) in
            (
              s',
              turn_cut turns s b bs pre post closed (simp key refl) fresh (simp key p)
                  ∙ ap (λ v. handle_input panel accepts turns v post) (matched_first u e k key1)
                  ∙ run,
              subst (IsSent s s') (sym text) (
                  both-IsSent s u s' pre (e ∷ post) sent1 (
                    both-IsSent u t s' (e ∷ []) post
                      (held-IsSent u e k key1 fresh1 sent1.still_closed) sent2)),
            )
      ]
  handle_input-chord s e k (b ∷ bs) key (inr one) closed absent (suc turns) l =
      let t = record (forward panel accepts s (held s)).1 { hk_match = 0 } in
      let sent1 = break-IsSent s closed (ground (arith, key)) in
      let key1 : t.cfg.hotkey_bytes ≡ e ∷ k ∷ [] = ap (λ c. c.hotkey_bytes) sent1.cfg_same ∙ key in
      let absent1 : occurs (e ∷ k ∷ []) (e ∷ b ∷ bs) ≡ false = simp (key, one) at absent in
      let (s', run, sent2) =
        handle_input-chord t e k (b ∷ bs) key1 (inl refl) sent1.still_closed
          (occurs_suffix (e ∷ k ∷ []) (e ∷ []) (b ∷ bs) absent1) turns (omega (arith, l, one)) in
      (
        s',
        turn_break turns s b bs closed (simp key refl) (simp one refl)
              (simp (key, one) (occurs-second e k b bs absent1))
            ∙ run,
        both-IsSent s t s' [] (b ∷ bs) sent1 sent2,
      )

  -- For a hotkey of one byte, or of ESC and one byte, with less than all of it held: when the
  -- device takes what is sent to it and the panel is closed, input that does not complete the
  -- hotkey, with what was held of an earlier input, all reaches the device, once and in order, but
  -- for a first byte of the hotkey at its end, which is held; nothing is written to the client,
  -- the panel stays closed, the settings are the same, and twice the number of bytes and two more
  -- turns are enough.
  pub handle_input_transparent :
      (s : Session P) (bytes : Bytes)
      → IsHotkey s.cfg.hotkey_bytes
      → s.hk_match < length s.cfg.hotkey_bytes
      → s.tui ≡ false
      → occurs s.cfg.hotkey_bytes (held s ++ bytes) ≡ false
      → (s' : Session P) × (handle_input panel accepts (2 * length bytes + 2) s bytes
          ≡ some (s', []))
        × IsSent s s' bytes
  handle_input_transparent s bytes (inl (h, key)) at closed absent =
      let fresh : s.hk_match ≡ 0 = ground (arith, key) in
      handle_input-key s h bytes key fresh closed (simp (key, fresh) at absent)
        (2 * length bytes + 2) (omega arith)
  handle_input_transparent s bytes (inr (k, key)) at closed absent =
      handle_input-chord s 0x1b k bytes key (ground (arith, key)) closed
        (subst (λ hk. occurs hk (held s ++ bytes) ≡ false) key absent) (2 * length bytes + 2)
        (ground (arith, key))
