-- ===== src/Bridge/Invariant.antt =====
-- gateway-go/bridge.go: what `handleInput` keeps, whatever it is given.
use imsai_8080_esp_tty_gtw.Prelude.{
  ℕ, zero, suc, ◌+◌, Bool, true, false, Bytes, [], ◌∷◌, Option, none, some, ◌≡◌, refl, ◌∙◌, inl,
  inr, get_or, take, length, ◌==◌, Bool-cases, Option-cases,
}
use imsai_8080_esp_tty_gtw.Bridge.Ws.{Ws}
use imsai_8080_esp_tty_gtw.Bridge.Session.{Panel, Session}
use imsai_8080_esp_tty_gtw.Bridge.Console.{enter_tui}
use imsai_8080_esp_tty_gtw.Bridge.Input.{
  cut_at, forward, forward_some, feed_panel, matched, handle_input, ws_closed,
}

-- A property of the sessions that the writes to the device and the progress of the hotkey keep, and
-- the opening and the turns of the panel.
module _ {P : Type 0} (panel : Panel P) (accepts : ℕ → Bool) (R : Session P → Type 0)
    (moved : (s : Session P) (ws : Ws) (n : ℕ) → R s → R (record s { ws = ws; hk_match = n }))
    (opened : (s : Session P) → s.tui ≡ false → R s → R (enter_tui panel s))
    (fed : (s : Session P) (bytes : Bytes)
      → s.tui ≡ true
      → R s
      → R (feed_panel panel accepts s bytes)) where
  abbrev pub Ends : Option (Session P × Bytes) → Type 0
  Ends none = Unit
  Ends (some (s, cause)) = R s

  forward_kept : (s : Session P) (bytes : Bytes) → R s → R (forward panel accepts s bytes).1
  unfolding forward
  forward_kept s bytes r = moved s _ s.hk_match r

  forward_some_kept :
      (s : Session P) (bytes : Bytes)
      → R s
      → (let s' = (forward_some panel accepts s bytes).1 in (s'.tui ≡ s.tui) × R s')
  unfolding forward_some forward
  forward_some_kept s [] r = (refl, r)
  forward_some_kept s (b ∷ bs) r = (refl, moved s _ s.hk_match r)

  matched_kept : (s : Session P) (n : ℕ) → s.tui ≡ false → R s → R (matched panel accepts s n)
  unfolding matched
  matched_kept s n shut r = elim (Bool-cases (n == length s.cfg.hotkey_bytes)) [
    | inl last ↦ rw (last, matched) (opened (record s { hk_match = 0 }) shut (moved s s.ws 0 r))
    | inr more ↦ rw (more, matched) (moved s s.ws n r)
  ]

  sent_or_ended :
      (good : Bool) (s : Session P) (x : Option (Session P × Bytes))
      → R s
      → Ends x
      → Ends (elim good [ true ↦ x | false ↦ some (s, ws_closed) ])
  sent_or_ended true s x r e = e
  sent_or_ended false s x r e = r

  pub handle_input_keeps :
      (turns : ℕ) (s : Session P) (bytes : Bytes)
      → R s
      → Ends (handle_input panel accepts turns s bytes)
  unfolding handle_input
  handle_input_keeps zero s bytes r = tt
  handle_input_keeps (suc turns) s [] r = r
  handle_input_keeps (suc turns) s (b ∷ bs) r = elim (Bool-cases s.tui) [
    | inl shown ↦
        rw (shown, handle_input)
          (handle_input_keeps turns (feed_panel panel accepts s (b ∷ bs)) []
            (fed s (b ∷ bs) shown r))
    | inr shut ↦ elim (Bool-cases (length s.cfg.hotkey_bytes == 0)) [
      | inl off ↦ rw (shut, off, handle_input) (forward_kept s (b ∷ bs) r)
      | inr on ↦ elim (Bool-cases (s.hk_match == 0)) [
        | inl fresh ↦ elim (Option-cases (cut_at (get_or s.cfg.hotkey_bytes 0 0) (b ∷ bs))) [
          | inl missing ↦ rw (shut, on, fresh, missing, handle_input) (forward_kept s (b ∷ bs) r)
          | inr ((pre, post), found) ↦
              rw (shut, on, fresh, found, handle_input)
                (let (good, s') = forward_some panel accepts s pre in
                  let (same, kept) = forward_some_kept s pre r in
                  sent_or_ended good s' _ kept (
                    handle_input_keeps turns (matched panel accepts s' 1) post
                      (matched_kept s' 1 (same ∙ shut) kept)))
        ]
        | inr part ↦ elim (Bool-cases (b == get_or s.cfg.hotkey_bytes s.hk_match 0)) [
          | inl next ↦
              rw (shut, on, part, next, handle_input)
                (handle_input_keeps turns (matched panel accepts s (s.hk_match + 1)) bs
                  (matched_kept s (s.hk_match + 1) shut r))
          | inr other ↦
              rw (shut, on, part, other, handle_input)
                (let (good, s') = forward panel accepts s (take s.hk_match s.cfg.hotkey_bytes) in
                  let kept = forward_kept s (take s.hk_match s.cfg.hotkey_bytes) r in
                  sent_or_ended good s' _ kept (
                    handle_input_keeps turns (record s' { hk_match = 0 }) (b ∷ bs)
                      (moved s' s'.ws 0 kept)))
        ]
      ]
    ]
  ]
