-- ===== src/Bridge/Transparent.antt =====
-- gateway-go/bridge.go: keystrokes that do not spell the hotkey all reach the device.
use imsai_8080_esp_tty_gtw.Prelude.{
  inr, inl, Bool-cases, codes, text_eq, ◌∙◌, sym, ℕ, Bool, true, Bytes, List, [], ◌∷◌, ◌++◌, ◌≡◌,
  refl, append_assoc, append-nil,
}
use imsai_8080_esp_tty_gtw.Bridge.Ws.{
  delay_after, wait_for, Ws, WsEvent, frame, pause, received, write_message, send_paced, send_to_ws,
}
use imsai_8080_esp_tty_gtw.Config.Settings.{Config}

received-append : (xs ys : List WsEvent) → received (xs ++ ys) ≡ received xs ++ received ys
received-append [] ys = refl
received-append (frame t bytes ∷ xs) ys =
    rw (received-append xs ys) (sym (append_assoc bytes (received xs) (received ys)))
received-append (pause d ∷ xs) ys = received-append xs ys

module _ (accepts : ℕ → Bool) (up : (k : ℕ) → accepts k ≡ true) where
  received-write_message :
      (ws : Ws) (is_text : Bool) (bytes : Bytes)
      → ((write_message accepts ws is_text bytes).0 ≡ true)
        × (received (write_message accepts ws is_text bytes).1.sent ≡ received ws.sent ++ bytes)
  unfolding write_message
  received-write_message ws is_text bytes =
      rw (up ws.writes)
        (refl, received-append ws.sent (frame is_text bytes ∷ []) ∙ rw (append-nil bytes))

  received-send_paced :
      (cfg : Config) (is_text : Bool) (ws : Ws) (bytes : Bytes)
      → ((send_paced accepts cfg is_text ws bytes).0 ≡ true)
        × (received (send_paced accepts cfg is_text ws bytes).1.sent ≡ received ws.sent ++ bytes)
  unfolding send_paced
  received-send_paced cfg is_text ws [] = (refl, sym (append-nil (received ws.sent)))
  received-send_paced cfg is_text ws (b ∷ bs) =
      let w = received-write_message ws is_text (b ∷ []) in
      let ws1 = (write_message accepts ws is_text (b ∷ [])).1 in
      let ws2 = wait_for ws1 (delay_after cfg b) in
      let ih = received-send_paced cfg is_text ws2 bs in
      let paused : received ws2.sent ≡ received ws1.sent =
        received-append ws1.sent (pause (delay_after cfg b) ∷ [])
        ∙ append-nil (received ws1.sent) in
      rw w.0 (ih.0, ih.1 ∙ rw (paused, w.1, append_assoc))

  -- When every write succeeds, whatever the framing and the pacing, there is no error and the
  -- device receives the bytes in order, after what it had.
  pub received-send_to_ws :
      (cfg : Config) (ws : Ws) (bytes : Bytes)
      → ((send_to_ws accepts cfg ws bytes).0 ≡ true)
        × (received (send_to_ws accepts cfg ws bytes).1.sent ≡ received ws.sent ++ bytes)
  unfolding send_to_ws
  received-send_to_ws cfg ws bytes =
      let t = text_eq cfg.framing (codes "text") in
      elim (Bool-cases cfg.throttle) [
        | inl e ↦ simp e (received-send_paced cfg t ws bytes)
        | inr e ↦ simp e (received-write_message ws t bytes)
      ]
