-- ===== src/Bridge/Client/Limit.antt =====
-- gateway-go/bridge.go: how often `handleClient` dials a device that refuses.
use imsai_8080_esp_tty_gtw.Prelude.{
  ◌+◌, not, ◌&&◌, ◌||◌, ltb, has_prefix, if_both, ◌≤◌, ◌<◌, Bool, true, Bytes, List, [], ◌∷◌, ◌≡◌,
  refl, ap, ◌∙◌, ◌⊎◌, inl, inr, codes, length, map, replicate,
}
use imsai_8080_esp_tty_gtw.Word.{is_pos}
use imsai_8080_esp_tty_gtw.Config.Settings.{Config}
use imsai_8080_esp_tty_gtw.Bridge.Gateway.{
  unreachable, going, ended, gave_up, retry, one_round, rounds,
}
use imsai_8080_esp_tty_gtw.Bridge.Reconnect.{rounds_limit}
use imsai_8080_esp_tty_gtw.Bridge.Client.{
  Front, Client, refused, Looped, goes_on, in_bridge, left, client_retry, client_round, client_loop,
}
use imsai_8080_esp_tty_gtw.Bridge.Client.Rounds.{outcome_of, client_retry-retry}

module _ {P : Type 0} (front : Front P) (cfg : Config) (writable : Bytes → Bool)
    (peer delay_text : Bytes) (up : (b : Bytes) → writable b ≡ true) where
  refused-retry :
      (c : Client P) (e : Bytes)
      → outcome_of (client_round front cfg writable peer delay_text c (refused e))
        ≡ retry cfg c.attempt (codes "device unreachable") true
  unfolding client_round
  refused-retry c e =
      client_retry-retry front cfg writable peer delay_text _ (codes "device unreachable")
      ∙ ap (retry cfg c.attempt (codes "device unreachable")) (up _)

  -- Not in a bridge, as long as the device refuses.
  abbrev pub IsOut : Looped P → Type 0
  IsOut (goes_on c) = Unit
  IsOut (in_bridge c closed) = ⊥
  IsOut (left c reason) = Unit

  refused-IsOut :
      (c : Client P) (e : Bytes)
      → IsOut (client_round front cfg writable peer delay_text c (refused e))
  unfolding client_round client_retry
  refused-IsOut c e = if_both IsOut (has_prefix _ _ || not cfg.reconnect) tt (
      if_both IsOut (is_pos cfg.reconnect_max && ltb cfg.reconnect_max (c.attempt + 1)) tt
        (if_both IsOut (writable _) tt tt))

  client_loop-refused :
      (l : Looped P) (errors : List Bytes)
      → IsOut l
      → outcome_of (client_loop front cfg writable peer delay_text l (map refused errors))
        ≡ rounds cfg (outcome_of l) (replicate (length errors) (unreachable true))
  unfolding client_loop rounds one_round
  client_loop-refused l [] out = refl
  client_loop-refused (in_bridge c closed) (e ∷ errors) out = absurd out
  client_loop-refused (left c reason) (e ∷ errors) out = refl
  client_loop-refused (goes_on c) (e ∷ errors) out =
      client_loop-refused (client_round front cfg writable peer delay_text c (refused e)) errors
        (refused-IsOut c e)
      ∙ ap (λ o. rounds cfg o (replicate (length errors) (unreachable true))) (refused-retry c e)

  client_loop-IsOut :
      (l : Looped P) (errors : List Bytes)
      → IsOut l
      → IsOut (client_loop front cfg writable peer delay_text l (map refused errors))
  unfolding client_loop
  client_loop-IsOut l [] out = out
  client_loop-IsOut (in_bridge c closed) (e ∷ errors) out = out
  client_loop-IsOut (left c reason) (e ∷ errors) out = out
  client_loop-IsOut (goes_on c) (e ∷ errors) out =
      client_loop-IsOut (client_round front cfg writable peer delay_text c (refused e)) errors
        (refused-IsOut c e)

  -- A gateway that reconnects with a positive limit, a client that can be written to and has no
  -- failed attempt yet, and a device that refuses every dial: the loop goes on for as many refusals
  -- as the limit says, and counts them; with one more it is left, and the reason says that it gave
  -- up.
  pub client_loop_limit :
      (c : Client P) (errors : List Bytes)
      → cfg.reconnect ≡ true
      → is_pos cfg.reconnect_max ≡ true
      → c.attempt ≡ 0
      → (let l = client_loop front cfg writable peer delay_text (goes_on c) (map refused errors) in
          let o = outcome_of l in
          IsOut l
          × (((length errors ≤ cfg.reconnect_max) × (o ≡ going (length errors)))
              ⊎ ((cfg.reconnect_max < length errors)
                  × (o ≡ ended (gave_up (codes "device unreachable") cfg.reconnect_max)))))
  client_loop_limit c errors on limited fresh =
      let n = length errors in
      let same =
        client_loop-refused (goes_on c) errors tt
        ∙ ap (λ a. rounds cfg (going a) (replicate n (unreachable true))) fresh in
      (
        client_loop-IsOut (goes_on c) errors tt,
        elim (rounds_limit cfg n on limited) [
          | inl (l, e) ↦ inl (l, same ∙ e)
          | inr (l, e) ↦ inr (l, same ∙ e)
        ],
      )
