-- ===== src/Bridge/Reconnect.antt =====
-- gateway-go/bridge.go: how long `handleClient` tries to reconnect.
use imsai_8080_esp_tty_gtw.Prelude.{
  leb→le, lt→ltb, ap, ◌∙◌, ℕ, zero, suc, ◌+◌, ◌≤◌, ◌<◌, Bool, true, false, not, ◌&&◌, Bytes, List,
  [], ◌∷◌, ◌≡◌, refl, arith, codes, leb, has_prefix, replicate, Bool-cases, inl, inr, ◌⊎◌, All,
}
use imsai_8080_esp_tty_gtw.Word.{is_pos}
use imsai_8080_esp_tty_gtw.Config.Settings.{Config}
use imsai_8080_esp_tty_gtw.Bridge.Gateway.{
  Round, unreachable, bridged, greeting_failed, going, ended, gave_up, retry, one_round, rounds,
}

abbrev FromDevice : Bytes → Type 0
FromDevice reason = has_prefix reason (codes "client") ≡ false

retry_again :
    (cfg : Config) (a : ℕ) (reason : Bytes)
    → cfg.reconnect ≡ true
    → (is_pos cfg.reconnect_max ≡ false) ⊎ (a + 1 ≤ cfg.reconnect_max)
    → FromDevice reason
    → retry cfg a reason true ≡ going (a + 1)
unfolding retry
retry_again cfg a reason on h d = ground arith

retry_over :
    (cfg : Config) (a : ℕ) (reason : Bytes) (w : Bool)
    → cfg.reconnect ≡ true
    → is_pos cfg.reconnect_max ≡ true
    → cfg.reconnect_max < a + 1
    → FromDevice reason
    → retry cfg a reason w ≡ ended (gave_up reason cfg.reconnect_max)
unfolding retry
retry_over cfg a reason w on p h d = simp (d, on, p, lt→ltb cfg.reconnect_max (a + 1) h)

unreachable-FromDevice : FromDevice (codes "device unreachable")
unfolding has_prefix
unreachable-FromDevice = refl

-- From `a` failed attempts, `k` more that leave the limit unpassed keep the loop going.
rounds_unreachable :
    (cfg : Config) (a k : ℕ)
    → cfg.reconnect ≡ true
    → (is_pos cfg.reconnect_max ≡ false) ⊎ (a + k ≤ cfg.reconnect_max)
    → rounds cfg (going a) (replicate k (unreachable true)) ≡ going (a + k)
unfolding rounds one_round
rounds_unreachable cfg a zero on h = ground arith
rounds_unreachable cfg a (suc k) on h =
    let again =
      retry_again cfg a (codes "device unreachable") on (ground arith) unreachable-FromDevice in
    let e : a + 1 + k ≡ a + suc k = omega arith in
    ap (λ o. rounds cfg o (replicate k (unreachable true))) again
    ∙ rounds_unreachable cfg (a + 1) k on (ground arith)
    ∙ ap going e

pub rounds_ended :
    (cfg : Config) (reason : Bytes) (rs : List Round) → rounds cfg (ended reason) rs ≡ ended reason
unfolding rounds
rounds_ended cfg reason [] = refl
rounds_ended cfg reason (r ∷ rs) = refl

-- From `a` failed attempts, `k` more that pass the limit end the loop.
rounds_given_up :
    (cfg : Config) (a k : ℕ)
    → cfg.reconnect ≡ true
    → is_pos cfg.reconnect_max ≡ true
    → a ≤ cfg.reconnect_max
    → cfg.reconnect_max < a + k
    → rounds cfg (going a) (replicate k (unreachable true))
      ≡ ended (gave_up (codes "device unreachable") cfg.reconnect_max)
unfolding rounds one_round
rounds_given_up cfg a zero on p h l = absurd (omega arith)
rounds_given_up cfg a (suc k) on p h l =
    let reason = codes "device unreachable" in
    let rs = replicate k (unreachable true) in
    elim (Bool-cases (leb (a + 1) cfg.reconnect_max)) [
      | inl e ↦
          ap (λ o. rounds cfg o rs)
            (retry_again cfg a reason on (inr (leb→le (a + 1) cfg.reconnect_max e))
              unreachable-FromDevice)
          ∙ rounds_given_up cfg (a + 1) k on p (ground arith) (omega arith)
      | inr e ↦
          ap (λ o. rounds cfg o rs)
            (retry_over cfg a reason true on p (ground arith) unreachable-FromDevice)
          ∙ rounds_ended cfg (gave_up reason cfg.reconnect_max) rs
    ]

-- While a device cannot be reached and the client can be written to, a gateway that reconnects with
-- a positive limit goes on for as many attempts as the limit says, and gives up at the next one.
pub rounds_limit :
    (cfg : Config) (k : ℕ)
    → cfg.reconnect ≡ true
    → is_pos cfg.reconnect_max ≡ true
    → ((k ≤ cfg.reconnect_max) × (rounds cfg (going 0) (replicate k (unreachable true)) ≡ going k))
      ⊎ ((cfg.reconnect_max < k)
          × (rounds cfg (going 0) (replicate k (unreachable true))
              ≡ ended (gave_up (codes "device unreachable") cfg.reconnect_max)))
rounds_limit cfg k on p =
    let zero_add : 0 + k ≡ k = omega arith in
    elim (Bool-cases (leb k cfg.reconnect_max)) [
      | inl e ↦
          inl (ground arith, rounds_unreachable cfg 0 k on (inr (ground arith)) ∙ ap going zero_add)
      | inr e ↦ inr (ground arith, rounds_given_up cfg 0 k on p (omega arith) (ground arith))
    ]

-- The device is gone, or the bridge ended on its side, and the client can be written to.
abbrev pub is_device_side : Round → Bool
is_device_side (unreachable w) = w
is_device_side greeting_failed = false
is_device_side (bridged reason w) = not (has_prefix reason (codes "client")) && w

-- Without a limit, a gateway that reconnects never ends a session by itself: as long as no round
-- fails on the client's side, the loop goes on.
pub rounds_unlimited :
    (cfg : Config) (a : ℕ) (rs : List Round)
    → cfg.reconnect ≡ true
    → is_pos cfg.reconnect_max ≡ false
    → All (λ r. is_device_side r ≡ true) rs
    → (a' : ℕ) × (rounds cfg (going a) rs ≡ going a')
unfolding rounds one_round
rounds_unlimited cfg a [] on p h = (a, refl)
rounds_unlimited cfg a (unreachable false ∷ rs) on p (h, hs) = cc
rounds_unlimited cfg a (unreachable true ∷ rs) on p (h, hs) =
    let again = retry_again cfg a (codes "device unreachable") on (inl p) unreachable-FromDevice in
    let (a', e) = rounds_unlimited cfg (a + 1) rs on p hs in
    (a', ap (λ o. rounds cfg o rs) again ∙ e)
rounds_unlimited cfg a (greeting_failed ∷ rs) on p (h, hs) = cc
rounds_unlimited cfg a (bridged reason false ∷ rs) on p (h, hs) = absurd (ground arith)
rounds_unlimited cfg a (bridged reason true ∷ rs) on p (h, hs) =
    let again = retry_again cfg 0 reason on (inl p) (ground arith) in
    let (a', e) = rounds_unlimited cfg (0 + 1) rs on p hs in
    (a', ap (λ o. rounds cfg o rs) again ∙ e)
