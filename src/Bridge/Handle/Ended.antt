-- ===== src/Bridge/Handle/Ended.antt =====
-- gateway-go/bridge.go: why a session of `handleClient` ends.
use imsai_8080_esp_tty_gtw.Prelude.{
  ℕ, ◌+◌, Bool, true, false, not, ◌&&◌, ◌||◌, Bytes, List, [], ◌∷◌, Option, none, some, ◌≡◌, refl,
  ◌⊎◌, inl, inr, codes, ltb, has_prefix, Bool-cases, if_both,
}
use imsai_8080_esp_tty_gtw.Word.{is_pos}
use imsai_8080_esp_tty_gtw.Config.Settings.{Config}
use imsai_8080_esp_tty_gtw.Bridge.Gateway.{is_full, gave_up}
use imsai_8080_esp_tty_gtw.Bridge.Run.{Event, Bridged, running, returned}
use imsai_8080_esp_tty_gtw.Bridge.Client.{
  Front, Client, Visit, refused, connected, Looped, goes_on, in_bridge, left, still_bridged,
  with_run, after_bridge, after_greeting, greet_first, bridge_client, client_retry, on_connection,
  client_round, client_loop,
}
use imsai_8080_esp_tty_gtw.Bridge.Handle.{
  some, Option, Around, Handled, turned_away, serving, bridging, served, new_client, end_session,
  handle_client,
}

module _ {P : Type 0} (front : Front P) (cfg : Config) (writable : Bytes → Bool)
    (peer delay_text : Bytes) where
  -- The client's side has ended, the gateway is not to reconnect, or it gave up after as many
  -- attempts as a positive limit allows.
  abbrev pub IsCause : Bytes → Type 0
  IsCause reason =
      (has_prefix reason (codes "client") ≡ true)
      ⊎ (cfg.reconnect ≡ false)
      ⊎ ((is_pos cfg.reconnect_max ≡ true)
          × (lost : Bytes) × (reason ≡ gave_up lost cfg.reconnect_max))

  abbrev IsFair : Looped P → Type 0
  IsFair (goes_on c) = Unit
  IsFair (in_bridge c closed) = Unit
  IsFair (left c reason) = IsCause reason

  by_client : (p on : Bool) → (p || not on) ≡ true → (p ≡ true) ⊎ (on ≡ false)
  by_client true on h = inl refl
  by_client false false h = inr refl
  by_client false true h = cc

  both_true : (a b : Bool) → (a && b) ≡ true → a ≡ true
  both_true true b h = refl
  both_true false b h = cc

  client_retry-IsFair :
      (c : Client P) (reason : Bytes)
      → IsFair (client_retry front cfg writable peer delay_text c reason)
  unfolding client_retry has_prefix
  client_retry-IsFair c reason =
      let over = has_prefix reason (codes "client") || not cfg.reconnect in
      let past = is_pos cfg.reconnect_max && ltb cfg.reconnect_max (c.attempt + 1) in
      elim (Bool-cases over) [
        | inl e ↦ rw e (elim (by_client (has_prefix reason (codes "client")) cfg.reconnect e) [
          | inl gone ↦ inl gone
          | inr off ↦ inr (inl off)
        ])
        | inr e ↦ elim (Bool-cases past) [
          | inl p ↦ rw (e, p) (inr (inr (both_true _ _ p, reason, refl)))
          | inr p ↦ rw (e, p) (if_both IsFair (writable _) tt (inl refl))
        ]
      ]

  after_bridge-IsFair :
      (c : Client P) (b : Bridged P) → IsFair (after_bridge front cfg writable peer delay_text c b)
  after_bridge-IsFair c (running r) = still r.reason
    where
      still : (o : Option Bytes) → IsFair (still_bridged (with_run c r) o)
      still none = tt
      still (some reason) = tt
  after_bridge-IsFair c (returned r reason) = client_retry-IsFair _ reason

  bridge_client-IsFair :
      (c : Client P) (accepts : ℕ → Bool) (before after : List Event)
      → IsFair (bridge_client front cfg writable peer delay_text c accepts before after)
  unfolding bridge_client
  bridge_client-IsFair c accepts before after = after_bridge-IsFair c _

  after_greeting-IsFair :
      (r : Client P × Bool) (accepts : ℕ → Bool) (before after : List Event)
      → IsFair (after_greeting front cfg writable peer delay_text r accepts before after)
  unfolding has_prefix
  after_greeting-IsFair (c, true) accepts before after = bridge_client-IsFair c accepts before after
  after_greeting-IsFair (c, false) accepts before after = inl refl

  client_round-IsFair :
      (c : Client P) (v : Visit) → IsFair (client_round front cfg writable peer delay_text c v)
  unfolding client_round on_connection
  client_round-IsFair c (refused e) = client_retry-IsFair _ (codes "device unreachable")
  client_round-IsFair c (connected dialer accepts before after) =
      if_both IsFair c.announced (bridge_client-IsFair _ accepts before after) (
        after_greeting-IsFair (greet_first front cfg writable peer delay_text _ dialer) accepts
          before after)

  client_loop-IsFair :
      (l : Looped P) (vs : List Visit)
      → IsFair l
      → IsFair (client_loop front cfg writable peer delay_text l vs)
  unfolding client_loop
  client_loop-IsFair l [] k = k
  client_loop-IsFair (in_bridge c closed) (v ∷ vs) k = k
  client_loop-IsFair (left c reason) (v ∷ vs) k = k
  client_loop-IsFair (goes_on c) (v ∷ vs) k =
      client_loop-IsFair (client_round front cfg writable peer delay_text c v) vs
        (client_round-IsFair c v)

  -- Turned away by a full gateway, not ended yet, or ended for one of the causes.
  abbrev pub IsFairEnd : ℕ → Handled P → Type 0
  IsFairEnd sessions (turned_away calls bytes) = is_full cfg sessions ≡ true
  IsFairEnd sessions (serving c) = is_full cfg sessions ≡ false
  IsFairEnd sessions (bridging c closed) = is_full cfg sessions ≡ false
  IsFairEnd sessions (served c reason) = (is_full cfg sessions ≡ false) × IsCause reason

  end_session-IsFair :
      (sessions : ℕ) (around : Around) (l : Looped P)
      → is_full cfg sessions ≡ false
      → IsFair l
      → IsFairEnd sessions (end_session front cfg writable peer delay_text around l)
  end_session-IsFair sessions around (goes_on c) room k = room
  end_session-IsFair sessions around (in_bridge c closed) room k = room
  end_session-IsFair sessions around (left c reason) room k = (room, k)

  -- However often the device refuses a dial or ends a connection: a client is turned away only by a
  -- full gateway, which lets none in, and the session of one that was let in ends only with a reason
  -- that begins with "client", in a gateway that does not reconnect, or when it gave up at a positive
  -- limit of attempts, and the reason says so.
  pub handle_client-IsFair :
      (sessions : ℕ) (p : P) (around : Around) (visits : List Visit)
      → IsFairEnd sessions
          (handle_client front cfg writable peer delay_text sessions p around visits)
  unfolding handle_client
  handle_client-IsFair sessions p around visits =
      let c = new_client cfg peer (sessions + 1) p around.opened in
      elim (Bool-cases (is_full cfg sessions)) [
        | inl full ↦ rw (full, handle_client) full
        | inr room ↦
            rw (room, handle_client)
              (end_session-IsFair sessions around _ room (client_loop-IsFair (goes_on c) visits tt))
      ]
