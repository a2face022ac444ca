-- ===== src/Bridge/Handle/Tidy.antt =====
-- gateway-go/bridge.go: the order of a session's calls: the device allows one client for each channel,
-- and must not see /cpa dialled again.
use imsai_8080_esp_tty_gtw.Prelude.{
  ℕ, ◌+◌, Bool, true, false, not, ◌&&◌, ◌||◌, Bytes, List, [], ◌∷◌, ◌++◌, Option, none, some,
  Result, ok, err, ◌≡◌, refl, ap, ◌∙◌, inl, inr, codes, ltb, has_prefix, Bool-cases, if_both,
  if◌then◌else◌, text_eq,
}
use imsai_8080_esp_tty_gtw.Word.{is_pos}
use imsai_8080_esp_tty_gtw.Config.Settings.{Config}
use imsai_8080_esp_tty_gtw.Bridge.Gateway.{is_full}
use imsai_8080_esp_tty_gtw.Bridge.Run.{Event, BridgeRun, Bridged, running, returned}
use imsai_8080_esp_tty_gtw.Bridge.Client.{
  Front, Client, Call, dial_tty, close_tty, greet_client, keep_alive, hang_up, sleep, log_line,
  Visit, refused, connected, Looped, goes_on, in_bridge, left, with_run, still_bridged,
  after_bridge, calling, reconnecting, connect_failed, tty_url, client_retry, bridge_client,
  greet_first, after_greeting, on_connection, client_round, client_loop,
}
use imsai_8080_esp_tty_gtw.Bridge.Handle.{
  Around, Handled, turned_away, serving, bridging, served, session_down, capture_of, open_capture,
  new_client, end_session, handle_client,
}

-- What the device sees of a session: whether its /tty is open, and whether the client was greeted,
-- which is when /cpa is dialled.
pub record Seen : Type 0 where
  pub tty_open : Bool
  pub was_greeted : Bool

-- `none`: a call out of order. A dial of /tty succeeds while it is closed only, it is closed while it
-- is open, and the client is greeted on an open /tty, once.
abbrev pub one_call : Seen → Call → Option Seen
one_call s (dial_tty url false) = some s
one_call s (dial_tty url true) = if s.tty_open then none else some (record s { tty_open = true })
one_call s close_tty = if s.tty_open then some (record s { tty_open = false }) else none
one_call s greet_client =
    if s.tty_open && not s.was_greeted then some (record s { was_greeted = true }) else none
one_call s keep_alive = some s
one_call s hang_up = some s
one_call s (sleep d) = some s
one_call s (log_line level message) = some s

abbrev pub all_calls : Option Seen → List Call → Option Seen
all_calls o [] = o
all_calls none (c ∷ cs) = none
all_calls (some s) (c ∷ cs) = all_calls (one_call s c) cs

abbrev pub nothing_seen : Option Seen
nothing_seen = some (record { tty_open = false; was_greeted = false })

then_call : Option Seen → Call → Option Seen
then_call none c = none
then_call (some s) c = one_call s c

all_calls_snoc :
    (o : Option Seen) (cs : List Call) (c : Call)
    → all_calls o (cs ++ c ∷ []) ≡ all_calls (all_calls o cs) (c ∷ [])
all_calls_snoc o [] c = refl
all_calls_snoc none (d ∷ cs) c = refl
all_calls_snoc (some s) (d ∷ cs) c = all_calls_snoc (one_call s d) cs c

-- One call behind others.
all_calls_then :
    (cs : List Call) (c : Call) (o : Option Seen)
    → all_calls nothing_seen cs ≡ o
    → all_calls nothing_seen (cs ++ c ∷ []) ≡ all_calls o (c ∷ [])
all_calls_then cs c o e = all_calls_snoc nothing_seen cs c ∙ ap (λ x. all_calls x (c ∷ [])) e

-- Two calls behind others.
all_calls_then_two :
    (cs : List Call) (c d : Call) (o : Option Seen)
    → all_calls nothing_seen cs ≡ o
    → all_calls nothing_seen (cs ++ c ∷ [] ++ d ∷ []) ≡ all_calls (all_calls o (c ∷ [])) (d ∷ [])
all_calls_then_two cs c d o e =
    all_calls_then (cs ++ c ∷ []) d (all_calls o (c ∷ [])) (all_calls_then cs c o e)

module _ {P : Type 0} (front : Front P) (cfg : Config) (writable : Bytes → Bool)
    (peer delay_text : Bytes) where
  abbrev Sees : Client P → Bool → Bool → Type 0
  Sees c is_open was_greeted =
      all_calls nothing_seen c.calls
      ≡ some (record { tty_open = is_open; was_greeted = was_greeted })

  -- Between two turns of the loop /tty is closed, and in a bridge from the end of a pump on.
  abbrev IsTidy : Looped P → Type 0
  IsTidy (goes_on c) = Sees c false c.announced
  IsTidy (in_bridge c closed) = Sees c (not closed) c.announced
  IsTidy (left c reason) = (was_greeted : Bool) × Sees c false was_greeted

  client_retry-IsTidy :
      (c : Client P) (reason : Bytes)
      → Sees c false c.announced
      → IsTidy (client_retry front cfg writable peer delay_text c reason)
  unfolding client_retry
  client_retry-IsTidy c reason k =
      if_both IsTidy (has_prefix reason (codes "client") || not cfg.reconnect) (c.announced, k)
        (if_both IsTidy (is_pos cfg.reconnect_max && ltb cfg.reconnect_max (c.attempt + 1))
          (c.announced, k)
          (if_both IsTidy (writable _)
            (all_calls_then_two c.calls
              (log_line (codes "INFO") (reconnecting peer (c.attempt + 1) reason))
              (sleep cfg.reconnect_delay) _ k)
            (c.announced, k)))

  closes :
      (c : Client P)
      → Sees c true c.announced
      → all_calls nothing_seen (c.calls ++ close_tty ∷ [])
        ≡ some (record { tty_open = false; was_greeted = c.announced })
  closes c k =
      all_calls_then c.calls close_tty
        (some (record { tty_open = true; was_greeted = c.announced })) k

  after_bridge-IsTidy :
      (c : Client P) (b : Bridged P)
      → Sees c true c.announced
      → IsTidy (after_bridge front cfg writable peer delay_text c b)
  after_bridge-IsTidy c (running r) k = still c r r.reason k
    where
      still :
          (c : Client P) (r : BridgeRun P) (o : Option Bytes)
          → Sees c true c.announced
          → IsTidy (still_bridged (with_run c r) o)
      still c r none k = k
      still c r (some reason) k = closes c k
  after_bridge-IsTidy c (returned r reason) k =
      client_retry-IsTidy (calling (with_run c r) close_tty) reason (closes c k)

  bridge_client-IsTidy :
      (c : Client P) (accepts : ℕ → Bool) (before after : List Event)
      → Sees c true c.announced
      → IsTidy (bridge_client front cfg writable peer delay_text c accepts before after)
  unfolding bridge_client
  bridge_client-IsTidy c accepts before after k = after_bridge-IsTidy c _ k

  after_greeting-IsTidy :
      (c : Client P) (good : Bool) (accepts : ℕ → Bool) (before after : List Event)
      → Sees c true true
      → c.announced ≡ good
      → IsTidy (after_greeting front cfg writable peer delay_text (c, good) accepts before after)
  after_greeting-IsTidy c true accepts before after k announced =
      bridge_client-IsTidy c accepts before after (rw announced k)
  after_greeting-IsTidy c false accepts before after k announced =
      (true, all_calls_then c.calls close_tty _ k)

  client_round-IsTidy :
      (c : Client P) (v : Visit)
      → Sees c false c.announced
      → IsTidy (client_round front cfg writable peer delay_text c v)
  unfolding client_round on_connection greet_first
  client_round-IsTidy c (refused e) k = client_retry-IsTidy _ (codes "device unreachable") (
      all_calls_then_two c.calls (dial_tty (tty_url cfg) false)
        (log_line (codes "WARNING") (connect_failed peer e)) _ k)
  client_round-IsTidy c (connected dialer accepts before after) k =
      let dialled = all_calls_then c.calls (dial_tty (tty_url cfg) true) _ k in
      elim (Bool-cases c.announced) [
        | inl again ↦ rw again (bridge_client-IsTidy _ accepts before after (rw again at dialled))
        | inr first ↦ rw first (
            after_greeting-IsTidy _ _ accepts before after
              (all_calls_then (c.calls ++ dial_tty (tty_url cfg) true ∷ []) greet_client _
                (rw first at dialled))
              refl)
      ]

  client_loop-IsTidy :
      (l : Looped P) (vs : List Visit)
      → IsTidy l
      → IsTidy (client_loop front cfg writable peer delay_text l vs)
  unfolding client_loop
  client_loop-IsTidy l [] k = k
  client_loop-IsTidy (in_bridge c closed) (v ∷ vs) k = k
  client_loop-IsTidy (left c reason) (v ∷ vs) k = k
  client_loop-IsTidy (goes_on c) (v ∷ vs) k =
      client_loop-IsTidy (client_round front cfg writable peer delay_text c v) vs
        (client_round-IsTidy c v k)

  -- Whether /tty is open: in a bridge of which no pump has ended.
  abbrev pub tty_in_use : Handled P → Bool
  tty_in_use (turned_away calls bytes) = false
  tty_in_use (serving c) = false
  tty_in_use (bridging c closed) = not closed
  tty_in_use (served c reason) = false

  -- The calls of a client that was turned away, or whose session goes on or has ended.
  abbrev pub calls_of : Handled P → List Call
  calls_of (turned_away calls bytes) = calls
  calls_of (serving c) = c.calls
  calls_of (bridging c closed) = c.calls
  calls_of (served c reason) = c.calls

  new_client-Sees :
      (cur : ℕ) (p : P) (opened : Result (Unit {0}))
      → Sees (new_client cfg peer cur p opened) false false
  unfolding new_client open_capture
  new_client-Sees cur p opened =
      if_both (λ (x : Option Bytes × List Call). all_calls nothing_seen x.1 ≡ nothing_seen)
        (text_eq cfg.capture []) refl (lines opened)
    where
      lines : (r : Result (Unit {0})) → all_calls nothing_seen (capture_of cfg r).1 ≡ nothing_seen
      lines (err e) = refl
      lines (ok done) = refl

  abbrev pub IsInOrder : Bool → List Call → Type 0
  IsInOrder is_open calls =
      (was_greeted : Bool) × (all_calls nothing_seen calls
        ≡ some (record { tty_open = is_open; was_greeted = was_greeted }))

  -- However often the device refuses or ends the connection: from the arrival of a client to the end
  -- of its session a connection to /tty is dialled only while none is open, and each is closed when
  -- its bridge ends, so that none is open but in a bridge of which no pump has ended; and the client
  -- is greeted at most once, on an open connection.
  pub handle_client-IsInOrder :
      (sessions : ℕ) (p : P) (around : Around) (visits : List Visit)
      → (let h = handle_client front cfg writable peer delay_text sessions p around visits in
          IsInOrder (tty_in_use h) (calls_of h))
  unfolding handle_client new_client
  handle_client-IsInOrder sessions p around visits =
      let c = new_client cfg peer (sessions + 1) p around.opened in
      let l = client_loop front cfg writable peer delay_text (goes_on c) visits in
      if_both (λ h. IsInOrder (tty_in_use h) (calls_of h)) (is_full cfg sessions) (false, refl)
        (ending l
          (client_loop-IsTidy (goes_on c) visits (new_client-Sees (sessions + 1) p around.opened)))
    where
      ending :
          (l : Looped P)
          → IsTidy l
          → (let h = end_session front cfg writable peer delay_text around l in
              IsInOrder (tty_in_use h) (calls_of h))
      ending (goes_on c) k = (c.announced, k)
      ending (in_bridge c closed) k = (c.announced, k)
      ending (left c reason) (g, k) = (
        g,
        all_calls_then_two c.calls (log_line (codes "INFO") (session_down cfg peer reason around))
            hang_up (some (record { tty_open = false; was_greeted = g })) k,
      )
