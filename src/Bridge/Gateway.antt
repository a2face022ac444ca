-- ===== src/Bridge/Gateway.antt =====
-- gateway-go/bridge.go: `handleClient`: the admission of clients, whose goroutines run at the same
-- time and take their turns at the counter under its lock, and the loop of reconnections.
use imsai_8080_esp_tty_gtw.Prelude.{
  ℕ, ◌+◌, ◌-◌, Bool, not, ◌&&◌, ◌||◌, Bytes, List, [], ◌∷◌, ◌++◌, ◌≡◌, codes, leb, ltb,
  if◌then◌else◌, has_prefix,
}
use imsai_8080_esp_tty_gtw.Word.{is_pos}
use imsai_8080_esp_tty_gtw.Decimal.{show_nat}
use imsai_8080_esp_tty_gtw.Config.Settings.{Config}

-- `live` are the clients past the admission, `rejected` those that were told to go.
pub record Gateway : Type 0 where
  pub sessions : ℕ
  pub live : List ℕ
  pub rejected : List ℕ

abbrev pub started : Gateway
started = record { sessions = 0; live = []; rejected = [] }

-- `g.sessions >= g.cfg.MaxSessions`, where the counter is not negative and the setting may be.
abbrev pub is_full : Config → ℕ → Bool
is_full cfg n = not (is_pos cfg.max_sessions) || leb cfg.max_sessions n

unfoldable pub admit : Config → Gateway → ℕ → Gateway
admit cfg g c =
    if is_full cfg g.sessions
    then record g { rejected = c ∷ g.rejected }
    else record g { sessions = g.sessions + 1; live = c ∷ g.live }

-- `g.sessions--` at the end of a session, where `others` are the sessions that stay.
unfoldable pub release : Gateway → List ℕ → Gateway
release g others = record g { sessions = g.sessions - 1; live = others }

-- What can happen: a client arrives, or the session of a live one ends.
pub data Step (cfg : Config) : Gateway → Gateway → Type 0 where
  arrive : (g : Gateway) (c : ℕ) → Step cfg g (admit cfg g c)
  leave :
      (g : Gateway) (c : ℕ) (front back : List ℕ)
      → g.live ≡ front ++ c ∷ back
      → Step cfg g (release g (front ++ back))

pub data Reached (cfg : Config) : Gateway → Type 0 where
  start : Reached cfg started
  step : {g g' : Gateway} → Reached cfg g → Step cfg g g' → Reached cfg g'

-- One turn of the loop: the dial failed, the first messages to the client failed, or the bridge ran
-- and ended with a reason; the Boolean says whether the notice to the client can be written.
pub data Round : Type 0 where
  unreachable : Bool → Round
  greeting_failed : Round
  bridged : Bytes → Bool → Round

-- The loop goes on with the number of attempts, or ends with a reason.
pub data Outcome : Type 0 where
  going : ℕ → Outcome
  ended : Bytes → Outcome

abbrev pub gave_up : Bytes → ℕ → Bytes
gave_up reason n = reason ++ (codes "; gave up after " ++ (show_nat n ++ codes " retries"))

-- The end of the loop's body.
unfoldable pub retry : Config → ℕ → Bytes → Bool → Outcome
retry cfg attempt reason writable =
    if has_prefix reason (codes "client") || not cfg.reconnect
    then ended reason
    else if is_pos cfg.reconnect_max && ltb cfg.reconnect_max (attempt + 1)
    then ended (gave_up reason cfg.reconnect_max)
    else if writable
    then going (attempt + 1)
    else ended (codes "client gone during reconnect")

unfoldable pub one_round : Config → ℕ → Round → Outcome
one_round cfg attempt (unreachable w) = retry cfg attempt (codes "device unreachable") w
one_round cfg attempt greeting_failed = ended (codes "client TCP write failed")
one_round cfg attempt (bridged reason w) = retry cfg 0 reason w

unfoldable pub rounds : Config → Outcome → List Round → Outcome
rounds cfg o [] = o
rounds cfg (ended reason) (r ∷ rs) = ended reason
rounds cfg (going attempt) (r ∷ rs) = rounds cfg (one_round cfg attempt r) rs
