-- ===== src/Gateway/Accepted.antt =====
-- gateway-go/bridge.go, gateway-go/main.go: which clients are served, and when the process exits.
use imsai_8080_esp_tty_gtw.Prelude.{
  ℕ, Bytes, List, [], ◌∷◌, ◌++◌, Option, none, some, Result, ok, err, ◌≡◌, refl, ap, ◌∙◌,
}
use imsai_8080_esp_tty_gtw.Log.{set_log_level, logf}
use imsai_8080_esp_tty_gtw.Config.Settings.{Config}
use imsai_8080_esp_tty_gtw.Gateway.{
  Act, print_line, handle, fail, shown_line, accept_loop, serve, main,
}

-- The connections that are handled.
abbrev pub handled : List Act → List ℕ
handled [] = []
handled (print_line line ∷ acts) = handled acts
handled (handle conn ∷ acts) = conn ∷ handled acts
handled (fail message code ∷ acts) = handled acts

-- The codes of the exits.
abbrev pub exits : List Act → List ℕ
exits [] = []
exits (print_line line ∷ acts) = exits acts
exits (handle conn ∷ acts) = exits acts
exits (fail message code ∷ acts) = code ∷ exits acts

-- The connections that `Accept` gives.
abbrev pub arrived : List (Result ℕ) → List ℕ
arrived [] = []
arrived (err e ∷ accepted) = arrived accepted
arrived (ok conn ∷ accepted) = conn ∷ arrived accepted

abbrev pub IsServed : Result (Unit {0}) → List (Result ℕ) → List Act → Type 0
IsServed (err e) accepted acts = (handled acts ≡ []) × (exits acts ≡ 1 ∷ [])
IsServed (ok listener) accepted acts = (handled acts ≡ arrived accepted) × (exits acts ≡ [])

-- A line of the log handles no client and does not exit.
behind_line :
    (line : Option Bytes) (acts : List Act)
    → (handled (shown_line line ++ acts) ≡ handled acts)
      × (exits (shown_line line ++ acts) ≡ exits acts)
behind_line none acts = (refl, refl)
behind_line (some line) acts = (refl, refl)

accept_loop-handled :
    (level : ℕ) (accepted : List (Result ℕ))
    → (handled (accept_loop level accepted) ≡ arrived accepted)
      × (exits (accept_loop level accepted) ≡ [])
unfolding accept_loop
accept_loop-handled level [] = (refl, refl)
accept_loop-handled level (err e ∷ accepted) =
    let (same, none_more) = behind_line (logf level _ _) (accept_loop level accepted) in
    let (all, no_exit) = accept_loop-handled level accepted in (same ∙ all, none_more ∙ no_exit)
accept_loop-handled level (ok conn ∷ accepted) =
    let (all, no_exit) = accept_loop-handled level accepted in (ap (λ cs. conn ∷ cs) all, no_exit)

-- Whatever the settings and the level of the log: when the port can be listened on, every client that
-- arrives is handled, once and in order of arrival, whatever errors come between, and the process
-- does not exit; when it cannot, no client is handled and the process exits with code 1.
pub main-IsServed :
    (cfg : Config) (listen : Result (Unit {0})) (accepted : List (Result ℕ))
    → IsServed listen accepted (main cfg listen accepted)
unfolding main serve
main-IsServed cfg (err e) accepted = behind_line (logf (set_log_level 1 cfg.log_level) _ _) _
main-IsServed cfg (ok listener) accepted =
    let level = set_log_level 1 cfg.log_level in
    let (same, none_more) = behind_line (logf level _ _) _ in
    let (same', none_more') = behind_line (logf level _ _) (accept_loop level accepted) in
    let (all, no_exit) = accept_loop-handled level accepted in
    (same ∙ same' ∙ all, none_more ∙ none_more' ∙ no_exit)
