-- ===== src/Bridge/Front.antt =====
-- gateway-go/bridge.go, gateway-go/tui.go: the control panel of the session, as `handleClient` uses it:
-- with the greeting of Bridge/Greeting and `closeCPA`.
use imsai_8080_esp_tty_gtw.Prelude.{
  true, false, if_both, if_both, Bool, Bytes, List, [], ◌++◌, Option, none, some, Result, ok, err,
  ◌≡◌, refl, ◌∙◌, inl, inr, codes, text_eq, Bool-cases, sym, subst,
}
use imsai_8080_esp_tty_gtw.Word.{is_pos}
use imsai_8080_esp_tty_gtw.Config.Settings.{Config}
use imsai_8080_esp_tty_gtw.Terminal.Input.{TerminalInput}
use imsai_8080_esp_tty_gtw.Terminal.Negotiate.{initial}
use imsai_8080_esp_tty_gtw.Device.Lists.{get_system}
use imsai_8080_esp_tty_gtw.Device.Sent.{Adds, none-Adds, both-Adds, get_system-Adds}
use imsai_8080_esp_tty_gtw.Tui.Model.{Control, Outside}
use imsai_8080_esp_tty_gtw.Tui.Cpa.{dial_cpa, cpa_write, settle, settle_on}
use imsai_8080_esp_tty_gtw.Tui.Sound.{IsSound}
use imsai_8080_esp_tty_gtw.Tui.Requests.{IsHarmless, h_read}
use imsai_8080_esp_tty_gtw.Bridge.Greeting.{
  if_told, open_cpa, open_cpa_on, close_cpa, probe_sent, probe_cpa_on, probe_cpa, machine_state,
  tell, tell_initial, tell_resize, tell_banner, banner, greet, resize_sequence,
}
use imsai_8080_esp_tty_gtw.Bridge.Live.{Live, unwritten, kept_live, tui_panel}
use imsai_8080_esp_tty_gtw.Bridge.Client.{Front}

abbrev IsSame : Control → Control → Type 0
IsSame c c' = (c'.m ≡ c.m) × (c'.log ≡ c.log)

-- The panel's own state is left as it was, and only reads are sent to the device.
abbrev pub IsQuiet : Config → Control → Control → Type 0
IsQuiet cfg c c' = (c'.m ≡ c.m) × Adds (IsHarmless cfg) c.log c'.log

IsQuiet-refl : (cfg : Config) (c : Control) → IsQuiet cfg c c
IsQuiet-refl cfg c = (refl, none-Adds (IsHarmless cfg) c.log)

open_cpa_on-IsSame :
    (c : Control) (dial : Result (List Bytes)) (cpa : Option (List Bytes))
    → IsSame c (open_cpa_on c dial cpa)
open_cpa_on-IsSame c dial (some sent) = (refl, refl)
open_cpa_on-IsSame c (ok conn) none = (refl, refl)
open_cpa_on-IsSame c (err e) none = (refl, refl)

open_cpa-IsSame :
    (cfg : Config) (dialer : Bytes → Option Bytes) (c : Control) → IsSame c (open_cpa cfg dialer c)
unfolding open_cpa
open_cpa-IsSame cfg dialer c = elim (Bool-cases cfg.tui) [
  | inl e ↦ rw e (open_cpa_on-IsSame c (dial_cpa dialer cfg) c.cpa)
  | inr e ↦ rw e (refl, refl)
]

settle_on-IsSame :
    (o : Outside) (c : Control) (cpa : Option (List Bytes)) → IsSame c (settle_on o c cpa)
settle_on-IsSame o c none = (refl, refl)
settle_on-IsSame o c (some sent) = (refl, refl)

probe_sent-IsSame :
    (o : Outside) (c : Control) (e : Option Bytes) → IsSame c (probe_sent o (e, c)).1
unfolding settle
probe_sent-IsSame o c none = settle_on-IsSame o c c.cpa
probe_sent-IsSame o c (some e) = (refl, refl)

probe_cpa-IsSame : (o : Outside) (c : Control) → IsSame c (probe_cpa o c).1
unfolding probe_cpa
probe_cpa-IsSame o c = probed c.cpa
  where
    probed : (cpa : Option (List Bytes)) → IsSame c (probe_cpa_on o c cpa).1
    probed none = (refl, refl)
    probed (some sent) =
        probe_sent-IsSame o (cpa_write o c sent (codes "P")).1 (cpa_write o c sent (codes "P")).0

machine_state-IsQuiet : (o : Outside) (c : Control) → IsQuiet o.cfg c (machine_state o c).1
unfolding machine_state
machine_state-IsQuiet o c =
    let (cs, c') = probe_cpa o c in
    let (same_m, same_log) = probe_cpa-IsSame o c in
    elim (Bool-cases cs.known) [
      | inl e ↦ rw e (same_m, ([], same_log, tt))
      | inr e ↦ rw e (
        same_m,
        subst (λ log. Adds (IsHarmless o.cfg) log (get_system o.net o.codec o.cfg c'.log).1)
            same_log (get_system-Adds (IsHarmless o.cfg) h_read o.net o.codec o.cfg c'.log),
      )
    ]

tell-IsQuiet :
    (writable : Bytes → Bool) (cfg : Config) (c c' : Control) (bytes : Bytes)
    → IsQuiet cfg c c'
    → IsQuiet cfg c (tell writable c' bytes).0
tell-IsQuiet writable cfg c c' bytes k =
    if_both (λ (r : Control × Bool). IsQuiet cfg c r.0) (writable (c'.out ++ bytes)) k k

if_told-IsQuiet :
    (cfg : Config) (c : Control) (r : Control × Bool) (next : Control → Control × Bool)
    → IsQuiet cfg c r.0
    → ((c' : Control) → IsQuiet cfg c c' → IsQuiet cfg c (next c').0)
    → IsQuiet cfg c (if_told r next).0
if_told-IsQuiet cfg c (c', true) next k more = more c' k
if_told-IsQuiet cfg c (c', false) next k more = k

both-IsQuiet :
    (cfg : Config) (c c1 c2 : Control) → IsQuiet cfg c c1 → IsQuiet cfg c1 c2 → IsQuiet cfg c c2
both-IsQuiet cfg c c1 c2 (e1, a1) (e2, a2) =
    (e2 ∙ e1, both-Adds (IsHarmless cfg) c.log c1.log c2.log a1 a2)

tell_banner-IsQuiet :
    (writable : Bytes → Bool) (o : Outside) (c c' : Control)
    → IsQuiet o.cfg c c'
    → IsQuiet o.cfg c (tell_banner writable o c').0
unfolding tell_banner
tell_banner-IsQuiet writable o c c' k =
    tell-IsQuiet writable o.cfg c (machine_state o c').1 (banner o.cfg (machine_state o c').0)
      (both-IsQuiet o.cfg c c' (machine_state o c').1 k (machine_state-IsQuiet o c'))

-- Whether the greeting is written or fails.
pub greet-IsQuiet :
    (writable : Bytes → Bool) (o : Outside) (dialer : Bytes → Option Bytes) (t : TerminalInput)
    (c : Control)
    → IsQuiet o.cfg c (greet writable o dialer t c).1.0
unfolding greet
greet-IsQuiet writable o dialer t c =
    if_told-IsQuiet o.cfg c (tell_initial writable c (initial t).1) _
      (if_both (λ (r : Control × Bool). IsQuiet o.cfg c r.0) (text_eq (initial t).1 [])
        (IsQuiet-refl o.cfg c)
        (tell-IsQuiet writable o.cfg c c (initial t).1 (IsQuiet-refl o.cfg c)))
      (λ c1 k1.
        if_told-IsQuiet o.cfg c (tell_resize writable o.cfg c1) _
          (if_both (λ (r : Control × Bool). IsQuiet o.cfg c r.0) (is_pos o.cfg.resize_cols)
            (tell-IsQuiet writable o.cfg c c1 (resize_sequence o.cfg) k1) k1)
          (λ c2 k.
            let (same_m, same_log) = open_cpa-IsSame o.cfg dialer c2 in
            tell_banner-IsQuiet writable o c (open_cpa o.cfg dialer c2)
              (both-IsQuiet o.cfg c c2 (open_cpa o.cfg dialer c2) k (same_m, ([], same_log, tt)))))

abbrev pub quiet_live :
    {cfg : Config} (p : Live cfg) (c' : Control) → IsQuiet cfg (unwritten p.control) c' → Live cfg
quiet_live p c' (same, adds) =
    kept_live p c' (record { sound = subst IsSound (sym same) p.sound; adds = adds })

abbrev pub closed : {cfg : Config} → Live cfg → Live cfg
unfolding close_cpa
closed p = record { control = close_cpa p.control; sound = p.sound; harmless = p.harmless }

unfoldable pub live_front : (o : Outside) → Front (Live o.cfg)
live_front o = record {
  panel = tui_panel o;
  greet = λ writable dialer t p.
      let c = unwritten p.control in
      let (t', (c', good)) = greet writable o dialer t c in
      (t', quiet_live p c' (greet-IsQuiet writable o dialer t c), c'.out, good);
  close = closed;
}
