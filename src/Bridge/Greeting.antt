-- ===== src/Bridge/Greeting.antt =====
-- gateway-go/bridge.go: what `handleClient` tells a client on its first connection to the device:
-- `openCPA`, `probeCPA`, `machineState` and the banner; and `closeCPA`.
use imsai_8080_esp_tty_gtw.Prelude.{
  ◌++◌, Bool, true, false, not, ◌&&◌, ◌||◌, Bytes, List, [], ◌∷◌, Option, none, some, Result, ok,
  err, codes, ltb, ◌==◌, if◌then◌else◌, length, text_eq,
}
use imsai_8080_esp_tty_gtw.Word.{is_pos}
use imsai_8080_esp_tty_gtw.Decimal.{show_int}
use imsai_8080_esp_tty_gtw.Config.Settings.{Config}
use imsai_8080_esp_tty_gtw.Terminal.Input.{TerminalInput}
use imsai_8080_esp_tty_gtw.Terminal.Negotiate.{initial}
use imsai_8080_esp_tty_gtw.Device.Info.{SysInfo}
use imsai_8080_esp_tty_gtw.Device.Lists.{get_system}
use imsai_8080_esp_tty_gtw.Tui.Model.{Control, Outside, is_byte_at}
use imsai_8080_esp_tty_gtw.Tui.Draw.{product_name, version}
use imsai_8080_esp_tty_gtw.Tui.Cpa.{dial_cpa, cpa_write, settle}

-- Behind the dial. The line of the log is left out.
abbrev pub open_cpa_on : Control → Result (List Bytes) → Option (List Bytes) → Control
open_cpa_on c dial (some sent) = c
open_cpa_on c (ok conn) none = record c { cpa = some conn }
open_cpa_on c (err e) none = c

unfoldable pub open_cpa : Config → (Bytes → Option Bytes) → Control → Control
open_cpa cfg dialer c = if cfg.tui then open_cpa_on c (dial_cpa dialer cfg) c.cpa else c

unfoldable pub close_cpa : Control → Control
close_cpa c = record c { cpa = none; cpa_status = [] }

pub record CpaState : Type 0 where
  pub known : Bool
  pub power : Bool
  pub run : Bool

abbrev pub unknown_state : CpaState
unknown_state = record { known = false; power = false; run = false }

-- What a status says.
unfoldable pub cpa_state : Bytes → CpaState
cpa_state st =
    if ltb (length st) 3
    then unknown_state
    else record { known = true; power = is_byte_at st 0 b'U'; run = is_byte_at st 2 b'R' }

abbrev pub probe_sent : Outside → Option Bytes × Control → CpaState × Control
probe_sent o (some e, c) = (unknown_state, c)
probe_sent o (none, c) = let c' = settle o c in (cpa_state c'.cpa_status, c')

abbrev pub probe_cpa_on : Outside → Control → Option (List Bytes) → CpaState × Control
probe_cpa_on o c none = (unknown_state, c)
probe_cpa_on o c (some sent) = probe_sent o (cpa_write o c sent (codes "P"))

unfoldable pub probe_cpa : Outside → Control → CpaState × Control
probe_cpa o c = probe_cpa_on o c c.cpa

-- `power, run, known`.
abbrev pub from_system : Result SysInfo → Bool × Bool × Bool
from_system (err e) = (false, false, false)
from_system (ok si) = (not (si.power == 0), false, true)

abbrev pub ask_unless_known : Outside → CpaState → Control → (Bool × Bool × Bool) × Control
ask_unless_known o cs c =
    let (r, log') = get_system o.net o.codec o.cfg c.log in
    if cs.known then ((cs.power, cs.run, true), c) else (from_system r, record c { log = log' })

unfoldable pub machine_state : Outside → Control → (Bool × Bool × Bool) × Control
unfolding probe_cpa
machine_state o c = let (cs, c') = probe_cpa o c in ask_unless_known o cs c'

abbrev pub on_off : Bool → Bytes
on_off true = codes "ON"
on_off false = codes "OFF"

abbrev pub crlf : Bytes
crlf = 13 ∷ 10 ∷ []

abbrev pub press_enter : Bytes
press_enter = codes "If the screen is blank, press Enter to display the CP/M prompt." ++ crlf

abbrev pub cpu_stopped : Config → Bytes
cpu_stopped cfg =
    codes "The CPU is stopped (RUN off). Set RUN from the front panel ("
    ++ (cfg.hotkey ++ (codes " -> Panel) to start it." ++ crlf))

abbrev pub powered_off : Bytes
powered_off = codes "The machine is powered off; no CP/M console until it is powered on." ++ crlf

unfoldable pub console_hint : Config → Bool × Bool × Bool → Bytes
console_hint cfg (power, run, known) =
    if not known || (power && run)
    then press_enter
    else if power && not run
    then cpu_stopped cfg
    else powered_off

abbrev pub state_line : Bool × Bool × Bool → Bytes
state_line (power, run, known) =
    if known
    then codes "POWER is " ++ (on_off power ++ (codes " and RUN is " ++ (on_off run ++ crlf)))
    else []

unfoldable pub banner : Config → Bool × Bool × Bool → Bytes
unfolding console_hint
banner cfg state =
    (crlf ++ (codes "Connected to " ++ (product_name ++ (codes " v" ++ (version ++ crlf)))))
    ++ ((if cfg.tui
          then codes "Press "
            ++ (cfg.hotkey
                ++ (codes " for special functions (disks, panel, system, library)." ++ crlf))
          else [])
        ++ (console_hint cfg state ++ state_line state))

-- A write to the client, behind all that was written: true for a nil error. A failed one is taken to
-- write nothing.
abbrev pub tell : (Bytes → Bool) → Control → Bytes → Control × Bool
tell writable c bytes =
    let out' = c.out ++ bytes in
    if writable out' then (record c { out = out' }, true) else (c, false)

-- What follows a write that succeeded; a failed one ends the greeting.
abbrev pub if_told : Control × Bool → (Control → Control × Bool) → Control × Bool
if_told (c, true) next = next c
if_told (c, false) next = (c, false)

abbrev pub tell_initial : (Bytes → Bool) → Control → Bytes → Control × Bool
tell_initial writable c init = if text_eq init [] then (c, true) else tell writable c init

abbrev pub resize_sequence : Config → Bytes
resize_sequence cfg =
    (0x1b ∷ codes "[8;")
    ++ (show_int cfg.resize_rows ++ (codes ";" ++ (show_int cfg.resize_cols ++ codes "t")))

abbrev pub tell_resize : (Bytes → Bool) → Config → Control → Control × Bool
tell_resize writable cfg c =
    if is_pos cfg.resize_cols then tell writable c (resize_sequence cfg) else (c, true)

unfoldable pub tell_banner : (Bytes → Bool) → Outside → Control → Control × Bool
unfolding machine_state banner
tell_banner writable o c =
    let (state, c') = machine_state o c in tell writable c' (banner o.cfg state)

-- The part of the loop's body that a session runs once: true if all was written.
unfoldable pub greet :
    (Bytes → Bool)
    → Outside
    → (Bytes → Option Bytes)
    → TerminalInput
    → Control
    → TerminalInput × (Control × Bool)
unfolding open_cpa tell_banner
greet writable o dialer t c =
    let (t', init) = initial t in
    (
      t',
      if_told (tell_initial writable c init) (λ c1.
          if_told (tell_resize writable o.cfg c1)
            (λ c2. tell_banner writable o (open_cpa o.cfg dialer c2))),
    )
