-- ===== src/Bridge/Snapshot.antt =====
-- gateway-go/bridge.go: what `machineState` tells of the machine.
use imsai_8080_esp_tty_gtw.Prelude.{
  ◌∷◌, ℕ, Bool, true, false, not, ◌&&◌, Bytes, List, Option, none, some, Result, ok, err, ◌≡◌, refl,
  arith, codes, ltb, ◌==◌, if◌then◌else◌, length,
}
use imsai_8080_esp_tty_gtw.Device.Http.{Request}
use imsai_8080_esp_tty_gtw.Device.Info.{SysInfo}
use imsai_8080_esp_tty_gtw.Device.Lists.{get_system}
use imsai_8080_esp_tty_gtw.Tui.Model.{Control, Outside, led_on, is_byte_at}
use imsai_8080_esp_tty_gtw.Tui.Cpa.{settle, hear_all}
use imsai_8080_esp_tty_gtw.Bridge.Greeting.{
  unknown_state, cpa_state, probe_sent, probe_cpa_on, probe_cpa, from_system, ask_unless_known,
  machine_state,
}

-- The lamps of a status.
abbrev pub IsShown : Bytes → Bool → Bool → Type 0
IsShown st power run = (power ≡ led_on st 0 b'U') × (run ≡ led_on st 2 b'R')

-- A status of three bytes or more.
abbrev pub whole_status : Bytes → Option Bytes
whole_status st = if ltb (length st) 3 then none else some st

-- Behind a request for the status, whose write can have failed.
abbrev pub heard_after : Option Bytes → Bytes → Option Bytes
heard_after (some e) st = none
heard_after none st = whole_status st

-- The status of three bytes or more that stands when the front panel was asked for it, if it is
-- connected and can be asked: the last one of what is heard then, or the older one.
abbrev pub heard_on : Outside → Bytes → Option (List Bytes) → Option Bytes
heard_on o old none = none
heard_on o old (some sent) =
    let asked = codes "P" ∷ sent in
    heard_after (o.cpa_send asked) (hear_all old (o.cpa_heard asked))

-- What an answer of /system tells of the power.
abbrev pub IsPowered : Result SysInfo → Bool → Bool → Type 0
IsPowered (ok si) power known = (known ≡ true) × (power ≡ not (si.power == 0))
IsPowered (err e) power known = (known ≡ false) × (power ≡ false)

from_system-IsPowered :
    (r : Result SysInfo)
    → (let (power, run, known) = from_system r in (run ≡ false) × IsPowered r power known)
from_system-IsPowered (ok si) = (refl, (refl, refl))
from_system-IsPowered (err e) = (refl, (refl, refl))

-- The state that is told, and the requests after it: the lamps of the status, and no request; with no
-- status, what /system tells.
abbrev pub IsTold : Outside → List Request → Option Bytes → (Bool × Bool × Bool) × Control → Type 0
IsTold o log (some st) ((power, run, known), c') =
    (known ≡ true) × IsShown st power run × (c'.log ≡ log)
IsTold o log none ((power, run, known), c') =
    let (r, log') = get_system o.net o.codec o.cfg log in
    (run ≡ false) × IsPowered r power known × (c'.log ≡ log')

module _ (o : Outside) where
  unknown-IsTold : (c : Control) → IsTold o c.log none (ask_unless_known o unknown_state c)
  unknown-IsTold c =
      let (off, powered) = from_system-IsPowered (get_system o.net o.codec o.cfg c.log).0 in
      (off, powered, refl)

  status-IsTold :
      (c : Control) (st : Bytes) (short : Bool)
      → ltb (length st) 3 ≡ short
      → IsTold o c.log (if short then none else some st) (
          ask_unless_known o
            (if short then unknown_state else record {
              known = true;
              power = is_byte_at st 0 b'U';
              run = is_byte_at st 2 b'R';
            })
            c)
  unfolding led_on
  status-IsTold c st true e = unknown-IsTold c
  status-IsTold c st false e = (
    refl,
    (there 0 (is_byte_at st 0 b'U') (ground arith), there 2 (is_byte_at st 2 b'R') (ground arith)),
    refl,
  )
    where
      there : (i : ℕ) (b : Bool) → ltb i (length st) ≡ true → b ≡ (ltb i (length st) && b)
      there i b h = rw h refl

  asked-IsTold :
      (c : Control) (asked : List Bytes) (e : Option Bytes)
      → (let (cs, c') = probe_sent o (e, record c { cpa = some asked }) in
          IsTold o c.log
            (heard_after e (hear_all c.cpa_status (o.cpa_heard asked)))
            (ask_unless_known o cs c'))
  unfolding settle cpa_state
  asked-IsTold c asked (some e) = unknown-IsTold (record c { cpa = some asked })
  asked-IsTold c asked none =
      let st = hear_all c.cpa_status (o.cpa_heard asked) in
      status-IsTold (record c { cpa = some asked; cpa_status = st }) st (ltb (length st) 3) refl

  probed-IsTold :
      (c : Control) (cpa : Option (List Bytes))
      → (let (cs, c') = probe_cpa_on o c cpa in
          IsTold o c.log (heard_on o c.cpa_status cpa) (ask_unless_known o cs c'))
  probed-IsTold c none = unknown-IsTold c
  probed-IsTold c (some sent) = asked-IsTold c (codes "P" ∷ sent) (o.cpa_send (codes "P" ∷ sent))

-- What the gateway says of the machine: where /cpa is connected, can be asked, and a status of three
-- bytes or more stands then, the lamps of that status, and no request is sent; in every other case
-- /system is asked: its power, and that the machine does not run, whether it runs or not, or that
-- the state is unknown where it gives none.
pub machine_state-led_on :
    (o : Outside) (c : Control) → IsTold o c.log (heard_on o c.cpa_status c.cpa) (machine_state o c)
unfolding machine_state probe_cpa
machine_state-led_on o c = probed-IsTold o c c.cpa
