-- ===== src/Tui/Cpa.antt =====
-- gateway-go/cpa.go, gateway-go/tui.go, gateway-go/bridge.go: the front panel: its connection,
-- `readCPALoop`, and the handlers of its pane.
use mathlib.Core.Option
use imsai_8080_esp_tty_gtw.Prelude.{
  Bool, true, false, ◌||◌, Bytes, List, [], ◌∷◌, ◌++◌, Option, none, some, Result, ok, err, codes,
  ◌==◌, if◌then◌else◌, text_eq, get_elem?,
}
use imsai_8080_esp_tty_gtw.Decimal.{show_int}
use imsai_8080_esp_tty_gtw.Config.Settings.{Config}
use imsai_8080_esp_tty_gtw.Tui.Model.{tm_panel, Control, Outside, PanelSwitch, panel_switches}

abbrev pub say : Control → Bytes → Control
say c message = record c { m = record c.m { status = message } }

-- A message that is a status is kept, any other dropped.
unfoldable pub hear : Bytes → Bytes → Bytes
hear old [] = old
hear old (b ∷ msg) = if b == b'U' || b == b'D' || b == b'E' then b ∷ msg else old

unfoldable pub hear_all : Bytes → List Bytes → Bytes
unfolding hear
hear_all old [] = old
hear_all old (msg ∷ msgs) = hear_all (hear old msg) msgs

abbrev pub cpa_url : Config → Bytes
cpa_url cfg = codes "ws://" ++ (cfg.host ++ (codes ":" ++ (show_int cfg.ws_port ++ codes "/cpa")))

-- A dialer gives the error of a dial, or none. Nothing was sent on a new connection.
abbrev pub dialled : Option Bytes → Result (List Bytes)
dialled none = ok []
dialled (some e) = err e

abbrev pub dial_cpa : (Bytes → Option Bytes) → Config → Result (List Bytes)
dial_cpa dialer cfg = dialled (dialer (cpa_url cfg))

-- A message on the connection, with the error of the write, and what comes while it settles.
abbrev pub cpa_write : Outside → Control → List Bytes → Bytes → Option Bytes × Control
cpa_write o c sent msg = (o.cpa_send (msg ∷ sent), record c { cpa = some (msg ∷ sent) })

abbrev pub settle_on : Outside → Control → Option (List Bytes) → Control
settle_on o c none = c
settle_on o c (some sent) = record c { cpa_status = hear_all c.cpa_status (o.cpa_heard sent) }

unfoldable pub settle : Outside → Control → Control
settle o c = settle_on o c c.cpa

abbrev pub enter_panel_on : Outside → Control → Option (List Bytes) → Control
enter_panel_on o c none = say c (codes "front panel unavailable (/cpa not connected)")
enter_panel_on o c (some sent) = settle o (cpa_write o c sent (codes "P")).1

unfoldable pub enter_panel : Outside → Control → Control
enter_panel o c =
    enter_panel_on o (record c { m = record c.m { mode = tm_panel; sel_sw = 0; status = [] } })
      c.cpa

abbrev pub polled : Outside → Option Bytes × Control → Control
polled o (some e, c) = say c (codes "cpa: " ++ e)
polled o (none, c) = settle o c

abbrev pub refresh_panel_on : Outside → Control → Option (List Bytes) → Control
refresh_panel_on o c none = say c (codes "front panel unavailable")
refresh_panel_on o c (some sent) = polled o (cpa_write o c sent (codes "P"))

unfoldable pub refresh_panel : Outside → Control → Control
refresh_panel o c = refresh_panel_on o c c.cpa

abbrev pub code_of : Bool → PanelSwitch → Bytes
code_of true sw = sw.up_code
code_of false sw = sw.down_code

abbrev pub label_of : Bool → PanelSwitch → Bytes
label_of true sw = sw.up_label
label_of false sw = sw.down_label

-- Behind the code, with the error of its write: a request for the status, whose error is ignored.
abbrev pub actuated : Outside → Bytes → Bytes → List Bytes → Option Bytes × Control → Control
actuated o code label sent (some e, c) = say c (codes "cpa: " ++ e)
actuated o code label sent (none, c) =
    say (settle o (cpa_write o c (code ∷ sent) (codes "P")).1)
      (codes "actuated " ++ (label ++ (codes " (" ++ (code ++ codes ")"))))

unfoldable pub actuate : Outside → Control → Bytes → Bytes → Option (List Bytes) → Control
actuate o c code label none = say c (codes "cpa not connected")
actuate o c code label (some sent) = actuated o code label sent (cpa_write o c sent code)

unfoldable pub actuate_switch : Outside → Control → Bool → PanelSwitch → Control
unfolding actuate
actuate_switch o c up sw =
    if text_eq (code_of up sw) []
    then say c
        (label_of up sw ++ codes ": not available via the API (set in the device config while OFF)")
    else actuate o c (code_of up sw) (label_of up sw) c.cpa

-- `none` is the panic of an index out of range.
unfoldable pub do_actuate : Outside → Control → Bool → Option Control
unfolding actuate_switch
do_actuate o c up = Option.map (actuate_switch o c up) (get_elem? panel_switches c.m.sel_sw)
