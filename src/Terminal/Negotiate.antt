-- ===== src/Terminal/Negotiate.antt =====
-- gateway-go/terminal.go: `announce`, `Initial` and `negotiate`. A method returns the object and
-- the bytes that it sends to the client; nil is the empty list.
use imsai_8080_esp_tty_gtw.Prelude.{
  ℕ, true, false, ◌||◌, Bytes, [], ◌∷◌, ◌==◌, if◌then◌else◌, text_eq,
}
use imsai_8080_esp_tty_gtw.Terminal.Input.{
  TerminalInput, t_iac, t_dont, t_do, t_wont, t_will, opt_echo, opt_sga, opt_naws, set_opt,
  telnet_text, auto_text,
}

unfoldable pub announce : TerminalInput → TerminalInput × Bytes
announce t = if t.announced then (t, []) else (
  record t { announced = true; will_map = set_opt (set_opt t.will_map opt_echo true) opt_sga true },
  t_iac ∷ t_will ∷ opt_echo ∷ t_iac ∷ t_will ∷ opt_sga ∷ [],
)

unfoldable pub initial : TerminalInput → TerminalInput × Bytes
unfolding announce
initial t = if text_eq t.mode telnet_text || text_eq t.mode auto_text then announce t else (t, [])

abbrev pub reply : ℕ → ℕ → Bytes
reply verb opt = t_iac ∷ verb ∷ opt ∷ []

negotiate_do : TerminalInput → ℕ → TerminalInput × Bytes
negotiate_do t opt =
    if opt == opt_echo || opt == opt_sga
    then if t.will_map opt
      then (t, [])
      else (record t { will_map = set_opt t.will_map opt true }, reply t_will opt)
    else (t, reply t_wont opt)

negotiate_dont : TerminalInput → ℕ → TerminalInput × Bytes
negotiate_dont t opt =
    if t.will_map opt
    then (record t { will_map = set_opt t.will_map opt false }, reply t_wont opt)
    else (t, [])

negotiate_will : TerminalInput → ℕ → TerminalInput × Bytes
negotiate_will t opt =
    if opt == opt_sga || opt == opt_naws
    then if t.do_map opt
      then (t, [])
      else (record t { do_map = set_opt t.do_map opt true }, reply t_do opt)
    else (t, reply t_dont opt)

negotiate_wont : TerminalInput → ℕ → TerminalInput × Bytes
negotiate_wont t opt =
    if t.do_map opt
    then (record t { do_map = set_opt t.do_map opt false }, reply t_dont opt)
    else (t, [])

unfoldable pub negotiate : TerminalInput → ℕ → ℕ → TerminalInput × Bytes
unfolding negotiate_do negotiate_dont negotiate_will negotiate_wont
negotiate t cmd opt =
    if cmd == t_do
    then negotiate_do t opt
    else if cmd == t_dont
    then negotiate_dont t opt
    else if cmd == t_will
    then negotiate_will t opt
    else if cmd == t_wont
    then negotiate_wont t opt
    else (t, [])
