-- ===== src/Gateway.antt =====
-- gateway-go/bridge.go, gateway-go/main.go: `serve` and `main`: what the process does, as the list of
-- its acts. The listener is a parameter: whether it can be opened, and what each `Accept` gives.
pub mod Accepted
use imsai_8080_esp_tty_gtw.Prelude.{
  ℕ, Bool, true, false, Bytes, List, [], ◌∷◌, ◌++◌, Option, none, some, Result, ok, err, codes,
  if◌then◌else◌,
}
use imsai_8080_esp_tty_gtw.Decimal.{show_int}
use imsai_8080_esp_tty_gtw.Log.{set_log_level, logf}
use imsai_8080_esp_tty_gtw.Config.Settings.{Config}
use imsai_8080_esp_tty_gtw.Tui.Draw.{version}
use imsai_8080_esp_tty_gtw.Bridge.Client.{tty_url}

-- A line of the log, a goroutine for the client with a connection, or a line on the error output and
-- the exit with a code.
pub data Act : Type 0 where
  print_line : Bytes → Act
  handle : ℕ → Act
  fail : Bytes → ℕ → Act

-- A line, where its level is printed.
abbrev pub shown_line : Option Bytes → List Act
shown_line none = []
shown_line (some line) = print_line line ∷ []

abbrev pub log_act : ℕ → Bytes → Bytes → List Act
log_act level name message = shown_line (logf level name message)

abbrev pub address : Bytes → ℕ → Bytes
address host port = host ++ (codes ":" ++ show_int port)

-- `%v` of a Boolean.
abbrev pub show_bool : Bool → Bytes
show_bool true = codes "true"
show_bool false = codes "false"

abbrev pub tui_info : Config → Bytes
tui_info cfg = if cfg.tui then codes "on hotkey=" ++ cfg.hotkey else codes "off"

abbrev pub listening : Config → Bytes
listening cfg =
    codes "listening on "
    ++ (address cfg.listen_host cfg.listen_port
        ++ (codes " -> "
            ++ (tty_url cfg
                ++ (codes " (mode="
                    ++ (cfg.mode
                        ++ (codes " eol="
                            ++ (cfg.eol
                                ++ (codes " framing="
                                    ++ (cfg.framing
                                        ++ (codes " throttle="
                                            ++ (show_bool cfg.throttle
                                                ++ (codes " reconnect="
                                                    ++ (show_bool cfg.reconnect
                                                        ++ (codes " tui="
                                                            ++ (tui_info cfg
                                                            ++ codes ")")))))))))))))))

-- The loop: an error is reported, and the next client waited for.
unfoldable pub accept_loop : ℕ → List (Result ℕ) → List Act
accept_loop level [] = []
accept_loop level (err e ∷ accepted) =
    log_act level (codes "WARNING") (codes "accept: " ++ e) ++ accept_loop level accepted
accept_loop level (ok conn ∷ accepted) = handle conn ∷ accept_loop level accepted

-- With the error that ends it.
unfoldable pub serve : ℕ → Config → Result (Unit {0}) → List (Result ℕ) → List Act × Option Bytes
unfolding accept_loop
serve level cfg (err e) accepted = ([], some e)
serve level cfg (ok listener) accepted =
    (log_act level (codes "INFO") (listening cfg) ++ accept_loop level accepted, none)

abbrev pub exit_if_failed : List Act × Option Bytes → List Act
exit_if_failed (acts, none) = acts
exit_if_failed (acts, some e) = acts ++ fail (codes "fatal: " ++ e) 1 ∷ []

-- From INFO, which is 1, on.
unfoldable pub main : Config → Result (Unit {0}) → List (Result ℕ) → List Act
unfolding serve
main cfg listen accepted =
    let level = set_log_level 1 cfg.log_level in
    log_act level (codes "INFO") (codes "IMSAI TTY Gateway v" ++ (version ++ codes " started"))
    ++ exit_if_failed (serve level cfg listen accepted)
