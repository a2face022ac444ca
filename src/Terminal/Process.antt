-- ===== src/Terminal/Process.antt =====
-- gateway-go/terminal.go: `Process`.
use imsai_8080_esp_tty_gtw.Prelude.{Bytes, [], if◌then◌else◌, text_eq}
use imsai_8080_esp_tty_gtw.Terminal.Input.{TerminalInput, raw_text}
use imsai_8080_esp_tty_gtw.Terminal.Feed.{Fed, feed_all}
use imsai_8080_esp_tty_gtw.Terminal.Eol.{normalize_eol}

pub record Processed : Type 0 where
  pub term : TerminalInput
  pub to_ws : Bytes
  pub to_client : Bytes

-- The Telnet layer alone: every byte is console data in raw mode.
unfoldable pub parse_telnet : TerminalInput → Bytes → Fed
parse_telnet t bytes =
    if text_eq t.mode raw_text
    then record { term = t; raw = bytes; reply = [] }
    else feed_all t bytes

unfoldable pub process : TerminalInput → Bytes → Processed
unfolding parse_telnet
process t bytes =
    let f = parse_telnet t bytes in
    let (t', out) = normalize_eol f.term f.raw in
    record { term = t'; to_ws = out; to_client = f.reply }
