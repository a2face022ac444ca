-- ===== src/Terminal/Escape.antt =====
-- gateway-go/terminal.go: the data that a Telnet client sends arrives as it was typed.
use imsai_8080_esp_tty_gtw.Prelude.{
  ℕ, Bytes, [], ◌∷◌, ◌++◌, ◌≡◌, refl, arith, ◌==◌, if◌then◌else◌, true,
}
use imsai_8080_esp_tty_gtw.Terminal.Input.{st_data, TerminalInput, t_iac}
use imsai_8080_esp_tty_gtw.Terminal.Negotiate.{announce}
use imsai_8080_esp_tty_gtw.Terminal.Feed.{feed_telnet, feed_all}

-- A client sends a data byte 255 twice.
abbrev pub escape_byte : ℕ → Bytes
escape_byte b = if b == t_iac then t_iac ∷ t_iac ∷ [] else b ∷ []

unfoldable pub escape : Bytes → Bytes
escape [] = []
escape (b ∷ bs) = escape_byte b ++ escape bs

feed_escape_byte :
    (t : TerminalInput) (b : ℕ) (rest : Bytes)
    → t.state ≡ st_data
    → t.announced ≡ true
    → feed_all t (escape_byte b ++ rest) ≡ (let g = feed_all t rest in record g { raw = b ∷ g.raw })
unfolding feed_all feed_telnet announce
feed_escape_byte t b rest s a = ground arith

-- Data that a client escapes by RFC 854 comes out as it went in, with no reply and with the parser
-- unchanged, whatever bytes it holds, once the gateway has announced itself.
pub feed_all-escape :
    (t : TerminalInput) (bs : Bytes)
    → t.state ≡ st_data
    → t.announced ≡ true
    → feed_all t (escape bs) ≡ record { term = t; raw = bs; reply = [] }
unfolding escape
feed_all-escape t [] s a = unfold feed_all in refl
feed_all-escape t (b ∷ bs) s a = rw (feed_escape_byte t b (escape bs) s a, feed_all-escape t bs s a)
