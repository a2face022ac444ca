-- ===== src/Terminal/Naws.antt =====
-- gateway-go/terminal.go: the window size that a client reports (RFC 1073) is the one that `Size`
-- returns.
use imsai_8080_esp_tty_gtw.Prelude.{
  append_assoc, append-nil, ◌∙◌, ◌<◌, ℕ, true, Bytes, [], ◌∷◌, ◌++◌, ◌≡◌, refl, arith,
}
use imsai_8080_esp_tty_gtw.Terminal.Input.{
  st_data, st_sb, st_sb_iac, TerminalInput, t_iac, t_sb, t_se, opt_naws, size,
}
use imsai_8080_esp_tty_gtw.Terminal.Negotiate.{announce}
use imsai_8080_esp_tty_gtw.Terminal.Feed.{word16, handle_subneg, feed_telnet, feed_all}
use imsai_8080_esp_tty_gtw.Terminal.Escape.{escape_byte, escape}

-- A payload byte, escaped, ends in the buffer and nowhere else.
feed_sb_byte :
    (t : TerminalInput) (b : ℕ) (rest : Bytes)
    → t.state ≡ st_sb
    → feed_all t (escape_byte b ++ rest) ≡ feed_all (record t { sb = t.sb ++ b ∷ [] }) rest
unfolding feed_all feed_telnet
feed_sb_byte t b rest s = ground arith

feed_sb-escape :
    (t : TerminalInput) (payload rest : Bytes)
    → t.state ≡ st_sb
    → feed_all t (escape payload ++ rest) ≡ feed_all (record t { sb = t.sb ++ payload }) rest
unfolding escape
feed_sb-escape t [] rest s = rw append-nil
feed_sb-escape t (b ∷ payload) rest s = rw append_assoc (
    feed_sb_byte t b (escape payload ++ rest) s
    ∙ feed_sb-escape (record t { sb = t.sb ++ b ∷ [] }) payload rest s
    ∙ rw append_assoc)

-- IAC SB payload IAC SE, each 255 of the payload sent twice.
abbrev pub subneg : Bytes → Bytes
subneg payload = t_iac ∷ t_sb ∷ (escape payload ++ t_iac ∷ t_se ∷ [])

feed_sb_start :
    (t : TerminalInput) (rest : Bytes)
    → t.state ≡ st_data
    → t.announced ≡ true
    → feed_all t (t_iac ∷ t_sb ∷ rest) ≡ feed_all (record t { state = st_sb; sb = [] }) rest
unfolding feed_all feed_telnet announce
feed_sb_start t rest s a = ground arith

feed_sb_end :
    (t : TerminalInput)
    → t.state ≡ st_sb
    → feed_all t (t_iac ∷ t_se ∷ []) ≡ record {
      term = record (handle_subneg (record t { state = st_sb_iac }) t.sb) { state = st_data };
      raw = [];
      reply = [];
    }
unfolding feed_all feed_telnet
feed_sb_end t s = ground arith

-- A subnegotiation is read whole, whatever its payload holds.
pub feed_all-subneg :
    (t : TerminalInput) (payload : Bytes)
    → t.state ≡ st_data
    → t.announced ≡ true
    → feed_all t (subneg payload) ≡ record {
      term = record (handle_subneg (record t { state = st_sb_iac; sb = payload }) payload) {
        state = st_data;
      };
      raw = [];
      reply = [];
    }
feed_all-subneg t payload s a =
    feed_sb_start t _ s a
    ∙ feed_sb-escape (record t { state = st_sb; sb = [] }) payload _ refl
    ∙ feed_sb_end (record t { state = st_sb; sb = payload }) refl

-- After a client that is past the announcement reports a window of positive width and height, sent
-- as two 16-bit numbers with every byte 255 doubled, `Size` returns that width and height, the
-- report leaves no console data and no reply, and the parser is back between commands.
pub size-naws :
    (t : TerminalInput) (w1 w0 h1 h0 : ℕ)
    → t.state ≡ st_data
    → t.announced ≡ true
    → 0 < word16 w1 w0
    → 0 < word16 h1 h0
    → (let f = feed_all t (subneg (opt_naws ∷ w1 ∷ w0 ∷ h1 ∷ h0 ∷ [])) in
        (size f.term ≡ (word16 w1 w0, word16 h1 h0, true))
        × (f.term.state ≡ st_data)
        × (f.raw ≡ [])
        × (f.reply ≡ []))
unfolding handle_subneg size
size-naws t w1 w0 h1 h0 s a w h =
    rw (feed_all-subneg t (opt_naws ∷ w1 ∷ w0 ∷ h1 ∷ h0 ∷ []) s a) (ground arith)
