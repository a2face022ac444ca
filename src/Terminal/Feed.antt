-- ===== src/Terminal/Feed.antt =====
-- gateway-go/terminal.go: `feedTelnet` and `handleSubneg`. A step returns the object, the bytes that
-- it appends to `raw`, and the reply to the client.
use imsai_8080_esp_tty_gtw.Prelude.{
  ℕ, ◌+◌, ◌*◌, true, ◌||◌, Bytes, [], ◌∷◌, ◌++◌, ◌==◌, if◌then◌else◌, text_eq,
}
use imsai_8080_esp_tty_gtw.Terminal.Input.{
  State, st_data, st_iac, st_opt, st_sb, st_sb_iac, TerminalInput, t_iac, t_dont, t_do, t_wont,
  t_will, t_sb, t_se, opt_naws, auto_text,
}
use imsai_8080_esp_tty_gtw.Terminal.Negotiate.{announce, negotiate}

pub record Fed : Type 0 where
  pub term : TerminalInput
  pub raw : Bytes
  pub reply : Bytes

abbrev to_state : TerminalInput → State → Fed
to_state t s = record { term = record t { state = s }; raw = []; reply = [] }

-- `int(hi)<<8 | int(lo)`: the low byte is below 256, so the bitwise or is a sum.
abbrev pub word16 : ℕ → ℕ → ℕ
word16 hi lo = hi * 256 + lo

set_size : TerminalInput → ℕ → ℕ → TerminalInput
set_size t cols rows =
    if cols == 0 || rows == 0 then t else record t { cols = cols; rows = rows; has_size = true }

-- The payload `t.sb`: it needs at least five bytes, the first being the option.
unfoldable pub handle_subneg : TerminalInput → Bytes → TerminalInput
unfolding set_size
handle_subneg t (opt ∷ w1 ∷ w0 ∷ h1 ∷ h0 ∷ _) =
    if opt == opt_naws then set_size t (word16 w1 w0) (word16 h1 h0) else t
handle_subneg t _ = t

feed_data : TerminalInput → ℕ → Fed
feed_data t b =
    let t' = record t { state = st_iac } in
    let (t'', r) = announce t' in
    if b == t_iac
    then if text_eq t.mode auto_text
      then record { term = t''; raw = []; reply = r }
      else record { term = t'; raw = []; reply = [] }
    else record { term = t; raw = b ∷ []; reply = [] }

feed_iac : TerminalInput → ℕ → Fed
feed_iac t b =
    if b == t_iac
    then record { term = record t { state = st_data }; raw = t_iac ∷ []; reply = [] }
    else if b == t_will || b == t_wont || b == t_do || b == t_dont
    then to_state (record t { cmd = b }) st_opt
    else if b == t_sb
    then to_state (record t { sb = [] }) st_sb
    else to_state t st_data

feed_opt : TerminalInput → ℕ → Fed
feed_opt t b =
    let (t', r) = negotiate t t.cmd b in
    record { term = record t' { state = st_data }; raw = []; reply = r }

feed_sb : TerminalInput → ℕ → Fed
feed_sb t b =
    if b == t_iac then to_state t st_sb_iac else to_state (record t { sb = t.sb ++ b ∷ [] }) st_sb

feed_sb_iac : TerminalInput → ℕ → Fed
feed_sb_iac t b =
    if b == t_se
    then to_state (handle_subneg t t.sb) st_data
    else to_state (record t { sb = t.sb ++ b ∷ [] }) st_sb

-- The switch on `t.state`.
feed_in : State → TerminalInput → ℕ → Fed
unfolding feed_data feed_iac feed_opt feed_sb feed_sb_iac
feed_in st_data t b = feed_data t b
feed_in st_iac t b = feed_iac t b
feed_in st_opt t b = feed_opt t b
feed_in st_sb t b = feed_sb t b
feed_in st_sb_iac t b = feed_sb_iac t b

unfoldable pub feed_telnet : TerminalInput → ℕ → Fed
unfolding feed_in
feed_telnet t b = feed_in t.state t b

-- The loop of `Process` over the bytes read.
unfoldable pub feed_all : TerminalInput → Bytes → Fed
feed_all t [] = record { term = t; raw = []; reply = [] }
feed_all t (b ∷ bs) =
    let f = feed_telnet t b in
    let g = feed_all f.term bs in
    record { term = g.term; raw = f.raw ++ g.raw; reply = f.reply ++ g.reply }
