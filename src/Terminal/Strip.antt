-- ===== src/Terminal/Strip.antt =====
-- gateway-go/terminal.go: which bytes of a Telnet stream are console data.
use imsai_8080_esp_tty_gtw.Terminal.Input.{
  State, st_data, st_iac, st_opt, st_sb, st_sb_iac, TerminalInput, t_iac, t_dont, t_do, t_wont,
  t_will, t_sb, t_se,
}
use imsai_8080_esp_tty_gtw.Prelude.{
  if◌then◌else◌, ℕ, ◌||◌, Bytes, [], ◌∷◌, ◌++◌, ◌≡◌, refl, arith, ◌==◌,
}
use imsai_8080_esp_tty_gtw.Terminal.Negotiate.{announce}
use imsai_8080_esp_tty_gtw.Terminal.Feed.{handle_subneg, feed_telnet, feed_all}

-- RFC 854 with no options and no memory: where the next byte stands, and what of it is data.
abbrev pub next_state : State → ℕ → State
next_state st_data b = if b == t_iac then st_iac else st_data
next_state st_iac b =
    if b == t_will || b == t_wont || b == t_do || b == t_dont
    then st_opt
    else if b == t_sb
    then st_sb
    else st_data
next_state st_opt b = st_data
next_state st_sb b = if b == t_iac then st_sb_iac else st_sb
next_state st_sb_iac b = if b == t_se then st_data else st_sb

abbrev pub data_of : State → ℕ → Bytes
data_of st_data b = if b == t_iac then [] else b ∷ []
data_of st_iac b = if b == t_iac then b ∷ [] else []
data_of _ b = []

unfoldable pub strip : State → Bytes → Bytes
strip s [] = []
strip s (b ∷ bs) = data_of s b ++ strip (next_state s b) bs

unfoldable pub final_state : State → Bytes → State
final_state s [] = s
final_state s (b ∷ bs) = final_state (next_state s b) bs

handle_subneg_state : (t : TerminalInput) (sb : Bytes) → (handle_subneg t sb).state ≡ t.state
unfolding handle_subneg
handle_subneg_state t [] = refl
handle_subneg_state t (a ∷ []) = refl
handle_subneg_state t (a ∷ b ∷ []) = refl
handle_subneg_state t (a ∷ b ∷ c ∷ []) = refl
handle_subneg_state t (a ∷ b ∷ c ∷ d ∷ []) = refl
handle_subneg_state t (a ∷ b ∷ c ∷ d ∷ e ∷ r) = ground arith

feed_telnet_step :
    (s : State) (t : TerminalInput) (b : ℕ)
    → t.state ≡ s
    → ((feed_telnet t b).raw ≡ data_of s b) × ((feed_telnet t b).term.state ≡ next_state s b)
unfolding feed_telnet announce
feed_telnet_step st_data t b e = ground arith
feed_telnet_step st_iac t b e = ground arith
feed_telnet_step st_opt t b e = ground arith
feed_telnet_step st_sb t b e = ground arith
feed_telnet_step st_sb_iac t b e = ground (arith, handle_subneg_state t t.sb)

pub feed_telnet-data_of : (t : TerminalInput) (b : ℕ) → (feed_telnet t b).raw ≡ data_of t.state b
feed_telnet-data_of t b = (feed_telnet_step t.state t b refl).0

pub feed_telnet-next_state :
    (t : TerminalInput) (b : ℕ) → (feed_telnet t b).term.state ≡ next_state t.state b
feed_telnet-next_state t b = (feed_telnet_step t.state t b refl).1

-- The Telnet layer passes on exactly the bytes that are data by RFC 854: what is negotiated, what
-- was announced and what a subnegotiation holds changes none of them, and the parser ends in the
-- state of that memoryless reader.
pub feed_all-strip :
    (t : TerminalInput) (bs : Bytes)
    → ((feed_all t bs).raw ≡ strip t.state bs)
      × ((feed_all t bs).term.state ≡ final_state t.state bs)
unfolding feed_all strip final_state
feed_all-strip t [] = (refl, refl)
feed_all-strip t (b ∷ bs) =
    let ih = feed_all-strip (feed_telnet t b).term bs in
    (
      rw (ih.0, feed_telnet-data_of t b, feed_telnet-next_state t b),
      rw (ih.1, feed_telnet-next_state t b),
    )
