-- ===== src/Terminal/Input.antt =====
-- gateway-go/terminal.go: the Telnet constants, the parser states and the `TerminalInput` object.
-- A `map[byte]bool` is a function, `delete` writes false (the zero value that a read of a missing
-- key gives). The mutex guards reads of the size from another goroutine and is left out: each
-- method runs alone on the input goroutine.
use imsai_8080_esp_tty_gtw.Prelude.{ℕ, Bool, false, Bytes, [], codes, ◌==◌, if◌then◌else◌}

abbrev pub t_iac : ℕ
t_iac = 255

abbrev pub t_dont : ℕ
t_dont = 254

abbrev pub t_do : ℕ
t_do = 253

abbrev pub t_wont : ℕ
t_wont = 252

abbrev pub t_will : ℕ
t_will = 251

abbrev pub t_sb : ℕ
t_sb = 250

abbrev pub t_se : ℕ
t_se = 240

abbrev pub opt_echo : ℕ
opt_echo = 1

abbrev pub opt_sga : ℕ
opt_sga = 3

abbrev pub opt_naws : ℕ
opt_naws = 31

-- The IAC parser states.
pub data State : Type 0 where
  st_data st_iac st_opt st_sb st_sb_iac : State

pub record TerminalInput : Type 0 where
  pub mode : Bytes
  pub eol : Bytes
  pub state : State
  pub cmd : ℕ
  pub sb : Bytes
  pub announced : Bool
  pub will_map : ℕ → Bool
  pub do_map : ℕ → Bool
  pub last_cr : Bool
  pub cols : ℕ
  pub rows : ℕ
  pub has_size : Bool

-- `m[opt] = v`.
abbrev pub set_opt : (ℕ → Bool) → ℕ → Bool → ℕ → Bool
set_opt m opt v x = if x == opt then v else m x

-- The two modes and the end-of-line setting that the code compares with.
abbrev pub raw_text : Bytes
raw_text = codes "raw"

abbrev pub telnet_text : Bytes
telnet_text = codes "telnet"

abbrev pub auto_text : Bytes
auto_text = codes "auto"

unfoldable pub new_terminal_input : Bytes → Bytes → TerminalInput
new_terminal_input mode eol = record {
  mode = mode;
  eol = eol;
  state = State.st_data;
  cmd = 0;
  sb = [];
  announced = false;
  will_map = λ _. false;
  do_map = λ _. false;
  last_cr = false;
  cols = 0;
  rows = 0;
  has_size = false;
}

-- `Size`: the last size that the client reported, and whether there is one.
unfoldable pub size : TerminalInput → ℕ × ℕ × Bool
size t = (t.cols, t.rows, t.has_size)
