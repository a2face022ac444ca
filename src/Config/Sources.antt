-- ===== src/Config/Sources.antt =====
-- gateway-go/config.go: the three sources of settings above the defaults, each a function on
-- `Config`. The TOML file is what the decoder made of it, the flags what the flag package parsed
-- (`none` where `Visit` does not name the flag). A float is read as its duration (module Settings).
use imsai_8080_esp_tty_gtw.Prelude.{
  ℕ, Bool, not, ◌||◌, Bytes, ◌++◌, Option, none, some, codes, text_eq, to_lower, trim_space,
}
use imsai_8080_esp_tty_gtw.Config.Settings.{Config}
use imsai_8080_esp_tty_gtw.Config.Parse.{atoi}

-- A decoded value; `seconds` is the duration of that many seconds, for an int read as a float.
pub data Toml : Type 0 where
  text : Bytes → Toml
  int : ℕ → Toml
  float : ℕ → Toml
  bool : Bool → Toml
  other : Toml

abbrev pub FileMap : Type 0
FileMap = Bytes → Option Toml

-- What the standard library makes of a float: `strconv.ParseFloat` on a trimmed text, and
-- `float64` of an int, both as a duration.
pub record Floats : Type 0 where
  pub parse_float : Bytes → Option ℕ
  pub of_int : ℕ → ℕ

abbrev pub or_keep {ℓ} : {A : Type ℓ} → Option A → A → A
or_keep none a = a
or_keep (some b) a = b

abbrev as_str : Option Toml → Option Bytes
as_str (some (text s)) = some s
as_str _ = none

abbrev as_int : Option Toml → Option ℕ
as_int (some (int n)) = some n
as_int _ = none

abbrev as_float : Floats → Option Toml → Option ℕ
as_float fl (some (float d)) = some d
as_float fl (some (int n)) = some (fl.of_int n)
as_float fl _ = none

abbrev as_bool : Option Toml → Option Bool
as_bool (some (bool b)) = some b
as_bool _ = none

unfoldable pub file_str : FileMap → Bytes → Option Bytes
file_str m k = as_str (m k)

unfoldable pub file_int : FileMap → Bytes → Option ℕ
file_int m k = as_int (m k)

unfoldable pub file_float : Floats → FileMap → Bytes → Option ℕ
file_float fl m k = as_float fl (m k)

unfoldable pub file_bool : FileMap → Bytes → Option Bool
file_bool m k = as_bool (m k)

unfoldable pub apply_file : Floats → FileMap → Config → Config
apply_file fl m c = record c {
  host = or_keep (file_str m (codes "host")) c.host;
  ws_port = or_keep (file_int m (codes "ws_port")) c.ws_port;
  listen_host = or_keep (file_str m (codes "listen_host")) c.listen_host;
  listen_port = or_keep (file_int m (codes "listen_port")) c.listen_port;
  mode = or_keep (file_str m (codes "mode")) c.mode;
  eol = or_keep (file_str m (codes "eol")) c.eol;
  crlf_out = or_keep (file_bool m (codes "crlf_out")) c.crlf_out;
  cols = or_keep (file_int m (codes "cols")) c.cols;
  resize = or_keep (file_str m (codes "resize")) c.resize;
  framing = or_keep (file_str m (codes "framing")) c.framing;
  throttle = or_keep (file_bool m (codes "throttle")) c.throttle;
  cr_delay = or_keep (file_float fl m (codes "cr_delay")) c.cr_delay;
  char_delay = or_keep (file_float fl m (codes "char_delay")) c.char_delay;
  max_sessions = or_keep (file_int m (codes "max_sessions")) c.max_sessions;
  reconnect = or_keep (file_bool m (codes "reconnect")) c.reconnect;
  reconnect_delay = or_keep (file_float fl m (codes "reconnect_delay")) c.reconnect_delay;
  reconnect_max = or_keep (file_int m (codes "reconnect_max")) c.reconnect_max;
  tui = or_keep (file_bool m (codes "tui")) c.tui;
  hotkey = or_keep (file_str m (codes "hotkey")) c.hotkey;
  log_level = or_keep (file_str m (codes "log_level")) c.log_level;
}

abbrev pub EnvMap : Type 0
EnvMap = Bytes → Option Bytes

abbrev env_name : Bytes → Bytes
env_name k = codes "IMSAI_GW_" ++ k

-- A text that does not parse is ignored, with a warning.
abbrev parsed {ℓ} : {A : Type ℓ} → (Bytes → Option A) → Option Bytes → Option A
parsed p none = none
parsed p (some v) = p (trim_space v)

abbrev truthy : Bytes → Bool
truthy v =
    let s = to_lower (trim_space v) in
    text_eq s (codes "1")
    || text_eq s (codes "true")
    || text_eq s (codes "yes")
    || text_eq s (codes "on")

abbrev as_truth : Option Bytes → Option Bool
as_truth none = none
as_truth (some v) = some (truthy v)

unfoldable pub env_str : EnvMap → Bytes → Option Bytes
env_str env k = env (env_name k)

unfoldable pub env_int : EnvMap → Bytes → Option ℕ
env_int env k = parsed atoi (env (env_name k))

unfoldable pub env_float : Floats → EnvMap → Bytes → Option ℕ
env_float fl env k = parsed fl.parse_float (env (env_name k))

unfoldable pub env_bool : EnvMap → Bytes → Option Bool
env_bool env k = as_truth (env (env_name k))

unfoldable pub apply_env : Floats → EnvMap → Config → Config
apply_env fl env c = record c {
  host = or_keep (env_str env (codes "HOST")) c.host;
  ws_port = or_keep (env_int env (codes "WS_PORT")) c.ws_port;
  listen_host = or_keep (env_str env (codes "LISTEN_HOST")) c.listen_host;
  listen_port = or_keep (env_int env (codes "LISTEN_PORT")) c.listen_port;
  mode = or_keep (env_str env (codes "MODE")) c.mode;
  eol = or_keep (env_str env (codes "EOL")) c.eol;
  crlf_out = or_keep (env_bool env (codes "CRLF_OUT")) c.crlf_out;
  cols = or_keep (env_int env (codes "COLS")) c.cols;
  resize = or_keep (env_str env (codes "RESIZE")) c.resize;
  framing = or_keep (env_str env (codes "FRAMING")) c.framing;
  throttle = or_keep (env_bool env (codes "THROTTLE")) c.throttle;
  cr_delay = or_keep (env_float fl env (codes "CR_DELAY")) c.cr_delay;
  char_delay = or_keep (env_float fl env (codes "CHAR_DELAY")) c.char_delay;
  max_sessions = or_keep (env_int env (codes "MAX_SESSIONS")) c.max_sessions;
  reconnect = or_keep (env_bool env (codes "RECONNECT")) c.reconnect;
  reconnect_delay = or_keep (env_float fl env (codes "RECONNECT_DELAY")) c.reconnect_delay;
  reconnect_max = or_keep (env_int env (codes "RECONNECT_MAX")) c.reconnect_max;
  tui = or_keep (env_bool env (codes "TUI")) c.tui;
  hotkey = or_keep (env_str env (codes "HOTKEY")) c.hotkey;
  log_level = or_keep (env_str env (codes "LOG_LEVEL")) c.log_level;
}

-- The flags that were set; the value of a `no-` flag is the flag's own.
pub record Flags : Type 0 where
  pub flag_host : Option Bytes
  pub flag_ws_port : Option ℕ
  pub flag_listen_host : Option Bytes
  pub flag_listen_port : Option ℕ
  pub flag_mode : Option Bytes
  pub flag_eol : Option Bytes
  pub flag_no_crlf_out : Option Bool
  pub flag_cols : Option ℕ
  pub flag_resize : Option Bytes
  pub flag_framing : Option Bytes
  pub flag_no_throttle : Option Bool
  pub flag_cr_delay : Option ℕ
  pub flag_char_delay : Option ℕ
  pub flag_max_sessions : Option ℕ
  pub flag_no_reconnect : Option Bool
  pub flag_reconnect_delay : Option ℕ
  pub flag_reconnect_max : Option ℕ
  pub flag_no_tui : Option Bool
  pub flag_hotkey : Option Bytes
  pub flag_log_level : Option Bytes
  pub flag_capture : Option Bytes

-- `!*flag`.
abbrev pub negated : Option Bool → Option Bool
negated none = none
negated (some b) = some (not b)

unfoldable pub apply_flags : Flags → Config → Config
apply_flags g c = record c {
  host = or_keep g.flag_host c.host;
  ws_port = or_keep g.flag_ws_port c.ws_port;
  listen_host = or_keep g.flag_listen_host c.listen_host;
  listen_port = or_keep g.flag_listen_port c.listen_port;
  mode = or_keep g.flag_mode c.mode;
  eol = or_keep g.flag_eol c.eol;
  crlf_out = or_keep (negated g.flag_no_crlf_out) c.crlf_out;
  cols = or_keep g.flag_cols c.cols;
  resize = or_keep g.flag_resize c.resize;
  framing = or_keep g.flag_framing c.framing;
  throttle = or_keep (negated g.flag_no_throttle) c.throttle;
  cr_delay = or_keep g.flag_cr_delay c.cr_delay;
  char_delay = or_keep g.flag_char_delay c.char_delay;
  max_sessions = or_keep g.flag_max_sessions c.max_sessions;
  reconnect = or_keep (negated g.flag_no_reconnect) c.reconnect;
  reconnect_delay = or_keep g.flag_reconnect_delay c.reconnect_delay;
  reconnect_max = or_keep g.flag_reconnect_max c.reconnect_max;
  tui = or_keep (negated g.flag_no_tui) c.tui;
  hotkey = or_keep g.flag_hotkey c.hotkey;
  log_level = or_keep g.flag_log_level c.log_level;
  capture = or_keep g.flag_capture c.capture;
}
