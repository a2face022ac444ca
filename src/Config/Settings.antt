-- ===== src/Config/Settings.antt =====
-- gateway-go/config.go: `Config` and `defaultConfig`. An `int` is a pattern of module Word. A delay
-- is the `time.Duration` that the code makes of the float, in nanoseconds.
use imsai_8080_esp_tty_gtw.Prelude.{ℕ, Bool, true, Bytes, [], ◌∷◌, ◌++◌, codes}

pub record Config : Type 0 where
  pub host : Bytes
  pub ws_port : ℕ
  pub listen_host : Bytes
  pub listen_port : ℕ
  pub mode : Bytes
  pub eol : Bytes
  pub crlf_out : Bool
  pub cols : ℕ
  pub resize : Bytes
  pub resize_cols : ℕ
  pub resize_rows : ℕ
  pub framing : Bytes
  pub throttle : Bool
  pub cr_delay : ℕ
  pub char_delay : ℕ
  pub max_sessions : ℕ
  pub reconnect : Bool
  pub reconnect_delay : ℕ
  pub reconnect_max : ℕ
  pub tui : Bool
  pub hotkey : Bytes
  pub hotkey_bytes : Bytes
  pub capture : Bytes
  pub log_level : Bytes

abbrev pub default_config : Config
default_config = record {
  host = [];
  ws_port = 80;
  listen_host = codes "0.0.0.0";
  listen_port = 2323;
  mode = codes "auto";
  eol = codes "cr";
  crlf_out = true;
  cols = 80;
  resize = codes "80x24";
  resize_cols = 0;
  resize_rows = 0;
  framing = codes "binary";
  throttle = true;
  cr_delay = 100000000;
  char_delay = 20000000;
  max_sessions = 1;
  reconnect = true;
  reconnect_delay = 2000000000;
  reconnect_max = 0;
  tui = true;
  hotkey = codes "Ctrl+" ++ 0x5c ∷ [];
  hotkey_bytes = [];
  capture = [];
  log_level = codes "INFO";
}
