-- ===== src/Config/Precedence.antt =====
-- gateway-go/config.go: flags over environment over file over defaults.
use imsai_8080_esp_tty_gtw.Prelude.{Option, none, some, codes, ◌≡◌, refl}
use imsai_8080_esp_tty_gtw.Config.Settings.{Config, default_config}
use imsai_8080_esp_tty_gtw.Config.Sources.{
  or_keep, FileMap, Floats, EnvMap, Flags, negated, file_str, file_int, file_float, file_bool,
  env_str, env_int, env_float, env_bool, apply_file, apply_env, apply_flags,
}
use imsai_8080_esp_tty_gtw.Config.Build.{layers}

-- The first source that has the setting.
abbrev pub setting {ℓ} : {A : Type ℓ} → Option A → Option A → Option A → A → A
setting (some flag) env file default = flag
setting none (some env) file default = env
setting none none (some file) default = file
setting none none none default = default

abbrev pub from_file {ℓ} : {A : Type ℓ} → (FileMap → Option A) → Option FileMap → Option A
from_file get none = none
from_file get (some m) = get m

-- Every setting of `c` is the first of flag, variable, file and default that gives it a value.
pub record IsResolved (fl : Floats) (file : Option FileMap) (env : EnvMap) (g : Flags) (c : Config)
    : Type 0 where
  pub host_is :
      c.host
      ≡ setting g.flag_host
          (env_str env (codes "HOST"))
          (from_file (λ m. file_str m (codes "host")) file)
          default_config.host
  pub ws_port_is :
      c.ws_port
      ≡ setting g.flag_ws_port
          (env_int env (codes "WS_PORT"))
          (from_file (λ m. file_int m (codes "ws_port")) file)
          default_config.ws_port
  pub listen_host_is :
      c.listen_host
      ≡ setting g.flag_listen_host
          (env_str env (codes "LISTEN_HOST"))
          (from_file (λ m. file_str m (codes "listen_host")) file)
          default_config.listen_host
  pub listen_port_is :
      c.listen_port
      ≡ setting g.flag_listen_port
          (env_int env (codes "LISTEN_PORT"))
          (from_file (λ m. file_int m (codes "listen_port")) file)
          default_config.listen_port
  pub mode_is :
      c.mode
      ≡ setting g.flag_mode
          (env_str env (codes "MODE"))
          (from_file (λ m. file_str m (codes "mode")) file)
          default_config.mode
  pub eol_is :
      c.eol
      ≡ setting g.flag_eol
          (env_str env (codes "EOL"))
          (from_file (λ m. file_str m (codes "eol")) file)
          default_config.eol
  pub crlf_out_is :
      c.crlf_out
      ≡ setting
          (negated g.flag_no_crlf_out)
          (env_bool env (codes "CRLF_OUT"))
          (from_file (λ m. file_bool m (codes "crlf_out")) file)
          default_config.crlf_out
  pub cols_is :
      c.cols
      ≡ setting g.flag_cols
          (env_int env (codes "COLS"))
          (from_file (λ m. file_int m (codes "cols")) file)
          default_config.cols
  pub resize_is :
      c.resize
      ≡ setting g.flag_resize
          (env_str env (codes "RESIZE"))
          (from_file (λ m. file_str m (codes "resize")) file)
          default_config.resize
  pub framing_is :
      c.framing
      ≡ setting g.flag_framing
          (env_str env (codes "FRAMING"))
          (from_file (λ m. file_str m (codes "framing")) file)
          default_config.framing
  pub throttle_is :
      c.throttle
      ≡ setting
          (negated g.flag_no_throttle)
          (env_bool env (codes "THROTTLE"))
          (from_file (λ m. file_bool m (codes "throttle")) file)
          default_config.throttle
  pub cr_delay_is :
      c.cr_delay
      ≡ setting g.flag_cr_delay
          (env_float fl env (codes "CR_DELAY"))
          (from_file (λ m. file_float fl m (codes "cr_delay")) file)
          default_config.cr_delay
  pub char_delay_is :
      c.char_delay
      ≡ setting g.flag_char_delay
          (env_float fl env (codes "CHAR_DELAY"))
          (from_file (λ m. file_float fl m (codes "char_delay")) file)
          default_config.char_delay
  pub max_sessions_is :
      c.max_sessions
      ≡ setting g.flag_max_sessions
          (env_int env (codes "MAX_SESSIONS"))
          (from_file (λ m. file_int m (codes "max_sessions")) file)
          default_config.max_sessions
  pub reconnect_is :
      c.reconnect
      ≡ setting
          (negated g.flag_no_reconnect)
          (env_bool env (codes "RECONNECT"))
          (from_file (λ m. file_bool m (codes "reconnect")) file)
          default_config.reconnect
  pub reconnect_delay_is :
      c.reconnect_delay
      ≡ setting g.flag_reconnect_delay
          (env_float fl env (codes "RECONNECT_DELAY"))
          (from_file (λ m. file_float fl m (codes "reconnect_delay")) file)
          default_config.reconnect_delay
  pub reconnect_max_is :
      c.reconnect_max
      ≡ setting g.flag_reconnect_max
          (env_int env (codes "RECONNECT_MAX"))
          (from_file (λ m. file_int m (codes "reconnect_max")) file)
          default_config.reconnect_max
  pub tui_is :
      c.tui
      ≡ setting
          (negated g.flag_no_tui)
          (env_bool env (codes "TUI"))
          (from_file (λ m. file_bool m (codes "tui")) file)
          default_config.tui
  pub hotkey_is :
      c.hotkey
      ≡ setting g.flag_hotkey
          (env_str env (codes "HOTKEY"))
          (from_file (λ m. file_str m (codes "hotkey")) file)
          default_config.hotkey
  pub log_level_is :
      c.log_level
      ≡ setting g.flag_log_level
          (env_str env (codes "LOG_LEVEL"))
          (from_file (λ m. file_str m (codes "log_level")) file)
          default_config.log_level
  pub capture_is : c.capture ≡ setting g.flag_capture none none default_config.capture

settled {ℓ} :
    {A : Type ℓ} (flag env file : Option A) (default : A)
    → or_keep flag (or_keep env (or_keep file default)) ≡ setting flag env file default
settled (some a) env file default = refl
settled none (some a) file default = refl
settled none none (some a) default = refl
settled none none none default = refl

-- Each of the settings comes from the flag if it was given, else from the environment if the
-- variable is there and parses, else from the file if it has the key with a value of a fitting
-- type, else it is the default; the capture file has the flag as its only source.
pub layers-IsResolved :
    (fl : Floats) (file : Option FileMap) (env : EnvMap) (g : Flags)
    → IsResolved fl file env g (layers fl file env g)
unfolding layers apply_flags apply_env apply_file
layers-IsResolved fl none env g = record {
  host_is = settled g.flag_host (env_str env (codes "HOST")) none default_config.host;
  ws_port_is = settled g.flag_ws_port (env_int env (codes "WS_PORT")) none default_config.ws_port;
  listen_host_is =
      settled g.flag_listen_host (env_str env (codes "LISTEN_HOST")) none
        default_config.listen_host;
  listen_port_is =
      settled g.flag_listen_port (env_int env (codes "LISTEN_PORT")) none
        default_config.listen_port;
  mode_is = settled g.flag_mode (env_str env (codes "MODE")) none default_config.mode;
  eol_is = settled g.flag_eol (env_str env (codes "EOL")) none default_config.eol;
  crlf_out_is =
      settled (negated g.flag_no_crlf_out) (env_bool env (codes "CRLF_OUT")) none
        default_config.crlf_out;
  cols_is = settled g.flag_cols (env_int env (codes "COLS")) none default_config.cols;
  resize_is = settled g.flag_resize (env_str env (codes "RESIZE")) none default_config.resize;
  framing_is = settled g.flag_framing (env_str env (codes "FRAMING")) none default_config.framing;
  throttle_is =
      settled (negated g.flag_no_throttle) (env_bool env (codes "THROTTLE")) none
        default_config.throttle;
  cr_delay_is =
      settled g.flag_cr_delay (env_float fl env (codes "CR_DELAY")) none default_config.cr_delay;
  char_delay_is =
      settled g.flag_char_delay (env_float fl env (codes "CHAR_DELAY")) none
        default_config.char_delay;
  max_sessions_is =
      settled g.flag_max_sessions (env_int env (codes "MAX_SESSIONS")) none
        default_config.max_sessions;
  reconnect_is =
      settled (negated g.flag_no_reconnect) (env_bool env (codes "RECONNECT")) none
        default_config.reconnect;
  reconnect_delay_is =
      settled g.flag_reconnect_delay (env_float fl env (codes "RECONNECT_DELAY")) none
        default_config.reconnect_delay;
  reconnect_max_is =
      settled g.flag_reconnect_max (env_int env (codes "RECONNECT_MAX")) none
        default_config.reconnect_max;
  tui_is = settled (negated g.flag_no_tui) (env_bool env (codes "TUI")) none default_config.tui;
  hotkey_is = settled g.flag_hotkey (env_str env (codes "HOTKEY")) none default_config.hotkey;
  log_level_is =
      settled g.flag_log_level (env_str env (codes "LOG_LEVEL")) none default_config.log_level;
  capture_is = settled g.flag_capture none none default_config.capture;
}
layers-IsResolved fl (some m) env g = record {
  host_is =
      settled g.flag_host (env_str env (codes "HOST")) (file_str m (codes "host"))
        default_config.host;
  ws_port_is =
      settled g.flag_ws_port (env_int env (codes "WS_PORT")) (file_int m (codes "ws_port"))
        default_config.ws_port;
  listen_host_is =
      settled g.flag_listen_host (env_str env (codes "LISTEN_HOST"))
        (file_str m (codes "listen_host")) default_config.listen_host;
  listen_port_is =
      settled g.flag_listen_port (env_int env (codes "LISTEN_PORT"))
        (file_int m (codes "listen_port")) default_config.listen_port;
  mode_is =
      settled g.flag_mode (env_str env (codes "MODE")) (file_str m (codes "mode"))
        default_config.mode;
  eol_is =
      settled g.flag_eol (env_str env (codes "EOL")) (file_str m (codes "eol")) default_config.eol;
  crlf_out_is =
      settled (negated g.flag_no_crlf_out) (env_bool env (codes "CRLF_OUT"))
        (file_bool m (codes "crlf_out")) default_config.crlf_out;
  cols_is =
      settled g.flag_cols (env_int env (codes "COLS")) (file_int m (codes "cols"))
        default_config.cols;
  resize_is =
      settled g.flag_resize (env_str env (codes "RESIZE")) (file_str m (codes "resize"))
        default_config.resize;
  framing_is =
      settled g.flag_framing (env_str env (codes "FRAMING")) (file_str m (codes "framing"))
        default_config.framing;
  throttle_is =
      settled (negated g.flag_no_throttle) (env_bool env (codes "THROTTLE"))
        (file_bool m (codes "throttle")) default_config.throttle;
  cr_delay_is =
      settled g.flag_cr_delay (env_float fl env (codes "CR_DELAY"))
        (file_float fl m (codes "cr_delay")) default_config.cr_delay;
  char_delay_is =
      settled g.flag_char_delay (env_float fl env (codes "CHAR_DELAY"))
        (file_float fl m (codes "char_delay")) default_config.char_delay;
  max_sessions_is =
      settled g.flag_max_sessions (env_int env (codes "MAX_SESSIONS"))
        (file_int m (codes "max_sessions")) default_config.max_sessions;
  reconnect_is =
      settled (negated g.flag_no_reconnect) (env_bool env (codes "RECONNECT"))
        (file_bool m (codes "reconnect")) default_config.reconnect;
  reconnect_delay_is =
      settled g.flag_reconnect_delay (env_float fl env (codes "RECONNECT_DELAY"))
        (file_float fl m (codes "reconnect_delay")) default_config.reconnect_delay;
  reconnect_max_is =
      settled g.flag_reconnect_max (env_int env (codes "RECONNECT_MAX"))
        (file_int m (codes "reconnect_max")) default_config.reconnect_max;
  tui_is =
      settled (negated g.flag_no_tui) (env_bool env (codes "TUI")) (file_bool m (codes "tui"))
        default_config.tui;
  hotkey_is =
      settled g.flag_hotkey (env_str env (codes "HOTKEY")) (file_str m (codes "hotkey"))
        default_config.hotkey;
  log_level_is =
      settled g.flag_log_level (env_str env (codes "LOG_LEVEL")) (file_str m (codes "log_level"))
        default_config.log_level;
  capture_is = settled g.flag_capture none none default_config.capture;
}
