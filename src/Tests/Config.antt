-- ===== src/Tests/Config.antt =====
-- Settings from a file, the environment and flags, the checks, and hotkeys.
use imsai_8080_esp_tty_gtw.Prelude.{
  ◌*◌, true, [], ◌∷◌, none, some, ◌≡◌, refl, codes, text_eq, trim_space, to_upper, to_lower,
  split_from, ok, if◌then◌else◌,
}
use imsai_8080_esp_tty_gtw.Config.Settings.{Config, default_config}
use imsai_8080_esp_tty_gtw.Config.Sources.{Floats, EnvMap, Flags}
use imsai_8080_esp_tty_gtw.Config.Parse.{parse_resize, atoi}
use imsai_8080_esp_tty_gtw.Config.Hotkey.{parse_hotkey}
use imsai_8080_esp_tty_gtw.Config.Build.{
  layers, validate, checks, must_choice, is_choice, with_hotkey, or_invalid,
}
use imsai_8080_esp_tty_gtw.Config.Precedence.{IsResolved, layers-IsResolved}
use imsai_8080_esp_tty_gtw.Config.Valid.{IsAccepted, validate-IsAccepted}

abbrev no_floats : Floats
no_floats = record { parse_float = λ _. none; of_int = λ n. n * 1000000000 }

abbrev small_env : EnvMap
small_env k = if text_eq k (codes "IMSAI_GW_COLS") then some (codes "132") else none

abbrev host_only : Flags
host_only = record {
  flag_host = some (codes "imsai");
  flag_ws_port = none;
  flag_listen_host = none;
  flag_listen_port = none;
  flag_mode = none;
  flag_eol = none;
  flag_no_crlf_out = none;
  flag_cols = none;
  flag_resize = none;
  flag_framing = none;
  flag_no_throttle = some true;
  flag_cr_delay = none;
  flag_char_delay = none;
  flag_max_sessions = none;
  flag_no_reconnect = none;
  flag_reconnect_delay = none;
  flag_reconnect_max = none;
  flag_no_tui = none;
  flag_hotkey = none;
  flag_log_level = none;
  flag_capture = none;
}

layers-IsResolved_example :
    IsResolved no_floats none small_env host_only (layers no_floats none small_env host_only)
layers-IsResolved_example = layers-IsResolved no_floats none small_env host_only

abbrev given : Config
given = record default_config { host = codes "imsai"; log_level = codes "debug" }

abbrev accepted : Config
accepted = record given {
  resize_cols = 80;
  resize_rows = 24;
  log_level = codes "DEBUG";
  hotkey_bytes = 0x1c ∷ [];
}

validate-given : validate given ≡ ok accepted
unfolding validate checks must_choice is_choice with_hotkey or_invalid parse_resize parse_hotkey
    text_eq trim_space to_upper to_lower split_from atoi
validate-given = refl

validate-IsAccepted_example : IsAccepted given accepted
validate-IsAccepted_example = validate-IsAccepted given accepted validate-given
