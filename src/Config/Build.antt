-- ===== src/Config/Build.antt =====
-- gateway-go/config.go: `loadConfigFile` and `buildConfig`. A call of `fatal` ends the program with
-- its message: an error.
use imsai_8080_esp_tty_gtw.Prelude.{
  Bool, true, false, Bytes, List, [], ◌∷◌, ◌++◌, Option, none, some, codes, text_eq, to_upper,
  trim_space, join, Result, ok, err, ◌>>=◌, if◌then◌else◌,
}
use imsai_8080_esp_tty_gtw.Config.Settings.{Config, default_config}
use imsai_8080_esp_tty_gtw.Config.Parse.{quoted, parse_resize}
use imsai_8080_esp_tty_gtw.Config.Hotkey.{parse_hotkey}
use imsai_8080_esp_tty_gtw.Config.Sources.{
  FileMap, Floats, EnvMap, Flags, apply_file, apply_env, apply_flags,
}

-- What `os.Stat` and the TOML decoder find at a path. `root` is the whole table, `gateway` the
-- table of that name, if the file has one.
pub data FileState : Type 0 where
  missing : FileState
  unreadable : Bytes → FileState
  malformed : Bytes → FileState
  decoded : FileMap → Option FileMap → FileState

cannot_read : Bytes → Bytes → Bytes
cannot_read path e = codes "cannot read config file " ++ (path ++ (codes ": " ++ e))

gateway_table : FileMap → Option FileMap → FileMap
gateway_table root none = root
gateway_table root (some g) = g

-- `none` is the nil map.
load_state : Bytes → Bool → FileState → Result (Option FileMap)
unfolding cannot_read gateway_table
load_state path required missing =
    if required then err (codes "config file not found: " ++ path) else ok none
load_state path required (unreadable e) = err (cannot_read path e)
load_state path required (malformed e) = err (cannot_read path e)
load_state path required (decoded root gateway) = ok (some (gateway_table root gateway))

unfoldable pub load_config_file : (Bytes → FileState) → Bytes → Bool → Result (Option FileMap)
unfolding load_state
load_config_file fs path required = load_state path required (fs path)

-- The path of the file, and whether it must be there: the flag, the variable, or the default name.
env_path : Option Bytes → Bytes × Bool
env_path none = (codes "imsai-gw.toml", false)
env_path (some e) = if text_eq e [] then (codes "imsai-gw.toml", false) else (e, true)

unfoldable pub config_path : Bytes → EnvMap → Bytes × Bool
unfolding env_path
config_path flag env =
    if text_eq flag [] then env_path (env (codes "IMSAI_GW_CONFIG")) else (flag, true)

abbrev file_layer : Floats → Option FileMap → Config → Config
file_layer fl none c = c
file_layer fl (some m) c = apply_file fl m c

unfoldable pub layers : Floats → Option FileMap → EnvMap → Flags → Config
layers fl file env flags = apply_flags flags (apply_env fl env (file_layer fl file default_config))

unfoldable pub is_choice : Bytes → List Bytes → Bool
is_choice v [] = false
is_choice v (c ∷ cs) = let rest = is_choice v cs in if text_eq v c then true else rest

unfoldable pub must_choice : Bytes → Bytes → List Bytes → Result (Unit {0})
unfolding is_choice
must_choice name v choices =
    if is_choice v choices
    then ok tt
    else err (
        codes "invalid "
        ++ (name
            ++ (codes "="
                ++ (quoted v
                    ++ (codes " (allowed: " ++ (join (codes ", ") choices ++ codes ")"))))))

-- `fatal(fmt.Sprintf("invalid %s %q: %v", ...))` for an error of the parser of a setting.
unfoldable pub or_invalid {ℓ} : {A : Type ℓ} → Bytes → Bytes → Result A → Result A
or_invalid name v (ok a) = ok a
or_invalid name v (err e) =
    err (codes "invalid " ++ (name ++ (codes " " ++ (quoted v ++ (codes ": " ++ e)))))

abbrev pub hotkey_if : Bool → Config → Result Config
hotkey_if false c = ok c
hotkey_if true c = do
  hb ← or_invalid (codes "hotkey") c.hotkey (parse_hotkey c.hotkey)
  ok (record c { hotkey_bytes = hb })

unfoldable pub with_hotkey : Config → Result Config
with_hotkey c = hotkey_if c.tui c

abbrev pub modes : List Bytes
modes = codes "raw" ∷ codes "telnet" ∷ codes "auto" ∷ []

abbrev pub eols : List Bytes
eols = codes "cr" ∷ codes "crlf" ∷ codes "lf" ∷ codes "raw" ∷ []

abbrev pub framings : List Bytes
framings = codes "binary" ∷ codes "text" ∷ []

abbrev pub log_levels : List Bytes
log_levels = codes "DEBUG" ∷ codes "INFO" ∷ codes "WARNING" ∷ codes "ERROR" ∷ []

-- The checks behind that of the host, in the order of the source.
unfoldable pub checks : Config → Result Config
unfolding must_choice with_hotkey or_invalid
checks c = do
  (rc, rr) ← or_invalid (codes "resize") c.resize (parse_resize c.resize)
  let c' = record c { resize_cols = rc; resize_rows = rr; log_level = to_upper c.log_level }
  _ ← must_choice (codes "mode") c'.mode modes
  _ ← must_choice (codes "eol") c'.eol eols
  _ ← must_choice (codes "framing") c'.framing framings
  _ ← must_choice (codes "log-level") c'.log_level log_levels
  with_hotkey c'

abbrev pub host_is_required : Bytes
host_is_required =
    codes "host is required: set the IMSAI host name or IP via --host, the IMSAI_GW_HOST "
    ++ codes "env var, or 'host' in imsai-gw.toml (e.g. --host imsai8080 or --host 192.168.1.50)"

unfoldable pub validate : Config → Result Config
unfolding checks
validate c = if text_eq (trim_space c.host) [] then err host_is_required else checks c

unfoldable pub build_config : Floats → (Bytes → FileState) → EnvMap → Bytes → Flags → Result Config
unfolding config_path load_config_file layers validate
build_config fl fs env flag_config flags =
    let (path, required) = config_path flag_config env in
    do file ← load_config_file fs path required; validate (layers fl file env flags)
