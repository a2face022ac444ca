-- ===== src/Log.antt =====
-- gateway-go/main.go: the levels of the log.
pub mod Levels
use mathlib.Core.Option
use imsai_8080_esp_tty_gtw.Prelude.{
  ℕ, ◌||◌, Bytes, List, [], ◌∷◌, ◌++◌, Option, none, some, codes, leb, if◌then◌else◌, text_eq,
}

-- A map of the code is its entries.
abbrev pub log_order : List (Bytes × ℕ)
log_order = (codes "DEBUG", 0) ∷ (codes "INFO", 1) ∷ (codes "WARNING", 2) ∷ (codes "ERROR", 3) ∷ []

unfoldable pub level_in : List (Bytes × ℕ) → Bytes → Option ℕ
level_in [] level = none
level_in ((name, v) ∷ entries) level =
    let rest = level_in entries level in if text_eq name level then some v else rest

abbrev pub or_else : Option ℕ → ℕ → ℕ
or_else none d = d
or_else (some v) d = v

-- The new `curLogLevel`.
unfoldable pub set_log_level : ℕ → Bytes → ℕ
unfolding level_in
set_log_level cur level = or_else (level_in log_order level) cur

-- The line that is printed, behind its time; a missing key of the map gives 0.
unfoldable pub logf : ℕ → Bytes → Bytes → Option Bytes
unfolding level_in
logf cur level message =
    if leb cur (or_else (level_in log_order level) 0)
    then some (level ++ (codes " gateway " ++ message))
    else none
