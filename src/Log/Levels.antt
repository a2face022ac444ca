-- ===== src/Log/Levels.antt =====
-- gateway-go/main.go: which lines of the log are printed.
use imsai_8080_esp_tty_gtw.Prelude.{
  ap, sym, ℕ, zero, suc, Bytes, ◌++◌, Option, none, some, ◌≡◌, refl, sym, ap, codes, leb,
  if◌then◌else◌, get_elem?, text_eq,
}
use imsai_8080_esp_tty_gtw.Config.Build.{log_levels}
use imsai_8080_esp_tty_gtw.Log.{level_in, log_order, set_log_level, logf}

abbrev level_at : Option Bytes → Option ℕ
level_at none = none
level_at (some level) = level_in log_order level

level_in-log_levels :
    (i : ℕ) (level : Bytes)
    → get_elem? log_levels i ≡ some level
    → level_in log_order level ≡ some i
unfolding level_in text_eq
level_in-log_levels zero level e = sym (ap level_at e)
level_in-log_levels (suc zero) level e = sym (ap level_at e)
level_in-log_levels (suc (suc zero)) level e = sym (ap level_at e)
level_in-log_levels (suc (suc (suc zero))) level e = sym (ap level_at e)
level_in-log_levels (suc (suc (suc (suc i)))) level e = absurd cc

-- With the levels in the order of the settings: once the log is set to the `i`-th level, a message
-- of the `j`-th is printed exactly if it is that level or a later one, behind its level.
pub logf-set_log_level :
    (cur i j : ℕ) (set level message : Bytes)
    → get_elem? log_levels i ≡ some set
    → get_elem? log_levels j ≡ some level
    → logf (set_log_level cur set) level message
      ≡ (if leb i j then some (level ++ (codes " gateway " ++ message)) else none)
unfolding logf set_log_level
logf-set_log_level cur i j set level message e f =
    rw (level_in-log_levels i set e, level_in-log_levels j level f) refl
