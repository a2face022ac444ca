-- ===== src/Config/Hotkey.antt =====
-- gateway-go/config.go: `parseHotkey`. `strings.Split` gives at least one part, the last is the key.
use imsai_8080_esp_tty_gtw.Prelude.{
  ℕ, ◌-◌, ◌+◌, ◌%◌, Bool, true, false, ◌&&◌, ◌||◌, Bytes, List, [], ◌∷◌, ◌++◌, codes, leb,
  if◌then◌else◌, text_eq, to_upper, trim_space, split, Result, ok, err, ◌>>=◌,
}
use imsai_8080_esp_tty_gtw.Config.Parse.{quoted}

pub record Modifiers : Type 0 where
  pub ctrl : Bool
  pub alt : Bool
  pub shift : Bool

-- The switch on one modifier.
unfoldable pub add_modifier : Bytes → Modifiers → Result Modifiers
add_modifier t m =
    let u = to_upper t in
    if text_eq u (codes "CTRL") || text_eq u (codes "CONTROL") || text_eq u (codes "C")
    then ok (record m { ctrl = true })
    else if text_eq u (codes "ALT") || text_eq u (codes "META") || text_eq u (codes "OPTION")
    then ok (record m { alt = true })
    else if text_eq u (codes "SHIFT")
    then ok (record m { shift = true })
    else err (codes "unknown modifier " ++ quoted t)

-- The loop over the parts.
unfoldable pub read_parts : Modifiers → List Bytes → Result (Modifiers × Bytes)
unfolding add_modifier
read_parts m [] = ok (m, [])
read_parts m (p ∷ []) = ok (m, trim_space p)
read_parts m (p ∷ q ∷ ps) = do m' ← add_modifier (trim_space p) m; read_parts m' (q ∷ ps)

upper_case : Modifiers → ℕ → ℕ
upper_case m ch =
    if (m.shift || m.ctrl) && (leb b'a' ch && leb ch b'z') then ch - b'a' + b'A' else ch

-- `ch &= 0x1F` is `ch % 32`.
control : Modifiers → ℕ → ℕ
control m ch = if m.ctrl then ch % 32 else ch

unfoldable pub hotkey_of : Modifiers → Bytes → Result Bytes
unfolding upper_case control
hotkey_of m (k ∷ []) =
    let ch = control m (upper_case m k) in ok (if m.alt then 0x1b ∷ ch ∷ [] else ch ∷ [])
hotkey_of m key = err (codes "key must be a single character, got " ++ quoted key)

unfoldable pub parse_hotkey : Bytes → Result Bytes
unfolding read_parts hotkey_of
parse_hotkey spec = do
  (m, key) ← read_parts (record { ctrl = false; alt = false; shift = false }) (split b'+' spec)
  hotkey_of m key
