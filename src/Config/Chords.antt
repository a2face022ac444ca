-- ===== src/Config/Chords.antt =====
-- gateway-go/config.go: the bytes of the hotkeys that `parseHotkey` documents.
use imsai_8080_esp_tty_gtw.Prelude.{
  text_eq, to_upper, trim_space, split_from, ℕ, ◌-◌, ◌%◌, Bool, true, not, ◌&&◌, ◌||◌, [], ◌∷◌,
  ◌++◌, ◌≡◌, arith, codes, leb, ◌==◌, if◌then◌else◌, is_space, ok,
}
use imsai_8080_esp_tty_gtw.Config.Hotkey.{parse_hotkey}

-- A key that a spec can name: neither the separator nor white space.
abbrev pub is_key : ℕ → Bool
is_key k = not (k == b'+' || is_space k)

-- The control byte of a key, a letter taken as a capital.
abbrev pub control_byte : ℕ → ℕ
control_byte k = (if leb b'a' k && leb k b'z' then k - 32 else k) % 32

-- What `parseHotkey` documents, for every key that can be named: Ctrl+key is one control byte,
-- Alt+key is ESC and the key, and Ctrl+Alt+key is ESC and the control byte.
pub parse_hotkey_chords :
    (k : ℕ)
    → is_key k ≡ true
    → (parse_hotkey (codes "Ctrl+" ++ k ∷ []) ≡ ok (control_byte k ∷ []))
      × (parse_hotkey (codes "Alt+" ++ k ∷ []) ≡ ok (0x1b ∷ k ∷ []))
      × (parse_hotkey (codes "Ctrl+Alt+" ++ k ∷ []) ≡ ok (0x1b ∷ control_byte k ∷ []))
unfolding parse_hotkey split_from trim_space to_upper text_eq
parse_hotkey_chords k h = (ground arith, ground arith, ground arith)
