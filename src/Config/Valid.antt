-- ===== src/Config/Valid.antt =====
-- gateway-go/config.go: what holds of every configuration that the gateway starts with.
use imsai_8080_esp_tty_gtw.Prelude.{
  codes, to_upper, some, none, text_eq_iff, split, ok-injective, text_eq, sym, trim_space, ok-bind,
  Bool-cases, to_lower, Result, Option, ℕ, Bool, true, false, Bytes, List, [], ◌∷◌, ◌≡◌, refl, ◌⊎◌,
  inl, inr, arith, ok, err,
}
use imsai_8080_esp_tty_gtw.Config.Settings.{Config}
use imsai_8080_esp_tty_gtw.Config.Parse.{is_off, checked, atoi, two_parts, parse_resize}
use imsai_8080_esp_tty_gtw.Config.Build.{
  hotkey_if, or_invalid, checks, log_levels, framings, eols, modes, must_choice, is_choice,
  validate,
}
use imsai_8080_esp_tty_gtw.Config.Hotkey.{read_parts, Modifiers, parse_hotkey, hotkey_of}
use imsai_8080_esp_tty_gtw.Word.{is_pos}

abbrev pub OneOf : Bytes → List Bytes → Type 0
OneOf v [] = ⊥
OneOf v (c ∷ cs) = (v ≡ c) ⊎ OneOf v cs

is_choice-OneOf : (v : Bytes) (cs : List Bytes) → is_choice v cs ≡ true → OneOf v cs
unfolding is_choice
is_choice-OneOf v [] h = cc
is_choice-OneOf v (c ∷ cs) h = elim (Bool-cases (text_eq v c)) [
  | inl e ↦ inl ((text_eq_iff v c).0 e)
  | inr e ↦ inr (is_choice-OneOf v cs (rw e at h))
]

must_choice-OneOf :
    (name v : Bytes) (cs : List Bytes) {u : Unit {0}} → must_choice name v cs ≡ ok u → OneOf v cs
unfolding must_choice
must_choice-OneOf name v cs h = is_choice-OneOf v cs (ground arith)

abbrev IsGeometry : ℕ → ℕ → Type 0
IsGeometry c r = ((c ≡ 0) × (r ≡ 0)) ⊎ ((is_pos c ≡ true) × (is_pos r ≡ true))

checked-IsGeometry :
    (spec : Bytes) (c r : Option ℕ) (g : ℕ × ℕ) → checked spec c r ≡ ok g → IsGeometry g.0 g.1
checked-IsGeometry spec (some c) (some r) g h = ground arith
checked-IsGeometry spec (some c) none g h = cc
checked-IsGeometry spec none r g h = cc

two_parts-IsGeometry :
    (spec : Bytes) (parts : List Bytes) (g : ℕ × ℕ)
    → two_parts spec parts ≡ ok g
    → IsGeometry g.0 g.1
two_parts-IsGeometry spec [] g h = cc
two_parts-IsGeometry spec (a ∷ []) g h = cc
two_parts-IsGeometry spec (a ∷ b ∷ []) g h =
    checked-IsGeometry spec (atoi (trim_space a)) (atoi (trim_space b)) g h
two_parts-IsGeometry spec (a ∷ b ∷ c ∷ cs) g h = cc

pub parse_resize-IsGeometry :
    (spec : Bytes) (g : ℕ × ℕ) → parse_resize spec ≡ ok g → IsGeometry g.0 g.1
unfolding parse_resize
parse_resize-IsGeometry spec g h =
    let s = to_lower (trim_space spec) in
    elim (Bool-cases (is_off s)) [
      | inl e ↦ off (rw e at h)
      | inr e ↦ two_parts-IsGeometry spec (split b'x' s) g (rw e at h)
    ]
  where
    off : ok (0, 0) ≡ ok g → IsGeometry g.0 g.1
    off e = ground arith

-- One byte, or ESC and one byte.
abbrev pub IsHotkey : Bytes → Type 0
IsHotkey hk = ((b : ℕ) × (hk ≡ b ∷ [])) ⊎ ((b : ℕ) × (hk ≡ 0x1b ∷ b ∷ []))

hotkey_of-IsHotkey : (m : Modifiers) (key hk : Bytes) → hotkey_of m key ≡ ok hk → IsHotkey hk
unfolding hotkey_of
hotkey_of-IsHotkey m [] hk h = cc
hotkey_of-IsHotkey m (a ∷ b ∷ key) hk h = cc
hotkey_of-IsHotkey m (a ∷ []) hk h = elim (Bool-cases m.alt) [
  | inl e ↦ inr (_, sym (ok-injective (rw e at h)))
  | inr e ↦ inl (_, sym (ok-injective (rw e at h)))
]

pub parse_hotkey-IsHotkey : (spec hk : Bytes) → parse_hotkey spec ≡ ok hk → IsHotkey hk
unfolding parse_hotkey
parse_hotkey-IsHotkey spec hk h =
    let ((m, key), parts, made) = ok-bind (read_parts _ (split b'+' spec)) _ h in
    hotkey_of-IsHotkey m key hk made

-- What the checks of `buildConfig` make of the settings `c`.
pub record IsAccepted (c c' : Config) : Type 0 where
  pub host_given : text_eq (trim_space c'.host) [] ≡ false
  pub mode_known : OneOf c'.mode modes
  pub eol_known : OneOf c'.eol eols
  pub framing_known : OneOf c'.framing framings
  pub log_level_known : OneOf c'.log_level log_levels
  pub geometry : IsGeometry c'.resize_cols c'.resize_rows
  pub hotkey_fits :
      ((c.tui ≡ true) × IsHotkey c'.hotkey_bytes)
      ⊎ ((c.tui ≡ false) × (c'.hotkey_bytes ≡ c.hotkey_bytes))
  pub rest_same : c' ≡ record c {
    resize_cols = c'.resize_cols;
    resize_rows = c'.resize_rows;
    log_level = to_upper c.log_level;
    hotkey_bytes = c'.hotkey_bytes;
  }

or_invalid-ok :
    {A : Type 0} (name v : Bytes) (r : Result A) {a : A} → or_invalid name v r ≡ ok a → r ≡ ok a
unfolding or_invalid
or_invalid-ok name v (ok b) e = e
or_invalid-ok name v (err why) e = cc

hotkey_if_cases :
    (b : Bool) (c c' : Config)
    → hotkey_if b c ≡ ok c'
    → (((b ≡ true) × IsHotkey c'.hotkey_bytes) ⊎ ((b ≡ false) × (c'.hotkey_bytes ≡ c.hotkey_bytes)))
      × (c' ≡ record c { hotkey_bytes = c'.hotkey_bytes })
hotkey_if_cases false c c' h =
    let q : c' ≡ c = sym (ok-injective h) in rw q (inr (refl, refl), refl)
hotkey_if_cases true c c' h =
    let (hb, p', q) = ok-bind (or_invalid (codes "hotkey") c.hotkey (parse_hotkey c.hotkey)) _ h in
    let p = or_invalid-ok (codes "hotkey") c.hotkey (parse_hotkey c.hotkey) p' in
    let q' : c' ≡ record c { hotkey_bytes = hb } = sym (ok-injective q) in
    rw q' (inl (refl, parse_hotkey-IsHotkey c.hotkey hb p), refl)

checks-IsAccepted :
    (c c' : Config) → text_eq (trim_space c.host) [] ≡ false → checks c ≡ ok c' → IsAccepted c c'
unfolding checks
checks-IsAccepted c c' host h =
    let ((rc, rr), sized, h1) =
      ok-bind (or_invalid (codes "resize") c.resize (parse_resize c.resize)) _ h in
    let size = or_invalid-ok (codes "resize") c.resize (parse_resize c.resize) sized in
    let c1 = record c { resize_cols = rc; resize_rows = rr; log_level = to_upper c.log_level } in
    let (_, mode, h2) = ok-bind (must_choice (codes "mode") c.mode modes) _ h1 in
    let (_, eol, h3) = ok-bind (must_choice (codes "eol") c.eol eols) _ h2 in
    let (_, framing, h4) = ok-bind (must_choice (codes "framing") c.framing framings) _ h3 in
    let (_, level, h5) =
      ok-bind (must_choice (codes "log-level") (to_upper c.log_level) log_levels) _ h4 in
    let (fits, same) = hotkey_if_cases c.tui c1 c' h5 in
    rw same (record {
      host_given = host;
      mode_known = must_choice-OneOf (codes "mode") c.mode modes mode;
      eol_known = must_choice-OneOf (codes "eol") c.eol eols eol;
      framing_known = must_choice-OneOf (codes "framing") c.framing framings framing;
      log_level_known =
          must_choice-OneOf (codes "log-level") (to_upper c.log_level) log_levels level;
      geometry = parse_resize-IsGeometry c.resize (rc, rr) size;
      hotkey_fits = fits;
      rest_same = refl;
    })

-- Settings that pass the checks have a host that is not blank, one of the known modes, ends of
-- line, framings and log levels, the latter in upper case, a window geometry that is off or
-- positive both ways, and a hotkey of one byte or ESC and one byte if the panel is on, else the
-- one they had; every other setting is unchanged.
pub validate-IsAccepted : (c c' : Config) → validate c ≡ ok c' → IsAccepted c c'
unfolding validate
validate-IsAccepted c c' h = elim (Bool-cases (text_eq (trim_space c.host) [])) [
  | inl e ↦ absurd (refused (rw e at h))
  | inr e ↦ checks-IsAccepted c c' e (rw e at h)
]
  where
    refused : {m : Bytes} → err m ≡ ok c' → ⊥
    refused r = cc
