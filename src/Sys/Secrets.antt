-- ===== src/Sys/Secrets.antt =====
-- gateway-go/sys.go: passwords are not shown.
use mathlib.Core.Path.{ap₂}
use imsai_8080_esp_tty_gtw.Prelude.{
  ◌⊎◌, Bool-cases, inl, inr, Bytes, List, [], ◌∷◌, ◌≡◌, refl, sym, ap, ◌∙◌, if◌then◌else◌, map,
  text_lt, insert_on, sort_on, codes,
}
use imsai_8080_esp_tty_gtw.Sys.Passwords.{IsPassword, is_secret-IsPassword}
use imsai_8080_esp_tty_gtw.Device.Info.{SysInfo}
use imsai_8080_esp_tty_gtw.Sys.Format.{
  is_secret, env_line, env_lines, format_sys_info, section, open_lines,
}

-- A variable without its value, if that is a password.
abbrev pub hide : Bytes × Bytes → Bytes × Bytes
hide (k, v) = (k, if is_secret k then [] else v)

abbrev key : Bytes × Bytes → Bytes
key e = e.0

insert_on-hide :
    (e : Bytes × Bytes) (es : List (Bytes × Bytes))
    → map hide (insert_on key e es) ≡ insert_on key (hide e) (map hide es)
unfolding insert_on
insert_on-hide e [] = refl
insert_on-hide e (x ∷ es) = elim (Bool-cases (text_lt (key x) (key e))) [
  | inl h ↦ rw (h, insert_on-hide e es) refl
  | inr h ↦ rw h refl
]

sort_on-hide : (es : List (Bytes × Bytes)) → map hide (sort_on key es) ≡ sort_on key (map hide es)
unfolding sort_on
sort_on-hide [] = refl
sort_on-hide (e ∷ es) =
    insert_on-hide e (sort_on key es) ∙ ap (insert_on key (hide e)) (sort_on-hide es)

env_line-hide : (e : Bytes × Bytes) → env_line (hide e) ≡ env_line e
env_line-hide (k, v) = elim (Bool-cases (is_secret k)) [ inl h ↦ rw h refl | inr h ↦ rw h refl ]

map-env_line-hide : (es : List (Bytes × Bytes)) → map env_line (map hide es) ≡ map env_line es
map-env_line-hide [] = refl
map-env_line-hide (e ∷ es) = rw (env_line-hide e, map-env_line-hide es) refl

env_lines-hide : (es : List (Bytes × Bytes)) → env_lines (map hide es) ≡ env_lines es
unfolding env_lines
env_lines-hide es = ap (map env_line) (sym (sort_on-hide es)) ∙ map-env_line-hide (sort_on key es)

-- Two environments that are the same but for the values of passwords.
abbrev pub AreAlike : List (Bytes × Bytes) → List (Bytes × Bytes) → Type 0
AreAlike [] [] = Unit
AreAlike [] (e' ∷ es') = ⊥
AreAlike (e ∷ es) [] = ⊥
AreAlike ((k, v) ∷ es) ((k', v') ∷ es') = (k ≡ k') × ((v ≡ v') ⊎ IsPassword k) × AreAlike es es'

hide-alike : (k v k' v' : Bytes) → k ≡ k' → (v ≡ v') ⊎ IsPassword k → hide (k, v) ≡ hide (k', v')
hide-alike k v k' v' same (inl value) = ap₂ (λ (n w : Bytes). hide (n, w)) same value
hide-alike k v k' v' same (inr password) =
    let secret = is_secret-IsPassword k password in
    masked v ∙ sym (masked v') ∙ ap (λ (n : Bytes). hide (n, v')) same
  where
    masked : (w : Bytes) → hide (k, w) ≡ (k, [])
    masked w = rw (is_secret-IsPassword k password) refl

map-hide : (es es' : List (Bytes × Bytes)) → AreAlike es es' → map hide es ≡ map hide es'
map-hide [] [] alike = refl
map-hide [] (e' ∷ es') alike = absurd alike
map-hide (e ∷ es) [] alike = absurd alike
map-hide ((k, v) ∷ es) ((k', v') ∷ es') (name, value, rest) =
    ap₂ (λ (x : Bytes × Bytes) (xs : List (Bytes × Bytes)). x ∷ xs)
      (hide-alike k v k' v' name value) (map-hide es es' rest)

-- The system pane says nothing of a password: environments that are the same but for the values of
-- variables with PASSWORD in their names, in any case, give the same lines.
pub format_sys_info_hides :
    (si : SysInfo) (env' : List (Bytes × Bytes))
    → AreAlike si.env env'
    → format_sys_info si ≡ format_sys_info (record si { env = env' })
unfolding format_sys_info
format_sys_info_hides si env' alike =
    let same = map-hide si.env env' alike in
    ap (section (open_lines si) (codes "Config (env)"))
      (sym (env_lines-hide si.env) ∙ ap env_lines same ∙ env_lines-hide env')
