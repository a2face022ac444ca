-- ===== src/Tui/Keys.antt =====
-- gateway-go/tui.go: `keyDecoder`. The numbers 0, 1, 2 of its state are constructors.
use imsai_8080_esp_tty_gtw.Prelude.{
  ℕ, ◌&&◌, ◌||◌, Bytes, List, [], ◌∷◌, ◌++◌, codes, leb, text_eq, ◌==◌, if◌then◌else◌,
}

pub data Key : Type 0 where
  k_char : ℕ → Key
  k_enter : Key
  k_esc : Key
  k_up : Key
  k_down : Key
  k_left : Key
  k_right : Key
  k_page_up : Key
  k_page_down : Key

pub data EscState : Type 0 where
  no_esc : EscState
  saw_esc : EscState
  saw_intro : EscState

pub record KeyDecoder : Type 0 where
  pub esc : EscState
  pub param : Bytes

abbrev pub new_decoder : KeyDecoder
new_decoder = record { esc = no_esc; param = [] }

abbrev pub emit_plain : ℕ → Key
emit_plain b = if b == 13 || b == 10 then k_enter else k_char b

abbrev pub tilde_key : Bytes → List Key
tilde_key param =
    if text_eq param (codes "5")
    then k_page_up ∷ []
    else if text_eq param (codes "6")
    then k_page_down ∷ []
    else []

abbrev pub after_esc : KeyDecoder → ℕ → KeyDecoder × List Key
after_esc d b =
    if b == b'[' || b == b'O'
    then (record { esc = saw_intro; param = [] }, [])
    else if b == 0x1b
    then (record d { esc = saw_esc }, k_esc ∷ [])
    else (record d { esc = no_esc }, k_esc ∷ emit_plain b ∷ [])

abbrev pub in_sequence : KeyDecoder → ℕ → KeyDecoder × List Key
in_sequence d b =
    let over = record d { esc = no_esc } in
    if b == b'A'
    then (over, k_up ∷ [])
    else if b == b'B'
    then (over, k_down ∷ [])
    else if b == b'C'
    then (over, k_right ∷ [])
    else if b == b'D'
    then (over, k_left ∷ [])
    else if b == b'~'
    then (over, tilde_key d.param)
    else if leb b'0' b && leb b b'9'
    then (record d { param = d.param ++ b ∷ [] }, [])
    else if b == b';'
    then (d, [])
    else (over, [])

unfoldable pub key_byte : KeyDecoder → ℕ → KeyDecoder × List Key
key_byte d b = elim d.esc [
  | no_esc ↦ if b == 0x1b then (record d { esc = saw_esc }, []) else (d, emit_plain b ∷ [])
  | saw_esc ↦ after_esc d b
  | saw_intro ↦ in_sequence d b
]

unfoldable pub key_bytes : KeyDecoder → Bytes → KeyDecoder × List Key
key_bytes d [] = (d, [])
key_bytes d (b ∷ bs) =
    let (d', keys) = key_byte d b in let (d'', rest) = key_bytes d' bs in (d'', keys ++ rest)

-- An ESC at the end of the read is the Esc key.
abbrev pub end_read : KeyDecoder × List Key → KeyDecoder × List Key
end_read (d, keys) = elim d.esc [
  | saw_esc ↦ (record d { esc = no_esc }, keys ++ k_esc ∷ [])
  | no_esc ↦ (d, keys)
  | saw_intro ↦ (d, keys)
]

unfoldable pub decode : KeyDecoder → Bytes → KeyDecoder × List Key
decode d bytes = end_read (key_bytes d bytes)
