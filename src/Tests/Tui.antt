-- ===== src/Tests/Tui.antt =====
-- Keys in one read and in two.
use imsai_8080_esp_tty_gtw.Prelude.{Bytes, List, [], ◌∷◌, ◌++◌, codes, ◌≡◌, refl}
use imsai_8080_esp_tty_gtw.Tui.Keys.{
  Key, k_char, k_enter, k_esc, k_up, k_page_down, new_decoder, key_byte, key_bytes, decode,
}
use imsai_8080_esp_tty_gtw.Tui.Typing.{typed, between, decode-typed, decode-append}

abbrev some_keys : List Key
some_keys = k_up ∷ k_char b'q' ∷ k_page_down ∷ k_enter ∷ []

decode-typed_example :
    (p' : Bytes) × (decode (between []) (typed some_keys) ≡ (between p', some_keys))
decode-typed_example = decode-typed [] some_keys (refl, (refl, (refl, (refl, tt))))

decode-append_example : decode new_decoder ((0x1b ∷ codes "[") ++ codes "A") ≡ (
    let (d', keys) = decode new_decoder (0x1b ∷ codes "[") in
    let (d'', rest) = decode d' (codes "A") in (d'', keys ++ rest))
unfolding key_bytes key_byte
decode-append_example = decode-append new_decoder (0x1b ∷ codes "[") (codes "A") (λ e. cc)

-- An arrow key cut right behind its ESC is three keys.
cut_behind_esc :
    (decode new_decoder (0x1b ∷ [])).1 ++ (decode (decode new_decoder (0x1b ∷ [])).0 (codes "[A")).1
    ≡ k_esc ∷ k_char b'[' ∷ k_char b'A' ∷ []
unfolding decode key_bytes key_byte
cut_behind_esc = refl
