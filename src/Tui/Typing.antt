-- ===== src/Tui/Typing.antt =====
-- gateway-go/tui.go: keys sent as their sequences are the keys that `keyDecoder` finds.
use imsai_8080_esp_tty_gtw.Prelude.{
  Bool, true, false, not, ◌||◌, Bytes, List, [], ◌∷◌, ◌++◌, codes, text_eq, ◌==◌, ◌≡◌, ◌≢◌, refl,
  ap, arith, append_assoc, All,
}
use imsai_8080_esp_tty_gtw.Tui.Keys.{
  Key, k_char, k_enter, k_esc, k_up, k_down, k_left, k_right, k_page_up, k_page_down, EscState,
  no_esc, saw_esc, saw_intro, KeyDecoder, key_byte, key_bytes, end_read, decode,
}

-- What a terminal sends for a key: `is_plain` leaves out Esc, and characters that are keys of their own.
abbrev pub is_plain : Key → Bool
is_plain (k_char b) = not (b == 0x1b || b == 13 || b == 10)
is_plain k_esc = false
is_plain _ = true

abbrev pub sequence : Key → Bytes
sequence (k_char b) = b ∷ []
sequence k_enter = 13 ∷ []
sequence k_esc = 0x1b ∷ []
sequence k_up = 0x1b ∷ codes "[A"
sequence k_down = 0x1b ∷ codes "[B"
sequence k_right = 0x1b ∷ codes "[C"
sequence k_left = 0x1b ∷ codes "[D"
sequence k_page_up = 0x1b ∷ codes "[5~"
sequence k_page_down = 0x1b ∷ codes "[6~"

abbrev pub typed : List Key → Bytes
typed [] = []
typed (k ∷ ks) = sequence k ++ typed ks

key_bytes-append :
    (d : KeyDecoder) (xs ys : Bytes)
    → key_bytes d (xs ++ ys) ≡ (
        let (d', keys) = key_bytes d xs in let (d'', rest) = key_bytes d' ys in (d'', keys ++ rest))
unfolding key_bytes
key_bytes-append d [] ys = refl
key_bytes-append d (x ∷ xs) ys = rw (key_bytes-append (key_byte d x).0 xs ys) (simp append_assoc)

abbrev pub between : Bytes → KeyDecoder
between p = record { esc = no_esc; param = p }

-- A key is found, and the decoder is between keys again.
key_bytes-sequence :
    (p : Bytes) (k : Key)
    → is_plain k ≡ true
    → (p' : Bytes) × (key_bytes (between p) (sequence k) ≡ (between p', k ∷ []))
unfolding key_bytes key_byte text_eq
key_bytes-sequence p (k_char b) h = (p, ground arith)
key_bytes-sequence p k_enter h = (p, refl)
key_bytes-sequence p k_esc h = cc
key_bytes-sequence p k_up h = ([], refl)
key_bytes-sequence p k_down h = ([], refl)
key_bytes-sequence p k_left h = ([], refl)
key_bytes-sequence p k_right h = ([], refl)
key_bytes-sequence p k_page_up h = (codes "5", refl)
key_bytes-sequence p k_page_down h = (codes "6", refl)

key_bytes-typed :
    (p : Bytes) (ks : List Key)
    → All (λ k. is_plain k ≡ true) ks
    → (p' : Bytes) × (key_bytes (between p) (typed ks) ≡ (between p', ks))
unfolding key_bytes
key_bytes-typed p [] h = (p, refl)
key_bytes-typed p (k ∷ ks) (h, hs) =
    let (p1, e1) = key_bytes-sequence p k h in
    let (p2, e2) = key_bytes-typed p1 ks hs in
    (p2, rw (key_bytes-append (between p) (sequence k) (typed ks), e1, e2) refl)

-- Keys other than Esc, and characters that are no key of their own, sent one after the other as the
-- sequences of a terminal in one read, are found as they are, and the decoder is ready for more.
pub decode-typed :
    (p : Bytes) (ks : List Key)
    → All (λ k. is_plain k ≡ true) ks
    → (p' : Bytes) × (decode (between p) (typed ks) ≡ (between p', ks))
unfolding decode
decode-typed p ks h = let (p', e) = key_bytes-typed p ks h in (p', ap end_read e)

end_read_uncut :
    (e : EscState) (p : Bytes) (keys : List Key)
    → e ≢ saw_esc
    → end_read (record { esc = e; param = p }, keys) ≡ (record { esc = e; param = p }, keys)
end_read_uncut no_esc p keys n = refl
end_read_uncut saw_esc p keys n = absurd (n refl)
end_read_uncut saw_intro p keys n = refl

end_read-append :
    (e : EscState) (p : Bytes) (keys rest : List Key)
    → end_read (record { esc = e; param = p }, keys ++ rest)
      ≡ (let (d, more) = end_read (record { esc = e; param = p }, rest) in (d, keys ++ more))
end_read-append no_esc p keys rest = refl
end_read-append saw_esc p keys rest = rw (append_assoc keys rest (k_esc ∷ [])) refl
end_read-append saw_intro p keys rest = refl

-- A read may end inside of a sequence, but not behind its ESC: where the decoder has not just seen
-- an ESC, two reads give the keys that the bytes give in one.
pub decode-append :
    (d : KeyDecoder) (xs ys : Bytes)
    → (key_bytes d xs).0.esc ≢ saw_esc
    → decode d (xs ++ ys)
      ≡ (let (d', keys) = decode d xs in let (d'', rest) = decode d' ys in (d'', keys ++ rest))
unfolding decode
decode-append d xs ys h =
    let (d1, keys) = key_bytes d xs in
    let (d2, rest) = key_bytes d1 ys in
    rw (key_bytes-append d xs ys, end_read_uncut d1.esc d1.param keys h)
      (end_read-append d2.esc d2.param keys rest)
