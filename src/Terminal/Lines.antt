-- ===== src/Terminal/Lines.antt =====
-- gateway-go/terminal.go: every way in which a client ends a line comes to the configured one.
use imsai_8080_esp_tty_gtw.Prelude.{
  not, All, ℕ, Bool, true, false, ◌||◌, Bytes, List, [], ◌∷◌, ◌++◌, ◌≡◌, refl, arith, ◌==◌,
}
use imsai_8080_esp_tty_gtw.Terminal.Eol.{emit_eol, normalize_byte, normalize_from}

-- The four ways to end a line: Enter of a raw or Telnet client, and of a Unix terminal.
pub data Ending : Type 0 where
  cr lf cr_lf cr_nul : Ending

abbrev pub ending_bytes : Ending → Bytes
ending_bytes cr = 0x0d ∷ []
ending_bytes lf = 0x0a ∷ []
ending_bytes cr_lf = 0x0d ∷ 0x0a ∷ []
ending_bytes cr_nul = 0x0d ∷ 0x00 ∷ []

abbrev pub is_plain : ℕ → Bool
is_plain b = not (b == 0x0d || b == 0x0a || b == 0x00)

abbrev pub IsPlain : Bytes → Type 0
IsPlain = All (λ b. is_plain b ≡ true)

-- Lines as a client types them, and as the console is to get them.
abbrev pub typed : Ending → List Bytes → Bytes
typed e [] = []
typed e (l ∷ ls) = l ++ (ending_bytes e ++ typed e ls)

abbrev pub normalized : Bytes → List Bytes → Bytes
normalized eol [] = []
normalized eol (l ∷ ls) = l ++ (emit_eol eol ++ normalized eol ls)

-- The flag `lastCR` behind an ending.
abbrev after : Ending → Bool
after cr = true
after _ = false

abbrev after_plain : Bool → Bytes → Bool
after_plain c [] = c
after_plain c (_ ∷ _) = false

normalize_plain :
    (eol : Bytes) (c : Bool) (l rest : Bytes)
    → IsPlain l
    → (normalize_from eol c (l ++ rest)).1 ≡ l ++ (normalize_from eol (after_plain c l) rest).1
unfolding normalize_from normalize_byte
normalize_plain eol c [] rest h = refl
normalize_plain eol c (b ∷ []) rest h = ground arith
normalize_plain eol c (b ∷ d ∷ l) rest h =
    ground (arith, normalize_plain eol false (d ∷ l) rest h.1)

normalize_ending :
    (eol : Bytes) (c : Bool) (e : Ending) (rest : Bytes)
    → (e ≡ lf → c ≡ false)
    → (normalize_from eol c (ending_bytes e ++ rest)).1
      ≡ emit_eol eol ++ (normalize_from eol (after e) rest).1
unfolding normalize_from normalize_byte
normalize_ending eol c cr rest h = refl
normalize_ending eol c lf rest h = rw (h refl)
normalize_ending eol c cr_lf rest h = refl
normalize_ending eol c cr_nul rest h = refl

-- Lines of plain bytes, each ended in the same one of the four ways, reach the console as the same
-- lines ended by the configured end of line: one for each Enter, none lost and none doubled. The
-- flag may be set from an earlier read, except before lines that end in a bare LF.
pub normalize-typed :
    (eol : Bytes) (c : Bool) (e : Ending) (ls : List Bytes)
    → All IsPlain ls
    → (e ≡ lf → c ≡ false)
    → (normalize_from eol c (typed e ls)).1 ≡ normalized eol ls
normalize-typed eol c e [] h k = unfold normalize_from in refl
normalize-typed eol c e (l ∷ ls) h k = rw (
  normalize_plain eol c l (ending_bytes e ++ typed e ls) h.0,
  normalize_ending eol (after_plain c l) e (typed e ls) (after_lf l k),
  normalize-typed eol (after e) e ls h.1 (after_ending e),
)
  where
    after_lf : (l : Bytes) → (e ≡ lf → c ≡ false) → e ≡ lf → after_plain c l ≡ false
    after_lf [] k' p = k' p
    after_lf (_ ∷ _) k' p = refl

    after_ending : (e : Ending) → e ≡ lf → after e ≡ false
    after_ending cr p = cc
    after_ending lf p = refl
    after_ending cr_lf p = refl
    after_ending cr_nul p = refl
