-- ===== src/Output/Width.antt =====
-- gateway-go/outwrap.go: the wrapped output on a terminal of any greater width.
use imsai_8080_esp_tty_gtw.Prelude.{
  ◌∙◌, All, ℕ, ◌+◌, ◌≤◌, ◌<◌, Bool, true, false, not, ◌&&◌, ◌||◌, Bytes, [], ◌∷◌, ◌++◌, ◌≡◌, refl,
  arith, ◌==◌, leb, if◌then◌else◌,
}
use imsai_8080_esp_tty_gtw.Word.{int_half}
use imsai_8080_esp_tty_gtw.Output.Filter.{OutProc, out_byte, process}

-- A terminal that never wraps: CR goes to column 1, a printable byte one column on, nothing else
-- (LF included) moves the cursor in its row.
abbrev pub cursor : ℕ → ℕ → ℕ
cursor k b = if b == 0x0d then 1 else if leb 0x20 b then k + 1 else k

-- Every printable byte lands in one of the first `n` columns.
abbrev pub fits : ℕ → ℕ → Bytes → Bool
fits n k [] = true
fits n k (b ∷ bs) =
    let rest = fits n (cursor k b) bs in (if leb 0x20 b then leb k n else true) && rest

-- Text with no cursor control but CR and LF: no ESC, no backspace, no tab.
abbrev pub is_text : ℕ → Bool
is_text b = not (b == 0x1b || b == 0x08 || b == 0x09)

abbrev pub IsText : Bytes → Type 0
IsText = All (λ b. is_text b ≡ true)

-- The filter converts line ends, wraps at a positive width `n`, is between escape sequences, and
-- knows the column, which is at most one past the width.
pub record Tracks (n : ℕ) (p : OutProc) : Type 0 where
  pub cols_is : p.cols ≡ n
  pub crlf_on : p.crlf ≡ true
  pub no_esc : p.in_esc ≡ false
  pub no_csi : p.in_csi ≡ false
  pub col_pos : 0 < p.col
  pub col_le : p.col ≤ n + 1

out_byte-Tracks :
    (n : ℕ) (p : OutProc) (b : ℕ)
    → 0 < n
    → n + 1 < int_half
    → is_text b ≡ true
    → Tracks n p
    → Tracks n (out_byte p b).0
unfolding out_byte
out_byte-Tracks n p b pos small t h = ground arith

out_byte-fits :
    (n : ℕ) (p : OutProc) (b : ℕ) (rest : Bytes)
    → 0 < n
    → n + 1 < int_half
    → is_text b ≡ true
    → Tracks n p
    → fits n p.col ((out_byte p b).1 ++ rest) ≡ fits n (out_byte p b).0.col rest
unfolding out_byte
out_byte-fits n p b rest pos small t h = ground arith

-- Text without ESC, backspace and tab, through a filter that converts the ends of line, wraps at a
-- positive column `n` with `n + 1` below 2 ^ 63, stands outside escape sequences and knows the
-- column, which is at least 1 and at most `n + 1`: no character lands past column `n` on a terminal
-- of any greater width, where LF leaves the column as it is.
pub process-fits :
    (n : ℕ) (p : OutProc) (bs : Bytes)
    → 0 < n
    → n + 1 < int_half
    → IsText bs
    → Tracks n p
    → fits n p.col (process p bs).1 ≡ true
unfolding process
process-fits n p [] pos small t h = refl
process-fits n p (b ∷ bs) pos small t h =
    out_byte-fits n p b (process (out_byte p b).0 bs).1 pos small t.0 h
    ∙ process-fits n (out_byte p b).0 bs pos small t.1 (out_byte-Tracks n p b pos small t.0 h)

-- ONLCR alone.
abbrev pub onlcr_byte : ℕ → Bytes
onlcr_byte b = if b == 0x0a then 0x0d ∷ 0x0a ∷ [] else b ∷ []

abbrev pub onlcr : Bytes → Bytes
onlcr [] = []
onlcr (b ∷ bs) = onlcr_byte b ++ onlcr bs

out_byte-onlcr :
    (n : ℕ) (p : OutProc) (b : ℕ) (rest : Bytes)
    → 0 < n
    → n + 1 < int_half
    → is_text b ≡ true
    → Tracks n p
    → fits n p.col (onlcr_byte b ++ rest) ≡ true
    → ((out_byte p b).1 ≡ onlcr_byte b) × (fits n (out_byte p b).0.col rest ≡ true)
unfolding out_byte
out_byte-onlcr n p b rest pos small t h f = ground arith

-- Text whose lines already fit in `n` columns is not wrapped: its line ends are converted and
-- nothing else changes.
pub process-onlcr :
    (n : ℕ) (p : OutProc) (bs : Bytes)
    → 0 < n
    → n + 1 < int_half
    → IsText bs
    → Tracks n p
    → fits n p.col (onlcr bs) ≡ true
    → (process p bs).1 ≡ onlcr bs
unfolding process
process-onlcr n p [] pos small t h f = refl
process-onlcr n p (b ∷ bs) pos small t h f =
    let s = out_byte-onlcr n p b (onlcr bs) pos small t.0 h f in
    rw (
      s.0,
      process-onlcr n (out_byte p b).0 bs pos small t.1 (out_byte-Tracks n p b pos small t.0 h) s.1,
    )
