-- ===== src/Terminal/Eol.antt =====
-- gateway-go/terminal.go: `normalizeEOL` and `emitEOL`.
use imsai_8080_esp_tty_gtw.Prelude.{
  ℕ, Bool, true, false, Bytes, [], ◌∷◌, ◌++◌, ◌==◌, if◌then◌else◌, text_eq, codes,
}
use imsai_8080_esp_tty_gtw.Terminal.Input.{TerminalInput, raw_text}

-- What `emitEOL` appends.
unfoldable pub emit_eol : Bytes → Bytes
emit_eol eol =
    if text_eq eol (codes "cr")
    then 0x0d ∷ []
    else if text_eq eol (codes "crlf")
    then 0x0d ∷ 0x0a ∷ []
    else if text_eq eol (codes "lf")
    then 0x0a ∷ []
    else []

-- One turn of the loop, on the setting `eol` and the flag `lastCR`: the new flag, and what is
-- appended to `out`.
unfoldable pub normalize_byte : Bytes → Bool → ℕ → Bool × Bytes
normalize_byte eol last_cr b =
    if b == 0x0d
    then (true, emit_eol eol)
    else if b == 0x0a
    then (false, if last_cr then [] else emit_eol eol)
    else if b == 0x00
    then (false, [])
    else (false, b ∷ [])

unfoldable pub normalize_from : Bytes → Bool → Bytes → Bool × Bytes
normalize_from eol last_cr [] = (last_cr, [])
normalize_from eol last_cr (b ∷ bs) =
    let (cr, out) = normalize_byte eol last_cr b in
    let (cr', rest) = normalize_from eol cr bs in (cr', out ++ rest)

unfoldable pub normalize_eol : TerminalInput → Bytes → TerminalInput × Bytes
normalize_eol t bytes =
    if text_eq t.eol raw_text
    then (t, bytes)
    else let (cr, out) = normalize_from t.eol t.last_cr bytes in (record t { last_cr = cr }, out)
