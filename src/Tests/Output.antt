-- ===== src/Tests/Output.antt =====
-- The output filter on a short frame.
use imsai_8080_esp_tty_gtw.Prelude.{
  keep, true, false, Bytes, [], ◌∷◌, ◌++◌, ◌≡◌, refl, arith, codes,
}
use imsai_8080_esp_tty_gtw.Output.Filter.{out_byte, OutProc, process, new_out_proc}
use imsai_8080_esp_tty_gtw.Output.Streaming.{process_content, is_content}
use imsai_8080_esp_tty_gtw.Output.Width.{process-fits, fits, Tracks, IsText}
use imsai_8080_esp_tty_gtw.Tui.Ansi.{move_to}
use imsai_8080_esp_tty_gtw.Output.Cursor.{process-move_to}

abbrev narrow : OutProc
narrow = new_out_proc 4 true

abbrev line : Bytes
line = codes "ABCDEF" ++ 0x0a ∷ b'G' ∷ []

narrow_wraps :
    (process narrow line).1 ≡ codes "ABCD" ++ 0x0d ∷ 0x0a ∷ b'E' ∷ b'F' ∷ 0x0d ∷ 0x0a ∷ b'G' ∷ []
unfolding process out_byte new_out_proc
narrow_wraps = refl

process_content_example : keep is_content (process narrow line).1 ≡ keep is_content line
process_content_example = process_content narrow line

narrow-Tracks : Tracks 4 narrow
unfolding new_out_proc
narrow-Tracks = record {
  cols_is = refl;
  crlf_on = refl;
  no_esc = refl;
  no_csi = refl;
  col_pos = omega arith;
  col_le = omega arith;
}

line-IsText : IsText line
line-IsText = (refl, (refl, (refl, (refl, (refl, (refl, (refl, (refl, tt))))))))

process-fits_example : fits 4 narrow.col (process narrow line).1 ≡ true
process-fits_example =
    process-fits 4 narrow line (omega arith) (omega arith) line-IsText narrow-Tracks

abbrev short : Bytes
short = b'A' ∷ 0x0a ∷ b'B' ∷ []

process-move_to_example :
    (let (p', out) = process narrow (move_to 2 40) in
      (out ≡ move_to 2 40) × (p'.col ≡ 40) × (p'.in_esc ≡ false) × (p'.in_csi ≡ false))
unfolding new_out_proc
process-move_to_example = process-move_to narrow 2 40 refl refl (omega arith) (omega arith)
