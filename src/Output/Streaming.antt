-- ===== src/Output/Streaming.antt =====
-- gateway-go/outwrap.go: the output may come in frames of any size, and nothing in it is lost.
use imsai_8080_esp_tty_gtw.Prelude.{
  sym, ℕ, Bool, not, ◌||◌, Bytes, [], ◌∷◌, ◌++◌, ◌≡◌, refl, arith, append_assoc, ◌==◌, keep,
  keep-append,
}
use imsai_8080_esp_tty_gtw.Output.Filter.{OutProc, out_byte, process}

-- Two frames one after the other give what the joined frame gives.
pub process_frames_append :
    (p : OutProc) (xs ys : Bytes)
    → process p (xs ++ ys)
      ≡ (let (p', out) = process p xs in let (p'', rest) = process p' ys in (p'', out ++ rest))
unfolding process
process_frames_append p [] ys = refl
process_frames_append p (x ∷ xs) ys =
    rw (process_frames_append (out_byte p x).0 xs ys) (simp append_assoc)

-- All bytes but CR and LF.
abbrev pub is_content : ℕ → Bool
is_content b = not (b == 0x0d || b == 0x0a)

out_byte_content :
    (p : OutProc) (b : ℕ) → keep is_content (out_byte p b).1 ≡ keep is_content (b ∷ [])
unfolding out_byte
out_byte_content p b = ground arith

-- The filter adds and drops nothing but CR and LF: without those the output is the input, in order,
-- with every setting and in every state.
pub process_content :
    (p : OutProc) (bs : Bytes) → keep is_content (process p bs).1 ≡ keep is_content bs
unfolding process
process_content p [] = refl
process_content p (b ∷ bs) =
    let (p', out) = out_byte p b in
    rw (keep-append is_content out (process p' bs).1, out_byte_content p b, process_content p' bs)
      (sym (keep-append is_content (b ∷ []) bs))
