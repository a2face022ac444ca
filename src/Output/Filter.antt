-- ===== src/Output/Filter.antt =====
-- gateway-go/outwrap.go: `outProc` and its methods. `cols` and `col` are Go integers (module Word).
use imsai_8080_esp_tty_gtw.Prelude.{
  ℕ, ◌+◌, ◌-◌, ◌*◌, ◌/◌, ◌%◌, Bool, true, false, ◌&&◌, ◌||◌, Bytes, [], ◌∷◌, ◌++◌, ◌==◌, ltb, leb,
  if◌then◌else◌,
}
use imsai_8080_esp_tty_gtw.Word.{int_mod, int_add, int_sub, is_pos, at_least_one}
use imsai_8080_esp_tty_gtw.Output.Params.{csi_params2, csi_param1}

pub record OutProc : Type 0 where
  pub cols : ℕ
  pub crlf : Bool
  pub col : ℕ  -- 0: unknown
  pub in_esc : Bool
  pub in_csi : Bool
  pub csi : Bytes

unfoldable pub new_out_proc : ℕ → Bool → OutProc
new_out_proc cols crlf = record {
  cols = cols;
  crlf = crlf;
  col = 1;
  in_esc = false;
  in_csi = false;
  csi = [];
}

-- The column behind a CSI sequence with this final byte.
unfoldable pub end_csi : OutProc → ℕ → OutProc
end_csi p final =
    if final == b'H' || final == b'f'
    then record p { col = at_least_one (csi_params2 p.csi).1 }
    else if final == b'G' || final == b'`'
    then record p { col = at_least_one (csi_param1 p.csi) }
    else if final == b'C'
    then (if is_pos p.col
        then record p { col = int_add p.col (at_least_one (csi_param1 p.csi)) }
        else p)
    else if final == b'D'
    then (if is_pos p.col
        then record p { col = at_least_one (int_sub p.col (at_least_one (csi_param1 p.csi))) }
        else p)
    else if final == b'm' || final == b'K' || final == b'J' || final == b'n'
    then p
    else record p { col = 0 }

csi_byte : OutProc → ℕ → OutProc × Bytes
csi_byte p b =
    let p' = record p { csi = p.csi ++ b ∷ [] } in
    (if leb 0x40 b && leb b 0x7e then record (end_csi p' b) { in_csi = false } else p', b ∷ [])

esc_byte : OutProc → ℕ → OutProc × Bytes
esc_byte p b = (
  if b == b'['
      then record p { in_csi = true; csi = []; in_esc = false }
      else record p { col = 0; in_esc = false },
  b ∷ [],
)

lf_byte : OutProc → ℕ → OutProc × Bytes
lf_byte p b = (record p { col = 1 }, if p.crlf then 0x0d ∷ 0x0a ∷ [] else b ∷ [])

-- `p.col > 1` is a signed comparison.
bs_byte : OutProc → ℕ → OutProc × Bytes
bs_byte p b =
    (if is_pos p.col && ltb 1 p.col then record p { col = int_sub p.col 1 } else p, b ∷ [])

tab_byte : OutProc → ℕ → OutProc × Bytes
tab_byte p b = (
  if is_pos p.col then record p { col = (((p.col - 1) / 8 + 1) * 8 + 1) % int_mod } else p,
  b ∷ [],
)

advance : OutProc → OutProc
advance p = if is_pos p.col then record p { col = int_add p.col 1 } else p

abbrev must_wrap : OutProc → Bool
must_wrap p = is_pos p.cols && is_pos p.col && ltb p.cols p.col

print_byte : OutProc → ℕ → OutProc × Bytes
unfolding advance
print_byte p b =
    if must_wrap p
    then (advance (record p { col = 1 }), if p.crlf then 0x0d ∷ 0x0a ∷ b ∷ [] else 0x0a ∷ b ∷ [])
    else (advance p, b ∷ [])

-- One turn of the loop of `process`: the filter after the byte, and what is appended to `out`.
unfoldable pub out_byte : OutProc → ℕ → OutProc × Bytes
unfolding csi_byte esc_byte lf_byte bs_byte tab_byte print_byte
out_byte p b =
    if p.in_csi
    then csi_byte p b
    else if p.in_esc
    then esc_byte p b
    else if b == 0x1b
    then (record p { in_esc = true }, b ∷ [])
    else if b == 0x0d
    then (record p { col = 1 }, b ∷ [])
    else if b == 0x0a
    then lf_byte p b
    else if b == 0x08
    then bs_byte p b
    else if b == 0x09
    then tab_byte p b
    else if leb 0x20 b
    then print_byte p b
    else (p, b ∷ [])

unfoldable pub process : OutProc → Bytes → OutProc × Bytes
process p [] = (p, [])
process p (b ∷ bs) =
    let (p', out) = out_byte p b in let (p'', rest) = process p' bs in (p'', out ++ rest)
