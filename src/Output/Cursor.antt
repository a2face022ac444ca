-- ===== src/Output/Cursor.antt =====
-- gateway-go/outwrap.go: the column after a cursor-position sequence.
use imsai_8080_esp_tty_gtw.Prelude.{
  All-++, ◌∙◌, sym, append-nil, ap, ℕ, ◌<◌, true, false, Bytes, [], ◌∷◌, ◌++◌, ◌≡◌, refl, arith,
  ltb, append_assoc, split_from, split, All,
}
use imsai_8080_esp_tty_gtw.Word.{int_mod, int_half, at_least_one}
use imsai_8080_esp_tty_gtw.Decimal.{show_nat, IsDigits, show_nat-IsDigits, atoi_default-show_nat}
use imsai_8080_esp_tty_gtw.Output.Params.{two_params, drop_last, csi_params2}
use imsai_8080_esp_tty_gtw.Output.Filter.{OutProc, end_csi, out_byte, process}
use imsai_8080_esp_tty_gtw.Tui.Ansi.{floor_one, move_to}

-- Bytes that a CSI sequence collects: none of them ends it.
abbrev IsCollected : Bytes → Type 0
IsCollected = All (λ b. ltb b 0x40 ≡ true)

IsDigits-IsCollected : (s : Bytes) → IsDigits s → IsCollected s
IsDigits-IsCollected [] h = tt
IsDigits-IsCollected (c ∷ cs) h = (ground arith, IsDigits-IsCollected cs h.1)

process_collected :
    (p : OutProc) (s rest : Bytes)
    → p.in_csi ≡ true
    → IsCollected s
    → process p (s ++ rest)
      ≡ (let (p', out) = process (record p { csi = p.csi ++ s }) rest in (p', s ++ out))
unfolding process out_byte
process_collected p [] rest i h = rw append-nil
process_collected p (b ∷ s) rest i h = ground (
  arith,
  process_collected (record p { csi = p.csi ++ b ∷ [] }) s rest i h.1,
  append_assoc p.csi (b ∷ []) s,
)

drop_last-concat : (s : Bytes) (b : ℕ) → drop_last (s ++ b ∷ []) ≡ s
drop_last-concat [] b = refl
drop_last-concat (c ∷ []) b = refl
drop_last-concat (c ∷ d ∷ s) b = ap (◌∷◌ c) (drop_last-concat (d ∷ s) b)

split_digits : (cur s : Bytes) → IsDigits s → split_from b';' cur s ≡ (cur ++ s, [])
unfolding split_from
split_digits cur [] h = rw append-nil
split_digits cur (c ∷ s) h =
    ground (arith, split_digits (cur ++ c ∷ []) s h.1, append_assoc cur (c ∷ []) s)

split_digits_sep :
    (cur s rest : Bytes)
    → IsDigits s
    → split_from b';' cur (s ++ b';' ∷ rest)
      ≡ (let (first, more) = split_from b';' [] rest in (cur ++ s, first ∷ more))
unfolding split_from
split_digits_sep cur [] rest h = rw append-nil
split_digits_sep cur (c ∷ s) rest h =
    ground (arith, split_digits_sep (cur ++ c ∷ []) s rest h.1, append_assoc cur (c ∷ []) s)

drop_last_params :
    (r c : Bytes) (final : ℕ) → drop_last (r ++ (b';' ∷ (c ++ final ∷ []))) ≡ r ++ (b';' ∷ c)
drop_last_params r c final =
    ap drop_last (sym (append_assoc r (b';' ∷ c) (final ∷ [])))
    ∙ drop_last-concat (r ++ (b';' ∷ c)) final

csi_params2_cons : (s : Bytes) (b : ℕ) → csi_params2 (s ++ b ∷ []) ≡ two_params (split b';' s)
unfolding csi_params2
csi_params2_cons [] b = refl
csi_params2_cons (x ∷ s) b = ap (λ t. two_params (split b';' t)) (drop_last-concat (x ∷ s) b)

-- The two numbers of a CSI sequence that carries two, printed by `%d`, are read back.
pub csi_params2-show_nat :
    (r c final : ℕ)
    → r < int_mod
    → c < int_mod
    → csi_params2 (show_nat r ++ (b';' ∷ (show_nat c ++ final ∷ []))) ≡ (r, c)
csi_params2-show_nat r c final h k =
    ap csi_params2 (sym (append_assoc (show_nat r) (b';' ∷ show_nat c) (final ∷ [])))
    ∙ csi_params2_cons (show_nat r ++ (b';' ∷ show_nat c)) final
    ∙ rw (
      split_digits_sep [] (show_nat r) (show_nat c) (show_nat-IsDigits r),
      split_digits [] (show_nat c) (show_nat-IsDigits c),
      atoi_default-show_nat r 0 h,
      atoi_default-show_nat c 0 k,
    )

process_csi_start :
    (p : OutProc) (rest : Bytes)
    → p.in_esc ≡ false
    → p.in_csi ≡ false
    → process p (0x1b ∷ b'[' ∷ rest) ≡ (
        let (p', out) = process (record p { in_csi = true; csi = [] }) rest in
        (p', 0x1b ∷ b'[' ∷ out))
unfolding process out_byte
process_csi_start p rest e i = ground arith

process_cup_end :
    (p : OutProc)
    → p.in_csi ≡ true
    → process p (b'H' ∷ []) ≡ (
      record p {
        csi = p.csi ++ b'H' ∷ [];
        in_csi = false;
        col = at_least_one (csi_params2 (p.csi ++ b'H' ∷ [])).1;
      },
      b'H' ∷ [],
    )
unfolding process out_byte end_csi
process_cup_end p i = ground arith

process_cup :
    (p : OutProc) (s : Bytes)
    → p.in_esc ≡ false
    → p.in_csi ≡ false
    → IsCollected s
    → process p (0x1b ∷ b'[' ∷ (s ++ b'H' ∷ [])) ≡ (
      record p {
        csi = s ++ b'H' ∷ [];
        in_csi = false;
        col = at_least_one (csi_params2 (s ++ b'H' ∷ [])).1;
      },
      0x1b ∷ b'[' ∷ (s ++ b'H' ∷ []),
    )
process_cup p s e i h = rw (
  process_csi_start p (s ++ b'H' ∷ []) e i,
  process_collected (record p { in_csi = true; csi = [] }) s (b'H' ∷ []) refl h,
  process_cup_end (record p { in_csi = true; csi = s }) refl,
)

-- The same with the parameters' three parts.
process_cup_params :
    (p : OutProc) (r c : ℕ)
    → p.in_esc ≡ false
    → p.in_csi ≡ false
    → r < int_mod
    → c < int_mod
    → (let s = show_nat r ++ (b';' ∷ (show_nat c ++ b'H' ∷ [])) in
        process p (0x1b ∷ b'[' ∷ s)
        ≡ (record p { csi = s; in_csi = false; col = at_least_one c }, 0x1b ∷ b'[' ∷ s))
process_cup_params p r c e i h k =
    let s = show_nat r ++ (b';' ∷ show_nat c) in
    let collected =
      All-++ _ (show_nat r) (b';' ∷ show_nat c)
        (IsDigits-IsCollected (show_nat r) (show_nat-IsDigits r))
        (refl, IsDigits-IsCollected (show_nat c) (show_nat-IsDigits c)) in
    let joined = append_assoc (show_nat r) (b';' ∷ show_nat c) (b'H' ∷ []) in
    rw (← joined) (process_cup p s e i collected ∙ rw (joined, csi_params2-show_nat r c b'H' h k))

-- A cursor-position sequence as the panel writes it passes through unchanged, and behind it the
-- filter stands between sequences in the very column that the sequence names (column 1 for 0),
-- whatever column it had before, known or not.
pub process-move_to :
    (p : OutProc) (row col : ℕ)
    → p.in_esc ≡ false
    → p.in_csi ≡ false
    → row < int_half
    → col < int_half
    → (let (p', out) = process p (move_to row col) in
        (out ≡ move_to row col)
        × (p'.col ≡ floor_one col)
        × (p'.in_esc ≡ false)
        × (p'.in_csi ≡ false))
unfolding move_to
process-move_to p row col e i h k =
    rw (process_cup_params p (floor_one row) (floor_one col) e i (ground arith) (ground arith))
      (refl, ground arith, e, refl)
