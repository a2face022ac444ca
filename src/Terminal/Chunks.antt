-- ===== src/Terminal/Chunks.antt =====
-- gateway-go/terminal.go: the stream may be cut into reads anywhere.
use imsai_8080_esp_tty_gtw.Prelude.{
  true, false, ℕ, Bool, Bytes, [], ◌∷◌, ◌++◌, ◌≡◌, refl, ◌∙◌, inl, inr, arith, append_assoc,
  text_eq, Bool-cases,
}
use imsai_8080_esp_tty_gtw.Terminal.Input.{TerminalInput, raw_text}
use imsai_8080_esp_tty_gtw.Terminal.Negotiate.{announce, negotiate}
use imsai_8080_esp_tty_gtw.Terminal.Feed.{Fed, handle_subneg, feed_telnet, feed_all}
use imsai_8080_esp_tty_gtw.Terminal.Eol.{normalize_byte, normalize_from, normalize_eol}
use imsai_8080_esp_tty_gtw.Terminal.Process.{Processed, process}

-- What the Telnet layer never touches.
pub record SameSettings (t u : TerminalInput) : Type 0 where
  pub mode_same : u.mode ≡ t.mode
  pub eol_same : u.eol ≡ t.eol
  pub last_cr_same : u.last_cr ≡ t.last_cr

handle_subneg-SameSettings : (t : TerminalInput) (sb : Bytes) → SameSettings t (handle_subneg t sb)
unfolding handle_subneg
handle_subneg-SameSettings t [] = ground arith
handle_subneg-SameSettings t (a ∷ []) = ground arith
handle_subneg-SameSettings t (a ∷ b ∷ []) = ground arith
handle_subneg-SameSettings t (a ∷ b ∷ c ∷ []) = ground arith
handle_subneg-SameSettings t (a ∷ b ∷ c ∷ d ∷ []) = ground arith
handle_subneg-SameSettings t (a ∷ b ∷ c ∷ d ∷ e ∷ r) = ground arith

negotiate-SameSettings : (t : TerminalInput) (cmd opt : ℕ) → SameSettings t (negotiate t cmd opt).0
unfolding negotiate
negotiate-SameSettings t cmd opt = ground arith

pub feed_telnet-SameSettings : (t : TerminalInput) (b : ℕ) → SameSettings t (feed_telnet t b).term
unfolding feed_telnet announce
feed_telnet-SameSettings t b =
    ground (arith, handle_subneg-SameSettings t t.sb, negotiate-SameSettings t t.cmd b)

pub feed_all-SameSettings : (t : TerminalInput) (bs : Bytes) → SameSettings t (feed_all t bs).term
unfolding feed_all
feed_all-SameSettings t [] = record { mode_same = refl; eol_same = refl; last_cr_same = refl }
feed_all-SameSettings t (b ∷ bs) =
    let h = feed_telnet-SameSettings t b in
    let k = feed_all-SameSettings (feed_telnet t b).term bs in
    record {
      mode_same = k.mode_same ∙ h.mode_same;
      eol_same = k.eol_same ∙ h.eol_same;
      last_cr_same = k.last_cr_same ∙ h.last_cr_same;
    }

pub feed_all-append :
    (t : TerminalInput) (xs bs : Bytes)
    → feed_all t (xs ++ bs) ≡ (
        let f = feed_all t xs in
        let g = feed_all f.term bs in
        record { term = g.term; raw = f.raw ++ g.raw; reply = f.reply ++ g.reply })
unfolding feed_all
feed_all-append t [] bs = refl
feed_all-append t (a ∷ xs) bs =
    rw (feed_all-append (feed_telnet t a).term xs bs) (simp append_assoc)

pub normalize_from-append :
    (eol : Bytes) (cr : Bool) (xs bs : Bytes)
    → normalize_from eol cr (xs ++ bs) ≡ (
        let (cr', out) = normalize_from eol cr xs in
        let (cr'', rest) = normalize_from eol cr' bs in (cr'', out ++ rest))
unfolding normalize_from
normalize_from-append eol cr [] bs = refl
normalize_from-append eol cr (a ∷ xs) bs =
    rw (normalize_from-append eol (normalize_byte eol cr a).0 xs bs) (simp append_assoc)

-- The Telnet layer does not read `lastCR`, and carries it along.
abbrev with_cr : Bool → TerminalInput → TerminalInput
with_cr cr t = record t { last_cr = cr }

abbrev fed_with_cr : Bool → Fed → Fed
fed_with_cr cr f = record f { term = with_cr cr f.term }

handle_subneg-with_cr :
    (t : TerminalInput) (cr : Bool) (sb : Bytes)
    → handle_subneg (with_cr cr t) sb ≡ with_cr cr (handle_subneg t sb)
unfolding handle_subneg
handle_subneg-with_cr t cr [] = refl
handle_subneg-with_cr t cr (a ∷ []) = refl
handle_subneg-with_cr t cr (a ∷ b ∷ []) = refl
handle_subneg-with_cr t cr (a ∷ b ∷ c ∷ []) = refl
handle_subneg-with_cr t cr (a ∷ b ∷ c ∷ d ∷ []) = refl
handle_subneg-with_cr t cr (a ∷ b ∷ c ∷ d ∷ e ∷ r) = ground arith

negotiate-with_cr :
    (t : TerminalInput) (cr : Bool) (cmd opt : ℕ)
    → negotiate (with_cr cr t) cmd opt
      ≡ (with_cr cr (negotiate t cmd opt).0, (negotiate t cmd opt).1)
unfolding negotiate
negotiate-with_cr t cr cmd opt = ground arith

feed_telnet-with_cr :
    (t : TerminalInput) (cr : Bool) (b : ℕ)
    → feed_telnet (with_cr cr t) b ≡ fed_with_cr cr (feed_telnet t b)
unfolding feed_telnet announce
feed_telnet-with_cr t cr b =
    ground (arith, handle_subneg-with_cr t cr t.sb, negotiate-with_cr t cr t.cmd b)

feed_all-with_cr :
    (t : TerminalInput) (cr : Bool) (bs : Bytes)
    → feed_all (with_cr cr t) bs ≡ fed_with_cr cr (feed_all t bs)
unfolding feed_all
feed_all-with_cr t cr [] = refl
feed_all-with_cr t cr (b ∷ bs) =
    rw (feed_telnet-with_cr t cr b, feed_all-with_cr (feed_telnet t b).term cr bs)

-- One call after the other: the object goes on, the two outputs are joined.
abbrev pub process_twice : TerminalInput → Bytes → Bytes → Processed
process_twice t xs bs =
    let p = process t xs in
    let q = process p.term bs in
    record { term = q.term; to_ws = p.to_ws ++ q.to_ws; to_client = p.to_client ++ q.to_client }

-- `process` in terms of the two layers, by the two settings.
process_cooked :
    (t : TerminalInput) (bs : Bytes)
    → text_eq t.mode raw_text ≡ false
    → text_eq t.eol raw_text ≡ false
    → process t bs ≡ (
        let f = feed_all t bs in
        let (cr, out) = normalize_from t.eol t.last_cr f.raw in
        record { term = with_cr cr f.term; to_ws = out; to_client = f.reply })
unfolding process normalize_eol
process_cooked t bs m e =
    let s = feed_all-SameSettings t bs in rw (m, s.eol_same, s.last_cr_same, e)

process_telnet_raw :
    (t : TerminalInput) (bs : Bytes)
    → text_eq t.mode raw_text ≡ false
    → text_eq t.eol raw_text ≡ true
    → process t bs
      ≡ (let f = feed_all t bs in record { term = f.term; to_ws = f.raw; to_client = f.reply })
unfolding process normalize_eol
process_telnet_raw t bs m e = let s = feed_all-SameSettings t bs in rw (m, s.eol_same, e)

process_raw :
    (t : TerminalInput) (bs : Bytes)
    → text_eq t.mode raw_text ≡ true
    → process t bs
      ≡ (let (t', out) = normalize_eol t bs in record { term = t'; to_ws = out; to_client = [] })
unfolding process
process_raw t bs m = rw m

process-append_cooked :
    (t : TerminalInput) (xs bs : Bytes)
    → text_eq t.mode raw_text ≡ false
    → text_eq t.eol raw_text ≡ false
    → process t (xs ++ bs) ≡ process_twice t xs bs
process-append_cooked t xs bs m e =
    let s = feed_all-SameSettings t xs in
    let f = feed_all t xs in
    let n = normalize_from t.eol t.last_cr f.raw in
    rw (
      process_cooked t (xs ++ bs) m e,
      process_cooked t xs m e,
      process_cooked (with_cr n.0 f.term) bs (rw s.mode_same m) (rw s.eol_same e),
      feed_all-append t xs bs,
      normalize_from-append t.eol t.last_cr f.raw (feed_all f.term bs).raw,
      feed_all-with_cr f.term n.0 bs,
      s.eol_same,
    )

process-append_telnet_raw :
    (t : TerminalInput) (xs bs : Bytes)
    → text_eq t.mode raw_text ≡ false
    → text_eq t.eol raw_text ≡ true
    → process t (xs ++ bs) ≡ process_twice t xs bs
process-append_telnet_raw t xs bs m e =
    let s = feed_all-SameSettings t xs in
    let f = feed_all t xs in
    rw (
      process_telnet_raw t (xs ++ bs) m e,
      process_telnet_raw t xs m e,
      process_telnet_raw f.term bs (rw s.mode_same m) (rw s.eol_same e),
      feed_all-append t xs bs,
    )

process-append_raw :
    (t : TerminalInput) (xs bs : Bytes)
    → text_eq t.mode raw_text ≡ true
    → process t (xs ++ bs) ≡ process_twice t xs bs
unfolding process normalize_eol
process-append_raw t xs bs m = ground (arith, normalize_from-append t.eol t.last_cr xs bs)

-- Where the reads cut the client's stream makes no difference: to process two pieces one after the
-- other gives the console bytes, the replies and the final state of processing them at once, in
-- every mode and for every end-of-line setting.
pub process-append :
    (t : TerminalInput) (xs bs : Bytes) → process t (xs ++ bs) ≡ process_twice t xs bs
process-append t xs bs = elim (Bool-cases (text_eq t.mode raw_text)) [
  | inl m ↦ process-append_raw t xs bs m
  | inr m ↦ elim (Bool-cases (text_eq t.eol raw_text)) [
    | inl e ↦ process-append_telnet_raw t xs bs m e
    | inr e ↦ process-append_cooked t xs bs m e
  ]
]
