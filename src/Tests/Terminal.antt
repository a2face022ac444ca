-- ===== src/Tests/Terminal.antt =====
-- The inbound processor on a short session.
use imsai_8080_esp_tty_gtw.Prelude.{ℕ, true, Bytes, [], ◌∷◌, ◌++◌, ◌≡◌, refl, arith, codes, text_eq}
use imsai_8080_esp_tty_gtw.Terminal.Process.{process}
use imsai_8080_esp_tty_gtw.Terminal.Input.{
  t_dont, st_data, t_wont, opt_naws, t_will, t_do, t_iac, opt_echo, TerminalInput, auto_text,
  new_terminal_input, size,
}
use imsai_8080_esp_tty_gtw.Terminal.Eol.{emit_eol, normalize_byte, normalize_eol, normalize_from}
use imsai_8080_esp_tty_gtw.Terminal.Feed.{feed_telnet, feed_all}
use imsai_8080_esp_tty_gtw.Terminal.Negotiate.{announce, negotiate, initial}
use imsai_8080_esp_tty_gtw.Terminal.Promises.{feed_all-told, told, OnlyOffered}
use imsai_8080_esp_tty_gtw.Terminal.Escape.{feed_all-escape, escape}
use imsai_8080_esp_tty_gtw.Terminal.Lines.{normalize-typed, normalized, cr_nul, typed}
use imsai_8080_esp_tty_gtw.Terminal.Naws.{size-naws, subneg}
use imsai_8080_esp_tty_gtw.Terminal.Strip.{feed_all-strip, final_state, strip}
use imsai_8080_esp_tty_gtw.Terminal.Chunks.{process-append, process_twice}

-- A client in auto mode, new and after the announcement.
abbrev fresh : TerminalInput
fresh = new_terminal_input auto_text (codes "cr")

abbrev greeted : TerminalInput
greeted = (initial fresh).0

-- DIR, Enter, and a 255 in the middle of a negotiation.
abbrev typed_dir : Bytes
typed_dir = codes "DIR" ++ 0x0d ∷ 0x0a ∷ t_iac ∷ t_do ∷ []

abbrev answered : Bytes
answered = opt_echo ∷ b'A' ∷ t_iac ∷ t_iac ∷ t_iac ∷ t_will ∷ opt_naws ∷ []

session_output :
    (process greeted (typed_dir ++ answered)).to_ws ≡ codes "DIR" ++ 0x0d ∷ b'A' ∷ t_iac ∷ []
unfolding process new_terminal_input initial feed_all feed_telnet negotiate announce normalize_eol
    normalize_from normalize_byte emit_eol text_eq
session_output = refl

session_replies : (process greeted (typed_dir ++ answered)).to_client ≡ t_iac ∷ t_do ∷ opt_naws ∷ []
unfolding process new_terminal_input initial feed_all feed_telnet negotiate announce normalize_eol
    normalize_from normalize_byte emit_eol text_eq
session_replies = refl

process-append_example :
    process greeted (typed_dir ++ answered) ≡ process_twice greeted typed_dir answered
process-append_example = process-append greeted typed_dir answered

feed_all-strip_example :
    ((feed_all fresh typed_dir).raw ≡ strip fresh.state typed_dir)
    × ((feed_all fresh typed_dir).term.state ≡ final_state fresh.state typed_dir)
feed_all-strip_example = feed_all-strip fresh typed_dir

feed_all-escape_example :
    feed_all greeted (escape (t_iac ∷ b'x' ∷ []))
    ≡ record { term = greeted; raw = t_iac ∷ b'x' ∷ []; reply = [] }
unfolding new_terminal_input initial text_eq
feed_all-escape_example = feed_all-escape greeted (t_iac ∷ b'x' ∷ []) refl refl

fresh-OnlyOffered : OnlyOffered fresh
unfolding new_terminal_input
fresh-OnlyOffered = record { will_offered = λ x e. refl; do_offered = λ x e. refl }

feed_all-told_example :
    OnlyOffered (feed_all fresh answered).term
    × ((x : ℕ)
        → (feed_all fresh answered).term.will_map x
          ≡ told t_will t_wont fresh.will_map (feed_all fresh answered).reply x)
    × ((x : ℕ)
        → (feed_all fresh answered).term.do_map x
          ≡ told t_do t_dont fresh.do_map (feed_all fresh answered).reply x)
feed_all-told_example = feed_all-told fresh answered fresh-OnlyOffered

-- 255 columns: the byte is sent twice.
size-naws_example :
    (let f = feed_all greeted (subneg (opt_naws ∷ 0 ∷ 255 ∷ 0 ∷ 24 ∷ [])) in
      (size f.term ≡ (255, 24, true)) × (f.term.state ≡ st_data) × (f.raw ≡ []) × (f.reply ≡ []))
unfolding new_terminal_input initial text_eq
size-naws_example = size-naws greeted 0 255 0 24 refl refl (omega arith) (omega arith)

normalize-typed_example :
    (normalize_from (codes "crlf") true (typed cr_nul (codes "DIR" ∷ [] ∷ []))).1
    ≡ normalized (codes "crlf") (codes "DIR" ∷ [] ∷ [])
normalize-typed_example =
    normalize-typed (codes "crlf") true cr_nul (codes "DIR" ∷ [] ∷ [])
      ((refl, (refl, (refl, tt))), (tt, tt)) (λ e. cc)
