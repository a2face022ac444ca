-- ===== src/Bridge/Whole.antt =====
-- gateway-go/bridge.go, gateway-go/tui.go: the client's way through the session, with its panel.
use imsai_8080_esp_tty_gtw.Prelude.{
  ℕ, Bool, Bytes, List, [], ◌∷◌, ◌++◌, some, ◌≡◌, refl, inl, inr, text_eq, All, Bool-cases,
}
use imsai_8080_esp_tty_gtw.Terminal.Input.{TerminalInput}
use imsai_8080_esp_tty_gtw.Terminal.Process.{process}
use imsai_8080_esp_tty_gtw.Tui.Model.{Outside}
use imsai_8080_esp_tty_gtw.Tui.Sound.{IsSound}
use imsai_8080_esp_tty_gtw.Tui.Requests.{IsHarmless}
use imsai_8080_esp_tty_gtw.Bridge.Session.{Panel, Session}
use imsai_8080_esp_tty_gtw.Bridge.Turns.{handle_input_total}
use imsai_8080_esp_tty_gtw.Bridge.Reads.{one_read, pump_tcp_to_ws}
use imsai_8080_esp_tty_gtw.Bridge.Live.{Live, tui_panel}

module _ {P : Type 0} (panel : Panel P) (accepts : ℕ → Bool) where
  one_read_total :
      (t : TerminalInput) (s : Session P) (bytes : Bytes)
      → (t' : TerminalInput) × (s' : Session P) × (cause : Bytes) × (one_read panel accepts t s
            bytes
          ≡ some (t', s', cause))
  unfolding one_read
  one_read_total t s bytes =
      let p = process t bytes in
      let told = record s { to_client = s.to_client ++ p.to_client } in
      let ((s', cause), e) = handle_input_total panel accepts told p.to_ws in
      (p.term, s', cause, rw (e, one_read) refl)

  pump_tcp_to_ws_total :
      (t : TerminalInput) (s : Session P) (reads : List Bytes)
      → (t' : TerminalInput) × (s' : Session P) × (cause : Bytes) × (pump_tcp_to_ws panel accepts t
            s reads
          ≡ some (t', s', cause))
  unfolding pump_tcp_to_ws
  pump_tcp_to_ws_total t s [] = (t, s, [], refl)
  pump_tcp_to_ws_total t s (bytes ∷ reads) =
      let (t1, s1, cause, e) = one_read_total t s bytes in
      elim (Bool-cases (text_eq cause [])) [
        | inl goes_on ↦
            let (t2, s2, cause2, e2) = pump_tcp_to_ws_total t1 s1 reads in
            (t2, s2, cause2, rw (e, goes_on, pump_tcp_to_ws) e2)
        | inr ends ↦ (t1, s1, cause, rw (e, ends, pump_tcp_to_ws) refl)
      ]

-- Whatever a client sends, in whatever reads, and whatever the device replies: the pump has a
-- result, the panel is sound then, and no request of the session has ejected the hard disk or
-- mounted into it.
pub pump_tcp_to_ws-IsHarmless :
    (o : Outside) (accepts : ℕ → Bool) (t : TerminalInput) (s : Session (Live o.cfg))
    (reads : List Bytes)
    → (t' : TerminalInput) × (s' : Session (Live o.cfg)) × (cause : Bytes) × (pump_tcp_to_ws
          (tui_panel o)
          accepts
          t
          s
          reads
        ≡ some (t', s', cause))
      × IsSound s'.panel.control.m
      × All (IsHarmless o.cfg) s'.panel.control.log
pump_tcp_to_ws-IsHarmless o accepts t s reads =
    let (t', s', cause, e) = pump_tcp_to_ws_total (tui_panel o) accepts t s reads in
    (t', s', cause, e, s'.panel.sound, s'.panel.harmless)
