-- ===== src/Bridge/Reads.antt =====
-- gateway-go/bridge.go: the loop of `pumpTCPToWS` over the reads from the client. A failed write to
-- the client ends the pump and is not modelled here, nor is the end of the reads.
use imsai_8080_esp_tty_gtw.Prelude.{
  ℕ, ◌+◌, ◌*◌, Bool, true, false, Bytes, List, [], ◌∷◌, ◌++◌, Option, none, some, length, text_eq,
}
use imsai_8080_esp_tty_gtw.Terminal.Input.{TerminalInput}
use imsai_8080_esp_tty_gtw.Terminal.Process.{process}
use imsai_8080_esp_tty_gtw.Bridge.Session.{Panel, Session}
use imsai_8080_esp_tty_gtw.Bridge.Input.{handle_input}

module _ {P : Type 0} (panel : Panel P) (accepts : ℕ → Bool) where
  -- What one read does to the terminal and the session, and the cause to end.
  unfoldable pub one_read :
      TerminalInput → Session P → Bytes → Option (TerminalInput × Session P × Bytes)
  one_read t s bytes =
      let p = process t bytes in
      let told = record s { to_client = s.to_client ++ p.to_client } in
      elim (handle_input panel accepts (2 * length p.to_ws + 2) told p.to_ws) [
        | none ↦ none
        | some (s', cause) ↦ some (p.term, s', cause)
      ]

  unfoldable pub pump_tcp_to_ws :
      TerminalInput → Session P → List Bytes → Option (TerminalInput × Session P × Bytes)
  pump_tcp_to_ws t s [] = some (t, s, [])
  pump_tcp_to_ws t s (bytes ∷ reads) = elim (one_read t s bytes) [
    | none ↦ none
    | some (t', s', cause) ↦ elim (text_eq cause []) [
      | true ↦ pump_tcp_to_ws t' s' reads
      | false ↦ some (t', s', cause)
    ]
  ]
