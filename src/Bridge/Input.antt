-- ===== src/Bridge/Input.antt =====
-- gateway-go/bridge.go: `handleInput`. Each turn takes at least a byte or gives up a partial match
-- of the hotkey, so twice the number of bytes and two more are turns enough (Bridge/Turns).
use imsai_8080_esp_tty_gtw.Prelude.{
  ℕ, zero, suc, ◌+◌, Bool, true, false, Bytes, [], ◌∷◌, ◌++◌, Option, none, some, codes, get_or,
  take, length, ◌==◌, if◌then◌else◌,
}
use imsai_8080_esp_tty_gtw.Bridge.Ws.{send_to_ws}
use imsai_8080_esp_tty_gtw.Bridge.Session.{Panel, Session}
use imsai_8080_esp_tty_gtw.Bridge.Console.{enter_tui, exit_tui}

-- What stands before and behind the first `b` (`bytes.IndexByte`).
unfoldable pub cut_at : ℕ → Bytes → Option (Bytes × Bytes)
cut_at b [] = none
cut_at b (c ∷ cs) =
    let rest = cut_at b cs in
    if c == b
    then some ([], cs)
    else elim rest [ none ↦ none | some (pre, post) ↦ some (c ∷ pre, post) ]

abbrev pub ws_closed : Bytes
ws_closed = codes "device WS closed"

module _ {P : Type 0} (panel : Panel P) (accepts : ℕ → Bool) where
  -- `sendToWS` and the session behind it: true for a nil error.
  unfoldable pub forward : Session P → Bytes → Bool × Session P
  forward s bytes =
      let (good, ws) = send_to_ws accepts s.cfg s.ws bytes in (good, record s { ws = ws })

  -- A non-empty run before the hotkey is sent, an empty one is not.
  unfoldable pub forward_some : Session P → Bytes → Bool × Session P
  forward_some s [] = (true, s)
  forward_some s (b ∷ bs) = forward s (b ∷ bs)

  unfoldable pub feed_panel : Session P → Bytes → Session P
  feed_panel s bytes =
      let (p, drawn, exited) = panel.feed s.panel bytes in
      let s' = record s { panel = p; to_client = s.to_client ++ drawn } in
      if exited then exit_tui s' else s'

  -- One more byte of the hotkey matched; the last one opens the panel.
  unfoldable pub matched : Session P → ℕ → Session P
  matched s n =
      if n == length s.cfg.hotkey_bytes
      then enter_tui panel (record s { hk_match = 0 })
      else record s { hk_match = n }

  -- `none`: out of turns. The cause is empty unless a write to the device failed.
  unfoldable pub handle_input : ℕ → Session P → Bytes → Option (Session P × Bytes)
  handle_input zero s bytes = none
  handle_input (suc turns) s [] = some (s, [])
  handle_input (suc turns) s (b ∷ bs) =
      let hk = s.cfg.hotkey_bytes in
      elim s.tui [
        | true ↦ handle_input turns (feed_panel s (b ∷ bs)) []
        | false ↦ elim (length hk == 0) [
          | true ↦
              (let (good, s') = forward s (b ∷ bs) in some (s', if good then [] else ws_closed))
          | false ↦ elim (s.hk_match == 0) [
            | true ↦ elim (cut_at (get_or hk 0 0) (b ∷ bs)) [
              | none ↦
                  (let (good, s') = forward s (b ∷ bs) in some (s', if good then [] else ws_closed))
              | some (pre, post) ↦
                  (let (good, s') = forward_some s pre in
                    elim good [
                      | true ↦ handle_input turns (matched s' 1) post
                      | false ↦ some (s', ws_closed)
                    ])
            ]
            | false ↦ elim (b == get_or hk s.hk_match 0) [
              | true ↦ handle_input turns (matched s (s.hk_match + 1)) bs
              | false ↦
                  (let (good, s') = forward s (take s.hk_match hk) in
                    elim good [
                      | true ↦ handle_input turns (record s' { hk_match = 0 }) (b ∷ bs)
                      | false ↦ some (s', ws_closed)
                    ])
            ]
          ]
        ]
      ]
