-- ===== src/Bridge/Ws.antt =====
-- gateway-go/bridge.go: `sendToWS`. The WebSocket is not modelled but for what is written to it:
-- `accepts k` says whether the write behind `k` earlier ones succeeds.
use imsai_8080_esp_tty_gtw.Prelude.{
  ℕ, ◌+◌, Bool, true, false, Bytes, List, [], ◌∷◌, ◌++◌, codes, ◌==◌, if◌then◌else◌, text_eq,
}
use imsai_8080_esp_tty_gtw.Config.Settings.{Config}

-- A frame (a text message, or a binary one) and a sleep, as they happen.
pub data WsEvent : Type 0 where
  frame : Bool → Bytes → WsEvent
  pause : ℕ → WsEvent

pub record Ws : Type 0 where
  pub sent : List WsEvent
  pub writes : ℕ

-- The bytes that the device has received.
abbrev pub received : List WsEvent → Bytes
received [] = []
received (frame is_text bytes ∷ es) = bytes ++ received es
received (pause d ∷ es) = received es

-- One `WriteMessage`: true for a nil error.
unfoldable pub write_message : (ℕ → Bool) → Ws → Bool → Bytes → Bool × Ws
write_message accepts ws is_text bytes =
    if accepts ws.writes
    then (true, record { sent = ws.sent ++ frame is_text bytes ∷ []; writes = ws.writes + 1 })
    else (false, record ws { writes = ws.writes + 1 })

abbrev pub wait_for : Ws → ℕ → Ws
wait_for ws d = record ws { sent = ws.sent ++ pause d ∷ [] }

abbrev pub delay_after : Config → ℕ → ℕ
delay_after cfg b = if b == 13 then cfg.cr_delay else cfg.char_delay

-- The loop of the throttle.
unfoldable pub send_paced : (ℕ → Bool) → Config → Bool → Ws → Bytes → Bool × Ws
send_paced accepts cfg is_text ws [] = (true, ws)
send_paced accepts cfg is_text ws (b ∷ bs) =
    let (good, ws') = write_message accepts ws is_text (b ∷ []) in
    let rest = send_paced accepts cfg is_text (wait_for ws' (delay_after cfg b)) bs in
    if good then rest else (false, ws')

unfoldable pub send_to_ws : (ℕ → Bool) → Config → Ws → Bytes → Bool × Ws
send_to_ws accepts cfg ws bytes =
    let is_text = text_eq cfg.framing (codes "text") in
    if cfg.throttle
    then send_paced accepts cfg is_text ws bytes
    else write_message accepts ws is_text bytes
