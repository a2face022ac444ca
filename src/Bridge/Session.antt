-- ===== src/Bridge/Session.antt =====
-- gateway-go/bridge.go: the state of a client session, and what it uses of the control panel.
-- The panel's own state (`tuiM`, /cpa and the requests to the device) is a parameter `P`.
use imsai_8080_esp_tty_gtw.Prelude.{ℕ, Bool, Bytes}
use imsai_8080_esp_tty_gtw.Config.Settings.{Config}
use imsai_8080_esp_tty_gtw.Bridge.Ws.{Ws}

-- The calls of the panel (gateway-go/tui.go): each returns what it writes to the client. `feed`
-- takes all the bytes it is given and says whether the panel is to close.
pub record Panel (P : Type 0) : Type 0 where
  pub open_panel : P → P × Bytes
  pub feed : P → Bytes → P × Bytes × Bool

pub record Session (P : Type 0) : Type 0 where
  pub cfg : Config
  pub ws : Ws
  pub tui : Bool
  pub panel : P
  pub out_buf : Bytes
  pub hk_match : ℕ
  -- All that was written to the client. The writes of the panel, whose errors the code ignores, are
  -- taken to succeed.
  pub to_client : Bytes
