-- ===== src/Bridge/Client/Rounds.antt =====
-- gateway-go/bridge.go: the end of the loop's body in `handleClient` goes on, or is left, as
-- Bridge/Gateway says.
use imsai_8080_esp_tty_gtw.Prelude.{◌+◌, Bool, Bytes, ◌≡◌, arith}
use imsai_8080_esp_tty_gtw.Config.Settings.{Config}
use imsai_8080_esp_tty_gtw.Bridge.Gateway.{Outcome, going, ended, retry}
use imsai_8080_esp_tty_gtw.Bridge.Client.{
  Front, Client, Looped, goes_on, in_bridge, left, says, notice, client_retry,
}

abbrev pub outcome_of : {P : Type 0} → Looped P → Outcome
outcome_of (goes_on c) = going c.attempt
outcome_of (in_bridge c closed) = going c.attempt
outcome_of (left c reason) = ended reason

module _ {P : Type 0} (front : Front P) (cfg : Config) (writable : Bytes → Bool)
    (peer delay_text : Bytes) where
  abbrev pub notice_written : Client P → Bytes → Bool
  notice_written c reason =
      writable (says c (notice delay_text reason (c.attempt + 1))).session.to_client

  pub client_retry-retry :
      (c : Client P) (reason : Bytes)
      → outcome_of (client_retry front cfg writable peer delay_text c reason)
        ≡ retry cfg c.attempt reason (notice_written c reason)
  unfolding client_retry retry
  client_retry-retry c reason = ground arith
