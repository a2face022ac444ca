-- ===== src/Tests/Gateway.antt =====
-- Clients of the gateway, with the device and the panel of Tests/Panel.
use imsai_8080_esp_tty_gtw.Prelude.{
  none, some, ◌≤◌, ◌<◌, Bool, true, Bytes, List, [], ◌∷◌, ok, err, ◌≡◌, refl, ◌⊎◌, codes, length,
  map,
}
use imsai_8080_esp_tty_gtw.Config.Settings.{Config, default_config}
use imsai_8080_esp_tty_gtw.Tests.Panel.{device, opened, opened-IsSound}
use imsai_8080_esp_tty_gtw.Bridge.Gateway.{going, ended, gave_up}
use imsai_8080_esp_tty_gtw.Bridge.Live.{Live}
use imsai_8080_esp_tty_gtw.Bridge.Front.{live_front}
use imsai_8080_esp_tty_gtw.Bridge.Run.{end_of_file, device_event, client_event}
use imsai_8080_esp_tty_gtw.Bridge.Client.{Client, Visit, refused, connected, goes_on, client_loop}
use imsai_8080_esp_tty_gtw.Bridge.Client.Rounds.{outcome_of}
use imsai_8080_esp_tty_gtw.Bridge.Client.Limit.{IsOut, client_loop_limit}
use imsai_8080_esp_tty_gtw.Bridge.Handle.{Around, new_client, handle_client}
use imsai_8080_esp_tty_gtw.Bridge.Handle.Tidy.{
  IsInOrder, tty_in_use, calls_of, handle_client-IsInOrder,
}
use imsai_8080_esp_tty_gtw.Gateway.{main}
use imsai_8080_esp_tty_gtw.Gateway.Accepted.{IsServed, main-IsServed}
use imsai_8080_esp_tty_gtw.Bridge.Handle.Ended.{handle_client-IsFair, IsFairEnd}

abbrev pub writes_all : Bytes → Bool
writes_all b = true

abbrev pub peer : Bytes
peer = codes "10.0.0.9:4000"

abbrev pub two_seconds : Bytes
two_seconds = codes "2"

-- The device of the tests as it is for a new client.
abbrev pub fresh_panel : Live device.cfg
fresh_panel = record { control = opened; sound = opened-IsSound; harmless = tt }

abbrev newcomer : Client (Live device.cfg)
newcomer = new_client device.cfg peer 1 fresh_panel (ok tt)

-- A refused dial, a connection that the device ends, and one on which the client hangs up.
abbrev pub three_visits : List Visit
three_visits =
    refused (codes "timeout")
    ∷ connected (λ url. none) (λ k. true)
        (device_event (ok (codes "A>")) ∷ device_event (err []) ∷ []) (client_event [] none ∷ [])
    ∷ connected (λ url. none) (λ k. true) (client_event (codes "DIR") (some end_of_file) ∷ [])
        (device_event (err (codes "closed")) ∷ [])
    ∷ []

abbrev twice : Config
twice = record default_config { reconnect_max = 2 }

abbrev refusals : List Bytes
refusals = codes "timeout" ∷ codes "timeout" ∷ codes "no route" ∷ []

client_loop_limit_example :
    (let l =
        client_loop
          (live_front device)
          twice
          writes_all
          peer
          two_seconds
          (goes_on newcomer)
          (map refused refusals) in
      let o = outcome_of l in
      IsOut (live_front device) twice writes_all peer two_seconds (λ b. refl) l
      × (((length refusals ≤ twice.reconnect_max) × (o ≡ going (length refusals)))
          ⊎ ((twice.reconnect_max < length refusals)
              × (o ≡ ended (gave_up (codes "device unreachable") twice.reconnect_max)))))
unfolding new_client
client_loop_limit_example =
    client_loop_limit (live_front device) twice writes_all peer two_seconds (λ b. refl) newcomer
      refusals refl refl refl

abbrev pub around : Around
around = record { opened = ok tt; others = 0; elapsed = codes "12.5" }

handle_client-IsInOrder_example :
    (let h =
        handle_client
          (live_front device)
          device.cfg
          writes_all
          peer
          two_seconds
          0
          fresh_panel
          around
          three_visits in
      IsInOrder
        (live_front device)
        device.cfg
        writes_all
        peer
        two_seconds
        (tty_in_use (live_front device) device.cfg writes_all peer two_seconds h)
        (calls_of (live_front device) device.cfg writes_all peer two_seconds h))
handle_client-IsInOrder_example =
    handle_client-IsInOrder (live_front device) device.cfg writes_all peer two_seconds 0 fresh_panel
      around three_visits

handle_client-IsFair_example :
    IsFairEnd (live_front device) device.cfg writes_all peer two_seconds 0 (
      handle_client
        (live_front device)
        device.cfg
        writes_all
        peer
        two_seconds
        0
        fresh_panel
        around
        three_visits)
handle_client-IsFair_example =
    handle_client-IsFair (live_front device) device.cfg writes_all peer two_seconds 0 fresh_panel
      around three_visits

main-IsServed_example :
    IsServed
      (ok tt)
      (ok 1 ∷ err (codes "EMFILE") ∷ ok 2 ∷ [])
      (main default_config (ok tt) (ok 1 ∷ err (codes "EMFILE") ∷ ok 2 ∷ []))
main-IsServed_example =
    main-IsServed default_config (ok tt) (ok 1 ∷ err (codes "EMFILE") ∷ ok 2 ∷ [])
