-- ===== src/Tests/Session.antt =====
-- A whole session, with the device, the panel and the visits of Tests/Gateway.
use imsai_8080_esp_tty_gtw.Prelude.{Bytes, [], ◌≡◌, refl, codes, has_prefix, text_eq}
use imsai_8080_esp_tty_gtw.Tests.Panel.{device}
use imsai_8080_esp_tty_gtw.Tests.Gateway.{
  writes_all, peer, two_seconds, fresh_panel, around, three_visits,
}
use imsai_8080_esp_tty_gtw.Terminal.Input.{new_terminal_input}
use imsai_8080_esp_tty_gtw.Terminal.Negotiate.{initial}
use imsai_8080_esp_tty_gtw.Terminal.Feed.{feed_all, feed_telnet}
use imsai_8080_esp_tty_gtw.Terminal.Eol.{normalize_eol, normalize_from, normalize_byte}
use imsai_8080_esp_tty_gtw.Terminal.Process.{process}
use imsai_8080_esp_tty_gtw.Bridge.Ws.{received, write_message, send_paced, send_to_ws}
use imsai_8080_esp_tty_gtw.Bridge.Input.{forward, handle_input}
use imsai_8080_esp_tty_gtw.Bridge.Console.{device_frame, end_bridge}
use imsai_8080_esp_tty_gtw.Bridge.Live.{Live}
use imsai_8080_esp_tty_gtw.Bridge.Greeting.{greet}
use imsai_8080_esp_tty_gtw.Bridge.Front.{live_front}
use imsai_8080_esp_tty_gtw.Bridge.Run.{
  show_output, device_turn, handle_all, reply_and_handle, take_bytes, client_turn, run_event,
  run_events, run_bridge,
}
use imsai_8080_esp_tty_gtw.Bridge.Client.{
  client_retry, bridge_client, greet_first, on_connection, client_round, client_loop,
}
use imsai_8080_esp_tty_gtw.Bridge.Handle.{
  Handled, turned_away, serving, bridging, served, open_capture, new_client, handle_client,
}

-- The reason of a session that has ended, and what its last connection has received.
abbrev end_of : Handled (Live device.cfg) → Bytes × Bytes
end_of (turned_away calls bytes) = ([], [])
end_of (serving c) = ([], [])
end_of (bridging c closed) = ([], [])
end_of (served c reason) = (reason, received c.session.ws.sent)

-- The first dial is refused, the device ends the second connection, and on the third the client
-- types and hangs up.
client_leaves :
    end_of (
      handle_client
        (live_front device)
        device.cfg
        writes_all
        peer
        two_seconds
        0
        fresh_panel
        around
        three_visits)
    ≡ (codes "client closed connection", codes "DIR")
unfolding handle_client new_client open_capture client_loop client_round on_connection greet_first
    bridge_client client_retry run_bridge run_events run_event client_turn take_bytes
    reply_and_handle handle_all handle_input device_turn end_bridge live_front has_prefix text_eq
    greet initial new_terminal_input show_output process feed_all feed_telnet normalize_eol
    normalize_from normalize_byte device_frame forward send_to_ws send_paced write_message
client_leaves = refl
