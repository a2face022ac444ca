-- ===== src/Bridge/Pump.antt =====
-- gateway-go/bridge.go: the loop of `pumpWSToTCP`, with its filter.
use imsai_8080_esp_tty_gtw.Prelude.{◌||◌, Bytes, List, [], ◌∷◌, Option, none, some, if◌then◌else◌}
use imsai_8080_esp_tty_gtw.Word.{is_pos}
use imsai_8080_esp_tty_gtw.Config.Settings.{Config}
use imsai_8080_esp_tty_gtw.Output.Filter.{OutProc, new_out_proc, process}
use imsai_8080_esp_tty_gtw.Bridge.Session.{Session}
use imsai_8080_esp_tty_gtw.Bridge.Console.{device_frame}

-- `none` is the nil filter.
unfoldable pub filter_of : Config → Option OutProc
filter_of cfg =
    if cfg.crlf_out || is_pos cfg.cols then some (new_out_proc cfg.cols cfg.crlf_out) else none

unfoldable pub filtered : Option OutProc → Bytes → Option OutProc × Bytes
filtered none bytes = (none, bytes)
filtered (some p) bytes = let (p', out) = process p bytes in (some p', out)

module _ {P : Type 0} where
  -- On the frames that the device sends, one after the other.
  unfoldable pub pump : Option OutProc → Session P → List Bytes → Option OutProc × Session P
  pump f s [] = (f, s)
  pump f s (bytes ∷ rest) = let (f', out) = filtered f bytes in pump f' (device_frame s out) rest

  -- The pump of a connection starts with a filter of its own.
  unfoldable pub pump_ws_to_tcp : Session P → List Bytes → Session P
  pump_ws_to_tcp s frames = (pump (filter_of s.cfg) s frames).1
