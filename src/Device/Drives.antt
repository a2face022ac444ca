-- ===== src/Device/Drives.antt =====
-- gateway-go/device.go: the requests that change something on the device: `mountDisk`, `ejectDisk`
-- and `deleteLibraryImage`.
use imsai_8080_esp_tty_gtw.Prelude.{Bytes, List, [], ◌++◌, Result, codes}
use imsai_8080_esp_tty_gtw.Config.Settings.{Config}
use imsai_8080_esp_tty_gtw.Device.Http.{
  Net, Request, put_method, delete_method, do_status_only, device_base,
}

abbrev pub drive_url : Config → Bytes → Bytes
drive_url cfg drive = device_base cfg ++ (codes "/disks?" ++ (drive ++ codes ":DSK:"))

abbrev pub mount_request : Config → Bytes → Bytes → Request
mount_request cfg drive file = record {
  method = put_method;
  url = drive_url cfg drive;
  body = file;
}

abbrev pub eject_request : Config → Bytes → Request
eject_request cfg drive = record { method = delete_method; url = drive_url cfg drive; body = [] }

abbrev pub delete_request : Config → Bytes → Request
delete_request cfg file = record {
  method = delete_method;
  url = device_base cfg ++ codes "/library";
  body = file;
}

unfoldable pub mount_disk :
    Net → Config → List Request → Bytes → Bytes → Result (Unit {0}) × List Request
mount_disk net cfg log drive file =
    do_status_only net log (mount_request cfg drive file) (codes "mount " ++ drive)

unfoldable pub eject_disk : Net → Config → List Request → Bytes → Result (Unit {0}) × List Request
eject_disk net cfg log drive =
    do_status_only net log (eject_request cfg drive) (codes "eject " ++ drive)

unfoldable pub delete_library_image :
    Net → Config → List Request → Bytes → Result (Unit {0}) × List Request
delete_library_image net cfg log file =
    do_status_only net log (delete_request cfg file) (codes "delete " ++ file)
