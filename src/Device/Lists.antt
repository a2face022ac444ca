-- ===== src/Device/Lists.antt =====
-- gateway-go/device.go: what the gateway reads from the device: the drives, the library, the machine,
-- an image and the system. `encoding/json` and `net/url` are parameters.
use imsai_8080_esp_tty_gtw.Prelude.{
  ℕ, Bool, not, ◌||◌, Bytes, List, [], ◌∷◌, ◌++◌, Result, ok, err, codes, ◌==◌, if◌then◌else◌,
  length, map, keep, text_eq, to_lower, has_prefix, has_suffix, sort_on, ◌>>=◌,
}
use imsai_8080_esp_tty_gtw.Decimal.{show_nat}
use imsai_8080_esp_tty_gtw.Config.Settings.{Config}
use imsai_8080_esp_tty_gtw.Device.Http.{
  Net, Request, Answer, failed, answered, get_url, bad_status, http_get_body, device_base,
}
use imsai_8080_esp_tty_gtw.Device.Info.{SysInfo}

-- What the JSON decoder makes of a body, with the fields that are read; the escape of a path; and
-- the clock, in nanoseconds, when a number of requests has been sent.
pub record Codec : Type 0 where
  pub decode_disks : Bytes → Result (List (Bytes × Bytes))
  pub decode_library : Bytes → Result (List (Bytes × ℕ))
  pub decode_machine : Bytes → Result Bytes
  pub decode_system : Bytes → Result SysInfo
  pub path_escape : Bytes → Bytes
  pub now : ℕ → ℕ

pub record DriveEntry : Type 0 where
  pub id : Bytes
  pub image : Bytes
  pub remote : Bool
  pub hard_disk : Bool

unfoldable pub is_hard_disk : Bytes → Bytes → Bool
is_hard_disk id image = text_eq id (codes "I") || has_suffix (to_lower image) (codes ".hdd")

abbrev pub drive_entry : Bytes × Bytes → DriveEntry
drive_entry (id, image) = record {
  id = id;
  image = image;
  remote = has_prefix image (codes ">");
  hard_disk = is_hard_disk id image;
}

-- The body of a GET, decoded.
abbrev pub fetch {ℓ} :
    {A : Type ℓ} → Net → List Request → Bytes → Bytes → (Bytes → Result A) → Result A × List Request
fetch net log url what decoder =
    let (body, log') = http_get_body net log url what in (body >>= decoder, log')

unfoldable pub drives_of : List (Bytes × Bytes) → List DriveEntry
drives_of entries = map drive_entry (sort_on (λ e. e.0) entries)

unfoldable pub get_disks :
    Net → Codec → Config → List Request → Result (List DriveEntry) × List Request
get_disks net codec cfg log =
    fetch net log (device_base cfg ++ (codes "/disks?" ++ show_nat (codec.now (length log))))
      (codes "GET /disks") (λ b. codec.decode_disks b >>= λ m. ok (drives_of m))

abbrev pub has_name : Bytes × ℕ → Bool
has_name e = not (text_eq e.0 [])

abbrev pub library_url : Config → Bytes
library_url cfg = device_base cfg ++ codes "/library?S"

unfoldable pub get_library :
    Net → Codec → Config → List Request → Result (List Bytes) × List Request
get_library net codec cfg log = fetch net log (library_url cfg) (codes "GET /library") (λ b.
    codec.decode_library b >>= λ es. ok (sort_on (λ n. n) (map (λ e. e.0) (keep has_name es))))

pub record LibEntry : Type 0 where
  pub filename : Bytes
  pub size : ℕ

abbrev pub lib_entry : Bytes × ℕ → LibEntry
lib_entry (filename, size) = record { filename = filename; size = size }

-- `sort.Slice` may put entries of equal names in either order; here they keep the device's.
unfoldable pub get_library_detailed :
    Net → Codec → Config → List Request → Result (List LibEntry) × List Request
get_library_detailed net codec cfg log =
    fetch net log (library_url cfg) (codes "GET /library") (λ b. codec.decode_library b >>= λ es.
    ok (sort_on (λ e. e.filename) (map lib_entry (keep has_name es))))

abbrev pub some_machine : Bytes → Result Bytes
some_machine m = if text_eq m [] then err (codes "empty machine id") else ok m

unfoldable pub get_machine : Net → Codec → Config → List Request → Result Bytes × List Request
get_machine net codec cfg log =
    fetch net log (device_base cfg ++ codes "/system?machine") (codes "GET /system?machine")
      (λ b. codec.decode_machine b >>= some_machine)

unfoldable pub get_system : Net → Codec → Config → List Request → Result SysInfo × List Request
get_system net codec cfg log =
    fetch net log (device_base cfg ++ codes "/system") (codes "GET /system") codec.decode_system

-- One request, and the error of reading the body as it is.
abbrev pub downloaded : Bytes → Answer → Result Bytes
downloaded file (failed e) = err e
downloaded file (answered code body) =
    if code == 200 then body else err (bad_status (codes "download " ++ file) code)

unfoldable pub download_image :
    Net → Codec → Config → List Request → Bytes → Bytes → Result Bytes × List Request
download_image net codec cfg log machine file =
    let url =
      device_base cfg
      ++ (codes "/"
          ++ (codec.path_escape machine ++ (codes "/disks/" ++ codec.path_escape file))) in
    let log' = get_url url ∷ log in (downloaded file (net log'), log')
