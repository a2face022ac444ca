-- ===== src/Tui/Requests.antt =====
-- gateway-go/tui.go: what the panel may ask of the device, and that the search of the drives for an
-- image finds it.
use imsai_8080_esp_tty_gtw.Tui.Keys.{Key, k_char}
use imsai_8080_esp_tty_gtw.Config.Settings.{Config}
use imsai_8080_esp_tty_gtw.Prelude.{
  true, false, Bytes, List, [], ◌∷◌, none, some, ◌≡◌, ◌⊎◌, inl, inr, arith, All, get_elem?,
  Bool-cases, text_eq,
}
use imsai_8080_esp_tty_gtw.Device.Http.{Request, get_url}
use imsai_8080_esp_tty_gtw.Device.Lists.{DriveEntry, is_hard_disk}
use imsai_8080_esp_tty_gtw.Device.Drives.{mount_request, eject_request, delete_request}
use imsai_8080_esp_tty_gtw.Tui.Model.{TuiModel}
use imsai_8080_esp_tty_gtw.Tui.Disks.{mounted_in}
use imsai_8080_esp_tty_gtw.Tui.Sound.{is_drive_i, is_hard_disk-is_drive_i}

-- A drive is the one at hand, or has another image.
abbrev pub IsFree : Bytes → Bytes → DriveEntry → Type 0
IsFree drive file d = (text_eq d.id drive ≡ true) ⊎ (text_eq d.image file ≡ false)

abbrev pub IsYes : Key → Type 0
IsYes k = (k ≡ k_char b'y') ⊎ (k ≡ k_char b'Y')

-- The requests that a key may send, on the state it finds.
pub data IsAllowed (cfg : Config) (m : TuiModel) (k : Key) : Request → Type 0 where
  a_read : (url : Bytes) → IsAllowed cfg m k (get_url url)
  a_eject :
      (dr : DriveEntry)
      → get_elem? m.disks m.sel ≡ some dr
      → is_hard_disk dr.id dr.image ≡ false
      → text_eq dr.image [] ≡ false
      → IsAllowed cfg m k (eject_request cfg dr.id)
  a_mount :
      (file : Bytes)
      → get_elem? m.lib_view m.lib_sel ≡ some file
      → is_drive_i m.lib_for ≡ false
      → All (IsFree m.lib_for file) m.disks
      → IsAllowed cfg m k (mount_request cfg m.lib_for file)
  a_delete :
      (name : Bytes)
      → m.confirm ≡ true
      → m.confirm_act ≡ some name
      → IsYes k
      → IsAllowed cfg m k (delete_request cfg name)

-- The requests of a session of the panel: nothing is ejected from, or mounted into, the hard disk.
pub data IsHarmless (cfg : Config) : Request → Type 0 where
  h_read : (url : Bytes) → IsHarmless cfg (get_url url)
  h_eject : (id : Bytes) → is_drive_i id ≡ false → IsHarmless cfg (eject_request cfg id)
  h_mount : (id file : Bytes) → is_drive_i id ≡ false → IsHarmless cfg (mount_request cfg id file)
  h_delete : (name : Bytes) → IsHarmless cfg (delete_request cfg name)

pub IsAllowed-IsHarmless :
    (cfg : Config) (m : TuiModel) (k : Key) (r : Request) → IsAllowed cfg m k r → IsHarmless cfg r
IsAllowed-IsHarmless cfg m k r (a_read url) = h_read url
IsAllowed-IsHarmless cfg m k r (a_eject dr at soft full) =
    h_eject dr.id (is_hard_disk-is_drive_i dr.id dr.image soft)
IsAllowed-IsHarmless cfg m k r (a_mount file at soft free) = h_mount m.lib_for file soft
IsAllowed-IsHarmless cfg m k r (a_delete name asked act by) = h_delete name

-- No drive is found to have the image: every other drive has another.
pub mounted_in-IsFree :
    (drive file : Bytes) (ds : List DriveEntry)
    → mounted_in drive file ds ≡ none
    → All (IsFree drive file) ds
unfolding mounted_in
mounted_in-IsFree drive file [] e = tt
mounted_in-IsFree drive file (d ∷ ds) e =
    let rest = mounted_in-IsFree drive file ds in
    elim (Bool-cases (text_eq d.id drive)) [
      | inl same ↦ (inl same, rest (ground arith))
      | inr other ↦ elim (Bool-cases (text_eq d.image file)) [
        | inl has ↦ absurd (ground arith)
        | inr lacks ↦ (inr lacks, rest (ground arith))
      ]
    ]
