-- ===== src/Tui/Due.antt =====
-- gateway-go/tui.go: what the panel does ask of the device.
use imsai_8080_esp_tty_gtw.Prelude.{
  ℕ, Bool, true, false, Bytes, List, [], ◌∷◌, Option, none, some, ◌≡◌, refl, get_elem?, text_eq,
}
use imsai_8080_esp_tty_gtw.Config.Settings.{Config}
use imsai_8080_esp_tty_gtw.Device.Http.{Request, get_url, do_status_only}
use imsai_8080_esp_tty_gtw.Device.Lists.{DriveEntry}
use imsai_8080_esp_tty_gtw.Device.Drives.{
  mount_request, eject_request, delete_request, mount_disk, eject_disk, delete_library_image,
}
use imsai_8080_esp_tty_gtw.Device.Sent.{Adds}
use imsai_8080_esp_tty_gtw.Tui.Keys.{Key, k_char, k_enter}
use imsai_8080_esp_tty_gtw.Tui.Model.{TuiModel, Control, Outside, tm_disks, tm_library}
use imsai_8080_esp_tty_gtw.Tui.Disks.{
  on_drive, eject_drive, do_eject, mounted_in, mount_file, do_mount,
}
use imsai_8080_esp_tty_gtw.Tui.Library.{delete_lib}
use imsai_8080_esp_tty_gtw.Tui.Modes.{disks_char, disks_key, picker_key}
use imsai_8080_esp_tty_gtw.Tui.Handle.{answered_no_more, confirm_key, mode_key, tui_key}
use imsai_8080_esp_tty_gtw.Tui.Sound.{IsSound}
use imsai_8080_esp_tty_gtw.Tui.Safe.{quiet}
use imsai_8080_esp_tty_gtw.Tui.Safe.Drives.{ejected-Behaves, mounted-Behaves}
use imsai_8080_esp_tty_gtw.Tui.Safe.Panes.{deleted-Behaves}
use imsai_8080_esp_tty_gtw.Tui.Safe.Modes.{answered_no_more-Behaves}

-- The request that a key is for, on the state it finds: e on a floppy that can be ejected, Enter on
-- an image that no other drive has, y on a question.
pub data IsDue (cfg : Config) (m : TuiModel) : Key → Request → Type 0 where
  due_eject :
      (dr : DriveEntry)
      → m.confirm ≡ false
      → m.mode ≡ tm_disks
      → get_elem? m.disks m.sel ≡ some dr
      → dr.hard_disk ≡ false
      → text_eq dr.image [] ≡ false
      → IsDue cfg m (k_char b'e') (eject_request cfg dr.id)
  due_mount :
      (file : Bytes)
      → m.confirm ≡ false
      → m.mode ≡ tm_library
      → get_elem? m.lib_view m.lib_sel ≡ some file
      → mounted_in m.lib_for file m.disks ≡ none
      → IsDue cfg m k_enter (mount_request cfg m.lib_for file)
  due_delete :
      (name : Bytes)
      → m.confirm ≡ true
      → m.confirm_act ≡ some name
      → IsDue cfg m (k_char b'y') (delete_request cfg name)

pub data IsGet : Request → Type 0 where
  gets : (url : Bytes) → IsGet (get_url url)

-- The key goes on with the panel, its request is sent first, and GETs behind it.
abbrev pub Sends : Control → Request → Option (Control × Bool) → Type 0
Sends c r none = ⊥
Sends c r (some (c', exited)) = (exited ≡ false) × Adds IsGet (r ∷ c.log) c'.log

on_drive-get_elem? :
    (ds : List DriveEntry) (sel : ℕ) (c : Control) (f : DriveEntry → Control) (dr : DriveEntry)
    → get_elem? ds sel ≡ some dr
    → on_drive ds sel c f ≡ some (f dr)
on_drive-get_elem? [] sel c f dr e = absurd cc
on_drive-get_elem? (d ∷ ds) sel c f dr e = rw e refl

module _ (o : Outside) (c : Control) (v : IsSound c.m) where
  eject_drive-Sends :
      (dr : DriveEntry)
      → dr.hard_disk ≡ false
      → text_eq dr.image [] ≡ false
      → Adds IsGet (eject_request o.cfg dr.id ∷ c.log) (eject_drive o c dr).log
  unfolding eject_drive eject_disk do_status_only
  eject_drive-Sends dr soft full =
      let c1 = record c { log = eject_request o.cfg dr.id ∷ c.log } in
      rw (soft, full, eject_drive, eject_disk, do_status_only)
        ((ejected-Behaves IsGet gets o c1 c1 dr.id (eject_disk o.net o.cfg c.log dr.id).0
          (quiet IsGet c1 c1 v refl)).adds)

  mount_file-Sends :
      (file : Bytes)
      → mounted_in c.m.lib_for file c.m.disks ≡ none
      → Adds IsGet (mount_request o.cfg c.m.lib_for file ∷ c.log) (mount_file o c file).log
  unfolding mount_file mount_disk do_status_only
  mount_file-Sends file free =
      let c1 = record c {
        log = mount_request o.cfg c.m.lib_for file ∷ c.log;
        m = record c.m { mode = tm_disks };
      } in
      rw (free, mount_file)
        ((mounted-Behaves IsGet gets o c1 c1 c.m.lib_for file
          (mount_disk o.net o.cfg c.log c.m.lib_for file).0 (quiet IsGet c1 c1 v refl)).adds)

  delete_lib-Sends :
      (name : Bytes)
      → Adds IsGet (delete_request o.cfg name ∷ c.log) (delete_lib o (answered_no_more c) name).log
  unfolding delete_lib delete_library_image do_status_only
  delete_lib-Sends name =
      let c1 = record (answered_no_more c) { log = delete_request o.cfg name ∷ c.log } in
      (deleted-Behaves IsGet gets o c1 c1 name (delete_library_image o.net o.cfg c.log name).0
        (quiet IsGet c1 c1 (answered_no_more-Behaves IsGet gets o c v).sound refl)).adds

-- On a sound panel without a question, e on the drives sends the ejection of the selected one, where
-- it is not marked as a hard disk and not empty, and Enter on the images sends the mount of the
-- selected one, where no other drive has it; y on a question sends the deletion that it is about.
-- The panel stays open, and behind the request only GETs are sent.
pub tui_key-IsDue :
    (o : Outside) (c : Control) (k : Key) (r : Request)
    → IsSound c.m
    → IsDue o.cfg c.m k r
    → Sends c r (tui_key o c k)
unfolding tui_key mode_key disks_key disks_char picker_key confirm_key do_eject do_mount
tui_key-IsDue o c k r v (due_eject dr calm mode at soft full) =
    rw (calm, mode, tui_key, on_drive-get_elem? c.m.disks c.m.sel c (eject_drive o c) dr at)
      (refl, eject_drive-Sends o c v dr soft full)
tui_key-IsDue o c k r v (due_mount file calm mode at free) =
    rw (calm, mode, at, tui_key) (refl, mount_file-Sends o c v file free)
tui_key-IsDue o c k r v (due_delete name asked act) =
    rw (asked, act, tui_key) (refl, delete_lib-Sends o c v name)
