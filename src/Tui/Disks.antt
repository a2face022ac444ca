-- ===== src/Tui/Disks.antt =====
-- gateway-go/tui.go: the pane of the drives, and the choice of an image to mount. `none` is the panic
-- of an index out of range.
use mathlib.Core.Option
use imsai_8080_esp_tty_gtw.Prelude.{
  ℕ, true, not, ◌&&◌, Bytes, List, [], ◌∷◌, ◌++◌, Option, none, some, Result, ok, err, codes,
  if◌then◌else◌, text_eq, contains, get_elem?, length,
}
use imsai_8080_esp_tty_gtw.Device.Lists.{DriveEntry, get_disks, get_library}
use imsai_8080_esp_tty_gtw.Device.Drives.{mount_disk, eject_disk}
use imsai_8080_esp_tty_gtw.Tui.Model.{
  tm_disks, tm_library, Control, Outside, keep_within, filter_dsk,
}
use imsai_8080_esp_tty_gtw.Tui.Cpa.{say}

abbrev pub with_disks : Control → List DriveEntry → Control
with_disks c d = record c {
  m = record c.m { disks = d; sel = keep_within c.m.sel (length d); status = [] };
}

abbrev pub shown_disks : Control → Result (List DriveEntry) → Control
shown_disks c (err e) = say c (codes "disks: " ++ e)
shown_disks c (ok d) = with_disks c d

unfoldable pub refresh_disks : Outside → Control → Control
refresh_disks o c =
    let (r, log') = get_disks o.net o.codec o.cfg c.log in shown_disks (record c { log = log' }) r

abbrev pub pick_from : Control → DriveEntry → List Bytes → Control
pick_from c dr [] =
    say (record c { m = record c.m { lib_view = [] } }) (codes "no .dsk images in the library")
pick_from c dr (f ∷ view) = record c {
  m = record c.m {
    lib_view = f ∷ view;
    lib_for = dr.id;
    lib_sel = 0;
    mode = tm_library;
    status = [];
  };
}

-- On the library as it is loaded.
abbrev pub pick_image : Control → DriveEntry → Control
pick_image c dr = pick_from c dr (filter_dsk c.m.library)

abbrev pub with_library : Control → DriveEntry → Result (List Bytes) → Control
with_library c dr (err e) = say c (codes "library: " ++ e)
with_library c dr (ok lib) =
    pick_image (record c { m = record c.m { library = lib; lib_loaded = true } }) dr

unfoldable pub load_and_pick : Outside → Control → DriveEntry → Control
load_and_pick o c dr =
    let (r, log') = get_library o.net o.codec o.cfg c.log in
    if c.m.lib_loaded then pick_image c dr else with_library (record c { log = log' }) dr r

unfoldable pub open_for : Outside → Control → DriveEntry → Control
unfolding load_and_pick
open_for o c dr =
    if dr.hard_disk
    then say c (dr.id ++ codes ": hard disk, set its image in the IMSAI config while powered off")
    else if not (text_eq dr.image [])
    then say c (dr.id ++ codes " is occupied; eject first (e)")
    else load_and_pick o c dr

-- With the selected drive, if there is any.
abbrev pub on_drive : List DriveEntry → ℕ → Control → (DriveEntry → Control) → Option Control
on_drive [] sel c f = some c
on_drive (d ∷ ds) sel c f = Option.map f (get_elem? (d ∷ ds) sel)

unfoldable pub open_library : Outside → Control → Option Control
unfolding open_for
open_library o c = on_drive c.m.disks c.m.sel c (open_for o c)

abbrev pub ejected : Outside → Control → Bytes → Result (Unit {0}) → Control
ejected o c id (err e) = say c e
ejected o c id (ok _) = say (refresh_disks o c) (codes "ejected " ++ id)

unfoldable pub eject_drive : Outside → Control → DriveEntry → Control
unfolding refresh_disks
eject_drive o c dr =
    let (r, log') = eject_disk o.net o.cfg c.log dr.id in
    if dr.hard_disk
    then say c (dr.id ++ codes ": hard disk, not removable")
    else if text_eq dr.image []
    then say c (dr.id ++ codes " is already empty")
    else ejected o (record c { log = log' }) dr.id r

unfoldable pub do_eject : Outside → Control → Option Control
unfolding eject_drive
do_eject o c = on_drive c.m.disks c.m.sel c (eject_drive o c)

-- The first other drive that has the image.
unfoldable pub mounted_in : Bytes → Bytes → List DriveEntry → Option Bytes
mounted_in drive file [] = none
mounted_in drive file (dr ∷ drs) =
    let rest = mounted_in drive file drs in
    if not (text_eq dr.id drive) && text_eq dr.image file then some dr.id else rest

abbrev pub mount_failure : Bytes → Bytes → Bytes
mount_failure file e =
    if contains e (codes "HTTP 404")
    then codes "cannot mount " ++ (file ++ codes ": image not found on device")
    else e

abbrev pub mounted : Outside → Control → Bytes → Bytes → Result (Unit {0}) → Control
mounted o c drive file (err e) = say c (mount_failure file e)
mounted o c drive file (ok _) =
    say (refresh_disks o c) (codes "mounted " ++ (file ++ (codes " into " ++ drive)))

-- With the drive that has the image already, if there is one.
abbrev pub mount_unless : Outside → Control → Bytes → Bytes → Option Bytes → Control
mount_unless o c drive file (some id) = say c (
    file
    ++ (codes " is already mounted in drive "
        ++ (id ++ codes " (one image cannot be mounted twice)")))
mount_unless o c drive file none =
    let (r, log') = mount_disk o.net o.cfg c.log drive file in
    mounted o (record c { log = log' }) drive file r

unfoldable pub mount_file : Outside → Control → Bytes → Control
unfolding refresh_disks
mount_file o c file =
    mount_unless o (record c { m = record c.m { mode = tm_disks } }) c.m.lib_for file
      (mounted_in c.m.lib_for file c.m.disks)

-- An index out of range is tested here.
unfoldable pub do_mount : Outside → Control → Control
unfolding mount_file
do_mount o c = Option.get_or (Option.map (mount_file o c) (get_elem? c.m.lib_view c.m.lib_sel)) c
