-- ===== src/Tui/Safe/Drives.antt =====
-- gateway-go/tui.go: the handlers of the pane of the drives and of the choice of an image: they keep
-- the panel sound, and send, beside GETs, the requests that their tests have left.
use imsai_8080_esp_tty_gtw.Prelude.{
  ℕ, ◌<◌, true, false, not, Bytes, List, [], ◌∷◌, Option, none, some, ◌≡◌, refl, ◌⊎◌, inl, inr,
  arith, length, get_elem?, Result, ok, err, text_eq, get_elem?_found, All-get_elem?,
}
use imsai_8080_esp_tty_gtw.Device.Http.{Request, get_url, do_status_only}
use imsai_8080_esp_tty_gtw.Device.Lists.{DriveEntry, get_disks, get_library}
use imsai_8080_esp_tty_gtw.Device.Drives.{mount_request, eject_request, mount_disk, eject_disk}
use imsai_8080_esp_tty_gtw.Device.Sent.{one-Adds, get_disks-Adds, get_library-Adds}
use imsai_8080_esp_tty_gtw.Tui.Model.{Control, Outside, filter_dsk, keep_within, tm_disks}
use imsai_8080_esp_tty_gtw.Tui.Disks.{
  refresh_disks, shown_disks, pick_from, load_and_pick, open_for, with_library, on_drive,
  open_library, ejected, eject_drive, do_eject, mounted_in, mounted, mount_unless, mount_file,
  do_mount,
}
use imsai_8080_esp_tty_gtw.Tui.Sound.{is_drive_i, IsMarked-is_drive_i, IsMarked, IsSound}
use imsai_8080_esp_tty_gtw.Tui.Safe.{
  true, one-Adds, text_eq, ok, ◌∷◌, get_elem?, false, err, none, IsSound, IsMarkedResult,
  refresh_disks, open_for, load_and_pick, Result, DriveEntry, some, [], Outside, ◌≡◌, get_url,
  Option, List, Control, Bytes, ℕ, Request, Behaves, IsMarkedResult, get_disks-IsMarkedResult,
  quiet, then-Behaves, say-Behaves, if-Behaves, choice-Behaves,
}

-- Handlers that may panic: they do not, and behave.
abbrev pub Works : (Request → Type 0) → Control → Option Control → Type 0
Works P c none = ⊥
Works P c (some c') = Behaves P c c'

keep_within-lt-length {ℓ} :
    {A : Type ℓ} (sel : ℕ) (xs : List A) → (xs ≡ []) ⊎ (keep_within sel (length xs) < length xs)
keep_within-lt-length sel [] = inl refl
keep_within-lt-length sel (x ∷ xs) = inr (ground arith)

module _ (P : Request → Type 0) (gets : (url : Bytes) → P (get_url url)) (o : Outside) where
  shown_disks-Behaves :
      (c c' : Control) (r : Result (List DriveEntry))
      → IsMarkedResult r
      → Behaves P c c'
      → Behaves P c (shown_disks c' r)
  shown_disks-Behaves c c' (err e) good b = say-Behaves P c c' _ b
  shown_disks-Behaves c c' (ok d) good b = record {
    sound = record {
      sel_in = keep_within-lt-length c'.m.sel d;
      switch_in = b.sound.switch_in;
      marked = good;
      target = b.sound.target;
      asked = b.sound.asked;
    };
    adds = b.adds;
  }

  pub refresh_disks-Behaves : (c c' : Control) → Behaves P c c' → Behaves P c (refresh_disks o c')
  unfolding refresh_disks
  refresh_disks-Behaves c c' b =
      let (r, log') = get_disks o.net o.codec o.cfg c'.log in
      shown_disks-Behaves c (record c' { log = log' }) r (get_disks-IsMarkedResult o c'.log)
        (then-Behaves P c c' (record c' { log = log' }) b
          (record { sound = b.sound; adds = get_disks-Adds P gets o.net o.codec o.cfg c'.log }))

  pick_from-Behaves :
      (c c' : Control) (dr : DriveEntry) (view : List Bytes)
      → is_drive_i dr.id ≡ false
      → Behaves P c c'
      → Behaves P c (pick_from c' dr view)
  pick_from-Behaves c c' dr [] soft b = record { sound = b.sound; adds = b.adds }
  pick_from-Behaves c c' dr (f ∷ view) soft b = record {
    sound = record {
      sel_in = b.sound.sel_in;
      switch_in = b.sound.switch_in;
      marked = b.sound.marked;
      target = soft;
      asked = b.sound.asked;
    };
    adds = b.adds;
  }

  with_library-Behaves :
      (c c' : Control) (dr : DriveEntry) (r : Result (List Bytes))
      → is_drive_i dr.id ≡ false
      → Behaves P c c'
      → Behaves P c (with_library c' dr r)
  with_library-Behaves c c' dr (err e) soft b = say-Behaves P c c' _ b
  with_library-Behaves c c' dr (ok lib) soft b =
      pick_from-Behaves c (record c' { m = record c'.m { library = lib; lib_loaded = true } }) dr
        (filter_dsk lib) soft (record { sound = b.sound; adds = b.adds })

  load_and_pick-Behaves :
      (c : Control) (dr : DriveEntry)
      → IsSound c.m
      → is_drive_i dr.id ≡ false
      → Behaves P c (load_and_pick o c dr)
  unfolding load_and_pick
  load_and_pick-Behaves c dr v soft =
      let (r, log') = get_library o.net o.codec o.cfg c.log in
      if-Behaves P c _ _ c.m.lib_loaded
        (λ _. pick_from-Behaves c c dr (filter_dsk c.m.library) soft (quiet P c c v refl))
        (λ _.
          with_library-Behaves c (record c { log = log' }) dr r soft
            (record { sound = v; adds = get_library-Adds P gets o.net o.codec o.cfg c.log }))

  open_for-Behaves :
      (c : Control) (dr : DriveEntry) → IsSound c.m → IsMarked dr → Behaves P c (open_for o c dr)
  unfolding open_for
  open_for-Behaves c dr v marked =
      let said = λ (message : Bytes). say-Behaves P c c message (quiet P c c v refl) in
      if-Behaves P c _ _ dr.hard_disk (λ _. said _)
        (λ soft.
          if-Behaves P c _ _ (not (text_eq dr.image [])) (λ _. said _)
            (λ _. load_and_pick-Behaves c dr v (IsMarked-is_drive_i dr marked soft)))

  -- The selected drive is there.
  on_drive-Works :
      (c : Control) (ds : List DriveEntry) (sel : ℕ) (f : DriveEntry → Control)
      → (ds ≡ []) ⊎ (sel < length ds)
      → Behaves P c c
      → ((dr : DriveEntry) → get_elem? ds sel ≡ some dr → Behaves P c (f dr))
      → Works P c (on_drive ds sel c f)
  on_drive-Works c [] sel f within b each = b
  on_drive-Works c (d ∷ ds) sel f (inl e) b each = absurd cc
  on_drive-Works c (d ∷ ds) sel f (inr lt) b each =
      let (dr, e) = get_elem?_found sel (d ∷ ds) lt in rw e (each dr e)

  pub open_library-Works : (c : Control) → IsSound c.m → Works P c (open_library o c)
  unfolding open_library
  open_library-Works c v =
      on_drive-Works c c.m.disks c.m.sel (open_for o c) v.sel_in (quiet P c c v refl)
        (λ dr e. open_for-Behaves c dr v (All-get_elem? IsMarked c.m.sel c.m.disks dr v.marked e))

  pub ejected-Behaves :
      (c c' : Control) (id : Bytes) (r : Result (Unit {0}))
      → Behaves P c c'
      → Behaves P c (ejected o c' id r)
  ejected-Behaves c c' id (err e) b = say-Behaves P c c' e b
  ejected-Behaves c c' id (ok _) b = say-Behaves P c _ _ (refresh_disks-Behaves c c' b)

  eject_drive-Behaves :
      (c : Control) (dr : DriveEntry)
      → IsSound c.m
      → (dr.hard_disk ≡ false → text_eq dr.image [] ≡ false → P (eject_request o.cfg dr.id))
      → Behaves P c (eject_drive o c dr)
  unfolding eject_drive eject_disk do_status_only
  eject_drive-Behaves c dr v allowed =
      let (r, log') = eject_disk o.net o.cfg c.log dr.id in
      let said = λ (message : Bytes). say-Behaves P c c message (quiet P c c v refl) in
      if-Behaves P c _ _ dr.hard_disk (λ _. said _)
        (λ soft.
          if-Behaves P c _ _ (text_eq dr.image []) (λ _. said _)
            (λ full.
              ejected-Behaves c (record c { log = log' }) dr.id r
                (record { sound = v; adds = one-Adds P _ c.log (allowed soft full) })))

  pub do_eject-Works :
      (c : Control)
      → IsSound c.m
      → ((dr : DriveEntry)
          → get_elem? c.m.disks c.m.sel ≡ some dr
          → dr.hard_disk ≡ false
          → text_eq dr.image [] ≡ false
          → P (eject_request o.cfg dr.id))
      → Works P c (do_eject o c)
  unfolding do_eject
  do_eject-Works c v allowed =
      on_drive-Works c c.m.disks c.m.sel (eject_drive o c) v.sel_in (quiet P c c v refl)
        (λ dr e. eject_drive-Behaves c dr v (allowed dr e))

  pub mounted-Behaves :
      (c c' : Control) (drive file : Bytes) (r : Result (Unit {0}))
      → Behaves P c c'
      → Behaves P c (mounted o c' drive file r)
  mounted-Behaves c c' drive file (err e) b = say-Behaves P c c' _ b
  mounted-Behaves c c' drive file (ok _) b = say-Behaves P c _ _ (refresh_disks-Behaves c c' b)

  mount_unless-Behaves :
      (c c' : Control) (drive file : Bytes) (at : Option Bytes)
      → Behaves P c c'
      → (at ≡ none → P (mount_request o.cfg drive file))
      → Behaves P c (mount_unless o c' drive file at)
  unfolding mount_disk do_status_only
  mount_unless-Behaves c c' drive file (some id) b allowed = say-Behaves P c c' _ b
  mount_unless-Behaves c c' drive file none b allowed =
      let (r, log') = mount_disk o.net o.cfg c'.log drive file in
      mounted-Behaves c (record c' { log = log' }) drive file r
        (then-Behaves P c c' (record c' { log = log' }) b
          (record { sound = b.sound; adds = one-Adds P _ c'.log (allowed refl) }))

  pub do_mount-Behaves :
      (c : Control)
      → IsSound c.m
      → ((file : Bytes)
          → get_elem? c.m.lib_view c.m.lib_sel ≡ some file
          → mounted_in c.m.lib_for file c.m.disks ≡ none
          → P (mount_request o.cfg c.m.lib_for file))
      → Behaves P c (do_mount o c)
  unfolding do_mount mount_file
  do_mount-Behaves c v allowed =
      choice-Behaves P c (mount_file o c) (get_elem? c.m.lib_view c.m.lib_sel) (quiet P c c v refl)
        (λ file e.
          mount_unless-Behaves c (record c { m = record c.m { mode = tm_disks } }) c.m.lib_for file
            (mounted_in c.m.lib_for file c.m.disks) (quiet P c _ v refl) (allowed file e))
