-- ===== src/Tui/Safe/Feed.antt =====
-- gateway-go/tui.go: what a key, a read of keys and the opening of the panel may do.
use imsai_8080_esp_tty_gtw.Prelude.{
  Bool, true, false, Bytes, List, [], ◌∷◌, Option, none, some, ◌≡◌, refl, sym, ◌∙◌, All-get_elem?,
  All, if◌then◌else◌,
}
use imsai_8080_esp_tty_gtw.Device.Http.{Request}
use imsai_8080_esp_tty_gtw.Tui.Model.{Control, Outside, new_model}
use imsai_8080_esp_tty_gtw.Tui.Keys.{Key, decode}
use imsai_8080_esp_tty_gtw.Tui.Sound.{IsMarked, IsSound, new_model-IsSound}
use imsai_8080_esp_tty_gtw.Tui.Safe.{Behaves, quiet, then-Behaves, tui_draw-Behaves}
use imsai_8080_esp_tty_gtw.Tui.Safe.Drives.{refresh_disks-Behaves, do_eject-Works, do_mount-Behaves}
use imsai_8080_esp_tty_gtw.Tui.Safe.Keys.{Answers}
use imsai_8080_esp_tty_gtw.Tui.Safe.Modes.{mode_key-Answers, confirm_key-Behaves}
use imsai_8080_esp_tty_gtw.Tui.Modes.{stay, close, with_m}
use imsai_8080_esp_tty_gtw.Tui.Handle.{
  mode_key, is_navigation, tui_key, drawn_if_open, tui_keys, tui_feed, open_tui,
}
use imsai_8080_esp_tty_gtw.Tui.Requests.{
  IsAllowed, a_read, a_eject, a_mount, a_delete, mounted_in-IsFree, IsHarmless, h_read,
  IsAllowed-IsHarmless,
}

module _ (P : Request → Type 0) where
  after-Answers :
      (c c1 : Control) (x : Option (Control × Bool))
      → Behaves P c c1
      → Answers P c1 x
      → Answers P c x
  after-Answers c c1 none b w = w
  after-Answers c c1 (some (c', exited)) b w = then-Behaves P c c1 c' b w

  drawn_if_open-Answers :
      (c : Control) (x : Option (Control × Bool)) → Answers P c x → Answers P c (drawn_if_open x)
  drawn_if_open-Answers c none w = w
  drawn_if_open-Answers c (some (c', true)) w = w
  drawn_if_open-Answers c (some (c', false)) w = tui_draw-Behaves P c c' w

  confirm-Answers :
      (c : Control) (b : Bool) (c' : Control) (x : Option (Control × Bool))
      → (b ≡ true → Behaves P c c')
      → Answers P c x
      → Answers P c (if b then stay c' else x)
  confirm-Answers c true c' x asked w = asked refl
  confirm-Answers c false c' x asked w = w

  choice-Answers :
      (c c1 c2 : Control) (b : Bool) (f : Control → Option (Control × Bool))
      → Answers P c (f c1)
      → Answers P c (f c2)
      → Answers P c (f (if b then c1 else c2))
  choice-Answers c c1 c2 true f w w' = w
  choice-Answers c c1 c2 false f w w' = w'

-- More may be sent.
All-weaker :
    (P Q : Request → Type 0) (rs : List Request) → ((r : Request) → P r → Q r) → All P rs → All Q rs
All-weaker P Q [] each all = tt
All-weaker P Q (r ∷ rs) each (p, all) = (each r p, All-weaker P Q rs each all)

Answers-weaker :
    (P Q : Request → Type 0) (c : Control) (x : Option (Control × Bool))
    → ((r : Request) → P r → Q r)
    → Answers P c x
    → Answers Q c x
Answers-weaker P Q c none each w = w
Answers-weaker P Q c (some (c', exited)) each w =
    let (new, e, all) = w.adds in
    record { sound = w.sound; adds = (new, e, All-weaker P Q new each all) }

-- A mode's handler, on a state with the fields at hand.
module _ (o : Outside) (c : Control) (k : Key) where
  in_mode-Answers :
      (status : Bytes)
      → IsSound c.m
      → Answers
          (IsAllowed o.cfg c.m k)
          c
          (mode_key o (record c { m = record c.m { status = status } }) k)
  in_mode-Answers status v =
      let P = IsAllowed o.cfg c.m k in
      let c1 = record c { m = record c.m { status = status } } in
      after-Answers P c c1 _ (quiet P c c1 v refl) (
        mode_key-Answers P a_read o c1 k v
          (do_eject-Works P a_read o c1 v (λ dr at soft full.
            a_eject dr at (sym (All-get_elem? IsMarked c.m.sel c.m.disks dr v.marked at) ∙ soft)
              full))
          (do_mount-Behaves P a_read o c1 v (λ file at free.
            a_mount file at v.target (mounted_in-IsFree c.m.lib_for file c.m.disks free))))

  -- On a sound panel every key is answered without a panic, whatever the device replies: the panel
  -- is sound again, and each request that is sent is a GET; or it ejects the selected drive, which
  -- is no hard disk and not empty; or it mounts the chosen image into a drive that is not the hard
  -- disk, no other drive having it; or it deletes the image that a pending question is about, the
  -- key being y or Y.
  pub tui_key-Answers : IsSound c.m → Answers (IsAllowed o.cfg c.m k) c (tui_key o c k)
  unfolding tui_key
  tui_key-Answers v =
      let P = IsAllowed o.cfg c.m k in
      confirm-Answers P c c.m.confirm _ _
        (λ asked.
          confirm_key-Behaves P a_read o c k v
            (λ name act yes_key. a_delete name asked act yes_key))
        (choice-Answers P c (record c { m = record c.m { status = [] } }) c (is_navigation k)
          (λ c1. mode_key o c1 k) (in_mode-Answers [] v) (in_mode-Answers c.m.status v))

-- Every request of a read of keys is harmless.
module _ (o : Outside) where
  then_keys :
      (c : Control) (ks : List Key) (x : Option (Control × Bool))
      → Answers (IsHarmless o.cfg) c x
      → ((c' : Control) → IsSound c'.m → Answers (IsHarmless o.cfg) c' (tui_keys o c' ks))
      → Answers (IsHarmless o.cfg) c (elim x [
        | none ↦ none
        | some (c', exited) ↦ elim exited [ true ↦ close c' | false ↦ tui_keys o c' ks ]
      ])
  then_keys c ks none w rest = w
  then_keys c ks (some (c', true)) w rest = w
  then_keys c ks (some (c', false)) w rest =
      after-Answers (IsHarmless o.cfg) c c' _ w (rest c' w.sound)

  tui_keys-Answers :
      (c : Control) (ks : List Key) → IsSound c.m → Answers (IsHarmless o.cfg) c (tui_keys o c ks)
  unfolding tui_keys
  tui_keys-Answers c [] v = quiet (IsHarmless o.cfg) c c v refl
  tui_keys-Answers c (k ∷ ks) v =
      then_keys c ks (tui_key o c k)
        (Answers-weaker (IsAllowed o.cfg c.m k) (IsHarmless o.cfg) c _
          (IsAllowed-IsHarmless o.cfg c.m k) (tui_key-Answers o c k v))
        (λ c' v'. tui_keys-Answers c' ks v')

  -- On a sound panel every read of the client, of any number of keys, is answered without a panic,
  -- whatever the device replies, the drawing included: the panel is sound again, and no request
  -- ejects the hard disk or mounts into it.
  pub tui_feed-Answers :
      (c : Control) (bytes : Bytes)
      → IsSound c.m
      → Answers (IsHarmless o.cfg) c (tui_feed o c bytes)
  unfolding tui_feed
  tui_feed-Answers c bytes v =
      let (dec, keys) = decode c.m.dec bytes in
      let P = IsHarmless o.cfg in
      let c1 = with_m c (record c.m { dec = dec }) in
      after-Answers P c c1 _ (quiet P c c1 v refl)
        (drawn_if_open-Answers P c1 (tui_keys o c1 keys) (tui_keys-Answers c1 keys v))

  -- The panel opens sound.
  pub open_tui-Behaves : (c : Control) → Behaves (IsHarmless o.cfg) c (open_tui o c)
  unfolding open_tui
  open_tui-Behaves c =
      let P = IsHarmless o.cfg in
      let c1 = with_m c new_model in
      tui_draw-Behaves P c _
        (refresh_disks-Behaves P h_read o c c1 (quiet P c c1 new_model-IsSound refl))
