-- ===== src/Tui/Safe/Preview.antt =====
-- gateway-go/tui.go: the preview of an image keeps the panel sound, and sends GETs only.
use imsai_8080_esp_tty_gtw.Prelude.{
  ℕ, Bytes, List, [], Option, none, some, refl, get_elem?, Result, ok, err, text_eq,
}
use imsai_8080_esp_tty_gtw.Device.Http.{Request, get_url}
use imsai_8080_esp_tty_gtw.Device.Lists.{get_machine, download_image}
use imsai_8080_esp_tty_gtw.Device.Sent.{get_machine-Adds, download_image-Adds}
use imsai_8080_esp_tty_gtw.Cpm.Directory.{CpmFile, list_cpm_by_user}
use imsai_8080_esp_tty_gtw.Tui.Model.{Control, Outside, tm_lib_preview}
use imsai_8080_esp_tty_gtw.Tui.Library.{
  do_preview, show_user, preview_set_user, open_preview, listed, fetched, preview_image,
  with_machine, ask_machine, downloading, users_of, first_filled, preview_item,
}
use imsai_8080_esp_tty_gtw.Tui.Sound.{IsSound}
use imsai_8080_esp_tty_gtw.Tui.Safe.{
  list_cpm_by_user, some, ok, err, CpmFile, Option, List, ℕ, Result, preview_set_user,
  preview_image, open_preview, do_preview, ask_machine, Control, Outside, get_url, Bytes, Request,
  Behaves, tui_draw-Behaves, quiet, then-Behaves, say-Behaves, if-Behaves, choice-Behaves,
}

module _ (P : Request → Type 0) (gets : (url : Bytes) → P (get_url url)) (o : Outside) where
  show_user-Behaves :
      (c c' : Control) (idx : ℕ) (u : Option ℕ) → Behaves P c c' → Behaves P c (show_user c' idx u)
  show_user-Behaves c c' idx none b = b
  show_user-Behaves c c' idx (some u) b = record { sound = b.sound; adds = b.adds }

  pub preview_set_user-Behaves :
      (c c' : Control) (idx : Option ℕ) → Behaves P c c' → Behaves P c (preview_set_user c' idx)
  unfolding preview_set_user
  preview_set_user-Behaves c c' none b = b
  preview_set_user-Behaves c c' (some idx) b =
      show_user-Behaves c c' idx (get_elem? c'.m.prev_users idx) b

  open_preview-Behaves :
      (c c' : Control) (name : Bytes) (by_user : ℕ → List CpmFile)
      → Behaves P c c'
      → Behaves P c (open_preview c' name by_user)
  unfolding open_preview
  open_preview-Behaves c c' name by_user b =
      let users = users_of by_user in
      preview_set_user-Behaves c
        (record c' {
          m = record c'.m {
            prev_name = name;
            prev_by_user = by_user;
            prev_users = users;
            mode = tm_lib_preview;
            status = [];
          };
        })
        (some (first_filled by_user 0 users)) (record { sound = b.sound; adds = b.adds })

  listed-Behaves :
      (c c' : Control) (name : Bytes) (r : Result (ℕ → List CpmFile))
      → Behaves P c c'
      → Behaves P c (listed c' name r)
  listed-Behaves c c' name (err e) b = say-Behaves P c c' e b
  listed-Behaves c c' name (ok by_user) b = open_preview-Behaves c c' name by_user b

  fetched-Behaves :
      (c c' : Control) (name : Bytes) (r : Result Bytes)
      → Behaves P c c'
      → Behaves P c (fetched c' name r)
  fetched-Behaves c c' name (err e) b = say-Behaves P c c' e b
  fetched-Behaves c c' name (ok img) b = listed-Behaves c c' name (list_cpm_by_user img) b

  preview_image-Behaves :
      (c c' : Control) (name : Bytes) → Behaves P c c' → Behaves P c (preview_image o c' name)
  unfolding preview_image
  preview_image-Behaves c c' name b =
      let (r, log') = download_image o.net o.codec o.cfg c'.log c'.m.machine name in
      fetched-Behaves c (record c' { log = log' }) name r
        (then-Behaves P c c' (record c' { log = log' }) b
          (record {
            sound = b.sound;
            adds = download_image-Adds P gets o.net o.codec o.cfg c'.log c'.m.machine name;
          }))

  with_machine-Behaves :
      (c c' : Control) (name : Bytes) (r : Result Bytes)
      → Behaves P c c'
      → Behaves P c (with_machine o c' name r)
  with_machine-Behaves c c' name (err e) b = say-Behaves P c c' _ b
  with_machine-Behaves c c' name (ok mach) b =
      preview_image-Behaves c (record c' { m = record c'.m { machine = mach } }) name
        (record { sound = b.sound; adds = b.adds })

  ask_machine-Behaves :
      (c c' : Control) (name : Bytes) → Behaves P c c' → Behaves P c (ask_machine o c' name)
  unfolding ask_machine
  ask_machine-Behaves c c' name b =
      let (r, log') = get_machine o.net o.codec o.cfg c'.log in
      if-Behaves P c _ _ (text_eq c'.m.machine [])
        (λ _.
          with_machine-Behaves c (record c' { log = log' }) name r
            (then-Behaves P c c' (record c' { log = log' }) b
              (record {
                sound = b.sound;
                adds = get_machine-Adds P gets o.net o.codec o.cfg c'.log;
              })))
        (λ _. preview_image-Behaves c c' name b)

  pub do_preview-Behaves : (c : Control) → IsSound c.m → Behaves P c (do_preview o c)
  unfolding do_preview
  do_preview-Behaves c v =
      choice-Behaves P c (preview_item o c) (get_elem? c.m.lib_items c.m.lib_item_sel)
        (quiet P c c v refl)
        (λ it _. ask_machine-Behaves c _ it.filename (
          tui_draw-Behaves P c _
            (say-Behaves P c c (downloading it.filename) (quiet P c c v refl))))
