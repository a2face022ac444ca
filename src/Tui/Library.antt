-- ===== src/Tui/Library.antt =====
-- gateway-go/tui.go: the pane of the library and the preview of an image, and the system pane.
use mathlib.Core.Option
use imsai_8080_esp_tty_gtw.Prelude.{
  ℕ, zero, suc, ◌+◌, Bool, true, ◌||◌, Bytes, List, [], ◌∷◌, ◌++◌, Option, none, some, Result, ok,
  err, codes, ◌==◌, if◌then◌else◌, text_eq, get_elem?, length, keep, map, pad_left, pad_right, not,
}
use imsai_8080_esp_tty_gtw.Decimal.{show_nat}
use imsai_8080_esp_tty_gtw.Cpm.Directory.{CpmFile, size_bytes, list_cpm_by_user}
use imsai_8080_esp_tty_gtw.Device.Lists.{
  LibEntry, get_library_detailed, get_machine, get_system, download_image,
}
use imsai_8080_esp_tty_gtw.Device.Drives.{delete_library_image}
use imsai_8080_esp_tty_gtw.Device.Info.{SysInfo}
use imsai_8080_esp_tty_gtw.Sys.Format.{format_sys_info}
use imsai_8080_esp_tty_gtw.Tui.Model.{
  tm_system, tm_lib, tm_lib_preview, Control, Outside, keep_within, filter_disk_images,
}
use imsai_8080_esp_tty_gtw.Tui.Draw.{tui_draw}
use imsai_8080_esp_tty_gtw.Tui.Cpa.{say}

abbrev pub system_text : Result SysInfo → List Bytes
system_text (err e) = (codes "  /system error: " ++ e) ∷ []
system_text (ok si) = format_sys_info si

unfoldable pub refresh_system : Outside → Control → Control
refresh_system o c =
    let (r, log') = get_system o.net o.codec o.cfg c.log in
    record c { log = log'; m = record c.m { sys_lines = system_text r } }

unfoldable pub enter_system : Outside → Control → Control
unfolding refresh_system
enter_system o c =
    refresh_system o (record c { m = record c.m { mode = tm_system; sys_scroll = 0; status = [] } })

-- The selection is kept within all the items, not within those that are shown.
abbrev pub shown_items : Control → Result (List LibEntry) → Control
shown_items c (err e) = say c (codes "library: " ++ e)
shown_items c (ok items) = record c {
  m = record c.m {
    lib_items = filter_disk_images items;
    lib_items_loaded = true;
    lib_item_sel = keep_within c.m.lib_item_sel (length items);
    status = [];
  };
}

unfoldable pub refresh_lib : Outside → Control → Control
refresh_lib o c =
    let (r, log') = get_library_detailed o.net o.codec o.cfg c.log in
    shown_items (record c { log = log' }) r

unfoldable pub enter_lib : Outside → Control → Control
unfolding refresh_lib
enter_lib o c = refresh_lib o (record c { m = record c.m { mode = tm_lib; status = [] } })

abbrev pub listing_line : CpmFile → Bytes
listing_line f =
    codes "  "
    ++ (pad_right 12 f.name
        ++ (codes " "
            ++ (pad_left 6 (show_nat (size_bytes f))
                ++ (codes " bytes  (" ++ (show_nat f.records ++ codes " records)")))))

unfoldable pub format_cpm_listing : Bytes → ℕ → List CpmFile → List Bytes
format_cpm_listing name user files =
    (name
      ++ (codes ", USER "
          ++ (show_nat user ++ (codes " (" ++ (show_nat (length files) ++ codes " file(s))")))))
    ∷ []
    ∷ elim files [
      | [] ↦ (codes "  (no files in USER " ++ (show_nat user ++ codes ")")) ∷ []
      | f ∷ fs ↦ map listing_line (f ∷ fs)
    ]

abbrev pub show_user : Control → ℕ → Option ℕ → Control
show_user c idx none = c
show_user c idx (some u) = record c {
  m = record c.m {
    prev_user_idx = idx;
    prev_lines = format_cpm_listing c.m.prev_name u (c.m.prev_by_user u);
    prev_scroll = 0;
  };
}

-- A negative index is `none`.
unfoldable pub preview_set_user : Control → Option ℕ → Control
preview_set_user c none = c
preview_set_user c (some idx) = show_user c idx (get_elem? c.m.prev_users idx)

abbrev pub has_files : (ℕ → List CpmFile) → ℕ → Bool
has_files by_user u = not (length (by_user u) == 0)

abbrev pub numbers_from : ℕ → ℕ → List ℕ
numbers_from zero n = []
numbers_from (suc k) n = n ∷ numbers_from k (n + 1)

-- USER 0, and the users up to 15 that have files.
unfoldable pub users_of : (ℕ → List CpmFile) → List ℕ
users_of by_user = keep (λ u. u == 0 || has_files by_user u) (numbers_from 16 0)

-- The index of the first user with files, counted from `i`; 0 if there is none.
unfoldable pub first_filled : (ℕ → List CpmFile) → ℕ → List ℕ → ℕ
first_filled by_user i [] = 0
first_filled by_user i (u ∷ us) =
    let rest = first_filled by_user (i + 1) us in if has_files by_user u then i else rest

unfoldable pub open_preview : Control → Bytes → (ℕ → List CpmFile) → Control
unfolding preview_set_user users_of first_filled
open_preview c name by_user =
    let users = users_of by_user in
    preview_set_user
      (record c {
        m = record c.m {
          prev_name = name;
          prev_by_user = by_user;
          prev_users = users;
          mode = tm_lib_preview;
          status = [];
        };
      })
      (some (first_filled by_user 0 users))

abbrev pub listed : Control → Bytes → Result (ℕ → List CpmFile) → Control
listed c name (err e) = say c e
listed c name (ok by_user) = open_preview c name by_user

abbrev pub fetched : Control → Bytes → Result Bytes → Control
fetched c name (err e) = say c e
fetched c name (ok img) = listed c name (list_cpm_by_user img)

-- With the machine known.
unfoldable pub preview_image : Outside → Control → Bytes → Control
unfolding open_preview
preview_image o c name =
    let (r, log') = download_image o.net o.codec o.cfg c.log c.m.machine name in
    fetched (record c { log = log' }) name r

abbrev pub with_machine : Outside → Control → Bytes → Result Bytes → Control
with_machine o c name (err e) = say c (codes "machine: " ++ e)
with_machine o c name (ok mach) =
    preview_image o (record c { m = record c.m { machine = mach } }) name

unfoldable pub ask_machine : Outside → Control → Bytes → Control
unfolding preview_image
ask_machine o c name =
    let (r, log') = get_machine o.net o.codec o.cfg c.log in
    if text_eq c.m.machine []
    then with_machine o (record c { log = log' }) name r
    else preview_image o c name

-- The last three bytes are an ellipsis in UTF-8.
abbrev pub downloading : Bytes → Bytes
downloading name = codes "downloading " ++ (name ++ (codes " " ++ 0xe2 ∷ 0x80 ∷ 0xa6 ∷ []))

abbrev pub preview_item : Outside → Control → LibEntry → Control
preview_item o c it = ask_machine o (tui_draw (say c (downloading it.filename))) it.filename

-- An index out of range is tested here, and below.
unfoldable pub do_preview : Outside → Control → Control
unfolding ask_machine
do_preview o c =
    Option.get_or (Option.map (preview_item o c) (get_elem? c.m.lib_items c.m.lib_item_sel)) c

abbrev pub ask_delete : Control → LibEntry → Control
ask_delete c it = record c {
  m = record c.m {
    confirm = true;
    confirm_msg = codes "Delete '" ++ (it.filename ++ codes "' from the library? (y/N)");
    confirm_act = some it.filename;
  };
}

unfoldable pub ask_delete_lib : Control → Control
ask_delete_lib c =
    Option.get_or (Option.map (ask_delete c) (get_elem? c.m.lib_items c.m.lib_item_sel)) c

abbrev pub deleted : Outside → Control → Bytes → Result (Unit {0}) → Control
deleted o c name (err e) = say c e
deleted o c name (ok _) = say (refresh_lib o c) (codes "deleted " ++ name)

-- The action that `askDeleteLib` leaves to the confirmation.
unfoldable pub delete_lib : Outside → Control → Bytes → Control
unfolding refresh_lib
delete_lib o c name =
    let (r, log') = delete_library_image o.net o.cfg c.log name in
    deleted o (record c { log = log' }) name r
