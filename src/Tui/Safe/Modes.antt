-- ===== src/Tui/Safe/Modes.antt =====
-- gateway-go/tui.go: `tuiKey`: in every mode a key leaves the panel sound, and sends what it may.
use imsai_8080_esp_tty_gtw.Prelude.{
  ℕ, ◌+◌, true, Bytes, Option, none, some, ◌≡◌, refl, ap, ◌⊎◌, inl, inr, arith, ◌==◌,
}
use imsai_8080_esp_tty_gtw.Device.Http.{Request, get_url}
use imsai_8080_esp_tty_gtw.Device.Drives.{delete_request}
use imsai_8080_esp_tty_gtw.Tui.Model.{
  Mode, Control, Outside, tm_disks, tm_library, tm_panel, tm_system, tm_lib, tm_lib_preview, minus,
}
use imsai_8080_esp_tty_gtw.Tui.Keys.{
  Key, k_char, k_enter, k_esc, k_up, k_down, k_left, k_right, k_page_up, k_page_down,
}
use imsai_8080_esp_tty_gtw.Tui.Disks.{do_eject, do_mount}
use imsai_8080_esp_tty_gtw.Tui.Sound.{IsSound}
use imsai_8080_esp_tty_gtw.Tui.Safe.{Behaves, quiet, then-Behaves, say-Behaves, if-Behaves}
use imsai_8080_esp_tty_gtw.Tui.Safe.Drives.{Works}
use imsai_8080_esp_tty_gtw.Tui.Safe.Panes.{
  refresh_system-Behaves, refresh_lib-Behaves, enter_lib-Behaves, ask_delete_lib-Behaves,
  delete_lib-Behaves,
}
use imsai_8080_esp_tty_gtw.Tui.Safe.Preview.{preview_set_user-Behaves, do_preview-Behaves}
use imsai_8080_esp_tty_gtw.Tui.Safe.Keys.{Answers, if-Answers, disks_key-Answers, panel_key-Answers}
use imsai_8080_esp_tty_gtw.Tui.Modes.{
  is_letter, disks_key, panel_key, system_char, system_key, back_to, lib_char, lib_key, back_char,
  preview_key, picker_key,
}
use imsai_8080_esp_tty_gtw.Tui.Handle.{
  answered_no_more, run_confirmed, cancelled, confirm_key, mode_key,
}
use imsai_8080_esp_tty_gtw.Tui.Requests.{IsYes}

is_letter-IsYes : (ch : ℕ) → is_letter ch b'y' b'Y' ≡ true → IsYes (k_char ch)
is_letter-IsYes ch e = elim letters [
  | inl lower ↦ inl (ap (λ n. k_char n) lower)
  | inr upper ↦ inr (ap (λ n. k_char n) upper)
]
  where
    letters : (ch ≡ b'y') ⊎ (ch ≡ b'Y')
    letters = ground arith

module _ (P : Request → Type 0) (gets : (url : Bytes) → P (get_url url)) (o : Outside) where
  system_char-Answers : (c : Control) (ch : ℕ) → IsSound c.m → Answers P c (system_char o c ch)
  unfolding system_char
  system_char-Answers c ch v =
      let rest = quiet P c c v refl in
      if-Answers P c (is_letter ch b'q' b'Q') _ _ rest (
        if-Answers P c (ch == 9) _ _ (enter_lib-Behaves P gets o c v) (
          if-Answers P c (is_letter ch b'r' b'R') _ _ (refresh_system-Behaves P gets o c c rest)
            rest))

  system_key-Answers : (c : Control) (k : Key) → IsSound c.m → Answers P c (system_key o c k)
  unfolding system_key
  system_key-Answers c (k_char ch) v = system_char-Answers c ch v
  system_key-Answers c k_enter v = quiet P c _ v refl
  system_key-Answers c k_esc v = quiet P c _ v refl
  system_key-Answers c k_up v = quiet P c _ v refl
  system_key-Answers c k_down v = quiet P c _ v refl
  system_key-Answers c k_left v = quiet P c _ v refl
  system_key-Answers c k_right v = quiet P c _ v refl
  system_key-Answers c k_page_up v = quiet P c _ v refl
  system_key-Answers c k_page_down v = quiet P c _ v refl

  lib_char-Answers : (c : Control) (ch : ℕ) → IsSound c.m → Answers P c (lib_char o c ch)
  unfolding lib_char
  lib_char-Answers c ch v =
      let rest = quiet P c c v refl in
      if-Answers P c (is_letter ch b'q' b'Q') _ _ rest (
        if-Answers P c (ch == 9) _ _ (quiet P c (back_to c tm_disks) v refl) (
          if-Answers P c (is_letter ch b'r' b'R') _ _ (refresh_lib-Behaves P gets o c c rest) (
            if-Answers P c (is_letter ch b'v' b'V') _ _ (do_preview-Behaves P gets o c v) (
              if-Answers P c (is_letter ch b'd' b'D') _ _ (ask_delete_lib-Behaves P gets o c v)
                rest))))

  lib_key-Answers : (c : Control) (k : Key) → IsSound c.m → Answers P c (lib_key o c k)
  unfolding lib_key
  lib_key-Answers c (k_char ch) v = lib_char-Answers c ch v
  lib_key-Answers c k_enter v = do_preview-Behaves P gets o c v
  lib_key-Answers c k_esc v = quiet P c _ v refl
  lib_key-Answers c k_up v = quiet P c _ v refl
  lib_key-Answers c k_down v = quiet P c _ v refl
  lib_key-Answers c k_left v = quiet P c _ v refl
  lib_key-Answers c k_right v = quiet P c _ v refl
  lib_key-Answers c k_page_up v = quiet P c _ v refl
  lib_key-Answers c k_page_down v = quiet P c _ v refl

  back_char-Answers :
      (c : Control) (mode : Mode) (ch : ℕ) → IsSound c.m → Answers P c (back_char c mode ch)
  back_char-Answers c mode ch v =
      if-Answers P c (is_letter ch b'q' b'Q') _ _ (quiet P c (back_to c mode) v refl)
        (quiet P c c v refl)

  preview_key-Answers : (c : Control) (k : Key) → IsSound c.m → Answers P c (preview_key o c k)
  unfolding preview_key
  preview_key-Answers c (k_char ch) v = back_char-Answers c tm_lib ch v
  preview_key-Answers c k_enter v = quiet P c _ v refl
  preview_key-Answers c k_esc v = quiet P c (back_to c tm_lib) v refl
  preview_key-Answers c k_up v = quiet P c _ v refl
  preview_key-Answers c k_down v = quiet P c _ v refl
  preview_key-Answers c k_left v =
      preview_set_user-Behaves P gets o c c (minus c.m.prev_user_idx 1) (quiet P c c v refl)
  preview_key-Answers c k_right v =
      preview_set_user-Behaves P gets o c c (some (c.m.prev_user_idx + 1)) (quiet P c c v refl)
  preview_key-Answers c k_page_up v = quiet P c _ v refl
  preview_key-Answers c k_page_down v = quiet P c _ v refl

  picker_key-Answers :
      (c : Control) (k : Key)
      → IsSound c.m
      → Behaves P c (do_mount o c)
      → Answers P c (picker_key o c k)
  unfolding picker_key
  picker_key-Answers c (k_char ch) v mounts = back_char-Answers c tm_disks ch v
  picker_key-Answers c k_enter v mounts = mounts
  picker_key-Answers c k_esc v mounts = quiet P c (back_to c tm_disks) v refl
  picker_key-Answers c k_up v mounts = quiet P c _ v refl
  picker_key-Answers c k_down v mounts = quiet P c _ v refl
  picker_key-Answers c k_left v mounts = quiet P c _ v refl
  picker_key-Answers c k_right v mounts = quiet P c _ v refl
  picker_key-Answers c k_page_up v mounts = quiet P c _ v refl
  picker_key-Answers c k_page_down v mounts = quiet P c _ v refl

  -- In a mode that is given apart.
  key_in_mode-Answers :
      (c : Control) (k : Key) (mode : Mode)
      → IsSound c.m
      → Works P c (do_eject o c)
      → Behaves P c (do_mount o c)
      → Answers P c (elim mode [
        | tm_disks ↦ disks_key o c k
        | tm_panel ↦ panel_key o c k
        | tm_system ↦ system_key o c k
        | tm_lib ↦ lib_key o c k
        | tm_lib_preview ↦ preview_key o c k
        | tm_library ↦ picker_key o c k
      ])
  key_in_mode-Answers c k tm_disks v ejects mounts = disks_key-Answers P gets o c k v ejects
  key_in_mode-Answers c k tm_library v ejects mounts = picker_key-Answers c k v mounts
  key_in_mode-Answers c k tm_panel v ejects mounts = panel_key-Answers P gets o c k v
  key_in_mode-Answers c k tm_system v ejects mounts = system_key-Answers c k v
  key_in_mode-Answers c k tm_lib v ejects mounts = lib_key-Answers c k v
  key_in_mode-Answers c k tm_lib_preview v ejects mounts = preview_key-Answers c k v

  pub mode_key-Answers :
      (c : Control) (k : Key)
      → IsSound c.m
      → Works P c (do_eject o c)
      → Behaves P c (do_mount o c)
      → Answers P c (mode_key o c k)
  unfolding mode_key
  mode_key-Answers c k v ejects mounts = key_in_mode-Answers c k c.m.mode v ejects mounts

  pub answered_no_more-Behaves : (c : Control) → IsSound c.m → Behaves P c (answered_no_more c)
  answered_no_more-Behaves c v =
      quiet P c (answered_no_more c)
        (record {
          sel_in = v.sel_in;
          switch_in = v.switch_in;
          marked = v.marked;
          target = v.target;
          asked = inl refl;
        })
        refl

  cancelled-Behaves : (c : Control) → IsSound c.m → Behaves P c (cancelled c)
  cancelled-Behaves c v = say-Behaves P c (answered_no_more c) _ (answered_no_more-Behaves c v)

  run_confirmed-Behaves :
      (c : Control) (act : Option Bytes)
      → IsSound c.m
      → ((name : Bytes) → act ≡ some name → P (delete_request o.cfg name))
      → Behaves P c (run_confirmed o (answered_no_more c) act)
  run_confirmed-Behaves c none v allowed = answered_no_more-Behaves c v
  run_confirmed-Behaves c (some name) v allowed =
      let over = answered_no_more-Behaves c v in
      then-Behaves P c (answered_no_more c) _ over
        (delete_lib-Behaves P gets o (answered_no_more c) name over.sound (allowed name refl))

  pub confirm_key-Behaves :
      (c : Control) (k : Key)
      → IsSound c.m
      → ((name : Bytes) → c.m.confirm_act ≡ some name → IsYes k → P (delete_request o.cfg name))
      → Behaves P c (confirm_key o c k)
  unfolding confirm_key
  confirm_key-Behaves c (k_char ch) v allowed =
      if-Behaves P c _ _ (is_letter ch b'y' b'Y')
        (λ y.
          run_confirmed-Behaves c c.m.confirm_act v
            (λ name e. allowed name e (is_letter-IsYes ch y)))
        (λ _.
          if-Behaves P c _ _ (is_letter ch b'n' b'N') (λ _. cancelled-Behaves c v)
            (λ _. quiet P c c v refl))
  confirm_key-Behaves c k_enter v allowed = quiet P c c v refl
  confirm_key-Behaves c k_esc v allowed = cancelled-Behaves c v
  confirm_key-Behaves c k_up v allowed = quiet P c c v refl
  confirm_key-Behaves c k_down v allowed = quiet P c c v refl
  confirm_key-Behaves c k_left v allowed = quiet P c c v refl
  confirm_key-Behaves c k_right v allowed = quiet P c c v refl
  confirm_key-Behaves c k_page_up v allowed = quiet P c c v refl
  confirm_key-Behaves c k_page_down v allowed = quiet P c c v refl
