-- ===== src/Tui/Safe/Keys.antt =====
-- gateway-go/tui.go: the keys of the drives and of the front panel leave the panel sound.
use mathlib.Core.Option
use imsai_8080_esp_tty_gtw.Prelude.{
  ℕ, ◌<◌, ◌+◌, Bool, true, false, Bytes, List, [], Option, none, some, ◌≡◌, refl, get_elem?_found,
  ◌⊎◌, arith, length, get_elem?, ◌==◌, if◌then◌else◌,
}
use imsai_8080_esp_tty_gtw.Device.Http.{Request, get_url}
use imsai_8080_esp_tty_gtw.Tui.Model.{Control, Outside, panel_switches, minus, step}
use imsai_8080_esp_tty_gtw.Tui.Keys.{
  Key, k_char, k_enter, k_esc, k_up, k_down, k_left, k_right, k_page_up, k_page_down,
}
use imsai_8080_esp_tty_gtw.Tui.Cpa.{actuate_switch, do_actuate}
use imsai_8080_esp_tty_gtw.Tui.Disks.{do_eject}
use imsai_8080_esp_tty_gtw.Tui.Sound.{IsSound, clamp_index-lt-length}
use imsai_8080_esp_tty_gtw.Tui.Safe.{Behaves, quiet}
use imsai_8080_esp_tty_gtw.Tui.Safe.Drives.{Works, refresh_disks-Behaves, open_library-Works}
use imsai_8080_esp_tty_gtw.Tui.Safe.Panes.{
  enter_panel-Behaves, refresh_panel-Behaves, actuate_switch-Behaves, enter_system-Behaves,
}
use imsai_8080_esp_tty_gtw.Tui.Modes.{
  stay, stay_if, is_letter, with_m, disks_char, disks_key, panel_char, panel_key,
}

-- The answer to a key: no panic, and the panel behaves.
abbrev pub Answers : (Request → Type 0) → Control → Option (Control × Bool) → Type 0
Answers P c none = ⊥
Answers P c (some (c', exited)) = Behaves P c c'

module _ (P : Request → Type 0) where
  stay_if-Answers : (c : Control) (x : Option Control) → Works P c x → Answers P c (stay_if x)
  stay_if-Answers c none w = w
  stay_if-Answers c (some c') w = w

  pub if-Answers :
      (c : Control) (b : Bool) (x y : Option (Control × Bool))
      → Answers P c x
      → Answers P c y
      → Answers P c (if b then x else y)
  if-Answers c true x y w w' = w
  if-Answers c false x y w w' = w'

  choice-Works :
      {A : Type 0} (c : Control) (f : A → Control) (xs : List A) (i : ℕ)
      → i < length xs
      → ((a : A) → Behaves P c (f a))
      → Works P c (Option.map f (get_elem? xs i))
  choice-Works c f xs i lt each = let (a, e) = get_elem?_found i xs lt in rw e (each a)

module _ (P : Request → Type 0) (gets : (url : Bytes) → P (get_url url)) (o : Outside) where
  do_actuate-Works : (c : Control) (up : Bool) → IsSound c.m → Works P c (do_actuate o c up)
  unfolding do_actuate
  do_actuate-Works c up v =
      choice-Works P c (actuate_switch o c up) panel_switches c.m.sel_sw v.switch_in
        (λ sw. actuate_switch-Behaves P o c up sw v)

  -- The cursor within a list.
  moved-IsSound :
      (c : Control) (i : ℕ)
      → IsSound c.m
      → (c.m.disks ≡ []) ⊎ (i < length c.m.disks)
      → Answers P c (stay (with_m c (record c.m { sel = i })))
  moved-IsSound c i v within =
      quiet P c _
        (record {
          sel_in = within;
          switch_in = v.switch_in;
          marked = v.marked;
          target = v.target;
          asked = v.asked;
        })
        refl

  disks_char-Answers :
      (c : Control) (ch : ℕ)
      → IsSound c.m
      → Works P c (do_eject o c)
      → Answers P c (disks_char o c ch)
  unfolding disks_char
  disks_char-Answers c ch v ejects =
      let rest = quiet P c c v refl in
      if-Answers P c (is_letter ch b'q' b'Q') _ _ rest (
        if-Answers P c (ch == 9) _ _ (enter_panel-Behaves P o c v) (
          if-Answers P c (is_letter ch b'r' b'R') _ _ (refresh_disks-Behaves P gets o c c rest) (
            if-Answers P c (is_letter ch b'e' b'E') _ _ (stay_if-Answers P c _ ejects) (
              if-Answers P c (is_letter ch b'm' b'M') _ _
                (stay_if-Answers P c _ (open_library-Works P gets o c v)) rest))))

  pub disks_key-Answers :
      (c : Control) (k : Key)
      → IsSound c.m
      → Works P c (do_eject o c)
      → Answers P c (disks_key o c k)
  unfolding disks_key
  disks_key-Answers c (k_char ch) v ejects = disks_char-Answers c ch v ejects
  disks_key-Answers c k_enter v ejects = stay_if-Answers P c _ (open_library-Works P gets o c v)
  disks_key-Answers c k_esc v ejects = quiet P c c v refl
  disks_key-Answers c k_up v ejects = moved-IsSound c _ v (ground arith)
  disks_key-Answers c k_down v ejects = moved-IsSound c _ v (ground arith)
  disks_key-Answers c k_left v ejects = quiet P c c v refl
  disks_key-Answers c k_right v ejects = quiet P c c v refl
  disks_key-Answers c k_page_up v ejects =
      moved-IsSound c _ v (clamp_index-lt-length (minus c.m.sel (step c.m)) c.m.disks)
  disks_key-Answers c k_page_down v ejects =
      moved-IsSound c _ v (clamp_index-lt-length (some (c.m.sel + step c.m)) c.m.disks)

  panel_char-Answers : (c : Control) (ch : ℕ) → IsSound c.m → Answers P c (panel_char o c ch)
  unfolding panel_char
  panel_char-Answers c ch v =
      let rest = quiet P c c v refl in
      if-Answers P c (is_letter ch b'q' b'Q') _ _ rest (
        if-Answers P c (ch == 9) _ _ (enter_system-Behaves P gets o c v) (
          if-Answers P c (is_letter ch b'r' b'R') _ _ (refresh_panel-Behaves P o c v) (
            if-Answers P c (is_letter ch b'u' b'U') _ _
              (stay_if-Answers P c _ (do_actuate-Works c true v))
              (if-Answers P c (is_letter ch b'd' b'D') _ _
                (stay_if-Answers P c _ (do_actuate-Works c false v)) rest))))

  switched-IsSound :
      (c : Control) (i : ℕ)
      → IsSound c.m
      → i < 6
      → Answers P c (stay (with_m c (record c.m { sel_sw = i })))
  switched-IsSound c i v lt =
      quiet P c _
        (record {
          sel_in = v.sel_in;
          switch_in = lt;
          marked = v.marked;
          target = v.target;
          asked = v.asked;
        })
        refl

  pub panel_key-Answers : (c : Control) (k : Key) → IsSound c.m → Answers P c (panel_key o c k)
  unfolding panel_key
  panel_key-Answers c (k_char ch) v = panel_char-Answers c ch v
  panel_key-Answers c k_left v = let lt = v.switch_in in switched-IsSound c _ v (ground arith)
  panel_key-Answers c k_right v = let lt = v.switch_in in switched-IsSound c _ v (ground arith)
  panel_key-Answers c k_up v = stay_if-Answers P c _ (do_actuate-Works c true v)
  panel_key-Answers c k_down v = stay_if-Answers P c _ (do_actuate-Works c false v)
  panel_key-Answers c k_enter v = quiet P c c v refl
  panel_key-Answers c k_esc v = quiet P c c v refl
  panel_key-Answers c k_page_up v = quiet P c c v refl
  panel_key-Answers c k_page_down v = quiet P c c v refl
