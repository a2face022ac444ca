-- ===== src/Tui/Safe/Panes.antt =====
-- gateway-go/tui.go: the handlers of the front panel, of the system and of the library's pane: they
-- keep the panel sound, and send requests of a given kind, which the GETs are of.
use imsai_8080_esp_tty_gtw.Prelude.{
  Bool, Bytes, List, [], Option, none, some, refl, inr, arith, get_elem?, Result, ok, err, text_eq,
}
use imsai_8080_esp_tty_gtw.Device.Http.{Request, get_url, do_status_only}
use imsai_8080_esp_tty_gtw.Device.Lists.{LibEntry, get_library_detailed}
use imsai_8080_esp_tty_gtw.Device.Drives.{delete_request, delete_library_image}
use imsai_8080_esp_tty_gtw.Device.Sent.{one-Adds, get_library_detailed-Adds, get_system-Adds}
use imsai_8080_esp_tty_gtw.Tui.Model.{Control, Outside, PanelSwitch, tm_panel, tm_system, tm_lib}
use imsai_8080_esp_tty_gtw.Tui.Cpa.{
  enter_panel_on, enter_panel, polled, refresh_panel_on, refresh_panel, code_of, label_of, actuated,
  actuate, actuate_switch,
}
use imsai_8080_esp_tty_gtw.Tui.Library.{
  enter_system, refresh_system, shown_items, enter_lib, refresh_lib, ask_delete, ask_delete_lib,
  deleted, delete_lib,
}
use imsai_8080_esp_tty_gtw.Tui.Sound.{IsSound}
use imsai_8080_esp_tty_gtw.Tui.Safe.{
  inr, [], one-Adds, ok, get_elem?, text_eq, some, err, IsSound, refresh_system, refresh_lib,
  enter_system, enter_lib, Result, Option, List, Bool, refresh_panel, get_url, enter_panel, Control,
  Outside, Bytes, Request, Behaves, quiet, then-Behaves, say-Behaves, settle-Behaves, if-Behaves,
  cpa-Behaves, choice-Behaves,
}

module _ (P : Request → Type 0) (o : Outside) where
  -- On the front panel.
  enter_panel_on-Behaves :
      (c c' : Control) (cpa : Option (List Bytes))
      → Behaves P c c'
      → Behaves P c (enter_panel_on o c' cpa)
  enter_panel_on-Behaves c c' none b = say-Behaves P c c' _ b
  enter_panel_on-Behaves c c' (some sent) b = settle-Behaves P o c _ (cpa-Behaves P c c' _ b)

  pub enter_panel-Behaves : (c : Control) → IsSound c.m → Behaves P c (enter_panel o c)
  unfolding enter_panel
  enter_panel-Behaves c v =
      enter_panel_on-Behaves c
        (record c { m = record c.m { mode = tm_panel; sel_sw = 0; status = [] } }) c.cpa
        (quiet P c _
          (record {
            sel_in = v.sel_in;
            switch_in = omega arith;
            marked = v.marked;
            target = v.target;
            asked = v.asked;
          })
          refl)

  polled-Behaves :
      (c c' : Control) (e : Option Bytes) → Behaves P c c' → Behaves P c (polled o (e, c'))
  polled-Behaves c c' none b = settle-Behaves P o c c' b
  polled-Behaves c c' (some e) b = say-Behaves P c c' _ b

  refresh_panel_on-Behaves :
      (c : Control) (cpa : Option (List Bytes))
      → IsSound c.m
      → Behaves P c (refresh_panel_on o c cpa)
  refresh_panel_on-Behaves c none v = say-Behaves P c c _ (quiet P c c v refl)
  refresh_panel_on-Behaves c (some sent) v =
      polled-Behaves c _ _ (cpa-Behaves P c c _ (quiet P c c v refl))

  pub refresh_panel-Behaves : (c : Control) → IsSound c.m → Behaves P c (refresh_panel o c)
  unfolding refresh_panel
  refresh_panel-Behaves c v = refresh_panel_on-Behaves c c.cpa v

  actuated-Behaves :
      (c c' : Control) (code label : Bytes) (sent : List Bytes) (e : Option Bytes)
      → Behaves P c c'
      → Behaves P c (actuated o code label sent (e, c'))
  actuated-Behaves c c' code label sent none b =
      say-Behaves P c _ _ (settle-Behaves P o c _ (cpa-Behaves P c c' _ b))
  actuated-Behaves c c' code label sent (some e) b = say-Behaves P c c' _ b

  actuate-Behaves :
      (c : Control) (code label : Bytes) (cpa : Option (List Bytes))
      → IsSound c.m
      → Behaves P c (actuate o c code label cpa)
  unfolding actuate
  actuate-Behaves c code label none v = say-Behaves P c c _ (quiet P c c v refl)
  actuate-Behaves c code label (some sent) v =
      actuated-Behaves c _ code label sent _ (cpa-Behaves P c c _ (quiet P c c v refl))

  pub actuate_switch-Behaves :
      (c : Control) (up : Bool) (sw : PanelSwitch)
      → IsSound c.m
      → Behaves P c (actuate_switch o c up sw)
  unfolding actuate_switch
  actuate_switch-Behaves c up sw v =
      if-Behaves P c _ _ (text_eq (code_of up sw) [])
        (λ _. say-Behaves P c c _ (quiet P c c v refl))
        (λ _. actuate-Behaves c (code_of up sw) (label_of up sw) c.cpa v)

module _ (P : Request → Type 0) (gets : (url : Bytes) → P (get_url url)) (o : Outside) where
  pub refresh_system-Behaves : (c c' : Control) → Behaves P c c' → Behaves P c (refresh_system o c')
  unfolding refresh_system
  refresh_system-Behaves c c' b =
      then-Behaves P c c' _ b
        (record { sound = b.sound; adds = get_system-Adds P gets o.net o.codec o.cfg c'.log })

  pub enter_system-Behaves : (c : Control) → IsSound c.m → Behaves P c (enter_system o c)
  unfolding enter_system
  enter_system-Behaves c v = refresh_system-Behaves c _ (
      quiet P c (record c { m = record c.m { mode = tm_system; sys_scroll = 0; status = [] } }) v
        refl)

  shown_items-Behaves :
      (c c' : Control) (r : Result (List LibEntry))
      → Behaves P c c'
      → Behaves P c (shown_items c' r)
  shown_items-Behaves c c' (err e) b = say-Behaves P c c' _ b
  shown_items-Behaves c c' (ok items) b = record { sound = b.sound; adds = b.adds }

  pub refresh_lib-Behaves : (c c' : Control) → Behaves P c c' → Behaves P c (refresh_lib o c')
  unfolding refresh_lib
  refresh_lib-Behaves c c' b =
      let (r, log') = get_library_detailed o.net o.codec o.cfg c'.log in
      shown_items-Behaves c (record c' { log = log' }) r
        (then-Behaves P c c' (record c' { log = log' }) b
          (record {
            sound = b.sound;
            adds = get_library_detailed-Adds P gets o.net o.codec o.cfg c'.log;
          }))

  pub enter_lib-Behaves : (c : Control) → IsSound c.m → Behaves P c (enter_lib o c)
  unfolding enter_lib
  enter_lib-Behaves c v =
      refresh_lib-Behaves c _
        (quiet P c (record c { m = record c.m { mode = tm_lib; status = [] } }) v refl)

  pub ask_delete_lib-Behaves : (c : Control) → IsSound c.m → Behaves P c (ask_delete_lib c)
  unfolding ask_delete_lib
  ask_delete_lib-Behaves c v =
      choice-Behaves P c (ask_delete c) (get_elem? c.m.lib_items c.m.lib_item_sel)
        (quiet P c c v refl)
        (λ it _.
          quiet P c (ask_delete c it)
            (record {
              sel_in = v.sel_in;
              switch_in = v.switch_in;
              marked = v.marked;
              target = v.target;
              asked = inr (it.filename, refl);
            })
            refl)

  -- What a deletion leaves to do.
  pub deleted-Behaves :
      (c c' : Control) (name : Bytes) (r : Result (Unit {0}))
      → Behaves P c c'
      → Behaves P c (deleted o c' name r)
  deleted-Behaves c c' name (err e) b = say-Behaves P c c' e b
  deleted-Behaves c c' name (ok _) b = say-Behaves P c _ _ (refresh_lib-Behaves c c' b)

  pub delete_lib-Behaves :
      (c : Control) (name : Bytes)
      → IsSound c.m
      → P (delete_request o.cfg name)
      → Behaves P c (delete_lib o c name)
  unfolding delete_lib delete_library_image do_status_only
  delete_lib-Behaves c name v p =
      let (r, log') = delete_library_image o.net o.cfg c.log name in
      deleted-Behaves c (record c { log = log' }) name r
        (record { sound = v; adds = one-Adds P _ c.log p })
