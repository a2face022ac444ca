-- ===== src/Bridge/Live.antt =====
-- gateway-go/tui.go, gateway-go/bridge.go: the control panel of the session, as `handleInput` uses it.
use imsai_8080_esp_tty_gtw.Prelude.{
  Bool, Bytes, List, [], Option, none, some, sym, subst, All, All-++,
}
use imsai_8080_esp_tty_gtw.Config.Settings.{Config}
use imsai_8080_esp_tty_gtw.Device.Http.{Request}
use imsai_8080_esp_tty_gtw.Device.Sent.{Adds}
use imsai_8080_esp_tty_gtw.Tui.Model.{Control, Outside}
use imsai_8080_esp_tty_gtw.Tui.Sound.{IsSound}
use imsai_8080_esp_tty_gtw.Tui.Requests.{IsHarmless}
use imsai_8080_esp_tty_gtw.Tui.Handle.{tui_feed, open_tui}
use imsai_8080_esp_tty_gtw.Tui.Safe.{Behaves}
use imsai_8080_esp_tty_gtw.Tui.Safe.Keys.{Answers}
use imsai_8080_esp_tty_gtw.Tui.Safe.Feed.{tui_feed-Answers, open_tui-Behaves}
use imsai_8080_esp_tty_gtw.Bridge.Session.{Panel}

-- The panel as it can be between two reads. Its `out` is what the last call wrote.
pub record Live (cfg : Config) : Type 0 where
  pub control : Control
  pub sound : IsSound control.m
  pub harmless : All (IsHarmless cfg) control.log

abbrev pub unwritten : Control → Control
unwritten c = record c { out = [] }

pub Adds-All :
    (P : Request → Type 0) (log log' : List Request) → Adds P log log' → All P log → All P log'
Adds-All P log log' (new, e, new_all) old = subst (All P) (sym e) (All-++ P new log new_all old)

abbrev pub kept_live :
    {cfg : Config} (p : Live cfg) (c' : Control)
    → Behaves (IsHarmless cfg) (unwritten p.control) c'
    → Live cfg
kept_live {cfg} p c' b = record {
  control = c';
  sound = b.sound;
  harmless = Adds-All (IsHarmless cfg) p.control.log c'.log b.adds p.harmless;
}

-- There is an answer.
abbrev pub answer_of :
    {cfg : Config} (p : Live cfg) (x : Option (Control × Bool))
    → Answers (IsHarmless cfg) (unwritten p.control) x
    → Live cfg × Bytes × Bool
answer_of p none w = absurd w
answer_of p (some (c', exited)) w = (kept_live p c' w, c'.out, exited)

unfoldable pub tui_panel : (o : Outside) → Panel (Live o.cfg)
tui_panel o = record {
  open_panel = λ p.
      let c' = open_tui o (unwritten p.control) in
      (kept_live p c' (open_tui-Behaves o (unwritten p.control)), c'.out);
  feed = λ p bytes.
      answer_of p (tui_feed o (unwritten p.control) bytes)
        (tui_feed-Answers o (unwritten p.control) bytes p.sound);
}
