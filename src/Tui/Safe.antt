-- ===== src/Tui/Safe.antt =====
-- gateway-go/tui.go: what a handler of the panel may do: it keeps the panel sound, and sends requests
-- of a given kind only. The handlers that change nothing on the device.
pub mod Panes
pub mod Drives
pub mod Preview
pub mod Keys
pub mod Modes
pub mod Feed
use mathlib.Core.Option
use imsai_8080_esp_tty_gtw.Prelude.{
  ℕ, ◌<◌, Bool, true, false, Bytes, List, [], ◌∷◌, ◌++◌, Option, none, some, ◌≡◌, refl, inl, inr,
  arith, length, All, get_elem?, Option-cases, Bool-cases, Result, ok, err, Result-cases, ◌>>=◌,
  codes, if◌then◌else◌, text_eq,
}
use imsai_8080_esp_tty_gtw.Device.Http.{Request, get_url, http_get_body}
use imsai_8080_esp_tty_gtw.Device.Lists.{
  DriveEntry, drives_of, get_disks, get_library, get_library_detailed, get_machine, get_system,
  download_image,
}
use imsai_8080_esp_tty_gtw.Device.Sent.{
  Adds, none-Adds, one-Adds, both-Adds, get_disks-Adds, get_library-Adds, get_library_detailed-Adds,
  get_machine-Adds, get_system-Adds, download_image-Adds,
}
use imsai_8080_esp_tty_gtw.Cpm.Directory.{CpmFile, list_cpm_by_user}
use imsai_8080_esp_tty_gtw.Tui.Model.{TuiModel, Control, Outside, filter_dsk}
use imsai_8080_esp_tty_gtw.Tui.Draw.{tui_draw}
use imsai_8080_esp_tty_gtw.Tui.Cpa.{say, settle_on, settle, enter_panel, refresh_panel}
use imsai_8080_esp_tty_gtw.Tui.Disks.{
  refresh_disks, with_disks, pick_image, load_and_pick, open_for, with_library,
}
use imsai_8080_esp_tty_gtw.Tui.Library.{
  enter_system, refresh_system, enter_lib, refresh_lib, do_preview, preview_set_user, open_preview,
  preview_image, ask_machine,
}
use imsai_8080_esp_tty_gtw.Tui.Sound.{IsMarked, IsSound, tui_draw-IsSound, drives_of-IsMarked}

abbrev pub IsMarkedResult : Result (List DriveEntry) → Type 0
IsMarkedResult (ok d) = All IsMarked d
IsMarkedResult (err e) = Unit

decoded-IsMarkedResult :
    (body : Result Bytes) (decoder : Bytes → Result (List (Bytes × Bytes)))
    → IsMarkedResult (body >>= (λ b. decoder b >>= λ m. ok (drives_of m)))
decoded-IsMarkedResult (err e) decoder = tt
decoded-IsMarkedResult (ok b) decoder = elim (Result-cases (decoder b)) [
  | inl (e, q) ↦ rw q tt
  | inr (m, q) ↦ rw q (drives_of-IsMarked m)
]

pub get_disks-IsMarkedResult :
    (o : Outside) (log : List Request) → IsMarkedResult (get_disks o.net o.codec o.cfg log).0
unfolding get_disks
get_disks-IsMarkedResult o log =
    decoded-IsMarkedResult (http_get_body o.net log _ _).0 o.codec.decode_disks

-- What a handler does: the panel is sound, and the new requests are in `P`.
pub record Behaves (P : Request → Type 0) (c c' : Control) : Type 0 where
  pub sound : IsSound c'.m
  pub adds : Adds P c.log c'.log

module _ (P : Request → Type 0) where
  -- Nothing that the soundness is about has changed, and nothing is sent.
  pub quiet : (c c' : Control) → IsSound c'.m → c'.log ≡ c.log → Behaves P c c'
  quiet c c' v e = record { sound = v; adds = ([], e, tt) }

  pub then-Behaves : (c c1 c2 : Control) → Behaves P c c1 → Behaves P c1 c2 → Behaves P c c2
  then-Behaves c c1 c2 a b = record {
    sound = b.sound;
    adds = both-Adds P c.log c1.log c2.log a.adds b.adds;
  }

  pub say-Behaves :
      (c c' : Control) (message : Bytes) → Behaves P c c' → Behaves P c (say c' message)
  say-Behaves c c' message b = record { sound = b.sound; adds = b.adds }

  settle_on-Behaves :
      (o : Outside) (c c' : Control) (cpa : Option (List Bytes))
      → Behaves P c c'
      → Behaves P c (settle_on o c' cpa)
  settle_on-Behaves o c c' none b = b
  settle_on-Behaves o c c' (some sent) b = record { sound = b.sound; adds = b.adds }

  pub settle-Behaves : (o : Outside) (c c' : Control) → Behaves P c c' → Behaves P c (settle o c')
  unfolding settle
  settle-Behaves o c c' b = settle_on-Behaves o c c' c'.cpa b

  -- On a test, with what it found.
  pub if-Behaves :
      (c c1 c2 : Control) (b : Bool)
      → (b ≡ true → Behaves P c c1)
      → (b ≡ false → Behaves P c c2)
      → Behaves P c (if b then c1 else c2)
  if-Behaves c c1 c2 true yes_case no_case = yes_case refl
  if-Behaves c c1 c2 false yes_case no_case = no_case refl

  -- The messages on /cpa are no requests.
  pub cpa-Behaves :
      (c c' : Control) (sent : List Bytes)
      → Behaves P c c'
      → Behaves P c (record c' { cpa = some sent })
  cpa-Behaves c c' sent b = record { sound = b.sound; adds = b.adds }

  -- A handler of an optional choice.
  pub choice-Behaves {ℓ} :
      {A : Type ℓ} (c : Control) (f : A → Control) (x : Option A)
      → Behaves P c c
      → ((a : A) → x ≡ some a → Behaves P c (f a))
      → Behaves P c (Option.get_or (Option.map f x) c)
  choice-Behaves c f none b each = b
  choice-Behaves c f (some a) b each = each a refl

  pub tui_draw-Behaves : (c c' : Control) → Behaves P c c' → Behaves P c (tui_draw c')
  unfolding tui_draw
  tui_draw-Behaves c c' b = record { sound = tui_draw-IsSound c' b.sound; adds = b.adds }
