-- ===== src/Tui/Sound.antt =====
-- gateway-go/tui.go: what holds of the panel between two keys, and that the drawing keeps it.
use imsai_8080_esp_tty_gtw.Prelude.{
  sort_on, subst, sym, ap, ◌∙◌, ℕ, ◌-◌, ◌<◌, Bool, true, false, Bytes, List, [], ◌∷◌, Option, none,
  some, ◌≡◌, refl, ◌⊎◌, inl, inr, arith, length, All, map, ◌||◌, text_eq, codes,
}
use imsai_8080_esp_tty_gtw.Device.Lists.{DriveEntry, is_hard_disk, drives_of, drive_entry}
use imsai_8080_esp_tty_gtw.Tui.Model.{
  Mode, tm_disks, tm_library, tm_panel, tm_system, tm_lib, tm_lib_preview, TuiModel, Control,
  new_model, clamp_index,
}
use imsai_8080_esp_tty_gtw.Tui.Draw.{window_size, tui_draw, pane_of}
use imsai_8080_esp_tty_gtw.Tui.Rows.{at_least}

abbrev pub IsMarked : DriveEntry → Type 0
IsMarked d = d.hard_disk ≡ is_hard_disk d.id d.image

-- The hard disk of the device.
abbrev pub is_drive_i : Bytes → Bool
is_drive_i id = text_eq id (codes "I")

-- The drive and the switch that are selected are there, the drives are marked as hard disks by what
-- they hold, the drive to mount into is not the hard disk, and a pending question has its action.
pub record IsSoundAt (disks : List DriveEntry) (sel sel_sw : ℕ) (lib_for : Bytes) (confirm : Bool)
    (confirm_act : Option Bytes) : Type 0 where
  pub sel_in : (disks ≡ []) ⊎ (sel < length disks)
  pub switch_in : sel_sw < 6
  pub marked : All IsMarked disks
  pub target : is_drive_i lib_for ≡ false
  pub asked : (confirm ≡ false) ⊎ ((name : Bytes) × (confirm_act ≡ some name))

abbrev pub IsSound : TuiModel → Type 0
IsSound m = IsSoundAt m.disks m.sel m.sel_sw m.lib_for m.confirm m.confirm_act

pub new_model-IsSound : IsSound new_model
unfolding text_eq
new_model-IsSound = record {
  sel_in = inl refl;
  switch_in = omega arith;
  marked = tt;
  target = refl;
  asked = inl refl;
}

pub clamp_index-lt-length {ℓ} :
    {A : Type ℓ} (i : Option ℕ) (xs : List A) → (xs ≡ []) ⊎ (clamp_index i (length xs) < length xs)
unfolding clamp_index
clamp_index-lt-length i [] = inl refl
clamp_index-lt-length none (x ∷ xs) = inr (omega arith)
clamp_index-lt-length (some i) (x ∷ xs) = inr (ground arith)

-- What a pane sets in the model, by its mode.
pane_of-with_mode :
    (m : TuiModel) (mode : Mode) (cpa_status : Bytes) (w rows : ℕ)
    → (let m1 = record m { mode = mode } in
        let m2 = (pane_of m1 cpa_status w rows).model in
        m2 ≡ record m1 { prev_scroll = m2.prev_scroll; sys_scroll = m2.sys_scroll })
unfolding pane_of
pane_of-with_mode m tm_disks cpa_status w rows = refl
pane_of-with_mode m tm_library cpa_status w rows = refl
pane_of-with_mode m tm_panel cpa_status w rows = refl
pane_of-with_mode m tm_system cpa_status w rows = refl
pane_of-with_mode m tm_lib cpa_status w rows = refl
pane_of-with_mode m tm_lib_preview cpa_status w rows = refl

pub pane_of-model :
    (m : TuiModel) (cpa_status : Bytes) (w rows : ℕ)
    → (let m' = (pane_of m cpa_status w rows).model in
        m' ≡ record m { prev_scroll = m'.prev_scroll; sys_scroll = m'.sys_scroll })
pane_of-model m cpa_status w rows = pane_of-with_mode m m.mode cpa_status w rows

-- What the drawing sets in the model.
pub tui_draw-model :
    (c : Control)
    → (let m' = (tui_draw c).m in
        m' ≡ record c.m {
          page_step = m'.page_step;
          prev_scroll = m'.prev_scroll;
          sys_scroll = m'.sys_scroll;
        })
unfolding tui_draw
tui_draw-model c =
    let (cols, rows) = window_size c.size in
    let m1 = record c.m { page_step = at_least 1 (rows - 6) } in
    let m2 = (pane_of m1 c.cpa_status (cols - 1) rows).model in
    let kept = pane_of-model m1 c.cpa_status (cols - 1) rows in
    kept
    ∙ ap
        (λ (n : ℕ). record c.m {
          page_step = n;
          prev_scroll = m2.prev_scroll;
          sys_scroll = m2.sys_scroll;
        })
        (ap (λ (m : TuiModel). m.page_step) (sym kept))

-- Nothing of it bears on the soundness.
pub tui_draw-IsSound : (c : Control) → IsSound c.m → IsSound (tui_draw c).m
tui_draw-IsSound c v = subst IsSound (sym (tui_draw-model c)) v

pub is_hard_disk-is_drive_i :
    (id image : Bytes) → is_hard_disk id image ≡ false → is_drive_i id ≡ false
unfolding is_hard_disk
is_hard_disk-is_drive_i id image e = left_false (is_drive_i id) _ e
  where
    left_false : (a b : Bool) → (a || b) ≡ false → a ≡ false
    left_false true b e = e
    left_false false b e = refl

-- A drive that is not marked is not the hard disk.
pub IsMarked-is_drive_i :
    (d : DriveEntry) → IsMarked d → d.hard_disk ≡ false → is_drive_i d.id ≡ false
IsMarked-is_drive_i d marked soft = is_hard_disk-is_drive_i d.id d.image (sym marked ∙ soft)

-- The drives of a listing are marked by what they hold.
pub drives_of-IsMarked : (entries : List (Bytes × Bytes)) → All IsMarked (drives_of entries)
unfolding drives_of
drives_of-IsMarked entries = each (sort_on (λ e. e.0) entries)
  where
    each : (es : List (Bytes × Bytes)) → All IsMarked (map drive_entry es)
    each [] = tt
    each (e ∷ es) = (refl, each es)
