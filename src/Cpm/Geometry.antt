-- ===== src/Cpm/Geometry.antt =====
-- gateway-go/cpmdir.go: the two image kinds and where their sectors lie.
use imsai_8080_esp_tty_gtw.Prelude.{
  ℕ, ◌+◌, ◌-◌, ◌*◌, ◌/◌, ◌%◌, List, [], ◌∷◌, ◌++◌, Option, none, some, codes, get_or, ◌==◌,
  if◌then◌else◌, Result, ok, err,
}
use imsai_8080_esp_tty_gtw.Decimal.{show_nat}

abbrev pub cpm_floppy_size : ℕ
cpm_floppy_size = 256256

abbrev pub cpm_hd_size : ℕ
cpm_hd_size = 4177920

abbrev pub cpm_sec_size : ℕ
cpm_sec_size = 128

abbrev pub cpm_trans : List ℕ
cpm_trans =
    1 ∷ 7 ∷ 13 ∷ 19 ∷ 25 ∷ 5 ∷ 11 ∷ 17 ∷ 23 ∷ 3 ∷ 9 ∷ 15 ∷ 21 ∷ 2 ∷ 8 ∷ 14 ∷ 20 ∷ 26 ∷ 6 ∷ 12 ∷ 18
    ∷ 24 ∷ 4 ∷ 10 ∷ 16 ∷ 22 ∷ []

-- `skew` is `none` where the source has nil.
pub record CpmGeom : Type 0 where
  pub sectrk : ℕ
  pub boot_trk : ℕ
  pub dir_entries : ℕ
  pub skew : Option (List ℕ)

abbrev pub cpm_floppy_geom : CpmGeom
cpm_floppy_geom = record { sectrk = 26; boot_trk = 2; dir_entries = 64; skew = some cpm_trans }

abbrev pub cpm_hd_geom : CpmGeom
cpm_hd_geom = record { sectrk = 128; boot_trk = 0; dir_entries = 1024; skew = none }

-- The physical sector, from 1. The index into the table is below `sectrk`, the table's length.
abbrev phys : Option (List ℕ) → ℕ → ℕ
phys none i = i + 1
phys (some table) i = get_or table i 0

unfoldable pub sector_offset : CpmGeom → ℕ → ℕ
sector_offset g s =
    let track = g.boot_trk + s / g.sectrk in
    track * g.sectrk * cpm_sec_size + (phys g.skew (s % g.sectrk) - 1) * cpm_sec_size

unfoldable pub dir_sectors : CpmGeom → ℕ
dir_sectors g = g.dir_entries * 32 / cpm_sec_size

unfoldable pub geom_for_size : ℕ → Result CpmGeom
geom_for_size n =
    if n == cpm_floppy_size
    then ok cpm_floppy_geom
    else if n == cpm_hd_size
    then ok cpm_hd_geom
    else err (
        codes "unsupported image size "
        ++ (show_nat n ++ codes " (not a 256K floppy or 4M hard disk)"))
