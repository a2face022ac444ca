-- ===== src/Tests/Cpm.antt =====
-- A floppy image with one file of two extents.
use imsai_8080_esp_tty_gtw.Prelude.{
  if◌then◌else◌, ◌≤◌, ok, ap, suc, ℕ, zero, suc, ◌+◌, Bytes, List, [], ◌∷◌, ◌++◌, ◌≡◌, refl, arith,
  codes, replicate, length, length-append,
}
use imsai_8080_esp_tty_gtw.Cpm.Directory.{
  entries, by_user, read_directory, CpmFile, list_cpm_by_user,
}
use imsai_8080_esp_tty_gtw.Cpm.Geometry.{dir_sectors, sector_offset, cpm_floppy_geom, geom_for_size}
use imsai_8080_esp_tty_gtw.Cpm.Names.{cpm_name}
use imsai_8080_esp_tty_gtw.Cpm.Order.{by_user-IsSorted, IsSorted}
use imsai_8080_esp_tty_gtw.Cpm.Bounds.{
  sector_offset-in_bounds, read_directory_total, sectors_of, sector_offset_injective,
}
use imsai_8080_esp_tty_gtw.Cpm.Extents.{list_cpm_by_user_files, total, listed, has_extent, copies}

abbrev extent : ℕ → Bytes
extent rc = 0 ∷ (codes "PIP     COM" ++ (0 ∷ 0 ∷ 0 ∷ rc ∷ replicate 16 0))

padding : ℕ → ℕ → Bytes
padding n a = replicate n a

length-padding : (n a : ℕ) → length (padding n a) ≡ n
unfolding padding
length-padding zero a = refl
length-padding (suc n) a = ap suc (length-padding n a)

-- The directory starts behind the two system tracks.
image : Bytes
image = padding 6656 0 ++ ((extent 128 ++ extent 3) ++ padding 249536 0xe5)

length-image : length image ≡ 256256
unfolding image
length-image =
    rw
      (
        length-append (padding 6656 0) ((extent 128 ++ extent 3) ++ padding 249536 0xe5),
        length-append (extent 128 ++ extent 3) (padding 249536 0xe5),
        length-padding 6656 0,
        length-padding 249536 0xe5,
      )
      refl

image-geom : geom_for_size (length image) ≡ ok cpm_floppy_geom
unfolding geom_for_size
image-geom = rw length-image refl

read_directory_total_example :
    (read_directory image ≡ ok (sectors_of cpm_floppy_geom image 0 (dir_sectors cpm_floppy_geom)))
    × (length (sectors_of cpm_floppy_geom image 0 (dir_sectors cpm_floppy_geom)) ≡ 2048)
read_directory_total_example = read_directory_total image cpm_floppy_geom image-geom

sector_offset-in_bounds_example : sector_offset cpm_floppy_geom 15 + 128 ≤ 256256
unfolding geom_for_size
sector_offset-in_bounds_example =
    sector_offset-in_bounds 256256 cpm_floppy_geom 15 refl (omega arith)

sector_offset_injective_example : ◌≡◌ {A = ℕ} 15 15
unfolding geom_for_size
sector_offset_injective_example = sector_offset_injective 256256 cpm_floppy_geom 15 15 refl refl

list_cpm_by_user_files_example :
    (m : ℕ → List CpmFile) × (list_cpm_by_user image ≡ ok m)
    × ((u : ℕ) (n : Bytes)
        → (let es = entries 64 (sectors_of cpm_floppy_geom image 0 (dir_sectors cpm_floppy_geom)) in
            (copies u n (m u) ≡ (if has_extent u n es then 1 else 0))
            × (listed u n (m u) ≡ total u n es)))
list_cpm_by_user_files_example = list_cpm_by_user_files image cpm_floppy_geom image-geom

abbrev two_files : List CpmFile
two_files =
    record { user = 0; name = codes "STAT.COM"; records = 41 }
    ∷ record { user = 0; name = codes "PIP.COM"; records = 58 }
    ∷ []

by_user-IsSorted_example : IsSorted (by_user two_files 0)
by_user-IsSorted_example = by_user-IsSorted two_files 0

pip_name : cpm_name (codes "PIP     ") (codes "COM") ≡ codes "PIP.COM"
unfolding cpm_name
pip_name = refl
