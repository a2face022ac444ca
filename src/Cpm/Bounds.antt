-- ===== src/Cpm/Bounds.antt =====
-- gateway-go/cpmdir.go: an image of a supported size is read whole, each sector from its own place.
use imsai_8080_esp_tty_gtw.Prelude.{
  inr, inl, le→ltb, Bool-cases, ap, ◌∙◌, ==_iff, sym, ℕ, zero, suc, ◌+◌, ◌-◌, ◌*◌, ◌%◌, ◌≤◌, ◌<◌,
  Bool, true, ◌&&◌, Bytes, List, [], ◌∷◌, ◌++◌, ◌≡◌, refl, arith, leb, ◌==◌, length, length-append,
  length-drop, take, drop, get_or, ok, err,
}
use imsai_8080_esp_tty_gtw.Cpm.Geometry.{
  CpmGeom, cpm_floppy_geom, cpm_hd_geom, cpm_trans, cpm_sec_size, sector_offset, dir_sectors,
  geom_for_size,
}
use imsai_8080_esp_tty_gtw.Cpm.Directory.{read_sectors, read_directory}

-- A test that every sector number of a track passes.
on_track : (ℕ → Bool) → ℕ → Bool
on_track test zero = true
on_track test (suc last) = on_track test last && test last

on_track-lt :
    (test : ℕ → Bool) (sectors i : ℕ) → i < sectors → on_track test sectors ≡ true → test i ≡ true
unfolding on_track
on_track-lt test zero i inside passed = absurd (omega arith)
on_track-lt test (suc last) i inside passed = ground (arith, on_track-lt test last i)

trans_in_track :
    (i : ℕ) → i < 26 → (leb 1 (get_or cpm_trans i 0) && leb (get_or cpm_trans i 0) 26) ≡ true
unfolding on_track
trans_in_track i h =
    on_track-lt (λ j. leb 1 (get_or cpm_trans j 0) && leb (get_or cpm_trans j 0) 26) 26 i h refl

-- The inverse of the skew table: the logical sector of a physical one.
abbrev untrans : List ℕ
untrans =
    0 ∷ 13 ∷ 9 ∷ 22 ∷ 5 ∷ 18 ∷ 1 ∷ 14 ∷ 10 ∷ 23 ∷ 6 ∷ 19 ∷ 2 ∷ 15 ∷ 11 ∷ 24 ∷ 7 ∷ 20 ∷ 3 ∷ 16 ∷ 12
    ∷ 25 ∷ 8 ∷ 21 ∷ 4 ∷ 17 ∷ []

untrans_trans : (i : ℕ) → i < 26 → (get_or untrans (get_or cpm_trans i 0 - 1) 0 == i) ≡ true
unfolding on_track
untrans_trans i h = on_track-lt (λ j. get_or untrans (get_or cpm_trans j 0 - 1) 0 == j) 26 i h refl

floppy_in_bounds : (s : ℕ) → s < 1950 → sector_offset cpm_floppy_geom s + cpm_sec_size ≤ 256256
unfolding sector_offset
floppy_in_bounds s h = ground (arith, trans_in_track (s % 26))

hd_in_bounds : (s : ℕ) → s < 32640 → sector_offset cpm_hd_geom s + cpm_sec_size ≤ 4177920
unfolding sector_offset
hd_in_bounds s h = ground arith

trans_injective : (i j : ℕ) → i < 26 → j < 26 → get_or cpm_trans i 0 ≡ get_or cpm_trans j 0 → i ≡ j
trans_injective i j h k e =
    sym ((==_iff _ i).0 (untrans_trans i h))
    ∙ ap (λ t. get_or untrans (t - 1) 0) e
    ∙ (==_iff _ j).0 (untrans_trans j k)

floppy_injective :
    (s t : ℕ) → sector_offset cpm_floppy_geom s ≡ sector_offset cpm_floppy_geom t → s ≡ t
unfolding sector_offset
floppy_injective s t e =
    let r = trans_injective (s % 26) (t % 26) in
    ground (arith, trans_in_track (s % 26), trans_in_track (t % 26), r)

hd_injective : (s t : ℕ) → sector_offset cpm_hd_geom s ≡ sector_offset cpm_hd_geom t → s ≡ t
unfolding sector_offset
hd_injective s t e = omega arith

-- The bytes of the first `n` sectors from sector `s` on.
abbrev pub sectors_of : CpmGeom → Bytes → ℕ → ℕ → Bytes
sectors_of g img s zero = []
sectors_of g img s (suc n) =
    take cpm_sec_size (drop (sector_offset g s) img) ++ sectors_of g img (s + 1) n

length-take : (n : ℕ) (s : Bytes) → n ≤ length s → length (take n s) ≡ n
length-take zero s h = refl
length-take (suc n) [] h = omega arith
length-take (suc n) (x ∷ s) h = omega (arith, length-take n s)

length-sector :
    (off : ℕ) (img : Bytes)
    → off + cpm_sec_size ≤ length img
    → length (take cpm_sec_size (drop off img)) ≡ cpm_sec_size
length-sector off img h =
    length-take cpm_sec_size (drop off img) (omega (arith, length-drop off img))

read_sectors-ok :
    (g : CpmGeom) (img : Bytes) (s n : ℕ)
    → ((i : ℕ) → i < s + n → sector_offset g i + cpm_sec_size ≤ length img)
    → (read_sectors g img s n ≡ ok (sectors_of g img s n))
      × (length (sectors_of g img s n) ≡ n * cpm_sec_size)
unfolding read_sectors
read_sectors-ok g img s zero h = (refl, refl)
read_sectors-ok g img s (suc n) h =
    let here = h s (omega arith) in
    let (rest, count) = read_sectors-ok g img (s + 1) n (λ i k. h i (omega arith)) in
    (
      rw (le→ltb (length img) (sector_offset g s + cpm_sec_size) here, rest),
      omega (
        arith,
        length-append (take cpm_sec_size (drop (sector_offset g s) img))
            (sectors_of g img (s + 1) n),
        count,
        length-sector (sector_offset g s) img here,
      ),
    )

data Supported (n : ℕ) (g : CpmGeom) : Type 0 where
  floppy : n ≡ 256256 → g ≡ cpm_floppy_geom → Supported n g
  hd : n ≡ 4177920 → g ≡ cpm_hd_geom → Supported n g

ok_injective {ℓ} : {A : Type ℓ} {a b : A} → ok a ≡ ok b → b ≡ a
ok_injective e = cc

geom_for_size-Supported : (n : ℕ) {g : CpmGeom} → geom_for_size n ≡ ok g → Supported n g
unfolding geom_for_size
geom_for_size-Supported n {g} e = elim (Bool-cases (n == 256256)) [
  | inl f ↦ floppy ((==_iff n 256256).0 f) (ok_injective (rw f at e))
  | inr f ↦ elim (Bool-cases (n == 4177920)) [
    | inl k ↦ hd ((==_iff n 4177920).0 k) (ok_injective (rw (f, k) at e))
    | inr k ↦ absurd (impossible (rw (f, k) at e))
  ]
]
  where
    impossible : {m : Bytes} → err m ≡ ok g → ⊥
    impossible h = cc

-- An image of a supported size is never reported as truncated: its directory is read whole, as the
-- bytes of the directory sectors in logical order, 32 for each directory entry of its geometry.
pub read_directory_total :
    (img : Bytes) (g : CpmGeom)
    → geom_for_size (length img) ≡ ok g
    → (read_directory img ≡ ok (sectors_of g img 0 (dir_sectors g)))
      × (length (sectors_of g img 0 (dir_sectors g)) ≡ g.dir_entries * 32)
unfolding read_directory
read_directory_total img g e = elim (geom_for_size-Supported (length img) e) [
  | floppy n f ↦ rw (e, read_directory) (rw f (go_floppy n))
  | hd n f ↦ rw (e, read_directory) (rw f (go_hd n))
]
  where
    go_floppy :
        length img ≡ 256256
        → (read_sectors cpm_floppy_geom img 0 (dir_sectors cpm_floppy_geom)
            ≡ ok (sectors_of cpm_floppy_geom img 0 (dir_sectors cpm_floppy_geom)))
          × (length (sectors_of cpm_floppy_geom img 0 (dir_sectors cpm_floppy_geom)) ≡ 64 * 32)
    go_floppy n =
        unfold dir_sectors in
        read_sectors-ok cpm_floppy_geom img 0 16
          (λ i h. omega (arith, floppy_in_bounds i (omega arith)))

    go_hd :
        length img ≡ 4177920
        → (read_sectors cpm_hd_geom img 0 (dir_sectors cpm_hd_geom)
            ≡ ok (sectors_of cpm_hd_geom img 0 (dir_sectors cpm_hd_geom)))
          × (length (sectors_of cpm_hd_geom img 0 (dir_sectors cpm_hd_geom)) ≡ 1024 * 32)
    go_hd n =
        unfold dir_sectors in
        read_sectors-ok cpm_hd_geom img 0 256 (λ i h. omega (arith, hd_in_bounds i (omega arith)))

-- On an image of a supported size every logical sector of the data area lies inside the image.
pub sector_offset-in_bounds :
    (n : ℕ) (g : CpmGeom) (s : ℕ)
    → geom_for_size n ≡ ok g
    → (g.boot_trk * g.sectrk + s) * cpm_sec_size < n
    → sector_offset g s + cpm_sec_size ≤ n
sector_offset-in_bounds n g s e h = elim (geom_for_size-Supported n e) [
  | floppy k f ↦ floppy_case k (rw f at h) f
  | hd k f ↦ hd_case k (rw f at h) f
]
  where
    floppy_case :
        n ≡ 256256
        → (2 * 26 + s) * 128 < n
        → g ≡ cpm_floppy_geom
        → sector_offset g s + cpm_sec_size ≤ n
    floppy_case k h' f = rw (f, k) (floppy_in_bounds s (omega arith))

    hd_case :
        n ≡ 4177920
        → (0 * 128 + s) * 128 < n
        → g ≡ cpm_hd_geom
        → sector_offset g s + cpm_sec_size ≤ n
    hd_case k h' f = rw (f, k) (hd_in_bounds s (omega arith))

-- In the geometry of a supported image two different logical sectors never lie at the same place.
pub sector_offset_injective :
    (n : ℕ) (g : CpmGeom) (s t : ℕ)
    → geom_for_size n ≡ ok g
    → sector_offset g s ≡ sector_offset g t
    → s ≡ t
sector_offset_injective n g s t e h = elim (geom_for_size-Supported n e) [
  | floppy k f ↦ floppy_injective s t (rw f at h)
  | hd k f ↦ hd_injective s t (rw f at h)
]
