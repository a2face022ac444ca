-- ===== src/Cpm/Directory.antt =====
-- gateway-go/cpmdir.go: `listCPMByUser`. The map `files` is an association list in the order of the
-- first extents; the map from users to files is a function, [] where Go's map has no key.
use imsai_8080_esp_tty_gtw.Prelude.{
  ℕ, zero, suc, ◌+◌, ◌*◌, ◌/◌, ◌&&◌, Bytes, List, [], ◌∷◌, ◌++◌, codes, length, get_or, take, drop,
  keep, ltb, ◌==◌, if◌then◌else◌, text_eq, text_lt, Result, ok, err, ◌>>=◌,
}
use imsai_8080_esp_tty_gtw.Cpm.Geometry.{
  CpmGeom, cpm_sec_size, sector_offset, dir_sectors, geom_for_size,
}
use imsai_8080_esp_tty_gtw.Cpm.Names.{cpm_name}

pub record CpmFile : Type 0 where
  pub user : ℕ
  pub name : Bytes
  pub records : ℕ

unfoldable pub size_bytes : CpmFile → ℕ
size_bytes f = f.records * cpm_sec_size

-- The loop that reads the directory sectors, from sector `s` on, with `n` still to read.
unfoldable pub read_sectors : CpmGeom → Bytes → ℕ → ℕ → Result Bytes
read_sectors g img s zero = ok []
read_sectors g img s (suc n) =
    let off = sector_offset g s in
    let rest = read_sectors g img (s + 1) n in
    if ltb (length img) (off + cpm_sec_size)
    then err (codes "image truncated reading directory")
    else (do more ← rest; ok (take cpm_sec_size (drop off img) ++ more))

-- `files[k].records += rc`, or a new entry.
unfoldable pub add_records : ℕ → Bytes → ℕ → List CpmFile → List CpmFile
add_records u n rc [] = record { user = u; name = n; records = rc } ∷ []
add_records u n rc (f ∷ fs) =
    let rest = add_records u n rc fs in
    if f.user == u && text_eq f.name n then record f { records = f.records + rc } ∷ fs else f ∷ rest

-- The user, the name and the record count of a directory entry of 32 bytes.
abbrev pub entry_user : Bytes → ℕ
entry_user e = get_or e 0 0

abbrev pub entry_name : Bytes → Bytes
entry_name e = cpm_name (take 8 (drop 1 e)) (take 3 (drop 9 e))

abbrev pub entry_rc : Bytes → ℕ
entry_rc e = get_or e 15 0

unfoldable pub add_entry : Bytes → List CpmFile → List CpmFile
unfolding add_records
add_entry e files =
    if ltb 15 (entry_user e)
    then files
    else add_records (entry_user e) (entry_name e) (entry_rc e) files

-- `for i := 0; i+32 <= len(dir); i += 32` makes `len(dir) / 32` turns.
unfoldable pub entries : ℕ → Bytes → List Bytes
entries zero dir = []
entries (suc n) dir = take 32 dir ∷ entries n (drop 32 dir)

unfoldable pub collect : List Bytes → List CpmFile → List CpmFile
unfolding add_entry
collect [] files = files
collect (e ∷ es) files = collect es (add_entry e files)

-- `sort.Slice` by name: the names of one user differ, so the order is the only one.
unfoldable pub insert_file : CpmFile → List CpmFile → List CpmFile
insert_file f [] = f ∷ []
insert_file f (g ∷ gs) =
    let rest = insert_file f gs in if text_lt f.name g.name then f ∷ g ∷ gs else g ∷ rest

unfoldable pub sort_files : List CpmFile → List CpmFile
unfolding insert_file
sort_files [] = []
sort_files (f ∷ fs) = insert_file f (sort_files fs)

unfoldable pub by_user : List CpmFile → ℕ → List CpmFile
unfolding sort_files
by_user files u = sort_files (keep (λ f. f.user == u) files)

-- The directory buffer of an image.
unfoldable pub read_directory : Bytes → Result Bytes
unfolding geom_for_size read_sectors dir_sectors sector_offset
read_directory img = do g ← geom_for_size (length img); read_sectors g img 0 (dir_sectors g)

unfoldable pub list_cpm_by_user : Bytes → Result (ℕ → List CpmFile)
unfolding read_directory entries collect by_user
list_cpm_by_user img = do
  dir ← read_directory img
  ok (by_user (collect (entries (length dir / 32) dir) []))
