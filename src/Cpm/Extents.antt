-- ===== src/Cpm/Extents.antt =====
-- gateway-go/cpmdir.go: a file is listed once, with the records of all its extents.
use imsai_8080_esp_tty_gtw.Prelude.{
  ◌/◌, ok, length, ℕ, ◌+◌, ◌≤◌, Bool, false, not, ◌&&◌, ◌||◌, Bytes, List, [], ◌∷◌, ◌≡◌, refl, ◌∙◌,
  arith, ◌==◌, ltb, keep, text_eq, text_eq_iff, if◌then◌else◌,
}
use imsai_8080_esp_tty_gtw.Cpm.Directory.{
  entries, list_cpm_by_user, CpmFile, entry_user, entry_name, entry_rc, add_records, add_entry,
  collect, insert_file, sort_files, by_user,
}
use imsai_8080_esp_tty_gtw.Cpm.Geometry.{dir_sectors, geom_for_size, CpmGeom}
use imsai_8080_esp_tty_gtw.Cpm.Bounds.{read_directory_total, sectors_of}

abbrev pub same_key : ℕ → Bytes → CpmFile → Bool
same_key u n f = f.user == u && text_eq f.name n

-- The directory entry holds an extent of file `n` of user `u`; users above 15 are no files.
abbrev pub is_extent : ℕ → Bytes → Bytes → Bool
is_extent u n e = not (ltb 15 (entry_user e)) && (entry_user e == u && text_eq (entry_name e) n)

-- The records of all extents of a file, and whether it has any.
abbrev pub total : ℕ → Bytes → List Bytes → ℕ
total u n [] = 0
total u n (e ∷ es) = let rest = total u n es in (if is_extent u n e then entry_rc e else 0) + rest

abbrev pub has_extent : ℕ → Bytes → List Bytes → Bool
has_extent u n [] = false
has_extent u n (e ∷ es) = let rest = has_extent u n es in is_extent u n e || rest

-- The sum over the listed files of one name, and how many there are.
abbrev pub listed : ℕ → Bytes → List CpmFile → ℕ
listed u n [] = 0
listed u n (f ∷ fs) = let rest = listed u n fs in (if same_key u n f then f.records else 0) + rest

abbrev pub copies : ℕ → Bytes → List CpmFile → ℕ
copies u n [] = 0
copies u n (f ∷ fs) = let rest = copies u n fs in (if same_key u n f then 1 else 0) + rest

listed-add_records :
    (u v : ℕ) (n m : Bytes) (rc : ℕ) (fs : List CpmFile)
    → listed u n (add_records v m rc fs) ≡ (if v == u && text_eq m n then rc else 0) + listed u n fs
unfolding add_records
listed-add_records u v n m rc [] = refl
listed-add_records u v n m rc (f ∷ fs) = ground (
  arith,
  listed-add_records u v n m rc fs,
  text_eq_iff f.name m,
  text_eq_iff f.name n,
  text_eq_iff m n,
)

-- A key that is there keeps its count, and the key that is added is there once.
copies-add_records :
    (u v : ℕ) (n m : Bytes) (rc : ℕ) (fs : List CpmFile)
    → copies v m fs ≤ 1
    → copies u n (add_records v m rc fs) ≡ (if v == u && text_eq m n then 1 else copies u n fs)
unfolding add_records
copies-add_records u v n m rc [] h = ground arith
copies-add_records u v n m rc (f ∷ fs) h = ground (
  arith,
  copies-add_records u v n m rc fs,
  text_eq_iff f.name m,
  text_eq_iff f.name n,
  text_eq_iff m n,
)

abbrev IsUnique : List CpmFile → Type 0
IsUnique fs = (u : ℕ) (n : Bytes) → copies u n fs ≤ 1

listed-add_entry :
    (u : ℕ) (n e : Bytes) (fs : List CpmFile)
    → listed u n (add_entry e fs) ≡ (if is_extent u n e then entry_rc e else 0) + listed u n fs
unfolding add_entry
listed-add_entry u n e fs =
    ground (arith, listed-add_records u (entry_user e) n (entry_name e) (entry_rc e) fs)

copies-add_entry :
    (u : ℕ) (n e : Bytes) (fs : List CpmFile)
    → IsUnique fs
    → copies u n (add_entry e fs) ≡ (if is_extent u n e then 1 else copies u n fs)
unfolding add_entry
copies-add_entry u n e fs h = ground (
  arith,
  copies-add_records u (entry_user e) n (entry_name e) (entry_rc e) fs
      (h (entry_user e) (entry_name e)),
)

add_entry-IsUnique : (e : Bytes) (fs : List CpmFile) → IsUnique fs → IsUnique (add_entry e fs)
add_entry-IsUnique e fs h u n = ground (arith, copies-add_entry u n e fs h, h u n)

listed-collect :
    (u : ℕ) (n : Bytes) (es : List Bytes) (fs : List CpmFile)
    → listed u n (collect es fs) ≡ total u n es + listed u n fs
unfolding collect
listed-collect u n [] fs = omega arith
listed-collect u n (e ∷ es) fs =
    omega (arith, listed-collect u n es (add_entry e fs), listed-add_entry u n e fs)

copies-collect :
    (u : ℕ) (n : Bytes) (es : List Bytes) (fs : List CpmFile)
    → IsUnique fs
    → copies u n (collect es fs) ≡ (if has_extent u n es then 1 else copies u n fs)
unfolding collect
copies-collect u n [] fs h = refl
copies-collect u n (e ∷ es) fs h = ground (
  arith,
  copies-collect u n es (add_entry e fs) (add_entry-IsUnique e fs h),
  copies-add_entry u n e fs h,
)

-- Sorting and selecting keep what is counted.
insert_file_counts :
    (u : ℕ) (n : Bytes) (f : CpmFile) (fs : List CpmFile)
    → (listed u n (insert_file f fs) ≡ listed u n (f ∷ fs))
      × (copies u n (insert_file f fs) ≡ copies u n (f ∷ fs))
unfolding insert_file
insert_file_counts u n f [] = (refl, refl)
insert_file_counts u n f (g ∷ gs) = ground (arith, insert_file_counts u n f gs)

sort_files_counts :
    (u : ℕ) (n : Bytes) (fs : List CpmFile)
    → (listed u n (sort_files fs) ≡ listed u n fs) × (copies u n (sort_files fs) ≡ copies u n fs)
unfolding sort_files
sort_files_counts u n [] = (refl, refl)
sort_files_counts u n (f ∷ fs) =
    ground (arith, insert_file_counts u n f (sort_files fs), sort_files_counts u n fs)

keep_counts :
    (u : ℕ) (n : Bytes) (fs : List CpmFile)
    → (listed u n (keep (λ f. f.user == u) fs) ≡ listed u n fs)
      × (copies u n (keep (λ f. f.user == u) fs) ≡ copies u n fs)
keep_counts u n [] = (refl, refl)
keep_counts u n (f ∷ fs) = ground (arith, keep_counts u n fs)

pub by_user_counts :
    (u : ℕ) (n : Bytes) (fs : List CpmFile)
    → (listed u n (by_user fs u) ≡ listed u n fs) × (copies u n (by_user fs u) ≡ copies u n fs)
unfolding by_user
by_user_counts u n fs =
    ground (arith, sort_files_counts u n (keep (λ f. f.user == u) fs), keep_counts u n fs)

-- The listing of an image of a supported size succeeds, and for every user and every name: the file
-- is in that user's list exactly once if the directory holds an extent of it and not at all
-- otherwise, with the records of all its extents added up.
pub list_cpm_by_user_files :
    (img : Bytes) (g : CpmGeom)
    → geom_for_size (length img) ≡ ok g
    → (m : ℕ → List CpmFile) × (list_cpm_by_user img ≡ ok m)
      × ((u : ℕ) (n : Bytes)
          → (let es = entries g.dir_entries (sectors_of g img 0 (dir_sectors g)) in
              (copies u n (m u) ≡ (if has_extent u n es then 1 else 0))
              × (listed u n (m u) ≡ total u n es)))
unfolding list_cpm_by_user
list_cpm_by_user_files img g h =
    let (e, len) = read_directory_total img g h in
    let dir = sectors_of g img 0 (dir_sectors g) in
    let es = entries g.dir_entries dir in
    let rounds : length dir / 32 ≡ g.dir_entries = omega arith in
    (
      by_user (collect es []),
      rw (e, rounds),
      λ u n.
          let k = by_user_counts u n (collect es []) in
          (
            k.1 ∙ copies-collect u n es [] (λ v w. omega arith),
            ground (arith, k.0, listed-collect u n es []),
          ),
    )
