-- ===== src/Storage/Usage.antt =====
-- `_scan_directory_sync` of src/api/storage/handlers.py: what a storage holds.
use nexus_gate.Prelude.{ℕ, zero, suc, ◌+◌, ◌≤◌, List, [], ◌∷◌, ◌≡◌, arith, ◌∙◌, ap}

-- What `os.scandir` finds: files with their sizes, directories with their entries, where one that
-- cannot be read has none, and what is neither or cannot be asked.
mutual
  pub data Entry : Type 0 where
    file : (st_size : ℕ) → Entry
    folder : Entries → Entry
    other : Entry

  pub data Entries : Type 0 where
    nil : Entries
    cons : Entry → Entries → Entries

-- `stack`, its end first, `total_bytes` and `file_count`.
pub record Scan : Type 0 where
  pub stack : List Entries
  pub total_bytes : ℕ
  pub file_count : ℕ

unfoldable pub scan_entries : Entries → Scan → Scan
scan_entries nil s = s
scan_entries (cons (file st_size) entries) s =
    scan_entries entries
      (record s { total_bytes = s.total_bytes + st_size; file_count = s.file_count + 1 })
scan_entries (cons (folder sub) entries) s =
    scan_entries entries (record s { stack = sub ∷ s.stack })
scan_entries (cons other entries) s = scan_entries entries s

-- A round of the `while` loop, on a stack that is not empty.
abbrev pub pop : Entries → List Entries → Scan → Scan
pop current rest s = scan_entries current (record s { stack = rest })

-- The loop for as many rounds as the fuel says; `stack` tells whether it has ended.
unfoldable pub scan_loop : ℕ → Scan → Scan
unfolding scan_entries
scan_loop zero s = s
scan_loop (suc fuel) s = elim s.stack [
  | [] ↦ s
  | current ∷ rest ↦ scan_loop fuel (pop current rest s)
]

abbrev pub scan_directory : ℕ → Entries → Scan
scan_directory fuel root =
    scan_loop fuel (record { stack = root ∷ []; total_bytes = 0; file_count = 0 })

-- What the tree holds, directory by directory.
unfoldable mutual
  pub bytes_in : Entries → ℕ
  bytes_in nil = 0
  bytes_in (cons e entries) = bytes_of e + bytes_in entries

  pub bytes_of : Entry → ℕ
  bytes_of (file st_size) = st_size
  bytes_of (folder sub) = bytes_in sub
  bytes_of other = 0

unfoldable mutual
  pub files_in : Entries → ℕ
  files_in nil = 0
  files_in (cons e entries) = files_of e + files_in entries

  pub files_of : Entry → ℕ
  files_of (file st_size) = 1
  files_of (folder sub) = files_in sub
  files_of other = 0

-- The directories of a tree, its own among them.
unfoldable mutual
  pub folders_in : Entries → ℕ
  folders_in nil = 1
  folders_in (cons e entries) = folders_of e + folders_in entries

  pub folders_of : Entry → ℕ
  folders_of (folder sub) = folders_in sub
  folders_of other_kind = 0

abbrev sum : (Entries → ℕ) → List Entries → ℕ
sum f [] = 0
sum f (d ∷ ds) = f d + sum f ds

scan_entries-stack :
    (d : Entries) (s : Scan)
    → let t = scan_entries d s in
      (t.total_bytes + sum bytes_in t.stack ≡ s.total_bytes + (bytes_in d + sum bytes_in s.stack))
      × (t.file_count + sum files_in t.stack ≡ s.file_count + (files_in d + sum files_in s.stack))
      × (sum folders_in t.stack + 1 ≡ folders_in d + sum folders_in s.stack)
unfolding scan_entries bytes_in bytes_of files_in files_of folders_in folders_of
scan_entries-stack nil s = (omega arith, omega arith, omega arith)
scan_entries-stack (cons (file n) entries) s =
    let u : Scan = record s { total_bytes = s.total_bytes + n; file_count = s.file_count + 1 } in
    let (b, f, m) = scan_entries-stack entries u in
    (omega (arith, b), omega (arith, f), omega (arith, m))
scan_entries-stack (cons (folder sub) entries) s =
    let u : Scan = record s { stack = sub ∷ s.stack } in
    let (b, f, m) = scan_entries-stack entries u in
    (omega (arith, b), omega (arith, f), omega (arith, m))
scan_entries-stack (cons other entries) s =
    let (b, f, m) = scan_entries-stack entries s in
    (omega (arith, b), omega (arith, f), omega (arith, m))

folders_in-pos : (d : Entries) → 1 ≤ folders_in d
unfolding folders_in
folders_in-pos nil = omega arith
folders_in-pos (cons e entries) = omega (arith, folders_in-pos entries)

abbrev counted : ℕ → ℕ → Scan
counted bytes files = record { stack = []; total_bytes = bytes; file_count = files }

same-counted : {b c f g : ℕ} → b ≡ c → f ≡ g → counted b f ≡ counted c g
same-counted {c} {f} e h = ap (λ n. counted n f) e ∙ ap (counted c) h

all_scanned :
    (fuel : ℕ) (stack : List Entries) (b f : ℕ)
    → sum folders_in stack ≤ fuel
    → scan_loop fuel (record { stack = stack; total_bytes = b; file_count = f })
      ≡ counted (b + sum bytes_in stack) (f + sum files_in stack)
unfolding scan_loop
all_scanned zero [] b f enough = same-counted (omega arith) (omega arith)
all_scanned (suc fuel) [] b f enough = same-counted (omega arith) (omega arith)
all_scanned zero (d ∷ ds) b f enough = absurd (omega (arith, folders_in-pos d, enough))
all_scanned (suc fuel) (d ∷ ds) b f enough =
    let s : Scan = record { stack = ds; total_bytes = b; file_count = f } in
    let t = scan_entries d s in
    let (bytes, files, folders) = scan_entries-stack d s in
    all_scanned fuel t.stack t.total_bytes t.file_count (omega (arith, folders, enough))
    ∙ same-counted bytes files

-- The loop over a directory ends after at most as many rounds as the tree has directories, with the
-- stack empty, and has then counted each file of the tree once, with its size.
pub scan_directory-total :
    (fuel : ℕ) (root : Entries)
    → folders_in root ≤ fuel
    → scan_directory fuel root
      ≡ record { stack = []; total_bytes = bytes_in root; file_count = files_in root }
scan_directory-total fuel root enough =
    all_scanned fuel (root ∷ []) 0 0 (omega (arith, enough))
    ∙ same-counted (omega arith) (omega arith)
