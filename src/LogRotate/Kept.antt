-- ===== src/LogRotate/Kept.antt =====
-- What core/lager/logrotate.go keeps.
use go_chassis.Prelude.{
  ℕ, suc, ◌-◌, ◌*◌, ◌<◌, ◌≡◌, refl, ap, ◌∙◌, ◌⊎◌, inl, inr, arith, String, ◌==◌, eq_iff, List, [],
  ◌∷◌, none, some, Bool, true, false, ltb, pos, lookup, insert, remove, lookup-insert_self,
  lookup-insert_ne, lookup-remove, lookup-remove_ne, length, take, All, Any, Bool-cases,
  Option-cases, if◌then◌else◌,
}
use go_chassis.LogRotate.{
  Disk, whole, Machine, remove_file, filter_file_list, sort_strings, remove_oldest, remove_listed,
  Stage, rollover, stage_pattern, remove_exceeded_files, should_rollover, copy_file, rotate_file,
  truncated, do_rollover,
}

-- The files behind the `max` last ones, which are the oldest.
abbrev pub exceeded : ℕ → List String → List String
exceeded max files = take (length files - max) files

exceeded-more :
    (max : ℕ) (file : String) (files : List String)
    → ltb max (suc (length files)) ≡ true
    → exceeded max (file ∷ files) ≡ file ∷ exceeded max files
exceeded-more max file files h =
    let e : suc (length files) - max ≡ suc (length files - max) = ground (arith, h) in
    ap (λ (n : ℕ). take n (file ∷ files)) e

abbrev pub Kept : Disk → Disk → List String → String → Type 0
Kept before after' old name =
    (lookup name after' ≡ lookup name before) ⊎ Any (λ (o : String). o ≡ name) old

remove_file-cases :
    (m : Machine) (file : String) (disk : Disk)
    → (remove_file m file disk ≡ none) ⊎ (remove_file m file disk ≡ some (remove file disk))
unfolding remove_file
remove_file-cases m file disk = elim (Option-cases (lookup file disk)) [
  | inl n ↦ inl (rw n refl)
  | inr (bytes, l) ↦ elim (Bool-cases (m.removes file)) [
    | inl r ↦ inr (rw (l, r) refl)
    | inr r ↦ inl (rw (l, r) refl)
  ]
]

Kept-remove :
    (file name : String) (disk after' : Disk) (old : List String)
    → Kept (remove file disk) after' old name
    → Kept disk after' (file ∷ old) name
Kept-remove file name disk after' old (inr o) = inr (inr o)
Kept-remove file name disk after' old (inl k) = elim (Bool-cases (file == name)) [
  | inl e ↦ inr (inl ((eq_iff file name).0 e))
  | inr e ↦ inl (k ∙ lookup-remove_ne file name disk (ground (arith, e, eq_iff file name)))
]

-- Whatever fails, only the oldest files are removed.
pub remove_oldest-Kept :
    (m : Machine) (max : ℕ) (files : List String) (disk : Disk) (name : String)
    → Kept disk (remove_oldest m max files disk) (exceeded max files) name
unfolding remove_oldest
remove_oldest-Kept m max [] disk name = inl refl
remove_oldest-Kept m max (file ∷ files) disk name =
    elim (Bool-cases (ltb max (length (file ∷ files)))) [
      | inr e ↦ rw e (inl refl)
      | inl e ↦ elim (remove_file-cases m file disk) [
        | inl n ↦ rw (e, n) (inl refl)
        | inr r ↦
            rw (e, r, exceeded-more max file files e)
              (Kept-remove file name disk _ _
                (remove_oldest-Kept m max files (remove file disk) name))
      ]
    ]

remove_oldest-none :
    (m : Machine) (max : ℕ) (files : List String) (disk : Disk) (name : String)
    → lookup name disk ≡ none
    → lookup name (remove_oldest m max files disk) ≡ none
unfolding remove_oldest
remove_oldest-none m max [] disk name h = h
remove_oldest-none m max (file ∷ files) disk name h =
    elim (Bool-cases (ltb max (length (file ∷ files)))) [
      | inr e ↦ rw e h
      | inl e ↦ elim (remove_file-cases m file disk) [
        | inl n ↦ rw (e, n) h
        | inr r ↦
            rw (e, r)
              (remove_oldest-none m max files (remove file disk) name
                (let l = lookup-remove file name disk in ground (arith, l, h)))
      ]
    ]

abbrev pub Distinct : List String → Type 0
Distinct [] = Unit
Distinct (x ∷ xs) = All (λ (y : String). (x == y) ≡ false) xs × Distinct xs

abbrev pub Exist : Disk → List String → Type 0
Exist disk files = All (λ (f : String). (bytes : List ℕ) × (lookup f disk ≡ some bytes)) files

Exist-remove :
    (file : String) (disk : Disk) (files : List String)
    → All (λ (y : String). (file == y) ≡ false) files
    → Exist disk files
    → Exist (remove file disk) files
Exist-remove file disk [] d e = tt
Exist-remove file disk (f ∷ files) (ne, d) ((bytes, l), e) = (
  (bytes, lookup-remove file f disk ∙ ap (λ (b : Bool). if b then none else lookup f disk) ne ∙ l),
  Exist-remove file disk files d e,
)

remove_file-removes :
    (m : Machine) (file : String) (disk : Disk) (bytes : List ℕ)
    → m.removes file ≡ true
    → lookup file disk ≡ some bytes
    → remove_file m file disk ≡ some (remove file disk)
unfolding remove_file
remove_file-removes m file disk bytes r l = rw (l, r) refl

-- If every file can be removed, all of the oldest are.
pub remove_oldest-removes :
    (m : Machine) (max : ℕ) (files : List String) (disk : Disk)
    → ((f : String) → m.removes f ≡ true)
    → Distinct files
    → Exist disk files
    → All (λ (o : String). lookup o (remove_oldest m max files disk) ≡ none) (exceeded max files)
unfolding remove_oldest
remove_oldest-removes m max [] disk r d e = let z : 0 - max ≡ 0 = omega arith in rw z tt
remove_oldest-removes m max (file ∷ files) disk r (ne, d) ((bytes, l), e) =
    elim (Bool-cases (ltb max (length (file ∷ files)))) [
      | inr few ↦ let z : suc (length files) - max ≡ 0 = ground (arith, few) in rw z tt
      | inl more ↦
          let gone = remove_file-removes m file disk bytes (r file) l in
          let self : lookup file (remove file disk) ≡ none =
            (let q = lookup-remove file file disk in
              let s : (file == file) ≡ true = ground (arith, eq_iff file file) in
              ground (arith, q, s)) in
          rw (more, gone, exceeded-more max file files more)
            (
              remove_oldest-none m max files (remove file disk) file self,
              remove_oldest-removes m max files (remove file disk) r d
                  (Exist-remove file disk files ne e),
            )
    ]

-- Removing the exceeded files removes the oldest of the files with the pattern of the stage, all but the
-- `max` last ones in the order of their paths, and keeps every other file with its bytes: if the disk can be walked, every file can
-- be removed, and the files that are found are there and have different paths.
pub remove_exceeded_files-oldest :
    (m : Machine) (path base_name : String) (max : ℕ) (stage : Stage) (disk : Disk)
    (files : List String) (name : String)
    → filter_file_list m path (stage_pattern stage base_name) disk ≡ some files
    → ((f : String) → m.removes f ≡ true)
    → Distinct (sort_strings files)
    → Exist disk (sort_strings files)
    → let left = remove_exceeded_files m path base_name (pos max) stage disk in
      All (λ (o : String). lookup o left ≡ none) (exceeded max (sort_strings files))
      × Kept disk left (exceeded max (sort_strings files)) name
unfolding remove_exceeded_files remove_listed
remove_exceeded_files-oldest m path base_name max stage disk files name f r d e = rw f (
  remove_oldest-removes m max (sort_strings files) disk r d e,
  remove_oldest-Kept m max (sort_strings files) disk name,
)

remove_exceeded_files-Kept :
    (m : Machine) (path base_name : String) (max : ℕ) (stage : Stage) (disk : Disk)
    (files : List String) (name : String)
    → filter_file_list m path (stage_pattern stage base_name) disk ≡ some files
    → Kept disk
        (remove_exceeded_files m path base_name (pos max) stage disk)
        (exceeded max (sort_strings files))
        name
unfolding remove_exceeded_files remove_listed
remove_exceeded_files-Kept m path base_name max stage disk files name f =
    rw f (remove_oldest-Kept m max (sort_strings files) disk name)

Kept-value :
    (disk left : Disk) (old : List String) (name : String) (bytes : List ℕ)
    → Kept disk left old name
    → lookup name disk ≡ some bytes
    → (lookup name left ≡ some bytes) ⊎ Any (λ (o : String). o ≡ name) old
Kept-value disk left old name bytes (inl k) l = inl (k ∙ l)
Kept-value disk left old name bytes (inr o) l = inr o

-- The disk when the log was copied whole and emptied.
abbrev pub rolled : Machine → String → List ℕ → Disk → Disk
rolled m path bytes disk = insert path [] (insert (rotate_file m path) bytes disk)

-- A log that is larger than its limit is rolled over: its bytes are found in the file of the time, and the log is empty, unless the
-- file or the log is itself one of the files of the log that exceed the number to keep. This holds when the copy is whole and the log
-- can be emptied, its path is not that of the new file, and the disk can be walked.
pub do_rollover-rolls :
    (m : Machine) (path : String) (size max : ℕ) (disk : Disk) (bytes : List ℕ)
    (files : List String)
    → lookup path disk ≡ some bytes
    → size * 1024 * 1024 < length bytes
    → m.copies path ≡ whole
    → m.truncates path ≡ true
    → (path == rotate_file m path) ≡ false
    → filter_file_list m
        (m.dir path)
        (stage_pattern rollover (m.base path))
        (rolled m path bytes disk)
      ≡ some files
    → let left = do_rollover m path (pos size) (pos max) disk in
      let old = exceeded max (sort_strings files) in
      ((lookup (rotate_file m path) left ≡ some bytes)
        ⊎ Any (λ (o : String). o ≡ rotate_file m path) old)
      × ((lookup path left ≡ some []) ⊎ Any (λ (o : String). o ≡ path) old)
unfolding do_rollover should_rollover copy_file truncated
do_rollover-rolls m path size max disk bytes files l s c t ne f =
    let big : ltb (size * 1024 * 1024) (length bytes) ≡ true = ground (arith, s) in
    let rotated : lookup (rotate_file m path) (rolled m path bytes disk) ≡ some bytes =
      lookup-insert_ne path (rotate_file m path) [] _
        (ground (arith, ne, eq_iff path (rotate_file m path)))
      ∙ lookup-insert_self (rotate_file m path) bytes disk in
    let emptied : lookup path (rolled m path bytes disk) ≡ some [] = lookup-insert_self path [] _ in
    let left : do_rollover m path (pos size) (pos max) disk
        ≡ remove_exceeded_files m (m.dir path) (m.base path) (pos max) rollover
            (rolled m path bytes disk) =
      rw (l, big, c, t) refl in
    let kept = λ (name : String).
      remove_exceeded_files-Kept m (m.dir path) (m.base path) max rollover
        (rolled m path bytes disk) files name f in
    rw left (
      Kept-value _ _ _ (rotate_file m path) bytes (kept (rotate_file m path)) rotated,
      Kept-value _ _ _ path [] (kept path) emptied,
    )
