-- ===== src/LogRotate.antt =====
-- The rotation of logs, core/lager/logrotate.go. A disk is the files by path with their bytes. Sizes are far
-- below 2 ^ 63. Regular expressions, paths, times and archives are parameters, as is what fails.
pub mod Kept
use go_chassis.Prelude.{
  ℕ, ◌-◌, ◌*◌, String, ◌<>◌, List, [], ◌∷◌, Option, none, some, Bool, true, false, not, ltb, leb, ℤ,
  pos, negsuc, Dict, lookup, insert, remove, insert_name, sorted_names, keep, length, take, ◌&&◌,
  if◌then◌else◌,
}

abbrev pub Disk : Type 0
Disk = Dict (List ℕ)

-- How a copy ends: nothing is created, it stops after some bytes, or it is whole; and how a file
-- is compressed.
pub data Copy : Type 0 where
  not_copied : Copy
  cut_off : ℕ → Copy
  whole : Copy

pub record Machine : Type 0 where
  pub matches : String → String → Bool
  pub base : String → String
  pub dir : String → String
  pub is_below : String → String → Bool
  pub walks : String → Bool
  pub removes : String → Bool
  pub copies : String → Copy
  pub truncates : String → Bool
  pub archive : String → List ℕ → List ℕ
  pub packs : String → Copy
  pub time_stamp : String → String

-- `removeFile`; a missing file is an error, which is `none`.
abbrev pub remove_found : Machine → String → Disk → Option (List ℕ) → Option Disk
unfolding remove
remove_found m path disk none = none
remove_found m path disk (some bytes) = if m.removes path then some (remove path disk) else none

unfoldable pub remove_file : Machine → String → Disk → Option Disk
unfolding remove_found lookup
remove_file m path disk = remove_found m path disk (lookup path disk)

-- `FilterFileList`
abbrev pub chosen : Machine → String → String → String → Bool
chosen m path pat name = m.is_below path name && m.matches pat (m.base name)

unfoldable pub filter_file_list : Machine → String → String → Disk → Option (List String)
unfolding keep sorted_names
filter_file_list m path pat disk =
    if m.walks path then some (keep (chosen m path pat) (sorted_names disk)) else none

-- `sort.Strings`
unfoldable pub sort_strings : List String → List String
unfolding insert_name
sort_strings [] = []
sort_strings (name ∷ names) = insert_name name (sort_strings names)

-- `removeExceededFiles`; it stops at the first file that it cannot remove.
unfoldable pub remove_oldest : Machine → ℕ → List String → Disk → Disk
unfolding remove_file
remove_oldest m max [] disk = disk
remove_oldest m max (file ∷ files) disk =
    let rest : Disk = elim (remove_file m file disk) [
      | none ↦ disk
      | some d ↦ remove_oldest m max files d
    ] in
    if ltb max (length (file ∷ files)) then rest else disk

pub data Stage : Type 0 where
  rollover : Stage
  backup : Stage

abbrev pub stage_pattern : Stage → String → String
stage_pattern rollover base_name = base_name <> "\\.[0-9]{1,17}$"
stage_pattern backup base_name = base_name <> "\\.[0-9]{17}\\.zip$"

abbrev pub remove_listed : Machine → ℕ → Disk → Option (List String) → Disk
unfolding remove_oldest sort_strings
remove_listed m max disk none = disk
remove_listed m max disk (some files) = remove_oldest m max (sort_strings files) disk

unfoldable pub remove_exceeded_files : Machine → String → String → ℤ → Stage → Disk → Disk
unfolding remove_listed filter_file_list
remove_exceeded_files m path base_name (negsuc n) stage disk = disk
remove_exceeded_files m path base_name (pos max) stage disk =
    remove_listed m max disk (filter_file_list m path (stage_pattern stage base_name) disk)

-- `shouldRollover`
abbrev pub is_larger : ℤ → Option (List ℕ) → Bool
is_larger (negsuc n) file = false
is_larger (pos max) none = false
is_larger (pos max) (some bytes) = ltb (max * 1024 * 1024) (length bytes)

unfoldable pub should_rollover : String → ℤ → Disk → Bool
unfolding lookup
should_rollover path max_file_size disk = is_larger max_file_size (lookup path disk)

-- `CopyFile`
abbrev pub copied : Copy → String → Option (List ℕ) → Disk → Disk
unfolding insert
copied not_copied dest source disk = disk
copied (cut_off n) dest none disk = disk
copied (cut_off n) dest (some bytes) disk = insert dest (take n bytes) disk
copied whole dest none disk = disk
copied whole dest (some bytes) disk = insert dest bytes disk

unfoldable pub copy_file : Machine → String → String → Disk → Disk
unfolding copied lookup
copy_file m source dest disk = copied (m.copies source) dest (lookup source disk) disk

-- `doRollover`
abbrev pub rotate_file : Machine → String → String
rotate_file m path = path <> "." <> m.time_stamp path

abbrev pub truncated : Machine → String → ℤ → Disk → Disk
unfolding remove_exceeded_files insert
truncated m path max_backup_count disk =
    if m.truncates path
    then remove_exceeded_files m (m.dir path) (m.base path) max_backup_count rollover
        (insert path [] disk)
    else disk

unfoldable pub do_rollover : Machine → String → ℤ → ℤ → Disk → Disk
unfolding should_rollover copy_file truncated
do_rollover m path max_file_size max_backup_count disk =
    if should_rollover path max_file_size disk
    then truncated m path max_backup_count (copy_file m path (rotate_file m path) disk)
    else disk

-- `compressFile`: the disk, and whether there is no error.
abbrev pub compressed : Machine → Copy → String → String → Option (List ℕ) → Disk → Disk × Bool
unfolding insert
compressed m not_copied path dest source disk = (disk, false)
compressed m (cut_off n) path dest none disk = (disk, false)
compressed m (cut_off n) path dest (some bytes) disk =
    (insert dest (take n (m.archive (m.base path) bytes)) disk, false)
compressed m whole path dest none disk = (disk, false)
compressed m whole path dest (some bytes) disk =
    (insert dest (m.archive (m.base path) bytes) disk, true)

abbrev pub archive_path : Machine → String → String → Bool → String
archive_path m path base_name replace_timestamp =
    if replace_timestamp
    then m.dir path <> "/" <> base_name <> "." <> m.time_stamp path <> ".zip"
    else path <> ".zip"

unfoldable pub compress_file : Machine → String → String → Bool → Disk → Disk × Bool
unfolding compressed lookup
compress_file m path base_name replace_timestamp disk =
    compressed m (m.packs path) path (archive_path m path base_name replace_timestamp)
      (lookup path disk) disk

-- `doBackup`
abbrev pub remove_packed : Machine → String → Disk × Bool → Disk
unfolding remove_file
remove_packed m file (disk, false) = disk
remove_packed m file (disk, true) = elim (remove_file m file disk) [ none ↦ disk | some d ↦ d ]

unfoldable pub back_up : Machine → String → List String → Disk → Disk
unfolding compress_file remove_packed
back_up m base_name [] disk = disk
back_up m base_name (file ∷ files) disk =
    let replaces : Bool = not (m.matches (base_name <> "\\.[0-9]{17}$") file) in
    back_up m base_name files (remove_packed m file (compress_file m file base_name replaces disk))

abbrev pub back_up_listed : Machine → String → ℤ → Disk → Option (List String) → Disk
unfolding back_up remove_exceeded_files
back_up_listed m path max disk none = disk
back_up_listed m path max disk (some files) =
    remove_exceeded_files m (m.dir path) (m.base path) max backup
      (back_up m (m.base path) files disk)

abbrev pub is_positive : ℤ → Bool
is_positive (pos n) = ltb 0 n
is_positive (negsuc n) = false

unfoldable pub do_backup : Machine → String → ℤ → Disk → Disk
unfolding back_up_listed filter_file_list
do_backup m path max_backup_count disk =
    if is_positive max_backup_count
    then back_up_listed m path max_backup_count disk
        (filter_file_list m (m.dir path) (m.base path <> "\\.[0-9]{1,17}$") disk)
    else disk

-- `LogRotate`, with `logRotateFile`
unfoldable pub rotate_all : Machine → ℤ → ℤ → List String → Disk → Disk
unfolding do_rollover do_backup
rotate_all m max_file_size max_backup_count [] disk = disk
rotate_all m max_file_size max_backup_count (file ∷ files) disk =
    rotate_all m max_file_size max_backup_count files
      (do_backup m file max_backup_count (do_rollover m file max_file_size max_backup_count disk))

unfoldable pub log_rotate : Machine → String → ℤ → ℤ → Disk → Disk
unfolding rotate_all filter_file_list
log_rotate m path max_file_size max_backup_count disk =
    elim (filter_file_list m path ".(\\.log|\\.trace|\\.out)$" disk) [
      | none ↦ disk
      | some files ↦ rotate_all m max_file_size max_backup_count files disk
    ]
