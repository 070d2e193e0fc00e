-- ===== src/Tests/Rotations.antt =====
-- The theorems on the rotation of logs at a concrete disk. A pattern matches the names that begin with a
-- dot behind the name of the log.
use go_chassis.Prelude.{
  ◌≡◌, refl, ◌⊎◌, arith, String, ◌==◌, [], ◌∷◌, none, some, true, not, pos, lookup, All, Any,
  insert,
}
use go_chassis.LogRotate.{
  Disk, whole, Machine, rollover, sort_strings, remove_exceeded_files, do_rollover,
  filter_file_list,
}
use go_chassis.LogRotate.Kept.{Kept, remove_exceeded_files-oldest, do_rollover-rolls}

abbrev machine : Machine
machine = record {
  matches = λ pat name. not (name == "a.log");
  base = λ path. path;
  dir = λ path. "logs";
  is_below = λ path name. true;
  walks = λ path. true;
  removes = λ path. true;
  copies = λ path. whole;
  truncates = λ path. true;
  archive = λ name bytes. bytes;
  packs = λ path. whole;
  time_stamp = λ path. "20180102030405000";
}

abbrev full : Disk
full = ("a.log", 1 ∷ 2 ∷ []) ∷ ("a.log.3", 3 ∷ []) ∷ ("a.log.1", 4 ∷ []) ∷ []

remove_exceeded_files-oldest_example :
    let left = remove_exceeded_files machine "logs" "a.log" (pos 1) rollover full in
    All (λ (o : String). lookup o left ≡ none) ("a.log.1" ∷ [])
    × Kept full left ("a.log.1" ∷ []) "a.log.3"
unfolding lookup filter_file_list sort_strings
remove_exceeded_files-oldest_example =
    remove_exceeded_files-oldest machine "logs" "a.log" 1 rollover full ("a.log.1" ∷ "a.log.3" ∷ [])
      "a.log.3" refl (λ f. refl) ((refl, tt), (tt, tt)) ((4 ∷ [], refl), ((3 ∷ [], refl), tt))

do_rollover-rolls_example :
    let left = do_rollover machine "a.log" (pos 0) (pos 3) full in
    ((lookup "a.log.20180102030405000" left ≡ some (1 ∷ 2 ∷ []))
      ⊎ Any (λ (o : String). o ≡ "a.log.20180102030405000") [])
    × ((lookup "a.log" left ≡ some []) ⊎ Any (λ (o : String). o ≡ "a.log") [])
unfolding lookup filter_file_list insert sort_strings
do_rollover-rolls_example =
    do_rollover-rolls machine "a.log" 0 3 full (1 ∷ 2 ∷ [])
      ("a.log.1" ∷ "a.log.20180102030405000" ∷ "a.log.3" ∷ []) refl (omega arith) refl refl refl
      refl
