-- ===== src/Prelude/Texts.antt =====
-- Texts, as Go's `strings` package treats them, and the names of a map in order.
use Prim.Native.Nat.{ℕ, Ordering}
use Prim.Native.Char.{Char, code}
use Prim.Native.String
use Prim.Native.String.{String, ◌++◌}
use mathlib.Core.Bool.{Bool, true, false, ◌&&◌, ◌||◌}
use mathlib.Core.List.{List, [], ◌∷◌}
use mathlib.Core.Option.{Option, none, some}
use go_chassis.Prelude.Tests.{leb, eqb, if◌then◌else◌}
use go_chassis.Prelude.Dicts.{Dict}

-- The names in their order.
abbrev pub before : String → String → Bool
before a b = elim (Prim.Native.String.compare a b) [ Ordering.gt ↦ false | _ ↦ true ]

unfoldable pub insert_name : String → List String → List String
insert_name k [] = k ∷ []
insert_name k (l ∷ ls) = let rest = insert_name k ls in if before k l then k ∷ l ∷ ls else l ∷ rest

unfoldable pub sorted_names {ℓ} : {V : Type ℓ} → Dict V → List String
unfolding insert_name
sorted_names [] = []
sorted_names (entry ∷ rest) = insert_name entry.0 (sorted_names rest)

-- `strings.Split(s, sep)` for a separator of one character: the part up to the first one, and the
-- further parts.
unfoldable pub split_parts : ℕ → String → String × List String
split_parts sep String.[] = ("", [])
split_parts sep (String.◌∷◌ ch rest) =
    let (part, parts) = split_parts sep rest in
    if eqb (code ch) sep then ("", part ∷ parts) else (String.◌∷◌ ch part, parts)

unfoldable pub split_on : ℕ → String → List String
unfolding split_parts
split_on sep s = let (part, parts) = split_parts sep s in part ∷ parts

-- What follows `p` in a text that begins with `p`.
unfoldable pub strip_prefix : String → String → Option String
strip_prefix String.[] s = some s
strip_prefix (String.◌∷◌ p ps) String.[] = none
strip_prefix (String.◌∷◌ p ps) (String.◌∷◌ ch rest) =
    let more = strip_prefix ps rest in if eqb (code p) (code ch) then more else none

-- What stands before and after the first occurrence of `sep`, which is not empty.
abbrev here_or : Option String → Char → Option (String × String) → Option (String × String)
here_or (some after) ch later = some ("", after)
here_or none ch none = none
here_or none ch (some (front, after)) = some (String.◌∷◌ ch front, after)

unfoldable pub cut : String → String → Option (String × String)
unfolding strip_prefix
cut sep String.[] = none
cut sep (String.◌∷◌ ch rest) = here_or (strip_prefix sep (String.◌∷◌ ch rest)) ch (cut sep rest)

-- `strings.Replace(s, old, new, 1)`
abbrev glue : Option (String × String) → String → String → String
glue none new s = s
glue (some (front, after)) new s = front ++ new ++ after

unfoldable pub replace_first : String → String → String → String
unfolding cut
replace_first s old new = glue (cut old s) new s

-- `strings.Replace(s, c, "", -1)` for a character.
unfoldable pub without_char : ℕ → String → String
without_char c String.[] = ""
without_char c (String.◌∷◌ ch rest) =
    let more = without_char c rest in if eqb (code ch) c then more else String.◌∷◌ ch more

-- White space, as `unicode.IsSpace` has it.
abbrev pub is_space : ℕ → Bool
is_space c =
    (leb 9 c && leb c 13)
    || eqb c 32
    || eqb c 133
    || eqb c 160
    || eqb c 5760
    || (leb 8192 c && leb c 8202)
    || eqb c 8232
    || eqb c 8233
    || eqb c 8239
    || eqb c 8287
    || eqb c 12288

-- `strings.TrimSpace`
unfoldable pub trim_left : String → String
trim_left String.[] = ""
trim_left (String.◌∷◌ ch rest) =
    let more = trim_left rest in if is_space (code ch) then more else String.◌∷◌ ch rest

abbrev keep_char : Char → String → String
keep_char ch String.[] = if is_space (code ch) then "" else String.◌∷◌ ch ""
keep_char ch (String.◌∷◌ c rest) = String.◌∷◌ ch (String.◌∷◌ c rest)

unfoldable pub trim_right : String → String
trim_right String.[] = ""
trim_right (String.◌∷◌ ch rest) = keep_char ch (trim_right rest)

unfoldable pub trim_space : String → String
unfolding trim_left trim_right
trim_space s = trim_right (trim_left s)

-- `strings.Join(parts, sep)`
unfoldable pub join : String → List String → String
join sep [] = ""
join sep (s ∷ []) = s
join sep (s ∷ s' ∷ ss) = s ++ sep ++ join sep (s' ∷ ss)
