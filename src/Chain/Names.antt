-- ===== src/Chain/Names.antt =====
-- The names of handlers in a configuration, `parseHandlers` of core/handler/handler_chain.go.
use Prim.Native.Char.{code}
use text.Mathlib.TextLemmas.{nil-append, cons-append}
use go_chassis.Prelude.{
  ◌≡◌, ◌≢◌, refl, ap, arith, String, ◌<>◌, List, [], ◌∷◌, false, not, ◌==◌, eq_iff, eqb, is_space,
  keep, All, join, split_parts, split_on, without_char, trim_left, trim_right, trim_space,
}
use go_chassis.Chain.{parse_handlers}

-- No character is white space.
abbrev NoSpace : String → Type 0
NoSpace String.[] = Unit
NoSpace (String.◌∷◌ ch rest) = (is_space (code ch) ≡ false) × NoSpace rest

-- No character is white space or a comma.
abbrev pub Plain : String → Type 0
Plain String.[] = Unit
Plain (String.◌∷◌ ch rest) =
    (is_space (code ch) ≡ false) × (eqb (code ch) b',' ≡ false) × Plain rest

trim_left-NoSpace : (s : String) → NoSpace s → trim_left s ≡ s
unfolding trim_left
trim_left-NoSpace String.[] h = refl
trim_left-NoSpace (String.◌∷◌ ch rest) h = rw h.0 refl

trim_right-NoSpace : (s : String) → NoSpace s → trim_right s ≡ s
unfolding trim_right
trim_right-NoSpace String.[] h = refl
trim_right-NoSpace (String.◌∷◌ ch String.[]) h = rw h.0 refl
trim_right-NoSpace (String.◌∷◌ ch (String.◌∷◌ c rest)) h =
    rw (trim_right-NoSpace (String.◌∷◌ c rest) h.1) refl

without_char-NoSpace : (s : String) → NoSpace s → without_char b' ' s ≡ s
unfolding without_char
without_char-NoSpace String.[] h = refl
without_char-NoSpace (String.◌∷◌ ch rest) h =
    let e : eqb (code ch) b' ' ≡ false = (let g = h.0 in ground arith) in
    rw e (ap (String.◌∷◌ ch) (without_char-NoSpace rest h.1))

split_parts-Plain : (s : String) → Plain s → split_parts b',' s ≡ (s, [])
unfolding split_parts
split_parts-Plain String.[] h = refl
split_parts-Plain (String.◌∷◌ ch rest) h = rw (split_parts-Plain rest h.2) (rw h.1 refl)

split_parts-comma :
    (s t : String) → Plain s → split_parts b',' (s <> "," <> t) ≡ (s, split_on b',' t)
unfolding split_parts split_on
split_parts-comma String.[] t h = rw (nil-append, cons-append, nil-append) refl
split_parts-comma (String.◌∷◌ ch rest) t h =
    rw (cons-append ch rest ("," <> t)) (rw (split_parts-comma rest t h.2) (rw h.1 refl))

split_on-join :
    (name : String) (names : List String)
    → Plain name
    → All Plain names
    → split_on b',' (join "," (name ∷ names)) ≡ name ∷ names
unfolding split_on join
split_on-join name [] h hs = rw (split_parts-Plain name h) refl
split_on-join name (n ∷ ns) h hs =
    rw (split_parts-comma name (join "," (n ∷ ns)) h)
      (ap (λ (l : List String). name ∷ l) (split_on-join n ns hs.0 hs.1))

NoSpace-comma : (s t : String) → Plain s → NoSpace t → NoSpace (s <> "," <> t)
NoSpace-comma String.[] t h k = rw (nil-append, cons-append, nil-append) (refl, k)
NoSpace-comma (String.◌∷◌ ch rest) t h k =
    rw (cons-append ch rest ("," <> t)) (h.0, NoSpace-comma rest t h.2 k)

Plain-NoSpace : (s : String) → Plain s → NoSpace s
Plain-NoSpace String.[] h = tt
Plain-NoSpace (String.◌∷◌ ch rest) h = (h.0, Plain-NoSpace rest h.2)

NoSpace-join :
    (name : String) (names : List String)
    → Plain name
    → All Plain names
    → NoSpace (join "," (name ∷ names))
unfolding join
NoSpace-join name [] h hs = Plain-NoSpace name h
NoSpace-join name (n ∷ ns) h hs =
    NoSpace-comma name (join "," (n ∷ ns)) h (NoSpace-join n ns hs.0 hs.1)

keep-named :
    (names : List String)
    → All (λ (n : String). n ≢ "") names
    → keep (λ v. not (v == "")) names ≡ names
unfolding keep
keep-named [] h = refl
keep-named (n ∷ ns) h =
    let e : (n == "") ≡ false = (let g = h.0 in ground (arith, eq_iff n "")) in
    rw e (ap (λ (l : List String). n ∷ l) (keep-named ns h.1))

-- Names that are not empty and have no white space and no comma, joined by commas, are read back
-- as they were, in their order.
pub parse_handlers-join :
    (name : String) (names : List String)
    → All Plain (name ∷ names)
    → All (λ (n : String). n ≢ "") (name ∷ names)
    → parse_handlers (join "," (name ∷ names)) ≡ name ∷ names
unfolding parse_handlers trim_space
parse_handlers-join name names h k =
    let text = join "," (name ∷ names) in
    let clean = NoSpace-join name names h.0 h.1 in
    rw (trim_left-NoSpace text clean) (
      rw (trim_right-NoSpace text clean) (
        rw (without_char-NoSpace text clean)
          (rw (split_on-join name names h.0 h.1) (keep-named (name ∷ names) k))))
