-- ===== src/Prelude/Dicts.antt =====
-- A Go map with string keys, as a list of its entries. The order of the list is the order in
-- which `range` visits the entries, which the language leaves open.
use Prim.Native.String.{String}
use mathlib.Core.Path.{◌≡◌, sym, ap, ◌∙◌}
use mathlib.Core.Logic.{◌≢◌, ◌⊎◌, inl, inr}
use mathlib.Core.Bool.{Bool, false}
use mathlib.Core.List.{List, [], ◌∷◌}
use mathlib.Core.Option.{Option, none, some}
use native.Mathlib.Omega.{arith}
use text.Mathlib.Text.{◌==◌}
use text.Mathlib.TextEquality.{eq_iff}
use text.Mathlib.TextPositions.{eq_refl}
use go_chassis.Prelude.Tests.{if◌then◌else◌, Bool-cases}

abbrev pub Dict {ℓ} : Type ℓ → Type ℓ
Dict V = List (String × V)

-- `v, ok := m[key]`
unfoldable pub lookup {ℓ} : {V : Type ℓ} → String → Dict V → Option V
lookup key [] = none
lookup key (entry ∷ rest) = if key == entry.0 then some entry.1 else lookup key rest

-- `m[key] = value`
unfoldable pub insert {ℓ} : {V : Type ℓ} → String → V → Dict V → Dict V
insert key value [] = (key, value) ∷ []
insert key value (entry ∷ rest) =
    let later = insert key value rest in
    if key == entry.0 then (entry.0, value) ∷ rest else entry ∷ later

-- `delete(m, key)`
unfoldable pub remove {ℓ} : {V : Type ℓ} → String → Dict V → Dict V
remove key [] = []
remove key (entry ∷ rest) =
    let later = remove key rest in if key == entry.0 then later else entry ∷ later

-- `m[key]`, which is the zero value `d` where the key is missing.
abbrev pub value_or {ℓ} : {V : Type ℓ} → Option V → V → V
value_or none d = d
value_or (some v) d = v

-- What a write and a removal leave under a name.
pub lookup-insert {ℓ} :
    {V : Type ℓ} (key name : String) (value : V) (m : Dict V)
    → lookup name (insert key value m) ≡ (if key == name then some value else lookup name m)
unfolding lookup insert
lookup-insert key name value [] = ground (arith, eq_iff name key, eq_iff key name)
lookup-insert key name value (entry ∷ rest) =
    let ih = lookup-insert key name value rest in
    ground (arith, ih, eq_iff key entry.0, eq_iff name entry.0, eq_iff key name)

pub lookup-remove {ℓ} :
    {V : Type ℓ} (key name : String) (m : Dict V)
    → lookup name (remove key m) ≡ (if key == name then none else lookup name m)
unfolding lookup remove
lookup-remove key name [] = ground arith
lookup-remove key name (entry ∷ rest) =
    let ih = lookup-remove key name rest in
    ground (arith, ih, eq_iff key entry.0, eq_iff name entry.0, eq_iff key name)

-- A write is read back.
pub lookup-insert_self {ℓ} :
    {V : Type ℓ} (key : String) (value : V) (m : Dict V)
    → lookup key (insert key value m) ≡ some value
lookup-insert_self key value m = simp (lookup-insert, eq_refl)

-- What is read after a write was written or there before; after a removal it was there before.
pub insert_cases {ℓ} :
    {V : Type ℓ} (key name : String) (value w : V) (m : Dict V)
    → lookup name (insert key value m) ≡ some w
    → ((key ≡ name) × (value ≡ w)) ⊎ (lookup name m ≡ some w)
insert_cases {V} key name value w m h = elim (Bool-cases (key == name)) [
  | inl e ↦
      let l = lookup-insert key name value m in
      inl (
        (eq_iff key name).0 e,
        (let r : some value ≡ some w =
              sym (ap (λ (b : Bool). if b then some value else lookup name m) e) ∙ sym l ∙ h in
            cc),
      )
  | inr ne ↦
      let l = lookup-insert key name value m in
      inr (sym (ap (λ (b : Bool). if b then some value else lookup name m) ne) ∙ sym l ∙ h)
]

pub remove_cases {ℓ} :
    {V : Type ℓ} (key name : String) (w : V) (m : Dict V)
    → lookup name (remove key m) ≡ some w
    → lookup name m ≡ some w
remove_cases {V} key name w m h = elim (Bool-cases (key == name)) [
  | inl e ↦
      let l = lookup-remove key name m in
      let r : none ≡ some w =
        sym (ap (λ (b : Bool). if b then none else lookup name m) e) ∙ sym l ∙ h in
      cc
  | inr ne ↦
      let l = lookup-remove key name m in
      sym (ap (λ (b : Bool). if b then none else lookup name m) ne) ∙ sym l ∙ h
]

-- Writes and removals under other keys.
pub lookup-insert_ne {ℓ} :
    {V : Type ℓ} (key name : String) (value : V) (m : Dict V)
    → key ≢ name
    → lookup name (insert key value m) ≡ lookup name m
lookup-insert_ne {V} key name value m h =
    let ne : (key == name) ≡ false = ground (arith, eq_iff key name) in
    lookup-insert key name value m ∙ ap (λ (b : Bool). if b then some value else lookup name m) ne

pub lookup-remove_ne {ℓ} :
    {V : Type ℓ} (key name : String) (m : Dict V)
    → key ≢ name
    → lookup name (remove key m) ≡ lookup name m
lookup-remove_ne {V} key name m h =
    let ne : (key == name) ≡ false = ground (arith, eq_iff key name) in
    lookup-remove key name m ∙ ap (λ (b : Bool). if b then none else lookup name m) ne

pub ruleset dict_laws = (lookup-insert, lookup-remove, eq_refl)
