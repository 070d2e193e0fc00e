-- ===== src/ServiceCenter/SchemaIndex/Listed.antt =====
-- What MakeSchemaIndex of core/registry/servicecenter/cache.go makes of the indexes.
use go_chassis.Prelude.{
  String, List, [], ◌∷◌, ◌++◌, none, some, true, false, ◌==◌, ◌≡◌, ◌≢◌, refl, sym, ap, ◌∙◌, inl,
  inr, subst, arith, eq_iff, Dict, lookup, insert, lookup-insert_self, insert_cases, Any,
  Bool-cases, Option-cases, lookup-insert_ne,
}
use go_chassis.ServiceCenter.Contracts.{Service}
use go_chassis.ServiceCenter.SchemaIndex.{check_if_micro_service_exist_in_list, list_under}

-- The service with an identifier is in a list.
abbrev pub Lists : String → List Service → Type 0
Lists id l = Any (λ (s : Service). s.service_id ≡ id) l

-- No service is in a list twice.
pub Distinct : List Service → Type 0
Distinct [] = Unit
Distinct (s ∷ l) = (check_if_micro_service_exist_in_list l s.service_id ≡ false) × Distinct l

check_Lists :
    (l : List Service) (id : String) → check_if_micro_service_exist_in_list l id ≡ true → Lists id l
unfolding check_if_micro_service_exist_in_list
check_Lists [] id e = absurd (let f : false ≡ true = e in cc)
check_Lists (s ∷ l) id e = elim (Bool-cases (s.service_id == id)) [
  | inl q ↦ inl ((eq_iff s.service_id id).0 q)
  | inr q ↦ inr (
      check_Lists l id (
        let f : check_if_micro_service_exist_in_list (s ∷ l) id
            ≡ check_if_micro_service_exist_in_list l id =
          rw q refl in
        sym f ∙ e))
]

check-append :
    (l : List Service) (ms : Service) (id : String)
    → check_if_micro_service_exist_in_list l id ≡ false
    → (ms.service_id == id) ≡ false
    → check_if_micro_service_exist_in_list (l ++ (ms ∷ [])) id ≡ false
unfolding check_if_micro_service_exist_in_list
check-append [] ms id e ne = rw ne refl
check-append (s ∷ l) ms id e ne = elim (Bool-cases (s.service_id == id)) [
  | inl q ↦ absurd (
      let f : check_if_micro_service_exist_in_list (s ∷ l) id ≡ true = rw q refl in
      let g : true ≡ false = sym f ∙ e in cc)
  | inr q ↦
      let f : check_if_micro_service_exist_in_list (s ∷ l) id
          ≡ check_if_micro_service_exist_in_list l id =
        rw q refl in
      rw q (check-append l ms id (sym f ∙ e) ne)
]

append-Distinct :
    (l : List Service) (ms : Service)
    → check_if_micro_service_exist_in_list l ms.service_id ≡ false
    → Distinct l
    → Distinct (l ++ (ms ∷ []))
unfolding Distinct check_if_micro_service_exist_in_list
append-Distinct [] ms e d = (refl, tt)
append-Distinct (s ∷ l) ms e (n, d) = elim (Bool-cases (s.service_id == ms.service_id)) [
  | inl q ↦ absurd (
      let f : check_if_micro_service_exist_in_list (s ∷ l) ms.service_id ≡ true = rw q refl in
      let g : true ≡ false = sym f ∙ e in cc)
  | inr q ↦
      let f : check_if_micro_service_exist_in_list (s ∷ l) ms.service_id
          ≡ check_if_micro_service_exist_in_list l ms.service_id =
        rw q refl in
      let q' : (ms.service_id == s.service_id) ≡ false =
        ground (arith, q, eq_iff s.service_id ms.service_id, eq_iff ms.service_id s.service_id) in
      (check-append l ms s.service_id n q', append-Distinct l ms (sym f ∙ e) d)
]

Lists-last : (l : List Service) (ms : Service) → Lists ms.service_id (l ++ (ms ∷ []))
Lists-last [] ms = inl refl
Lists-last (s ∷ l) ms = inr (Lists-last l ms)

Lists-append : (id : String) (l k : List Service) → Lists id l → Lists id (l ++ k)
Lists-append id [] k h = absurd h
Lists-append id (s ∷ l) k (inl e) = inl e
Lists-append id (s ∷ l) k (inr h) = inr (Lists-append id l k h)

-- No list of an index has a service twice.
abbrev pub AllDistinct : Dict (List Service) → Type 0
AllDistinct m = (key : String) (l : List Service) → lookup key m ≡ some l → Distinct l

-- A service is in the list of a key.
abbrev pub Has : String → String → Dict (List Service) → Type 0
Has key id m = (l : List Service) × (lookup key m ≡ some l) × Lists id l

insert-AllDistinct :
    (key : String) (l : List Service) (m : Dict (List Service))
    → Distinct l
    → AllDistinct m
    → AllDistinct (insert key l m)
insert-AllDistinct key l m d a name k e = elim (insert_cases key name l k m e) [
  | inl (_, same) ↦ subst Distinct same d
  | inr before ↦ a name k before
]

insert-Has :
    (key : String) (l : List Service) (name id : String) (m : Dict (List Service))
    → (key ≡ name → Lists id l)
    → Has name id m
    → Has name id (insert key l m)
insert-Has key l name id m here (k, e, h) = elim (Bool-cases (key == name)) [
  | inl q ↦
      let same : key ≡ name = (eq_iff key name).0 q in
      (
        l,
        ap (λ (n : String). lookup n (insert key l m)) (sym same) ∙ lookup-insert_self key l m,
        here same,
      )
  | inr q ↦
      let other : key ≢ name = λ e. (let t = (eq_iff key name).1 e in cc) in
      (k, lookup-insert_ne key name l m other ∙ e, h)
]

-- What an index has after a service was put under a key.
pub list_under-AllDistinct :
    (key : String) (ms : Service) (m : Dict (List Service))
    → AllDistinct m
    → AllDistinct (list_under key ms m)
unfolding list_under Distinct check_if_micro_service_exist_in_list
list_under-AllDistinct key ms m a = elim (Option-cases (lookup key m)) [
  | inl n ↦ rw n (insert-AllDistinct key (ms ∷ []) m (refl, tt) a)
  | inr (val, e) ↦ elim (Bool-cases (check_if_micro_service_exist_in_list val ms.service_id)) [
    | inl c ↦ rw (e, c) a
    | inr c ↦
        rw (e, c)
          (insert-AllDistinct key (val ++ (ms ∷ [])) m (append-Distinct val ms c (a key val e)) a)
  ]
]

pub list_under-Has :
    (key : String) (ms : Service) (name id : String) (m : Dict (List Service))
    → Has name id m
    → Has name id (list_under key ms m)
unfolding list_under
list_under-Has key ms name id m (l, e, h) = elim (Option-cases (lookup key m)) [
  | inl n ↦ rw n (
      insert-Has key (ms ∷ []) name id m
        (λ same.
          absurd (let f : none ≡ some l = sym n ∙ ap (λ (k : String). lookup k m) same ∙ e in cc))
        (l, e, h))
  | inr (val, v) ↦ elim (Bool-cases (check_if_micro_service_exist_in_list val ms.service_id)) [
    | inl c ↦ rw (v, c) (l, e, h)
    | inr c ↦
        rw (v, c)
          (insert-Has key (val ++ (ms ∷ [])) name id m
            (λ same.
              let f : some val ≡ some l = sym v ∙ ap (λ (k : String). lookup k m) same ∙ e in
              let same_list : l ≡ val = cc in
              Lists-append id val (ms ∷ []) (subst (Lists id) same_list h))
            (l, e, h))
  ]
]

pub list_under-lists :
    (key : String) (ms : Service) (m : Dict (List Service))
    → Has key ms.service_id (list_under key ms m)
unfolding list_under
list_under-lists key ms m = elim (Option-cases (lookup key m)) [
  | inl n ↦ rw n (ms ∷ [], lookup-insert_self key (ms ∷ []) m, inl refl)
  | inr (val, v) ↦ elim (Bool-cases (check_if_micro_service_exist_in_list val ms.service_id)) [
    | inl c ↦ rw (v, c) (val, v, check_Lists val ms.service_id c)
    | inr c ↦
        rw (v, c) (val ++ (ms ∷ []), lookup-insert_self key (val ++ (ms ∷ [])) m, Lists-last val ms)
  ]
]
