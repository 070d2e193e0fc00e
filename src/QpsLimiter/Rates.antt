-- ===== src/QpsLimiter/Rates.antt =====
-- Which rate core/qpslimiter applies to a call.
use go_chassis.Prelude.{
  ◌≡◌, ◌≢◌, refl, sym, ◌∙◌, subst, inl, inr, ◌⊎◌, arith, String, List, [], ◌∷◌, Option, none, some,
  Bool, true, false, ℤ, pos, leb_ℤ, eqb_ℤ, eqb_ℤ→eq, ◌≤ℤ◌, lookup, insert_cases, remove_cases,
  lookup-insert_self, lookup-insert_ne, lookup-remove_ne, All, atoi, if◌then◌else◌, Bool-cases,
  Option-cases,
}
use go_chassis.QpsLimiter.{
  default_rate, QpsLimiterMap, OperationMeta, process_found, process_default_rate,
  process_qps_token_req, get_qps_rate, get_qps_rate_with_priority, Value, int_value, string_value,
  other_value, update_rate_limit, delete_rate_limiter,
}

-- Every limiter has a rate of at least 1.
abbrev pub Positive : QpsLimiterMap → Type 0
Positive q = (key : String) (r : ℤ) → lookup key q.key_map ≡ some r → pos 1 ≤ℤ r

-- The operations that serve calls and configuration events.
pub data Event : Type 0 where
  request : String → ℤ → Event
  update : String → Value → Event
  delete : String → Event

unfoldable pub handle : Event → QpsLimiterMap → QpsLimiterMap
unfolding process_qps_token_req update_rate_limit delete_rate_limiter
handle (request key r) q = process_qps_token_req key r q
handle (update key v) q = update_rate_limit key v q
handle (delete key) q = delete_rate_limiter key q

unfoldable pub handle_all : List Event → QpsLimiterMap → QpsLimiterMap
unfolding handle
handle_all [] q = q
handle_all (e ∷ es) q = handle_all es (handle e q)

process_default_rate-Positive :
    (key : String) (r : ℤ) (q : QpsLimiterMap)
    → Positive q
    → Positive (process_default_rate key r q)
unfolding process_default_rate
process_default_rate-Positive key r q p name s h =
    elim (insert_cases key name (if leb_ℤ (pos 1) r then r else default_rate) s q.key_map h) [
      | inl (e, same) ↦ subst (λ (x : ℤ). pos 1 ≤ℤ x) same (ground arith)
      | inr before ↦ p name s before
    ]

handle-Positive : (e : Event) (q : QpsLimiterMap) → Positive q → Positive (handle e q)
unfolding handle process_qps_token_req update_rate_limit delete_rate_limiter
handle-Positive (request key r) q p =
    elim (lookup key q.key_map) as (λ (o : Option ℤ). Positive (process_found o key r q)) [
      | none ↦ process_default_rate-Positive key r q p
      | some limiter ↦ p
    ]
handle-Positive (update key (int_value v)) q p = process_default_rate-Positive key v q p
handle-Positive (update key (string_value text)) q p =
    elim (atoi text).1
      as (λ (ok : Bool). Positive (if ok then process_default_rate key (atoi text).0 q else q)) [
        | true ↦ process_default_rate-Positive key (atoi text).0 q p
        | false ↦ p
      ]
handle-Positive (update key other_value) q p = p
handle-Positive (delete key) q p = λ name s h. p name s (remove_cases key name s q.key_map h)

-- Whatever requests and configuration events are handled, with whatever rates, each limiter in the
-- map has a rate of at least 1.
pub handle_all-Positive :
    (es : List Event) (q : QpsLimiterMap) → Positive q → Positive (handle_all es q)
unfolding handle_all
handle_all-Positive [] q p = p
handle_all-Positive (e ∷ es) q p = handle_all-Positive es (handle e q) (handle-Positive e q p)

-- A request, or an event of another key.
abbrev pub Leaves : String → Event → Type 0
Leaves key (request k r) = Unit
Leaves key (update k v) = k ≢ key
Leaves key (delete k) = k ≢ key

process_default_rate-other :
    (key k : String) (v : ℤ) (q : QpsLimiterMap)
    → k ≢ key
    → lookup key (process_default_rate k v q).key_map ≡ lookup key q.key_map
unfolding process_default_rate
process_default_rate-other key k v q h =
    lookup-insert_ne k key (if leb_ℤ (pos 1) v then v else default_rate) q.key_map h

handle-Leaves :
    (e : Event) (key : String) (r : ℤ) (q : QpsLimiterMap)
    → Leaves key e
    → lookup key q.key_map ≡ some r
    → lookup key (handle e q).key_map ≡ some r
unfolding handle process_qps_token_req update_rate_limit delete_rate_limiter
handle-Leaves (request k v) key r q l h = elim (Option-cases (lookup k q.key_map)) [
  | inl new ↦
      let other : k ≢ key = λ same.
        (let t : none ≡ some r =
            sym new ∙ subst (λ (x : String). lookup x q.key_map ≡ some r) (sym same) h in
          cc) in
      rw new (process_default_rate-other key k v q other ∙ h)
  | inr (limiter, e) ↦ rw e h
]
handle-Leaves (update k (int_value v)) key r q l h = process_default_rate-other key k v q l ∙ h
handle-Leaves (update k (string_value text)) key r q l h =
    elim (atoi text).1
      as (λ (ok : Bool).
        lookup key (if ok then process_default_rate k (atoi text).0 q else q).key_map ≡ some r) [
          | true ↦ process_default_rate-other key k (atoi text).0 q l ∙ h
          | false ↦ h
        ]
handle-Leaves (update k other_value) key r q l h = h
handle-Leaves (delete k) key r q l h = lookup-remove_ne k key q.key_map l ∙ h

handle_all-Leaves :
    (es : List Event) (key : String) (r : ℤ) (q : QpsLimiterMap)
    → All (Leaves key) es
    → lookup key q.key_map ≡ some r
    → lookup key (handle_all es q).key_map ≡ some r
unfolding handle_all
handle_all-Leaves [] key r q l h = h
handle_all-Leaves (e ∷ es) key r q l h =
    handle_all-Leaves es key r (handle e q) l.1 (handle-Leaves e key r q l.0 h)

set_rate :
    (key : String) (v : ℤ) (q : QpsLimiterMap)
    → pos 1 ≤ℤ v
    → lookup key (update_rate_limit key (int_value v) q).key_map ≡ some v
unfolding update_rate_limit process_default_rate
set_rate key v q h =
    let t : leb_ℤ (pos 1) v ≡ true = ground arith in rw t (lookup-insert_self key v q.key_map)

-- A rate of at least 1 that an event sets for a key is the one that a later request of the key
-- takes its token from, whatever rate the request names, as long as no other event of the key
-- comes between.
pub update-applies :
    (key : String) (v asked : ℤ) (es : List Event) (q : QpsLimiterMap)
    → pos 1 ≤ℤ v
    → All (Leaves key) es
    → (process_qps_token_req key asked
        (handle_all es (update_rate_limit key (int_value v) q))).taken
      ≡ v ∷ (handle_all es (update_rate_limit key (int_value v) q)).taken
unfolding process_qps_token_req
update-applies key v asked es q h l =
    let kept =
      handle_all-Leaves es key v (update_rate_limit key (int_value v) q) l (set_rate key v q h) in
    rw kept refl

-- The rate that applies is that of the most specific of the three keys that is configured: with a
-- rate other than the default, of the key that it is counted under, and no more specific key has
-- one.
pub get_qps_rate_with_priority-specific :
    (config : String → ℤ) (op : OperationMeta)
    → let (rate, key) = get_qps_rate_with_priority config op in
      (config key ≡ rate)
      × ((key ≡ op.operation_qualified_name)
          ⊎ ((config op.operation_qualified_name ≡ default_rate)
              × ((key ≡ op.schema_qualified_name)
                  ⊎ ((config op.schema_qualified_name ≡ default_rate)
                      × (key ≡ op.micro_service_name)))))
unfolding get_qps_rate_with_priority get_qps_rate
get_qps_rate_with_priority-specific config op =
    elim (Bool-cases (eqb_ℤ (config op.operation_qualified_name) default_rate)) [
      | inr a ↦ rw a (refl, inl refl)
      | inl a ↦
          let da = eqb_ℤ→eq (config op.operation_qualified_name) default_rate a in
          elim (Bool-cases (eqb_ℤ (config op.schema_qualified_name) default_rate)) [
            | inr b ↦ rw a (rw b (refl, inr (da, inl refl)))
            | inl b ↦
                let db = eqb_ℤ→eq (config op.schema_qualified_name) default_rate b in
                elim (Bool-cases (eqb_ℤ (config op.micro_service_name) default_rate)) [
                  | inr c ↦ rw a (rw b (rw c (refl, inr (da, inr (db, refl)))))
                  | inl c ↦ rw a (
                      rw b (
                        rw c (
                          eqb_ℤ→eq (config op.micro_service_name) default_rate c,
                          inr (da, inr (db, refl)),
                        )))
                ]
          ]
    ]
