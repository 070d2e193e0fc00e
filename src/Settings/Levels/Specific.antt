-- ===== src/Settings/Levels/Specific.antt =====
-- Which value of core/config/fault_injection_config.go applies.
use go_chassis.Prelude.{
  ◌≡◌, refl, ◌∙◌, ap, String, List, [], ◌∷◌, Option, none, Bool, true, false, not, ◌&&◌, ◌==◌, ℤ,
  pos, if◌then◌else◌,
}
use go_chassis.QpsLimiter.{Value}
use go_chassis.Settings.Levels.{
  get_fault_injection_operation_key, get_fault_injection_schema_key,
  get_fault_injection_service_key, get_fault_injection_global_key, get_fault_abort_percent_key,
  get_fault_abort_http_status_key, get_fault_delay_percent_key, get_fault_fixed_delay_key, by_level,
  at_level, is_zero, is_nil, delay_of, get_abort_percent, get_abort_status, get_delay_percent,
  get_fixed_delay,
}

-- The keys of the levels that a call names, the most specific one first.
abbrev pub when : Bool → String → List String → List String
when true key rest = key ∷ rest
when false key rest = rest

abbrev pub level_keys : String → String → String → List String
level_keys s c o =
    when (not (s == "") && not (c == "") && not (o == "")) (get_fault_injection_operation_key s c o)
      (when (not (s == "") && not (c == "")) (get_fault_injection_schema_key s c) (
        when (not (s == "")) (get_fault_injection_service_key s)
          (get_fault_injection_global_key ∷ [])))

-- The first value that is set, else the last one.
abbrev pub first_set : {A : Type 0} → (A → Bool) → A → (String → A) → List String → A
first_set is_unset d value [] = d
first_set is_unset d value (key ∷ rest) =
    if is_unset (value key) then first_set is_unset (value key) value rest else value key

module _ {A : Type 0} (is_unset : A → Bool) (unset : A) (value : String → A) where
  -- What follows a value of the levels before.
  abbrev go_on : A → List String → A
  go_on before keys = if is_unset before then first_set is_unset before value keys else before

  at_level-go_on :
      (named : Bool) (key : String) (before : A) (keys : List String)
      → go_on (at_level is_unset unset value named key before) keys
        ≡ go_on before (when named key keys)
  at_level-go_on true key before keys =
      elim (is_unset before)
          as (λ (b : Bool).
            is_unset before ≡ b
            → go_on (if b && true then value key else before) keys
              ≡ (if b then first_set is_unset before value (key ∷ keys) else before)) [
                | true ↦ λ e. refl
                | false ↦ λ e. rw e refl
              ]
        refl
  at_level-go_on false key before keys = ap (λ (x : A). go_on x keys) (unnamed (is_unset before))
    where
      unnamed : (b : Bool) → (if b && false then value key else before) ≡ before
      unnamed true = refl
      unnamed false = refl

  by_level-first :
      is_unset unset ≡ true
      → (s c o : String)
      → by_level is_unset unset value s c o ≡ first_set is_unset unset value (level_keys s c o)
  unfolding by_level
  by_level-first h s c o =
      let service = not (s == "") in
      let schemas = not (c == "") in
      let operations = not (o == "") in
      let a =
        if service && schemas && operations
        then value (get_fault_injection_operation_key s c o)
        else unset in
      let b =
        at_level is_unset unset value (service && schemas) (get_fault_injection_schema_key s c) a in
      let d = at_level is_unset unset value service (get_fault_injection_service_key s) b in
      let below_service = get_fault_injection_global_key ∷ [] in
      let below_schema = when service (get_fault_injection_service_key s) below_service in
      let below_operation =
        when (service && schemas) (get_fault_injection_schema_key s c) below_schema in
      global d
      ∙ at_level-go_on service (get_fault_injection_service_key s) b below_service
      ∙ at_level-go_on (service && schemas) (get_fault_injection_schema_key s c) a below_schema
      ∙ start (service && schemas && operations) below_operation
    where
      global :
          (d : A)
          → at_level is_unset unset value true get_fault_injection_global_key d
            ≡ go_on d (get_fault_injection_global_key ∷ [])
      global d =
          elim (is_unset d)
            as (λ (t : Bool). (if t && true then value get_fault_injection_global_key else d) ≡ (
              if t then first_set is_unset d value (get_fault_injection_global_key ∷ []) else d)) [
                | true ↦
                    elim (is_unset (value get_fault_injection_global_key))
                      as (λ (t : Bool). value get_fault_injection_global_key ≡ (
                        if t
                        then value get_fault_injection_global_key
                        else value get_fault_injection_global_key)) [ true ↦ refl | false ↦ refl ]
                | false ↦ refl
              ]

      start :
          (named : Bool) (keys : List String)
          → go_on (if named then value (get_fault_injection_operation_key s c o) else unset) keys
            ≡ first_set is_unset unset value
                (when named (get_fault_injection_operation_key s c o) keys)
      start true keys = refl
      start false keys = rw h refl

-- The percentages, the status and the delay of a fault are those of the most specific level that
-- the call names and that has one: of the operation, the schema, the service, or all services. A
-- percentage or a status of 0 counts as missing, so that the next level applies; a delay counts as
-- missing only when nothing is configured.
pub fault_settings-specific :
    (get_int : String → ℤ) (get : String → Option Value) (protocol s c o : String)
    → (get_abort_percent get_int protocol s c o
        ≡ first_set is_zero
            (pos 0)
            (λ key. get_int (get_fault_abort_percent_key protocol key))
            (level_keys s c o))
      × (get_abort_status get_int protocol s c o
          ≡ first_set is_zero
              (pos 0)
              (λ key. get_int (get_fault_abort_http_status_key protocol key))
              (level_keys s c o))
      × (get_delay_percent get_int protocol s c o
          ≡ first_set is_zero
              (pos 0)
              (λ key. get_int (get_fault_delay_percent_key protocol key))
              (level_keys s c o))
      × (get_fixed_delay get protocol s c o
          ≡ delay_of (
              first_set is_nil none
                (λ key. get (get_fault_fixed_delay_key protocol key))
                (level_keys s c o)))
unfolding get_abort_percent get_abort_status get_delay_percent get_fixed_delay
fault_settings-specific get_int get protocol s c o = (
  by_level-first is_zero (pos 0) (λ key. get_int (get_fault_abort_percent_key protocol key)) refl s
      c o,
  by_level-first is_zero (pos 0) (λ key. get_int (get_fault_abort_http_status_key protocol key))
      refl s c o,
  by_level-first is_zero (pos 0) (λ key. get_int (get_fault_delay_percent_key protocol key)) refl s
      c o,
  ap delay_of
      (by_level-first is_nil none (λ key. get (get_fault_fixed_delay_key protocol key)) refl s c o),
)
