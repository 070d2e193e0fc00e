-- ===== src/Heartbeat/Recovery.antt =====
-- What is left after a heartbeat of core/registry/heartbeat.go that fails.
use go_chassis.Prelude.{
  ℕ, ◌≡◌, refl, sym, ◌∙◌, ap, subst, inl, inr, String, List, [], ◌∷◌, ◌++◌, Option, none, some,
  Bool, true, false, ◌==◌, eq_iff, eq_refl, All, Dict, lookup, value_or, lookup-insert,
  lookup-insert_self, Bool-cases, Option-cases, if◌then◌else◌,
}
use go_chassis.Refresh.{is_known}
use go_chassis.Chain.{in_slice}
use go_chassis.ServiceCenter.{to_sc_instance}
use go_chassis.Caches.{insert-known}
use go_chassis.Heartbeat.{
  HeartbeatTask, Registry, task_key, add_task, update_found, refresh_task, toggle_task, remove_task,
  remember, register_service_instance, Round, own_instance, re_register_self_msi, attempt,
  retry_register, ended, do_heart_beat,
}

-- The identifiers of the own instances of a service.
abbrev pub own : String → Registry → List String
own sid reg = value_or (lookup sid reg.self_instances) []

in_slice-last : (x : String) (l : List String) → in_slice x (l ++ x ∷ []) ≡ true
unfolding in_slice
in_slice-last x [] = rw (eq_refl x) refl
in_slice-last x (y ∷ l) =
    rw (in_slice-last x l) (elim (y == x) as (λ (b : Bool). (if b then true else true) ≡ true) [
      | true ↦ refl
      | false ↦ refl
    ])

in_slice-append :
    (x y : String) (l : List String) → in_slice x l ≡ true → in_slice x (l ++ y ∷ []) ≡ true
unfolding in_slice
in_slice-append x y [] = λ h. absurd (let e = h in cc)
in_slice-append x y (z ∷ l) =
    elim (z == x)
      as (λ (b : Bool).
        (if b then true else in_slice x l) ≡ true
        → (if b then true else in_slice x (l ++ y ∷ [])) ≡ true) [
          | true ↦ λ h. refl
          | false ↦ λ h. in_slice-append x y l h
        ]

-- `remember` adds an identifier and loses none.
remember-has :
    (sid iid : String) (c : Dict (List String))
    → in_slice iid (value_or (lookup sid (remember sid iid c)) []) ≡ true
unfolding remember
remember-has sid iid c =
    rw
      (lookup-insert_self sid
        (if in_slice iid (value_or (lookup sid c) [])
          then value_or (lookup sid c) []
          else value_or (lookup sid c) [] ++ iid ∷ [])
        c)
      (elim (Bool-cases (in_slice iid (value_or (lookup sid c) []))) [
        | inl e ↦ rw e e
        | inr ne ↦ rw ne (in_slice-last iid (value_or (lookup sid c) []))
      ])

remember-keeps :
    (s sid x iid : String) (c : Dict (List String))
    → in_slice x (value_or (lookup s c) []) ≡ true
    → in_slice x (value_or (lookup s (remember sid iid c)) []) ≡ true
unfolding remember
remember-keeps s sid x iid c h =
    let ids = value_or (lookup sid c) [] in
    let next = if in_slice iid ids then ids else ids ++ iid ∷ [] in
    elim (Bool-cases (sid == s)) [
      | inl same ↦
          let e =
            lookup-insert sid s next c
            ∙ ap (λ (b : Bool). if b then some next else lookup s c) same in
          let h' : in_slice x ids ≡ true =
            subst (λ (z : String). in_slice x (value_or (lookup z c) []) ≡ true)
              (sym ((eq_iff sid s).0 same)) h in
          rw e
            (elim (in_slice iid ids)
              as (λ (b : Bool). in_slice x (if b then ids else ids ++ iid ∷ []) ≡ true) [
                | true ↦ h'
                | false ↦ in_slice-append x iid ids h'
              ])
      | inr other ↦
          let e =
            lookup-insert sid s next c
            ∙ ap (λ (b : Bool). if b then some next else lookup s c) other in
          rw e h
    ]

-- A task that is there stays there, and one that was added is there.
update-known :
    (k key : String) (f : HeartbeatTask → HeartbeatTask) (o : Option HeartbeatTask)
    (tasks : Dict HeartbeatTask)
    → is_known (lookup k tasks) ≡ true
    → is_known (lookup k (update_found o key f tasks)) ≡ true
update-known k key f none tasks h = h
update-known k key f (some task) tasks h = insert-known k key (f task) tasks h

add_task-known :
    (now : ℕ) (sid iid : String) (tasks : Dict HeartbeatTask)
    → is_known (lookup (task_key sid iid) (add_task now sid iid tasks)) ≡ true
unfolding add_task
add_task-known now sid iid tasks = elim (Option-cases (lookup (task_key sid iid) tasks)) [
  | inl e ↦ rw e (
      rw
        (lookup-insert_self (task_key sid iid)
          (record { service_id = sid; instance_id = iid; time = now; running = false }) tasks)
        refl)
  | inr (task, e) ↦ rw e (rw e refl)
]

-- No heartbeat runs for a task that was toggled to that end.
stopped :
    (sid iid : String) (t : HeartbeatTask) (tasks : Dict HeartbeatTask)
    → lookup (task_key sid iid) (toggle_task sid iid false tasks) ≡ some t
    → t.running ≡ false
unfolding toggle_task
stopped sid iid t tasks h = by_cases (lookup (task_key sid iid) tasks) refl h
  where
    by_cases :
        (o : Option HeartbeatTask)
        → lookup (task_key sid iid) tasks ≡ o
        → lookup
            (task_key sid iid)
            (update_found o (task_key sid iid) (λ task. record task { running = false }) tasks)
          ≡ some t
        → t.running ≡ false
    by_cases none e h = absurd (let q : none ≡ some t = sym e ∙ h in cc)
    by_cases (some task) e h =
        let off : HeartbeatTask = record task { running = false } in
        let q : some off ≡ some t = sym (lookup-insert_self (task_key sid iid) off tasks) ∙ h in
        let c : off ≡ t = cc in ap (λ (x : HeartbeatTask). x.running) (sym c)

-- Rounds that fail are passed over.
retry_register-skips :
    (rounds : List Round) (r : Round) (more : List Round) (sid iid : String) (reg : Registry)
    → All (λ (q : Round). (reg' : Registry) → (attempt q sid iid reg').0 ≡ false) rounds
    → ((reg' : Registry) → (attempt r sid iid reg').0 ≡ true)
    → (reg' : Registry) × (retry_register (rounds ++ r ∷ more) sid iid reg
        ≡ some (attempt r sid iid reg').1)
unfolding retry_register
retry_register-skips [] r more sid iid reg h k = (reg, rw (k reg) refl)
retry_register-skips (q ∷ rounds) r more sid iid reg h k =
    let (reg', e) = retry_register-skips rounds r more sid iid (attempt q sid iid reg).1 h.1 k in
    (reg', rw (h.0 reg) e)

-- A heartbeat that fails ends when, after any rounds that fail, the services can be listed, the
-- service is found and the service center takes the registration. Then there is a task for the
-- identifier that the registration gave, which is among those of the own instances of the
-- service, and no heartbeat runs for the identifier that failed, so the next one can start.
pub do_heart_beat-recovers :
    (rounds : List Round) (r : Round) (more : List Round) (now : ℕ) (sid iid iid' : String)
    (eps : Dict String) (reg : Registry)
    → All (λ (q : Round). (reg' : Registry) → (attempt q sid iid reg').0 ≡ false) rounds
    → r.listed ≡ true
    → r.found ≡ true
    → r.endpoint_map ≡ some eps
    → r.register
        (record (to_sc_instance
          (own_instance iid r.host_name (value_or r.instance_endpoints eps))) { service_id = sid })
      ≡ some iid'
    → (reg' : Registry) × (do_heart_beat false (rounds ++ r ∷ more) now sid iid reg ≡ some reg')
      × (is_known (lookup (task_key sid iid') reg'.tasks) ≡ true)
      × ((t : HeartbeatTask) → lookup (task_key sid iid) reg'.tasks ≡ some t → t.running ≡ false)
      × (in_slice iid' (own sid reg') ≡ true)
unfolding do_heart_beat attempt re_register_self_msi register_service_instance refresh_task
    toggle_task
do_heart_beat-recovers rounds r more now sid iid iid' eps reg fails listed found known taken =
    let success : (reg' : Registry) → attempt r sid iid reg' ≡ (true, after reg') =
      (λ reg'. rw (listed, found, known, taken) refl) in
    let (last, e) =
      retry_register-skips rounds r more sid iid (failed reg) fails
        (λ reg'. ap (λ (z : Bool × Registry). z.0) (success reg')) in
    let e' = e ∙ ap (λ (z : Bool × Registry). some z.1) (success last) in
    let tasks = (after last).tasks in
    let refreshed = refresh_task now sid iid tasks in
    (
      record (after last) { tasks = toggle_task sid iid false refreshed },
      ap (ended now sid iid) e',
      update-known (task_key sid iid') (task_key sid iid) _ (lookup (task_key sid iid) refreshed)
          refreshed
          (update-known (task_key sid iid') (task_key sid iid) _ (lookup (task_key sid iid) tasks)
            tasks (add_task-known r.now sid iid' last.tasks)),
      (λ t h. stopped sid iid t refreshed h),
      remember-keeps sid "" iid' iid' (remember sid iid' last.self_instances)
          (remember-has sid iid' last.self_instances),
    )
  where
    after : Registry → Registry
    after reg' = record {
      tasks = add_task r.now sid iid' reg'.tasks;
      self_instances = remember "" iid' (remember sid iid' reg'.self_instances);
    }

    failed : Registry → Registry
    failed reg = record reg { tasks = remove_task sid iid (toggle_task sid iid true reg.tasks) }
