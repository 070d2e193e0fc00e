-- ===== src/Retry/Attempts.antt =====
-- How often the handler of core/handler/loadbalance_handler.go calls, and what it answers.
use go_chassis.Prelude.{
  ℕ, zero, suc, ◌+◌, ◌*◌, ◌≤◌, ◌<◌, ◌≡◌, ◌⊎◌, inl, inr, refl, arith, String, Option, none, some,
  Bool, true, false, Bool-cases, eqb,
}
use go_chassis.Retry.{
  Response, Endpoint, endpoint, no_endpoint, Run, start, on_response, on_error, after_round,
  with_endpoint, attempt, retry_on_same, retry_on_next, handle_with_retry,
}

module _ (get_endpoint : ℕ → Endpoint) (answer : ℕ → String → Option Response) where
  attempt-calls :
      (ep : String) (run : Run) → (attempt get_endpoint answer ep run).1.calls ≡ run.calls + 1
  unfolding attempt
  attempt-calls ep run =
      elim (answer run.calls ep)
        as (λ (o : Option Response). (on_response o run).1.calls ≡ run.calls + 1) [
          | none ↦ refl
          | some r ↦ refl
        ]

  retry_on_same-le :
      (left : ℕ) (ep : String) (run : Run)
      → (retry_on_same get_endpoint answer left ep run).1.calls ≤ run.calls + left
  unfolding retry_on_same
  retry_on_same-le zero ep run = omega arith
  retry_on_same-le (suc left) ep run =
      let c = attempt-calls ep run in
      let ih = retry_on_same-le left ep (attempt get_endpoint answer ep run).1 in
      one (attempt get_endpoint answer ep run).0 (attempt get_endpoint answer ep run).1
        (retry_on_same get_endpoint answer left ep (attempt get_endpoint answer ep run).1)
        (omega (arith, c)) (omega (arith, c, ih))
    where
      one :
          (e : Option String) (r : Run) (rest : Bool × Run)
          → r.calls ≤ run.calls + suc left
          → rest.1.calls ≤ run.calls + suc left
          → (on_error e r rest).1.calls ≤ run.calls + suc left
      one none r rest a b = a
      one (some e) r rest a b = b

  retry_on_next-le :
      (left j same : ℕ) (run : Run)
      → (retry_on_next get_endpoint answer left j same run).1.calls ≤ run.calls + left * (same + 1)
  unfolding retry_on_next
  retry_on_next-le zero j same run = omega arith
  retry_on_next-le (suc left) j same run =
      elim (get_endpoint j)
        as (λ (o : Endpoint).
          (with_endpoint o
            (λ ep.
              after_round (retry_on_same get_endpoint answer (same + 1) ep run).0
                (retry_on_same get_endpoint answer (same + 1) ep run).1
                (retry_on_next get_endpoint answer left (suc j) same
                  (retry_on_same get_endpoint answer (same + 1) ep run).1))
            run).1.calls
          ≤ run.calls + suc left * (same + 1)) [
            | no_endpoint e ↦ omega arith
            | endpoint ep ↦
                let calls = retry_on_same-le (same + 1) ep run in
                let ih =
                  retry_on_next-le left (suc j) same
                    (retry_on_same get_endpoint answer (same + 1) ep run).1 in
                rounds (retry_on_same get_endpoint answer (same + 1) ep run).0
                  (retry_on_same get_endpoint answer (same + 1) ep run).1
                  (retry_on_next get_endpoint answer left (suc j) same
                    (retry_on_same get_endpoint answer (same + 1) ep run).1)
                  (omega (arith, calls)) (omega (arith, calls, ih))
          ]
    where
      rounds :
          (ok : Bool) (r : Run) (rest : Response × Run)
          → r.calls ≤ run.calls + suc left * (same + 1)
          → rest.1.calls ≤ run.calls + suc left * (same + 1)
          → (after_round ok r rest).1.calls ≤ run.calls + suc left * (same + 1)
      rounds true r rest a b = a
      rounds false r rest a b = b

  -- Whatever the servers answer, the rest of the chain is called at most
  -- (retryOnNext + 1) * (retryOnSame + 1) times.
  pub handle_with_retry-le :
      (same next : ℕ)
      → (handle_with_retry get_endpoint answer same next).1.calls ≤ (next + 1) * (same + 1)
  unfolding handle_with_retry
  handle_with_retry-le same next =
      let h = retry_on_next-le (suc next) 0 same start in
      let e : suc next * (same + 1) ≡ (next + 1) * (same + 1) = omega arith in omega (arith, h, e)

  -- The call of the number `m` answers with an error, wherever it goes.
  abbrev pub Fails : ℕ → Type 0
  Fails m =
      (ep : String)
      → (status : ℕ) × (e : String) × (answer m ep
          ≡ some (record { status = status; err = some e }))

  module _ (n : ℕ) (good : Response) (fine : good.err ≡ none)
      (at_n : (ep : String) → answer n ep ≡ some good) where
    abbrev done : Run
    done = record { calls = n + 1; inv_resp = some good }

    -- The calls before `n` fail; `n` is within the calls that are left, or behind them.
    retry_on_same-reaches :
        (left : ℕ) (ep : String) (run : Run)
        → run.calls ≤ n
        → ((m : ℕ) → run.calls ≤ m → m < n → Fails m)
        → ((n < run.calls + left) × (retry_on_same get_endpoint answer left ep run ≡ (true, done)))
          ⊎ ((run.calls + left ≤ n)
              × ((run' : Run) × (retry_on_same get_endpoint answer left ep run ≡ (false, run'))
                  × (run'.calls ≡ run.calls + left)))
    unfolding retry_on_same attempt
    retry_on_same-reaches zero ep run le fails = inr (omega arith, (run, refl, omega arith))
    retry_on_same-reaches (suc left) ep run le fails = elim (Bool-cases (eqb run.calls n)) [
      | inl e ↦
          let here : run.calls ≡ n = ground arith in
          inl (omega arith, rw here (rw (at_n ep) (rw fine refl)))
      | inr ne ↦
          let (status, e, a) = fails run.calls (omega arith) (ground arith) ep in
          elim (retry_on_same-reaches left ep
            (record {
              calls = run.calls + 1;
              inv_resp = some (record { status = status; err = some e });
            })
            (ground arith) (λ m x y. fails m (omega arith) y)) [
              | inl (x, y) ↦ inl (omega arith, rw a y)
              | inr (x, (run', y, z)) ↦ inr (omega arith, (run', rw a y, omega (arith, z)))
            ]
    ]

    retry_on_next-reaches :
        (left j same : ℕ) (run : Run)
        → run.calls ≤ n
        → n < run.calls + left * (same + 1)
        → ((m : ℕ) → run.calls ≤ m → m < n → Fails m)
        → ((i : ℕ) → (ep : String) × (get_endpoint i ≡ endpoint ep))
        → retry_on_next get_endpoint answer left j same run ≡ (good, done)
    unfolding retry_on_next
    retry_on_next-reaches zero j same run le lt fails eps = absurd (omega arith)
    retry_on_next-reaches (suc left) j same run le lt fails eps =
        let (ep, e) = eps j in
        elim (retry_on_same-reaches (same + 1) ep run le fails) [
          | inl (x, y) ↦ rw e (rw y refl)
          | inr (x, (run', y, z)) ↦ rw e (
              rw y (
                retry_on_next-reaches left (suc j) same run' (omega (arith, z)) (omega (arith, z))
                  (λ m u v. fails m (omega (arith, z)) v) eps))
        ]

    -- When every round has an endpoint, the calls before the number `n` fail, and `n` is within the
    -- allowed number of calls, then the response without an error to the call `n` is the one that
    -- is handed on, and no call follows it.
    pub handle_with_retry-reaches :
        (same next : ℕ)
        → n < (next + 1) * (same + 1)
        → ((m : ℕ) → m < n → Fails m)
        → ((i : ℕ) → (ep : String) × (get_endpoint i ≡ endpoint ep))
        → handle_with_retry get_endpoint answer same next
          ≡ (good, record { calls = n + 1; inv_resp = some good })
    unfolding handle_with_retry
    handle_with_retry-reaches same next lt fails eps =
        let e : suc next * (same + 1) ≡ (next + 1) * (same + 1) = omega arith in
        retry_on_next-reaches (suc next) 0 same start (omega arith) (omega (arith, e))
          (λ m u v. fails m v) eps
