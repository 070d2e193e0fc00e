-- ===== src/Chain/Order.antt =====
-- In which order the handlers of core/handler/handler_chain.go run.
use go_chassis.Prelude.{
  ℕ, zero, suc, ◌+◌, ◌<◌, ◌≡◌, refl, ◌∙◌, ap, arith, List, [], ◌∷◌, Option, none, some, length,
  get_elem?, inl, inr, ◌⊎◌,
}
use go_chassis.Chain.{Step, answers, forwards, Handler, Chain, Passed, taken, next}

module _ {S I R : Type 0} (empty : R) where
  -- The handlers one inside the other: each one works on what the one before it forwards, and
  -- changes the response that comes back. The number is that of the handlers that were entered.
  abbrev pub below : Step S I R → (I → S → R × (S × ℕ)) → R × (S × ℕ)
  below (answers r s) inner = (r, (s, 1))
  below (forwards i s f) inner = let (r, (s', n)) = inner i s in (f r, (s', suc n))

  unfoldable pub nested : List (Handler S I R) → I → S → R × (S × ℕ)
  nested [] i s = (empty, (s, 0))
  nested (h ∷ hs) i s = below (h s i) (nested hs)

  -- The handlers from an index on.
  abbrev from : ℕ → List (Handler S I R) → List (Handler S I R)
  from zero hs = hs
  from (suc k) [] = []
  from (suc k) (h ∷ hs) = from k hs

  at_from :
      (k : ℕ) (hs : List (Handler S I R))
      → ((get_elem? hs k ≡ none) × (from k hs ≡ []))
        ⊎ ((h : Handler S I R) × (get_elem? hs k ≡ some h) × (from k hs ≡ h ∷ from (suc k) hs))
  at_from zero [] = inl (refl, refl)
  at_from (suc k) [] = inl (refl, refl)
  at_from zero (h ∷ hs) = inr (h, refl, refl)
  at_from (suc k) (h ∷ hs) = at_from k hs

  -- The result of the chain `c`, when the handlers that are left do what `r` says.
  abbrev pub handed : Chain S I R → R × (S × ℕ) → Option (Passed S I R)
  handed c (r, (s, n)) = some (r, (s, record c { handler_index = c.handler_index + n }))

  taken-below :
      (st : Step S I R) (c : Chain S I R) (go : I → S → Option (Passed S I R))
      (inner : I → S → R × (S × ℕ))
      → ((i : I) (s : S)
          → go i s ≡ handed (record c { handler_index = suc c.handler_index }) (inner i s))
      → taken st (record c { handler_index = suc c.handler_index }) go ≡ handed c (below st inner)
  taken-below (answers r s) c go inner h =
      let e : suc c.handler_index ≡ c.handler_index + 1 = omega arith in
      ap (λ (k : ℕ). some (r, (s, record c { handler_index = k }))) e
  taken-below (forwards i s f) c go inner h =
      let e : suc c.handler_index + (inner i s).1.1 ≡ c.handler_index + suc (inner i s).1.1 =
        omega arith in
      rw (h i s) (
        ap (λ (k : ℕ). some (f (inner i s).0, ((inner i s).1.0, record c { handler_index = k }))) e)

  pub next-nested :
      (fuel : ℕ) (c : Chain S I R) (i : I) (s : S)
      → length (from c.handler_index c.handlers) < fuel
      → next fuel empty c i s ≡ handed c (nested (from c.handler_index c.handlers) i s)
  unfolding next nested
  next-nested zero c i s h = absurd (omega arith)
  next-nested (suc fuel) c i s h = elim (at_from c.handler_index c.handlers) [
    | inl (e, f) ↦
        let k : c.handler_index ≡ c.handler_index + 0 = omega arith in
        rw e (rw f (ap (λ (k : ℕ). some (empty, (s, record c { handler_index = k }))) k))
    | inr (handler, e, f) ↦
        let c' = record c { handler_index = suc c.handler_index } in
        let fewer : length (from (suc c.handler_index) c.handlers) < fuel =
          omega (arith, ap (λ (l : List (Handler S I R)). length l) f) in
        rw e (
          rw f (
            taken-below (handler s i) c (λ i' s'. next fuel empty c' i' s')
              (nested (from (suc c.handler_index) c.handlers))
              (λ i' s'. next-nested fuel c' i' s' fewer)))
  ]

  -- `Next` on a chain at its start, such as `GetChain` hands out, runs the handlers in the order of
  -- the list: each handler works on the invocation and the state that the one before it left, the
  -- first one that does not call `Next` answers, or else the end of the chain does, and the changes
  -- to the response are made from the last handler to the first. The index is in the end the
  -- number of the handlers that were entered, and as many rounds as there are handlers and one more
  -- are enough.
  pub next-refines :
      (c : Chain S I R) (i : I) (s : S)
      → c.handler_index ≡ 0
      → next (suc (length c.handlers)) empty c i s ≡ handed c (nested c.handlers i s)
  next-refines c i s h =
      let go = next-nested (suc (length c.handlers)) c i s in
      let start : from c.handler_index c.handlers ≡ c.handlers =
        ap (λ (k : ℕ). from k c.handlers) h in
      go (omega (arith, ap (λ (l : List (Handler S I R)). length l) start))
      ∙ ap (λ (l : List (Handler S I R)). handed c (nested l i s)) start
