-- ===== src/Highway/Client/Calls.antt =====
-- Calls of client/highway/highway_base_client.go that wait for an answer: what every state has that the
-- steps reach.
use go_chassis.Prelude.{
  ℕ, ◌<◌, ◌≡◌, refl, sym, ap, ◌∙◌, arith, ◌⊎◌, inl, inr, subst, List, [], ◌∷◌, Option, none, some,
  true, false, not, eqb, All, Any, All-keep, Any-keep, Bool-cases, Option-cases, if◌then◌else◌,
}
use go_chassis.Highway.Messages.{Request, Response}
use go_chassis.Highway.Client.{
  Call, BaseClient, find, other_id, without, other_send, returned, done_call, with_call, change,
  done_all, begin_send, Outcome, not_written, woken, late, end_call, end_send, close,
}

pub find-All :
    (P : ℕ × ℕ → Type 0) (id h : ℕ) (ws : List (ℕ × ℕ)) → find id ws ≡ some h → All P ws → P (id, h)
unfolding find
find-All P id h [] e a = absurd (let f : none ≡ some h = e in cc)
find-All P id h ((k, g) ∷ ws) e (p, a) = elim (Bool-cases (eqb id k)) [
  | inl q ↦
      let f : some g ≡ some h = (let l : find id ((k, g) ∷ ws) ≡ some g = rw q refl in sym l ∙ e) in
      let f' : g ≡ h = cc in
      let k' : k ≡ id = ground (arith, q) in
      subst (λ (w : ℕ). P (id, w)) f' (subst (λ (w : ℕ). P (w, g)) k' p)
  | inr q ↦
      find-All P id h ws (let l : find id ((k, g) ∷ ws) ≡ find id ws = rw q refl in sym l ∙ e) a
]

other : (id h k g : ℕ) → other_id id (k, g) ≡ true → other_send id h (k, g) ≡ true
other id h k g e = elim (Bool-cases (eqb id k)) [
  | inl q ↦ absurd (let f : not true ≡ true = ap not (sym q) ∙ e in cc)
  | inr q ↦ rw q refl
]

module _ {A : Type 0} where
  -- A call that waits has not returned, has a state, and waits under the identifier of its request.
  abbrev pub Waits : List (ℕ × ℕ) → ℕ → (ℕ → Option (Call A)) → ℕ × ℕ → Type 0
  Waits sends next calls (id, h) =
      Any (λ (s : ℕ × ℕ). s ≡ (id, h)) sends
      × (h < next)
      × (c : Call A) × (calls h ≡ some c)
      × (c.req.msg_id ≡ id)

  abbrev pub Own : Call A → Type 0
  Own c = (c.rsp.msg_id ≡ 0) ⊎ (c.rsp.msg_id ≡ c.req.msg_id)

  pub record Sound (st : BaseClient A) : Type 0 where
    pub waiting : All (Waits st.sends st.next st.calls) st.msg_wait_rsp_map
    pub own : (h : ℕ) (c : Call A) → st.calls h ≡ some c → Own c

  pub change_other :
      (h g : ℕ) (f : Call A → Call A) (calls : ℕ → Option (Call A))
      → eqb h g ≡ false
      → change h f calls g ≡ calls g
  unfolding change
  change_other h g f calls e = rw e refl

  pub change_self :
      (h g : ℕ) (f : Call A → Call A) (calls : ℕ → Option (Call A))
      → eqb h g ≡ true
      → change h f calls g ≡ with_call f (calls g)
  unfolding change
  change_self h g f calls e = rw e refl

  -- A change of the state of a call keeps its request, and so keeps what waits.
  pub change-Waits :
      (h : ℕ) (f : Call A → Call A) (sends : List (ℕ × ℕ)) (next : ℕ) (calls : ℕ → Option (Call A))
      (w : ℕ × ℕ)
      → ((c : Call A) → (f c).req ≡ c.req)
      → Waits sends next calls w
      → Waits sends next (change h f calls) w
  change-Waits h f sends next calls (id, g) same (s, l, c, e, r) = elim (Bool-cases (eqb h g)) [
    | inl q ↦ (
      s,
      l,
      f c,
      change_self h g f calls q ∙ ap (with_call f) e,
      ap (λ (q : Request A). q.msg_id) (same c) ∙ r,
    )
    | inr q ↦ (s, l, c, change_other h g f calls q ∙ e, r)
  ]

  pub change-Own :
      (h : ℕ) (f : Call A → Call A) (calls : ℕ → Option (Call A))
      → ((c : Call A) → calls h ≡ some c → Own c → Own (f c))
      → ((g : ℕ) (c : Call A) → calls g ≡ some c → Own c)
      → (g : ℕ) (c : Call A) → change h f calls g ≡ some c
      → Own c
  unfolding change
  change-Own h f calls ok own g c e = elim (Bool-cases (eqb h g)) [
    | inl q ↦
        let at : change h f calls g ≡ with_call f (calls g) = change_self h g f calls q in
        let same : h ≡ g = ground (arith, q) in
        elim (Option-cases (calls g)) [
          | inl n ↦
              absurd (let none_some : none ≡ some c = ap (with_call f) (sym n) ∙ sym at ∙ e in cc)
          | inr (old, o) ↦
              let is_f : some (f old) ≡ some c = ap (with_call f) (sym o) ∙ sym at ∙ e in
              let is_f' : f old ≡ c = cc in
              subst Own is_f' (ok old (ap calls same ∙ o) (own g old o))
        ]
    | inr q ↦ own g c (sym (change_other h g f calls q) ∙ e)
  ]

  ended-Own :
      (outcome : Outcome) (h : ℕ) (calls : ℕ → Option (Call A)) (c : Call A)
      → calls h ≡ some c
      → Own c
      → Own (end_call outcome c)
  ended-Own (not_written e) h calls c o own = own
  ended-Own woken h calls c o own = own
  ended-Own late h calls c o own = own

  ended-req : (outcome : Outcome) (c : Call A) → (end_call outcome c).req ≡ c.req
  ended-req (not_written e) c = refl
  ended-req woken c = refl
  ended-req late c = refl

  pub begin_send-Sound :
      (req : Request A) (rsp : Response A) (st : BaseClient A)
      → rsp.msg_id ≡ 0
      → Sound st
      → Sound (begin_send req rsp st).1
  unfolding begin_send without
  begin_send-Sound req rsp st z s =
      let new : Call A = record { req = req; rsp = rsp; is_done = false } in
      let added : ℕ → Option (Call A) = λ g. if eqb st.next g then some new else st.calls g in
      let self : eqb st.next st.next ≡ true = ground arith in
      let here : added st.next ≡ some new = rw self refl in
      let older : (g : ℕ) → eqb st.next g ≡ false → added g ≡ st.calls g = λ g e. rw e refl in
      record {
        waiting = (
          (inl refl, omega arith, new, here, refl),
          All-keep (other_id req.msg_id) st.msg_wait_rsp_map
              (λ (k, g) _ (s, l, c, e, r).
                (inr s, omega (arith, l), c, older g (ground (arith, l)) ∙ e, r))
              s.waiting,
        );
        own = λ g c e. elim (Bool-cases (eqb st.next g)) [
          | inl q ↦
              let is_new : some new ≡ some c =
                (let f : added g ≡ some new = rw q refl in sym f ∙ e) in
              let is_new' : new ≡ c = cc in subst Own is_new' (inl z)
          | inr q ↦ s.own g c (sym (older g q) ∙ e)
        ];
      }

  pub end_send-Sound :
      (outcome : Outcome) (id h : ℕ) (st : BaseClient A)
      → Sound st
      → Sound (end_send outcome id h st).1
  unfolding end_send without returned
  end_send-Sound outcome id h st s = record {
    waiting =
        All-keep (other_id id) st.msg_wait_rsp_map
          (λ (k, g) o w.
            let (a, l, c, e, r) =
              change-Waits h (end_call outcome) st.sends st.next st.calls (k, g) (ended-req outcome)
                w in
            (Any-keep (other_send id h) (k, g) st.sends (other id h k g o) a, l, c, e, r))
          s.waiting;
    own = change-Own h (end_call outcome) st.calls (ended-Own outcome h st.calls) s.own;
  }

  done_all-Own :
      (ws : List (ℕ × ℕ)) (calls : ℕ → Option (Call A))
      → ((g : ℕ) (c : Call A) → calls g ≡ some c → Own c)
      → (g : ℕ) (c : Call A) → done_all ws calls g ≡ some c
      → Own c
  unfolding done_all
  done_all-Own [] calls own = own
  done_all-Own ((id, h) ∷ ws) calls own =
      done_all-Own ws (change h done_call calls) (change-Own h done_call calls (λ c e o. o) own)

  pub close-Sound : (st : BaseClient A) → Sound st → Sound (close st)
  unfolding close
  close-Sound st s = elim (Bool-cases st.closed) [
    | inl c ↦ let same : close st ≡ st = rw c refl in subst Sound (sym same) s
    | inr c ↦
        let closed' : BaseClient A = record st {
          calls = done_all st.msg_wait_rsp_map st.calls;
          msg_wait_rsp_map = [];
          closed = true;
        } in
        let same : close st ≡ closed' = rw c refl in
        subst Sound (sym same)
          (record { waiting = tt; own = done_all-Own st.msg_wait_rsp_map st.calls s.own })
  ]
