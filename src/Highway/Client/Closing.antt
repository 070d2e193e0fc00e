-- ===== src/Highway/Client/Closing.antt =====
-- A client of client/highway/highway_base_client.go that is closed while calls wait.
use go_chassis.Prelude.{
  ℕ, ◌≡◌, refl, sym, ap, ◌∙◌, arith, ◌⊎◌, inl, inr, List, [], ◌∷◌, Option, none, some, true, false,
  eqb, Bool-cases,
}
use go_chassis.Highway.Messages.{ok_status, Response}
use go_chassis.Highway.Client.{
  Call, BaseClient, find, done_call, with_call, change, done_all, woken, end_send, close,
}
use go_chassis.Highway.Client.Calls.{change_self, change_other}

module _ {A : Type 0} where
  abbrev pub Done : (ℕ → Option (Call A)) → ℕ → Call A → Type 0
  Done calls h c = (d : Call A) × (calls h ≡ some d) × (d.is_done ≡ true) × (d.rsp ≡ c.rsp)

  change-Done :
      (g h : ℕ) (calls : ℕ → Option (Call A)) (c : Call A)
      → Done calls h c
      → Done (change g done_call calls) h c
  change-Done g h calls c (d, e, i, r) = elim (Bool-cases (eqb g h)) [
    | inl q ↦ (done_call d, change_self g h done_call calls q ∙ ap (with_call done_call) e, refl, r)
    | inr q ↦ (d, change_other g h done_call calls q ∙ e, i, r)
  ]

  done_all-Done :
      (ws : List (ℕ × ℕ)) (h : ℕ) (calls : ℕ → Option (Call A)) (c : Call A)
      → Done calls h c
      → Done (done_all ws calls) h c
  unfolding done_all
  done_all-Done [] h calls c d = d
  done_all-Done ((id, g) ∷ ws) h calls c d =
      done_all-Done ws h (change g done_call calls) c (change-Done g h calls c d)

  change-keeps :
      (g h : ℕ) (calls : ℕ → Option (Call A)) (c : Call A)
      → calls h ≡ some c
      → Done (change g done_call calls) h c ⊎ (change g done_call calls h ≡ some c)
  change-keeps g h calls c e = elim (Bool-cases (eqb g h)) [
    | inl q ↦
        inl
          (done_call c, change_self g h done_call calls q ∙ ap (with_call done_call) e, refl, refl)
    | inr q ↦ inr (change_other g h done_call calls q ∙ e)
  ]

  done_all-find :
      (ws : List (ℕ × ℕ)) (id h : ℕ) (calls : ℕ → Option (Call A)) (c : Call A)
      → find id ws ≡ some h
      → calls h ≡ some c
      → Done (done_all ws calls) h c
  unfolding done_all find
  done_all-find [] id h calls c f e = absurd (let n : none ≡ some h = f in cc)
  done_all-find ((k, g) ∷ ws) id h calls c f e = elim (Bool-cases (eqb id k)) [
    | inl q ↦
        let first : some g ≡ some h =
          (let l : find id ((k, g) ∷ ws) ≡ some g = rw q refl in sym l ∙ f) in
        let same : g ≡ h = cc in
        let self : eqb g h ≡ true = ground (arith, same) in
        done_all-Done ws h (change g done_call calls) c (
          done_call c,
          change_self g h done_call calls self ∙ ap (with_call done_call) e,
          refl,
          refl,
        )
    | inr q ↦
        let later : find id ws ≡ some h =
          (let l : find id ((k, g) ∷ ws) ≡ find id ws = rw q refl in sym l ∙ f) in
        elim (change-keeps g h calls c e) [
          | inl d ↦ done_all-Done ws h (change g done_call calls) c d
          | inr e' ↦ done_all-find ws id h (change g done_call calls) c later e'
        ]
  ]

  -- When a client is closed, a call that waits is woken though no response came; if its status is
  -- still the one with which it began, its caller gets no error.
  pub end_send-close :
      (st : BaseClient A) (id h : ℕ) (c : Call A)
      → st.closed ≡ false
      → find id st.msg_wait_rsp_map ≡ some h
      → st.calls h ≡ some c
      → c.rsp.status ≡ ok_status
      → Done (close st).calls h c × ((end_send woken id h (close st)).0 ≡ none)
  unfolding close end_send
  end_send-close st id h c o f e k =
      let same : (close st).calls ≡ done_all st.msg_wait_rsp_map st.calls = rw o refl in
      let (d, a, i, r) = done_all-find st.msg_wait_rsp_map id h st.calls c f e in
      let at : (close st).calls h ≡ some d = ap (λ (f : ℕ → Option (Call A)). f h) same ∙ a in
      let ok : d.rsp.status ≡ ok_status = ap (λ (x : Response A). x.status) r ∙ k in
      ((d, at, i, r), rw (at, ok) refl)
