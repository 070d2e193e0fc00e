-- ===== src/Highway/Client/Reached.antt =====
-- The states that a client of client/highway/highway_base_client.go reaches.
use go_chassis.Prelude.{
  ℕ, ◌≡◌, refl, sym, ap, ◌∙◌, ◌⊎◌, inl, inr, subst, List, [], ◌∷◌, Option, none, some, true, eqb,
  ltb, length, take, drop, All, Any, All-weaken, Bool-cases, Option-cases,
}
use go_chassis.Highway.Frames.{ProtocolObject}
use go_chassis.Highway.Messages.{
  Codec, RequestHeader, ResponseHeader, Response, Parsed, parsed, failed, panics, de_serialize_rsp,
  with_rsp_header, into_result, with_result_read, empty_response_header,
}
use go_chassis.Highway.Client.{
  Call, BaseClient, find, change, process_msg, settle, settled, Step, begins, ends, arrives, closes,
  Reachable, opened, steps,
}
use go_chassis.Highway.Client.Calls.{
  Waits, Sound, change-Waits, change-Own, find-All, begin_send-Sound, end_send-Sound, close-Sound,
}

module _ {A : Type 0} (messages : Codec A) (requests : Codec RequestHeader)
    (responses : Codec ResponseHeader) where
  abbrev OfId : ℕ → Parsed (Response A) → Type 0
  OfId id (parsed rsp) = rsp.msg_id ≡ id
  OfId id (failed rsp) = rsp.msg_id ≡ id
  OfId id panics = Unit

  with_result_read-OfId :
      (id : ℕ) (rsp : Response A) (o : Option A)
      → rsp.msg_id ≡ id
      → OfId id (with_result_read messages requests responses rsp o)
  with_result_read-OfId id rsp none e = e
  with_result_read-OfId id rsp (some x) e = e

  into_result-OfId :
      (id : ℕ) (o : Option A) (body : List ℕ) (rsp : Response A)
      → rsp.msg_id ≡ id
      → OfId id (into_result messages requests responses o body rsp)
  into_result-OfId id none body rsp e = tt
  into_result-OfId id (some x) body rsp e =
      with_result_read-OfId id rsp (messages.unmarshal x body) e

  with_rsp_header-OfId :
      (id : ℕ) (o : Option ResponseHeader) (obj : ProtocolObject) (rsp : Response A)
      → rsp.msg_id ≡ id
      → OfId id (with_rsp_header messages requests responses o obj rsp)
  with_rsp_header-OfId id none obj rsp e = e
  with_rsp_header-OfId id (some header) obj rsp e =
      let rsp' : Response A = record rsp {
        status = header.status_code;
        err = header.reason;
        attachments = header.context;
      } in
      elim (Bool-cases (eqb obj.fr_head.header_len obj.fr_head.total_len)) [
        | inl q ↦ rw q e
        | inr q ↦
            rw q (into_result-OfId id rsp.result (drop obj.fr_head.header_len obj.pay_load) rsp' e)
      ]

  -- What is read from a frame has the identifier of the frame, also after an error.
  de_serialize_rsp-OfId :
      (obj : ProtocolObject) (rsp : Response A)
      → OfId obj.fr_head.msg_id (de_serialize_rsp messages requests responses obj rsp)
  unfolding de_serialize_rsp
  de_serialize_rsp-OfId obj rsp =
      let header =
        responses.unmarshal (empty_response_header messages requests responses)
          (take obj.fr_head.header_len obj.pay_load) in
      elim (Bool-cases (ltb (length obj.pay_load) obj.fr_head.header_len)) [
        | inl q ↦ rw q tt
        | inr q ↦ rw q (
            with_rsp_header-OfId obj.fr_head.msg_id header obj
              (record rsp { msg_id = obj.fr_head.msg_id }) refl)
      ]

  abbrev answer : Response A → Call A → Call A
  answer rsp old = record old { rsp = rsp; is_done = true }

  answer-Sound :
      (h : ℕ) (c : Call A) (rsp : Response A) (st : BaseClient A)
      → st.calls h ≡ some c
      → rsp.msg_id ≡ c.req.msg_id
      → Sound st
      → Sound (record st { calls = change h (answer rsp) st.calls })
  answer-Sound h c rsp st k id s = record {
    waiting =
        All-weaken st.msg_wait_rsp_map
          (λ w. change-Waits h (answer rsp) st.sends st.next st.calls w (λ old. refl)) s.waiting;
    own =
        change-Own h (answer rsp) st.calls
          (λ old e o.
            let same : some c ≡ some old = sym k ∙ e in
            let same' : c ≡ old = cc in inr (id ∙ ap (λ (d : Call A). d.req.msg_id) same'))
          s.own;
  }

  settled-Sound :
      (h : ℕ) (c : Call A) (p : Parsed (Response A)) (st st' : BaseClient A)
      → st.calls h ≡ some c
      → OfId c.req.msg_id p
      → settled messages requests responses h c p st ≡ some st'
      → Sound st
      → Sound st'
  unfolding settled
  settled-Sound h c (parsed rsp) st st' k id e s =
      let e' : record st { calls = change h (answer rsp) st.calls } ≡ st' = cc in
      subst Sound e' (answer-Sound h c rsp st k id s)
  settled-Sound h c (failed rsp) st st' k id e s =
      let e' : record st { calls = change h (answer rsp) st.calls } ≡ st' = cc in
      subst Sound e' (answer-Sound h c rsp st k id s)
  settled-Sound h c panics st st' k id e s = absurd (let f : none ≡ some st' = e in cc)

  process_msg-Sound :
      (obj : ProtocolObject) (st st' : BaseClient A)
      → process_msg messages requests responses obj st ≡ some st'
      → Sound st
      → Sound st'
  unfolding process_msg settle
  process_msg-Sound obj st st' e s =
      elim (Option-cases (find obj.fr_head.msg_id st.msg_wait_rsp_map)) [
        | inl n ↦
            let same : process_msg messages requests responses obj st ≡ some st = rw n refl in
            let same' : st ≡ st' = cc in subst Sound same' s
        | inr (h, f) ↦
            let (i, l, c, k, r) =
              find-All (Waits st.sends st.next st.calls) obj.fr_head.msg_id h st.msg_wait_rsp_map f
                s.waiting in
            let p = de_serialize_rsp messages requests responses obj c.rsp in
            let same : process_msg messages requests responses obj st
                ≡ settled messages requests responses h c p st =
              rw (f, k) refl in
            settled-Sound h c p st st' k
              (subst (λ (id : ℕ). OfId id p) (sym r) (de_serialize_rsp-OfId obj c.rsp))
              (sym same ∙ e) s
      ]

  step-Sound :
      {st st' : BaseClient A} → Step messages requests responses st st' → Sound st → Sound st'
  step-Sound (begins req rsp st z) s = begin_send-Sound req rsp st z s
  step-Sound (ends outcome id h st i) s = end_send-Sound outcome id h st s
  step-Sound (arrives obj st st' e) s = process_msg-Sound obj st st' e s
  step-Sound (closes st) s = close-Sound st s

  Reachable-Sound : (st : BaseClient A) → Reachable messages requests responses st → Sound st
  Reachable-Sound _ opened = record {
    waiting = tt;
    own = λ h c e. absurd (let f : none ≡ some c = e in cc);
  }
  Reachable-Sound _ (steps r step) = step-Sound step (Reachable-Sound _ r)

  -- In every state that a client reaches, a call has only been given a response with the identifier of
  -- its own request, or none yet.
  pub Reachable-Own :
      (st : BaseClient A) (h : ℕ) (c : Call A)
      → Reachable messages requests responses st
      → st.calls h ≡ some c
      → (c.rsp.msg_id ≡ 0) ⊎ (c.rsp.msg_id ≡ c.req.msg_id)
  Reachable-Own st h c r e = (Reachable-Sound st r).own h c e

  -- In every state that a client reaches, once all calls have returned, the map of the calls that wait is empty.
  pub Reachable-empty :
      (st : BaseClient A)
      → Reachable messages requests responses st
      → st.sends ≡ []
      → st.msg_wait_rsp_map ≡ []
  Reachable-empty st r e = none_waits st.msg_wait_rsp_map e (Reachable-Sound st r).waiting
    where
      none_waits :
          (ws : List (ℕ × ℕ)) → st.sends ≡ [] → All (Waits st.sends st.next st.calls) ws → ws ≡ []
      none_waits [] e a = refl
      none_waits (w ∷ ws) e ((i, _, _, _, _), a) =
          absurd (subst (λ (l : List (ℕ × ℕ)). Any (λ (s : ℕ × ℕ). s ≡ w) l) e i)
