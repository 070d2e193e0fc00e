-- ===== src/Highway/Server/Replies.antt =====
-- What handleFrame of server/highway/highway_conn.go writes for a request that is read, and what processMsg of
-- client/highway/client_conn.go does with a response that is.
use go_chassis.Prelude.{◌⊎◌, inl, inr, ℕ, ◌≡◌, refl, arith, String, none, some, true, false, eqb}
use go_chassis.Highway.Frames.{ProtocolObject}
use go_chassis.Highway.Messages.{
  Codec, RequestHeader, ResponseHeader, Request, Response, parsed, serialize_rsp, de_serialize_rsp,
  de_serialize_req,
}
use go_chassis.Highway.Client.{
  Call, BaseClient, find, change, process_msg, process_found, settle, settled,
}
use go_chassis.Highway.Server.{
  Service, Invocation, ChainEnd, called_back, Invoked, result, refused, error_response, write_error,
  result_response, invocation_of, call_back, empty_request, handle_frame,
}

module _ {A : Type 0} (messages : Codec A) (requests : Codec RequestHeader)
    (responses : Codec ResponseHeader) where
  -- A request that is read, whose chain calls back without an error, is answered with one frame for the result of the
  -- provider.
  pub handle_frame-result :
      (service : Service A) (obj : ProtocolObject) (req : Request A)
      (chain : Invocation A → ChainEnd) (invoke : Invocation A → Invoked A) (y : A)
      → de_serialize_req messages requests responses service.operations obj
          (empty_request messages requests responses)
        ≡ parsed req
      → req.two_way ≡ true
      → service.chain ≡ some chain
      → chain (invocation_of messages requests responses req) ≡ called_back none
      → service.provider req.svc_name ≡ some invoke
      → invoke (invocation_of messages requests responses req) ≡ result y
      → handle_frame messages requests responses service obj ≡ record {
        written =
            (serialize_rsp messages requests responses
              (result_response messages requests responses req y)).1;
        is_panic = false;
      }
  unfolding handle_frame call_back
  handle_frame-result service obj req chain invoke y p t c b f i = rw (p, c, b, f, i, t) refl

  -- A response that arrives for a call that waits is given to it, and it is woken.
  pub process_msg-answers :
      (obj : ProtocolObject) (h : ℕ) (c : Call A) (rsp : Response A) (st : BaseClient A)
      → find obj.fr_head.msg_id st.msg_wait_rsp_map ≡ some h
      → st.calls h ≡ some c
      → de_serialize_rsp messages requests responses obj c.rsp ≡ parsed rsp
      → (st' : BaseClient A) × (process_msg messages requests responses obj st ≡ some st')
        × (st'.calls h ≡ some (record c { rsp = rsp; is_done = true }))
  unfolding process_msg process_found settle settled change
  process_msg-answers obj h c rsp st f k d =
      let answer : Call A → Call A = λ old. record old { rsp = rsp; is_done = true } in
      let st' : BaseClient A = record st { calls = change h answer st.calls } in
      let self : eqb h h ≡ true = ground arith in (st', rw (f, k, d) refl, rw (self, k) refl)

  -- A request that is read, whose chain or provider ends with an error, is answered with one frame for the error.
  pub handle_frame-error :
      (service : Service A) (obj : ProtocolObject) (req : Request A)
      (chain : Invocation A → ChainEnd) (invoke : Invocation A → Invoked A) (e : String)
      → de_serialize_req messages requests responses service.operations obj
          (empty_request messages requests responses)
        ≡ parsed req
      → req.two_way ≡ true
      → service.chain ≡ some chain
      → service.provider req.svc_name ≡ some invoke
      → (chain (invocation_of messages requests responses req) ≡ called_back (some e))
        ⊎ ((chain (invocation_of messages requests responses req) ≡ called_back none)
            × (invoke (invocation_of messages requests responses req) ≡ refused e))
      → handle_frame messages requests responses service obj ≡ record {
        written =
            (serialize_rsp messages requests responses
              (error_response messages requests responses req e)).1;
        is_panic = false;
      }
  unfolding handle_frame call_back write_error
  handle_frame-error service obj req chain invoke e p t c f (inl b) = rw (p, c, b, t) refl
  handle_frame-error service obj req chain invoke e p t c f (inr (b, i)) =
      rw (p, c, b, f, i, t) refl
