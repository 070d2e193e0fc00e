-- ===== src/Highway/Server/Exchange.antt =====
-- A call over Highway from its caller to the service and back: client/highway/highway_base_client.go,
-- highway_msgobj.go and server/highway/highway_conn.go together.
use go_chassis.Prelude.{
  ◌⊎◌, ℕ, ◌+◌, ◌^◌, ◌<◌, ◌≡◌, refl, sym, ◌∙◌, ap, arith, String, List, [], none, some, true, false,
  eqb, length, concat, append_nil, if◌then◌else◌,
}
use go_chassis.Highway.Frames.{Reader, ProtocolObject, de_serialize_frame}
use go_chassis.Highway.Messages.{
  Codec, RequestHeader, ResponseHeader, Request, Response, int32, takes, request_header,
  serialize_req, response_header, serialize_rsp, empty_request_header, empty_response_header,
}
use go_chassis.Highway.Messages.RoundTrip.{received, de_serialize_req-serialize_req}
use go_chassis.Highway.Messages.Answers.{
  answered, de_serialize_rsp-serialize_rsp, de_serialize_rsp-error,
}
use go_chassis.Highway.Client.{Call, BaseClient, find, woken, end_send, process_msg}
use go_chassis.Highway.Server.{
  Service, Invocation, ChainEnd, called_back, Invoked, result, refused, Handled, error_response,
  result_response, invocation_of, empty_request, handle_frame,
}
use go_chassis.Highway.Server.Replies.{handle_frame-result, handle_frame-error, process_msg-answers}

module _ {A : Type 0} (messages : Codec A) (requests : Codec RequestHeader)
    (responses : Codec ResponseHeader) where
  -- A call is answered: the request reaches the server whatever parts the network makes of its bytes, the
  -- answer of the provider reaches the call that waits in the same way, and its caller gets the result and no
  -- error. This holds when the identifier is a word of 64 bits, the request and the result can be
  -- encoded and read, are shorter than 2^32 bytes and the result takes at least one byte, the server knows the operation,
  -- the chain calls back without an error, and the provider gives a result.
  pub call-answered :
      (network : List ℕ → Reader) (service : Service A) (chain : Invocation A → ChainEnd)
      (invoke : Invocation A → Invoked A) (req : Request A) (x y target place : A)
      (h1 b1 sent h2 b2 : List ℕ) (st : BaseClient A) (h : ℕ) (c : Call A)
      → ((bs : List ℕ) → concat (network bs) ≡ bs)
      → req.msg_id < 2 ^ 64
      → req.arg ≡ some x
      → requests.marshal (request_header messages requests responses req) ≡ some h1
      → messages.marshal x ≡ some b1
      → length h1 + length b1 < 2 ^ 32
      → service.operations req.svc_name req.schema req.method_name ≡ some (takes target)
      → requests.Fits
          (empty_request_header messages requests responses)
          (request_header messages requests responses req)
      → messages.Fits target x
      → serialize_req messages requests responses req ≡ some sent
      → service.chain ≡ some chain
      → chain
          (invocation_of messages requests responses (received messages requests responses req x))
        ≡ called_back none
      → service.provider req.svc_name ≡ some invoke
      → invoke
          (invocation_of messages requests responses (received messages requests responses req x))
        ≡ result y
      → responses.marshal (
          response_header messages requests responses
            (result_response messages requests responses req y))
        ≡ some h2
      → messages.marshal y ≡ some b2
      → length h2 + length b2 < 2 ^ 32
      → 0 < length b2
      → responses.Fits (empty_response_header messages requests responses) (
          response_header messages requests responses
            (result_response messages requests responses req y))
      → messages.Fits place y
      → find req.msg_id st.msg_wait_rsp_map ≡ some h
      → st.calls h ≡ some c
      → c.rsp.result ≡ some place
      → (obj reply : ProtocolObject) × (r r' : Reader) × (st' : BaseClient A) × (c' : Call A)
        × (de_serialize_frame (network sent) ≡ some (obj, r))
        × (de_serialize_frame
              (network (handle_frame messages requests responses service obj).written)
            ≡ some (reply, r'))
        × (process_msg messages requests responses reply st ≡ some st')
        × (st'.calls h ≡ some c')
        × (c'.is_done ≡ true)
        × (c'.rsp.result ≡ some y)
        × ((end_send woken req.msg_id h st').0 ≡ none)
  unfolding answered end_send int32
  call-answered network service chain invoke req x y target place h1 b1 sent h2 b2 st h c net id a
        m1 e1 s1 o f1 g1 wr ch cb pr iv m2 e2 s2 some_byte f2 g2 wait at place_at =
      let req' : Request A = received messages requests responses req x in
      let (obj, r, q, d, _) =
        de_serialize_req-serialize_req messages requests responses service.operations req
          (empty_request messages requests responses) x target h1 b1 sent [] (network sent) id a
          refl m1 e1 s1 o f1 g1 wr (net sent ∙ sym (append_nil sent)) in
      let handled =
        handle_frame-result messages requests responses service obj req' chain invoke y d refl ch cb
          pr iv in
      let rsp : Response A = result_response messages requests responses req' y in
      let written : List ℕ = (handle_frame messages requests responses service obj).written in
      let same : written ≡ (serialize_rsp messages requests responses rsp).1 =
        ap (λ (w : Handled). w.written) handled in
      let (reply, r', q', same_id, d', _) =
        de_serialize_rsp-serialize_rsp messages requests responses rsp c.rsp y place h2 b2 []
          (network written) id refl place_at m2 e2 s2 f2 g2
          (net written ∙ same ∙ sym (append_nil _)) in
      let given : Response A =
        answered messages requests responses rsp c.rsp (if eqb (length b2) 0 then place else y) in
      let found : find reply.fr_head.msg_id st.msg_wait_rsp_map ≡ some h =
        ap (λ (n : ℕ). find n st.msg_wait_rsp_map) same_id ∙ wait in
      let (st', p, k) =
        process_msg-answers messages requests responses reply h c given st found at d' in
      let not_empty : eqb (length b2) 0 ≡ false = ground (arith, some_byte) in
      (
        obj,
        reply,
        r,
        r',
        st',
        record c { rsp = given; is_done = true },
        q,
        q',
        p,
        k,
        refl,
        rw not_empty refl,
        rw k refl,
      )

  -- A call whose chain or provider on the server ends with an error comes back to the call that waits, and its
  -- caller gets the text of this error, under the same conditions on the network, the encoding and the lengths
  -- as a call that is answered.
  pub call-refused :
      (network : List ℕ → Reader) (service : Service A) (chain : Invocation A → ChainEnd)
      (invoke : Invocation A → Invoked A) (req : Request A) (x target : A) (e : String)
      (h1 b1 sent h2 : List ℕ) (st : BaseClient A) (h : ℕ) (c : Call A)
      → ((bs : List ℕ) → concat (network bs) ≡ bs)
      → req.msg_id < 2 ^ 64
      → req.arg ≡ some x
      → requests.marshal (request_header messages requests responses req) ≡ some h1
      → messages.marshal x ≡ some b1
      → length h1 + length b1 < 2 ^ 32
      → service.operations req.svc_name req.schema req.method_name ≡ some (takes target)
      → requests.Fits
          (empty_request_header messages requests responses)
          (request_header messages requests responses req)
      → messages.Fits target x
      → serialize_req messages requests responses req ≡ some sent
      → service.chain ≡ some chain
      → service.provider req.svc_name ≡ some invoke
      → (chain
            (invocation_of messages requests responses (received messages requests responses req x))
          ≡ called_back (some e))
        ⊎ ((chain (
                invocation_of messages requests responses
                  (received messages requests responses req x))
              ≡ called_back none)
            × (invoke (
                  invocation_of messages requests responses
                    (received messages requests responses req x))
                ≡ refused e))
      → responses.marshal (
          response_header messages requests responses
            (error_response messages requests responses req e))
        ≡ some h2
      → length h2 < 2 ^ 32
      → responses.Fits (empty_response_header messages requests responses) (
          response_header messages requests responses
            (error_response messages requests responses req e))
      → find req.msg_id st.msg_wait_rsp_map ≡ some h
      → st.calls h ≡ some c
      → (obj reply : ProtocolObject) × (r r' : Reader) × (st' : BaseClient A) × (de_serialize_frame
            (network sent)
          ≡ some (obj, r))
        × (de_serialize_frame
              (network (handle_frame messages requests responses service obj).written)
            ≡ some (reply, r'))
        × (process_msg messages requests responses reply st ≡ some st')
        × ((end_send woken req.msg_id h st').0 ≡ some e)
  unfolding end_send int32
  call-refused network service chain invoke req x target e h1 b1 sent h2 st h c net id a m1 e1 s1 o
        f1 g1 wr ch pr fails m2 s2 f2 wait at =
      let req' : Request A = received messages requests responses req x in
      let (obj, r, q, d, _) =
        de_serialize_req-serialize_req messages requests responses service.operations req
          (empty_request messages requests responses) x target h1 b1 sent [] (network sent) id a
          refl m1 e1 s1 o f1 g1 wr (net sent ∙ sym (append_nil sent)) in
      let handled =
        handle_frame-error messages requests responses service obj req' chain invoke e d refl ch pr
          fails in
      let rsp : Response A = error_response messages requests responses req' e in
      let written : List ℕ = (handle_frame messages requests responses service obj).written in
      let same : written ≡ (serialize_rsp messages requests responses rsp).1 =
        ap (λ (w : Handled). w.written) handled in
      let (reply, r', q', same_id, d', _) =
        de_serialize_rsp-error messages requests responses rsp c.rsp h2 [] (network written) id refl
          m2 s2 f2 (net written ∙ same ∙ sym (append_nil _)) in
      let given : Response A = record c.rsp {
        msg_id = rsp.msg_id;
        status = int32 rsp.status;
        err = rsp.err;
        attachments = [];
      } in
      let found : find reply.fr_head.msg_id st.msg_wait_rsp_map ≡ some h =
        ap (λ (n : ℕ). find n st.msg_wait_rsp_map) same_id ∙ wait in
      let (st', p, k) =
        process_msg-answers messages requests responses reply h c given st found at d' in
      (obj, reply, r, r', st', q, q', p, rw k refl)
