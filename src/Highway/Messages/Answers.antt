-- ===== src/Highway/Messages/Answers.antt =====
-- Responses of client/highway/highway_msgobj.go are read as they were sent.
use go_chassis.Prelude.{
  ℕ, ◌+◌, ◌^◌, ◌<◌, ◌≡◌, refl, ◌∙◌, ap, arith, List, [], ◌++◌, none, some, true, false, eqb, length,
  concat, take-append, drop-append, Bool-cases, inl, inr, if◌then◌else◌,
}
use go_chassis.Highway.Frames.{Reader, ProtocolObject, de_serialize_frame}
use go_chassis.Highway.Messages.{
  Codec, RequestHeader, ResponseHeader, Response, int32, frame_of, parsed, response_header,
  serialize_rsp, empty_response_header, de_serialize_rsp,
}
use go_chassis.Highway.Messages.RoundTrip.{object_of, frame-read, whole}

module _ {A : Type 0} (messages : Codec A) (requests : Codec RequestHeader)
    (responses : Codec ResponseHeader) where
  -- What the caller makes of the response: the attachments are lost, the status is cut to 32 bits, and
  -- without a body the caller keeps the message that it gave.
  unfoldable pub answered : Response A → Response A → A → Response A
  unfolding int32
  answered rsp waiting x = record waiting {
    msg_id = rsp.msg_id;
    status = int32 rsp.status;
    err = rsp.err;
    attachments = [];
    result = some x;
  }

  object-response :
      (rsp waiting : Response A) (x target : A) (header body : List ℕ)
      → responses.marshal (response_header messages requests responses rsp) ≡ some header
      → messages.marshal x ≡ some body
      → waiting.result ≡ some target
      → responses.Fits
          (empty_response_header messages requests responses)
          (response_header messages requests responses rsp)
      → messages.Fits target x
      → de_serialize_rsp messages requests responses (object_of rsp.msg_id header body) waiting
        ≡ parsed (answered rsp waiting (if eqb (length body) 0 then target else x))
  unfolding de_serialize_rsp answered
  object-response rsp waiting x target header body h b t f g =
      let u =
        responses.unmarshal-marshal (empty_response_header messages requests responses)
          (response_header messages requests responses rsp) header f h in
      let v = messages.unmarshal-marshal target x body g b in
      elim (Bool-cases (eqb (length body) 0)) [
        | inl zero' ↦
            let same : eqb (length header) (length header + length body) ≡ true =
              ground (arith, zero') in
            rw (whole header body, take-append header body, u, same, zero', t) refl
        | inr more ↦
            let differ : eqb (length header) (length header + length body) ≡ false =
              ground (arith, more) in
            rw
              (
                whole header body,
                take-append header body,
                u,
                differ,
                more,
                drop-append header body,
                t,
                v,
              )
              refl
      ]

  -- A response that was sent is read by the caller, whatever parts its bytes arrive in, and what was sent
  -- after it is still to be read: when its identifier is a word of 64 bits, its header and its result can
  -- be encoded and are together shorter than 2^32 bytes, and the caller gave a message of the type
  -- of the result. The status is cut to 32 bits, the attachments are lost, and the message that the
  -- caller gave stays as it was where the result is encoded in no bytes.
  pub de_serialize_rsp-serialize_rsp :
      (rsp waiting : Response A) (x target : A) (header body rest : List ℕ) (r : Reader)
      → rsp.msg_id < 2 ^ 64
      → rsp.result ≡ some x
      → waiting.result ≡ some target
      → responses.marshal (response_header messages requests responses rsp) ≡ some header
      → messages.marshal x ≡ some body
      → length header + length body < 2 ^ 32
      → responses.Fits
          (empty_response_header messages requests responses)
          (response_header messages requests responses rsp)
      → messages.Fits target x
      → concat r ≡ (serialize_rsp messages requests responses rsp).1 ++ rest
      → (obj : ProtocolObject) × (r' : Reader) × (de_serialize_frame r ≡ some (obj, r'))
        × (obj.fr_head.msg_id ≡ rsp.msg_id)
        × (de_serialize_rsp messages requests responses obj waiting
            ≡ parsed (answered rsp waiting (if eqb (length body) 0 then target else x)))
        × (concat r' ≡ rest)
  unfolding serialize_rsp
  de_serialize_rsp-serialize_rsp rsp waiting x target header body rest r hi a t h b small f g e =
      let written : (serialize_rsp messages requests responses rsp).1
          ≡ frame_of rsp.msg_id header body =
        rw (h, a, b) refl in
      let (r', q, k) =
        frame-read rsp.msg_id header body rest r hi small
          (e ∙ ap (λ (l : List ℕ). l ++ rest) written) in
      (
        object_of rsp.msg_id header body,
        r',
        q,
        refl,
        object-response rsp waiting x target header body h b t f g,
        k,
      )

  -- A response without a result keeps the message that the caller gave.
  object-error :
      (rsp waiting : Response A) (header : List ℕ)
      → responses.marshal (response_header messages requests responses rsp) ≡ some header
      → responses.Fits
          (empty_response_header messages requests responses)
          (response_header messages requests responses rsp)
      → de_serialize_rsp messages requests responses (object_of rsp.msg_id header []) waiting
        ≡ parsed (record waiting {
          msg_id = rsp.msg_id;
          status = int32 rsp.status;
          err = rsp.err;
          attachments = [];
        })
  unfolding de_serialize_rsp
  object-error rsp waiting header h f =
      let u =
        responses.unmarshal-marshal (empty_response_header messages requests responses)
          (response_header messages requests responses rsp) header f h in
      let same : eqb (length header) (length header + 0) ≡ true = ground arith in
      rw (whole header [], take-append header [], u, same) refl

  pub de_serialize_rsp-error :
      (rsp waiting : Response A) (header rest : List ℕ) (r : Reader)
      → rsp.msg_id < 2 ^ 64
      → rsp.result ≡ none
      → responses.marshal (response_header messages requests responses rsp) ≡ some header
      → length header < 2 ^ 32
      → responses.Fits
          (empty_response_header messages requests responses)
          (response_header messages requests responses rsp)
      → concat r ≡ (serialize_rsp messages requests responses rsp).1 ++ rest
      → (obj : ProtocolObject) × (r' : Reader) × (de_serialize_frame r ≡ some (obj, r'))
        × (obj.fr_head.msg_id ≡ rsp.msg_id)
        × (de_serialize_rsp messages requests responses obj waiting
            ≡ parsed (record waiting {
              msg_id = rsp.msg_id;
              status = int32 rsp.status;
              err = rsp.err;
              attachments = [];
            }))
        × (concat r' ≡ rest)
  unfolding serialize_rsp
  de_serialize_rsp-error rsp waiting header rest r hi a h small f e =
      let written : (serialize_rsp messages requests responses rsp).1
          ≡ frame_of rsp.msg_id header [] =
        rw (h, a) refl in
      let (r', q, k) =
        frame-read rsp.msg_id header [] rest r hi (omega (arith, small))
          (e ∙ ap (λ (l : List ℕ). l ++ rest) written) in
      (object_of rsp.msg_id header [], r', q, refl, object-error rsp waiting header h f, k)
