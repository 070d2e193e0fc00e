-- ===== src/Highway/Messages/RoundTrip.antt =====
-- Messages of client/highway/highway_msgobj.go are read as they were sent.
use go_chassis.Prelude.{
  ℕ, ◌+◌, ◌%◌, ◌^◌, ◌<◌, ◌≡◌, refl, ◌∙◌, ap, arith, String, List, ◌++◌, Option, none, some, true,
  false, ltb, length, concat, take-append, drop-append, append_assoc, length-append,
}
use go_chassis.Highway.Frames.{
  magic_id, FrameHead, serialize, Reader, ProtocolObject, de_serialize_frame,
}
use go_chassis.Highway.Frames.Bytes.{de_serialize_frame-serialize}
use go_chassis.Highway.Messages.{
  Codec, RequestHeader, ResponseHeader, Request, Response, frame_of, parsed, panics, Operation,
  takes, request_header, serialize_req, empty_request_header, de_serialize_rsp, de_serialize_req,
}

-- What the receiver holds after it has read a frame with a header and a body.
abbrev pub object_of : ℕ → List ℕ → List ℕ → ProtocolObject
object_of id header body =
    let total = length header + length body in
    record {
      fr_head = record {
        magic = magic_id;
        msg_id = id;
        total_len = total;
        header_len = length header;
      };
      pay_load = header ++ body;
    }

abbrev head_of : ℕ → ℕ → ℕ → FrameHead
head_of id header total = record {
  magic = magic_id;
  msg_id = id;
  total_len = total;
  header_len = header;
}

frame_of-uncut :
    (id : ℕ) (header body : List ℕ)
    → length header + length body < 2 ^ 32
    → frame_of id header body
      ≡ serialize (head_of id (length header) (length (header ++ body))) ++ (header ++ body)
unfolding frame_of
frame_of-uncut id header body small =
    let h : length header % 2 ^ 32 ≡ length header = omega (arith, small) in
    let t : (length header % 2 ^ 32 + length body % 2 ^ 32) % 2 ^ 32 ≡ length (header ++ body) =
      omega (arith, small, length-append header body) in
    ap (λ (n : ℕ). serialize (head_of id (length header % 2 ^ 32) n) ++ (header ++ body)) t
    ∙ ap (λ (n : ℕ). serialize (head_of id n (length (header ++ body))) ++ (header ++ body)) h

pub frame-read :
    (id : ℕ) (header body rest : List ℕ) (r : Reader)
    → id < 2 ^ 64
    → length header + length body < 2 ^ 32
    → concat r ≡ frame_of id header body ++ rest
    → (r' : Reader) × (de_serialize_frame r ≡ some (object_of id header body, r'))
      × (concat r' ≡ rest)
frame-read id header body rest r hi small e =
    let l : length (header ++ body) ≡ length header + length body = length-append header body in
    let front : List ℕ = serialize (head_of id (length header) (length (header ++ body))) in
    let e' : concat r ≡ front ++ ((header ++ body) ++ rest) =
      e
      ∙ ap (λ (f : List ℕ). f ++ rest) (frame_of-uncut id header body small)
      ∙ append_assoc front (header ++ body) rest in
    let fits : length (header ++ body) < 2 ^ 32 = omega (arith, l, small) in
    let short : length header < 2 ^ 32 = omega (arith, small) in
    let (r', q, k) =
      de_serialize_frame-serialize id (length header) (header ++ body) rest r hi fits short e' in
    (
      r',
      q
          ∙ ap
              (λ (n : ℕ).
                some (
                  record { fr_head = head_of id (length header) n; pay_load = header ++ body },
                  r',
                ))
              l,
      k,
    )

pub whole : (header body : List ℕ) → ltb (length (header ++ body)) (length header) ≡ false
whole header body = let l = length-append header body in ground (arith, l)

module _ {A : Type 0} (messages : Codec A) (requests : Codec RequestHeader)
    (responses : Codec ResponseHeader) where
  -- What the receiver of a request makes of it.
  abbrev pub received : Request A → A → Request A
  received req x = record {
    msg_id = req.msg_id;
    msg_type = 0;
    two_way = true;
    arg = some x;
    method_name = req.method_name;
    svc_name = req.svc_name;
    schema = req.schema;
    attachments = req.attachments;
  }

  object-request :
      (operations : String → String → String → Option (Operation A)) (req : Request A)
      (empty : Request A) (x target : A) (header body : List ℕ)
      → requests.marshal (request_header messages requests responses req) ≡ some header
      → messages.marshal x ≡ some body
      → empty.arg ≡ none
      → operations req.svc_name req.schema req.method_name ≡ some (takes target)
      → requests.Fits
          (empty_request_header messages requests responses)
          (request_header messages requests responses req)
      → messages.Fits target x
      → de_serialize_req messages requests responses operations
          (object_of req.msg_id header body)
          empty
        ≡ parsed (received req x)
  unfolding de_serialize_req
  object-request operations req empty x target header body h b n o f g =
      let u =
        requests.unmarshal-marshal (empty_request_header messages requests responses)
          (request_header messages requests responses req) header f h in
      let v = messages.unmarshal-marshal target x body g b in
      let arg' : empty.arg ≡ none = n in
      rw (whole header body, take-append header body, drop-append header body, u, arg', o, v) refl

  -- A frame whose head says that its header is longer than the whole frame makes the receiver panic,
  -- whether it is read as a request or as a response.
  pub de_serialize-panics :
      (operations : String → String → String → Option (Operation A)) (obj : ProtocolObject)
      (req : Request A) (rsp : Response A)
      → length obj.pay_load < obj.fr_head.header_len
      → (de_serialize_req messages requests responses operations obj req ≡ panics)
        × (de_serialize_rsp messages requests responses obj rsp ≡ panics)
  unfolding de_serialize_req de_serialize_rsp
  de_serialize-panics operations obj req rsp h =
      let l : ltb (length obj.pay_load) obj.fr_head.header_len ≡ true = ground (arith, h) in
      (rw l refl, rw l refl)

  -- A request that was sent is read by the server as it was, whatever parts its bytes arrive in, and what
  -- was sent after it is still to be read: when its identifier is a word of 64 bits, its header and its
  -- argument can be encoded and are together shorter than 2^32 bytes, the operation that the server
  -- finds takes an argument of that type, and the server does not yet know the argument.
  pub de_serialize_req-serialize_req :
      (operations : String → String → String → Option (Operation A)) (req empty : Request A)
      (x target : A) (header body sent rest : List ℕ) (r : Reader)
      → req.msg_id < 2 ^ 64
      → req.arg ≡ some x
      → empty.arg ≡ none
      → requests.marshal (request_header messages requests responses req) ≡ some header
      → messages.marshal x ≡ some body
      → length header + length body < 2 ^ 32
      → operations req.svc_name req.schema req.method_name ≡ some (takes target)
      → requests.Fits
          (empty_request_header messages requests responses)
          (request_header messages requests responses req)
      → messages.Fits target x
      → serialize_req messages requests responses req ≡ some sent
      → concat r ≡ sent ++ rest
      → (obj : ProtocolObject) × (r' : Reader) × (de_serialize_frame r ≡ some (obj, r'))
        × (de_serialize_req messages requests responses operations obj empty
            ≡ parsed (received req x))
        × (concat r' ≡ rest)
  unfolding serialize_req
  de_serialize_req-serialize_req operations req empty x target header body sent rest r hi a n h b
        small o f g s e =
      let written : serialize_req messages requests responses req
          ≡ some (frame_of req.msg_id header body) =
        rw (h, a, b) refl in
      let same : sent ≡ frame_of req.msg_id header body = cc in
      let (r', q, k) =
        frame-read req.msg_id header body rest r hi small
          (e ∙ ap (λ (l : List ℕ). l ++ rest) same) in
      (
        object_of req.msg_id header body,
        r',
        q,
        object-request operations req empty x target header body h b n o f g,
        k,
      )
