-- ===== src/Highway/Messages.antt =====
-- The messages of client/highway/highway_msgobj.go in frames. The encoding of protocol buffers is an
-- interface: it writes a message, and reads one into a message of a type, with the promise that
-- what was written is read back into a message of its type. The texts of the errors are shortened.
pub mod RoundTrip
pub mod Answers
use go_chassis.Prelude.{
  ℕ, ◌+◌, ◌-◌, ◌%◌, ◌^◌, ◌≡◌, String, List, [], ◌∷◌, ◌++◌, Option, none, some, Bool, true, false,
  ltb, eqb, ℤ, pos, negsuc, Dict, length, take, drop, if◌then◌else◌,
}
use go_chassis.Highway.Frames.{FrameHead, new_head_frame, serialize, ProtocolObject}

pub record Codec (A : Type 0) : Type 1 where
  pub marshal : A → Option (List ℕ)
  pub unmarshal : A → List ℕ → Option A
  pub Fits : A → A → Type 0
  pub unmarshal-marshal :
      (target x : A) (bs : List ℕ)
      → Fits target x
      → marshal x ≡ some bs
      → unmarshal target bs ≡ some x

-- `RequestHeader`, `ResponseHeader`, `LoginRequest` and `LoginResponse` of the protocol.
pub record RequestHeader : Type 0 where
  pub msg_type : ℕ
  pub flags : ℕ
  pub dest_micro_service : String
  pub operation_name : String
  pub schema_id : String
  pub context : Dict String

pub record ResponseHeader : Type 0 where
  pub flags : ℕ
  pub status_code : ℤ
  pub reason : String
  pub context : Dict String

pub record Login : Type 0 where
  pub protocol : String
  pub zip_name : String
  pub use_protobuf_map_codec : Bool

-- `Request`, `Response`
pub record Request (A : Type 0) : Type 0 where
  pub msg_id : ℕ
  pub msg_type : ℕ
  pub two_way : Bool
  pub arg : Option A
  pub method_name : String
  pub svc_name : String
  pub schema : String
  pub attachments : Dict String

pub record Response (A : Type 0) : Type 0 where
  pub msg_id : ℕ
  pub status : ℤ
  pub err : String
  pub msg_type : ℕ
  pub result : Option A
  pub attachments : Dict String

abbrev pub msg_type_request : ℕ
msg_type_request = 0

abbrev pub msg_type_login : ℕ
msg_type_login = 1

abbrev pub ok_status : ℤ
ok_status = pos 200

abbrev pub server_error : ℤ
server_error = pos 505

-- `GenerateMsgID`: the counter, which is the identifier.
unfoldable pub generate_msg_id : ℕ → ℕ
generate_msg_id cur = (cur + 1) % 2 ^ 64

-- `int32(n)`
abbrev pub signed32 : ℕ → ℤ
signed32 w = if ltb w (2 ^ 31) then pos w else negsuc (2 ^ 32 - w - 1)

unfoldable pub int32 : ℤ → ℤ
int32 (pos n) = signed32 (n % 2 ^ 32)
int32 (negsuc n) = signed32 (2 ^ 32 - 1 - n % 2 ^ 32)

-- A frame with a header and a body, whose lengths are cut to 32 bits.
unfoldable pub frame_of : ℕ → List ℕ → List ℕ → List ℕ
unfolding serialize
frame_of msg_id header body =
    let header_len = length header % 2 ^ 32 in
    let total_len = (header_len + length body % 2 ^ 32) % 2 ^ 32 in
    serialize (record (new_head_frame msg_id) { header_len = header_len; total_len = total_len })
    ++ (header ++ body)

-- The bytes of a header and a body that may fail to be encoded; then nothing is written.
abbrev pub with_body : ℕ → List ℕ → Option (List ℕ) → List ℕ
with_body msg_id header none = []
with_body msg_id header (some body) = frame_of msg_id header body

-- The result of reading a message, with what was written to it before an error; the code panics
-- where a slice or a type assertion is out of range.
pub data Parsed (A : Type 0) : Type 0 where
  parsed : A → Parsed A
  failed : A → Parsed A
  panics : Parsed A

-- What `provider.GetOperation` finds: an operation with a message for its second argument, one
-- without arguments, or one whose argument is no pointer.
pub data Operation (A : Type 0) : Type 0 where
  takes : A → Operation A
  no_args : Operation A
  not_pointer : Operation A

module _ {A : Type 0} (messages : Codec A) (requests : Codec RequestHeader)
    (responses : Codec ResponseHeader) where
  abbrev pub request_header : Request A → RequestHeader
  request_header req = record {
    msg_type = msg_type_request;
    flags = 0;
    dest_micro_service = req.svc_name;
    operation_name = req.method_name;
    schema_id = req.schema;
    context = req.attachments;
  }

  -- `SerializeReq`: what is written; `none` where a missing argument makes the code panic.
  abbrev pub with_arg : ℕ → Option (List ℕ) → Option A → Option (List ℕ)
  with_arg msg_id none arg = some []
  with_arg msg_id (some header) none = none
  with_arg msg_id (some header) (some x) = some (with_body msg_id header (messages.marshal x))

  unfoldable pub serialize_req : Request A → Option (List ℕ)
  unfolding frame_of
  serialize_req req = with_arg req.msg_id (requests.marshal (request_header req)) req.arg

  -- `SerializeRsp`: what is written. The attachments are not part of the header; those of the
  -- response are lost.
  abbrev pub response_header : Response A → ResponseHeader
  response_header rsp = record {
    flags = 0;
    status_code = int32 rsp.status;
    reason = rsp.err;
    context = [];
  }

  abbrev pub with_result : ℕ → Option (List ℕ) → Option A → List ℕ
  with_result msg_id none result = []
  with_result msg_id (some header) none = frame_of msg_id header []
  with_result msg_id (some header) (some x) = with_body msg_id header (messages.marshal x)

  unfoldable pub serialize_rsp : Response A → Response A × List ℕ
  unfolding frame_of int32
  serialize_rsp rsp = (
    record rsp { attachments = [] },
    with_result rsp.msg_id (responses.marshal (response_header rsp)) rsp.result,
  )

  abbrev pub empty_request_header : RequestHeader
  empty_request_header = record {
    msg_type = 0;
    flags = 0;
    dest_micro_service = "";
    operation_name = "";
    schema_id = "";
    context = [];
  }

  abbrev pub empty_response_header : ResponseHeader
  empty_response_header = record { flags = 0; status_code = pos 0; reason = ""; context = [] }

  -- `DeSerializeRsp`, into a response that has a message of the type of the result.
  abbrev pub with_result_read : Response A → Option A → Parsed (Response A)
  with_result_read rsp (some x) = parsed (record rsp { result = some x })
  with_result_read rsp none = failed (record rsp { err = "unmarshal" })

  abbrev pub into_result : Option A → List ℕ → Response A → Parsed (Response A)
  into_result none body rsp = panics
  into_result (some target) body rsp = with_result_read rsp (messages.unmarshal target body)

  abbrev pub with_rsp_header :
      Option ResponseHeader → ProtocolObject → Response A → Parsed (Response A)
  with_rsp_header none obj rsp = failed rsp
  with_rsp_header (some header) obj rsp =
      let rsp' : Response A = record rsp {
        status = header.status_code;
        err = header.reason;
        attachments = header.context;
      } in
      let read = into_result rsp.result (drop obj.fr_head.header_len obj.pay_load) rsp' in
      if eqb obj.fr_head.header_len obj.fr_head.total_len then parsed rsp' else read

  unfoldable pub de_serialize_rsp : ProtocolObject → Response A → Parsed (Response A)
  de_serialize_rsp obj rsp =
      let header =
        responses.unmarshal empty_response_header (take obj.fr_head.header_len obj.pay_load) in
      if ltb (length obj.pay_load) obj.fr_head.header_len
      then panics
      else with_rsp_header header obj (record rsp { msg_id = obj.fr_head.msg_id })

  -- `DeSerializeReq`
  abbrev pub with_arg_read : A → Request A → Option A → Parsed (Request A)
  with_arg_read target req (some x) = parsed (record req { arg = some x })
  with_arg_read target req none = failed (record req { arg = some target })

  abbrev pub into_arg : A → List ℕ → Request A → Parsed (Request A)
  into_arg target body req = with_arg_read target req (messages.unmarshal target body)

  abbrev pub into_operation : Option (Operation A) → List ℕ → Request A → Parsed (Request A)
  into_operation none body req = failed req
  into_operation (some (takes target)) body req = into_arg target body req
  into_operation (some no_args) body req = parsed req
  into_operation (some not_pointer) body req = failed req

  abbrev pub filled : RequestHeader → Request A → Request A
  filled header req = record req {
    method_name = header.operation_name;
    svc_name = header.dest_micro_service;
    schema = header.schema_id;
    attachments = header.context;
    msg_type = header.msg_type;
    two_way = true;
  }

  abbrev pub with_req_header :
      (String → String → String → Option (Operation A))
      → Option RequestHeader
      → Option A
      → List ℕ
      → Request A
      → Parsed (Request A)
  with_req_header operations none arg body req = failed req
  with_req_header operations (some header) (some target) body req = into_arg target body req
  with_req_header operations (some header) none body req =
      into_operation (operations header.dest_micro_service header.schema_id header.operation_name)
        body (filled header req)

  unfoldable pub de_serialize_req :
      (String → String → String → Option (Operation A))
      → ProtocolObject
      → Request A
      → Parsed (Request A)
  de_serialize_req operations obj req =
      let header =
        requests.unmarshal empty_request_header (take obj.fr_head.header_len obj.pay_load) in
      let body = drop obj.fr_head.header_len obj.pay_load in
      if ltb (length obj.pay_load) obj.fr_head.header_len
      then panics
      else with_req_header operations header req.arg body
          (record req { msg_id = obj.fr_head.msg_id })

-- `SerializeHelloReq` and `SerializeLoginRap`: what is written, where it can be encoded.
abbrev pub login_of : ℕ → Option (List ℕ) → Option (List ℕ) → Option (List ℕ)
login_of msg_id none body = none
login_of msg_id (some header) none = none
login_of msg_id (some header) (some body) = some (frame_of msg_id header body)

abbrev pub login : Login
login = record { protocol = "highway"; zip_name = "z"; use_protobuf_map_codec = true }

unfoldable pub serialize_hello_req : Codec RequestHeader → Codec Login → ℕ → Option (List ℕ)
unfolding generate_msg_id frame_of
serialize_hello_req requests logins cur =
    login_of (generate_msg_id cur)
      (requests.marshal (record {
        msg_type = msg_type_login;
        flags = 0;
        dest_micro_service = "";
        operation_name = "";
        schema_id = "";
        context = [];
      }))
      (logins.marshal login)

unfoldable pub serialize_login_rap : Codec ResponseHeader → Codec Login → ℕ → Option (List ℕ)
unfolding frame_of
serialize_login_rap responses logins msg_id =
    login_of msg_id
      (responses.marshal (record { flags = 0; status_code = ok_status; reason = ""; context = [] }))
      (logins.marshal login)
