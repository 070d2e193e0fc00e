-- ===== src/Highway/Receiving.antt =====
-- The loops that read a connection of Highway, client/highway/client_conn.go and
-- server/highway/highway_conn.go, with the handshakes before them. The handshake reads with a buffer of its
-- own: its reader and that of the loop are two readers, and what the first buffered beyond its frame is in
-- neither. Between two frames of a loop nothing else happens to the client or to the connections of the server.
pub mod Streams
pub mod Greetings
use go_chassis.Prelude.{
  ℕ, zero, suc, ◌-◌, List, [], ◌∷◌, ◌++◌, Option, none, some, String, Bool, true, false, pos, eqb_ℤ,
  length, take, concat, value_or, if◌then◌else◌,
}
use go_chassis.Highway.Frames.{
  frame_head_len, FrameHead, deserialize, Reader, read_full, ProtocolObject, de_serialize_frame,
}
use go_chassis.Highway.Messages.{
  Codec, RequestHeader, ResponseHeader, Login, Request, Response, ok_status, Parsed, parsed, failed,
  panics, Operation, de_serialize_req, de_serialize_rsp, serialize_hello_req, serialize_login_rap,
}
use go_chassis.Highway.Client.{BaseClient, process_msg}
use go_chassis.Highway.Pool.{close_socket}
use go_chassis.Highway.Server.{ConnectionMgr, close_conn, Service, handle_frame}

-- What `DeSerializeFrame` leaves in a new object, also where it returns an error.
abbrev pub head_of_magic : List ℕ → FrameHead
head_of_magic magic = record { magic = magic; msg_id = 0; total_len = 0; header_len = 0 }

abbrev pub zeros : ℕ → List ℕ
zeros zero = []
zeros (suc n) = 0 ∷ zeros n

abbrev pub left_by_load : FrameHead → Reader → Option (List ℕ × Reader) → ProtocolObject
left_by_load head r none = record {
  fr_head = head;
  pay_load = concat r ++ zeros (head.total_len - length (concat r));
}
left_by_load head r (some (load, rest)) = record { fr_head = head; pay_load = load }

abbrev pub left_by_head : List ℕ → Reader → Option FrameHead → ProtocolObject
unfolding read_full
left_by_head buf r none = record { fr_head = head_of_magic (take 7 buf); pay_load = [] }
left_by_head buf r (some head) = left_by_load head r (read_full head.total_len r)

abbrev pub left_by_frame : Option (List ℕ × Reader) → ProtocolObject
unfolding deserialize left_by_head
left_by_frame none = record { fr_head = head_of_magic []; pay_load = [] }
left_by_frame (some (buf, r)) = left_by_head buf r (deserialize buf)

unfoldable pub object_left : Reader → ProtocolObject
unfolding read_full left_by_frame
object_left r = left_by_frame (read_full frame_head_len r)

-- How a handshake ends: what it wrote, where it returns no error.
pub data Greeting : Type 0 where
  accepted : List ℕ → Greeting
  rejected : Greeting
  crashed : Greeting

-- How a loop ends; on too little fuel it is unfinished.
pub data LoopEnd (S : Type 0) : Type 0 where
  unfinished : LoopEnd S
  panicked : LoopEnd S
  ended : S → LoopEnd S

-- What the loop of the server did: the bytes of its handshake, the frames that it started to handle, in
-- this order, and the connections at its end.
pub record Served : Type 0 where
  pub written : List ℕ
  pub handled : List ProtocolObject
  pub mgr : ConnectionMgr

abbrev pub no_login : Login
no_login = record { protocol = ""; zip_name = ""; use_protobuf_map_codec = false }

module _ (logins : Codec Login) (requests : Codec RequestHeader)
    (responses : Codec ResponseHeader) where
  abbrev pub login_request : Request Login
  login_request = record {
    msg_id = 0;
    msg_type = 0;
    two_way = false;
    arg = some no_login;
    method_name = "";
    svc_name = "";
    schema = "";
    attachments = [];
  }

  abbrev pub login_response : Response Login
  login_response = record {
    msg_id = 0;
    status = pos 0;
    err = "";
    msg_type = 0;
    result = some no_login;
    attachments = [];
  }

  abbrev pub no_operation : String → String → String → Option (Operation Login)
  no_operation service schema operation = none

  -- `Hello` of the server; `flushes` says that the answer can be written.
  abbrev pub answer_login : Bool → ℕ → Option Login → Greeting
  unfolding serialize_login_rap
  answer_login flushes msg_id none = accepted []
  answer_login flushes msg_id (some login) =
      let answer = accepted (value_or (serialize_login_rap responses logins msg_id) []) in
      if login.use_protobuf_map_codec then (if flushes then answer else rejected) else accepted []

  abbrev pub login_read : Bool → Parsed (Request Login) → Greeting
  unfolding answer_login
  login_read flushes (parsed req) = answer_login flushes req.msg_id req.arg
  login_read flushes (failed req) = rejected
  login_read flushes panics = crashed

  unfoldable pub hello_server : Bool → Reader → Greeting
  unfolding object_left de_serialize_req login_read
  hello_server flushes r =
      login_read flushes
        (de_serialize_req logins requests responses no_operation (object_left r) login_request)

  -- `Hello` of the client; an error of the answer counts only where its status is not 200.
  abbrev pub login_answered : List ℕ → Parsed (Response Login) → Greeting
  login_answered written (parsed rsp) = accepted written
  login_answered written (failed rsp) =
      if eqb_ℤ rsp.status ok_status then accepted written else rejected
  login_answered written panics = crashed

  unfoldable pub hello_client : Bool → ℕ → Reader → Greeting
  unfolding object_left de_serialize_rsp serialize_hello_req
  hello_client flushes cur r =
      let written = value_or (serialize_hello_req requests logins cur) [] in
      let answer = de_serialize_rsp logins requests responses (object_left r) login_response in
      if flushes then login_answered written answer else rejected

module _ {A : Type 0} (messages : Codec A) (logins : Codec Login) (requests : Codec RequestHeader)
    (responses : Codec ResponseHeader) (service : Service A) where
  -- `go svrConn.handleFrame(protoObj)`: a frame whose handling panics ends the process, which the model does at once.
  abbrev pub started : Bool → ProtocolObject → LoopEnd Served → LoopEnd Served
  started true obj rest = panicked
  started false obj unfinished = unfinished
  started false obj panicked = panicked
  started false obj (ended s) = ended (record s { handled = obj ∷ s.handled })

  -- `msgRecvLoop` of the server
  unfoldable pub recv_frames : ℕ → List ℕ → Reader → ℕ → ConnectionMgr → LoopEnd Served
  unfolding de_serialize_frame close_conn handle_frame
  recv_frames zero written r h mgr = unfinished
  recv_frames (suc n) written r h mgr = elim (de_serialize_frame r) [
    | none ↦ ended (record { written = written; handled = []; mgr = close_conn h mgr })
    | some (obj, r') ↦
        started (handle_frame messages requests responses service obj).is_panic obj
          (recv_frames n written r' h mgr)
  ]

  abbrev pub after_greeting : Greeting → ℕ → Reader → ℕ → ConnectionMgr → LoopEnd Served
  unfolding recv_frames close_conn
  after_greeting (accepted written) n r h mgr = recv_frames n written r h mgr
  after_greeting rejected n r h mgr =
      ended (record { written = []; handled = []; mgr = close_conn h mgr })
  after_greeting crashed n r h mgr = panicked

  unfoldable pub server_recv_loop : Bool → ℕ → Reader → Reader → ℕ → ConnectionMgr → LoopEnd Served
  unfolding hello_server after_greeting
  server_recv_loop flushes n first r h mgr =
      after_greeting (hello_server logins requests responses flushes first) n r h mgr

module _ {A : Type 0} (messages : Codec A) (requests : Codec RequestHeader)
    (responses : Codec ResponseHeader) where
  -- `msgRecvLoop` of the client, for the connection with a number; it gives the client and the sockets
  -- that are open.
  unfoldable pub client_recv_loop :
      ℕ → Reader → ℕ → List ℕ → BaseClient A → LoopEnd (BaseClient A × List ℕ)
  unfolding de_serialize_frame process_msg close_socket
  client_recv_loop zero r conn sockets st = unfinished
  client_recv_loop (suc n) r conn sockets st = elim (de_serialize_frame r) [
    | none ↦ ended (st, close_socket conn sockets)
    | some (obj, r') ↦ elim (process_msg messages requests responses obj st) [
      | none ↦ panicked
      | some st' ↦ client_recv_loop n r' conn sockets st'
    ]
  ]

  -- The frames of a list, processed one after the other.
  unfoldable pub process_all : List ProtocolObject → BaseClient A → Option (BaseClient A)
  unfolding process_msg
  process_all [] st = some st
  process_all (obj ∷ objs) st = elim (process_msg messages requests responses obj st) [
    | none ↦ none
    | some st' ↦ process_all objs st'
  ]
