-- ===== src/Highway/Server.antt =====
-- The server of server/highway/highway_conn.go: the connections that are open, and the handling of a frame.
-- A connection is a number, its place in the list of those that were created, which stands for its pointer.
pub mod Connections
pub mod Replies
pub mod Exchange
use go_chassis.Prelude.{
  ℕ, ◌+◌, ◌-◌, ◌≡◌, String, List, [], ◌∷◌, Option, none, some, Bool, true, false, not, ◌&&◌, ℤ, pos,
  ◌+ℤ◌, negsuc, Dict, lookup, insert, remove, length, get_elem?, set, ◌++◌, value_or, if◌then◌else◌,
}
use go_chassis.Highway.Frames.{ProtocolObject}
use go_chassis.Highway.Messages.{
  Codec, RequestHeader, ResponseHeader, Request, Response, ok_status, server_error, Operation,
  Parsed, parsed, failed, panics, de_serialize_req, serialize_rsp,
}

-- `HighwayConnection`
pub record Connection : Type 0 where
  pub remote_addr : String
  pub closed : Bool

-- `ConnectionMgr`, with the connections that it created.
pub record ConnectionMgr : Type 0 where
  pub conns : Dict ℕ
  pub count : ℤ
  pub created : List Connection

abbrev pub new_connect_mgr : ConnectionMgr
new_connect_mgr = record { conns = []; count = pos 0; created = [] }

-- `createConn`
unfoldable pub create_conn : String → ConnectionMgr → ConnectionMgr
unfolding insert ◌+ℤ◌
create_conn addr mgr = record {
  conns = insert addr (length mgr.created) mgr.conns;
  count = mgr.count +ℤ pos 1;
  created = mgr.created ++ (record { remote_addr = addr; closed = false } ∷ []);
}

-- `deleteConn`
unfoldable pub delete_conn : String → ConnectionMgr → ConnectionMgr
unfolding remove ◌+ℤ◌
delete_conn addr mgr = record mgr { conns = remove addr mgr.conns; count = mgr.count +ℤ negsuc 0 }

-- `Close`
abbrev pub close_found : ℕ → Option Connection → ConnectionMgr → ConnectionMgr
unfolding delete_conn
close_found h none mgr = mgr
close_found h (some c) mgr = if c.closed then mgr else record (delete_conn c.remote_addr mgr) {
  created = set mgr.created h (record c { closed = true });
}

unfoldable pub close_conn : ℕ → ConnectionMgr → ConnectionMgr
unfolding close_found
close_conn h mgr = close_found h (get_elem? mgr.created h) mgr

-- `DeactiveAllConn`, over the entries of the map
unfoldable pub deactive_all : Dict ℕ → ConnectionMgr → ConnectionMgr
unfolding close_conn
deactive_all [] mgr = mgr
deactive_all ((addr, h) ∷ rest) mgr = deactive_all rest (close_conn h mgr)

-- What can happen to the connections: one comes, or one ends.
pub data Change : Type 0 where
  created_conn : String → Change
  closed_conn : ℕ → Change

unfoldable pub apply_changes : List Change → ConnectionMgr → ConnectionMgr
unfolding create_conn close_conn
apply_changes [] mgr = mgr
apply_changes (created_conn addr ∷ rest) mgr = apply_changes rest (create_conn addr mgr)
apply_changes (closed_conn h ∷ rest) mgr = apply_changes rest (close_conn h mgr)

-- The invocation that `handleFrame` makes of a request.
pub record Invocation (A : Type 0) : Type 0 where
  pub args : Option A
  pub micro_service_name : String
  pub schema_id : String
  pub operation_id : String
  pub headers : Dict String
  pub source_micro_service : String

-- What the chain and the provider do, which are found by name: the chain calls back with its error,
-- or without one, or not at all.
pub data ChainEnd : Type 0 where
  called_back : Option String → ChainEnd
  not_called : ChainEnd

pub data Invoked (A : Type 0) : Type 0 where
  result : A → Invoked A
  refused : String → Invoked A

pub record Service (A : Type 0) : Type 0 where
  pub operations : String → String → String → Option (Operation A)
  pub chain : Option (Invocation A → ChainEnd)
  pub provider : String → Option (Invocation A → Invoked A)

-- What handling a frame writes, and whether it goes on to panic.
pub record Handled : Type 0 where
  pub written : List ℕ
  pub is_panic : Bool

module _ {A : Type 0} (messages : Codec A) (requests : Codec RequestHeader)
    (responses : Codec ResponseHeader) where
  abbrev pub error_response : Request A → String → Response A
  error_response req e = record {
    msg_id = req.msg_id;
    status = server_error;
    err = e;
    msg_type = 0;
    result = none;
    attachments = [];
  }

  abbrev pub result_response : Request A → A → Response A
  result_response req x = record {
    msg_id = req.msg_id;
    status = ok_status;
    err = "";
    msg_type = 0;
    result = some x;
    attachments = [];
  }

  -- `writeError`, without the end of the connection when it cannot be written
  unfoldable pub write_error : Request A → String → List ℕ
  unfolding serialize_rsp
  write_error req e =
      if req.two_way
      then (serialize_rsp messages requests responses (error_response req e)).1
      else []

  abbrev pub write_result : Request A → A → List ℕ
  unfolding serialize_rsp
  write_result req x =
      if req.two_way
      then (serialize_rsp messages requests responses (result_response req x)).1
      else []

  abbrev pub invocation_of : Request A → Invocation A
  unfolding lookup
  invocation_of req = record {
    args = req.arg;
    micro_service_name = req.svc_name;
    schema_id = req.schema;
    operation_id = req.method_name;
    headers = req.attachments;
    source_micro_service = value_or (lookup "x-cse-src-microservice" req.attachments) "";
  }

  -- The function that the chain calls back.
  abbrev pub write_invoked : Request A → Invoked A → List ℕ
  unfolding write_error write_result
  write_invoked req (result x) = write_result req x
  write_invoked req (refused e) = write_error req e

  abbrev pub invoke_provider : Request A → Option (Invocation A → Invoked A) → List ℕ
  unfolding write_invoked write_error
  invoke_provider req none = write_error req "provider"
  invoke_provider req (some invoke) = write_invoked req (invoke (invocation_of req))

  unfoldable pub call_back : Service A → Request A → ChainEnd → List ℕ
  unfolding invoke_provider write_error
  call_back service req not_called = []
  call_back service req (called_back (some e)) = write_error req e
  call_back service req (called_back none) = invoke_provider req (service.provider req.svc_name)

  -- `handleFrame`
  abbrev pub run_chain : Service A → Request A → Option (Invocation A → ChainEnd) → Handled
  unfolding call_back write_error
  run_chain service req none = record { written = write_error req "chain"; is_panic = true }
  run_chain service req (some chain) = record {
    written = call_back service req (chain (invocation_of req));
    is_panic = false;
  }

  abbrev pub handle_read : Service A → Parsed (Request A) → Handled
  unfolding run_chain write_error
  handle_read service (parsed req) = run_chain service req service.chain
  handle_read service (failed req) = record {
    written = write_error req "request";
    is_panic = false;
  }
  handle_read service panics = record { written = []; is_panic = true }

  abbrev pub empty_request : Request A
  empty_request = record {
    msg_id = 0;
    msg_type = 0;
    two_way = false;
    arg = none;
    method_name = "";
    svc_name = "";
    schema = "";
    attachments = [];
  }

  unfoldable pub handle_frame : Service A → ProtocolObject → Handled
  unfolding handle_read de_serialize_req
  handle_frame service obj =
      handle_read service
        (de_serialize_req messages requests responses service.operations obj empty_request)
