-- ===== src/Tests/Receiving.antt =====
-- The theorems on the loops that receive over Highway and on the handshakes, at concrete inputs.
use go_chassis.Prelude.{
  ◌⊎◌, ◌≡◌, refl, arith, inl, ℕ, List, [], ◌∷◌, ◌++◌, none, some, true, false, eqb, if◌then◌else◌,
  pos,
}
use go_chassis.Highway.Frames.{magic_id, Reader, ProtocolObject}
use go_chassis.Highway.Messages.{Codec, Login, Response, frame_of, serialize_hello_req}
use go_chassis.Highway.Client.{Call, BaseClient, change}
use go_chassis.Highway.Pool.{close_socket}
use go_chassis.Highway.Server.{Connection, ConnectionMgr, handle_frame}
use go_chassis.Highway.Receiving.{
  accepted, crashed, no_login, hello_server, hello_client, ended, Served, panicked,
  server_recv_loop, client_recv_loop, process_all,
}
use go_chassis.Highway.Receiving.Streams.{
  IsClosed, Delivers, Sent, server_recv_loop-ends, client_recv_loop-process_all,
}
use go_chassis.Highway.Receiving.Greetings.{hello-Foreign}
use go_chassis.Tests.Frames.{calc, bytes, only, asks, answers, waiting_call}

abbrev logins : Codec Login
logins = only Login no_login

abbrev http : Reader
http = (0x47 ∷ 0x45 ∷ 0x54 ∷ []) ∷ (0x20 ∷ 0x2f ∷ []) ∷ []

hello-Foreign_example :
    (hello_server logins asks answers true http ≡ accepted [])
    × (hello_client logins asks answers true 0 http
        ≡ accepted (
            magic_id
            ++ (0 ∷ 0 ∷ 0 ∷ 0 ∷ 0 ∷ 0 ∷ 0 ∷ 1 ∷ 0 ∷ 0 ∷ 0 ∷ 4 ∷ 0 ∷ 0 ∷ 0 ∷ 2 ∷ 1 ∷ 2 ∷ 1 ∷ 2
                ∷ [])))
unfolding serialize_hello_req
hello-Foreign_example =
    hello-Foreign logins asks answers true 0 http _ _ refl refl refl (inl (omega arith))

abbrev frames : List Sent
frames =
    record { id = 5; header = 1 ∷ 2 ∷ []; body = 8 ∷ [] }
    ∷ record { id = 6; header = 1 ∷ 2 ∷ []; body = [] }
    ∷ []

-- The two frames and three bytes more.
abbrev parts : Reader
parts =
    (magic_id ++ (0 ∷ 0 ∷ 0 ∷ 0 ∷ 0 ∷ 0 ∷ 0 ∷ 5 ∷ 0 ∷ []))
    ∷ (0 ∷ 0 ∷ 3 ∷ 0 ∷ 0 ∷ 0 ∷ 2 ∷ 1 ∷ 2 ∷ 8 ∷ magic_id)
    ∷ (0 ∷ 0 ∷ 0 ∷ 0 ∷ 0 ∷ 0 ∷ 0 ∷ 6 ∷ 0 ∷ 0 ∷ 0 ∷ 2 ∷ 0 ∷ 0 ∷ 0 ∷ 2 ∷ 1 ∷ 2 ∷ 0x43 ∷ 0x53 ∷ [])
    ∷ (0x45 ∷ [])
    ∷ []

abbrev eight : Response ℕ
eight = record {
  msg_id = 5;
  status = pos 200;
  err = "";
  msg_type = 0;
  result = some 8;
  attachments = [];
}

abbrev with_calls : Call ℕ → BaseClient ℕ
with_calls call = record {
  closed = false;
  msg_wait_rsp_map = (5, 0) ∷ [];
  calls = λ h. if eqb 0 h then some call else none;
  next = 1;
  sends = (5, 0) ∷ [];
}

abbrev answered_client : BaseClient ℕ
unfolding change
answered_client = record (with_calls waiting_call) {
  calls =
      change 0 (λ (old : Call ℕ). record old { rsp = eight; is_done = true })
        (with_calls waiting_call).calls;
}

client_recv_loop-process_all_example :
    client_recv_loop bytes asks answers 3 parts 4 (4 ∷ 7 ∷ []) (with_calls waiting_call)
    ≡ ended (answered_client, 7 ∷ [])
unfolding process_all close_socket frame_of answered_client
client_recv_loop-process_all_example =
    client_recv_loop-process_all bytes asks answers 3 frames (0x43 ∷ 0x53 ∷ 0x45 ∷ []) parts 4
      (4 ∷ 7 ∷ []) (with_calls waiting_call) answered_client
      ((omega arith, omega arith), ((omega arith, omega arith), tt)) refl (omega arith) refl
      (omega arith)

abbrev one_conn : ConnectionMgr
one_conn = record {
  conns = ("10.0.0.9:4711", 0) ∷ [];
  count = pos 1;
  created = record { remote_addr = "10.0.0.9:4711"; closed = false } ∷ [];
}

abbrev peer : Connection
peer = record { remote_addr = "10.0.0.9:4711"; closed = false }

server_recv_loop-ends_example :
    let end = server_recv_loop bytes logins asks answers calc true 60 http parts 0 one_conn in
    ((s : Served) × (end ≡ ended s) × IsClosed 0 peer one_conn s.mgr)
    ⊎ ((end ≡ panicked)
        × ((hello_server logins asks answers true http ≡ crashed)
            ⊎ ((obj : ProtocolObject) × Delivers parts obj
                × ((handle_frame bytes asks answers calc obj).is_panic ≡ true))))
server_recv_loop-ends_example =
    server_recv_loop-ends bytes logins asks answers calc 0 peer one_conn true 60 http parts refl
      refl (omega arith)
