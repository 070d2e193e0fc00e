-- ===== src/Highway/Client.antt =====
-- The calls that wait for an answer, of client/highway/highway_base_client.go and client_conn.go: the map
-- from identifiers to calls, what a call does with it, and what an arriving frame does. A call is a number
-- under which its state is found, which stands for its pointer, since the response is shared by the
-- caller, the map and the loop that reads the connection. Texts are shortened.
pub mod Calls
pub mod Reached
pub mod Closing
use go_chassis.Prelude.{
  ℕ, ◌+◌, ◌≡◌, String, List, [], ◌∷◌, Option, none, some, Bool, true, false, not, ◌&&◌, eqb, ℤ,
  eqb_ℤ, keep, Any, if◌then◌else◌,
}
use go_chassis.Highway.Frames.{ProtocolObject}
use go_chassis.Highway.Messages.{
  Codec, RequestHeader, ResponseHeader, Request, Response, ok_status, Parsed, parsed, failed,
  panics, de_serialize_rsp,
}

-- `InvocationContext`; `is_done` says that its channel is closed.
pub record Call (A : Type 0) : Type 0 where
  pub req : Request A
  pub rsp : Response A
  pub is_done : Bool

-- The part of `BaseClient` that the calls share. The calls that were begun and have not returned are
-- listed in `sends`, which the code keeps in its goroutines.
pub record BaseClient (A : Type 0) : Type 0 where
  pub closed : Bool
  pub msg_wait_rsp_map : List (ℕ × ℕ)
  pub calls : ℕ → Option (Call A)
  pub next : ℕ
  pub sends : List (ℕ × ℕ)

unfoldable pub find : ℕ → List (ℕ × ℕ) → Option ℕ
find id [] = none
find id ((k, h) ∷ rest) = if eqb id k then some h else find id rest

abbrev pub other_id : ℕ → ℕ × ℕ → Bool
other_id id (k, h) = not (eqb id k)

unfoldable pub without : ℕ → List (ℕ × ℕ) → List (ℕ × ℕ)
unfolding keep
without id waits = keep (other_id id) waits

abbrev pub other_send : ℕ → ℕ → ℕ × ℕ → Bool
other_send id h (k, g) = not (eqb id k && eqb h g)

unfoldable pub returned : ℕ → ℕ → List (ℕ × ℕ) → List (ℕ × ℕ)
unfolding keep
returned id h sends = keep (other_send id h) sends

module _ {A : Type 0} where
  -- `Done`
  abbrev pub done_call : Call A → Call A
  done_call c = record c { is_done = true }

  abbrev pub with_call : (Call A → Call A) → Option (Call A) → Option (Call A)
  with_call f none = none
  with_call f (some c) = some (f c)

  unfoldable pub change : ℕ → (Call A → Call A) → (ℕ → Option (Call A)) → ℕ → Option (Call A)
  change h f calls g = if eqb h g then with_call f (calls g) else calls g

  abbrev pub done_all : List (ℕ × ℕ) → (ℕ → Option (Call A)) → ℕ → Option (Call A)
  unfolding change
  done_all [] calls = calls
  done_all ((id, h) ∷ waits) calls = done_all waits (change h done_call calls)

  -- `AddWaitMsg`, `RemoveWaitMsg`, `GetWaitMsg`
  abbrev pub add_wait_msg : ℕ → ℕ → BaseClient A → BaseClient A
  unfolding without
  add_wait_msg id h st = record st { msg_wait_rsp_map = (id, h) ∷ without id st.msg_wait_rsp_map }

  abbrev pub remove_wait_msg : ℕ → BaseClient A → BaseClient A
  unfolding without
  remove_wait_msg id st = record st { msg_wait_rsp_map = without id st.msg_wait_rsp_map }

  abbrev pub get_wait_msg : ℕ → BaseClient A → Option ℕ
  unfolding find
  get_wait_msg id st = find id st.msg_wait_rsp_map

  -- `Send`, for a request in two ways, until it waits; the number is the one of the call.
  unfoldable pub begin_send : Request A → Response A → BaseClient A → ℕ × BaseClient A
  unfolding add_wait_msg change
  begin_send req rsp st =
      let call : Call A = record { req = req; rsp = rsp; is_done = false } in
      let added : ℕ → Option (Call A) = λ g. if eqb st.next g then some call else st.calls g in
      (
        st.next,
        record (add_wait_msg req.msg_id st.next st) {
          calls = added;
          next = st.next + 1;
          sends = (req.msg_id, st.next) ∷ st.sends;
        },
      )

-- How a call goes on: the request cannot be written, the channel of the call is closed, or the
-- time is over.
pub data Outcome : Type 0 where
  not_written : String → Outcome
  woken : Outcome
  late : Outcome

module _ {A : Type 0} where
  abbrev pub fail_call : String → Call A → Call A
  fail_call e c = record c { rsp = record c.rsp { err = e }; is_done = true }

  -- The state of the call at its end, with the rest of `AsyncSendMsg`.
  abbrev pub end_call : Outcome → Call A → Call A
  end_call (not_written e) c = fail_call e c
  end_call woken c = c
  end_call late c = fail_call "Client send timeout" c

  abbrev pub answer_of : Option (Call A) → Option String
  answer_of none = none
  answer_of (some c) = if eqb_ℤ c.rsp.status ok_status then none else some c.rsp.err

  abbrev pub error_of : Outcome → Option (Call A) → Option String
  error_of (not_written e) call = some e
  error_of woken call = answer_of call
  error_of late call = some "client send timeout"

  -- `Send` from there: it returns its error, or nothing.
  unfoldable pub end_send : Outcome → ℕ → ℕ → BaseClient A → Option String × BaseClient A
  unfolding change remove_wait_msg returned
  end_send outcome id h st = (
    error_of outcome (st.calls h),
    record (remove_wait_msg id st) {
      calls = change h (end_call outcome) st.calls;
      sends = returned id h st.sends;
    },
  )

  -- `close`, without the connections
  unfoldable pub close : BaseClient A → BaseClient A
  unfolding done_all
  close st = if st.closed then st else record st {
    calls = done_all st.msg_wait_rsp_map st.calls;
    msg_wait_rsp_map = [];
    closed = true;
  }

module _ {A : Type 0} (messages : Codec A) (requests : Codec RequestHeader)
    (responses : Codec ResponseHeader) where
  -- `processMsg`; it ignores an error of the response, and `none` says that it panics.
  unfoldable pub settled : ℕ → Call A → Parsed (Response A) → BaseClient A → Option (BaseClient A)
  unfolding change
  settled h c (parsed rsp) st = some (record st {
    calls = change h (λ (old : Call A). record old { rsp = rsp; is_done = true }) st.calls;
  })
  settled h c (failed rsp) st = some (record st {
    calls = change h (λ (old : Call A). record old { rsp = rsp; is_done = true }) st.calls;
  })
  settled h c panics st = none

  unfoldable pub settle :
      ProtocolObject → ℕ → Option (Call A) → BaseClient A → Option (BaseClient A)
  unfolding de_serialize_rsp settled
  settle obj h none st = some st
  settle obj h (some c) st = settled h c (de_serialize_rsp messages requests responses obj c.rsp) st

  unfoldable pub process_found : ProtocolObject → Option ℕ → BaseClient A → Option (BaseClient A)
  unfolding settle
  process_found obj none st = some st
  process_found obj (some h) st = settle obj h (st.calls h) st

  unfoldable pub process_msg : ProtocolObject → BaseClient A → Option (BaseClient A)
  unfolding get_wait_msg process_found
  process_msg obj st = process_found obj (get_wait_msg obj.fr_head.msg_id st) st

  -- What can happen to a client that is open, one step at a time.
  pub data Step : BaseClient A → BaseClient A → Type 0 where
    begins :
        (req : Request A) (rsp : Response A) (st : BaseClient A)
        → rsp.msg_id ≡ 0
        → Step st (begin_send req rsp st).1
    ends :
        (outcome : Outcome) (id h : ℕ) (st : BaseClient A)
        → Any (λ (s : ℕ × ℕ). s ≡ (id, h)) st.sends
        → Step st (end_send outcome id h st).1
    arrives :
        (obj : ProtocolObject) (st st' : BaseClient A) → process_msg obj st ≡ some st' → Step st st'
    closes : (st : BaseClient A) → Step st (close st)

  pub data Reachable : BaseClient A → Type 0 where
    opened :
        Reachable (record {
          closed = false;
          msg_wait_rsp_map = [];
          calls = λ h. none;
          next = 0;
          sends = [];
        })
    steps : {st st' : BaseClient A} → Reachable st → Step st st' → Reachable st'
