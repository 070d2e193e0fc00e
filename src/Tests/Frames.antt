-- ===== src/Tests/Frames.antt =====
-- The theorems on the protocol Highway at concrete inputs. The codecs are small: a message is a byte, and
-- a header is written in two bytes that stand for it.
use go_chassis.Prelude.{
  ap, sym, drop, ltb, ◌∙◌, ◌&&◌, Bool-cases, append_nil, ℕ, ◌^◌, ◌<◌, ◌≡◌, refl, ◌⊎◌, inl, inr,
  arith, List, [], ◌∷◌, ◌++◌, Option, none, some, Bool, true, false, pos, length, concat, All,
}
use go_chassis.Highway.Frames.{magic_id, Reader, ProtocolObject, de_serialize_frame}
use go_chassis.Highway.Frames.Bounds.{de_serialize_frame-bounds}
use go_chassis.Highway.Messages.{
  Codec, RequestHeader, ResponseHeader, Request, Response, ok_status, Parsed, panics, parsed,
  Operation, takes, serialize_req, de_serialize_req, de_serialize_rsp,
}
use go_chassis.Highway.Messages.RoundTrip.{received, de_serialize_req-serialize_req}
use go_chassis.Highway.Client.{
  Call, BaseClient, begin_send, end_send, close, woken, late, process_msg, Reachable, opened, steps,
  Step, begins, ends, closes,
}
use go_chassis.Highway.Client.Reached.{Reachable-Own, Reachable-empty}
use go_chassis.Highway.Client.Closing.{end_send-close, Done}
use go_chassis.Highway.Server.{Service, called_back, result, refused, handle_frame}
use go_chassis.Highway.Server.Exchange.{call-answered, call-refused}

abbrev pub bytes : Codec ℕ
bytes = record {
  marshal = λ x. some (x ∷ []);
  unmarshal = λ target bs. first bs;
  Fits = λ target x. Unit;
  unmarshal-marshal = λ target x bs fits e. (let same : x ∷ [] ≡ bs = cc in ap first (sym same));
}
  where
    first : List ℕ → Option ℕ
    first [] = none
    first (b ∷ bs) = some b

-- A codec of a type that knows one value.
abbrev pub only : (A : Type 0) → A → Codec A
only A v = record {
  marshal = λ x. some (1 ∷ 2 ∷ []);
  unmarshal = λ target bs. some v;
  Fits = λ target x. x ≡ v;
  unmarshal-marshal = λ target x bs fits e. ap some (sym fits);
}

abbrev ask : Request ℕ
ask = record {
  msg_id = 5;
  msg_type = 0;
  two_way = true;
  arg = some 7;
  method_name = "add";
  svc_name = "calc";
  schema = "s";
  attachments = [];
}

abbrev nothing_yet : Request ℕ
nothing_yet = record {
  msg_id = 0;
  msg_type = 0;
  two_way = false;
  arg = none;
  method_name = "";
  svc_name = "";
  schema = "";
  attachments = [];
}

abbrev pub asks : Codec RequestHeader
asks = only RequestHeader (record {
  msg_type = 0;
  flags = 0;
  dest_micro_service = "calc";
  operation_name = "add";
  schema_id = "s";
  context = [];
})

abbrev pub answers : Codec ResponseHeader
answers =
    only ResponseHeader (record { flags = 0; status_code = pos 200; reason = ""; context = [] })

abbrev place : Response ℕ
place = record {
  msg_id = 0;
  status = pos 200;
  err = "";
  msg_type = 0;
  result = some 0;
  attachments = [];
}

abbrev pub calc : Service ℕ
calc = record {
  operations = λ service schema operation. some (takes 0);
  chain = some (λ inv. called_back none);
  provider = λ name. some (λ inv. result 8);
}

abbrev open_client : BaseClient ℕ
open_client = record {
  closed = false;
  msg_wait_rsp_map = [];
  calls = λ h. none;
  next = 0;
  sends = [];
}

abbrev waiting_client : BaseClient ℕ
unfolding begin_send
waiting_client = (begin_send ask place open_client).1

abbrev pub waiting_call : Call ℕ
waiting_call = record { req = ask; rsp = place; is_done = false }

abbrev sent : List ℕ
sent = magic_id ++ (0 ∷ 0 ∷ 0 ∷ 0 ∷ 0 ∷ 0 ∷ 0 ∷ 5 ∷ 0 ∷ 0 ∷ 0 ∷ 3 ∷ 0 ∷ 0 ∷ 0 ∷ 2 ∷ 1 ∷ 2 ∷ 7 ∷ [])

call-answered_example :
    (obj reply : ProtocolObject) × (r r' : Reader) × (st' : BaseClient ℕ) × (c' : Call ℕ)
    × (de_serialize_frame (sent ∷ []) ≡ some (obj, r))
    × (de_serialize_frame ((handle_frame bytes asks answers calc obj).written ∷ [])
        ≡ some (reply, r'))
    × (process_msg bytes asks answers reply waiting_client ≡ some st')
    × (st'.calls 0 ≡ some c')
    × (c'.is_done ≡ true)
    × (c'.rsp.result ≡ some 8)
    × ((end_send woken 5 0 st').0 ≡ none)
unfolding waiting_client serialize_req go_chassis.Highway.Messages.int32
    go_chassis.Highway.Client.find
call-answered_example =
    call-answered bytes asks answers (λ bs. bs ∷ []) calc (λ inv. called_back none)
      (λ inv. result 8) ask 7 8 0 0 (1 ∷ 2 ∷ []) (7 ∷ []) sent (1 ∷ 2 ∷ []) (8 ∷ []) waiting_client
      0 waiting_call append_nil (omega arith) refl refl refl (omega arith) refl refl tt refl refl
      refl refl refl refl refl (omega arith) (omega arith) refl tt refl refl refl

de_serialize_req-serialize_req_example :
    (obj : ProtocolObject) × (r' : Reader) × (de_serialize_frame
        ((0x43 ∷ 0x53 ∷ []) ∷ drop 2 sent ∷ (9 ∷ []) ∷ [])
      ≡ some (obj, r'))
    × (de_serialize_req bytes asks answers calc.operations obj nothing_yet
        ≡ parsed (received bytes asks answers ask 7))
    × (concat r' ≡ 9 ∷ [])
unfolding serialize_req
de_serialize_req-serialize_req_example =
    de_serialize_req-serialize_req bytes asks answers calc.operations ask nothing_yet 7 0
      (1 ∷ 2 ∷ []) (7 ∷ []) sent (9 ∷ []) ((0x43 ∷ 0x53 ∷ []) ∷ drop 2 sent ∷ (9 ∷ []) ∷ [])
      (omega arith) refl refl refl refl (omega arith) refl refl tt refl refl

abbrev read_object : ProtocolObject
read_object = record {
  fr_head = record { magic = magic_id; msg_id = 5; total_len = 3; header_len = 2 };
  pay_load = 1 ∷ 2 ∷ 7 ∷ [];
}

abbrev small : List ℕ → Bool
small [] = true
small (b ∷ bs) = ltb b 256 && small bs

all_bytes_of : (bs : List ℕ) → small bs ≡ true → All (λ (b : ℕ). b < 256) bs
all_bytes_of [] h = tt
all_bytes_of (b ∷ bs) h = elim (Bool-cases (ltb b 256)) [
  | inl q ↦ (
    ground (arith, q),
    all_bytes_of bs (let e : (ltb b 256 && small bs) ≡ small bs = rw q refl in sym e ∙ h),
  )
  | inr q ↦ absurd (
      let e : (ltb b 256 && small bs) ≡ false = rw q refl in let f : false ≡ true = sym e ∙ h in cc)
]

de_serialize_frame-bounds_example :
    (head : List ℕ) × (sent ++ (9 ∷ []) ≡ head ++ ((1 ∷ 2 ∷ 7 ∷ []) ++ (9 ∷ [])))
    × (length head ≡ 23)
    × (length read_object.pay_load ≡ read_object.fr_head.total_len)
    × (read_object.fr_head.msg_id < 2 ^ 64)
    × (read_object.fr_head.total_len < 2 ^ 32)
    × (read_object.fr_head.header_len < 2 ^ 32)
unfolding de_serialize_frame
de_serialize_frame-bounds_example =
    de_serialize_frame-bounds ((sent ++ (9 ∷ [])) ∷ []) ((9 ∷ []) ∷ []) read_object
      (all_bytes_of (sent ++ (9 ∷ [])) refl) refl

waiting_reached : Reachable bytes asks answers waiting_client
unfolding begin_send waiting_client
waiting_reached = steps opened (begins ask place open_client refl)

Reachable-Own_example : (place.msg_id ≡ 0) ⊎ (place.msg_id ≡ ask.msg_id)
unfolding waiting_client
Reachable-Own_example =
    Reachable-Own bytes asks answers waiting_client 0 waiting_call waiting_reached refl

Reachable-empty_example : (end_send late 5 0 waiting_client).1.msg_wait_rsp_map ≡ []
unfolding waiting_client end_send
Reachable-empty_example =
    Reachable-empty bytes asks answers (end_send late 5 0 waiting_client).1
      (steps waiting_reached (ends late 5 0 waiting_client (inl refl))) refl

end_send-close_example :
    Done (close waiting_client).calls 0 waiting_call
    × ((end_send woken 5 0 (close waiting_client)).0 ≡ none)
unfolding waiting_client go_chassis.Highway.Client.find
end_send-close_example = end_send-close waiting_client 5 0 waiting_call refl refl refl refl

abbrev refusals : Codec ResponseHeader
refusals =
    only ResponseHeader
      (record { flags = 0; status_code = pos 505; reason = "denied"; context = [] })

abbrev denying : Service ℕ
denying = record calc { provider = λ name. some (λ inv. refused "denied") }

call-refused_example :
    (obj reply : ProtocolObject) × (r r' : Reader) × (st' : BaseClient ℕ) × (de_serialize_frame
        (sent ∷ [])
      ≡ some (obj, r))
    × (de_serialize_frame ((handle_frame bytes asks refusals denying obj).written ∷ [])
        ≡ some (reply, r'))
    × (process_msg bytes asks refusals reply waiting_client ≡ some st')
    × ((end_send woken 5 0 st').0 ≡ some "denied")
unfolding waiting_client serialize_req go_chassis.Highway.Messages.int32
    go_chassis.Highway.Client.find
call-refused_example =
    call-refused bytes asks refusals (λ bs. bs ∷ []) denying (λ inv. called_back none)
      (λ inv. refused "denied") ask 7 0 "denied" (1 ∷ 2 ∷ []) (7 ∷ []) sent (1 ∷ 2 ∷ [])
      waiting_client 0 waiting_call append_nil (omega arith) refl refl refl (omega arith) refl refl
      tt refl refl refl (inr (refl, refl)) refl (omega arith) refl refl refl
