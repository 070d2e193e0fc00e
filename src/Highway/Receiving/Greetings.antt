-- ===== src/Highway/Receiving/Greetings.antt =====
-- Handshakes of client/highway/client_conn.go and server/highway/highway_conn.go in which no frame of the protocol
-- arrives: both ignore the error of reading it.
use go_chassis.Prelude.{
  ℕ, zero, suc, ◌≤◌, ◌<◌, ◌≡◌, refl, sym, ◌∙◌, ap, arith, ◌⊎◌, inl, inr, List, [], ◌∷◌, ◌++◌, none,
  some, Bool, true, false, ltb, length, take, concat, value_or, Bool-cases, Option-cases,
}
use go_chassis.Highway.Frames.{frame_head_len, magic_id, equal_fold, deserialize, Reader, read_full}
use go_chassis.Highway.Frames.Bounds.{read_full-reads}
use go_chassis.Highway.Messages.{
  Codec, RequestHeader, ResponseHeader, Login, empty_request_header, empty_response_header,
  de_serialize_req, de_serialize_rsp, serialize_hello_req,
}
use go_chassis.Highway.Receiving.{
  head_of_magic, object_left, accepted, no_login, hello_server, hello_client,
}
use go_chassis.Highway.Receiving.Streams.{read_full-short}

take-front : (n : ℕ) (xs ys : List ℕ) → n ≤ length xs → take n (xs ++ ys) ≡ take n xs
take-front zero xs ys h = refl
take-front (suc n) [] ys h = absurd (omega (arith, h))
take-front (suc n) (x ∷ xs) ys h =
    ap (λ (l : List ℕ). x ∷ l) (take-front n xs ys (omega (arith, h)))

deserialize-foreign :
    (buf : List ℕ) → equal_fold magic_id (take 7 buf) ≡ false → deserialize buf ≡ none
unfolding deserialize
deserialize-foreign buf e = elim (Bool-cases (ltb (length buf) frame_head_len)) [
  | inl s ↦ rw s refl
  | inr s ↦ rw (s, e) refl
]

-- No frame begins here: too few bytes arrive, or they do not begin with the magic identifier.
abbrev pub Foreign : Reader → Type 0
unfolding equal_fold
Foreign r = (length (concat r) < 23) ⊎ (equal_fold magic_id (take 7 (concat r)) ≡ false)

object_left-Foreign :
    (r : Reader)
    → Foreign r
    → (magic : List ℕ) × (object_left r ≡ record { fr_head = head_of_magic magic; pay_load = [] })
unfolding object_left
object_left-Foreign r (inl short) = ([], rw (read_full-short frame_head_len r short) refl)
object_left-Foreign r (inr foreign) = elim (Option-cases (read_full frame_head_len r)) [
  | inl e ↦ ([], rw e refl)
  | inr ((buf, r'), e) ↦
      let (l, c) = read_full-reads frame_head_len r r' buf e in
      let begins : take 7 (concat r) ≡ take 7 buf =
        ap (λ (l : List ℕ). take 7 l) c ∙ take-front 7 buf (concat r') (omega (arith, l)) in
      let other : equal_fold magic_id (take 7 buf) ≡ false =
        ap (equal_fold magic_id) (sym begins) ∙ foreign in
      (take 7 buf, rw (e, deserialize-foreign buf other) refl)
]

module _ (logins : Codec Login) (requests : Codec RequestHeader)
    (responses : Codec ResponseHeader) where
  -- A connection that delivers no frame in the handshake, because it delivers too few bytes or others than
  -- the magic identifier at their beginning, is accepted: by the server, which answers nothing, and by the client when
  -- it could write its own greeting. It is assumed that messages of the protocol can be read from no bytes, as
  -- protocol buffers do, which gives a login that does not ask for the codec of maps.
  pub hello-Foreign :
      (flushes : Bool) (cur : ℕ) (r : Reader) (header : RequestHeader) (answer : ResponseHeader)
      → requests.unmarshal (empty_request_header logins requests responses) [] ≡ some header
      → responses.unmarshal (empty_response_header logins requests responses) [] ≡ some answer
      → logins.unmarshal no_login [] ≡ some no_login
      → (length (concat r) < 23) ⊎ (equal_fold magic_id (take 7 (concat r)) ≡ false)
      → (hello_server logins requests responses flushes r ≡ accepted [])
        × (hello_client logins requests responses true cur r
            ≡ accepted (value_or (serialize_hello_req requests logins cur) []))
  unfolding hello_server hello_client de_serialize_req de_serialize_rsp
  hello-Foreign flushes cur r header answer h a l f =
      let (magic, o) = object_left-Foreign r f in (rw o (rw h (rw l refl)), rw o (rw a refl))
