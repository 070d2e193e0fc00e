-- ===== src/Highway/Receiving/Streams.antt =====
-- What the loops of client/highway/client_conn.go and server/highway/highway_conn.go do with everything that a
-- connection delivers.
use go_chassis.Prelude.{
  ◌⊎◌, true, false, Bool-cases, get_elem?, set, lookup, lookup-remove, eq_refl, ◌+ℤ◌, negsuc,
  if◌then◌else◌, ℕ, zero, suc, ◌+◌, ◌^◌, ◌<◌, ◌≡◌, refl, sym, ◌∙◌, ap, arith, inl, inr, List, [],
  ◌∷◌, ◌++◌, none, some, Bool, length, concat, map, All, append_assoc, length-append, Option-cases,
}
use go_chassis.Highway.Frames.{
  frame_head_len, Reader, read_full, ProtocolObject, de_serialize_frame,
}
use go_chassis.Highway.Frames.Bounds.{read_full-reads, de_serialize_frame-reads}
use go_chassis.Highway.Messages.{Codec, RequestHeader, ResponseHeader, Login, frame_of}
use go_chassis.Highway.Messages.RoundTrip.{object_of, frame-read}
use go_chassis.Highway.Client.{BaseClient, process_msg}
use go_chassis.Highway.Pool.{close_socket}
use go_chassis.Highway.Server.{
  Connection, ConnectionMgr, close_conn, delete_conn, Service, handle_frame,
}
use go_chassis.Highway.Receiving.{
  Greeting, accepted, rejected, crashed, hello_server, LoopEnd, panicked, ended, Served, started,
  recv_frames, after_greeting, server_recv_loop, client_recv_loop, process_all,
}

-- A read of more than what is still delivered fails.
pub read_full-short : (n : ℕ) (r : Reader) → length (concat r) < n → read_full n r ≡ none
read_full-short n r h = elim (Option-cases (read_full n r)) [
  | inl e ↦ e
  | inr ((bs, r'), e) ↦
      let (l, c) = read_full-reads n r r' bs e in
      let total : length (concat r) ≡ length bs + length (concat r') =
        ap (λ (l : List ℕ). length l) c ∙ length-append bs (concat r') in
      absurd (omega (arith, h, l, total))
]

-- Every frame that is read takes something from the connection.
de_serialize_frame-shrinks :
    (r r' : Reader) (obj : ProtocolObject)
    → de_serialize_frame r ≡ some (obj, r')
    → length (concat r') < length (concat r)
de_serialize_frame-shrinks r r' obj e =
    let (buf, l, d, c, l') = de_serialize_frame-reads r r' obj e in
    let t : length (concat r) ≡ length buf + length (obj.pay_load ++ concat r') =
      ap (λ (l : List ℕ). length l) c ∙ length-append buf (obj.pay_load ++ concat r') in
    omega (arith, l, t, length-append obj.pay_load (concat r'))

-- A frame that a connection delivers, after any number of others.
pub data Delivers : Reader → ProtocolObject → Type 0 where
  delivers_now :
      {r r' : Reader} {obj : ProtocolObject}
      → de_serialize_frame r ≡ some (obj, r')
      → Delivers r obj
  delivers_later :
      {r r' : Reader} {obj obj' : ProtocolObject}
      → de_serialize_frame r ≡ some (obj', r')
      → Delivers r' obj
      → Delivers r obj

-- A connection that was open is closed and no longer among those of the server, which counts one less.
pub record IsClosed (h : ℕ) (c : Connection) (old mgr : ConnectionMgr) : Type 0 where
  pub marked : get_elem? mgr.created h ≡ some (record c { closed = true })
  pub forgotten : lookup c.remote_addr mgr.conns ≡ none
  pub counted : mgr.count ≡ old.count +ℤ negsuc 0

get_elem?-set :
    {X : Type 0} (xs : List X) (h : ℕ) (x v : X)
    → get_elem? xs h ≡ some x
    → get_elem? (set xs h v) h ≡ some v
get_elem?-set [] h x v e = absurd (let f : none ≡ some x = e in cc)
get_elem?-set (y ∷ xs) zero x v e = refl
get_elem?-set (y ∷ xs) (suc h) x v e = get_elem?-set xs h x v e

close_conn-IsClosed :
    (h : ℕ) (c : Connection) (mgr : ConnectionMgr)
    → get_elem? mgr.created h ≡ some c
    → c.closed ≡ false
    → IsClosed h c mgr (close_conn h mgr)
unfolding close_conn delete_conn
close_conn-IsClosed h c mgr e o =
    rw (e, o)
      (record {
        marked = get_elem?-set mgr.created h c (record c { closed = true }) e;
        forgotten =
            lookup-remove c.remote_addr c.remote_addr mgr.conns
            ∙ ap (λ (b : Bool). if b then none else lookup c.remote_addr mgr.conns)
                (eq_refl c.remote_addr);
        counted = refl;
      })

module _ {A : Type 0} (messages : Codec A) (logins : Codec Login) (requests : Codec RequestHeader)
    (responses : Codec ResponseHeader) (service : Service A) (h : ℕ) (c : Connection)
    (mgr : ConnectionMgr) where
  abbrev Panics : ProtocolObject → Type 0
  unfolding handle_frame
  Panics obj = (handle_frame messages requests responses service obj).is_panic ≡ true

  -- The loop ends with the connection closed, or with a panic that a frame has caused.
  abbrev Ends : Reader → LoopEnd Served → Type 0
  Ends r end =
      ((s : Served) × (end ≡ ended s) × IsClosed h c mgr s.mgr)
      ⊎ ((end ≡ panicked) × (obj : ProtocolObject) × Delivers r obj × Panics obj)

  recv_frames-Ends :
      (n : ℕ) (written : List ℕ) (r : Reader)
      → IsClosed h c mgr (close_conn h mgr)
      → length (concat r) < n
      → Ends r (recv_frames messages logins requests responses service n written r h mgr)
  unfolding recv_frames Panics
  recv_frames-Ends zero written r closes l = absurd (omega (arith, l))
  recv_frames-Ends (suc n) written r closes l = elim (Option-cases (de_serialize_frame r)) [
    | inl e ↦
        rw e
          (inl (record { written = written; handled = []; mgr = close_conn h mgr }, refl, closes))
    | inr ((obj, r'), e) ↦
        let shorter = de_serialize_frame-shrinks r r' obj e in
        let rest = recv_frames messages logins requests responses service n written r' h mgr in
        elim (Bool-cases (handle_frame messages requests responses service obj).is_panic) [
          | inl p ↦ rw (e, p) (inr (refl, obj, delivers_now e, p))
          | inr p ↦
              rw (e, p)
                (elim (recv_frames-Ends n written r' closes (omega (arith, l, shorter))) [
                  | inl (s, q, m) ↦ inl (
                    record s { handled = obj ∷ s.handled },
                    ap (started messages logins requests responses service false obj) q,
                    m,
                  )
                  | inr (q, bad, d, b) ↦ inr (
                    ap (started messages logins requests responses service false obj) q,
                    bad,
                    delivers_later e d,
                    b,
                  )
                ])
        ]
  ]

  -- Whatever an open connection delivers, and in whatever parts, the loop of the server ends, with fuel that
  -- exceeds the number of the bytes. Then the connection is closed and no longer among those of the server,
  -- whose counter is one less; or the process has panicked, and then in the handshake, or in the handling of a
  -- frame that the connection delivers.
  pub server_recv_loop-ends :
      (flushes : Bool) (n : ℕ) (greeting r : Reader)
      → get_elem? mgr.created h ≡ some c
      → c.closed ≡ false
      → length (concat r) < n
      → let end =
          server_recv_loop messages logins requests responses service flushes n greeting r h mgr in
        ((s : Served) × (end ≡ ended s) × IsClosed h c mgr s.mgr)
        ⊎ ((end ≡ panicked)
            × ((hello_server logins requests responses flushes greeting ≡ crashed)
                ⊎ ((obj : ProtocolObject) × Delivers r obj
                    × ((handle_frame messages requests responses service obj).is_panic ≡ true))))
  unfolding server_recv_loop Panics
  server_recv_loop-ends flushes n greeting r found is_open l =
      go (hello_server logins requests responses flushes greeting) refl
    where
      closes : IsClosed h c mgr (close_conn h mgr)
      closes = close_conn-IsClosed h c mgr found is_open

      go :
          (g : Greeting)
          → hello_server logins requests responses flushes greeting ≡ g
          → let end = after_greeting messages logins requests responses service g n r h mgr in
            ((s : Served) × (end ≡ ended s) × IsClosed h c mgr s.mgr)
            ⊎ ((end ≡ panicked)
                × ((hello_server logins requests responses flushes greeting ≡ crashed)
                    ⊎ ((obj : ProtocolObject) × Delivers r obj
                        × ((handle_frame messages requests responses service obj).is_panic
                            ≡ true))))
      go (accepted written) e = elim (recv_frames-Ends n written r closes l) [
        | inl whole ↦ inl whole
        | inr (q, bad, d, b) ↦ inr (q, inr (bad, d, b))
      ]
      go rejected e =
          inl (record { written = []; handled = []; mgr = close_conn h mgr }, refl, closes)
      go crashed e = inr (refl, inl e)

-- A frame as it is sent, with the bytes of its header and of its body.
pub record Sent : Type 0 where
  pub id : ℕ
  pub header : List ℕ
  pub body : List ℕ

abbrev pub SentWhole : Sent → Type 0
SentWhole f = (f.id < 2 ^ 64) × (length f.header + length f.body < 2 ^ 32)

abbrev pub sent_bytes : Sent → List ℕ
sent_bytes f = frame_of f.id f.header f.body

abbrev pub sent_object : Sent → ProtocolObject
sent_object f = object_of f.id f.header f.body

de_serialize_frame-short :
    (r : Reader) → length (concat r) < frame_head_len → de_serialize_frame r ≡ none
unfolding de_serialize_frame
de_serialize_frame-short r h = rw (read_full-short frame_head_len r h) refl

module _ {A : Type 0} (messages : Codec A) (requests : Codec RequestHeader)
    (responses : Codec ResponseHeader) where
  -- The frames that were sent to a client one after the other, in whatever parts their bytes arrive, are
  -- processed one by one in their order, and then the connection is closed: when they are whole,
  -- fewer bytes than a head follow the last, no frame makes the client panic, and the fuel exceeds their number.
  pub client_recv_loop-process_all :
      (n : ℕ) (frames : List Sent) (rest : List ℕ) (r : Reader) (conn : ℕ) (sockets : List ℕ)
      (st st' : BaseClient A)
      → All SentWhole frames
      → concat r ≡ concat (map sent_bytes frames) ++ rest
      → length rest < 23
      → process_all messages requests responses (map sent_object frames) st ≡ some st'
      → length frames < n
      → client_recv_loop messages requests responses n r conn sockets st
        ≡ ended (st', close_socket conn sockets)
  unfolding client_recv_loop process_all
  client_recv_loop-process_all zero frames rest r conn sockets st st' w e s p l =
      absurd (omega (arith, l))
  client_recv_loop-process_all (suc n) [] rest r conn sockets st st' w e s p l =
      let short : length (concat r) < frame_head_len =
        omega (arith, s, ap (λ (l : List ℕ). length l) e) in
      rw (de_serialize_frame-short r short) (
        let same : st ≡ st' = cc in
        ap (λ (c : BaseClient A). ended (c, close_socket conn sockets)) same)
  client_recv_loop-process_all (suc n) (f ∷ frames) rest r conn sockets st st' (w, ws) e s p l =
      let later : List ℕ = concat (map sent_bytes frames) in
      let e' : concat r ≡ sent_bytes f ++ (later ++ rest) =
        e ∙ append_assoc (sent_bytes f) later rest in
      let (r', q, k) = frame-read f.id f.header f.body (later ++ rest) r w.0 w.1 e' in
      elim (Option-cases (process_msg messages requests responses (sent_object f) st)) [
        | inl stops ↦ absurd (
            let g : process_all messages requests responses (map sent_object (f ∷ frames)) st
                ≡ none =
              rw (process_all, stops) refl in
            let h : none ≡ some st' = sym g ∙ p in cc)
        | inr (mid, y) ↦
            let g : process_all messages requests responses (map sent_object (f ∷ frames)) st
                ≡ process_all messages requests responses (map sent_object frames) mid =
              rw (process_all, y) refl in
            rw q (
              rw y (
                client_recv_loop-process_all n frames rest r' conn sockets mid st' ws k s
                  (sym g ∙ p) (omega (arith, l))))
      ]
