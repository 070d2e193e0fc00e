-- ===== src/Highway/Frames/Bounds.antt =====
-- What DeSerializeFrame of client/highway/highway_msgobj.go takes from a connection, and the bounds of the numbers
-- that it reads.
use go_chassis.Prelude.{
  ℕ, zero, suc, ◌+◌, ◌-◌, ◌^◌, ◌<◌, ◌≡◌, refl, sym, subst, ◌∙◌, ap, arith, inl, inr, List, [], ◌∷◌,
  ◌++◌, none, some, ltb, leb, length, get_or, take, drop, concat, All, All-front, take-drop,
  length-take, append_assoc, length-append, Bool-cases, Option-cases, bind_some,
}
use go_chassis.Highway.Frames.{
  frame_head_len, magic_id, FrameHead, get32, get64, equal_fold, deserialize, Reader, after,
  read_full, ProtocolObject, de_serialize_frame,
}

-- What is read is what the connection delivers first.
pub read_full-reads :
    (n : ℕ) (r r' : Reader) (bs : List ℕ)
    → read_full n r ≡ some (bs, r')
    → (length bs ≡ n) × (concat r ≡ bs ++ concat r')
unfolding read_full
read_full-reads zero r r' bs e =
    let first : [] ≡ bs = cc in
    let second : r ≡ r' = cc in
    (
      ap (λ (l : List ℕ). length l) (sym first),
      ap (λ (q : Reader). concat q) second ∙ ap (λ (l : List ℕ). l ++ concat r') first,
    )
read_full-reads (suc n) [] r' bs e = absurd (let f : none ≡ some (bs, r') = e in cc)
read_full-reads (suc n) (part ∷ r) r' bs e = elim (Bool-cases (leb (length part) (suc n))) [
  | inl short ↦ elim (Option-cases (read_full (suc n - length part) r)) [
    | inl nothing ↦ absurd (
        let f : read_full (suc n) (part ∷ r) ≡ none = rw short (ap (after part) nothing) in
        let g : none ≡ some (bs, r') = sym f ∙ e in cc)
    | inr ((more, q), m) ↦
        let f : read_full (suc n) (part ∷ r) ≡ some (part ++ more, q) =
          rw short (ap (after part) m) in
        let g : some (part ++ more, q) ≡ some (bs, r') = sym f ∙ e in
        let first : part ++ more ≡ bs = cc in
        let second : q ≡ r' = cc in
        let (l, c) = read_full-reads (suc n - length part) r q more m in
        let total : length (part ++ more) ≡ suc n =
          length-append part more ∙ ground (arith, l, short) in
        (
          ap (λ (l : List ℕ). length l) (sym first) ∙ total,
          ap (λ (l : List ℕ). part ++ l) c
              ∙ sym (append_assoc part more (concat q))
              ∙ ap (λ (l : List ℕ). l ++ concat q) first
              ∙ ap (λ (k : Reader). bs ++ concat k) second,
        )
  ]
  | inr long ↦
      let f : read_full (suc n) (part ∷ r) ≡ some (take (suc n) part, drop (suc n) part ∷ r) =
        rw long refl in
      let g : some (take (suc n) part, drop (suc n) part ∷ r) ≡ some (bs, r') = sym f ∙ e in
      let first : take (suc n) part ≡ bs = cc in
      let second : drop (suc n) part ∷ r ≡ r' = cc in
      (
        ap (λ (l : List ℕ). length l) (sym first) ∙ length-take (suc n) part (ground (arith, long)),
        ap (λ (l : List ℕ). l ++ concat r) (sym (take-drop (suc n) part))
            ∙ append_assoc (take (suc n) part) (drop (suc n) part) (concat r)
            ∙ ap (λ (l : List ℕ). l ++ concat (drop (suc n) part ∷ r)) first
            ∙ ap (λ (k : Reader). bs ++ concat k) second,
      )
]

get_or-byte : (bs : List ℕ) (i : ℕ) → All (λ (b : ℕ). b < 256) bs → get_or bs i 0 < 256
get_or-byte [] i a = omega arith
get_or-byte (b ∷ bs) zero (p, a) = p
get_or-byte (b ∷ bs) (suc i) (p, a) = get_or-byte bs i a

get32-bound : (bs : List ℕ) (i : ℕ) → All (λ (b : ℕ). b < 256) bs → get32 bs i < 2 ^ 32
unfolding get32
get32-bound bs i a =
    let b0 = get_or-byte bs i a in
    let b1 = get_or-byte bs (i + 1) a in
    let b2 = get_or-byte bs (i + 2) a in
    let b3 = get_or-byte bs (i + 3) a in omega (arith, b0, b1, b2, b3)

get64-bound : (bs : List ℕ) (i : ℕ) → All (λ (b : ℕ). b < 256) bs → get64 bs i < 2 ^ 64
unfolding get64
get64-bound bs i a =
    let hi = get32-bound bs i a in let lo = get32-bound bs (i + 4) a in omega (arith, hi, lo)

Bounded : FrameHead → Type 0
Bounded head = (head.msg_id < 2 ^ 64) × (head.total_len < 2 ^ 32) × (head.header_len < 2 ^ 32)

deserialize-Bounded :
    (bs : List ℕ) (head : FrameHead)
    → All (λ (b : ℕ). b < 256) bs
    → deserialize bs ≡ some head
    → Bounded head
unfolding deserialize Bounded
deserialize-Bounded bs head a e = elim (Bool-cases (ltb (length bs) frame_head_len)) [
  | inl s ↦
      absurd
        (let f : deserialize bs ≡ none = rw s refl in let g : none ≡ some head = sym f ∙ e in cc)
  | inr s ↦ elim (Bool-cases (equal_fold magic_id (take 7 bs))) [
    | inr m ↦ absurd (
        let f : deserialize bs ≡ none = rw (s, m) refl in
        let g : none ≡ some head = sym f ∙ e in cc)
    | inl m ↦
        let read : FrameHead = record {
          magic = take 7 bs;
          msg_id = get64 bs 7;
          total_len = get32 bs 15;
          header_len = get32 bs 19;
        } in
        let f : deserialize bs ≡ some read = rw (s, m) refl in
        let g : some read ≡ some head = sym f ∙ e in
        let same : read ≡ head = cc in
        subst Bounded same (get64-bound bs 7 a, get32-bound bs 15 a, get32-bound bs 19 a)
  ]
]

-- A frame that is read: the bytes of its head, the head, and the two reads that gave head and load.
pub de_serialize_frame-reads :
    (r r' : Reader) (obj : ProtocolObject)
    → de_serialize_frame r ≡ some (obj, r')
    → (buf : List ℕ) × (length buf ≡ 23)
      × (deserialize buf ≡ some obj.fr_head)
      × (concat r ≡ buf ++ (obj.pay_load ++ concat r'))
      × (length obj.pay_load ≡ obj.fr_head.total_len)
unfolding de_serialize_frame
de_serialize_frame-reads r r' obj e =
    let ((buf, r1), q, e1) = bind_some (read_full frame_head_len r) _ (obj, r') e in
    let (head, d, e2) = bind_some (deserialize buf) _ (obj, r') e1 in
    let ((load, r2), p, e3) = bind_some (read_full head.total_len r1) _ (obj, r') e2 in
    let (l, c) = read_full-reads frame_head_len r r1 buf q in
    let (l', c') = read_full-reads head.total_len r1 r2 load p in
    let read : ProtocolObject = record { fr_head = head; pay_load = load } in
    let g : some (read, r2) ≡ some (obj, r') = e3 in
    let same : read ≡ obj = cc in
    let rest : r2 ≡ r' = cc in
    subst (Read r r') same (
      subst (λ (k : Reader). Read r k read) rest
        (buf, l, d, c ∙ ap (λ (l : List ℕ). buf ++ l) c', l'))
  where
    Read : Reader → Reader → ProtocolObject → Type 0
    Read r r' obj =
        (buf : List ℕ) × (length buf ≡ 23)
        × (deserialize buf ≡ some obj.fr_head)
        × (concat r ≡ buf ++ (obj.pay_load ++ concat r'))
        × (length obj.pay_load ≡ obj.fr_head.total_len)

-- When a connection delivers bytes, a frame that is read takes 23 of them and as many as its head says, no more and no
-- less, the latter being the load of the frame, and leaves the rest; the identifier is a word of 64
-- bits and the two lengths are words of 32 bits.
pub de_serialize_frame-bounds :
    (r r' : Reader) (obj : ProtocolObject)
    → All (λ (b : ℕ). b < 256) (concat r)
    → de_serialize_frame r ≡ some (obj, r')
    → (head : List ℕ) × (concat r ≡ head ++ (obj.pay_load ++ concat r'))
      × (length head ≡ 23)
      × (length obj.pay_load ≡ obj.fr_head.total_len)
      × (obj.fr_head.msg_id < 2 ^ 64)
      × (obj.fr_head.total_len < 2 ^ 32)
      × (obj.fr_head.header_len < 2 ^ 32)
unfolding Bounded
de_serialize_frame-bounds r r' obj a e =
    let (buf, l, d, c, l') = de_serialize_frame-reads r r' obj e in
    let front =
      All-front (λ (b : ℕ). b < 256) buf (obj.pay_load ++ concat r')
        (subst (All (λ (b : ℕ). b < 256)) c a) in
    let (i, t, k) = deserialize-Bounded buf obj.fr_head front d in (buf, c, l, l', i, t, k)
