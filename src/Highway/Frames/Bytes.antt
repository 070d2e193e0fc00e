-- ===== src/Highway/Frames/Bytes.antt =====
-- Frames of client/highway/highway_msgobj.go are read as they were written.
use go_chassis.Prelude.{
  ℕ, zero, suc, ◌+◌, ◌-◌, ◌*◌, ◌/◌, ◌%◌, ◌^◌, ◌≤◌, ◌<◌, ◌≡◌, refl, sym, ◌∙◌, ap, arith, inl, inr,
  List, [], ◌∷◌, ◌++◌, some, leb, length, take, drop, concat, take-append, drop-append,
  length-append, Bool-cases,
}
use go_chassis.Highway.Frames.{
  frame_head_len, magic_id, FrameHead, put32, put64, get32, get64, serialize, equal_fold,
  deserialize, Reader, after, read_full, de_serialize_frame,
}

word32 :
    (n : ℕ)
    → n < 2 ^ 32
    → n / 2 ^ 24 % 256 * 2 ^ 24 + n / 2 ^ 16 % 256 * 2 ^ 16 + n / 2 ^ 8 % 256 * 2 ^ 8 + n % 256 ≡ n
word32 n h = omega arith

word64 :
    (n : ℕ)
    → n < 2 ^ 64
    → (n / 2 ^ 32 / 2 ^ 24 % 256 * 2 ^ 24
            + n / 2 ^ 32 / 2 ^ 16 % 256 * 2 ^ 16
            + n / 2 ^ 32 / 2 ^ 8 % 256 * 2 ^ 8
            + n / 2 ^ 32 % 256)
          * 2 ^ 32
        + (n / 2 ^ 24 % 256 * 2 ^ 24
            + n / 2 ^ 16 % 256 * 2 ^ 16
            + n / 2 ^ 8 % 256 * 2 ^ 8
            + n % 256)
      ≡ n
word64 n h = omega arith

-- A head that was written is read back, with its words cut to their width.
deserialize-serialize :
    (id total header : ℕ)
    → id < 2 ^ 64
    → total < 2 ^ 32
    → header < 2 ^ 32
    → let head : FrameHead = record {
      magic = magic_id;
      msg_id = id;
      total_len = total;
      header_len = header;
    } in
      deserialize (serialize head) ≡ some head
unfolding serialize deserialize put32 put64 get32 get64 equal_fold
deserialize-serialize id total header hi ht hh =
    rw (word64 id hi, word32 total ht, word32 header hh) refl

length-serialize :
    (id total header : ℕ)
    → length (
        serialize
          (record { magic = magic_id; msg_id = id; total_len = total; header_len = header }))
      ≡ 23
unfolding serialize put32 put64
length-serialize id total header = refl

-- Of two ways to cut the same bytes, the shorter front begins the longer one.
split_shorter :
    (p c bs rest : List ℕ)
    → length p ≤ length bs
    → p ++ c ≡ bs ++ rest
    → (mid : List ℕ) × (bs ≡ p ++ mid) × (c ≡ mid ++ rest)
split_shorter [] c bs rest h e = (bs, refl, e)
split_shorter (x ∷ p) c [] rest h e = absurd (omega (arith, h))
split_shorter (x ∷ p) c (y ∷ bs) rest h e =
    let (mid, f, g) = split_shorter p c bs rest (omega (arith, h)) (cc) in
    (mid, (let x' : x ≡ y = cc in cc), g)

-- The bytes that are read do not depend on the parts in which they arrive.
pub read_full-concat :
    (n : ℕ) (r : Reader) (bs rest : List ℕ)
    → length bs ≡ n
    → concat r ≡ bs ++ rest
    → (r' : Reader) × (read_full n r ≡ some (bs, r')) × (concat r' ≡ rest)
unfolding read_full
read_full-concat zero r [] rest h e = (r, refl, e)
read_full-concat zero r (b ∷ bs) rest h e = absurd (omega (arith, h))
read_full-concat (suc n) [] [] rest h e = absurd (omega (arith, h))
read_full-concat (suc n) [] (b ∷ bs) rest h e = absurd (let f : [] ≡ b ∷ (bs ++ rest) = e in cc)
read_full-concat (suc n) (part ∷ r) bs rest h e = elim (Bool-cases (leb (length part) (suc n))) [
  | inl short ↦
      let (mid, f, g) = split_shorter part (concat r) bs rest (ground (arith, h)) e in
      let m : length mid ≡ suc n - length part =
        omega (arith, h, ap (λ (l : List ℕ). length l) f, length-append part mid) in
      let (r', q, k) = read_full-concat (suc n - length part) r mid rest m g in
      (r', rw short (ap (after part) q ∙ ap (λ (l : List ℕ). some (l, r')) (sym f)), k)
  | inr long ↦
      let (mid, f, g) = split_shorter bs rest part (concat r) (ground (arith, h)) (sym e) in
      let t : take (suc n) part ≡ bs =
        ap (λ (l : List ℕ). take (suc n) l) f
        ∙ ap (λ (k : ℕ). take k (bs ++ mid)) (sym h)
        ∙ take-append bs mid in
      let d : drop (suc n) part ≡ mid =
        ap (λ (l : List ℕ). drop (suc n) l) f
        ∙ ap (λ (k : ℕ). drop k (bs ++ mid)) (sym h)
        ∙ drop-append bs mid in
      (mid ∷ r, rw long (rw (t, d) refl), sym g)
]

-- A frame that was written is read with its head and its load, however its bytes arrive, and the
-- connection then delivers what was written after it.
pub de_serialize_frame-serialize :
    (id header : ℕ) (load rest : List ℕ) (r : Reader)
    → id < 2 ^ 64
    → length load < 2 ^ 32
    → header < 2 ^ 32
    → let head : FrameHead = record {
      magic = magic_id;
      msg_id = id;
      total_len = length load;
      header_len = header;
    } in
      concat r ≡ serialize head ++ (load ++ rest)
      → (r' : Reader) × (de_serialize_frame r
          ≡ some (record { fr_head = head; pay_load = load }, r'))
        × (concat r' ≡ rest)
unfolding de_serialize_frame
de_serialize_frame-serialize id header load rest r hi ht hh e =
    let head : FrameHead = record {
      magic = magic_id;
      msg_id = id;
      total_len = length load;
      header_len = header;
    } in
    let (r1, q1, k1) =
      read_full-concat frame_head_len r (serialize head) (load ++ rest)
        (length-serialize id (length load) header) e in
    let (r2, q2, k2) = read_full-concat (length load) r1 load rest refl k1 in
    (r2, rw q1 (rw (deserialize-serialize id (length load) header hi ht hh) (rw q2 refl)), k2)
