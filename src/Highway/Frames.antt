-- ===== src/Highway/Frames.antt =====
-- The frames of client/highway/highway_msgobj.go. A byte is a number below 256. What a connection
-- still delivers is the list of the parts in which its bytes arrive, after which it is closed; a read gives at
-- most the bytes of one part, as the buffered reader does, and it fails at the end.
pub mod Bytes
pub mod Bounds
use go_chassis.Prelude.{
  ℕ, zero, suc, ◌+◌, ◌-◌, ◌*◌, ◌/◌, ◌%◌, ◌^◌, List, [], ◌∷◌, ◌++◌, Option, none, some, Bool, true,
  false, not, ◌&&◌, leb, ltb, eqb, length, get_or, take, drop, ◌>>=◌, if◌then◌else◌,
}

abbrev pub frame_head_len : ℕ
frame_head_len = 23

-- `magicID`, which is "CSE.TCP".
abbrev pub magic_id : List ℕ
magic_id = 0x43 ∷ 0x53 ∷ 0x45 ∷ 0x2e ∷ 0x54 ∷ 0x43 ∷ 0x50 ∷ []

-- `highwayFrameHead`
pub record FrameHead : Type 0 where
  pub magic : List ℕ
  pub msg_id : ℕ
  pub total_len : ℕ
  pub header_len : ℕ

-- `newHeadFrame`
abbrev pub new_head_frame : ℕ → FrameHead
new_head_frame msg_id = record { magic = magic_id; msg_id = msg_id; total_len = 0; header_len = 0 }

-- Words in the order that begins with the highest byte.
unfoldable pub put32 : ℕ → List ℕ
put32 n = n / 2 ^ 24 % 256 ∷ n / 2 ^ 16 % 256 ∷ n / 2 ^ 8 % 256 ∷ n % 256 ∷ []

unfoldable pub put64 : ℕ → List ℕ
unfolding put32
put64 n = put32 (n / 2 ^ 32) ++ put32 n

unfoldable pub get32 : List ℕ → ℕ → ℕ
get32 bs i =
    get_or bs i 0 * 2 ^ 24
    + get_or bs (i + 1) 0 * 2 ^ 16
    + get_or bs (i + 2) 0 * 2 ^ 8
    + get_or bs (i + 3) 0

unfoldable pub get64 : List ℕ → ℕ → ℕ
unfolding get32
get64 bs i = get32 bs i * 2 ^ 32 + get32 bs (i + 4)

-- `serialize`
unfoldable pub serialize : FrameHead → List ℕ
unfolding put32 put64
serialize head = head.magic ++ put64 head.msg_id ++ put32 head.total_len ++ put32 head.header_len

-- `strings.EqualFold` with the magic identifier. Its letters have no other case than the one of ASCII in
-- seven bytes.
abbrev pub lower : ℕ → ℕ
lower b = if leb 0x41 b && leb b 0x5a then b + 0x20 else b

unfoldable pub equal_fold : List ℕ → List ℕ → Bool
equal_fold [] [] = true
equal_fold [] (b ∷ bs) = false
equal_fold (a ∷ more) [] = false
equal_fold (a ∷ more) (b ∷ bs) = eqb (lower a) (lower b) && equal_fold more bs

-- `deserialize`; the errors are `none`.
unfoldable pub deserialize : List ℕ → Option FrameHead
unfolding get32 get64 equal_fold
deserialize buf =
    if ltb (length buf) frame_head_len
    then none
    else if not (equal_fold magic_id (take 7 buf))
    then none
    else some (record {
      magic = take 7 buf;
      msg_id = get64 buf 7;
      total_len = get32 buf 15;
      header_len = get32 buf 19;
    })

-- The loops of `DeSerializeFrame` that read a number of bytes: the bytes, and what the connection
-- still delivers; `none` where it was closed before.
abbrev pub Reader : Type 0
Reader = List (List ℕ)

abbrev pub after : List ℕ → Option (List ℕ × Reader) → Option (List ℕ × Reader)
after part none = none
after part (some (bs, r)) = some (part ++ bs, r)

unfoldable pub read_full : ℕ → Reader → Option (List ℕ × Reader)
read_full zero r = some ([], r)
read_full (suc n) [] = none
read_full (suc n) (part ∷ r) =
    let more = read_full (suc n - length part) r in
    if leb (length part) (suc n)
    then after part more
    else some (take (suc n) part, drop (suc n) part ∷ r)

-- `ProtocolObject`
pub record ProtocolObject : Type 0 where
  pub fr_head : FrameHead
  pub pay_load : List ℕ

-- `DeSerializeFrame`
unfoldable pub de_serialize_frame : Reader → Option (ProtocolObject × Reader)
unfolding read_full deserialize
de_serialize_frame r = read_full frame_head_len r >>= λ (buf, r'). deserialize buf >>= λ head.
    read_full head.total_len r' >>= λ (pay_load, r'').
    some (record { fr_head = head; pay_load = pay_load }, r'')
