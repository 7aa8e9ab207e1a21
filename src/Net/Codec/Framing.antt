-- ===== src/Net/Codec/Framing.antt =====
-- One call of `decode` in src/net/codec.rs.
use ghostpp_rs.Prelude.{
  ℕ, ◌+◌, ◌*◌, ◌≤◌, ◌≡◌, refl, ap, ◌∙◌, true, List, [], ◌∷◌, ◌++◌, arith, length, get_or, take,
  drop, length-append, length-take, take-append-drop, take-append_le, drop-append_le, AreBytes,
  get_or-take, u16_from_le,
}
use ghostpp_rs.Prelude.Bits.{bit_or_bytes}
use ghostpp_rs.Util.{validate_length, assign_length}
use ghostpp_rs.Util.Length.{assign_length_packet, validate_length_sealed}
use ghostpp_rs.Net.Codec.{split_to, Frame, FrameError, decoded, failed, accepts, decode}

take-append_length : (xs ys : List ℕ) → take (length xs) (xs ++ ys) ≡ xs
take-append_length [] ys = refl
take-append_length (x ∷ xs) ys = ap (λ (t : List ℕ). x ∷ t) (take-append_length xs ys)

drop-append_length : (xs ys : List ℕ) → drop (length xs) (xs ++ ys) ≡ ys
drop-append_length [] ys = refl
drop-append_length (x ∷ xs) ys = drop-append_length xs ys

-- A whole packet is at the front of the buffer.
decode_ready :
    (accepted src : List ℕ) (n : ℕ)
    → accepts accepted (get_or src 0 0) ≡ true
    → u16_from_le (get_or src 2 0) (get_or src 3 0) ≡ n
    → 4 ≤ n
    → n ≤ length src
    → decode accepted src ≡ split_to n (get_or src 0 0) src
unfolding decode
decode_ready accepted src n a e h k = ground arith

split_to-append :
    (magic id a b : ℕ) (body rest : List ℕ)
    → split_to (length body + 4) magic ((magic ∷ id ∷ a ∷ b ∷ body) ++ rest)
      ≡ decoded (record { magic = magic; id = id; bytes = magic ∷ id ∷ a ∷ b ∷ body }) rest
unfolding split_to
split_to-append magic id a b body rest =
    ground (arith, e, take-append_length packet rest, drop-append_length packet rest)
  where
    packet : List ℕ
    packet = magic ∷ id ∷ a ∷ b ∷ body

    e : length body + 4 ≡ length packet
    e = omega arith

-- A buffer that starts with a packet whose length field is right.
pub decode_packet :
    (accepted : List ℕ) (magic id low high : ℕ) (body rest : List ℕ)
    → accepts accepted magic ≡ true
    → low + 256 * high ≡ length body + 4
    → decode accepted ((magic ∷ id ∷ low ∷ high ∷ body) ++ rest)
      ≡ decoded (record { magic = magic; id = id; bytes = magic ∷ id ∷ low ∷ high ∷ body }) rest
decode_packet accepted magic id low high body rest a e =
    decode_ready accepted _ (length body + 4) a e (omega arith)
      (omega (arith, length-append body rest))
    ∙ split_to-append magic id low high body rest

-- Whatever assign_length has sealed is cut off the front of the buffer as one frame, whatever
-- follows it: a packet of at most 65535 bytes with an accepted magic byte.
pub decode-assign_length :
    (accepted : List ℕ) (magic id a b : ℕ) (body rest : List ℕ)
    → accepts accepted magic ≡ true
    → length body + 4 ≤ 65535
    → let packet = (assign_length (magic ∷ id ∷ a ∷ b ∷ body)).0 in
      (decode accepted (packet ++ rest)
        ≡ decoded (record { magic = magic; id = id; bytes = packet }) rest)
      × (validate_length packet ≡ true)
decode-assign_length accepted magic id a b body rest ok h =
    rw (assign_length_packet magic id a b body h) (
      decode_packet accepted magic id _ _ body rest ok (omega arith),
      validate_length_sealed magic id body h,
    )

-- What a call that yields a frame took: the bytes of the frame stood at the front of the buffer,
-- the frame has at least its header and its length field is right, and its magic byte is accepted.
pub decode_sound :
    (accepted src : List ℕ) (f : Frame) (rest : List ℕ)
    → AreBytes src
    → decode accepted src ≡ decoded f rest
    → (f.bytes ++ rest ≡ src)
      × (accepts accepted f.magic ≡ true)
      × (validate_length f.bytes ≡ true)
      × (4 ≤ length f.bytes)
unfolding decode validate_length
decode_sound accepted (magic ∷ id ∷ low ∷ high ∷ body) f rest h e = ground (
  arith,
  bit_or_bytes high low,
  take-append-drop n src,
  length-take n src,
  get_or-take n 2 src 0,
  get_or-take n 3 src 0,
)
  where
    src : List ℕ
    src = magic ∷ id ∷ low ∷ high ∷ body

    n : ℕ
    n = u16_from_le low high
decode_sound accepted [] f rest h e = ground arith
decode_sound accepted (a ∷ []) f rest h e = ground arith
decode_sound accepted (a ∷ b ∷ []) f rest h e = ground arith
decode_sound accepted (a ∷ b ∷ c ∷ []) f rest h e = ground arith

-- A later read does not change what was decoded: bytes that arrive behind the buffer join the rest,
-- and an error stays the same error.
pub decode-append :
    (accepted src more : List ℕ)
    → ((f : Frame) (rest : List ℕ)
        → decode accepted src ≡ decoded f rest
        → decode accepted (src ++ more) ≡ decoded f (rest ++ more))
      × ((x : FrameError)
          → decode accepted src ≡ failed x
          → decode accepted (src ++ more) ≡ failed x)
unfolding decode
decode-append accepted (magic ∷ id ∷ low ∷ high ∷ body) more = (
  λ f rest e.
      ground (arith, length-append body more, take-append_le n src more, drop-append_le n src more),
  λ x e. ground (arith, length-append body more),
)
  where
    src : List ℕ
    src = magic ∷ id ∷ low ∷ high ∷ body

    n : ℕ
    n = u16_from_le low high
decode-append accepted [] more = (λ f rest e. ground arith, λ x e. ground arith)
decode-append accepted (a ∷ []) more = (λ f rest e. ground arith, λ x e. ground arith)
decode-append accepted (a ∷ b ∷ []) more = (λ f rest e. ground arith, λ x e. ground arith)
decode-append accepted (a ∷ b ∷ c ∷ []) more = (λ f rest e. ground arith, λ x e. ground arith)
