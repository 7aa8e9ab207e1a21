-- ===== src/Net/Codec.antt =====
-- src/net/codec.rs: `[magic][id][len: u16 LE, header included]` framing. The read buffer is a list of
-- bytes; `decode` returns what it takes off the buffer, and leaves the buffer alone otherwise.
pub mod Framing
pub mod Stream
use ghostpp_rs.Prelude.{
  ℕ, ◌+◌, Bool, List, [], ◌∷◌, ◌++◌, ltb, ◌==◌, if◌then◌else◌, length, get_or, take, drop, any,
  u16_from_le, not,
}

abbrev pub bncs_header_constant : ℕ
bncs_header_constant = 0xFF

abbrev pub w3gs_header_constant : ℕ
w3gs_header_constant = 0xF7

abbrev pub gps_header_constant : ℕ
gps_header_constant = 0xF8

pub record Frame : Type 0 where
  pub magic : ℕ
  pub id : ℕ
  pub bytes : List ℕ

pub data FrameError : Type 0 where
  bad_magic : ℕ → List ℕ → FrameError
  bad_length : ℕ → FrameError

-- `Ok(None)`, `Ok(Some(frame))` with the buffer that is left, and `Err`.
pub data Decoded : Type 0 where
  incomplete : Decoded
  decoded : Frame → List ℕ → Decoded
  failed : FrameError → Decoded

-- A FrameCodec is the set of magic bytes that it accepts.
abbrev pub bncs : List ℕ
bncs = bncs_header_constant ∷ []

abbrev pub w3gs : List ℕ
w3gs = w3gs_header_constant ∷ gps_header_constant ∷ []

-- `accepted.contains(&magic)`.
unfoldable pub accepts : List ℕ → ℕ → Bool
accepts accepted magic = any (λ m. m == magic) accepted

pub payload : Frame → List ℕ
payload f = drop 4 f.bytes

-- A frame of the first `n` bytes.
split_to : ℕ → ℕ → List ℕ → Decoded
split_to n magic src =
    decoded (record { magic = magic; id = get_or (take n src) 1 0; bytes = take n src })
      (drop n src)

unfoldable pub decode : List ℕ → List ℕ → Decoded
unfolding split_to
decode accepted src =
    if ltb (length src) 4
    then incomplete
    else if not (accepts accepted (get_or src 0 0))
    then failed (bad_magic (get_or src 0 0) accepted)
    else (let n = u16_from_le (get_or src 2 0) (get_or src 3 0) in
        if ltb n 4
        then failed (bad_length n)
        else if ltb (length src) n
        then incomplete
        else split_to n (get_or src 0 0) src)

-- The encoder of raw packets, and the encoder of frames.
pub encode : List ℕ → List ℕ → List ℕ
encode item dst = dst ++ item

pub encode_frame : Frame → List ℕ → List ℕ
encode_frame f dst = dst ++ f.bytes
