-- ===== src/Core/BnetProtocol/Sealed.antt =====
-- The packets of src/core/bnetprotocol.rs under the framing of src/net/codec.rs and the length check of
-- src/util.rs.
use ghostpp_rs.Prelude.{
  ℕ, ◌+◌, ◌/◌, ◌%◌, ◌≤◌, ◌≡◌, ◌≢◌, refl, sym, ap, ◌∙◌, true, List, [], ◌∷◌, arith, length,
  append-nil,
}
use ghostpp_rs.Util.{validate_length, assign_length}
use ghostpp_rs.Util.Length.{assign_length_packet, validate_length_sealed}
use ghostpp_rs.Net.Codec.{decoded, decode, accepts, bncs}
use ghostpp_rs.Net.Codec.Framing.{decode-assign_length}
use ghostpp_rs.Core.BnetProtocol.Send.{packet}

-- The bytes of a packet with its length in place.
abbrev pub shape : ℕ → List ℕ → List ℕ
shape id body = 255 ∷ id ∷ (length body + 4) % 256 ∷ (length body + 4) / 256 % 256 ∷ body

-- The packet comes out of the decoder as one frame with its id, and its length field is right.
abbrev pub IsFramed : ℕ → List ℕ → Type 0
IsFramed id p =
    (decode bncs p ≡ decoded (record { magic = 255; id = id; bytes = p }) [])
    × (validate_length p ≡ true)

pub packet-ne-nil : (id : ℕ) (body : List ℕ) → packet id body ≢ []
unfolding packet assign_length
packet-ne-nil id body = ground arith

module _ (id : ℕ) (body : List ℕ) (room : length body ≤ 65531) where
  pub packet-shape : packet id body ≡ shape id body
  unfolding packet
  packet-shape = assign_length_packet 255 id 0 0 body (omega arith)

  pub shape_valid : validate_length (shape id body) ≡ true
  shape_valid = validate_length_sealed 255 id body (omega arith)

  pub packet-IsFramed : IsFramed id (packet id body)
  unfolding packet
  packet-IsFramed = (
    ap (decode bncs) (sym (append-nil _))
        ∙ (decode-assign_length bncs 255 id 0 0 body [] (unfold accepts in refl) (omega arith)).0,
    (decode-assign_length bncs 255 id 0 0 body [] (unfold accepts in refl) (omega arith)).1,
  )
