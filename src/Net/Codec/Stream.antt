-- ===== src/Net/Codec/Stream.antt =====
-- Repeated calls of `decode` on one connection: src/net/codec.rs under its reader in src/net/conn.rs.
use mathlib.Core.List.{flatten}
use ghostpp_rs.Prelude.{
  ℕ, zero, suc, ◌+◌, ◌≤◌, ◌<◌, ◌≡◌, refl, sym, ap, ◌∙◌, ◌⊎◌, inl, inr, true, List, [], ◌∷◌, ◌++◌,
  map, arith, length, length-append, All, AreBytes,
}
use ghostpp_rs.Util.{assign_length}
use ghostpp_rs.Net.Codec.{Frame, FrameError, Decoded, incomplete, decoded, failed, accepts, decode}
use ghostpp_rs.Net.Codec.Framing.{decode_sound, decode-append, decode-assign_length}

-- The calls on a buffer until one asks for more bytes, and the calls until one fails.
pub data Reads (accepted : List ℕ) : List ℕ → List Frame → List ℕ → Type 0 where
  waits : {src : List ℕ} → decode accepted src ≡ incomplete → Reads accepted src [] src
  yields :
      {src rest end : List ℕ} {f : Frame} {fs : List Frame}
      → decode accepted src ≡ decoded f rest
      → Reads accepted rest fs end
      → Reads accepted src (f ∷ fs) end

pub data Breaks (accepted : List ℕ) : List ℕ → List Frame → FrameError → Type 0 where
  fails :
      {src : List ℕ} {x : FrameError} → decode accepted src ≡ failed x → Breaks accepted src [] x
  after :
      {src rest : List ℕ} {f : Frame} {fs : List Frame} {x : FrameError}
      → decode accepted src ≡ decoded f rest
      → Breaks accepted rest fs x
      → Breaks accepted src (f ∷ fs) x

-- How the bytes of the stream are cut into reads does not matter: what the first read left over is
-- decoded with the second read as if both had come at once.
pub Reads-append :
    (accepted more : List ℕ) {src mid end : List ℕ} {fs gs : List Frame}
    → Reads accepted src fs mid
    → Reads accepted (mid ++ more) gs end
    → Reads accepted (src ++ more) (fs ++ gs) end
Reads-append accepted more (waits e) r = r
Reads-append accepted more (yields {src = src} {rest = rest} {f = f} e rs) r =
    yields ((decode-append accepted src more).0 f rest e) (Reads-append accepted more rs r)

Decoded-cases :
    (d : Decoded)
    → (d ≡ incomplete)
      ⊎ (((f : Frame) × (rest : List ℕ) × (d ≡ decoded f rest))
          ⊎ ((x : FrameError) × (d ≡ failed x)))
Decoded-cases incomplete = inl refl
Decoded-cases (decoded f rest) = inr (inl (f, rest, refl))
Decoded-cases (failed x) = inr (inr (x, refl))

AreBytes-back : (xs ys : List ℕ) → AreBytes (xs ++ ys) → AreBytes ys
AreBytes-back [] ys h = h
AreBytes-back (x ∷ xs) ys h = AreBytes-back xs ys h.1

Reads-within :
    (accepted : List ℕ) (fuel : ℕ) (src : List ℕ)
    → AreBytes src
    → length src < fuel
    → ((fs : List Frame) × (end : List ℕ) × Reads accepted src fs end)
      ⊎ ((fs : List Frame) × (x : FrameError) × Breaks accepted src fs x)
Reads-within accepted zero src h lt = absurd (omega arith)
Reads-within accepted (suc fuel) src h lt = elim (Decoded-cases (decode accepted src)) [
  | inl e ↦ inl ([], src, waits e)
  | inr (inr (x, e)) ↦ inr ([], x, fails e)
  | inr (inl (f, rest, e)) ↦
      let (whole, _, _, header) = decode_sound accepted src f rest h e in
      let shorter : length f.bytes + length rest ≡ length src =
        sym (length-append f.bytes rest) ∙ ap length whole in
      let bytes : AreBytes rest = AreBytes-back f.bytes rest (rw whole h) in
      elim (Reads-within accepted fuel rest bytes (omega arith)) [
        | inl (fs, end, r) ↦ inl (f ∷ fs, end, yields e r)
        | inr (fs, x, b) ↦ inr (f ∷ fs, x, after e b)
      ]
]

-- On every buffer the calls come to an end, in a wait for more bytes or in an error: each frame takes
-- at least its header off the buffer.
pub Reads-end :
    (accepted src : List ℕ)
    → AreBytes src
    → ((fs : List Frame) × (end : List ℕ) × Reads accepted src fs end)
      ⊎ ((fs : List Frame) × (x : FrameError) × Breaks accepted src fs x)
Reads-end accepted src h = Reads-within accepted (suc (length src)) src h (omega arith)

-- What one side of a connection sends: magic byte, packet id and body of each packet.
pub record Sent : Type 0 where
  pub magic : ℕ
  pub id : ℕ
  pub body : List ℕ

abbrev pub sealed : Sent → List ℕ
sealed s = (assign_length (s.magic ∷ s.id ∷ 0 ∷ 0 ∷ s.body)).0

abbrev pub frame_of : Sent → Frame
frame_of s = record { magic = s.magic; id = s.id; bytes = sealed s }

abbrev pub Sendable : List ℕ → Sent → Type 0
Sendable accepted s = (accepts accepted s.magic ≡ true) × (length s.body + 4 ≤ 65535)

-- The packets that one side seals with assign_length and writes one after the other come out of the
-- other side's decoder one by one, in order, and nothing is left in the buffer.
pub Reads-sealed :
    (accepted : List ℕ) (packets : List Sent)
    → All (Sendable accepted) packets
    → Reads accepted (flatten (map sealed packets)) (map frame_of packets) []
unfolding flatten
Reads-sealed accepted [] h = waits {src = []} (unfold decode in refl)
Reads-sealed accepted (s ∷ ss) (h, hs) =
    yields
      (decode-assign_length accepted s.magic s.id 0 0 s.body (flatten (map sealed ss)) h.0 h.1).0
      (Reads-sealed accepted ss hs)
