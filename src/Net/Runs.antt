-- ===== src/Net/Runs.antt =====
-- The codec and the connection of src/net on concrete bytes.
use ghostpp_rs.Prelude.{ℕ, ◌≡◌, ◌≤◌, refl, true, List, [], ◌∷◌, ◌++◌, arith, length, map, ◌⊎◌}
use mathlib.Core.List.{flatten}
use ghostpp_rs.Util.{assign_length, validate_length}
use ghostpp_rs.Net.Codec.{Frame, decoded, failed, bad_magic, accepts, decode, w3gs}
use ghostpp_rs.Net.Codec.Framing.{decode-assign_length, decode_sound}
use ghostpp_rs.Net.Codec.Stream.{
  Reads, waits, yields, Breaks, Sent, sealed, frame_of, Reads-append, Reads-end, Reads-sealed,
}
use ghostpp_rs.Net.Conn.{Link, opened, try_send, sends, Reach, here, next}
use ghostpp_rs.Net.Conn.Budget.{Accounted, Reach-Accounted}

-- A W3GS leave packet, and the first five bytes of a GPS acknowledgement and the rest of it.
abbrev leave : List ℕ
leave = 247 ∷ 33 ∷ 8 ∷ 0 ∷ 1 ∷ 0 ∷ 0 ∷ 0 ∷ []

abbrev ack_begin : List ℕ
ack_begin = 248 ∷ 3 ∷ 8 ∷ 0 ∷ 9 ∷ []

abbrev ack_rest : List ℕ
ack_rest = 0 ∷ 0 ∷ 0 ∷ []

abbrev leave_frame : Frame
leave_frame = record { magic = 247; id = 33; bytes = leave }

abbrev ack_frame : Frame
ack_frame = record { magic = 248; id = 3; bytes = ack_begin ++ ack_rest }

decode-leave : decode w3gs (leave ++ ack_begin) ≡ decoded leave_frame ack_begin
unfolding decode accepts
decode-leave = refl

decode_bncs : decode w3gs (255 ∷ 37 ∷ 8 ∷ 0 ∷ []) ≡ failed (bad_magic 255 w3gs)
unfolding decode accepts
decode_bncs = refl

Reads-two : Reads w3gs (leave ++ ack_begin) (leave_frame ∷ []) ack_begin
unfolding decode accepts
Reads-two = yields {rest = ack_begin} decode-leave (waits refl)

Reads-rest : Reads w3gs (ack_begin ++ ack_rest) (ack_frame ∷ []) []
unfolding decode accepts
Reads-rest = yields {rest = []} refl (waits refl)

abbrev sent : List Sent
sent =
    record { magic = 247; id = 33; body = 1 ∷ 0 ∷ 0 ∷ 0 ∷ [] }
    ∷ record { magic = 248; id = 2; body = [] }
    ∷ []

accepts_both : (accepts w3gs 247 ≡ true) × (accepts w3gs 248 ≡ true)
unfolding accepts
accepts_both = (refl, refl)

Reads-sealed_example : Reads w3gs (flatten (map sealed sent)) (map frame_of sent) []
Reads-sealed_example =
    Reads-sealed w3gs sent ((accepts_both.0, omega arith), ((accepts_both.1, omega arith), tt))

Reads-append_example :
    Reads w3gs ((leave ++ ack_begin) ++ ack_rest) (leave_frame ∷ ack_frame ∷ []) []
Reads-append_example = Reads-append w3gs ack_rest Reads-two Reads-rest

decode-assign_length_example :
    (decode w3gs ((assign_length (247 ∷ 70 ∷ 0 ∷ 0 ∷ 5 ∷ [])).0 ++ leave)
      ≡ decoded
          (record { magic = 247; id = 70; bytes = (assign_length (247 ∷ 70 ∷ 0 ∷ 0 ∷ 5 ∷ [])).0 })
          leave)
    × (validate_length (assign_length (247 ∷ 70 ∷ 0 ∷ 0 ∷ 5 ∷ [])).0 ≡ true)
decode-assign_length_example =
    decode-assign_length w3gs 247 70 0 0 (5 ∷ []) leave accepts_both.0 (omega arith)

decode_sound_example :
    (leave ++ ack_begin ≡ leave ++ ack_begin)
    × (accepts w3gs 247 ≡ true)
    × (validate_length leave ≡ true)
    × (4 ≤ length leave)
decode_sound_example =
    decode_sound w3gs (leave ++ ack_begin) leave_frame ack_begin (ground arith) decode-leave

Reads-end_example :
    ((fs : List Frame) × (end : List ℕ) × Reads w3gs leave fs end)
    ⊎ ((fs : List Frame) × (x : _) × Breaks w3gs leave fs x)
Reads-end_example = Reads-end w3gs leave (ground arith)

abbrev after_send : Link
after_send = (try_send leave (opened 3)).0

sent_and_written : Reach (opened 3) (try_send ack_rest after_send).0
sent_and_written = next (next here (sends (opened 3) leave)) (sends after_send ack_rest)

Reach-Accounted_example : Accounted (try_send ack_rest after_send).0
Reach-Accounted_example = Reach-Accounted 3 sent_and_written
