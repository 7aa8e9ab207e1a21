-- ===== src/Core/BnetProtocol/Advert.antt =====
-- send_sid_startadvex3 of src/core/bnetprotocol.rs, read back as a server reads the announced game.
use ghostpp_rs.Prelude.{
  ℕ, ◌/◌, ◌%◌, ◌≤◌, ◌<◌, ◌≡◌, ◌≢◌, refl, sym, ◌∙◌, false, List, [], ◌∷◌, ◌++◌, arith, length,
  length-append, take, drop, take-append_self, drop-append_self, get_or, u32_le, u32_from_le, IsU32,
  All, AreBytes, inl, inr, Bool-cases,
}
use ghostpp_rs.Util.{until_nul, util_encode_stat_string}
use ghostpp_rs.Util.CString.{IsText, until_nul-text}
use ghostpp_rs.Util.StatString.{IsOddByte, decode_stat_string, decode-encode, encode-IsOddByte}
use ghostpp_rs.Core.BnetProtocol.Send.{
  advert_body, Advertisement, host_counter_string, stat_bytes, is_invalid, slots_free,
  send_sid_startadvex3,
}
use ghostpp_rs.Core.BnetProtocol.Sealed.{packet-shape}
use ghostpp_rs.Core.BnetProtocol.Counter.{counter_value, host_counter_string_read}

-- What comes before the stat string is known; the rest is cut out of its bytes.
read_stats : ℕ → ℕ → List ℕ → List ℕ → ℕ → List ℕ → Advertisement
read_stats state up_time map_game_type game_name host_counter stats =
    let at_width = drop 1 (drop 4 stats) in
    let at_height = drop 2 at_width in
    let at_crc = drop 2 at_height in
    let at_path = drop 4 at_crc in
    let map_path = until_nul at_path in
    let at_host = drop 1 (drop (length map_path) at_path) in
    let host_name = until_nul at_host in
    record {
      state = state;
      map_game_type = map_game_type;
      map_flags = take 4 stats;
      map_width = take 2 at_width;
      map_height = take 2 at_height;
      game_name = game_name;
      host_name = host_name;
      up_time = up_time;
      map_path = map_path;
      map_crc = take 4 at_crc;
      map_sha1 = drop 2 (drop (length host_name) at_host);
      host_counter = host_counter;
    }

-- The name, a NUL for the password, the free slots, the counter and the stat string up to its NUL.
read_name : ℕ → ℕ → List ℕ → List ℕ → Advertisement
read_name state up_time map_game_type bytes =
    let game_name = until_nul bytes in
    let at_counter = drop 3 (drop (length game_name) bytes) in
    read_stats state up_time map_game_type game_name (counter_value (take 8 at_counter))
      (decode_stat_string (until_nul (drop 8 at_counter)))

unfoldable pub read_advertisement : List ℕ → Advertisement
unfolding read_stats read_name
read_advertisement bytes =
    read_name (get_or bytes 4 0)
      (u32_from_le (get_or bytes 8 0) (get_or bytes 9 0) (get_or bytes 10 0) (get_or bytes 11 0))
      (take 4 (drop 12 bytes)) (drop 8 (drop 4 (drop 12 bytes)))

-- The lengths that the source asks for.
abbrev pub HasLengths : Advertisement → Type 0
HasLengths a =
    (length a.map_game_type ≡ 4)
    × (length a.map_flags ≡ 4)
    × (length a.map_width ≡ 2)
    × (length a.map_height ≡ 2)
    × (length a.map_crc ≡ 4)
    × (length (util_encode_stat_string (stat_bytes a)) < 128)
    × (length (host_counter_string a.host_counter) ≡ 8)

pub is_invalid-HasLengths : (a : Advertisement) → is_invalid a ≡ false → HasLengths a
unfolding is_invalid
is_invalid-HasLengths a h = ground arith

send_valid : (a : Advertisement) → send_sid_startadvex3 a ≢ [] → is_invalid a ≡ false
unfolding send_sid_startadvex3
send_valid a h = elim (Bool-cases (is_invalid a)) [
  | inl bad ↦ absurd (h (rw bad refl))
  | inr good ↦ good
]

module _ (a : Advertisement) (lengths : HasLengths a) (path : IsText a.map_path)
    (host : IsText a.host_name) where
  read_stats-stat_bytes :
      read_stats a.state a.up_time a.map_game_type a.game_name a.host_counter (stat_bytes a) ≡ a
  unfolding read_stats stat_bytes
  read_stats-stat_bytes =
      rw
        (
          take-append_self 4 a.map_flags (0 ∷ at_width) (sym lengths.1),
          drop-append_self 4 a.map_flags (0 ∷ at_width) (sym lengths.1),
          take-append_self 2 a.map_width at_height (sym lengths.2),
          drop-append_self 2 a.map_width at_height (sym lengths.2),
          take-append_self 2 a.map_height at_crc (sym lengths.3),
          drop-append_self 2 a.map_height at_crc (sym lengths.3),
          take-append_self 4 a.map_crc at_path (sym lengths.4),
          drop-append_self 4 a.map_crc at_path (sym lengths.4),
          until_nul-text a.map_path at_host path,
          drop-append_self (length a.map_path) a.map_path (0 ∷ at_host) refl,
          until_nul-text a.host_name (0 ∷ a.map_sha1) host,
          drop-append_self (length a.host_name) a.host_name (0 ∷ 0 ∷ a.map_sha1) refl,
        )
        refl
    where
      at_host : List ℕ
      at_host = a.host_name ++ (0 ∷ 0 ∷ a.map_sha1)

      at_path : List ℕ
      at_path = a.map_path ++ (0 ∷ at_host)

      at_crc : List ℕ
      at_crc = a.map_crc ++ at_path

      at_height : List ℕ
      at_height = a.map_height ++ at_crc

      at_width : List ℕ
      at_width = a.map_width ++ at_height

odd-IsText : (bytes : List ℕ) → All IsOddByte bytes → IsText bytes
odd-IsText [] h = tt
odd-IsText (b ∷ bytes) h = (λ (is_zero : b ≡ 0). absurd (omega arith), odd-IsText bytes h.1)

module _ (a : Advertisement) (name : IsText a.game_name) (bytes : AreBytes (stat_bytes a))
    (word : IsU32 a.host_counter) where
  stats_end : List ℕ
  stats_end = util_encode_stat_string (stat_bytes a) ++ 0 ∷ []

  name_on : List ℕ
  unfolding stats_end
  name_on = a.game_name ++ (0 ∷ 0 ∷ slots_free ∷ (host_counter_string a.host_counter ++ stats_end))

  read_name-name_on :
      read_name a.state a.up_time a.map_game_type name_on
      ≡ read_stats a.state a.up_time a.map_game_type a.game_name a.host_counter (stat_bytes a)
  unfolding read_name name_on
  read_name-name_on =
      rw
        (
          until_nul-text a.game_name (0 ∷ slots_free ∷ at_counter) name,
          drop-append_self (length a.game_name) a.game_name (0 ∷ 0 ∷ slots_free ∷ at_counter) refl,
          take-append_self 8 (host_counter_string a.host_counter) stats_end (sym digits.0),
          drop-append_self 8 (host_counter_string a.host_counter) stats_end (sym digits.0),
          until_nul-text (util_encode_stat_string (stat_bytes a)) []
              (odd-IsText _ (encode-IsOddByte (stat_bytes a) bytes)),
          digits.1,
          decode-encode (stat_bytes a),
        )
        refl
    where
      at_counter : List ℕ
      at_counter = host_counter_string a.host_counter ++ stats_end

      digits :
          (length (host_counter_string a.host_counter) ≡ 8)
          × (counter_value (host_counter_string a.host_counter) ≡ a.host_counter)
      digits = host_counter_string_read a.host_counter word

-- Every advertisement that the bot sends at all is read back as it was given, field by field: its texts
-- have no NUL, the name at most 60000 bytes, the stat string is of bytes, and the counter and the time
-- have 32 bits.
pub read_advertisement-send :
    (a : Advertisement)
    → send_sid_startadvex3 a ≢ []
    → IsText a.game_name × IsText a.map_path × IsText a.host_name
    → length a.game_name ≤ 60000
    → AreBytes (stat_bytes a)
    → IsU32 a.up_time × IsU32 a.host_counter
    → read_advertisement (send_sid_startadvex3 a) ≡ a
unfolding read_advertisement send_sid_startadvex3 advert_body name_on
read_advertisement-send a sent (name, path, host) room bytes (time, counter) =
    rw
      (
        valid,
        packet-shape 28 body fits,
        take-append_self 4 a.map_game_type rest (sym lengths.0),
        drop-append_self 4 a.map_game_type rest (sym lengths.0),
        up_time,
      )
      (read_name-name_on a name bytes counter ∙ read_stats-stat_bytes a lengths path host)
  where
    valid : is_invalid a ≡ false
    valid = send_valid a sent

    lengths : HasLengths a
    lengths = is_invalid-HasLengths a valid

    rest : List ℕ
    rest = 255 ∷ 3 ∷ 0 ∷ 0 ∷ 0 ∷ 0 ∷ 0 ∷ 0 ∷ name_on a name bytes counter

    body : List ℕ
    body = a.state ∷ 0 ∷ 0 ∷ 0 ∷ u32_le a.up_time ++ (a.map_game_type ++ rest)

    fits : length body ≤ 65531
    fits = omega (
      arith,
      length-append a.map_game_type rest,
      lengths.0,
      lengths.5,
      (host_counter_string_read a.host_counter counter).0,
      length-append a.game_name (
          0
          ∷ 0
          ∷ slots_free
          ∷ (host_counter_string a.host_counter ++ stats_end a name bytes counter)),
      length-append (host_counter_string a.host_counter) (stats_end a name bytes counter),
      length-append (util_encode_stat_string (stat_bytes a)) (0 ∷ []),
    )

    up_time :
        u32_from_le
          (a.up_time % 256)
          (a.up_time / 256 % 256)
          (a.up_time / 65536 % 256)
          (a.up_time / 16777216 % 256)
        ≡ a.up_time
    up_time = omega arith
