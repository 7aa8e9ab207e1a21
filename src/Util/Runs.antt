-- ===== src/Util/Runs.antt =====
-- The byte helpers of src/util.rs on concrete bytes.
use ghostpp_rs.Prelude.{ℕ, ◌≤◌, ◌<◌, ◌≡◌, refl, true, false, List, [], ◌∷◌, take}
use ghostpp_rs.Util.{util_encode_stat_string, util_truncate_str, is_char_boundary}
use ghostpp_rs.Util.Truncate.{util_truncate_str_lem}
use ghostpp_rs.Util.StatString.{decode_stat_string, decode-encode}

abbrev stat : List ℕ
stat = 2 ∷ 72 ∷ 6 ∷ 0 ∷ 100 ∷ 0 ∷ 100 ∷ 0 ∷ 255 ∷ []

encode_stat : util_encode_stat_string stat ≡ 1 ∷ 3 ∷ 73 ∷ 7 ∷ 1 ∷ 101 ∷ 1 ∷ 101 ∷ 5 ∷ 1 ∷ 255 ∷ []
unfolding util_encode_stat_string
encode_stat = refl

decode-encode_example : decode_stat_string (util_encode_stat_string stat) ≡ stat
decode-encode_example = decode-encode stat

util_truncate_str_lem_example :
    (end : ℕ) × (util_truncate_str (65 ∷ 0xC3 ∷ 0xA9 ∷ 66 ∷ []) 2
      ≡ take end (65 ∷ 0xC3 ∷ 0xA9 ∷ 66 ∷ []))
    × (end ≤ 4)
    × (end ≤ 2)
    × (is_char_boundary (65 ∷ 0xC3 ∷ 0xA9 ∷ 66 ∷ []) end ≡ true)
    × ((i : ℕ) → end < i → i ≤ 2 → is_char_boundary (65 ∷ 0xC3 ∷ 0xA9 ∷ 66 ∷ []) i ≡ false)
util_truncate_str_lem_example = util_truncate_str_lem (65 ∷ 0xC3 ∷ 0xA9 ∷ 66 ∷ []) 2
