-- ===== src/Core/BnetProtocol/Runs.antt =====
-- The packets of src/core/bnetprotocol.rs on concrete values.
use ghostpp_rs.Prelude.{
  ℕ, ◌≡◌, ◌≢◌, refl, ap, true, false, List, [], ◌∷◌, ◌++◌, arith, length, replicate, some, u32_le,
}
use ghostpp_rs.Prelude.Text.{codes, hexadecimal, hex_digits}
use ghostpp_rs.Prelude.Utf8.{from_utf8_lossy, from_utf8_lossy_ascii}
use ghostpp_rs.Util.{util_extract_cstring, util_encode_stat_string, util_to_hex_string}
use ghostpp_rs.Util.CString.{IsUtf8}
use ghostpp_rs.Core.BnetProtocol.{new}
use ghostpp_rs.Core.BnetProtocol.Receive.{
  receive_sid_friendlist, receive_sid_clanmemberlist, receive_sid_enterchat, receive_sid_auth_info,
  receive_sid_auth_check, receive_sid_auth_accountlogon, receive_sid_auth_accountlogonproof,
  receive_sid_chatevent,
}
use ghostpp_rs.Core.BnetProtocol.Send.{
  Advertisement, packet, send_sid_startadvex3, is_invalid, stat_bytes, host_counter_string,
  advert_body,
}
use ghostpp_rs.Core.BnetProtocol.Sealed.{IsFramed, packet-ne-nil}
use ghostpp_rs.Core.BnetProtocol.Lists.{Entry, names, entry_bytes, receive_lists}
use ghostpp_rs.Core.BnetProtocol.Login.{
  Answers, auth_info_body, receive_login, chat_body, receive_chatevent_late,
}
use ghostpp_rs.Core.BnetProtocol.Advert.{read_advertisement, read_advertisement-send}
use ghostpp_rs.Core.BnetProtocol.Framed.{startadvex3, built-IsFramed}

abbrev text : List ℕ
text = codes "Ann"

text-ascii : from_utf8_lossy text ≡ text
text-ascii = from_utf8_lossy_ascii text (omega arith)

text-IsUtf8 : IsUtf8 text
text-IsUtf8 = (omega arith, text-ascii)

empty-IsUtf8 : IsUtf8 []
empty-IsUtf8 = (tt, from_utf8_lossy_ascii [] tt)

abbrev friends : List Entry
friends =
    record { name = text; skipped = replicate 6 1; location = text }
    ∷ record { name = text; skipped = replicate 6 2; location = [] }
    ∷ []

abbrev members : List Entry
members = record { name = text; skipped = 4 ∷ 1 ∷ []; location = text } ∷ []

receive_lists_example :
    (receive_sid_friendlist (packet 101 (2 ∷ entry_bytes friends)) ≡ names friends)
    × (receive_sid_clanmemberlist (packet 125 (u32_le 7 ++ (1 ∷ entry_bytes members)))
        ≡ names members)
unfolding entry_bytes
receive_lists_example =
    receive_lists friends members 7 (omega arith) (omega arith)
      ((text-IsUtf8, refl, text-IsUtf8), ((text-IsUtf8, refl, empty-IsUtf8), tt))
      ((text-IsUtf8, refl, text-IsUtf8), tt) (omega arith) (omega arith)

-- 0xA4 is no UTF-8: it becomes the three bytes of U+FFFD, so the message is read two bytes late.
late : from_utf8_lossy (0xA4 ∷ []) ≡ 239 ∷ 191 ∷ 189 ∷ []
unfolding from_utf8_lossy
late = refl

receive_chatevent_late_example :
    receive_sid_chatevent (packet 15 (chat_body 5 0 30 (0xA4 ∷ []) (codes "hello")))
    ≡ some (record {
      user = from_utf8_lossy (0xA4 ∷ []);
      message = util_extract_cstring (codes "hello" ++ 0 ∷ []) 2;
      chat_event = 5;
      ping = 30;
    })
receive_chatevent_late_example =
    receive_chatevent_late 5 0 30 2 (0xA4 ∷ []) (codes "hello") (omega arith) (omega arith) refl
      (omega arith) (omega arith) (ap length late)

abbrev answers : Answers
answers = record {
  logon_type = 2;
  server_token = 0xDEADBEEF;
  udp_value = 0;
  file_time_low = 5;
  file_time_high = 9;
  file_name = text;
  formula = text;
  key_state = 513;
  key_description = text;
  salt = replicate 32 7;
  public_key = replicate 32 8;
  proof_status = 14;
  account = text;
  stat_string = text;
}

receive_login_example :
    (receive_sid_auth_info (packet 80 (auth_info_body answers)) new ≡ (
      record new {
        login_type = u32_le 2;
        server_token = u32_le 0xDEADBEEF;
        mpqfile_time = u32_le 5 ++ u32_le 9;
        ix86ver_file_name = text;
        value_string_formula = text;
      },
      true,
    ))
    × (receive_sid_auth_check (packet 81 (u32_le 513 ++ (text ++ 0 ∷ []))) new
        ≡ (record new { key_state = u32_le 513; key_state_description = text }, false))
    × (receive_sid_auth_accountlogon
          (packet 83 (u32_le 0 ++ (replicate 32 7 ++ replicate 32 8)))
          new
        ≡ (record new { salt = replicate 32 7; server_public_key = replicate 32 8 }, true))
    × (receive_sid_auth_accountlogon (packet 83 (u32_le 1 ++ (3 ∷ []))) new ≡ (new, false))
    × (receive_sid_auth_accountlogonproof (packet 84 (u32_le 14)) ≡ true)
    × (receive_sid_enterchat (packet 10 (text ++ 0 ∷ (text ++ 0 ∷ []))) new
        ≡ (record new { unique_name = text }, true))
receive_login_example =
    receive_login answers new 1 (3 ∷ []) (text-IsUtf8, text-IsUtf8, text-IsUtf8, text-IsUtf8)
      (omega arith) (omega arith) (refl, refl) (omega arith)

abbrev advert : Advertisement
advert = record {
  state = 16;
  map_game_type = 1 ∷ 32 ∷ 73 ∷ 0 ∷ [];
  map_flags = 2 ∷ 72 ∷ 6 ∷ 0 ∷ [];
  map_width = 116 ∷ 0 ∷ [];
  map_height = 116 ∷ 0 ∷ [];
  game_name = text;
  host_name = text;
  up_time = 70000;
  map_path = text;
  map_crc = 1 ∷ 2 ∷ 3 ∷ 4 ∷ [];
  map_sha1 = replicate 20 9;
  host_counter = 0xABC1;
}

advert_valid : is_invalid advert ≡ false
unfolding is_invalid host_counter_string stat_bytes util_encode_stat_string util_to_hex_string
    hexadecimal hex_digits
advert_valid = refl

advert_sent : send_sid_startadvex3 advert ≢ []
unfolding send_sid_startadvex3
advert_sent = rw advert_valid (packet-ne-nil 28 (advert_body advert))

read_advertisement-send_example : read_advertisement (send_sid_startadvex3 advert) ≡ advert
unfolding stat_bytes
read_advertisement-send_example =
    read_advertisement-send advert advert_sent (omega arith) (omega arith) (omega arith)
      (omega arith)

built-IsFramed_example : IsFramed 28 (send_sid_startadvex3 advert)
built-IsFramed_example = built-IsFramed (startadvex3 advert) (omega arith) advert_sent
