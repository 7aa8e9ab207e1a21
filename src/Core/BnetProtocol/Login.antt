-- ===== src/Core/BnetProtocol/Login.antt =====
-- The login to Battle.net and the chat events of src/core/bnetprotocol.rs: the packets of a server, as
-- the bot reads them.
use ghostpp_rs.Prelude.{
  ℕ, ◌+◌, ◌%◌, ◌≤◌, ◌<◌, ◌≡◌, ◌≢◌, refl, ◌∙◌, true, false, List, [], ◌∷◌, ◌++◌, arith, length,
  length-append, IsU32, u32_le, take, drop, ◌==◌, some, take-append_self, drop-append_self,
  take_all, sym, ◌||◌, any, leb, le→leb,
}
use ghostpp_rs.Prelude.Utf8.{from_utf8_lossy}
use ghostpp_rs.Util.{util_extract_cstring, util_byte_array_to_u32}
use ghostpp_rs.Util.CString.{
  IsText, IsUtf8, util_extract_cstring-append, util_extract_cstring-behind,
  util_extract_cstring-text,
}
use ghostpp_rs.Core.BnetProtocol.{BnetProtocol}
use ghostpp_rs.Core.BnetProtocol.Receive.{
  receive_sid_enterchat, receive_sid_auth_info, receive_sid_auth_check,
  receive_sid_auth_accountlogon, receive_sid_auth_accountlogonproof, receive_sid_chatevent,
  chat_events,
}
use ghostpp_rs.Core.BnetProtocol.Send.{packet}
use ghostpp_rs.Core.BnetProtocol.Sealed.{shape, packet-shape, shape_valid}

-- What a server answers in the course of a login. The times of the file are two words.
pub record Answers : Type 0 where
  pub logon_type : ℕ
  pub server_token : ℕ
  pub udp_value : ℕ
  pub file_time_low : ℕ
  pub file_time_high : ℕ
  pub file_name : List ℕ
  pub formula : List ℕ
  pub key_state : ℕ
  pub key_description : List ℕ
  pub salt : List ℕ
  pub public_key : List ℕ
  pub proof_status : ℕ
  pub account : List ℕ
  pub stat_string : List ℕ

abbrev pub auth_info_body : Answers → List ℕ
auth_info_body s =
    u32_le s.logon_type
    ++ (u32_le s.server_token
        ++ (u32_le s.udp_value
            ++ (u32_le s.file_time_low
                ++ (u32_le s.file_time_high ++ (s.file_name ++ 0 ∷ (s.formula ++ 0 ∷ []))))))

-- The word behind the header, and the third one.
first_word :
    (id n : ℕ) (rest : List ℕ)
    → IsU32 n
    → util_byte_array_to_u32 (shape id (u32_le n ++ rest)) false 4 ≡ n
unfolding util_byte_array_to_u32
first_word id n rest h = ground arith

third_word :
    (id a b n : ℕ) (rest : List ℕ)
    → IsU32 n
    → util_byte_array_to_u32 (shape id (u32_le a ++ (u32_le b ++ (u32_le n ++ rest)))) false 12 ≡ n
unfolding util_byte_array_to_u32
third_word id a b n rest h = ground arith

module _ (s : Answers) (p : BnetProtocol) where
  receive-auth_info :
      IsUtf8 s.file_name
      → IsUtf8 s.formula
      → length s.file_name + length s.formula ≤ 60000
      → receive_sid_auth_info (packet 80 (auth_info_body s)) p ≡ (
        record p {
          login_type = u32_le s.logon_type;
          server_token = u32_le s.server_token;
          mpqfile_time = u32_le s.file_time_low ++ u32_le s.file_time_high;
          ix86ver_file_name = s.file_name;
          value_string_formula = s.formula;
        },
        true,
      )
  unfolding receive_sid_auth_info
  receive-auth_info h k room =
      rw
        (
          packet-shape 80 (auth_info_body s) fits,
          shape_valid 80 (auth_info_body s) fits,
          file,
          formula,
          long,
        )
        refl
    where
      bytes : List ℕ
      bytes = shape 80 (auth_info_body s)

      size :
          length (s.file_name ++ 0 ∷ (s.formula ++ 0 ∷ []))
          ≡ length s.file_name + length s.formula + 2
      size = omega (
        arith,
        length-append s.file_name (0 ∷ (s.formula ++ 0 ∷ [])),
        length-append s.formula (0 ∷ []),
      )

      fits : length (auth_info_body s) ≤ 65531
      fits = omega (arith, size)

      long : leb 25 (length bytes) ≡ true
      long = le→leb 25 (length bytes) (omega (arith, size))

      file : util_extract_cstring bytes 24 ≡ s.file_name
      file =
          util_extract_cstring-append 24 (take 24 bytes) s.file_name (s.formula ++ 0 ∷ []) refl h.0
          ∙ h.1

      formula : util_extract_cstring bytes (length s.file_name + 25) ≡ s.formula
      formula =
          util_extract_cstring-behind (length s.file_name + 25) 0 (take 24 bytes) s.file_name
            (s.formula ++ 0 ∷ []) (omega arith)
          ∙ (util_extract_cstring-text s.formula [] k.0 ∙ k.1)

  receive-auth_check :
      IsUtf8 s.key_description
      → IsU32 s.key_state
      → length s.key_description ≤ 60000
      → receive_sid_auth_check (packet 81 (u32_le s.key_state ++ (s.key_description ++ 0 ∷ []))) p
        ≡ (
          record p { key_state = u32_le s.key_state; key_state_description = s.key_description },
          s.key_state == 0,
        )
  unfolding receive_sid_auth_check util_byte_array_to_u32
  receive-auth_check h word room =
      rw (packet-shape 81 body fits, shape_valid 81 body fits, description, long, value) refl
    where
      body : List ℕ
      body = u32_le s.key_state ++ (s.key_description ++ 0 ∷ [])

      fits : length body ≤ 65531
      fits = omega (arith, length-append s.key_description (0 ∷ []))

      long : leb 9 (length (shape 81 body)) ≡ true
      long =
          le→leb 9 (length (shape 81 body))
            (omega (arith, length-append s.key_description (0 ∷ [])))

      description : util_extract_cstring (shape 81 body) 8 ≡ s.key_description
      description =
          util_extract_cstring-append 8 (take 8 (shape 81 body)) s.key_description [] refl h.0 ∙ h.1

      value : util_byte_array_to_u32 (u32_le s.key_state) false 0 ≡ s.key_state
      value = omega arith

  receive-accountlogon :
      length s.salt ≡ 32
      → length s.public_key ≡ 32
      → receive_sid_auth_accountlogon (packet 83 (u32_le 0 ++ (s.salt ++ s.public_key))) p
        ≡ (record p { salt = s.salt; server_public_key = s.public_key }, true)
  unfolding receive_sid_auth_accountlogon
  receive-accountlogon h k =
      rw
        (
          packet-shape 83 body fits,
          shape_valid 83 body fits,
          first_word 83 0 (s.salt ++ s.public_key) (omega arith),
          short,
          long,
          salt,
          key,
        )
        refl
    where
      body : List ℕ
      body = u32_le 0 ++ (s.salt ++ s.public_key)

      fits : length body ≤ 65531
      fits = omega (arith, length-append s.salt s.public_key)

      size : length (shape 83 body) ≡ 72
      size = omega (arith, length-append s.salt s.public_key)

      short : leb 8 (length (shape 83 body)) ≡ true
      short = le→leb 8 (length (shape 83 body)) (omega (arith, size))

      long : leb 72 (length (shape 83 body)) ≡ true
      long = le→leb 72 (length (shape 83 body)) (omega (arith, size))

      salt : take 32 (s.salt ++ s.public_key) ≡ s.salt
      salt = take-append_self 32 s.salt s.public_key (sym h)

      key : take 32 (drop 32 (s.salt ++ s.public_key)) ≡ s.public_key
      key =
          rw (drop-append_self 32 s.salt s.public_key (sym h))
            (take_all 32 s.public_key (omega arith))

  receive-enterchat :
      IsUtf8 s.account
      → length s.account + length s.stat_string ≤ 60000
      → receive_sid_enterchat (packet 10 (s.account ++ 0 ∷ (s.stat_string ++ 0 ∷ []))) p
        ≡ (record p { unique_name = s.account }, true)
  unfolding receive_sid_enterchat
  receive-enterchat h room =
      rw (packet-shape 10 body fits, shape_valid 10 body fits, long, account) refl
    where
      body : List ℕ
      body = s.account ++ 0 ∷ (s.stat_string ++ 0 ∷ [])

      size : length body ≡ length s.account + length s.stat_string + 2
      size = omega (
        arith,
        length-append s.account (0 ∷ (s.stat_string ++ 0 ∷ [])),
        length-append s.stat_string (0 ∷ []),
      )

      fits : length body ≤ 65531
      fits = omega (arith, size)

      long : leb 5 (length (shape 10 body)) ≡ true
      long = le→leb 5 (length (shape 10 body)) (omega (arith, size))

      account : util_extract_cstring (shape 10 body) 4 ≡ s.account
      account =
          util_extract_cstring-append 4 (take 4 (shape 10 body)) s.account (s.stat_string ++ 0 ∷ [])
            refl h.0
          ∙ h.1

  receive-refused :
      (status : ℕ) (rest : List ℕ)
      → IsU32 status
      → status ≢ 0
      → length rest ≤ 60000
      → receive_sid_auth_accountlogon (packet 83 (u32_le status ++ rest)) p ≡ (p, false)
  unfolding receive_sid_auth_accountlogon util_byte_array_to_u32
  receive-refused status rest word bad room =
      rw
        (
          packet-shape 83 (u32_le status ++ rest) (omega arith),
          shape_valid 83 (u32_le status ++ rest) (omega arith),
        )
        (ground arith)

  receive-proof :
      (status : ℕ)
      → IsU32 status
      → receive_sid_auth_accountlogonproof (packet 84 (u32_le status))
        ≡ (status == 0 || status == 14)
  unfolding receive_sid_auth_accountlogonproof util_byte_array_to_u32
  receive-proof status word =
      rw
        (
          packet-shape 84 (u32_le status) (omega arith),
          shape_valid 84 (u32_le status) (omega arith),
        )
        (ground arith)

-- What the bot keeps of a whole login: from every state, each answer of the server is stored as it was
-- sent, for texts in UTF-8 of at most 60000 bytes in all, and 32 bytes of salt and of key; the key check
-- succeeds exactly with the state 0, a logon with another status than 0 stores nothing and fails, and a
-- proof succeeds exactly with the status 0 or 14.
pub receive_login :
    (s : Answers) (p : BnetProtocol) (refused : ℕ) (rest : List ℕ)
    → IsUtf8 s.file_name × IsUtf8 s.formula × IsUtf8 s.key_description × IsUtf8 s.account
    → length s.file_name
        + length s.formula
        + length s.key_description
        + length s.account
        + length s.stat_string
        + length rest
      ≤ 60000
    → IsU32 s.key_state × IsU32 s.proof_status × IsU32 refused
    → (length s.salt ≡ 32) × (length s.public_key ≡ 32)
    → refused ≢ 0
    → (receive_sid_auth_info (packet 80 (auth_info_body s)) p ≡ (
      record p {
        login_type = u32_le s.logon_type;
        server_token = u32_le s.server_token;
        mpqfile_time = u32_le s.file_time_low ++ u32_le s.file_time_high;
        ix86ver_file_name = s.file_name;
        value_string_formula = s.formula;
      },
      true,
    ))
      × (receive_sid_auth_check (packet 81 (u32_le s.key_state ++ (s.key_description ++ 0 ∷ []))) p
          ≡ (
            record p { key_state = u32_le s.key_state; key_state_description = s.key_description },
            s.key_state == 0,
          ))
      × (receive_sid_auth_accountlogon (packet 83 (u32_le 0 ++ (s.salt ++ s.public_key))) p
          ≡ (record p { salt = s.salt; server_public_key = s.public_key }, true))
      × (receive_sid_auth_accountlogon (packet 83 (u32_le refused ++ rest)) p ≡ (p, false))
      × (receive_sid_auth_accountlogonproof (packet 84 (u32_le s.proof_status))
          ≡ (s.proof_status == 0 || s.proof_status == 14))
      × (receive_sid_enterchat (packet 10 (s.account ++ 0 ∷ (s.stat_string ++ 0 ∷ []))) p
          ≡ (record p { unique_name = s.account }, true))
receive_login s p refused rest (file, formula, description, account) room (state, proof, word)
      (salt, key) bad =
    (
      receive-auth_info s p file formula (omega arith),
      receive-auth_check s p description state (omega arith),
      receive-accountlogon s p salt key,
      receive-refused s p refused rest word bad (omega arith),
      receive-proof s p s.proof_status proof,
      receive-enterchat s p account (omega arith),
    )

-- A chat event behind its flags and twelve bytes that the bot skips.
abbrev pub chat_body : ℕ → ℕ → ℕ → List ℕ → List ℕ → List ℕ
chat_body event flags ping user message =
    u32_le event
    ++ (u32_le flags
        ++ (u32_le ping
            ++ (u32_le 0 ++ (u32_le 0 ++ (u32_le 0 ++ (user ++ 0 ∷ (message ++ 0 ∷ [])))))))

-- The parser takes the length of the decoded user for the length on the wire. For a known event, a user
-- without NUL and at most 60000 bytes of text, it finds the event, the ping and the decoded user, and
-- reads the message from its byte `k` on, where `k` is what lossy decoding adds to the user: 0 for UTF-8.
pub receive_chatevent_late :
    (event flags ping k : ℕ) (user message : List ℕ)
    → event < 256
    → IsU32 ping
    → any (λ eid. eid == event) chat_events ≡ true
    → IsText user
    → length user + length message ≤ 60000
    → length (from_utf8_lossy user) ≡ length user + k
    → receive_sid_chatevent (packet 15 (chat_body event flags ping user message))
      ≡ some (record {
        user = from_utf8_lossy user;
        message = util_extract_cstring (message ++ 0 ∷ []) k;
        chat_event = event;
        ping = ping;
      })
unfolding receive_sid_chatevent
receive_chatevent_late event flags ping k user message byte word known utext room late =
    rw
      (
        packet-shape 15 body fits,
        shape_valid 15 body fits,
        first_word 15 event _ (omega arith),
        third_word 15 event flags ping _ word,
        name,
        text,
        long,
        as_byte,
        known,
      )
      refl
  where
    body : List ℕ
    body = chat_body event flags ping user message

    size : length (user ++ 0 ∷ (message ++ 0 ∷ [])) ≡ length user + length message + 2
    size =
        omega (arith, length-append user (0 ∷ (message ++ 0 ∷ [])), length-append message (0 ∷ []))

    fits : length body ≤ 65531
    fits = omega (arith, size)

    long : leb 29 (length (shape 15 body)) ≡ true
    long = le→leb 29 (length (shape 15 body)) (omega (arith, size))

    as_byte : event % 256 ≡ event
    as_byte = omega arith

    name : util_extract_cstring (shape 15 body) 28 ≡ from_utf8_lossy user
    name =
        util_extract_cstring-append 28 (take 28 (shape 15 body)) user (message ++ 0 ∷ []) refl utext

    text :
        util_extract_cstring (shape 15 body) (length (from_utf8_lossy user) + 29)
        ≡ util_extract_cstring (message ++ 0 ∷ []) k
    text =
        util_extract_cstring-behind _ k (take 28 (shape 15 body)) user (message ++ 0 ∷ [])
          (omega arith)
