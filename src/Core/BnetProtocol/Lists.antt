-- ===== src/Core/BnetProtocol/Lists.antt =====
-- receive_sid_friendlist and receive_sid_clanmemberlist of src/core/bnetprotocol.rs, on the packets of a
-- server.
use ghostpp_rs.Prelude.{
  ℕ, suc, ◌+◌, ◌≤◌, ◌<◌, ◌≡◌, refl, ap, ◌∙◌, List, [], ◌∷◌, ◌++◌, map, arith, length, length-append,
  append_assoc, All, u32_le, take,
}
use ghostpp_rs.Util.{util_extract_cstring}
use ghostpp_rs.Util.CString.{IsUtf8, util_extract_cstring-append}
use ghostpp_rs.Core.BnetProtocol.Receive.{
  entries, receive_sid_friendlist, receive_sid_clanmemberlist,
}
use ghostpp_rs.Core.BnetProtocol.Send.{packet}
use ghostpp_rs.Core.BnetProtocol.Sealed.{shape, packet-shape, shape_valid}

-- An entry of either list: a name, the bytes that the bot skips, and a location.
pub record Entry : Type 0 where
  pub name : List ℕ
  pub skipped : List ℕ
  pub location : List ℕ

abbrev pub IsEntry : ℕ → Entry → Type 0
IsEntry skip e = IsUtf8 e.name × (length e.skipped ≡ skip) × IsUtf8 e.location

abbrev name_of : Entry → List ℕ
name_of e = e.name

abbrev pub names : List Entry → List (List ℕ)
names = map name_of

unfoldable pub entry_bytes : List Entry → List ℕ
entry_bytes [] = []
entry_bytes (e ∷ es) = e.name ++ (0 ∷ (e.skipped ++ (e.location ++ (0 ∷ entry_bytes es))))

-- One round of the loop.
entries_step :
    (skip total i : ℕ) (bytes name location : List ℕ)
    → util_extract_cstring bytes i ≡ name
    → util_extract_cstring bytes (i + (length name + 1) + skip) ≡ location
    → i + (length name + 1) + (skip + 1) ≤ length bytes
    → entries skip (suc total) i bytes
      ≡ name ∷ entries skip total (i + (length name + 1) + skip + (length location + 1)) bytes
unfolding entries
entries_step skip total i bytes name location e f room = rw (e, f) (ground arith)

module _ (front : List ℕ) (e : Entry) (rest : List ℕ) where
  before_location : List ℕ
  before_location = front ++ (e.name ++ (0 ∷ e.skipped))

  before_rest : List ℕ
  unfolding before_location
  before_rest = before_location ++ (e.location ++ (0 ∷ []))

  entry : List ℕ
  entry = e.name ++ (0 ∷ (e.skipped ++ (e.location ++ (0 ∷ rest))))

  at_location : front ++ entry ≡ before_location ++ (e.location ++ (0 ∷ rest))
  unfolding entry before_rest
  at_location = simp (append_assoc)

  at_rest : front ++ entry ≡ before_rest ++ rest
  unfolding entry before_rest
  at_rest = simp (append_assoc)

  length-before_location :
      length before_location ≡ length front + (length e.name + 1) + length e.skipped
  unfolding before_location
  length-before_location =
      omega (
        arith,
        length-append front (e.name ++ (0 ∷ e.skipped)),
        length-append e.name (0 ∷ e.skipped),
      )

  length-before_rest : length before_rest ≡ length before_location + (length e.location + 1)
  unfolding before_rest
  length-before_rest = omega (
    arith,
    length-append before_location (e.location ++ (0 ∷ [])),
    length-append e.location (0 ∷ []),
  )

entries-entry_bytes :
    (skip : ℕ) (es : List Entry) (i : ℕ) (front : List ℕ)
    → i ≡ length front
    → All (IsEntry skip) es
    → entries skip (length es) i (front ++ entry_bytes es) ≡ names es
unfolding entry_bytes entry
entries-entry_bytes skip [] i front e h = unfold entries in refl
entries-entry_bytes skip (x ∷ es) i front e ((name, skipped, location), hs) =
    entries_step skip (length es) i (front ++ entry front x rest) x.name x.location
      (util_extract_cstring-append i front x.name _ e name.0 ∙ name.1)
      (rw (at_location front x rest) (
        util_extract_cstring-append _ (before_location front x rest) x.location rest
          (omega (arith, length-before_location front x rest)) location.0
        ∙ location.1))
      (rw (at_location front x rest) (
        omega (
          arith,
          length-append (before_location front x rest) (x.location ++ (0 ∷ rest)),
          length-append x.location (0 ∷ rest),
          length-before_location front x rest,
        )))
    ∙ ap (λ names. x.name ∷ names)
        (rw (at_rest front x rest) (
          entries-entry_bytes skip es _ (before_rest front x rest)
            (omega (arith, length-before_location front x rest, length-before_rest front x rest))
            hs))
  where
    rest : List ℕ
    rest = entry_bytes es

-- A list of friends of at most 255 entries, as the server sends it, gives the accounts in order; and so
-- does a list of clan members, behind its cookie.
pub receive_lists :
    (friends members : List Entry) (cookie : ℕ)
    → length friends < 256
    → length members < 256
    → All (IsEntry 6) friends
    → All (IsEntry 2) members
    → length (entry_bytes friends) ≤ 65000
    → length (entry_bytes members) ≤ 65000
    → (receive_sid_friendlist (packet 101 (length friends ∷ entry_bytes friends)) ≡ names friends)
      × (receive_sid_clanmemberlist
            (packet 125 (u32_le cookie ++ (length members ∷ entry_bytes members)))
          ≡ names members)
unfolding receive_sid_friendlist receive_sid_clanmemberlist
receive_lists friends members cookie h k hs ks r q = (
  rw (packet-shape 101 friends_body (omega arith), shape_valid 101 friends_body (omega arith))
      (ground (arith, entries-entry_bytes 6 friends 5 (take 5 (shape 101 friends_body)) refl hs)),
  rw (packet-shape 125 members_body (omega arith), shape_valid 125 members_body (omega arith))
      (ground (arith, entries-entry_bytes 2 members 9 (take 9 (shape 125 members_body)) refl ks)),
)
  where
    friends_body : List ℕ
    friends_body = length friends ∷ entry_bytes friends

    members_body : List ℕ
    members_body = u32_le cookie ++ (length members ∷ entry_bytes members)
