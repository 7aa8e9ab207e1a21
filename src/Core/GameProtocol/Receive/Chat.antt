-- ===== src/Core/GameProtocol/Receive/Chat.antt =====
-- receive_w3gs_chat_to_host of src/core/gameprotocol.rs on every input.
use ghostpp_rs.Prelude.{
  ℕ, zero, suc, ◌+◌, ◌≤◌, ◌<◌, ◌≡◌, ◌≢◌, ◌⊎◌, ◌↔◌, refl, true, List, [], ◌∷◌, ◌++◌, arith, length,
  get_or, index, ret, panic, take, drop, All,
}
use ghostpp_rs.Util.{validate_length, until_nul}
use ghostpp_rs.Core.GameProtocol.Receive.{
  receive_w3gs_chat_to_host, chat_of_total, chat_body, chat_of_flag,
}

index-ret : (xs : List ℕ) (i : ℕ) → i < length xs → index xs i ≡ ret (get_or xs i 0)
index-ret [] i h = absurd (omega arith)
index-ret (x ∷ xs) zero h = refl
index-ret (x ∷ xs) (suc i) h = index-ret xs i (omega arith)

index-panic : (xs : List ℕ) (i : ℕ) → length xs ≤ i → index xs i ≡ panic
index-panic [] i h = refl
index-panic (x ∷ xs) zero h = absurd (omega arith)
index-panic (x ∷ xs) (suc i) h = index-panic xs i (omega arith)

chat_of_flag-ne-panic :
    (bytes : List ℕ) (from_pid : ℕ) (to_pids : List ℕ) (flag i : ℕ)
    → chat_of_flag bytes from_pid to_pids flag i ≢ panic
unfolding chat_of_flag
chat_of_flag-ne-panic bytes from_pid to_pids flag i = ground (arith, index-ret bytes i)

-- The packets on which the reader indexes past the end: a bare header, and a list of receivers that
-- reaches to the end of the packet or stops one byte before it.
abbrev pub IsTruncatedChat : List ℕ → Type 0
IsTruncatedChat bytes =
    (length bytes ≡ 4)
    ⊎ ((0 < get_or bytes 4 0)
        × (get_or bytes 4 0 ≤ 12)
        × (5 + get_or bytes 4 0 ≤ length bytes)
        × (length bytes < 7 + get_or bytes 4 0))

chat_body_cases :
    (bytes : List ℕ) (total : ℕ)
    → (length bytes < 7 + total → chat_body bytes total ≡ panic)
      × (7 + total ≤ length bytes → chat_body bytes total ≢ panic)
unfolding chat_body
chat_body_cases bytes total = (
  λ h. ground (
    arith,
    index-ret bytes (5 + total),
    index-panic bytes (5 + total),
    index-panic bytes (5 + total + 1),
  ),
  λ h e. ground (
    arith,
    index-ret bytes (5 + total),
    index-ret bytes (5 + total + 1),
    chat_of_flag-ne-panic bytes (get_or bytes (5 + total) 0) (take total (drop 5 bytes))
        (get_or bytes (5 + total + 1) 0) (5 + total + 2),
  ),
)

chat_of_total_cases :
    (bytes : List ℕ) (total : ℕ)
    → (chat_of_total bytes total ≡ panic)
      ↔ ((0 < total) × (total ≤ 12) × (5 + total ≤ length bytes) × (length bytes < 7 + total))
unfolding chat_of_total
chat_of_total_cases bytes total = ground (arith, chat_body_cases bytes total)

validate_length_le : (bytes : List ℕ) → validate_length bytes ≡ true → 4 ≤ length bytes
unfolding validate_length
validate_length_le bytes h = ground arith

-- receive_w3gs_chat_to_host panics on exactly the truncated packets with a right length field.
pub chat_to_host_panics :
    (bytes : List ℕ)
    → (receive_w3gs_chat_to_host bytes ≡ panic)
      ↔ ((validate_length bytes ≡ true) × IsTruncatedChat bytes)
unfolding receive_w3gs_chat_to_host
chat_to_host_panics bytes = ground (
  arith,
  index-ret bytes 4,
  index-panic bytes 4,
  chat_of_total_cases bytes (get_or bytes 4 0),
  validate_length_le bytes,
)

pub until_nul-append_nul :
    (text rest : List ℕ) → All (λ b. b ≢ 0) text → until_nul (text ++ 0 ∷ rest) ≡ text
unfolding until_nul
until_nul-append_nul [] rest h = refl
until_nul-append_nul (b ∷ text) rest h = ground (arith, until_nul-append_nul text rest h.1)
