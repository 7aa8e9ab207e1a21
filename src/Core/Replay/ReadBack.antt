-- ===== src/Core/Replay/ReadBack.antt =====
-- The recorded blocks of src/core/replay.rs read back: the reader undoes the recorder.
use ghostpp_rs.Prelude.{
  ℕ, zero, suc, ◌+◌, ◌-◌, ◌/◌, ◌%◌, ◌^◌, ◌≤◌, ◌≡◌, refl, sym, ap, ◌∙◌, List, [], ◌∷◌, ◌++◌, arith,
  length, length-append, take, drop, All, IsU16, u16_from_le, append_assoc, append-nil, as_u16,
  take-append_self, drop-append_self, Option, some,
}
use ghostpp_rs.Core.GameProtocol.Send.Actions.{read_actions}
use ghostpp_rs.Core.Replay.{
  ReplayRecorder, slot_actions, time_slot_block, chat_block, leave_block, add_time_slot,
  add_time_slot2, add_chat, add_leave, replay_timeslot, replay_timeslot2, push_time_slot,
}
use ghostpp_rs.Core.Replay.Blocks.{
  ReplayEvent, time_slot, time_slot2, chat, leave, record_event, record_all, read_block,
  read_blocks, Fits, IsEvent, duration,
}

abbrev wire_length : List ℕ → ℕ
wire_length action = u16_from_le (as_u16 (length action) % 256) (as_u16 (length action) / 256 % 256)

read-slot_actions :
    (actions : List (ℕ × List ℕ)) (fuel : ℕ)
    → All Fits actions
    → length (slot_actions actions) ≤ fuel
    → read_actions fuel (slot_actions actions) ≡ actions
unfolding read_actions slot_actions
read-slot_actions [] zero h f = refl
read-slot_actions [] (suc fuel) h f = refl
read-slot_actions ((pid, action) ∷ actions) zero h f = absurd (omega arith)
read-slot_actions ((pid, action) ∷ actions) (suc fuel) h f = ground (
  arith,
  length-append action (slot_actions actions),
  take-append_self (wire_length action) action (slot_actions actions),
  drop-append_self (wire_length action) action (slot_actions actions),
  read-slot_actions actions fuel h.1,
)

abbrev block_of : ReplayEvent → List ℕ
block_of (time_slot time_increment actions) = time_slot_block replay_timeslot time_increment actions
block_of (time_slot2 actions) = time_slot_block replay_timeslot2 0 actions
block_of (chat pid flag chat_mode message) = chat_block pid flag chat_mode message
block_of (leave pid result) = leave_block pid result

-- What the reader makes of a time slot's body.
module _ (actions : List (ℕ × List ℕ)) (rest : List ℕ) (fits : All Fits actions) where
  slot_body :
      (n : ℕ)
      → n ≡ length (slot_actions actions) + 2
      → (read_actions n (take (n - 2) (slot_actions actions ++ rest)) ≡ actions)
        × ((a b c d e : ℕ) → drop (3 + n) (a ∷ b ∷ c ∷ d ∷ e ∷ slot_actions actions ++ rest) ≡ rest)
  slot_body n h = (
    rw (take-append_self (n - 2) (slot_actions actions) rest (omega arith))
        (read-slot_actions actions n fits (omega arith)),
    λ a b c d e.
        rw (plus)
          (drop-append_self (length (slot_actions actions)) (slot_actions actions) rest refl),
  )
    where
      plus : 3 + n ≡ suc (suc (suc (suc (suc (length (slot_actions actions))))))
      plus = omega arith

time_slot_eq :
    {a b : ℕ} {xs ys : List (ℕ × List ℕ)} {r s : List ℕ}
    → a ≡ b
    → xs ≡ ys
    → r ≡ s
    → ◌≡◌ {A = Option (ReplayEvent × List ℕ)} (some (time_slot a xs, r)) (some (time_slot b ys, s))
time_slot_eq p q e = cc

time_slot2_eq :
    {xs ys : List (ℕ × List ℕ)} {r s : List ℕ}
    → xs ≡ ys
    → r ≡ s
    → ◌≡◌ {A = Option (ReplayEvent × List ℕ)} (some (time_slot2 xs, r)) (some (time_slot2 ys, s))
time_slot2_eq q e = cc

chat_eq :
    {pid flag a b : ℕ} {xs ys r s : List ℕ}
    → a ≡ b
    → xs ≡ ys
    → r ≡ s
    → ◌≡◌ {A = Option (ReplayEvent × List ℕ)}
        (some (chat pid flag a xs, r))
        (some (chat pid flag b ys, s))
chat_eq p q e = cc

length_back :
    (actions : List (ℕ × List ℕ))
    → IsU16 (length (slot_actions actions) + 2)
    → u16_from_le
        (as_u16 (suc (suc (length (slot_actions actions)))) % 256)
        (as_u16 (suc (suc (length (slot_actions actions)))) / 256 % 256)
      ≡ length (slot_actions actions) + 2
length_back actions h = omega arith

message_length : List ℕ → ℕ
message_length message =
    let n = as_u16 (suc (suc (suc (suc (suc (length (message ++ 0 ∷ []))))))) in
    u16_from_le (n % 256) (n / 256 % 256)

chat_length_back :
    (message rest : List ℕ)
    → IsU16 (length message + 6)
    → (message_length message ≡ length message + 6)
      × (take (message_length message - 6) ((message ++ 0 ∷ []) ++ rest) ≡ message)
      × ((a b c d e f g h i : ℕ)
          → drop
              (4 + message_length message)
              (a ∷ b ∷ c ∷ d ∷ e ∷ f ∷ g ∷ h ∷ i ∷ ((message ++ 0 ∷ []) ++ rest))
            ≡ rest)
unfolding message_length
chat_length_back message rest h = (
  back,
  rw (append_assoc message (0 ∷ []) rest)
      (take-append_self _ message (0 ∷ rest) (omega (arith, back))),
  λ a b c d e f g h i.
      drop-append_self (4 + message_length message)
        (a ∷ b ∷ c ∷ d ∷ e ∷ f ∷ g ∷ h ∷ i ∷ (message ++ 0 ∷ [])) rest
        (omega (arith, back, length-append message (0 ∷ []))),
)
  where
    back : message_length message ≡ length message + 6
    back = omega (arith, length-append message (0 ∷ []))

read_block-block_of :
    (e : ReplayEvent) (rest : List ℕ) → IsEvent e → read_block (block_of e ++ rest) ≡ some (e, rest)
unfolding read_block time_slot_block chat_block leave_block message_length
read_block-block_of (time_slot time_increment actions) rest (inc, fits, h) =
    let body = slot_body actions rest fits _ (length_back actions h) in
    time_slot_eq (omega arith) body.0 (body.1 _ _ _ _ _)
read_block-block_of (time_slot2 actions) rest (fits, h) =
    let body = slot_body actions rest fits _ (length_back actions h) in
    time_slot2_eq body.0 (body.1 _ _ _ _ _)
read_block-block_of (chat pid flag chat_mode message) rest (mode, h) =
    let (_, text, behind) = chat_length_back message rest h in
    chat_eq (omega arith) text (behind _ _ _ _ _ _ _ _ _)
read_block-block_of (leave pid result) rest h = ground arith

duration-cons :
    (e : ReplayEvent) (events : List ReplayEvent)
    → duration (e ∷ events) ≡ duration (e ∷ []) + duration events
duration-cons (time_slot time_increment actions) events = omega arith
duration-cons (time_slot2 actions) events = omega arith
duration-cons (chat pid flag chat_mode message) events = omega arith
duration-cons (leave pid result) events = omega arith

record_event-blocks :
    (e : ReplayEvent) (r : ReplayRecorder)
    → ((record_event e r).compiled_blocks ≡ r.compiled_blocks ++ block_of e)
      × ((record_event e r).replay_length_ms % 2 ^ 32
          ≡ (r.replay_length_ms + duration (e ∷ [])) % 2 ^ 32)
unfolding record_event add_time_slot add_time_slot2 add_chat add_leave push_time_slot
record_event-blocks (time_slot time_increment actions) r = (refl, omega arith)
record_event-blocks (time_slot2 actions) r = (refl, omega arith)
record_event-blocks (chat pid flag chat_mode message) r = (refl, omega arith)
record_event-blocks (leave pid result) r = (refl, omega arith)

all_blocks : List ReplayEvent → List ℕ
all_blocks [] = []
all_blocks (e ∷ events) = block_of e ++ all_blocks events

record_all-blocks :
    (events : List ReplayEvent) (r : ReplayRecorder)
    → ((record_all events r).compiled_blocks ≡ r.compiled_blocks ++ all_blocks events)
      × ((record_all events r).replay_length_ms % 2 ^ 32
          ≡ (r.replay_length_ms + duration events) % 2 ^ 32)
unfolding record_all all_blocks
record_all-blocks [] r = (sym (append-nil r.compiled_blocks), omega arith)
record_all-blocks (e ∷ events) r =
    let one = record_event-blocks e r in
    let others = record_all-blocks events (record_event e r) in
    (
      others.0
          ∙ ap (λ (t : List ℕ). t ++ all_blocks events) one.0
          ∙ append_assoc r.compiled_blocks (block_of e) (all_blocks events),
      omega (arith, others.1, one.1, duration-cons e events),
    )

read_blocks-some :
    (n : ℕ) (bytes : List ℕ) (e : ReplayEvent) (rest : List ℕ)
    → read_block bytes ≡ some (e, rest)
    → read_blocks (suc n) bytes ≡ e ∷ read_blocks n rest
unfolding read_blocks
read_blocks-some n bytes e rest h = rw (h, read_blocks) refl

read_blocks-all_blocks :
    (events : List ReplayEvent)
    → All IsEvent events
    → read_blocks (length events) (all_blocks events) ≡ events
unfolding read_blocks all_blocks
read_blocks-all_blocks [] h = refl
read_blocks-all_blocks (e ∷ events) h =
    read_blocks-some (length events) (block_of e ++ all_blocks events) e (all_blocks events)
      (read_block-block_of e (all_blocks events) h.0)
    ∙ ap (λ (t : List ReplayEvent). e ∷ t) (read_blocks-all_blocks events h.1)

-- A recorder that starts with no block and length 0: after any calls with arguments that fit their
-- fields, the compiled blocks are read back as those calls, in order, and the recorded length is the
-- sum of the time slots' increments, modulo 2 ^ 32.
pub read_blocks-record_all :
    (events : List ReplayEvent) (r : ReplayRecorder)
    → r.compiled_blocks ≡ []
    → r.replay_length_ms ≡ 0
    → All IsEvent events
    → (read_blocks (length events) (record_all events r).compiled_blocks ≡ events)
      × ((record_all events r).replay_length_ms % 2 ^ 32 ≡ duration events % 2 ^ 32)
read_blocks-record_all events r empty zero_length h =
    let recorded = record_all-blocks events r in
    (rw (recorded.0, empty) (read_blocks-all_blocks events h), omega (arith, recorded.1))
