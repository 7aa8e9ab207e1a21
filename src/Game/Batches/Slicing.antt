-- ===== src/Game/Batches/Slicing.antt =====
-- src/game/actor.rs: how send_all_actions cuts the queue, and when the next beat comes.
use mathlib.Core.List.{flatten}
use ghostpp_rs.Prelude.{
  ℕ, ◌+◌, ◌≤◌, ◌<◌, ◌≡◌, refl, ap, ◌∙◌, ◌⊎◌, inl, inr, true, false, List, [], ◌∷◌, ◌++◌, arith,
  length, All, append_assoc, Bool-cases, length-append,
}
use ghostpp_rs.Core.GameProtocol.{IncomingAction, get_length}
use ghostpp_rs.Core.GameProtocol.Receive.{is_empty}
use ghostpp_rs.Core.GameProtocol.Send.Actions.{total_length}
use ghostpp_rs.Game.Batches.{is_full, slice, chunks_of, schedule_next_beat}

-- At most 1452 bytes of actions, or a single action.
abbrev pub IsBatch : List IncomingAction → Type 0
IsBatch chunk = (total_length chunk ≤ 1452) ⊎ (length chunk ≡ 1)

abbrev pub IsFilled : List IncomingAction → Type 0
IsFilled chunk = 0 < length chunk

total_length-append :
    (xs : List IncomingAction) (a : IncomingAction)
    → total_length (xs ++ a ∷ []) ≡ total_length xs + (length a.action + 3)
unfolding get_length
total_length-append [] a = omega arith
total_length-append (x ∷ xs) a = omega (arith, total_length-append xs a)

is_empty_cases :
    (xs : List IncomingAction)
    → ((xs ≡ []) × (is_empty xs ≡ true)) ⊎ ((0 < length xs) × (is_empty xs ≡ false))
is_empty_cases [] = inl (refl, refl)
is_empty_cases (x ∷ xs) = inr (omega arith, refl)

slice-full :
    (a : IncomingAction) (queue last : List IncomingAction) (n : ℕ)
    → is_full last n a ≡ true
    → slice (a ∷ queue) last n ≡ last ∷ slice queue (a ∷ []) (length a.action + 3)
unfolding slice
slice-full a queue last n h = rw h refl

slice-room :
    (a : IncomingAction) (queue last : List IncomingAction) (n : ℕ)
    → is_full last n a ≡ false
    → slice (a ∷ queue) last n ≡ slice queue (last ++ a ∷ []) (n + (length a.action + 3))
unfolding slice
slice-room a queue last n h = rw h refl

flatten-cons :
    (xs : List IncomingAction) (xss : List (List IncomingAction))
    → flatten (xs ∷ xss) ≡ xs ++ flatten xss
unfolding flatten
flatten-cons xs xss = refl

slice-flatten :
    (queue last : List IncomingAction) (n : ℕ) → flatten (slice queue last n) ≡ last ++ queue
slice-flatten [] last n = unfold slice in unfold flatten in refl
slice-flatten (a ∷ queue) last n = elim (Bool-cases (is_full last n a)) [
  | inl full ↦ rw (slice-full a queue last n full) (
      flatten-cons last _
      ∙ ap (λ (t : List IncomingAction). last ++ t)
          (slice-flatten queue (a ∷ []) (length a.action + 3)))
  | inr room ↦ rw (slice-room a queue last n room) (
      slice-flatten queue (last ++ a ∷ []) (n + (length a.action + 3))
      ∙ append_assoc last (a ∷ []) queue)
]

IsBatch-grown :
    (a : IncomingAction) (last : List IncomingAction) (n : ℕ)
    → n ≡ total_length last
    → is_full last n a ≡ false
    → IsBatch (last ++ a ∷ [])
unfolding is_full
IsBatch-grown a [] n e room = inr refl
IsBatch-grown a (x ∷ last) n e room = inl (ground (arith, total_length-append (x ∷ last) a))

slice-IsBatch :
    (queue last : List IncomingAction) (n : ℕ)
    → n ≡ total_length last
    → IsBatch last
    → All IsBatch (slice queue last n)
slice-IsBatch [] last n e b = unfold slice in (b, tt)
slice-IsBatch (a ∷ queue) last n e b = elim (Bool-cases (is_full last n a)) [
  | inl full ↦ rw (slice-full a queue last n full) (
    b,
    slice-IsBatch queue (a ∷ []) (length a.action + 3) (unfold get_length in omega arith)
        (inr refl),
  )
  | inr room ↦ rw (slice-room a queue last n room) (
      slice-IsBatch queue (last ++ a ∷ []) (n + (length a.action + 3))
        (omega (arith, total_length-append last a)) (IsBatch-grown a last n e room))
]

slice-IsFilled :
    (queue last : List IncomingAction) (n : ℕ) → IsFilled last → All IsFilled (slice queue last n)
slice-IsFilled [] last n h = unfold slice in (h, tt)
slice-IsFilled (a ∷ queue) last n h = elim (Bool-cases (is_full last n a)) [
  | inl full ↦
      rw (slice-full a queue last n full)
        (h, slice-IsFilled queue (a ∷ []) (length a.action + 3) (omega arith))
  | inr room ↦ rw (slice-room a queue last n room) (
      slice-IsFilled queue (last ++ a ∷ []) (n + (length a.action + 3))
        (omega (arith, length-append last (a ∷ []))))
]

first_room : (a : IncomingAction) → is_full [] 0 a ≡ false
unfolding is_full
first_room a = ground arith

chunks_of-IsFilled : (queue : List IncomingAction) → (queue ≡ []) ⊎ All IsFilled (chunks_of queue)
unfolding chunks_of
chunks_of-IsFilled [] = inl refl
chunks_of-IsFilled (a ∷ queue) = inr (
    rw (slice-room a queue [] 0 (first_room a))
      (slice-IsFilled queue (a ∷ []) (0 + (length a.action + 3)) (omega arith)))

-- The chunks are the queue cut in order, nothing lost or doubled; each takes at most 1452 bytes or is
-- a single action; and none is empty unless the queue is.
pub chunks_of_cut :
    (queue : List IncomingAction)
    → (flatten (chunks_of queue) ≡ queue)
      × All IsBatch (chunks_of queue)
      × ((queue ≡ []) ⊎ All IsFilled (chunks_of queue))
chunks_of_cut queue = (
  unfold chunks_of in slice-flatten queue [] 0,
  unfold chunks_of in slice-IsBatch queue [] 0 refl (inl (omega arith)),
  chunks_of-IsFilled queue,
)

-- For a beat that fires on time or late, the next one is not before `now` and at most one latency
-- after it; and it is on the old schedule unless more than one latency was missed.
schedule_next_beat_bounds :
    (scheduled now latency : ℕ)
    → scheduled ≤ now
    → (now ≤ schedule_next_beat scheduled now latency)
      × (schedule_next_beat scheduled now latency ≤ now + latency)
      × ((schedule_next_beat scheduled now latency ≡ scheduled + latency)
          ⊎ (scheduled + latency < now))
unfolding schedule_next_beat
schedule_next_beat_bounds scheduled now latency h = ground arith
