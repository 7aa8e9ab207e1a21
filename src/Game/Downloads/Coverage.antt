-- ===== src/Game/Downloads/Coverage.antt =====
-- src/game/actor.rs: which bytes of the map the loop of send_map_parts sends.
use mathlib.Core.List.{flatten}
use ghostpp_rs.Prelude.{
  ℕ, zero, suc, ◌+◌, ◌≤◌, ◌<◌, ◌≡◌, refl, ap, ◌∙◌, ◌⊎◌, inl, inr, min, true, false, ◌&&◌, List, [],
  ◌∷◌, ◌++◌, map, arith, length, take, drop, ltb, if◌then◌else◌, Bool-cases, take-append-drop,
  append_assoc,
}
use ghostpp_rs.Core.GameProtocol.Send.{map_chunk}
use ghostpp_rs.Game.Downloads.{part, part_loop}

drop-take : (s e : ℕ) (xs : List ℕ) → s ≤ e → drop s (take e xs) ++ drop e xs ≡ drop s xs
drop-take zero e xs h = take-append-drop e xs
drop-take (suc s) zero xs h = absurd (omega arith)
drop-take (suc s) (suc e) [] h = refl
drop-take (suc s) (suc e) (x ∷ xs) h = drop-take s e xs (omega arith)

-- A part and what stands behind it are what stood from its start on.
map_chunk-drop :
    (s : ℕ) (map_data : List ℕ)
    → s ≤ length map_data
    → map_chunk s map_data ++ drop (min (s + part) (length map_data)) map_data ≡ drop s map_data
unfolding map_chunk
map_chunk-drop s map_data h =
    let size = length map_data in
    let e : (if ltb size (s + 1442) then size else s + 1442) ≡ min (s + part) size = ground arith in
    rw e (drop-take s (min (s + part) size) map_data (omega arith))

abbrev pub parts : List ℕ → List ℕ → List (List ℕ)
parts starts map_data = map (λ start. map_chunk start map_data) starts

part_loop-goes :
    (fuel map_size limit sent : ℕ)
    → (ltb sent map_size && ltb sent limit) ≡ true
    → part_loop (suc fuel) map_size limit sent ≡ (
      sent ∷ (part_loop fuel map_size limit (min (sent + part) map_size)).0,
      (part_loop fuel map_size limit (min (sent + part) map_size)).1,
    )
unfolding part_loop
part_loop-goes fuel map_size limit sent h = rw h refl

part_loop-stops :
    (fuel map_size limit sent : ℕ)
    → (ltb sent map_size && ltb sent limit) ≡ false
    → part_loop (suc fuel) map_size limit sent ≡ ([], sent)
unfolding part_loop
part_loop-stops fuel map_size limit sent h = rw h refl

-- What the loop is to send, and where it ends.
abbrev Covers : ℕ → ℕ → List ℕ → List ℕ × ℕ → Type 0
Covers limit sent map_data loop =
    (flatten (parts loop.0 map_data) ++ drop loop.1 map_data ≡ drop sent map_data)
    × ((loop.1 ≡ length map_data) ⊎ (limit ≤ loop.1))
    × ((loop.1 ≡ sent) ⊎ (loop.1 < limit + part))

Covers-cons :
    (limit sent : ℕ) (map_data starts : List ℕ) (end : ℕ)
    → sent ≤ length map_data
    → sent < limit
    → Covers limit (min (sent + part) (length map_data)) map_data (starts, end)
    → Covers limit sent map_data (sent ∷ starts, end)
unfolding flatten
Covers-cons limit sent map_data starts end h lt (rest, ends, bound) = (
  append_assoc (map_chunk sent map_data) (flatten (parts starts map_data)) (drop end map_data)
      ∙ ap (λ (t : List ℕ). map_chunk sent map_data ++ t) rest
      ∙ map_chunk-drop sent map_data h,
  ends,
  ground (arith, bound),
)

part_loop-Covers :
    (fuel limit sent : ℕ) (map_data : List ℕ)
    → sent ≤ length map_data
    → length map_data < sent + fuel
    → Covers limit sent map_data (part_loop fuel (length map_data) limit sent)
part_loop-Covers zero limit sent map_data h f = absurd (omega arith)
part_loop-Covers (suc fuel) limit sent map_data h f =
    elim (Bool-cases (ltb sent (length map_data) && ltb sent limit)) [
      | inl goes ↦ rw (part_loop-goes fuel (length map_data) limit sent goes) (
          Covers-cons limit sent map_data _ _ h (ground arith) (
            part_loop-Covers fuel limit (min (sent + part) (length map_data)) map_data (omega arith)
              (ground arith)))
      | inr stops ↦
          rw (part_loop-stops fuel (length map_data) limit sent stops)
            (unfold flatten in (refl, ground arith, inl refl))
    ]

-- The parts that one call sends follow one another without a gap or an overlap: behind them stands
-- exactly the rest of the map. The call ends at the end of the map or behind the window, and at most one part
-- behind it unless it sends nothing. The fuel that send_map_parts gives is enough.
pub part_loop_covers :
    (limit sent : ℕ) (map_data : List ℕ)
    → sent ≤ length map_data
    → let loop = part_loop (suc (length map_data)) (length map_data) limit sent in
      (flatten (map (λ start. map_chunk start map_data) loop.0) ++ drop loop.1 map_data
        ≡ drop sent map_data)
      × ((loop.1 ≡ length map_data) ⊎ (limit ≤ loop.1))
      × ((loop.1 ≡ sent) ⊎ (loop.1 < limit + part))
part_loop_covers limit sent map_data h =
    part_loop-Covers (suc (length map_data)) limit sent map_data h (omega arith)
