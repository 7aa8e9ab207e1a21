-- ===== src/Game/Mutes/Lines.antt =====
-- chunk_chat_lines of src/game/actor.rs: the lines against groups of entries.
use mathlib.Core.List.{flatten}
use ghostpp_rs.Prelude.{
  ℕ, ◌+◌, ◌≤◌, ◌≡◌, ◌⊎◌, refl, sym, ap, ◌∙◌, true, false, List, [], ◌∷◌, ◌++◌, map, length,
  length-append, arith, inl, inr, Bool-cases, ltb, append_assoc, append-nil, All,
}
use ghostpp_rs.Prelude.Text.{codes}
use ghostpp_rs.Game.Mutes.{chunk_loop, chunk_chat_lines}

-- A comma and a space before each entry, and between the entries.
abbrev pub after : List (List ℕ) → List ℕ
after [] = []
after (entry ∷ entries) = codes ", " ++ (entry ++ after entries)

abbrev pub commas : List (List ℕ) → List ℕ
commas [] = []
commas (entry ∷ entries) = entry ++ after entries

-- The first line: the header, a space unless it is empty, and the entries.
abbrev pub headed : List ℕ → List (List ℕ) → List ℕ
headed header [] = header
headed [] (entry ∷ entries) = commas (entry ∷ entries)
headed (c ∷ header) (entry ∷ entries) = (c ∷ header) ++ (codes " " ++ commas (entry ∷ entries))

abbrev pub Fits : List ℕ → List (List ℕ) → Type 0
Fits line group = (length line ≤ 200) ⊎ (length group ≤ 1)

-- What the loop makes of the rest of the entries, behind a line that has some.
abbrev Cut : List ℕ → List (List ℕ) → List (List ℕ) → Type 0
Cut cur entries lines =
    (here : List (List ℕ)) × (more : List (List (List ℕ))) × (lines
      ≡ (cur ++ after here) ∷ map commas more)
    × (here ++ flatten more ≡ entries)
    × ((length (cur ++ after here) ≤ 200) ⊎ (here ≡ []))
    × All (λ group. Fits (commas group) group) more

step_full :
    (cur entry : List ℕ) (entries : List (List ℕ))
    → ltb 200 (length cur + 2 + length entry) ≡ true
    → chunk_loop cur false (entry ∷ entries) ≡ cur ∷ chunk_loop entry false entries
unfolding chunk_loop
step_full cur entry entries full = rw full refl

step_joined :
    (cur entry : List ℕ) (entries : List (List ℕ))
    → ltb 200 (length cur + 2 + length entry) ≡ false
    → chunk_loop cur false (entry ∷ entries)
      ≡ chunk_loop ((cur ++ codes ", ") ++ entry) false entries
unfolding chunk_loop
step_joined cur entry entries room = rw room refl

regroup :
    (cur entry : List ℕ) (here : List (List ℕ))
    → ((cur ++ codes ", ") ++ entry) ++ after here ≡ cur ++ (codes ", " ++ (entry ++ after here))
regroup cur entry here = simp (append_assoc)

short_or_alone :
    (entry : List ℕ) (here : List (List ℕ))
    → (length (entry ++ after here) ≤ 200) ⊎ (here ≡ [])
    → Fits (commas (entry ∷ here)) (entry ∷ here)
short_or_alone entry here (inl fits) = inl fits
short_or_alone entry here (inr e) = inr (rw e (omega arith))

fits_joined :
    (cur entry : List ℕ) (here : List (List ℕ))
    → ltb 200 (length cur + 2 + length entry) ≡ false
    → (length (((cur ++ codes ", ") ++ entry) ++ after here) ≤ 200) ⊎ (here ≡ [])
    → length (cur ++ (codes ", " ++ (entry ++ after here))) ≤ 200
fits_joined cur entry here room (inl fits) = omega (arith, fits, ap length (regroup cur entry here))
fits_joined cur entry here room (inr e) = rw e (
    let few : length cur + 2 + length entry ≤ 200 = ground arith in
    omega (arith, length-append cur (codes ", " ++ (entry ++ [])), length-append entry []))

loop_end : (cur : List ℕ) → chunk_loop cur false [] ≡ cur ∷ []
unfolding chunk_loop
loop_end cur = refl

chunk_loop-Cut :
    (cur : List ℕ) (entries : List (List ℕ)) → Cut cur entries (chunk_loop cur false entries)
unfolding flatten
chunk_loop-Cut cur [] =
    ([], [], loop_end cur ∙ ap (λ (t : List ℕ). t ∷ []) (sym (append-nil cur)), refl, inr refl, tt)
chunk_loop-Cut cur (entry ∷ entries) = elim (Bool-cases (ltb 200 (length cur + 2 + length entry))) [
  | inl full ↦
      let (here, more, lines, parts, fits, all_fit) = chunk_loop-Cut entry entries in
      (
        [],
        (entry ∷ here) ∷ more,
        step_full cur entry entries full ∙ λ i. sym (append-nil cur) i ∷ lines i,
        ap (λ t. entry ∷ t) parts,
        inr refl,
        (short_or_alone entry here fits, all_fit),
      )
  | inr room ↦
      let (here, more, lines, parts, fits, all_fit) =
        chunk_loop-Cut ((cur ++ codes ", ") ++ entry) entries in
      (
        entry ∷ here,
        more,
        step_joined cur entry entries room
            ∙ (lines ∙ ap (λ (t : List ℕ). t ∷ map commas more) (regroup cur entry here)),
        ap (λ t. entry ∷ t) parts,
        inl (fits_joined cur entry here room fits),
        all_fit,
      )
]

spaced :
    (header entry : List ℕ) (here : List (List ℕ))
    → ((header ++ codes " ") ++ entry) ++ after here
      ≡ header ++ (codes " " ++ (entry ++ after here))
spaced header entry here = simp (append_assoc)

headed_short :
    (header entry : List ℕ) (here : List (List ℕ))
    → (length (((header ++ codes " ") ++ entry) ++ after here) ≤ 200) ⊎ (here ≡ [])
    → Fits (header ++ (codes " " ++ (entry ++ after here))) (entry ∷ here)
headed_short header entry here (inl fits) =
    inl (omega (arith, fits, ap length (spaced header entry here)))
headed_short header entry here (inr e) = inr (rw e (omega arith))

-- The entries are cut, in order, into groups: each line is a group with commas, the first behind the
-- header; and a line has at most 200 bytes, or no more than one entry.
pub chunk_chat_lines_cut :
    (header : List ℕ) (entries : List (List ℕ))
    → (first : List (List ℕ)) × (more : List (List (List ℕ))) × (chunk_chat_lines header entries
        ≡ headed header first ∷ map commas more)
      × (first ++ flatten more ≡ entries)
      × Fits (headed header first) first
      × All (λ group. Fits (commas group) group) more
unfolding flatten chunk_chat_lines
chunk_chat_lines_cut header [] = ([], [], refl, refl, inr (omega arith), tt)
chunk_chat_lines_cut [] (entry ∷ entries) =
    let (here, more, lines, parts, fits, all_fit) = chunk_loop-Cut entry entries in
    (
      entry ∷ here,
      more,
      lines,
      ap (λ (t : List (List ℕ)). entry ∷ t) parts,
      short_or_alone entry here fits,
      all_fit,
    )
chunk_chat_lines_cut (c ∷ header) (entry ∷ entries) =
    let (here, more, lines, parts, fits, all_fit) =
      chunk_loop-Cut (((c ∷ header) ++ codes " ") ++ entry) entries in
    (
      entry ∷ here,
      more,
      lines ∙ ap (λ (t : List ℕ). t ∷ map commas more) (spaced (c ∷ header) entry here),
      ap (λ (t : List (List ℕ)). entry ∷ t) parts,
      headed_short (c ∷ header) entry here fits,
      all_fit,
    )
