-- ===== src/Util/Truncate.antt =====
-- util_truncate_str of src/util.rs: where it cuts.
use ghostpp_rs.Prelude.{
  ℕ, zero, suc, ◌≤◌, ◌<◌, ◌≡◌, refl, true, false, List, take, arith, length, leb, Bool-cases, inl,
  inr, eq-cases, take_all, if◌then◌else◌, sym, ◌∙◌, leb→le,
}
use ghostpp_rs.Util.{is_char_boundary, boundary_below, util_truncate_str}

boundary_below_lem :
    (s : List ℕ) (n : ℕ)
    → (is_char_boundary s (boundary_below s n) ≡ true)
      × (boundary_below s n ≤ n)
      × ((i : ℕ) → boundary_below s n < i → i ≤ n → is_char_boundary s i ≡ false)
boundary_below_lem s zero =
    unfold boundary_below is_char_boundary in (refl, omega arith, λ i lt le. absurd (omega arith))
boundary_below_lem s (suc n) = elim (Bool-cases (is_char_boundary s (suc n))) [
  | inl here ↦ rw (at_suc n, here) (here, omega arith, λ i lt le. absurd (omega arith))
  | inr below ↦
      let (boundary, least, none_above) = boundary_below_lem s n in
      rw (at_suc n, below)
        (
          boundary,
          omega arith,
          λ i lt le. elim (eq-cases i (suc n)) [
            | inl e ↦ rw e below
            | inr ne ↦ none_above i lt (omega arith)
          ],
        )
]
  where
    at_suc :
        (k : ℕ)
        → boundary_below s (suc k)
          ≡ (if is_char_boundary s (suc k) then suc k else boundary_below s k)
    at_suc k = unfold boundary_below in refl

-- A text is cut at the largest character boundary of it that is not above the limit: a short text at its
-- end, so not at all.
pub util_truncate_str_lem :
    (s : List ℕ) (max_bytes : ℕ)
    → (end : ℕ) × (util_truncate_str s max_bytes ≡ take end s)
      × (end ≤ length s)
      × (end ≤ max_bytes)
      × (is_char_boundary s end ≡ true)
      × ((i : ℕ) → end < i → i ≤ max_bytes → is_char_boundary s i ≡ false)
util_truncate_str_lem s max_bytes = elim (Bool-cases (leb (length s) max_bytes)) [
  | inl short ↦ (
    length s,
    whole s max_bytes short ∙ sym (take_all (length s) s (omega arith)),
    omega arith,
    leb→le (length s) max_bytes short,
    unfold is_char_boundary in ground arith,
    λ i lt le. unfold is_char_boundary in ground arith,
  )
  | inr long ↦
      let (boundary, least, none_above) = boundary_below_lem s max_bytes in
      let more : max_bytes < length s = ground arith in
      (boundary_below s max_bytes, cut s max_bytes long, omega arith, least, boundary, none_above)
]
  where
    whole : (s : List ℕ) (n : ℕ) → leb (length s) n ≡ true → util_truncate_str s n ≡ s
    whole s n short = unfold util_truncate_str in rw short refl

    cut :
        (s : List ℕ) (n : ℕ)
        → leb (length s) n ≡ false
        → util_truncate_str s n ≡ take (boundary_below s n) s
    cut s n long = unfold util_truncate_str in rw long refl
