-- ===== src/Util/CString.antt =====
-- Texts that end in a NUL: what util_extract_cstring of src/util.rs finds in the middle of a packet.
use ghostpp_rs.Prelude.{
  ℕ, zero, suc, ◌+◌, ◌≡◌, ◌≢◌, refl, ap, ◌∙◌, List, [], ◌∷◌, ◌++◌, arith, length, length-append,
  All,
}
use ghostpp_rs.Prelude.Utf8.{from_utf8_lossy}
use ghostpp_rs.Util.{until_nul, util_extract_cstring}

-- No byte of a text is the NUL that ends it.
abbrev pub IsText : List ℕ → Type 0
IsText text = All (λ b. b ≢ 0) text

-- A text that lossy decoding leaves as it is.
abbrev pub IsUtf8 : List ℕ → Type 0
IsUtf8 text = IsText text × (from_utf8_lossy text ≡ text)

pub until_nul-text : (text rest : List ℕ) → IsText text → until_nul (text ++ 0 ∷ rest) ≡ text
unfolding until_nul
until_nul-text [] rest h = refl
until_nul-text (b ∷ text) rest h = ground (arith, until_nul-text text rest h.1)

-- Reading `k` bytes behind `front`.
pub util_extract_cstring-front :
    (front bytes : List ℕ) (i k : ℕ)
    → i ≡ length front + k
    → util_extract_cstring (front ++ bytes) i ≡ util_extract_cstring bytes k
unfolding util_extract_cstring
util_extract_cstring-front [] bytes i k e = ap (util_extract_cstring bytes) (e ∙ omega arith)
util_extract_cstring-front (b ∷ front) bytes zero k e = absurd (omega arith)
util_extract_cstring-front (b ∷ front) bytes (suc i) k e =
    let shorter : i ≡ length front + k = omega arith in
    ground (arith, util_extract_cstring-front front bytes i k shorter)

-- A text at the start of what is left.
pub util_extract_cstring-text :
    (text rest : List ℕ)
    → IsText text
    → util_extract_cstring (text ++ 0 ∷ rest) 0 ≡ from_utf8_lossy text
unfolding util_extract_cstring
util_extract_cstring-text text rest h =
    rw (until_nul-text text rest h) (ground (arith, length-append text (0 ∷ rest)))

-- The text behind `front`.
pub util_extract_cstring-append :
    (i : ℕ) (front text rest : List ℕ)
    → i ≡ length front
    → IsText text
    → util_extract_cstring (front ++ (text ++ 0 ∷ rest)) i ≡ from_utf8_lossy text
util_extract_cstring-append i front text rest e h =
    util_extract_cstring-front front (text ++ 0 ∷ rest) i 0 (omega arith)
    ∙ util_extract_cstring-text text rest h

-- The bytes `k` behind the NUL of a text that follows `front`.
pub util_extract_cstring-behind :
    (i k : ℕ) (front text bytes : List ℕ)
    → i ≡ length front + (length text + 1) + k
    → util_extract_cstring (front ++ (text ++ 0 ∷ bytes)) i ≡ util_extract_cstring bytes k
util_extract_cstring-behind i k front text bytes e =
    util_extract_cstring-front front (text ++ 0 ∷ bytes) i (length text + (1 + k)) (omega arith)
    ∙ (util_extract_cstring-front text (0 ∷ bytes) (length text + (1 + k)) (1 + k) refl
        ∙ util_extract_cstring-front (0 ∷ []) bytes (1 + k) k (omega arith))
