-- ===== src/Lang.antt =====
-- src/lang.rs: the message catalog. The catalog itself (the built-in table merged with the language
-- file at startup) is an argument; `t` looks a template up and fills its placeholders in.
use Prim.Native.String.{String}
use ghostpp_rs.Prelude.{ℕ, List, [], ◌∷◌, ◌++◌, if◌then◌else◌, ◌≡◌, refl}
use ghostpp_rs.Prelude.Text.{codes, replace, bytes_eq}

abbrev pub Catalog : Type 0
Catalog = List (List ℕ × List ℕ)

template_of : List ℕ → Catalog → List ℕ
template_of key [] = key
template_of key ((k, template) ∷ catalog) =
    if bytes_eq k key then template else template_of key catalog

fill : List ℕ → List (List ℕ × List ℕ) → List ℕ
fill out [] = out
fill out ((name, value) ∷ args) = fill (replace (codes "{" ++ (name ++ codes "}")) value out) args

-- A key that the catalog lacks is its own template.
unfoldable pub t : Catalog → String → List (List ℕ × List ℕ) → List ℕ
unfolding template_of fill
t catalog key args = fill (template_of (codes key) catalog) args

passed :
    t
      ((codes "spoofcheck_accepted", codes "[{name}] passed.") ∷ [])
      "spoofcheck_accepted"
      ((codes "name", codes "Al") ∷ [])
    ≡ codes "[Al] passed."
unfolding t replace bytes_eq
passed = refl
