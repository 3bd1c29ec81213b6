-- ===== src/ServerFiles/Glob.antt =====
-- `fnmatch.fnmatchcase` of the standard library, which the sensitive-path policy calls: `*`, `?`,
-- `[seq]` and `[!seq]`.
use paxalia_dashboard.Prelude.{
  ℕ, zero, suc, Bool, true, false, ◌&&◌, ◌||◌, not, Option, none, some, List, [], ◌∷◌, Text, codes,
  is_empty, any, leb, ◌==◌, if◌then◌else◌, length, ◌≡◌, refl,
}

-- One unit of a pattern; a class is a list of ranges.
pub data Token : Type 0 where
  star question : Token
  literal : ℕ → Token
  class : Bool → List (ℕ × ℕ) → Token

-- The members of a class: `a-z` is a range, any other code point stands for itself.
ranges : Text → List (ℕ × ℕ)
ranges [] = []
ranges (a ∷ []) = (a, a) ∷ []
ranges (a ∷ b ∷ []) = (a, a) ∷ (b, b) ∷ []
ranges (a ∷ b ∷ c ∷ s) =
    let span = (a, c) ∷ ranges s in
    let single = (a, a) ∷ ranges (b ∷ c ∷ s) in if b == b'-' then span else single

-- The text before the closing bracket, and the rest after it.
until_bracket : Text → Option (Text × Text)
until_bracket [] = none
until_bracket (c ∷ s) =
    let later : Option (Text × Text) = elim (until_bracket s) [
      | none ↦ none
      | some (a, b) ↦ some (c ∷ a, b)
    ] in
    if c == b']' then some ([], s) else later

-- The first member may be a bracket itself.
members : Text → Option (Text × Text)
unfolding until_bracket
members [] = none
members (c ∷ s) = elim (until_bracket s) [ none ↦ none | some (a, b) ↦ some (c ∷ a, b) ]

-- `[` opens a class if a bracket closes it, and is a literal if none does.
open_class : Text → Option (Bool × Text × Text)
unfolding members
open_class [] = none
open_class (c ∷ s) =
    if c == b'!'
    then (elim (members s) [ none ↦ none | some (a, b) ↦ some (true, a, b) ])
    else (elim (members (c ∷ s)) [ none ↦ none | some (a, b) ↦ some (false, a, b) ])

-- Each round takes at least one code point, so the pattern's length is enough fuel.
tokens : ℕ → Text → List Token
unfolding ranges open_class
tokens zero s = []
tokens (suc fuel) [] = []
tokens (suc fuel) (c ∷ s) =
    let stars = star ∷ tokens fuel s in
    let questions = question ∷ tokens fuel s in
    let plain = literal c ∷ tokens fuel s in
    let bracket : List Token = elim (open_class s) [
      | none ↦ plain
      | some (neg, a, b) ↦ class neg (ranges a) ∷ tokens fuel b
    ] in
    if c == b'*'
    then stars
    else if c == b'?'
    then questions
    else if c == b'['
    then bracket
    else plain

abbrev in_class : ℕ → List (ℕ × ℕ) → Bool
in_class c rs = any (λ r. leb r.0 c && leb c r.1) rs

accepts : Token → ℕ → Bool
accepts star c = true
accepts question c = true
accepts (literal d) c = c == d
accepts (class true rs) c = not (in_class c rs)
accepts (class false rs) c = in_class c rs

-- Some suffix of the text is matched by what follows a star.
some_suffix : (Text → Bool) → Text → Bool
some_suffix m [] = m []
some_suffix m (c ∷ s) = m (c ∷ s) || some_suffix m s

one_then : (ℕ → Bool) → (Text → Bool) → Text → Bool
one_then test m [] = false
one_then test m (c ∷ s) = test c && m s

matches : List Token → Text → Bool
unfolding accepts some_suffix one_then
matches [] s = is_empty s
matches (star ∷ ts) s = some_suffix (matches ts) s
matches (t ∷ ts) s = one_then (accepts t) (matches ts) s

-- `fnmatch.fnmatchcase(name, pattern)`
unfoldable pub fnmatchcase : Text → Text → Bool
unfolding tokens matches
fnmatchcase name pattern = matches (tokens (length pattern) pattern) name

fnmatch_examples :
    (fnmatchcase (codes "key.pem") (codes "*.pem") ≡ true)
    × (fnmatchcase (codes "key.pem.bak") (codes "*.pem") ≡ false)
    × (fnmatchcase (codes "id_rsa.pub") (codes "id_rsa*") ≡ true)
    × (fnmatchcase (codes "b1") (codes "[a-c]?") ≡ true)
    × (fnmatchcase (codes "d1") (codes "[!a-c][0-9]") ≡ true)
    × (fnmatchcase (codes "[x") (codes "[x") ≡ true)
unfolding fnmatchcase
fnmatch_examples = (refl, refl, refl, refl, refl, refl)
