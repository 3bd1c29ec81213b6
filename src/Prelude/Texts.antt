-- ===== src/Prelude/Texts.antt =====
-- A Python `str` as the list of its code points, and the methods that the modules share.
use Prim.Native.Nat.{ℕ}
use Prim.Native.Char.{code}
use Prim.Native.String.{String}
use mathlib.Core.Path.{◌≡◌, refl, ap, ◌∙◌}
use mathlib.Core.Logic.{inl, inr}
use mathlib.Core.Bool.{Bool, true, false, ◌&&◌, ◌||◌}
use mathlib.Core.List.{List, [], ◌∷◌, ◌++◌}
use mathlib.Core.Option.{Option, none, some}
use native.Mathlib.Omega.{arith}
use paxalia_dashboard.Prelude.Tests.{
  ◌==◌, leb, if◌then◌else◌, ==_iff, ==_refl, Bool-cases, ||_split,
}
use paxalia_dashboard.Prelude.Lists.{any, All}

abbrev pub Text : Type 0
Text = List ℕ

abbrev pub codes : String → Text
codes String.[] = []
codes (String.◌∷◌ c s) = code c ∷ codes s

abbrev pub text_eq : Text → Text → Bool
text_eq [] [] = true
text_eq [] (y ∷ ys) = false
text_eq (x ∷ xs) [] = false
text_eq (x ∷ xs) (y ∷ ys) = x == y && text_eq xs ys

pub text_eq→eq : (s t : Text) → text_eq s t ≡ true → s ≡ t
text_eq→eq [] [] h = refl
text_eq→eq [] (y ∷ ys) h = cc
text_eq→eq (x ∷ xs) [] h = cc
text_eq→eq (x ∷ xs) (y ∷ ys) h = ground (arith, text_eq→eq xs ys)

pub text_eq_refl : (s : Text) → text_eq s s ≡ true
text_eq_refl [] = refl
text_eq_refl (x ∷ xs) = ground (arith, text_eq_refl xs)

-- `c in s`
abbrev pub has : ℕ → Text → Bool
has c s = any (λ x. x == c) s

-- `s in xs` over texts.
abbrev pub member : Text → List Text → Bool
member s xs = any (λ x. text_eq s x) xs

abbrev pub is_empty {ℓ} : {A : Type ℓ} → List A → Bool
is_empty [] = true
is_empty (x ∷ xs) = false

-- The last code point.
abbrev pub last? : Text → Option ℕ
last? [] = none
last? (x ∷ []) = some x
last? (x ∷ y ∷ xs) = last? (y ∷ xs)

-- `s.endswith(c)` for one character.
abbrev pub ends_with : ℕ → Text → Bool
ends_with c s = elim (last? s) [ none ↦ false | some x ↦ x == c ]

-- `s.startswith(c)` for one character.
abbrev pub starts_with : ℕ → Text → Bool
starts_with c [] = false
starts_with c (x ∷ xs) = x == c

abbrev cons_head : ℕ → List Text → List Text
cons_head x [] = (x ∷ []) ∷ []
cons_head x (p ∷ ps) = (x ∷ p) ∷ ps

-- `s.split(c)`: never the empty list.
unfoldable pub split_on : ℕ → Text → List Text
split_on c [] = [] ∷ []
split_on c (x ∷ xs) = let rest = split_on c xs in if x == c then [] ∷ rest else cons_head x rest

-- `c.join(parts)`
unfoldable pub join : ℕ → List Text → Text
join c [] = []
join c (p ∷ []) = p
join c (p ∷ q ∷ ps) = p ++ c ∷ join c (q ∷ ps)

join-cons_head : (c x : ℕ) (ps : List Text) → join c (cons_head x ps) ≡ x ∷ join c ps
unfolding join
join-cons_head c x [] = refl
join-cons_head c x (p ∷ []) = refl
join-cons_head c x (p ∷ q ∷ ps) = refl

split_on_cons : (c : ℕ) (s : Text) → (p : Text) × (ps : List Text) × (split_on c s ≡ p ∷ ps)
unfolding split_on
split_on_cons c [] = ([], [], refl)
split_on_cons c (x ∷ xs) =
    let (p, ps, e) = split_on_cons c xs in
    elim (Bool-cases (x == c)) [
      | inl same ↦ ([], split_on c xs, rw same)
      | inr other ↦ (x ∷ p, ps, rw (other, e))
    ]

join-empty_head :
    (c : ℕ) (s : List Text) (p : Text) (ps : List Text)
    → s ≡ p ∷ ps
    → join c ([] ∷ s) ≡ c ∷ join c s
unfolding join
join-empty_head c s p ps e = rw e refl

join-same_head :
    (c x : ℕ) (xs : Text) (s : List Text)
    → (x == c) ≡ true
    → join c s ≡ xs
    → ◌≡◌ {A = Text} (c ∷ join c s) (x ∷ xs)
join-same_head c x xs s h e = cc ((==_iff x c).0 h)

-- Joining the pieces gives the text back.
pub join-split_on : (c : ℕ) (s : Text) → join c (split_on c s) ≡ s
unfolding split_on
join-split_on c [] = unfold join in refl
join-split_on c (x ∷ xs) =
    let (p, ps, e) = split_on_cons c xs in
    elim (Bool-cases (x == c)) [
      | inl same ↦ rw same (
          join-empty_head c (split_on c xs) p ps e
          ∙ join-same_head c x xs (split_on c xs) same (join-split_on c xs))
      | inr other ↦
          rw other (join-cons_head c x (split_on c xs) ∙ ap (λ t. x ∷ t) (join-split_on c xs))
    ]

has-cons_head :
    (c x : ℕ) (ps : List Text)
    → (x == c) ≡ false
    → All (λ p. has c p ≡ false) ps
    → All (λ p. has c p ≡ false) (cons_head x ps)
has-cons_head c x [] h hs = ground arith
has-cons_head c x (p ∷ ps) h hs = ground arith

-- No piece contains the separator.
pub split_on_pieces : (c : ℕ) (s : Text) → All (λ p. has c p ≡ false) (split_on c s)
unfolding split_on
split_on_pieces c [] = (refl, tt)
split_on_pieces c (x ∷ xs) = elim (Bool-cases (x == c)) [
  | inl same ↦ rw same (refl, split_on_pieces c xs)
  | inr other ↦ rw other (has-cons_head c x (split_on c xs) other (split_on_pieces c xs))
]

split_on_piece : (c : ℕ) (p : Text) → has c p ≡ false → split_on c p ≡ p ∷ []
unfolding split_on
split_on_piece c [] h = refl
split_on_piece c (x ∷ p) h =
    let (no_x, no_p) = ||_split (x == c) (has c p) h in rw (no_x, split_on_piece c p no_p)

split_on_glue : (c : ℕ) (p t : Text) → has c p ≡ false → split_on c (p ++ c ∷ t) ≡ p ∷ split_on c t
unfolding split_on
split_on_glue c [] t h = rw (==_refl c)
split_on_glue c (x ∷ p) t h =
    let (no_x, no_p) = ||_split (x == c) (has c p) h in rw (no_x, split_on_glue c p t no_p)

-- Splitting what was joined gives the pieces back, if there is one and none has the separator.
pub split_on-join :
    (c : ℕ) (p : Text) (ps : List Text)
    → All (λ q. has c q ≡ false) (p ∷ ps)
    → split_on c (join c (p ∷ ps)) ≡ p ∷ ps
unfolding join
split_on-join c p [] h = split_on_piece c p h.0
split_on-join c p (q ∷ ps) h =
    split_on_glue c p (join c (q ∷ ps)) h.0 ∙ ap (λ t. p ∷ t) (split_on-join c q ps h.1)

-- `c.isspace()` for the code points that `str.strip` removes.
unfoldable pub is_space : ℕ → Bool
is_space c =
    (leb 9 c && leb c 13)
    || (leb 28 c && leb c 32)
    || c == 0x85
    || c == 0xa0
    || c == 0x1680
    || (leb 0x2000 c && leb c 0x200a)
    || (leb 0x2028 c && leb c 0x2029)
    || c == 0x202f
    || c == 0x205f
    || c == 0x3000

unfoldable pub strip_left : Text → Text
unfolding is_space
strip_left [] = []
strip_left (c ∷ s) = let rest = strip_left s in if is_space c then rest else c ∷ s

unfoldable pub strip_right : Text → Text
unfolding is_space
strip_right [] = []
strip_right (c ∷ s) =
    let rest = strip_right s in if is_space c && is_empty rest then [] else c ∷ rest

-- `s.strip()`
unfoldable pub strip : Text → Text
unfolding strip_left strip_right
strip s = strip_right (strip_left s)
