-- ===== src/ServerFiles/Roots/Laws.antt =====
-- What `get_roots` and `get_root` guarantee together (paxalia/server_files/policy.py).
use paxalia_dashboard.Prelude.{
  ℕ, zero, suc, ◌+◌, ◌≤◌, ◌<◌, ◌≡◌, refl, sym, subst, ap, inl, inr, Bool, true, false, ◌&&◌, not,
  some, List, [], ◌∷◌, Text, text_eq, any, find, length, All, ok, >>=-eq-ok, Option-cases,
  ok_injective, arith, if◌then◌else◌, get_elem?, All-map, ||_split, &&_split, holds_below,
  holds_below-at, ◌≢◌, get_elem?-lt, text_eq_refl, ◌==◌,
}
use paxalia_dashboard.ServerFiles.Access.{Root, is_sensitive}
use paxalia_dashboard.ServerFiles.Roots.{
  Host, RootsConfig, RootItem, overlaps, root_id, resolve_root, resolve_roots, get_roots, get_root,
  max_roots, basename, is_root_id,
}

-- No root lies in another, each by its canonical path.
abbrev pub Separate : List Root → Type 0
Separate [] = Unit
Separate (r ∷ rs) = All (λ s. overlaps r.path s.path ≡ false) rs × Separate rs

-- The id of the n-th root is "root-n".
abbrev pub Numbered : ℕ → List Root → Type 0
Numbered n [] = Unit
Numbered n (r ∷ rs) = (r.id ≡ root_id n) × Numbered (suc n) rs

module _ (host : Host) (config : RootsConfig) where
  abbrev Insensitive : Root → Type 0
  Insensitive r = is_sensitive host.casefold config.access (basename r.path ∷ []) ≡ ok false

  resolve_root-facts :
      (index : ℕ) (item : RootItem) (previous : List (List Text)) (r : Root)
      → resolve_root host config index item previous ≡ ok r
      → (r.id ≡ root_id index) × Insensitive r × (any (λ p. overlaps p r.path) previous ≡ false)
  unfolding resolve_root
  resolve_root-facts index item previous r h = (ground arith, ground arith, ground arith)

  resolve_roots-facts :
      (index : ℕ) (items : List RootItem) (previous : List (List Text)) (rs : List Root)
      → resolve_roots host config index items previous ≡ ok rs
      → Separate rs
        × Numbered index rs
        × All (λ r. any (λ p. overlaps p r.path) previous ≡ false) rs
        × All Insensitive rs
        × (length rs ≡ length items)
  unfolding resolve_roots
  resolve_roots-facts index [] previous [] h = (tt, tt, tt, tt, refl)
  resolve_roots-facts index [] previous (r ∷ rs) h = cc
  resolve_roots-facts index (item ∷ items) previous rs h =
      let (r, e, h') = >>=-eq-ok (resolve_root host config index item previous) _ h in
      let (more, e', h'') =
        >>=-eq-ok (resolve_roots host config (suc index) items (r.path ∷ previous)) _ h' in
      let (id, plain, apart) = resolve_root-facts index item previous r e in
      let (separate, numbered, aparts, plains, len) =
        resolve_roots-facts (suc index) items (r.path ∷ previous) more e' in
      rw (← ok_injective h'') (
        (All-map (λ s k. (||_split (overlaps r.path s.path) _ k).0) more aparts, separate),
        (id, numbered),
        (apart, All-map (λ s k. (||_split (overlaps r.path s.path) _ k).1) more aparts),
        (plain, plains),
        ap suc len,
      )

-- The ids of different roots differ, and each has the form that `get_root` asks for.
abbrev ids_differ : ℕ → ℕ → Bool
ids_differ a b = if a == b then true else not (text_eq (root_id a) (root_id b))

abbrev id_fits : ℕ → Bool
id_fits a = is_root_id (root_id a) && holds_below (ids_differ a) max_roots

ids_table : holds_below id_fits max_roots ≡ true
unfolding holds_below root_id is_root_id
ids_table = refl

root_id-fits :
    (a : ℕ)
    → a < max_roots
    → (is_root_id (root_id a) ≡ true) × (holds_below (ids_differ a) max_roots ≡ true)
root_id-fits a h = &&_split _ _ (holds_below-at id_fits max_roots a h ids_table)

root_id-ne :
    (a b : ℕ) → a < max_roots → b < max_roots → a ≢ b → text_eq (root_id a) (root_id b) ≡ false
root_id-ne a b h k ne =
    let differ : ids_differ a b ≡ true =
      holds_below-at (ids_differ a) max_roots b k (root_id-fits a h).1 in
    ground arith

find-Numbered :
    (n i k : ℕ) (rs : List Root) (r : Root)
    → Numbered n rs
    → n + length rs ≤ 32
    → k ≡ n + i
    → get_elem? rs i ≡ some r
    → find (λ s. text_eq s.id (root_id k)) rs ≡ some r
find-Numbered n i k [] r h b e g = absurd (ground arith)
find-Numbered n zero k (s ∷ rs) r h b e g =
    let same : k ≡ n = omega arith in ground (arith, h.0, text_eq_refl (root_id n))
find-Numbered n (suc i) k (s ∷ rs) r h b e g =
    let other = root_id-ne n k (omega arith) (omega (arith, get_elem?-lt rs i r g)) (omega arith) in
    ground (arith, h.0, other, find-Numbered (suc n) i k rs r h.1)

Numbered-get_elem? :
    (n i : ℕ) (rs : List Root) (r : Root)
    → Numbered n rs
    → get_elem? rs i ≡ some r
    → r.id ≡ root_id (n + i)
Numbered-get_elem? n i [] r h g = absurd (ground arith)
Numbered-get_elem? n zero (s ∷ rs) r h g = ground (arith, h.0)
Numbered-get_elem? n (suc i) (s ∷ rs) r h g =
    ground (arith, Numbered-get_elem? (suc n) i rs r h.1 g)

module _ (host : Host) (config : RootsConfig) where
  pub record IsServed (rs : List Root) : Type 0 where
    pub separate : Separate rs
    pub numbered : Numbered 0 rs
    pub insensitive : All (Insensitive host config) rs
    pub bounded : length rs ≤ max_roots

  -- Whatever the configuration and the host, `get_roots` returns at most 32 roots, numbered from 0, of
  -- which none lies inside another and none has a sensitive name of its own.
  pub get_roots-IsServed : (rs : List Root) → get_roots host config ≡ ok rs → IsServed rs
  unfolding get_roots
  get_roots-IsServed rs h = elim (Option-cases config.allowed_roots) [
    | inl unset ↦
        let empty : rs ≡ [] = ground arith in
        rw empty (record { separate = tt; numbered = tt; insensitive = tt; bounded = omega arith })
    | inr (items, e) ↦
        let resolved : resolve_roots host config 0 items [] ≡ ok rs = ground arith in
        let few : length items ≤ max_roots = ground arith in
        let (separate, numbered, _, plain, len) =
          resolve_roots-facts host config 0 items [] rs resolved in
        record {
          separate = separate;
          numbered = numbered;
          insensitive = plain;
          bounded = omega (arith, len, few);
        }
  ]

-- Every root that `get_roots` returns can be selected by its id, which gives back that same root.
pub get_root-get_roots :
    (host : Host) (config : RootsConfig) (rs : List Root) (i : ℕ) (r : Root)
    → get_roots host config ≡ ok rs
    → get_elem? rs i ≡ some r
    → get_root r.id rs ≡ ok r
unfolding get_root
get_root-get_roots host config rs i r h g =
    let served = get_roots-IsServed host config rs h in
    let id = Numbered-get_elem? 0 i rs r served.numbered g in
    let valid : is_root_id r.id ≡ true =
      subst (λ t. is_root_id t ≡ true) (sym id)
        (root_id-fits (0 + i) (omega (arith, get_elem?-lt rs i r g, served.bounded))).0 in
    let found : find (λ s. text_eq s.id r.id) rs ≡ some r =
      subst (λ t. find (λ s. text_eq s.id t) rs ≡ some r) (sym id)
        (find-Numbered 0 i (0 + i) rs r served.numbered (omega (arith, served.bounded)) refl g) in
    rw (valid, found)
