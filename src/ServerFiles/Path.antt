-- ===== src/ServerFiles/Path.antt =====
-- `split_relative_path` of paxalia/server_files/policy.py: the check of a relative path that a
-- browser sends.
use paxalia_dashboard.Prelude.{
  ◌∙◌, ℕ, ◌≤◌, ◌≡◌, refl, Bool, true, false, ◌||◌, Option, none, some, List, [], ◌∷◌, ◌++◌, arith,
  Text, codes, text_eq, has, is_empty, starts_with, any, All, ltb, ◌==◌, ok, err, >>=-eq-ok, ◌>>=◌,
  ◌>>◌, raise_if, split_on, join, split_on-join, join-split_on, length,
}
use paxalia_dashboard.ServerFiles.Error.{Checked, invalid_path}
use paxalia_dashboard.ServerFiles.Name.{
  slash, backslash, is_control, validate_name, IsPlain, IsSafeName, validate_name_iff, not_dots,
}

abbrev pub max_path_length : ℕ
max_path_length = 2048

-- `any(part in ("", ".", "..") for part in parts)`
abbrev is_special : Text → Bool
is_special p = text_eq p [] || text_eq p (codes ".") || text_eq p (codes "..")

-- `for part in parts: _validate_name(part)`
unfoldable pub validate_parts : List Text → Checked Unit
validate_parts [] = ok tt
validate_parts (p ∷ ps) = let rest = validate_parts ps in validate_name p >>= λ _. rest

split_nonempty : Text → Checked (List Text)
split_nonempty value = do
  raise_if
      (ltb max_path_length (length value) || starts_with slash value || starts_with backslash value)
      invalid_path
  raise_if (has 0 value || has b'%' value || has backslash value || has b':' value) invalid_path
  raise_if (any is_control value) invalid_path
  raise_if (any is_special (split_on slash value)) invalid_path
  validate_parts (split_on slash value)
  ok (split_on slash value)

-- The flag is `allow_empty`; `none` stands for Python's `None`.
unfoldable pub split_relative_path : Option Text → Bool → Checked (List Text)
unfolding split_nonempty
split_relative_path none true = ok []
split_relative_path none false = err invalid_path
split_relative_path (some []) true = ok []
split_relative_path (some []) false = err invalid_path
split_relative_path (some (c ∷ s)) allow = split_nonempty (c ∷ s)

validate_parts-All : (ps : List Text) → validate_parts ps ≡ ok tt → All IsSafeName ps
unfolding validate_parts
validate_parts-All [] h = tt
validate_parts-All (p ∷ ps) h =
    let (t, e, r) = >>=-eq-ok (validate_name p) (λ _. validate_parts ps) h in
    (((validate_name_iff p t).0 e).1, validate_parts-All ps r)

All-validate_parts : (ps : List Text) → All IsSafeName ps → validate_parts ps ≡ ok tt
unfolding validate_parts
All-validate_parts [] h = refl
All-validate_parts (p ∷ ps) h =
    rw ((validate_name_iff p p).1 (refl, h.0)) (All-validate_parts ps h.1)

-- What is left of an accepted path once its tests have passed.
accepted :
    (value : Text) (parts : List Text)
    → split_nonempty value ≡ ok parts
    → (parts ≡ split_on slash value) × (validate_parts (split_on slash value) ≡ ok tt)
unfolding split_nonempty
accepted value parts h = ground arith

-- An accepted path is the "/"-join of its components, and each component is a safe name: no "..",
-- no empty component, no second spelling of a separator.
pub split_relative_path-join :
    (value : Text) (allow : Bool) (parts : List Text)
    → split_relative_path (some value) allow ≡ ok parts
    → (join slash parts ≡ value) × All IsSafeName parts
unfolding split_relative_path
split_relative_path-join [] true [] h = unfold join in (refl, tt)
split_relative_path-join [] true (p ∷ ps) h = cc
split_relative_path-join [] false parts h = cc
split_relative_path-join (c ∷ s) allow parts h =
    let (e, v) = accepted (c ∷ s) parts h in
    rw e (join-split_on slash (c ∷ s), validate_parts-All (split_on slash (c ∷ s)) v)

any-append :
    (f : ℕ → Bool) (s t : Text) → any f s ≡ false → any f t ≡ false → any f (s ++ t) ≡ false
any-append f [] t h k = k
any-append f (c ∷ s) t h k = ground (arith, any-append f s t)

any-join :
    (f : ℕ → Bool) (c : ℕ) (ps : List Text)
    → f c ≡ false
    → All (λ p. any f p ≡ false) ps
    → any f (join c ps) ≡ false
unfolding join
any-join f c [] h k = refl
any-join f c (p ∷ []) h k = k.0
any-join f c (p ∷ q ∷ ps) h k =
    any-append f p (c ∷ join c (q ∷ ps)) k.0 (rw h (any-join f c (q ∷ ps) h k.1))

-- A test that no plain code point meets.
any_plain :
    (f : ℕ → Bool) (s : Text)
    → ((c : ℕ) → IsPlain c → f c ≡ false)
    → All IsPlain s
    → any f s ≡ false
any_plain f [] h k = refl
any_plain f (c ∷ s) h k = rw (h c k.0) (any_plain f s h k.1)

parts_plain :
    (f : ℕ → Bool) (ps : List Text)
    → ((c : ℕ) → IsPlain c → f c ≡ false)
    → All IsSafeName ps
    → All (λ p. any f p ≡ false) ps
parts_plain f [] h k = tt
parts_plain f (p ∷ ps) h k = (any_plain f p h k.0.plain, parts_plain f ps h k.1)

not_special : (ps : List Text) → All IsSafeName ps → any is_special ps ≡ false
not_special [] h = refl
not_special (p ∷ ps) h = ground (arith, h.0.nonempty, not_dots p h.0.no_dot, not_special ps h.1)

-- The first code point of a joined path is one of its first component.
starts_plain :
    (c : ℕ) (p : Text) (ps : List Text)
    → ((x : ℕ) → IsPlain x → (x == c) ≡ false)
    → IsSafeName p
    → starts_with c (join slash (p ∷ ps)) ≡ false
unfolding join
starts_plain c [] ps h k = cc k.nonempty
starts_plain c (x ∷ p) [] h k = h x k.plain.0
starts_plain c (x ∷ p) (q ∷ ps) h k = h x k.plain.0

module _ (p : Text) (ps : List Text) (safe : All IsSafeName (p ∷ ps)) where
  split_joined : split_on slash (join slash (p ∷ ps)) ≡ p ∷ ps
  split_joined =
      split_on-join slash p ps (parts_plain (λ x. x == slash) (p ∷ ps) (λ c h. ground arith) safe)

  free_of :
      (f : ℕ → Bool)
      → f slash ≡ false
      → ((c : ℕ) → IsPlain c → f c ≡ false)
      → any f (join slash (p ∷ ps)) ≡ false
  free_of f h k = any-join f slash (p ∷ ps) h (parts_plain f (p ∷ ps) k safe)

  split_nonempty-join :
      length (join slash (p ∷ ps)) ≤ max_path_length
      → split_nonempty (join slash (p ∷ ps)) ≡ ok (p ∷ ps)
  unfolding split_nonempty
  split_nonempty-join fits = rw (split_joined) (
      ground (
        arith,
        starts_plain slash p ps (λ x h. ground arith) safe.0,
        starts_plain backslash p ps (λ x h. ground arith) safe.0,
        free_of (λ x. x == 0) refl (λ x h. ground arith),
        free_of (λ x. x == b'%') refl (λ x h. ground arith),
        free_of (λ x. x == backslash) refl (λ x h. ground arith),
        free_of (λ x. x == b':') refl (λ x h. ground arith),
        free_of is_control refl (λ x h. ground arith),
        not_special (p ∷ ps) safe,
        All-validate_parts (p ∷ ps) safe,
      ))

nonempty_path :
    (value : Text) (allow : Bool)
    → is_empty value ≡ false
    → split_relative_path (some value) allow ≡ split_nonempty value
unfolding split_relative_path
nonempty_path [] allow h = cc
nonempty_path (c ∷ s) allow h = refl

nonempty_join :
    (p : Text) (ps : List Text) → is_empty p ≡ false → is_empty (join slash (p ∷ ps)) ≡ false
unfolding join
nonempty_join [] ps h = cc
nonempty_join (c ∷ p) [] h = refl
nonempty_join (c ∷ p) (q ∷ ps) h = refl

-- Every list of at least one safe name whose join is at most 2048 code points long is accepted at that
-- join, with `allow_empty` and without, and comes back component by component: so each such path has
-- exactly one spelling.
pub split_relative_path-IsSafeName :
    (p : Text) (ps : List Text) (allow : Bool)
    → All IsSafeName (p ∷ ps)
    → length (join slash (p ∷ ps)) ≤ max_path_length
    → split_relative_path (some (join slash (p ∷ ps))) allow ≡ ok (p ∷ ps)
split_relative_path-IsSafeName p ps allow safe fits =
    nonempty_path (join slash (p ∷ ps)) allow (nonempty_join p ps safe.0.nonempty)
    ∙ split_nonempty-join p ps safe fits
