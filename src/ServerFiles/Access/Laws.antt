-- ===== src/ServerFiles/Access/Laws.antt =====
-- What `assert_path_allowed` guarantees (paxalia/server_files/policy.py).
use paxalia_dashboard.Prelude.{
  ◌≡◌, refl, sym, ap, ◌∙◌, ◌↔◌, inl, inr, Bool, true, false, Option, List, [], ◌∷◌, ◌++◌, Text,
  codes, any, ok, Result-cases, ok_injective, arith,
}
use mathlib.Core.List.{append-nil}
use paxalia_dashboard.ServerFiles.Glob.{fnmatchcase}
use paxalia_dashboard.ServerFiles.Access.{
  Root, Setting, unset, AccessConfig, User, has_capability, is_prefix, denied_prefixes, is_denied,
  default_patterns, patterns_of, configured_patterns, is_sensitive_name, is_sensitive,
  assert_path_allowed,
}

is_prefix-append :
    (p parts more : List Text) → is_prefix p parts ≡ true → is_prefix p (parts ++ more) ≡ true
unfolding is_prefix
is_prefix-append [] parts more h = refl
is_prefix-append (p ∷ ps) [] more h = cc
is_prefix-append (p ∷ ps) (q ∷ qs) more h = ground (arith, is_prefix-append ps qs more)

any_prefix-append :
    (prefixes : List (List Text)) (parts more : List Text)
    → any (λ p. is_prefix p parts) prefixes ≡ true
    → any (λ p. is_prefix p (parts ++ more)) prefixes ≡ true
any_prefix-append [] parts more h = cc
any_prefix-append (p ∷ ps) parts more h =
    ground (arith, is_prefix-append p parts more, any_prefix-append ps parts more)

any_append_right :
    {A : Type 0} (f : A → Bool) (xs ys : List A) → any f xs ≡ true → any f (xs ++ ys) ≡ true
any_append_right f [] ys h = cc
any_append_right f (x ∷ xs) ys h = ground (arith, any_append_right f xs ys)

-- A denied directory denies everything below it, at any depth.
is_denied-append :
    (real_path : Text → Option (List Text)) (config : AccessConfig) (root : Root)
    (parts more : List Text)
    → is_denied real_path config root parts ≡ ok true
    → is_denied real_path config root (parts ++ more) ≡ ok true
unfolding is_denied
is_denied-append real_path config root parts more h =
    elim (Result-cases (denied_prefixes real_path root config.denied_paths)) [
      | inl (prefixes, e) ↦ ground (arith, any_prefix-append prefixes parts more)
      | inr (x, e) ↦ absurd (ground arith)
    ]

any_mono :
    {A : Type 0} (f g : A → Bool) (xs : List A)
    → ((x : A) → f x ≡ true → g x ≡ true)
    → any f xs ≡ true
    → any g xs ≡ true
any_mono f g [] h k = cc
any_mono f g (x ∷ xs) h k = ground (arith, h x, any_mono f g xs h)

patterns_of-default :
    (casefold : Text → Text) (s : Setting) (ps : List Text)
    → patterns_of casefold s ≡ ok ps
    → (more : List Text) × (ps ≡ default_patterns ++ more)
unfolding patterns_of
patterns_of-default casefold unset ps h =
    ([], ok_injective (sym h) ∙ sym (append-nil default_patterns))
patterns_of-default casefold (Setting.entries items) ps h =
    elim (Result-cases (configured_patterns casefold items)) [
      | inl (more, e) ↦ (more, ground arith)
      | inr (x, e) ↦ absurd (ground arith)
    ]
patterns_of-default casefold Setting.not_a_list ps h = absurd (ground arith)

is_sensitive_name-more :
    (casefold : Text → Text) (ps more : List Text) (x : Text)
    → is_sensitive_name casefold ps x ≡ true
    → is_sensitive_name casefold (ps ++ more) x ≡ true
unfolding is_sensitive_name
is_sensitive_name-more casefold ps more x h =
    ground (arith, any_append_right (λ p. fnmatchcase (casefold x) p) ps more)

-- A path that the built-in patterns protect stays sensitive under every valid host configuration,
-- and so does every path that has such a component.
is_sensitive-built_in :
    (casefold : Text → Text) (config : AccessConfig) (parts more patterns : List Text)
    → is_sensitive casefold (record config { sensitive_patterns = unset }) parts ≡ ok true
    → patterns_of casefold config.sensitive_patterns ≡ ok patterns
    → is_sensitive casefold config (parts ++ more) ≡ ok true
unfolding is_sensitive
is_sensitive-built_in casefold config parts more patterns h e =
    let (extra, split) = patterns_of-default casefold config.sensitive_patterns patterns e in
    rw (e, split)
      (ap ok (
        any_append_right (is_sensitive_name casefold (default_patterns ++ extra)) parts more (
          any_mono (is_sensitive_name casefold default_patterns)
            (is_sensitive_name casefold (default_patterns ++ extra)) parts
            (is_sensitive_name-more casefold default_patterns extra)
            (unfold patterns_of in ground arith))))

-- When `assert_path_allowed` lets a request through, and with which answer.
module _ (casefold : Text → Text) (real_path : Text → Option (List Text)) (config : AccessConfig)
    (root : Root) (parts : List Text) (user : User) (write : Bool) where
  pub record IsAllowed (sensitive : Bool) : Type 0 where
    pub not_denied : is_denied real_path config root parts ≡ ok false
    pub classified : is_sensitive casefold config parts ≡ ok sensitive
    pub may_view : sensitive ≡ true → has_capability user (codes "view_sensitive_files") ≡ true
    pub may_write :
        write ≡ true
        → sensitive ≡ true
        → (config.allow_sensitive_mutations ≡ true)
          × (has_capability user (codes "modify_sensitive_files") ≡ true)

  -- `assert_path_allowed` returns exactly if the path lies under no denied prefix, a sensitive path
  -- is viewed by a holder of the view capability, and it is written only with the deployment's
  -- switch on by a holder of the modify capability; its result is the classification of the path.
  pub assert_path_allowed_iff :
      (sensitive : Bool)
      → (assert_path_allowed casefold real_path config root parts user write ≡ ok sensitive)
        ↔ IsAllowed sensitive
  unfolding assert_path_allowed
  assert_path_allowed_iff sensitive = (λ h. ground arith, λ h. ground arith)
