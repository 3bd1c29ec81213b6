-- ===== src/RateLimit/Laws.antt =====
-- How many attempts are allowed (paxalia/security_rate_limit.py).
use paxalia_dashboard.Prelude.{
  ℕ, zero, suc, ◌-◌, min, ◌≡◌, ◌≤◌, ◌∙◌, ap, refl, inl, inr, true, Option, none, some, Text, ok,
  leb, ltb, if◌then◌else◌, ℤ, pos, negsuc, arith, Bool-cases, List, [], ◌∷◌,
}
use paxalia_dashboard.RateLimit.{Cache, Verdict, consume, allowed_within, allowed, at_least_one}

-- A cache that answers, whose counter of the key nobody else changes and that does not expire.
pub record IsCounter {S : Type 0} (c : Cache S) (key : Text) : Type 0 where
  pub value : S → Option ℕ
  pub got : (s : S) → c.get key s ≡ ok (value s)
  pub added :
      (n window : ℕ) (s : S)
      → value s ≡ none
      → (after : S) × (c.add key n window s ≡ ok (true, after)) × (value after ≡ some n)
  pub raised :
      (n : ℕ) (s : S)
      → value s ≡ some n
      → (after : S) × (c.incr key s ≡ ok (suc n, after)) × (value after ≡ some (suc n))

-- How many attempts are left.
unfoldable room : ℕ → Option ℕ → ℕ
room limit none = limit
room limit (some n) = limit - n

-- The verdicts on as many attempts, one after the other.
unfoldable pub attempts : {S : Type 0} → Cache S → ℤ → ℤ → Text → ℕ → S → List Verdict
unfolding allowed
attempts c limit window_seconds key zero s = []
attempts c limit window_seconds key (suc n) s =
    let tried = allowed c limit window_seconds key s in
    let rest = attempts c limit window_seconds key n tried.1 in tried.0 ∷ rest

-- How many of them were allowed.
unfoldable pub allowed_count : List Verdict → ℕ
allowed_count [] = 0
allowed_count (v ∷ vs) = let rest = allowed_count vs in if v.is_allowed then suc rest else rest

one_attempt :
    (n left : ℕ)
    → (if ltb 0 left then suc (min n (left - 1)) else min n (left - 1)) ≡ min (suc n) left
one_attempt n left = ground arith

module _ {S : Type 0} (c : Cache S) (key : Text) (counter : IsCounter c key) where
  consume-room :
      (limit window n : ℕ) (s : S)
      → counter.value s ≡ some n
      → ((consume c limit window key n s).0.is_allowed ≡ ltb 0 (limit - n))
        × (room limit (counter.value ((consume c limit window key n s).1)) ≡ limit - n - 1)
  unfolding consume room
  consume-room limit window n s is = elim (Bool-cases (leb limit n)) [
    | inl full ↦ rw full (ground arith, rw is (ground arith))
    | inr few ↦
        let (after, done, now) = counter.raised n s is in
        rw (few, done) (ground arith, rw now (ground arith))
  ]

  allowed_within-room :
      (limit window : ℕ) (s : S) (found : Option ℕ)
      → 1 ≤ limit
      → counter.value s ≡ found
      → ((allowed_within c limit window key s).0.is_allowed ≡ ltb 0 (room limit found))
        × (room limit (counter.value ((allowed_within c limit window key s).1))
            ≡ room limit found - 1)
  unfolding allowed_within room
  allowed_within-room limit window s none positive is =
      let (after, done, now) = counter.added 1 window s is in
      rw (allowed_within, counter.got s, is, done) (ground arith, rw now refl)
  allowed_within-room limit window s (some n) positive is =
      rw (allowed_within, counter.got s, is) (consume-room limit window n s is)

  at_least_one_lem : (limit : ℤ) → 1 ≤ at_least_one limit
  at_least_one_lem (pos n) = omega arith
  at_least_one_lem (negsuc n) = omega arith

  attempts-room :
      (limit window_seconds : ℤ) (n : ℕ) (s : S)
      → allowed_count (attempts c limit window_seconds key n s)
        ≡ min n (room (at_least_one limit) (counter.value s))
  unfolding attempts allowed_count allowed
  attempts-room limit window_seconds zero s = ground arith
  attempts-room limit window_seconds (suc n) s =
      let most = at_least_one limit in
      let window = at_least_one window_seconds in
      let (verdict, after) =
        allowed_within-room most window s (counter.value s) (at_least_one_lem limit) refl in
      let rest = attempts-room limit window_seconds n ((allowed_within c most window key s).1) in
      rw (allowed, verdict, rest, after) (one_attempt n (room most (counter.value s)))

  -- Of any number of attempts in a row on a key without a counter, the first `limit` are allowed (at
  -- least one), and no other: so many are allowed as there are attempts, but no more than the limit.
  pub attempts-allowed_count :
      (limit window_seconds : ℤ) (n : ℕ) (s : S)
      → counter.value s ≡ none
      → allowed_count (attempts c limit window_seconds key n s) ≡ min n (at_least_one limit)
  unfolding room
  attempts-allowed_count limit window_seconds n s fresh =
      attempts-room limit window_seconds n s ∙ ap (λ v. min n (room (at_least_one limit) v)) fresh
