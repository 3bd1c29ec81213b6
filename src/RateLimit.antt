-- ===== src/RateLimit.antt =====
-- `allowed` of paxalia/security_rate_limit.py. The key, a digest, is an argument.
pub mod Laws
mod Tests
use paxalia_dashboard.Prelude.{
  ℕ, zero, suc, ◌+◌, ◌-◌, max, Bool, true, false, Option, none, some, Text, Result, ok, err, leb,
  if◌then◌else◌, ℤ, pos, negsuc,
}

-- Any exception of the cache.
pub data CacheError : Type 0 where
  cache_error : CacheError

-- Django's cache, with the state that a call leaves; a call that raises leaves the state as it was. A
-- counter that is not a natural number is read as an error.
pub record Cache (S : Type 0) : Type 0 where
  pub get : Text → S → Result CacheError (Option ℕ)
  pub add : Text → ℕ → ℕ → S → Result CacheError (Bool × S)
  pub incr : Text → S → Result CacheError (ℕ × S)
  pub set : Text → ℕ → ℕ → S → Result CacheError S

-- Whether the attempt is allowed, and how many are left.
pub record Verdict : Type 0 where
  pub is_allowed : Bool
  pub left : ℕ

-- `max(1, int(value))`
abbrev pub at_least_one : ℤ → ℕ
at_least_one (pos n) = max 1 n
at_least_one (negsuc n) = 1

module _ {S : Type 0} (c : Cache S) (limit window : ℕ) (key : Text) where
  abbrev counted : ℕ → S → Verdict × S
  counted new_value s = (record { is_allowed = leb new_value limit; left = limit - new_value }, s)

  abbrev fails_open : S → Verdict × S
  fails_open s = (record { is_allowed = true; left = limit }, s)

  -- One more attempt, after as many as the counter says.
  unfoldable pub consume : ℕ → S → Verdict × S
  consume current s =
      if leb limit current
      then (record { is_allowed = false; left = 0 }, s)
      else elim (c.incr key s) [
        | ok (new_value, after) ↦ counted new_value after
        | err e ↦ elim (c.set key (current + 1) window s) [
          | ok after ↦ counted (current + 1) after
          | err e' ↦ fails_open s
        ]
      ]

  -- The counter that another caller has just added.
  unfoldable pub consume_added : S → Verdict × S
  unfolding consume
  consume_added s = elim (c.get key s) [
    | err e ↦ fails_open s
    | ok none ↦ consume 0 s
    | ok (some current) ↦ consume current s
  ]

  unfoldable pub allowed_within : S → Verdict × S
  unfolding consume consume_added
  allowed_within s = elim (c.get key s) [
    | err e ↦ fails_open s
    | ok (some current) ↦ consume current s
    | ok none ↦ elim (c.add key 1 window s) [
      | err e ↦ fails_open s
      | ok (true, after) ↦ (record { is_allowed = true; left = limit - 1 }, after)
      | ok (false, after) ↦ consume_added after
    ]
  ]

-- `allowed`
unfoldable pub allowed : {S : Type 0} → Cache S → ℤ → ℤ → Text → S → Verdict × S
unfolding allowed_within
allowed c limit window_seconds key s =
    allowed_within c (at_least_one limit) (at_least_one window_seconds) key s
