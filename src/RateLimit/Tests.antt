-- ===== src/RateLimit/Tests.antt =====
-- Runs of the rate limiter at concrete inputs, and its theorem applied at one.
use paxalia_dashboard.Prelude.{
  ℕ, suc, ◌≡◌, refl, true, false, Option, none, some, codes, pos, ok, err, arith,
}
use paxalia_dashboard.RateLimit.{Cache, cache_error, allowed, allowed_within}
use paxalia_dashboard.RateLimit.Laws.{IsCounter, attempts, allowed_count, attempts-allowed_count}

-- A cache of one key.
abbrev one_key : Cache (Option ℕ)
one_key = record {
  get = λ key s. ok s;
  add = λ key n window s. elim s [ none ↦ ok (true, some n) | some m ↦ ok (false, some m) ];
  incr = λ key s. elim s [ none ↦ err cache_error | some n ↦ ok (suc n, some (suc n)) ];
  set = λ key n window s. ok (some n);
}

abbrev broken : Cache (Option ℕ)
broken = record {
  get = λ key s. err cache_error;
  add = λ key n window s. err cache_error;
  incr = λ key s. err cache_error;
  set = λ key n window s. err cache_error;
}

abbrev one_key-IsCounter : IsCounter one_key (codes "k")
one_key-IsCounter = record {
  value = λ s. s;
  got = λ s. refl;
  added = λ n window s e. (some n, ground (arith, e), refl);
  raised = λ n s e. (some (suc n), ground (arith, e), refl);
}

-- Three of five attempts are allowed.
attempts-allowed_count_example :
    allowed_count (attempts one_key (pos 3) (pos 60) (codes "k") 5 none) ≡ 3
attempts-allowed_count_example =
    attempts-allowed_count one_key (codes "k") one_key-IsCounter (pos 3) (pos 60) 5 none refl

-- Without a cache all of them are.
broken_cache : allowed_count (attempts broken (pos 3) (pos 60) (codes "k") 5 none) ≡ 5
unfolding allowed_count attempts allowed allowed_within
broken_cache = refl
