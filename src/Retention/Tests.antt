-- ===== src/Retention/Tests.antt =====
-- Runs of the pruning at concrete inputs, and its theorems applied at them.
use paxalia_dashboard.Prelude.{
  ℕ, ◌*◌, ◌≤◌, ◌<◌, ◌≡◌, refl, max, false, Option, none, some, List, [], ◌∷◌, Text, codes, filter,
  null, int, pos, ok, err, arith, to_int, ap, sym, ◌∙◌,
}
use mathlib.Core.List.{Memᴰ}
use mathlib.Core.List.Memᴰ
use paxalia_dashboard.Retention.{
  Config, Limits, log_limits, as_nonnegative_int, severity_retention_days,
}
use paxalia_dashboard.Retention.Prune.{
  Event, Store, Summary, overflow, day, is_protected, prune_log_events,
}
use paxalia_dashboard.Retention.Laws.{KeysAreUnique, prune_log_events-is_protected}
use paxalia_dashboard.Retention.Bounds.{total, prune_log_events-total, prune_log_events-overflow}

abbrev same_text : Text → Text
same_text s = s

abbrev config : Config
config = record {
  max_records = some (int (pos 1));
  max_storage_mb = none;
  cleanup_batch_size = none;
  severity_days = [];
  category_days = [];
  lower = same_text;
  upper = same_text;
}

abbrev event : ℕ → Text → Text → Event
event id severity source = record {
  id = id;
  severity = severity;
  source = source;
  category = codes "system";
  timestamp = 10;
  group = none;
}

abbrev store : Store
store = record {
  events =
      event 1 (codes "DEBUG") (codes "Other")
      ∷ event 2 (codes "DEBUG") (codes "Authentication")
      ∷ [];
  groups = record { id = 5; last_seen = 3 } ∷ [];
}

abbrev no_size : List Event → Option ℕ
no_size es = none

abbrev today : ℕ
today = 40000000

unique : KeysAreUnique store.events
unique a b (Memᴰ.head x) (Memᴰ.head y) same = x ∙ sym y
unique a b (Memᴰ.head x) (Memᴰ.tail (Memᴰ.head y)) same =
    let first = ap (λ e. e.id) x in let second = ap (λ e. e.id) y in absurd (omega arith)
unique a b (Memᴰ.tail (Memᴰ.head x)) (Memᴰ.head y) same =
    let first = ap (λ e. e.id) x in let second = ap (λ e. e.id) y in absurd (omega arith)
unique a b (Memᴰ.tail (Memᴰ.head x)) (Memᴰ.tail (Memᴰ.head y)) same = x ∙ sym y
unique a b (Memᴰ.tail (Memᴰ.tail m)) n same = absurd (Memᴰ.not-nil m)
unique a b m (Memᴰ.tail (Memᴰ.tail n)) same = absurd (Memᴰ.not-nil n)

prune_log_events-is_protected_example :
    filter is_protected (prune_log_events config today no_size false null store).1.events
    ≡ filter is_protected store.events
prune_log_events-is_protected_example =
    prune_log_events-is_protected config today no_size false null store unique

abbrev limits : Limits
limits = record { max_records = 1; max_storage_bytes = 2147483648; batch_size = 500 }

limits_read : log_limits config ≡ ok limits
unfolding log_limits to_int
limits_read = refl

abbrev summary : Summary
summary = record { retention = 1; max_records = 0; storage = 0; groups = 1 }

pruned : (prune_log_events config today no_size false null store).0 ≡ ok summary
unfolding prune_log_events to_int
pruned = refl

prune_log_events-total_example : total summary ≤ max 1 (as_nonnegative_int null 500)
prune_log_events-total_example =
    prune_log_events-total config today no_size false null store limits summary limits_read pruned

abbrev forever : Config
forever = record config { severity_days = (codes "DEBUG", int (pos 999999)) ∷ [] }

forever_read : log_limits forever ≡ ok limits
unfolding log_limits to_int
forever_read = refl

-- In the year 2026.
abbrev this_year : ℕ
this_year = 63900000000

too_early : this_year < severity_retention_days forever (codes "DEBUG") * day
unfolding severity_retention_days to_int
too_early = omega arith

prune_log_events-overflow_example :
    prune_log_events forever this_year no_size false null store ≡ (err overflow, store)
prune_log_events-overflow_example =
    prune_log_events-overflow forever this_year no_size false null store limits forever_read
      too_early
