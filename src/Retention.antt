-- ===== src/Retention.antt =====
-- The retention of log events (paxalia/resource_policies.py): the configured limits, and how long
-- an event is kept.
pub mod Prune
pub mod Chosen
pub mod Laws
pub mod Bounds
pub mod Tests
use paxalia_dashboard.Prelude.{
  ℕ, zero, suc, ◌+◌, ◌-◌, ◌*◌, max, Bool, true, false, ◌&&◌, ◌||◌, not, Option, none, some, List,
  [], ◌∷◌, map, Text, codes, text_eq, is_empty, strip, member, any, leb, ltb, ◌==◌, if◌then◌else◌,
  Value, null, int, ℤ, pos, negsuc, IntError, overflow_error, to_int, Result, ok, err, ◌>>=◌,
}

-- A value of `LOG_RETENTION_DAYS`: a number of days, or a mapping with an entry "days" perhaps.
pub data Policy : Type 0 where
  flat : Value → Policy
  nested : Option Value → Policy

-- The settings. `lower` and `upper` are the methods of `str`; a setting that is not there is `none`.
pub record Config : Type 0 where
  pub max_records : Option Value
  pub max_storage_mb : Option Value
  pub cleanup_batch_size : Option Value
  pub severity_days : List (Text × Value)
  pub category_days : List (Text × Policy)
  pub lower : Text → Text
  pub upper : Text → Text

-- `mapping.get(key)`
abbrev pub lookup {ℓ} : {A : Type ℓ} → Text → List (Text × A) → Option A
lookup key [] = none
lookup key (entry ∷ entries) =
    let rest = lookup key entries in if text_eq key entry.0 then some entry.1 else rest

-- `_as_nonnegative_int`
unfoldable pub as_nonnegative_int : Value → ℕ → ℕ
as_nonnegative_int value default = elim (to_int value) [
  | err e ↦ default
  | ok (pos n) ↦ n
  | ok (negsuc n) ↦ 0
]

unfoldable pub setting : Option Value → ℕ → ℕ
unfolding as_nonnegative_int
setting none default = default
setting (some value) default = as_nonnegative_int value default

abbrev or_default : ℕ → ℕ → ℕ
or_default zero default = default
or_default (suc n) default = suc n

pub record Limits : Type 0 where
  pub max_records : ℕ
  pub max_storage_bytes : ℕ
  pub batch_size : ℕ

abbrev pub mib : ℕ
mib = 1048576

-- `max(0, int(value)) * 1024 * 1024`, of which an infinity raises.
unfoldable pub storage_bytes : Option Value → Result IntError ℕ
storage_bytes none = ok (2048 * mib)
storage_bytes (some value) = elim (to_int value) [
  | err overflow_error ↦ err overflow_error
  | err e ↦ ok (2048 * mib)
  | ok (negsuc n) ↦ ok 0
  | ok (pos n) ↦ ok (n * mib)
]

-- `log_limits`, without the warning thresholds.
unfoldable pub log_limits : Config → Result IntError Limits
unfolding storage_bytes setting
log_limits c = storage_bytes c.max_storage_mb >>= λ bytes. ok (record {
  max_records = setting c.max_records 500000;
  max_storage_bytes = bytes;
  batch_size = or_default (setting c.cleanup_batch_size 500) 500;
})

-- `DEFAULT_SEVERITY_RETENTION_DAYS`
abbrev default_severity_retention_days : List (Text × ℕ)
default_severity_retention_days =
    (codes "DEBUG", 7)
    ∷ (codes "INFO", 30)
    ∷ (codes "WARNING", 60)
    ∷ (codes "ERROR", 180)
    ∷ (codes "CRITICAL", 365)
    ∷ []

abbrev or_else {ℓ} : {A : Type ℓ} → Option A → A → A
or_else none default = default
or_else (some a) default = a

abbrev or_text : Text → Text → Text
or_text [] default = default
or_text (c ∷ s) default = c ∷ s

unfoldable pub severity_retention_days : Config → Text → ℕ
unfolding setting
severity_retention_days c severity =
    let name = c.upper (or_text severity (codes "INFO")) in
    setting (lookup name c.severity_days) (or_else (lookup name default_severity_retention_days) 30)

abbrev days_of : Policy → ℕ → ℕ
days_of (flat value) default = as_nonnegative_int value default
days_of (nested days) default = setting days default

abbrev or_policy : Option Policy → Option Policy → Option Policy
or_policy none fallback = fallback
or_policy (some policy) fallback = some policy

-- `category_retention_days`
unfoldable pub category_retention_days : Config → Text → Option ℕ → ℕ
unfolding as_nonnegative_int setting
category_retention_days c category given =
    let name = c.lower (or_text category (codes "system")) in
    let default = or_else given 30 in
    elim (or_policy (lookup name c.category_days) (lookup (codes "system") c.category_days)) [
      | none ↦ default
      | some policy ↦ days_of policy default
    ]
