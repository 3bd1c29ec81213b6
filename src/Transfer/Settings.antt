-- ===== src/Transfer/Settings.antt =====
-- The numeric settings of paxalia/transfer_center/policy.py and the limits of
-- paxalia/server_files/policy.py: each reads a dynamic value, converts it with `int()` and clamps it
-- or refuses it.
use paxalia_dashboard.Prelude.{
  ℕ, ◌*◌, ◌≤◌, ◌<◌, ◌≡◌, refl, ◌||◌, ltb, ◌==◌, if◌then◌else◌, arith, Value, bool, ℤ, pos, negsuc,
  at_least, at_most, IntError, type_error, value_error, overflow_error, to_int, Result, ok, err,
}
use native.Mathlib.Nat.{le_refl}
use paxalia_dashboard.ServerFiles.Error.{Checked, configuration}

-- `int(value)` under `except (TypeError, ValueError)`: the default there, and an `OverflowError`
-- goes through.
abbrev or_default : ℤ → Result IntError ℤ → Result IntError ℤ
or_default default (ok z) = ok z
or_default default (err overflow_error) = err overflow_error
or_default default (err type_error) = ok default
or_default default (err value_error) = ok default

unfoldable pub int_or : ℤ → Value → Result IntError ℤ
int_or default value = or_default default (to_int value)

abbrev map_ok : (ℤ → ℕ) → Result IntError ℤ → Result IntError ℕ
map_ok f (ok z) = ok (f z)
map_ok f (err e) = err e

abbrev pub mebibyte : ℕ
mebibyte = 1024 * 1024

-- `max(1, mb) * 1024 * 1024`
unfoldable pub max_transfer_bytes : Value → Result IntError ℕ
max_transfer_bytes setting = map_ok (λ z. at_least 1 z * mebibyte) (int_or (pos 2048) setting)

-- `max(1, min(mb, 64)) * 1024 * 1024`
unfoldable pub chunk_size_bytes : Value → Result IntError ℕ
chunk_size_bytes setting =
    map_ok (λ z. at_least 1 (at_most 64 z) * mebibyte) (int_or (pos 5) setting)

unfoldable pub max_concurrent_transfers : Value → Result IntError ℕ
max_concurrent_transfers setting = map_ok (at_least 1) (int_or (pos 3) setting)

unfoldable pub max_retries : Value → Result IntError ℕ
max_retries setting = map_ok (at_least 0) (int_or (pos 5) setting)

unfoldable pub retry_delay_seconds : Value → Result IntError ℕ
retry_delay_seconds setting = map_ok (λ z. at_least 1 (at_most 300 z)) (int_or (pos 2) setting)

unfoldable pub expiration_hours : Value → Result IntError ℕ
expiration_hours setting = map_ok (at_least 1) (int_or (pos 24) setting)

unfoldable pub sync_verify_max_bytes : Value → Result IntError ℕ
sync_verify_max_bytes setting = map_ok (λ z. at_least 0 z * mebibyte) (int_or (pos 50) setting)

check_positive : Result IntError ℤ → ℕ → Checked ℕ
check_positive (err e) maximum = err configuration
check_positive (ok (negsuc n)) maximum = err configuration
check_positive (ok (pos n)) maximum = if n == 0 || ltb maximum n then err configuration else ok n

check_positive_bounds :
    (r : Result IntError ℤ) (maximum n : ℕ)
    → check_positive r maximum ≡ ok n
    → (0 < n) × (n ≤ maximum)
unfolding check_positive
check_positive_bounds (err e) maximum n h = absurd (ground arith)
check_positive_bounds (ok (negsuc m)) maximum n h = absurd (ground arith)
check_positive_bounds (ok (pos m)) maximum n h = ground arith

-- `_positive_int`: no Boolean, a number above 0 and at most the maximum.
unfoldable pub positive_int : Value → ℕ → Checked ℕ
unfolding check_positive
positive_int (bool b) maximum = err configuration
positive_int value maximum = check_positive (to_int value) maximum

-- What a setting that is used as a number must satisfy.
abbrev pub Within : ℕ → ℕ → Result IntError ℕ → Type 0
Within lo hi (ok n) = (lo ≤ n) × (n ≤ hi)
Within lo hi (err e) = e ≡ overflow_error

abbrev pub AtLeast : ℕ → Result IntError ℕ → Type 0
AtLeast lo (ok n) = lo ≤ n
AtLeast lo (err e) = e ≡ overflow_error

clamp_bounds :
    (lo hi : ℕ) (z : ℤ)
    → lo ≤ hi
    → (lo ≤ at_least lo (at_most hi z)) × (at_least lo (at_most hi z) ≤ hi)
clamp_bounds lo hi (pos n) h = omega arith
clamp_bounds lo hi (negsuc n) h = omega arith

at_least-le : (lo : ℕ) (z : ℤ) → lo ≤ at_least lo z
at_least-le lo (pos n) = omega arith
at_least-le lo (negsuc n) = omega arith

scaled : (lo n hi unit : ℕ) → (lo ≤ n) × (n ≤ hi) → (lo * unit ≤ n * unit) × (n * unit ≤ hi * unit)
scaled lo n hi unit h = (grind arith, grind arith)

clamped :
    (lo hi unit : ℕ) (default : ℤ) (r : Result IntError ℤ)
    → lo ≤ hi
    → Within
        (lo * unit)
        (hi * unit)
        (map_ok (λ z. at_least lo (at_most hi z) * unit) (or_default default r))
clamped lo hi unit default (ok z) h = scaled lo _ hi unit (clamp_bounds lo hi z h)
clamped lo hi unit default (err overflow_error) h = refl
clamped lo hi unit default (err type_error) h = scaled lo _ hi unit (clamp_bounds lo hi default h)
clamped lo hi unit default (err value_error) h = scaled lo _ hi unit (clamp_bounds lo hi default h)

floored :
    (lo unit : ℕ) (default : ℤ) (r : Result IntError ℤ)
    → AtLeast (lo * unit) (map_ok (λ z. at_least lo z * unit) (or_default default r))
floored lo unit default (ok z) = (scaled lo _ (at_least lo z) unit (at_least-le lo z, le_refl _)).0
floored lo unit default (err overflow_error) = refl
floored lo unit default (err type_error) =
    (scaled lo _ (at_least lo default) unit (at_least-le lo default, le_refl _)).0
floored lo unit default (err value_error) =
    (scaled lo _ (at_least lo default) unit (at_least-le lo default, le_refl _)).0

clamped_one :
    (lo hi : ℕ) (default : ℤ) (r : Result IntError ℤ)
    → lo ≤ hi
    → Within lo hi (map_ok (λ z. at_least lo (at_most hi z)) (or_default default r))
clamped_one lo hi default (ok z) h = clamp_bounds lo hi z h
clamped_one lo hi default (err overflow_error) h = refl
clamped_one lo hi default (err type_error) h = clamp_bounds lo hi default h
clamped_one lo hi default (err value_error) h = clamp_bounds lo hi default h

at_least_one :
    (lo : ℕ) (default : ℤ) (r : Result IntError ℤ)
    → AtLeast lo (map_ok (at_least lo) (or_default default r))
at_least_one lo default (ok z) = at_least-le lo z
at_least_one lo default (err overflow_error) = refl
at_least_one lo default (err type_error) = at_least-le lo default
at_least_one lo default (err value_error) = at_least-le lo default

-- Whatever the setting holds, a chunk has 1 to 64 MiB, a transfer may have at least 1 MiB, the retry
-- delay is 1 to 300 seconds, and at least one transfer may run for at least one hour, except that a
-- float infinity raises an `OverflowError` that the source does not catch.
settings_bounds :
    (setting : Value)
    → Within mebibyte (64 * mebibyte) (chunk_size_bytes setting)
      × AtLeast mebibyte (max_transfer_bytes setting)
      × Within 1 300 (retry_delay_seconds setting)
      × AtLeast 1 (max_concurrent_transfers setting)
      × AtLeast 1 (expiration_hours setting)
unfolding chunk_size_bytes max_transfer_bytes retry_delay_seconds max_concurrent_transfers
    expiration_hours int_or
settings_bounds setting = (
  clamped 1 64 mebibyte (pos 5) (to_int setting) (omega arith),
  floored 1 mebibyte (pos 2048) (to_int setting),
  clamped_one 1 300 (pos 2) (to_int setting) (omega arith),
  at_least_one 1 (pos 3) (to_int setting),
  at_least_one 1 (pos 24) (to_int setting),
)
