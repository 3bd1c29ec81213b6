-- ===== src/Availability/Record.antt =====
-- `record_check` and `_streak` of paxalia/uptime.py: an observation is stored, and the thresholds of
-- the monitor decide whether an incident opens or recovers.
pub mod Laws
pub mod Incidents
pub mod Turns
pub mod Changes
use paxalia_dashboard.Prelude.{
  ℕ, ◌+◌, ◌-◌, ◌≤◌, min, max, Bool, true, false, ◌&&◌, ◌||◌, not, Option, none, some, List, [], ◌∷◌,
  Text, codes, text_eq, is_empty, take, drop, find, filter, count, length, leb, ltb, ◌==◌,
  if◌then◌else◌,
}

pub data Health : Type 0 where
  up down unknown : Health

-- `IncidentState`: of the choices, the code tests for the first two.
pub data State : Type 0 where
  opened acknowledged recovered : State

abbrev pub is_up : Health → Bool
is_up up = true
is_up _ = false

abbrev pub is_down : Health → Bool
is_down down = true
is_down _ = false

abbrev pub same_health : Health → Health → Bool
same_health up up = true
same_health down down = true
same_health unknown unknown = true
same_health _ _ = false

abbrev pub is_open : State → Bool
is_open recovered = false
is_open _ = true

-- `UptimeMonitor`, as far as its thresholds and its schedule go; the columns hold naturals.
pub record Monitor : Type 0 where
  pub pk : ℕ
  pub failure_threshold : ℕ
  pub recovery_threshold : ℕ
  pub timeout_seconds : ℕ
  pub check_interval_seconds : ℕ
  pub check_interval_minutes : ℕ
  pub expected_status_code : ℕ
  pub is_active : Bool

-- `UptimeCheck`
pub record Check : Type 0 where
  pub status : Health
  pub checked_at : ℕ
  pub status_code : Option ℕ
  pub response_time_ms : Option ℕ
  pub error_message : Text

-- `UptimeIncident`
pub record Incident : Type 0 where
  pub pk : ℕ
  pub state : State
  pub started_at : ℕ
  pub last_confirmed_healthy_at : Option ℕ
  pub first_confirmed_failure_at : Option ℕ
  pub first_confirmed_recovery_at : Option ℕ
  pub resolved_at : Option ℕ
  pub cause : Text
  pub status_code : Option ℕ
  pub response_time_ms : Option ℕ
  pub request_id : Text

-- The rows of one monitor: its checks, the latest first, and its incidents.
pub record Rows : Type 0 where
  pub checks : List Check
  pub incidents : List Incident

-- What `perform_check` hands over.
pub record Observation : Type 0 where
  pub status : Option Text
  pub status_code : Option ℕ
  pub response_time_ms : Option ℕ
  pub error_message : Option Text

-- `str(result.get('status') or 'unknown').lower()`, and `unknown` for any other text.
unfoldable pub health_of : (Text → Text) → Option Text → Health
health_of lower none = unknown
health_of lower (some s) =
    if text_eq (lower s) (codes "up")
    then up
    else if text_eq (lower s) (codes "down")
    then down
    else unknown

-- The check that is stored; `assertion_result` is left out.
unfoldable pub observed : (Text → Text) → ℕ → Observation → Check
unfolding health_of
observed lower now o = record {
  status = health_of lower o.status;
  checked_at = now;
  status_code = o.status_code;
  response_time_ms = o.response_time_ms;
  error_message = elim o.error_message [ none ↦ [] | some s ↦ take 500 s ];
}

-- What the call announces after its transaction.
pub data Notice : Type 0 where
  silent went_down came_back : Notice

-- `max(1, min(20, int(threshold or 2)))`
unfoldable pub threshold : ℕ → ℕ
threshold n = if n == 0 then 2 else max 1 (min 20 n)

unfoldable pub streak : Health → List Check → List Check
streak status [] = []
streak status (c ∷ cs) =
    let rest = streak status cs in if same_health c.status status then c ∷ rest else []

-- The last check of a streak; a streak that is asked for is not empty.
unfoldable pub last_of : Check → List Check → Check
last_of c [] = c
last_of c (d ∷ ds) = last_of d ds

unfoldable pub open_incident : Rows → Option Incident
open_incident rows = find (λ i. is_open i.state) rows.incidents

-- `list(locked.checks.order_by('-checked_at')[:max(...) + 2])`
abbrev pub window : Monitor → ℕ
window m = max (threshold m.failure_threshold) (threshold m.recovery_threshold) + 2

abbrev pub recent : Monitor → List Check → List Check
recent m checks = take (window m) checks

-- `prior.checked_at if prior and prior.status == 'up' else None`
unfoldable pub healthy_before : List Check → Option ℕ
healthy_before [] = none
healthy_before (c ∷ cs) = if is_up c.status then some c.checked_at else none

abbrev pub new_incident : ℕ → Text → Check → List Check → List Check → Incident
new_incident pk request_id check failures checks = record {
  pk = pk;
  state = opened;
  started_at = (last_of check failures).checked_at;
  last_confirmed_healthy_at = healthy_before (drop (length failures) checks);
  first_confirmed_failure_at = some (last_of check failures).checked_at;
  first_confirmed_recovery_at = none;
  resolved_at = none;
  cause = check.error_message;
  status_code = check.status_code;
  response_time_ms = check.response_time_ms;
  request_id = request_id;
}

abbrev pub recovered_incident : Text → Check → List Check → Incident → Incident
recovered_incident request_id check successes i = record i {
  first_confirmed_recovery_at = some (last_of check successes).checked_at;
  resolved_at = some (last_of check successes).checked_at;
  state = recovered;
  status_code = check.status_code;
  response_time_ms = check.response_time_ms;
  request_id = if is_empty request_id then i.request_id else request_id;
}

-- `open_incident.save()`
unfoldable pub save_incident : Incident → List Incident → List Incident
save_incident row [] = []
save_incident row (i ∷ is) =
    let rest = save_incident row is in (if i.pk == row.pk then row else i) ∷ rest

-- The rows of a monitor after a check that is stored already.
unfoldable pub on_down : Monitor → ℕ → Text → Check → Rows → Rows × Notice
on_down m pk request_id check rows =
    let seen = recent m rows.checks in
    let failures = streak down seen in
    elim (open_incident rows) [
      | some i ↦ (rows, silent)
      | none ↦
          if leb (threshold m.failure_threshold) (length failures)
          then (
            record rows {
              incidents = new_incident pk request_id check failures seen ∷ rows.incidents;
            },
            went_down,
          )
          else (rows, silent)
    ]

unfoldable pub on_up : Monitor → Text → Check → Rows → Rows × Notice
on_up m request_id check rows =
    let successes = streak up (recent m rows.checks) in
    elim (open_incident rows) [
      | none ↦ (rows, silent)
      | some i ↦
          if leb (threshold m.recovery_threshold) (length successes)
          then (
            record rows {
              incidents =
                  save_incident (recovered_incident request_id check successes i) rows.incidents;
            },
            came_back,
          )
          else (rows, silent)
    ]

-- The check is the observation as stored. `pk` is the key of an incident that would be created.
unfoldable pub record_check : Monitor → ℕ → Text → Check → Rows → Rows × Notice
record_check m pk request_id check rows =
    let stored = record rows { checks = check ∷ rows.checks } in
    elim check.status [
      | down ↦ on_down m pk request_id check stored
      | up ↦ on_up m request_id check stored
      | unknown ↦ (stored, silent)
    ]
