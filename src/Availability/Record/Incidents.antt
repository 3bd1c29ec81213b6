-- ===== src/Availability/Record/Incidents.antt =====
-- How many incidents are open (`record_check` of paxalia/uptime.py).
use paxalia_dashboard.Prelude.{
  ℕ, suc, ◌≤◌, ◌≡◌, ◌⊎◌, refl, inl, inr, none, some, List, [], ◌∷◌, Text, length, leb, find, count,
  Option-cases, Bool-cases, arith,
}
use paxalia_dashboard.Availability.Record.{
  recovered, Health, up, down, unknown, Monitor, Check, Incident, Rows, came_back, is_open,
  threshold, streak, open_incident, recent, on_down, on_up, record_check, save_incident,
  recovered_incident,
}
use paxalia_dashboard.Availability.Record.Laws.{on_down-came_back}

-- The number of open incidents.
unfoldable pub open_count : List Incident → ℕ
open_count is = count (λ i. is_open i.state) is

open_count-save_incident :
    (row : Incident) (is : List Incident)
    → row.state ≡ recovered
    → open_count (save_incident row is) ≤ open_count is
unfolding open_count save_incident
open_count-save_incident row [] h = omega arith
open_count-save_incident row (i ∷ is) h = ground (arith, h, open_count-save_incident row is h)

closed-save_incident :
    (row found : Incident) (is : List Incident)
    → row.state ≡ recovered
    → row.pk ≡ found.pk
    → find (λ i. is_open i.state) is ≡ some found
    → suc (open_count (save_incident row is)) ≤ open_count is
unfolding open_count save_incident
closed-save_incident row found [] h k e = cc
closed-save_incident row found (i ∷ is) h k e =
    ground (arith, h, k, closed-save_incident row found is h k, open_count-save_incident row is h)

none_open : (is : List Incident) → find (λ i. is_open i.state) is ≡ none → open_count is ≡ 0
unfolding open_count
none_open [] h = refl
none_open (i ∷ is) h = ground (arith, none_open is)

on_down-open_count :
    (m : Monitor) (pk : ℕ) (request_id : Text) (check : Check) (rows : Rows)
    → open_count rows.incidents ≤ 1
    → open_count (on_down m pk request_id check rows).0.incidents ≤ 1
unfolding on_down open_incident open_count
on_down-open_count m pk request_id check rows one = elim (Option-cases (open_incident rows)) [
  | inr (i, busy) ↦ ground arith
  | inl free ↦ ground (arith, none_open rows.incidents free)
]

on_up-open_count :
    (m : Monitor) (request_id : Text) (check : Check) (rows : Rows)
    → let out = on_up m request_id check rows in
      (open_count out.0.incidents ≤ open_count rows.incidents)
      × (out.1 ≡ came_back → suc (open_count out.0.incidents) ≤ open_count rows.incidents)
unfolding on_up open_incident
on_up-open_count m request_id check rows = elim (Option-cases (open_incident rows)) [
  | inl free ↦ (ground arith, λ h. absurd (ground arith))
  | inr (i, busy) ↦
      let successes = streak up (recent m rows.checks) in
      let row = recovered_incident request_id check successes i in
      let fewer = closed-save_incident row i rows.incidents refl refl busy in
      elim (Bool-cases (leb (threshold m.recovery_threshold) (length successes))) [
        | inl long ↦ (ground (arith, fewer), λ h. ground (arith, fewer))
        | inr short ↦ (ground arith, λ h. absurd (ground arith))
      ]
]

status-cases : (h : Health) → (h ≡ down) ⊎ ((h ≡ up) ⊎ (h ≡ unknown))
status-cases up = inr (inl refl)
status-cases down = inl refl
status-cases unknown = inr (inr refl)

-- A monitor never has two open incidents: if it has at most one, it has at most one after
-- `record_check`, and none if the call announces a recovery.
pub record_check-open_count :
    (m : Monitor) (pk : ℕ) (request_id : Text) (check : Check) (rows : Rows)
    → open_count rows.incidents ≤ 1
    → let out = record_check m pk request_id check rows in
      (open_count out.0.incidents ≤ 1) × (out.1 ≡ came_back → open_count out.0.incidents ≡ 0)
unfolding record_check
record_check-open_count m pk request_id check rows one =
    let stored = record rows { checks = check ∷ rows.checks } in
    let ups = on_up-open_count m request_id check stored in
    let downs = on_down-open_count m pk request_id check stored one in
    elim (status-cases check.status) [
      | inl is ↦ (
        ground (arith, downs),
        λ h. absurd (ground (arith, on_down-came_back m pk request_id check stored)),
      )
      | inr (inl is) ↦ (ground (arith, ups.0), λ h. ground (arith, ups.1))
      | inr (inr is) ↦ (ground arith, λ h. absurd (ground arith))
    ]
