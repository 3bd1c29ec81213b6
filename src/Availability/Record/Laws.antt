-- ===== src/Availability/Record/Laws.antt =====
-- When incidents open and recover (`record_check` of paxalia/uptime.py).
use paxalia_dashboard.Prelude.{
  ℕ, zero, suc, ◌≤◌, ◌≡◌, ◌↔◌, ◌⊎◌, refl, inl, inr, true, none, List, [], ◌∷◌, Text, take, length,
  leb, Option-cases, Bool-cases, arith, ◌≢◌,
}
use paxalia_dashboard.Availability.Record.{
  Health, up, down, unknown, Monitor, Check, Rows, went_down, came_back, same_health, threshold,
  streak, open_incident, window, recent, on_down, on_up, record_check,
}

pub threshold_bounds : (n : ℕ) → (1 ≤ threshold n) × (threshold n ≤ 20)
unfolding threshold
threshold_bounds n = ground arith

-- The last `n` checks exist and all have the status.
unfoldable pub Consecutive : Health → ℕ → List Check → Type 0
Consecutive status zero cs = Unit
Consecutive status (suc n) [] = ⊥
Consecutive status (suc n) (c ∷ cs) = (same_health c.status status ≡ true) × Consecutive status n cs

Consecutive-streak :
    (status : Health) (n w : ℕ) (cs : List Check)
    → n ≤ w
    → Consecutive status n cs
    → n ≤ length (streak status (take w cs))
unfolding Consecutive streak
Consecutive-streak status zero w cs le h = omega arith
Consecutive-streak status (suc n) w [] le h = absurd h
Consecutive-streak status (suc n) zero (c ∷ cs) le h = absurd (omega (arith, le))
Consecutive-streak status (suc n) (suc w) (c ∷ cs) le h =
    ground (arith, h.0, Consecutive-streak status n w cs (omega (arith, le)) h.1)

streak-Consecutive :
    (status : Health) (n w : ℕ) (cs : List Check)
    → n ≤ length (streak status (take w cs))
    → Consecutive status n cs
unfolding Consecutive streak
streak-Consecutive status zero w cs h = tt
streak-Consecutive status (suc n) zero cs h = absurd (omega (arith, h))
streak-Consecutive status (suc n) (suc w) [] h = absurd (omega (arith, h))
streak-Consecutive status (suc n) (suc w) (c ∷ cs) h =
    elim (Bool-cases (same_health c.status status)) [
      | inl same ↦ (same, streak-Consecutive status n w cs (ground arith))
      | inr other ↦ absurd (ground arith)
    ]

thresholds_seen :
    (m : Monitor)
    → (threshold m.failure_threshold ≤ window m) × (threshold m.recovery_threshold ≤ window m)
thresholds_seen m = (omega arith, omega arith)

long-Consecutive :
    (status : Health) (n w : ℕ) (cs : List Check)
    → n ≤ w
    → (leb n (length (streak status (take w cs))) ≡ true) ↔ Consecutive status n cs
long-Consecutive status n w cs le = (
  λ long. streak-Consecutive status n w cs (ground (arith, long)),
  λ run. ground (arith, Consecutive-streak status n w cs le run),
)

on_down-went_down :
    (m : Monitor) (pk : ℕ) (request_id : Text) (check : Check) (rows : Rows)
    → ((on_down m pk request_id check rows).1 ≡ went_down)
      ↔ ((open_incident rows ≡ none) × Consecutive down (threshold m.failure_threshold) rows.checks)
unfolding on_down
on_down-went_down m pk request_id check rows =
    let run =
      long-Consecutive down (threshold m.failure_threshold) (window m) rows.checks
        (thresholds_seen m).0 in
    elim (Option-cases (open_incident rows)) [
      | inr (i, busy) ↦ (λ h. absurd (ground arith), λ h. absurd (ground (arith, h.0)))
      | inl free ↦
          elim (Bool-cases
            (leb (threshold m.failure_threshold) (length (streak down (recent m rows.checks))))) [
              | inl long ↦ (λ h. (free, run.0 long), λ h. ground arith)
              | inr short ↦ (λ h. absurd (ground arith), λ h. absurd (ground (arith, run.1 h.1)))
            ]
    ]

on_up-came_back :
    (m : Monitor) (request_id : Text) (check : Check) (rows : Rows)
    → ((on_up m request_id check rows).1 ≡ came_back)
      ↔ ((open_incident rows ≢ none) × Consecutive up (threshold m.recovery_threshold) rows.checks)
unfolding on_up
on_up-came_back m request_id check rows =
    let run =
      long-Consecutive up (threshold m.recovery_threshold) (window m) rows.checks
        (thresholds_seen m).1 in
    elim (Option-cases (open_incident rows)) [
      | inl free ↦ (λ h. absurd (ground arith), λ h. absurd (h.0 free))
      | inr (i, busy) ↦
          elim (Bool-cases
            (leb (threshold m.recovery_threshold) (length (streak up (recent m rows.checks))))) [
              | inl long ↦ (λ h. (λ free. absurd (ground arith), run.0 long), λ h. ground arith)
              | inr short ↦ (λ h. absurd (ground arith), λ h. absurd (ground (arith, run.1 h.1)))
            ]
    ]

health-cases : (h : Health) → (h ≡ down) ⊎ (h ≢ down)
health-cases up = inr (λ e. absurd (ground arith))
health-cases down = inl refl
health-cases unknown = inr (λ e. absurd (ground arith))

on_up-went_down :
    (m : Monitor) (request_id : Text) (check : Check) (rows : Rows)
    → (on_up m request_id check rows).1 ≢ went_down
unfolding on_up
on_up-went_down m request_id check rows h = ground arith

not_down :
    (m : Monitor) (pk : ℕ) (request_id : Text) (check : Check) (rows : Rows)
    → check.status ≢ down
    → (record_check m pk request_id check rows).1 ≢ went_down
unfolding record_check
not_down m pk request_id check rows other h =
    ground
      (arith, on_up-went_down m request_id check (record rows { checks = check ∷ rows.checks }))

up-cases : (h : Health) → (h ≡ up) ⊎ (h ≢ up)
up-cases up = inl refl
up-cases down = inr (λ e. absurd (ground arith))
up-cases unknown = inr (λ e. absurd (ground arith))

pub on_down-came_back :
    (m : Monitor) (pk : ℕ) (request_id : Text) (check : Check) (rows : Rows)
    → (on_down m pk request_id check rows).1 ≢ came_back
unfolding on_down
on_down-came_back m pk request_id check rows h = ground arith

not_up :
    (m : Monitor) (pk : ℕ) (request_id : Text) (check : Check) (rows : Rows)
    → check.status ≢ up
    → (record_check m pk request_id check rows).1 ≢ came_back
unfolding record_check
not_up m pk request_id check rows other h =
    ground (
      arith,
      on_down-came_back m pk request_id check (record rows { checks = check ∷ rows.checks }),
    )

-- `record_check` announces an outage exactly when the monitor has no open one, the check is down, and
-- it is the last of at least `failure_threshold` (at least 1, at most 20) consecutive down checks.
pub record_check-went_down :
    (m : Monitor) (pk : ℕ) (request_id : Text) (check : Check) (rows : Rows)
    → ((record_check m pk request_id check rows).1 ≡ went_down) ↔ (
        (check.status ≡ down)
        × (open_incident rows ≡ none)
        × Consecutive down (threshold m.failure_threshold) (check ∷ rows.checks))
unfolding record_check open_incident
record_check-went_down m pk request_id check rows =
    let stored = record rows { checks = check ∷ rows.checks } in
    let decided = on_down-went_down m pk request_id check stored in
    elim (health-cases check.status) [
      | inl is ↦ (
        λ h. let facts = decided.0 (ground (arith, h)) in (is, facts.0, facts.1),
        λ h. let opens = decided.1 (h.1, h.2) in ground (arith, opens),
      )
      | inr other ↦
          (λ h. absurd (not_down m pk request_id check rows other h), λ h. absurd (other h.0))
    ]

-- `record_check` announces a recovery exactly when an incident is open, the check is up and the last of at least
-- `recovery_threshold` (at least 1, at most 20) consecutive up checks.
pub record_check-came_back :
    (m : Monitor) (pk : ℕ) (request_id : Text) (check : Check) (rows : Rows)
    → ((record_check m pk request_id check rows).1 ≡ came_back) ↔ (
        (check.status ≡ up)
        × (open_incident rows ≢ none)
        × Consecutive up (threshold m.recovery_threshold) (check ∷ rows.checks))
unfolding record_check open_incident
record_check-came_back m pk request_id check rows =
    let stored = record rows { checks = check ∷ rows.checks } in
    let decided = on_up-came_back m request_id check stored in
    elim (up-cases check.status) [
      | inl is ↦ (
        λ h. let facts = decided.0 (ground (arith, h)) in (is, facts.0, facts.1),
        λ h. let ends = decided.1 (h.1, h.2) in ground (arith, ends),
      )
      | inr other ↦
          (λ h. absurd (not_up m pk request_id check rows other h), λ h. absurd (other h.0))
    ]
