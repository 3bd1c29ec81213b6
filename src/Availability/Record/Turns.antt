-- ===== src/Availability/Record/Turns.antt =====
-- The incidents that the two branches of `record_check` of paxalia/uptime.py open and end.
use paxalia_dashboard.Prelude.{
  ℕ, zero, suc, ◌≤◌, ◌≡◌, refl, inl, inr, true, none, some, List, [], ◌∷◌, Text, take, length, leb,
  find, ◌==◌, Option-cases, Bool-cases, arith,
}
use paxalia_dashboard.Availability.Record.{
  Health, up, down, opened, recovered, Monitor, Check, Incident, Rows, went_down, came_back,
  same_health, is_open, threshold, streak, last_of, open_incident, window, recent, new_incident,
  recovered_incident, save_incident, on_down, on_up,
}
use paxalia_dashboard.Availability.Record.Laws.{threshold_bounds}

-- The last `n` checks, at least one, all have the status, and the first of them was made at `at`.
unfoldable pub Run : Health → ℕ → List Check → ℕ → Type 0
Run status n [] at = ⊥
Run status zero (c ∷ cs) at = ⊥
Run status (suc zero) (c ∷ cs) at = (same_health c.status status ≡ true) × (c.checked_at ≡ at)
Run status (suc (suc n)) (c ∷ cs) at =
    (same_health c.status status ≡ true) × Run status (suc n) cs at

longer-Run :
    (status : Health) (xs : List Check) (c : Check) (cs : List Check)
    → same_health c.status status ≡ true
    → (1 ≤ length xs → Run status (length xs) cs (last_of c xs).checked_at)
    → Run status (suc (length xs)) (c ∷ cs) (last_of c xs).checked_at
unfolding last_of Run
longer-Run status [] c cs same more = (same, refl)
longer-Run status (x ∷ xs) c cs same more = (same, more (omega arith))

streak-Run :
    (status : Health) (w : ℕ) (d : Check) (cs : List Check)
    → 1 ≤ length (streak status (take w cs))
    → Run status
        (length (streak status (take w cs)))
        cs
        (last_of d (streak status (take w cs))).checked_at
unfolding streak last_of
streak-Run status zero d cs some_run = absurd (omega (arith, some_run))
streak-Run status (suc w) d [] some_run = absurd (omega (arith, some_run))
streak-Run status (suc w) d (c ∷ cs) some_run = elim (Bool-cases (same_health c.status status)) [
  | inl same ↦
      rw same (longer-Run status (streak status (take w cs)) c cs same (streak-Run status w c cs))
  | inr other ↦ absurd (ground (arith, other, some_run))
]

-- An incident that a run of failures has opened.
pub record IsOpened (pk : ℕ) (check : Check) (needed : ℕ) (checks : List Check) (i : Incident)
    : Type 0 where
  pub key : i.pk ≡ pk
  pub is_opened : i.state ≡ opened
  pub unresolved : i.resolved_at ≡ none
  pub cause : i.cause ≡ check.error_message
  pub run : ℕ
  pub long : needed ≤ run
  pub failing : Run down run checks i.started_at
  pub confirmed : i.first_confirmed_failure_at ≡ some i.started_at

-- What an open incident has become after a run of successes.
pub record IsRecovered (old : Incident) (needed : ℕ) (checks : List Check) (i : Incident)
    : Type 0 where
  pub key : i.pk ≡ old.pk
  pub is_recovered : i.state ≡ recovered
  pub started : i.started_at ≡ old.started_at
  pub at : ℕ
  pub resolved : i.resolved_at ≡ some at
  pub confirmed : i.first_confirmed_recovery_at ≡ some at
  pub run : ℕ
  pub long : needed ≤ run
  pub healthy : Run up run checks at

pub on_down-IsOpened :
    (m : Monitor) (pk : ℕ) (request_id : Text) (check : Check) (rows : Rows)
    → (on_down m pk request_id check rows).1 ≡ went_down
    → (i : Incident) × ((on_down m pk request_id check rows).0.incidents ≡ i ∷ rows.incidents)
      × IsOpened pk check (threshold m.failure_threshold) rows.checks i
unfolding on_down
on_down-IsOpened m pk request_id check rows h = elim (Option-cases (open_incident rows)) [
  | inr (i, busy) ↦ absurd (ground arith)
  | inl free ↦
      let seen = recent m rows.checks in
      let failures = streak down seen in
      elim (Bool-cases (leb (threshold m.failure_threshold) (length failures))) [
        | inr short ↦ absurd (ground arith)
        | inl long ↦
            let needed : threshold m.failure_threshold ≤ length failures = ground arith in
            (
              new_incident pk request_id check failures seen,
              ground arith,
              record {
                key = refl;
                is_opened = refl;
                unresolved = refl;
                cause = refl;
                run = length failures;
                long = needed;
                failing =
                    streak-Run down (window m) check rows.checks
                      (omega (arith, needed, (threshold_bounds m.failure_threshold).0));
                confirmed = refl;
              },
            )
      ]
]

-- A saved row is found under its key.
find-save_incident :
    (row old : Incident) (is : List Incident)
    → row.pk ≡ old.pk
    → find (λ i. is_open i.state) is ≡ some old
    → find (λ i. i.pk == old.pk) (save_incident row is) ≡ some row
unfolding save_incident
find-save_incident row old [] key found = cc
find-save_incident row old (i ∷ is) key found =
    ground (arith, key, found, find-save_incident row old is key)

pub on_up-IsRecovered :
    (m : Monitor) (request_id : Text) (check : Check) (rows : Rows)
    → (on_up m request_id check rows).1 ≡ came_back
    → (old : Incident) × (i : Incident) × (open_incident rows ≡ some old)
      × (find (λ x. x.pk == old.pk) (on_up m request_id check rows).0.incidents ≡ some i)
      × IsRecovered old (threshold m.recovery_threshold) rows.checks i
unfolding on_up open_incident
on_up-IsRecovered m request_id check rows h = elim (Option-cases (open_incident rows)) [
  | inl free ↦ absurd (ground arith)
  | inr (old, busy) ↦
      let successes = streak up (recent m rows.checks) in
      elim (Bool-cases (leb (threshold m.recovery_threshold) (length successes))) [
        | inr short ↦ absurd (ground arith)
        | inl long ↦
            let needed : threshold m.recovery_threshold ≤ length successes = ground arith in
            let row = recovered_incident request_id check successes old in
            let saved = find-save_incident row old rows.incidents refl busy in
            (
              old,
              row,
              busy,
              ground (arith, saved),
              record {
                key = refl;
                is_recovered = refl;
                started = refl;
                at = (last_of check successes).checked_at;
                resolved = refl;
                confirmed = refl;
                run = length successes;
                long = needed;
                healthy =
                    streak-Run up (window m) check rows.checks
                      (omega (arith, needed, (threshold_bounds m.recovery_threshold).0));
              },
            )
      ]
]
