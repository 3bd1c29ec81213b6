-- ===== src/Availability/Record/Changes.antt =====
-- What `record_check` of paxalia/uptime.py does to the incidents of a monitor, and when.
use paxalia_dashboard.Prelude.{
  ℕ, ◌≡◌, ◌≢◌, ◌⊎◌, refl, ap, ◌∙◌, subst, inl, inr, none, some, List, [], ◌∷◌, Text, length, find,
  ◌==◌, Option-cases, arith,
}
use paxalia_dashboard.Availability.Record.{
  up, down, Monitor, Check, Incident, Rows, Notice, silent, went_down, came_back, threshold,
  open_incident, save_incident, on_down, on_up, record_check,
}
use paxalia_dashboard.Availability.Record.Laws.{
  Consecutive, record_check-went_down, record_check-came_back,
}
use paxalia_dashboard.Availability.Record.Turns.{
  IsOpened, IsRecovered, on_down-IsOpened, on_up-IsRecovered,
}

abbrev with_check : Check → Rows → Rows
with_check check rows = record rows { checks = check ∷ rows.checks }

after_down :
    (m : Monitor) (pk : ℕ) (request_id : Text) (check : Check) (rows : Rows)
    → check.status ≡ down
    → record_check m pk request_id check rows
      ≡ on_down m pk request_id check (with_check check rows)
unfolding record_check
after_down m pk request_id check rows is = rw is refl

after_up :
    (m : Monitor) (pk : ℕ) (request_id : Text) (check : Check) (rows : Rows)
    → check.status ≡ up
    → record_check m pk request_id check rows ≡ on_up m request_id check (with_check check rows)
unfolding record_check
after_up m pk request_id check rows is = rw is refl

length-save_incident :
    (row : Incident) (is : List Incident) → length (save_incident row is) ≡ length is
unfolding save_incident
length-save_incident row [] = refl
length-save_incident row (i ∷ is) = ground (arith, length-save_incident row is)

-- Without the notice of an outage there is no new incident, without that of a recovery no open one
-- changes.
quiet_length :
    (m : Monitor) (pk : ℕ) (request_id : Text) (check : Check) (rows : Rows)
    → (record_check m pk request_id check rows).1 ≢ went_down
    → length (record_check m pk request_id check rows).0.incidents ≡ length rows.incidents
unfolding record_check on_down on_up
quiet_length m pk request_id check rows quiet = grind (arith, length-save_incident)

quiet_open :
    (m : Monitor) (pk : ℕ) (request_id : Text) (check : Check) (rows : Rows) (old : Incident)
    → open_incident rows ≡ some old
    → (record_check m pk request_id check rows).1 ≢ came_back
    → (record_check m pk request_id check rows).0.incidents ≡ rows.incidents
unfolding record_check on_down on_up open_incident
quiet_open m pk request_id check rows old busy quiet = ground (arith, busy)

notice-cases : (n a : Notice) → (n ≡ a) ⊎ (n ≢ a)
notice-cases silent silent = inl refl
notice-cases went_down went_down = inl refl
notice-cases came_back came_back = inl refl
notice-cases silent went_down = inr (λ e. absurd (ground arith))
notice-cases silent came_back = inr (λ e. absurd (ground arith))
notice-cases went_down silent = inr (λ e. absurd (ground arith))
notice-cases went_down came_back = inr (λ e. absurd (ground arith))
notice-cases came_back silent = inr (λ e. absurd (ground arith))
notice-cases came_back went_down = inr (λ e. absurd (ground arith))

-- The check is down and the last of at least `failure_threshold` ones, and no incident is open.
abbrev pub Fails : Monitor → Check → Rows → Type 0
Fails m check rows =
    (check.status ≡ down)
    × (open_incident rows ≡ none)
    × Consecutive down (threshold m.failure_threshold) (check ∷ rows.checks)

abbrev pub Recovers : Monitor → Check → Rows → Type 0
Recovers m check rows =
    (check.status ≡ up)
    × (open_incident rows ≢ none)
    × Consecutive up (threshold m.recovery_threshold) (check ∷ rows.checks)

-- `record_check` either opens an incident and announces an outage, or neither. It does so if the check
-- is down and the last of at least `failure_threshold` (at least 1, at most 20) consecutive down
-- checks, and no incident is open, and only then. The new incident has the given key, is open, has the error of the
-- check as its cause, and begins at the first check of such a run of down checks, as the first
-- confirmed failure.
pub record_check-IsOpened :
    (m : Monitor) (pk : ℕ) (request_id : Text) (check : Check) (rows : Rows)
    → let out = record_check m pk request_id check rows in
      (Fails m check rows
        × (out.1 ≡ went_down)
        × ((i : Incident) × (out.0.incidents ≡ i ∷ rows.incidents)
            × IsOpened pk check (threshold m.failure_threshold) (check ∷ rows.checks) i))
      ⊎ ((Fails m check rows → ⊥)
          × (out.1 ≢ went_down)
          × (length out.0.incidents ≡ length rows.incidents))
record_check-IsOpened m pk request_id check rows =
    let decided = record_check-went_down m pk request_id check rows in
    elim (notice-cases (record_check m pk request_id check rows).1 went_down) [
      | inr quiet ↦
          inr
            (λ fails. quiet (decided.1 fails), quiet, quiet_length m pk request_id check rows quiet)
      | inl told ↦
          let fails = decided.0 told in
          let same = after_down m pk request_id check rows fails.0 in
          let (i, added, facts) =
            on_down-IsOpened m pk request_id check (with_check check rows)
              (subst (λ (x : Rows × Notice). x.1 ≡ went_down) same told) in
          inl (fails, told, (i, ap (λ (x : Rows × Notice). x.0.incidents) same ∙ added, facts))
    ]

-- `record_check` either ends the open incident and announces a recovery, or neither. It does so if the
-- check is up and the last of at least `recovery_threshold` (at least 1, at most 20) consecutive up
-- checks, and an incident is open, and only then. Under the key of the open incident the store then has that incident as
-- recovered, begun when it was, resolved at the first check of such a run of up checks.
pub record_check-IsRecovered :
    (m : Monitor) (pk : ℕ) (request_id : Text) (check : Check) (rows : Rows)
    → let out = record_check m pk request_id check rows in
      (Recovers m check rows
        × (out.1 ≡ came_back)
        × ((old : Incident) × (i : Incident) × (open_incident rows ≡ some old)
            × (find (λ x. x.pk == old.pk) out.0.incidents ≡ some i)
            × IsRecovered old (threshold m.recovery_threshold) (check ∷ rows.checks) i))
      ⊎ ((Recovers m check rows → ⊥)
          × (out.1 ≢ came_back)
          × ((open_incident rows ≡ none) ⊎ (out.0.incidents ≡ rows.incidents)))
unfolding open_incident
record_check-IsRecovered m pk request_id check rows =
    let decided = record_check-came_back m pk request_id check rows in
    elim (notice-cases (record_check m pk request_id check rows).1 came_back) [
      | inr quiet ↦ inr (
        λ ends. quiet (decided.1 ends),
        quiet,
        elim (Option-cases (open_incident rows)) [
          | inl free ↦ inl free
          | inr (old, busy) ↦ inr (quiet_open m pk request_id check rows old busy quiet)
        ],
      )
      | inl told ↦
          let ends = decided.0 told in
          let same = after_up m pk request_id check rows ends.0 in
          let (old, i, busy, saved, facts) =
            on_up-IsRecovered m request_id check (with_check check rows)
              (subst (λ (x : Rows × Notice). x.1 ≡ came_back) same told) in
          inl (
            ends,
            told,
            (
              old,
              i,
              busy,
              ap (λ (x : Rows × Notice). find (λ y. y.pk == old.pk) x.0.incidents) same ∙ saved,
              facts,
            ),
          )
    ]
