-- ===== src/Availability/Tests.antt =====
-- Runs of Paxalia Availability at concrete inputs, and its theorems applied at them.
use paxalia_dashboard.Prelude.{
  ◌⊎◌, take, length, find, ◌==◌, ℕ, ◌≡◌, ◌≢◌, ◌≤◌, max, ◌↔◌, ◌⊎◌, refl, true, false, none, some, [],
  ◌∷◌, Text, codes, ok, take, filter, int, pos, to_int, arith,
}
use paxalia_dashboard.Availability.Record.{
  Monitor, Check, Incident, Rows, up, down, went_down, came_back, opened, record_check,
  open_incident, threshold, on_down, on_up, streak,
}
use paxalia_dashboard.Availability.Record.Turns.{IsOpened, IsRecovered}
use paxalia_dashboard.Availability.Record.Changes.{
  Fails, Recovers, record_check-IsOpened, record_check-IsRecovered,
}
use paxalia_dashboard.Availability.Record.Incidents.{open_count, record_check-open_count}
use paxalia_dashboard.Availability.Schedule.{
  Annotated, monitors_of, monitors_due_for_check, is_due, ordered, scan_due, check_limit, cfg_int,
  clamp, effective_interval_seconds, insert_annotated, comes_before, monitors_due_for_check-length,
}
use paxalia_dashboard.Availability.Response.{
  Json, string, integer, object, no_members, member_of, Assertion, assertion, entries, Python,
  evaluate_response, response_media_type, assertion_passes,
}
use paxalia_dashboard.Availability.Response.Laws.{
  AreMet, OccursIn, evaluate_response-up, assertion_passes-contains,
}

abbrev monitor : Monitor
monitor = record {
  pk = 1;
  failure_threshold = 2;
  recovery_threshold = 1;
  timeout_seconds = 10;
  check_interval_seconds = 60;
  check_interval_minutes = 5;
  expected_status_code = 200;
  is_active = true;
}

abbrev failing : Check
failing = record {
  status = down;
  checked_at = 100;
  status_code = none;
  response_time_ms = none;
  error_message = codes "refused";
}

abbrev healthy : Check
healthy = record {
  status = up;
  checked_at = 200;
  status_code = some 200;
  response_time_ms = some 12;
  error_message = [];
}

abbrev failed_once : Rows
failed_once = record { checks = failing ∷ []; incidents = [] }

record_check-IsOpened_example :
    let out = record_check monitor 1 (codes "r") failing failed_once in
    (Fails monitor failing failed_once
      × (out.1 ≡ went_down)
      × ((i : Incident) × (out.0.incidents ≡ i ∷ [])
          × IsOpened 1 failing (threshold 2) (failing ∷ failing ∷ []) i))
    ⊎ ((Fails monitor failing failed_once → ⊥)
        × (out.1 ≢ went_down)
        × (length out.0.incidents ≡ length failed_once.incidents))
record_check-IsOpened_example = record_check-IsOpened monitor 1 (codes "r") failing failed_once

opens : (record_check monitor 1 (codes "r") failing failed_once).1 ≡ went_down
unfolding record_check on_down open_incident threshold streak
opens = refl

abbrev incident : Incident
incident = record {
  pk = 1;
  state = opened;
  started_at = 100;
  last_confirmed_healthy_at = none;
  first_confirmed_failure_at = some 100;
  first_confirmed_recovery_at = none;
  resolved_at = none;
  cause = [];
  status_code = none;
  response_time_ms = none;
  request_id = codes "r";
}

abbrev failed_twice : Rows
failed_twice = record { checks = failing ∷ failing ∷ []; incidents = incident ∷ [] }

record_check-IsRecovered_example :
    let out = record_check monitor 2 (codes "s") healthy failed_twice in
    (Recovers monitor healthy failed_twice
      × (out.1 ≡ came_back)
      × ((old : Incident) × (i : Incident) × (open_incident failed_twice ≡ some old)
          × (find (λ (x : Incident). x.pk == old.pk) out.0.incidents ≡ some i)
          × IsRecovered old (threshold 1) (healthy ∷ failing ∷ failing ∷ []) i))
    ⊎ ((Recovers monitor healthy failed_twice → ⊥)
        × (out.1 ≢ came_back)
        × ((open_incident failed_twice ≡ none) ⊎ (out.0.incidents ≡ failed_twice.incidents)))
record_check-IsRecovered_example =
    record_check-IsRecovered monitor 2 (codes "s") healthy failed_twice

recovers : (record_check monitor 2 (codes "s") healthy failed_twice).1 ≡ came_back
unfolding record_check on_up open_incident threshold streak
recovers = refl

one_open : open_count (incident ∷ []) ≤ 1
unfolding open_count
one_open = omega arith

record_check-open_count_example :
    let out = record_check monitor 2 (codes "s") healthy failed_twice in
    (open_count out.0.incidents ≤ 1) × (out.1 ≡ came_back → open_count out.0.incidents ≡ 0)
record_check-open_count_example =
    record_check-open_count monitor 2 (codes "s") healthy failed_twice one_open

abbrev checked : Annotated
checked = (monitor, some 900)

abbrev never : Annotated
never = (record monitor { pk = 2 }, none)

due_run :
    monitors_due_for_check (int (pos 5)) (int (pos 100)) 1000 (checked ∷ never ∷ [])
    ≡ ok (record monitor { pk = 2 } ∷ monitor ∷ [])
unfolding monitors_due_for_check check_limit cfg_int clamp ordered insert_annotated comes_before
    scan_due is_due effective_interval_seconds to_int
due_run = refl

monitors_due_for_check-length_example :
    (limit : ℕ) × (scan : ℕ) × (check_limit (int (pos 5)) ≡ ok limit)
    × (cfg_int (int (pos 100)) (pos (max limit 1000)) limit (some 50000) ≡ ok scan)
    × (2 ≤ 5000)
    × ((record monitor { pk = 2 } ∷ monitor ∷ [])
        ≡ monitors_of (
            take limit (
              filter (is_due 1000) (
                take scan
                  (ordered (filter (λ (x : Annotated). x.0.is_active) (checked ∷ never ∷ [])))))))
monitors_due_for_check-length_example =
    monitors_due_for_check-length (int (pos 5)) (int (pos 100)) 1000 (checked ∷ never ∷ [])
      (record monitor { pk = 2 } ∷ monitor ∷ []) due_run

-- A parser that accepts no body; every text is its own lower case.
abbrev python : Python
python = record {
  str = λ v. elim v [ string s ↦ s | _ ↦ [] ];
  equal = λ a b. false;
  lower = λ s. s;
  loads = λ s. none;
}

abbrev has_ok : Assertion
has_ok = record {
  contains = some (string (codes "ok"));
  not_contains = none;
  header = none;
  equals = none;
  json_path = some (string (codes "status"));
  not_equals = none;
}

abbrev body : Text
body = codes "ok"

evaluate_response-up_example :
    (evaluate_response python [] (entries (assertion has_ok ∷ [])) 200 200 [] [] body ≡ up) ↔ (
      ((let n : ℕ = 200 in n) ≡ 200)
      × AreMet python (entries (assertion has_ok ∷ [])) body []
      × ((response_media_type python [] ≡ [])
          ⊎ (response_media_type python [] ≡ response_media_type python [])))
evaluate_response-up_example =
    evaluate_response-up python [] (entries (assertion has_ok ∷ [])) 200 200 [] [] body

assertion_passes-contains_example :
    (assertion_passes python has_ok body [] ≡ true)
    ↔ OccursIn (take 5000 (python.str (string (codes "ok")))) body
assertion_passes-contains_example =
    assertion_passes-contains python has_ok (string (codes "ok")) body [] refl

abbrev parsed : Json
parsed = object (
    member_of (codes "data") (object (member_of (codes "n") (integer (pos 4)) no_members))
      no_members)
