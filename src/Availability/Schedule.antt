-- ===== src/Availability/Schedule.antt =====
-- Which monitors are due: `_cfg_int` and `monitors_due_for_check` of paxalia/uptime.py, and
-- `effective_interval_seconds` of paxalia/models.py.
use paxalia_dashboard.Prelude.{
  ℕ, zero, suc, ◌-◌, ◌*◌, ◌≤◌, ◌≡◌, refl, sym, ap, ◌∙◌, inl, inr, min, max, Bool, true, false, ◌&&◌,
  ◌||◌, Option, none, some, List, [], ◌∷◌, filter, take, length, leb, ltb, ◌==◌, if◌then◌else◌, ℤ,
  pos, negsuc, at_least, at_most, Value, IntError, overflow_error, to_int, Result, ok, err, ◌>>=◌,
  Bool-cases, arith, length-take, subst, >>=-eq-ok, ok_injective,
}
use paxalia_dashboard.Availability.Record.{Monitor}

-- `max(minimum, value)`, then `min(maximum, value)` if there is a maximum.
unfoldable pub clamp : ℕ → Option ℕ → ℤ → ℕ
clamp lo none z = at_least lo z
clamp lo (some hi) z = min hi (at_least lo z)

unfoldable pub cfg_int : Value → ℤ → ℕ → Option ℕ → Result IntError ℕ
unfolding clamp
cfg_int value default lo hi = elim (to_int value) [
  | ok z ↦ ok (clamp lo hi z)
  | err overflow_error ↦ err overflow_error
  | err _ ↦ ok (clamp lo hi default)
]

-- The columns hold naturals, so neither `int()` raises.
unfoldable pub effective_interval_seconds : Monitor → ℕ
effective_interval_seconds m =
    let minutes = if m.check_interval_minutes == 0 then 5 else m.check_interval_minutes in
    let value = if m.check_interval_seconds == 0 then minutes * 60 else m.check_interval_seconds in
    max 30 (min value 86400)

-- A monitor with the time of its latest check.
abbrev pub Annotated : Type 0
Annotated = Monitor × Option ℕ

unfoldable pub is_due : ℕ → Annotated → Bool
unfolding effective_interval_seconds
is_due now (m, none) = true
is_due now (m, some last) = leb (effective_interval_seconds m) (now - last)

-- The order of the query: never checked first, then by the latest check, then by key.
unfoldable pub comes_before : Annotated → Annotated → Bool
comes_before (m, none) (n, none) = leb m.pk n.pk
comes_before (m, none) (n, some b) = true
comes_before (m, some a) (n, none) = false
comes_before (m, some a) (n, some b) = ltb a b || (a == b && leb m.pk n.pk)

unfoldable pub insert_annotated : Annotated → List Annotated → List Annotated
unfolding comes_before
insert_annotated x [] = x ∷ []
insert_annotated x (y ∷ ys) =
    let rest = insert_annotated x ys in if comes_before x y then x ∷ y ∷ ys else y ∷ rest

unfoldable pub ordered : List Annotated → List Annotated
unfolding insert_annotated
ordered [] = []
ordered (x ∷ xs) = insert_annotated x (ordered xs)

-- The scan: `limit` and `scan` are what is left of each bound; it breaks when one is used up.
unfoldable pub scan_due : ℕ → ℕ → ℕ → List Annotated → List Monitor
scan_due now zero scan xs = []
scan_due now (suc limit) zero xs = []
scan_due now (suc limit) (suc scan) [] = []
scan_due now (suc limit) (suc scan) (x ∷ xs) =
    let found = scan_due now limit scan xs in
    let passed = scan_due now (suc limit) scan xs in if is_due now x then x.0 ∷ found else passed

-- `max(1, min(limit, 5000))` of a setting, and the scan limit of another.
unfoldable pub check_limit : Value → Result IntError ℕ
check_limit value = elim (to_int value) [
  | ok z ↦ ok (at_least 1 (at_most 5000 z))
  | err overflow_error ↦ err overflow_error
  | err _ ↦ ok 100
]

unfoldable pub monitors_due_for_check :
    Value → Value → ℕ → List Annotated → Result IntError (List Monitor)
unfolding check_limit cfg_int ordered
monitors_due_for_check max_checks max_scan now monitors = do
  limit ← check_limit max_checks
  scan ← cfg_int max_scan (pos (max limit 1000)) limit (some 50000)
  ok (scan_due now limit scan (ordered (filter (λ x. x.0.is_active) monitors)))

abbrev pub monitors_of : List Annotated → List Monitor
monitors_of [] = []
monitors_of (x ∷ xs) = x.0 ∷ monitors_of xs

monitors_of-take : (n : ℕ) → monitors_of (take n []) ≡ []
monitors_of-take zero = refl
monitors_of-take (suc n) = refl

-- The scan stops at `limit` due monitors or `scan` examined ones, and so returns the first `limit` of
-- the due ones among the first `scan`, in order.
pub scan_due-take :
    (now limit scan : ℕ) (xs : List Annotated)
    → scan_due now limit scan xs ≡ monitors_of (take limit (filter (is_due now) (take scan xs)))
unfolding scan_due
scan_due-take now zero scan xs = refl
scan_due-take now (suc limit) zero xs = refl
scan_due-take now (suc limit) (suc scan) [] = refl
scan_due-take now (suc limit) (suc scan) (x ∷ xs) = elim (Bool-cases (is_due now x)) [
  | inl due ↦ ground (arith, due, scan_due-take now limit scan xs)
  | inr early ↦ ground (arith, early, scan_due-take now (suc limit) scan xs)
]

length-monitors_of : (xs : List Annotated) → length (monitors_of xs) ≡ length xs
length-monitors_of [] = refl
length-monitors_of (x ∷ xs) = ap suc (length-monitors_of xs)

limit_of :
    (r : Result IntError ℤ) (n : ℕ)
    → (let c : Result IntError ℕ = elim r [
      | ok z ↦ ok (at_least 1 (at_most 5000 z))
      | err overflow_error ↦ err overflow_error
      | err _ ↦ ok 100
    ] in
        c)
      ≡ ok n
    → (1 ≤ n) × (n ≤ 5000)
limit_of (ok (pos z)) n e = ground arith
limit_of (ok (negsuc z)) n e = ground arith
limit_of (err overflow_error) n e = absurd (ground arith)
limit_of (err _) n e = ground arith

-- The limit of one run is 1 to 5000.
check_limit_bounds : (value : Value) (n : ℕ) → check_limit value ≡ ok n → (1 ≤ n) × (n ≤ 5000)
unfolding check_limit
check_limit_bounds value n e = limit_of (to_int value) n e

-- A run that returns has read its two limits, checks at most 5000 monitors, and returns the first
-- `limit` due ones among the first `scan` active monitors, ordered by their latest check (never
-- checked first) and their key.
pub monitors_due_for_check-length :
    (max_checks max_scan : Value) (now : ℕ) (monitors : List Annotated) (due : List Monitor)
    → monitors_due_for_check max_checks max_scan now monitors ≡ ok due
    → (limit : ℕ) × (scan : ℕ) × (check_limit max_checks ≡ ok limit)
      × (cfg_int max_scan (pos (max limit 1000)) limit (some 50000) ≡ ok scan)
      × (length due ≤ 5000)
      × (due
          ≡ monitors_of (
              take limit
                (filter (is_due now) (take scan (ordered (filter (λ x. x.0.is_active) monitors))))))
unfolding monitors_due_for_check
monitors_due_for_check-length max_checks max_scan now monitors due e =
    let (limit, bounded, e1) = >>=-eq-ok (check_limit max_checks) _ e in
    let (scan, scanning, e2) =
      >>=-eq-ok (cfg_int max_scan (pos (max limit 1000)) limit (some 50000)) _ e1 in
    let scanned = ordered (filter (λ x. x.0.is_active) monitors) in
    let found = sym (ok_injective e2) ∙ scan_due-take now limit scan scanned in
    let chosen = filter (is_due now) (take scan scanned) in
    let small = (check_limit_bounds max_checks limit bounded).1 in
    (
      limit,
      scan,
      bounded,
      scanning,
      subst (λ n. n ≤ 5000)
          (sym
            (ap length found ∙ length-monitors_of (take limit chosen) ∙ length-take limit chosen))
          (omega (arith, small)),
      found,
    )
