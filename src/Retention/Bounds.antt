-- ===== src/Retention/Bounds.antt =====
-- How much one pruning deletes at most (paxalia/resource_policies.py).
use paxalia_dashboard.Prelude.{
  ℕ, zero, suc, ◌+◌, ◌-◌, ◌*◌, ◌≤◌, ◌<◌, ◌≡◌, ◌∙◌, inl, inr, refl, sym, ap, subst, max, min, Bool,
  not, Option, List, [], ◌∷◌, map, Text, codes, ok_injective, take, length, length-take, filter,
  Value, ok, err, Result-cases, Bool-cases, arith,
}
use paxalia_dashboard.Retention.{
  Config, Limits, severity_retention_days, as_nonnegative_int, log_limits,
}
use paxalia_dashboard.Retention.Laws.{
  due_ids-first_ids, retain_step, retain_raised, within_raised, within_retained, pruned_within,
}
use paxalia_dashboard.Retention.Prune.{
  by_last_seen, day, is_dangling, Event, Group, Store, Summary, overflow, cleanup_order, first_ids,
  delete_events, is_protected, is_retired, due_ids, retain, free_ids, excess_ids, is_over,
  storage_ids, dangling_ids, prune_rest, prune_within, prune_log_events, severities, cutoff,
}

length-map_key : (es : List Event) → length (map (λ e. e.id) es) ≡ length es
length-map_key [] = refl
length-map_key (e ∷ es) = omega (arith, length-map_key es)

first_ids-length :
    (amount : ℕ) (matches : Event → Bool) (es : List Event)
    → length (first_ids amount matches es) ≤ amount
unfolding first_ids
first_ids-length amount matches es =
    let chosen = cleanup_order (filter matches es) in
    omega (arith, length-map_key (take amount chosen), length-take amount chosen)

due_ids-length :
    (c : Config) (now : ℕ) (severity : Text) (remaining : ℕ) (es : List Event) (ids : List ℕ)
    → due_ids c now severity remaining es ≡ ok ids
    → length ids ≤ remaining
due_ids-length c now severity remaining es ids e =
    let (general, cutoffs, same) = due_ids-first_ids c now severity remaining es ids e in
    subst (λ xs. length xs ≤ remaining) same
      (first_ids-length remaining (is_retired severity general cutoffs) es)

-- The retention takes from what is left of the batch.
retain_remaining :
    (c : Config) (now : ℕ) (dry : Bool) (names : List Text) (remaining left : ℕ) (store : Store)
    → (retain c now dry names remaining store).0 ≡ ok left
    → left ≤ remaining
unfolding retain
retain_remaining c now dry [] remaining left store e = ground arith
retain_remaining c now dry (severity ∷ names) zero left store e = ground arith
retain_remaining c now dry (severity ∷ names) (suc n) left store e =
    elim (Result-cases (due_ids c now severity (suc n) store.events)) [
      | inr (x, raised) ↦ absurd (ground arith)
      | inl (ids, found) ↦
          let same = retain_step c now dry severity names n store ids found in
          let less =
            retain_remaining c now dry names (suc n - length ids) left (delete_events dry ids store)
              (ap (λ answer. answer.0) (sym same) ∙ e) in
          omega arith
    ]

abbrev pub total : Summary → ℕ
total s = s.retention + s.max_records + s.storage + s.groups

length-map_group : (gs : List Group) → length (map (λ g. g.id) gs) ≡ length gs
length-map_group [] = refl
length-map_group (g ∷ gs) = omega (arith, length-map_group gs)

dangling_ids-length : (amount : ℕ) (store : Store) → length (dangling_ids amount store) ≤ amount
unfolding dangling_ids
dangling_ids-length amount store =
    let chosen = by_last_seen (filter (is_dangling store.events) store.groups) in
    omega (arith, length-map_group (take amount chosen), length-take amount chosen)

excess_ids-length :
    (limits : Limits) (remaining : ℕ) (es : List Event)
    → length (excess_ids limits remaining es) ≤ remaining
unfolding excess_ids free_ids
excess_ids-length limits remaining es = omega (
  arith,
  first_ids-length (min (length es - limits.max_records) remaining) (λ e. not (is_protected e)) es,
)

storage_ids-length :
    (limits : Limits) (size : Option ℕ) (remaining : ℕ) (es : List Event)
    → length (storage_ids limits size remaining es) ≤ remaining
unfolding storage_ids free_ids
storage_ids-length limits size remaining es =
    elim (Bool-cases (is_over size limits.max_storage_bytes)) [
      | inl over ↦ rw over (first_ids-length remaining (λ e. not (is_protected e)) es)
      | inr under ↦ rw under (omega arith)
    ]

prune_rest-total :
    (limits : Limits) (size : List Event → Option ℕ) (dry : Bool) (retained remaining : ℕ)
    (store : Store)
    → total (prune_rest limits size dry retained remaining store).0 ≤ retained + remaining
unfolding prune_rest
prune_rest-total limits size dry retained remaining store =
    let over = excess_ids limits remaining store.events in
    let counted = delete_events dry over store in
    let large = storage_ids limits (size counted.events) (remaining - length over) counted.events in
    let stored = delete_events dry large counted in
    omega (
      arith,
      excess_ids-length limits remaining store.events,
      storage_ids-length limits (size counted.events) (remaining - length over) counted.events,
      dangling_ids-length (remaining - length over - length large) stored,
    )

-- One pruning stays within its batch: what it reports of events and of groups deleted, over all of
-- its passes, is at most the batch size, which is the one asked for where that is a number, the
-- configured one otherwise, and at least 1.
pub prune_log_events-total :
    (c : Config) (now : ℕ) (size : List Event → Option ℕ) (dry : Bool) (batch : Value)
    (store : Store) (limits : Limits) (summary : Summary)
    → log_limits c ≡ ok limits
    → (prune_log_events c now size dry batch store).0 ≡ ok summary
    → total summary ≤ max 1 (as_nonnegative_int batch limits.batch_size)
prune_log_events-total c now size dry batch store limits summary found e =
    let budget = max 1 (as_nonnegative_int batch limits.batch_size) in
    let same = pruned_within c now size dry batch store limits found in
    elim (Result-cases (retain c now dry severities budget store).0) [
      | inr (x, raised) ↦
          let ended = within_raised c now size dry limits budget store x raised in
          let clash = sym e ∙ ap (λ answer. answer.0) (same ∙ ended) in absurd (ground arith)
      | inl (left, kept) ↦
          let answer = within_retained c now size dry limits budget store left kept in
          let rest =
            prune_rest limits size dry (budget - left) left
              (retain c now dry severities budget store).1 in
          let one : rest.0 ≡ summary = ok_injective (sym (ap (λ a. a.0) (same ∙ answer)) ∙ e) in
          let less = retain_remaining c now dry severities budget left store kept in
          let spent =
            prune_rest-total limits size dry (budget - left) left
              (retain c now dry severities budget store).1 in
          subst (λ s. total s ≤ budget) one (omega arith)
    ]

debug_raises :
    (c : Config) (now remaining : ℕ) (es : List Event)
    → now < severity_retention_days c (codes "DEBUG") * day
    → due_ids c now (codes "DEBUG") remaining es ≡ err overflow
unfolding due_ids cutoff
debug_raises c now remaining es early = ground arith

within_raises :
    (c : Config) (now : ℕ) (size : List Event → Option ℕ) (dry : Bool) (limits : Limits) (n : ℕ)
    (store : Store)
    → now < severity_retention_days c (codes "DEBUG") * day
    → prune_within c now size dry limits (suc n) store ≡ (err overflow, store)
within_raises c now size dry limits n store early =
    let rest = codes "INFO" ∷ codes "WARNING" ∷ codes "ERROR" ∷ codes "CRITICAL" ∷ [] in
    let raised =
      retain_raised c now dry (codes "DEBUG") rest n store overflow
        (debug_raises c now (suc n) store.events early) in
    within_raised c now size dry limits (suc n) store overflow (ap (λ answer. answer.0) raised)
    ∙ ap (λ answer. (err overflow, answer.1)) raised

-- A retention period of debug events that reaches before the first date that can be represented stops
-- pruning altogether: the call raises, and no event and no group is deleted, whatever the limits on
-- records and storage are.
pub prune_log_events-overflow :
    (c : Config) (now : ℕ) (size : List Event → Option ℕ) (dry : Bool) (batch : Value)
    (store : Store) (limits : Limits)
    → log_limits c ≡ ok limits
    → now < severity_retention_days c (codes "DEBUG") * day
    → prune_log_events c now size dry batch store ≡ (err overflow, store)
prune_log_events-overflow c now size dry batch store limits found early =
    let budget = as_nonnegative_int batch limits.batch_size in
    let some_batch : max 1 budget ≡ suc (max 1 budget - 1) = omega arith in
    pruned_within c now size dry batch store limits found
    ∙ ap (λ n. prune_within c now size dry limits n store) some_batch
    ∙ within_raises c now size dry limits (max 1 budget - 1) store early
