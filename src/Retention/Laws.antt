-- ===== src/Retention/Laws.antt =====
-- What pruning never deletes, and how much it deletes at most (paxalia/resource_policies.py).
use paxalia_dashboard.Prelude.{
  ℕ, zero, suc, ◌-◌, ◌≡◌, ◌∙◌, inl, inr, refl, sym, subst, max, min, Bool, true, false, not, Option,
  List, [], ◌∷◌, Text, codes, text_eq, text_eq→eq, ok_injective, length, filter, Value, ok, err,
  ◌>>=◌, >>=-eq-ok, Result-cases, Bool-cases, arith,
}
use mathlib.Core.List.{Memᴰ}
use paxalia_dashboard.Retention.{
  Config, Limits, severity_retention_days, as_nonnegative_int, log_limits,
}
use paxalia_dashboard.Retention.Prune.{
  Event, Store, PruneError, first_ids, in_ids, delete_events, delete_groups, is_protected,
  is_retired, due_ids, retain, free_ids, excess_ids, is_over, storage_ids, dangling_ids, prune_rest,
  prune_within, prune_log_events, severities, category_names, category_cutoffs, cutoff,
}
use paxalia_dashboard.Retention.Chosen.{filter-Mem, first_ids-Mem}

-- The primary keys are unique.
abbrev pub KeysAreUnique : List Event → Type 0
KeysAreUnique es = (a b : Event) → Memᴰ a es → Memᴰ b es → a.id ≡ b.id → a ≡ b

-- Deleting rows that a test leaves out does not change what the test leaves in.
filter-filter :
    (p : Event → Bool) (ids : List ℕ) (es : List Event)
    → ((e : Event) → Memᴰ e es → p e ≡ true → in_ids e.id ids ≡ false)
    → filter p (filter (λ e. not (in_ids e.id ids)) es) ≡ filter p es
filter-filter p ids [] spared = refl
filter-filter p ids (e ∷ es) spared =
    let rest = filter-filter p ids es (λ f m. spared f (Memᴰ.tail m)) in
    elim (Bool-cases (p e)) [
      | inl mine ↦ let here = spared e (Memᴰ.head refl) mine in ground (arith, rest)
      | inr other ↦ ground (arith, rest)
    ]

-- A pass that chooses only unprotected rows keeps the protected ones, and the keys unique.
record Spares (before after : List Event) : Type 0 where
  protected : filter is_protected after ≡ filter is_protected before
  unique : KeysAreUnique before → KeysAreUnique after

spared :
    (amount : ℕ) (matches : Event → Bool) (es : List Event)
    → KeysAreUnique es
    → ((e : Event) → matches e ≡ true → is_protected e ≡ false)
    → (e : Event) → Memᴰ e es
    → is_protected e ≡ true
    → in_ids e.id (first_ids amount matches es) ≡ false
spared amount matches es unique free e m protected =
    elim (Bool-cases (in_ids e.id (first_ids amount matches es))) [
      | inr missed ↦ missed
      | inl listed ↦
          let (f, n, chosen, same) = first_ids-Mem e.id amount matches es listed in
          let one : e ≡ f = unique e f m n same in
          let clash : is_protected e ≡ false =
            subst (λ g. is_protected g ≡ false) (sym one) (free f chosen) in
          absurd (ground arith)
    ]

delete_events-Spares :
    (dry : Bool) (amount : ℕ) (matches : Event → Bool) (store : Store)
    → KeysAreUnique store.events
    → ((e : Event) → matches e ≡ true → is_protected e ≡ false)
    → Spares store.events (delete_events dry (first_ids amount matches store.events) store).events
unfolding delete_events
delete_events-Spares true amount matches store unique free = record {
  protected = refl;
  unique = λ u. u;
}
delete_events-Spares false amount matches store unique free = record {
  protected =
      filter-filter is_protected (first_ids amount matches store.events) store.events
        (spared amount matches store.events unique free);
  unique = λ u a b m n same.
      u a b
        (filter-Mem (λ e. not (in_ids e.id (first_ids amount matches store.events))) a store.events
          m).0
        (filter-Mem (λ e. not (in_ids e.id (first_ids amount matches store.events))) b store.events
          n).0
        same;
}

Spares-trans : (a b c : List Event) → Spares a b → Spares b c → Spares a c
Spares-trans a b c first next = record {
  protected = next.protected ∙ first.protected;
  unique = λ u. next.unique (first.unique u);
}

Spares-none : (a : List Event) → Spares a a
Spares-none a = record { protected = refl; unique = λ u. u }

is_retired-free :
    (severity : Text) (general : ℕ) (cutoffs : List (Text × ℕ)) (e : Event)
    → is_retired severity general cutoffs e ≡ true
    → is_protected e ≡ false
unfolding is_retired is_protected
is_retired-free severity general cutoffs e due =
    let same : e.severity ≡ severity = text_eq→eq e.severity severity (ground arith) in
    let other : text_eq severity (codes "CRITICAL") ≡ false = ground arith in
    let mine : text_eq e.severity (codes "CRITICAL") ≡ false =
      subst (λ t. text_eq t (codes "CRITICAL") ≡ false) (sym same) other in
    ground arith

pub due_ids-first_ids :
    (c : Config) (now : ℕ) (severity : Text) (remaining : ℕ) (es : List Event) (ids : List ℕ)
    → due_ids c now severity remaining es ≡ ok ids
    → (general : ℕ) × (cutoffs : List (Text × ℕ)) × (first_ids remaining
          (is_retired severity general cutoffs)
          es
        ≡ ids)
unfolding due_ids
due_ids-first_ids c now severity remaining es ids e =
    let (general, _, rest) =
      >>=-eq-ok (cutoff now (severity_retention_days c severity))
        (λ general.
          category_cutoffs c now severity (category_names c c.category_days) >>= λ cutoffs.
          ok (first_ids remaining (is_retired severity general cutoffs) es))
        e in
    let (cutoffs, _, last) =
      >>=-eq-ok (category_cutoffs c now severity (category_names c c.category_days))
        (λ cutoffs. ok (first_ids remaining (is_retired severity general cutoffs) es)) rest in
    (general, cutoffs, ok_injective last)

pub retain_step :
    (c : Config) (now : ℕ) (dry : Bool) (severity : Text) (names : List Text) (n : ℕ)
    (store : Store) (ids : List ℕ)
    → due_ids c now severity (suc n) store.events ≡ ok ids
    → retain c now dry (severity ∷ names) (suc n) store
      ≡ retain c now dry names (suc n - length ids) (delete_events dry ids store)
unfolding retain
retain_step c now dry severity names n store ids found = ground arith

pub retain_raised :
    (c : Config) (now : ℕ) (dry : Bool) (severity : Text) (names : List Text) (n : ℕ)
    (store : Store) (e : PruneError)
    → due_ids c now severity (suc n) store.events ≡ err e
    → retain c now dry (severity ∷ names) (suc n) store ≡ (err e, store)
unfolding retain
retain_raised c now dry severity names n store e raised = ground arith

retain-Spares :
    (c : Config) (now : ℕ) (dry : Bool) (names : List Text) (remaining : ℕ) (store : Store)
    → KeysAreUnique store.events
    → Spares store.events (retain c now dry names remaining store).1.events
unfolding retain
retain-Spares c now dry [] remaining store unique = Spares-none store.events
retain-Spares c now dry (severity ∷ names) zero store unique = Spares-none store.events
retain-Spares c now dry (severity ∷ names) (suc n) store unique =
    elim (Result-cases (due_ids c now severity (suc n) store.events)) [
      | inr (e, raised) ↦
          subst (λ answer. Spares store.events answer.1.events)
            (sym (retain_raised c now dry severity names n store e raised))
            (Spares-none store.events)
      | inl (ids, found) ↦
          let (general, cutoffs, same) =
            due_ids-first_ids c now severity (suc n) store.events ids found in
          let first : Spares store.events (delete_events dry ids store).events =
            subst (λ xs. Spares store.events (delete_events dry xs store).events) same
              (delete_events-Spares dry (suc n) (is_retired severity general cutoffs) store unique
                (is_retired-free severity general cutoffs)) in
          let next = delete_events dry ids store in
          subst (λ answer. Spares store.events answer.1.events)
            (sym (retain_step c now dry severity names n store ids found))
            (Spares-trans store.events next.events
              (retain c now dry names (suc n - length ids) next).1.events first
              (retain-Spares c now dry names (suc n - length ids) next (first.unique unique)))
    ]

free_ids-Spares :
    (dry : Bool) (amount : ℕ) (store : Store)
    → KeysAreUnique store.events
    → Spares store.events (delete_events dry (free_ids amount store.events) store).events
unfolding free_ids
free_ids-Spares dry amount store unique =
    delete_events-Spares dry amount (λ e. not (is_protected e)) store unique
      (λ e free. ground arith)

storage_ids-Spares :
    (limits : Limits) (size : Option ℕ) (dry : Bool) (amount : ℕ) (store : Store)
    → KeysAreUnique store.events
    → Spares store.events
        (delete_events dry (storage_ids limits size amount store.events) store).events
unfolding storage_ids free_ids first_ids
storage_ids-Spares limits size dry amount store unique =
    elim (Bool-cases (is_over size limits.max_storage_bytes)) [
      | inl over ↦ rw over (free_ids-Spares dry amount store unique)
      | inr under ↦ rw under (free_ids-Spares dry 0 store unique)
    ]

delete_groups-events :
    (dry : Bool) (ids : List ℕ) (store : Store)
    → (delete_groups dry ids store).events ≡ store.events
unfolding delete_groups
delete_groups-events true ids store = refl
delete_groups-events false ids store = refl

prune_rest-Spares :
    (limits : Limits) (size : List Event → Option ℕ) (dry : Bool) (retained remaining : ℕ)
    (store : Store)
    → KeysAreUnique store.events
    → Spares store.events (prune_rest limits size dry retained remaining store).1.events
unfolding prune_rest excess_ids delete_groups
prune_rest-Spares limits size dry retained remaining store unique =
    let over = excess_ids limits remaining store.events in
    let counted = delete_events dry over store in
    let left = remaining - length over in
    let first =
      free_ids-Spares dry (min (length store.events - limits.max_records) remaining) store unique in
    let second =
      storage_ids-Spares limits (size counted.events) dry left counted (first.unique unique) in
    let stored =
      delete_events dry (storage_ids limits (size counted.events) left counted.events) counted in
    let dangling =
      dangling_ids (left - length (storage_ids limits (size counted.events) left counted.events))
        stored in
    subst (λ es. Spares store.events es) (sym (delete_groups-events dry dangling stored))
      (Spares-trans store.events counted.events stored.events first second)

pub within_raised :
    (c : Config) (now : ℕ) (size : List Event → Option ℕ) (dry : Bool) (limits : Limits) (batch : ℕ)
    (store : Store) (e : PruneError)
    → (retain c now dry severities batch store).0 ≡ err e
    → prune_within c now size dry limits batch store
      ≡ (err e, (retain c now dry severities batch store).1)
unfolding prune_within
within_raised c now size dry limits batch store e raised = rw raised refl

pub within_retained :
    (c : Config) (now : ℕ) (size : List Event → Option ℕ) (dry : Bool) (limits : Limits) (batch : ℕ)
    (store : Store) (remaining : ℕ)
    → (retain c now dry severities batch store).0 ≡ ok remaining
    → (let rest =
          prune_rest limits size dry
            (batch - remaining)
            remaining
            (retain c now dry severities batch store).1 in
        prune_within c now size dry limits batch store ≡ (ok rest.0, rest.1))
unfolding prune_within
within_retained c now size dry limits batch store remaining left = rw left refl

prune_within-Spares :
    (c : Config) (now : ℕ) (size : List Event → Option ℕ) (dry : Bool) (limits : Limits) (batch : ℕ)
    (store : Store)
    → KeysAreUnique store.events
    → Spares store.events (prune_within c now size dry limits batch store).1.events
unfolding prune_within
prune_within-Spares c now size dry limits batch store unique =
    let first = retain-Spares c now dry severities batch store unique in
    let retained = (retain c now dry severities batch store).1 in
    elim (Result-cases (retain c now dry severities batch store).0) [
      | inr (e, raised) ↦
          subst (λ answer. Spares store.events answer.1.events)
            (sym (within_raised c now size dry limits batch store e raised)) first
      | inl (remaining, left) ↦
          let same = within_retained c now size dry limits batch store remaining left in
          subst (λ answer. Spares store.events answer.1.events) (sym same)
            (Spares-trans store.events retained.events
              (prune_rest limits size dry (batch - remaining) remaining retained).1.events first
              (prune_rest-Spares limits size dry (batch - remaining) remaining retained
                (first.unique unique)))
    ]

pub pruned_within :
    (c : Config) (now : ℕ) (size : List Event → Option ℕ) (dry : Bool) (batch : Value)
    (store : Store) (limits : Limits)
    → log_limits c ≡ ok limits
    → prune_log_events c now size dry batch store
      ≡ prune_within c now size dry limits
          (max 1 (as_nonnegative_int batch limits.batch_size))
          store
unfolding prune_log_events
pruned_within c now size dry batch store limits found = rw (found, prune_log_events) refl

-- Pruning never deletes a protected event: whatever the settings, the clock, the reported size of
-- the table and the batch are, and even if an exception ends it early, the critical events, those of
-- the source "Authentication" and those of a category that begins with "security" stay as they are
-- (the keys being unique).
pub prune_log_events-is_protected :
    (c : Config) (now : ℕ) (size : List Event → Option ℕ) (dry : Bool) (batch : Value)
    (store : Store)
    → KeysAreUnique store.events
    → filter is_protected (prune_log_events c now size dry batch store).1.events
      ≡ filter is_protected store.events
unfolding prune_log_events
prune_log_events-is_protected c now size dry batch store unique =
    elim (Result-cases (log_limits c)) [
      | inr (e, raised) ↦ ground arith
      | inl (limits, found) ↦
          subst (λ answer. filter is_protected answer.1.events ≡ filter is_protected store.events)
            (sym (pruned_within c now size dry batch store limits found))
            (prune_within-Spares c now size dry limits
              (max 1 (as_nonnegative_int batch limits.batch_size)) store unique).protected
    ]
