-- ===== src/Retention/Prune.antt =====
-- `prune_log_events` of paxalia/resource_policies.py. A time is a number of seconds from the first
-- that Python can represent.
use paxalia_dashboard.Prelude.{
  ℕ, zero, suc, ◌-◌, ◌*◌, max, min, Bool, true, false, ◌&&◌, ◌||◌, not, Option, none, some, List,
  [], ◌∷◌, map, Text, codes, text_eq, is_empty, strip, any, take, length, filter, leb, ltb, ◌==◌,
  if◌then◌else◌, Value, Result, ok, err, ◌>>=◌,
}
use paxalia_dashboard.Retention.{
  Config, Policy, Limits, as_nonnegative_int, log_limits, severity_retention_days,
  category_retention_days,
}

-- The columns of `PaxaliaLogEvent` that pruning reads.
pub record Event : Type 0 where
  pub id : ℕ
  pub severity : Text
  pub source : Text
  pub category : Text
  pub timestamp : ℕ
  pub group : Option ℕ

-- `PaxaliaLogGroup`
pub record Group : Type 0 where
  pub id : ℕ
  pub last_seen : ℕ

pub record Store : Type 0 where
  pub events : List Event
  pub groups : List Group

pub record Summary : Type 0 where
  pub retention : ℕ
  pub max_records : ℕ
  pub storage : ℕ
  pub groups : ℕ

-- `int()` of an infinity, or a date before the first one.
pub data PruneError : Type 0 where
  overflow : PruneError

abbrev pub day : ℕ
day = 86400

-- `now - timedelta(days=days)`
unfoldable pub cutoff : ℕ → ℕ → Result PruneError ℕ
cutoff now days = if leb (days * day) now then ok (now - days * day) else err overflow

-- `s.startswith(prefix)`
unfoldable pub has_prefix : Text → Text → Bool
has_prefix [] s = true
has_prefix (c ∷ prefix) [] = false
has_prefix (c ∷ prefix) (d ∷ s) = c == d && has_prefix prefix s

-- `Q(source="Authentication") | Q(category__startswith="security")`
unfoldable pub is_security : Event → Bool
unfolding has_prefix
is_security e =
    text_eq e.source (codes "Authentication") || has_prefix (codes "security") e.category

-- What `protected_log_queryset` leaves out.
unfoldable pub is_protected : Event → Bool
unfolding is_security
is_protected e = text_eq e.severity (codes "CRITICAL") || is_security e

-- `_cleanup_ordering`
unfoldable pub rank : Text → ℕ
rank severity =
    if text_eq severity (codes "DEBUG")
    then 0
    else if text_eq severity (codes "INFO")
    then 1
    else if text_eq severity (codes "WARNING")
    then 2
    else if text_eq severity (codes "ERROR")
    then 3
    else 4

unfoldable pub is_cleaned_before : Event → Event → Bool
unfolding rank
is_cleaned_before e f =
    ltb (rank e.severity) (rank f.severity)
    || (rank e.severity == rank f.severity
        && (ltb e.timestamp f.timestamp || (e.timestamp == f.timestamp && leb e.id f.id)))

unfoldable pub insert_event : Event → List Event → List Event
unfolding is_cleaned_before
insert_event e [] = e ∷ []
insert_event e (f ∷ fs) =
    let rest = insert_event e fs in if is_cleaned_before e f then e ∷ f ∷ fs else f ∷ rest

unfoldable pub cleanup_order : List Event → List Event
unfolding insert_event
cleanup_order [] = []
cleanup_order (e ∷ es) = insert_event e (cleanup_order es)

abbrev event_key : Event → ℕ
event_key e = e.id

-- `list(qs.order_by(...).values_list("id", flat=True)[:amount])`
unfoldable pub first_ids : ℕ → (Event → Bool) → List Event → List ℕ
unfolding cleanup_order
first_ids amount matches es = map event_key (take amount (cleanup_order (filter matches es)))

abbrev pub in_ids : ℕ → List ℕ → Bool
in_ids i ids = any (λ j. i == j) ids

-- `PaxaliaLogEvent.objects.filter(id__in=ids).delete()`, unless the run is dry.
unfoldable pub delete_events : Bool → List ℕ → Store → Store
delete_events dry ids store =
    if dry
    then store
    else record store { events = filter (λ e. not (in_ids e.id ids)) store.events }

-- The names of the configured categories: `str(raw or "").strip().lower()`, the empty ones left out.
unfoldable pub category_names : Config → List (Text × Policy) → List Text
category_names c [] = []
category_names c (entry ∷ entries) =
    let rest = category_names c entries in
    let name = c.lower (strip entry.0) in if is_empty name then rest else name ∷ rest

-- The cutoff of each category.
unfoldable pub category_cutoffs :
    Config → ℕ → Text → List Text → Result PruneError (List (Text × ℕ))
unfolding cutoff category_retention_days severity_retention_days
category_cutoffs c now severity [] = ok []
category_cutoffs c now severity (name ∷ names) = do
  at ← cutoff now (category_retention_days c name (some (severity_retention_days c severity)))
  rest ← category_cutoffs c now severity names
  ok ((name, at) ∷ rest)

-- Whether an event is older than its policy allows, by the cutoffs of its severity and of the
-- categories.
unfoldable pub is_expired : ℕ → List (Text × ℕ) → Event → Bool
is_expired general cutoffs e =
    (ltb e.timestamp general && not (any (λ entry. text_eq e.category entry.0) cutoffs))
    || any (λ entry. text_eq e.category entry.0 && ltb e.timestamp entry.1) cutoffs

-- The events that the retention of one severity deletes.
unfoldable pub is_retired : Text → ℕ → List (Text × ℕ) → Event → Bool
unfolding is_security is_expired
is_retired severity general cutoffs e =
    text_eq e.severity severity
    && is_expired general cutoffs e
    && not (text_eq severity (codes "CRITICAL"))
    && not (is_security e)

abbrev pub severities : List Text
severities = codes "DEBUG" ∷ codes "INFO" ∷ codes "WARNING" ∷ codes "ERROR" ∷ codes "CRITICAL" ∷ []

unfoldable pub due_ids : Config → ℕ → Text → ℕ → List Event → Result PruneError (List ℕ)
unfolding cutoff severity_retention_days category_names category_cutoffs is_retired first_ids
due_ids c now severity remaining es = do
  general ← cutoff now (severity_retention_days c severity)
  cutoffs ← category_cutoffs c now severity (category_names c c.category_days)
  ok (first_ids remaining (is_retired severity general cutoffs) es)

-- The loop over the severities: what is left of the batch, or the exception, and the store.
unfoldable pub retain : Config → ℕ → Bool → List Text → ℕ → Store → Result PruneError ℕ × Store
unfolding due_ids delete_events
retain c now dry [] remaining store = (ok remaining, store)
retain c now dry (severity ∷ rest) zero store = (ok zero, store)
retain c now dry (severity ∷ rest) (suc n) store =
    elim (due_ids c now severity (suc n) store.events) [
      | err e ↦ (err e, store)
      | ok ids ↦ retain c now dry rest (suc n - length ids) (delete_events dry ids store)
    ]

-- One of the two later passes: the events that may go, in order, up to an amount.
unfoldable pub free_ids : ℕ → List Event → List ℕ
unfolding is_protected first_ids
free_ids amount es = first_ids amount (λ e. not (is_protected e)) es

-- The number of events over the limit, within what is left of the batch.
unfoldable pub excess_ids : Limits → ℕ → List Event → List ℕ
unfolding free_ids
excess_ids limits remaining es = free_ids (min (length es - limits.max_records) remaining) es

abbrev pub is_over : Option ℕ → ℕ → Bool
is_over none bound = false
is_over (some size) bound = not (bound == 0) && ltb bound size

-- `size` is the answer of `storage_size_bytes`.
unfoldable pub storage_ids : Limits → Option ℕ → ℕ → List Event → List ℕ
unfolding free_ids
storage_ids limits size remaining es =
    if is_over size limits.max_storage_bytes then free_ids remaining es else []

abbrev is_member_of : ℕ → Option ℕ → Bool
is_member_of i none = false
is_member_of i (some group) = i == group

-- The groups without events, the oldest first.
insert_group : Group → List Group → List Group
insert_group g [] = g ∷ []
insert_group g (h ∷ hs) =
    let rest = insert_group g hs in if leb g.last_seen h.last_seen then g ∷ h ∷ hs else h ∷ rest

unfoldable pub by_last_seen : List Group → List Group
unfolding insert_group
by_last_seen [] = []
by_last_seen (g ∷ gs) = insert_group g (by_last_seen gs)

unfoldable pub is_dangling : List Event → Group → Bool
is_dangling es g = not (any (λ e. is_member_of g.id e.group) es)

abbrev group_key : Group → ℕ
group_key g = g.id

unfoldable pub dangling_ids : ℕ → Store → List ℕ
unfolding by_last_seen is_dangling
dangling_ids amount store =
    map group_key (take amount (by_last_seen (filter (is_dangling store.events) store.groups)))

unfoldable pub delete_groups : Bool → List ℕ → Store → Store
delete_groups dry ids store =
    if dry
    then store
    else record store { groups = filter (λ g. not (in_ids g.id ids)) store.groups }

-- The passes after the retention, with what is left of the batch.
unfoldable pub prune_rest :
    Limits → (List Event → Option ℕ) → Bool → ℕ → ℕ → Store → Summary × Store
unfolding excess_ids storage_ids dangling_ids delete_events delete_groups
prune_rest limits size dry retained remaining store =
    let over = excess_ids limits remaining store.events in
    let counted = delete_events dry over store in
    let after_count = remaining - length over in
    let large = storage_ids limits (size counted.events) after_count counted.events in
    let stored = delete_events dry large counted in
    let dangling = dangling_ids (after_count - length large) stored in
    (
      record {
        retention = retained;
        max_records = length over;
        storage = length large;
        groups = length dangling;
      },
      delete_groups dry dangling stored,
    )

unfoldable pub prune_within :
    Config
    → ℕ
    → (List Event → Option ℕ)
    → Bool
    → Limits
    → ℕ
    → Store
    → Result PruneError Summary × Store
unfolding retain prune_rest
prune_within c now size dry limits batch store =
    let (left, retained) = retain c now dry severities batch store in
    elim left [
      | err e ↦ (err e, retained)
      | ok remaining ↦
          let (summary, last) = prune_rest limits size dry (batch - remaining) remaining retained in
          (ok summary, last)
    ]

-- `prune_log_events`: the batch size is `null` where the caller gives none.
unfoldable pub prune_log_events :
    Config → ℕ → (List Event → Option ℕ) → Bool → Value → Store → Result PruneError Summary × Store
unfolding log_limits prune_within
prune_log_events c now size dry batch store = elim (log_limits c) [
  | err e ↦ (err overflow, store)
  | ok limits ↦
      prune_within c now size dry limits (max 1 (as_nonnegative_int batch limits.batch_size)) store
]
