-- ===== src/Transfer/Lifecycle/Slots.antt =====
-- The limit of concurrent transfers (`_acquire_transfer_slot` of
-- paxalia/transfer_center/service.py).
use paxalia_dashboard.Prelude.{
  ◌&&◌, suc, ℕ, ◌+◌, ◌≡◌, ◌≤◌, ◌≢◌, not, refl, sym, ap, subst, inl, inr, Bool, true, false, Option,
  none, some, List, [], ◌∷◌, ◌++◌, ◌==◌, if◌then◌else◌, ok, ok_injective, >>=-eq-ok, Bool-cases,
  arith, find, count, find_holds, Text, Value, ◌||◌, leb, ltb, raise_if, length, is_empty, has,
}
use paxalia_dashboard.ServerFiles.Name.{slash, backslash}
use paxalia_dashboard.Transfer.Model.{
  Transfer, Upload, Account, interrupted, permission_denied, not_found, is_active, send, receive,
  value_error,
}
use paxalia_dashboard.Transfer.Service.{
  Db, Service, Disk, find_transfer, is_foreign, save_rows, active_count, ensure_enabled,
  check_direction, acquire_transfer_slot,
}
use paxalia_dashboard.Transfer.Exchange.{safe_filename, exchange_file_parts, lift}
use paxalia_dashboard.Transfer.Create.{
  create_send_transfer, create_receive_transfer, checked_size, check_entry, hash_new, new_row,
  added, record_send, record_receive,
}
use paxalia_dashboard.ServerFiles.Access.{Root}
use paxalia_dashboard.Transfer.Control.{Outcome, or_raise, retry_transfer, is_retryable, needs_slot}
use paxalia_dashboard.Transfer.Finalize.{normalize_checksum}
use paxalia_dashboard.Transfer.Lifecycle.{Command, run}
use paxalia_dashboard.Transfer.Lifecycle.Effects.{Wrote, acquire_transfer_slot-free}
use paxalia_dashboard.Transfer.Lifecycle.Laws.{run-Effect}

-- Primary keys: no later row has the key of a row.
unfoldable pub Unique : List Transfer → Type 0
Unique [] = Unit
Unique (t ∷ ts) = (find (λ x. x.pk == t.pk) ts ≡ none) × Unique ts

abbrev pub one : Bool → ℕ
one true = 1
one false = 0

count-save_rows-none :
    (row : Transfer) (ts : List Transfer)
    → find (λ x. x.pk == row.pk) ts ≡ none
    → save_rows row ts ≡ ts
unfolding save_rows
count-save_rows-none row [] h = refl
count-save_rows-none row (t ∷ ts) h = ground (arith, count-save_rows-none row ts)

pub count-save_rows :
    (row old : Transfer) (ts : List Transfer)
    → Unique ts
    → find (λ x. x.pk == row.pk) ts ≡ some old
    → count (λ x. is_active x.status) (save_rows row ts) + one (is_active old.status)
      ≡ count (λ x. is_active x.status) ts + one (is_active row.status)
unfolding save_rows Unique
count-save_rows row old [] u h = cc
count-save_rows row old (t ∷ ts) u h = elim (Bool-cases (t.pk == row.pk)) [
  | inl same ↦
      let fixed : save_rows row ts ≡ ts = count-save_rows-none row ts (ground (arith, u.0)) in
      ground (arith, fixed)
  | inr other ↦ ground (arith, count-save_rows row old ts u.1)
]

find-of-key :
    (k : ℕ) (row old : Transfer) (ts : List Transfer)
    → row.pk ≡ old.pk
    → find (λ x. x.pk == k) ts ≡ some old
    → find (λ x. x.pk == row.pk) ts ≡ some old
find-of-key k row old ts same h =
    let key : k ≡ row.pk = ground (arith, same, find_holds (λ x. x.pk == k) ts old h) in
    subst (λ i. find (λ x. x.pk == i) ts ≡ some old) key h

Wrote-active_count :
    (s : Service) (pk : ℕ) (db db' : Db) (row : Transfer)
    → Unique db.transfers
    → active_count db ≤ s.max_concurrent
    → Wrote s pk db db' row
    → active_count db' ≤ s.max_concurrent
unfolding active_count find_transfer
Wrote-active_count s pk db db' row u h w =
    let counts =
      count-save_rows row w.old db.transfers u
        (find-of-key pk row w.old db.transfers w.moved.keeps.0 w.found) in
    ground (arith, counts, w.slot, ap (count (λ x. is_active x.status)) w.written)

-- No command (pause, resume, retry, cancel, finalize, read a chunk, complete a receive) takes the
-- number of active transfers over the limit: if at most `max_concurrent` are active (and keys are
-- unique), at most as many are after any command that returns.
pub run-active_count :
    (s : Service) (disk : Disk) (account : Account) (c : Command) (db db' : Db) (row : Transfer)
    → Unique db.transfers
    → active_count db ≤ s.max_concurrent
    → run s disk account c db ≡ ok (db', row)
    → active_count db' ≤ s.max_concurrent
unfolding active_count
run-active_count s disk account c db db' row u h e =
    let (pk, effect) = run-Effect s disk account c db db' row e in
    elim effect [
      | inl same ↦ ground (arith, ap (count (λ x. is_active x.status)) same)
      | inr w ↦ Wrote-active_count s pk db db' row u h w
    ]

added-active_count :
    (row : Transfer) (ts : List Transfer)
    → count (λ x. is_active x.status) (ts ++ row ∷ [])
      ≡ count (λ x. is_active x.status) ts + one (is_active row.status)
added-active_count row [] = ground arith
added-active_count row (t ∷ ts) = ground (arith, added-active_count row ts)

one_le : (b : Bool) → one b ≤ 1
one_le b = ground arith

added_below :
    (s : Service) (db : Db) (row : Transfer)
    → acquire_transfer_slot s db ≡ ok tt
    → count (λ x. is_active x.status) (db.transfers ++ row ∷ []) ≤ s.max_concurrent
unfolding active_count
added_below s db row slot =
    let free = acquire_transfer_slot-free s db slot in
    subst (λ n. n ≤ s.max_concurrent) (sym (added-active_count row db.transfers))
      (omega (arith, free, one_le (is_active row.status)))

ok_below :
    (s : Service) (db db' : Db) (row row' : Transfer) (us : List Upload)
    → acquire_transfer_slot s db ≡ ok tt
    → (let r : Outcome = ok (added row us db) in r) ≡ ok (db', row')
    → active_count db' ≤ s.max_concurrent
unfolding active_count
ok_below s db db' row row' us slot e =
    subst (λ (x : Db × Transfer). count (λ y. is_active y.status) x.0.transfers ≤ s.max_concurrent)
      (ok_injective e) (added_below s db row slot)

record_send-active_count :
    (s : Service) (disk : Disk) (db db' : Db) (account : Account) (pk id : ℕ) (root : Root)
    (parts : List Text) (name : Text) (size : ℕ) (source request_id : Text) (row : Transfer)
    → record_send s disk db account pk id root parts name size source request_id ≡ ok (db', row)
    → active_count db' ≤ s.max_concurrent
unfolding record_send
record_send-active_count s disk db db' account pk id root parts name size source request_id row e =
    let (_, slot, e1) = >>=-eq-ok (acquire_transfer_slot s db) _ e in
    let (safe, _, e2) = >>=-eq-ok (safe_filename s.deployment name) _ e1 in
    ok_below s db db' _ row _ slot e2

record_receive-active_count :
    (s : Service) (disk : Disk) (db db' : Db) (account : Account) (pk : ℕ) (root : Root)
    (parts : List Text) (name : Text) (size : ℕ) (row : Transfer)
    → record_receive s disk db account pk root parts name size ≡ ok (db', row)
    → active_count db' ≤ s.max_concurrent
unfolding record_receive
record_receive-active_count s disk db db' account pk root parts name size row e =
    let (_, slot, e1) = >>=-eq-ok (acquire_transfer_slot s db) _ e in
    let (t, _, e2) =
      >>=-eq-ok (hash_new s disk root parts (new_row s pk account receive name size root parts)) _
        e1 in
    ok_below s db db' t row [] slot e2

-- After `create_send_transfer` has returned, at most `max_concurrent` transfers are active.
pub create_send_transfer-active_count :
    (s : Service) (disk : Disk) (db db' : Db) (account : Account) (pk id : ℕ) (filename : Text)
    (total_size : Value) (checksum request_id : Text) (row : Transfer)
    → create_send_transfer s disk db account pk id filename total_size checksum request_id
      ≡ ok (db', row)
    → active_count db' ≤ s.max_concurrent
unfolding create_send_transfer
create_send_transfer-active_count s disk db db' account pk id filename total_size checksum
      request_id row e =
    let (_, _, e1) = >>=-eq-ok (ensure_enabled s) _ e in
    let (_, _, e2) = >>=-eq-ok (check_direction account send) _ e1 in
    let (source, _, e3) = >>=-eq-ok (normalize_checksum s.deployment.lower true checksum) _ e2 in
    let (size, _, e4) = >>=-eq-ok (checked_size s total_size) _ e3 in
    let (name, _, e5) = >>=-eq-ok (safe_filename s.deployment filename) _ e4 in
    let (found, _, e6) = >>=-eq-ok (exchange_file_parts s.deployment account name true) _ e5 in
    let (_, _, e7) = >>=-eq-ok (check_entry disk found.0 found.1) _ e6 in
    record_send-active_count s disk db db' account pk id found.0 found.1 found.2 size source
      request_id row e7

-- After `create_receive_transfer` has returned, at most `max_concurrent` transfers are active.
pub create_receive_transfer-active_count :
    (s : Service) (disk : Disk) (db db' : Db) (account : Account) (pk : ℕ)
    (source_path filename : Text) (row : Transfer)
    → create_receive_transfer s disk db account pk source_path filename ≡ ok (db', row)
    → active_count db' ≤ s.max_concurrent
unfolding create_receive_transfer
create_receive_transfer-active_count s disk db db' account pk source_path filename row e =
    let requested = if is_empty filename then source_path else filename in
    let (_, _, e1) = >>=-eq-ok (ensure_enabled s) _ e in
    let (_, _, e2) = >>=-eq-ok (check_direction account receive) _ e1 in
    let (_, _, e3) =
      >>=-eq-ok
        (raise_if (is_empty requested || has slash requested || has backslash requested)
          value_error)
        _ e2 in
    let (found, _, e4) =
      >>=-eq-ok (exchange_file_parts s.deployment account requested false) _ e3 in
    let (content, _, e5) = >>=-eq-ok (lift (disk.server_file found.0 found.1)) _ e4 in
    let (_, _, e6) =
      >>=-eq-ok
        (raise_if (leb (length content) 0 || ltb s.max_transfer (length content)) value_error) _
        e5 in
    record_receive-active_count s disk db db' account pk found.0 found.1 found.2 (length content)
      row e6

found_again :
    (o : Option Transfer) (a b : Transfer) → or_raise o not_found ≡ ok a → o ≡ some b → a ≡ b
found_again o a b h k = ground arith

slot_of :
    (locked old : Transfer) (taken : Unit {0}) (s : Service) (db : Db)
    → locked ≡ old
    → old.status ≡ interrupted
    → (if needs_slot locked.status then acquire_transfer_slot s db else ok tt) ≡ ok taken
    → acquire_transfer_slot s db ≡ ok tt
slot_of locked old taken s db same stopped slot = ground arith

-- The active transfers but the one of this key.
unfoldable pub others : ℕ → List Transfer → ℕ
others k ts = count (λ x. is_active x.status && not (x.pk == k)) ts

others-count : (k : ℕ) (ts : List Transfer) → others k ts ≤ count (λ x. is_active x.status) ts
unfolding others
others-count k [] = omega arith
others-count k (t ∷ ts) = ground (arith, others-count k ts)

suc-others-count :
    (k : ℕ) (old : Transfer) (ts : List Transfer)
    → find (λ x. x.pk == k) ts ≡ some old
    → is_active old.status ≡ true
    → suc (others k ts) ≤ count (λ x. is_active x.status) ts
unfolding others
suc-others-count k old [] found busy = cc
suc-others-count k old (t ∷ ts) found busy =
    ground (arith, found, busy, others-count k ts, suc-others-count k old ts)

-- A retry of an interrupted transfer is refused if the other active transfers leave just one slot: the
-- transfer's own old activity takes it.
pub retry_transfer-at_limit :
    (s : Service) (disk : Disk) (db db' : Db) (t old row : Transfer) (account : Account)
    → find_transfer t.pk db ≡ some old
    → old.status ≡ interrupted
    → suc (others t.pk db.transfers) ≡ s.max_concurrent
    → retry_transfer s disk db t account ≢ ok (db', row)
unfolding retry_transfer
retry_transfer-at_limit s disk db db' t old row account found stopped full e =
    let (_, _, e1) = >>=-eq-ok (ensure_enabled s) _ e in
    let (_, _, e2) = >>=-eq-ok (check_direction account t.direction) _ e1 in
    let (locked, there, e3) = >>=-eq-ok (or_raise (find_transfer t.pk db) not_found) _ e2 in
    let (_, _, e4) =
      >>=-eq-ok (raise_if (is_foreign locked.actor account) permission_denied) _ e3 in
    let (_, _, e5) = >>=-eq-ok (raise_if (not (is_retryable locked.status)) value_error) _ e4 in
    let (_, _, e6) =
      >>=-eq-ok (raise_if (leb locked.max_retries locked.retry_count) value_error) _ e5 in
    let (taken, slot, e7) =
      >>=-eq-ok (if needs_slot locked.status then acquire_transfer_slot s db else ok tt) _ e6 in
    let free =
      acquire_transfer_slot-free s db
        (slot_of locked old taken s db (found_again _ locked old there found) stopped slot) in
    let counted : suc (others t.pk db.transfers) ≤ active_count db =
      unfold active_count find_transfer in
      suc-others-count t.pk old db.transfers found (ap is_active stopped) in
    omega (arith, free, full, counted)
