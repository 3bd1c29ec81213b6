-- ===== src/Transfer/Lifecycle/Effects.antt =====
-- What each call writes to the table of transfers (paxalia/transfer_center/service.py).
use paxalia_dashboard.Prelude.{
  ℕ, ◌≡◌, ◌<◌, refl, subst, ◌⊎◌, inl, inr, true, false, not, none, some, leb, if◌then◌else◌, ok,
  raise_if, >>=-eq-ok, Bool-cases, arith,
}
use paxalia_dashboard.Transfer.Model.{
  Transfer, Account, permission_denied, value_error, not_found, is_active, transferring,
  is_verifying, is_send, is_terminal, is_upload_failed, same_key, send, receive,
}
use paxalia_dashboard.Transfer.Exchange.{resolve_bound_transfer_path}
use paxalia_dashboard.Transfer.Service.{
  Db, Service, Disk, ensure_enabled, check_direction, is_foreign, find_transfer, find_upload,
  save_rows, acquire_transfer_slot, active_count, send_progress,
}
use paxalia_dashboard.Transfer.Control.{
  Outcome, or_raise, save, is_settled, is_pausable, is_retryable, needs_slot, paused_row,
  resumed_row, started_row, retried_row, retry_progress, cancel_locked, pause_transfer,
  resume_send_transfer, resume_receive_transfer, retry_transfer, cancel_transfer,
}
use paxalia_dashboard.Transfer.Lifecycle.Moves.{
  Moved, paused-Moved, resumed-Moved, started-Moved, retried-Moved, cancelled-Moved,
  send_progress-bounded, retry_progress-bounded,
}

-- A call wrote one row back, a move of the row that was there.
pub record Wrote (s : Service) (pk : ℕ) (db db' : Db) (row : Transfer) : Type 0 where
  pub old : Transfer
  pub found : find_transfer pk db ≡ some old
  pub moved : Moved old row
  pub written : db'.transfers ≡ save_rows row db.transfers
  -- A row that starts to occupy one of the slots found one that was free.
  pub slot :
      is_active row.status ≡ true
      → is_active old.status ≡ false
      → active_count db < s.max_concurrent

abbrev pub Effect : Service → ℕ → Db → Db → Transfer → Type 0
Effect s pk db db' row = (db'.transfers ≡ db.transfers) ⊎ Wrote s pk db db' row

pub saved-Wrote :
    (s : Service) (pk : ℕ) (db db' : Db) (old row row' : Transfer)
    → find_transfer pk db ≡ some old
    → Moved old row
    → (is_active row.status ≡ true
        → is_active old.status ≡ false
        → active_count db < s.max_concurrent)
    → (let o : Outcome = ok (save row db) in o) ≡ ok (db', row')
    → Wrote s pk db db' row'
saved-Wrote s pk db db' old row row' found moved slot e =
    let same : row ≡ row' = ground arith in
    record {
      old = old;
      found = found;
      moved = subst (Moved old) same moved;
      written = ground arith;
      slot = λ a b. slot (ground arith) b;
    }

pub pause_transfer-Effect :
    (s : Service) (disk : Disk) (db db' : Db) (t row : Transfer) (account : Account)
    → pause_transfer s disk db t account ≡ ok (db', row)
    → Effect s t.pk db db' row
unfolding pause_transfer
pause_transfer-Effect s disk db db' t row account e =
    let (_, _, e1) = >>=-eq-ok (ensure_enabled s) _ e in
    let (_, _, e2) = >>=-eq-ok (check_direction account t.direction) _ e1 in
    let (locked, found, e3) = >>=-eq-ok (or_raise (find_transfer t.pk db) not_found) _ e2 in
    let (_, _, e4) =
      >>=-eq-ok (raise_if (is_foreign locked.actor account) permission_denied) _ e3 in
    let (_, pausable, e5) =
      >>=-eq-ok (raise_if (not (is_pausable locked.status)) value_error) _ e4 in
    inr (
      saved-Wrote s t.pk db db' locked (paused_row s locked) row (ground arith)
        (paused-Moved s locked (ground arith)) (λ a b. absurd (ground arith)) e5)

pub resume_receive_transfer-Effect :
    (s : Service) (disk : Disk) (db db' : Db) (pk : ℕ) (row : Transfer) (account : Account)
    → resume_receive_transfer s disk db pk account ≡ ok (db', row)
    → Effect s pk db db' row
unfolding resume_receive_transfer
resume_receive_transfer-Effect s disk db db' pk row account e =
    let (_, _, e1) = >>=-eq-ok (ensure_enabled s) _ e in
    let (_, _, e2) = >>=-eq-ok (check_direction account receive) _ e1 in
    let (t, found, e3) = >>=-eq-ok (or_raise (find_transfer pk db) value_error) _ e2 in
    let (_, _, e4) = >>=-eq-ok (raise_if (is_send t.direction) value_error) _ e3 in
    let (_, _, e5) = >>=-eq-ok (raise_if (is_foreign t.actor account) permission_denied) _ e4 in
    let (_, live, e6) = >>=-eq-ok (raise_if (is_terminal t.status) value_error) _ e5 in
    let (_, _, e7) = >>=-eq-ok (resolve_bound_transfer_path s.deployment t account false) _ e6 in
    inr (
      saved-Wrote s pk db db' t (resumed_row s t transferring t.bytes_transferred) row
        (ground arith)
        (resumed-Moved s t transferring t.bytes_transferred refl (ground arith) (λ k. k))
        (λ a b. absurd (ground arith)) e7)

pub resume_send_transfer-Effect :
    (s : Service) (disk : Disk) (db db' : Db) (pk : ℕ) (row : Transfer) (account : Account)
    → resume_send_transfer s disk db pk account ≡ ok (db', row)
    → Effect s pk db db' row
unfolding resume_send_transfer
resume_send_transfer-Effect s disk db db' pk row account e =
    let (_, _, e1) = >>=-eq-ok (ensure_enabled s) _ e in
    let (_, _, e2) = >>=-eq-ok (check_direction account send) _ e1 in
    let (t, found, e3) = >>=-eq-ok (or_raise (find_transfer pk db) value_error) _ e2 in
    let (_, _, e4) = >>=-eq-ok (raise_if (not (is_send t.direction)) value_error) _ e3 in
    let (_, _, e5) = >>=-eq-ok (raise_if (is_foreign t.actor account) permission_denied) _ e4 in
    let (_, live, e6) = >>=-eq-ok (raise_if (is_terminal t.status) value_error) _ e5 in
    let (_, _, e7) = >>=-eq-ok (raise_if (same_key t.upload_session none) value_error) _ e6 in
    let (_, _, e8) = >>=-eq-ok (resolve_bound_transfer_path s.deployment t account true) _ e7 in
    let (u, _, e9) = >>=-eq-ok (or_raise (find_upload t.upload_session db) not_found) _ e8 in
    let (_, _, e10) =
      >>=-eq-ok (raise_if (is_foreign u.uploaded_by account) permission_denied) _ e9 in
    let (_, _, e11) = >>=-eq-ok (raise_if (is_upload_failed u.status) value_error) _ e10 in
    let (p, progress, e12) = >>=-eq-ok (send_progress disk t u) _ e11 in
    let bounded = send_progress-bounded disk t u p progress in
    inr (
      saved-Wrote s pk db db' t (started_row s (resumed_row s t p.0 p.1)) row (ground arith)
        (started-Moved s t (resumed_row s t p.0 p.1)
          (resumed-Moved s t p.0 p.1 bounded.0 (ground arith) (λ k. bounded.1)))
        (λ a b. absurd (ground arith)) e12)

-- `_acquire_transfer_slot` returns only while a slot is free.
pub acquire_transfer_slot-free :
    (s : Service) (db : Db)
    → acquire_transfer_slot s db ≡ ok tt
    → active_count db < s.max_concurrent
unfolding acquire_transfer_slot
acquire_transfer_slot-free s db e = ground arith

pub retry_transfer-Effect :
    (s : Service) (disk : Disk) (db db' : Db) (t row : Transfer) (account : Account)
    → retry_transfer s disk db t account ≡ ok (db', row)
    → Effect s t.pk db db' row
unfolding retry_transfer
retry_transfer-Effect s disk db db' t row account e =
    let (_, _, e1) = >>=-eq-ok (ensure_enabled s) _ e in
    let (_, _, e2) = >>=-eq-ok (check_direction account t.direction) _ e1 in
    let (locked, found, e3) = >>=-eq-ok (or_raise (find_transfer t.pk db) not_found) _ e2 in
    let (_, _, e4) =
      >>=-eq-ok (raise_if (is_foreign locked.actor account) permission_denied) _ e3 in
    let (_, retryable, e5) =
      >>=-eq-ok (raise_if (not (is_retryable locked.status)) value_error) _ e4 in
    let (_, budget, e6) =
      >>=-eq-ok (raise_if (leb locked.max_retries locked.retry_count) value_error) _ e5 in
    let (taken, slot, e7) =
      >>=-eq-ok (if needs_slot locked.status then acquire_transfer_slot s db else ok tt) _ e6 in
    let (p, progress, e8) = >>=-eq-ok (retry_progress s disk db locked account) _ e7 in
    let bounded = retry_progress-bounded s disk db locked account p progress in
    inr (
      saved-Wrote s t.pk db db' locked (retried_row s locked p.0 p.1) row (ground arith)
        (retried-Moved s locked p.0 p.1 bounded.0 (ground arith) (ground arith) bounded.1)
        (λ a b. acquire_transfer_slot-free s db (ground arith)) e8)

pub cancel_locked-Effect :
    (s : Service) (db db' : Db) (t row : Transfer) (pk : ℕ)
    → find_transfer pk db ≡ some t
    → is_settled t.status ≡ false
    → cancel_locked s t db ≡ ok (db', row)
    → Effect s pk db db' row
unfolding cancel_locked
cancel_locked-Effect s db db' t row pk found h e =
    let (_, idle, e1) = >>=-eq-ok (raise_if (is_verifying t.status) value_error) _ e in
    inr (record {
      old = t;
      found = found;
      moved = cancelled-Moved t row s.now h (ground arith) (ground arith);
      written = ground arith;
      slot = λ a b. absurd (ground arith);
    })

pub cancel_transfer-Effect :
    (s : Service) (disk : Disk) (db db' : Db) (t row : Transfer) (account : Account)
    → cancel_transfer s disk db t account ≡ ok (db', row)
    → Effect s t.pk db db' row
unfolding cancel_transfer
cancel_transfer-Effect s disk db db' t row account e =
    let (_, _, e1) = >>=-eq-ok (ensure_enabled s) _ e in
    let (_, _, e2) = >>=-eq-ok (check_direction account t.direction) _ e1 in
    let (locked, found, e3) = >>=-eq-ok (or_raise (find_transfer t.pk db) not_found) _ e2 in
    let (_, _, e4) =
      >>=-eq-ok (raise_if (is_foreign locked.actor account) permission_denied) _ e3 in
    elim (Bool-cases (is_settled locked.status)) [
      | inl settled ↦ inl (ground arith)
      | inr live ↦ cancel_locked-Effect s db db' locked row t.pk (ground arith) live (ground arith)
    ]
