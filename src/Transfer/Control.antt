-- ===== src/Transfer/Control.antt =====
-- `pause_transfer`, `resume_send_transfer`, `resume_receive_transfer`, `retry_transfer` and
-- `cancel_transfer` of paxalia/transfer_center/service.py. Each returns the store after its
-- transaction and the row; a raise rolls the transaction back.
use paxalia_dashboard.Prelude.{
  ℕ, suc, ◌+◌, ◌*◌, Bool, true, false, not, Option, none, some, [], is_empty, leb, if◌then◌else◌,
  Result, ok, err, ◌>>=◌, ◌>>◌, raise_if,
}
use paxalia_dashboard.Transfer.Model.{
  Transfer, Upload, Account, TransferError, permission_denied, value_error, not_found, Status,
  preparing, transferring, paused, interrupted, completed, failed, cancelled, expired, send,
  receive, is_terminal, is_verifying, is_send, is_upload_failed, upload_failed, is_transfer_send,
  Message, none_yet, was_cancelled, same_key,
}
use paxalia_dashboard.Transfer.Chunks.{valid_chunk_indexes}
use paxalia_dashboard.Transfer.Exchange.{resolve_bound_transfer_path}
use paxalia_dashboard.Transfer.Service.{
  Db, Service, Disk, hour, ensure_enabled, check_direction, is_foreign, find_transfer, find_upload,
  save_rows, save_uploads, acquire_transfer_slot, send_progress,
}

abbrev pub Outcome : Type 0
Outcome = Result TransferError (Db × Transfer)

abbrev pub or_raise {ℓ} : {A : Type ℓ} → Option A → TransferError → Result TransferError A
or_raise none e = err e
or_raise (some a) e = ok a

abbrev pub save : Transfer → Db → Db × Transfer
save row db = (record db { transfers = save_rows row db.transfers }, row)

abbrev pub is_pausable : Status → Bool
is_pausable preparing = true
is_pausable transferring = true
is_pausable interrupted = true
is_pausable _ = false

abbrev pub is_retryable : Status → Bool
is_retryable failed = true
is_retryable interrupted = true
is_retryable paused = true
is_retryable _ = false

abbrev pub needs_slot : Status → Bool
needs_slot failed = true
needs_slot interrupted = true
needs_slot _ = false

abbrev pub is_settled : Status → Bool
is_settled completed = true
is_settled cancelled = true
is_settled expired = true
is_settled _ = false

-- What each operation writes to the row.
abbrev pub paused_row : Service → Transfer → Transfer
paused_row s t = record t { status = paused; updated_at = s.now }

abbrev pub resumed_row : Service → Transfer → Status → ℕ → Transfer
resumed_row s t status bytes = record t {
  status = status;
  bytes_transferred = bytes;
  expires_at = some (s.now + s.expiration_hours * hour);
  updated_at = s.now;
}

abbrev pub started_row : Service → Transfer → Transfer
started_row s t = record t {
  started_at = elim t.started_at [ none ↦ some s.now | some at ↦ some at ];
}

abbrev pub retried_row : Service → Transfer → Status → ℕ → Transfer
retried_row s t status bytes = record (resumed_row s t status bytes) {
  retry_count = suc t.retry_count;
  error_message = none_yet;
}

-- `_sync_transfer_upload_state(upload, status="failed", ..., clear_storage=True)`
unfoldable pub fail_upload : Message → Upload → Upload
fail_upload message u =
    if is_transfer_send u.purpose
    then record u {
      status = upload_failed;
      error_message = message;
      storage_path = [];
      completed_at = none;
    }
    else u

unfoldable pub cancel_locked : Service → Transfer → Db → Outcome
unfolding fail_upload
cancel_locked s locked db = do
  raise_if (is_verifying locked.status) value_error
  let row = record locked { status = cancelled; updated_at = s.now }
  let upload = if is_send locked.direction then find_upload locked.upload_session db else none
  ok (
    record db {
      transfers = save_rows row db.transfers;
      uploads = elim upload [
        | none ↦ db.uploads
        | some u ↦ save_uploads (fail_upload was_cancelled u) db.uploads
      ];
    },
    row,
  )

module _ (s : Service) (disk : Disk) where
  unfoldable pub pause_transfer : Db → Transfer → Account → Outcome
  pause_transfer db transfer account = do
    ensure_enabled s
    check_direction account transfer.direction
    locked ← or_raise (find_transfer transfer.pk db) not_found
    raise_if (is_foreign locked.actor account) permission_denied
    raise_if (not (is_pausable locked.status)) value_error
    ok (save (paused_row s locked) db)

  unfoldable pub resume_send_transfer : Db → ℕ → Account → Outcome
  resume_send_transfer db pk account = do
    ensure_enabled s
    check_direction account send
    t ← or_raise (find_transfer pk db) value_error
    raise_if (not (is_send t.direction)) value_error
    raise_if (is_foreign t.actor account) permission_denied
    raise_if (is_terminal t.status) value_error
    raise_if (same_key t.upload_session none) value_error
    resolve_bound_transfer_path s.deployment t account true
    u ← or_raise (find_upload t.upload_session db) not_found
    raise_if (is_foreign u.uploaded_by account) permission_denied
    raise_if (is_upload_failed u.status) value_error
    progress ← send_progress disk t u
    ok (save (started_row s (resumed_row s t progress.0 progress.1)) db)

  unfoldable pub resume_receive_transfer : Db → ℕ → Account → Outcome
  resume_receive_transfer db pk account = do
    ensure_enabled s
    check_direction account receive
    t ← or_raise (find_transfer pk db) value_error
    raise_if (is_send t.direction) value_error
    raise_if (is_foreign t.actor account) permission_denied
    raise_if (is_terminal t.status) value_error
    resolve_bound_transfer_path s.deployment t account false
    ok (save (resumed_row s t transferring t.bytes_transferred) db)

  -- The part of `retry_transfer` that depends on the direction.
  unfoldable pub retry_progress : Db → Transfer → Account → Result TransferError (Status × ℕ)
  retry_progress db t account =
      if is_send t.direction
      then (do
        check_direction account send
        resolve_bound_transfer_path s.deployment t account true
        u ← or_raise (find_upload t.upload_session db) value_error
        raise_if (is_upload_failed u.status) value_error
        send_progress disk t u)
      else (do
        resolve_bound_transfer_path s.deployment t account false
        ok (
          if is_empty (valid_chunk_indexes t.total_chunks t.received_chunks)
              then preparing
              else transferring,
          t.bytes_transferred,
        ))

  unfoldable pub retry_transfer : Db → Transfer → Account → Outcome
  unfolding retry_progress
  retry_transfer db transfer account = do
    ensure_enabled s
    check_direction account transfer.direction
    locked ← or_raise (find_transfer transfer.pk db) not_found
    raise_if (is_foreign locked.actor account) permission_denied
    raise_if (not (is_retryable locked.status)) value_error
    raise_if (leb locked.max_retries locked.retry_count) value_error
    (if needs_slot locked.status then acquire_transfer_slot s db else ok tt)
    progress ← retry_progress db locked account
    ok (save (retried_row s locked progress.0 progress.1) db)

  unfoldable pub cancel_transfer : Db → Transfer → Account → Outcome
  cancel_transfer db transfer account = do
    ensure_enabled s
    check_direction account transfer.direction
    locked ← or_raise (find_transfer transfer.pk db) not_found
    raise_if (is_foreign locked.actor account) permission_denied
    if is_settled locked.status then ok (db, locked) else cancel_locked s locked db
