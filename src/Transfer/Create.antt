-- ===== src/Transfer/Create.antt =====
-- `create_send_transfer` and `create_receive_transfer` of paxalia/transfer_center/service.py. The
-- new keys are arguments.
use paxalia_dashboard.Prelude.{
  ℕ, ◌+◌, ◌*◌, true, false, ◌||◌, none, some, List, [], ◌∷◌, ◌++◌, Text, join, take, has, is_empty,
  leb, ltb, Value, to_int, overflow_error, pos, negsuc, length, if◌then◌else◌, Result, ok, err,
  ◌>>=◌, ◌>>◌, raise_if,
}
use paxalia_dashboard.ServerFiles.Error.{file_not_found}
use paxalia_dashboard.ServerFiles.Name.{slash, backslash}
use paxalia_dashboard.ServerFiles.Access.{Root}
use paxalia_dashboard.Transfer.Model.{
  Transfer, Upload, Account, TransferError, value_error, already_exists, overflow, os_error,
  server_files, preparing, failed, Direction, send, receive, pending, transfer_send, none_yet,
  source_not_hashed,
}
use paxalia_dashboard.Transfer.Chunks.{chunk_count}
use paxalia_dashboard.Transfer.Exchange.{safe_filename, exchange_file_parts, lift, parent_parts}
use paxalia_dashboard.Transfer.Service.{
  Db, Service, Disk, hour, ensure_enabled, check_direction, acquire_transfer_slot,
}
use paxalia_dashboard.Transfer.Finalize.{normalize_checksum}

-- `int(total_size)` with its `except (TypeError, ValueError)`, and the limit.
unfoldable pub checked_size : Service → Value → Result TransferError ℕ
checked_size s value = elim (to_int value) [
  | err overflow_error ↦ err overflow
  | err _ ↦ err value_error
  | ok (negsuc n) ↦ err value_error
  | ok (pos n) ↦ if leb n 0 || ltb s.max_transfer n then err value_error else ok n
]

-- The preflight on the exchange: the name must not be taken.
unfoldable pub check_entry : Disk → Root → List Text → Result TransferError (Unit {0})
check_entry disk root parts = elim (disk.has_entry root parts) [
  | err file_not_found ↦ err value_error
  | err e ↦ err (server_files e)
  | ok true ↦ err already_exists
  | ok false ↦ ok tt
]

-- A new row of either direction.
abbrev pub new_row : Service → ℕ → Account → Direction → Text → ℕ → Root → List Text → Transfer
new_row s pk account direction name size root parts = record {
  pk = pk;
  actor = some account.pk;
  direction = direction;
  filename = name;
  size = size;
  bytes_transferred = 0;
  chunk_size = s.chunk;
  total_chunks = chunk_count size s.chunk;
  received_chunks = [];
  server_root_id = take 64 root.id;
  server_relative_path = join slash parts;
  staging_path = [];
  upload_session = none;
  status = preparing;
  source_checksum = [];
  destination_checksum = [];
  retry_count = 0;
  max_retries = s.max_retries;
  error_message = none_yet;
  request_id = [];
  started_at = some s.now;
  updated_at = s.now;
  completed_at = none;
  expires_at = some (s.now + s.expiration_hours * hour);
}

abbrev pub new_upload : Account → ℕ → Transfer → Upload
new_upload account id t = record {
  id = id;
  uploaded_by = some account.pk;
  original_filename = t.filename;
  total_size = t.size;
  bytes_received = 0;
  chunk_size = t.chunk_size;
  total_chunks = t.total_chunks;
  chunks_received = 0;
  status = pending;
  purpose = transfer_send;
  transfer_id = some t.pk;
  storage_path = [];
  error_message = none_yet;
  completed_at = none;
}

-- `_hash_server_file`
unfoldable pub hash_server_file : Service → Disk → Root → List Text → Result TransferError Text
hash_server_file s disk root parts = lift (disk.server_file root parts) >>= λ content.
    if disk.read_error root parts then err os_error else ok (s.sha256 content)

-- The source's checksum is taken at once if the file is small; only an `OSError` is caught.
unfoldable pub hash_new :
    Service → Disk → Root → List Text → Transfer → Result TransferError Transfer
unfolding hash_server_file
hash_new s disk root parts t =
    if leb t.size s.sync_verify_max
    then (elim (hash_server_file s disk root parts) [
      | ok digest ↦ ok (record t { source_checksum = digest })
      | err os_error ↦ ok (record t { status = failed; error_message = source_not_hashed })
      | err e ↦ err e
    ])
    else ok t

abbrev pub added : Transfer → List Upload → Db → Db × Transfer
added row us db =
    (record db { transfers = db.transfers ++ row ∷ []; uploads = db.uploads ++ us }, row)

module _ (s : Service) (disk : Disk) where
  -- The transactions: the slot, then the rows.
  unfoldable pub record_send :
      Db
      → Account
      → ℕ
      → ℕ
      → Root
      → List Text
      → Text
      → ℕ
      → Text
      → Text
      → Result TransferError (Db × Transfer)
  record_send db account pk id root parts name size source request_id = do
    acquire_transfer_slot s db
    safe ← safe_filename s.deployment name
    let t = record (new_row s pk account send name size root (parent_parts parts ++ name ∷ [])) {
      source_checksum = source;
      request_id = take 128 request_id;
      upload_session = some id;
      staging_path = disk.send_root ++ (disk.staging_prefix id ++ safe) ∷ [];
    }
    ok (added t (new_upload account id t ∷ []) db)

  unfoldable pub record_receive :
      Db → Account → ℕ → Root → List Text → Text → ℕ → Result TransferError (Db × Transfer)
  record_receive db account pk root parts name size = do
    acquire_transfer_slot s db
    t ← hash_new s disk root parts (new_row s pk account receive name size root parts)
    ok (added t [] db)

  unfoldable pub create_send_transfer :
      Db → Account → ℕ → ℕ → Text → Value → Text → Text → Result TransferError (Db × Transfer)
  create_send_transfer db account pk id filename total_size checksum request_id = do
    ensure_enabled s
    check_direction account send
    source ← normalize_checksum s.deployment.lower true checksum
    size ← checked_size s total_size
    name ← safe_filename s.deployment filename
    found ← exchange_file_parts s.deployment account name true
    check_entry disk found.0 found.1
    record_send db account pk id found.0 found.1 found.2 size source request_id

  unfoldable pub create_receive_transfer :
      Db → Account → ℕ → Text → Text → Result TransferError (Db × Transfer)
  create_receive_transfer db account pk source_path filename = do
    ensure_enabled s
    check_direction account receive
    let requested = if is_empty filename then source_path else filename
    raise_if (is_empty requested || has slash requested || has backslash requested) value_error
    found ← exchange_file_parts s.deployment account requested false
    content ← lift (disk.server_file found.0 found.1)
    raise_if (leb (length content) 0 || ltb s.max_transfer (length content)) value_error
    record_receive db account pk found.0 found.1 found.2 (length content)
