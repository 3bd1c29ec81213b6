-- ===== src/Transfer/Model.antt =====
-- The rows of paxalia/transfer_center/models.py and the upload row of paxalia/models.py that a send
-- transfer owns. A path on disk is kept as its components, and `[]` is the empty text; a time is a
-- number of seconds.
use paxalia_dashboard.Prelude.{ℕ, Bool, true, false, Option, none, some, List, Text, ℤ, ◌==◌}
use paxalia_dashboard.ServerFiles.Error.{Error}
use paxalia_dashboard.ServerFiles.Access.{User}

pub data Direction : Type 0 where
  send receive : Direction

pub data Status : Type 0 where
  queued preparing transferring paused interrupted verifying completed failed cancelled expired :
      Status

-- The texts of `error_message`, by what they say.
pub data Message : Type 0 where
  none_yet staging_reference_missing staging_inconsistent staging_missing size_mismatch : Message
  checksum_required checksum_mismatch name_taken exchange_unavailable permission_was_denied :
      Message
  promotion_failed client_checksum_mismatch source_not_hashed expired_message upload_expired :
      Message
  owner_gone : Message
  verification_failed was_cancelled temp_is_link temp_missing upload_size_mismatch : Message
  move_failed : Message

pub data UploadStatus : Type 0 where
  pending uploading upload_completed upload_failed : UploadStatus

pub data Purpose : Type 0 where
  release transfer_send : Purpose

-- `FileUpload`
pub record Upload : Type 0 where
  pub id : ℕ
  pub uploaded_by : Option ℕ
  pub original_filename : Text
  pub total_size : ℕ
  pub bytes_received : ℕ
  pub chunk_size : ℕ
  pub total_chunks : ℕ
  pub chunks_received : ℕ
  pub status : UploadStatus
  pub purpose : Purpose
  pub transfer_id : Option ℕ
  pub storage_path : List Text
  pub error_message : Message
  pub completed_at : Option ℕ

-- `PaxaliaTransfer`
pub record Transfer : Type 0 where
  pub pk : ℕ
  pub actor : Option ℕ
  pub direction : Direction
  pub filename : Text
  pub size : ℕ
  pub bytes_transferred : ℕ
  pub chunk_size : ℕ
  pub total_chunks : ℕ
  pub received_chunks : List ℤ
  pub server_root_id : Text
  pub server_relative_path : Text
  pub staging_path : List Text
  pub upload_session : Option ℕ
  pub status : Status
  pub source_checksum : Text
  pub destination_checksum : Text
  pub retry_count : ℕ
  pub max_retries : ℕ
  pub error_message : Message
  pub request_id : Text
  pub started_at : Option ℕ
  pub updated_at : ℕ
  pub completed_at : Option ℕ
  pub expires_at : Option ℕ

-- A user with its primary key.
pub record Account : Type 0 where
  pub pk : ℕ
  pub user : User

-- What the service raises: `PermissionDenied`, `ValueError`, and the Server Files errors that go
-- through it.
pub data TransferError : Type 0 where
  permission_denied value_error not_found already_exists os_error overflow name_error :
      TransferError
  server_files : Error → TransferError

-- `_ACTIVE_STATUSES`
abbrev pub is_active : Status → Bool
is_active queued = true
is_active preparing = true
is_active transferring = true
is_active paused = true
is_active interrupted = true
is_active verifying = true
is_active _ = false

-- `_TERMINAL_STATUSES`
abbrev pub is_terminal : Status → Bool
is_terminal completed = true
is_terminal failed = true
is_terminal cancelled = true
is_terminal expired = true
is_terminal _ = false

abbrev pub is_completed : Status → Bool
is_completed completed = true
is_completed _ = false

abbrev pub is_failed : Status → Bool
is_failed failed = true
is_failed _ = false

abbrev pub is_paused : Status → Bool
is_paused paused = true
is_paused _ = false

abbrev pub is_verifying : Status → Bool
is_verifying verifying = true
is_verifying _ = false

abbrev pub is_upload_failed : UploadStatus → Bool
is_upload_failed upload_failed = true
is_upload_failed _ = false

abbrev pub is_upload_completed : UploadStatus → Bool
is_upload_completed upload_completed = true
is_upload_completed _ = false

abbrev pub is_send : Direction → Bool
is_send send = true
is_send receive = false

abbrev pub is_transfer_send : Purpose → Bool
is_transfer_send transfer_send = true
is_transfer_send release = false

-- `a == b` on nullable keys.
abbrev pub same_key : Option ℕ → Option ℕ → Bool
same_key none none = true
same_key (some a) (some b) = a == b
same_key _ _ = false
