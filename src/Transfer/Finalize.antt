-- ===== src/Transfer/Finalize.antt =====
-- `sync_finalize_send` of paxalia/transfer_center/service.py: the staged upload is verified, copied
-- to a temporary file of the exchange, and linked to its name, which is never overwritten.
pub mod Promoted
pub mod Laws
use paxalia_dashboard.Prelude.{
  ℕ, ◌+◌, ◌*◌, Bool, true, false, ◌&&◌, ◌||◌, not, Option, none, some, List, [], ◌∷◌, Text, text_eq,
  is_empty, strip, all, leb, ltb, ◌==◌, length, if◌then◌else◌, Result, ok, err, ◌>>=◌, ◌>>◌,
  raise_if,
}
use paxalia_dashboard.ServerFiles.Error.{Error}
use paxalia_dashboard.ServerFiles.Access.{Root}
use paxalia_dashboard.Transfer.Model.{
  Transfer, Upload, Account, TransferError, permission_denied, value_error, not_found, os_error,
  server_files, Status, preparing, transferring, interrupted, verifying, completed, failed,
  Direction, send, is_terminal, is_paused, is_send, is_upload_completed, upload_completed,
  is_transfer_send, Message, none_yet, staging_reference_missing, staging_inconsistent,
  staging_missing, size_mismatch, checksum_required, checksum_mismatch, name_taken,
  exchange_unavailable, permission_was_denied, promotion_failed, same_key,
}
use paxalia_dashboard.Transfer.Exchange.{parts_eq, resolve_bound_transfer_path}
use paxalia_dashboard.Transfer.Service.{
  Db, Service, Disk, ensure_enabled, check_direction, is_foreign, find_transfer, find_upload,
  save_rows, save_uploads, safe_staging_path,
}
use paxalia_dashboard.Transfer.Control.{or_raise, fail_upload}

-- What the host does while one promotion runs. A flag beside an `OSError` says whether it is a
-- `FileNotFoundError`.
pub record Host : Type 0 where
  -- The staging file as opened, or the error of opening it.
  pub source : Result Bool (List ℕ)
  -- A Server Files error of opening the exchange directory.
  pub parent_error : Option Error
  -- An error of creating, writing, syncing or rereading the temporary file.
  pub write_error : Option Bool
  -- Whether the staging file's metadata changed during the copy.
  pub changed : Bool
  -- The bytes that rereading the temporary file gives.
  pub reread : List ℕ
  -- Whether the exchange already has an entry of that name.
  pub occupied : Bool
  -- Another error of the link, and an error of what follows it.
  pub link_error : Option Bool
  pub settle_error : Option Bool

-- A file that now stands in the exchange.
pub record Linked : Type 0 where
  pub root : Root
  pub parts : List Text
  pub content : List ℕ

-- How the promotion ends: an exception that the handler catches, one that it does not, a failure
-- that the code reports, or a completed copy. `settle` follows the link.
pub data Promotion : Type 0 where
  os_raised : Bool → Promotion
  value_raised permission_raised mismatch taken : Promotion
  escaped : TransferError → Promotion
  settle_raised : Bool → Linked → Promotion
  promoted : Text → Linked → Promotion

pub record Finalized : Type 0 where
  pub db : Db
  pub row : Transfer
  pub linked : Option Linked

abbrev is_hex : ℕ → Bool
is_hex c = (leb b'0' c && leb c b'9') || (leb b'a' c && leb c b'f')

-- `_normalize_checksum`
unfoldable pub normalize_checksum : (Text → Text) → Bool → Text → Result TransferError Text
normalize_checksum lower optional value =
    let checksum = lower (strip value) in
    if is_empty checksum && optional
    then ok []
    else if not (length checksum == 64) || not (all is_hex checksum)
    then err value_error
    else ok checksum

abbrev pub is_finalizable : Status → Bool
is_finalizable preparing = true
is_finalizable transferring = true
is_finalizable interrupted = true
is_finalizable verifying = true
is_finalizable _ = false

unfoldable pub complete_upload : Upload → Upload
complete_upload u =
    if is_transfer_send u.purpose
    then record u { status = upload_completed; storage_path = [] }
    else u

-- From the link on.
unfoldable pub link_temp : Host → Text → Linked → Promotion
link_temp h digest linked = if h.occupied then taken else elim h.link_error [
  | some missing ↦ os_raised missing
  | none ↦ elim h.settle_error [
    | some missing ↦ settle_raised missing linked
    | none ↦ promoted digest linked
  ]
]

-- From the temporary file on; the digests are those of the bytes read and of the bytes reread.
unfoldable pub copy_to_temp : Service → Host → Transfer → List ℕ → Root → List Text → Promotion
unfolding link_temp
copy_to_temp s h t content root parts = elim h.parent_error [
  | some e ↦ escaped (server_files e)
  | none ↦ elim h.write_error [
    | some missing ↦ os_raised missing
    | none ↦
        if h.changed
        then value_raised
        else if not (text_eq (s.sha256 content) t.source_checksum)
            || not (text_eq (s.sha256 h.reread) (s.sha256 content))
        then mismatch
        else link_temp h (s.sha256 h.reread)
            (record { root = root; parts = parts; content = h.reread })
  ]
]

abbrev caught : TransferError → Promotion
caught permission_denied = permission_raised
caught value_error = value_raised
caught os_error = os_raised false
caught e = escaped e

unfoldable pub promote : Service → Host → Transfer → Account → Promotion
promote s h t account = elim h.source [
  | err missing ↦ os_raised missing
  | ok content ↦
      if not (length content == t.size)
      then value_raised
      else elim (resolve_bound_transfer_path s.deployment t account true) [
        | err e ↦ caught e
        | ok found ↦ copy_to_temp s h t content found.0 found.1
      ]
]

-- The row that each outcome writes.
abbrev pub failed_row : Service → Message → Transfer → Transfer
failed_row s message t = record t { status = failed; error_message = message; updated_at = s.now }

abbrev completed_row : Service → Text → Transfer → Transfer
completed_row s digest t = record t {
  destination_checksum = digest;
  status = completed;
  completed_at = some s.now;
  error_message = none_yet;
  bytes_transferred = t.size;
  updated_at = s.now;
}

abbrev pub verifying_row : Service → Transfer → Transfer
verifying_row s t = record t { status = verifying; error_message = none_yet; updated_at = s.now }

abbrev os_message : Bool → Message
os_message true = exchange_unavailable
os_message false = promotion_failed

abbrev pub saved : Transfer → Upload → Option Linked → Db → Finalized
saved row u linked db = record {
  db = record db { transfers = save_rows row db.transfers; uploads = save_uploads u db.uploads };
  row = row;
  linked = linked;
}

unfoldable pub settle :
    Service → Db → Transfer → Upload → Promotion → Result TransferError Finalized
unfolding fail_upload complete_upload
settle s db t u (os_raised missing) = ok (saved (failed_row s (os_message missing) t) u none db)
settle s db t u value_raised = ok (saved (failed_row s promotion_failed t) u none db)
settle s db t u permission_raised = ok (saved (failed_row s permission_was_denied t) u none db)
settle s db t u mismatch = ok (
    saved (record (failed_row s checksum_mismatch t) { destination_checksum = [] })
      (fail_upload checksum_mismatch u) none db)
settle s db t u taken =
    ok (saved (record (failed_row s name_taken t) { destination_checksum = [] }) u none db)
settle s db t u (escaped e) = err e
settle s db t u (settle_raised missing linked) =
    ok (saved (failed_row s (os_message missing) t) u (some linked) db)
settle s db t u (promoted digest linked) =
    ok (saved (completed_row s digest t) (complete_upload u) (some linked) db)

-- The tests on the staged upload, in order; the last one leads to the promotion.
unfoldable pub staging_fault : Disk → Transfer → Upload → List Text → Option Message
staging_fault disk t u staging =
    if is_empty u.storage_path
    then some staging_reference_missing
    else if not (parts_eq (disk.resolve u.storage_path) (disk.resolve staging))
    then some staging_inconsistent
    else elim (disk.staged staging) [
      | none ↦ some staging_missing
      | some content ↦
          if not (length content == t.size)
          then some size_mismatch
          else if is_empty t.source_checksum
          then some checksum_required
          else none
    ]

unfoldable pub verify_staged :
    Service → Disk → Host → Db → Transfer → Upload → Account → Bool → Result TransferError Finalized
unfolding staging_fault fail_upload
verify_staged s disk h db t u account allow_large =
    safe_staging_path disk t.staging_path >>= λ staging. elim (staging_fault disk t u staging) [
      | some message ↦ ok (saved (failed_row s message t) (fail_upload message u) none db)
      | none ↦
          if ltb s.sync_verify_max t.size && not (allow_large || s.allow_large_promotion)
          then ok (saved (verifying_row s t) u none db)
          else settle s db (verifying_row s t) u (promote s h (verifying_row s t) account)
    ]

abbrev pub with_checksum : Option Text → Transfer → Transfer
with_checksum none t = t
with_checksum (some []) t = t
with_checksum (some (c ∷ cs)) t = record t { source_checksum = c ∷ cs }

-- The submitted checksum is optional; so is an empty one.
unfoldable pub submitted : Service → Option Text → Result TransferError (Option Text)
unfolding normalize_checksum
submitted s none = ok none
submitted s (some value) = normalize_checksum s.deployment.lower true value >>= λ c. ok (some c)

-- A terminal row is handed back as it is.
abbrev pub already : Db → Transfer → Result TransferError Finalized
already db t = ok (record { db = db; row = t; linked = none })

module _ (s : Service) (disk : Disk) (h : Host) where
  unfoldable pub finalize_locked :
      Db → Transfer → Account → Option Text → Bool → Result TransferError Finalized
  finalize_locked db t account checksum allow_large = do
    raise_if (is_paused t.status) value_error
    raise_if (not (is_finalizable t.status)) value_error
    u ← or_raise (find_upload t.upload_session db) value_error
    raise_if (not (is_upload_completed u.status)) value_error
    raise_if (not (same_key u.uploaded_by t.actor) && not account.user.is_superuser)
        permission_denied
    sum ← submitted s checksum
    verify_staged s disk h db (with_checksum sum t) u account allow_large

  unfoldable pub sync_finalize_send :
      Db → ℕ → Account → Option Text → Bool → Result TransferError Finalized
  sync_finalize_send db pk account checksum allow_large = do
    ensure_enabled s
    check_direction account send
    t ← or_raise (find_transfer pk db) value_error
    raise_if (not (is_send t.direction)) value_error
    raise_if (is_foreign t.actor account) permission_denied
    if is_terminal t.status then already db t else finalize_locked db t account checksum allow_large
