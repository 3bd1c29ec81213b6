-- ===== src/Transfer/Service.antt =====
-- What the operations of paxalia/transfer_center/service.py share: the store of rows, the disk, the
-- checks at the head of each operation, and the safe staging path of
-- paxalia/transfer_center/policy.py.
use paxalia_dashboard.Prelude.{
  ℕ, min, Bool, false, ◌&&◌, ◌||◌, not, Option, none, some, List, [], ◌∷◌, ◌++◌, Text, codes,
  is_empty, find, length, leb, ltb, ◌==◌, if◌then◌else◌, Result, ok, err, ◌>>=◌, ◌>>◌, raise_if,
  count,
}
use paxalia_dashboard.ServerFiles.Error.{Error}
use paxalia_dashboard.ServerFiles.Access.{Root, has_capability, strip_prefix}
use paxalia_dashboard.Transfer.Model.{
  Transfer, Upload, Account, TransferError, permission_denied, value_error, Status, Direction, send,
  receive, is_active, is_upload_completed, same_key, verifying, transferring, preparing,
}
use paxalia_dashboard.Transfer.Exchange.{Deployment, parts_eq}

-- The two tables.
pub record Db : Type 0 where
  pub transfers : List Transfer
  pub uploads : List Upload

-- The answers of the settings and of the clock during one call; `sha256` is the hash of a content.
pub record Service : Type 0 where
  pub deployment : Deployment
  pub enabled : Bool
  pub now : ℕ
  pub expiration_hours : ℕ
  pub max_concurrent : ℕ
  pub max_transfer : ℕ
  pub chunk : ℕ
  pub max_retries : ℕ
  pub sync_verify_max : ℕ
  pub allow_large_promotion : Bool
  pub sha256 : List ℕ → Text

-- The staging area and the served files. A regular file is its content; `temp_name` is the name of
-- an upload's temporary file, ".upload-" and its id.
pub record Disk : Type 0 where
  pub send_root : List Text
  pub receive_root : List Text
  pub is_link : List Text → Bool
  pub resolve : List Text → List Text
  pub staged : List Text → Option (List ℕ)
  pub temp_name : ℕ → Text
  -- `str(id) + "_"`
  pub staging_prefix : ℕ → Text
  -- A served file as `_open_regular_file` opens it, and whether reading it then raises an `OSError`.
  pub server_file : Root → List Text → Result Error (List ℕ)
  pub read_error : Root → List Text → Bool
  -- Whether the open exchange directory has an entry of the last name.
  pub has_entry : Root → List Text → Result Error Bool

abbrev pub hour : ℕ
hour = 3600

abbrev pub checked : Bool → Result TransferError (Unit {0})
checked allowed = raise_if (not allowed) permission_denied

unfoldable pub ensure_enabled : Service → Result TransferError (Unit {0})
ensure_enabled s = checked s.enabled

unfoldable pub check_capability : Account → Text → Result TransferError (Unit {0})
check_capability account codename = checked (has_capability account.user codename)

-- The capabilities that an operation asks for, by the direction of the transfer.
unfoldable pub check_direction : Account → Direction → Result TransferError (Unit {0})
unfolding check_capability
check_direction account send = do
  check_capability account (codes "view_transfers")
  check_capability account (codes "create_transfers")
  check_capability account (codes "upload_server_files")
check_direction account receive = do
  check_capability account (codes "view_transfers")
  check_capability account (codes "create_transfers")
  check_capability account (codes "download_server_files")

-- `actor_id != user.pk and not user.is_superuser`
unfoldable pub is_foreign : Option ℕ → Account → Bool
is_foreign actor account = not (same_key actor (some account.pk)) && not account.user.is_superuser

unfoldable pub find_transfer : ℕ → Db → Option Transfer
find_transfer pk db = find (λ t. t.pk == pk) db.transfers

unfoldable pub find_upload : Option ℕ → Db → Option Upload
find_upload none db = none
find_upload (some id) db = find (λ u. u.id == id) db.uploads

-- `row.save()`: the row with that key is replaced.
unfoldable pub save_rows : Transfer → List Transfer → List Transfer
save_rows row [] = []
save_rows row (t ∷ ts) = (if t.pk == row.pk then row else t) ∷ save_rows row ts

unfoldable pub save_uploads : Upload → List Upload → List Upload
save_uploads row [] = []
save_uploads row (u ∷ us) = (if u.id == row.id then row else u) ∷ save_uploads row us

unfoldable pub active_count : Db → ℕ
active_count db = count (λ t. is_active t.status) db.transfers

-- `_acquire_transfer_slot`, under the lock row.
unfoldable pub acquire_transfer_slot : Service → Db → Result TransferError (Unit {0})
unfolding active_count
acquire_transfer_slot s db = raise_if (leb s.max_concurrent (active_count db)) permission_denied

-- `_reject_symlink_components`: every path from below the root down to the candidate.
unfoldable pub has_link : (List Text → Bool) → List Text → List Text → Bool
has_link is_link current [] = false
has_link is_link current (p ∷ ps) =
    is_link (current ++ p ∷ []) || has_link is_link (current ++ p ∷ []) ps

unfoldable pub under_root : Disk → List Text → List Text → Option (Result TransferError (List Text))
under_root disk root path = elim (strip_prefix root path) [
  | none ↦ none
  | some [] ↦ some (err value_error)
  | some (p ∷ ps) ↦ some (if has_link disk.is_link root (p ∷ ps) then err value_error else ok path)
]

-- `safe_staging_path`
unfoldable pub safe_staging_path : Disk → List Text → Result TransferError (List Text)
unfolding under_root
safe_staging_path disk path = elim (under_root disk disk.send_root path) [
  | some r ↦ r
  | none ↦ elim (under_root disk disk.receive_root path) [ some r ↦ r | none ↦ err value_error ]
]

-- `path.is_file() and path.stat().st_size == size`
unfoldable pub has_size : Disk → List Text → ℕ → Bool
has_size disk path size = elim (disk.staged path) [
  | none ↦ false
  | some content ↦ length content == size
]

-- `storage_path and resolve(storage_path) != resolve(staging)`
unfoldable pub is_elsewhere : Disk → List Text → List Text → Bool
is_elsewhere disk storage staging =
    not (is_empty storage) && not (parts_eq (disk.resolve storage) (disk.resolve staging))

-- The status and byte count with which a send goes on, from its upload session.
unfoldable pub send_progress : Disk → Transfer → Upload → Result TransferError (Status × ℕ)
unfolding has_size is_elsewhere
send_progress disk t u =
    if is_upload_completed u.status
    then (safe_staging_path disk t.staging_path >>= λ staging.
        raise_if (not (has_size disk staging t.size)) value_error
        >> raise_if (is_elsewhere disk u.storage_path staging) value_error
        >> ok (verifying, t.size))
    else (safe_staging_path disk (disk.send_root ++ disk.temp_name u.id ∷ []) >>= λ temp.
        raise_if (ltb 0 u.chunks_received && not (has_size disk temp u.bytes_received)) value_error
        >> ok (
          if ltb 0 u.chunks_received then transferring else preparing,
          min t.size u.bytes_received,
        ))
