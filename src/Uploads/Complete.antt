-- ===== src/Uploads/Complete.antt =====
-- `upload_complete` of paxalia/views/uploads.py.
pub mod Laws
use paxalia_dashboard.Prelude.{
  ℕ, Bool, true, false, not, Option, none, some, List, [], ◌∷◌, ◌++◌, Text, length, ◌==◌,
  if◌then◌else◌, Result, ok, err, ◌>>=◌, ◌>>◌, raise_if,
}
use paxalia_dashboard.Transfer.Model.{
  Upload, Account, UploadStatus, upload_completed, upload_failed, is_upload_completed, Purpose,
  transfer_send, release, Message, temp_is_link, temp_missing, upload_size_mismatch, move_failed,
}
use paxalia_dashboard.Transfer.Service.{Db, save_uploads}
use paxalia_dashboard.Uploads.Session.{
  Temp, missing, file, link, Store, Reply, refused, done, set_at,
}
use paxalia_dashboard.Uploads.Chunk.{lock_upload, with_temp, content_of}

-- The directories that a finished file goes to, the name of an upload's file there (its id, a `_`
-- and its name), and the clock.
pub record Places : Type 0 where
  pub send_root : List Text
  pub incoming_root : List Text
  pub final_name : ℕ → Text → Text
  pub now : ℕ

-- What may go wrong: an exception before the file is moved, or when a failed row is saved; an
-- `OSError` of the move; an exception after it; and an error of moving the file back.
pub record CompleteFaults : Type 0 where
  pub early : Bool
  pub move : Bool
  pub commit : Bool
  pub move_back : Bool

abbrev pub final_path : Places → Upload → List Text
final_path places u = elim u.purpose [
  | transfer_send ↦ places.send_root ++ places.final_name u.id u.original_filename ∷ []
  | release ↦ places.incoming_root ++ places.final_name u.id u.original_filename ∷ []
]

abbrev failed_upload : Message → Upload → Upload
failed_upload message u = record u { status = upload_failed; error_message = message }

abbrev pub completed_upload : Places → Upload → Upload
completed_upload places u = record u {
  status = upload_completed;
  storage_path = final_path places u;
  completed_at = some places.now;
}

abbrev with_row : Upload → Store → Store
with_row row store = record store {
  db = record store.db { uploads = save_uploads row store.db.uploads };
}

abbrev fail_with : ℕ → Message → Upload → Store → Reply × Store
fail_with status message u store = (refused status, with_row (failed_upload message u) store)

-- After the move.
unfoldable pub settle_move : Places → CompleteFaults → Upload → List ℕ → Store → Reply × Store
settle_move places faults u content store =
    if not faults.commit
    then (
      done false (completed_upload places u),
      record (with_row (completed_upload places u) store) {
        temp = set_at u.id missing store.temp;
        final = set_at u.id (some content) store.final;
      },
    )
    else if faults.move_back
    then (
      refused 500,
      record store {
        temp = set_at u.id missing store.temp;
        final = set_at u.id (some content) store.final;
      },
    )
    else (refused 500, record store { final = set_at u.id none store.final })

unfoldable pub finish_upload : Places → CompleteFaults → Upload → Store → Reply × Store
unfolding settle_move
finish_upload places faults u store = elim (store.temp u.id) [
  | link c ↦ fail_with 400 temp_is_link u store
  | missing ↦ fail_with 500 temp_missing u store
  | file c ↦
      if not (length c == u.total_size)
      then fail_with 400 upload_size_mismatch u store
      else if faults.move
      then fail_with 500 move_failed u store
      else settle_move places faults u c store
]

unfoldable pub complete_locked : Places → CompleteFaults → Upload → Store → Reply × Store
unfolding finish_upload
complete_locked places faults u store =
    if is_upload_completed u.status
    then (done true u, store)
    else if not (u.chunks_received == u.total_chunks)
    then (refused 400, store)
    else finish_upload places faults u store

unfoldable pub upload_complete :
    Places → CompleteFaults → Option Upload → Account → ℕ → Store → Reply × Store
unfolding lock_upload complete_locked
upload_complete places faults candidate account id store =
    if faults.early
    then (refused 500, store)
    else elim (lock_upload account id candidate store.db) [
      | err reply ↦ (reply, store)
      | ok u ↦ complete_locked places faults u store
    ]
