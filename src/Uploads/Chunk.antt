-- ===== src/Uploads/Chunk.antt =====
-- `upload_chunk` of paxalia/views/uploads.py.
pub mod Received
pub mod Steps
pub mod Laws
use paxalia_dashboard.Prelude.{
  ℕ, suc, ◌+◌, ◌-◌, ◌*◌, Bool, true, false, ◌&&◌, ◌||◌, not, Option, none, some, List, [], ◌∷◌,
  ◌++◌, Text, length, take, ltb, leb, ◌==◌, if◌then◌else◌, Value, text, to_int, ℤ, pos, negsuc,
  Result, ok, err, ◌>>=◌, ◌>>◌, raise_if,
}
use paxalia_dashboard.Transfer.Model.{
  Transfer, Upload, Account, UploadStatus, uploading, is_upload_completed, is_upload_failed,
  is_transfer_send, same_key,
}
use paxalia_dashboard.Transfer.Service.{Db, save_uploads}
use paxalia_dashboard.Transfer.Control.{or_raise}
use paxalia_dashboard.Uploads.Session.{
  Temp, missing, file, link, Store, Reply, refused, progress, owned, owned_upload, send_transfer,
  transfer_upload_error, set_at,
}

-- The request: the form's chunk index, and the content of the chunk.
pub record Request : Type 0 where
  pub account : Account
  pub upload_id : ℕ
  pub chunk_index : Option Text
  pub chunk : Option (List ℕ)

-- The reads without a lock, which other requests may outdate: the upload before the transaction, and
-- the candidate inside it.
pub record Reads : Type 0 where
  pub first : Option Upload
  pub candidate : Option Upload

-- What may go wrong: an exception in the transaction before the temporary file is measured; one when
-- the file is opened (false), or that stops the write after some bytes, or the commit after all of
-- them (true); and the failure of the two ways of undoing the write.
pub record Faults : Type 0 where
  pub early : Bool
  pub write : Option (Bool × ℕ)
  pub truncate_fails : Bool
  pub remove_fails : Bool

-- `int(raw)` of a form field.
abbrev pub int_of : Text → Option ℤ
int_of s = elim (to_int (text s)) [ ok z ↦ some z | err e ↦ none ]

-- The size that the chunk of this index must have, or 0 for one that cannot be.
unfoldable pub expected_size : Upload → ℕ → ℕ
expected_size u index =
    if ltb index (u.total_chunks - 1)
    then u.chunk_size
    else u.total_size - u.chunk_size * (u.total_chunks - 1)

unfoldable pub chunk_faults : ℕ → Upload → ℕ → List ℕ → Result Reply (Unit {0})
unfolding expected_size
chunk_faults configured u index chunk = do
  raise_if
      (expected_size u index == 0
        || not (length chunk == expected_size u index)
        || ltb configured (length chunk))
      (refused 413)
  raise_if (ltb u.total_size (u.bytes_received + length chunk)) (refused 413)

-- The checks on the row read first; they give the index, which is the next one, and the chunk.
unfoldable pub check_chunk : ℕ → Request → Upload → Result Reply (ℕ × List ℕ)
unfolding chunk_faults
check_chunk configured r u = do
  raise_if (is_upload_completed u.status) (refused 400)
  raise_if (is_upload_failed u.status) (refused 409)
  raw ← elim r.chunk_index [ none ↦ err (refused 400) | some raw ↦ ok raw ]
  chunk ← elim r.chunk [ none ↦ err (refused 400) | some c ↦ ok c ]
  number ← elim (int_of raw) [ none ↦ err (refused 400) | some z ↦ ok z ]
  index ← elim number [ negsuc n ↦ err (refused 400) | pos n ↦ ok n ]
  raise_if (leb u.total_chunks index) (refused 400)
  raise_if (ltb index u.chunks_received) (progress true u)
  raise_if (ltb u.chunks_received index) (refused 409)
  chunk_faults configured u index chunk
  ok (index, chunk)

abbrev given_transfer : Upload → Db → Option Transfer
given_transfer u db = if is_transfer_send u.purpose then send_transfer u.transfer_id db else none

-- Whether the locked row is of another transfer than the candidate.
abbrev is_changed : Option Transfer → Upload → Bool
is_changed none u = false
is_changed (some t) u = not (same_key u.transfer_id (some t.pk))

abbrev pub no_fault : Option ℕ → Result Reply (Unit {0})
no_fault none = ok tt
no_fault (some status) = err (refused status)

-- The transfer and the upload under their locks.
unfoldable pub lock_upload : Account → ℕ → Option Upload → Db → Result Reply Upload
unfolding owned owned_upload send_transfer transfer_upload_error
lock_upload account id candidate db = do
  before ← elim (owned account candidate) [ none ↦ err (refused 404) | some u ↦ ok u ]
  locked ← elim (owned_upload account id db) [ none ↦ err (refused 404) | some u ↦ ok u ]
  raise_if (is_changed (given_transfer before db) locked) (refused 409)
  no_fault (transfer_upload_error account true locked (given_transfer before db) db)
  ok locked

unfoldable pub check_locked : Upload → ℕ → Result Reply (Unit {0})
check_locked locked index = do
  raise_if (is_upload_completed locked.status) (refused 400)
  raise_if (ltb index locked.chunks_received) (progress true locked)
  raise_if (ltb locked.chunks_received index) (refused 409)

abbrev pub content_of : Temp → List ℕ
content_of missing = []
content_of (file c) = c
content_of (link c) = c

-- The handler of an exception: the file is cut back to `previous` bytes. Opening it follows a link,
-- and removing it, where truncating fails and it was empty, does not.
unfoldable pub undo_write : Faults → ℕ → Temp → Temp
undo_write faults previous missing = missing
undo_write faults previous (link c) =
    if not faults.truncate_fails
    then link (take previous c)
    else if previous == 0 && not faults.remove_fails
    then missing
    else link c
undo_write faults previous (file c) =
    if not faults.truncate_fails
    then file (take previous c)
    else if previous == 0 && not faults.remove_fails
    then missing
    else file c

-- The row of the upload after one more chunk.
abbrev pub advanced : Upload → ℕ → Upload
advanced u size = record u {
  bytes_received = u.bytes_received + size;
  chunks_received = suc u.chunks_received;
  status = uploading;
}

abbrev pub with_temp : ℕ → Temp → Store → Store
with_temp id t store = record store { temp = set_at id t store.temp }

-- The write, and the row; `before` is the temporary file as measured.
unfoldable pub write_chunk : Faults → Upload → List ℕ → Store → Temp → Reply × Store
unfolding undo_write
write_chunk faults u chunk store before = elim faults.write [
  | some (false, written) ↦
      (refused 500, with_temp u.id (undo_write faults (length (content_of before)) before) store)
  | some (true, written) ↦ (
    refused 500,
    with_temp u.id
        (undo_write faults (length (content_of before))
          (file (content_of before ++ take written chunk)))
        store,
  )
  | none ↦ (
    progress false (advanced u (length chunk)),
    record store {
      db = record store.db { uploads = save_uploads (advanced u (length chunk)) store.db.uploads };
      temp = set_at u.id (file (content_of before ++ chunk)) store.temp;
    },
  )
]

unfoldable pub append_chunk : Faults → Upload → List ℕ → Store → Reply × Store
unfolding undo_write write_chunk
append_chunk faults u chunk store = elim (store.temp u.id) [
  | link c ↦ (refused 500, with_temp u.id (undo_write faults 0 (link c)) store)
  | before ↦ write_chunk faults u chunk store before
]

abbrev pub or_reply {ℓ} :
    {A : Type ℓ} → Store → Result Reply A → (A → Reply × Store) → Reply × Store
or_reply store (err reply) next = (reply, store)
or_reply store (ok a) next = next a

-- Without a first row there is nothing to answer about.
unfoldable pub first_row : Reads → Account → Result Reply Upload
unfolding owned
first_row reads account = elim (owned account reads.first) [
  | none ↦ err (refused 404)
  | some u ↦ ok u
]

unfoldable pub locked_row_for : Request → Reads → ℕ → Db → Result Reply Upload
unfolding lock_upload check_locked
locked_row_for r reads index db = do
  locked ← lock_upload r.account r.upload_id reads.candidate db
  check_locked locked index
  ok locked

unfoldable pub upload_chunk : ℕ → Faults → Reads → Request → Store → Reply × Store
unfolding first_row check_chunk locked_row_for append_chunk
upload_chunk configured faults reads r store =
    or_reply store (first_row reads r.account >>= check_chunk configured r) λ next.
      if faults.early
      then (refused 500, with_temp r.upload_id (undo_write faults 0 (store.temp r.upload_id)) store)
      else or_reply store (locked_row_for r reads next.0 store.db)
          λ locked. append_chunk faults locked next.1 store
