-- ===== src/Uploads/Delivery.antt =====
-- A client that sends every chunk in order and then completes the upload, while nothing fails
-- (paxalia/views/uploads.py).
pub mod Steps
pub mod Laws
use paxalia_dashboard.Prelude.{
  some_injective, ℕ, suc, zero, ◌+◌, ◌-◌, ◌*◌, ◌<◌, ◌≤◌, ◌≡◌, ◌∙◌, refl, sym, ap, subst, inl, inr,
  Bool, true, false, Option, none, some, List, [], ◌∷◌, ◌++◌, Text, length, ltb, ◌==◌, not,
  if◌then◌else◌, find, pos, Result, ok, err, ◌>>=◌, arith, Bool-cases,
}
use native.Mathlib.Nat.{mul-le-mul_left}
use mathlib.Core.List.{append-nil, append_assoc}
use paxalia_dashboard.Transfer.Model.{Upload, Account, is_upload_completed, is_upload_failed}
use paxalia_dashboard.Transfer.Service.{Db, find_upload, save_uploads}
use paxalia_dashboard.Uploads.Session.{
  Store, Temp, missing, file, link, set_at, Reply, progress, done, owned, owned_upload,
  transfer_upload_error, transfer_fault, capability_fault, send_transfer,
}
use paxalia_dashboard.Uploads.Chunk.{
  Request, Reads, Faults, int_of, expected_size, check_chunk, chunk_faults, lock_upload,
  check_locked, content_of, advanced, append_chunk, write_chunk, first_row, locked_row_for,
  upload_chunk,
}
use paxalia_dashboard.Uploads.Chunk.Received.{
  IsReceiving, IsReceiving-advanced, IsVersion, is_link, is_regular, bytes_before,
}
use paxalia_dashboard.Uploads.Chunk.Steps.{
  find-save_uploads, append_chunk_regular, set_at_same, find_upload-id,
}
use paxalia_dashboard.Uploads.Complete.{
  Places, CompleteFaults, upload_complete, completed_upload, complete_locked, finish_upload,
  settle_move,
}

-- The text of an index, and the chunk.
abbrev pub Part : Type 0
Part = Text × List ℕ

abbrev pub no_faults : Faults
no_faults = record { early = false; write = none; truncate_fails = false; remove_fails = false }

abbrev pub no_complete_faults : CompleteFaults
no_complete_faults = record { early = false; move = false; commit = false; move_back = false }

abbrev pub fresh : ℕ → Store → Reads
fresh id store = record {
  first = find_upload (some id) store.db;
  candidate = find_upload (some id) store.db;
}

abbrev pub request : Account → ℕ → Part → Request
request account id part = record {
  account = account;
  upload_id = id;
  chunk_index = some part.0;
  chunk = some part.1;
}

-- The store after the parts were sent one after the other.
unfoldable pub deliver : ℕ → Account → ℕ → List Part → Store → Store
deliver configured account id [] store = store
deliver configured account id (part ∷ parts) store =
    deliver configured account id parts
      (upload_chunk configured no_faults (fresh id store) (request account id part) store).1

abbrev pub joined : List Part → List ℕ
joined [] = []
joined (part ∷ parts) = part.1 ++ joined parts

-- The parts are the chunks from this index to the last one.
abbrev pub IsCut : ℕ → Upload → ℕ → List Part → Type 0
IsCut configured u k [] = k ≡ u.total_chunks
IsCut configured u k (part ∷ parts) =
    (k < u.total_chunks)
    × (int_of part.0 ≡ some (pos k))
    × (length part.1 ≡ expected_size u k)
    × (0 < length part.1)
    × (length part.1 ≤ configured)
    × IsCut configured u (suc k) parts

-- A session that this account may send to.
pub record Sendable (account : Account) (id : ℕ) (u : Upload) (store : Store) : Type 0 where
  pub found : find_upload (some id) store.db ≡ some u
  pub sound : IsReceiving u (store.temp id)
  pub locks : lock_upload account id (some u) store.db ≡ ok u
  pub unfinished : is_upload_completed u.status ≡ false
  pub unfailed : is_upload_failed u.status ≡ false
