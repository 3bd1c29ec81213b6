-- ===== src/Uploads/Preflight.antt =====
-- The validations that run before the gate of the administrator session: `_upload_init_preflight` and
-- `_upload_chunk_preflight` of paxalia/views/uploads.py.
pub mod Laws
use paxalia_dashboard.Prelude.{
  ℕ, ◌+◌, ◌-◌, ◌*◌, ◌<◌, ◌≡◌, ◌↔◌, refl, inl, inr, Bool, true, false, ◌&&◌, ◌||◌, not, Option, none,
  some, List, [], ◌∷◌, Text, length, is_empty, leb, ltb, ◌==◌, if◌then◌else◌, ℤ, pos, negsuc, text,
  to_int, Result, ok, err, ◌>>=◌, ◌>>◌, raise_if, arith, Result-cases, Option-cases, Bool-cases,
}
use paxalia_dashboard.Transfer.Model.{Upload, Account}
use paxalia_dashboard.Transfer.Service.{Db, find_upload}
use paxalia_dashboard.Uploads.Session.{Store, Reply, owned, owned_upload, transfer_upload_error}
use paxalia_dashboard.Uploads.Extension.{safe_upload_name, extension_error}
use paxalia_dashboard.Uploads.Init.{UploadSettings, Form}
use paxalia_dashboard.Uploads.Chunk.{
  Request, Reads, Faults, expected_size, int_of, check_chunk, chunk_faults, lock_upload,
  upload_chunk, first_row, locked_row_for,
}

-- The last tests, on the size of the chunks.
unfoldable pub bounds_preflight : ℕ → ℤ → Option ℕ
bounds_preflight configured (negsuc n) = some 400
bounds_preflight configured (pos chunk) =
    if chunk == 0 then some 400 else if ltb configured chunk then some 413 else none

-- The part on the chunk size; an empty field counts as none.
unfoldable pub chunk_preflight : UploadSettings → Option Text → Option ℕ
unfolding bounds_preflight
chunk_preflight s none = bounds_preflight s.chunk_size (pos s.chunk_size)
chunk_preflight s (some []) = bounds_preflight s.chunk_size (pos s.chunk_size)
chunk_preflight s (some (c ∷ raw)) = elim (to_int (text (c ∷ raw))) [
  | err e ↦ some 400
  | ok chunk ↦ bounds_preflight s.chunk_size chunk
]

-- The part on the whole size.
unfoldable pub total_preflight : UploadSettings → Form → Text → Option ℕ
unfolding chunk_preflight
total_preflight s f raw = elim (to_int (text raw)) [
  | err e ↦ some 400
  | ok (negsuc n) ↦ some 400
  | ok (pos total) ↦
      let rest = chunk_preflight s f.chunk_size in
      if total == 0
      then some 400
      else elim s.max_size [ none ↦ rest | some most ↦ if ltb most total then some 413 else rest ]
]

-- `_upload_init_preflight`: the status of the refusal, if there is one. The source writes the tests
-- of `upload_init` out again, and so does this.
unfoldable pub upload_init_preflight : UploadSettings → Bool → Form → Option ℕ
unfolding total_preflight
upload_init_preflight s is_post f =
    let filename = safe_upload_name f.filename in
    if not is_post then none else elim f.total_size [
      | none ↦ some 400
      | some raw ↦
          if is_empty filename || is_empty raw
          then some 400
          else if extension_error s.extensions filename
          then some 400
          else total_preflight s f raw
    ]

-- The sizes of a chunk whose index is in range.
unfoldable pub size_preflight : ℕ → Upload → ℕ → List ℕ → Option ℕ
unfolding expected_size
size_preflight configured u index chunk =
    if expected_size u index == 0
      || not (length chunk == expected_size u index)
      || ltb configured (length chunk)
    then some 413
    else if ltb index u.chunks_received
    then none
    else if ltb u.total_size (u.bytes_received + length chunk)
    then some 413
    else none

unfoldable pub index_preflight : ℕ → Upload → Text → List ℕ → Option ℕ
unfolding size_preflight
index_preflight configured u raw chunk = elim (int_of raw) [
  | none ↦ none
  | some (negsuc n) ↦ none
  | some (pos index) ↦
      if leb u.total_chunks index then none else size_preflight configured u index chunk
]

-- The part for an upload of this account. Without an index or a chunk there is nothing to check.
unfoldable pub row_preflight : ℕ → Request → Upload → Db → Option ℕ
unfolding index_preflight transfer_upload_error
row_preflight configured r u db = elim (transfer_upload_error r.account true u none db) [
  | some status ↦ some status
  | none ↦ elim r.chunk_index [
    | none ↦ none
    | some raw ↦ elim r.chunk [ none ↦ none | some chunk ↦ index_preflight configured u raw chunk ]
  ]
]

-- `_upload_chunk_preflight`
unfoldable pub upload_chunk_preflight : ℕ → Bool → Bool → Request → Db → Option ℕ
unfolding owned_upload row_preflight
upload_chunk_preflight configured is_post is_authenticated r db =
    if not is_post || not is_authenticated
    then none
    else elim (owned_upload r.account r.upload_id db) [
      | none ↦ none
      | some u ↦ row_preflight configured r u db
    ]
