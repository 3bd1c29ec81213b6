-- ===== src/Uploads/Init.antt =====
-- `upload_init` of paxalia/views/uploads.py.
pub mod Laws
use paxalia_dashboard.Prelude.{
  ℕ, zero, suc, ◌+◌, ◌-◌, ◌/◌, Bool, true, false, ◌||◌, Option, none, some, List, [], ◌∷◌, ◌++◌,
  Text, is_empty, leb, ltb, if◌then◌else◌, text, pos, negsuc, to_int, Result, ok, err, ◌>>=◌, ◌>>◌,
  raise_if,
}
use paxalia_dashboard.Transfer.Model.{Upload, Account, pending, release, none_yet}
use paxalia_dashboard.Transfer.Service.{Db}
use paxalia_dashboard.Uploads.Extension.{Extensions, safe_upload_name, extension_error}

-- The settings: the extensions, the largest file, and the size of a chunk.
pub record UploadSettings : Type 0 where
  pub extensions : Extensions
  pub max_size : Option ℕ
  pub chunk_size : ℕ

-- The fields of the form.
pub record Form : Type 0 where
  pub filename : Text
  pub total_size : Option Text
  pub chunk_size : Option Text

-- `int(raw)`; a number below 0 is 0, which is refused alike.
abbrev number_of : Text → Result ℕ ℕ
number_of raw = elim (to_int (text raw)) [
  | err e ↦ err 400
  | ok (pos n) ↦ ok n
  | ok (negsuc n) ↦ ok 0
]

abbrev given : Option Text → Option Text
given none = none
given (some []) = none
given (some (c ∷ s)) = some (c ∷ s)

abbrev exceeds : ℕ → Option ℕ → Bool
exceeds n none = false
exceeds n (some bound) = ltb bound n

unfoldable pub requested_chunk : UploadSettings → Option Text → Result ℕ ℕ
requested_chunk s raw = elim (given raw) [ none ↦ ok s.chunk_size | some c ↦ number_of c ]

unfoldable pub checked_total : UploadSettings → Form → Result ℕ ℕ
checked_total s f = do
  raw ← elim (given f.total_size) [ none ↦ err 400 | some t ↦ ok t ]
  raise_if (extension_error s.extensions (safe_upload_name f.filename)) 400
  total ← number_of raw
  raise_if (leb total 0) 400
  raise_if (exceeds total s.max_size) 413
  ok total

unfoldable pub checked_chunk : UploadSettings → Option Text → Result ℕ ℕ
unfolding requested_chunk
checked_chunk s raw = do
  chunk ← requested_chunk s raw
  raise_if (leb chunk 0) 400
  raise_if (ltb s.chunk_size chunk) 413
  ok chunk

-- The row of a new session.
abbrev pub session_row : Account → ℕ → Text → ℕ → ℕ → Upload
session_row account id filename total chunk = record {
  id = id;
  uploaded_by = some account.pk;
  original_filename = filename;
  total_size = total;
  bytes_received = 0;
  chunk_size = chunk;
  total_chunks = (total + chunk - 1) / chunk;
  chunks_received = 0;
  status = pending;
  purpose = release;
  transfer_id = none;
  storage_path = [];
  error_message = none_yet;
  completed_at = none;
}

-- The new key is an argument.
unfoldable pub upload_init : UploadSettings → Account → ℕ → Form → Db → Result ℕ (Upload × Db)
unfolding checked_total checked_chunk
upload_init s account id f db = do
  raise_if (is_empty (safe_upload_name f.filename)) 400
  total ← checked_total s f
  chunk ← checked_chunk s f.chunk_size
  let u = session_row account id (safe_upload_name f.filename) total chunk
  ok (u, record db { uploads = db.uploads ++ u ∷ [] })
