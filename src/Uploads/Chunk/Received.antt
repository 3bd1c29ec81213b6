-- ===== src/Uploads/Chunk/Received.antt =====
-- What `upload_chunk` does to the received bytes (paxalia/views/uploads.py).
use paxalia_dashboard.Prelude.{
  ℕ, suc, ◌+◌, ◌-◌, ◌*◌, ◌≤◌, ◌<◌, ◌≡◌, refl, ◌∙◌, ap, inl, inr, ◌⊎◌, Bool, true, false, Option,
  some, List, [], ◌∷◌, ◌++◌, length, take_all, ltb, if◌then◌else◌, ok, arith, length-append,
  Bool-cases,
}
use paxalia_dashboard.Transfer.Model.{Upload, Account}
use paxalia_dashboard.Transfer.Service.{Db, find_upload}
use paxalia_dashboard.Uploads.Session.{Temp, missing, file, link, owned, owned_upload}
use paxalia_dashboard.Uploads.Chunk.{
  Request, Faults, expected_size, chunk_faults, check_chunk, lock_upload, content_of, undo_write,
  advanced,
}

-- The number of bytes before the chunk of this index.
abbrev pub bytes_before : Upload → ℕ → ℕ
bytes_before u k = if ltb k u.total_chunks then u.chunk_size * k else u.total_size

abbrev pub is_link : Temp → Bool
is_link (link c) = true
is_link _ = false

-- A session that is receiving: the temporary file is a regular one (or not there yet) that holds
-- the bytes which the row counts, and these are the chunks which the row counts.
pub record IsReceiving (u : Upload) (t : Temp) : Type 0 where
  pub shape : u.chunk_size * (u.total_chunks - 1) < u.total_size
  pub few : u.chunks_received ≤ u.total_chunks
  pub counted : u.bytes_received ≡ bytes_before u u.chunks_received
  pub stored : length (content_of t) ≡ u.bytes_received
  pub regular : is_link t ≡ false

-- An earlier version of the row: what never changes is the same.
pub record IsVersion (u v : Upload) : Type 0 where
  pub total_size : u.total_size ≡ v.total_size
  pub chunk_size : u.chunk_size ≡ v.chunk_size
  pub total_chunks : u.total_chunks ≡ v.total_chunks

pub check_chunk-ok :
    (configured : ℕ) (r : Request) (u : Upload) (index : ℕ) (chunk : List ℕ)
    → check_chunk configured r u ≡ ok (index, chunk)
    → (r.chunk ≡ some chunk)
      × (index ≡ u.chunks_received)
      × (index < u.total_chunks)
      × (length chunk ≡ expected_size u index)
unfolding check_chunk chunk_faults expected_size
check_chunk-ok configured r u index chunk e = ground arith

counted_next :
    (u : Upload) (size : ℕ)
    → u.chunks_received < u.total_chunks
    → size ≡ expected_size u u.chunks_received
    → u.bytes_received ≡ bytes_before u u.chunks_received
    → u.chunk_size * (u.total_chunks - 1) < u.total_size
    → u.bytes_received + size ≡ bytes_before u (suc u.chunks_received)
unfolding expected_size
counted_next u size few same counted shape =
    elim (Bool-cases (ltb (suc u.chunks_received) u.total_chunks)) [
      | inl more ↦ ground arith
      | inr last ↦
          let index : u.total_chunks - 1 ≡ u.chunks_received = ground arith in
          let start : u.chunk_size * (u.total_chunks - 1) ≡ u.chunk_size * u.chunks_received =
            ap (λ n. u.chunk_size * n) index in
          ground arith
    ]

-- One more chunk of the expected size.
pub IsReceiving-advanced :
    (u : Upload) (t : Temp) (chunk : List ℕ)
    → u.chunks_received < u.total_chunks
    → length chunk ≡ expected_size u u.chunks_received
    → IsReceiving u t
    → IsReceiving (advanced u (length chunk)) (file (content_of t ++ chunk))
unfolding expected_size
IsReceiving-advanced u t chunk few size sound = record {
  shape = sound.shape;
  few = few;
  counted = counted_next u (length chunk) few size sound.counted sound.shape;
  stored = length-append (content_of t) chunk ∙ ap (λ n. n + length chunk) sound.stored;
  regular = refl;
}

-- The row that the locks give is the row of the table.
pub lock_upload-ok :
    (account : Account) (id : ℕ) (candidate : Option Upload) (db : Db) (u : Upload)
    → lock_upload account id candidate db ≡ ok u
    → find_upload (some id) db ≡ some u
unfolding lock_upload owned_upload owned
lock_upload-ok account id candidate db u e = ground arith

pub IsReceiving-same_content :
    (u : Upload) (t s : Temp)
    → content_of s ≡ content_of t
    → is_link s ≡ false
    → IsReceiving u t
    → IsReceiving u s
IsReceiving-same_content u t s same regular sound = record {
  shape = sound.shape;
  few = sound.few;
  counted = sound.counted;
  stored = ap (λ c. length c) same ∙ sound.stored;
  regular = regular;
}

append_empty {ℓ} :
    {A : Type ℓ} (xs ys : List A)
    → (let none_left : List A = [] in none_left) ≡ xs ++ ys
    → (let none_left : List A = [] in none_left) ≡ xs
append_empty [] ys e = refl
append_empty (x ∷ xs) ys e = cc

pub is_regular : (t : Temp) → is_link t ≡ false → (t ≡ missing) ⊎ ((c : List ℕ) × (t ≡ file c))
is_regular missing h = inl refl
is_regular (file c) h = inr (c, refl)
is_regular (link c) h = cc

-- Undoing an interrupted write leaves the bytes that were there.
pub undo_write-content :
    (faults : Faults) (xs ys : List ℕ) (t : Temp)
    → faults.truncate_fails ≡ false
    → is_link t ≡ false
    → content_of t ≡ xs ++ ys
    → (content_of (undo_write faults (length xs) t) ≡ xs)
      × (is_link (undo_write faults (length xs) t) ≡ false)
unfolding undo_write
undo_write-content faults xs ys missing works regular e = (append_empty xs ys e, refl)
undo_write-content faults xs ys (file c) works regular e =
    rw (works, e, take_all xs ys) (refl, refl)
undo_write-content faults xs ys (link c) works regular e = absurd (ground arith)
