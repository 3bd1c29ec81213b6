-- ===== src/Uploads/Chunk/Laws.antt =====
-- What one call of `upload_chunk` does to a session (paxalia/views/uploads.py).
use paxalia_dashboard.Prelude.{
  some_injective, ℕ, ◌≡◌, refl, sym, ◌∙◌, ap, subst, inl, inr, false, some, List, ok, err, ◌>>=◌,
  ◌>>◌, >>=-eq-ok, arith, Result-cases,
}
use paxalia_dashboard.Transfer.Model.{Upload}
use paxalia_dashboard.Transfer.Service.{Db, find_upload}
use paxalia_dashboard.Uploads.Session.{Store, Reply, owned}
use paxalia_dashboard.Uploads.Chunk.{
  Request, Reads, Faults, expected_size, chunk_faults, check_chunk, lock_upload, check_locked,
  append_chunk, first_row, locked_row_for, upload_chunk,
}
use paxalia_dashboard.Uploads.Chunk.Received.{
  IsReceiving, IsVersion, check_chunk-ok, lock_upload-ok,
}
use paxalia_dashboard.Uploads.Chunk.Steps.{
  find_upload-id, is_accepted, IsStep, kept, append_chunk-IsStep,
}

pub first_refused :
    (configured : ℕ) (r : Request) (reads : Reads) (reply : Reply)
    → first_row reads r.account >>= check_chunk configured r ≡ err reply
    → is_accepted reply ≡ false
unfolding first_row check_chunk chunk_faults
first_refused configured r reads reply e = ground arith

pub locked_refused :
    (r : Request) (reads : Reads) (index : ℕ) (db : Db) (reply : Reply)
    → locked_row_for r reads index db ≡ err reply
    → is_accepted reply ≡ false
unfolding locked_row_for lock_upload check_locked
locked_refused r reads index db reply e = ground arith

-- The row read first, as far as it was accepted.
pub first_accepted :
    (configured : ℕ) (r : Request) (reads : Reads) (index : ℕ) (chunk : List ℕ)
    → first_row reads r.account >>= check_chunk configured r ≡ ok (index, chunk)
    → (v : Upload) × (reads.first ≡ some v) × (check_chunk configured r v ≡ ok (index, chunk))
unfolding first_row owned
first_accepted configured r reads index chunk e = ground arith

checked :
    (u : Upload) (index : ℕ) (locked : Upload)
    → check_locked u index >> ok u ≡ ok locked
    → (u ≡ locked) × (locked.chunks_received ≡ index)
unfolding check_locked
checked u index locked e = ground arith

-- The locked row is the one of the table, and waits for this chunk.
pub locked_accepted :
    (r : Request) (reads : Reads) (index : ℕ) (db : Db) (locked : Upload)
    → locked_row_for r reads index db ≡ ok locked
    → (find_upload (some r.upload_id) db ≡ some locked) × (locked.chunks_received ≡ index)
unfolding locked_row_for check_locked
locked_accepted r reads index db locked e =
    let (u, found, rest) =
      >>=-eq-ok (lock_upload r.account r.upload_id reads.candidate db)
        (λ u. check_locked u index >> ok u) e in
    let (same, waits) = checked u index locked rest in
    (
      subst (λ v. find_upload (some r.upload_id) db ≡ some v) same
          (lock_upload-ok r.account r.upload_id reads.candidate db u found),
      waits,
    )

-- The size that a chunk of the first row must have is that of the locked row.
expected_size_same :
    (v u : Upload) (index : ℕ) → IsVersion v u → expected_size v index ≡ expected_size u index
unfolding expected_size
expected_size_same v u index same =
    ground (arith, same.total_size, same.chunk_size, same.total_chunks)

sent-IsStep :
    (configured : ℕ) (faults : Faults) (r : Request) (store : Store) (u v : Upload) (index : ℕ)
    (chunk : List ℕ)
    → faults.truncate_fails ≡ false
    → find_upload (some r.upload_id) store.db ≡ some u
    → IsVersion v u
    → check_chunk configured r v ≡ ok (index, chunk)
    → u.chunks_received ≡ index
    → IsReceiving u (store.temp r.upload_id)
    → IsStep r.upload_id r.chunk u store (append_chunk faults u chunk store)
sent-IsStep configured faults r store u v index chunk works row version sent waits sound =
    let (given, next, few, size) = check_chunk-ok configured r v index chunk sent in
    let id = find_upload-id r.upload_id store.db u row in
    subst (λ i. IsStep i r.chunk u store (append_chunk faults u chunk store)) id
      (append_chunk-IsStep faults r.chunk u chunk store works given
        (subst (λ i. find_upload (some i) store.db ≡ some u) (sym id) row)
        (ground (arith, version.total_chunks))
        (size ∙ expected_size_same v u index version ∙ ap (expected_size u) (sym waits))
        (subst (λ i. IsReceiving u (store.temp i)) (sym id) sound))

-- A call on a session that is receiving either is accepted and appends the chunk of the request to
-- the received content, which the row then counts, or is not accepted and leaves the row and the
-- received content alone. The first row may be outdated, and the write, the commit and the removal
-- may fail, but no exception comes before the temporary file is measured, and truncating it works.
pub upload_chunk-IsStep :
    (configured : ℕ) (faults : Faults) (reads : Reads) (r : Request) (store : Store) (u : Upload)
    → faults.early ≡ false
    → faults.truncate_fails ≡ false
    → find_upload (some r.upload_id) store.db ≡ some u
    → ((v : Upload) → reads.first ≡ some v → IsVersion v u)
    → IsReceiving u (store.temp r.upload_id)
    → IsStep r.upload_id r.chunk u store (upload_chunk configured faults reads r store)
unfolding upload_chunk
upload_chunk-IsStep configured faults reads r store u calm works row versions sound =
    elim (Result-cases (first_row reads r.account >>= check_chunk configured r)) [
      | inr (reply, e) ↦ rw e (kept (first_refused configured r reads reply e) row refl sound)
      | inl ((index, chunk), e) ↦ elim (Result-cases (locked_row_for r reads index store.db)) [
        | inr (reply, f) ↦
            rw (e, calm, f) (kept (locked_refused r reads index store.db reply f) row refl sound)
        | inl (locked, f) ↦
            let (found, waits) = locked_accepted r reads index store.db locked f in
            let (v, first, sent) = first_accepted configured r reads index chunk e in
            let same : locked ≡ u = some_injective (sym found ∙ row) in
            rw (e, calm, f)
              (subst (λ w. IsStep r.upload_id r.chunk u store (append_chunk faults w chunk store))
                (sym same)
                (sent-IsStep configured faults r store u v index chunk works row (versions v first)
                  sent (sym (ap (λ w. w.chunks_received) same) ∙ waits) sound))
      ]
    ]
