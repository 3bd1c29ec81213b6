-- ===== src/Uploads/Chunk/Steps.antt =====
-- The steps of a session: what `append_chunk` does to the row and to the received bytes
-- (paxalia/views/uploads.py).
use paxalia_dashboard.Prelude.{
  ℕ, ◌<◌, ◌≡◌, refl, sym, ◌∙◌, ap, subst, inl, inr, Bool, true, false, Option, some, List, [], ◌∷◌,
  ◌++◌, length, take, ◌==◌, find, find_holds, arith, Option-cases, ==_iff, ==_refl,
}
use mathlib.Core.List.{append-nil}
use paxalia_dashboard.Transfer.Model.{Upload}
use paxalia_dashboard.Transfer.Service.{Db, find_upload, save_uploads}
use paxalia_dashboard.Uploads.Session.{Temp, file, Store, Reply, refused, progress, set_at}
use paxalia_dashboard.Uploads.Chunk.{
  Faults, expected_size, content_of, undo_write, advanced, with_temp, append_chunk, write_chunk,
}
use paxalia_dashboard.Uploads.Chunk.Received.{
  IsReceiving, IsReceiving-same_content, undo_write-content, is_regular, IsReceiving-advanced,
  is_link,
}

pub find-save_uploads :
    (row u : Upload) (us : List Upload)
    → find (λ v. v.id == row.id) us ≡ some u
    → find (λ v. v.id == row.id) (save_uploads row us) ≡ some row
unfolding save_uploads
find-save_uploads row u [] e = absurd (ground arith)
find-save_uploads row u (v ∷ us) e = ground (arith, find-save_uploads row u us)

pub find-save_uploads_other :
    (row : Upload) (id : ℕ) (us : List Upload)
    → (row.id == id) ≡ false
    → find (λ v. v.id == id) (save_uploads row us) ≡ find (λ v. v.id == id) us
unfolding save_uploads
find-save_uploads_other row id [] other = refl
find-save_uploads_other row id (v ∷ us) other = ground (arith, find-save_uploads_other row id us)

pub find_upload-id : (id : ℕ) (db : Db) (u : Upload) → find_upload (some id) db ≡ some u → u.id ≡ id
unfolding find_upload
find_upload-id id db u e = (==_iff u.id id).0 (find_holds (λ v. v.id == id) db.uploads u e)

-- Whether an answer says that the chunk was received now.
abbrev pub is_accepted : Reply → Bool
is_accepted (progress false u) = true
is_accepted _ = false

-- A call on the upload `id`, whose row is `u`, leaves the received content, or appends the chunk of
-- the request to it.
pub data IsStep (id : ℕ) (given : Option (List ℕ)) (u : Upload) (before : Store)
    : Reply × Store → Type 0 where
  kept :
      {reply : Reply} {after : Store}
      → is_accepted reply ≡ false
      → find_upload (some id) after.db ≡ some u
      → content_of (after.temp id) ≡ content_of (before.temp id)
      → IsReceiving u (after.temp id)
      → IsStep id given u before (reply, after)
  appended :
      {after : Store} {chunk : List ℕ}
      → given ≡ some chunk
      → find_upload (some id) after.db ≡ some (advanced u (length chunk))
      → content_of (after.temp id) ≡ content_of (before.temp id) ++ chunk
      → IsReceiving (advanced u (length chunk)) (after.temp id)
      → IsStep id given u before (progress false (advanced u (length chunk)), after)

pub set_at_same {ℓ} : {A : Type ℓ} (id : ℕ) (a : A) (f : ℕ → A) → set_at id a f id ≡ a
set_at_same id a f = rw (==_refl id)

-- The write is undone.
undone-IsStep :
    (id : ℕ) (given : Option (List ℕ)) (u : Upload) (store : Store) (t : Temp)
    → find_upload (some id) store.db ≡ some u
    → content_of t ≡ content_of (store.temp id)
    → is_link t ≡ false
    → IsReceiving u (store.temp id)
    → IsStep id given u store (refused 500, with_temp id t store)
undone-IsStep id given u store t row same regular sound =
    kept refl row (ap content_of (set_at_same id t store.temp) ∙ same) (
      subst (IsReceiving u) (sym (set_at_same id t store.temp))
        (IsReceiving-same_content u (store.temp id) t same regular sound))

written-IsStep :
    (given : Option (List ℕ)) (u : Upload) (chunk : List ℕ) (store : Store)
    → given ≡ some chunk
    → find_upload (some u.id) store.db ≡ some u
    → u.chunks_received < u.total_chunks
    → length chunk ≡ expected_size u u.chunks_received
    → IsReceiving u (store.temp u.id)
    → IsStep u.id given u store (
      progress false (advanced u (length chunk)),
      record store {
        db = record store.db {
          uploads = save_uploads (advanced u (length chunk)) store.db.uploads;
        };
        temp = set_at u.id (file (content_of (store.temp u.id) ++ chunk)) store.temp;
      },
    )
unfolding find_upload
written-IsStep given u chunk store same row few size sound =
    let new = file (content_of (store.temp u.id) ++ chunk) in
    appended same (find-save_uploads (advanced u (length chunk)) u store.db.uploads row)
      (ap content_of (set_at_same u.id new store.temp))
      (subst (IsReceiving (advanced u (length chunk))) (sym (set_at_same u.id new store.temp))
        (IsReceiving-advanced u (store.temp u.id) chunk few size sound))

write_chunk-IsStep :
    (faults : Faults) (given : Option (List ℕ)) (u : Upload) (chunk : List ℕ) (store : Store)
    → faults.truncate_fails ≡ false
    → given ≡ some chunk
    → find_upload (some u.id) store.db ≡ some u
    → u.chunks_received < u.total_chunks
    → length chunk ≡ expected_size u u.chunks_received
    → IsReceiving u (store.temp u.id)
    → IsStep u.id given u store (write_chunk faults u chunk store (store.temp u.id))
unfolding write_chunk
write_chunk-IsStep faults given u chunk store works same row few size sound =
    let before = store.temp u.id in
    elim (Option-cases faults.write) [
      | inl e ↦ rw e (written-IsStep given u chunk store same row few size sound)
      | inr ((false, written), e) ↦
          let (content, regular) =
            undo_write-content faults (content_of before) [] before works sound.regular
              (sym (append-nil (content_of before))) in
          rw e (
            undone-IsStep u.id given u store (undo_write faults (length (content_of before)) before)
              row content regular sound)
      | inr ((true, written), e) ↦
          let (content, regular) =
            undo_write-content faults (content_of before) (take written chunk)
              (file (content_of before ++ take written chunk)) works refl refl in
          rw e (
            undone-IsStep u.id given u store
              (undo_write faults (length (content_of before))
                (file (content_of before ++ take written chunk)))
              row content regular sound)
    ]

pub append_chunk_regular :
    (faults : Faults) (u : Upload) (chunk : List ℕ) (store : Store)
    → is_link (store.temp u.id) ≡ false
    → append_chunk faults u chunk store ≡ write_chunk faults u chunk store (store.temp u.id)
unfolding append_chunk
append_chunk_regular faults u chunk store regular = elim (is_regular (store.temp u.id) regular) [
  | inl e ↦ ground arith
  | inr (c, e) ↦ ground arith
]

pub append_chunk-IsStep :
    (faults : Faults) (given : Option (List ℕ)) (u : Upload) (chunk : List ℕ) (store : Store)
    → faults.truncate_fails ≡ false
    → given ≡ some chunk
    → find_upload (some u.id) store.db ≡ some u
    → u.chunks_received < u.total_chunks
    → length chunk ≡ expected_size u u.chunks_received
    → IsReceiving u (store.temp u.id)
    → IsStep u.id given u store (append_chunk faults u chunk store)
append_chunk-IsStep faults given u chunk store works same row few size sound =
    subst (IsStep u.id given u store)
      (sym (append_chunk_regular faults u chunk store sound.regular))
      (write_chunk-IsStep faults given u chunk store works same row few size sound)
