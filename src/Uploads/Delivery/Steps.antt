-- ===== src/Uploads/Delivery/Steps.antt =====
-- One chunk of a client that sends in order (paxalia/views/uploads.py).
use paxalia_dashboard.Prelude.{
  ℕ, suc, ◌+◌, ◌-◌, ◌*◌, ◌<◌, ◌≤◌, ◌≡◌, ◌∙◌, refl, sym, ap, subst, inl, inr, false, some, List,
  ◌++◌, length, ltb, pos, ok, ◌>>=◌, arith, Bool-cases,
}
use native.Mathlib.Nat.{mul-le-mul_left}
use paxalia_dashboard.Transfer.Model.{Upload, Account}
use paxalia_dashboard.Transfer.Service.{Db, find_upload, save_uploads}
use paxalia_dashboard.Uploads.Session.{
  Store, Temp, file, set_at, progress, owned, owned_upload, transfer_upload_error, send_transfer,
}
use paxalia_dashboard.Uploads.Chunk.{
  int_of, expected_size, check_chunk, chunk_faults, lock_upload, check_locked, content_of, advanced,
  append_chunk, write_chunk, first_row, locked_row_for, upload_chunk,
}
use paxalia_dashboard.Uploads.Chunk.Received.{IsReceiving, IsReceiving-advanced, is_link}
use paxalia_dashboard.Uploads.Chunk.Steps.{
  find-save_uploads, append_chunk_regular, set_at_same, find_upload-id,
}
use paxalia_dashboard.Uploads.Delivery.{Part, no_faults, fresh, request, Sendable}

-- The row's owner.
lock_upload-owned :
    (account : Account) (id : ℕ) (u v : Upload) (db : Db)
    → lock_upload account id (some u) db ≡ ok v
    → owned account (some u) ≡ some u
unfolding lock_upload owned
lock_upload-owned account id u v db e = ground arith

bytes_fit :
    (u : Upload) (t : Temp) (size : ℕ)
    → IsReceiving u t
    → u.chunks_received < u.total_chunks
    → size ≡ expected_size u u.chunks_received
    → u.bytes_received + size ≤ u.total_size
unfolding expected_size
bytes_fit u t size sound few same = elim (Bool-cases (ltb (suc u.chunks_received) u.total_chunks)) [
  | inl more ↦
      let up : u.chunk_size * suc u.chunks_received ≤ u.chunk_size * (u.total_chunks - 1) =
        mul-le-mul_left u.chunk_size (ground arith) in
      ground (arith, sound.shape, sound.counted)
  | inr last ↦
      let start : u.chunk_size * (u.total_chunks - 1) ≡ u.chunk_size * u.chunks_received =
        ap (λ n. u.chunk_size * n)
          (let index : u.total_chunks - 1 ≡ u.chunks_received = ground arith in index) in
      ground (arith, sound.shape, sound.counted)
]

check_chunk_next :
    (configured : ℕ) (account : Account) (id : ℕ) (u : Upload) (part : Part) (store : Store)
    → Sendable account id u store
    → u.chunks_received < u.total_chunks
    → int_of part.0 ≡ some (pos u.chunks_received)
    → length part.1 ≡ expected_size u u.chunks_received
    → 0 < length part.1
    → length part.1 ≤ configured
    → check_chunk configured (request account id part) u ≡ ok (u.chunks_received, part.1)
unfolding check_chunk chunk_faults
check_chunk_next configured account id u part store session few index size some_bytes few_bytes =
    let fit : u.bytes_received + length part.1 ≤ u.total_size =
      bytes_fit u (store.temp id) (length part.1) session.sound few size in
    ground (arith, session.unfinished, session.unfailed)

locked_row_for_next :
    (account : Account) (id : ℕ) (u : Upload) (part : Part) (store : Store)
    → Sendable account id u store
    → locked_row_for (request account id part) (fresh id store) u.chunks_received store.db ≡ ok u
unfolding locked_row_for check_locked
locked_row_for_next account id u part store session =
    let chain : lock_upload account id (find_upload (some id) store.db) store.db ≡ ok u =
      subst (λ o. lock_upload account id o store.db ≡ ok u) (sym session.found) session.locks in
    ground (arith, session.unfinished)

first_row_next :
    (account : Account) (id : ℕ) (u : Upload) (store : Store)
    → Sendable account id u store
    → first_row (fresh id store) account ≡ ok u
unfolding first_row
first_row_next account id u store session =
    let own = lock_upload-owned account id u u store.db session.locks in
    ground (arith, session.found)

-- The answer to the next chunk.
accepted_next :
    (configured : ℕ) (account : Account) (id : ℕ) (u : Upload) (part : Part) (store : Store)
    → Sendable account id u store
    → check_chunk configured (request account id part) u ≡ ok (u.chunks_received, part.1)
    → upload_chunk configured no_faults (fresh id store) (request account id part) store
      ≡ append_chunk no_faults u part.1 store
unfolding upload_chunk
accepted_next configured account id u part store session sent =
    let checks : first_row (fresh id store) account
          >>= check_chunk configured (request account id part)
        ≡ ok (u.chunks_received, part.1) =
      ap (λ m. m >>= check_chunk configured (request account id part))
        (first_row_next account id u store session)
      ∙ sent in
    rw (checks, locked_row_for_next account id u part store session) refl

-- Another version of the row may be sent to as well.
lock_upload-advanced :
    (account : Account) (id size : ℕ) (u : Upload) (db : Db) (us : List Upload)
    → find_upload (some id) db ≡ some u
    → find_upload (some id) (record db { uploads = us }) ≡ some (advanced u size)
    → lock_upload account id (some u) db ≡ ok u
    → lock_upload account id (some (advanced u size)) (record db { uploads = us })
      ≡ ok (advanced u size)
unfolding lock_upload owned_upload owned transfer_upload_error send_transfer
lock_upload-advanced account id size u db us before now e = ground arith

-- The store after one more chunk.
abbrev grown : Upload → List ℕ → Store → Store
grown u chunk store = record store {
  db = record store.db { uploads = save_uploads (advanced u (length chunk)) store.db.uploads };
  temp = set_at u.id (file (content_of (store.temp u.id) ++ chunk)) store.temp;
}

append_chunk-grown :
    (u : Upload) (chunk : List ℕ) (store : Store)
    → is_link (store.temp u.id) ≡ false
    → append_chunk no_faults u chunk store
      ≡ (progress false (advanced u (length chunk)), grown u chunk store)
unfolding write_chunk
append_chunk-grown u chunk store regular = append_chunk_regular no_faults u chunk store regular

Sendable-grown :
    (account : Account) (u : Upload) (chunk : List ℕ) (store : Store)
    → Sendable account u.id u store
    → u.chunks_received < u.total_chunks
    → length chunk ≡ expected_size u u.chunks_received
    → Sendable account u.id (advanced u (length chunk)) (grown u chunk store)
unfolding find_upload
Sendable-grown account u chunk store session few size =
    let new = file (content_of (store.temp u.id) ++ chunk) in
    let found = find-save_uploads (advanced u (length chunk)) u store.db.uploads session.found in
    record {
      found = found;
      sound =
          subst (IsReceiving (advanced u (length chunk))) (sym (set_at_same u.id new store.temp))
            (IsReceiving-advanced u (store.temp u.id) chunk few size session.sound);
      locks =
          lock_upload-advanced account u.id (length chunk) u store.db
            (save_uploads (advanced u (length chunk)) store.db.uploads) session.found found
            session.locks;
      unfinished = refl;
      unfailed = refl;
    }

-- One chunk sent.
pub sent_next :
    (configured : ℕ) (account : Account) (id : ℕ) (u : Upload) (part : Part) (store : Store)
    → Sendable account id u store
    → u.chunks_received < u.total_chunks
    → int_of part.0 ≡ some (pos u.chunks_received)
    → length part.1 ≡ expected_size u u.chunks_received
    → 0 < length part.1
    → length part.1 ≤ configured
    → (let next =
          (upload_chunk configured no_faults (fresh id store) (request account id part) store).1 in
        Sendable account id (advanced u (length part.1)) next
        × (content_of (next.temp id) ≡ content_of (store.temp id) ++ part.1))
sent_next configured account id u part store session few index size some_bytes few_bytes =
    let own = find_upload-id id store.db u session.found in
    let mine = subst (λ i. Sendable account i u store) (sym own) session in
    let checks =
      check_chunk_next configured account id u part store session few index size some_bytes
        few_bytes in
    let same =
      accepted_next configured account id u part store session checks
      ∙ append_chunk-grown u part.1 store mine.sound.regular in
    let new = file (content_of (store.temp u.id) ++ part.1) in
    subst
      (λ answer.
        Sendable account id (advanced u (length part.1)) answer.1
        × (content_of (answer.1.temp id) ≡ content_of (store.temp id) ++ part.1))
      (sym same)
      (subst
        (λ i.
          Sendable account i (advanced u (length part.1)) (grown u part.1 store)
          × (content_of ((grown u part.1 store).temp i) ≡ content_of (store.temp i) ++ part.1))
        own
        (
          Sendable-grown account u part.1 store mine few size,
          ap content_of (set_at_same u.id new store.temp),
        ))
