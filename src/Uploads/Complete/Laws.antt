-- ===== src/Uploads/Complete/Laws.antt =====
-- What `upload_complete` does with the received bytes (paxalia/views/uploads.py).
use paxalia_dashboard.Prelude.{
  some_injective, ℕ, ◌≡◌, refl, sym, ◌∙◌, ap, subst, ◌⊎◌, inl, inr, Bool, true, false, Option, some,
  List, length, ok, err, Result-cases, Bool-cases, arith,
}
use paxalia_dashboard.Transfer.Model.{Upload, Account}
use paxalia_dashboard.Transfer.Service.{Db, find_upload}
use paxalia_dashboard.Uploads.Session.{missing, file, Store, Reply, done}
use paxalia_dashboard.Uploads.Chunk.{lock_upload, content_of}
use paxalia_dashboard.Uploads.Chunk.Received.{lock_upload-ok}
use paxalia_dashboard.Uploads.Chunk.Steps.{find_upload-id, find-save_uploads}
use paxalia_dashboard.Uploads.Complete.{
  Places, CompleteFaults, completed_upload, settle_move, finish_upload, complete_locked,
  upload_complete,
}

-- The bytes are in the temporary file, or at their final place.
abbrev pub AreKept : ℕ → List ℕ → Store → Type 0
AreKept id bytes store = (store.temp id ≡ file bytes) ⊎ (store.final id ≡ some bytes)

complete_locked-AreKept :
    (places : Places) (faults : CompleteFaults) (u : Upload) (bytes : List ℕ) (store : Store)
    → store.temp u.id ≡ file bytes
    → AreKept u.id bytes (complete_locked places faults u store).1
unfolding complete_locked finish_upload settle_move
complete_locked-AreKept places faults u bytes store held = ground arith

-- Whatever fails in a completion, the received bytes are not lost: they are in the temporary file, or
-- at their final place.
pub upload_complete-AreKept :
    (places : Places) (faults : CompleteFaults) (candidate : Option Upload) (account : Account)
    (id : ℕ) (store : Store) (bytes : List ℕ)
    → store.temp id ≡ file bytes
    → AreKept id bytes (upload_complete places faults candidate account id store).1
unfolding upload_complete
upload_complete-AreKept places faults candidate account id store bytes held =
    elim (Bool-cases faults.early) [
      | inl early ↦ rw early (inl held)
      | inr calm ↦ elim (Result-cases (lock_upload account id candidate store.db)) [
        | inr (reply, e) ↦ rw (calm, e) (inl held)
        | inl (u, e) ↦
            let same =
              find_upload-id id store.db u (lock_upload-ok account id candidate store.db u e) in
            rw (calm, e)
              (subst (λ i. AreKept i bytes (complete_locked places faults u store).1) same
                (complete_locked-AreKept places faults u bytes store
                  (subst (λ i. store.temp i ≡ file bytes) (sym same) held)))
      ]
    ]

-- What a completion that succeeds has done.
pub record IsCompleted (places : Places) (id : ℕ) (u w : Upload) (before after : Store)
    : Type 0 where
  pub answer : w ≡ completed_upload places u
  pub row : find_upload (some id) after.db ≡ some w
  pub moved : after.final id ≡ some (content_of (before.temp id))
  pub size : length (content_of (before.temp id)) ≡ u.total_size
  pub emptied : after.temp id ≡ missing

-- A completion that finds the file and moves it.
done_locked :
    (places : Places) (faults : CompleteFaults) (u w : Upload) (store : Store)
    → (complete_locked places faults u store).0 ≡ done false w
    → (bytes : List ℕ) × (store.temp u.id ≡ file bytes)
      × (length bytes ≡ u.total_size)
      × (faults.commit ≡ false)
      × (complete_locked places faults u store ≡ settle_move places faults u bytes store)
unfolding complete_locked finish_upload settle_move
done_locked places faults u w store e =
    (content_of (store.temp u.id), ground arith, ground arith, ground arith, ground arith)

settled-IsCompleted :
    (places : Places) (faults : CompleteFaults) (u w : Upload) (bytes : List ℕ) (store : Store)
    → faults.commit ≡ false
    → find_upload (some u.id) store.db ≡ some u
    → store.temp u.id ≡ file bytes
    → length bytes ≡ u.total_size
    → (settle_move places faults u bytes store).0 ≡ done false w
    → IsCompleted places u.id u w store (settle_move places faults u bytes store).1
unfolding settle_move find_upload
settled-IsCompleted places faults u w bytes store works row held size e =
    let answer : w ≡ completed_upload places u = ground arith in
    record {
      answer = answer;
      row =
          rw (works, answer) (find-save_uploads (completed_upload places u) u store.db.uploads row);
      moved = ground arith;
      size = ap length (ap content_of held) ∙ size;
      emptied = ground arith;
    }

locked-IsCompleted :
    (places : Places) (faults : CompleteFaults) (u w : Upload) (store : Store)
    → find_upload (some u.id) store.db ≡ some u
    → (complete_locked places faults u store).0 ≡ done false w
    → IsCompleted places u.id u w store (complete_locked places faults u store).1
locked-IsCompleted places faults u w store row e =
    let (bytes, held, size, works, same) = done_locked places faults u w store e in
    subst (λ answer. IsCompleted places u.id u w store answer.1) (sym same)
      (settled-IsCompleted places faults u w bytes store works row held size
        (sym (ap (λ answer. answer.0) same) ∙ e))

abbrev is_done : Reply → Bool
is_done (done again u) = true
is_done _ = false

lock_refused :
    (account : Account) (id : ℕ) (candidate : Option Upload) (db : Db) (reply : Reply)
    → lock_upload account id candidate db ≡ err reply
    → is_done reply ≡ false
unfolding lock_upload
lock_refused account id candidate db reply e = ground arith

-- Only the locked part of a completion answers so.
done_after_lock :
    (places : Places) (faults : CompleteFaults) (candidate : Option Upload) (account : Account)
    (id : ℕ) (store : Store) (w : Upload)
    → (upload_complete places faults candidate account id store).0 ≡ done false w
    → (v : Upload) × (lock_upload account id candidate store.db ≡ ok v)
      × (upload_complete places faults candidate account id store
          ≡ complete_locked places faults v store)
unfolding upload_complete
done_after_lock places faults candidate account id store w e = elim (Bool-cases faults.early) [
  | inl early ↦ absurd (ground arith)
  | inr calm ↦ elim (Result-cases (lock_upload account id candidate store.db)) [
    | inr (reply, f) ↦ absurd (ground (arith, lock_refused account id candidate store.db reply f))
    | inl (v, f) ↦ (v, f, rw (calm, f) refl)
  ]
]

-- A completion answers that it has completed the upload only if the received bytes, as many as were
-- declared, now are the file at the final place that the completed row names, and the temporary file
-- is gone.
pub upload_complete-IsCompleted :
    (places : Places) (faults : CompleteFaults) (candidate : Option Upload) (account : Account)
    (id : ℕ) (store : Store) (u w : Upload)
    → find_upload (some id) store.db ≡ some u
    → (upload_complete places faults candidate account id store).0 ≡ done false w
    → IsCompleted places id u w store (upload_complete places faults candidate account id store).1
upload_complete-IsCompleted places faults candidate account id store u w row e =
    let (v, f, same) = done_after_lock places faults candidate account id store w e in
    let found = lock_upload-ok account id candidate store.db v f in
    let one : v ≡ u = some_injective (sym found ∙ row) in
    let own = find_upload-id id store.db v found in
    subst
      (λ x.
        IsCompleted places id x w store
          (upload_complete places faults candidate account id store).1)
      one
      (subst (λ answer. IsCompleted places id v w store answer.1) (sym same)
        (subst (λ i. IsCompleted places i v w store (complete_locked places faults v store).1) own
          (locked-IsCompleted places faults v w store
            (subst (λ i. find_upload (some i) store.db ≡ some v) (sym own) found)
            (sym (ap (λ answer. answer.0) same) ∙ e))))
