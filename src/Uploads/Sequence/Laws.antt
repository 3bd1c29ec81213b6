-- ===== src/Uploads/Sequence/Laws.antt =====
-- What sequences of `upload_chunk` calls leave in the files (paxalia/views/uploads.py).
use paxalia_dashboard.Prelude.{
  ℕ, false, Option, none, some, List, [], ◌∷◌, ◌++◌, ◌==◌, length, if◌then◌else◌, ◌≡◌, ◌⊎◌, inl,
  inr, refl, sym, ap, ◌∙◌, subst, All, All-map, ==_refl, arith, Bool-cases, ◌>>=◌, Result-cases,
}
use mathlib.Core.List.{append-nil, append_assoc}
use paxalia_dashboard.Transfer.Model.{Upload}
use paxalia_dashboard.Transfer.Service.{find_upload}
use paxalia_dashboard.Uploads.Session.{Store, Reply}
use paxalia_dashboard.Uploads.Chunk.{
  Request, Reads, Faults, upload_chunk, content_of, advanced, append_chunk, write_chunk, first_row,
  check_chunk, locked_row_for,
}
use paxalia_dashboard.Uploads.Chunk.Received.{IsReceiving, IsVersion}
use paxalia_dashboard.Uploads.Chunk.Steps.{
  is_accepted, IsStep, kept, appended, find_upload-id, find-save_uploads_other,
}
use paxalia_dashboard.Uploads.Chunk.Laws.{upload_chunk-IsStep, locked_accepted}
use paxalia_dashboard.Uploads.Sequence.{Call, upload_chunks, acknowledged}

-- What a call on another upload leaves alone.
pub record Untouched (id : ℕ) (before after : Store) : Type 0 where
  pub row : find_upload (some id) after.db ≡ find_upload (some id) before.db
  pub temp : after.temp id ≡ before.temp id

append_chunk-Untouched :
    (id : ℕ) (faults : Faults) (u : Upload) (chunk : List ℕ) (store : Store)
    → (u.id == id) ≡ false
    → Untouched id store (append_chunk faults u chunk store).1
unfolding append_chunk write_chunk find_upload
append_chunk-Untouched id faults u chunk store other = record {
  row = ground (arith, find-save_uploads_other (advanced u (length chunk)) id store.db.uploads);
  temp = ground arith;
}

pub upload_chunk-Untouched :
    (id configured : ℕ) (faults : Faults) (reads : Reads) (r : Request) (store : Store)
    → (r.upload_id == id) ≡ false
    → Untouched id store (upload_chunk configured faults reads r store).1
unfolding upload_chunk
upload_chunk-Untouched id configured faults reads r store other =
    elim (Result-cases (first_row reads r.account >>= check_chunk configured r)) [
      | inr (reply, e) ↦ rw e (record { row = refl; temp = refl })
      | inl ((index, chunk), e) ↦ elim (Bool-cases faults.early) [
        | inl early ↦ rw (e, early) (record { row = refl; temp = ground arith })
        | inr calm ↦ elim (Result-cases (locked_row_for r reads index store.db)) [
          | inr (reply, f) ↦ rw (e, calm, f) (record { row = refl; temp = refl })
          | inl (u, f) ↦
              let (found, waits) = locked_accepted r reads index store.db u f in
              let id_of_u = find_upload-id r.upload_id store.db u found in
              rw (e, calm, f)
                (append_chunk-Untouched id faults u chunk store
                  (subst (λ i. (i == id) ≡ false) (sym id_of_u) other))
        ]
      ]
    ]

-- A call on another upload, or one without an exception before the temporary file is measured, with
-- a working truncation, and with an earlier version of the row.
abbrev pub IsCalm : ℕ → Upload → Call → Type 0
IsCalm id u c =
    ((c.request.upload_id == id) ≡ false)
    ⊎ ((c.request.upload_id ≡ id)
        × (c.faults.early ≡ false)
        × (c.faults.truncate_fails ≡ false)
        × ((v : Upload) → c.reads.first ≡ some v → IsVersion v u))

-- The session after some calls: a version of the row that counts the received content.
pub record HasReceived (id : ℕ) (u : Upload) (bytes : List ℕ) (store : Store) : Type 0 where
  pub row : Upload
  pub found : find_upload (some id) store.db ≡ some row
  pub version : IsVersion u row
  pub sound : IsReceiving row (store.temp id)
  pub content : content_of (store.temp id) ≡ bytes

same-IsVersion : (u : Upload) → IsVersion u u
same-IsVersion u = record { total_size = refl; chunk_size = refl; total_chunks = refl }

later-IsVersion : (u v w : Upload) → IsVersion u v → IsVersion v w → IsVersion u w
later-IsVersion u v w a b = record {
  total_size = a.total_size ∙ b.total_size;
  chunk_size = a.chunk_size ∙ b.chunk_size;
  total_chunks = a.total_chunks ∙ b.total_chunks;
}

-- What an answer says that was received now.
abbrev received : Reply → Option (List ℕ) → List ℕ
received reply given = if is_accepted reply then (elim given [ none ↦ [] | some c ↦ c ]) else []

IsStep-HasReceived :
    (id : ℕ) (given : Option (List ℕ)) (u : Upload) (before : Store) (answer : Reply × Store)
    → IsStep id given u before answer
    → HasReceived id u (content_of (before.temp id) ++ received answer.0 given) answer.1
IsStep-HasReceived id given u before (reply, after) (kept refused row same sound) = record {
  row = u;
  found = row;
  version = same-IsVersion u;
  sound = sound;
  content = same ∙ sym (rw refused (append-nil (content_of (before.temp id))));
}
IsStep-HasReceived id given u before (reply, after) (appended sent row grown sound) = record {
  row = _;
  found = row;
  version = record { total_size = refl; chunk_size = refl; total_chunks = refl };
  sound = sound;
  content = rw sent grown;
}

-- The first call of a sequence.
call-HasReceived :
    (id configured : ℕ) (c : Call) (store : Store) (u : Upload)
    → find_upload (some id) store.db ≡ some u
    → IsReceiving u (store.temp id)
    → IsCalm id u c
    → HasReceived id u
        (content_of (store.temp id)
          ++ (if c.request.upload_id == id
              then received
                  (upload_chunk configured c.faults c.reads c.request store).0
                  c.request.chunk
              else []))
        (upload_chunk configured c.faults c.reads c.request store).1
call-HasReceived id configured c store u row sound (inl other) =
    let same = upload_chunk-Untouched id configured c.faults c.reads c.request store other in
    rw other (record {
      row = u;
      found = same.row ∙ row;
      version = same-IsVersion u;
      sound = subst (IsReceiving u) (sym same.temp) sound;
      content = ap content_of same.temp ∙ sym (append-nil (content_of (store.temp id)));
    })
call-HasReceived id configured c store u row sound (inr (mine, early, works, versions)) =
    let answer = upload_chunk configured c.faults c.reads c.request store in
    subst
      (λ i.
        HasReceived i u
          (content_of (store.temp i)
            ++ (if c.request.upload_id == i then received answer.0 c.request.chunk else []))
          answer.1)
      mine
      (rw (==_refl c.request.upload_id) (
        IsStep-HasReceived c.request.upload_id c.request.chunk u store answer (
          upload_chunk-IsStep configured c.faults c.reads c.request store u early works
            (subst (λ i. find_upload (some i) store.db ≡ some u) (sym mine) row) versions
            (subst (λ i. IsReceiving u (store.temp i)) (sym mine) sound))))

acknowledged_cons :
    (id : ℕ) (c : Call) (cs : List Call) (reply : Reply) (replies : List Reply)
    → acknowledged id (c ∷ cs) (reply ∷ replies)
      ≡ (if c.request.upload_id == id then received reply c.request.chunk else [])
        ++ acknowledged id cs replies
acknowledged_cons id c cs reply replies = elim (Bool-cases (c.request.upload_id == id)) [
  | inr other ↦ rw other refl
  | inl mine ↦ elim (Bool-cases (is_accepted reply)) [
    | inl told ↦ rw (mine, told) refl
    | inr untold ↦ rw (mine, untold) refl
  ]
]

IsCalm-later : (id : ℕ) (u v : Upload) (c : Call) → IsVersion u v → IsCalm id u c → IsCalm id v c
IsCalm-later id u v c same (inl other) = inl other
IsCalm-later id u v c same (inr (mine, early, works, versions)) =
    inr (mine, early, works, λ w first. later-IsVersion w u v (versions w first) same)

-- Whatever clients call `upload_chunk` in whatever order, on this and on other uploads, each call
-- running to its end, its handler included, before the next, the file of a session that was receiving
-- holds what it held before and then exactly the acknowledged chunks, in order, and a row
-- counts it. The calls on this upload may read an outdated row and may fail, but no exception comes
-- before the temporary file is measured, and truncating it works.
pub upload_chunks-HasReceived :
    (id configured : ℕ) (calls : List Call) (store : Store) (u : Upload)
    → find_upload (some id) store.db ≡ some u
    → IsReceiving u (store.temp id)
    → All (IsCalm id u) calls
    → HasReceived id u
        (content_of (store.temp id)
          ++ acknowledged id calls (upload_chunks configured calls store).0)
        (upload_chunks configured calls store).1
unfolding upload_chunks
upload_chunks-HasReceived id configured [] store u row sound calm = record {
  row = u;
  found = row;
  version = same-IsVersion u;
  sound = sound;
  content = sym (append-nil (content_of (store.temp id)));
}
upload_chunks-HasReceived id configured (c ∷ cs) store u row sound calm =
    let answer = upload_chunk configured c.faults c.reads c.request store in
    let first = call-HasReceived id configured c store u row sound calm.0 in
    let rest =
      upload_chunks-HasReceived id configured cs answer.1 first.row first.found first.sound
        (All-map (λ d. IsCalm-later id u first.row d first.version) cs calm.1) in
    record {
      row = rest.row;
      found = rest.found;
      version = later-IsVersion u first.row rest.row first.version rest.version;
      sound = rest.sound;
      content =
          rest.content
          ∙ ap (λ xs. xs ++ acknowledged id cs (upload_chunks configured cs answer.1).0)
              first.content
          ∙ append_assoc (content_of (store.temp id))
              (if c.request.upload_id == id then received answer.0 c.request.chunk else [])
              (acknowledged id cs (upload_chunks configured cs answer.1).0)
          ∙ ap (λ xs. content_of (store.temp id) ++ xs)
              (sym (acknowledged_cons id c cs answer.0 (upload_chunks configured cs answer.1).0));
    }
