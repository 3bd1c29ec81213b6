-- ===== src/Uploads/Init/Laws.antt =====
-- A file that is uploaded from the start to the end (paxalia/views/uploads.py).
use paxalia_dashboard.Prelude.{
  ℕ, zero, suc, min, ◌+◌, ◌-◌, ◌*◌, ◌<◌, ◌≤◌, ◌≡◌, ◌∙◌, refl, sym, ap, subst, inl, inr, true, false,
  Option, none, some, List, [], ◌∷◌, ◌++◌, Text, take, drop, length, length-take, length-drop, ltb,
  ◌==◌, ==_refl, if◌then◌else◌, find, pos, ok, arith, Bool-cases, Result-cases,
}
use native.Mathlib.Nat.{mul_comm, mul-le-mul_left}
use paxalia_dashboard.Transfer.Chunks.{chunk_count}
use paxalia_dashboard.Transfer.Chunks.Laws.{chunk_count_covers}
use paxalia_dashboard.Transfer.Model.{Upload, Account, same_key}
use paxalia_dashboard.Transfer.Service.{Db, find_upload}
use paxalia_dashboard.Uploads.Session.{
  Store, missing, done, owned, owned_upload, transfer_upload_error,
}
use paxalia_dashboard.Uploads.Chunk.{content_of, int_of, expected_size, lock_upload}
use paxalia_dashboard.Uploads.Chunk.Received.{IsReceiving}
use paxalia_dashboard.Uploads.Complete.{Places, upload_complete}
use paxalia_dashboard.Uploads.Init.{
  UploadSettings, Form, checked_total, checked_chunk, session_row, upload_init,
}
use paxalia_dashboard.Uploads.Extension.{safe_upload_name}
use paxalia_dashboard.Uploads.Delivery.{Part, no_complete_faults, deliver, joined, IsCut, Sendable}
use paxalia_dashboard.Uploads.Delivery.Laws.{deliver-upload_complete}

-- `n` chunks of the content, the first with this index.
unfoldable pub cut : (ℕ → Text) → ℕ → ℕ → ℕ → List ℕ → List Part
cut print chunk k zero bytes = []
cut print chunk k (suc n) bytes =
    (print k, take chunk bytes) ∷ cut print chunk (suc k) n (drop chunk bytes)

take_and_drop : (n : ℕ) (xs : List ℕ) → take n xs ++ drop n xs ≡ xs
take_and_drop zero xs = refl
take_and_drop (suc n) [] = refl
take_and_drop (suc n) (x ∷ xs) = ap (λ ys. x ∷ ys) (take_and_drop n xs)

joined-cut :
    (print : ℕ → Text) (chunk k n : ℕ) (bytes : List ℕ)
    → length bytes ≤ n * chunk
    → joined (cut print chunk k n bytes) ≡ bytes
unfolding cut
joined-cut print chunk k zero [] few = refl
joined-cut print chunk k zero (b ∷ bytes) few = absurd (omega arith)
joined-cut print chunk k (suc n) bytes few =
    let less : length (drop chunk bytes) ≤ n * chunk = omega (arith, length-drop chunk bytes) in
    ap (λ ys. take chunk bytes ++ ys) (joined-cut print chunk (suc k) n (drop chunk bytes) less)
    ∙ take_and_drop chunk bytes

-- The chunk of this index.
chunk_at :
    (u : Upload) (k : ℕ)
    → k < u.total_chunks
    → 0 < u.chunk_size
    → u.chunk_size * (u.total_chunks - 1) < u.total_size
    → u.total_size ≤ u.total_chunks * u.chunk_size
    → (min u.chunk_size (u.total_size - u.chunk_size * k) ≡ expected_size u k)
      × (0 < min u.chunk_size (u.total_size - u.chunk_size * k))
unfolding expected_size
chunk_at u k few positive shape covers = elim (Bool-cases (ltb (suc k) u.total_chunks)) [
  | inl more ↦
      let up : u.chunk_size * suc k ≤ u.chunk_size * (u.total_chunks - 1) =
        mul-le-mul_left u.chunk_size (ground arith) in
      ground arith
  | inr last ↦
      let index : u.total_chunks ≡ suc k = ground arith in
      let start : u.chunk_size * (u.total_chunks - 1) ≡ u.chunk_size * k =
        ap (λ n. u.chunk_size * n) (let before : u.total_chunks - 1 ≡ k = ground arith in before) in
      let all : u.total_chunks * u.chunk_size ≡ u.chunk_size * suc k =
        mul_comm u.total_chunks u.chunk_size ∙ ap (λ n. u.chunk_size * n) index in
      ground arith
]

cut-IsCut :
    (print : ℕ → Text) (configured : ℕ) (u : Upload) (k n : ℕ) (bytes : List ℕ)
    → ((i : ℕ) → i < u.total_chunks → int_of (print i) ≡ some (pos i))
    → 0 < u.chunk_size
    → u.chunk_size ≤ configured
    → u.chunk_size * (u.total_chunks - 1) < u.total_size
    → u.total_size ≤ u.total_chunks * u.chunk_size
    → k + n ≡ u.total_chunks
    → length bytes ≡ u.total_size - u.chunk_size * k
    → IsCut configured u k (cut print u.chunk_size k n bytes)
unfolding cut
cut-IsCut print configured u k zero bytes reads positive small shape covers at size = omega arith
cut-IsCut print configured u k (suc n) bytes reads positive small shape covers at size =
    let few : k < u.total_chunks = omega arith in
    let (same, some_bytes) = chunk_at u k few positive shape covers in
    let taken : length (take u.chunk_size bytes)
        ≡ min u.chunk_size (u.total_size - u.chunk_size * k) =
      length-take u.chunk_size bytes ∙ ap (min u.chunk_size) size in
    let left : length (drop u.chunk_size bytes) ≡ u.total_size - u.chunk_size * suc k =
      omega (arith, length-drop u.chunk_size bytes) in
    (
      few,
      reads k few,
      taken ∙ same,
      omega arith,
      omega arith,
      cut-IsCut print configured u (suc k) n (drop u.chunk_size bytes) reads positive small shape
          covers (omega arith) left,
    )

checked_chunk-ok :
    (s : UploadSettings) (raw : Option Text) (chunk : ℕ)
    → checked_chunk s raw ≡ ok chunk
    → (0 < chunk) × (chunk ≤ s.chunk_size)
unfolding checked_chunk
checked_chunk-ok s raw chunk e = ground arith

checked_total-ok :
    (s : UploadSettings) (f : Form) (total : ℕ) → checked_total s f ≡ ok total → 0 < total
unfolding checked_total
checked_total-ok s f total e = ground arith

-- What `upload_init` has checked.
upload_init-ok :
    (s : UploadSettings) (account : Account) (id : ℕ) (f : Form) (db after : Db) (u : Upload)
    → upload_init s account id f db ≡ ok (u, after)
    → (total : ℕ) × (chunk : ℕ) × (u
        ≡ session_row account id (safe_upload_name f.filename) total chunk)
      × (after ≡ record db {
        uploads =
            db.uploads ++ session_row account id (safe_upload_name f.filename) total chunk ∷ [];
      })
      × (0 < total)
      × (0 < chunk)
      × (chunk ≤ s.chunk_size)
unfolding upload_init
upload_init-ok s account id f db after u made = elim (Result-cases (checked_total s f)) [
  | inr (status, e) ↦ absurd (ground arith)
  | inl (total, e) ↦ elim (Result-cases (checked_chunk s f.chunk_size)) [
    | inr (status, g) ↦ absurd (ground arith)
    | inl (chunk, g) ↦
        let sized = checked_chunk-ok s f.chunk_size chunk g in
        let total_sized = checked_total-ok s f total e in
        (total, chunk, ground arith, ground arith, total_sized, sized.0, sized.1)
  ]
]

find-new :
    (u : Upload) (us : List Upload)
    → find (λ v. v.id == u.id) us ≡ none
    → find (λ v. v.id == u.id) (us ++ u ∷ []) ≡ some u
find-new u [] fresh = rw (==_refl u.id)
find-new u (v ∷ us) fresh = ground (arith, find-new u us)

same_key_refl : (k : Option ℕ) → same_key k k ≡ true
same_key_refl none = refl
same_key_refl (some k) = ==_refl k

new-locks :
    (account : Account) (id total chunk : ℕ) (filename : Text) (db : Db)
    → find_upload (some id) db ≡ some (session_row account id filename total chunk)
    → lock_upload account id (some (session_row account id filename total chunk)) db
      ≡ ok (session_row account id filename total chunk)
unfolding lock_upload owned_upload owned transfer_upload_error
new-locks account id total chunk filename db row = ground (arith, row, ==_refl account.pk)

nothing_counted :
    (total chunk n : ℕ) → 0 < total → total ≤ n * chunk → 0 ≡ (if ltb 0 n then chunk * 0 else total)
nothing_counted total chunk zero positive covers = absurd (omega arith)
nothing_counted total chunk (suc n) positive covers = ground arith

new-Sendable :
    (account : Account) (id total chunk : ℕ) (filename : Text) (store : Store)
    → 0 < total
    → 0 < chunk
    → find_upload (some id) store.db ≡ none
    → store.temp id ≡ missing
    → (let u = session_row account id filename total chunk in
        Sendable account id u
          (record store { db = record store.db { uploads = store.db.uploads ++ u ∷ [] } }))
unfolding find_upload
new-Sendable account id total chunk filename store some_total some_chunk fresh no_file =
    let u = session_row account id filename total chunk in
    let found = find-new u store.db.uploads fresh in
    let (covers, needed) = chunk_count_covers total chunk some_chunk some_total in
    record {
      found = found;
      sound = subst (IsReceiving u) (sym no_file) (record {
        shape = subst (λ n. n < total) (mul_comm (chunk_count total chunk - 1) chunk) needed;
        few = omega arith;
        counted = nothing_counted total chunk (chunk_count total chunk) some_total covers;
        stored = refl;
        regular = refl;
      });
      locks =
          new-locks account id total chunk filename
            (record store.db { uploads = store.db.uploads ++ u ∷ [] }) found;
      unfinished = refl;
      unfailed = refl;
    }

-- From these tables on, the client that cuts the content into the chunks of the session, sends them
-- in order and completes the upload is told that it has completed now, and the file at the final
-- place has that content.
abbrev pub IsUploaded :
    ℕ → Places → Account → ℕ → (ℕ → Text) → List ℕ → Store → Upload → Db → Type 0
IsUploaded configured places account id print bytes store u db =
    let parts = cut print u.chunk_size 0 u.total_chunks bytes in
    let last = deliver configured account id parts (record store { db = db }) in
    let answer =
      upload_complete places no_complete_faults (find_upload (some id) last.db) account id last in
    ((w : Upload) × (answer.0 ≡ done false w)) × (answer.1.final id ≡ some bytes)

new-IsUploaded :
    (configured : ℕ) (places : Places) (account : Account) (id total chunk : ℕ) (filename : Text)
    (print : ℕ → Text) (bytes : List ℕ) (store : Store)
    → 0 < total
    → 0 < chunk
    → chunk ≤ configured
    → find_upload (some id) store.db ≡ none
    → store.temp id ≡ missing
    → length bytes ≡ total
    → ((i : ℕ) → i < chunk_count total chunk → int_of (print i) ≡ some (pos i))
    → (let u = session_row account id filename total chunk in
        IsUploaded configured places account id print bytes store u
          (record store.db { uploads = store.db.uploads ++ u ∷ [] }))
new-IsUploaded configured places account id total chunk filename print bytes store some_total
      some_chunk small fresh no_file size reads =
    let u = session_row account id filename total chunk in
    let n = chunk_count total chunk in
    let started : Store = record store {
      db = record store.db { uploads = store.db.uploads ++ u ∷ [] };
    } in
    let (covers, needed) = chunk_count_covers total chunk some_chunk some_total in
    let shape : chunk * (n - 1) < total = subst (λ m. m < total) (mul_comm (n - 1) chunk) needed in
    let pieces =
      cut-IsCut print configured u 0 n bytes reads some_chunk small shape covers (omega arith)
        (omega arith) in
    let (told, final) =
      deliver-upload_complete configured places account id u (cut print chunk 0 n bytes) started
        (new-Sendable account id total chunk filename store some_total some_chunk fresh no_file)
        pieces in
    (
      told,
      final
          ∙ ap some (
              ap (λ t. content_of t ++ joined (cut print chunk 0 n bytes)) no_file
              ∙ joined-cut print chunk 0 n bytes (omega arith)),
    )

-- A file is uploaded as it is: after `upload_init` has created a session for its size under a fresh
-- key, a client that cuts the file into chunks of the session's size, sends them in order (with
-- indices that `int()` reads back) and completes the upload is told that it has completed now, if
-- nothing fails meanwhile, and the file at the final place has the content of the file.
pub upload_init-IsUploaded :
    (s : UploadSettings) (places : Places) (account : Account) (id : ℕ) (f : Form) (store : Store)
    (u : Upload) (after : Db) (print : ℕ → Text) (bytes : List ℕ)
    → upload_init s account id f store.db ≡ ok (u, after)
    → find_upload (some id) store.db ≡ none
    → store.temp id ≡ missing
    → length bytes ≡ u.total_size
    → ((i : ℕ) → i < u.total_chunks → int_of (print i) ≡ some (pos i))
    → IsUploaded s.chunk_size places account id print bytes store u after
upload_init-IsUploaded s places account id f store u after print bytes made fresh no_file size
      reads =
    let (total, chunk, row, stored, some_total, some_chunk, small) =
      upload_init-ok s account id f store.db after u made in
    let total_is : u.total_size ≡ total = ap (λ v. v.total_size) row in
    let count_is : chunk_count total chunk ≡ u.total_chunks = sym (ap (λ v. v.total_chunks) row) in
    subst (λ v. IsUploaded s.chunk_size places account id print bytes store v after) (sym row)
      (subst
        (λ d.
          IsUploaded s.chunk_size places account id print bytes store
            (session_row account id (safe_upload_name f.filename) total chunk) d)
        (sym stored)
        (new-IsUploaded s.chunk_size places account id total chunk (safe_upload_name f.filename)
          print bytes store some_total some_chunk small fresh no_file (size ∙ total_is)
          (λ i few. reads i (subst (λ n. i < n) count_is few))))
