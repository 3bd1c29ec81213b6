-- ===== src/Uploads/Preflight/Laws.antt =====
-- The preflights refuse nothing that the views accept (paxalia/views/uploads.py).
use paxalia_dashboard.Prelude.{
  false, [], ◌∷◌, Text, is_empty, text, to_int, pos, negsuc, Option-cases, refl, sym, ◌∙◌, ℕ, ◌≡◌,
  inl, inr, true, Option, none, some, List, Result, ok, err, ◌>>=◌, ◌>>◌, arith, Result-cases,
  Bool-cases, >>=-eq-ok, subst, >>=-eq-ok, subst,
}
use paxalia_dashboard.Transfer.Model.{Upload, Account}
use paxalia_dashboard.Transfer.Service.{Db, find_upload}
use paxalia_dashboard.Uploads.Extension.{safe_upload_name, extension_error}
use paxalia_dashboard.Uploads.Session.{Store, owned, owned_upload, transfer_upload_error}
use paxalia_dashboard.Uploads.Init.{
  UploadSettings, Form, upload_init, requested_chunk, checked_total, checked_chunk,
}
use paxalia_dashboard.Uploads.Chunk.{
  Request, Reads, Faults, check_chunk, chunk_faults, lock_upload, check_locked, upload_chunk,
  first_row, locked_row_for,
}
use paxalia_dashboard.Uploads.Chunk.Steps.{is_accepted}
use paxalia_dashboard.Uploads.Chunk.Laws.{first_refused, locked_refused, first_accepted}
use paxalia_dashboard.Uploads.Preflight.{
  bounds_preflight, chunk_preflight, total_preflight, upload_init_preflight, size_preflight,
  index_preflight, row_preflight, upload_chunk_preflight,
}

abbrev pub refusal {ℓ} : {A : Type ℓ} → Result ℕ A → Option ℕ
refusal (err status) = some status
refusal (ok a) = none

chunk_preflight-checked_chunk :
    (s : UploadSettings) (raw : Option Text) → chunk_preflight s raw ≡ refusal (checked_chunk s raw)
unfolding chunk_preflight checked_chunk requested_chunk bounds_preflight
chunk_preflight-checked_chunk s none = ground arith
chunk_preflight-checked_chunk s (some []) = ground arith
chunk_preflight-checked_chunk s (some (c ∷ raw)) = elim (Result-cases (to_int (text (c ∷ raw)))) [
  | inr (e, bad) ↦ ground arith
  | inl (negsuc n, read) ↦ ground arith
  | inl (pos n, read) ↦ ground arith
]

-- What the rest of `upload_init` refuses after the total size.
after_total : UploadSettings → Form → Result ℕ ℕ → Option ℕ
after_total s f (err status) = some status
after_total s f (ok total) = refusal (checked_chunk s f.chunk_size)

total_preflight-checked_total :
    (s : UploadSettings) (f : Form) (c : ℕ) (raw : Text)
    → f.total_size ≡ some (c ∷ raw)
    → extension_error s.extensions (safe_upload_name f.filename) ≡ false
    → total_preflight s f (c ∷ raw) ≡ after_total s f (checked_total s f)
unfolding total_preflight checked_total after_total
total_preflight-checked_total s f c raw sent plain =
    let chunk = chunk_preflight-checked_chunk s f.chunk_size in
    rw (sent, plain)
      (elim (Result-cases (to_int (text (c ∷ raw)))) [
        | inr (e, bad) ↦ ground arith
        | inl (negsuc n, read) ↦ ground arith
        | inl (pos n, read) ↦ elim (Option-cases s.max_size) [
          | inl free ↦ ground (arith, chunk)
          | inr (most, bound) ↦ ground (arith, chunk)
        ]
      ])

after_total-upload_init :
    (s : UploadSettings) (account : Account) (id : ℕ) (f : Form) (db : Db)
    → is_empty (safe_upload_name f.filename) ≡ false
    → refusal (upload_init s account id f db) ≡ after_total s f (checked_total s f)
unfolding upload_init after_total
after_total-upload_init s account id f db named = elim (Result-cases (checked_total s f)) [
  | inr (status, e) ↦ ground arith
  | inl (total, e) ↦ elim (Result-cases (checked_chunk s f.chunk_size)) [
    | inr (status, g) ↦ ground arith
    | inl (chunk, g) ↦ ground arith
  ]
]

named_preflight :
    (s : UploadSettings) (f : Form) (sent : Option Text)
    → is_empty (safe_upload_name f.filename) ≡ false
    → f.total_size ≡ sent
    → upload_init_preflight s true f ≡ after_total s f (checked_total s f)
unfolding upload_init_preflight checked_total after_total
named_preflight s f none named is = rw is refl
named_preflight s f (some []) named is = rw (is, named) refl
named_preflight s f (some (c ∷ raw)) named is =
    let agreed = total_preflight-checked_total s f c raw is in
    elim (Bool-cases (extension_error s.extensions (safe_upload_name f.filename))) [
      | inl refused ↦ ground (arith, named, is, refused)
      | inr plain ↦ ground (arith, named, is, plain, agreed plain)
    ]

-- The two validations of a new session, each written out by itself, agree: the preflight of a POST
-- refuses a form with the status with which `upload_init` would refuse it, and passes exactly the
-- forms for which `upload_init` creates a session.
pub upload_init_preflight-upload_init :
    (s : UploadSettings) (account : Account) (id : ℕ) (f : Form) (db : Db)
    → upload_init_preflight s true f ≡ refusal (upload_init s account id f db)
unfolding upload_init_preflight upload_init
upload_init_preflight-upload_init s account id f db =
    elim (Bool-cases (is_empty (safe_upload_name f.filename))) [
      | inl unnamed ↦ ground (arith, unnamed)
      | inr named ↦
          named_preflight s f f.total_size named refl
          ∙ sym (after_total-upload_init s account id f db named)
    ]

row_preflight_lem :
    (configured : ℕ) (r : Request) (u : Upload) (db : Db) (index : ℕ) (chunk : List ℕ)
    → transfer_upload_error r.account true u none db ≡ none
    → check_chunk configured r u ≡ ok (index, chunk)
    → row_preflight configured r u db ≡ none
unfolding row_preflight index_preflight size_preflight check_chunk chunk_faults
row_preflight_lem configured r u db index chunk free sent = ground arith

-- What the locks have checked.
lock_upload-free :
    (account : Account) (id : ℕ) (u v : Upload) (db : Db)
    → find_upload (some id) db ≡ some v
    → lock_upload account id (some v) db ≡ ok u
    → (owned_upload account id db ≡ some v) × (transfer_upload_error account true v none db ≡ none)
unfolding lock_upload owned_upload owned transfer_upload_error
lock_upload-free account id u v db row e = ground arith

lock_of :
    (r : Request) (reads : Reads) (index : ℕ) (db : Db) (u : Upload)
    → locked_row_for r reads index db ≡ ok u
    → (w : Upload) × (lock_upload r.account r.upload_id reads.candidate db ≡ ok w)
unfolding locked_row_for
lock_of r reads index db u e =
    let (w, locked, _) =
      >>=-eq-ok (lock_upload r.account r.upload_id reads.candidate db)
        (λ u. check_locked u index >> ok u) e in
    (w, locked)

abbrev pub unchanged : Request → Store → Reads
unchanged r store = record {
  first = find_upload (some r.upload_id) store.db;
  candidate = find_upload (some r.upload_id) store.db;
}

-- The preflight of a chunk refuses nothing that `upload_chunk` would accept while the row does not
-- change: the chunks that were received now had passed it.
pub upload_chunk-upload_chunk_preflight :
    (configured : ℕ) (faults : Faults) (r : Request) (store : Store)
    → is_accepted (upload_chunk configured faults (unchanged r store) r store).0 ≡ true
    → upload_chunk_preflight configured true true r store.db ≡ none
unfolding upload_chunk upload_chunk_preflight
upload_chunk-upload_chunk_preflight configured faults r store told =
    elim (Result-cases (first_row (unchanged r store) r.account >>= check_chunk configured r)) [
      | inr (reply, e) ↦
          absurd (ground (arith, first_refused configured r (unchanged r store) reply e))
      | inl ((index, chunk), e) ↦
          let (v, row, sent) = first_accepted configured r (unchanged r store) index chunk e in
          elim (Bool-cases faults.early) [
            | inl early ↦ absurd (ground arith)
            | inr calm ↦ elim (Result-cases (locked_row_for r (unchanged r store) index store.db)) [
              | inr (reply, g) ↦
                  absurd
                    (ground (arith, locked_refused r (unchanged r store) index store.db reply g))
              | inl (u, g) ↦
                  let (w, locked) = lock_of r (unchanged r store) index store.db u g in
                  let (own, free) =
                    lock_upload-free r.account r.upload_id w v store.db row (
                      subst (λ o. lock_upload r.account r.upload_id o store.db ≡ ok w) row
                        locked) in
                  rw own (row_preflight_lem configured r v store.db index chunk free sent)
            ]
          ]
    ]
