-- ===== src/Transfer/Maintenance/Expiry.antt =====
-- What the expiry loop of `maintenance` does to the rows (paxalia/transfer_center/service.py).
use paxalia_dashboard.Prelude.{
  ℕ, ◌≡◌, refl, sym, ap, subst, ◌∙◌, ◌⊎◌, inl, inr, Bool, true, ◌&&◌, Option, none, some, List, [],
  ◌∷◌, ◌==◌, if◌then◌else◌, find, find_holds, Bool-cases, Option-cases, arith,
}
use paxalia_dashboard.Transfer.Model.{Transfer, Upload, Message, expired, upload_expired, is_send}
use paxalia_dashboard.Transfer.Service.{Db, Service, find_transfer, find_upload, save_rows}
use paxalia_dashboard.Transfer.Maintenance.{
  Fate, counted, expire_turn, expired_row, is_expiring, locked_row, save_with_upload,
}
use paxalia_dashboard.Transfer.Lifecycle.Laws.{find-save_rows}
use paxalia_dashboard.Transfer.Lifecycle.Slots.{Unique}

find-none :
    (k : ℕ) (p : Transfer → Bool) (ts : List Transfer)
    → find (λ x. x.pk == k) ts ≡ none
    → find (λ x. (x.pk == k) && p x) ts ≡ none
find-none k p [] h = refl
find-none k p (x ∷ xs) h = ground (arith, find-none k p xs)

-- With unique keys, the row that is locked is the row of its key.
pub locked-find :
    (k : ℕ) (p : Transfer → Bool) (ts : List Transfer) (t : Transfer)
    → Unique ts
    → find (λ x. (x.pk == k) && p x) ts ≡ some t
    → find (λ x. x.pk == k) ts ≡ some t
unfolding Unique
locked-find k p [] t u h = cc
locked-find k p (x ∷ xs) t u h = elim (Bool-cases (x.pk == k)) [
  | inr other ↦ ground (arith, other, locked-find k p xs t u.1)
  | inl same ↦
      let key : x.pk ≡ k = ground (arith, same) in
      let gone : find (λ y. (y.pk == k) && p y) xs ≡ none =
        find-none k p xs (subst (λ i. find (λ y. y.pk == i) xs ≡ none) key u.0) in
      ground (arith, same, gone)
]

pub save_with_upload-transfers :
    (message : Message) (row : Transfer) (upload : Option Upload) (db : Db)
    → (save_with_upload message row upload db).transfers ≡ save_rows row db.transfers
unfolding save_with_upload
save_with_upload-transfers message row none db = refl
save_with_upload-transfers message row (some u) db = refl

-- The expiry of one key changes no row but an active one whose `expires_at` has passed, and that one
-- becomes expired (keys being unique).
pub expire_turn-is_expiring :
    (s : Service) (pk k : ℕ) (db db' : Db) (fate : Fate) (t : Transfer)
    → Unique db.transfers
    → expire_turn s pk db ≡ counted fate db'
    → find_transfer k db ≡ some t
    → (t' : Transfer) × (find_transfer k db' ≡ some t')
      × ((t' ≡ t) ⊎ ((is_expiring s.now t ≡ true) × (t'.status ≡ expired)))
unfolding expire_turn find_transfer locked_row
expire_turn-is_expiring s pk k db db' fate t u e found =
    elim (Option-cases (find (λ x. (x.pk == pk) && is_expiring s.now x) db.transfers)) [
      | inl missing ↦ absurd (ground arith)
      | inr (old, locked) ↦
          let upload = if is_send old.direction then find_upload old.upload_session db else none in
          let db_same : save_with_upload upload_expired (expired_row s.now old) upload db ≡ db' =
            ground arith in
          let written : db'.transfers ≡ save_rows (expired_row s.now old) db.transfers =
            sym (ap (λ (x : Db). x.transfers) db_same)
            ∙ save_with_upload-transfers upload_expired (expired_row s.now old) upload db in
          let after =
            ap (find (λ x. x.pk == k)) written
            ∙ find-save_rows (expired_row s.now old) t k db.transfers found in
          let holds =
            find_holds (λ x. (x.pk == pk) && is_expiring s.now x) db.transfers old locked in
          let there = locked-find pk (is_expiring s.now) db.transfers old u locked in
          elim (Bool-cases (t.pk == old.pk)) [
            | inr other ↦ (t, ground (arith, after), inl refl)
            | inl same ↦
                let key : k ≡ pk =
                  ground (arith, holds, find_holds (λ x. x.pk == k) db.transfers t found) in
                let one : old ≡ t = ground (arith, there, found) in
                (
                  expired_row s.now old,
                  ground (arith, after),
                  inr (ground (arith, holds, one), refl),
                )
          ]
    ]
