-- ===== src/Transfer/Lifecycle/Laws.antt =====
-- The status machine of a transfer (paxalia/transfer_center/service.py): what any sequence of calls
-- keeps.
use paxalia_dashboard.Prelude.{
  ℕ, ◌≡◌, ◌≤◌, refl, sym, ap, subst, ◌∙◌, ◌⊎◌, inl, inr, true, some, List, [], ◌∷◌, ◌==◌,
  if◌then◌else◌, ok, >>=-eq-ok, Bool-cases, arith, find, find_holds,
}
use paxalia_dashboard.Transfer.Model.{Transfer, Account}
use paxalia_dashboard.Transfer.Service.{Db, Service, Disk, find_transfer, save_rows}
use paxalia_dashboard.Transfer.Control.{is_settled}
use paxalia_dashboard.Transfer.Finalize.{sync_finalize_send}
use paxalia_dashboard.Transfer.Receive.{read_receive_chunk}
use paxalia_dashboard.Transfer.Lifecycle.{
  Command, pause, retry, cancel, resume_send, resume_receive, finalize, read_chunk, complete, run,
  may_move, Reaches, here, next,
}
use paxalia_dashboard.Transfer.Lifecycle.Moves.{IsSound, Moved, Keeps, Keeps-trans}
use paxalia_dashboard.Transfer.Lifecycle.Effects.{
  Wrote, Effect, pause_transfer-Effect, resume_send_transfer-Effect, resume_receive_transfer-Effect,
  retry_transfer-Effect, cancel_transfer-Effect,
}
use paxalia_dashboard.Transfer.Lifecycle.Endings.{sync_finalize_send-Effect}
use paxalia_dashboard.Transfer.Lifecycle.Receives.{
  read_receive_chunk-Effect, complete_receive-Effect,
}

pub run-Effect :
    (s : Service) (disk : Disk) (account : Account) (c : Command) (db db' : Db) (row : Transfer)
    → run s disk account c db ≡ ok (db', row)
    → (pk : ℕ) × Effect s pk db db' row
unfolding run
run-Effect s disk account (pause t) db db' row e =
    (t.pk, pause_transfer-Effect s disk db db' t row account e)
run-Effect s disk account (retry t) db db' row e =
    (t.pk, retry_transfer-Effect s disk db db' t row account e)
run-Effect s disk account (cancel t) db db' row e =
    (t.pk, cancel_transfer-Effect s disk db db' t row account e)
run-Effect s disk account (resume_send pk) db db' row e =
    (pk, resume_send_transfer-Effect s disk db db' pk row account e)
run-Effect s disk account (resume_receive pk) db db' row e =
    (pk, resume_receive_transfer-Effect s disk db db' pk row account e)
run-Effect s disk account (complete t sum) db db' row e =
    (t.pk, complete_receive-Effect s disk db db' t row account sum e)
run-Effect s disk account (finalize pk sum large h) db db' row e =
    let (f, made, e1) = >>=-eq-ok (sync_finalize_send s disk h db pk account sum large) _ e in
    let same_db : f.db ≡ db' = ground arith in
    let same_row : f.row ≡ row = ground arith in
    (
      pk,
      subst (λ x. Effect s pk db x row) same_db
          (subst (λ x. Effect s pk db f.db x) same_row
            (sync_finalize_send-Effect s disk h db pk account sum large f made)),
    )
run-Effect s disk account (read_chunk t index) db db' row e =
    let (out, made, e1) = >>=-eq-ok (read_receive_chunk s disk db t account index) _ e in
    let same_db : out.0 ≡ db' = ground arith in
    let same_row : out.1 ≡ row = ground arith in
    (
      t.pk,
      subst (λ x. Effect s t.pk db x row) same_db
          (subst (λ x. Effect s t.pk db out.0 x) same_row
            (read_receive_chunk-Effect s disk db out.0 t out.1 account index out.2 made)),
    )

pub find-save_rows :
    (row t : Transfer) (k : ℕ) (ts : List Transfer)
    → find (λ x. x.pk == k) ts ≡ some t
    → find (λ x. x.pk == k) (save_rows row ts) ≡ some (if t.pk == row.pk then row else t)
unfolding save_rows
find-save_rows row t k [] h = cc
find-save_rows row t k (x ∷ xs) h = ground (arith, find-save_rows row t k xs)

-- One row after a call.
Stays : ℕ → Transfer → Db → Type 0
Stays k t db = (t' : Transfer) × (find_transfer k db ≡ some t') × ((t' ≡ t) ⊎ Moved t t')

Wrote-Stays :
    (s : Service) (pk k : ℕ) (db db' : Db) (row t : Transfer)
    → find_transfer k db ≡ some t
    → Wrote s pk db db' row
    → Stays k t db'
unfolding find_transfer Stays
Wrote-Stays s pk k db db' row t found w =
    let after : find (λ x. x.pk == k) db'.transfers ≡ some (if t.pk == row.pk then row else t) =
      ap (find (λ x. x.pk == k)) w.written ∙ find-save_rows row t k db.transfers found in
    elim (Bool-cases (t.pk == row.pk)) [
      | inr other ↦ (t, ground (arith, after), inl refl)
      | inl same ↦
          let key : k ≡ pk = ground (
            arith,
            w.moved.keeps.0,
            find_holds (λ x. x.pk == k) db.transfers t found,
            find_holds (λ x. x.pk == pk) db.transfers w.old w.found,
          ) in
          let old : w.old ≡ t = ground (arith, w.found, found) in
          (row, ground (arith, after), inr (subst (λ x. Moved x row) old w.moved))
    ]

run-Stays :
    (s : Service) (disk : Disk) (account : Account) (c : Command) (db db' : Db) (row t : Transfer)
    (k : ℕ)
    → run s disk account c db ≡ ok (db', row)
    → find_transfer k db ≡ some t
    → Stays k t db'
unfolding Stays find_transfer
run-Stays s disk account c db db' row t k e found =
    let (pk, effect) = run-Effect s disk account c db db' row e in
    elim effect [
      | inl same ↦ (t, ap (find (λ x. x.pk == k)) same ∙ found, inl refl)
      | inr w ↦ Wrote-Stays s pk k db db' row t found w
    ]

-- What a sequence of calls keeps of a row.
pub record Kept (t t' : Transfer) : Type 0 where
  pub keeps : Keeps t t'
  pub retries : t.retry_count ≤ t'.retry_count
  pub sound : IsSound t → IsSound t'

Moved-Kept : (t t' : Transfer) → (t' ≡ t) ⊎ Moved t t' → Kept t t'
Moved-Kept t t' (inl same) =
    subst (Kept t) (sym same)
      (record { keeps = (refl, refl, refl, refl, refl); retries = ground arith; sound = λ x. x })
Moved-Kept t t' (inr m) = record { keeps = m.keeps; retries = m.retries; sound = m.sound }

Kept-trans : (a b c : Transfer) → Kept a b → Kept b c → Kept a c
Kept-trans a b c h k = record {
  keeps = Keeps-trans a b c h.keeps k.keeps;
  retries = omega (arith, h.retries, k.retries);
  sound = λ x. k.sound (h.sound x);
}

-- Every command (pause, resume, retry, cancel, finalize, read a chunk, complete a receive) moves a row
-- along the status diagram or leaves it alone, and none removes it: the row of a key is still there
-- afterwards, the same or moved by an edge of `may_move`.
pub run-may_move :
    (s : Service) (disk : Disk) (account : Account) (c : Command) (db db' : Db) (row t : Transfer)
    (k : ℕ)
    → run s disk account c db ≡ ok (db', row)
    → find_transfer k db ≡ some t
    → (t' : Transfer) × (find_transfer k db' ≡ some t')
      × ((t' ≡ t) ⊎ (may_move t.direction t.status t'.status ≡ true))
unfolding Stays
run-may_move s disk account c db db' row t k e found =
    let (t', there, step) = run-Stays s disk account c db db' row t k e found in
    (t', there, elim step [ inl same ↦ inl same | inr m ↦ inr m.along ])

-- Over any sequence of commands (pause, resume, retry, cancel, finalize, read a chunk, complete a
-- receive), by any users, a row keeps its direction, file name, size and owner, its retries never
-- decrease, and it stays sound if it was: its retries stay within their limit, its bytes within its
-- size, and once completed it has moved all its bytes and its two checksums agree.
pub Reaches-Kept :
    (db final : Db) (k : ℕ) (t : Transfer)
    → Reaches db final
    → find_transfer k db ≡ some t
    → (t' : Transfer) × (find_transfer k final ≡ some t') × Kept t t'
unfolding Stays
Reaches-Kept db final k t here found = (t, found, Moved-Kept t t (inl refl))
Reaches-Kept db final k t (next {db' = middle} s disk account c row e more) found =
    let (t1, there, step) = run-Stays s disk account c db middle row t k e found in
    let (t2, last, kept) = Reaches-Kept middle final k t1 more there in
    (t2, last, Kept-trans t t1 t2 (Moved-Kept t t1 step) kept)

settled-still : (t t' : Transfer) → is_settled t.status ≡ true → (t' ≡ t) ⊎ Moved t t' → t' ≡ t
unfolding may_move
settled-still t t' h (inl same) = same
settled-still t t' h (inr m) = absurd (ground (arith, m.along))

-- A completed, cancelled or expired transfer is final: no sequence of commands (pause, resume, retry,
-- cancel, finalize, read a chunk, complete a receive) changes any field of its row.
pub Reaches-is_settled :
    (db final : Db) (k : ℕ) (t : Transfer)
    → Reaches db final
    → find_transfer k db ≡ some t
    → is_settled t.status ≡ true
    → find_transfer k final ≡ some t
unfolding Stays
Reaches-is_settled db final k t here found h = found
Reaches-is_settled db final k t (next {db' = middle} s disk account c row e more) found h =
    let (t1, there, step) = run-Stays s disk account c db middle row t k e found in
    let same = settled-still t t1 h step in
    Reaches-is_settled middle final k t more (there ∙ ap (λ x. some x) same) h
