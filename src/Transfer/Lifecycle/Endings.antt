-- ===== src/Transfer/Lifecycle/Endings.antt =====
-- What the calls that end a transfer write to the table of transfers (paxalia/transfer_center/service.py).
use paxalia_dashboard.Prelude.{
  ℕ, ◌≡◌, ◌≤◌, ◌≢◌, refl, subst, ◌∙◌, inl, inr, Bool, true, false, ◌&&◌, ◌||◌, not, Option, none,
  some, [], ◌∷◌, Text, ltb, Result, ok, raise_if, >>=-eq-ok, Option-cases, Bool-cases, arith,
}
use paxalia_dashboard.Transfer.Model.{
  Transfer, Upload, Account, TransferError, permission_denied, value_error, Status, verifying,
  completed, failed, is_send, is_terminal, is_upload_completed, is_paused, same_key, Message, send,
}
use paxalia_dashboard.Transfer.Service.{
  Db, Service, Disk, ensure_enabled, check_direction, is_foreign, find_transfer, find_upload,
  save_rows,
}
use paxalia_dashboard.Transfer.Control.{or_raise, fail_upload}
use paxalia_dashboard.Transfer.Lifecycle.{may_move}
use paxalia_dashboard.Transfer.Lifecycle.Moves.{Moved, Keeps, Keeps-trans}
use paxalia_dashboard.Transfer.Service.{safe_staging_path}
use paxalia_dashboard.Transfer.Finalize.{
  Host, Promotion, Finalized, promoted, settle_raised, os_raised, promote, settle, verify_staged,
  finalize_locked, sync_finalize_send, verifying_row, with_checksum, staging_fault, submitted,
  is_finalizable, failed_row, saved,
}
use paxalia_dashboard.Transfer.Finalize.Promoted.{Digested, promote-Digested}
use paxalia_dashboard.Transfer.Lifecycle.Effects.{Effect}

abbrev is_end : Status → Bool
is_end verifying = true
is_end completed = true
is_end failed = true
is_end _ = false

-- A row that is verified differs from the stored one in its status, its checksum and its message.
abbrev Same : Transfer → Transfer → Type 0
Same t row =
    Keeps t row
    × (row.retry_count ≡ t.retry_count)
    × (row.max_retries ≡ t.max_retries)
    × (row.bytes_transferred ≡ t.bytes_transferred)

-- A finalisation leaves the row waiting, completed or failed, and what it is for alone.
record Ended (t row : Transfer) : Type 0 where
  pub ends : is_end row.status ≡ true
  pub keeps : Keeps t row
  pub retries : row.retry_count ≡ t.retry_count
  pub limit : row.max_retries ≡ t.max_retries
  pub bytes : t.bytes_transferred ≤ t.size → row.bytes_transferred ≤ row.size
  pub whole :
      row.status ≡ completed
      → (row.bytes_transferred ≡ row.size) × (row.destination_checksum ≡ row.source_checksum)

Closed : Db → Transfer → Finalized → Type 0
Closed db t f = Ended t f.row × (f.db.transfers ≡ save_rows f.row db.transfers)

-- A row that is left unfinished.
Same-Ended :
    (t row : Transfer)
    → Same t row
    → is_end row.status ≡ true
    → row.status ≢ completed
    → Ended t row
Same-Ended t row same ends unfinished = record {
  ends = ends;
  keeps = same.0;
  retries = same.1;
  limit = same.2;
  bytes = λ le. ground (arith, le, same.0, same.3);
  whole = λ c. absurd (unfinished c);
}

settle-Closed :
    (s : Service) (db : Db) (t : Transfer) (u : Upload) (p : Promotion) (f : Finalized)
    → Digested t p
    → settle s db t u p ≡ ok f
    → Closed db t f
unfolding settle Closed
settle-Closed s db t u (promoted digest l) f k e = (
  record {
    ends = ground arith;
    keeps = ground arith;
    retries = ground arith;
    limit = ground arith;
    bytes = ground arith;
    whole = λ c. (ground arith, ground (arith, k));
  },
  ground arith,
)
settle-Closed s db t u (os_raised m) f k e =
    (Same-Ended t f.row (ground arith) (ground arith) (λ c. absurd (ground arith)), ground arith)
settle-Closed s db t u (settle_raised m l) f k e =
    (Same-Ended t f.row (ground arith) (ground arith) (λ c. absurd (ground arith)), ground arith)
settle-Closed s db t u _ f k e =
    (Same-Ended t f.row (ground arith) (ground arith) (λ c. absurd (ground arith)), ground arith)

Same-of : (t t' row : Transfer) → Same t t' → Ended t' row → Ended t row
Same-of t t' row c k = record {
  ends = k.ends;
  keeps = Keeps-trans t t' row c.0 k.keeps;
  retries = k.retries ∙ c.1;
  limit = k.limit ∙ c.2;
  bytes = λ le. k.bytes (ground (arith, le, c.0, c.3));
  whole = k.whole;
}

with_checksum-Same : (c : Option Text) (t : Transfer) → Same t (with_checksum c t)
with_checksum-Same none t = ((refl, refl, refl, refl, refl), refl, refl, refl)
with_checksum-Same (some []) t = ((refl, refl, refl, refl, refl), refl, refl, refl)
with_checksum-Same (some (c ∷ cs)) t = ((refl, refl, refl, refl, refl), refl, refl, refl)

verifying_row-Same : (s : Service) (t : Transfer) → Same t (verifying_row s t)
verifying_row-Same s t = ((refl, refl, refl, refl, refl), refl, refl, refl)

saved-Closed :
    (db : Db) (t row : Transfer) (u : Upload) (f : Finalized)
    → Ended t row
    → (let r : Result TransferError Finalized = ok (saved row u none db) in r) ≡ ok f
    → Closed db t f
unfolding Closed
saved-Closed db t row u f k e =
    let same : row ≡ f.row = ground arith in (subst (Ended t) same k, ground arith)

failed-Closed :
    (s : Service) (db : Db) (t : Transfer) (u : Upload) (message : Message) (f : Finalized)
    → (let r : Result TransferError Finalized = ok (saved (failed_row s message t) u none db) in r)
      ≡ ok f
    → Closed db t f
failed-Closed s db t u message f e =
    saved-Closed db t (failed_row s message t) u f
      (Same-Ended t (failed_row s message t) ((refl, refl, refl, refl, refl), refl, refl, refl) refl
        (λ c. absurd (ground arith)))
      e

waiting-Closed :
    (s : Service) (db : Db) (t : Transfer) (u : Upload) (f : Finalized)
    → (let r : Result TransferError Finalized = ok (saved (verifying_row s t) u none db) in r)
      ≡ ok f
    → Closed db t f
waiting-Closed s db t u f e =
    saved-Closed db t (verifying_row s t) u f
      (Same-Ended t (verifying_row s t) (verifying_row-Same s t) refl (λ c. absurd (ground arith)))
      e

verify_staged-Closed :
    (s : Service) (disk : Disk) (h : Host) (db : Db) (t : Transfer) (u : Upload) (account : Account)
    (allow_large : Bool) (f : Finalized)
    → verify_staged s disk h db t u account allow_large ≡ ok f
    → Closed db t f
unfolding verify_staged Closed
verify_staged-Closed s disk h db t u account allow_large f e =
    let (staging, _, e1) = >>=-eq-ok (safe_staging_path disk t.staging_path) _ e in
    elim (Option-cases (staging_fault disk t u staging)) [
      | inr (message, fault) ↦ failed-Closed s db t (fail_upload message u) message f (ground arith)
      | inl fault ↦
          elim (Bool-cases
            (ltb s.sync_verify_max t.size && not (allow_large || s.allow_large_promotion))) [
              | inl large ↦ waiting-Closed s db t u f (ground arith)
              | inr small ↦
                  let (ended, written) =
                    settle-Closed s db (verifying_row s t) u
                      (promote s h (verifying_row s t) account) f
                      (promote-Digested s h (verifying_row s t) account) (ground arith) in
                  (Same-of t (verifying_row s t) f.row (verifying_row-Same s t) ended, written)
            ]
    ]

Ended-Moved :
    (t row : Transfer)
    → is_finalizable t.status ≡ true
    → Ended t row
    → is_send t.direction ≡ true
    → Moved t row
unfolding may_move
Ended-Moved t row h k sends = record {
  along = ground (arith, k.ends);
  keeps = k.keeps;
  retries = ground (arith, k.retries);
  sound = λ x. record {
    retries = ground (arith, k.retries, k.limit, x.retries);
    bytes = k.bytes x.bytes;
    whole = k.whole;
  };
}

finalize_locked-Closed :
    (s : Service) (disk : Disk) (h : Host) (db : Db) (t : Transfer) (account : Account)
    (checksum : Option Text) (allow_large : Bool) (f : Finalized)
    → finalize_locked s disk h db t account checksum allow_large ≡ ok f
    → (is_finalizable t.status ≡ true) × Closed db t f
unfolding finalize_locked Closed
finalize_locked-Closed s disk h db t account checksum allow_large f e =
    let (_, _, e1) = >>=-eq-ok (raise_if (is_paused t.status) value_error) _ e in
    let (_, ready, e2) = >>=-eq-ok (raise_if (not (is_finalizable t.status)) value_error) _ e1 in
    let (u, _, e3) = >>=-eq-ok (or_raise (find_upload t.upload_session db) value_error) _ e2 in
    let (_, _, e4) = >>=-eq-ok (raise_if (not (is_upload_completed u.status)) value_error) _ e3 in
    let (_, _, e5) =
      >>=-eq-ok
        (raise_if (not (same_key u.uploaded_by t.actor) && not account.user.is_superuser)
          permission_denied)
        _ e4 in
    let (sum, _, e6) = >>=-eq-ok (submitted s checksum) _ e5 in
    let (ended, written) =
      verify_staged-Closed s disk h db (with_checksum sum t) u account allow_large f e6 in
    (
      ground arith,
      (Same-of t (with_checksum sum t) f.row (with_checksum-Same sum t) ended, written),
    )

pub sync_finalize_send-Effect :
    (s : Service) (disk : Disk) (h : Host) (db : Db) (pk : ℕ) (account : Account)
    (checksum : Option Text) (allow_large : Bool) (f : Finalized)
    → sync_finalize_send s disk h db pk account checksum allow_large ≡ ok f
    → Effect s pk db f.db f.row
unfolding sync_finalize_send Closed
sync_finalize_send-Effect s disk h db pk account checksum allow_large f e =
    let (_, _, e1) = >>=-eq-ok (ensure_enabled s) _ e in
    let (_, _, e2) = >>=-eq-ok (check_direction account send) _ e1 in
    let (t, found, e3) = >>=-eq-ok (or_raise (find_transfer pk db) value_error) _ e2 in
    let (_, sends, e4) = >>=-eq-ok (raise_if (not (is_send t.direction)) value_error) _ e3 in
    let (_, _, e5) = >>=-eq-ok (raise_if (is_foreign t.actor account) permission_denied) _ e4 in
    elim (Bool-cases (is_terminal t.status)) [
      | inl done ↦ inl (ground arith)
      | inr live ↦
          let (ready, (ended, written)) =
            finalize_locked-Closed s disk h db t account checksum allow_large f (ground arith) in
          inr (record {
            old = t;
            found = ground arith;
            moved = Ended-Moved t f.row ready ended (ground arith);
            written = written;
            slot = λ a b. absurd (ground (arith, ready));
          })
    ]
