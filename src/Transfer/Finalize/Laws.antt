-- ===== src/Transfer/Finalize/Laws.antt =====
-- What a finalised send guarantees (paxalia/transfer_center/service.py).
use paxalia_dashboard.Prelude.{
  ℕ, ◌≡◌, ◌≢◌, refl, sym, subst, ◌∙◌, inl, inr, Bool, true, false, ◌&&◌, ◌||◌, not, Option, none,
  some, [], ◌∷◌, Text, ltb, Result, ok, raise_if, >>=-eq-ok, Option-cases, Bool-cases, arith,
}
use paxalia_dashboard.Transfer.Model.{
  Transfer, Upload, Account, TransferError, value_error, permission_denied, completed, is_terminal,
  is_paused, is_upload_completed, same_key,
}
use paxalia_dashboard.Transfer.Exchange.{resolve_bound_transfer_path, stored_path}
use paxalia_dashboard.Transfer.Service.{
  Db, Service, Disk, safe_staging_path, find_transfer, find_upload,
}
use paxalia_dashboard.Transfer.Control.{or_raise, fail_upload}
use paxalia_dashboard.Transfer.Finalize.{
  Host, Linked, Promotion, Finalized, promoted, settle_raised, os_raised, promote, settle,
  verify_staged, finalize_locked, sync_finalize_send, verifying_row, with_checksum, staging_fault,
  submitted, saved, failed_row, is_finalizable,
}
use paxalia_dashboard.Transfer.Finalize.Promoted.{
  IsLinked, linked_of, Digested, promote-IsLinked, promote-Digested,
}

-- What a finalisation that returns has done.
pub record IsFinalized (s : Service) (h : Host) (account : Account) (t : Transfer) (f : Finalized)
    : Type 0 where
  -- A linked file went to the free name that the row is bound to, with the declared content.
  pub safe_link :
      (l : Linked)
      → f.linked ≡ some l
      → (h.occupied ≡ false)
        × (s.sha256 l.content ≡ f.row.source_checksum)
        × (resolve_bound_transfer_path s.deployment t account true ≡ ok (l.root, l.parts))
  -- A completed row has linked its file, and both of its checksums are the file's.
  pub complete :
      f.row.status ≡ completed
      → (l : Linked) × (f.linked ≡ some l)
        × (f.row.source_checksum ≡ s.sha256 l.content)
        × (f.row.destination_checksum ≡ s.sha256 l.content)
        × (f.row.bytes_transferred ≡ t.size)

linked_once : {l l' : Linked} → (let o : Option Linked = some l in o) ≡ some l' → l ≡ l'
linked_once same = cc

linked_facts :
    (s : Service) (h : Host) (account : Account) (t : Transfer) (f : Finalized) (l l' : Linked)
    → f.linked ≡ some l
    → f.linked ≡ some l'
    → f.row.source_checksum ≡ t.source_checksum
    → IsLinked s h t account l
    → (h.occupied ≡ false)
      × (s.sha256 l'.content ≡ f.row.source_checksum)
      × (resolve_bound_transfer_path s.deployment t account true ≡ ok (l'.root, l'.parts))
linked_facts s h account t f l l' e e' same k =
    let one : l ≡ l' = linked_once (sym e ∙ e') in
    (
      k.free,
      subst (λ x. s.sha256 x.content ≡ f.row.source_checksum) one (k.verified ∙ sym same),
      subst (λ x. resolve_bound_transfer_path s.deployment t account true ≡ ok (x.root, x.parts))
          one k.bound,
    )

settle-IsFinalized :
    (s : Service) (h : Host) (account : Account) (db : Db) (t : Transfer) (u : Upload)
    (p : Promotion) (f : Finalized)
    → ((l : Linked) → linked_of p ≡ some l → IsLinked s h t account l)
    → Digested t p
    → settle s db t u p ≡ ok f
    → IsFinalized s h account t f
unfolding settle
settle-IsFinalized s h account db t u (os_raised m) f k d e = record {
  safe_link = λ l g. absurd (ground arith);
  complete = λ c. absurd (ground arith);
}
settle-IsFinalized s h account db t u (settle_raised m l) f k d e =
    let linked : f.linked ≡ some l = ground arith in
    let same : f.row.source_checksum ≡ t.source_checksum = ground arith in
    record {
      safe_link = λ l' g. linked_facts s h account t f l l' linked g same (k l refl);
      complete = λ c. absurd (ground arith);
    }
settle-IsFinalized s h account db t u (promoted digest l) f k d e =
    let linked : f.linked ≡ some l = ground arith in
    let same : f.row.source_checksum ≡ t.source_checksum = ground arith in
    record {
      safe_link = λ l' g. linked_facts s h account t f l l' linked g same (k l refl);
      complete = λ c. (
        l,
        linked,
        same ∙ sym (k l refl).verified,
        ground (arith, (k l refl).verified),
        ground arith,
      );
    }
settle-IsFinalized s h account db t u _ f k d e = record {
  safe_link = λ l g. absurd (ground arith);
  complete = λ c. absurd (ground arith);
}

-- The path of a row does not depend on what finalisation writes.
verifying_row-path :
    (s : Service) (t : Transfer) (account : Account)
    → resolve_bound_transfer_path s.deployment (verifying_row s t) account true
      ≡ resolve_bound_transfer_path s.deployment t account true
unfolding resolve_bound_transfer_path stored_path
verifying_row-path s t account = refl

with_checksum-path :
    (s : Service) (c : Option Text) (t : Transfer) (account : Account)
    → resolve_bound_transfer_path s.deployment (with_checksum c t) account true
      ≡ resolve_bound_transfer_path s.deployment t account true
unfolding resolve_bound_transfer_path stored_path
with_checksum-path s none t account = refl
with_checksum-path s (some []) t account = refl
with_checksum-path s (some (c ∷ cs)) t account = refl

with_checksum-size : (c : Option Text) (t : Transfer) → (with_checksum c t).size ≡ t.size
with_checksum-size none t = refl
with_checksum-size (some []) t = refl
with_checksum-size (some (c ∷ cs)) t = refl

unlinked-IsFinalized :
    (s : Service) (h : Host) (account : Account) (db : Db) (t row : Transfer) (u : Upload)
    (f : Finalized)
    → row.status ≢ completed
    → (let r : Result TransferError Finalized = ok (saved row u none db) in r) ≡ ok f
    → IsFinalized s h account t f
unlinked-IsFinalized s h account db t row u f unfinished e = record {
  safe_link = λ l g. absurd (ground arith);
  complete = λ c. absurd (ground arith);
}

-- A record of what was done for a row with the same path and size is one for the row.
transported :
    (s : Service) (h : Host) (account : Account) (t t' : Transfer) (f : Finalized)
    → resolve_bound_transfer_path s.deployment t' account true
      ≡ resolve_bound_transfer_path s.deployment t account true
    → t'.size ≡ t.size
    → IsFinalized s h account t' f
    → IsFinalized s h account t f
transported s h account t t' f path size k = record {
  safe_link = λ l g. let facts = k.safe_link l g in (facts.0, facts.1, sym path ∙ facts.2);
  complete = λ c. let facts = k.complete c in (facts.0, facts.1, facts.2, facts.3, facts.4 ∙ size);
}

verify_staged-IsFinalized :
    (s : Service) (disk : Disk) (h : Host) (db : Db) (t : Transfer) (u : Upload) (account : Account)
    (allow_large : Bool) (f : Finalized)
    → verify_staged s disk h db t u account allow_large ≡ ok f
    → IsFinalized s h account t f
unfolding verify_staged
verify_staged-IsFinalized s disk h db t u account allow_large f e =
    let (staging, _, e1) = >>=-eq-ok (safe_staging_path disk t.staging_path) _ e in
    elim (Option-cases (staging_fault disk t u staging)) [
      | inr (message, fault) ↦
          unlinked-IsFinalized s h account db t (failed_row s message t) (fail_upload message u) f
            (λ c. absurd (ground arith)) (ground arith)
      | inl fault ↦
          elim (Bool-cases
            (ltb s.sync_verify_max t.size && not (allow_large || s.allow_large_promotion))) [
              | inl large ↦
                  unlinked-IsFinalized s h account db t (verifying_row s t) u f
                    (λ c. absurd (ground arith)) (ground arith)
              | inr small ↦
                  transported s h account t (verifying_row s t) f (verifying_row-path s t account)
                    refl
                    (settle-IsFinalized s h account db (verifying_row s t) u
                      (promote s h (verifying_row s t) account) f
                      (promote-IsLinked s h (verifying_row s t) account)
                      (promote-Digested s h (verifying_row s t) account) (ground arith))
            ]
    ]

finalize_locked-IsFinalized :
    (s : Service) (disk : Disk) (h : Host) (db : Db) (t : Transfer) (account : Account)
    (checksum : Option Text) (allow_large : Bool) (f : Finalized)
    → finalize_locked s disk h db t account checksum allow_large ≡ ok f
    → IsFinalized s h account t f
unfolding finalize_locked
finalize_locked-IsFinalized s disk h db t account checksum allow_large f e =
    let (_, _, e1) = >>=-eq-ok (raise_if (is_paused t.status) value_error) _ e in
    let (_, _, e2) = >>=-eq-ok (raise_if (not (is_finalizable t.status)) value_error) _ e1 in
    let (u, _, e3) = >>=-eq-ok (or_raise (find_upload t.upload_session db) value_error) _ e2 in
    let (_, _, e4) = >>=-eq-ok (raise_if (not (is_upload_completed u.status)) value_error) _ e3 in
    let (_, _, e5) =
      >>=-eq-ok
        (raise_if (not (same_key u.uploaded_by t.actor) && not account.user.is_superuser)
          permission_denied)
        _ e4 in
    let (sum, _, e6) = >>=-eq-ok (submitted s checksum) _ e5 in
    transported s h account t (with_checksum sum t) f (with_checksum-path s sum t account)
      (with_checksum-size sum t)
      (verify_staged-IsFinalized s disk h db (with_checksum sum t) u account allow_large f e6)

-- Whenever `sync_finalize_send` returns for a row that was not finished: a file that it linked into
-- the exchange went to a name that was free, at the path the row is bound to, with content of the
-- declared checksum; and if the row it returns is completed, such a file was linked, both checksums
-- of the row are the checksum of its content, and the row counts its whole size as transferred.
pub sync_finalize_send-IsFinalized :
    (s : Service) (disk : Disk) (h : Host) (db : Db) (pk : ℕ) (account : Account)
    (checksum : Option Text) (allow_large : Bool) (t : Transfer) (f : Finalized)
    → find_transfer pk db ≡ some t
    → is_terminal t.status ≡ false
    → sync_finalize_send s disk h db pk account checksum allow_large ≡ ok f
    → IsFinalized s h account t f
unfolding sync_finalize_send
sync_finalize_send-IsFinalized s disk h db pk account checksum allow_large t f found live e =
    let locked : finalize_locked s disk h db t account checksum allow_large ≡ ok f = ground arith in
    finalize_locked-IsFinalized s disk h db t account checksum allow_large f locked
