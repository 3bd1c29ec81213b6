-- ===== src/Uploads/Session.antt =====
-- What the upload endpoints of paxalia/views/uploads.py share: their state, the ownership test, and
-- `_transfer_upload_error`.
use paxalia_dashboard.Prelude.{
  ℕ, Bool, ◌&&◌, ◌||◌, not, Option, none, some, List, codes, find, ◌==◌, if◌then◌else◌,
}
use paxalia_dashboard.ServerFiles.Access.{has_capability}
use paxalia_dashboard.Transfer.Model.{
  Transfer, Upload, Account, is_terminal, is_paused, is_send, is_transfer_send, same_key,
}
use paxalia_dashboard.Transfer.Service.{Db, find_upload}

-- The temporary file of an upload; a symbolic link is kept with the content of its target.
pub data Temp : Type 0 where
  missing : Temp
  file link : List ℕ → Temp

-- The tables, and the files by the key of their upload: what it receives, and what it moved to its
-- final place.
pub record Store : Type 0 where
  pub db : Db
  pub temp : ℕ → Temp
  pub final : ℕ → Option (List ℕ)

-- An answer: an error by its HTTP status, the progress of an upload (and whether the chunk was
-- there before), or a completed upload (and whether it was completed before).
pub data Reply : Type 0 where
  refused : ℕ → Reply
  progress : Bool → Upload → Reply
  done : Bool → Upload → Reply

-- `_get_owned_upload`, on a row that the query found.
unfoldable pub owned : Account → Option Upload → Option Upload
owned account none = none
owned account (some u) =
    if account.user.is_superuser || same_key u.uploaded_by (some account.pk) then some u else none

unfoldable pub owned_upload : Account → ℕ → Db → Option Upload
unfolding owned
owned_upload account id db = owned account (find_upload (some id) db)

-- `PaxaliaTransfer.objects.filter(pk=..., direction='send').first()`
unfoldable pub send_transfer : Option ℕ → Db → Option Transfer
send_transfer none db = none
send_transfer (some pk) db = find (λ t. (t.pk == pk) && is_send t.direction) db.transfers

unfoldable pub transfer_fault : Account → Bool → Upload → Transfer → Option ℕ
transfer_fault account for_write u t =
    if not (same_key t.actor u.uploaded_by)
    then some 409
    else if not account.user.is_superuser && not (same_key t.actor (some account.pk))
    then some 403
    else if is_paused t.status && for_write
    then some 409
    else if is_terminal t.status
    then some 409
    else none

unfoldable pub capability_fault : Account → Bool → Option ℕ
capability_fault account for_write =
    if not (has_capability account.user (codes "view_transfers"))
    then some 403
    else if not (has_capability account.user (codes "create_transfers"))
    then some 403
    else if for_write && not (has_capability account.user (codes "upload_server_files"))
    then some 403
    else none

abbrev or_lookup : Option Transfer → Option ℕ → Db → Option Transfer
or_lookup (some t) pk db = some t
or_lookup none pk db = send_transfer pk db

-- `_transfer_upload_error`: the status of the error, if there is one. Without a transfer row at hand
-- it is looked up.
unfoldable pub transfer_upload_error : Account → Bool → Upload → Option Transfer → Db → Option ℕ
unfolding transfer_fault capability_fault send_transfer
transfer_upload_error account for_write u given db =
    if not (is_transfer_send u.purpose) then none else elim (capability_fault account for_write) [
      | some status ↦ some status
      | none ↦ elim (or_lookup given u.transfer_id db) [
        | none ↦ some 409
        | some t ↦ transfer_fault account for_write u t
      ]
    ]

abbrev pub set_at {ℓ} : {A : Type ℓ} → ℕ → A → (ℕ → A) → ℕ → A
set_at id a f i = if i == id then a else f i
