-- ===== src/Transfer/Maintenance.antt =====
-- `maintenance` of paxalia/transfer_center/service.py: one bounded pass that expires transfers and
-- verifies the ones that wait for it. A store is kept per transaction, so a pass that raises keeps
-- what it had committed.
pub mod Expiry
pub mod Sweep
use paxalia_dashboard.Prelude.{
  ℕ, zero, suc, ◌+◌, ◌-◌, min, max, Bool, true, false, ◌&&◌, not, Option, none, some, List, [], ◌∷◌,
  map, Text, text_eq, is_empty, filter, find, length, take, leb, ltb, ◌==◌, if◌then◌else◌, Result,
  ok, err, ◌>>=◌, Value, to_int, pos, negsuc,
}
use paxalia_dashboard.Transfer.Model.{
  Transfer, Upload, Account, TransferError, Status, verifying, completed, failed, expired,
  is_active, is_verifying, is_completed, is_failed, is_send, Message, none_yet, expired_message,
  upload_expired, owner_gone, verification_failed, client_checksum_mismatch,
}
use paxalia_dashboard.Transfer.Exchange.{resolve_bound_transfer_path}
use paxalia_dashboard.Transfer.Service.{Db, Service, Disk, find_upload, save_rows, save_uploads}
use paxalia_dashboard.Transfer.Control.{fail_upload}
use paxalia_dashboard.Transfer.Create.{hash_server_file}
use paxalia_dashboard.Transfer.Finalize.{Host, sync_finalize_send}

-- What the pass makes of one row.
pub data Fate : Type 0 where
  was_completed was_expired was_failed still_pending : Fate

-- One turn of a loop: a `continue`, a row that counts, or an exception that leaves `maintenance`.
pub data Turn : Type 0 where
  skipped : Db → Turn
  counted : Fate → Db → Turn
  raised : Db → Turn

pub record Counts : Type 0 where
  pub processed : ℕ
  pub completed : ℕ
  pub expired : ℕ
  pub failed : ℕ

abbrev pub no_counts : Counts
no_counts = record { processed = 0; completed = 0; expired = 0; failed = 0 }

-- A pass so far: what is counted, what the batch has left, and the store; or a `NameError`.
pub data Pass : Type 0 where
  went : Counts → ℕ → Db → Pass
  crashed : Db → Pass

unfoldable pub count_fate : Fate → Counts → Counts
count_fate was_completed c = record c { processed = suc c.processed; completed = suc c.completed }
count_fate was_expired c = record c { processed = suc c.processed; expired = suc c.expired }
count_fate was_failed c = record c { processed = suc c.processed; failed = suc c.failed }
count_fate still_pending c = record c { processed = suc c.processed }

-- A loop over the keys that a query returned; it breaks when the batch is used up.
unfoldable pub each : (ℕ → Db → Turn) → List ℕ → Counts → ℕ → Db → Pass
each turn [] c left db = went c left db
each turn (pk ∷ pks) c left db = elim (turn pk db) [
  | skipped after ↦ each turn pks c left after
  | raised after ↦ crashed after
  | counted fate after ↦
      let rest = each turn pks (count_fate fate c) (left - 1) after in
      if leb left 1 then went (count_fate fate c) 0 after else rest
]

-- `.order_by(key)`
insert_by : (Transfer → ℕ) → Transfer → List Transfer → List Transfer
insert_by key t [] = t ∷ []
insert_by key t (x ∷ xs) =
    let rest = insert_by key t xs in if leb (key t) (key x) then t ∷ x ∷ xs else x ∷ rest

order_by : (Transfer → ℕ) → List Transfer → List Transfer
unfolding insert_by
order_by key [] = []
order_by key (t ∷ ts) = insert_by key t (order_by key ts)

-- `.order_by(key).values_list("pk")[:limit]` of the rows that pass the test
unfoldable pub selected : (Transfer → Bool) → (Transfer → ℕ) → ℕ → Db → List ℕ
unfolding order_by
selected p key limit db = take limit (map (λ t. t.pk) (order_by key (filter p db.transfers)))

unfoldable pub is_past : ℕ → Option ℕ → Bool
is_past now none = false
is_past now (some at) = ltb at now

unfoldable pub is_expiring : ℕ → Transfer → Bool
unfolding is_past
is_expiring now t = is_active t.status && is_past now t.expires_at

abbrev expiry : Transfer → ℕ
expiry t = elim t.expires_at [ none ↦ 0 | some at ↦ at ]

abbrev pub expired_row : ℕ → Transfer → Transfer
expired_row now t = record t { status = expired; error_message = expired_message; updated_at = now }

abbrev pub given_up : Service → Message → Transfer → Transfer
given_up s message t = record t { status = failed; error_message = message; updated_at = s.now }

-- A row that is saved with the failure of the upload it owns.
unfoldable pub save_with_upload : Message → Transfer → Option Upload → Db → Db
unfolding fail_upload
save_with_upload message row none db = record db { transfers = save_rows row db.transfers }
save_with_upload message row (some u) db = record db {
  transfers = save_rows row db.transfers;
  uploads = save_uploads (fail_upload message u) db.uploads;
}

unfoldable pub locked_row : (Transfer → Bool) → ℕ → Db → Option Transfer
locked_row p pk db = find (λ t. (t.pk == pk) && p t) db.transfers

unfoldable pub expire_turn : Service → ℕ → Db → Turn
unfolding save_with_upload
expire_turn s pk db = elim (locked_row (is_expiring s.now) pk db) [
  | none ↦ skipped db
  | some t ↦
      let upload = if is_send t.direction then find_upload t.upload_session db else none in
      counted was_expired (save_with_upload upload_expired (expired_row s.now t) upload db)
]

abbrev is_waiting : Transfer → Bool
is_waiting t = is_verifying t.status

abbrev fate_of : Status → Fate
fate_of completed = was_completed
fate_of failed = was_failed
fate_of _ = still_pending

-- `except Exception:` of the verification of a send. The handler's last statements name the
-- exception, which no `as` clause has bound.
unfoldable pub give_up_turn : Service → ℕ → Db → Turn
unfolding save_with_upload
give_up_turn s pk db = elim (locked_row is_waiting pk db) [
  | none ↦ skipped db
  | some t ↦ raised (
      save_with_upload verification_failed (given_up s verification_failed t)
        (find_upload t.upload_session db) db)
]

unfoldable pub orphan_turn : Service → ℕ → Db → Turn
unfolding save_with_upload
orphan_turn s pk db = elim (locked_row is_waiting pk db) [
  | none ↦ skipped db
  | some t ↦
      counted was_failed
        (save_with_upload owner_gone (given_up s owner_gone t) (find_upload t.upload_session db) db)
]

abbrev verdict : Service → Text → Transfer → Fate × Transfer
verdict s current t =
    if text_eq current t.destination_checksum
    then (
      was_completed,
      record t {
        source_checksum = current;
        status = completed;
        completed_at = some s.now;
        error_message = none_yet;
        updated_at = s.now;
      },
    )
    else (
      was_failed,
      record t {
        source_checksum = current;
        status = failed;
        error_message = client_checksum_mismatch;
        updated_at = s.now;
      },
    )

-- What follows a loop runs only while the batch has something left.
abbrev pub then_pass : Pass → (Counts → ℕ → Db → Pass) → Pass
then_pass (crashed db) after = crashed db
then_pass (went c zero db) after = went c zero db
then_pass (went c (suc n) db) after = after c (suc n) db

-- `None` in place of a user: it has no attribute that the policy asks for.
abbrev no_account : Account
no_account = record {
  pk = 0;
  user = record {
    is_authenticated = false;
    is_active = none;
    is_superuser = false;
    has_perm = λ codename. none;
  };
}

-- The accounts by key, and what the host does during each promotion.
module _ (s : Service) (disk : Disk) (host : ℕ → Host) (account_of : ℕ → Account) where
  unfoldable pub send_turn : ℕ → Db → Turn
  unfolding give_up_turn orphan_turn
  send_turn pk db = elim (find (λ t. t.pk == pk) db.transfers) [
    | none ↦ skipped db
    | some t ↦ elim t.actor [
      | none ↦ orphan_turn s pk db
      | some key ↦ elim (sync_finalize_send s disk (host pk) db pk (account_of key) none true) [
        | err e ↦ give_up_turn s pk db
        | ok f ↦ counted (fate_of f.row.status) f.db
      ]
    ]
  ]

  -- The verification of one receive; a row without its actor is verified for `None`.
  unfoldable pub current_checksum : Transfer → Result TransferError Text
  current_checksum t =
      resolve_bound_transfer_path s.deployment t
        (elim t.actor [ none ↦ no_account | some key ↦ account_of key ]) false
      >>= λ found. hash_server_file s disk found.0 found.1

  unfoldable pub receive_turn : ℕ → Db → Turn
  unfolding current_checksum
  receive_turn pk db = elim (locked_row (λ t. not (is_send t.direction) && is_waiting t) pk db) [
    | none ↦ skipped db
    | some t ↦ elim (current_checksum t) [
      | err e ↦
          raised
            (record db { transfers = save_rows (given_up s verification_failed t) db.transfers })
      | ok current ↦
          counted (verdict s current t).0
            (record db { transfers = save_rows (verdict s current t).1 db.transfers })
    ]
  ]

  -- The passes run one after the other while the batch has something left.
  unfoldable pub expire_pass : ℕ → Db → Pass
  expire_pass batch db =
      each (expire_turn s) (selected (is_expiring s.now) expiry batch db) no_counts batch db

  unfoldable pub send_pass : Counts → ℕ → Db → Pass
  send_pass c left db =
      each send_turn
        (selected (λ t. is_send t.direction && is_waiting t) (λ t. t.updated_at) left db) c left db

  unfoldable pub receive_pass : Counts → ℕ → Db → Pass
  receive_pass c left db =
      each receive_turn
        (selected
          (λ t. not (is_send t.direction) && is_waiting t && not (is_empty t.destination_checksum))
          (λ t. t.updated_at) left db)
        c left db

  unfoldable pub maintenance : ℕ → Db → Pass
  unfolding expire_pass
  maintenance batch db = then_pass (then_pass (expire_pass batch db) send_pass) receive_pass

-- `max(1, min(int(batch_size), 1000))`
unfoldable pub maintenance_batch : Value → ℕ
maintenance_batch value = elim (to_int value) [
  | err e ↦ 100
  | ok (negsuc n) ↦ 1
  | ok (pos n) ↦ max 1 (min n 1000)
]
