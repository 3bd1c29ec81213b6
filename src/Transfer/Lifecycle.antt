-- ===== src/Transfer/Lifecycle.antt =====
-- The operations of paxalia/transfer_center/service.py that move a transfer between its statuses, as
-- commands on the store, and the sequences of them.
pub mod Moves
pub mod Effects
pub mod Endings
pub mod Receives
pub mod Laws
pub mod Slots
use paxalia_dashboard.Prelude.{
  ℕ, ℤ, List, ◌≡◌, Bool, true, false, ◌&&◌, not, Option, Text, Result, ok, err, ◌>>=◌,
}
use paxalia_dashboard.Transfer.Model.{
  Transfer, Account, TransferError, Status, queued, preparing, transferring, paused, interrupted,
  verifying, completed, failed, cancelled, expired, is_verifying, is_terminal, is_active, Direction,
  send, receive,
}
use paxalia_dashboard.Transfer.Service.{Db, Service, Disk}
use paxalia_dashboard.Transfer.Control.{
  Outcome, is_settled, is_pausable, pause_transfer, resume_send_transfer, resume_receive_transfer,
  retry_transfer, cancel_transfer,
}
use paxalia_dashboard.Transfer.Receive.{read_receive_chunk, complete_receive}
use paxalia_dashboard.Transfer.Finalize.{Host, Finalized, is_finalizable, sync_finalize_send}

-- One call of the service; all but the resumptions and the finalisation are handed a row that the
-- caller read.
pub data Command : Type 0 where
  pause retry cancel : Transfer → Command
  resume_send resume_receive : ℕ → Command
  finalize : ℕ → Option Text → Bool → Host → Command
  read_chunk : Transfer → ℤ → Command
  complete : Transfer → Text → Command

abbrev pub outcome : Result TransferError Finalized → Outcome
outcome r = r >>= λ f. ok (f.db, f.row)

abbrev pub without_bytes : Result TransferError (Db × Transfer × List ℕ) → Outcome
without_bytes r = r >>= λ out. ok (out.0, out.1)

unfoldable pub run : Service → Disk → Account → Command → Db → Outcome
run s disk account (pause t) db = pause_transfer s disk db t account
run s disk account (retry t) db = retry_transfer s disk db t account
run s disk account (cancel t) db = cancel_transfer s disk db t account
run s disk account (resume_send pk) db = resume_send_transfer s disk db pk account
run s disk account (resume_receive pk) db = resume_receive_transfer s disk db pk account
run s disk account (finalize pk sum large h) db =
    outcome (sync_finalize_send s disk h db pk account sum large)
run s disk account (read_chunk t index) db =
    without_bytes (read_receive_chunk s disk db t account index)
run s disk account (complete t sum) db = complete_receive s disk db t account sum

-- From which statuses a transfer of either direction is completed or failed.
abbrev pub may_end : Direction → Status → Bool
may_end send from = is_finalizable from
may_end receive from = not (is_terminal from)

-- The status diagram: from which statuses each one may be entered.
unfoldable pub may_move : Direction → Status → Status → Bool
may_move d from paused = is_pausable from
may_move d from preparing = not (is_settled from)
may_move d from transferring = not (is_settled from)
may_move d from verifying = not (is_settled from)
may_move d from cancelled = not (is_settled from) && not (is_verifying from)
may_move d from completed = may_end d from
may_move d from failed = may_end d from
may_move d from expired = is_active from
may_move d from _ = false

-- The stores that calls lead to: a call that raises rolls its transaction back.
pub data Reaches : Db → Db → Type 0 where
  here : {db : Db} → Reaches db db
  next :
      {db db' final : Db} (s : Service) (disk : Disk) (account : Account) (c : Command)
      (row : Transfer)
      → run s disk account c db ≡ ok (db', row)
      → Reaches db' final
      → Reaches db final
