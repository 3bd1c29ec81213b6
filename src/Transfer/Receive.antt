-- ===== src/Transfer/Receive.antt =====
-- `read_receive_chunk` and `complete_receive` of paxalia/transfer_center/service.py.
pub mod Laws
use paxalia_dashboard.Prelude.{
  ℕ, zero, suc, ◌+◌, ◌-◌, ◌*◌, min, Bool, true, false, ◌&&◌, ◌||◌, not, Option, none, some, List,
  [], ◌∷◌, ◌++◌, Text, text_eq, length, take, drop, leb, ltb, ◌==◌, ℤ, pos, negsuc, if◌then◌else◌,
  Result, ok, err, ◌>>=◌, ◌>>◌, raise_if,
}
use paxalia_dashboard.ServerFiles.Access.{Root}
use paxalia_dashboard.Transfer.Model.{
  Transfer, Account, TransferError, permission_denied, value_error, not_found, os_error, Status,
  transferring, verifying, completed, failed, Direction, receive, is_terminal, is_paused, is_send,
  Message, none_yet, client_checksum_mismatch,
}
use paxalia_dashboard.Transfer.Chunks.{valid_chunk_indexes, received_bytes, chunk_length}
use paxalia_dashboard.Transfer.Exchange.{lift, resolve_bound_transfer_path}
use paxalia_dashboard.Transfer.Service.{
  Db, Service, Disk, ensure_enabled, check_direction, is_foreign, find_transfer,
}
use paxalia_dashboard.Transfer.Control.{Outcome, or_raise, save}
use paxalia_dashboard.Transfer.Create.{hash_server_file}
use paxalia_dashboard.Transfer.Finalize.{normalize_checksum}

-- The order of Python's integers.
unfoldable pub is_below : ℤ → ℤ → Bool
is_below (pos a) (pos b) = ltb a b
is_below (pos a) (negsuc b) = false
is_below (negsuc a) (pos b) = true
is_below (negsuc a) (negsuc b) = ltb b a

unfoldable pub same_int : ℤ → ℤ → Bool
same_int (pos a) (pos b) = a == b
same_int (negsuc a) (negsuc b) = a == b
same_int _ _ = false

-- `sorted(set(...))`
unfoldable pub insert_index : ℤ → List ℤ → List ℤ
unfolding is_below same_int
insert_index i [] = i ∷ []
insert_index i (j ∷ js) =
    let rest = insert_index i js in
    if is_below i j then i ∷ j ∷ js else if same_int i j then j ∷ js else j ∷ rest

unfoldable pub sorted_set : List ℤ → List ℤ
unfolding insert_index
sorted_set [] = []
sorted_set (i ∷ is) = insert_index i (sorted_set is)

-- The bytes from `start` on, as the read loop collects them.
unfoldable pub read_at : ℕ → ℕ → List ℕ → List ℕ
read_at start count content = take count (drop start content)

-- The answer is a chunk of `min(chunk_size, size - start)` bytes; a negative count is never met.
unfoldable pub read_chunk : Transfer → ℕ → List ℕ → Result TransferError (List ℕ)
unfolding read_at
read_chunk t index content =
    let start = index * t.chunk_size in
    let count = min t.chunk_size (t.size - start) in
    raise_if (ltb t.size start || not (length (read_at start count content) == count)) value_error
    >> ok (read_at start count content)

abbrev pub chunk_row : Service → Transfer → ℕ → Transfer
chunk_row s t index =
    let received = insert_index (pos index) (sorted_set t.received_chunks) in
    record t {
      received_chunks = received;
      bytes_transferred = received_bytes t.size t.chunk_size t.total_chunks received;
      status = transferring;
      updated_at = s.now;
    }

-- What `complete_receive` writes: a small file is hashed again, a large one waits for maintenance.
abbrev pub received_row : Service → Text → Transfer → Transfer
received_row s checksum t = record t {
  destination_checksum = checksum;
  status = verifying;
  bytes_transferred = t.size;
  updated_at = s.now;
}

abbrev pub verdict_row : Service → Text → Transfer → Transfer
verdict_row s current t =
    if text_eq current t.destination_checksum
    then (record t {
      source_checksum = current;
      status = completed;
      completed_at = some s.now;
      error_message = none_yet;
    })
    else (record t {
      source_checksum = current;
      status = failed;
      error_message = client_checksum_mismatch;
    })

module _ (s : Service) (disk : Disk) where
  -- `transfer` is the row as the caller read it; the new index goes to the row that is locked.
  unfoldable pub read_receive_chunk :
      Db → Transfer → Account → ℤ → Result TransferError (Db × Transfer × List ℕ)
  read_receive_chunk db transfer account chunk_index = do
    ensure_enabled s
    check_direction account receive
    raise_if (is_send transfer.direction) value_error
    raise_if (is_foreign transfer.actor account) permission_denied
    raise_if (is_terminal transfer.status) value_error
    raise_if (is_paused transfer.status) value_error
    index ← elim chunk_index [ negsuc n ↦ err value_error | pos n ↦ ok n ]
    raise_if (leb transfer.total_chunks index) value_error
    found ← resolve_bound_transfer_path s.deployment transfer account false
    content ← lift (disk.server_file found.0 found.1)
    raise_if (not (length content == transfer.size)) value_error
    raise_if
        (disk.read_error found.0 found.1
          && ltb 0 (chunk_length transfer.size transfer.chunk_size index))
        os_error
    buffer ← read_chunk transfer index content
    locked ← or_raise (find_transfer transfer.pk db) not_found
    raise_if (is_terminal locked.status || is_paused locked.status) value_error
    let out = save (chunk_row s locked index) db
    ok (out.0, out.1, buffer)

  unfoldable pub verified_row : Root → List Text → Text → Transfer → Result TransferError Transfer
  verified_row root parts checksum locked =
      if leb locked.size s.sync_verify_max
      then (hash_server_file s disk root parts >>= λ current.
          ok (verdict_row s current (received_row s checksum locked)))
      else ok (received_row s checksum locked)

  unfoldable pub finish_receive : Db → Root → List Text → Text → Transfer → Outcome
  unfolding verified_row
  finish_receive db root parts checksum locked = do
    raise_if
        (ltb (length (valid_chunk_indexes locked.total_chunks locked.received_chunks))
          locked.total_chunks)
        value_error
    row ← verified_row root parts checksum locked
    ok (save row db)

  unfoldable pub complete_receive : Db → Transfer → Account → Text → Outcome
  unfolding finish_receive
  complete_receive db transfer account destination_checksum = do
    ensure_enabled s
    check_direction account receive
    checksum ← normalize_checksum s.deployment.lower false destination_checksum
    locked ← or_raise (find_transfer transfer.pk db) not_found
    raise_if (is_foreign locked.actor account) permission_denied
    found ← resolve_bound_transfer_path s.deployment locked account false
    raise_if (is_send locked.direction) value_error
    if is_terminal locked.status
        then ok (db, locked)
        else finish_receive db found.0 found.1 checksum locked
