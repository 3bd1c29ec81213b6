-- ===== src/Transfer/Lifecycle/Receives.antt =====
-- What the calls of a receive write to the table of transfers (paxalia/transfer_center/service.py).
use paxalia_dashboard.Prelude.{
  ℕ, ◌≡◌, ◌≢◌, ap, subst, inl, inr, true, false, ◌&&◌, ◌||◌, not, Option, some, List, Text, ℤ, pos,
  negsuc, length, ok_injective, leb, ltb, ◌==◌, Result, ok, err, ◌>>=◌, raise_if, >>=-eq-ok,
  Bool-cases, arith,
}
use paxalia_dashboard.Transfer.Model.{
  Transfer, Account, TransferError, permission_denied, value_error, not_found, is_active, is_send,
  is_terminal, is_paused, os_error, receive,
}
use paxalia_dashboard.ServerFiles.Access.{Root}
use paxalia_dashboard.Transfer.Exchange.{lift, resolve_bound_transfer_path}
use paxalia_dashboard.Transfer.Chunks.{valid_chunk_indexes, chunk_length}
use paxalia_dashboard.Transfer.Service.{
  Db, Service, Disk, ensure_enabled, check_direction, is_foreign, find_transfer,
}
use paxalia_dashboard.Transfer.Control.{Outcome, or_raise, is_settled}
use paxalia_dashboard.Transfer.Lifecycle.Moves.{Moved, received-Moved, waiting-Moved, verdict-Moved}
use paxalia_dashboard.Transfer.Receive.{
  read_receive_chunk, complete_receive, finish_receive, verified_row, chunk_row, received_row,
  verdict_row, read_chunk,
}
use paxalia_dashboard.Transfer.Create.{hash_server_file}
use paxalia_dashboard.Transfer.Finalize.{normalize_checksum}
use paxalia_dashboard.Transfer.Lifecycle.Effects.{Effect, saved-Wrote}

found_row : (o : Option Transfer) (t : Transfer) → or_raise o not_found ≡ ok t → o ≡ some t
found_row o t e = ground arith

live_row :
    (t : Transfer) (u : Unit {0})
    → raise_if (is_terminal t.status || is_paused t.status) value_error ≡ ok u
    → (is_settled t.status ≡ false) × (is_active t.status ≢ false)
live_row t u e = ground arith

without :
    (out : Db × Transfer) (db : Db) (row : Transfer) (bytes buffer : List ℕ)
    → (let r : Result TransferError (Db × Transfer × List ℕ) = ok (out.0, out.1, bytes) in r)
      ≡ ok (db, row, buffer)
    → (let r : Outcome = ok out in r) ≡ ok (db, row)
without out db row bytes buffer e =
    ap (λ (x : Db × Transfer × List ℕ). ok (x.0, x.1)) (ok_injective e)

pub read_receive_chunk-Effect :
    (s : Service) (disk : Disk) (db db' : Db) (t row : Transfer) (account : Account)
    (chunk_index : ℤ) (buffer : List ℕ)
    → read_receive_chunk s disk db t account chunk_index ≡ ok (db', row, buffer)
    → Effect s t.pk db db' row
unfolding read_receive_chunk
read_receive_chunk-Effect s disk db db' t row account chunk_index buffer e =
    let (_, _, e1) = >>=-eq-ok (ensure_enabled s) _ e in
    let (_, _, e2) = >>=-eq-ok (check_direction account receive) _ e1 in
    let (_, _, e3) = >>=-eq-ok (raise_if (is_send t.direction) value_error) _ e2 in
    let (_, _, e4) = >>=-eq-ok (raise_if (is_foreign t.actor account) permission_denied) _ e3 in
    let (_, _, e5) = >>=-eq-ok (raise_if (is_terminal t.status) value_error) _ e4 in
    let (_, _, e6) = >>=-eq-ok (raise_if (is_paused t.status) value_error) _ e5 in
    let (index, _, e7) =
      >>=-eq-ok (elim chunk_index [ negsuc n ↦ err value_error | pos n ↦ ok n ]) _ e6 in
    let (_, _, e8) = >>=-eq-ok (raise_if (leb t.total_chunks index) value_error) _ e7 in
    let (found, _, e9) =
      >>=-eq-ok (resolve_bound_transfer_path s.deployment t account false) _ e8 in
    let (content, _, e10) = >>=-eq-ok (lift (disk.server_file found.0 found.1)) _ e9 in
    let (_, _, e11) = >>=-eq-ok (raise_if (not (length content == t.size)) value_error) _ e10 in
    let (_, _, e12) =
      >>=-eq-ok
        (raise_if
          (disk.read_error found.0 found.1 && ltb 0 (chunk_length t.size t.chunk_size index))
          os_error)
        _ e11 in
    let (bytes, _, e13) = >>=-eq-ok (read_chunk t index content) _ e12 in
    let (locked, there, e14) = >>=-eq-ok (or_raise (find_transfer t.pk db) not_found) _ e13 in
    let (_, live, e16) =
      >>=-eq-ok (raise_if (is_terminal locked.status || is_paused locked.status) value_error) _
        e14 in
    let open_row = live_row locked _ live in
    inr (
      saved-Wrote s t.pk db db' locked (chunk_row s locked index) row (found_row _ locked there)
        (received-Moved s locked index open_row.0) (λ a b. absurd (open_row.1 b))
        (without _ db' row bytes buffer e16))

verified_row-small :
    (s : Service) (disk : Disk) (root : Root) (parts : List Text) (checksum : Text) (t r : Transfer)
    → leb t.size s.sync_verify_max ≡ true
    → verified_row s disk root parts checksum t ≡ ok r
    → (hash_server_file s disk root parts >>= λ current.
        ok (verdict_row s current (received_row s checksum t)))
      ≡ ok r
unfolding verified_row
verified_row-small s disk root parts checksum t r small made = ground arith

finish_receive-Effect :
    (s : Service) (disk : Disk) (db db' : Db) (t row : Transfer) (pk : ℕ) (root : Root)
    (parts : List Text) (checksum : Text)
    → find_transfer pk db ≡ some t
    → is_terminal t.status ≡ false
    → is_send t.direction ≡ false
    → finish_receive s disk db root parts checksum t ≡ ok (db', row)
    → Effect s pk db db' row
unfolding finish_receive verified_row
finish_receive-Effect s disk db db' t row pk root parts checksum found live receives e =
    let (_, _, e1) =
      >>=-eq-ok
        (raise_if
          (ltb (length (valid_chunk_indexes t.total_chunks t.received_chunks)) t.total_chunks)
          value_error)
        _ e in
    let (r, made, e2) = >>=-eq-ok (verified_row s disk root parts checksum t) _ e1 in
    elim (Bool-cases (leb t.size s.sync_verify_max)) [
      | inr large ↦
          let same : received_row s checksum t ≡ r = ground arith in
          inr (
            saved-Wrote s pk db db' t r row found
              (subst (Moved t) same (waiting-Moved s t checksum (ground arith)))
              (λ a b. absurd (ground arith)) e2)
      | inl small ↦
          let (current, _, e3) =
            >>=-eq-ok (hash_server_file s disk root parts) _
              (verified_row-small s disk root parts checksum t r small made) in
          let same : verdict_row s current (received_row s checksum t) ≡ r = ok_injective e3 in
          inr (
            saved-Wrote s pk db db' t r row found
              (subst (Moved t) same (verdict-Moved s t checksum current live receives))
              (λ a b. absurd (ground arith)) e2)
    ]

pub complete_receive-Effect :
    (s : Service) (disk : Disk) (db db' : Db) (t row : Transfer) (account : Account)
    (checksum : Text)
    → complete_receive s disk db t account checksum ≡ ok (db', row)
    → Effect s t.pk db db' row
unfolding complete_receive
complete_receive-Effect s disk db db' t row account checksum e =
    let (_, _, e1) = >>=-eq-ok (ensure_enabled s) _ e in
    let (_, _, e2) = >>=-eq-ok (check_direction account receive) _ e1 in
    let (sum, _, e3) = >>=-eq-ok (normalize_checksum s.deployment.lower false checksum) _ e2 in
    let (locked, there, e4) = >>=-eq-ok (or_raise (find_transfer t.pk db) not_found) _ e3 in
    let (_, _, e5) =
      >>=-eq-ok (raise_if (is_foreign locked.actor account) permission_denied) _ e4 in
    let (found, _, e6) =
      >>=-eq-ok (resolve_bound_transfer_path s.deployment locked account false) _ e5 in
    let (_, receives, e7) = >>=-eq-ok (raise_if (is_send locked.direction) value_error) _ e6 in
    elim (Bool-cases (is_terminal locked.status)) [
      | inl done ↦ inl (ground arith)
      | inr live ↦
          finish_receive-Effect s disk db db' locked row t.pk found.0 found.1 sum (ground arith)
            live (ground arith) (ground arith)
    ]
