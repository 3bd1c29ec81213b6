-- ===== src/Transfer/Lifecycle/Moves.antt =====
-- The moves of one row along the status diagram (paxalia/transfer_center/service.py).
use paxalia_dashboard.Prelude.{
  ℕ, suc, ◌≡◌, ◌≤◌, ◌∙◌, refl, sym, subst, inl, inr, Bool, true, false, Text, text_eq, text_eq→eq,
  ok, ◌>>=◌, ◌>>◌, raise_if, >>=-eq-ok, Bool-cases, arith,
}
use paxalia_dashboard.Transfer.Model.{
  Transfer, Upload, Account, value_error, Status, preparing, transferring, verifying, completed,
  cancelled, is_verifying, is_send, is_terminal, is_upload_failed, Direction, send,
}
use paxalia_dashboard.Transfer.Exchange.{resolve_bound_transfer_path}
use paxalia_dashboard.Transfer.Chunks.{received_bytes}
use paxalia_dashboard.Transfer.Service.{
  Db, Service, Disk, check_direction, find_upload, send_progress,
}
use paxalia_dashboard.Transfer.Control.{
  or_raise, is_settled, is_pausable, is_retryable, paused_row, resumed_row, started_row,
  retried_row, retry_progress,
}
use paxalia_dashboard.Transfer.Receive.{chunk_row, received_row, verdict_row}
use paxalia_dashboard.Transfer.Lifecycle.{may_move}

-- What is right about every row: retries and bytes are within their limits, and a completed row
-- has moved all of its bytes and has equal checksums.
pub record IsSound (t : Transfer) : Type 0 where
  pub retries : t.retry_count ≤ t.max_retries
  pub bytes : t.bytes_transferred ≤ t.size
  pub whole :
      t.status ≡ completed
      → (t.bytes_transferred ≡ t.size) × (t.destination_checksum ≡ t.source_checksum)

-- What a transfer is for: its key, direction, name, size and owner.
abbrev pub Keeps : Transfer → Transfer → Type 0
Keeps t row =
    (row.pk ≡ t.pk)
    × (row.direction ≡ t.direction)
    × (row.filename ≡ t.filename)
    × (row.size ≡ t.size)
    × (row.actor ≡ t.actor)

pub Keeps-trans : (a b c : Transfer) → Keeps a b → Keeps b c → Keeps a c
Keeps-trans a b c h k = (k.0 ∙ h.0, k.1 ∙ h.1, k.2 ∙ h.2, k.3 ∙ h.3, k.4 ∙ h.4)

-- One call moved a row: along the status diagram, without touching what the row is for.
pub record Moved (t row : Transfer) : Type 0 where
  pub along : may_move t.direction t.status row.status ≡ true
  pub keeps : Keeps t row
  pub retries : t.retry_count ≤ row.retry_count
  pub sound : IsSound t → IsSound row

pub paused-Moved :
    (s : Service) (t : Transfer) → is_pausable t.status ≡ true → Moved t (paused_row s t)
unfolding may_move
paused-Moved s t h = record {
  along = h;
  keeps = (refl, refl, refl, refl, refl);
  retries = ground arith;
  sound = λ k. record { retries = k.retries; bytes = k.bytes; whole = λ c. absurd (ground arith) };
}

-- The statuses in which an upload session lets a send go on.
abbrev pub is_progress : Status → Bool
is_progress preparing = true
is_progress transferring = true
is_progress verifying = true
is_progress _ = false

pub progress-may_move :
    (d : Direction) (from to : Status)
    → is_progress to ≡ true
    → is_settled from ≡ false
    → may_move d from to ≡ true
unfolding may_move
progress-may_move d from to h k = ground arith

pub send_progress-bounded :
    (disk : Disk) (t : Transfer) (u : Upload) (p : Status × ℕ)
    → send_progress disk t u ≡ ok p
    → (is_progress p.0 ≡ true) × (p.1 ≤ t.size)
unfolding send_progress
send_progress-bounded disk t u p h = ground arith

pub resumed-Moved :
    (s : Service) (t : Transfer) (status : Status) (bytes : ℕ)
    → is_progress status ≡ true
    → is_terminal t.status ≡ false
    → (t.bytes_transferred ≤ t.size → bytes ≤ t.size)
    → Moved t (resumed_row s t status bytes)
resumed-Moved s t status bytes h k le = record {
  along = progress-may_move t.direction t.status status h (ground arith);
  keeps = (refl, refl, refl, refl, refl);
  retries = ground arith;
  sound =
      λ x. record { retries = x.retries; bytes = le x.bytes; whole = λ c. absurd (ground arith) };
}

pub started-Moved : (s : Service) (t row : Transfer) → Moved t row → Moved t (started_row s row)
started-Moved s t row k = record {
  along = k.along;
  keeps = k.keeps;
  retries = k.retries;
  sound = λ x. record {
    retries = (k.sound x).retries;
    bytes = (k.sound x).bytes;
    whole = (k.sound x).whole;
  };
}

pub retried-Moved :
    (s : Service) (t : Transfer) (status : Status) (bytes : ℕ)
    → is_progress status ≡ true
    → is_retryable t.status ≡ true
    → suc t.retry_count ≤ t.max_retries
    → (t.bytes_transferred ≤ t.size → bytes ≤ t.size)
    → Moved t (retried_row s t status bytes)
retried-Moved s t status bytes h k more le = record {
  along = progress-may_move t.direction t.status status h (ground arith);
  keeps = (refl, refl, refl, refl, refl);
  retries = ground arith;
  sound = λ x. record { retries = more; bytes = le x.bytes; whole = λ c. absurd (ground arith) };
}

pub retry_progress-bounded :
    (s : Service) (disk : Disk) (db : Db) (t : Transfer) (account : Account) (p : Status × ℕ)
    → retry_progress s disk db t account ≡ ok p
    → (is_progress p.0 ≡ true) × (t.bytes_transferred ≤ t.size → p.1 ≤ t.size)
unfolding retry_progress
retry_progress-bounded s disk db t account p e = elim (Bool-cases (is_send t.direction)) [
  | inl sends ↦
      let branch : (do
        check_direction account send
        resolve_bound_transfer_path s.deployment t account true
        u ← or_raise (find_upload t.upload_session db) value_error
        raise_if (is_upload_failed u.status) value_error
        send_progress disk t u)
          ≡ ok p =
        ground arith in
      let (_, _, e1) = >>=-eq-ok (check_direction account send) _ branch in
      let (_, _, e2) = >>=-eq-ok (resolve_bound_transfer_path s.deployment t account true) _ e1 in
      let (u, _, e3) = >>=-eq-ok (or_raise (find_upload t.upload_session db) value_error) _ e2 in
      let (_, _, e4) = >>=-eq-ok (raise_if (is_upload_failed u.status) value_error) _ e3 in
      let bounded = send_progress-bounded disk t u p e4 in (bounded.0, λ k. bounded.1)
  | inr receives ↦ ground arith
]

pub cancelled-Moved :
    (t row : Transfer) (at : ℕ)
    → is_settled t.status ≡ false
    → is_verifying t.status ≡ false
    → row ≡ record t { status = cancelled; updated_at = at }
    → Moved t row
unfolding may_move
cancelled-Moved t row at h k e = subst (Moved t) (sym e) (record {
  along = ground arith;
  keeps = (refl, refl, refl, refl, refl);
  retries = ground arith;
  sound = λ x. record { retries = x.retries; bytes = x.bytes; whole = λ c. absurd (ground arith) };
})

-- The received bytes are at most the size, whatever indexes are stored.
pub received-Moved :
    (s : Service) (t : Transfer) (index : ℕ)
    → is_settled t.status ≡ false
    → Moved t (chunk_row s t index)
unfolding may_move received_bytes
received-Moved s t index h = record {
  along = ground arith;
  keeps = (refl, refl, refl, refl, refl);
  retries = ground arith;
  sound =
      λ x. record { retries = x.retries; bytes = ground arith; whole = λ c. absurd (ground arith) };
}

pub waiting-Moved :
    (s : Service) (t : Transfer) (checksum : Text)
    → is_settled t.status ≡ false
    → Moved t (received_row s checksum t)
unfolding may_move
waiting-Moved s t checksum h = record {
  along = ground arith;
  keeps = (refl, refl, refl, refl, refl);
  retries = ground arith;
  sound =
      λ x. record { retries = x.retries; bytes = ground arith; whole = λ c. absurd (ground arith) };
}

pub verdict-Moved :
    (s : Service) (t : Transfer) (checksum current : Text)
    → is_terminal t.status ≡ false
    → is_send t.direction ≡ false
    → Moved t (verdict_row s current (received_row s checksum t))
unfolding may_move
verdict-Moved s t checksum current h k = elim (Bool-cases (text_eq current checksum)) [
  | inl same ↦ record {
    along = ground arith;
    keeps = ground arith;
    retries = ground arith;
    sound = λ x. record {
      retries = ground (arith, x.retries);
      bytes = ground arith;
      whole = λ c. (ground arith, ground (arith, text_eq→eq current checksum));
    };
  }
  | inr different ↦ record {
    along = ground arith;
    keeps = ground arith;
    retries = ground arith;
    sound = λ x. record {
      retries = ground (arith, x.retries);
      bytes = ground arith;
      whole = λ c. absurd (ground arith);
    };
  }
]
