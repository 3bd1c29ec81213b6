-- ===== src/Transfer/Maintenance/Sweep.antt =====
-- What the whole expiry loop of `maintenance` does (paxalia/transfer_center/service.py).
use paxalia_dashboard.Prelude.{ℕ, suc, ◌+◌, ◌≡◌}
use paxalia_dashboard.Transfer.Model.{Transfer}
use paxalia_dashboard.Transfer.Service.{Db, Service, active_count}
use paxalia_dashboard.Transfer.Maintenance.{Counts, Pass, went}
use paxalia_dashboard.Transfer.Lifecycle.Slots.{Unique}

-- One row has left the active ones.
record HasExpired (db db' : Db) : Type 0 where
  pub unique : Unique db'.transfers
  pub fewer : suc (active_count db') ≡ active_count db

-- Where an expiry loop that starts with these counts and this store ends.
record HasSwept (c : Counts) (left : ℕ) (db : Db) (p : Pass) : Type 0 where
  pub counts : Counts
  pub rest : ℕ
  pub store : Db
  pub ends : p ≡ went counts rest store
  pub used : counts.processed + rest ≡ c.processed + left
  pub each_expired : counts.processed + c.expired ≡ c.processed + counts.expired
  pub gone : active_count store + counts.expired ≡ active_count db + c.expired
