-- ===== src/Uploads/Sequence.antt =====
-- Sequences of `upload_chunk` calls, by any clients and for any uploads (paxalia/views/uploads.py).
-- Each call, its handler of exceptions included, runs to its end before the next begins: the row locks
-- order the transactions so, but not the handlers, which run after the lock is released.
pub mod Laws
use paxalia_dashboard.Prelude.{
  ℕ, Bool, true, false, Option, none, some, List, [], ◌∷◌, ◌++◌, ◌==◌, ◌&&◌, if◌then◌else◌, ◌≡◌,
  ◌≢◌, ◌⊎◌,
}
use paxalia_dashboard.Transfer.Model.{Upload}
use paxalia_dashboard.Uploads.Session.{Store, Reply, progress}
use paxalia_dashboard.Uploads.Chunk.{Request, Reads, Faults, upload_chunk}
use paxalia_dashboard.Uploads.Chunk.Steps.{is_accepted}

pub record Call : Type 0 where
  pub faults : Faults
  pub reads : Reads
  pub request : Request

-- The calls, and after each of them the next ones.
unfoldable pub upload_chunks : ℕ → List Call → Store → List Reply × Store
upload_chunks configured [] store = ([], store)
upload_chunks configured (c ∷ cs) store =
    let (reply, next) = upload_chunk configured c.faults c.reads c.request store in
    let (replies, last) = upload_chunks configured cs next in (reply ∷ replies, last)

abbrev pub chunk_of : Request → List ℕ
chunk_of r = elim r.chunk [ none ↦ [] | some c ↦ c ]

-- The chunks that this upload's clients were told to have been received, one after the other.
abbrev pub acknowledged : ℕ → List Call → List Reply → List ℕ
acknowledged id [] replies = []
acknowledged id (c ∷ cs) [] = []
acknowledged id (c ∷ cs) (reply ∷ replies) =
    if c.request.upload_id == id && is_accepted reply
    then chunk_of c.request ++ acknowledged id cs replies
    else acknowledged id cs replies
