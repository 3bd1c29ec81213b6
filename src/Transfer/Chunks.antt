-- ===== src/Transfer/Chunks.antt =====
-- Chunk accounting of paxalia/transfer_center/service.py: `_valid_chunk_indexes`, `_received_bytes`,
-- and how a transfer is cut into chunks. A set of indexes is a strictly increasing list.
pub mod Laws
use paxalia_dashboard.Prelude.{
  ℕ, zero, suc, ◌+◌, ◌-◌, ◌*◌, ◌/◌, min, Bool, true, false, List, [], ◌∷◌, ℤ, pos, negsuc, ltb,
  ◌==◌, if◌then◌else◌, length,
}

-- `s.add(i)` on a set of naturals.
unfoldable pub insert : ℕ → List ℕ → List ℕ
insert i [] = i ∷ []
insert i (j ∷ js) =
    let rest = insert i js in if ltb i j then i ∷ j ∷ js else if i == j then j ∷ js else j ∷ rest

-- The indexes among the stored ones that lie in the transfer, each once.
unfoldable pub valid_chunk_indexes : ℕ → List ℤ → List ℕ
valid_chunk_indexes total [] = []
valid_chunk_indexes total (negsuc n ∷ raw) = valid_chunk_indexes total raw
valid_chunk_indexes total (pos n ∷ raw) =
    let rest = valid_chunk_indexes total raw in if ltb n total then insert n rest else rest

-- The bytes of one chunk: `min(chunk_size, max(0, size - index * chunk_size))`.
abbrev pub chunk_length : ℕ → ℕ → ℕ → ℕ
chunk_length size chunk index = min chunk (size - index * chunk)

unfoldable pub sum_lengths : ℕ → ℕ → List ℕ → ℕ
sum_lengths size chunk [] = 0
sum_lengths size chunk (i ∷ is) = chunk_length size chunk i + sum_lengths size chunk is

-- `_received_bytes`
unfoldable pub received_bytes : ℕ → ℕ → ℕ → List ℤ → ℕ
received_bytes size chunk total raw =
    min size (sum_lengths size chunk (valid_chunk_indexes total raw))

-- `(size + chunk - 1) // chunk`
abbrev pub chunk_count : ℕ → ℕ → ℕ
chunk_count size chunk = (size + chunk - 1) / chunk
