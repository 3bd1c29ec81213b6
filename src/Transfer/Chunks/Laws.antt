-- ===== src/Transfer/Chunks/Laws.antt =====
-- When the recorded chunks amount to the whole file (paxalia/transfer_center/service.py).
use paxalia_dashboard.Prelude.{
  ℕ, suc, ◌+◌, ◌-◌, ◌*◌, ◌≤◌, ◌<◌, ◌≡◌, ◌↔◌, List, [], ◌∷◌, ℤ, pos, negsuc, length, arith, ap,
}
use native.Mathlib.Decide.{dec_lt}
use native.Mathlib.Nat.{le_refl}
use paxalia_dashboard.Transfer.Chunks.{
  insert, valid_chunk_indexes, sum_lengths, received_bytes, chunk_count,
}

-- Strictly increasing, from a lower bound on.
abbrev Increasing : ℕ → List ℕ → Type 0
Increasing lo [] = Unit
Increasing lo (i ∷ is) = (lo ≤ i) × Increasing (suc i) is

-- All below a bound.
abbrev Below : ℕ → List ℕ → Type 0
Below hi [] = Unit
Below hi (i ∷ is) = (i < hi) × Below hi is

insert-Increasing :
    (lo i : ℕ) (is : List ℕ) → lo ≤ i → Increasing lo is → Increasing lo (insert i is)
unfolding insert
insert-Increasing lo i [] h k = (h, tt)
insert-Increasing lo i (j ∷ js) h k = ground (arith, insert-Increasing (suc j) i js)

insert-Below : (hi i : ℕ) (is : List ℕ) → i < hi → Below hi is → Below hi (insert i is)
unfolding insert
insert-Below hi i [] h k = (h, tt)
insert-Below hi i (j ∷ js) h k = ground (arith, insert-Below hi i js)

valid-Increasing : (total : ℕ) (raw : List ℤ) → Increasing 0 (valid_chunk_indexes total raw)
unfolding valid_chunk_indexes
valid-Increasing total [] = tt
valid-Increasing total (negsuc n ∷ raw) = valid-Increasing total raw
valid-Increasing total (pos n ∷ raw) =
    ground
      (arith, valid-Increasing total raw, insert-Increasing 0 n (valid_chunk_indexes total raw))

valid-Below : (total : ℕ) (raw : List ℤ) → Below total (valid_chunk_indexes total raw)
unfolding valid_chunk_indexes
valid-Below total [] = tt
valid-Below total (negsuc n ∷ raw) = valid-Below total raw
valid-Below total (pos n ∷ raw) =
    ground (arith, valid-Below total raw, insert-Below total n (valid_chunk_indexes total raw))

-- An increasing list of indexes in [lo, hi) has at most hi - lo entries.
length-Increasing :
    (lo hi : ℕ) (is : List ℕ) → lo ≤ hi → Increasing lo is → Below hi is → length is + lo ≤ hi
length-Increasing lo hi [] l h k = omega arith
length-Increasing lo hi (i ∷ is) l h k = omega (arith, length-Increasing (suc i) hi is k.0 h.1 k.1)

mul-le : (a b c : ℕ) → a ≤ b → a * c ≤ b * c
mul-le a b c h = grind arith

mul-lt : (a b c : ℕ) → a < b → 0 < c → a * c < b * c
mul-lt a b c h k = grind arith

module _ (size chunk : ℕ) where
  -- The chunks from an index on carry at most the bytes that are left there.
  sum-le : (lo : ℕ) (is : List ℕ) → Increasing lo is → sum_lengths size chunk is ≤ size - lo * chunk
  unfolding sum_lengths
  sum-le lo [] h = omega arith
  sum-le lo (i ∷ is) h = omega (arith, sum-le (suc i) is h.1, mul-le lo i chunk h.0)

  -- With one index left out, a byte is missing; with none, all bytes are there.
  sum-all :
      (lo hi : ℕ) (is : List ℕ)
      → lo ≤ hi
      → Increasing lo is
      → Below hi is
      → length is + lo ≡ hi
      → size ≤ hi * chunk
      → sum_lengths size chunk is ≡ size - lo * chunk
  unfolding sum_lengths
  sum-all lo hi [] l h k e c =
      let same : lo ≡ hi = omega arith in omega (arith, ap (λ n. n * chunk) same)
  sum-all lo hi (i ∷ is) l h k e c =
      let first : i ≡ lo = omega (arith, length-Increasing (suc i) hi is k.0 h.1 k.1) in
      omega (arith, ap (λ n. n * chunk) first, sum-all (suc i) hi is k.0 h.1 k.1 (omega arith) c)

  sum-part :
      (lo hi : ℕ) (is : List ℕ)
      → lo ≤ hi
      → Increasing lo is
      → Below hi is
      → length is + lo < hi
      → 0 < chunk
      → (hi - 1) * chunk < size
      → sum_lengths size chunk is < size - lo * chunk
  unfolding sum_lengths
  sum-part lo hi [] l h k e c p = omega (arith, mul-le lo (hi - 1) chunk (omega arith))
  sum-part lo hi (i ∷ is) l h k e c p = elim (dec_lt lo i) [
    | yes later ↦ omega (
      arith,
      sum-le i (i ∷ is) (le_refl i, h.1),
      mul-lt lo i chunk later c,
      mul-le lo (hi - 1) chunk (omega arith),
    )
    | no not_later ↦
        let first : i ≡ lo = omega arith in
        omega
          (arith, ap (λ n. n * chunk) first, sum-part (suc i) hi is k.0 h.1 k.1 (omega arith) c p)
  ]

-- The number of chunks covers the size, and one chunk less does not.
pub chunk_count_covers :
    (size chunk : ℕ)
    → 0 < chunk
    → 0 < size
    → (size ≤ chunk_count size chunk * chunk) × ((chunk_count size chunk - 1) * chunk < size)
chunk_count_covers size chunk c s = (grind arith, grind arith)

-- The byte count never passes the size, whatever is recorded; and for a transfer cut into
-- `chunk_count` chunks it is the size exactly if every chunk index is recorded.
pub received_bytes_complete :
    (size chunk : ℕ) (raw : List ℤ)
    → 0 < chunk
    → 0 < size
    → let total = chunk_count size chunk in
      (received_bytes size chunk total raw ≤ size)
      × ((received_bytes size chunk total raw ≡ size)
          ↔ (length (valid_chunk_indexes total raw) ≡ total))
unfolding received_bytes
received_bytes_complete size chunk raw c s =
    let total : ℕ = chunk_count size chunk in
    let indexes : List ℕ = valid_chunk_indexes total raw in
    let (covers, needed) = chunk_count_covers size chunk c s in
    let increasing : Increasing 0 indexes = valid-Increasing total raw in
    let below : Below total indexes = valid-Below total raw in
    let few : length indexes + 0 ≤ total =
      length-Increasing 0 total indexes (omega arith) increasing below in
    (
      omega arith,
      (
        λ whole. elim (dec_lt (length indexes) total) [
          | yes missing ↦ absurd (
              omega (
                arith,
                sum-part size chunk 0 total indexes (omega arith) increasing below (omega arith) c
                    needed,
              ))
          | no all ↦ omega arith
        ],
        λ full. omega (
          arith,
          sum-all size chunk 0 total indexes (omega arith) increasing below (omega arith) covers,
        ),
      ),
    )
