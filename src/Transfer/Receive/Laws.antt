-- ===== src/Transfer/Receive/Laws.antt =====
-- What the chunks of a receive deliver (`read_receive_chunk` of paxalia/transfer_center/service.py).
use paxalia_dashboard.Prelude.{
  ℕ, zero, suc, ◌+◌, ◌-◌, ◌*◌, ◌≤◌, ◌<◌, min, ◌≡◌, refl, sym, ap, subst, ◌∙◌, List, [], ◌∷◌, ◌++◌,
  length, take, drop, arith, ok, Result, ◌>>=◌, length-take, length-drop,
}
use paxalia_dashboard.Transfer.Model.{Transfer, TransferError}
use paxalia_dashboard.Transfer.Chunks.{chunk_count}
use paxalia_dashboard.Transfer.Chunks.Laws.{chunk_count_covers}
use paxalia_dashboard.Transfer.Receive.{read_at, read_chunk}

take_nil : (n : ℕ) → (let xs : List ℕ = [] in take n xs) ≡ []
take_nil zero = refl
take_nil (suc n) = refl

take-drop : (n m : ℕ) (xs : List ℕ) → take n xs ++ take m (drop n xs) ≡ take (n + m) xs
take-drop zero m xs = ap (λ i. take i xs) (omega arith)
take-drop (suc n) m [] = take_nil m ∙ sym (take_nil (suc n + m))
take-drop (suc n) m (x ∷ xs) =
    ap (λ ys. x ∷ ys) (take-drop n m xs)
    ∙ ap (λ i. take i (x ∷ xs)) (let e : suc (n + m) ≡ suc n + m = omega arith in e)

take_all : (n : ℕ) (xs : List ℕ) → length xs ≤ n → take n xs ≡ xs
take_all zero [] h = refl
take_all zero (x ∷ xs) h = absurd (omega (arith, h))
take_all (suc n) [] h = refl
take_all (suc n) (x ∷ xs) h = ap (λ ys. x ∷ ys) (take_all n xs (omega (arith, h)))

-- Asking for no more than there is gives the same.
take-min : (c k : ℕ) (xs : List ℕ) → k ≡ min c (length xs) → take k xs ≡ take c xs
take-min zero k xs h = ap (λ i. take i xs) (let e : k ≡ 0 = omega (arith, h) in e)
take-min (suc c) k [] h = take_nil k
take-min (suc c) zero (x ∷ xs) h = absurd (omega (arith, h))
take-min (suc c) (suc k) (x ∷ xs) h = ap (λ ys. x ∷ ys) (take-min c k xs (omega (arith, h)))

-- The parts of the content that the first `n` chunks are.
joined : Transfer → List ℕ → ℕ → List ℕ
joined t content zero = []
joined t content (suc n) =
    joined t content n
    ++ read_at (n * t.chunk_size) (min t.chunk_size (t.size - n * t.chunk_size)) content

joined-take :
    (t : Transfer) (content : List ℕ) (n : ℕ)
    → length content ≡ t.size
    → joined t content n ≡ take (n * t.chunk_size) content
unfolding joined read_at
joined-take t content zero h =
    ap (λ i. take i content) (let e : 0 ≡ 0 * t.chunk_size = omega arith in e)
joined-take t content (suc n) h =
    let len : length (drop (n * t.chunk_size) content) ≡ t.size - n * t.chunk_size =
      length-drop (n * t.chunk_size) content ∙ ap (λ i. i - n * t.chunk_size) h in
    ap
      (λ ys.
        ys ++ read_at (n * t.chunk_size) (min t.chunk_size (t.size - n * t.chunk_size)) content)
      (joined-take t content n h)
    ∙ ap (λ ys. take (n * t.chunk_size) content ++ ys)
        (take-min t.chunk_size (min t.chunk_size (t.size - n * t.chunk_size))
          (drop (n * t.chunk_size) content) (ap (min t.chunk_size) (sym len)))
    ∙ take-drop (n * t.chunk_size) t.chunk_size content
    ∙ ap (λ i. take i content)
        (let e : n * t.chunk_size + t.chunk_size ≡ suc n * t.chunk_size = grind arith in e)

read_chunk-ok :
    (t : Transfer) (index : ℕ) (content : List ℕ)
    → index * t.chunk_size ≤ t.size
    → length content ≡ t.size
    → read_chunk t index content
      ≡ ok (
          read_at (index * t.chunk_size) (min t.chunk_size (t.size - index * t.chunk_size)) content)
unfolding read_chunk read_at
read_chunk-ok t index content h len =
    let count : length (
          take (min t.chunk_size (t.size - index * t.chunk_size))
            (drop (index * t.chunk_size) content))
        ≡ min t.chunk_size (t.size - index * t.chunk_size) =
      length-take (min t.chunk_size (t.size - index * t.chunk_size))
        (drop (index * t.chunk_size) content)
      ∙ ap (λ i. min (min t.chunk_size (t.size - index * t.chunk_size)) i)
          (length-drop (index * t.chunk_size) content)
      ∙ omega (arith, len) in
    ground (arith, h, count)

start_inside :
    (index total chunk size : ℕ) → index < total → (total - 1) * chunk < size → index * chunk ≤ size
start_inside index total chunk size below last = grind arith

-- The answers to the requests for the first `n` chunks, one after the other, or the first refusal.
unfoldable pub answers : Transfer → List ℕ → ℕ → Result TransferError (List ℕ)
answers t content zero = ok []
answers t content (suc n) = do
  before ← answers t content n
  piece ← read_chunk t n content
  ok (before ++ piece)

answers-joined :
    (t : Transfer) (content : List ℕ) (n : ℕ)
    → ((index : ℕ) → index < n → index * t.chunk_size ≤ t.size)
    → length content ≡ t.size
    → answers t content n ≡ ok (joined t content n)
unfolding answers joined
answers-joined t content zero inside len = refl
answers-joined t content (suc n) inside len =
    rw
      (
        answers-joined t content n (λ index below. inside index (omega (arith, below))) len,
        read_chunk-ok t n content (inside n (omega arith)) len,
      )
      refl

-- For an unchanged file of the declared size, not empty and cut into chunks of at least one byte:
-- every request for a chunk of the transfer is answered, and the answers to all of them, put together
-- in order, are the file's content.
pub read_chunk-joined :
    (t : Transfer) (content : List ℕ)
    → 0 < t.chunk_size
    → 0 < t.size
    → length content ≡ t.size
    → t.total_chunks ≡ chunk_count t.size t.chunk_size
    → answers t content t.total_chunks ≡ ok content
read_chunk-joined t content h full len total =
    let (covers, needed) = chunk_count_covers t.size t.chunk_size h full in
    answers-joined t content t.total_chunks
      (λ index below.
        start_inside index t.total_chunks t.chunk_size t.size below
          (subst (λ n. (n - 1) * t.chunk_size < t.size) (sym total) needed))
      len
    ∙ ap ok (
        joined-take t content t.total_chunks len
        ∙ take_all (t.total_chunks * t.chunk_size) content (
            subst (λ n. length content ≤ n * t.chunk_size) (sym total)
              (omega (arith, len, covers))))
