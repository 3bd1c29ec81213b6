-- ===== src/Retention/Chosen.antt =====
-- The rows whose keys a pass chooses (paxalia/resource_policies.py).
use paxalia_dashboard.Prelude.{
  ℕ, zero, suc, ◌≡◌, inl, inr, refl, sym, subst, Bool, true, false, List, [], ◌∷◌, map, take,
  filter, ◌==◌, ==_iff, if◌then◌else◌, Bool-cases, arith,
}
use mathlib.Core.List.{Memᴰ}
use mathlib.Core.List.Memᴰ
use paxalia_dashboard.Retention.Prune.{
  Event, cleanup_order, insert_event, is_cleaned_before, first_ids, in_ids,
}

-- One step of a filter, by the answer of the test.
filter_step :
    (p : Event → Bool) (e f : Event) (rest fs : List Event) (answer : Bool)
    → p f ≡ answer
    → (Memᴰ e rest → Memᴰ e fs × (p e ≡ true))
    → Memᴰ e (if answer then f ∷ rest else rest)
    → Memᴰ e (f ∷ fs) × (p e ≡ true)
filter_step p e f rest fs false tested later m =
    let (there, holds) = later m in (Memᴰ.tail there, holds)
filter_step p e f rest fs true tested later (Memᴰ.head same) =
    (Memᴰ.head same, subst (λ g. p g ≡ true) (sym same) tested)
filter_step p e f rest fs true tested later (Memᴰ.tail m) =
    let (there, holds) = later m in (Memᴰ.tail there, holds)

pub filter-Mem :
    (p : Event → Bool) (e : Event) (es : List Event)
    → Memᴰ e (filter p es)
    → Memᴰ e es × (p e ≡ true)
filter-Mem p e [] m = absurd (Memᴰ.not-nil m)
filter-Mem p e (f ∷ fs) m = filter_step p e f (filter p fs) fs (p f) refl (filter-Mem p e fs) m

take-Mem : (n : ℕ) (e : Event) (es : List Event) → Memᴰ e (take n es) → Memᴰ e es
take-Mem zero e es m = absurd (Memᴰ.not-nil m)
take-Mem (suc n) e [] m = m
take-Mem (suc n) e (f ∷ fs) (Memᴰ.head same) = Memᴰ.head same
take-Mem (suc n) e (f ∷ fs) (Memᴰ.tail m) = Memᴰ.tail (take-Mem n e fs m)

insert_step :
    (e f g : Event) (rest gs : List Event) (answer : Bool)
    → (Memᴰ e rest → Memᴰ e (f ∷ gs))
    → Memᴰ e (if answer then f ∷ g ∷ gs else g ∷ rest)
    → Memᴰ e (f ∷ g ∷ gs)
insert_step e f g rest gs true later m = m
insert_step e f g rest gs false later (Memᴰ.head same) = Memᴰ.tail (Memᴰ.head same)
insert_step e f g rest gs false later (Memᴰ.tail m) = elim (later m) [
  | Memᴰ.head same ↦ Memᴰ.head same
  | Memᴰ.tail there ↦ Memᴰ.tail (Memᴰ.tail there)
]

insert_event-Mem : (e f : Event) (es : List Event) → Memᴰ e (insert_event f es) → Memᴰ e (f ∷ es)
unfolding insert_event
insert_event-Mem e f [] m = m
insert_event-Mem e f (g ∷ gs) m =
    insert_step e f g (insert_event f gs) gs (is_cleaned_before f g) (insert_event-Mem e f gs) m

cleanup_order-Mem : (e : Event) (es : List Event) → Memᴰ e (cleanup_order es) → Memᴰ e es
unfolding cleanup_order
cleanup_order-Mem e [] m = m
cleanup_order-Mem e (f ∷ fs) m = elim (insert_event-Mem e f (cleanup_order fs) m) [
  | Memᴰ.head same ↦ Memᴰ.head same
  | Memᴰ.tail there ↦ Memᴰ.tail (cleanup_order-Mem e fs there)
]

ids-Mem :
    (i : ℕ) (es : List Event)
    → in_ids i (map (λ e. e.id) es) ≡ true
    → (e : Event) × Memᴰ e es × (i ≡ e.id)
ids-Mem i [] listed = absurd (ground arith)
ids-Mem i (f ∷ fs) listed = elim (Bool-cases (i == f.id)) [
  | inl here ↦ (f, Memᴰ.head refl, (==_iff i f.id).0 here)
  | inr other ↦ let (e, there, same) = ids-Mem i fs (ground arith) in (e, Memᴰ.tail there, same)
]

-- The rows of the chosen keys satisfy the test.
pub first_ids-Mem :
    (i amount : ℕ) (matches : Event → Bool) (es : List Event)
    → in_ids i (first_ids amount matches es) ≡ true
    → (e : Event) × Memᴰ e es × (matches e ≡ true) × (i ≡ e.id)
unfolding first_ids
first_ids-Mem i amount matches es listed =
    let chosen = cleanup_order (filter matches es) in
    let (e, m, same) = ids-Mem i (take amount chosen) listed in
    let (there, holds) =
      filter-Mem matches e es
        (cleanup_order-Mem e (filter matches es) (take-Mem amount e chosen m)) in
    (e, there, holds, same)
