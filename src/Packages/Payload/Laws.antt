-- ===== src/Packages/Payload/Laws.antt =====
-- The canonical payload is canonical (paxalia/packages/format.py).
use paxalia_dashboard.Prelude.{
  ℕ, ◌≡◌, ◌∙◌, refl, sym, ap, subst, inl, inr, false, Option, none, some, List, Text, codes,
  text_eq, text_eq→eq, text_eq_refl, pos, ok, ◌>>=◌, >>=-eq-ok, ok_injective, arith, Bool-cases,
}
use paxalia_dashboard.Availability.Response.{
  Json, integer, array, object, Items, no_items, item, Members, no_members, member_of, value_of,
  set_member,
}
use paxalia_dashboard.Packages.Payload.{
  Models, item_count, text_of, model_records, with_identity, text_items, model_metadata,
  models_metadata, records_counts, counted, normalized, list_of, canonicalize_members,
  canonicalize_payload_metadata,
}

value_of-set_member :
    (key : Text) (v : Json) (ms : Members) → value_of key (set_member key v ms) ≡ some v
unfolding value_of set_member
value_of-set_member key v no_members = rw (text_eq_refl key)
value_of-set_member key v (member_of k w ms) = elim (Bool-cases (text_eq k key)) [
  | inl here ↦ ground arith
  | inr other ↦ ground (arith, value_of-set_member key v ms)
]

-- Setting another key.
value_of-set_other :
    (key other : Text) (v : Json) (ms : Members)
    → text_eq key other ≡ false
    → value_of other (set_member key v ms) ≡ value_of other ms
unfolding value_of set_member
value_of-set_other key other v no_members apart = ground arith
value_of-set_other key other v (member_of k w ms) apart = elim (Bool-cases (text_eq k key)) [
  | inl here ↦
      let same = text_eq→eq k key here in
      let away : text_eq k other ≡ false = subst (λ t. text_eq t other ≡ false) (sym same) apart in
      ground arith
  | inr missed ↦ ground (arith, value_of-set_other key other v ms)
]

-- Setting a key to the value that it has.
set_member-value_of :
    (key : Text) (v : Json) (ms : Members) → value_of key ms ≡ some v → set_member key v ms ≡ ms
unfolding value_of set_member
set_member-value_of key v no_members found = absurd (ground arith)
set_member-value_of key v (member_of k w ms) found = elim (Bool-cases (text_eq k key)) [
  | inl here ↦ ground arith
  | inr other ↦ ground (arith, set_member-value_of key v ms)
]

value_of-with_identity :
    (names : Option (List Text)) (key : Text) (ms : Members)
    → text_eq (codes "identity_fields") key ≡ false
    → value_of key (with_identity names ms) ≡ value_of key ms
value_of-with_identity none key ms apart = refl
value_of-with_identity (some names) key ms apart =
    value_of-set_other (codes "identity_fields") key (array (text_items names)) ms apart

text_of_same :
    (m : Models) (key : Text) (ms ns : Members)
    → value_of key ms ≡ value_of key ns
    → text_of m key ms ≡ text_of m key ns
unfolding text_of
text_of_same m key ms ns same = rw (same, text_of) refl

with_identity-set_member :
    (names : Option (List Text)) (count : Json) (ms : Members)
    → with_identity names (set_member (codes "record_count") count (with_identity names ms))
      ≡ set_member (codes "record_count") count (with_identity names ms)
with_identity-set_member none count ms = refl
with_identity-set_member (some names) count ms =
    let fields = array (text_items names) in
    let inner = set_member (codes "identity_fields") fields ms in
    set_member-value_of (codes "identity_fields") fields
      (set_member (codes "record_count") count inner)
      (value_of-set_other (codes "record_count") (codes "identity_fields") count inner refl
        ∙ value_of-set_member (codes "identity_fields") fields ms)

-- The metadata of a model that was rebuilt is rebuilt to itself.
model_metadata_stable :
    (m : Models) (records : Items) (ms : Members)
    → model_metadata m records (model_metadata m records ms) ≡ model_metadata m records ms
unfolding model_metadata
model_metadata_stable m records ms =
    let label = text_of m (codes "label") ms in
    let count = integer (pos (model_records m label records)) in
    let names = m.identity_fields label in
    let done = set_member (codes "record_count") count (with_identity names ms) in
    let same_label : text_of m (codes "label") done ≡ label =
      text_of_same m (codes "label") done ms (
        value_of-set_other (codes "record_count") (codes "label") count (with_identity names ms)
          refl
        ∙ value_of-with_identity names (codes "label") ms refl) in
    ap
      (λ l.
        set_member (codes "record_count") (integer (pos (model_records m l records)))
          (with_identity (m.identity_fields l) done))
      same_label
    ∙ ap (set_member (codes "record_count") count) (with_identity-set_member names count ms)
    ∙ set_member-value_of (codes "record_count") count done
        (value_of-set_member (codes "record_count") count (with_identity names ms))

models_metadata_stable :
    (m : Models) (records models rebuilt : Items)
    → models_metadata m records models ≡ ok rebuilt
    → models_metadata m records rebuilt ≡ ok rebuilt
unfolding models_metadata
models_metadata_stable m records no_items rebuilt e =
    subst (λ r. models_metadata m records r ≡ ok r) (ok_injective e) refl
models_metadata_stable m records (item (object ms) vs) rebuilt e =
    let (rest, later, made) =
      >>=-eq-ok (models_metadata m records vs)
        (λ rest. ok (item (object (model_metadata m records ms)) rest)) e in
    let again = models_metadata_stable m records vs rest later in
    let done = model_metadata m records ms in
    let whole : models_metadata m records (item (object done) rest) ≡ ok (item (object done) rest) =
      ap (λ r. r >>= λ tail. ok (item (object (model_metadata m records done)) tail)) again
      ∙ ap (λ ns. ok (item (object ns) rest)) (model_metadata_stable m records ms) in
    subst (λ r. models_metadata m records r ≡ ok r) (ok_injective made) whole
models_metadata_stable m records (item _ vs) rebuilt e = absurd (ground arith)

-- The five keys of a canonical payload.
record IsNormal (models records : Items) (counts : ℕ × ℕ) (ms : Members) : Type 0 where
  models_set : value_of (codes "models") ms ≡ some (array models)
  records_set : value_of (codes "records") ms ≡ some (array records)
  count_set : value_of (codes "record_count") ms ≡ some (counted (item_count records))
  relationships_set : value_of (codes "relationship_count") ms ≡ some (counted counts.0)
  translations_set : value_of (codes "translation_count") ms ≡ some (counted counts.1)

normalized-IsNormal :
    (models records : Items) (counts : ℕ × ℕ) (ms : Members)
    → IsNormal models records counts (normalized models records counts ms)
normalized-IsNormal models records counts ms =
    let one = set_member (codes "models") (array models) ms in
    let two = set_member (codes "records") (array records) one in
    let three = set_member (codes "record_count") (counted (item_count records)) two in
    let four = set_member (codes "relationship_count") (counted counts.0) three in
    let k_models = codes "models" in
    let k_records = codes "records" in
    let k_count = codes "record_count" in
    let k_relations = codes "relationship_count" in
    let k_translations = codes "translation_count" in
    let n = counted (item_count records) in
    record {
      models_set =
          value_of-set_other k_translations k_models (counted counts.1) four refl
          ∙ value_of-set_other k_relations k_models (counted counts.0) three refl
          ∙ value_of-set_other k_count k_models n two refl
          ∙ value_of-set_other k_records k_models (array records) one refl
          ∙ value_of-set_member k_models (array models) ms;
      records_set =
          value_of-set_other k_translations k_records (counted counts.1) four refl
          ∙ value_of-set_other k_relations k_records (counted counts.0) three refl
          ∙ value_of-set_other k_count k_records n two refl
          ∙ value_of-set_member k_records (array records) one;
      count_set =
          value_of-set_other k_translations k_count (counted counts.1) four refl
          ∙ value_of-set_other k_relations k_count (counted counts.0) three refl
          ∙ value_of-set_member k_count n two;
      relationships_set =
          value_of-set_other k_translations k_relations (counted counts.1) four refl
          ∙ value_of-set_member k_relations (counted counts.0) three;
      translations_set = value_of-set_member k_translations (counted counts.1) four;
    }

normalized_stable :
    (models records : Items) (counts : ℕ × ℕ) (ms : Members)
    → IsNormal models records counts ms
    → normalized models records counts ms ≡ ms
normalized_stable models records counts ms normal =
    let k_records = codes "records" in
    let k_count = codes "record_count" in
    let k_relations = codes "relationship_count" in
    let k_translations = codes "translation_count" in
    let n = counted (item_count records) in
    ap
      (λ xs. set_member k_translations (counted counts.1) (
        set_member k_relations (counted counts.0)
          (set_member k_count n (set_member k_records (array records) xs))))
      (set_member-value_of (codes "models") (array models) ms normal.models_set)
    ∙ ap
        (λ xs.
          set_member k_translations (counted counts.1)
            (set_member k_relations (counted counts.0) (set_member k_count n xs)))
        (set_member-value_of k_records (array records) ms normal.records_set)
    ∙ ap
        (λ xs.
          set_member k_translations (counted counts.1)
            (set_member k_relations (counted counts.0) xs))
        (set_member-value_of k_count n ms normal.count_set)
    ∙ ap (λ xs. set_member k_translations (counted counts.1) xs)
        (set_member-value_of k_relations (counted counts.0) ms normal.relationships_set)
    ∙ set_member-value_of k_translations (counted counts.1) ms normal.translations_set

list_of-array :
    (key : Text) (vs : Items) (ms : Members)
    → value_of key ms ≡ some (array vs)
    → list_of key ms ≡ ok vs
unfolding list_of
list_of-array key vs ms found = rw (found, list_of) refl

canonicalize_members_stable :
    (m : Models) (ms out : Members)
    → canonicalize_members m ms ≡ ok out
    → canonicalize_members m out ≡ ok out
unfolding canonicalize_members
canonicalize_members_stable m ms out e =
    let (records, found_records, e1) =
      >>=-eq-ok (list_of (codes "records") ms)
        (λ records. list_of (codes "models") ms >>= λ models. records_counts records >>= λ counts.
          models_metadata m records models >>= λ metadata.
          ok (normalized metadata records counts ms))
        e in
    let (models, found_models, e2) =
      >>=-eq-ok (list_of (codes "models") ms)
        (λ models. records_counts records >>= λ counts.
          models_metadata m records models >>= λ metadata.
          ok (normalized metadata records counts ms))
        e1 in
    let (counts, found_counts, e3) =
      >>=-eq-ok (records_counts records)
        (λ counts. models_metadata m records models >>= λ metadata.
          ok (normalized metadata records counts ms))
        e2 in
    let (metadata, found_metadata, e4) =
      >>=-eq-ok (models_metadata m records models)
        (λ metadata. ok (normalized metadata records counts ms)) e3 in
    let is_out = ok_injective e4 in
    let normal : IsNormal metadata records counts out =
      subst (IsNormal metadata records counts) is_out
        (normalized-IsNormal metadata records counts ms) in
    rw
      (
        canonicalize_members,
        list_of-array (codes "records") records out normal.records_set,
        list_of-array (codes "models") metadata out normal.models_set,
        found_counts,
        models_metadata_stable m records models metadata found_metadata,
      )
      (ap ok (normalized_stable metadata records counts out normal))

-- The canonical payload is canonical: canonicalizing the result again changes nothing.
pub canonicalize_payload_metadata_stable :
    (m : Models) (payload canonical : Json)
    → canonicalize_payload_metadata m payload ≡ ok canonical
    → canonicalize_payload_metadata m canonical ≡ ok canonical
unfolding canonicalize_payload_metadata
canonicalize_payload_metadata_stable m (object ms) canonical e =
    let (out, made, last) = >>=-eq-ok (canonicalize_members m ms) (λ found. ok (object found)) e in
    subst (λ v. canonicalize_payload_metadata m v ≡ ok v) (ok_injective last)
      (ap (λ r. r >>= λ found. ok (object found)) (canonicalize_members_stable m ms out made))
canonicalize_payload_metadata_stable m _ canonical e = absurd (ground arith)
