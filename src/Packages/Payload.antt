-- ===== src/Packages/Payload.antt =====
-- `_canonicalize_payload_metadata` of paxalia/packages/format.py: the counts of a payload are
-- rebuilt from its records.
pub mod Laws
use paxalia_dashboard.Prelude.{
  ℕ, zero, suc, ◌+◌, Bool, true, false, Option, none, some, List, [], ◌∷◌, Text, codes, text_eq,
  if◌then◌else◌, pos, Result, ok, err, ◌>>=◌,
}
use paxalia_dashboard.Availability.Response.{
  Json, null, bool, integer, float, string, array, object, Items, no_items, item, Members,
  no_members, member_of, value_of, set_member,
}

-- `str`, `str.lower`, whether a float literal is zero, and the identity fields of the installed model
-- of a label: nothing if there is no such model, if it has another label, or if looking it up raises.
pub record Models : Type 0 where
  pub str : Json → Text
  pub lower : Text → Text
  pub is_zero : Text → Bool
  pub identity_fields : Text → Option (List Text)

-- A `ValueError`.
pub data PayloadError : Type 0 where
  value_error : PayloadError

unfoldable pub item_count : Items → ℕ
item_count no_items = 0
item_count (item v vs) = suc (item_count vs)

unfoldable pub member_count : Members → ℕ
member_count no_members = 0
member_count (member_of k v ms) = suc (member_count ms)

-- `sum(len(values) for values in mapping.values() if isinstance(values, list))`
unfoldable pub listed_count : Members → ℕ
unfolding item_count
listed_count no_members = 0
listed_count (member_of k (array vs) ms) = item_count vs + listed_count ms
listed_count (member_of k _ ms) = listed_count ms

-- `mapping.get(key, {})`, which must be a mapping.
unfoldable pub mapping_of : Text → Members → Result PayloadError Members
mapping_of key ms = elim (value_of key ms) [
  | none ↦ ok no_members
  | some (object found) ↦ ok found
  | some v ↦ err value_error
]

-- The relationships and the translations of one record.
unfoldable pub record_counts : Members → Result PayloadError (ℕ × ℕ)
unfolding mapping_of member_count listed_count
record_counts ms = do
  relationships ← mapping_of (codes "relationships") ms
  many_to_many ← mapping_of (codes "many_to_many") ms
  translations ← mapping_of (codes "translations") ms
  ok (member_count relationships + listed_count many_to_many, member_count translations)

-- Those of all records; one that is no mapping is passed over.
unfoldable pub records_counts : Items → Result PayloadError (ℕ × ℕ)
unfolding record_counts
records_counts no_items = ok (0, 0)
records_counts (item (object ms) vs) = do
  here ← record_counts ms
  rest ← records_counts vs
  ok (here.0 + rest.0, here.1 + rest.1)
records_counts (item _ vs) = records_counts vs

abbrev is_falsy : Models → Json → Bool
is_falsy m null = true
is_falsy m (bool false) = true
is_falsy m (integer (pos zero)) = true
is_falsy m (string []) = true
is_falsy m (array no_items) = true
is_falsy m (object no_members) = true
is_falsy m (float t) = m.is_zero t
is_falsy m _ = false

-- `str(mapping.get(key) or "")`; of a string it is the string.
unfoldable pub text_of : Models → Text → Members → Text
text_of m key ms = elim (value_of key ms) [
  | none ↦ []
  | some (string s) ↦ s
  | some v ↦ if is_falsy m v then [] else m.str v
]

-- The records of a model.
unfoldable pub model_records : Models → Text → Items → ℕ
unfolding text_of
model_records m label no_items = 0
model_records m label (item (object ms) vs) =
    let rest = model_records m label vs in
    if text_eq (m.lower (text_of m (codes "model") ms)) (m.lower label) then suc rest else rest
model_records m label (item _ vs) = model_records m label vs

abbrev text_items : List Text → Items
text_items [] = no_items
text_items (t ∷ ts) = item (string t) (text_items ts)

abbrev with_identity : Option (List Text) → Members → Members
with_identity none ms = ms
with_identity (some names) ms = set_member (codes "identity_fields") (array (text_items names)) ms

unfoldable pub model_metadata : Models → Items → Members → Members
unfolding text_of set_member model_records
model_metadata m records ms =
    let label = text_of m (codes "label") ms in
    set_member (codes "record_count") (integer (pos (model_records m label records)))
      (with_identity (m.identity_fields label) ms)

unfoldable pub models_metadata : Models → Items → Items → Result PayloadError Items
unfolding model_metadata
models_metadata m records no_items = ok no_items
models_metadata m records (item (object ms) vs) =
    models_metadata m records vs >>= λ rest. ok (item (object (model_metadata m records ms)) rest)
models_metadata m records (item _ vs) = err value_error

abbrev pub counted : ℕ → Json
counted n = integer (pos n)

abbrev pub normalized : Items → Items → ℕ × ℕ → Members → Members
normalized models records counts ms = set_member (codes "translation_count") (counted counts.1) (
    set_member (codes "relationship_count") (counted counts.0) (
      set_member (codes "record_count") (counted (item_count records)) (
        set_member (codes "records") (array records)
          (set_member (codes "models") (array models) ms))))

-- The value of a key that must be a list.
unfoldable pub list_of : Text → Members → Result PayloadError Items
list_of key ms = elim (value_of key ms) [ some (array vs) ↦ ok vs | _ ↦ err value_error ]

unfoldable pub canonicalize_members : Models → Members → Result PayloadError Members
unfolding list_of records_counts models_metadata
canonicalize_members m ms = do
  records ← list_of (codes "records") ms
  models ← list_of (codes "models") ms
  counts ← records_counts records
  metadata ← models_metadata m records models
  ok (normalized metadata records counts ms)

-- `_canonicalize_payload_metadata`
unfoldable pub canonicalize_payload_metadata : Models → Json → Result PayloadError Json
unfolding canonicalize_members
canonicalize_payload_metadata m (object ms) =
    canonicalize_members m ms >>= λ found. ok (object found)
canonicalize_payload_metadata m _ = err value_error
