-- ===== src/Packages/Sample.antt =====
-- Simple libraries with which the container of packages can be run: JSON values by Values, and
-- archives as numbers. They model no code of the repository.
mod Values
use paxalia_dashboard.Prelude.{
  err, ℕ, zero, suc, ◌%◌, ◌≤◌, ◌≡◌, ◌∙◌, refl, ap, subst, true, false, Option, none, some, List, [],
  ◌∷◌, ◌++◌, map, Text, take, take_all, drop, length, length-append, pos, negsuc, arith, ok, inl,
  inr, Option-cases,
}
use mathlib.Core.List.{append_assoc, append-nil}
use paxalia_dashboard.Availability.Response.{
  Json, null, bool, integer, float, string, array, object, Items, no_items, item, Members,
  no_members, member_of, value_of,
}
use paxalia_dashboard.Packages.Format.{Codec, Info, get, escaped}
use paxalia_dashboard.Packages.Build.Parts.{IsCodec, or_null}
use paxalia_dashboard.Packages.Sample.Values.{
  write_text, write, read_text, Tag, is_null, is_false, is_true, is_pos, is_negsuc, is_float,
  is_string, is_array, is_object, no_more, one_more, tag_of, followed, mapped, read, read-write,
  read_text-write_text,
}

-- An archive, which begins with "PK".
write_entries : List (Text × List ℕ) → List ℕ
write_entries [] = 9 ∷ []
write_entries (entry ∷ entries) =
    10 ∷ write_text entry.0 ++ (write_text entry.1 ++ write_entries entries)

read_entries : ℕ → List ℕ → Option (List (Text × List ℕ) × List ℕ)
unfolding tag_of
read_entries zero bytes = none
read_entries (suc n) [] = none
read_entries (suc n) (tag ∷ rest) = elim (tag_of tag) [
  | no_more ↦ some ([], rest)
  | one_more ↦ followed (read_text rest) λ name after.
      followed (read_text after)
        λ bytes last. mapped (λ es. (name, bytes) ∷ es) (read_entries n last)
  | _ ↦ none
]

read_entries-write_entries :
    (es : List (Text × List ℕ)) (n : ℕ) (rest : List ℕ)
    → length (write_entries es) ≤ n
    → read_entries n (write_entries es ++ rest) ≡ some (es, rest)
unfolding read_entries write_entries tag_of
read_entries-write_entries [] zero rest few = absurd (omega arith)
read_entries-write_entries [] (suc n) rest few = refl
read_entries-write_entries (entry ∷ es) zero rest few = absurd (omega arith)
read_entries-write_entries ((name, bytes) ∷ es) (suc n) rest few =
    let size = length-append (write_text bytes) (write_entries es) in
    let long = length-append (write_text name) (write_text bytes ++ write_entries es) in
    ap
      (λ input. followed (read_text input) λ l after.
        followed (read_text after) λ b last. mapped (λ xs. (l, b) ∷ xs) (read_entries n last))
      (append_assoc (write_text name) (write_text bytes ++ write_entries es) rest)
    ∙ ap
        (λ found. followed found λ l after.
          followed (read_text after) λ b last. mapped (λ xs. (l, b) ∷ xs) (read_entries n last))
        (read_text-write_text name ((write_text bytes ++ write_entries es) ++ rest))
    ∙ ap
        (λ input.
          followed (read_text input) λ b last. mapped (λ xs. (name, b) ∷ xs) (read_entries n last))
        (append_assoc (write_text bytes) (write_entries es) rest)
    ∙ ap (λ found. followed found λ b last. mapped (λ xs. (name, b) ∷ xs) (read_entries n last))
        (read_text-write_text bytes (write_entries es ++ rest))
    ∙ ap (mapped (λ xs. (name, bytes) ∷ xs)) (read_entries-write_entries es n rest (omega arith))

abbrev value_only {ℓ} : {A : Type ℓ} → Option (A × List ℕ) → Option A
value_only none = none
value_only (some (a, rest)) = some a

abbrev sample_info : Text × List ℕ → Info
sample_info entry = record {
  filename = entry.0;
  file_size = length entry.1;
  compress_size = length entry.1;
  content = some entry.1;
}

open_archive : List ℕ → Option (List Info)
unfolding read_entries
open_archive (p ∷ k ∷ rest) = elim (value_only (read_entries (length rest) rest)) [
  | none ↦ none
  | some es ↦ some (map sample_info es)
]
open_archive _ = none

unfoldable pub sample : Codec
unfolding write read write_entries open_archive
sample = record {
  dumps = write;
  loads = λ bytes. value_only (read (length bytes) bytes);
  sha256 = λ bytes. length bytes % 128 ∷ [];
  pack = λ es. b'P' ∷ b'K' ∷ write_entries es;
  unpack = open_archive;
  compressed_size = length;
  sorted = λ v. v;
  int_of_float = λ t. err escaped;
  is_zero = λ t. false;
  is_one = λ t. false;
}

whole_value : (v : Json) → value_only (read (length (write v)) (write v)) ≡ some v
whole_value v =
    subst (λ bytes. value_only (read (length (write v)) bytes) ≡ some v) (append-nil (write v))
      (ap value_only (read-write v (length (write v)) [] (omega arith)))

whole_archive :
    (es : List (Text × List ℕ))
    → open_archive (b'P' ∷ b'K' ∷ write_entries es) ≡ some (map sample_info es)
unfolding open_archive
whole_archive es =
    let bytes = write_entries es in
    let found : read_entries (length bytes) bytes ≡ some (es, []) =
      subst (λ input. read_entries (length bytes) input ≡ some (es, [])) (append-nil bytes)
        (read_entries-write_entries es (length bytes) [] (omega arith)) in
    rw (open_archive, found) refl

found_or_null : (key : Text) (ms : Members) → get key (object ms) ≡ ok (or_null (value_of key ms))
unfolding get
found_or_null key ms = elim (Option-cases (value_of key ms)) [
  | inl missing ↦ ground arith
  | inr (v, there) ↦ ground arith
]

pub sample-IsCodec : IsCodec sample
unfolding get sample open_archive
sample-IsCodec = record {
  loads_dumps = whole_value;
  sorted_get = λ key ms. found_or_null key ms;
  sorted_string = λ s. refl;
  sorted_integer = λ z. refl;
  sorted_bool = λ b. refl;
  ascii_sha256 = λ bytes. ground arith;
  unpack_pack = whole_archive;
  pack_begins = λ ms. refl;
}
