-- ===== src/Packages/Sample/Values.antt =====
-- An encoding of JSON values as numbers, each text after its length, that is read back. It models no
-- code of the repository.
use paxalia_dashboard.Prelude.{
  ℕ, zero, suc, ◌≤◌, ◌≡◌, ◌∙◌, refl, ap, true, false, Option, none, some, List, [], ◌∷◌, ◌++◌, Text,
  take, take_all, drop, length, length-append, pos, negsuc, arith,
}
use mathlib.Core.List.{append_assoc}
use paxalia_dashboard.Availability.Response.{
  Json, null, bool, integer, float, string, array, object, Items, no_items, item, Members,
  no_members, member_of,
}

abbrev pub write_text : Text → List ℕ
write_text s = length s ∷ s

unfoldable mutual
  pub write : Json → List ℕ
  write null = 0 ∷ []
  write (bool false) = 1 ∷ []
  write (bool true) = 2 ∷ []
  write (integer (pos n)) = 3 ∷ n ∷ []
  write (integer (negsuc n)) = 4 ∷ n ∷ []
  write (float t) = 5 ∷ write_text t
  write (string s) = 6 ∷ write_text s
  write (array vs) = 7 ∷ write_items vs
  write (object ms) = 8 ∷ write_members ms

  pub write_items : Items → List ℕ
  write_items no_items = 9 ∷ []
  write_items (item v vs) = 10 ∷ write v ++ write_items vs

  pub write_members : Members → List ℕ
  write_members no_members = 9 ∷ []
  write_members (member_of k v ms) = 10 ∷ write_text k ++ (write v ++ write_members ms)

-- A text, and what follows it.
abbrev pub read_text : List ℕ → Option (Text × List ℕ)
read_text [] = none
read_text (n ∷ rest) = some (take n rest, drop n rest)

pub data Tag : Type 0 where
  is_null is_false is_true is_pos is_negsuc is_float is_string is_array is_object no_more one_more :
      Tag

unfoldable pub tag_of : ℕ → Tag
tag_of zero = is_null
tag_of (suc zero) = is_false
tag_of (suc (suc zero)) = is_true
tag_of (suc (suc (suc zero))) = is_pos
tag_of (suc (suc (suc (suc zero)))) = is_negsuc
tag_of (suc (suc (suc (suc (suc zero))))) = is_float
tag_of (suc (suc (suc (suc (suc (suc zero)))))) = is_string
tag_of (suc (suc (suc (suc (suc (suc (suc zero))))))) = is_array
tag_of (suc (suc (suc (suc (suc (suc (suc (suc zero)))))))) = is_object
tag_of (suc (suc (suc (suc (suc (suc (suc (suc (suc zero))))))))) = no_more
tag_of _ = one_more

abbrev pub number_then {ℓ} : {A : Type ℓ} → (ℕ → A) → List ℕ → Option (A × List ℕ)
number_then f [] = none
number_then f (n ∷ rest) = some (f n, rest)

abbrev pub mapped {ℓ κ} :
    {A : Type ℓ} {B : Type κ} → (A → B) → Option (A × List ℕ) → Option (B × List ℕ)
mapped f none = none
mapped f (some (a, rest)) = some (f a, rest)

abbrev pub followed {ℓ κ} :
    {A : Type ℓ} {B : Type κ} → Option (A × List ℕ) → (A → List ℕ → Option B) → Option B
followed none next = none
followed (some (a, rest)) next = next a rest

unfoldable mutual
  unfolding tag_of

  pub read : ℕ → List ℕ → Option (Json × List ℕ)
  read zero bytes = none
  read (suc n) [] = none
  read (suc n) (tag ∷ rest) = elim (tag_of tag) [
    | is_null ↦ some (null, rest)
    | is_false ↦ some (bool false, rest)
    | is_true ↦ some (bool true, rest)
    | is_pos ↦ number_then (λ k. integer (pos k)) rest
    | is_negsuc ↦ number_then (λ k. integer (negsuc k)) rest
    | is_float ↦ mapped float (read_text rest)
    | is_string ↦ mapped string (read_text rest)
    | is_array ↦ mapped array (read_items n rest)
    | is_object ↦ mapped object (read_members n rest)
    | _ ↦ none
  ]

  pub read_items : ℕ → List ℕ → Option (Items × List ℕ)
  read_items zero bytes = none
  read_items (suc n) [] = none
  read_items (suc n) (tag ∷ rest) = elim (tag_of tag) [
    | no_more ↦ some (no_items, rest)
    | one_more ↦ followed (read n rest) λ v after. mapped (item v) (read_items n after)
    | _ ↦ none
  ]

  pub read_members : ℕ → List ℕ → Option (Members × List ℕ)
  read_members zero bytes = none
  read_members (suc n) [] = none
  read_members (suc n) (tag ∷ rest) = elim (tag_of tag) [
    | no_more ↦ some (no_members, rest)
    | one_more ↦
        followed (read_text rest)
          λ k after. followed (read n after) λ v last. mapped (member_of k v) (read_members n last)
    | _ ↦ none
  ]

drop_all {ℓ} : {A : Type ℓ} (xs ys : List A) → drop (length xs) (xs ++ ys) ≡ ys
drop_all [] ys = refl
drop_all (x ∷ xs) ys = drop_all xs ys

pub read_text-write_text :
    (s : Text) (rest : List ℕ) → read_text (write_text s ++ rest) ≡ some (s, rest)
read_text-write_text s rest = rw (take_all s rest, drop_all s rest) refl

mutual
  unfolding read write tag_of

  pub read-write :
      (v : Json) (n : ℕ) (rest : List ℕ)
      → length (write v) ≤ n
      → read n (write v ++ rest) ≡ some (v, rest)
  read-write null zero rest few = absurd (omega arith)
  read-write null (suc n) rest few = refl
  read-write (bool false) zero rest few = absurd (omega arith)
  read-write (bool false) (suc n) rest few = refl
  read-write (bool true) zero rest few = absurd (omega arith)
  read-write (bool true) (suc n) rest few = refl
  read-write (integer (pos k)) zero rest few = absurd (omega arith)
  read-write (integer (pos k)) (suc n) rest few = refl
  read-write (integer (negsuc k)) zero rest few = absurd (omega arith)
  read-write (integer (negsuc k)) (suc n) rest few = refl
  read-write (float t) zero rest few = absurd (omega arith)
  read-write (float t) (suc n) rest few = ap (mapped float) (read_text-write_text t rest)
  read-write (string s) zero rest few = absurd (omega arith)
  read-write (string s) (suc n) rest few = ap (mapped string) (read_text-write_text s rest)
  read-write (array vs) zero rest few = absurd (omega arith)
  read-write (array vs) (suc n) rest few =
      ap (mapped array) (read_items-write_items vs n rest (omega arith))
  read-write (object ms) zero rest few = absurd (omega arith)
  read-write (object ms) (suc n) rest few =
      ap (mapped object) (read_members-write_members ms n rest (omega arith))

  read_items-write_items :
      (vs : Items) (n : ℕ) (rest : List ℕ)
      → length (write_items vs) ≤ n
      → read_items n (write_items vs ++ rest) ≡ some (vs, rest)
  read_items-write_items no_items zero rest few = absurd (omega arith)
  read_items-write_items no_items (suc n) rest few = refl
  read_items-write_items (item v vs) zero rest few = absurd (omega arith)
  read_items-write_items (item v vs) (suc n) rest few =
      let size = length-append (write v) (write_items vs) in
      ap (λ bytes. followed (read n bytes) λ w after. mapped (item w) (read_items n after))
        (append_assoc (write v) (write_items vs) rest)
      ∙ ap (λ found. followed found λ w after. mapped (item w) (read_items n after))
          (read-write v n (write_items vs ++ rest) (omega arith))
      ∙ ap (mapped (item v)) (read_items-write_items vs n rest (omega arith))

  read_members-write_members :
      (ms : Members) (n : ℕ) (rest : List ℕ)
      → length (write_members ms) ≤ n
      → read_members n (write_members ms ++ rest) ≡ some (ms, rest)
  read_members-write_members no_members zero rest few = absurd (omega arith)
  read_members-write_members no_members (suc n) rest few = refl
  read_members-write_members (member_of k v ms) zero rest few = absurd (omega arith)
  read_members-write_members (member_of k v ms) (suc n) rest few =
      let size = length-append (write v) (write_members ms) in
      let long = length-append (write_text k) (write v ++ write_members ms) in
      ap
        (λ bytes.
          followed (read_text bytes) λ l after.
            followed (read n after) λ w last. mapped (member_of l w) (read_members n last))
        (append_assoc (write_text k) (write v ++ write_members ms) rest)
      ∙ ap
          (λ found. followed found λ l after.
            followed (read n after) λ w last. mapped (member_of l w) (read_members n last))
          (read_text-write_text k ((write v ++ write_members ms) ++ rest))
      ∙ ap (λ bytes. followed (read n bytes) λ w last. mapped (member_of k w) (read_members n last))
          (append_assoc (write v) (write_members ms) rest)
      ∙ ap (λ found. followed found λ w last. mapped (member_of k w) (read_members n last))
          (read-write v n (write_members ms ++ rest) (omega arith))
      ∙ ap (mapped (member_of k v)) (read_members-write_members ms n rest (omega arith))
