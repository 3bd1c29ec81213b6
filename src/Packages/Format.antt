-- ===== src/Packages/Format.antt =====
-- `read_package` of paxalia/packages/format.py.
pub mod Laws
use paxalia_dashboard.Prelude.{
  ℕ, zero, suc, ◌*◌, max, Bool, true, false, ◌&&◌, ◌||◌, not, Option, none, some, List, [], ◌∷◌,
  map, Text, codes, text_eq, is_empty, strip, split_on, member, any, all, find, length, leb, ltb,
  ◌==◌, if◌then◌else◌, text, ℤ, pos, negsuc, to_int, Result, ok, err, ◌>>=◌, ◌>>◌, raise_if,
}
use paxalia_dashboard.ServerFiles.Name.{slash}
use paxalia_dashboard.Availability.Response.{
  Json, null, bool, integer, float, string, array, object, Items, no_items, item, Members,
  no_members, member_of, value_of,
}

-- `zipfile.ZipInfo`, with what reading the member gives, if it can be read.
pub record Info : Type 0 where
  pub filename : Text
  pub file_size : ℕ
  pub compress_size : ℕ
  pub content : Option (List ℕ)

-- A `ValueError`, or another exception that `read_package` does not turn into one.
pub data ReadError : Type 0 where
  value_error escaped : ReadError

-- The libraries: JSON in UTF-8, SHA-256 in hexadecimal, archives (`unpack` gives nothing for a bad
-- one), the size of a content in an archive, and what Python makes of a float literal.
pub record Codec : Type 0 where
  pub dumps : Json → List ℕ
  pub loads : List ℕ → Option Json
  pub sha256 : List ℕ → Text
  pub pack : List (Text × List ℕ) → List ℕ
  pub unpack : List ℕ → Option (List Info)
  pub compressed_size : List ℕ → ℕ
  -- The value with the keys of its mappings sorted, as `dumps` writes them.
  pub sorted : Json → Json
  pub int_of_float : Text → Result ReadError ℤ
  pub is_zero : Text → Bool
  pub is_one : Text → Bool

abbrev pub manifest_member : Text
manifest_member = codes "manifest.json"

abbrev pub data_member : Text
data_member = codes "data.json"

abbrev pub encrypted_member : Text
encrypted_member = codes "data.enc"

abbrev pub integrity_member : Text
integrity_member = codes "integrity.json"

abbrev pub format_name : Text
format_name = codes "paxalia"

abbrev pub allowed_members : List Text
allowed_members = manifest_member ∷ data_member ∷ encrypted_member ∷ integrity_member ∷ []

unfoldable pub has_duplicates : List Text → Bool
has_duplicates [] = false
has_duplicates (x ∷ xs) = member x xs || has_duplicates xs

-- `raw.startswith(b"PK")`
abbrev pub starts_with_pk : List ℕ → Bool
starts_with_pk (a ∷ b ∷ rest) = a == b'P' && b == b'K'
starts_with_pk _ = false

unfoldable pub check_names : List Text → Result ReadError (Unit {0})
unfolding has_duplicates
check_names names = do
  raise_if (ltb 8 (length names)) value_error
  raise_if (has_duplicates names) value_error
  raise_if (not (member manifest_member names && member integrity_member names)) value_error
  raise_if (not (all (λ n. member n allowed_members) names)) value_error

abbrev four_mib : ℕ
four_mib = 4194304

-- Whether a member has an unsafe path, or is too large, or too large for its compressed size.
unfoldable pub is_unsafe : ℕ → Info → Bool
is_unsafe max_size info =
    not (text_eq info.filename (strip info.filename))
    || member (codes "..") (split_on slash info.filename)
    || ltb max_size info.file_size
    || (not (info.compress_size == 0)
        && ltb (max (info.compress_size * 200) four_mib) info.file_size)

-- `archive.read(name)`
unfoldable pub read_member : Text → List Info → Result ReadError (List ℕ)
read_member name [] = err escaped
read_member name (info ∷ infos) =
    let rest = read_member name infos in
    if text_eq info.filename name
    then (elim info.content [ none ↦ err escaped | some c ↦ ok c ])
    else rest

-- `mapping.get(key)`, of a value that is a mapping.
unfoldable pub get : Text → Json → Result ReadError Json
get key (object ms) = ok (elim (value_of key ms) [ none ↦ null | some v ↦ v ])
get key _ = err escaped

abbrev pub is_string : Text → Json → Bool
is_string s (string t) = text_eq t s
is_string s _ = false

-- `value == 1`
abbrev equals_one : Codec → Json → Bool
equals_one c (integer (pos n)) = n == 1
equals_one c (bool b) = b
equals_one c (float t) = c.is_one t
equals_one c _ = false

-- `bool(value)`
unfoldable pub is_true : Codec → Json → Bool
is_true c null = false
is_true c (bool b) = b
is_true c (integer (pos n)) = not (n == 0)
is_true c (integer (negsuc n)) = true
is_true c (float t) = not (c.is_zero t)
is_true c (string s) = not (is_empty s)
is_true c (array no_items) = false
is_true c (array (item v vs)) = true
is_true c (object no_members) = false
is_true c (object (member_of k v ms)) = true

-- `int(value or 0)`
unfoldable pub int_or_zero : Codec → Json → Result ReadError ℤ
unfolding is_true
int_or_zero c (bool true) = ok (pos 1)
int_or_zero c (integer z) = ok z
int_or_zero c (float t) = c.int_of_float t
int_or_zero c (string (x ∷ s)) = elim (to_int (text (x ∷ s))) [
  | err e ↦ err value_error
  | ok z ↦ ok z
]
int_or_zero c (array (item v vs)) = err escaped
int_or_zero c (object (member_of k v ms)) = err escaped
int_or_zero c _ = ok (pos 0)

abbrev pub is_ascii : Text → Bool
is_ascii s = all (λ c. ltb c 128) s

-- `isinstance(hash, str) and hmac.compare_digest(digest, hash)`; a text that is not ASCII raises.
unfoldable pub check_digest : Text → Json → Result ReadError (Unit {0})
check_digest digest (string s) =
    if not (is_ascii s) then err escaped else raise_if (not (text_eq digest s)) value_error
check_digest digest _ = err value_error

unfoldable pub load : Codec → List ℕ → Result ReadError Json
load c bytes = elim (c.loads bytes) [ none ↦ err value_error | some v ↦ ok v ]

abbrev pub content_name : Bool → Text
content_name true = encrypted_member
content_name false = data_member

abbrev is_one_int : ℤ → Bool
is_one_int (pos n) = n == 1
is_one_int (negsuc n) = false

-- The checks on the parsed manifest and integrity record.
unfoldable pub check_manifest : Codec → List ℕ → Json → Json → Result ReadError (Unit {0})
unfolding get check_digest int_or_zero
check_manifest c manifest_bytes manifest integrity = do
  name ← get (codes "format") manifest
  raise_if (not (is_string format_name name)) value_error
  raw ← get (codes "format_version") manifest
  version ← int_or_zero c raw
  raise_if (not (is_one_int version)) value_error
  integrity_version ← get (codes "version") integrity
  algorithm ← get (codes "algorithm") integrity
  raise_if (not (equals_one c integrity_version) || not (is_string (codes "sha256") algorithm))
      value_error
  hash ← get (codes "manifest") integrity
  check_digest (c.sha256 manifest_bytes) hash

-- What follows the flag of the manifest.
unfoldable pub after_flag :
    Codec → List Info → Json → Json → Json → Result ReadError (List ℕ × Bool)
unfolding get read_member check_digest is_true
after_flag c infos manifest integrity flag = do
  let encrypted = is_true c flag
  let names = map (λ i. i.filename) infos
  raise_if
      (not (member (content_name encrypted) names) || member (content_name (not encrypted)) names)
      value_error
  declared ← get (codes "content_member") manifest
  raise_if (not (is_string (content_name encrypted) declared)) value_error
  content ← read_member (content_name encrypted) infos
  hash ← get (codes "content") integrity
  check_digest (c.sha256 content) hash
  ok (content, encrypted)

unfoldable pub read_content : Codec → List Info → Json → Json → Result ReadError (List ℕ × Bool)
unfolding get after_flag
read_content c infos manifest integrity =
    get (codes "encrypted") manifest >>= after_flag c infos manifest integrity

unfoldable pub read_archive : Codec → ℕ → List Info → Result ReadError (Json × List ℕ × Bool)
unfolding check_names is_unsafe read_member load check_manifest
read_archive c max_size infos = do
  check_names (map (λ i. i.filename) infos)
  raise_if (any (is_unsafe max_size) infos) value_error
  manifest_bytes ← read_member manifest_member infos
  integrity_bytes ← read_member integrity_member infos
  manifest ← load c manifest_bytes
  integrity ← load c integrity_bytes
  check_manifest c manifest_bytes manifest integrity
  found ← read_content c infos manifest integrity
  ok (manifest, found.0, found.1)

-- `read_package`
unfoldable pub read_package : Codec → ℕ → List ℕ → Result ReadError (Json × List ℕ × Bool)
unfolding read_archive
read_package c max_size raw = do
  raise_if (is_empty raw) value_error
  raise_if (ltb max_size (length raw)) value_error
  raise_if (not (starts_with_pk raw)) value_error
  elim (c.unpack raw) [ none ↦ err value_error | some infos ↦ read_archive c max_size infos ]
