-- ===== src/Packages/Build/Parts.antt =====
-- The manifest, the integrity record and the content of a package that was built pass the checks of
-- `read_package` (paxalia/packages/format.py).
use paxalia_dashboard.Prelude.{
  ℕ, ◌≡◌, ◌∙◌, refl, ap, Bool, true, false, Option, none, some, List, map, Text, codes,
  text_eq_refl, length, pos, ℤ, ok,
}
use paxalia_dashboard.Availability.Response.{
  Json, null, bool, integer, string, object, Members, value_of,
}
use paxalia_dashboard.Packages.Format.{
  Codec, Info, format_name, content_name, is_ascii, is_true, int_or_zero, get, read_member,
  check_digest, check_manifest, after_flag, read_content, starts_with_pk,
}
use paxalia_dashboard.Packages.Build.{Stamp, manifest_json, integrity_json, archive_of}

-- The entry of a stored member.
abbrev pub info_of : Codec → Text × List ℕ → Info
info_of c entry = record {
  filename = entry.0;
  file_size = length entry.1;
  compress_size = c.compressed_size entry.1;
  content = some entry.1;
}

abbrev pub or_null : Option Json → Json
or_null none = null
or_null (some v) = v

-- What the libraries document: reading JSON gives back what was written, with sorted keys; a digest
-- is ASCII; opening an archive gives back its members; and an archive begins with "PK".
pub record IsCodec (c : Codec) : Type 0 where
  pub loads_dumps : (v : Json) → c.loads (c.dumps v) ≡ some (c.sorted v)
  pub sorted_get :
      (key : Text) (ms : Members)
      → get key (c.sorted (object ms)) ≡ ok (c.sorted (or_null (value_of key ms)))
  pub sorted_string : (s : Text) → c.sorted (string s) ≡ string s
  pub sorted_integer : (z : ℤ) → c.sorted (integer z) ≡ integer z
  pub sorted_bool : (b : Bool) → c.sorted (bool b) ≡ bool b
  pub ascii_sha256 : (bytes : List ℕ) → is_ascii (c.sha256 bytes) ≡ true
  pub unpack_pack : (ms : List (Text × List ℕ)) → c.unpack (c.pack ms) ≡ some (map (info_of c) ms)
  pub pack_begins : (ms : List (Text × List ℕ)) → starts_with_pk (c.pack ms) ≡ true

-- A digest that was stored as it is.
check_digest_same :
    (c : Codec)
    → IsCodec c
    → (bytes : List ℕ) → check_digest (c.sha256 bytes) (string (c.sha256 bytes)) ≡ ok tt
unfolding check_digest
check_digest_same c laws bytes = rw (laws.ascii_sha256 bytes, text_eq_refl (c.sha256 bytes)) refl

module _ (c : Codec) (laws : IsCodec c) where
  pub got_string :
      (key s : Text) (ms : Members)
      → value_of key ms ≡ some (string s)
      → get key (c.sorted (object ms)) ≡ ok (string s)
  got_string key s ms found =
      laws.sorted_get key ms
      ∙ ap (λ o. ok (c.sorted (or_null o))) found
      ∙ ap ok (laws.sorted_string s)

  got_integer :
      (key : Text) (z : ℤ) (ms : Members)
      → value_of key ms ≡ some (integer z)
      → get key (c.sorted (object ms)) ≡ ok (integer z)
  got_integer key z ms found =
      laws.sorted_get key ms
      ∙ ap (λ o. ok (c.sorted (or_null o))) found
      ∙ ap ok (laws.sorted_integer z)

  got_bool :
      (key : Text) (b : Bool) (ms : Members)
      → value_of key ms ≡ some (bool b)
      → get key (c.sorted (object ms)) ≡ ok (bool b)
  got_bool key b ms found =
      laws.sorted_get key ms
      ∙ ap (λ o. ok (c.sorted (or_null o))) found
      ∙ ap ok (laws.sorted_bool b)

pub check_manifest_built :
    (c : Codec)
    → IsCodec c
    → (stamp : Stamp) (encrypted translated : Bool) (models : Json)
      (records relationships translations : ℤ) (bytes stored : List ℕ)
    → check_manifest c bytes
        (c.sorted
          (manifest_json stamp encrypted translated models records relationships translations))
        (c.sorted (integrity_json c bytes stored))
      ≡ ok tt
unfolding check_manifest value_of int_or_zero
check_manifest_built c laws stamp encrypted translated models records relationships translations
      bytes stored =
    let m_json =
      c.sorted
        (manifest_json stamp encrypted translated models records relationships translations) in
    let i_json = c.sorted (integrity_json c bytes stored) in
    let format_is : get (codes "format") m_json ≡ ok (string format_name) =
      got_string c laws (codes "format") format_name _ refl in
    let version_is : get (codes "format_version") m_json ≡ ok (integer (pos 1)) =
      got_integer c laws (codes "format_version") (pos 1) _ refl in
    let integrity_version_is : get (codes "version") i_json ≡ ok (integer (pos 1)) =
      got_integer c laws (codes "version") (pos 1) _ refl in
    let algorithm_is : get (codes "algorithm") i_json ≡ ok (string (codes "sha256")) =
      got_string c laws (codes "algorithm") (codes "sha256") _ refl in
    let hash_is : get (codes "manifest") i_json ≡ ok (string (c.sha256 bytes)) =
      got_string c laws (codes "manifest") (c.sha256 bytes) _ refl in
    rw
      (
        check_manifest,
        format_is,
        version_is,
        integrity_version_is,
        algorithm_is,
        hash_is,
        check_digest_same c laws bytes,
      )
      refl

abbrev pub entries : Codec → Json → List ℕ → Bool → List Info
entries c manifest stored encrypted = map (info_of c) (archive_of c manifest stored encrypted)

pub read_content_built :
    (c : Codec)
    → IsCodec c
    → (stamp : Stamp) (encrypted translated : Bool) (models : Json)
      (records relationships translations : ℤ) (bytes stored : List ℕ) (whole : Json)
    → read_content c
        (entries c whole stored encrypted)
        (c.sorted
          (manifest_json stamp encrypted translated models records relationships translations))
        (c.sorted (integrity_json c bytes stored))
      ≡ ok (stored, encrypted)
unfolding read_content after_flag value_of read_member is_true
read_content_built c laws stamp true translated models records relationships translations bytes
      stored whole =
    let m_json =
      c.sorted (manifest_json stamp true translated models records relationships translations) in
    let i_json = c.sorted (integrity_json c bytes stored) in
    let flag_is : get (codes "encrypted") m_json ≡ ok (bool true) =
      got_bool c laws (codes "encrypted") true _ refl in
    let member_is : get (codes "content_member") m_json ≡ ok (string (content_name true)) =
      got_string c laws (codes "content_member") (content_name true) _ refl in
    let hash_is : get (codes "content") i_json ≡ ok (string (c.sha256 stored)) =
      got_string c laws (codes "content") (c.sha256 stored) _ refl in
    rw (read_content, after_flag, flag_is, member_is, hash_is, check_digest_same c laws stored) refl
read_content_built c laws stamp false translated models records relationships translations bytes
      stored whole =
    let m_json =
      c.sorted (manifest_json stamp false translated models records relationships translations) in
    let i_json = c.sorted (integrity_json c bytes stored) in
    let flag_is : get (codes "encrypted") m_json ≡ ok (bool false) =
      got_bool c laws (codes "encrypted") false _ refl in
    let member_is : get (codes "content_member") m_json ≡ ok (string (content_name false)) =
      got_string c laws (codes "content_member") (content_name false) _ refl in
    let hash_is : get (codes "content") i_json ≡ ok (string (c.sha256 stored)) =
      got_string c laws (codes "content") (c.sha256 stored) _ refl in
    rw (read_content, after_flag, flag_is, member_is, hash_is, check_digest_same c laws stored) refl
