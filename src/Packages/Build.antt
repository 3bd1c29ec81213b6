-- ===== src/Packages/Build.antt =====
-- `build_package` of paxalia/packages/format.py. The new identifier, the time and the versions are
-- arguments.
pub mod Parts
pub mod Laws
use paxalia_dashboard.Prelude.{
  ℕ, Bool, true, false, Option, none, some, List, [], ◌∷◌, Text, codes, pos, ℤ, Result, ok, err,
  ◌>>=◌,
}
use paxalia_dashboard.Availability.Response.{
  Json, null, bool, integer, string, array, object, no_items, Members, no_members, member_of,
  value_of,
}
use paxalia_dashboard.Packages.Format.{
  Codec, ReadError, value_error, escaped, manifest_member, integrity_member, format_name,
  content_name, is_true, int_or_zero,
}
use paxalia_dashboard.Packages.Payload.{Models, canonicalize_payload_metadata}

pub record Stamp : Type 0 where
  pub package_id : Text
  pub created_at : Text
  pub paxalia_version : Text
  pub django_version : Text

-- The payload and the bytes to store: canonical ones, or the encrypted ones with the payload as it is.
unfoldable pub package_content :
    Codec → Models → Json → Option (List ℕ) → Result ReadError (Members × List ℕ × Bool)
unfolding canonicalize_payload_metadata
package_content c m payload none = elim (canonicalize_payload_metadata m payload) [
  | ok (object ms) ↦ ok (ms, c.dumps (object ms), false)
  | _ ↦ err value_error
]
package_content c m (object ms) (some bytes) = ok (ms, bytes, true)
package_content c m _ (some bytes) = err value_error

-- `payload.get(key, default)`
abbrev pub or_json : Option Json → Json → Json
or_json none default = default
or_json (some v) default = v

unfoldable pub count_of : Codec → Text → Members → Result ReadError ℤ
unfolding int_or_zero
count_of c key ms = int_or_zero c (or_json (value_of key ms) (integer (pos 0)))

abbrev pub manifest_json : Stamp → Bool → Bool → Json → ℤ → ℤ → ℤ → Json
manifest_json stamp encrypted translations_only models records relationships translations = object (
    member_of (codes "format") (string format_name) (
      member_of (codes "format_version") (integer (pos 1)) (
        member_of (codes "package_id") (string stamp.package_id) (
          member_of (codes "created_at") (string stamp.created_at) (
            member_of (codes "paxalia_version") (string stamp.paxalia_version) (
              member_of (codes "django_version") (string stamp.django_version) (
                member_of (codes "encrypted") (bool encrypted) (
                  member_of (codes "encoding") (string (codes "utf-8")) (
                    member_of (codes "translations_only") (bool translations_only) (
                      member_of (codes "content_member") (string (content_name encrypted)) (
                        member_of (codes "models") models (
                          member_of (codes "record_count") (integer records) (
                            member_of (codes "relationship_count") (integer relationships) (
                              member_of (codes "translation_count") (integer translations)
                                no_members))))))))))))))

unfoldable pub manifest_of : Codec → Stamp → Bool → Members → Result ReadError Json
unfolding is_true count_of
manifest_of c stamp encrypted ms = do
  records ← count_of c (codes "record_count") ms
  relationships ← count_of c (codes "relationship_count") ms
  translations ← count_of c (codes "translation_count") ms
  ok (
      manifest_json stamp encrypted
        (is_true c (or_json (value_of (codes "translations_only") ms) (bool false)))
        (or_json (value_of (codes "models") ms) (array no_items)) records relationships
        translations)

abbrev pub integrity_json : Codec → List ℕ → List ℕ → Json
integrity_json c manifest_bytes stored = object (
    member_of (codes "version") (integer (pos 1)) (
      member_of (codes "algorithm") (string (codes "sha256")) (
        member_of (codes "manifest") (string (c.sha256 manifest_bytes))
          (member_of (codes "content") (string (c.sha256 stored)) no_members))))

-- The members of the archive.
abbrev pub archive_of : Codec → Json → List ℕ → Bool → List (Text × List ℕ)
archive_of c manifest stored encrypted =
    (manifest_member, c.dumps manifest)
    ∷ (integrity_member, c.dumps (integrity_json c (c.dumps manifest) stored))
    ∷ (content_name encrypted, stored)
    ∷ []

-- `build_package`
unfoldable pub build_package :
    Codec → Models → Stamp → Json → Option (List ℕ) → Result ReadError (List ℕ)
unfolding package_content manifest_of
build_package c m stamp payload encrypted = do
  content ← package_content c m payload encrypted
  manifest ← manifest_of c stamp content.2 content.0
  ok (c.pack (archive_of c manifest content.1 content.2))
