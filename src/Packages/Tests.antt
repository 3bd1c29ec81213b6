-- ===== src/Packages/Tests.antt =====
-- Runs of the package container at concrete inputs, and its theorems applied at them.
use paxalia_dashboard.Prelude.{
  some_injective, ℕ, ◌≤◌, ◌≡◌, refl, sym, subst, ◌∙◌, Bool, true, false, some, List, [], ◌∷◌, codes,
  any, length, leb→le, pos, ok, strip, split_on,
}
use paxalia_dashboard.Availability.Response.{
  Json, integer, string, array, object, no_items, item, Members, no_members, member_of, value_of,
}
use paxalia_dashboard.Packages.Format.{Info, read_package, get, is_unsafe}
use paxalia_dashboard.Packages.Payload.{Models, canonicalize_payload_metadata}
use paxalia_dashboard.Packages.Payload.Laws.{canonicalize_payload_metadata_stable}
use paxalia_dashboard.Packages.Build.{
  Stamp, package_content, manifest_json, archive_of, build_package,
}
use paxalia_dashboard.Packages.Build.Laws.{build_package-read_package, read_built}
use paxalia_dashboard.Packages.Format.Laws.{IsIntact, read_package-IsIntact}
use paxalia_dashboard.Packages.Sample.{sample, sample-IsCodec}

abbrev models : Models
models = record {
  str = λ v. [];
  lower = λ s. s;
  is_zero = λ t. false;
  identity_fields = λ label. some (codes "slug" ∷ []);
}

abbrev one_record : Json
one_record = object (
    member_of (codes "model") (string (codes "a.b")) (
      member_of (codes "translations")
        (object (member_of (codes "title") (string (codes "t")) no_members)) no_members))

abbrev payload : Json
payload = object (
    member_of (codes "records") (array (item one_record no_items)) (
      member_of (codes "models")
        (array
          (item (object (member_of (codes "label") (string (codes "a.b")) no_members)) no_items))
        no_members))

abbrev canonical : Json
canonical = object (
    member_of (codes "records") (array (item one_record no_items)) (
      member_of (codes "models")
        (array (
          item
            (object (
              member_of (codes "label") (string (codes "a.b")) (
                member_of (codes "identity_fields") (array (item (string (codes "slug")) no_items))
                  (member_of (codes "record_count") (integer (pos 1)) no_members))))
            no_items))
        (member_of (codes "record_count") (integer (pos 1)) (
          member_of (codes "relationship_count") (integer (pos 0))
            (member_of (codes "translation_count") (integer (pos 1)) no_members)))))

canonicalized : canonicalize_payload_metadata models payload ≡ ok canonical
unfolding canonicalize_payload_metadata value_of
canonicalized = refl

canonicalize_payload_metadata_stable_example :
    canonicalize_payload_metadata models canonical ≡ ok canonical
canonicalize_payload_metadata_stable_example =
    canonicalize_payload_metadata_stable models payload canonical canonicalized

abbrev stamp : Stamp
stamp = record {
  package_id = codes "id-1";
  created_at = codes "now";
  paxalia_version = codes "1.0";
  django_version = codes "5.0";
}

-- An encrypted package.
abbrev secret : List ℕ
secret = 1 ∷ 2 ∷ 3 ∷ []

abbrev plain : Json
plain = object no_members

abbrev manifest : Json
manifest = manifest_json stamp true false (array no_items) (pos 0) (pos 0) (pos 0)

abbrev raw : List ℕ
raw = sample.pack (archive_of sample manifest secret true)

built : build_package sample models stamp plain (some secret) ≡ ok raw
unfolding build_package value_of
built = refl

short : length raw ≤ 10000
unfolding sample
short = leb→le (length raw) 10000 refl

safe : (infos : List Info) → sample.unpack raw ≡ some infos → any (is_unsafe 10000) infos ≡ false
unfolding is_unsafe strip split_on sample
safe infos e =
    subst (λ found. any (is_unsafe 10000) found ≡ false)
      (some_injective
        (sym (sample-IsCodec.unpack_pack (archive_of sample manifest secret true)) ∙ e))
      refl

build_package-read_package_example :
    (found : Json) × (ms : Members) × (stored : List ℕ) × (flag : Bool) × (package_content sample
        models plain
        (some secret)
      ≡ ok (ms, stored, flag))
    × (read_package sample 10000 raw ≡ ok (found, stored, flag))
    × (get (codes "package_id") found ≡ ok (string (codes "id-1")))
build_package-read_package_example =
    build_package-read_package sample sample-IsCodec models stamp plain (some secret) 10000 raw
      built short safe

read_back : read_package sample 10000 raw ≡ ok (sample.sorted manifest, secret, true)
read_back =
    read_built sample sample-IsCodec 10000 stamp true false (array no_items) (pos 0) (pos 0) (pos 0)
      secret short (safe _ (sample-IsCodec.unpack_pack (archive_of sample manifest secret true)))

read_package-IsIntact_example : IsIntact sample 10000 raw (sample.sorted manifest) secret true
read_package-IsIntact_example =
    read_package-IsIntact sample 10000 raw (sample.sorted manifest) secret true read_back
