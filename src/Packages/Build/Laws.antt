-- ===== src/Packages/Build/Laws.antt =====
-- A package that was built is read back (paxalia/packages/format.py).
use paxalia_dashboard.Prelude.{
  ℕ, ◌≤◌, ◌≡◌, ◌∙◌, refl, sym, ap, subst, Bool, true, false, Option, some, List, [], ◌∷◌, codes,
  any, is_empty, length, ltb, ℤ, ok, ◌>>=◌, >>=-eq-ok, ok_injective, arith,
}
use paxalia_dashboard.Availability.Response.{Json, bool, string, array, no_items, Members, value_of}
use paxalia_dashboard.Packages.Format.{
  Codec, Info, is_true, get, check_names, is_unsafe, read_member, load, read_archive, read_package,
  starts_with_pk,
}
use paxalia_dashboard.Packages.Payload.{Models}
use paxalia_dashboard.Packages.Build.{
  Stamp, or_json, count_of, package_content, manifest_of, manifest_json, integrity_json, archive_of,
  build_package,
}
use paxalia_dashboard.Packages.Build.Parts.{
  got_string, IsCodec, entries, check_manifest_built, read_content_built,
}

load_built : (c : Codec) → IsCodec c → (v : Json) → load c (c.dumps v) ≡ ok (c.sorted v)
unfolding load
load_built c laws v = rw (load, laws.loads_dumps v) refl

read_archive_built :
    (c : Codec)
    → IsCodec c
    → (max_size : ℕ) (stamp : Stamp) (encrypted translated : Bool) (models : Json)
      (records relationships translations : ℤ) (stored : List ℕ)
    → (let manifest =
          manifest_json stamp encrypted translated models records relationships translations in
        any (is_unsafe max_size) (entries c manifest stored encrypted) ≡ false
        → read_archive c max_size (entries c manifest stored encrypted)
          ≡ ok (c.sorted manifest, stored, encrypted))
unfolding read_archive check_names read_member
read_archive_built c laws max_size stamp true translated models records relationships translations
      stored safe =
    let manifest = manifest_json stamp true translated models records relationships translations in
    let bytes = c.dumps manifest in
    let integrity = integrity_json c bytes stored in
    rw
      (
        read_archive,
        safe,
        load_built c laws manifest,
        load_built c laws integrity,
        check_manifest_built c laws stamp true translated models records relationships translations
            bytes stored,
        read_content_built c laws stamp true translated models records relationships translations
            bytes stored manifest,
      )
      refl
read_archive_built c laws max_size stamp false translated models records relationships translations
      stored safe =
    let manifest = manifest_json stamp false translated models records relationships translations in
    let bytes = c.dumps manifest in
    let integrity = integrity_json c bytes stored in
    rw
      (
        read_archive,
        safe,
        load_built c laws manifest,
        load_built c laws integrity,
        check_manifest_built c laws stamp false translated models records relationships translations
            bytes stored,
        read_content_built c laws stamp false translated models records relationships translations
            bytes stored manifest,
      )
      refl

le→ltb : (a b : ℕ) → b ≤ a → ltb a b ≡ false
le→ltb a b few = ground arith

not_empty : (raw : List ℕ) → starts_with_pk raw ≡ true → is_empty raw ≡ false
not_empty [] begins = absurd (ground arith)
not_empty (b ∷ raw) begins = refl

manifest_of-ok :
    (c : Codec) (stamp : Stamp) (flag : Bool) (ms : Members) (manifest : Json)
    → manifest_of c stamp flag ms ≡ ok manifest
    → (translated : Bool) × (models : Json) × (records : ℤ) × (relationships : ℤ)
      × (translations : ℤ) × (manifest_json stamp flag translated models records relationships
            translations
          ≡ manifest)
unfolding manifest_of
manifest_of-ok c stamp flag ms manifest made =
    let translated = is_true c (or_json (value_of (codes "translations_only") ms) (bool false)) in
    let models = or_json (value_of (codes "models") ms) (array no_items) in
    let (records, _, e1) =
      >>=-eq-ok (count_of c (codes "record_count") ms)
        (λ records. count_of c (codes "relationship_count") ms >>= λ relationships.
          count_of c (codes "translation_count") ms >>= λ translations.
          ok (manifest_json stamp flag translated models records relationships translations))
        made in
    let (relationships, _, e2) =
      >>=-eq-ok (count_of c (codes "relationship_count") ms)
        (λ relationships. count_of c (codes "translation_count") ms >>= λ translations.
          ok (manifest_json stamp flag translated models records relationships translations))
        e1 in
    let (translations, _, e3) =
      >>=-eq-ok (count_of c (codes "translation_count") ms)
        (λ translations.
          ok (manifest_json stamp flag translated models records relationships translations))
        e2 in
    (translated, models, records, relationships, translations, ok_injective e3)

pub read_built :
    (c : Codec)
    → IsCodec c
    → (max_size : ℕ) (stamp : Stamp) (encrypted translated : Bool) (models : Json)
      (records relationships translations : ℤ) (stored : List ℕ)
    → (let manifest =
          manifest_json stamp encrypted translated models records relationships translations in
        length (c.pack (archive_of c manifest stored encrypted)) ≤ max_size
        → any (is_unsafe max_size) (entries c manifest stored encrypted) ≡ false
        → read_package c max_size (c.pack (archive_of c manifest stored encrypted))
          ≡ ok (c.sorted manifest, stored, encrypted))
unfolding read_package
read_built c laws max_size stamp encrypted translated models records relationships translations
      stored few safe =
    let manifest =
      manifest_json stamp encrypted translated models records relationships translations in
    let raw = c.pack (archive_of c manifest stored encrypted) in
    let begins = laws.pack_begins (archive_of c manifest stored encrypted) in
    let within : ltb max_size (length raw) ≡ false = le→ltb max_size (length raw) few in
    rw
      (
        read_package,
        not_empty raw begins,
        within,
        begins,
        laws.unpack_pack (archive_of c manifest stored encrypted),
      )
      (read_archive_built c laws max_size stamp encrypted translated models records relationships
        translations stored safe)

-- The package that was built is read back: reading it, if it is not over the size limits and not
-- compressed beyond the allowed ratio, gives the stored content (the canonical payload as JSON, or the
-- encrypted bytes), whether it is encrypted, and a manifest with the package's identifier.
pub build_package-read_package :
    (c : Codec)
    → IsCodec c
    → (m : Models) (stamp : Stamp) (payload : Json) (encrypted : Option (List ℕ)) (max_size : ℕ)
      (raw : List ℕ)
    → build_package c m stamp payload encrypted ≡ ok raw
    → length raw ≤ max_size
    → ((infos : List Info) → c.unpack raw ≡ some infos → any (is_unsafe max_size) infos ≡ false)
    → (manifest : Json) × (ms : Members) × (stored : List ℕ) × (flag : Bool) × (package_content c m
          payload encrypted
        ≡ ok (ms, stored, flag))
      × (read_package c max_size raw ≡ ok (manifest, stored, flag))
      × (get (codes "package_id") manifest ≡ ok (string stamp.package_id))
unfolding build_package manifest_of value_of
build_package-read_package c laws m stamp payload encrypted max_size raw built few safe =
    let ((ms, stored, flag), found, e1) =
      >>=-eq-ok (package_content c m payload encrypted)
        (λ content. manifest_of c stamp content.2 content.0 >>= λ manifest.
          ok (c.pack (archive_of c manifest content.1 content.2)))
        built in
    let (manifest, made, e2) =
      >>=-eq-ok (manifest_of c stamp flag ms)
        (λ manifest. ok (c.pack (archive_of c manifest stored flag))) e1 in
    let (translated, models, records, relationships, translations, shape) =
      manifest_of-ok c stamp flag ms manifest made in
    let json = manifest_json stamp flag translated models records relationships translations in
    let is_raw : c.pack (archive_of c json stored flag) ≡ raw =
      ap (λ v. c.pack (archive_of c v stored flag)) shape ∙ ok_injective e2 in
    let small : any (is_unsafe max_size) (entries c json stored flag) ≡ false =
      safe (entries c json stored flag)
        (ap c.unpack (sym is_raw) ∙ laws.unpack_pack (archive_of c json stored flag)) in
    let readable : length (c.pack (archive_of c json stored flag)) ≤ max_size =
      subst (λ r. length r ≤ max_size) (sym is_raw) few in
    (
      c.sorted json,
      ms,
      stored,
      flag,
      found,
      ap (read_package c max_size) (sym is_raw)
          ∙ read_built c laws max_size stamp flag translated models records relationships
              translations stored readable small,
      got_string c laws (codes "package_id") stamp.package_id _ refl,
    )
