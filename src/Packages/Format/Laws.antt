-- ===== src/Packages/Format/Laws.antt =====
-- What a package that is read has passed (paxalia/packages/format.py).
use paxalia_dashboard.Prelude.{
  All, all→All, ℕ, ◌≤◌, length, refl, ◌≡◌, ◌∙◌, sym, ap, subst, inl, inr, Bool, true, false, not,
  some, List, map, Text, codes, text_eq, text_eq→eq, member, any, ok, >>=-eq-ok, Result-cases,
  Option-cases, arith,
}
use paxalia_dashboard.Availability.Response.{Json, string}
use paxalia_dashboard.Packages.Format.{
  Codec, Info, manifest_member, integrity_member, allowed_members, has_duplicates, content_name,
  is_true, get, check_names, is_unsafe, read_member, load, check_digest, check_manifest, after_flag,
  read_content, read_archive, read_package,
}

-- A package whose members are known ones, each at most once; whose manifest and content have the
-- digests that its integrity record gives; and whose content is the one member that the manifest's
-- flag names.
pub record IsIntact (c : Codec) (max_size : ℕ) (raw : List ℕ) (manifest : Json) (content : List ℕ)
    (encrypted : Bool) : Type 0 where
  pub infos : List Info
  pub opened : c.unpack raw ≡ some infos
  pub known : All (λ n. member n allowed_members ≡ true) (map (λ i. i.filename) infos)
  pub once : has_duplicates (map (λ i. i.filename) infos) ≡ false
  pub fits : length raw ≤ max_size
  pub safe : any (is_unsafe max_size) infos ≡ false
  pub manifest_bytes : List ℕ
  pub manifest_read : read_member manifest_member infos ≡ ok manifest_bytes
  pub manifest_parsed : c.loads manifest_bytes ≡ some manifest
  pub flag : Json
  pub flag_given : get (codes "encrypted") manifest ≡ ok flag
  pub flag_read : is_true c flag ≡ encrypted
  pub integrity_bytes : List ℕ
  pub integrity : Json
  pub integrity_read : read_member integrity_member infos ≡ ok integrity_bytes
  pub integrity_parsed : c.loads integrity_bytes ≡ some integrity
  pub manifest_digest : get (codes "manifest") integrity ≡ ok (string (c.sha256 manifest_bytes))
  pub content_read : read_member (content_name encrypted) infos ≡ ok content
  pub content_digest : get (codes "content") integrity ≡ ok (string (c.sha256 content))
  pub no_other : member (content_name (not encrypted)) (map (λ i. i.filename) infos) ≡ false

check_digest-ok :
    (digest : Text) (hash : Json) → check_digest digest hash ≡ ok tt → hash ≡ string digest
unfolding check_digest
check_digest-ok digest (string s) e =
    let same : text_eq digest s ≡ true = ground arith in ap string (sym (text_eq→eq digest s same))
check_digest-ok digest _ e = absurd (ground arith)

load-ok : (c : Codec) (bytes : List ℕ) (v : Json) → load c bytes ≡ ok v → c.loads bytes ≡ some v
unfolding load
load-ok c bytes v e = ground arith

check_manifest-ok :
    (c : Codec) (bytes : List ℕ) (manifest integrity : Json)
    → check_manifest c bytes manifest integrity ≡ ok tt
    → get (codes "manifest") integrity ≡ ok (string (c.sha256 bytes))
unfolding check_manifest
check_manifest-ok c bytes manifest integrity e =
    elim (Result-cases (get (codes "manifest") integrity)) [
      | inr (x, missing) ↦ absurd (ground arith)
      | inl (hash, found) ↦
          let passed : check_digest (c.sha256 bytes) hash ≡ ok tt = ground arith in
          found ∙ ap ok (check_digest-ok (c.sha256 bytes) hash passed)
    ]

after_flag-ok :
    (c : Codec) (infos : List Info) (manifest integrity flag : Json) (content : List ℕ)
    (encrypted : Bool)
    → after_flag c infos manifest integrity flag ≡ ok (content, encrypted)
    → (read_member (content_name (is_true c flag)) infos ≡ ok content)
      × (get (codes "content") integrity ≡ ok (string (c.sha256 content)))
      × (member (content_name (not (is_true c flag))) (map (λ i. i.filename) infos) ≡ false)
      × (is_true c flag ≡ encrypted)
unfolding after_flag
after_flag-ok c infos manifest integrity flag content encrypted e =
    elim (Result-cases (read_member (content_name (is_true c flag)) infos)) [
      | inr (x, missing) ↦ absurd (ground arith)
      | inl (stored, found) ↦ elim (Result-cases (get (codes "content") integrity)) [
        | inr (x, missing) ↦ absurd (ground arith)
        | inl (hash, given) ↦
            let passed : check_digest (c.sha256 stored) hash ≡ ok tt = ground arith in
            let one : stored ≡ content = ground arith in
            let digest = given ∙ ap ok (check_digest-ok (c.sha256 stored) hash passed) in
            (
              found ∙ ap ok one,
              subst (λ b. get (codes "content") integrity ≡ ok (string (c.sha256 b))) one digest,
              ground arith,
              ground arith,
            )
      ]
    ]

read_content-ok :
    (c : Codec) (infos : List Info) (manifest integrity : Json) (content : List ℕ)
    (encrypted : Bool)
    → read_content c infos manifest integrity ≡ ok (content, encrypted)
    → (read_member (content_name encrypted) infos ≡ ok content)
      × (get (codes "content") integrity ≡ ok (string (c.sha256 content)))
      × (member (content_name (not encrypted)) (map (λ i. i.filename) infos) ≡ false)
      × ((flag : Json) × (get (codes "encrypted") manifest ≡ ok flag)
          × (is_true c flag ≡ encrypted))
unfolding read_content
read_content-ok c infos manifest integrity content encrypted e =
    let (flag, given, e1) =
      >>=-eq-ok (get (codes "encrypted") manifest) (after_flag c infos manifest integrity) e in
    let (content_is, digest_is, alone, same) =
      after_flag-ok c infos manifest integrity flag content encrypted e1 in
    subst
      (λ b.
        (read_member (content_name b) infos ≡ ok content)
        × (get (codes "content") integrity ≡ ok (string (c.sha256 content)))
        × (member (content_name (not b)) (map (λ i. i.filename) infos) ≡ false)
        × ((flag : Json) × (get (codes "encrypted") manifest ≡ ok flag) × (is_true c flag ≡ b)))
      same (content_is, digest_is, alone, (flag, given, refl))

check_names-ok :
    (names : List Text)
    → check_names names ≡ ok tt
    → All (λ n. member n allowed_members ≡ true) names × (has_duplicates names ≡ false)
unfolding check_names
check_names-ok names e =
    (all→All (λ n. member n allowed_members) names (ground arith), ground arith)

read_archive-IsIntact :
    (c : Codec) (max_size : ℕ) (raw : List ℕ) (infos : List Info) (manifest : Json)
    (content : List ℕ) (encrypted : Bool)
    → c.unpack raw ≡ some infos
    → length raw ≤ max_size
    → read_archive c max_size infos ≡ ok (manifest, content, encrypted)
    → IsIntact c max_size raw manifest content encrypted
unfolding read_archive
read_archive-IsIntact c max_size raw infos manifest content encrypted opened fits e =
    elim (Result-cases (read_member manifest_member infos)) [
      | inr (x, missing) ↦ absurd (ground arith)
      | inl (mb, m_read) ↦ elim (Result-cases (read_member integrity_member infos)) [
        | inr (x, missing) ↦ absurd (ground arith)
        | inl (ib, i_read) ↦ elim (Result-cases (load c mb)) [
          | inr (x, missing) ↦ absurd (ground arith)
          | inl (m_json, m_loaded) ↦ elim (Result-cases (load c ib)) [
            | inr (x, missing) ↦ absurd (ground arith)
            | inl (i_json, i_loaded) ↦ elim (Result-cases (read_content c infos m_json i_json)) [
              | inr (x, missing) ↦ absurd (ground arith)
              | inl ((stored, flag), found) ↦
                  let same_manifest : m_json ≡ manifest = ground arith in
                  let same_content : stored ≡ content = ground arith in
                  let same_flag : flag ≡ encrypted = ground arith in
                  let (known, once) = check_names-ok (map (λ i. i.filename) infos) (ground arith) in
                  let safe : any (is_unsafe max_size) infos ≡ false = ground arith in
                  let checked : check_manifest c mb m_json i_json ≡ ok tt = ground arith in
                  let (content_is, digest_is, alone, (value, given, read)) =
                    read_content-ok c infos m_json i_json stored flag found in
                  subst (λ v. IsIntact c max_size raw v content encrypted) same_manifest
                    (subst (λ b. IsIntact c max_size raw m_json b encrypted) same_content
                      (subst (λ f. IsIntact c max_size raw m_json stored f) same_flag
                        (record {
                          infos = infos;
                          opened = opened;
                          known = known;
                          once = once;
                          fits = fits;
                          safe = safe;
                          flag = value;
                          flag_given = given;
                          flag_read = read;
                          manifest_bytes = mb;
                          manifest_read = m_read;
                          manifest_parsed = load-ok c mb m_json m_loaded;
                          integrity_bytes = ib;
                          integrity = i_json;
                          integrity_read = i_read;
                          integrity_parsed = load-ok c ib i_json i_loaded;
                          manifest_digest = check_manifest-ok c mb m_json i_json checked;
                          content_read = content_is;
                          content_digest = digest_is;
                          no_other = alone;
                        })))
            ]
          ]
        ]
      ]
    ]

-- A package that is read is intact: it is within the size limit that was asked for, its members are
-- known ones, each at most once, and none is unsafe for that limit; the manifest that is returned and
-- the content have the digests that the integrity record gives; the flag that is returned is the
-- truth of the manifest's "encrypted", and by it the content is the encrypted member or the plain
-- one, and the other is not there.
pub read_package-IsIntact :
    (c : Codec) (max_size : ℕ) (raw : List ℕ) (manifest : Json) (content : List ℕ)
    (encrypted : Bool)
    → read_package c max_size raw ≡ ok (manifest, content, encrypted)
    → IsIntact c max_size raw manifest content encrypted
unfolding read_package
read_package-IsIntact c max_size raw manifest content encrypted e =
    elim (Option-cases (c.unpack raw)) [
      | inl bad ↦ absurd (ground arith)
      | inr (infos, opened) ↦
          read_archive-IsIntact c max_size raw infos manifest content encrypted opened
            (ground arith) (ground arith)
    ]
