-- ===== src/ServerFiles/Preview/Laws.antt =====
-- What a redacted document shows (paxalia/server_files/service.py).
use paxalia_dashboard.Prelude.{
  ℕ, zero, suc, ◌≡◌, refl, sym, subst, inl, inr, Bool, true, false, Text, text_eq, text_eq→eq, take,
  ltb, if◌then◌else◌, Bool-cases, arith,
}
use paxalia_dashboard.Availability.Response.{
  Json, null, bool, integer, float, string, array, object, Items, no_items, item, Members,
  no_members, member_of, set_member,
}
use paxalia_dashboard.ServerFiles.Preview.{
  Redaction, redacted, truncated_depth, truncated_items, truncated_key, normalised_secret_key,
  append_item, items_length, mark_truncated, redact_json_value, redact_members, redact_items,
  redact_document,
}

module _ (r : Redaction) (clean : Text → Bool) where
  -- Each text is clean, and a secret key has no value but the marker, at any depth.
  unfoldable mutual
    pub IsClean : Json → Type 0
    IsClean (string s) = clean s ≡ true
    IsClean (array vs) = AreClean vs
    IsClean (object ms) = ShowsClean ms
    IsClean _ = Unit

    AreClean : Items → Type 0
    AreClean no_items = Unit
    AreClean (item v vs) = IsClean v × AreClean vs

    ShowsClean : Members → Type 0
    ShowsClean no_members = Unit
    ShowsClean (member_of k v ms) =
        (normalised_secret_key r k ≡ true → v ≡ string redacted) × IsClean v × ShowsClean ms

  set_member-ShowsClean :
      (k : Text) (v : Json) (ms : Members)
      → (normalised_secret_key r k ≡ true → v ≡ string redacted)
      → IsClean v
      → ShowsClean ms
      → ShowsClean (set_member k v ms)
  unfolding IsClean set_member
  set_member-ShowsClean k v no_members hidden shown all = (hidden, shown, tt)
  set_member-ShowsClean k v (member_of other w ms) hidden shown all =
      elim (Bool-cases (text_eq other k)) [
        | inl same ↦
            let one : k ≡ other = sym (text_eq→eq other k same) in
            rw same (
              subst (λ key. normalised_secret_key r key ≡ true → v ≡ string redacted) one hidden,
              shown,
              all.2,
            )
        | inr apart ↦ rw apart (all.0, all.1, set_member-ShowsClean k v ms hidden shown all.2)
      ]

  append_item-AreClean :
      (vs : Items) (v : Json) → AreClean vs → IsClean v → AreClean (append_item vs v)
  unfolding IsClean append_item
  append_item-AreClean no_items v all shown = (shown, tt)
  append_item-AreClean (item w vs) v all shown = (all.0, append_item-AreClean vs v all.1 shown)

  module _ (redact_text_clean : (t : Text) → clean (r.redact_text t) ≡ true)
      (redacted_clean : clean redacted ≡ true) (depth_clean : clean truncated_depth ≡ true)
      (items_clean : clean truncated_items ≡ true)
      (casefold_key : r.casefold truncated_key ≡ truncated_key) where
    at_depth : (b : Bool) (v : Json) → IsClean v → IsClean (if b then string truncated_depth else v)
    unfolding IsClean
    at_depth true v shown = depth_clean
    at_depth false v shown = shown

    text_at_depth :
        (b : Bool) (t : Text) → clean (if b then truncated_depth else r.redact_text t) ≡ true
    text_at_depth true t = depth_clean
    text_at_depth false t = redact_text_clean t

    pair_at_depth :
        (b : Bool) (v : Json) (n m : ℕ)
        → IsClean v
        → IsClean (if◌then◌else◌ {A = Json × ℕ} b (string truncated_depth, n) (v, m)).0
    unfolding IsClean
    pair_at_depth true v n m shown = depth_clean
    pair_at_depth false v n m shown = shown

    -- What is put under a key.
    IsShown : Text → Json → Type 0
    IsShown key v = (normalised_secret_key r key ≡ true → v ≡ string redacted) × IsClean v

    value-IsShown :
        (key : Text) (inner : Json × ℕ) (budget : ℕ)
        → IsClean inner.0
        → IsShown key
            (if◌then◌else◌ {A = Json × ℕ}
              (normalised_secret_key r key)
              (string redacted, budget)
              inner).0
    unfolding IsShown IsClean
    value-IsShown key inner budget clear = elim (Bool-cases (normalised_secret_key r key)) [
      | inl secret ↦ rw secret (λ _. refl, redacted_clean)
      | inr plain ↦ rw plain (λ secret. absurd (ground arith), clear)
    ]

    truncated_key_lem : normalised_secret_key r truncated_key ≡ false
    unfolding normalised_secret_key
    truncated_key_lem = rw (normalised_secret_key, casefold_key) refl

    mark_truncated-AreClean :
        (vs result : Items) → AreClean result → AreClean (mark_truncated vs result)
    unfolding mark_truncated IsClean
    mark_truncated-AreClean vs result all =
        elim (Bool-cases (ltb (items_length result) (items_length vs))) [
          | inl short ↦
              rw short (append_item-AreClean result (string truncated_items) all items_clean)
          | inr whole ↦ rw whole all
        ]

    mutual
      unfolding IsClean IsShown redact_json_value

      value-IsClean :
          (depth budget : ℕ) (v : Json) → IsClean ((redact_json_value r depth budget v).0)
      value-IsClean depth budget (object ms) =
          let done = redact_members r (suc depth) budget no_members ms in
          pair_at_depth (ltb 20 depth) (object done.0) budget done.1
            (members-ShowsClean (suc depth) budget no_members ms tt)
      value-IsClean depth budget (array vs) =
          let done = redact_items r (suc depth) 10000 budget vs in
          pair_at_depth (ltb 20 depth) (array (mark_truncated vs done.0)) budget done.1
            (mark_truncated-AreClean vs done.0 (items-AreClean (suc depth) 10000 budget vs))
      value-IsClean depth budget (string s) = text_at_depth (ltb 20 depth) s
      value-IsClean depth budget null = at_depth (ltb 20 depth) null tt
      value-IsClean depth budget (bool b) = at_depth (ltb 20 depth) (bool b) tt
      value-IsClean depth budget (integer z) = at_depth (ltb 20 depth) (integer z) tt
      value-IsClean depth budget (float t) = at_depth (ltb 20 depth) (float t) tt

      members-ShowsClean :
          (depth budget : ℕ) (result ms : Members)
          → ShowsClean result
          → ShowsClean ((redact_members r depth budget result ms).0)
      members-ShowsClean depth budget result no_members all = all
      members-ShowsClean depth zero result (member_of key v ms) all =
          set_member-ShowsClean truncated_key (bool true) result
            (λ secret. absurd (ground (arith, truncated_key_lem))) tt all
      members-ShowsClean depth (suc budget) result (member_of key v ms) all =
          let inner = redact_json_value r depth budget v in
          let key_text = take 200 key in
          let shown =
            if normalised_secret_key r key_text then (string redacted, budget) else inner in
          let put = value-IsShown key_text inner budget (value-IsClean depth budget v) in
          members-ShowsClean depth shown.1 (set_member key_text shown.0 result) ms
            (set_member-ShowsClean key_text shown.0 result put.0 put.1 all)

      items-AreClean :
          (depth left budget : ℕ) (vs : Items) → AreClean ((redact_items r depth left budget vs).0)
      items-AreClean depth left budget no_items = tt
      items-AreClean depth zero budget (item v vs) = tt
      items-AreClean depth (suc left) zero (item v vs) = (items_clean, tt)
      items-AreClean depth (suc left) (suc budget) (item v vs) =
          let shown = redact_json_value r depth budget v in
          (value-IsClean depth budget v, items-AreClean depth left shown.1 vs)

    -- The document that a preview shows has no value but the marker under a key that is a secret one as
    -- it is shown (cut to 200 characters), at any depth, and each string in it is one of the markers or
    -- a text that the redaction of texts made: it has every property that these have (the case folding
    -- leaves the key of the truncation mark as it is).
    pub redact_document-IsClean : (parsed : Json) → IsClean (redact_document r parsed)
    unfolding redact_document
    redact_document-IsClean parsed = value-IsClean 0 10000 parsed
