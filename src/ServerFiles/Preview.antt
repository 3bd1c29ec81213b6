-- ===== src/ServerFiles/Preview.antt =====
-- The redaction of a JSON document before it is previewed: `_normalised_secret_key` and
-- `_redact_json_value` of paxalia/server_files/service.py.
pub mod Laws
mod Tests
use paxalia_dashboard.Prelude.{
  ℕ, zero, suc, Bool, true, false, ◌&&◌, ◌||◌, Option, none, some, List, [], ◌∷◌, Text, codes, take,
  drop, any, filter, is_empty, length, leb, ltb, if◌then◌else◌, ℤ,
}
use paxalia_dashboard.Availability.Response.{
  Json, null, bool, integer, float, string, array, object, Items, no_items, item, Members,
  no_members, member_of, set_member, contains_text,
}

-- `str.casefold` and `redact_text`.
pub record Redaction : Type 0 where
  pub casefold : Text → Text
  pub redact_text : Text → Text

abbrev pub redacted : Text
redacted = codes "[REDACTED]"

abbrev pub truncated_depth : Text
truncated_depth = codes "[TRUNCATED_DEPTH]"

abbrev pub truncated_items : Text
truncated_items = codes "[TRUNCATED_ITEMS]"

abbrev pub truncated_key : Text
truncated_key = codes "_paxalia_truncated"

abbrev markers : List Text
markers =
    codes "authorization"
    ∷ codes "proxyauthorization"
    ∷ codes "cookie"
    ∷ codes "setcookie"
    ∷ codes "password"
    ∷ codes "passwd"
    ∷ codes "secret"
    ∷ codes "token"
    ∷ codes "apikey"
    ∷ codes "accesskey"
    ∷ codes "privatekey"
    ∷ codes "clientsecret"
    ∷ codes "credential"
    ∷ codes "databaseurl"
    ∷ codes "dburl"
    ∷ codes "connectionstring"
    ∷ codes "signingkey"
    ∷ codes "sessionkey"
    ∷ codes "csrf"
    ∷ []

-- `[a-z0-9]`
abbrev is_kept : ℕ → Bool
is_kept c = (leb b'a' c && leb c b'z') || (leb b'0' c && leb c b'9')

-- `_normalised_secret_key`
unfoldable pub normalised_secret_key : Redaction → Text → Bool
unfolding contains_text
normalised_secret_key r value =
    let key = filter is_kept (r.casefold value) in any (λ marker. contains_text marker key) markers

unfoldable pub items_length : Items → ℕ
items_length no_items = 0
items_length (item v vs) = suc (items_length vs)

unfoldable pub append_item : Items → Json → Items
append_item no_items v = item v no_items
append_item (item w vs) v = item w (append_item vs v)

-- `if len(value) > len(result): result.append(...)`
unfoldable pub mark_truncated : Items → Items → Items
unfolding items_length append_item
mark_truncated vs result =
    if ltb (items_length result) (items_length vs)
    then append_item result (string truncated_items)
    else result

-- A budget that the source has driven below zero is spent for good, and is 0 here.
unfoldable mutual
  unfolding normalised_secret_key set_member mark_truncated

  -- `_redact_json_value`, with the depth and the budget before and after it.
  pub redact_json_value : Redaction → ℕ → ℕ → Json → Json × ℕ
  redact_json_value r depth budget (object ms) =
      let done = redact_members r (suc depth) budget no_members ms in
      if ltb 20 depth then (string truncated_depth, budget) else (object done.0, done.1)
  redact_json_value r depth budget (array vs) =
      let done = redact_items r (suc depth) 10000 budget vs in
      if ltb 20 depth
      then (string truncated_depth, budget)
      else (array (mark_truncated vs done.0), done.1)
  redact_json_value r depth budget (string s) =
      (string (if ltb 20 depth then truncated_depth else r.redact_text s), budget)
  redact_json_value r depth budget null =
      (if ltb 20 depth then string truncated_depth else null, budget)
  redact_json_value r depth budget (bool b) =
      (if ltb 20 depth then string truncated_depth else bool b, budget)
  redact_json_value r depth budget (integer z) =
      (if ltb 20 depth then string truncated_depth else integer z, budget)
  redact_json_value r depth budget (float t) =
      (if ltb 20 depth then string truncated_depth else float t, budget)

  -- The loop over a mapping, with the result so far.
  pub redact_members : Redaction → ℕ → ℕ → Members → Members → Members × ℕ
  redact_members r depth budget result no_members = (result, budget)
  redact_members r depth zero result (member_of key v ms) =
      (set_member truncated_key (bool true) result, zero)
  redact_members r depth (suc budget) result (member_of key v ms) =
      let inner = redact_json_value r depth budget v in
      let key_text = take 200 key in
      let shown = if normalised_secret_key r key_text then (string redacted, budget) else inner in
      redact_members r depth shown.1 (set_member key_text shown.0 result) ms

  -- The loop over the first items of a list, as many as the second number says.
  pub redact_items : Redaction → ℕ → ℕ → ℕ → Items → Items × ℕ
  redact_items r depth left budget no_items = (no_items, budget)
  redact_items r depth zero budget (item v vs) = (no_items, budget)
  redact_items r depth (suc left) zero (item v vs) = (item (string truncated_items) no_items, zero)
  redact_items r depth (suc left) (suc budget) (item v vs) =
      let shown = redact_json_value r depth budget v in
      let rest = redact_items r depth left shown.1 vs in (item shown.0 rest.0, rest.1)

-- `_redact_json_value(parsed)`
unfoldable pub redact_document : Redaction → Json → Json
unfolding redact_json_value
redact_document r parsed = (redact_json_value r 0 10000 parsed).0
