-- ===== src/Availability/Response.antt =====
-- What a response must satisfy: `_get_json_value`, `_check_assertions`, `_response_media_type` and
-- `_evaluate_response` of paxalia/uptime.py. The reasons that go with a verdict are left out.
pub mod Laws
use paxalia_dashboard.Prelude.{
  ℕ, zero, suc, ◌+◌, ◌-◌, ◌*◌, Bool, true, false, ◌&&◌, ◌||◌, not, Option, none, some, List, [],
  ◌∷◌, Text, codes, text_eq, is_empty, strip, split_on, take, all, any, find, length, leb, ltb,
  ◌==◌, if◌then◌else◌, ℤ, pos,
}
use paxalia_dashboard.Availability.Record.{Health, up, down}

mutual
  -- A value of a JSON column or of a parsed body; a float is kept by the text of its literal.
  pub data Json : Type 0 where
    null : Json
    bool : Bool → Json
    integer : ℤ → Json
    float : Text → Json
    string : Text → Json
    array : Items → Json
    object : Members → Json

  pub data Items : Type 0 where
    no_items : Items
    item : Json → Items → Items

  pub data Members : Type 0 where
    no_members : Members
    member_of : Text → Json → Members → Members

unfoldable pub item_at : ℕ → Items → Option Json
item_at n no_items = none
item_at zero (item v vs) = some v
item_at (suc n) (item v vs) = item_at n vs

unfoldable pub value_of : Text → Members → Option Json
value_of key no_members = none
value_of key (member_of k v ms) =
    let rest = value_of key ms in if text_eq k key then some v else rest

-- `mapping[key] = value`
unfoldable pub set_member : Text → Json → Members → Members
set_member key v no_members = member_of key v no_members
set_member key v (member_of k w ms) =
    let rest = set_member key v ms in if text_eq k key then member_of k v ms else member_of k w rest

abbrev is_digit : ℕ → Bool
is_digit c = leb b'0' c && leb c b'9'

unfoldable pub number_of : Text → ℕ → ℕ
number_of [] n = n
number_of (c ∷ s) n = number_of s (n * 10 + (c - b'0'))

-- One part of a path; of the digits, the ASCII ones.
unfoldable pub json_step : Json → Text → Option Json
unfolding item_at value_of number_of
json_step value [] = none
json_step (object ms) (c ∷ s) = value_of (c ∷ s) ms
json_step (array vs) (c ∷ s) =
    if all is_digit (c ∷ s) then item_at (number_of (c ∷ s) 0) vs else none
json_step value (c ∷ s) = none

unfoldable pub json_walk : Json → List Text → Option Json
json_walk value [] = some value
json_walk value (p ∷ ps) = elim (json_step value p) [ none ↦ none | some v ↦ json_walk v ps ]

-- The value and whether it exists.
unfoldable pub get_json_value : Json → Text → Option Json
unfolding json_walk
get_json_value data_value path = json_walk data_value (split_on b'.' path)

-- `needle in text`
unfoldable pub starts_with : Text → Text → Bool
starts_with [] s = true
starts_with (p ∷ ps) [] = false
starts_with (p ∷ ps) (c ∷ s) = (p == c) && starts_with ps s

unfoldable pub contains_text : Text → Text → Bool
unfolding starts_with
contains_text needle [] = is_empty needle
contains_text needle (c ∷ s) = starts_with needle (c ∷ s) || contains_text needle s

-- A configured assertion: an object with some of the keys, or another value.
pub record Assertion : Type 0 where
  pub contains : Option Json
  pub not_contains : Option Json
  pub header : Option Json
  pub equals : Option Json
  pub json_path : Option Json
  pub not_equals : Option Json

pub data Entry : Type 0 where
  assertion : Assertion → Entry
  foreign : Entry

-- The value of `monitor.response_assertions`: falsy, a list, or neither.
pub data Assertions : Type 0 where
  unset not_a_list : Assertions
  entries : List Entry → Assertions

-- `assertion.get(key) or ''`, before `str`.
unfoldable pub is_falsy : Json → Bool
is_falsy null = true
is_falsy (bool b) = not b
is_falsy (integer (pos n)) = n == 0
is_falsy (string s) = is_empty s
is_falsy (array no_items) = true
is_falsy (object no_members) = true
is_falsy _ = false

-- The language's `str`, `==` and `str.lower` on these values, and the JSON parser, which fails on
-- a body that is no JSON.
pub record Python : Type 0 where
  pub str : Json → Text
  pub equal : Json → Json → Bool
  pub lower : Text → Text
  pub loads : Text → Option Json

module _ (py : Python) where
  unfoldable pub text_or_empty : Option Json → Text
  unfolding is_falsy
  text_or_empty none = []
  text_or_empty (some v) = if is_falsy v then [] else py.str v

  -- `next((v for k, v in headers.items() if k.lower() == name), '')`
  unfoldable pub header_value : Text → List (Text × Text) → Text
  header_value name [] = []
  header_value name (h ∷ hs) =
      let rest = header_value name hs in if text_eq (py.lower h.0) name then h.1 else rest

  unfoldable pub value_passes : Assertion → Option Json → Bool
  unfolding contains_text
  value_passes a none = false
  value_passes a (some actual) = elim a.equals [
    | some expected ↦ py.equal actual expected
    | none ↦ elim a.not_equals [
      | some other ↦ not (py.equal actual other)
      | none ↦ elim a.contains [
        | some needle ↦ contains_text (py.str needle) (py.str actual)
        | none ↦ false
      ]
    ]
  ]

  unfoldable pub assertion_passes : Assertion → Text → List (Text × Text) → Bool
  unfolding contains_text header_value value_passes get_json_value text_or_empty
  assertion_passes a body headers = elim a.contains [
    | some needle ↦ contains_text (take 5000 (py.str needle)) body
    | none ↦ elim a.not_contains [
      | some needle ↦ not (contains_text (take 5000 (py.str needle)) body)
      | none ↦ elim a.header [
        | some name ↦
            text_eq (header_value (py.lower (text_or_empty (some name))) headers)
              (text_or_empty a.equals)
        | none ↦ elim a.json_path [
          | none ↦ false
          | some path ↦ elim (py.loads body) [
            | none ↦ false
            | some parsed ↦ value_passes a (get_json_value parsed (text_or_empty (some path)))
          ]
        ]
      ]
    ]
  ]

  unfoldable pub entry_passes : Text → List (Text × Text) → Entry → Bool
  unfolding assertion_passes
  entry_passes body headers foreign = false
  entry_passes body headers (assertion a) = assertion_passes a body headers

  unfoldable pub check_assertions : Assertions → Text → List (Text × Text) → Bool
  unfolding entry_passes
  check_assertions unset body headers = true
  check_assertions not_a_list body headers = false
  check_assertions (entries es) body headers =
      if ltb 20 (length es) then false else all (entry_passes body headers) es

  -- `str(value or '').split(';', 1)[0].strip().lower()`
  unfoldable pub before_semicolon : Text → Text
  before_semicolon [] = []
  before_semicolon (c ∷ s) = let rest = before_semicolon s in if c == b';' then [] else c ∷ rest

  unfoldable pub response_media_type : Text → Text
  unfolding before_semicolon
  response_media_type value = py.lower (strip (before_semicolon value))

  -- The status of the observation.
  unfoldable pub evaluate_response :
      Text → Assertions → ℕ → ℕ → Text → List (Text × Text) → Text → Health
  unfolding response_media_type
  evaluate_response expected_content_type assertions expected_status_code status_code content_type
        headers body =
      if not (is_empty (response_media_type expected_content_type))
        && not
            (text_eq (response_media_type content_type) (response_media_type expected_content_type))
      then down
      else if not (check_assertions assertions body headers)
      then down
      else if status_code == expected_status_code
      then up
      else down
