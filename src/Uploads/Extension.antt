-- ===== src/Uploads/Extension.antt =====
-- `_safe_filename` and `_extension_error` of paxalia/views/uploads.py, and the extensions of
-- paxalia/conf_uploads.py.
pub mod Laws
use paxalia_dashboard.Prelude.{
  ℕ, ◌-◌, ◌≤◌, ◌<◌, ◌≡◌, refl, ◌⊎◌, inl, inr, Bool, true, false, ◌&&◌, ◌||◌, not, Option, none,
  some, List, [], ◌∷◌, ◌++◌, map, Text, codes, text_eq, member, has, is_empty, strip, take, drop,
  length, leb, ltb, ◌==◌, if◌then◌else◌, All, arith,
}
use paxalia_dashboard.ServerFiles.Name.{slash, backslash}
use paxalia_dashboard.Transfer.Exchange.{longest_suffix}

-- The configured extensions, if there are any, and `str.lower`.
pub record Extensions : Type 0 where
  pub blocked : Option (List Text)
  pub allowed : Option (List Text)
  pub lower : Text → Text

-- `_DEFAULT_BLOCKED_EXTENSIONS`
abbrev default_blocked_extensions : List Text
default_blocked_extensions =
    codes ".php"
    ∷ codes ".php3"
    ∷ codes ".php4"
    ∷ codes ".php5"
    ∷ codes ".php7"
    ∷ codes ".phtml"
    ∷ codes ".phar"
    ∷ codes ".py"
    ∷ codes ".pyc"
    ∷ codes ".pyo"
    ∷ codes ".pyw"
    ∷ codes ".rb"
    ∷ codes ".pl"
    ∷ codes ".cgi"
    ∷ codes ".jsp"
    ∷ codes ".jspx"
    ∷ codes ".asp"
    ∷ codes ".aspx"
    ∷ codes ".ashx"
    ∷ codes ".sh"
    ∷ codes ".bash"
    ∷ codes ".bat"
    ∷ codes ".cmd"
    ∷ codes ".htaccess"
    ∷ codes ".htpasswd"
    ∷ []

unfoldable pub get_upload_blocked_extensions : Extensions → List Text
get_upload_blocked_extensions x = elim x.blocked [
  | some configured ↦ map x.lower configured
  | none ↦ default_blocked_extensions
]

abbrev pub map_some : (Text → Text) → Option (List Text) → Option (List Text)
map_some f none = none
map_some f (some es) = some (map f es)

unfoldable pub get_upload_allowed_extensions : Extensions → Option (List Text)
get_upload_allowed_extensions x = map_some x.lower x.allowed

-- `_safe_filename`. A stripped text with a path component has a slash, so `PurePath` adds nothing.
unfoldable pub safe_upload_name : Text → Text
safe_upload_name name =
    let raw = strip name in
    if is_empty raw
      || text_eq raw (codes ".")
      || text_eq raw (codes "..")
      || has slash raw
      || has backslash raw
    then []
    else take 255 raw

-- `os.path.splitext(name)[1]` of a name without a slash.
skip_dots : Text → Text
skip_dots [] = []
skip_dots (c ∷ s) = let rest = skip_dots s in if c == b'.' then rest else c ∷ s

from_last_dot : Text → Option Text
from_last_dot [] = none
from_last_dot (c ∷ s) = elim (from_last_dot s) [
  | some e ↦ some e
  | none ↦ if c == b'.' then some (c ∷ s) else none
]

unfoldable pub extension : Text → Text
unfolding skip_dots from_last_dot
extension name = elim (from_last_dot (skip_dots name)) [ none ↦ [] | some e ↦ e ]

abbrev pub or_none : Option (List Text) → List Text
or_none none = []
or_none (some es) = es

unfoldable pub matched_extension : Text → List Text → Text
unfolding longest_suffix extension
matched_extension name candidates = elim (longest_suffix name candidates) [
  | some e ↦ e
  | none ↦ extension name
]

abbrev pub is_unlisted : Text → Option (List Text) → Bool
is_unlisted e none = false
is_unlisted e (some es) = not (member e es)

-- `_extension_error`: whether there is one.
unfoldable pub extension_error : Extensions → Text → Bool
unfolding get_upload_blocked_extensions get_upload_allowed_extensions matched_extension
extension_error x filename =
    let name = x.lower filename in
    let blocked = map x.lower (get_upload_blocked_extensions x) in
    let allowed = map_some x.lower (get_upload_allowed_extensions x) in
    let e = matched_extension name (blocked ++ or_none allowed) in
    member e blocked || is_unlisted e allowed
