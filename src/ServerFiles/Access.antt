-- ===== src/ServerFiles/Access.antt =====
-- The access policy of paxalia/server_files/policy.py: denied prefixes, sensitive components, and
-- `assert_path_allowed`, which every file operation calls.
pub mod Laws
use paxalia_dashboard.Prelude.{
  ℕ, ◌≡◌, Bool, true, false, ◌&&◌, ◌||◌, not, Option, none, some, List, [], ◌∷◌, ◌++◌, map, Text,
  codes, text_eq, is_empty, starts_with, strip, any, member, ◌==◌, if◌then◌else◌, Result, ok, err,
  ◌>>=◌, ◌>>◌, raise_if, join,
}
use paxalia_dashboard.ServerFiles.Error.{Checked, configuration, denied}
use paxalia_dashboard.ServerFiles.Name.{slash}
use paxalia_dashboard.ServerFiles.Path.{split_relative_path}
use paxalia_dashboard.ServerFiles.Glob.{fnmatchcase}

-- `ServerFilesRoot`; the path is canonical and absolute, kept as its components.
pub record Root : Type 0 where
  pub id : Text
  pub name : Text
  pub path : List Text
  pub device : ℕ
  pub inode : ℕ

-- An entry of a configured list: a text, or a value of another type.
pub data Item : Type 0 where
  entry : Text → Item
  foreign : Item

-- A setting that should be a list.
pub data Setting : Type 0 where
  unset : Setting
  entries : List Item → Setting
  not_a_list : Setting

pub record AccessConfig : Type 0 where
  pub denied_paths : Setting
  pub sensitive_patterns : Setting
  pub allow_sensitive_mutations : Bool

-- What the policy asks of the user object. `has_perm` is Django's answer, or nothing if it raises
-- one of the errors that `has_capability` catches; `is_active` is missing on some user classes.
pub record User : Type 0 where
  pub is_authenticated : Bool
  pub is_active : Option Bool
  pub is_superuser : Bool
  pub has_perm : Text → Option Bool

unfoldable pub has_capability : User → Text → Bool
has_capability user codename = if not user.is_authenticated then false else elim user.is_active [
  | some false ↦ false
  | _ ↦
      if user.is_superuser
      then true
      else elim (user.has_perm codename) [ none ↦ false | some b ↦ b ]
]

-- `parts[:len(prefix)] == prefix`
unfoldable pub is_prefix : List Text → List Text → Bool
is_prefix [] parts = true
is_prefix (p ∷ ps) [] = false
is_prefix (p ∷ ps) (q ∷ qs) = text_eq p q && is_prefix ps qs

-- `os.path.relpath(candidate, root)` where the root contains the candidate.
unfoldable pub strip_prefix : List Text → List Text → Option (List Text)
strip_prefix [] parts = some parts
strip_prefix (p ∷ ps) [] = none
strip_prefix (p ∷ ps) (q ∷ qs) = let rest = strip_prefix ps qs in if text_eq p q then rest else none

unfoldable pub default_patterns : List Text
default_patterns =
    codes ".env"
    ∷ codes ".env.*"
    ∷ codes "*.pem"
    ∷ codes "*.key"
    ∷ codes "*.p12"
    ∷ codes "*.pfx"
    ∷ codes "*.p7b"
    ∷ codes "*.p8"
    ∷ codes "*.crt"
    ∷ codes "*.cer"
    ∷ codes "*.der"
    ∷ codes "*.jks"
    ∷ codes "*.keystore"
    ∷ codes "*.secret"
    ∷ codes "*.secrets"
    ∷ codes "*.token"
    ∷ codes "*.credentials"
    ∷ codes "id_rsa*"
    ∷ codes "id_ed25519*"
    ∷ codes "id_ecdsa*"
    ∷ codes "id_dsa*"
    ∷ codes "authorized_keys"
    ∷ codes "known_hosts"
    ∷ codes ".netrc"
    ∷ codes ".pgpass"
    ∷ codes ".my.cnf"
    ∷ codes "credentials"
    ∷ codes "credentials.*"
    ∷ codes "*.sqlite"
    ∷ codes "*.sqlite3"
    ∷ codes "*.db"
    ∷ codes "local_settings.py"
    ∷ codes "settings_local.py"
    ∷ codes "settings.py"
    ∷ codes "settings_*.py"
    ∷ codes "secrets.json"
    ∷ codes "secret.json"
    ∷ codes "service-account*.json"
    ∷ codes "*.tfstate"
    ∷ codes "*.tfstate.backup"
    ∷ []

unfoldable pub default_directories : List Text
default_directories =
    codes ".ssh"
    ∷ codes ".aws"
    ∷ codes ".azure"
    ∷ codes ".gcloud"
    ∷ codes ".kube"
    ∷ codes ".gnupg"
    ∷ codes "secrets"
    ∷ codes "secret"
    ∷ codes "credentials"
    ∷ []

-- `os.path.realpath` of an absolute path as components, or nothing where it raises an error that the
-- policy catches.
module _ (real_path : Text → Option (List Text)) where
  -- The part of a denied absolute path below the root, if there is one.
  denied_absolute : Root → Text → Checked (Option (List Text))
  unfolding strip_prefix
  denied_absolute root value = elim (real_path value) [
    | none ↦ ok none
    | some candidate ↦ elim (strip_prefix root.path candidate) [
      | none ↦ ok none
      | some [] ↦ ok (some [])
      | some (p ∷ ps) ↦
          split_relative_path (some (join slash (p ∷ ps))) true >>= λ parts. ok (some parts)
    ]
  ]

  -- One entry of `FILE_MANAGER_DENIED_PATHS`.
  denied_prefix : Root → Item → Checked (Option (List Text))
  unfolding denied_absolute
  denied_prefix root foreign = err configuration
  denied_prefix root (entry []) = ok none
  denied_prefix root (entry (c ∷ s)) =
      if c == slash
      then denied_absolute root (c ∷ s)
      else (split_relative_path (some (c ∷ s)) true >>= λ parts. ok (some parts))

  denied_entries : Root → List Item → Checked (List (List Text))
  unfolding denied_prefix
  denied_entries root [] = ok []
  denied_entries root (item ∷ items) =
      let rest = denied_entries root items in
      denied_prefix root item >>= λ found.
      rest >>= λ prefixes. ok (elim found [ none ↦ prefixes | some p ↦ p ∷ prefixes ])

  unfoldable pub denied_prefixes : Root → Setting → Checked (List (List Text))
  unfolding denied_entries
  denied_prefixes root unset = ok []
  denied_prefixes root (entries items) = denied_entries root items
  denied_prefixes root not_a_list = err configuration

  unfoldable pub is_denied : AccessConfig → Root → List Text → Checked Bool
  unfolding is_prefix
  is_denied config root parts = denied_prefixes root config.denied_paths >>= λ prefixes.
      ok (any (λ prefix. is_prefix prefix parts) prefixes)

-- `str.casefold`, whose table is Unicode's.
module _ (casefold : Text → Text) where
  configured_patterns : List Item → Checked (List Text)
  unfolding strip
  configured_patterns [] = ok []
  configured_patterns (foreign ∷ items) = err configuration
  configured_patterns (entry s ∷ items) =
      let rest = configured_patterns items in
      raise_if (is_empty (strip s)) configuration >>= λ _.
      rest >>= λ more. ok (casefold (strip s) ∷ more)

  -- `_sensitive_patterns`: the built-in ones, and those of the host after them.
  unfoldable pub patterns_of : Setting → Checked (List Text)
  unfolding configured_patterns
  patterns_of unset = ok default_patterns
  patterns_of (entries items) = configured_patterns items >>= λ more. ok (default_patterns ++ more)
  patterns_of not_a_list = err configuration

  unfoldable pub is_sensitive_name : List Text → Text → Bool
  unfolding default_directories
  is_sensitive_name patterns component =
      member (casefold component) default_directories
      || any (λ pattern. fnmatchcase (casefold component) pattern) patterns

  unfoldable pub is_sensitive : AccessConfig → List Text → Checked Bool
  is_sensitive config parts = patterns_of config.sensitive_patterns >>= λ patterns.
      ok (any (is_sensitive_name patterns) parts)

module _ (casefold : Text → Text) (real_path : Text → Option (List Text)) where
  -- The result says whether the path is sensitive.
  unfoldable pub assert_path_allowed : AccessConfig → Root → List Text → User → Bool → Checked Bool
  assert_path_allowed config root parts user write = do
    refused ← is_denied real_path config root parts
    raise_if refused denied
    sensitive ← is_sensitive casefold config parts
    raise_if (sensitive && not (has_capability user (codes "view_sensitive_files"))) denied
    raise_if (write && sensitive && not config.allow_sensitive_mutations) denied
    raise_if (write && sensitive && not (has_capability user (codes "modify_sensitive_files")))
        denied
    ok sensitive
