-- ===== src/Transfer/Exchange.antt =====
-- Where a transfer may read and write: `validate_transfer_filename` of
-- paxalia/transfer_center/policy.py, and the exchange resolution of
-- paxalia/transfer_center/service.py.
pub mod Laws
use paxalia_dashboard.Prelude.{
  ℕ, ◌+◌, ◌≡◌, Bool, true, false, ◌&&◌, ◌||◌, not, Option, none, some, List, [], ◌∷◌, ◌++◌, Text,
  codes, text_eq, has, is_empty, strip, member, length, ltb, ◌==◌, if◌then◌else◌, Result, ok, err,
  ◌>>=◌, ◌>>◌, raise_if,
}
use paxalia_dashboard.ServerFiles.Error.{
  Error, Checked, disabled, configuration, invalid_path, denied, unicode_error,
  unsupported_platform,
}
use paxalia_dashboard.ServerFiles.Name.{slash, backslash, validate_name}
use paxalia_dashboard.ServerFiles.Path.{split_relative_path}
use paxalia_dashboard.ServerFiles.Access.{Root, AccessConfig, strip_prefix, assert_path_allowed}
use paxalia_dashboard.ServerFiles.Roots.{get_root}
use paxalia_dashboard.Transfer.Model.{
  Transfer, Account, TransferError, permission_denied, value_error, server_files,
}

-- The deployment as this part sees it: the case tables of Unicode, `realpath`, what `get_roots`
-- answers, the canonical exchange directory (nothing if `transfer_exchange_root` raises), and
-- whether it still is a directory and no link.
pub record Deployment : Type 0 where
  pub lower : Text → Text
  pub casefold : Text → Text
  pub real_path : Text → Option (List Text)
  pub roots : Checked (List Root)
  pub access : AccessConfig
  pub exchange_root : Option (List Text)
  pub exchange_available : Bool
  pub blocked_extensions : List Text
  pub allowed_extensions : Option (List Text)

-- A Server Files call inside the service. `UnicodeEncodeError` is a `ValueError`.
unfoldable pub lift {ℓ} : {A : Type ℓ} → Result Error A → Result TransferError A
lift (ok a) = ok a
lift (err unicode_error) = err value_error
lift (err e) = err (server_files e)

-- `s.endswith(suffix)`
unfoldable pub is_suffix : Text → Text → Bool
is_suffix suffix [] = is_empty suffix
is_suffix suffix (c ∷ s) = text_eq suffix (c ∷ s) || is_suffix suffix s

-- The longest of the extensions that the name ends with.
unfoldable pub longest_suffix : Text → List Text → Option Text
longest_suffix name [] = none
longest_suffix name (e ∷ es) =
    let rest = longest_suffix name es in
    if is_suffix e name
    then (elim rest [
      | none ↦ some e
      | some r ↦ if ltb (length e) (length r) then some r else some e
    ])
    else rest

abbrev member? : Option Text → List Text → Bool
member? none es = false
member? (some e) es = member e es

-- Whether the longest match is blocked, or missing from a configured allow list.
unfoldable pub is_extension_refused : Text → List Text → Option (List Text) → Bool
is_extension_refused name blocked none = member? (longest_suffix name blocked) blocked
is_extension_refused name blocked (some allowed) =
    member? (longest_suffix name (blocked ++ allowed)) blocked
    || not (member? (longest_suffix name (blocked ++ allowed)) allowed)

unfoldable pub parts_eq : List Text → List Text → Bool
parts_eq [] [] = true
parts_eq (p ∷ ps) (q ∷ qs) = text_eq p q && parts_eq ps qs
parts_eq _ _ = false

-- `parts[:-1]` and `parts[-1]`
unfoldable pub parent_parts : List Text → List Text
parent_parts [] = []
parent_parts (p ∷ []) = []
parent_parts (p ∷ q ∷ ps) = p ∷ parent_parts (q ∷ ps)

unfoldable pub last_part : List Text → Text
last_part [] = []
last_part (p ∷ []) = p
last_part (p ∷ q ∷ ps) = last_part (q ∷ ps)

-- The roots that properly contain the exchange, each with the path below it.
exchange_matches : List Text → List Root → List (Root × List Text)
exchange_matches exchange [] = []
exchange_matches exchange (r ∷ rs) =
    let rest = exchange_matches exchange rs in
    elim (strip_prefix r.path exchange) [
      | none ↦ rest
      | some [] ↦ rest
      | some (p ∷ ps) ↦ (r, p ∷ ps) ∷ rest
    ]

the_match : List (Root × List Text) → Result TransferError (Root × List Text)
the_match (m ∷ []) = ok m
the_match _ = err value_error

-- `except (Configuration, Disabled, Denied, ValueError): raise PermissionDenied`
unfoldable pub hide_policy_error {ℓ} :
    {A : Type ℓ} → Result TransferError A → Result TransferError A
hide_policy_error (err (server_files configuration)) = err permission_denied
hide_policy_error (err (server_files disabled)) = err permission_denied
hide_policy_error (err (server_files denied)) = err permission_denied
hide_policy_error (err value_error) = err permission_denied
hide_policy_error r = r

-- The same, and `InvalidPath` too.
unfoldable pub hide_path_error {ℓ} : {A : Type ℓ} → Result TransferError A → Result TransferError A
hide_path_error (err (server_files invalid_path)) = err permission_denied
hide_path_error (err (server_files configuration)) = err permission_denied
hide_path_error (err (server_files disabled)) = err permission_denied
hide_path_error (err (server_files denied)) = err permission_denied
hide_path_error (err value_error) = err permission_denied
hide_path_error r = r

module _ (d : Deployment) where
  unfoldable pub validate_transfer_filename : Text → Result TransferError Text
  validate_transfer_filename name = do
    let raw = strip name
    raise_if
        (is_empty raw
          || text_eq raw (codes ".")
          || text_eq raw (codes "..")
          || has slash raw
          || has backslash raw)
        value_error
    raise_if (is_extension_refused (d.lower raw) d.blocked_extensions d.allowed_extensions)
        value_error
    ok raw

  unfoldable pub safe_filename : Text → Result TransferError Text
  unfolding lift
  safe_filename name = do raw ← validate_transfer_filename name; lift (validate_name raw)

  unfoldable pub allow : Root → List Text → Account → Bool → Result TransferError Bool
  unfolding lift
  allow root parts account write =
      lift (assert_path_allowed d.casefold d.real_path d.access root parts account.user write)

  unfoldable pub resolve_transfer_exchange :
      Account → Bool → Result TransferError (Root × List Text)
  unfolding lift exchange_matches the_match
  resolve_transfer_exchange account write = do
    exchange ← elim d.exchange_root [ none ↦ err value_error | some e ↦ ok e ]
    roots ← lift d.roots
    found ← the_match (exchange_matches exchange roots)
    allow found.0 found.1 account write
    raise_if (not d.exchange_available) value_error
    ok found

  unfoldable pub exchange_file_parts :
      Account → Text → Bool → Result TransferError (Root × List Text × Text)
  exchange_file_parts account filename write = do
    found ← resolve_transfer_exchange account write
    name ← safe_filename filename
    allow found.0 (found.1 ++ name ∷ []) account write
    ok (found.0, found.1 ++ name ∷ [], name)

  -- What the row stores: the root, the components of its path, and the name it should have.
  unfoldable pub stored_path : Transfer → Result TransferError (Root × List Text × Text)
  unfolding lift
  stored_path t = do
    roots ← lift d.roots
    root ← lift (get_root t.server_root_id roots)
    parts ← lift (split_relative_path (some t.server_relative_path) false)
    name ← safe_filename t.filename
    ok (root, parts, name)

  unfoldable pub resolve_bound_transfer_path :
      Transfer → Account → Bool → Result TransferError (Root × List Text)
  unfolding hide_policy_error hide_path_error
  resolve_bound_transfer_path t account write = do
    found ← hide_policy_error (resolve_transfer_exchange account write)
    stored ← hide_path_error (stored_path t)
    raise_if (not (text_eq stored.0.id found.0.id)) permission_denied
    raise_if (not (length stored.1 == length found.1 + 1)) permission_denied
    raise_if
        (not (parts_eq (parent_parts stored.1) found.1)
          || not (text_eq (last_part stored.1) stored.2))
        permission_denied
    allow found.0 stored.1 account write
    ok (found.0, stored.1)
