-- ===== src/ServerFiles/Roots.antt =====
-- The served roots of paxalia/server_files/policy.py: `get_roots` and `get_root`. The host's answers
-- (`lstat`, `stat`, `realpath`) are a parameter; POSIX path normalisation is written out.
pub mod Laws
use paxalia_dashboard.Prelude.{
  ℕ, zero, suc, ◌+◌, ◌/◌, ◌%◌, Bool, true, false, ◌&&◌, ◌||◌, not, Option, none, some, List, [],
  ◌∷◌, ◌++◌, Text, codes, text_eq, is_empty, starts_with, strip, any, all, find, length, split_on,
  join, ltb, leb, ◌==◌, if◌then◌else◌, Result, ok, err, ◌>>=◌, ◌>>◌, raise_if,
}
use mathlib.Core.List.{reverse}
use paxalia_dashboard.ServerFiles.Error.{Checked, configuration, disabled, invalid_path}
use paxalia_dashboard.ServerFiles.Name.{slash}
use paxalia_dashboard.ServerFiles.Access.{Root, AccessConfig, is_prefix, is_sensitive}

-- The path of a configured root: a text, a `PathLike` over bytes, or a value of another type.
pub data RawPath : Type 0 where
  path : Text → RawPath
  bytes_path no_path : RawPath

-- An entry of `FILE_MANAGER_ALLOWED_ROOTS`: a path alone, or a mapping with the text of its name.
pub data RootItem : Type 0 where
  bare : Text → RootItem
  named : Option Text → RawPath → RootItem
  malformed : RootItem

pub data FileKind : Type 0 where
  directory regular link other_kind : FileKind

pub record FileStat : Type 0 where
  pub kind : FileKind
  pub device : ℕ
  pub inode : ℕ

-- What the host answers: `none` is an `OSError`. Canonical paths are lists of components.
pub record Host : Type 0 where
  pub casefold : Text → Text
  pub lstat : Text → Option FileStat
  pub real_path : Text → Option (List Text)
  pub stat : List Text → Option FileStat

pub record RootsConfig : Type 0 where
  pub access : AccessConfig
  pub enabled : Bool
  -- `none` for a value that is no list or tuple.
  pub allowed_roots : Option (List RootItem)

abbrev pub max_roots : ℕ
max_roots = 32

decimal_digits : ℕ → ℕ → Text → Text
decimal_digits zero n acc = acc
decimal_digits (suc fuel) n acc =
    let more = decimal_digits fuel (n / 10) ((b'0' + n % 10) ∷ acc) in
    if ltb n 10 then (b'0' + n) ∷ acc else more

-- `str(n)`; a number has no more digits than `n + 1`.
unfoldable pub decimal : ℕ → Text
unfolding decimal_digits
decimal n = decimal_digits (suc n) n []

unfoldable pub root_id : ℕ → Text
unfolding decimal
root_id index = codes "root-" ++ decimal index

-- `os.path.normpath` on the components of an absolute path, kept in reverse.
normal_reversed : List Text → List Text → List Text
normal_reversed acc [] = acc
normal_reversed acc (p ∷ ps) =
    normal_reversed
      (if text_eq p [] || text_eq p (codes ".")
        then acc
        else if text_eq p (codes "..")
        then elim acc [ [] ↦ [] | q ∷ qs ↦ qs ]
        else p ∷ acc)
      ps

-- POSIX keeps two leading slashes, and reads one or more than two as one.
leading_slashes : Text → ℕ
leading_slashes [] = 0
leading_slashes (a ∷ []) = 1
leading_slashes (a ∷ b ∷ []) = if b == slash then 2 else 1
leading_slashes (a ∷ b ∷ c ∷ s) = if b == slash && not (c == slash) then 2 else 1

-- `os.path.abspath` of an absolute path.
unfoldable pub abspath : Text → Text
unfolding normal_reversed leading_slashes
abspath p =
    (if leading_slashes p == 2 then slash ∷ slash ∷ [] else slash ∷ [])
    ++ join slash (reverse (normal_reversed [] (split_on slash p)))

-- `_is_filesystem_root` of an absolute path.
unfoldable pub is_filesystem_root : Text → Bool
unfolding abspath
is_filesystem_root p = text_eq (abspath p) (codes "/")

abbrev is_directory : FileKind → Bool
is_directory directory = true
is_directory _ = false

pub basename : List Text → Text
basename [] = []
basename (p ∷ []) = p
basename (p ∷ q ∷ ps) = basename (q ∷ ps)

-- `os.path.commonpath([a, b]) in (a, b)`
unfoldable pub overlaps : List Text → List Text → Bool
overlaps a b = is_prefix a b || is_prefix b a

raw_text : RawPath → Checked Text
raw_text (path []) = err configuration
raw_text (path (c ∷ s)) = ok (c ∷ s)
raw_text bytes_path = err configuration
raw_text no_path = err configuration

default_name : ℕ → Text
unfolding decimal
default_name index = codes "Root " ++ decimal (index + 1)

name_and_path : ℕ → RootItem → Checked (Text × RawPath)
unfolding default_name strip
name_and_path index (bare s) = ok (default_name index, path s)
name_and_path index (named none p) = ok (strip (default_name index), p)
name_and_path index (named (some n) p) = ok (strip n, p)
name_and_path index malformed = err configuration

known : {A : Type 0} → Option A → Checked A
known none = err configuration
known (some a) = ok a

module _ (host : Host) (config : RootsConfig) where
  -- One entry, against the canonical paths of the entries before it.
  unfoldable pub resolve_root : ℕ → RootItem → List (List Text) → Checked Root
  unfolding raw_text name_and_path known basename
  resolve_root index item previous = do
    entry ← name_and_path index item
    raise_if (is_empty entry.0 || ltb 64 (length entry.0) || any (λ c. ltb c 32) entry.0)
        configuration
    raw ← raw_text entry.1
    raise_if (not (starts_with slash raw) || is_filesystem_root raw) configuration
    raw_stat ← known (host.lstat (abspath raw))
    raise_if (not (is_directory raw_stat.kind)) configuration
    canonical ← known (host.real_path (abspath raw))
    root_stat ← known (host.stat canonical)
    raise_if (not (is_directory root_stat.kind)) configuration
    sensitive ← is_sensitive host.casefold config.access (basename canonical ∷ [])
    raise_if sensitive configuration
    raise_if (any (λ p. overlaps p canonical) previous) configuration
    ok (record {
      id = root_id index;
      name = entry.0;
      path = canonical;
      device = root_stat.device;
      inode = root_stat.inode;
    })

  unfoldable pub resolve_roots : ℕ → List RootItem → List (List Text) → Checked (List Root)
  resolve_roots index [] previous = ok []
  resolve_roots index (item ∷ items) previous = resolve_root index item previous >>= λ root.
      resolve_roots (suc index) items (root.path ∷ previous) >>= λ roots. ok (root ∷ roots)

  unfoldable pub get_roots : Checked (List Root)
  get_roots = do
    raise_if (not config.enabled) disabled
    elim config.allowed_roots [
      | none ↦ ok []
      | some items ↦
          raise_if (ltb max_roots (length items)) configuration >>= λ _. resolve_roots 0 items []
    ]

abbrev is_digit : ℕ → Bool
is_digit c = leb b'0' c && leb c b'9'

-- `^root-[0-9]{1,3}$`, matched in full.
unfoldable pub is_root_id : Text → Bool
is_root_id (a ∷ b ∷ c ∷ d ∷ e ∷ digits) =
    text_eq (a ∷ b ∷ c ∷ d ∷ e ∷ []) (codes "root-")
    && not (is_empty digits)
    && leb (length digits) 3
    && all is_digit digits
is_root_id _ = false

unfoldable pub get_root : Text → List Root → Checked Root
get_root id roots = do
  raise_if (not (is_root_id id)) invalid_path
  elim (find (λ r. text_eq r.id id) roots) [ none ↦ err invalid_path | some r ↦ ok r ]
