-- ===== src/ServerFiles/Tests.antt =====
-- Runs of the Server Files policy at concrete inputs, and its theorems applied at them.
use paxalia_dashboard.Prelude.{
  ◌≡◌, refl, ◌↔◌, true, false, Option, none, some, List, [], ◌∷◌, Text, codes, All, ok, err, join,
  arith, text_eq, split_on, strip,
}
use paxalia_dashboard.ServerFiles.Error.{invalid_path, denied}
use paxalia_dashboard.ServerFiles.Name.{
  slash, validate_name, encoded_length, IsSafeName, validate_name_iff,
}
use paxalia_dashboard.ServerFiles.Path.{
  split_relative_path, validate_parts, split_relative_path-join, split_relative_path-IsSafeName,
}
use paxalia_dashboard.ServerFiles.Access.{
  Root, AccessConfig, User, unset, entries, entry, has_capability, is_denied, denied_prefixes,
  is_prefix, strip_prefix, is_sensitive_name, patterns_of, default_directories, is_sensitive,
  default_patterns, assert_path_allowed,
}
use paxalia_dashboard.ServerFiles.Access.Laws.{IsAllowed, assert_path_allowed_iff}
use paxalia_dashboard.ServerFiles.Glob.{fnmatchcase}
use paxalia_dashboard.ServerFiles.Roots.{
  get_root, Host, RootsConfig, FileStat, directory, bare, named, path, get_roots,
  is_filesystem_root, resolve_root, resolve_roots, root_id, abspath, overlaps,
}
use paxalia_dashboard.ServerFiles.Roots.Laws.{IsServed, get_roots-IsServed, get_root-get_roots}

abbrev report : Text
report = codes "report.txt"

-- Every text is its own case folding, and every path its own real path.
abbrev same_text : Text → Text
same_text s = s

abbrev split_path : Text → Option (List Text)
split_path [] = none
split_path (c ∷ s) = some (split_on slash s)

abbrev logs_root : Root
logs_root = record {
  id = codes "root-0";
  name = codes "Logs";
  path = codes "srv" ∷ [];
  device = 1;
  inode = 2;
}

abbrev config : AccessConfig
config = record {
  denied_paths = entries (entry (codes "private") ∷ entry (codes "/srv/old") ∷ []);
  sensitive_patterns = entries (entry (codes "*.bak") ∷ []);
  allow_sensitive_mutations = false;
}

abbrev staff : User
staff = record {
  is_authenticated = true;
  is_active = some true;
  is_superuser = false;
  has_perm = λ codename. some (text_eq codename (codes "view_sensitive_files"));
}

validate_name_iff_example :
    (validate_name report ≡ ok report) ↔ ((report ≡ report) × IsSafeName report)
validate_name_iff_example = validate_name_iff report report

report_accepted : validate_name report ≡ ok report
unfolding validate_name encoded_length
report_accepted = refl

split_logs :
    split_relative_path (some (codes "logs/a.txt")) true ≡ ok (codes "logs" ∷ codes "a.txt" ∷ [])
unfolding split_relative_path validate_parts validate_name encoded_length split_on
split_logs = refl

split_refused :
    (split_relative_path (some (codes "a/../b")) true ≡ err invalid_path)
    × (split_relative_path (some (codes "/etc")) true ≡ err invalid_path)
    × (split_relative_path none false ≡ err invalid_path)
unfolding split_relative_path validate_parts validate_name encoded_length split_on
split_refused = (refl, refl, refl)

split_relative_path-join_example :
    (join slash (codes "logs" ∷ codes "a.txt" ∷ []) ≡ codes "logs/a.txt")
    × All IsSafeName (codes "logs" ∷ codes "a.txt" ∷ [])
split_relative_path-join_example =
    split_relative_path-join (codes "logs/a.txt") true (codes "logs" ∷ codes "a.txt" ∷ [])
      split_logs

safe_parts : All IsSafeName (codes "logs" ∷ codes "a.txt" ∷ [])
safe_parts = split_relative_path-join_example.1

split_relative_path-IsSafeName_example :
    split_relative_path (some (join slash (codes "logs" ∷ codes "a.txt" ∷ []))) false
    ≡ ok (codes "logs" ∷ codes "a.txt" ∷ [])
unfolding join
split_relative_path-IsSafeName_example =
    split_relative_path-IsSafeName (codes "logs") (codes "a.txt" ∷ []) false safe_parts
      (omega arith)

private_denied : is_denied split_path config logs_root (codes "private" ∷ []) ≡ ok true
unfolding is_denied denied_prefixes is_prefix split_relative_path validate_parts validate_name
    encoded_length split_on strip_prefix join
private_denied = refl

key_sensitive :
    is_sensitive same_text (record config { sensitive_patterns = unset }) (codes "tls.key" ∷ [])
    ≡ ok true
unfolding is_sensitive is_sensitive_name patterns_of default_patterns default_directories
    fnmatchcase
key_sensitive = refl

assert_path_allowed_iff_example :
    (assert_path_allowed same_text split_path config logs_root (codes "tls.key" ∷ []) staff false
      ≡ ok true)
    ↔ IsAllowed same_text split_path config logs_root (codes "tls.key" ∷ []) staff false true
assert_path_allowed_iff_example =
    assert_path_allowed_iff same_text split_path config logs_root (codes "tls.key" ∷ []) staff false
      true

key_viewed_not_written :
    (assert_path_allowed same_text split_path config logs_root (codes "tls.key" ∷ []) staff false
      ≡ ok true)
    × (assert_path_allowed same_text split_path config logs_root (codes "tls.key" ∷ []) staff true
        ≡ err denied)
unfolding assert_path_allowed is_denied denied_prefixes is_prefix split_relative_path validate_parts
    validate_name encoded_length split_on strip_prefix join is_sensitive is_sensitive_name
    patterns_of default_patterns default_directories fnmatchcase has_capability strip
key_viewed_not_written = (refl, refl)

abbrev folder : FileStat
folder = record { kind = directory; device = 1; inode = 2 }

abbrev host : Host
host = record {
  casefold = same_text;
  lstat = λ _. some folder;
  real_path = λ s. some (split_on slash s);
  stat = λ _. some folder;
}

abbrev roots_config : RootsConfig
roots_config = record {
  access = config;
  enabled = true;
  allowed_roots =
      some (bare (codes "/srv/a") ∷ named (some (codes "Logs ")) (path (codes "/srv/b")) ∷ []);
}

abbrev served : List Root
served =
    record {
      id = codes "root-0";
      name = codes "Root 1";
      path = split_on slash (codes "/srv/a");
      device = 1;
      inode = 2;
    }
    ∷ record {
      id = codes "root-1";
      name = codes "Logs";
      path = split_on slash (codes "/srv/b");
      device = 1;
      inode = 2;
    }
    ∷ []

roots_served : get_roots host roots_config ≡ ok served
unfolding get_roots resolve_roots resolve_root root_id abspath is_filesystem_root overlaps is_prefix
    is_sensitive is_sensitive_name patterns_of default_patterns default_directories fnmatchcase
    split_on join strip
roots_served = refl

get_roots-IsServed_example : IsServed host roots_config served
get_roots-IsServed_example = get_roots-IsServed host roots_config served roots_served

abbrev second : Root
second = record {
  id = codes "root-1";
  name = codes "Logs";
  path = split_on slash (codes "/srv/b");
  device = 1;
  inode = 2;
}

get_root-get_roots_example : get_root (codes "root-1") served ≡ ok second
get_root-get_roots_example = get_root-get_roots host roots_config served 1 second roots_served refl

-- Two leading slashes also name the root of the filesystem, and are not recognised as it.
double_slash : (is_filesystem_root (codes "/") ≡ true) × (is_filesystem_root (codes "//") ≡ false)
unfolding is_filesystem_root abspath split_on join
double_slash = (refl, refl)
