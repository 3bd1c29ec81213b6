-- ===== src/Transfer/Tests.antt =====
-- Runs of the Transfer Center at concrete inputs, and its theorems applied at them.
use paxalia_dashboard.Prelude.{
  ℕ, ◌≡◌, ◌≤◌, ◌⊎◌, refl, ap, true, false, Option, none, some, List, [], ◌∷◌, Text, codes, ok,
  arith, split_on,
}
use paxalia_dashboard.ServerFiles.Name.{slash, validate_name, encoded_length}
use paxalia_dashboard.ServerFiles.Path.{split_relative_path, validate_parts}
use paxalia_dashboard.ServerFiles.Access.{
  Root, unset, has_capability, is_denied, denied_prefixes, is_prefix, strip_prefix,
  is_sensitive_name, patterns_of, default_directories, is_sensitive, default_patterns,
  assert_path_allowed,
}
use paxalia_dashboard.ServerFiles.Glob.{fnmatchcase}
use paxalia_dashboard.ServerFiles.Roots.{get_root, is_root_id}
use paxalia_dashboard.Transfer.Model.{
  Transfer, Upload, Account, verifying, completed, send, upload_completed, transfer_send, none_yet,
}
use paxalia_dashboard.Transfer.Exchange.{
  Deployment, resolve_bound_transfer_path, resolve_transfer_exchange, stored_path, safe_filename,
  validate_transfer_filename, lift, allow, hide_policy_error, hide_path_error, parts_eq,
  parent_parts, last_part, is_extension_refused, longest_suffix, is_suffix,
}
use paxalia_dashboard.Transfer.Service.{
  Db, Service, Disk, ensure_enabled, check_capability, check_direction, is_foreign, find_transfer,
  find_upload, save_rows, save_uploads, active_count, safe_staging_path, has_link,
}
use paxalia_dashboard.Transfer.Finalize.{
  Host, Finalized, sync_finalize_send, finalize_locked, verify_staged, staging_fault, submitted,
  promote, copy_to_temp, link_temp, settle, complete_upload, Promotion, promoted, verifying_row,
}
use paxalia_dashboard.Transfer.Lifecycle.{finalize, run, outcome, may_move, Reaches, here, next}
use paxalia_dashboard.Transfer.Lifecycle.Laws.{Kept, run-may_move, Reaches-Kept, Reaches-is_settled}
use paxalia_dashboard.Transfer.Lifecycle.Slots.{Unique, run-active_count}
use paxalia_dashboard.Transfer.Exchange.Laws.{IsBound, resolve_bound_transfer_path-IsBound}
use paxalia_dashboard.Transfer.Finalize.Laws.{IsFinalized, sync_finalize_send-IsFinalized}

abbrev pub same_text : Text → Text
same_text s = s

abbrev split_path : Text → Option (List Text)
split_path [] = none
split_path (c ∷ s) = some (split_on slash s)

abbrev srv : Root
srv = record {
  id = codes "root-0";
  name = codes "Files";
  path = codes "srv" ∷ [];
  device = 1;
  inode = 2;
}

abbrev pub deployment : Deployment
deployment = record {
  lower = same_text;
  casefold = same_text;
  real_path = split_path;
  roots = ok (srv ∷ []);
  access = record {
    denied_paths = unset;
    sensitive_patterns = unset;
    allow_sensitive_mutations = false;
  };
  exchange_root = some (codes "srv" ∷ codes "drop" ∷ []);
  exchange_available = true;
  blocked_extensions = codes ".exe" ∷ [];
  allowed_extensions = none;
}

-- The digest of a content is its bytes after a mark.
abbrev marked : List ℕ → Text
marked content = 65 ∷ content

abbrev pub service : Service
service = record {
  deployment = deployment;
  enabled = true;
  now = 5000;
  expiration_hours = 24;
  max_concurrent = 1;
  max_transfer = 1000;
  chunk = 2;
  max_retries = 3;
  sync_verify_max = 100;
  allow_large_promotion = false;
  sha256 = marked;
}

abbrev staged_at : List Text
staged_at = codes "stage" ∷ codes "1_a.txt" ∷ []

abbrev pub content : List ℕ
content = 1 ∷ 2 ∷ 3 ∷ []

abbrev pub disk : Disk
disk = record {
  send_root = codes "stage" ∷ [];
  receive_root = codes "inbox" ∷ [];
  is_link = λ p. false;
  resolve = λ p. p;
  staged = λ p. some content;
  temp_name = λ i. codes ".upload-1";
  staging_prefix = λ i. codes "1_";
  server_file = λ r p. ok content;
  read_error = λ r p. false;
  has_entry = λ r p. ok false;
}

abbrev pub owner : Account
owner = record {
  pk = 7;
  user = record {
    is_authenticated = true;
    is_active = some true;
    is_superuser = true;
    has_perm = λ c. some true;
  };
}

abbrev pub sending : Transfer
sending = record {
  pk = 1;
  actor = some 7;
  direction = send;
  filename = codes "a.txt";
  size = 3;
  bytes_transferred = 3;
  chunk_size = 2;
  total_chunks = 2;
  received_chunks = [];
  server_root_id = codes "root-0";
  server_relative_path = codes "drop/a.txt";
  staging_path = staged_at;
  upload_session = some 1;
  status = verifying;
  source_checksum = marked content;
  destination_checksum = [];
  retry_count = 0;
  max_retries = 3;
  error_message = none_yet;
  request_id = [];
  started_at = some 0;
  updated_at = 0;
  completed_at = none;
  expires_at = none;
}

abbrev upload : Upload
upload = record {
  id = 1;
  uploaded_by = some 7;
  original_filename = codes "a.txt";
  total_size = 3;
  bytes_received = 3;
  chunk_size = 2;
  total_chunks = 2;
  chunks_received = 2;
  status = upload_completed;
  purpose = transfer_send;
  transfer_id = some 1;
  storage_path = staged_at;
  error_message = none_yet;
  completed_at = none;
}

abbrev pub done : Transfer
done = record sending { pk = 2; status = completed; destination_checksum = marked content }

abbrev pub db : Db
db = record { transfers = sending ∷ done ∷ []; uploads = upload ∷ [] }

abbrev pub quiet : Host
quiet = record {
  source = ok content;
  parent_error = none;
  write_error = none;
  changed = false;
  reread = content;
  occupied = false;
  link_error = none;
  settle_error = none;
}

sending_resolves :
    resolve_bound_transfer_path deployment sending owner true
    ≡ ok (srv, codes "drop" ∷ codes "a.txt" ∷ [])
unfolding resolve_bound_transfer_path resolve_transfer_exchange stored_path safe_filename
    validate_transfer_filename lift allow hide_policy_error hide_path_error parts_eq parent_parts
    last_part is_extension_refused longest_suffix is_suffix get_root is_root_id assert_path_allowed
    is_denied denied_prefixes is_prefix split_relative_path validate_parts validate_name
    encoded_length split_on strip_prefix is_sensitive is_sensitive_name patterns_of default_patterns
    default_directories fnmatchcase has_capability
sending_resolves = refl

resolve_bound_transfer_path-IsBound_example :
    IsBound deployment sending owner true srv (codes "drop" ∷ codes "a.txt" ∷ [])
resolve_bound_transfer_path-IsBound_example =
    resolve_bound_transfer_path-IsBound deployment sending owner true srv
      (codes "drop" ∷ codes "a.txt" ∷ []) sending_resolves

abbrev finished : Transfer
finished = record sending {
  status = completed;
  destination_checksum = marked content;
  completed_at = some 5000;
  updated_at = 5000;
}

abbrev finished_db : Db
finished_db = record {
  transfers = finished ∷ done ∷ [];
  uploads = record upload { storage_path = [] } ∷ [];
}

abbrev finalized : Finalized
finalized = record {
  db = finished_db;
  row = finished;
  linked =
      some (record { root = srv; parts = codes "drop" ∷ codes "a.txt" ∷ []; content = content });
}

abbrev promoted_file : Promotion
promoted_file =
    promoted (marked content)
      (record { root = srv; parts = codes "drop" ∷ codes "a.txt" ∷ []; content = content })

sending_promoted : promote service quiet (verifying_row service sending) owner ≡ promoted_file
unfolding promote copy_to_temp link_temp resolve_bound_transfer_path resolve_transfer_exchange
    stored_path safe_filename validate_transfer_filename lift allow hide_policy_error
    hide_path_error parts_eq parent_parts last_part is_extension_refused longest_suffix is_suffix
    get_root is_root_id assert_path_allowed is_denied denied_prefixes is_prefix split_relative_path
    validate_parts validate_name encoded_length split_on strip_prefix is_sensitive is_sensitive_name
    patterns_of default_patterns default_directories fnmatchcase has_capability
sending_promoted = refl

sending_finalized : sync_finalize_send service disk quiet db 1 owner none false ≡ ok finalized
unfolding sync_finalize_send finalize_locked verify_staged staging_fault submitted settle
    complete_upload ensure_enabled check_direction check_capability is_foreign find_transfer
    find_upload save_rows save_uploads safe_staging_path has_link strip_prefix parts_eq
    has_capability promote copy_to_temp link_temp resolve_bound_transfer_path
    resolve_transfer_exchange stored_path safe_filename validate_transfer_filename lift allow
    hide_policy_error hide_path_error parent_parts last_part is_extension_refused longest_suffix
    is_suffix get_root is_root_id assert_path_allowed is_denied denied_prefixes is_prefix
    split_relative_path validate_parts validate_name encoded_length split_on is_sensitive
    is_sensitive_name patterns_of default_patterns default_directories fnmatchcase
sending_finalized = refl

sending_found : find_transfer 1 db ≡ some sending
unfolding find_transfer
sending_found = refl

sync_finalize_send-IsFinalized_example : IsFinalized service quiet owner sending finalized
sync_finalize_send-IsFinalized_example =
    sync_finalize_send-IsFinalized service disk quiet db 1 owner none false sending finalized
      sending_found refl sending_finalized

finalize_run : run service disk owner (finalize 1 none false quiet) db ≡ ok (finished_db, finished)
unfolding run
finalize_run = ap outcome sending_finalized

to_finished : Reaches db finished_db
to_finished = next service disk owner (finalize 1 none false quiet) finished finalize_run here

run-may_move_example :
    (t' : Transfer) × (find_transfer 1 finished_db ≡ some t')
    × ((t' ≡ sending) ⊎ (may_move send verifying t'.status ≡ true))
run-may_move_example =
    run-may_move service disk owner (finalize 1 none false quiet) db finished_db finished sending 1
      finalize_run sending_found

Reaches-Kept_example : (t' : Transfer) × (find_transfer 1 finished_db ≡ some t') × Kept sending t'
Reaches-Kept_example = Reaches-Kept db finished_db 1 sending to_finished sending_found

done_found : find_transfer 2 db ≡ some done
unfolding find_transfer
done_found = refl

Reaches-is_settled_example : find_transfer 2 finished_db ≡ some done
Reaches-is_settled_example = Reaches-is_settled db finished_db 2 done to_finished done_found refl

few_active : active_count db ≤ 1
unfolding active_count
few_active = omega arith

distinct : Unique db.transfers
unfolding Unique
distinct = (refl, (refl, tt))

run-active_count_example : active_count finished_db ≤ 1
run-active_count_example =
    run-active_count service disk owner (finalize 1 none false quiet) db finished_db finished
      distinct few_active finalize_run
