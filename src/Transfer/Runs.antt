-- ===== src/Transfer/Runs.antt =====
-- Further runs of the Transfer Center: settings, creation, chunks and maintenance.
use paxalia_dashboard.Prelude.{
  suc, ◌≡◌, ◌≤◌, ◌≢◌, ◌↔◌, refl, true, some, List, [], ◌∷◌, codes, ok, ℤ, pos, negsuc, arith,
  split_on, int, length, to_int, strip,
}
use paxalia_dashboard.Transfer.Tests.{service, disk, owner, sending, content, quiet}
use paxalia_dashboard.Transfer.Settings.{positive_int}
use paxalia_dashboard.ServerFiles.Name.{validate_name, encoded_length}
use paxalia_dashboard.ServerFiles.Path.{split_relative_path, validate_parts}
use paxalia_dashboard.ServerFiles.Access.{
  has_capability, is_denied, denied_prefixes, is_prefix, strip_prefix, is_sensitive_name,
  patterns_of, default_directories, is_sensitive, default_patterns, assert_path_allowed,
}
use paxalia_dashboard.ServerFiles.Glob.{fnmatchcase}
use paxalia_dashboard.Transfer.Model.{Transfer, interrupted}
use paxalia_dashboard.Transfer.Chunks.{valid_chunk_indexes, received_bytes, chunk_count}
use paxalia_dashboard.Transfer.Chunks.Laws.{received_bytes_complete}
use paxalia_dashboard.Transfer.Exchange.{
  resolve_transfer_exchange, exchange_file_parts, safe_filename, validate_transfer_filename, lift,
  allow, is_extension_refused, longest_suffix, is_suffix, parent_parts,
}
use paxalia_dashboard.Transfer.Service.{
  Db, ensure_enabled, check_capability, check_direction, find_transfer, find_upload, active_count,
  acquire_transfer_slot,
}
use paxalia_dashboard.Transfer.Control.{retry_transfer}
use paxalia_dashboard.Transfer.Create.{
  create_send_transfer, create_receive_transfer, record_send, record_receive, checked_size,
  check_entry, hash_new, hash_server_file,
}
use paxalia_dashboard.Transfer.Finalize.{normalize_checksum}
use paxalia_dashboard.Transfer.Receive.Laws.{answers, read_chunk-joined}
use paxalia_dashboard.Transfer.Maintenance.{
  maintenance, each, went, no_counts, save_with_upload, expire_pass, send_pass, receive_pass,
  selected,
}
use paxalia_dashboard.Transfer.Maintenance.{
  expired_row, expire_turn, counted, was_expired, locked_row, is_expiring, is_past,
}
use paxalia_dashboard.Transfer.Maintenance.Expiry.{expire_turn-is_expiring}
use paxalia_dashboard.Transfer.Lifecycle.Slots.{Unique}
use paxalia_dashboard.Transfer.Service.{save_rows}
use paxalia_dashboard.Transfer.Model.{expired}
use paxalia_dashboard.Prelude.{◌⊎◌}
use paxalia_dashboard.Transfer.Lifecycle.Slots.{
  create_send_transfer-active_count, create_receive_transfer-active_count, retry_transfer-at_limit,
  others,
}

five_accepted : positive_int (int (pos 5)) 10 ≡ ok 5
unfolding positive_int to_int
five_accepted = refl

abbrev both : List ℤ
both = pos 1 ∷ negsuc 0 ∷ pos 0 ∷ pos 1 ∷ pos 9 ∷ []

received_bytes_complete_example :
    (received_bytes 3 2 (chunk_count 3 2) both ≤ 3)
    × ((received_bytes 3 2 (chunk_count 3 2) both ≡ 3)
        ↔ (length (valid_chunk_indexes (chunk_count 3 2) both) ≡ chunk_count 3 2))
received_bytes_complete_example = received_bytes_complete 3 2 both (omega arith) (omega arith)

read_chunk-joined_example : answers sending content 2 ≡ ok content
read_chunk-joined_example = read_chunk-joined sending content (omega arith) (omega arith) refl refl

abbrev empty_db : Db
empty_db = record { transfers = []; uploads = [] }

sent :
    (out : Db × Transfer) × (create_send_transfer service disk empty_db owner 5 6
        (codes "b.txt")
        (int (pos 4))
        []
        []
      ≡ ok out)
unfolding create_send_transfer record_send checked_size check_entry normalize_checksum
    ensure_enabled check_direction check_capability acquire_transfer_slot active_count
    exchange_file_parts resolve_transfer_exchange safe_filename validate_transfer_filename lift
    allow parent_parts is_extension_refused longest_suffix is_suffix assert_path_allowed is_denied
    denied_prefixes is_prefix split_relative_path validate_parts validate_name encoded_length
    split_on strip_prefix is_sensitive is_sensitive_name patterns_of default_patterns
    default_directories fnmatchcase has_capability to_int strip
sent = (_, refl)

create_send_transfer-active_count_example : active_count sent.0.0 ≤ 1
create_send_transfer-active_count_example =
    create_send_transfer-active_count service disk empty_db sent.0.0 owner 5 6 (codes "b.txt")
      (int (pos 4)) [] [] sent.0.1 sent.1

received :
    (out : Db × Transfer) × (create_receive_transfer service disk empty_db owner 5 []
        (codes "b.txt")
      ≡ ok out)
unfolding create_receive_transfer record_receive hash_new hash_server_file ensure_enabled
    check_direction check_capability acquire_transfer_slot active_count exchange_file_parts
    resolve_transfer_exchange safe_filename validate_transfer_filename lift allow parent_parts
    is_extension_refused longest_suffix is_suffix assert_path_allowed is_denied denied_prefixes
    is_prefix split_relative_path validate_parts validate_name encoded_length split_on strip_prefix
    is_sensitive is_sensitive_name patterns_of default_patterns default_directories fnmatchcase
    has_capability strip
received = (_, refl)

create_receive_transfer-active_count_example : active_count received.0.0 ≤ 1
create_receive_transfer-active_count_example =
    create_receive_transfer-active_count service disk empty_db received.0.0 owner 5 []
      (codes "b.txt") received.0.1 received.1

abbrev stopped : Transfer
stopped = record sending { status = interrupted }

abbrev stopped_db : Db
stopped_db = record { transfers = stopped ∷ []; uploads = [] }

stopped_found : find_transfer 1 stopped_db ≡ some stopped
unfolding find_transfer
stopped_found = refl

none_beside : suc (others 1 stopped_db.transfers) ≡ 1
unfolding others
none_beside = refl

retry_transfer-at_limit_example :
    retry_transfer service disk stopped_db stopped owner ≢ ok (stopped_db, stopped)
retry_transfer-at_limit_example =
    retry_transfer-at_limit service disk stopped_db stopped_db stopped stopped stopped owner
      stopped_found refl none_beside

idle_pass :
    maintenance service disk (λ pk. quiet) (λ key. owner) 5 empty_db ≡ went no_counts 5 empty_db
unfolding maintenance expire_pass send_pass receive_pass selected each
idle_pass = refl

abbrev overdue : Transfer
overdue = record stopped { expires_at = some 10 }

abbrev overdue_db : Db
overdue_db = record { transfers = overdue ∷ []; uploads = [] }

abbrev swept_db : Db
swept_db = record { transfers = expired_row 5000 overdue ∷ []; uploads = [] }

overdue_expires : expire_turn service 1 overdue_db ≡ counted was_expired swept_db
unfolding expire_turn locked_row is_expiring is_past save_with_upload find_upload save_rows
overdue_expires = refl

alone : Unique overdue_db.transfers
unfolding Unique
alone = (refl, tt)

overdue_found : find_transfer 1 overdue_db ≡ some overdue
unfolding find_transfer
overdue_found = refl

expire_turn-is_expiring_example :
    (t' : Transfer) × (find_transfer 1 swept_db ≡ some t')
    × ((t' ≡ overdue) ⊎ ((is_expiring 5000 overdue ≡ true) × (t'.status ≡ expired)))
expire_turn-is_expiring_example =
    expire_turn-is_expiring service 1 1 overdue_db swept_db was_expired overdue alone
      overdue_expires overdue_found
