-- ===== src/Lib.antt =====
-- Paxalia Dashboard: a verification library for the policies and state machines of the dashboard.
--
-- Program and files (source paths are from the repository's root):
-- * Server Files policy (paxalia/server_files/policy.py, exceptions.py) is ServerFiles and the modules
--   below it: Name (`_validate_name`), Path (`split_relative_path`), Glob (`fnmatch.fnmatchcase`),
--   Access (`_denied_prefixes`, `is_denied`, `is_sensitive`, `has_capability`, `assert_path_allowed`),
--   Roots (`get_roots`, `get_root`). Preview is the redaction of a JSON document in a preview
--   (`_redact_json_value` of paxalia/server_files/service.py).
-- * Transfer Center (paxalia/transfer_center/policy.py, models.py, service.py) is Transfer: Settings
--   (the limits of policy.py and `_positive_int`), Model (the rows), Chunks (`_valid_chunk_indexes`,
--   `_received_bytes`), Exchange (`validate_transfer_filename`, `_resolve_transfer_exchange`,
--   `_exchange_file_parts`, `_resolve_bound_transfer_path`), Service (the store, the checks at the
--   head of an operation, `_acquire_transfer_slot`, `safe_staging_path`), Control (pause, resume,
--   retry, cancel), Create (`create_send_transfer`, `create_receive_transfer`), Receive
--   (`read_receive_chunk`, `complete_receive`), Finalize (`sync_finalize_send`), Maintenance
--   (`maintenance`), and Lifecycle (the calls as commands, the status diagram, and the stores that
--   sequences of calls reach). The Transfer Center decides each path by the Server Files policy,
--   and Exchange calls `assert_path_allowed` of Access.
-- * Availability (paxalia/uptime.py, and the monitor rows of paxalia/models.py) is Availability: Record
--   (`record_check`), Schedule (`_cfg_int`, `monitors_due_for_check`), Response (`_check_assertions`,
--   `_evaluate_response`).
-- * Upload sessions (paxalia/views/uploads.py, conf_uploads.py) are Uploads: Session (the rows, the
--   staged chunks, the ownership test), Extension (`_safe_filename`, `_extension_error`), Init
--   (`upload_init`), Preflight (`_upload_init_preflight`, `_upload_chunk_preflight`), Chunk
--   (`upload_chunk`), Complete (`upload_complete`), Sequence (calls of `upload_chunk` by any clients
--   for any uploads), Delivery (a client that sends each chunk in order and completes). An upload may
--   belong to a transfer of the Transfer Center; Session asks `has_capability` of Access.
-- * Rate limits (paxalia/security_rate_limit.py) is RateLimit (`allowed`, over an interface of the
--   cache).
-- * Retention (paxalia/resource_policies.py) is Retention: the settings and periods, and Prune
--   (`prune_log_events` with its passes over events, groups and storage).
-- * Packages (paxalia/packages/format.py) is Packages: Payload (`_canonicalize_payload_metadata`),
--   Build (`build_package`), Format (`read_package`); Sample is a concrete JSON, digest and archive
--   format, at which the laws that Build's round trip assumes of the libraries (IsCodec) are proved.
-- * Prelude holds what the modules share: tests on numbers, list helpers, a Python `str` as the list
--   of its code points, `int()`, and results of calls that may raise.
-- Modules called Laws, Bounds, Chosen, Steps, Received, Promoted, Incidents, Turns, Changes, Expiry and
-- Sweep, and those below Lifecycle, hold the proofs (so does Build.Parts); Tests and Runs hold runs at
-- concrete inputs. The commands of Lifecycle are the calls that act on an existing row; creation and maintenance have
-- theorems of their own.
--
-- Conventions: numbers are the native naturals where the source's are never negative, and ℤ where it
-- reads an integer from outside; an exception is a value of an error type, without its message text;
-- a table is a list of rows, `save()` replaces the rows of that key, and an operation returns the
-- store after its transaction, so that a raise leaves the store that it was given. A path on disk is
-- the list of its components. A message that a row stores is kept by what it says.
--
-- Loops: those over a list, a path, a text or a JSON value are structural recursion, and need no fuel;
-- the redaction of a document has the source's own limits of depth and number;
-- the scan of monitors, the batch of a pruning and the batch of a maintenance pass count down what is
-- left of their limits, as the source counts up to them.
--
-- Parameters: the case tables of Unicode, `realpath` and the other answers of the file system, the
-- clock, the configuration values, SHA-256 (any function from contents to texts), the outcome of
-- each system call of a promotion or of an upload, the size that the database reports of the log
-- table, the JSON, zip and float conversions of the package format, the identity fields of the
-- installed models, the redaction of texts in a preview (any function), and the language's `str`,
-- `==` and JSON parser in an assertion.
-- One call sees one state of the file system. In a sequence of uploads each call runs to its end,
-- with its handler of exceptions, before the next begins.
--
-- Not modelled: removing staging files, notifications, alerts, log entries and audit records (no row
-- depends on them); the set-up of the staging and exchange directories; the public and listing views
-- of uploads and their deletion; the other operations on served files; the thresholds of the
-- retention warnings; the package engine that reads and writes models, and the encryption of
-- packages; Django itself, HTTP, views, forms, templates, migrations and management commands (glue
-- and I/O); analytics and authentication (other parts of the program).
pub mod Prelude
pub mod ServerFiles
pub mod Transfer
pub mod Uploads
pub mod RateLimit
pub mod Retention
pub mod Packages
pub mod Availability
