-- ===== src/Uploads/Tests.antt =====
-- Runs of the upload views at concrete inputs, and their theorems applied at them.
use paxalia_dashboard.Prelude.{
  some_injective, ℕ, zero, suc, ◌+◌, ◌<◌, ◌≡◌, refl, inl, inr, true, false, Option, none, some,
  List, [], ◌∷◌, Text, codes, ok, pos, to_int, strip, strip_left, subst, arith,
}
use paxalia_dashboard.Transfer.Model.{Upload, Account, uploading, upload_completed}
use paxalia_dashboard.Transfer.Service.{Db, find_upload}
use paxalia_dashboard.Transfer.Exchange.{is_suffix}
use paxalia_dashboard.Uploads.Session.{link, Store, missing, file, done, refused}
use paxalia_dashboard.Uploads.Extension.{extension_error, safe_upload_name}
use paxalia_dashboard.Uploads.Init.{UploadSettings, Form, upload_init, session_row}
use paxalia_dashboard.Uploads.Init.Laws.{IsUploaded, upload_init-IsUploaded}
use paxalia_dashboard.Uploads.Preflight.{upload_init_preflight, upload_chunk_preflight}
use paxalia_dashboard.Uploads.Preflight.Laws.{
  refusal, unchanged, upload_init_preflight-upload_init, upload_chunk-upload_chunk_preflight,
}
use paxalia_dashboard.Uploads.Chunk.{
  Request, Reads, Faults, int_of, content_of, undo_write, upload_chunk, first_row, check_chunk,
}
use paxalia_dashboard.Uploads.Chunk.Received.{IsReceiving, IsVersion}
use paxalia_dashboard.Uploads.Chunk.Steps.{is_accepted}
use paxalia_dashboard.Uploads.Complete.{Places, CompleteFaults, upload_complete}
use paxalia_dashboard.Uploads.Complete.Laws.{
  AreKept, IsCompleted, upload_complete-AreKept, upload_complete-IsCompleted,
}
use paxalia_dashboard.Uploads.Delivery.{no_faults, no_complete_faults, request}
use paxalia_dashboard.Uploads.Sequence.{Call, upload_chunks, acknowledged}
use paxalia_dashboard.Uploads.Sequence.Laws.{HasReceived, upload_chunks-HasReceived}

abbrev owner : Account
owner = record {
  pk = 7;
  user = record {
    is_authenticated = true;
    is_active = some true;
    is_superuser = false;
    has_perm = λ c. some true;
  };
}

abbrev content : List ℕ
content = 1 ∷ 2 ∷ 3 ∷ []

abbrev same_text : Text → Text
same_text s = s

abbrev settings : UploadSettings
settings = record {
  extensions = record {
    blocked = some (codes ".php" ∷ []);
    allowed = some (codes ".x.php" ∷ codes ".txt" ∷ []);
    lower = same_text;
  };
  max_size = some 100;
  chunk_size = 2;
}

abbrev form : Form
form = record { filename = codes "a.txt"; total_size = some (codes "3"); chunk_size = none }

abbrev no_rows : Db
no_rows = record { transfers = []; uploads = [] }

abbrev empty : Store
empty = record { db = no_rows; temp = λ i. missing; final = λ i. none }

abbrev row : Upload
row = session_row owner 5 (codes "a.txt") 3 2

abbrev print : ℕ → Text
print k = (48 + k) ∷ []

abbrev places : Places
places = record {
  send_root = codes "send" ∷ [];
  incoming_root = codes "incoming" ∷ [];
  final_name = λ i n. n;
  now = 9;
}

created :
    upload_init settings owner 5 form no_rows ≡ ok (row, record no_rows { uploads = row ∷ [] })
unfolding upload_init safe_upload_name extension_error strip is_suffix to_int
created = refl

reads_back : (i : ℕ) → i < 2 → int_of (print i) ≡ some (pos i)
unfolding to_int strip_left
reads_back zero few = refl
reads_back (suc zero) few = refl
reads_back (suc (suc i)) few = absurd (omega arith)

unknown : find_upload (some 5) no_rows ≡ none
unfolding find_upload
unknown = refl

upload_init-IsUploaded_example :
    IsUploaded 2 places owner 5 print content empty row (record no_rows { uploads = row ∷ [] })
upload_init-IsUploaded_example =
    upload_init-IsUploaded settings places owner 5 form empty row
      (record no_rows { uploads = row ∷ [] }) print content created unknown refl refl reads_back

upload_init_preflight-upload_init_example :
    upload_init_preflight settings true form ≡ refusal (upload_init settings owner 5 form no_rows)
upload_init_preflight-upload_init_example =
    upload_init_preflight-upload_init settings owner 5 form no_rows

abbrev started : Store
started = record empty { db = record no_rows { uploads = row ∷ [] } }

abbrev first : Reads
first = record { first = some row; candidate = some row }

abbrev part_0 : Request
part_0 = request owner 5 (codes "0", 1 ∷ 2 ∷ [])

abbrev crash : Faults
crash = record { early = true; write = none; truncate_fails = false; remove_fails = false }

abbrev interrupted : Faults
interrupted = record {
  early = false;
  write = some (true, 1);
  truncate_fails = false;
  remove_fails = false;
}

part_0_accepted :
    is_accepted (upload_chunk 2 no_faults (unchanged part_0 started) part_0 started).0 ≡ true
unfolding upload_chunk find_upload to_int strip_left
part_0_accepted = refl

upload_chunk-upload_chunk_preflight_example :
    upload_chunk_preflight 2 true true part_0 started.db ≡ none
upload_chunk-upload_chunk_preflight_example =
    upload_chunk-upload_chunk_preflight 2 no_faults part_0 started part_0_accepted

abbrev halfway : Store
halfway = record started { temp = λ i. file (1 ∷ 2 ∷ []) }

-- An exception before the temporary file is measured empties it, while the row still counts its bytes.
crash_empties :
    (let answer = upload_chunk 2 crash first part_0 halfway in
      (answer.0 ≡ refused 500) × (answer.1.db ≡ halfway.db) × (content_of (answer.1.temp 5) ≡ []))
unfolding upload_chunk undo_write first_row check_chunk to_int strip_left
crash_empties = (refl, refl, refl)

-- Where truncating fails, a link in place of the file is removed.
link_removed : undo_write (record crash { truncate_fails = true }) 0 (link (1 ∷ [])) ≡ missing
unfolding undo_write
link_removed = refl

abbrev calls : List Call
calls =
    record { faults = interrupted; reads = first; request = part_0 }
    ∷ record { faults = no_faults; reads = first; request = part_0 }
    ∷ record { faults = crash; reads = first; request = request owner 6 (codes "0", 1 ∷ []) }
    ∷ []

row_found : find_upload (some 5) started.db ≡ some row
unfolding find_upload
row_found = refl

row-IsReceiving : IsReceiving row missing
row-IsReceiving = record {
  shape = omega arith;
  few = omega arith;
  counted = refl;
  stored = refl;
  regular = refl;
}

row_versions :
    (v : Upload) → (let read : Option Upload = some row in read) ≡ some v → IsVersion v row
row_versions v e =
    subst (λ w. IsVersion w row) (some_injective e)
      (record { total_size = refl; chunk_size = refl; total_chunks = refl })

upload_chunks-HasReceived_example :
    HasReceived 5 row
      (acknowledged 5 calls (upload_chunks 2 calls started).0)
      (upload_chunks 2 calls started).1
upload_chunks-HasReceived_example =
    upload_chunks-HasReceived 5 2 calls started row row_found row-IsReceiving
      (inr (refl, refl, refl, row_versions), (inr (refl, refl, refl, row_versions), (inl refl, tt)))

abbrev full_row : Upload
full_row = record row { bytes_received = 3; chunks_received = 2; status = uploading }

abbrev full : Store
full = record empty { db = record no_rows { uploads = full_row ∷ [] }; temp = λ i. file content }

abbrev uncommitted : CompleteFaults
uncommitted = record { early = false; move = false; commit = true; move_back = true }

upload_complete-AreKept_example :
    AreKept 5 content (upload_complete places uncommitted (some full_row) owner 5 full).1
upload_complete-AreKept_example =
    upload_complete-AreKept places uncommitted (some full_row) owner 5 full content refl

abbrev done_row : Upload
done_row = record full_row {
  status = upload_completed;
  storage_path = codes "incoming" ∷ codes "a.txt" ∷ [];
  completed_at = some 9;
}

full_found : find_upload (some 5) full.db ≡ some full_row
unfolding find_upload
full_found = refl

full_completes :
    (upload_complete places no_complete_faults (some full_row) owner 5 full).0 ≡ done false done_row
unfolding upload_complete find_upload
full_completes = refl

upload_complete-IsCompleted_example :
    IsCompleted places 5 full_row done_row full
      (upload_complete places no_complete_faults (some full_row) owner 5 full).1
upload_complete-IsCompleted_example =
    upload_complete-IsCompleted places no_complete_faults (some full_row) owner 5 full full_row
      done_row full_found full_completes
