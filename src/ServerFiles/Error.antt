-- ===== src/ServerFiles/Error.antt =====
-- The typed errors of paxalia/server_files/exceptions.py that the path policy and the opening of
-- a file raise. The message
-- texts are left out: callers branch on the class only.
use paxalia_dashboard.Prelude.{Result}

pub data Error : Type 0 where
  disabled configuration unsupported_platform invalid_path denied : Error
  file_not_found not_directory not_regular_file : Error
  -- `UnicodeEncodeError` of `os.fsencode`, which is no `ServerFilesError`.
  unicode_error : Error

abbrev pub Checked : Type 0 → Type 0
Checked A = Result Error A
