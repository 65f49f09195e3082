-- ===== src/Storage/FileRepo/Requests.antt =====
-- server/storage/repo/file_repo.py: which request identifiers belong to initializations.
use mini_im.Prelude.{
  String, Bool, true, false, ◌&&◌, ◌||◌, not, Option, none, some, List, [], ◌∷◌, if◌then◌else◌,
  ◌=?◌, ◌==◌, filter, any, find?,
}
use mini_im.Protocol.{Bytes, FileInit, file_direction_download}
use mini_im.Storage.Db.{Db, Env, FileInitRow, FileTransferRow}
use mini_im.Storage.ControlWrite.{same_bytes}

-- What the code for files calls and does not implement: `str.lower`, the deterministic encodings
-- of a `FileInit`.
pub record FileEnv : Type 0 where
  pub lower : String → String
  pub serialize_init : FileInit → Bytes

-- The fields that identify an initialization: for a download, the file to load.
unfoldable pub init_identity : FileEnv → FileInit → FileInit
init_identity fenv r =
    if r.direction == file_direction_download
    then record r {
      conversation_id = "";
      file_name = "";
      file_size = 0;
      sha256 = "";
      resume_offset = 0;
      priority = 0;
    }
    else record r { sha256 = fenv.lower r.sha256; resume_offset = 0; priority = 0 }

unfoldable pub init_fingerprint : Env → FileEnv → FileInit → Bytes
unfolding init_identity
init_fingerprint env fenv request = env.sha256 (fenv.serialize_init (init_identity fenv request))

-- The request that a row of an old version was made for.
unfoldable pub legacy_init : FileTransferRow → FileInit
legacy_init row = record {
  conversation_id = row.conversation_id;
  client_file_id = row.client_file_id;
  file_name = row.file_name;
  file_size = row.file_size;
  sha256 = row.sha256;
  direction = row.direction;
  resume_offset = 0;
  priority = 0;
  source_file_id = row.source_file_id;
}

-- `SELECT … FROM file_transfers WHERE owner_id=? AND request_id=?`
unfoldable pub request_rows : String → String → Db → List FileTransferRow
unfolding filter
request_rows user_id request_id db =
    filter (λ r. (r.owner_id =? user_id) && (r.request_id =? request_id)) db.file_transfers

unfoldable pub legacy_init_conflict : Env → FileEnv → Bytes → List FileTransferRow → Bool
unfolding init_fingerprint legacy_init same_bytes
legacy_init_conflict env fenv fingerprint [] = false
legacy_init_conflict env fenv fingerprint (row ∷ []) =
    not (same_bytes (init_fingerprint env fenv (legacy_init row)) fingerprint)
legacy_init_conflict env fenv fingerprint (row ∷ other ∷ rows) = true

unfoldable pub find_init : String → String → Db → Option FileInitRow
unfolding find?
find_init user_id request_id db =
    find? (λ r. (r.user_id =? user_id) && (r.request_id =? request_id)) db.file_init_requests

unfoldable pub init_request_conflict : Env → FileEnv → String → String → Bytes → Db → Bool
unfolding any find_init same_bytes legacy_init_conflict request_rows
init_request_conflict env fenv user_id request_id fingerprint db =
    any (λ r. (r.user_id =? user_id) && (r.request_id =? request_id)) db.control_write_results
    || any (λ m. (m.sender_id =? user_id) && (m.request_id =? request_id)) db.messages
    || elim (find_init user_id request_id db) [
      | some previous ↦ not (same_bytes previous.fingerprint fingerprint)
      | none ↦ legacy_init_conflict env fenv fingerprint (request_rows user_id request_id db)
    ]

unfoldable pub owns_init_request : String → String → Db → Bool
unfolding any
owns_init_request user_id request_id db =
    any (λ r. (r.user_id =? user_id) && (r.request_id =? request_id)) db.file_init_requests
    || any (λ r. (r.owner_id =? user_id) && (r.request_id =? request_id)) db.file_transfers

-- `INSERT OR IGNORE INTO file_init_requests`
unfoldable pub remember_init_request : String → String → Bytes → Db → Db
unfolding any
remember_init_request user_id request_id fingerprint db =
    if any (λ r. (r.user_id =? user_id) && (r.request_id =? request_id)) db.file_init_requests
    then db
    else record db {
      file_init_requests =
          record { user_id = user_id; request_id = request_id; fingerprint = fingerprint }
          ∷ db.file_init_requests;
    }
