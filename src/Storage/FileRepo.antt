-- ===== src/Storage/FileRepo.antt =====
-- server/storage/repo/file_repo.py: the transfers of files. The clock readings are arguments. An
-- operation that raises hands back the tables of the state before it.
pub mod Requests
pub mod Intents
pub mod Cancel
pub mod Rows
pub mod Machine
pub mod Progress
pub mod Settled
pub mod History
use Prim.Native.String.{◌++◌ as ◌<>◌}
use mini_im.Prelude.{
  ℕ, ◌+◌, String, Bool, true, false, ◌&&◌, ◌||◌, not, Option, none, some, List, [], ◌∷◌, map, max,
  if◌then◌else◌, ◌=?◌, ◌==◌, ltb, leb, filter, any, find?, update_where,
}
use mini_im.Protocol.{FileInit, FileUpdated, Body, file_direction_upload}
use mini_im.Text.{strip, starts_with}
use mini_im.Storage.Db.{Db, Env, FileTransferRow, FileCancellationRow, uuid4}
use mini_im.Storage.Sql.{text_lt, order_by, sqlite_integer_max}
use mini_im.Storage.SyncEvent.{StoredSyncEvent, from_keys, append_sync_events}
use mini_im.Storage.FileRepo.Requests.{FileEnv, init_fingerprint, remember_init_request}

pub record StoredFileTransfer : Type 0 where
  pub file_id : String
  pub conversation_id : String
  pub owner_id : String
  pub client_file_id : String
  pub file_name : String
  pub file_size : ℕ
  pub sha256 : String
  pub storage_path : String
  pub direction : ℕ
  pub priority : ℕ
  pub received_bytes : ℕ
  pub version : ℕ
  pub status : String
  pub updated_at_ms : ℕ
  pub source_file_id : String

pub record FileTransferInitResult : Type 0 where
  pub transfer : StoredFileTransfer
  pub sync_events : List StoredSyncEvent
  pub created : Bool
  pub conflict : String

-- A `FileTransferProgressResult` or a `FileTransferFinishResult`.
pub record FileTransferProgressResult : Type 0 where
  pub transfer : StoredFileTransfer
  pub sync_events : List StoredSyncEvent
  pub changed : Bool

pub record FileTransferCancelResult : Type 0 where
  pub transfer : Option StoredFileTransfer
  pub sync_events : List StoredSyncEvent
  pub code : ℕ
  pub error : String

-- What an operation raises: `ValueError`, the refusal of sqlite3 to bind an integer of more than
-- 63 bits, and the violation of a primary key.
pub data FileError : Type 0 where
  value_error : String → FileError
  overflow_error : FileError
  integrity_error : FileError

pub data Result (A : Type 0) : Type 0 where
  ok : A → Result A
  raised : FileError → Result A

-- `_is_uploading_status`, and the same set where the services write it out.
unfoldable pub is_uploading_status : String → Bool
is_uploading_status status = (status =? "init") || (status =? "uploading") || (status =? "uploaded")

-- `status in {"completed", "cancelled"}`
unfoldable pub is_final : String → Bool
is_final status = (status =? "completed") || (status =? "cancelled")

unfoldable pub row_to_transfer : FileTransferRow → StoredFileTransfer
row_to_transfer row = record {
  file_id = row.file_id;
  conversation_id = row.conversation_id;
  owner_id = row.owner_id;
  client_file_id = row.client_file_id;
  file_name = row.file_name;
  file_size = row.file_size;
  sha256 = row.sha256;
  storage_path = row.storage_path;
  direction = row.direction;
  priority = row.priority;
  received_bytes = row.received_bytes;
  version = row.version;
  status = row.status;
  updated_at_ms = row.updated_at_ms;
  source_file_id = row.source_file_id;
}

unfoldable pub find_transfer : String → List FileTransferRow → Option FileTransferRow
unfolding find?
find_transfer file_id rows = find? (λ r. r.file_id =? file_id) rows

unfoldable pub get_transfer_by_file_id : Db → String → Option StoredFileTransfer
unfolding find_transfer row_to_transfer
get_transfer_by_file_id db file_id = elim (find_transfer file_id db.file_transfers) [
  | none ↦ none
  | some row ↦ some (row_to_transfer row)
]

unfoldable pub file_updated_body : StoredFileTransfer → FileUpdated
file_updated_body t = record {
  event_id = "";
  file_id = t.file_id;
  conversation_id = t.conversation_id;
  transferred_bytes = t.received_bytes;
  completed = t.status =? "completed";
  version = t.version;
  updated_at_ms = t.updated_at_ms;
  file_size = t.file_size;
  sha256 = t.sha256;
  direction = t.direction;
  status = t.status;
  file_name = t.file_name;
}

unfoldable pub append_file_updated_sync_events :
    Env → List String → StoredFileTransfer → Db → List StoredSyncEvent × Db
unfolding file_updated_body append_sync_events
append_file_updated_sync_events env member_ids t db =
    append_sync_events env t.conversation_id "file_updated"
      (Body.file_updated (file_updated_body t)) t.updated_at_ms member_ids db

-- `… if changed else []`
unfoldable pub append_if :
    Env → Bool → List String → StoredFileTransfer → Db → List StoredSyncEvent × Db
unfolding append_file_updated_sync_events
append_if env changed member_ids t db =
    if changed then append_file_updated_sync_events env member_ids t db else ([], db)

-- The transfer with its next version, and the `UPDATE` of its row.
unfoldable pub save_progress : ℕ → StoredFileTransfer → Db → StoredFileTransfer × Db
unfolding update_where
save_progress now_ms t db =
    let t' = record t {
      version = t.version + 1;
      updated_at_ms = max now_ms (t.updated_at_ms + 1);
    } in
    (
      t',
      record db {
        file_transfers =
            update_where (λ r. r.file_id =? t'.file_id)
              (λ r. record r {
                received_bytes = t'.received_bytes;
                status = t'.status;
                version = t'.version;
                updated_at_ms = t'.updated_at_ms;
              })
              db.file_transfers;
      },
    )

-- Save the transfer if it changed, and tell the members.
unfoldable pub save_if :
    Env → ℕ → Bool → List String → StoredFileTransfer → Db → Option FileTransferProgressResult × Db
unfolding save_progress append_if
save_if env now_ms changed member_ids t db =
    let (t', db₁) = if changed then save_progress now_ms t db else (t, db) in
    let (events, db₂) = append_if env changed member_ids t' db₁ in
    (some (record { transfer = t'; sync_events = events; changed = changed }), db₂)

module _ (env : Env) where
  unfoldable pub apply_progress :
      ℕ → String → ℕ → List String → Db → Result (Option FileTransferProgressResult) × Db
  unfolding get_transfer_by_file_id is_final save_if
  apply_progress now_ms file_id received_bytes member_ids db =
      elim (get_transfer_by_file_id db file_id) [
        | none ↦ (Result.ok none, db)
        | some t ↦
            if ltb t.file_size received_bytes
            then (Result.raised (FileError.value_error "invalid transfer progress"), db)
            else let changed = not (is_final t.status) && ltb t.received_bytes received_bytes in
              let t' =
                if changed
                then record t {
                  received_bytes = received_bytes;
                  status = if received_bytes == t.file_size then "uploaded" else "uploading";
                }
                else t in
              let (result, db') = save_if env now_ms changed member_ids t' db in
              (Result.ok result, db')
      ]

  unfoldable pub rewind_upload :
      ℕ → String → ℕ → List String → Bool → Db → Result (Option FileTransferProgressResult) × Db
  unfolding get_transfer_by_file_id is_final save_if
  rewind_upload now_ms file_id received_bytes member_ids integrity_failed db =
      elim (get_transfer_by_file_id db file_id) [
        | none ↦ (Result.ok none, db)
        | some t ↦
            if not (t.direction == file_direction_upload)
            then (Result.ok none, db)
            else if ltb t.received_bytes received_bytes
            then (Result.raised (FileError.value_error "invalid upload recovery offset"), db)
            else let changed =
                not (is_final t.status)
                && (ltb received_bytes t.received_bytes
                    || (integrity_failed && not (t.status =? "failed_integrity"))) in
              let t' =
                if changed
                then record t {
                  received_bytes = received_bytes;
                  status =
                      if integrity_failed
                      then "failed_integrity"
                      else if received_bytes == 0
                      then "init"
                      else "uploading";
                }
                else t in
              let (result, db') = save_if env now_ms changed member_ids t' db in
              (Result.ok result, db')
      ]

  unfoldable pub apply_finish :
      ℕ → String → Bool → List String → Db → Option FileTransferProgressResult × Db
  unfolding get_transfer_by_file_id save_if
  apply_finish now_ms file_id success member_ids db = elim (get_transfer_by_file_id db file_id) [
    | none ↦ (none, db)
    | some t ↦
        if t.status =? "cancelled"
        then (some (record { transfer = t; sync_events = []; changed = false }), db)
        else let target_status =
            if success || (t.status =? "completed") then "completed" else "failed" in
          let changed = not (target_status =? t.status) in
          let t' =
            if changed
            then record t {
              status = target_status;
              received_bytes = if success then t.file_size else t.received_bytes;
            }
            else t in
          save_if env now_ms changed member_ids t' db
  ]

-- `SELECT * FROM file_transfers WHERE owner_id = ? AND client_file_id = ?`
unfoldable pub intent_rows : String → String → Db → List FileTransferRow
unfolding filter
intent_rows owner_id client_file_id db =
    filter (λ r. (r.owner_id =? owner_id) && (r.client_file_id =? client_file_id)) db.file_transfers
