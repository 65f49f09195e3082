-- ===== src/Storage/FileRepo/Intents.antt =====
-- server/storage/repo/file_repo.py: starting and resuming the transfer of an intent,
-- which is a user with a `client_file_id`.
use Prim.Native.String.{◌++◌ as ◌<>◌}
use mini_im.Prelude.{
  ℕ, ◌+◌, String, Bool, true, false, ◌&&◌, ◌||◌, not, Option, none, some, List, [], ◌∷◌, max,
  if◌then◌else◌, ◌=?◌, ◌==◌, ltb, update_where,
}
use mini_im.Protocol.{FileInit}
use mini_im.Text.{strip, starts_with}
use mini_im.Storage.Db.{Db, Env, FileTransferRow, uuid4}
use mini_im.Storage.Sql.{order_by, is_some, sqlite_integer_max}
use mini_im.Storage.FileRepo.Requests.{
  FileEnv, init_fingerprint, request_rows, remember_init_request,
}
use mini_im.Storage.FileRepo.{
  StoredFileTransfer, FileTransferInitResult, FileError, Result, is_uploading_status,
  row_to_transfer, find_transfer, append_if, intent_rows,
}

-- `ORDER BY created_at_ms`
unfoldable pub created_before : FileTransferRow → FileTransferRow → Bool
created_before r s = ltb r.created_at_ms s.created_at_ms

unfoldable pub new_row :
    FileEnv → ℕ → String → String → FileInit → String → String → FileTransferRow
new_row fenv now_ms user_id request_id init storage_relative_path file_id = record {
  file_id = file_id;
  conversation_id = init.conversation_id;
  owner_id = user_id;
  client_file_id = init.client_file_id;
  request_id = request_id;
  file_name = init.file_name;
  file_size = init.file_size;
  sha256 = fenv.lower init.sha256;
  storage_path = storage_relative_path;
  direction = init.direction;
  source_file_id = init.source_file_id;
  priority = init.priority;
  received_bytes = 0;
  version = 1;
  status = "init";
  created_at_ms = now_ms;
  updated_at_ms = now_ms;
}

unfoldable pub conflict_of : StoredFileTransfer → String → FileTransferInitResult
conflict_of t conflict = record {
  transfer = t;
  sync_events = [];
  created = false;
  conflict = conflict;
}

-- The loop over the fields of the intent: the first that differs.
unfoldable pub mismatch : FileEnv → StoredFileTransfer → FileInit → Option String
mismatch fenv t init =
    if not (t.conversation_id =? init.conversation_id)
    then some "conversation_id"
    else if not (t.file_name =? init.file_name)
    then some "file_name"
    else if not (t.file_size == init.file_size)
    then some "file_size"
    else if not (fenv.lower t.sha256 =? fenv.lower init.sha256)
    then some "sha256"
    else if not (t.direction == init.direction)
    then some "direction"
    else if not (t.source_file_id =? init.source_file_id)
    then some "source_file_id"
    else none

unfoldable pub is_stale : ℕ → ℕ → StoredFileTransfer → Bool
unfolding is_uploading_status
is_stale now_ms stale_timeout_ms t =
    ltb 0 stale_timeout_ms
    && is_uploading_status t.status
    && ltb (t.updated_at_ms + stale_timeout_ms) now_ms

unfoldable pub next_status : Bool → StoredFileTransfer → String
unfolding starts_with
next_status stale t = if stale || starts_with t.status "failed" then "init" else t.status

-- The `UPDATE` of a transfer that goes on.
unfoldable pub restart_transfer :
    ℕ → String → ℕ → String → StoredFileTransfer → Db → StoredFileTransfer × Db
unfolding update_where
restart_transfer now_ms request_id priority status t db =
    let t' = record t {
      status = status;
      priority = priority;
      version = t.version + 1;
      updated_at_ms = max now_ms (t.updated_at_ms + 1);
    } in
    (
      t',
      record db {
        file_transfers =
            update_where (λ r. r.file_id =? t'.file_id)
              (λ r. record r {
                request_id = request_id;
                status = t'.status;
                priority = t'.priority;
                version = t'.version;
                updated_at_ms = t'.updated_at_ms;
              })
              db.file_transfers;
      },
    )

module _ (env : Env) (fenv : FileEnv) where
  -- `if created`: the new row is the one that is read back.
  unfoldable pub create_transfer :
      ℕ
      → String
      → String
      → FileInit
      → List String
      → String
      → Db
      → Result FileTransferInitResult × Db
  unfolding uuid4 find_transfer new_row row_to_transfer append_if
  create_transfer now_ms user_id request_id init member_ids storage_relative_path db =
      let (file_id, db₁) = uuid4 env db in
      if ltb sqlite_integer_max init.file_size
      then (Result.raised FileError.overflow_error, db₁)
      else if is_some (find_transfer file_id db₁.file_transfers)
      then (Result.raised FileError.integrity_error, db₁)
      else let row = new_row fenv now_ms user_id request_id init storage_relative_path file_id in
        let t = row_to_transfer row in
        let (events, db₂) =
          append_if env true member_ids t
            (record db₁ { file_transfers = row ∷ db₁.file_transfers }) in
        (
          Result.ok (record { transfer = t; sync_events = events; created = true; conflict = "" }),
          db₂,
        )

  -- The request that the transfer had before is remembered, without a fingerprint if it had
  -- several.
  unfoldable pub remember_old_request : String → String → FileInit → Db → Db
  unfolding strip request_rows init_fingerprint remember_init_request
  remember_old_request user_id old_request init db =
      if strip old_request =? ""
      then db
      else remember_init_request user_id old_request
          (elim (request_rows user_id old_request db) [
            | owner ∷ [] ↦ init_fingerprint env fenv init
            | _ ↦ []
          ])
          db

  -- From `old_request = …` on.
  unfoldable pub resume_transfer :
      ℕ
      → String
      → String
      → FileInit
      → List String
      → ℕ
      → String
      → StoredFileTransfer
      → Db
      → FileTransferInitResult × Db
  unfolding remember_old_request is_stale next_status restart_transfer append_if
  resume_transfer now_ms user_id request_id init member_ids stale_timeout_ms old_request t db =
      let db₁ = remember_old_request user_id old_request init db in
      let stale = is_stale now_ms stale_timeout_ms t in
      let status = next_status stale t in
      let changed =
        not (t.status =? "completed")
        && (stale || not (t.status =? status) || not (t.priority == init.priority)) in
      let (t', db₂) =
        if changed
        then restart_transfer now_ms request_id init.priority status t db₁
        else (t, db₁) in
      let (events, db₃) = append_if env changed member_ids t' db₂ in
      (record { transfer = t'; sync_events = events; created = false; conflict = "" }, db₃)

  -- The transfers of the intent, the oldest first.
  unfoldable pub resume_first :
      ℕ
      → String
      → String
      → FileInit
      → List String
      → ℕ
      → FileTransferRow
      → List FileTransferRow
      → Db
      → FileTransferInitResult × Db
  unfolding row_to_transfer conflict_of mismatch resume_transfer
  resume_first now_ms user_id request_id init member_ids stale_timeout_ms row [] db =
      let t = row_to_transfer row in
      elim (mismatch fenv t init) [
        | some field ↦ (conflict_of t ("intent_id " <> field <> " mismatch"), db)
        | none ↦
            if t.status =? "cancelled"
            then (conflict_of t "file intent was cancelled", db)
            else resume_transfer now_ms user_id request_id init member_ids stale_timeout_ms
                row.request_id t db
      ]
  resume_first now_ms user_id request_id init member_ids stale_timeout_ms row (other ∷ rows) db =
      (conflict_of (row_to_transfer row) "ambiguous legacy file intent", db)

  -- What `create_or_resume_transfer` does with the transfers of the intent.
  unfoldable pub create_or_resume_rows :
      ℕ
      → String
      → String
      → FileInit
      → List String
      → String
      → ℕ
      → List FileTransferRow
      → Db
      → Result FileTransferInitResult × Db
  unfolding create_transfer resume_first
  create_or_resume_rows now_ms user_id request_id init member_ids storage_relative_path
        stale_timeout_ms [] db =
      create_transfer now_ms user_id request_id init member_ids storage_relative_path db
  create_or_resume_rows now_ms user_id request_id init member_ids storage_relative_path
        stale_timeout_ms (row ∷ rows) db =
      let (result, db') =
        resume_first now_ms user_id request_id init member_ids stale_timeout_ms row rows db in
      (Result.ok result, db')

  unfoldable pub create_or_resume_transfer :
      ℕ
      → String
      → String
      → FileInit
      → List String
      → String
      → ℕ
      → Db
      → Result FileTransferInitResult × Db
  unfolding order_by created_before intent_rows create_or_resume_rows
  create_or_resume_transfer now_ms user_id request_id init member_ids storage_relative_path
        stale_timeout_ms db =
      create_or_resume_rows now_ms user_id request_id init member_ids storage_relative_path
        stale_timeout_ms (order_by created_before (intent_rows user_id init.client_file_id db)) db
