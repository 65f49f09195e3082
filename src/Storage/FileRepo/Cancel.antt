-- ===== src/Storage/FileRepo/Cancel.antt =====
-- server/storage/repo/file_repo.py: the cancellation of an intent.
use mini_im.Prelude.{
  ℕ, String, Bool, true, ◌&&◌, not, Option, none, some, List, [], ◌∷◌, map, if◌then◌else◌, ◌=?◌,
  filter, find?,
}
use mini_im.Storage.Db.{Db, Env, FileTransferRow, FileCancellationRow}
use mini_im.Storage.Sql.{text_lt, order_by, is_some}
use mini_im.Storage.SyncEvent.{StoredSyncEvent, from_keys}
use mini_im.Storage.FileRepo.{
  StoredFileTransfer, FileTransferCancelResult, row_to_transfer, append_if, save_progress,
  intent_rows,
}

unfoldable pub find_cancellation : Db → String → String → Option FileCancellationRow
unfolding find?
find_cancellation db user_id client_file_id =
    find? (λ r. (r.owner_id =? user_id) && (r.client_file_id =? client_file_id))
      db.file_cancellations

unfoldable pub is_cancelled : Db → String → String → Bool
unfolding find_cancellation
is_cancelled db user_id client_file_id = is_some (find_cancellation db user_id client_file_id)

unfoldable pub cancelled_file_id : Db → String → String → String
unfolding find_cancellation
cancelled_file_id db user_id client_file_id = elim (find_cancellation db user_id client_file_id) [
  | none ↦ ""
  | some r ↦ r.file_id
]

-- `INSERT OR IGNORE INTO file_cancellations`
unfoldable pub insert_cancellation : String → String → String → ℕ → Db → Db
unfolding is_cancelled
insert_cancellation owner_id client_file_id file_id now_ms db =
    if is_cancelled db owner_id client_file_id then db else record db {
      file_cancellations =
          record {
            owner_id = owner_id;
            client_file_id = client_file_id;
            file_id = file_id;
            created_at_ms = now_ms;
          }
          ∷ db.file_cancellations;
    }

unfoldable pub refuse_cancel : Option StoredFileTransfer → ℕ → String → FileTransferCancelResult
refuse_cancel transfer code error = record {
  transfer = transfer;
  sync_events = [];
  code = code;
  error = error;
}

abbrev pub cancelled_result :
    Option StoredFileTransfer → List StoredSyncEvent → FileTransferCancelResult
cancelled_result transfer events = record {
  transfer = transfer;
  sync_events = events;
  code = 0;
  error = "";
}

-- `sorted({user_id, *(row[0] for row in users)})`
unfoldable pub owner_and_members : String → String → Db → List String
unfolding from_keys order_by filter
owner_and_members user_id conversation_id db = order_by text_lt (
    from_keys (
      user_id
      ∷ map (λ m. m.user_id)
          (filter (λ m. m.conversation_id =? conversation_id) db.conversation_members)))

-- The transfer is cancelled unless it was before.
unfoldable pub cancel_found :
    Env → ℕ → String → StoredFileTransfer → Db → FileTransferCancelResult × Db
unfolding save_progress owner_and_members append_if
cancel_found env save_ms user_id t db =
    if t.status =? "cancelled"
    then (cancelled_result (some t) [], db)
    else let (t', db₁) = save_progress save_ms (record t { status = "cancelled" }) db in
      let members = owner_and_members user_id t'.conversation_id db₁ in
      let (events, db₂) = append_if env true members t' db₁ in
      (cancelled_result (some t') events, db₂)

-- What `cancel_transfer` does with the transfers of the intent.
unfoldable pub cancel_rows :
    Env
    → ℕ
    → ℕ
    → String
    → String
    → String
    → List FileTransferRow
    → Db
    → FileTransferCancelResult × Db
unfolding row_to_transfer refuse_cancel insert_cancellation cancel_found
cancel_rows env now_ms save_ms user_id client_file_id file_id [] db =
    if not (file_id =? "")
    then (refuse_cancel none 403 "file cancellation identity mismatch", db)
    else (cancelled_result none [], insert_cancellation user_id client_file_id "" now_ms db)
cancel_rows env now_ms save_ms user_id client_file_id file_id (row ∷ []) db =
    let t = row_to_transfer row in
    if not (file_id =? "") && not (t.file_id =? file_id)
    then (refuse_cancel none 403 "file cancellation identity mismatch", db)
    else if t.status =? "completed"
    then (refuse_cancel (some t) 409 "file already completed", db)
    else cancel_found env save_ms user_id t
        (insert_cancellation user_id client_file_id t.file_id now_ms db)
cancel_rows env now_ms save_ms user_id client_file_id file_id (row ∷ other ∷ rows) db =
    (refuse_cancel none 409 "ambiguous legacy file intent", db)

unfoldable pub cancel_transfer :
    Env → ℕ → ℕ → String → String → String → Db → FileTransferCancelResult × Db
unfolding intent_rows cancel_rows
cancel_transfer env now_ms save_ms user_id client_file_id file_id db =
    cancel_rows env now_ms save_ms user_id client_file_id file_id
      (intent_rows user_id client_file_id db) db
