-- ===== src/Services/File/Chunks.antt =====
-- server/services/file/service.py: the bytes of an upload, on the disk and in the table.
pub mod Recovery
pub mod Append
use mini_im.Prelude.{
  ℕ, ◌+◌, String, Bool, true, false, ◌&&◌, ◌||◌, not, Option, none, some, List, [], ◌∷◌, ◌++◌,
  if◌then◌else◌, ◌=?◌, ◌==◌, ltb, length, take, min,
}
use mini_im.Protocol.{Bytes, FileUpdated, file_direction_upload}
use mini_im.Storage.Db.{Db, Env}
use mini_im.Storage.SyncEvent.{StoredSyncEvent}
use mini_im.Storage.ConversationRepo.{list_member_ids}
use mini_im.Storage.FileRepo.{
  StoredFileTransfer, FileTransferProgressResult, FileError, Result, is_uploading_status,
  get_transfer_by_file_id, apply_progress, rewind_upload,
}
use mini_im.Services.File.{Disk, write_file, file_updated_of}

-- The content of the file at a path, nothing if there is none.
unfoldable pub content : Disk → String → Bytes
content disk path = elim (disk path) [ none ↦ [] | some b ↦ b ]

-- What `append_file_chunk` hands back: the transfer as it is told to the user, with the events; or
-- an `OSError`, or an error of the repository.
pub data ChunkResult : Type 0 where
  appended : Option FileUpdated → List StoredSyncEvent → ChunkResult
  os_error : String → ChunkResult
  failed : FileError → ChunkResult

unfoldable pub accepts_chunk : String → Bytes → StoredFileTransfer → Bool
unfolding is_uploading_status
accepts_chunk user_id chunk t =
    (t.owner_id =? user_id)
    && t.direction == file_direction_upload
    && is_uploading_status t.status
    && not (length chunk == 0)
    && not (ltb t.file_size (t.received_bytes + length chunk))

-- The progress that is recorded when the chunk is on the disk.
unfoldable pub record_chunk :
    Env → ℕ → String → String → Bytes → StoredFileTransfer → Db → ChunkResult × Db
unfolding list_member_ids apply_progress file_updated_of
record_chunk env write_ms user_id file_id chunk t db =
    let member_ids = list_member_ids db t.conversation_id in
    let (result, db') =
      apply_progress env write_ms file_id (t.received_bytes + length chunk) member_ids db in
    elim result [
      | Result.raised e ↦ (ChunkResult.failed e, db')
      | Result.ok none ↦ (ChunkResult.appended none [], db')
      | Result.ok (some r) ↦ (
        ChunkResult.appended (some (file_updated_of r.transfer r.sync_events user_id))
            r.sync_events,
        db',
      )
    ]

-- `failure` is what the system does: `none` if it writes the whole chunk and commits, or the number
-- of bytes after which it fails.
unfoldable pub append_file_chunk :
    Env → ℕ → Option ℕ → String → String → Bytes → Db → Disk → ChunkResult × Db × Disk
unfolding get_transfer_by_file_id accepts_chunk content write_file record_chunk
append_file_chunk env write_ms failure user_id file_id chunk db disk =
    elim (get_transfer_by_file_id db file_id) [
      | none ↦ (ChunkResult.appended none [], db, disk)
      | some t ↦
          if not (accepts_chunk user_id chunk t)
          then (ChunkResult.appended none [], db, disk)
          else let old = content disk t.storage_path in
            if not (length old == t.received_bytes)
            then (
              ChunkResult.os_error "upload storage diverged; initialize the original intent again",
              db,
              write_file t.storage_path old disk,
            )
            else elim failure [
              | some n ↦ (
                ChunkResult.os_error "write failed",
                db,
                write_file t.storage_path (old ++ take n chunk) disk,
              )
              | none ↦
                  let (result, db') = record_chunk env write_ms user_id file_id chunk t db in
                  (result, db', write_file t.storage_path (old ++ chunk) disk)
            ]
    ]

-- `_reconcile_upload`: bytes on the disk that were not recorded are cut off, and the record goes
-- back to the bytes that are there.
unfoldable pub verified_offset : Disk → StoredFileTransfer → ℕ
unfolding content
verified_offset disk t =
    min (length (content disk t.storage_path)) (min t.received_bytes t.file_size)

unfoldable pub truncate : ℕ → String → Disk → Disk
unfolding content write_file
truncate offset path disk =
    if ltb offset (length (content disk path))
    then write_file path (take offset (content disk path)) disk
    else disk

unfoldable pub reconcile_upload :
    Env
    → ℕ
    → StoredFileTransfer
    → List String
    → Db
    → Disk
    → Result (Option FileTransferProgressResult) × Db × Disk
unfolding verified_offset truncate rewind_upload
reconcile_upload env write_ms t member_ids db disk =
    let offset = verified_offset disk t in
    let (result, db') = rewind_upload env write_ms t.file_id offset member_ids false db in
    (result, db', truncate offset t.storage_path disk)
