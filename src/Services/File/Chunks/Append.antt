-- ===== src/Services/File/Chunks/Append.antt =====
-- server/services/file/service.py: a chunk that is written and recorded.
use mathlib.Core.Path.{subst}
use mini_im.Prelude.{
  ℕ, ◌+◌, ◌≤◌, ◌≡◌, ◌≢◌, refl, sym, ap, ◌∙◌, inl, inr, String, Bool, true, false, none, some, List,
  [], ◌∷◌, ◌++◌, if◌then◌else◌, ◌=?◌, ◌==◌, ltb, length, arith, max, Bool-cases, length-append,
  find?, update_where, String_discrete,
}
use mini_im.Protocol.{Bytes, Body, FileUpdated}
use mini_im.Storage.Db.{Db, Env, FileTransferRow}
use mini_im.Storage.SyncEvent.{StoredSyncEvent}
use mini_im.Storage.SyncEvent.Frame.{append_sync_events-OnlyEvents}
use mini_im.Storage.ConversationRepo.{list_member_ids}
use mini_im.Storage.FileRepo.{
  StoredFileTransfer, Result, is_uploading_status, row_to_transfer, find_transfer,
  get_transfer_by_file_id, file_updated_body, append_file_updated_sync_events, append_if,
  save_progress, save_if, apply_progress,
}
use mini_im.Storage.FileRepo.Rows.{find_transfer-Has}
use mini_im.Services.File.{Disk, write_file, file_updated_of}
use mini_im.Services.File.Chunks.{
  content, ChunkResult, accepts_chunk, record_chunk, append_file_chunk,
}
use mini_im.Services.File.Chunks.Recovery.{
  Aligned, content-write_file, write_file-other, accepts_chunk_lem, uploading-open, found_row,
  same_size,
}

-- The update of the row under an identifier.
find-update_self :
    (file_id : String) (f : FileTransferRow → FileTransferRow) (rows : List FileTransferRow)
    (row : FileTransferRow)
    → ((r : FileTransferRow) → (f r).file_id ≡ r.file_id)
    → find_transfer file_id rows ≡ some row
    → find_transfer file_id (update_where (λ r. r.file_id =? file_id) f rows) ≡ some (f row)
unfolding find_transfer find? update_where
find-update_self file_id f [] row same_ h = cc
find-update_self file_id f (r ∷ rows) row same_ h = elim (Bool-cases (r.file_id =? file_id)) [
  | inl e ↦
      let k : ((f r).file_id =? file_id) ≡ true =
        ap (λ (id : String). id =? file_id) (same_ r) ∙ e in
      rw (e, k) (ap (λ (x : FileTransferRow). some (f x)) (ground arith))
  | inr n ↦ rw (n, n) (find-update_self file_id f rows row same_ (ground arith))
]

saved_row :
    (now_ms : ℕ) (status : String) (received_bytes : ℕ) (row : FileTransferRow) (db : Db)
    → find_transfer row.file_id db.file_transfers ≡ some row
    → let saved =
        save_progress now_ms
          (record (row_to_transfer row) { received_bytes = received_bytes; status = status })
          db in
      get_transfer_by_file_id saved.1 row.file_id ≡ some saved.0
unfolding save_progress get_transfer_by_file_id row_to_transfer
saved_row now_ms status received_bytes row db h =
    rw
      (
        get_transfer_by_file_id,
        find-update_self row.file_id
            (λ r. record r {
              received_bytes = received_bytes;
              status = status;
              version = row.version + 1;
              updated_at_ms = max now_ms (row.updated_at_ms + 1);
            })
            db.file_transfers row (λ r. refl) h,
      )
      refl

not_over : (n size : ℕ) → n ≤ size → ltb size n ≡ false
not_over n size h = ground arith

grows : (n k : ℕ) → (k == 0) ≡ false → ltb n (n + k) ≡ true
grows n k h = ground arith

-- A transfer that is saved is found as it was saved.
pub save_progress-found :
    (now_ms : ℕ) (status : String) (received_bytes : ℕ) (file_id : String) (t : StoredFileTransfer)
    (db : Db)
    → get_transfer_by_file_id db file_id ≡ some t
    → let saved =
        save_progress now_ms (record t { received_bytes = received_bytes; status = status }) db in
      get_transfer_by_file_id saved.1 file_id ≡ some saved.0
unfolding save_progress
save_progress-found now_ms status received_bytes file_id t db h =
    let r = found_row file_id db t h in
    let same_ = (find_transfer-Has file_id db.file_transfers {row = r.0} r.1).1 in
    subst
      (λ (u : StoredFileTransfer).
        get_transfer_by_file_id
          (save_progress now_ms (record u { received_bytes = received_bytes; status = status })
            db).1
          file_id
        ≡ some
            (save_progress now_ms (record u { received_bytes = received_bytes; status = status })
              db).0)
      (sym r.2)
      (subst
        (λ (id : String).
          get_transfer_by_file_id
            (save_progress now_ms
              (record (row_to_transfer r.0) { received_bytes = received_bytes; status = status })
              db).1
            id
          ≡ some
              (save_progress now_ms
                (record (row_to_transfer r.0) { received_bytes = received_bytes; status = status })
                db).0)
        same_
        (saved_row now_ms status received_bytes r.0 db
          (ap (λ (id : String). find_transfer id db.file_transfers) same_ ∙ r.1)))

pub append_if-found :
    (env : Env) (changed : Bool) (member_ids : List String) (u : StoredFileTransfer)
    (file_id : String) (db : Db)
    → get_transfer_by_file_id (append_if env changed member_ids u db).1 file_id
      ≡ get_transfer_by_file_id db file_id
unfolding append_if append_file_updated_sync_events get_transfer_by_file_id
append_if-found env false member_ids u file_id db = refl
append_if-found env true member_ids u file_id db =
    rw
      (
        get_transfer_by_file_id,
        (append_sync_events-OnlyEvents env u.conversation_id "file_updated"
            (Body.file_updated (file_updated_body u)) u.updated_at_ms member_ids db).transfers,
      )
      refl

new_status : (b : Bool) → is_uploading_status (if b then "uploaded" else "uploading") ≡ true
unfolding is_uploading_status String_discrete
new_status true = refl
new_status false = refl

module _ (env : Env) (user_id file_id : String) (chunk : Bytes) (t : StoredFileTransfer) (db : Db)
    (disk : Disk) (found : get_transfer_by_file_id db file_id ≡ some t)
    (accepted : accepts_chunk user_id chunk t ≡ true) (aligned : Aligned disk t)
    (write_ms : ℕ) where
  -- What `apply_progress` makes of the transfer.
  abbrev advanced : StoredFileTransfer
  advanced = record t {
    received_bytes = t.received_bytes + length chunk;
    status = if t.received_bytes + length chunk == t.file_size then "uploaded" else "uploading";
  }

  abbrev saved : StoredFileTransfer × Db
  saved = save_progress write_ms advanced db

  progressed :
      (member_ids : List String)
      → apply_progress env write_ms file_id (t.received_bytes + length chunk) member_ids db ≡ (
        Result.ok (
            some (record {
              transfer = saved.0;
              sync_events = (append_if env true member_ids saved.0 saved.1).0;
              changed = true;
            })),
        (append_if env true member_ids saved.0 saved.1).1,
      )
  unfolding apply_progress save_if
  progressed member_ids =
      let ok_ = accepts_chunk_lem user_id chunk t accepted in
      rw
        (
          apply_progress,
          found,
          not_over (t.received_bytes + length chunk) t.file_size ok_.fits,
          uploading-open t.status ok_.going,
          grows t.received_bytes (length chunk) ok_.some_,
        )
        refl

  abbrev told : List StoredSyncEvent × Db
  told = append_if env true (list_member_ids db t.conversation_id) saved.0 saved.1

  written : append_file_chunk env write_ms none user_id file_id chunk db disk ≡ (
    ChunkResult.appended (some (file_updated_of saved.0 told.0 user_id)) told.0,
    told.1,
    write_file t.storage_path (content disk t.storage_path ++ chunk) disk,
  )
  unfolding append_file_chunk record_chunk
  written =
      rw
        (
          append_file_chunk,
          found,
          accepted,
          aligned,
          same_size t.received_bytes,
          record_chunk,
          progressed (list_member_ids db t.conversation_id),
          progressed (list_member_ids db t.conversation_id),
        )
        refl

  -- The same, with the transfer that is on record afterwards written out.
  pub append_file_chunk-saved :
      (status : String) × (version : ℕ) × (updated_at_ms : ℕ) × (updated : FileUpdated)
      × (events : List StoredSyncEvent) × (db' : Db) × (append_file_chunk env write_ms none user_id
            file_id chunk db disk
          ≡ (
            ChunkResult.appended (some updated) events,
            db',
            write_file t.storage_path (content disk t.storage_path ++ chunk) disk,
          ))
      × (get_transfer_by_file_id db' file_id
          ≡ some (record t {
            received_bytes = t.received_bytes + length chunk;
            status = status;
            version = version;
            updated_at_ms = updated_at_ms;
          }))
      × (updated.transferred_bytes ≡ t.received_bytes + length chunk)
      × (is_uploading_status status ≡ true)
  unfolding save_progress file_updated_of file_updated_body
  append_file_chunk-saved = (
    advanced.status,
    saved.0.version,
    saved.0.updated_at_ms,
    file_updated_of saved.0 told.0 user_id,
    told.0,
    told.1,
    written,
    append_if-found env true (list_member_ids db t.conversation_id) saved.0 file_id saved.1
        ∙ save_progress-found write_ms advanced.status advanced.received_bytes file_id t db found,
    refl,
    new_status (t.received_bytes + length chunk == t.file_size),
  )

  -- An upload that accepts a chunk and whose bytes on the disk are as many as are on record: if the
  -- chunk is written, then the file is the old one followed by the chunk, every other file is as it
  -- was, and the transfer on record has the bytes of the chunk more, as many as are on the disk.
  pub append_file_chunk-appends :
      let after = append_file_chunk env write_ms none user_id file_id chunk db disk in
      (t' : StoredFileTransfer) × (get_transfer_by_file_id after.1 file_id ≡ some t')
      × (t'.received_bytes ≡ t.received_bytes + length chunk)
      × Aligned after.2 t'
      × (content after.2 t.storage_path ≡ content disk t.storage_path ++ chunk)
      × ((path : String) → t.storage_path ≢ path → after.2 path ≡ disk path)
  unfolding save_progress
  append_file_chunk-appends = rw written (
    saved.0,
    append_if-found env true (list_member_ids db t.conversation_id) saved.0 file_id saved.1
        ∙ save_progress-found write_ms advanced.status advanced.received_bytes file_id t db found,
    refl,
    ap length (content-write_file t.storage_path (content disk t.storage_path ++ chunk) disk)
        ∙ length-append (content disk t.storage_path) chunk
        ∙ ap (λ (n : ℕ). n + length chunk) aligned,
    content-write_file t.storage_path (content disk t.storage_path ++ chunk) disk,
    λ path n. write_file-other t.storage_path path (content disk t.storage_path ++ chunk) disk n,
  )
