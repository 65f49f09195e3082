-- ===== src/Quic/Receive/Flush.antt =====
-- server/quic/server.py: the bytes of an upload on their way from the buffer to the disk.
use mini_im.Prelude.{
  ℕ, zero, suc, ◌+◌, ◌≤◌, ◌<◌, ◌≡◌, refl, sym, ap, ◌∙◌, String, Bool, true, false, ◌&&◌, ◌||◌, not,
  none, some, List, [], ◌∷◌, ◌++◌, arith, ◌=?◌, ◌==◌, ltb, length, take, drop, length-append,
}
use mathlib.Core.List.{append_assoc}
use mini_im.Protocol.{Bytes, FileUpdated, file_direction_upload}
use mini_im.Storage.Db.{Db, Env}
use mini_im.Storage.SyncEvent.{StoredSyncEvent}
use mini_im.Storage.FileRepo.{StoredFileTransfer, is_uploading_status, get_transfer_by_file_id}
use mini_im.Services.File.{Disk, write_file}
use mini_im.Services.File.Chunks.{content, ChunkResult, accepts_chunk, append_file_chunk}
use mini_im.Services.File.Chunks.Recovery.{content-write_file}
use mini_im.Services.File.Chunks.Append.{append_file_chunk-saved}
use mini_im.Quic.Dict.{get}
use mini_im.Quic.Upload.{UploadLease, UploadRegistry, current, advance, find_file}
use mini_im.Quic.Upload.Consistent.{Consistent, write_same}
use mini_im.Quic.Upload.Calls.{write-Consistent}
use mini_im.Quic.Receive.{
  FileStreamState, Receiver, Write, same_stream, contains, is_projected, commit_chunk,
}

-- The transfer of a stream goes on: its lease is current, and at the offset up to which the bytes
-- are on the disk and on record. `bytes` are all the bytes of the file so far, those in the buffer
-- last.
pub record Uploading (stream_id a size : ℕ) (path file_id : String) (bytes : Bytes)
    (state : FileStreamState) (t : StoredFileTransfer) (r : Receiver) : Type 0 where
  pub named : (r.user_id =? "") ≡ false
  pub admitted : contains stream_id r.rejected ≡ false
  pub running : (r.control_closed || r.storage_failed) ≡ false
  pub lease : state.lease ≡ some a
  pub names : state.file_id ≡ file_id
  pub consistent : Consistent r.uploads
  pub live : current r.uploads a ≡ true
  pub found : get_transfer_by_file_id r.db state.file_id ≡ some t
  pub owned : (t.owner_id =? r.user_id) ≡ true
  pub upload : (t.direction == file_direction_upload) ≡ true
  pub going : is_uploading_status t.status ≡ true
  pub level : t.received_bytes ≡ (r.uploads.leases a).offset
  pub at_path : t.storage_path ≡ path
  pub of_size : t.file_size ≡ size
  pub aligned : length (content r.disk t.storage_path) ≡ t.received_bytes
  pub whole : content r.disk t.storage_path ++ state.buffer ≡ bytes
  pub fits : length bytes ≤ size

abbrev pub Held : ℕ → FileStreamState → Receiver → Type 0
Held stream_id state r = get same_stream stream_id r.streams ≡ some state

pub take_rest : (n : ℕ) (xs : Bytes) → take n xs ++ drop (length (take n xs)) xs ≡ xs
take_rest zero xs = refl
take_rest (suc n) [] = refl
take_rest (suc n) (x ∷ xs) = ap (◌∷◌ x) (take_rest n xs)

length-take-nonzero :
    (n : ℕ) (xs : Bytes) → (length xs == 0) ≡ false → (length (take (suc n) xs) == 0) ≡ false
length-take-nonzero n [] h = h
length-take-nonzero n (x ∷ xs) h = ground arith

-- A chunk takes something off the buffer.
pub rest-shorter :
    (xs : Bytes) → (length xs == 0) ≡ false → length (drop (length (take 65536 xs)) xs) < length xs
rest-shorter xs h =
    let parts : length (take 65536 xs) + length (drop (length (take 65536 xs)) xs) ≡ length xs =
      sym (length-append (take 65536 xs) (drop (length (take 65536 xs)) xs))
      ∙ ap length (take_rest 65536 xs) in
    ground (arith, parts, length-take-nonzero 65535 xs h)

-- Whether the lease of a file is the one at the address.
abbrev names : UploadRegistry → ℕ → String → Bool
names r a file_id = elim (find_file r file_id) [ none ↦ false | some b ↦ b == a ]

pub current-advance :
    (now a offset : ℕ) (r : UploadRegistry) → current (advance now a offset r) a ≡ current r a
unfolding current advance find_file
current-advance now a offset r =
    ap (λ (l : UploadLease). names r a l.file_id)
      (write_same a (record (r.leases a) { offset = offset; touched = now }) r.leases)

pub advance-Consistent :
    (now a offset : ℕ) (r : UploadRegistry) → Consistent r → Consistent (advance now a offset r)
unfolding advance
advance-Consistent now a offset r h =
    write-Consistent a (record (r.leases a) { offset = offset; touched = now }) r refl refl h

fits_test : (size n : ℕ) → n ≤ size → (not false && not (ltb size n)) ≡ true
fits_test size n h = ground arith

-- The receiver when the first chunk of the buffer is on the disk.
abbrev pub committed :
    ℕ
    → ℕ
    → FileStreamState
    → Receiver
    → Db
    → List StoredSyncEvent
    → Disk
    → FileStreamState × Receiver
committed now a state r db events disk =
    let chunk = take 65536 state.buffer in
    let (state', r') =
      commit_chunk now a ((r.uploads.leases a).offset + length chunk) state (length chunk)
        (record r { db = db; disk = disk }) in
    (state', record r' { published = r'.published ++ events })

module _ {stream_id a size : ℕ} {path file_id : String} where
  -- What is in the buffer still fits in the file.
  pub buffer-fits :
      (bytes : Bytes) (state : FileStreamState) (t : StoredFileTransfer) (r : Receiver)
      → Uploading stream_id a size path file_id bytes state t r
      → t.received_bytes + length state.buffer ≡ length bytes
  buffer-fits bytes state t r h =
      ap (λ (n : ℕ). n + length state.buffer) (sym h.aligned)
      ∙ sym (length-append (content r.disk t.storage_path) state.buffer)
      ∙ ap length h.whole

  chunk-accepted :
      (bytes : Bytes) (state : FileStreamState) (t : StoredFileTransfer) (r : Receiver)
      → Uploading stream_id a size path file_id bytes state t r
      → (length state.buffer == 0) ≡ false
      → accepts_chunk r.user_id (take 65536 state.buffer) t ≡ true
  unfolding accepts_chunk
  chunk-accepted bytes state t r h some_ =
      let parts : length (take 65536 state.buffer)
            + length (drop (length (take 65536 state.buffer)) state.buffer)
          ≡ length state.buffer =
        sym (length-append (take 65536 state.buffer) _)
        ∙ ap length (take_rest 65536 state.buffer) in
      rw (h.owned, h.upload, h.going, length-take-nonzero 65535 state.buffer some_)
        (fits_test t.file_size (t.received_bytes + length (take 65536 state.buffer))
          (omega (arith, parts, buffer-fits bytes state t r h, h.fits, h.of_size)))

  module _ (env : Env) (w : Write) where
    pub chunk-committed :
        (bytes : Bytes) (state : FileStreamState) (t : StoredFileTransfer) (r : Receiver)
        → Uploading stream_id a size path file_id bytes state t r
        → (length state.buffer == 0) ≡ false
        → (t' : StoredFileTransfer) × (updated : FileUpdated) × (events : List StoredSyncEvent)
          × (db : Db) × (disk : Disk) × (append_file_chunk env w.write_ms none r.user_id
                state.file_id
                (take 65536 state.buffer)
                r.db
                r.disk
              ≡ (ChunkResult.appended (some updated) events, db, disk))
          × (is_projected
                ((r.uploads.leases a).offset + length (take 65536 state.buffer))
                (some updated)
              ≡ true)
          × Uploading stream_id a size path file_id bytes
              (committed w.now a state r db events disk).0
              t'
              (committed w.now a state r db events disk).1
    unfolding commit_chunk is_projected advance
    chunk-committed bytes state t r h some_ =
        let chunk = take 65536 state.buffer in
        let saved =
          append_file_chunk-saved env r.user_id state.file_id chunk t r.db r.disk h.found
            (chunk-accepted bytes state t r h some_) h.aligned w.write_ms in
        let (status, version, updated_at_ms, updated, events, db, e, found, sent, going) = saved in
        let disk = write_file t.storage_path (content r.disk t.storage_path ++ chunk) r.disk in
        let now_there =
          content-write_file t.storage_path (content r.disk t.storage_path ++ chunk) r.disk in
        (
          record t {
            received_bytes = t.received_bytes + length chunk;
            status = status;
            version = version;
            updated_at_ms = updated_at_ms;
          },
          updated,
          events,
          db,
          disk,
          e,
          ground (arith, sent, h.level),
          record {
            named = h.named;
            admitted = h.admitted;
            running = h.running;
            lease = h.lease;
            names = h.names;
            consistent = advance-Consistent w.now a _ r.uploads h.consistent;
            live = current-advance w.now a _ r.uploads ∙ h.live;
            found = found;
            owned = h.owned;
            upload = h.upload;
            going = going;
            level =
                ap (λ (n : ℕ). n + length chunk) h.level
                ∙ sym (ap (λ (l : UploadLease). l.offset) (write_same a _ r.uploads.leases));
            at_path = h.at_path;
            of_size = h.of_size;
            aligned =
                ap length now_there
                ∙ length-append (content r.disk t.storage_path) chunk
                ∙ ap (λ (n : ℕ). n + length chunk) h.aligned;
            whole =
                ap (λ (x : Bytes). x ++ drop (length chunk) state.buffer) now_there
                ∙ append_assoc (content r.disk t.storage_path) chunk
                    (drop (length chunk) state.buffer)
                ∙ ap (λ (x : Bytes). content r.disk t.storage_path ++ x)
                    (take_rest 65536 state.buffer)
                ∙ h.whole;
            fits = h.fits;
          },
        )
