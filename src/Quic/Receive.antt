-- ===== src/Quic/Receive.antt =====
-- server/quic/server.py: the bytes of an upload stream, from the stream to the store of files. Each
-- stream has a state with the bytes that are not yet on the disk. `none` is an exception that the
-- code does not catch.
pub mod Header
pub mod Handle
pub mod Flush
pub mod Drain
pub mod Going
pub mod Whole
pub mod Open
pub mod Run
pub mod Reject
pub mod Stale
use mini_im.Prelude.{
  ℕ, zero, suc, ◌+◌, String, Bool, true, false, ◌&&◌, ◌||◌, not, Option, none, some, List, [], ◌∷◌,
  ◌++◌, if◌then◌else◌, ◌=?◌, ◌==◌, ltb, leb, length, take, drop, any,
}
use mini_im.Protocol.{Bytes, FileUpdated, file_direction_upload}
use mini_im.Storage.Db.{Db, Env}
use mini_im.Storage.SyncEvent.{StoredSyncEvent}
use mini_im.Storage.FileRepo.{StoredFileTransfer, FileError, is_uploading_status}
use mini_im.Services.File.{Disk, get_transfer_for_upload}
use mini_im.Services.File.Chunks.{ChunkResult, append_file_chunk}
use mini_im.Quic.Dict.{get, put, remove}
use mini_im.Quic.Upload.{UploadRegistry, current, advance, release, release_owner}

abbrev pub upload_commit_bytes : ℕ
upload_commit_bytes = 65536

-- `flush_timer` tells whether a timer is set, `lease` is the address of the lease.
pub record FileStreamState : Type 0 where
  pub buffer : Bytes
  pub file_id : String
  pub lease : Option ℕ
  pub flush_timer : Bool
  pub flush_queued : Bool

abbrev pub new_state : FileStreamState
new_state = record {
  buffer = [];
  file_id = "";
  lease = none;
  flush_timer = false;
  flush_queued = false;
}

-- What is asked of the transport: `stop_stream` and `close`, with their error codes.
pub data Call : Type 0 where
  stop_stream : ℕ → ℕ → Call
  close_connection : ℕ → Call

-- The connection, and what it shares with the others: the registry of leases, the tables and the
-- files. `published` are the events for `fanout_sync_events`, in order; the latest call comes first.
pub record Receiver : Type 0 where
  pub user_id : String
  pub connection : ℕ
  pub uploads : UploadRegistry
  pub db : Db
  pub disk : Disk
  pub streams : List (ℕ × FileStreamState)
  pub rejected : List ℕ
  pub receive_ends : List ℕ
  pub storage_failed : Bool
  pub control_closed : Bool
  pub overloaded : Bool
  pub published : List StoredSyncEvent
  pub calls : List Call

-- What happens at a write: the clock of the repository, the number of bytes after which the system
-- fails, if it does, and the clock of the registry.
pub record Write : Type 0 where
  pub write_ms : ℕ
  pub failure : Option ℕ
  pub now : ℕ

abbrev pub same_stream : ℕ → ℕ → Bool
same_stream a b = a == b

unfoldable pub put_state : ℕ → FileStreamState → Receiver → Receiver
unfolding put
put_state stream_id state r = record r { streams = put same_stream stream_id state r.streams }

unfoldable pub discard_upload_stream : ℕ → Receiver → Receiver
unfolding remove
discard_upload_stream stream_id r = record r { streams = remove same_stream stream_id r.streams }

unfoldable pub clear_upload_streams : Receiver → Receiver
clear_upload_streams r = record r { streams = [] }

-- `stream_id in …`
unfoldable pub contains : ℕ → List ℕ → Bool
unfolding any
contains stream_id ids = any (λ i. i == stream_id) ids

unfoldable pub reject_file_stream : ℕ → Receiver → Option Receiver
unfolding discard_upload_stream release_owner contains
reject_file_stream stream_id r = elim (release_owner r.connection (some stream_id) r.uploads) [
  | none ↦ none
  | some uploads ↦ some (record (discard_upload_stream stream_id r) {
    rejected = stream_id ∷ r.rejected;
    uploads = uploads;
    calls =
        if contains stream_id r.receive_ends
        then r.calls
        else Call.stop_stream stream_id 0x1006 ∷ r.calls;
  })
]

-- `_reject_file_stream` where the caller then returns `False` or `None`.
unfoldable pub rejecting : {A : Type 0} → A → ℕ → Receiver → Option (A × Receiver)
unfolding reject_file_stream
rejecting result stream_id r = elim (reject_file_stream stream_id r) [
  | none ↦ none
  | some r' ↦ some (result, r')
]

-- The transfer may go on from the lease of the stream.
unfoldable pub continues : FileStreamState → StoredFileTransfer → UploadRegistry → Bool
unfolding current is_uploading_status
continues state t uploads = elim state.lease [
  | none ↦ false
  | some a ↦
      current uploads a
      && t.direction == file_direction_upload
      && is_uploading_status t.status
      && t.received_bytes == (uploads.leases a).offset
]

unfoldable pub upload_transfer :
    ℕ → FileStreamState → Receiver → Option (Option StoredFileTransfer × Receiver)
unfolding get_transfer_for_upload continues rejecting
upload_transfer stream_id state r = elim (get_transfer_for_upload r.db r.user_id state.file_id) [
  | none ↦ rejecting none stream_id r
  | some t ↦ if continues state t r.uploads then some (some t, r) else rejecting none stream_id r
]

-- The handler of an error of the store of files or of the tables.
unfoldable pub fail_storage : Receiver → Option Receiver
unfolding clear_upload_streams release_owner
fail_storage r = elim (release_owner r.connection none r.uploads) [
  | none ↦ none
  | some uploads ↦ some (record (clear_upload_streams r) {
    storage_failed = true;
    uploads = uploads;
    calls = Call.close_connection 0x1004 ∷ r.calls;
  })
]

unfoldable pub failing : Receiver → Option (Bool × Receiver)
unfolding fail_storage
failing r = elim (fail_storage r) [ none ↦ none | some r' ↦ some (false, r') ]

unfoldable pub schedule_upload_flush : ℕ → FileStreamState → Receiver → Receiver
unfolding put_state
schedule_upload_flush stream_id state r =
    if r.overloaded || length state.buffer == 0 || state.flush_timer || state.flush_queued
    then r
    else put_state stream_id (record state { flush_timer = true }) r

-- `sqlite3.Error`
unfoldable pub is_sqlite_error : FileError → Bool
is_sqlite_error (FileError.value_error e) = false
is_sqlite_error FileError.overflow_error = false
is_sqlite_error FileError.integrity_error = true

-- `updated is None or updated.transferred_bytes != projected`, the other way round.
unfoldable pub is_projected : ℕ → Option FileUpdated → Bool
is_projected projected none = false
is_projected projected (some updated) = updated.transferred_bytes == projected

-- The lease and the state when a chunk is on the disk and recorded.
unfoldable pub commit_chunk :
    ℕ → ℕ → ℕ → FileStreamState → ℕ → Receiver → FileStreamState × Receiver
unfolding advance
commit_chunk now a projected state count r = (
  record state { buffer = drop count state.buffer },
  record r { uploads = advance now a projected r.uploads },
)

-- What a round of the loop of `_flush_upload_buffer` comes to.
pub data Round : Type 0 where
  again : FileStreamState → Receiver → Round
  done : Option (Bool × Receiver) → Round

-- A round after `append_file_chunk`.
unfoldable pub settle_chunk :
    ℕ → ℕ → ℕ → ℕ → FileStreamState → Receiver → ChunkResult × Db × Disk → Round
unfolding is_sqlite_error is_projected commit_chunk rejecting failing
settle_chunk now stream_id a count state r (ChunkResult.os_error e, db, disk) =
    Round.done (failing (record r { db = db; disk = disk }))
settle_chunk now stream_id a count state r (ChunkResult.failed e, db, disk) =
    Round.done (if is_sqlite_error e then failing (record r { db = db; disk = disk }) else none)
settle_chunk now stream_id a count state r (ChunkResult.appended answered events, db, disk) =
    let projected = (r.uploads.leases a).offset + count in
    let r₁ = record r { db = db; disk = disk } in
    let (state', r₂) = commit_chunk now a projected state count r₁ in
    if is_projected projected answered
    then Round.again state' (record r₂ { published = r₂.published ++ events })
    else Round.done (rejecting false stream_id r₁)

module _ (env : Env) (writes : ℕ → Write) where
  -- The loop of `_flush_upload_buffer`; its first argument is the rounds that are left.
  unfoldable pub flush_loop :
      ℕ → ℕ → ℕ → FileStreamState → Bool → Receiver → Option (Bool × Receiver)
  unfolding append_file_chunk settle_chunk schedule_upload_flush put_state
  flush_loop zero stream_id a state force r = none
  flush_loop (suc rounds) stream_id a state force r =
      let chunk = take upload_commit_bytes state.buffer in
      let w = writes rounds in
      if length state.buffer == 0 || not (force || leb upload_commit_bytes (length state.buffer))
      then some (true, schedule_upload_flush stream_id state (put_state stream_id state r))
      else elim (settle_chunk w.now stream_id a (length chunk) state r
          (append_file_chunk env w.write_ms w.failure r.user_id state.file_id chunk r.db r.disk)) [
            | again state' r' ↦ flush_loop rounds stream_id a state' force r'
            | done result ↦ result
          ]

  unfoldable pub flush_upload_buffer :
      ℕ → FileStreamState → Bool → Receiver → Option (Bool × Receiver)
  unfolding upload_transfer flush_loop
  flush_upload_buffer stream_id state force r = elim (upload_transfer stream_id state r) [
    | none ↦ none
    | some (transfer, r₁) ↦ elim transfer [
      | none ↦ some (false, r₁)
      | some t ↦ elim state.lease [
        | none ↦ none
        | some a ↦
            flush_loop (suc (length state.buffer)) stream_id a
              (record state { flush_timer = false }) force r₁
      ]
    ]
  ]
