-- ===== src/Quic/Receive/Handle.antt =====
-- server/quic/server.py: the data of a file stream, and the timer that commits what waits.
use mini_im.Prelude.{
  ℕ, ◌+◌, String, Bool, true, false, ◌&&◌, ◌||◌, Option, none, some, ◌∷◌, ◌++◌, if◌then◌else◌, ◌=?◌,
  ◌==◌, ltb, leb, length,
}
use mini_im.Protocol.{Bytes}
use mini_im.Storage.Db.{Env}
use mini_im.Storage.FileRepo.{StoredFileTransfer}
use mini_im.Quic.Dict.{get}
use mini_im.Quic.Upload.{advance, release}
use mini_im.Quic.Receive.{
  FileStreamState, new_state, Call, Receiver, Write, upload_commit_bytes, same_stream, put_state,
  discard_upload_stream, contains, reject_file_stream, upload_transfer, schedule_upload_flush,
  flush_upload_buffer,
}
use mini_im.Quic.Receive.Header.{bind_upload_stream}

-- `FaultConfig`, for tests of the network; `random_drop` is the outcome of the draw.
pub record FaultConfig : Type 0 where
  pub file_drop_after_bytes : ℕ
  pub random_drop : Bool

-- The code with which a fault closes the connection.
unfoldable pub fault : FaultConfig → ℕ → Option ℕ
fault config projected =
    if ltb 0 config.file_drop_after_bytes && leb config.file_drop_after_bytes projected
    then some 0x1001
    else if config.random_drop
    then some 0x1002
    else none

-- The state of a stream, a new one if it has none, with the data at the end of its buffer.
unfoldable pub extended : ℕ → Bytes → Receiver → FileStreamState
unfolding get
extended stream_id bytes r = elim (get same_stream stream_id r.streams) [
  | none ↦ record new_state { buffer = bytes }
  | some state ↦ record state { buffer = state.buffer ++ bytes }
]

-- The end of a stream: the lease is released unless the upload is whole.
unfoldable pub end_upload_stream : ℕ → ℕ → ℕ → Receiver → Option Receiver
unfolding discard_upload_stream release
end_upload_stream stream_id a file_size r =
    let r' = discard_upload_stream stream_id r in
    if (r.uploads.leases a).offset == file_size then some r' else elim (release a r.uploads) [
      | none ↦ none
      | some uploads ↦ some (record r' { uploads = uploads })
    ]

module _ (env : Env) (config : FaultConfig) (writes : ℕ → Write) (now : ℕ) where
  -- The buffer is committed if it is large or the last one, and waits for the timer otherwise.
  unfoldable pub take_buffer :
      ℕ → ℕ → FileStreamState → Bool → ℕ → Receiver → Option (Bool × Receiver)
  unfolding advance put_state flush_upload_buffer schedule_upload_flush
  take_buffer stream_id a state end_stream file_size r =
      let projected = (r.uploads.leases a).offset + length state.buffer in
      let r₁ = record r { uploads = advance now a (r.uploads.leases a).offset r.uploads } in
      let last = end_stream || projected == file_size in
      if leb upload_commit_bytes (length state.buffer) || last
      then flush_upload_buffer env writes stream_id state last r₁
      else some (true, schedule_upload_flush stream_id state r₁)

  -- What follows when the stream has its lease and its transfer.
  unfoldable pub receive_transfer :
      ℕ → FileStreamState → Bool → StoredFileTransfer → ℕ → Receiver → Option Receiver
  unfolding reject_file_stream fault discard_upload_stream take_buffer end_upload_stream
  receive_transfer stream_id state end_stream t a r =
      let projected = (r.uploads.leases a).offset + length state.buffer in
      let finish : Receiver → Option Receiver =
        λ r'. if end_stream then end_upload_stream stream_id a t.file_size r' else some r' in
      if ltb t.file_size projected
      then reject_file_stream stream_id r
      else if length state.buffer == 0
      then finish r
      else elim (fault config projected) [
        | some code ↦ some (
            discard_upload_stream stream_id
              (record r { calls = Call.close_connection code ∷ r.calls }))
        | none ↦ elim (take_buffer stream_id a state end_stream t.file_size r) [
          | none ↦ none
          | some (going, r') ↦ if going then finish r' else some r'
        ]
      ]

  -- From `_upload_transfer` on.
  unfoldable pub receive_bound : ℕ → FileStreamState → Bool → Receiver → Option Receiver
  unfolding upload_transfer receive_transfer
  receive_bound stream_id state end_stream r = elim (upload_transfer stream_id state r) [
    | none ↦ none
    | some (transfer, r') ↦ elim transfer [
      | none ↦ some r'
      | some t ↦ elim state.lease [
        | none ↦ none
        | some a ↦ receive_transfer stream_id state end_stream t a r'
      ]
    ]
  ]

  unfoldable pub handle_file_stream_data :
      (Bytes → Option String) → ℕ → Bytes → Bool → Receiver → Option Receiver
  unfolding contains extended put_state bind_upload_stream receive_bound
  handle_file_stream_data decode stream_id bytes end_stream r =
      if (r.user_id =? "") || contains stream_id r.rejected
      then some r
      else let state = extended stream_id bytes r in
        let r₁ = put_state stream_id state r in
        elim state.lease [
          | some a ↦ receive_bound stream_id state end_stream r₁
          | none ↦ elim (bind_upload_stream decode now stream_id state end_stream r₁) [
            | none ↦ none
            | some (bound, r₂) ↦ elim bound [
              | none ↦ some r₂
              | some state' ↦ receive_bound stream_id state' end_stream r₂
            ]
          ]
        ]

  -- The queued `flush`. A stream has no second state while a flush of its first one can run: its
  -- identifier stands for the state.
  unfoldable pub run_flush : ℕ → Receiver → Option Receiver
  unfolding get flush_upload_buffer
  run_flush stream_id r = elim (get same_stream stream_id r.streams) [
    | none ↦ some r
    | some state ↦
        let state' = record state { flush_queued = false } in
        if r.control_closed || r.storage_failed
        then some (put_state stream_id state' r)
        else elim (flush_upload_buffer env writes stream_id state' true r) [
          | none ↦ none
          | some (going, r') ↦ some r'
        ]
  ]

-- What the queue says to the flush: it takes it, it is full, or it is stopped.
pub data Enqueued : Type 0 where
  accepted : Enqueued
  full : Enqueued
  queue_stopped : Enqueued

-- The timer runs out. With `true`, `_overload` is called.
unfoldable pub enqueue_flush : Enqueued → ℕ → Receiver → Bool × Receiver
unfolding get put_state discard_upload_stream
enqueue_flush outcome stream_id r = elim (get same_stream stream_id r.streams) [
  | none ↦ (false, r)
  | some state ↦
      let r' = put_state stream_id (record state { flush_timer = false; flush_queued = true }) r in
      if r.overloaded then (false, r') else elim outcome [
        | accepted ↦ (false, r')
        | full ↦ (true, r')
        | queue_stopped ↦ (false, discard_upload_stream stream_id r')
      ]
]
