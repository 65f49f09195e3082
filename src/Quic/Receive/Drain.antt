-- ===== src/Quic/Receive/Drain.antt =====
-- server/quic/server.py: `_flush_upload_buffer` of an upload that goes on, while no write fails.
use mini_im.Prelude.{
  ℕ, zero, suc, ◌<◌, ◌≡◌, refl, ap, ◌∙◌, inl, inr, String, Bool, true, false, ◌||◌, not, Option,
  none, some, arith, ◌==◌, leb, length, take, Bool-cases,
}
use mini_im.Protocol.{Bytes}
use mini_im.Storage.Db.{Env}
use mini_im.Storage.FileRepo.{StoredFileTransfer}
use mini_im.Services.File.{get_transfer_for_upload}
use mini_im.Services.File.Chunks.{ChunkResult, append_file_chunk}
use mini_im.Services.File.Chunks.Recovery.{same_size}
use mini_im.Quic.Dict.{get-put}
use mini_im.Quic.Download.Jobs.{same_stream_sound, same_stream_refl}
use mini_im.Quic.Receive.{
  FileStreamState, Receiver, Write, same_stream, put_state, continues, upload_transfer,
  schedule_upload_flush, settle_chunk, commit_chunk, flush_loop, flush_upload_buffer,
}
use mini_im.Quic.Receive.Flush.{Uploading, Held, rest-shorter, committed, chunk-committed}

-- What may be left in a buffer: nothing of a flush that is forced, less than a chunk of another.
abbrev pub Drained : Bool → Bytes → Type 0
Drained true buffer = length buffer ≡ 0
Drained false buffer = length buffer < 65536

stop-Drained :
    (force : Bool) (buffer : Bytes)
    → (length buffer == 0 || not (force || leb 65536 (length buffer))) ≡ true
    → Drained force buffer
stop-Drained true buffer h = ground arith
stop-Drained false buffer h = ground arith

go_some : (force : Bool) (n : ℕ) → (n == 0 || not (force || leb 65536 n)) ≡ false → (n == 0) ≡ false
go_some force n h = ground arith

module _ (stream_id a size : ℕ) (path file_id : String) (bytes : Bytes) where
  -- The states of streams and the requests to the transport are no matter to an upload.
  pub put_state-Uploading :
      (other : FileStreamState) (state : FileStreamState) (t : StoredFileTransfer) (r : Receiver)
      → Uploading stream_id a size path file_id bytes state t r
      → Uploading stream_id a size path file_id bytes state t (put_state stream_id other r)
  unfolding put_state
  put_state-Uploading other state t r h = record {
    named = h.named;
    admitted = h.admitted;
    running = h.running;
    lease = h.lease;
    names = h.names;
    consistent = h.consistent;
    live = h.live;
    found = h.found;
    owned = h.owned;
    upload = h.upload;
    going = h.going;
    level = h.level;
    at_path = h.at_path;
    of_size = h.of_size;
    aligned = h.aligned;
    whole = h.whole;
    fits = h.fits;
  }

  -- The flags of a timer are no matter either.
  pub timed-Uploading :
      (timer queued : Bool) (state : FileStreamState) (t : StoredFileTransfer) (r : Receiver)
      → Uploading stream_id a size path file_id bytes state t r
      → Uploading stream_id a size path file_id bytes
          (record state { flush_timer = timer; flush_queued = queued })
          t
          r
  timed-Uploading timer queued state t r h = record {
    named = h.named;
    admitted = h.admitted;
    running = h.running;
    lease = h.lease;
    names = h.names;
    consistent = h.consistent;
    live = h.live;
    found = h.found;
    owned = h.owned;
    upload = h.upload;
    going = h.going;
    level = h.level;
    at_path = h.at_path;
    of_size = h.of_size;
    aligned = h.aligned;
    whole = h.whole;
    fits = h.fits;
  }

  pub put_state-Held :
      (state : FileStreamState) (r : Receiver) → Held stream_id state (put_state stream_id state r)
  unfolding put_state
  put_state-Held state r =
      get-put same_stream same_stream_sound same_stream_refl stream_id state r.streams

  -- The upload goes on, with all its bytes, and as much in its buffer as may be left.
  abbrev pub Flushed : Bool → Option (Bool × Receiver) → Type 0
  Flushed force o =
      (state : FileStreamState) × (t : StoredFileTransfer) × (r : Receiver) × (o ≡ some (true, r))
      × Uploading stream_id a size path file_id bytes state t r
      × Held stream_id state r
      × Drained force state.buffer

  pub schedule-Flushed :
      (force : Bool) (state : FileStreamState) (t : StoredFileTransfer) (r : Receiver)
      → Uploading stream_id a size path file_id bytes state t r
      → Held stream_id state r
      → Drained force state.buffer
      → Flushed force (some (true, schedule_upload_flush stream_id state r))
  unfolding schedule_upload_flush
  schedule-Flushed force state t r h held d =
      elim (Bool-cases
        (r.overloaded || length state.buffer == 0 || state.flush_timer || state.flush_queued)) [
          | inl none_ ↦ rw (schedule_upload_flush, none_) (state, t, r, refl, h, held, d)
          | inr timer ↦
              let state' = record state { flush_timer = true } in
              rw (schedule_upload_flush, timer)
                (
                  state',
                  t,
                  put_state stream_id state' r,
                  refl,
                  put_state-Uploading state' state' t r
                      (timed-Uploading true state.flush_queued state t r h),
                  put_state-Held state' r,
                  d,
                )
        ]

  pub upload_transfer-found :
      (state : FileStreamState) (t : StoredFileTransfer) (r : Receiver)
      → Uploading stream_id a size path file_id bytes state t r
      → upload_transfer stream_id state r ≡ some (some t, r)
  unfolding upload_transfer get_transfer_for_upload continues
  upload_transfer-found state t r h =
      rw
        (
          upload_transfer,
          get_transfer_for_upload,
          h.found,
          h.owned,
          continues,
          h.lease,
          h.live,
          h.upload,
          h.going,
          h.level,
          same_size (r.uploads.leases a).offset,
        )
        refl

  module _ (env : Env) (writes : ℕ → Write) (works : (n : ℕ) → (writes n).failure ≡ none) where
    -- A round for each byte of the buffer and one more is enough.
    pub flush_loop-Flushed :
        (rounds : ℕ) (force : Bool) (state : FileStreamState) (t : StoredFileTransfer)
        (r : Receiver)
        → Uploading stream_id a size path file_id bytes state t r
        → length state.buffer < rounds
        → Flushed force (flush_loop env writes rounds stream_id a state force r)
    unfolding flush_loop settle_chunk commit_chunk
    flush_loop-Flushed zero force state t r h l = absurd (omega arith)
    flush_loop-Flushed (suc rounds) force state t r h l =
        elim (Bool-cases
          (length state.buffer == 0 || not (force || leb 65536 (length state.buffer)))) [
            | inl stop ↦
                rw (flush_loop, stop)
                  (schedule-Flushed force state t (put_state stream_id state r)
                    (put_state-Uploading state state t r h) (put_state-Held state r)
                    (stop-Drained force state.buffer stop))
            | inr go ↦
                let some_ = go_some force (length state.buffer) go in
                let w = writes rounds in
                let (t', updated, events, db, disk, e, projected, h') =
                  chunk-committed env w bytes state t r h some_ in
                let e' : append_file_chunk env w.write_ms w.failure r.user_id state.file_id
                      (take 65536 state.buffer) r.db r.disk
                    ≡ (ChunkResult.appended (some updated) events, db, disk) =
                  ap
                    (λ (failure : Option ℕ).
                      append_file_chunk env w.write_ms failure r.user_id state.file_id
                        (take 65536 state.buffer) r.db r.disk)
                    (works rounds)
                  ∙ e in
                let next = committed w.now a state r db events disk in
                rw (flush_loop, go, e', settle_chunk, projected)
                  (flush_loop-Flushed rounds force next.0 t' next.1 h'
                    (omega (arith, rest-shorter state.buffer some_, l)))
          ]

    pub flush_upload_buffer-Flushed :
        (force : Bool) (state : FileStreamState) (t : StoredFileTransfer) (r : Receiver)
        → Uploading stream_id a size path file_id bytes state t r
        → Flushed force (flush_upload_buffer env writes stream_id state force r)
    unfolding flush_upload_buffer
    flush_upload_buffer-Flushed force state t r h =
        rw (flush_upload_buffer, upload_transfer-found state t r h, h.lease)
          (flush_loop-Flushed (suc (length state.buffer)) force
            (record state { flush_timer = false }) t r
            (timed-Uploading false state.flush_queued state t r h) (omega arith))
