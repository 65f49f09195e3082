-- ===== src/Quic/Receive/Whole.antt =====
-- server/quic/server.py: an upload stream from its binding to its end.
use mini_im.Prelude.{
  ℕ, ◌+◌, ◌≤◌, ◌≡◌, refl, sym, ap, ◌∙◌, inl, inr, String, Bool, true, false, ◌||◌, Option, none,
  some, ◌++◌, arith, ◌=?◌, ◌==◌, ltb, leb, length, Bool-cases,
}
use mathlib.Core.Path.{subst}
use mini_im.Protocol.{Bytes}
use mini_im.Storage.Db.{Env}
use mini_im.Storage.FileRepo.{StoredFileTransfer}
use mini_im.Services.File.Chunks.{content}
use mini_im.Quic.Dict.{get}
use mini_im.Quic.Upload.{advance}
use mini_im.Quic.Receive.{
  FileStreamState, Receiver, Write, same_stream, put_state, contains, upload_transfer,
}
use mini_im.Quic.Receive.Handle.{
  FaultConfig, fault, extended, take_buffer, receive_transfer, receive_bound,
  handle_file_stream_data, run_flush, enqueue_flush, accepted,
}
use mini_im.Quic.Receive.Flush.{Uploading, Held}
use mini_im.Quic.Receive.Drain.{
  Drained, Flushed, put_state-Uploading, timed-Uploading, put_state-Held, schedule-Flushed,
  upload_transfer-found, flush_upload_buffer-Flushed,
}
use mini_im.Quic.Receive.Going.{
  extended-Uploading, extended-Held, touched-Uploading, projected_lem, Recorded, end-Whole, Going,
  Flushed-Going, weaker,
}

not_more : (size n : ℕ) → n ≤ size → ltb size n ≡ false
not_more size n h = ground arith

small :
    (n : ℕ) (e b : Bool) (buffer : Bytes)
    → n ≡ length buffer
    → (leb 65536 n || (e || b)) ≡ false
    → Drained e buffer
small n true b buffer q h = ground arith
small n false b buffer q h = ground (arith, q)

pub enqueue-accepted :
    (stream_id : ℕ) (state : FileStreamState) (r : Receiver)
    → Held stream_id state r
    → (enqueue_flush accepted stream_id r).1
      ≡ put_state stream_id (record state { flush_timer = false; flush_queued = true }) r
unfolding enqueue_flush
enqueue-accepted stream_id state r held = elim (Bool-cases r.overloaded) [
  | inl o ↦ rw (enqueue_flush, held, o) refl
  | inr n ↦ rw (enqueue_flush, held, n) refl
]

module _ (stream_id a size : ℕ) (path file_id : String) where
  module _ (env : Env) (config : FaultConfig) (quiet : (n : ℕ) → fault config n ≡ none) where
    module _ (writes : ℕ → Write) (now : ℕ) (works : (n : ℕ) → (writes n).failure ≡ none) where
      take_buffer-Flushed :
          (bytes : Bytes) (state : FileStreamState) (t : StoredFileTransfer) (end_stream : Bool)
          (r : Receiver)
          → Uploading stream_id a size path file_id bytes state t r
          → Held stream_id state r
          → Flushed stream_id a size path file_id bytes end_stream
              (take_buffer env config writes now stream_id a state end_stream t.file_size r)
      unfolding take_buffer
      take_buffer-Flushed bytes state t end_stream r h held =
          let offset = (r.uploads.leases a).offset in
          let last = end_stream || (offset + length state.buffer == t.file_size) in
          let touched = record r { uploads = advance now a offset r.uploads } in
          let h' = touched-Uploading stream_id a size path file_id now bytes state t r h in
          elim (Bool-cases (leb 65536 (length state.buffer) || last)) [
            | inl now_ ↦
                rw (take_buffer, now_)
                  (weaker stream_id a size path file_id bytes end_stream
                    (offset + length state.buffer == t.file_size) _
                    (flush_upload_buffer-Flushed stream_id a size path file_id bytes env writes
                      works last state t touched h'))
            | inr later ↦
                rw (take_buffer, later)
                  (schedule-Flushed stream_id a size path file_id bytes end_stream state t touched
                    h' held (small (length state.buffer) end_stream _ state.buffer refl later))
          ]

      -- The data of the stream, while it has not ended.
      pub transfer-Going :
          (bytes : Bytes) (state : FileStreamState) (t : StoredFileTransfer) (r : Receiver)
          → Uploading stream_id a size path file_id bytes state t r
          → Held stream_id state r
          → (r' : Receiver) × (receive_transfer env config writes now stream_id state false t a r
              ≡ some r')
            × Going stream_id a size path file_id bytes r'
      unfolding receive_transfer
      transfer-Going bytes state t r h held =
          let fits : ltb t.file_size ((r.uploads.leases a).offset + length state.buffer) ≡ false =
            not_more t.file_size ((r.uploads.leases a).offset + length state.buffer) (
              omega (
                arith,
                projected_lem stream_id a size path file_id bytes state t r h,
                h.fits,
                h.of_size,
              )) in
          elim (Bool-cases (length state.buffer == 0)) [
            | inl empty ↦
                rw (receive_transfer, fits, empty)
                  (r, refl, (state, t, h, held, ground (arith, empty)))
            | inr some_ ↦
                let (r', e, going) =
                  Flushed-Going stream_id a size path file_id bytes false _
                    (take_buffer-Flushed bytes state t false r h held) in
                rw (receive_transfer, fits, some_, quiet, e) (r', refl, going)
          ]

      -- The end of the stream.
      transfer-ends :
          (bytes : Bytes) (state : FileStreamState) (t : StoredFileTransfer) (r : Receiver)
          → Uploading stream_id a size path file_id bytes state t r
          → Held stream_id state r
          → (r' : Receiver) × (receive_transfer env config writes now stream_id state true t a r
              ≡ some r')
            × (content r'.disk path ≡ bytes)
            × Recorded stream_id a size path file_id bytes r'
            × (get same_stream stream_id r'.streams ≡ none)
      unfolding receive_transfer
      transfer-ends bytes state t r h held =
          let fits : ltb t.file_size ((r.uploads.leases a).offset + length state.buffer) ≡ false =
            not_more t.file_size ((r.uploads.leases a).offset + length state.buffer) (
              omega (
                arith,
                projected_lem stream_id a size path file_id bytes state t r h,
                h.fits,
                h.of_size,
              )) in
          elim (Bool-cases (length state.buffer == 0)) [
            | inl empty ↦
                let (r', e, whole, row, gone) =
                  end-Whole stream_id a size path file_id bytes state t r t.file_size h
                    (ground (arith, empty)) in
                rw (receive_transfer, fits, empty) (r', e, whole, row, gone)
            | inr some_ ↦
                let (state', t', r', e, h', held', d) =
                  take_buffer-Flushed bytes state t true r h held in
                let (r'', e', whole, row, gone) =
                  end-Whole stream_id a size path file_id bytes state' t' r' t.file_size h' d in
                rw (receive_transfer, fits, some_, quiet, e) (r'', e', whole, row, gone)
          ]

      handle_named :
          (decode : Bytes → Option String) (d : Bytes) (end_stream : Bool) (r : Receiver)
          → (r.user_id =? "") ≡ false
          → contains stream_id r.rejected ≡ false
          → (extended stream_id d r).lease ≡ some a
          → handle_file_stream_data env config writes now decode stream_id d end_stream r
            ≡ receive_bound env config writes now stream_id
                (extended stream_id d r)
                end_stream
                (put_state stream_id (extended stream_id d r) r)
      unfolding handle_file_stream_data
      handle_named decode d end_stream r named admitted lease =
          rw (handle_file_stream_data, named, admitted, lease) refl

      pub receive_found :
          (state : FileStreamState) (end_stream : Bool) (t : StoredFileTransfer) (r : Receiver)
          → upload_transfer stream_id state r ≡ some (some t, r)
          → state.lease ≡ some a
          → receive_bound env config writes now stream_id state end_stream r
            ≡ receive_transfer env config writes now stream_id state end_stream t a r
      unfolding receive_bound
      receive_found state end_stream t r found lease = rw (receive_bound, found, lease) refl

      -- The data of a stream that is bound goes to its transfer.
      handle_bound :
          (decode : Bytes → Option String) (bytes d : Bytes) (end_stream : Bool)
          (state : FileStreamState) (t : StoredFileTransfer) (r : Receiver)
          → length (bytes ++ d) ≤ size
          → Uploading stream_id a size path file_id bytes state t r
          → Held stream_id state r
          → (state' : FileStreamState) × (r' : Receiver) × (handle_file_stream_data env config
                writes now decode stream_id d end_stream r
              ≡ receive_transfer env config writes now stream_id state' end_stream t a r')
            × Uploading stream_id a size path file_id (bytes ++ d) state' t r'
            × Held stream_id state' r'
      handle_bound decode bytes d end_stream state t r l h held =
          let state' = record state { buffer = state.buffer ++ d } in
          let r₁ = put_state stream_id state' r in
          let whole : Uploading stream_id a size path file_id (bytes ++ d) state' t r₁ =
            put_state-Uploading stream_id a size path file_id (bytes ++ d) state' state' t r
              (extended-Uploading stream_id a size path file_id bytes d state t r l h) in
          let longer : extended stream_id d r ≡ state' = extended-Held stream_id d state r held in
          (
            state',
            r₁,
            handle_named decode d end_stream r h.named h.admitted
                  (ap (λ (x : FileStreamState). x.lease) longer ∙ h.lease)
                ∙ ap
                    (λ (x : FileStreamState).
                      receive_bound env config writes now stream_id x end_stream
                        (put_state stream_id x r))
                    longer
                ∙ receive_found state' end_stream t r₁
                    (upload_transfer-found stream_id a size path file_id (bytes ++ d) state' t r₁
                      whole)
                    h.lease,
            whole,
            put_state-Held stream_id a size path file_id (bytes ++ d) state' r,
          )

      pub handle-Going :
          (decode : Bytes → Option String) (bytes d : Bytes) (r : Receiver)
          → length (bytes ++ d) ≤ size
          → Going stream_id a size path file_id bytes r
          → (r' : Receiver) × (handle_file_stream_data env config writes now decode stream_id d
                false r
              ≡ some r')
            × Going stream_id a size path file_id (bytes ++ d) r'
      handle-Going decode bytes d r l (state, t, h, held, b) =
          let (state', r₁, e, h', held') = handle_bound decode bytes d false state t r l h held in
          let (r', e', going) = transfer-Going (bytes ++ d) state' t r₁ h' held' in
          (r', e ∙ e', going)

      pub handle-ends :
          (decode : Bytes → Option String) (bytes d : Bytes) (r : Receiver)
          → length (bytes ++ d) ≤ size
          → Going stream_id a size path file_id bytes r
          → (r' : Receiver) × (handle_file_stream_data env config writes now decode stream_id d true
                r
              ≡ some r')
            × (content r'.disk path ≡ bytes ++ d)
            × Recorded stream_id a size path file_id (bytes ++ d) r'
            × (get same_stream stream_id r'.streams ≡ none)
      handle-ends decode bytes d r l (state, t, h, held, b) =
          let (state', r₁, e, h', held') = handle_bound decode bytes d true state t r l h held in
          let (r', e', whole, row, gone) = transfer-ends (bytes ++ d) state' t r₁ h' held' in
          (r', e ∙ e', whole, row, gone)

  -- The timer runs out, and the queue takes the flush.
  pub enqueue-Going :
      (bytes : Bytes) (r : Receiver)
      → Going stream_id a size path file_id bytes r
      → Going stream_id a size path file_id bytes (enqueue_flush accepted stream_id r).1
  enqueue-Going bytes r (state, t, h, held, b) =
      let state' = record state { flush_timer = false; flush_queued = true } in
      subst (Going stream_id a size path file_id bytes)
        (sym (enqueue-accepted stream_id state r held))
        (
          state',
          t,
          put_state-Uploading stream_id a size path file_id bytes state' state' t r
              (timed-Uploading stream_id a size path file_id bytes false true state t r h),
          put_state-Held stream_id a size path file_id bytes state' r,
          b,
        )

  pub run_flush-Going :
      (env : Env) (config : FaultConfig) (writes : ℕ → Write) (now : ℕ) (bytes : Bytes)
      (r : Receiver)
      → ((n : ℕ) → (writes n).failure ≡ none)
      → Going stream_id a size path file_id bytes r
      → (r' : Receiver) × (run_flush env config writes now stream_id r ≡ some r')
        × Going stream_id a size path file_id bytes r'
  unfolding run_flush
  run_flush-Going env config writes now bytes r works (state, t, h, held, b) =
      let state' = record state { flush_queued = false } in
      let (r', e, going) = Flushed-Going stream_id a size path file_id bytes true _ (
        flush_upload_buffer-Flushed stream_id a size path file_id bytes env writes works true state'
          t r
          (timed-Uploading stream_id a size path file_id bytes state.flush_timer false state t r
            h)) in
      rw (run_flush, held, h.running, e) (r', refl, going)
