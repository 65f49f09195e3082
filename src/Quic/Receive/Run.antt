-- ===== src/Quic/Receive/Run.antt =====
-- server/quic/server.py: the life of an upload stream, as a sequence of what happens to it.
use mini_im.Prelude.{
  ℕ, zero, suc, ◌≤◌, ◌<◌, ◌≡◌, refl, sym, ap, ◌∙◌, String, true, false, Option, none, some, List,
  [], ◌∷◌, ◌++◌, arith, length, length-append,
}
use mathlib.Core.Path.{subst}
use mathlib.Core.List.{append_assoc, append-nil}
use mini_im.Protocol.{Bytes}
use mini_im.Storage.Db.{Env}
use mini_im.Storage.FileRepo.{StoredFileTransfer, get_transfer_by_file_id}
use mini_im.Services.File.Chunks.{content}
use mini_im.Quic.Dict.{get}
use mini_im.Quic.Receive.{FileStreamState, Receiver, Write, same_stream}
use mini_im.Quic.Receive.Handle.{
  FaultConfig, fault, accepted, enqueue_flush, handle_file_stream_data, run_flush,
}
use mini_im.Quic.Receive.Open.{Headed, Granted, open-Going}
use mini_im.Quic.Receive.Going.{Going}
use mini_im.Quic.Receive.Whole.{handle-Going, handle-ends, enqueue-Going, run_flush-Going}

-- What happens to a stream before its end: data arrives, its timer runs out and the queue takes the
-- flush, or the queue runs the flush.
pub data Event : Type 0 where
  arrived : Bytes → Event
  expired : Event
  flushed : Event

-- The bytes that arrive.
unfoldable pub arrivals : List Event → Bytes
arrivals [] = []
arrivals (arrived d ∷ events) = d ++ arrivals events
arrivals (expired ∷ events) = arrivals events
arrivals (flushed ∷ events) = arrivals events

quiet_lem :
    (config : FaultConfig)
    → config.file_drop_after_bytes ≡ 0
    → config.random_drop ≡ false
    → (n : ℕ) → fault config n ≡ none
unfolding fault
quiet_lem config none_ no_drop n = rw (fault, none_, no_drop) refl

module _ (env : Env) (config : FaultConfig) (decode : Bytes → Option String) (stream_id : ℕ) where
  -- `writes` and `clock` are by the number of events that are left.
  module _ (writes : ℕ → ℕ → Write) (clock : ℕ → ℕ) where
    unfoldable pub happen : Event → ℕ → Receiver → Option Receiver
    unfolding handle_file_stream_data enqueue_flush run_flush
    happen (arrived d) left r =
        handle_file_stream_data env config (writes left) (clock left) decode stream_id d false r
    happen expired left r = some (enqueue_flush accepted stream_id r).1
    happen flushed left r = run_flush env config (writes left) (clock left) stream_id r

    unfoldable pub run : List Event → Receiver → Option Receiver
    unfolding happen
    run [] r = some r
    run (event ∷ events) r = elim (happen event (suc (length events)) r) [
      | none ↦ none
      | some r' ↦ run events r'
    ]

    module _ (a size : ℕ) (path file_id : String) where
      run-Going :
          (quiet : (n : ℕ) → fault config n ≡ none)
          (works : (k n : ℕ) → (writes k n).failure ≡ none) (events : List Event) (bytes : Bytes)
          (r : Receiver)
          → length (bytes ++ arrivals events) ≤ size
          → Going stream_id a size path file_id bytes r
          → (r' : Receiver) × (run events r ≡ some r')
            × Going stream_id a size path file_id (bytes ++ arrivals events) r'
      unfolding run happen arrivals
      run-Going quiet works [] bytes r l h = (
        r,
        refl,
        subst (λ (x : Bytes). Going stream_id a size path file_id x r) (sym (append-nil bytes)) h,
      )
      run-Going quiet works (arrived d ∷ events) bytes r l h =
          let left = suc (length events) in
          let whole = append_assoc bytes d (arrivals events) in
          let l' : length ((bytes ++ d) ++ arrivals events) ≤ size =
            subst (λ (x : Bytes). length x ≤ size) (sym whole) l in
          let first : length (bytes ++ d) ≤ size =
            omega (arith, l', length-append (bytes ++ d) (arrivals events)) in
          let (r₁, e, h₁) =
            handle-Going stream_id a size path file_id env config quiet (writes left) (clock left)
              (works left) decode bytes d r first h in
          let (r', e', h') = run-Going quiet works events (bytes ++ d) r₁ l' h₁ in
          rw (run, e)
            (r', e', subst (λ (x : Bytes). Going stream_id a size path file_id x r') whole h')
      run-Going quiet works (expired ∷ events) bytes r l h =
          run-Going quiet works events bytes _ l
            (enqueue-Going stream_id a size path file_id bytes r h)
      run-Going quiet works (flushed ∷ events) bytes r l h =
          let left = suc (length events) in
          let (r₁, e, h₁) =
            run_flush-Going stream_id a size path file_id env config (writes left) (clock left)
              bytes r (works left) h in
          let (r', e', h') = run-Going quiet works events bytes r₁ l h₁ in rw (run, e) (r', e', h')

    -- In a consistent registry a connection, which has a user and is neither closed nor failed, has the
    -- lease of an upload of its user that accepts bytes, at the number of bytes that are on the disk
    -- and on record; its stream is new and was not rejected. The first data of the stream is a header
    -- of at most 512 bytes that names the file and this number, and `rest`; then data arrives, the
    -- timer runs out and the queue runs the flush, in any order and any number of times, and the
    -- stream ends with `last`. If no write fails, no fault is injected and the bytes fit in the file,
    -- then no call raises an error, less than 65536 bytes wait in the buffer before the end, and at
    -- the end the file holds what it held before, `rest`, the data that arrived in its order, and
    -- `last`, the upload on record has as many bytes, and the stream has no state.
    pub upload-Whole :
        (a : ℕ) (file_id : String) (t : StoredFileTransfer) (sent rest last : Bytes)
        (events : List Event) (r : Receiver)
        → config.file_drop_after_bytes ≡ 0
        → config.random_drop ≡ false
        → ((k n : ℕ) → (writes k n).failure ≡ none)
        → Headed decode file_id t.received_bytes sent rest
        → Granted stream_id a file_id t r
        → length (content r.disk t.storage_path ++ (rest ++ (arrivals events ++ last)))
          ≤ t.file_size
        → (waiting ended : Receiver) × (state : FileStreamState) × (run (arrived sent ∷ events) r
            ≡ some waiting)
          × (get same_stream stream_id waiting.streams ≡ some state)
          × (length state.buffer < 65536)
          × (handle_file_stream_data env config
                (writes zero)
                (clock zero)
                decode
                stream_id
                last
                true
                waiting
              ≡ some ended)
          × (content ended.disk t.storage_path
              ≡ content r.disk t.storage_path ++ (rest ++ (arrivals events ++ last)))
          × (row : StoredFileTransfer) × (get_transfer_by_file_id ended.db file_id ≡ some row)
          × (row.received_bytes
              ≡ length (content r.disk t.storage_path ++ (rest ++ (arrivals events ++ last))))
          × (get same_stream stream_id ended.streams ≡ none)
    unfolding run happen
    upload-Whole a file_id t sent rest last events r none_ no_drop works head h l =
        let quiet = quiet_lem config none_ no_drop in
        let path = t.storage_path in
        let bytes = content r.disk path ++ rest in
        let whole : (bytes ++ arrivals events) ++ last
            ≡ content r.disk path ++ (rest ++ (arrivals events ++ last)) =
          append_assoc bytes (arrivals events) last
          ∙ append_assoc (content r.disk path) rest (arrivals events ++ last) in
        let l' : length ((bytes ++ arrivals events) ++ last) ≤ t.file_size =
          subst (λ (x : Bytes). length x ≤ t.file_size) (sym whole) l in
        let l₁ : length (bytes ++ arrivals events) ≤ t.file_size =
          omega (arith, l', length-append (bytes ++ arrivals events) last) in
        let l₀ : length bytes ≤ t.file_size =
          omega (arith, l₁, length-append bytes (arrivals events)) in
        let left = suc (length events) in
        let (r₀, e₀, h₀) =
          open-Going decode (clock left) stream_id a file_id sent rest env config (writes left) t r
            quiet (works left) head h l₀ in
        let (r₁, e₁, (state, t₁, up, held, less)) =
          run-Going a t.file_size path file_id quiet works events bytes r₀ l₁ h₀ in
        let (r₂, e₂, there, (row, found, count), gone) =
          handle-ends stream_id a t.file_size path file_id env config quiet (writes zero)
            (clock zero) (works zero) decode (bytes ++ arrivals events) last r₁ l'
            (state, t₁, up, held, less) in
        (
          r₁,
          r₂,
          state,
          rw (run, e₀) e₁,
          held,
          less,
          e₂,
          there ∙ whole,
          row,
          found,
          count ∙ ap length whole,
          gone,
        )
