-- ===== src/Quic/Download/Turns.antt =====
-- server/quic/download.py: the task that reads the files and sends them.
use mini_im.Prelude.{
  ℕ, ◌+◌, ◌-◌, String, Option, take, drop, Bool, true, false, ◌&&◌, ◌||◌, not, none, some, List, [],
  ◌∷◌, if◌then◌else◌, ◌==◌, ltb, leb, length, min,
}
use mini_im.Protocol.{Bytes}
use mini_im.Quic.Dict.{get, remove, values}
use mini_im.Quic.Download.{
  Transport, DownloadJob, DownloadScheduler, Place, ready, waiting, reading, stopped, chunk_size,
  stream_buffer_limit, same_stream, pending_bytes, finished, reset_requested, transmit_all, measure,
}

-- `sorted(..., key=-priority)`, which is stable.
unfoldable pub insert_job : DownloadJob → List DownloadJob → List DownloadJob
insert_job job [] = job ∷ []
insert_job job (other ∷ jobs) =
    let rest = insert_job job jobs in
    if ltb job.priority other.priority then other ∷ rest else job ∷ other ∷ jobs

unfoldable pub by_priority : List DownloadJob → List DownloadJob
unfolding insert_job
by_priority [] = []
by_priority (job ∷ jobs) = insert_job job (by_priority jobs)

unfoldable pub is_empty : List (ℕ × DownloadJob) → Bool
is_empty [] = true
is_empty (item ∷ jobs) = false

-- The result of `ReadChunk`: the bytes, or an `OSError`.
pub data Chunk : Type 0 where
  chunk : Bytes → Chunk
  os_error : Chunk

-- The files when the worker reads: what `path.open("rb")` gives access to, or none where opening,
-- seeking or reading raises an `OSError`.
abbrev pub Files : Type 0
Files = String → Option Bytes

-- `ReadChunk`: at most `size` bytes of the file from the offset on.
unfoldable pub read_chunk : Files → String → ℕ → ℕ → Chunk
read_chunk files path offset size = elim (files path) [
  | none ↦ os_error
  | some content ↦ chunk (take size (drop offset content))
]

module _ {Q : Type 0} (transport : Transport Q) where
  -- The end of the loop; `finally` clears the jobs of a closed scheduler.
  unfoldable pub stop : DownloadScheduler Q → DownloadScheduler Q
  stop s = record s { task = stopped; jobs = if s.closed then [] else s.jobs }

  -- What follows a turn.
  unfoldable pub end_turn : Bool → DownloadScheduler Q → DownloadScheduler Q
  unfolding is_empty stop
  end_turn progressed s =
      if progressed
      then record s { task = ready }
      else if not (is_empty s.jobs) && not s.closed
      then record s { task = waiting }
      else stop s

  abbrev pub read_size : Q → ℕ → ℕ
  read_size quic stream_id =
      min chunk_size (stream_buffer_limit - pending_bytes transport quic stream_id)

  -- The rest of a turn, up to the next read. A job is put under a new stream only, so the job under
  -- a stream is the one that the turn began with.
  unfoldable pub visit : List ℕ → Bool → DownloadScheduler Q → DownloadScheduler Q
  unfolding end_turn pending_bytes finished reset_requested get remove
  visit [] progressed s = end_turn progressed s
  visit (stream_id ∷ rest) progressed s =
      let skip = visit rest progressed s in
      let popped = visit rest true (record s { jobs = remove same_stream stream_id s.jobs }) in
      if s.closed then end_turn progressed s else elim (get same_stream stream_id s.jobs) [
        | none ↦ skip
        | some job ↦
            if finished transport s.quic stream_id
            then popped
            else if job.eof || reset_requested transport s.quic stream_id
            then skip
            else if leb stream_buffer_limit (pending_bytes transport s.quic stream_id)
            then skip
            else record s {
              task =
                  reading stream_id job.path job.offset (read_size s.quic stream_id) rest
                    progressed;
            }
      ]

  unfoldable pub stream_ids : List DownloadJob → List ℕ
  stream_ids [] = []
  stream_ids (job ∷ jobs) = job.stream_id ∷ stream_ids jobs

  -- One round of the loop, from its condition.
  unfoldable pub turn : DownloadScheduler Q → DownloadScheduler Q
  unfolding is_empty by_priority visit stop values stream_ids
  turn s =
      if not (is_empty s.jobs) && not s.closed
      then visit (stream_ids (by_priority (values same_stream s.jobs))) false
          (record s { changed = false })
      else stop s

  -- An assignment to fields of the job of a stream.
  unfoldable pub assign :
      ℕ → (DownloadJob → DownloadJob) → List (ℕ × DownloadJob) → List (ℕ × DownloadJob)
  assign stream_id f [] = []
  assign stream_id f ((k, job) ∷ jobs) =
      (k, if k == stream_id then f job else job) ∷ assign stream_id f jobs

  -- The rest of the turn after a chunk was sent or a download failed.
  unfoldable pub account : List ℕ → DownloadScheduler Q → DownloadScheduler Q
  unfolding measure transmit_all visit
  account rest s = visit rest true (transmit_all transport (measure transport s))

  unfoldable pub fail : ℕ → DownloadScheduler Q → DownloadScheduler Q
  unfolding assign
  fail stream_id s = record s {
    quic = transport.reset_stream stream_id 0x1004 s.quic;
    jobs = assign stream_id (λ job. record job { eof = true }) s.jobs;
  }

  -- What is sent of a job; a source that ends early or late is a failure.
  unfoldable pub send_chunk : DownloadJob → ℕ → Bytes → DownloadScheduler Q → DownloadScheduler Q
  unfolding assign fail
  send_chunk job stream_id data_ s =
      let ended = length data_ == 0 in
      if (ended && not (job.offset == job.size)) || ltb job.size (job.offset + length data_)
      then fail stream_id s
      else record s {
        quic = transport.send_stream_data stream_id data_ ended s.quic;
        jobs =
            assign stream_id
              (λ held. record held { offset = held.offset + length data_; eof = ended }) s.jobs;
      }

  -- The rest of the turn when the read for a stream is done.
  unfoldable pub read_done : ℕ → List ℕ → Bool → Chunk → DownloadScheduler Q → DownloadScheduler Q
  unfolding account fail send_chunk visit end_turn finished reset_requested get
  read_done stream_id rest progressed os_error s = account rest (fail stream_id s)
  read_done stream_id rest progressed (chunk data_) s =
      if s.closed then end_turn progressed s else elim (get same_stream stream_id s.jobs) [
        | none ↦ visit rest progressed s
        | some job ↦
            if reset_requested transport s.quic stream_id || finished transport s.quic stream_id
            then visit rest progressed s
            else account rest (send_chunk job stream_id data_ s)
      ]

  -- `_run`, from where it stands to its next await; `files` are those that the read sees, if it
  -- stands at one.
  unfoldable pub resume_at : Place → Files → DownloadScheduler Q → DownloadScheduler Q
  unfolding turn read_done read_chunk
  resume_at ready files s = turn s
  resume_at waiting files s = if s.changed then turn s else s
  resume_at (reading stream_id path offset size rest progressed) files s =
      read_done stream_id rest progressed (read_chunk files path offset size) s
  resume_at stopped files s = s

  unfoldable pub resume : Files → DownloadScheduler Q → DownloadScheduler Q
  unfolding resume_at
  resume files s = resume_at s.task files s
