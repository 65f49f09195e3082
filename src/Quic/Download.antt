-- ===== src/Quic/Download.antt =====
-- server/quic/download.py: the downloads of a connection. The connection is the transport's: its
-- state and its calls are a parameter. A coroutine stands at a place between two awaits; what other
-- tasks do meanwhile are steps of their own. `guard_empty_fin`, which changes a method of the
-- transport's, is the transport's too.
pub mod Turns
pub mod Steps
pub mod Keeps
pub mod Jobs
pub mod Content
pub mod Handed
pub mod Delivery
pub mod Budget
pub mod Limits
use mini_im.Prelude.{
  ℕ, suc, ◌+◌, ◌-◌, ◌*◌, ◌/◌, ◌%◌, String, Bool, true, false, ◌&&◌, ◌||◌, not, Option, none, some,
  List, [], ◌∷◌, ◌++◌, if◌then◌else◌, ◌=?◌, ◌==◌, ltb, leb, length, any, min, max,
}
use mini_im.Protocol.{Bytes}
use mini_im.Text.{encode}
use mini_im.Storage.Sql.{is_some}
use mini_im.Quic.Dict.{get, put, remove, values}

abbrev pub chunk_size : ℕ
chunk_size = 65536

abbrev pub stream_buffer_limit : ℕ
stream_buffer_limit = 131072

abbrev pub max_downloads : ℕ
max_downloads = 8

-- What `AioquicSendBuffer` reads of the sender of a stream.
pub record Sender : Type 0 where
  pub buffer : Bytes
  pub is_finished : Bool
  pub reset_error_code : Option ℕ

-- The calls of the transport. `streams` finds the sender of a stream.
pub record Transport (Q : Type 0) : Type 0 where
  pub streams : Q → ℕ → Option Sender
  pub get_next_available_stream_id : Q → ℕ
  pub send_stream_data : ℕ → Bytes → Bool → Q → Q
  pub reset_stream : ℕ → ℕ → Q → Q
  pub transmit : Q → Q

pub record DownloadJob : Type 0 where
  pub stream_id : ℕ
  pub file_id : String
  pub path : String
  pub offset : ℕ
  pub size : ℕ
  pub priority : ℕ
  pub eof : Bool

-- Where the task of the scheduler stands: it has not begun or sleeps, it waits for a change, it
-- reads for a job (with the arguments of `ReadChunk`, the jobs left in the turn and `progressed`),
-- or it is done.
pub data Place : Type 0 where
  ready : Place
  waiting : Place
  reading :
      (stream_id : ℕ) (path : String) (offset size : ℕ) (rest : List ℕ) (progressed : Bool) → Place
  stopped : Place

pub record DownloadScheduler (Q : Type 0) : Type 0 where
  pub quic : Q
  pub jobs : List (ℕ × DownloadJob)
  pub changed : Bool
  pub task : Place
  pub closed : Bool
  pub peak_pending_bytes : ℕ

unfoldable pub new_scheduler : {Q : Type 0} → Q → DownloadScheduler Q
new_scheduler quic = record {
  quic = quic;
  jobs = [];
  changed = false;
  task = stopped;
  closed = false;
  peak_pending_bytes = 0;
}

abbrev pub same_stream : ℕ → ℕ → Bool
same_stream a b = a == b

unfoldable pub header : String → Bytes
header file_id = encode "MINIIMFILE1 " ++ encode file_id ++ (10 ∷ [])

module _ {Q : Type 0} (transport : Transport Q) where
  -- The methods of `AioquicSendBuffer`.
  unfoldable pub pending_bytes : Q → ℕ → ℕ
  pending_bytes quic stream_id = elim (transport.streams quic stream_id) [
    | none ↦ 0
    | some sender ↦ length sender.buffer
  ]

  unfoldable pub finished : Q → ℕ → Bool
  finished quic stream_id = elim (transport.streams quic stream_id) [
    | none ↦ true
    | some sender ↦ sender.is_finished
  ]

  unfoldable pub reset_requested : Q → ℕ → Bool
  reset_requested quic stream_id = elim (transport.streams quic stream_id) [
    | none ↦ false
    | some sender ↦ is_some sender.reset_error_code
  ]

  -- `protocol.transmit()`, which also notifies the scheduler.
  unfoldable pub transmit_all : DownloadScheduler Q → DownloadScheduler Q
  transmit_all s = record s { quic = transport.transmit s.quic; changed = true }

  -- `sum(self.buffer.pending_bytes(stream_id) for stream_id in self.jobs)`
  unfoldable pub total_pending : Q → List (ℕ × DownloadJob) → ℕ
  unfolding pending_bytes
  total_pending quic [] = 0
  total_pending quic ((stream_id, job) ∷ jobs) =
      pending_bytes quic stream_id + total_pending quic jobs

  unfoldable pub measure : DownloadScheduler Q → DownloadScheduler Q
  unfolding total_pending
  measure s = record s {
    peak_pending_bytes = max s.peak_pending_bytes (total_pending s.quic s.jobs);
  }

  unfoldable pub can_accept : DownloadScheduler Q → Bool
  can_accept s = not s.closed && ltb (length s.jobs) max_downloads

  unfoldable pub is_stopped : Place → Bool
  is_stopped ready = false
  is_stopped waiting = false
  is_stopped (reading stream_id path offset size rest progressed) = false
  is_stopped stopped = true

  -- What `start` does when it raises no error, up to `transmit`.
  unfoldable pub enter : String → String → ℕ → ℕ → ℕ → DownloadScheduler Q → DownloadScheduler Q
  unfolding header put is_stopped
  enter file_id path size offset priority s =
      let stream_id = transport.get_next_available_stream_id s.quic in
      let job : DownloadJob = record {
        stream_id = stream_id;
        file_id = file_id;
        path = path;
        offset = offset;
        size = size;
        priority = priority;
        eof = false;
      } in
      record s {
        quic = transport.send_stream_data stream_id (header file_id) false s.quic;
        jobs = put same_stream stream_id job s.jobs;
        task = if is_stopped s.task then ready else s.task;
      }

  -- The text is that of the `ValueError`, if one is raised.
  unfoldable pub start :
      String → String → ℕ → ℕ → ℕ → DownloadScheduler Q → Option String × DownloadScheduler Q
  unfolding any values can_accept header enter transmit_all
  start file_id path size offset priority s =
      if any (λ job. job.file_id =? file_id) (values same_stream s.jobs)
      then (none, s)
      else if not (can_accept s)
      then (some "download queue is full", s)
      else if size == 0 || ltb size offset
      then (some "invalid download offset or size", s)
      else if ltb 512 (length (header file_id))
      then (some "invalid download file id", s)
      else (none, transmit_all (enter file_id path size offset priority s))

  -- The loop of `cancel`.
  unfoldable pub cancel_jobs : String → List (ℕ × DownloadJob) → Q → Q
  cancel_jobs file_id [] quic = quic
  cancel_jobs file_id ((stream_id, job) ∷ jobs) quic =
      cancel_jobs file_id jobs
        (if job.file_id =? file_id then transport.reset_stream stream_id 0x1005 quic else quic)

  unfoldable pub end_jobs : String → List (ℕ × DownloadJob) → List (ℕ × DownloadJob)
  end_jobs file_id [] = []
  end_jobs file_id ((stream_id, job) ∷ jobs) =
      (stream_id, if job.file_id =? file_id then record job { eof = true } else job)
      ∷ end_jobs file_id jobs

  unfoldable pub cancel : String → DownloadScheduler Q → DownloadScheduler Q
  unfolding cancel_jobs end_jobs transmit_all
  cancel file_id s =
      transmit_all
        (record s { quic = cancel_jobs file_id s.jobs s.quic; jobs = end_jobs file_id s.jobs })

  unfoldable pub notify : DownloadScheduler Q → DownloadScheduler Q
  notify s = record s { changed = true }

  unfoldable pub close : DownloadScheduler Q → DownloadScheduler Q
  unfolding notify
  close s = notify (record s { closed = true })
