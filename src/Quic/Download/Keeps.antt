-- ===== src/Quic/Download/Keeps.antt =====
-- server/quic/download.py: what an invariant of the scheduler has to satisfy so that every step keeps
-- it.
pub mod Turns
pub mod Calls
use mini_im.Prelude.{
  ℕ, ◌+◌, ◌≤◌, ◌<◌, ◌≡◌, refl, inl, inr, String, Bool, true, false, ◌&&◌, ◌||◌, not, some, List, [],
  ◌∷◌, arith, if◌then◌else◌, ◌=?◌, ◌==◌, ltb, leb, length, max, any, take, drop, Bool-cases,
  Option-cases,
}
use mini_im.Protocol.{Bytes}
use mini_im.Quic.Dict.{get, put, remove, values}
use mini_im.Quic.Download.{
  Transport, DownloadJob, DownloadScheduler, Place, ready, waiting, reading, stopped, same_stream,
  pending_bytes, finished, reset_requested, transmit_all, total_pending, measure, can_accept,
  header, enter, start, cancel_jobs, end_jobs, cancel, notify, close, is_stopped,
}
use mini_im.Quic.Download.Turns.{
  Chunk, Files, chunk, os_error, is_empty, by_priority, stream_ids, read_size, stop, end_turn,
  visit, turn, assign, account, fail, send_chunk, read_done, resume_at, resume,
}
use mini_im.Quic.Download.Steps.{Step, started, cancelled, notified, closed, received, resumed}

-- `P` is the invariant and `O` what holds where the task stands; the others are those of the steps.
module _ {Q : Type 0} (transport : Transport Q) (P : Q → List (ℕ × DownloadJob) → ℕ → Type 0)
    (O : Q → List (ℕ × DownloadJob) → Place → Type 0) (Moves : Q → Q → Type 0)
    (Sees : Files → Type 0) (Calls : String → String → ℕ → ℕ → ℕ → Type 0) where
  pub record Invariant : Type 0 where
    pub at_ready : (q : Q) (jobs : List (ℕ × DownloadJob)) → O q jobs ready
    pub at_waiting : (q : Q) (jobs : List (ℕ × DownloadJob)) → O q jobs waiting
    pub at_stopped : (q : Q) (jobs : List (ℕ × DownloadJob)) → O q jobs stopped
    pub emptied : (q : Q) (jobs : List (ℕ × DownloadJob)) (peak : ℕ) → P q jobs peak → P q [] peak
    pub popped :
        (q : Q) (jobs : List (ℕ × DownloadJob)) (peak id : ℕ)
        → P q jobs peak
        → P q (remove same_stream id jobs) peak
    pub opened :
        (q : Q) (jobs : List (ℕ × DownloadJob)) (peak id : ℕ) (job : DownloadJob) (rest : List ℕ)
        (progressed : Bool)
        → P q jobs peak
        → get same_stream id jobs ≡ some job
        → job.eof ≡ false
        → leb 131072 (pending_bytes transport q id) ≡ false
        → O q jobs (reading id job.path job.offset (read_size transport q id) rest progressed)
    pub moved :
        (q q' : Q) (jobs : List (ℕ × DownloadJob)) (peak : ℕ)
        → Moves q q'
        → P q jobs peak
        → P q' jobs peak
    pub moved_place :
        (q q' : Q) (jobs : List (ℕ × DownloadJob)) (place : Place)
        → Moves q q'
        → O q jobs place
        → O q' jobs place
    pub transmits : (q : Q) → Moves q (transport.transmit q)
    pub resets : (id code : ℕ) (q : Q) → Moves q (transport.reset_stream id code q)
    pub measured :
        (q : Q) (jobs : List (ℕ × DownloadJob)) (peak : ℕ)
        → P q jobs peak
        → P q jobs (max peak (total_pending transport q jobs))
    pub failed :
        (q : Q) (jobs : List (ℕ × DownloadJob)) (peak id : ℕ)
        → P q jobs peak
        → P q (assign transport id (λ job. record job { eof = true }) jobs) peak
    pub ended_jobs :
        (q : Q) (jobs : List (ℕ × DownloadJob)) (peak : ℕ) (file_id : String)
        → P q jobs peak
        → P q (end_jobs transport file_id jobs) peak
    pub ended_place :
        (q : Q) (jobs : List (ℕ × DownloadJob)) (place : Place) (file_id : String)
        → O q jobs place
        → O q (end_jobs transport file_id jobs) place
    pub sent :
        (q : Q) (jobs : List (ℕ × DownloadJob)) (peak id : ℕ) (path : String) (offset size : ℕ)
        (rest : List ℕ) (progressed : Bool) (files : Files) (content d : Bytes) (job : DownloadJob)
        → P q jobs peak
        → O q jobs (reading id path offset size rest progressed)
        → Sees files
        → files path ≡ some content
        → d ≡ take size (drop offset content)
        → get same_stream id jobs ≡ some job
        → (((length d == 0) && not (job.offset == job.size))
            || ltb job.size (job.offset + length d))
          ≡ false
        → P
            (transport.send_stream_data id d (length d == 0) q)
            (assign transport id
              (λ held. record held { offset = held.offset + length d; eof = length d == 0 })
              jobs)
            peak
    pub entered :
        (q : Q) (jobs : List (ℕ × DownloadJob)) (peak : ℕ) (job : DownloadJob)
        → Calls job.file_id job.path job.size job.offset job.priority
        → job.stream_id ≡ transport.get_next_available_stream_id q
        → job.offset ≤ job.size
        → job.eof ≡ false
        → length jobs < 8
        → length (header job.file_id) ≤ 512
        → P q jobs peak
        → P
            (transport.send_stream_data
              (transport.get_next_available_stream_id q)
              (header job.file_id)
              false
              q)
            (put same_stream (transport.get_next_available_stream_id q) job jobs)
            peak
    pub entered_place :
        (q : Q) (jobs : List (ℕ × DownloadJob)) (peak id : ℕ) (path : String) (offset size : ℕ)
        (rest : List ℕ) (progressed : Bool) (d : Bytes) (job : DownloadJob)
        → P q jobs peak
        → O q jobs (reading id path offset size rest progressed)
        → O
            (transport.send_stream_data (transport.get_next_available_stream_id q) d false q)
            (put same_stream (transport.get_next_available_stream_id q) job jobs)
            (reading id path offset size rest progressed)

  abbrev pub Kept : DownloadScheduler Q → Type 0
  Kept s = P s.quic s.jobs s.peak_pending_bytes

  abbrev pub KeptAt : DownloadScheduler Q → Type 0
  KeptAt s = Kept s × O s.quic s.jobs s.task
