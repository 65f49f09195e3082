-- ===== src/Quic/Download/Keeps/Calls.antt =====
-- server/quic/download.py: every step of the scheduler keeps what its parts keep.
use mini_im.Prelude.{
  ℕ, ◌≤◌, ◌<◌, refl, inl, inr, String, false, ◌&&◌, ◌||◌, not, List, [], ◌∷◌, arith, if◌then◌else◌,
  ◌=?◌, ◌==◌, ltb, length, any, Bool-cases,
}
use mini_im.Protocol.{Bytes}
use mini_im.Quic.Dict.{put, values}
use mini_im.Quic.Download.{
  Transport, DownloadJob, DownloadScheduler, Place, ready, waiting, reading, stopped, same_stream,
  transmit_all, can_accept, header, enter, start, cancel_jobs, end_jobs, cancel, notify, close,
  is_stopped,
}
use mini_im.Quic.Download.Turns.{Files, resume}
use mini_im.Quic.Download.Steps.{Step, started, cancelled, notified, closed, received, resumed}
-- `P` is the invariant and `O` what holds where the task stands; the others are those of the steps.
use mini_im.Quic.Download.Keeps.{Invariant, Kept, KeptAt}
use mini_im.Quic.Download.Keeps.Turns.{resume_at-HoldsAt}

module _ {Q : Type 0} (transport : Transport Q) (P : Q → List (ℕ × DownloadJob) → ℕ → Type 0)
    (O : Q → List (ℕ × DownloadJob) → Place → Type 0) (Moves : Q → Q → Type 0)
    (Sees : Files → Type 0) (Calls : String → String → ℕ → ℕ → ℕ → Type 0) where
  abbrev Holds : DownloadScheduler Q → Type 0
  Holds s = Kept transport P O Moves Sees Calls s

  abbrev HoldsAt : DownloadScheduler Q → Type 0
  HoldsAt s = KeptAt transport P O Moves Sees Calls s

  module _ (laws : Invariant transport P O Moves Sees Calls) where
    transmit_all-HoldsAt :
        (s : DownloadScheduler Q) → HoldsAt s → HoldsAt (transmit_all transport s)
    unfolding transmit_all
    transmit_all-HoldsAt s h =
        let q = transport.transmit s.quic in
        (
          laws.moved s.quic q s.jobs s.peak_pending_bytes (laws.transmits s.quic) h.0,
          laws.moved_place s.quic q s.jobs s.task (laws.transmits s.quic) h.1,
        )

    entered_at :
        (q : Q) (jobs : List (ℕ × DownloadJob)) (peak : ℕ) (d : Bytes) (job : DownloadJob)
        (place : Place)
        → P q jobs peak
        → O q jobs place
        → O
            (transport.send_stream_data (transport.get_next_available_stream_id q) d false q)
            (put same_stream (transport.get_next_available_stream_id q) job jobs)
            (if is_stopped transport place then ready else place)
    unfolding is_stopped
    entered_at q jobs peak d job ready h o = laws.at_ready _ _
    entered_at q jobs peak d job waiting h o = laws.at_waiting _ _
    entered_at q jobs peak d job stopped h o = laws.at_ready _ _
    entered_at q jobs peak d job (reading id path offset size ids progressed) h o =
        laws.entered_place q jobs peak id path offset size ids progressed d job h o

    enter-HoldsAt :
        (file_id path : String) (size offset priority : ℕ) (s : DownloadScheduler Q)
        → Calls file_id path size offset priority
        → length s.jobs < 8
        → offset ≤ size
        → length (header file_id) ≤ 512
        → HoldsAt s
        → HoldsAt (enter transport file_id path size offset priority s)
    unfolding enter
    enter-HoldsAt file_id path size offset priority s call few le short h = (
      laws.entered s.quic s.jobs s.peak_pending_bytes _ call refl le refl few short h.0,
      entered_at s.quic s.jobs s.peak_pending_bytes (header file_id) _ s.task h.0 h.1,
    )

    start-HoldsAt :
        (file_id path : String) (size offset priority : ℕ) (s : DownloadScheduler Q)
        → Calls file_id path size offset priority
        → HoldsAt s
        → HoldsAt (start transport file_id path size offset priority s).1
    unfolding start can_accept
    start-HoldsAt file_id path size offset priority s call h =
        elim (Bool-cases (any (λ job. job.file_id =? file_id) (values same_stream s.jobs))) [
          | inl known ↦ rw known h
          | inr new ↦ rw new (elim (Bool-cases (not s.closed && ltb (length s.jobs) 8)) [
            | inr full ↦ rw full h
            | inl room ↦ rw room (elim (Bool-cases (size == 0 || ltb size offset)) [
              | inl bad ↦ rw bad h
              | inr good ↦ rw good (elim (Bool-cases (ltb 512 (length (header file_id)))) [
                | inl long ↦ rw long h
                | inr short ↦ rw short (
                    transmit_all-HoldsAt (enter transport file_id path size offset priority s) (
                      enter-HoldsAt file_id path size offset priority s call (ground arith)
                        (ground arith) (ground arith) h))
              ])
            ])
          ])
        ]

    reset_all :
        (file_id : String) (ids jobs : List (ℕ × DownloadJob)) (place : Place) (peak : ℕ) (q : Q)
        → P q jobs peak × O q jobs place
        → P (cancel_jobs transport file_id ids q) jobs peak
          × O (cancel_jobs transport file_id ids q) jobs place
    unfolding cancel_jobs
    reset_all file_id [] jobs place peak q h = h
    reset_all file_id ((id, job) ∷ ids) jobs place peak q h =
        elim (Bool-cases (job.file_id =? file_id)) [
          | inl e ↦
              let q' = transport.reset_stream id 0x1005 q in
              let m = laws.resets id 0x1005 q in
              rw e (
                reset_all file_id ids jobs place peak q'
                  (laws.moved q q' jobs peak m h.0, laws.moved_place q q' jobs place m h.1))
          | inr n ↦ rw n (reset_all file_id ids jobs place peak q h)
        ]

    cancel-HoldsAt :
        (file_id : String) (s : DownloadScheduler Q)
        → HoldsAt s
        → HoldsAt (cancel transport file_id s)
    unfolding cancel
    cancel-HoldsAt file_id s h =
        let q = cancel_jobs transport file_id s.jobs s.quic in
        let r = reset_all file_id s.jobs s.jobs s.task s.peak_pending_bytes s.quic h in
        transmit_all-HoldsAt (record s { quic = q; jobs = end_jobs transport file_id s.jobs })
          (
            laws.ended_jobs q s.jobs s.peak_pending_bytes file_id r.0,
            laws.ended_place q s.jobs s.task file_id r.1,
          )

    pub Step-HoldsAt :
        (s t : DownloadScheduler Q) → Step transport Moves Sees Calls s t → HoldsAt s → HoldsAt t
    unfolding notify close resume
    Step-HoldsAt s _ (started file_id path size offset priority call) h =
        start-HoldsAt file_id path size offset priority s call h
    Step-HoldsAt s _ (cancelled file_id) h = cancel-HoldsAt file_id s h
    Step-HoldsAt s _ notified h = h
    Step-HoldsAt s _ closed h = h
    Step-HoldsAt s _ (received quic m) h = (
      laws.moved s.quic quic s.jobs s.peak_pending_bytes m h.0,
      laws.moved_place s.quic quic s.jobs s.task m h.1,
    )
    Step-HoldsAt s _ (resumed files r) h =
        resume_at-HoldsAt transport P O Moves Sees Calls laws s.task files s r h.1 h
