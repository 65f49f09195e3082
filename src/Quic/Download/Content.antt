-- ===== src/Quic/Download/Content.antt =====
-- server/quic/download.py: what is handed to the streams of the downloads, and when they end.
use mathlib.Core.Path.{subst}
use mini_im.Prelude.{
  ℕ, ◌-◌, ◌≤◌, ◌≡◌, refl, sym, ap, ◌∙◌, ◌⊎◌, inl, inr, String, Bool, true, false, ◌||◌, none, some,
  List, [], ◌++◌, if◌then◌else◌, ◌=?◌, ◌==◌, take, drop, Bool-cases, Option-cases,
}
use mini_im.Protocol.{Bytes}
use mini_im.Quic.Upload.Consistent.{same_number, some_injective}
use mini_im.Quic.Dict.{get, remove, get-remove, get-remove_other}
use mini_im.Quic.Download.{
  Transport, DownloadJob, DownloadScheduler, Place, ready, waiting, reading, stopped, same_stream,
  header, end_jobs,
}
use mini_im.Quic.Download.Turns.{Files, assign}
use mini_im.Quic.Download.Jobs.{
  none-some, same_stream_sound, same_stream_refl, get-assign_other, get-assign_same,
  get-assign-none, get-end_jobs, get-end_jobs-none,
}

module _ {Q : Type 0} (transport : Transport Q) (written : Q → ℕ → Bytes) (ended : Q → ℕ → Bool)
    (source : String → Bytes) (Calls : String → String → ℕ → ℕ → ℕ → Type 0) where
  -- What was handed to the streams stays.
  abbrev pub Quiet : Q → Q → Type 0
  Quiet quic quic' =
      (id : ℕ) → (written quic' id ≡ written quic id) × (ended quic' id ≡ ended quic id)

  -- `written` is what `send_stream_data` was given for a stream so far, `ended` whether the end of
  -- the stream was among it: nothing for a new stream.
  pub record Records : Type 0 where
    pub send_same :
        (id : ℕ) (d : Bytes) (fin : Bool) (quic : Q)
        → (written (transport.send_stream_data id d fin quic) id ≡ written quic id ++ d)
          × (ended (transport.send_stream_data id d fin quic) id ≡ (ended quic id || fin))
    pub send_other :
        (id other : ℕ) (d : Bytes) (fin : Bool) (quic : Q)
        → (id == other) ≡ false
        → (written (transport.send_stream_data id d fin quic) other ≡ written quic other)
          × (ended (transport.send_stream_data id d fin quic) other ≡ ended quic other)
    pub fresh :
        (quic : Q)
        → (written quic (transport.get_next_available_stream_id quic) ≡ [])
          × (ended quic (transport.get_next_available_stream_id quic) ≡ false)
    pub reset_quiet : (id code : ℕ) (quic : Q) → Quiet quic (transport.reset_stream id code quic)
    pub transmit_quiet : (quic : Q) → Quiet quic (transport.transmit quic)

  -- The stream was given the header and the bytes of the source from where the job began, with which
  -- `start` was called, to its offset; if it was given the end, the offset is the size.
  abbrev pub Delivers : Q → ℕ → DownloadJob → Type 0
  Delivers quic id job =
      (begin : ℕ) × Calls job.file_id job.path job.size begin job.priority
      × (begin ≤ job.offset)
      × (job.offset ≤ job.size)
      × (written quic id
          ≡ header job.file_id ++ take (job.offset - begin) (drop begin (source job.path)))
      × (ended quic id ≡ true → (job.offset ≡ job.size) × (job.eof ≡ true))

  abbrev pub Delivering : Q → List (ℕ × DownloadJob) → Type 0
  Delivering quic jobs =
      (id : ℕ) (job : DownloadJob) → get same_stream id jobs ≡ some job → Delivers quic id job

  -- A stream that is read for has not ended, and the read is for its job.
  abbrev pub Open : Q → List (ℕ × DownloadJob) → Place → Type 0
  Open quic jobs ready = Unit {0}
  Open quic jobs waiting = Unit {0}
  Open quic jobs (reading id path offset size rest progressed) =
      (ended quic id ≡ false)
      × (job : DownloadJob) × (get same_stream id jobs ≡ some job)
      × (job.path ≡ path)
      × (job.offset ≡ offset)
  Open quic jobs stopped = Unit {0}

  abbrev pub Correct : DownloadScheduler Q → Type 0
  Correct s = Delivering s.quic s.jobs × Open s.quic s.jobs s.task

  -- A file that can be read is the source of its path.
  abbrev pub Unchanged : Files → Type 0
  Unchanged files =
      (path : String) (content : Bytes) → files path ≡ some content → content ≡ source path

  -- The jobs are the same but for `eof`, which may be set.
  abbrev pub Ends : List (ℕ × DownloadJob) → List (ℕ × DownloadJob) → Type 0
  Ends jobs jobs' =
      (id : ℕ) (job' : DownloadJob)
      → get same_stream id jobs' ≡ some job'
      → (job : DownloadJob) × (get same_stream id jobs ≡ some job)
        × ((job' ≡ job) ⊎ (job' ≡ record job { eof = true }))

  pub Ends-Delivering :
      (quic : Q) (jobs jobs' : List (ℕ × DownloadJob))
      → Ends jobs jobs'
      → Delivering quic jobs
      → Delivering quic jobs'
  Ends-Delivering quic jobs jobs' ends h id job' e =
      let (job, g, c) = ends id job' e in
      let (begin, call, le, size, w, fin) = h id job g in
      elim c [
        | inl same_ ↦ subst (Delivers quic id) (sym same_) (begin, call, le, size, w, fin)
        | inr set ↦
            subst (Delivers quic id) (sym set) (begin, call, le, size, w, λ t. ((fin t).0, refl))
      ]

  pub quiet-Delivering :
      (quic quic' : Q) (jobs : List (ℕ × DownloadJob))
      → Quiet quic quic'
      → Delivering quic jobs
      → Delivering quic' jobs
  quiet-Delivering quic quic' jobs q h id job e =
      let (begin, call, le, size, w, fin) = h id job e in
      (begin, call, le, size, (q id).0 ∙ w, λ t. fin (sym (q id).1 ∙ t))

  pub quiet-Open :
      (quic quic' : Q) (jobs : List (ℕ × DownloadJob)) (place : Place)
      → Quiet quic quic'
      → Open quic jobs place
      → Open quic' jobs place
  quiet-Open quic quic' jobs ready q h = tt
  quiet-Open quic quic' jobs waiting q h = tt
  quiet-Open quic quic' jobs stopped q h = tt
  quiet-Open quic quic' jobs (reading id path offset size rest progressed) q (o, job, e, p, at) =
      ((q id).1 ∙ o, job, e, p, at)

  pub remove-Ends :
      (id : ℕ) (jobs : List (ℕ × DownloadJob)) → Ends jobs (remove same_stream id jobs)
  remove-Ends id jobs k job e = elim (Bool-cases (id == k)) [
    | inl same_ ↦ absurd (
        none-some job (
          sym (
            subst (λ (i : ℕ). get same_stream i (remove same_stream id jobs) ≡ none)
              (same_number id k same_)
              (get-remove same_stream same_stream_sound same_stream_refl id jobs))
          ∙ e))
    | inr other ↦ (
      job,
      sym (get-remove_other same_stream same_stream_sound same_stream_refl id k jobs other) ∙ e,
      inl refl,
    )
  ]

  pub assign-Ends :
      (id : ℕ) (jobs : List (ℕ × DownloadJob))
      → Ends jobs (assign transport id (λ job. record job { eof = true }) jobs)
  assign-Ends id jobs k job' e = elim (Bool-cases (id == k)) [
    | inr other ↦ (job', sym (get-assign_other transport id k _ jobs other) ∙ e, inl refl)
    | inl same_ ↦
        let at : get same_stream id (assign transport id (λ job. record job { eof = true }) jobs)
            ≡ some job' =
          ap
            (λ (i : ℕ).
              get same_stream i (assign transport id (λ job. record job { eof = true }) jobs))
            (same_number id k same_)
          ∙ e in
        elim (Option-cases (get same_stream id jobs)) [
          | inl none_ ↦
              absurd (none-some job' (sym (get-assign-none transport id _ jobs none_) ∙ at))
          | inr (job, g) ↦ (
            job,
            ap (λ (i : ℕ). get same_stream i jobs) (sym (same_number id k same_)) ∙ g,
            inr (some_injective (sym at ∙ get-assign_same transport id _ job jobs g)),
          )
        ]
  ]

  pub end_jobs-Ends :
      (file_id : String) (jobs : List (ℕ × DownloadJob))
      → Ends jobs (end_jobs transport file_id jobs)
  end_jobs-Ends file_id jobs k job' e = elim (Option-cases (get same_stream k jobs)) [
    | inl none_ ↦
        absurd (none-some job' (sym (get-end_jobs-none transport file_id k jobs none_) ∙ e))
    | inr (job, g) ↦
        let is : job' ≡ (if job.file_id =? file_id then record job { eof = true } else job) =
          some_injective (sym e ∙ get-end_jobs transport file_id k job jobs g) in
        elim (Bool-cases (job.file_id =? file_id)) [
          | inl t ↦ (job, g, inr (is ∙ rw t refl))
          | inr n ↦ (job, g, inl (is ∙ rw n refl))
        ]
  ]

  -- A cancelled job is read for where it was.
  pub end_jobs-Open :
      (quic : Q) (jobs : List (ℕ × DownloadJob)) (place : Place) (file_id : String)
      → Open quic jobs place
      → Open quic (end_jobs transport file_id jobs) place
  end_jobs-Open quic jobs ready file_id h = tt
  end_jobs-Open quic jobs waiting file_id h = tt
  end_jobs-Open quic jobs stopped file_id h = tt
  end_jobs-Open quic jobs (reading id path offset size rest progressed) file_id (o, job, e, p, at) =
      let found = get-end_jobs transport file_id id job jobs e in
      elim (Bool-cases (job.file_id =? file_id)) [
        | inl t ↦ (o, record job { eof = true }, found ∙ rw t refl, p, at)
        | inr n ↦ (o, job, found ∙ rw n refl, p, at)
      ]
