-- ===== src/Quic/Download/Budget.antt =====
-- server/quic/download.py: how much of the files stands in the buffers of a connection.
use mathlib.Core.Path.{subst}
use mini_im.Prelude.{
  ℕ, suc, ◌+◌, ◌*◌, ◌≤◌, ◌<◌, ◌≡◌, refl, sym, ap, ◌∙◌, inl, inr, String, Bool, false, some, List,
  [], ◌∷◌, arith, ◌==◌, length, Bool-cases,
}
use mini_im.Protocol.{Bytes}
use mini_im.Quic.Upload.Consistent.{same_number}
use mini_im.Quic.Dict.{get, put, remove}
use mini_im.Quic.Download.{
  Transport, DownloadJob, DownloadScheduler, Place, ready, waiting, reading, stopped, same_stream,
  pending_bytes, total_pending, end_jobs,
}
use mini_im.Quic.Download.Turns.{Files, assign}

module _ {Q : Type 0} (transport : Transport Q) where
  abbrev pending : Q → ℕ → ℕ
  pending = pending_bytes transport

  abbrev next : Q → ℕ
  next = transport.get_next_available_stream_id

  -- The transport moves on and buffers nothing new: an acknowledgement, a loss, a timer.
  abbrev pub Calmer : Q → Q → Type 0
  Calmer quic quic' = ((id : ℕ) → pending quic' id ≤ pending quic id) × (next quic ≤ next quic')

  -- What the transport documents: a call of `send_stream_data` buffers what it is given for that
  -- stream and nothing else, `reset_stream` and `transmit` buffer nothing, and the next stream is a
  -- new one, with nothing in its buffer.
  pub record Buffers : Type 0 where
    pub send_adds :
        (id : ℕ) (d : Bytes) (fin : Bool) (quic : Q)
        → pending (transport.send_stream_data id d fin quic) id ≤ pending quic id + length d
    pub send_other :
        (id other : ℕ) (d : Bytes) (fin : Bool) (quic : Q)
        → (id == other) ≡ false
        → pending (transport.send_stream_data id d fin quic) other ≤ pending quic other
    pub send_ids :
        (id : ℕ) (d : Bytes) (fin : Bool) (quic : Q)
        → next quic ≤ next (transport.send_stream_data id d fin quic)
    pub send_takes :
        (d : Bytes) (fin : Bool) (quic : Q)
        → next quic < next (transport.send_stream_data (next quic) d fin quic)
    pub fresh : (quic : Q) → pending quic (next quic) ≡ 0
    pub reset_calm : (id code : ℕ) (quic : Q) → Calmer quic (transport.reset_stream id code quic)
    pub transmit_calm : (quic : Q) → Calmer quic (transport.transmit quic)

  -- The stream is one that was taken, and its buffer is within the limit with `more` bytes.
  abbrev pub Fits : Q → ℕ → ℕ → Type 0
  Fits quic more id = (pending quic id + more ≤ 131072) × (id < next quic)

  abbrev pub EachFits : Q → List (ℕ × DownloadJob) → Type 0
  EachFits quic [] = Unit {0}
  EachFits quic ((id, job) ∷ jobs) = Fits quic 0 id × EachFits quic jobs

  -- A read asks for no more than what fits.
  abbrev pub PlaceFits : Q → Place → Type 0
  PlaceFits quic ready = Unit {0}
  PlaceFits quic waiting = Unit {0}
  PlaceFits quic (reading id path offset size rest progressed) = Fits quic size id
  PlaceFits quic stopped = Unit {0}

  -- The limits: at most eight downloads, each within the limit, and a peak of 1 MiB at most.
  abbrev pub BoundedBy : Q → List (ℕ × DownloadJob) → ℕ → Type 0
  BoundedBy quic jobs peak = EachFits quic jobs × (length jobs ≤ 8) × (peak ≤ 1048576)

  abbrev pub Within : DownloadScheduler Q → Type 0
  Within s = BoundedBy s.quic s.jobs s.peak_pending_bytes × PlaceFits s.quic s.task

  -- Any files, and any arguments of `start`.
  abbrev pub AnyFiles : Files → Type 0
  AnyFiles files = Unit {0}

  abbrev pub AnyCall : String → String → ℕ → ℕ → ℕ → Type 0
  AnyCall file_id path size offset priority = Unit {0}

  pub calm-EachFits :
      (quic quic' : Q) (jobs : List (ℕ × DownloadJob))
      → Calmer quic quic'
      → EachFits quic jobs
      → EachFits quic' jobs
  calm-EachFits quic quic' [] c h = tt
  calm-EachFits quic quic' ((id, job) ∷ jobs) c h = (
    (omega (arith, c.0 id, h.0.0), omega (arith, c.1, h.0.1)),
    calm-EachFits quic quic' jobs c h.1,
  )

  pub calm-PlaceFits :
      (quic quic' : Q) (place : Place)
      → Calmer quic quic'
      → PlaceFits quic place
      → PlaceFits quic' place
  calm-PlaceFits quic quic' ready c h = tt
  calm-PlaceFits quic quic' waiting c h = tt
  calm-PlaceFits quic quic' stopped c h = tt
  calm-PlaceFits quic quic' (reading id path offset size rest progressed) c h =
      (omega (arith, c.0 id, h.0), omega (arith, c.1, h.1))

  pub Calmer-trans : (a b c : Q) → Calmer a b → Calmer b c → Calmer a c
  Calmer-trans a b c ab bc = (λ id. omega (arith, ab.0 id, bc.0 id), omega (arith, ab.1, bc.1))

  pub get-Fits :
      (quic : Q) (id : ℕ) (job : DownloadJob) (jobs : List (ℕ × DownloadJob))
      → EachFits quic jobs
      → get same_stream id jobs ≡ some job
      → Fits quic 0 id
  unfolding get
  get-Fits quic id job [] h e = absurd (cc)
  get-Fits quic id job ((k, j) ∷ jobs) h e = elim (Bool-cases (k == id)) [
    | inl same_ ↦ subst (λ (i : ℕ). Fits quic 0 i) (same_number k id same_) h.0
    | inr n ↦ get-Fits quic id job jobs h.1 (sym (rw n refl) ∙ e)
  ]

  pub remove-EachFits :
      (quic : Q) (id : ℕ) (jobs : List (ℕ × DownloadJob))
      → EachFits quic jobs
      → EachFits quic (remove same_stream id jobs)
  unfolding remove
  remove-EachFits quic id [] h = tt
  remove-EachFits quic id ((k, j) ∷ jobs) h = elim (Bool-cases (k == id)) [
    | inl e ↦ rw e (remove-EachFits quic id jobs h.1)
    | inr n ↦ rw n (h.0, remove-EachFits quic id jobs h.1)
  ]

  pub length-remove :
      (id : ℕ) (jobs : List (ℕ × DownloadJob)) → length (remove same_stream id jobs) ≤ length jobs
  unfolding remove
  length-remove id [] = omega arith
  length-remove id ((k, j) ∷ jobs) = ground (arith, length-remove id jobs)

  pub put-EachFits :
      (quic : Q) (id : ℕ) (job : DownloadJob) (jobs : List (ℕ × DownloadJob))
      → Fits quic 0 id
      → EachFits quic jobs
      → EachFits quic (put same_stream id job jobs)
  unfolding put
  put-EachFits quic id job [] f h = (f, tt)
  put-EachFits quic id job ((k, j) ∷ jobs) f h = elim (Bool-cases (k == id)) [
    | inl e ↦ rw e h
    | inr n ↦ rw n (h.0, put-EachFits quic id job jobs f h.1)
  ]

  pub length-put :
      (id : ℕ) (job : DownloadJob) (jobs : List (ℕ × DownloadJob))
      → length (put same_stream id job jobs) ≤ suc (length jobs)
  unfolding put
  length-put id job [] = omega arith
  length-put id job ((k, j) ∷ jobs) = ground (arith, length-put id job jobs)

  pub assign-EachFits :
      (quic : Q) (id : ℕ) (f : DownloadJob → DownloadJob) (jobs : List (ℕ × DownloadJob))
      → EachFits quic jobs
      → EachFits quic (assign transport id f jobs)
  unfolding assign
  assign-EachFits quic id f [] h = tt
  assign-EachFits quic id f ((k, j) ∷ jobs) h = (h.0, assign-EachFits quic id f jobs h.1)

  pub length-assign :
      (id : ℕ) (f : DownloadJob → DownloadJob) (jobs : List (ℕ × DownloadJob))
      → length (assign transport id f jobs) ≡ length jobs
  unfolding assign
  length-assign id f [] = refl
  length-assign id f ((k, j) ∷ jobs) = ap suc (length-assign id f jobs)

  pub end_jobs-EachFits :
      (quic : Q) (file_id : String) (jobs : List (ℕ × DownloadJob))
      → EachFits quic jobs
      → EachFits quic (end_jobs transport file_id jobs)
  unfolding end_jobs
  end_jobs-EachFits quic file_id [] h = tt
  end_jobs-EachFits quic file_id ((k, j) ∷ jobs) h = (h.0, end_jobs-EachFits quic file_id jobs h.1)

  pub length-end_jobs :
      (file_id : String) (jobs : List (ℕ × DownloadJob))
      → length (end_jobs transport file_id jobs) ≡ length jobs
  unfolding end_jobs
  length-end_jobs file_id [] = refl
  length-end_jobs file_id ((k, j) ∷ jobs) = ap suc (length-end_jobs file_id jobs)

  pub total_pending_le :
      (quic : Q) (jobs : List (ℕ × DownloadJob))
      → EachFits quic jobs
      → total_pending transport quic jobs ≤ length jobs * 131072
  unfolding total_pending
  total_pending_le quic [] h = omega arith
  total_pending_le quic ((id, job) ∷ jobs) h = omega (arith, h.0.0, total_pending_le quic jobs h.1)
