-- ===== src/Quic/Download/Keeps/Turns.antt =====
-- server/quic/download.py: the task of the scheduler keeps what its parts keep.
use mathlib.Core.Path.{subst}
use mini_im.Prelude.{
  ℕ, ◌+◌, ◌≡◌, sym, none, String, take, drop, refl, inl, inr, Bool, true, false, ◌&&◌, ◌||◌, not,
  some, List, [], ◌∷◌, arith, if◌then◌else◌, ◌==◌, ltb, leb, length, Bool-cases, Option-cases,
}
use mini_im.Protocol.{Bytes}
use mini_im.Quic.Dict.{get, remove, values}
use mini_im.Quic.Download.{
  Transport, DownloadJob, DownloadScheduler, Place, ready, waiting, reading, stopped, same_stream,
  pending_bytes, finished, reset_requested, transmit_all, measure,
}
use mini_im.Quic.Download.Turns.{
  Chunk, Files, chunk, os_error, read_chunk, os_error, is_empty, by_priority, stream_ids, stop,
  end_turn, visit, turn, account, fail, send_chunk, read_done, resume_at,
}
-- `P` is the invariant and `O` what holds where the task stands; the others are those of the steps.
use mini_im.Quic.Download.Keeps.{Invariant, Kept, KeptAt}

read_failed :
    (files : Files) (path : String) (offset size : ℕ)
    → files path ≡ none
    → read_chunk files path offset size ≡ os_error
unfolding read_chunk
read_failed files path offset size e = rw (read_chunk, e) refl

read_found :
    (files : Files) (path : String) (offset size : ℕ) (content : Bytes)
    → files path ≡ some content
    → read_chunk files path offset size ≡ chunk (take size (drop offset content))
unfolding read_chunk
read_found files path offset size content e = rw (read_chunk, e) refl

module _ {Q : Type 0} (transport : Transport Q) (P : Q → List (ℕ × DownloadJob) → ℕ → Type 0)
    (O : Q → List (ℕ × DownloadJob) → Place → Type 0) (Moves : Q → Q → Type 0)
    (Sees : Files → Type 0) (Calls : String → String → ℕ → ℕ → ℕ → Type 0) where
  abbrev Holds : DownloadScheduler Q → Type 0
  Holds s = Kept transport P O Moves Sees Calls s

  abbrev HoldsAt : DownloadScheduler Q → Type 0
  HoldsAt s = KeptAt transport P O Moves Sees Calls s

  if-HoldsAt :
      (b : Bool) (s t : DownloadScheduler Q)
      → (b ≡ true → HoldsAt s)
      → (b ≡ false → HoldsAt t)
      → HoldsAt (if b then s else t)
  if-HoldsAt true s t h k = h refl
  if-HoldsAt false s t h k = k refl

  left_false : (a b : Bool) → (a || b) ≡ false → a ≡ false
  left_false a b h = ground arith

  module _ (laws : Invariant transport P O Moves Sees Calls) where
    stop-HoldsAt : (s : DownloadScheduler Q) → Holds s → HoldsAt (stop transport s)
    unfolding stop
    stop-HoldsAt s h = elim (Bool-cases s.closed) [
      | inl c ↦ rw c (laws.emptied s.quic s.jobs s.peak_pending_bytes h, laws.at_stopped s.quic [])
      | inr o ↦ rw o (h, laws.at_stopped s.quic s.jobs)
    ]

    end_turn-HoldsAt :
        (progressed : Bool) (s : DownloadScheduler Q)
        → Holds s
        → HoldsAt (end_turn transport progressed s)
    unfolding end_turn
    end_turn-HoldsAt true s h = (h, laws.at_ready s.quic s.jobs)
    end_turn-HoldsAt false s h =
        if-HoldsAt (not (is_empty s.jobs) && not s.closed) _ _
          (λ e. (h, laws.at_waiting s.quic s.jobs)) (λ n. stop-HoldsAt s h)

    visit-HoldsAt :
        (ids : List ℕ) (progressed : Bool) (s : DownloadScheduler Q)
        → Holds s
        → HoldsAt (visit transport ids progressed s)
    unfolding visit
    visit-HoldsAt [] progressed s h = end_turn-HoldsAt progressed s h
    visit-HoldsAt (id ∷ ids) progressed s h =
        if-HoldsAt s.closed _ _ (λ c. end_turn-HoldsAt progressed s h)
          (λ o. elim (Option-cases (get same_stream id s.jobs)) [
            | inl e ↦ rw e (visit-HoldsAt ids progressed s h)
            | inr (job, e) ↦ rw e (
                if-HoldsAt (finished transport s.quic id) _ _
                  (λ f.
                    visit-HoldsAt ids true (record s { jobs = remove same_stream id s.jobs })
                      (laws.popped s.quic s.jobs s.peak_pending_bytes id h))
                  (λ nf.
                    if-HoldsAt (job.eof || reset_requested transport s.quic id) _ _
                      (λ r. visit-HoldsAt ids progressed s h)
                      (λ nr.
                        if-HoldsAt (leb 131072 (pending_bytes transport s.quic id)) _ _
                          (λ full. visit-HoldsAt ids progressed s h)
                          (λ room. (
                            h,
                            laws.opened s.quic s.jobs s.peak_pending_bytes id job ids progressed h e
                                (left_false job.eof (reset_requested transport s.quic id) nr) room,
                          )))))
          ])

    turn-HoldsAt : (s : DownloadScheduler Q) → Holds s → HoldsAt (turn transport s)
    unfolding turn
    turn-HoldsAt s h =
        if-HoldsAt (not (is_empty s.jobs) && not s.closed) _ _
          (λ e.
            visit-HoldsAt (stream_ids transport (by_priority (values same_stream s.jobs))) false
              (record s { changed = false }) h)
          (λ n. stop-HoldsAt s h)

    account-HoldsAt :
        (ids : List ℕ) (s : DownloadScheduler Q) → Holds s → HoldsAt (account transport ids s)
    unfolding account transmit_all measure
    account-HoldsAt ids s h =
        visit-HoldsAt ids true (transmit_all transport (measure transport s)) (
          laws.moved s.quic (transport.transmit s.quic) s.jobs _ (laws.transmits s.quic)
            (laws.measured s.quic s.jobs s.peak_pending_bytes h))

    fail-Holds : (id : ℕ) (s : DownloadScheduler Q) → Holds s → Holds (fail transport id s)
    unfolding fail
    fail-Holds id s h =
        laws.failed (transport.reset_stream id 0x1004 s.quic) s.jobs s.peak_pending_bytes id (
          laws.moved s.quic (transport.reset_stream id 0x1004 s.quic) s.jobs s.peak_pending_bytes
            (laws.resets id 0x1004 s.quic) h)

    send_chunk-Holds :
        (job : DownloadJob) (id : ℕ) (path : String) (offset size : ℕ) (ids : List ℕ)
        (progressed : Bool) (files : Files) (content d : Bytes) (s : DownloadScheduler Q)
        → Holds s
        → O s.quic s.jobs (reading id path offset size ids progressed)
        → Sees files
        → files path ≡ some content
        → d ≡ take size (drop offset content)
        → get same_stream id s.jobs ≡ some job
        → Holds (send_chunk transport job id d s)
    unfolding send_chunk
    send_chunk-Holds job id path offset size ids progressed files content d s h o r f q e =
        elim (Bool-cases (
          ((length d == 0) && not (job.offset == job.size))
          || ltb job.size (job.offset + length d))) [
            | inl bad ↦ rw bad (fail-Holds id s h)
            | inr good ↦ rw good (
                laws.sent s.quic s.jobs s.peak_pending_bytes id path offset size ids progressed
                  files content d job h o r f q e good)
          ]

    read_done-HoldsAt :
        (id : ℕ) (path : String) (offset size : ℕ) (ids : List ℕ) (progressed : Bool)
        (files : Files) (content d : Bytes) (s : DownloadScheduler Q)
        → Holds s
        → O s.quic s.jobs (reading id path offset size ids progressed)
        → Sees files
        → files path ≡ some content
        → d ≡ take size (drop offset content)
        → HoldsAt (read_done transport id ids progressed (chunk d) s)
    unfolding read_done
    read_done-HoldsAt id path offset size ids progressed files content d s h o r f q =
        if-HoldsAt s.closed _ _ (λ c. end_turn-HoldsAt progressed s h)
          (λ n. elim (Option-cases (get same_stream id s.jobs)) [
            | inl e ↦ rw e (visit-HoldsAt ids progressed s h)
            | inr (job, e) ↦ rw e (
                if-HoldsAt (reset_requested transport s.quic id || finished transport s.quic id) _ _
                  (λ r. visit-HoldsAt ids progressed s h)
                  (λ n. account-HoldsAt ids (send_chunk transport job id d s) (
                    send_chunk-Holds job id path offset size ids progressed files content d s h o r
                      f q e)))
          ])

    pub resume_at-HoldsAt :
        (place : Place) (files : Files) (s : DownloadScheduler Q)
        → Sees files
        → O s.quic s.jobs place
        → HoldsAt s
        → HoldsAt (resume_at transport place files s)
    unfolding resume_at read_done
    resume_at-HoldsAt ready files s r o h = turn-HoldsAt s h.0
    resume_at-HoldsAt waiting files s r o h =
        if-HoldsAt s.changed _ _ (λ c. turn-HoldsAt s h.0) (λ n. h)
    resume_at-HoldsAt (reading id path offset size ids progressed) files s r o h =
        elim (Option-cases (files path)) [
          | inl e ↦
              subst (λ (c : Chunk). HoldsAt (read_done transport id ids progressed c s))
                (sym (read_failed files path offset size e))
                (account-HoldsAt ids (fail transport id s) (fail-Holds id s h.0))
          | inr (content, e) ↦
              subst (λ (c : Chunk). HoldsAt (read_done transport id ids progressed c s))
                (sym (read_found files path offset size content e))
                (read_done-HoldsAt id path offset size ids progressed files content _ s h.0 o r e
                  refl)
        ]
    resume_at-HoldsAt stopped files s r o h = h
