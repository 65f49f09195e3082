-- ===== src/Quic/Download/Handed.antt =====
-- server/quic/download.py: what each call of the transport does to what a stream was handed.
use mathlib.Core.Path.{subst}
use mathlib.Core.Bool.{false≢true}
use mathlib.Core.List.{append_assoc, append-nil}
use mini_im.Prelude.{
  ℕ, ◌+◌, ◌-◌, ◌≤◌, ◌≡◌, sym, ap, ◌∙◌, inl, inr, String, Bool, true, false, ◌&&◌, ◌||◌, not, some,
  List, ◌++◌, arith, ◌==◌, ltb, length, take, drop, [], ◌∷◌, ◌<◌, length-append, Bool-cases,
}
use mini_im.Protocol.{Bytes}
use mini_im.Text.{encode}
use mini_im.Quic.Upload.Consistent.{same_number, some_injective}
use mini_im.Quic.Dict.{get, put, get-put, get-put_other}
use mini_im.Quic.Download.{Transport, DownloadJob, reading, same_stream, header}
use mini_im.Quic.Download.Turns.{Files, assign}
use mini_im.Quic.Download.Jobs.{
  same_stream_sound, same_stream_refl, slice-grows, get-assign_other, get-assign_same,
}
use mini_im.Quic.Download.Content.{Records, Delivers, Delivering, Open, Unchanged}

within : (n l m : ℕ) → ltb m (n + l) ≡ false → n + l ≤ m
within n l m h = ground arith

zero_of : (n : ℕ) → (n == 0) ≡ true → n ≡ 0
zero_of n h = ground arith

right_false : (a b : Bool) → (a || b) ≡ false → b ≡ false
right_false a b h = ground arith

-- The end is sent at the declared size only.
end_at_size :
    (l n m : ℕ)
    → (((l == 0) && not (n == m)) || ltb m (n + l)) ≡ false
    → (l == 0) ≡ true
    → n + l ≡ m
end_at_size l n m h e = ground arith

end_sent : (a b : Bool) → a ≡ false → (a || b) ≡ true → b ≡ true
end_sent a b f t = ground arith

not_ended : (a : Bool) → a ≡ false → (a || false) ≡ true → ⊥
not_ended a f t = ground arith

still_open : (a : Bool) → a ≡ false → (a || false) ≡ false
still_open a f = ground arith

header-long : (file_id : String) → 0 < length (header file_id)
unfolding header
header-long file_id =
    omega (arith, length-append (encode "MINIIMFILE1 " ++ encode file_id) (10 ∷ []))

module _ {Q : Type 0} (transport : Transport Q) (written : Q → ℕ → Bytes) (ended : Q → ℕ → Bool)
    (source : String → Bytes) (Calls : String → String → ℕ → ℕ → ℕ → Type 0)
    (laws : Records transport written ended source Calls) where
  abbrev DeliversOf : Q → ℕ → DownloadJob → Type 0
  DeliversOf = Delivers transport written ended source Calls

  abbrev pub DeliveringOf : Q → List (ℕ × DownloadJob) → Type 0
  DeliveringOf = Delivering transport written ended source Calls

  abbrev grown : Bytes → DownloadJob → DownloadJob
  grown d held = record held { offset = held.offset + length d; eof = length d == 0 }

  -- The stream that was sent a chunk of its source.
  grown-Delivers :
      (q : Q) (id size : ℕ) (d : Bytes) (job : DownloadJob)
      → DeliversOf q id job
      → ended q id ≡ false
      → d ≡ take size (drop job.offset (source job.path))
      → (((length d == 0) && not (job.offset == job.size)) || ltb job.size (job.offset + length d))
        ≡ false
      → DeliversOf (transport.send_stream_data id d (length d == 0) q) id (grown d job)
  grown-Delivers q id size d job h o r good =
      let (begin, call, le, fits, w, fin) = h in
      let s = laws.send_same id d (length d == 0) q in
      let slice = take (job.offset - begin) (drop begin (source job.path)) in
      (
        begin,
        call,
        omega arith,
        within job.offset (length d) job.size (right_false _ _ good),
        s.0
            ∙ ap (λ (x : Bytes). x ++ d) w
            ∙ append_assoc (header job.file_id) slice d
            ∙ ap (λ (x : Bytes). header job.file_id ++ x)
                (ap (λ (x : Bytes). slice ++ x) r
                  ∙ slice-grows begin job.offset size (source job.path) le
                  ∙ ap
                      (λ (x : Bytes).
                        take (job.offset + length x - begin) (drop begin (source job.path)))
                      (sym r)),
        λ t.
            let e = end_sent (ended q id) (length d == 0) o (sym s.1 ∙ t) in
            (end_at_size (length d) job.offset job.size good e, e),
      )

  pub sent-Delivering :
      (q : Q) (jobs : List (ℕ × DownloadJob)) (id size : ℕ) (d : Bytes) (job : DownloadJob)
      → DeliveringOf q jobs
      → ended q id ≡ false
      → d ≡ take size (drop job.offset (source job.path))
      → get same_stream id jobs ≡ some job
      → (((length d == 0) && not (job.offset == job.size)) || ltb job.size (job.offset + length d))
        ≡ false
      → DeliveringOf
          (transport.send_stream_data id d (length d == 0) q)
          (assign transport id (grown d) jobs)
  sent-Delivering q jobs id size d job h o r e good k job' e' = elim (Bool-cases (id == k)) [
    | inr other ↦
        let s = laws.send_other id k d (length d == 0) q other in
        let (begin, call, le, fits, w, fin) =
          h k job' (sym (get-assign_other transport id k (grown d) jobs other) ∙ e') in
        (begin, call, le, fits, s.0 ∙ w, λ t. fin (sym s.1 ∙ t))
    | inl same_ ↦
        let q' = transport.send_stream_data id d (length d == 0) q in
        let at : get same_stream id (assign transport id (grown d) jobs) ≡ some job' =
          ap (λ (i : ℕ). get same_stream i (assign transport id (grown d) jobs))
            (same_number id k same_)
          ∙ e' in
        let is : grown d job ≡ job' =
          some_injective (sym (get-assign_same transport id (grown d) job jobs e) ∙ at) in
        subst (λ (i : ℕ). DeliversOf q' i job') (same_number id k same_)
          (subst (DeliversOf q' id) is (grown-Delivers q id size d job (h id job e) o r good))
  ]

  -- The stream of a new download was given the header.
  new-Delivers :
      (q : Q) (job : DownloadJob)
      → Calls job.file_id job.path job.size job.offset job.priority
      → job.offset ≤ job.size
      → DeliversOf
          (transport.send_stream_data
            (transport.get_next_available_stream_id q)
            (header job.file_id)
            false
            q)
          (transport.get_next_available_stream_id q)
          job
  new-Delivers q job call le =
      let next = transport.get_next_available_stream_id q in
      let s = laws.send_same next (header job.file_id) false q in
      let rest = drop job.offset (source job.path) in
      let none_yet : 0 ≡ job.offset - job.offset = omega arith in
      (
        job.offset,
        call,
        omega arith,
        le,
        s.0
            ∙ ap (λ (x : Bytes). x ++ header job.file_id) (laws.fresh q).0
            ∙ sym (append-nil (header job.file_id))
            ∙ ap (λ (n : ℕ). header job.file_id ++ take n rest) none_yet,
        λ t. absurd (not_ended (ended q next) (laws.fresh q).1 (sym s.1 ∙ t)),
      )

  pub entered-Delivering :
      (q : Q) (jobs : List (ℕ × DownloadJob)) (job : DownloadJob)
      → Calls job.file_id job.path job.size job.offset job.priority
      → job.offset ≤ job.size
      → DeliveringOf q jobs
      → DeliveringOf
          (transport.send_stream_data
            (transport.get_next_available_stream_id q)
            (header job.file_id)
            false
            q)
          (put same_stream (transport.get_next_available_stream_id q) job jobs)
  entered-Delivering q jobs job call le h k job' e =
      let next = transport.get_next_available_stream_id q in
      elim (Bool-cases (next == k)) [
        | inr other ↦
            let s = laws.send_other next k (header job.file_id) false q other in
            let (begin, call_, le_, fits, w, fin) = h k job' (
              sym
                (get-put_other same_stream same_stream_sound same_stream_refl next k job jobs other)
              ∙ e) in
            (begin, call_, le_, fits, s.0 ∙ w, λ t. fin (sym s.1 ∙ t))
        | inl same_ ↦
            let q' = transport.send_stream_data next (header job.file_id) false q in
            let is : job ≡ job' = some_injective (
              sym (get-put same_stream same_stream_sound same_stream_refl next job jobs)
              ∙ ap (λ (i : ℕ). get same_stream i (put same_stream next job jobs))
                  (same_number next k same_)
              ∙ e) in
            subst (λ (i : ℕ). DeliversOf q' i job') (same_number next k same_)
              (subst (DeliversOf q' next) is (new-Delivers q job call le))
      ]

  new-Open :
      (q : Q) (id : ℕ) (d : Bytes)
      → ended q id ≡ false
      → ended (transport.send_stream_data (transport.get_next_available_stream_id q) d false q) id
        ≡ false
  new-Open q id d o =
      let next = transport.get_next_available_stream_id q in
      elim (Bool-cases (next == id)) [
        | inr other ↦ (laws.send_other next id d false q other).1 ∙ o
        | inl same_ ↦
            subst (λ (i : ℕ). ended (transport.send_stream_data next d false q) i ≡ false)
              (same_number next id same_)
              ((laws.send_same next d false q).1 ∙ still_open (ended q next) (laws.fresh q).1)
      ]

  pub opened-Open :
      (q : Q) (id : ℕ) (job : DownloadJob)
      → DeliversOf q id job
      → job.eof ≡ false
      → ended q id ≡ false
  opened-Open q id job h eof = elim (Bool-cases (ended q id)) [
    | inr n ↦ n
    | inl t ↦ let (begin, call, le, fits, w, fin) = h in absurd (false≢true (sym eof ∙ (fin t).1))
  ]

  -- A stream that was given its header is not the next one.
  known-other :
      (q : Q) (id : ℕ) (job : DownloadJob)
      → DeliversOf q id job
      → (transport.get_next_available_stream_id q == id) ≡ false
  known-other q id job (begin, call, le, fits, w, fin) =
      let next = transport.get_next_available_stream_id q in
      elim (Bool-cases (next == id)) [
        | inr other ↦ other
        | inl same_ ↦
            let nothing : written q id ≡ [] =
              subst (λ (i : ℕ). written q i ≡ []) (same_number next id same_) (laws.fresh q).0 in
            let slice = take (job.offset - begin) (drop begin (source job.path)) in
            absurd (
              omega (
                arith,
                ap length (sym w ∙ nothing),
                length-append (header job.file_id) slice,
                header-long job.file_id,
              ))
      ]

  pub entered-Open :
      (q : Q) (jobs : List (ℕ × DownloadJob)) (id : ℕ) (path : String) (offset size : ℕ)
      (rest : List ℕ) (progressed : Bool) (d : Bytes) (new : DownloadJob)
      → DeliveringOf q jobs
      → Open transport written ended source Calls q jobs
          (reading id path offset size rest progressed)
      → Open transport written ended source Calls
          (transport.send_stream_data (transport.get_next_available_stream_id q) d false q)
          (put same_stream (transport.get_next_available_stream_id q) new jobs)
          (reading id path offset size rest progressed)
  entered-Open q jobs id path offset size rest progressed d new h (o, job, e, p, at) =
      let next = transport.get_next_available_stream_id q in
      (
        new-Open q id d o,
        job,
        get-put_other same_stream same_stream_sound same_stream_refl next id new jobs
              (known-other q id job (h id job e))
            ∙ e,
        p,
        at,
      )

  -- What a read of an unchanged file hands back is what the source has at the job's offset.
  pub read_lem :
      (path : String) (offset size : ℕ) (files : Files) (content d : Bytes)
      (jobs : List (ℕ × DownloadJob)) (id : ℕ) (job held : DownloadJob)
      → Unchanged transport written ended source Calls files
      → files path ≡ some content
      → d ≡ take size (drop offset content)
      → get same_stream id jobs ≡ some job
      → get same_stream id jobs ≡ some held
      → held.path ≡ path
      → held.offset ≡ offset
      → d ≡ take size (drop job.offset (source job.path))
  read_lem path offset size files content d jobs id job held u f is e e' p at =
      let same_ : held ≡ job = some_injective (sym e' ∙ e) in
      is
      ∙ ap (λ (x : Bytes). take size (drop offset x)) (u path content f)
      ∙ ap (λ (n : ℕ). take size (drop n (source path)))
          (sym at ∙ ap (λ (j : DownloadJob). j.offset) same_)
      ∙ ap (λ (x : String). take size (drop job.offset (source x)))
          (sym p ∙ ap (λ (j : DownloadJob). j.path) same_)
