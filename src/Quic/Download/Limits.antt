-- ===== src/Quic/Download/Limits.antt =====
-- server/quic/download.py: every step of the scheduler and of the transport keeps the limits.
use mathlib.Core.Path.{subst}
use mini_im.Prelude.{
  ℕ, zero, suc, ap, take, drop, ◌+◌, ◌-◌, ◌≤◌, ◌<◌, ◌≡◌, inl, inr, Bool, true, false, List, [], ◌∷◌,
  arith, ◌==◌, leb, length, min, Bool-cases,
}
use mini_im.Protocol.{Bytes}
use mini_im.Quic.Upload.Consistent.{same_number}
use mini_im.Quic.Download.{
  Transport, DownloadJob, DownloadScheduler, pending_bytes, new_scheduler, header,
}
use mini_im.Quic.Download.Steps.{Reach, Reach-keeps}
use mini_im.Quic.Download.Keeps.{Invariant}
use mini_im.Quic.Download.Keeps.Calls.{Step-HoldsAt}
use mini_im.Quic.Download.Budget.{
  Calmer, Buffers, Fits, EachFits, PlaceFits, Within, AnyFiles, AnyCall, BoundedBy, calm-EachFits,
  calm-PlaceFits, get-Fits, remove-EachFits, length-remove, put-EachFits, length-put,
  assign-EachFits, length-assign, end_jobs-EachFits, length-end_jobs, total_pending_le,
}

length-take_le : (n : ℕ) (xs : Bytes) → length (take n xs) ≤ n
length-take_le zero xs = omega arith
length-take_le (suc n) [] = omega arith
length-take_le (suc n) (x ∷ xs) = omega (arith, length-take_le n xs)

room_fits : (p : ℕ) → leb 131072 p ≡ false → p + min 65536 (131072 - p) ≤ 131072
room_fits p h = ground arith

other_number : (m n : ℕ) → n < m → (m == n) ≡ false
other_number m n h = ground arith

module _ {Q : Type 0} (transport : Transport Q) (laws : Buffers transport) where
  abbrev pending : Q → ℕ → ℕ
  pending = pending_bytes transport

  -- The bytes for one stream, which fit, leave the others as they were.
  send-EachFits :
      (id size : ℕ) (d : Bytes) (fin : Bool) (quic : Q) (jobs : List (ℕ × DownloadJob))
      → Fits transport quic size id
      → length d ≤ size
      → EachFits transport quic jobs
      → EachFits transport (transport.send_stream_data id d fin quic) jobs
  send-EachFits id size d fin quic [] f l h = tt
  send-EachFits id size d fin quic ((k, job) ∷ jobs) f l h = (
    (
      elim (Bool-cases (id == k)) [
        | inl e ↦
            subst (λ (i : ℕ). pending (transport.send_stream_data id d fin quic) i + 0 ≤ 131072)
              (same_number id k e) (omega (arith, laws.send_adds id d fin quic, f.0, l))
        | inr n ↦ omega (arith, laws.send_other id k d fin quic n, h.0.0)
      ],
      omega (arith, laws.send_ids id d fin quic, h.0.1),
    ),
    send-EachFits id size d fin quic jobs f l h.1,
  )

  -- The header of a new stream leaves the others as they were.
  new-Fits :
      (d : Bytes) (quic : Q) (id more : ℕ)
      → Fits transport quic more id
      → Fits transport
          (transport.send_stream_data (transport.get_next_available_stream_id quic) d false quic)
          more
          id
  new-Fits d quic id more f =
      let next = transport.get_next_available_stream_id quic in
      let other : (next == id) ≡ false = other_number next id f.1 in
      (
        omega (arith, laws.send_other next id d false quic other, f.0),
        omega (arith, laws.send_ids next d false quic, f.1),
      )

  new-EachFits :
      (d : Bytes) (quic : Q) (jobs : List (ℕ × DownloadJob))
      → EachFits transport quic jobs
      → EachFits transport
          (transport.send_stream_data (transport.get_next_available_stream_id quic) d false quic)
          jobs
  new-EachFits d quic [] h = tt
  new-EachFits d quic ((id, job) ∷ jobs) h =
      (new-Fits d quic id 0 h.0, new-EachFits d quic jobs h.1)

  new_stream-Fits :
      (d : Bytes) (quic : Q)
      → length d ≤ 512
      → Fits transport
          (transport.send_stream_data (transport.get_next_available_stream_id quic) d false quic)
          0
          (transport.get_next_available_stream_id quic)
  new_stream-Fits d quic l =
      let next = transport.get_next_available_stream_id quic in
      (
        omega (arith, laws.send_adds next d false quic, laws.fresh quic),
        laws.send_takes d false quic,
      )

  limits :
      Invariant transport
        (BoundedBy transport)
        (λ q jobs. PlaceFits transport q)
        (Calmer transport)
        (AnyFiles transport)
        (AnyCall transport)
  limits = record {
    at_ready = λ q jobs. tt;
    at_waiting = λ q jobs. tt;
    at_stopped = λ q jobs. tt;
    emptied = λ q jobs peak h. (tt, omega arith, h.2);
    popped = λ q jobs peak id h. (
      remove-EachFits transport q id jobs h.0,
      omega (arith, length-remove transport id jobs, h.1),
      h.2,
    );
    opened = λ q jobs peak id job rest progressed h e eof room.
        (room_fits (pending q id) room, (get-Fits transport q id job jobs h.0 e).1);
    moved = λ q q' jobs peak m h. (calm-EachFits transport q q' jobs m h.0, h.1, h.2);
    moved_place = λ q q' jobs place m h. calm-PlaceFits transport q q' place m h;
    transmits = laws.transmit_calm;
    resets = laws.reset_calm;
    measured =
        λ q jobs peak h. (h.0, h.1, omega (arith, total_pending_le transport q jobs h.0, h.1, h.2));
    failed = λ q jobs peak id h. (
      assign-EachFits transport q id _ jobs h.0,
      omega (arith, length-assign transport id (λ job. record job { eof = true }) jobs, h.1),
      h.2,
    );
    ended_jobs = λ q jobs peak file_id h. (
      end_jobs-EachFits transport q file_id jobs h.0,
      omega (arith, length-end_jobs transport file_id jobs, h.1),
      h.2,
    );
    ended_place = λ q jobs place file_id h. h;
    sent = λ q jobs peak id path offset size rest progressed files content d job h o r f is e good.
        (
          assign-EachFits transport _ id _ jobs (
              send-EachFits id size d (length d == 0) q jobs o
                (omega (arith, ap length is, length-take_le size (drop offset content))) h.0),
          omega (
            arith,
            length-assign transport id
                (λ held. record held { offset = held.offset + length d; eof = length d == 0 }) jobs,
            h.1,
          ),
          h.2,
        );
    entered = λ q jobs peak job call new le eof few short h. (
      put-EachFits transport _ _ job jobs (new_stream-Fits (header job.file_id) q short)
          (new-EachFits (header job.file_id) q jobs h.0),
      omega (arith, length-put transport (transport.get_next_available_stream_id q) job jobs),
      h.2,
    );
    entered_place =
        λ q jobs peak id path offset size rest progressed d job h o. new-Fits d q id size o;
  }

  -- From a new scheduler, after any interleaving of `start`, `cancel`, `close` and `notify`, of
  -- what arrives from the network and of the steps of the task, there are at most eight
  -- downloads, no stream of one has more than 128 KiB in its buffer, and the peak that was
  -- measured is at most 1 MiB; the task that stands at a read asked for no more bytes than still
  -- fit. The transport's calls buffer what they are given and nothing else.
  pub Reach-Within :
      (quic : Q) (s : DownloadScheduler Q)
      → Reach transport
          (Calmer transport)
          (AnyFiles transport)
          (AnyCall transport)
          (new_scheduler quic)
          s
      → Within transport s
  unfolding new_scheduler
  Reach-Within quic s r =
      Reach-keeps transport (Calmer transport) (AnyFiles transport) (AnyCall transport)
        (Within transport)
        (Step-HoldsAt transport (BoundedBy transport) (λ q jobs. PlaceFits transport q)
          (Calmer transport) (AnyFiles transport) (AnyCall transport) limits)
        (new_scheduler quic) s r ((tt, omega arith, omega arith), tt)
