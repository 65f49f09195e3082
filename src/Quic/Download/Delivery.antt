-- ===== src/Quic/Download/Delivery.antt =====
-- server/quic/download.py: every step of the scheduler hands the streams what they are for.
use mini_im.Prelude.{ℕ, String, Bool, refl}
use mini_im.Protocol.{Bytes}
use mini_im.Quic.Dict.{get}
use mini_im.Quic.Download.{Transport, DownloadScheduler, new_scheduler}
use mini_im.Quic.Download.Jobs.{none-some}
use mini_im.Quic.Download.Steps.{Reach, Reach-keeps}
use mini_im.Quic.Download.Keeps.{Invariant}
use mini_im.Quic.Download.Keeps.Calls.{Step-HoldsAt}
use mini_im.Quic.Download.Content.{
  Quiet, Records, Delivering, Open, Correct, Unchanged, Ends-Delivering, end_jobs-Open,
  quiet-Delivering, quiet-Open, remove-Ends, assign-Ends, end_jobs-Ends,
}
use mini_im.Quic.Download.Handed.{
  DeliveringOf, opened-Open, sent-Delivering, read_lem, entered-Delivering, entered-Open,
}

module _ {Q : Type 0} (transport : Transport Q) (written : Q → ℕ → Bytes) (ended : Q → ℕ → Bool)
    (source : String → Bytes) (Calls : String → String → ℕ → ℕ → ℕ → Type 0)
    (laws : Records transport written ended source Calls) where
  deliveries :
      Invariant transport
        (λ q jobs peak. (DeliveringOf transport written ended source Calls laws) q jobs)
        (Open transport written ended source Calls)
        (Quiet transport written ended source Calls)
        (Unchanged transport written ended source Calls)
        Calls
  unfolding get
  deliveries = record {
    at_ready = λ q jobs. tt;
    at_waiting = λ q jobs. tt;
    at_stopped = λ q jobs. tt;
    emptied = λ q jobs peak h id job e. absurd (none-some job e);
    popped = λ q jobs peak id h.
        Ends-Delivering transport written ended source Calls q jobs _
          (remove-Ends transport written ended source Calls id jobs) h;
    opened = λ q jobs peak id job rest progressed h e eof room. (
      (opened-Open transport written ended source Calls laws) q id job (h id job e) eof,
      job,
      e,
      refl,
      refl,
    );
    moved =
        λ q q' jobs peak m h. quiet-Delivering transport written ended source Calls q q' jobs m h;
    moved_place =
        λ q q' jobs place m h. quiet-Open transport written ended source Calls q q' jobs place m h;
    transmits = laws.transmit_quiet;
    resets = laws.reset_quiet;
    measured = λ q jobs peak h. h;
    failed = λ q jobs peak id h.
        Ends-Delivering transport written ended source Calls q jobs _
          (assign-Ends transport written ended source Calls id jobs) h;
    ended_jobs = λ q jobs peak file_id h.
        Ends-Delivering transport written ended source Calls q jobs _
          (end_jobs-Ends transport written ended source Calls file_id jobs) h;
    ended_place = λ q jobs place file_id h.
        end_jobs-Open transport written ended source Calls q jobs place file_id h;
    sent = λ q jobs peak id path offset size rest progressed files content d job h o u f is e good.
        (sent-Delivering transport written ended source Calls laws) q jobs id size d job h o.0
          ((read_lem transport written ended source Calls laws) path offset size files content d
            jobs id job o.1 u f is e o.2 o.3 o.4)
          e good;
    entered = λ q jobs peak job call new le eof few short h.
        (entered-Delivering transport written ended source Calls laws) q jobs job call le h;
    entered_place = λ q jobs peak id path offset size rest progressed d job h o.
        (entered-Open transport written ended source Calls laws) q jobs id path offset size rest
          progressed d job h o;
  }

  -- Let `Calls` hold of the file id, the path, the size, the offset and the priority of every call of
  -- `start`. Of a new scheduler, after any interleaving of `start`, `cancel`, `close` and `notify`, of
  -- what arrives from the network and of the steps of the task, each stream of a download was handed
  -- the header with the download's file id and then exactly the bytes of its source from some offset
  -- up to the job's, where `Calls` holds of the job's file id, path, size and priority with this
  -- first offset; the job's offset is at most the declared size; the end of the stream was handed to
  -- it only if the offset is the declared size, and the job reads no more then. A file may fail to be
  -- read at any time and otherwise is the source of its path, and the transport keeps apart what the
  -- streams are given.
  pub Reach-Delivering :
      (quic : Q) (s : DownloadScheduler Q)
      → Reach transport
          (Quiet transport written ended source Calls)
          (Unchanged transport written ended source Calls)
          Calls
          (new_scheduler quic)
          s
      → Delivering transport written ended source Calls s.quic s.jobs
  unfolding new_scheduler get
  Reach-Delivering quic s r =
      (Reach-keeps transport (Quiet transport written ended source Calls)
        (Unchanged transport written ended source Calls) Calls
        (Correct transport written ended source Calls)
        (Step-HoldsAt transport
          (λ q jobs peak. (DeliveringOf transport written ended source Calls laws) q jobs)
          (Open transport written ended source Calls) (Quiet transport written ended source Calls)
          (Unchanged transport written ended source Calls) Calls deliveries)
        (new_scheduler quic) s r ((λ id job e. absurd (none-some job e)), tt)).0
