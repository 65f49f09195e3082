-- ===== src/Examples/Queue.antt =====
-- Runs of the queue of server/storage/sqlite/write_queue.py on a counter.
use mini_im.Prelude.{ℕ, ◌+◌, true, false, some, List, [], ◌∷◌, ◌++◌, ◌≡◌, refl, all}
use mini_im.Storage.WriteQueue.{
  Result, Entry, WriteQueue, Event, run_entry, event_of, create_queue, enqueue, push, over_capacity,
  is_done, work_all, cancel, Step, Run,
}
use mini_im.Storage.WriteQueue.Order.{all_accepted, all_taken, run_operations, Run-order}
use mini_im.Storage.WriteQueue.Bounds.{Bounded, Run-Bounded}
use mini_im.Storage.WriteQueue.Drain.{work_all-drains}

abbrev idle : WriteQueue ℕ ℕ
idle = record {
  max_operations = 2;
  max_payload_bytes = 100;
  pending_payload_bytes = 0;
  queue = [];
  working = false;
  accepting = true;
  done = [];
  futures = 0;
  state = 5;
}

-- Adds one, and fails.
abbrev fail : ℕ → Result ℕ × ℕ
fail n = (Result.raised "busy", n + 1)

abbrev busy : WriteQueue ℕ ℕ
busy = (enqueue true fail 60 idle).1

abbrev entry : Entry ℕ ℕ
entry = record { operation = fail; result = 0; payload_bytes = 60 }

abbrev called_off : WriteQueue ℕ ℕ
called_off = cancel 0 (enqueue true fail 60 busy).1

-- One operation is accepted, one is over the limit of bytes, the first is cancelled by its caller,
-- and run.
abbrev events : List (Event ℕ ℕ)
events =
    event_of fail 60 (enqueue true fail 60 idle).0
    ∷ event_of fail 60 (enqueue true fail 60 busy).0
    ∷ Event.quiet
    ∷ Event.taken entry
    ∷ []

busy_working : called_off.working ≡ true
unfolding enqueue cancel push over_capacity
busy_working = refl

still_waiting : called_off.queue ≡ entry ∷ []
unfolding enqueue cancel push over_capacity
still_waiting = refl

cancelled-Run : Run idle events (run_entry entry [] called_off)
cancelled-Run = Run.next (Step.call idle true fail 60) (
    Run.next (Step.call busy true fail 60) (
      Run.next (Step.cancel_future (enqueue true fail 60 busy).1 0) (
        Run.next (Step.work called_off entry [] busy_working still_waiting)
          (Run.start (run_entry entry [] called_off)))))

Run-order_example :
    (idle.queue ++ all_accepted events ≡ all_taken events ++ (run_entry entry [] called_off).queue)
    × ((run_entry entry [] called_off).state ≡ run_operations (all_taken events) 5)
Run-order_example = Run-order cancelled-Run

-- The cancelled operation has run.
has_run : (run_entry entry [] called_off).state ≡ 6
unfolding enqueue cancel push over_capacity run_entry
has_run = refl

created : create_queue 2 100 5 ≡ some idle
unfolding create_queue
created = refl

Run-Bounded_example : Bounded (run_entry entry [] called_off)
Run-Bounded_example =
    Run-Bounded 2 100 5 idle (run_entry entry [] called_off) events created cancelled-Run

work_all-drains_example :
    ((work_all busy.queue busy).queue ≡ [])
    × (all (λ e. is_done e.result (work_all busy.queue busy).done) busy.queue ≡ true)
work_all-drains_example = work_all-drains busy
