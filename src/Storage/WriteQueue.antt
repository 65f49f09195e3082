-- ===== src/Storage/WriteQueue.antt =====
-- server/storage/sqlite/write_queue.py: complete operations run one after the other on the event
-- loop. A future is a number; `done` holds the futures that have a result or are cancelled.
pub mod Order
pub mod Bounds
pub mod Drain
use mini_im.Prelude.{
  ℕ, suc, ◌+◌, ◌-◌, String, Bool, true, false, ◌||◌, not, ◌≡◌, Option, none, some, List, [], ◌∷◌,
  ◌++◌, if◌then◌else◌, ◌==◌, ltb, leb, length, any,
}

-- What an operation does: it returns, returns something to await, or raises.
pub data Result (V : Type 0) : Type 0 where
  returned : V → Result V
  awaitable : Result V
  raised : String → Result V

-- What a future holds.
pub data Settled (V : Type 0) : Type 0 where
  value : V → Settled V
  exception : String → Settled V
  cancelled : Settled V

module _ (S V : Type 0) where
  pub record Entry : Type 0 where
    pub operation : S → Result V × S
    pub result : ℕ
    pub payload_bytes : ℕ

  -- The queue with the futures that it has made and the state that the operations act on.
  pub record WriteQueue : Type 0 where
    pub max_operations : ℕ
    pub max_payload_bytes : ℕ
    pub pending_payload_bytes : ℕ
    pub queue : List Entry
    -- There is a worker task that is not done.
    pub working : Bool
    pub accepting : Bool
    pub done : List (ℕ × Settled V)
    pub futures : ℕ
    pub state : S

-- The exceptions of `enqueue`, or the future.
pub data Enqueued : Type 0 where
  future : ℕ → Enqueued
  stopping : Enqueued
  not_synchronous : Enqueued
  full : Enqueued

-- What an observer of the queue sees in a step: an operation is accepted, an entry is taken by the
-- worker, or neither.
module _ (S V : Type 0) where
  pub data Event : Type 0 where
    accepted : Entry S V → Event
    taken : Entry S V → Event
    quiet : Event

module _ {S V : Type 0} where
  unfoldable pub event_of : (S → Result V × S) → ℕ → Enqueued → Event S V
  event_of operation payload_bytes (Enqueued.future n) =
      Event.accepted (record { operation = operation; result = n; payload_bytes = payload_bytes })
  event_of operation payload_bytes Enqueued.stopping = Event.quiet
  event_of operation payload_bytes Enqueued.not_synchronous = Event.quiet
  event_of operation payload_bytes Enqueued.full = Event.quiet

module _ {V : Type 0} where
  -- `result.done()`
  unfoldable pub is_done : ℕ → List (ℕ × Settled V) → Bool
  unfolding any
  is_done result done = any (λ r. r.0 == result) done

  unfoldable pub settle_future : ℕ → Settled V → List (ℕ × Settled V) → List (ℕ × Settled V)
  unfolding is_done
  settle_future result settled done = if is_done result done then done else (result, settled) ∷ done

  unfoldable pub settled_of : Result V → Settled V
  settled_of (Result.returned v) = Settled.value v
  settled_of Result.awaitable = Settled.exception "write operation must complete without awaiting"
  settled_of (Result.raised error) = Settled.exception error

module _ {S V : Type 0} where
  -- `__init__`; none is the `ValueError` of a limit that is not positive.
  unfoldable pub create_queue : ℕ → ℕ → S → Option (WriteQueue S V)
  create_queue max_operations max_payload_bytes state =
      if max_operations == 0 || max_payload_bytes == 0
      then none
      else some (record {
        max_operations = max_operations;
        max_payload_bytes = max_payload_bytes;
        pending_payload_bytes = 0;
        queue = [];
        working = false;
        accepting = true;
        done = [];
        futures = 0;
        state = state;
      })

  -- `len(self.m_queue) >= self.max_operations or payload_bytes > self.max_payload_bytes - …`
  unfoldable pub over_capacity : WriteQueue S V → ℕ → Bool
  over_capacity q payload_bytes =
      leb q.max_operations (length q.queue)
      || ltb q.max_payload_bytes (q.pending_payload_bytes + payload_bytes)

  unfoldable pub push : (S → Result V × S) → ℕ → WriteQueue S V → WriteQueue S V
  push operation payload_bytes q = record q {
    queue =
        q.queue
        ++ record { operation = operation; result = q.futures; payload_bytes = payload_bytes } ∷ [];
    pending_payload_bytes = q.pending_payload_bytes + payload_bytes;
    working = true;
    futures = suc q.futures;
  }

  -- A size is never negative here; `synchronous` is what `callable` and `inspect` say.
  unfoldable pub enqueue :
      Bool → (S → Result V × S) → ℕ → WriteQueue S V → Enqueued × WriteQueue S V
  unfolding over_capacity push
  enqueue synchronous operation payload_bytes q =
      if not q.accepting
      then (Enqueued.stopping, q)
      else if not synchronous
      then (Enqueued.not_synchronous, q)
      else if over_capacity q payload_bytes
      then (Enqueued.full, q)
      else (Enqueued.future q.futures, push operation payload_bytes q)

  -- One round of the loop of the worker, with the entry that it takes.
  unfoldable pub run_entry : Entry S V → List (Entry S V) → WriteQueue S V → WriteQueue S V
  unfolding settle_future settled_of
  run_entry e rest q =
      let (outcome, state) = e.operation q.state in
      record q {
        queue = rest;
        pending_payload_bytes = q.pending_payload_bytes - e.payload_bytes;
        done = settle_future e.result (settled_of outcome) q.done;
        state = state;
      }

  -- The loop of the worker over the entries that wait, with nothing else in between.
  unfoldable pub work_all : List (Entry S V) → WriteQueue S V → WriteQueue S V
  unfolding run_entry
  work_all [] q = q
  work_all (e ∷ es) q = work_all es (run_entry e es q)

  -- The caller of `submit`, or another holder of the future, cancels it.
  unfoldable pub cancel : ℕ → WriteQueue S V → WriteQueue S V
  unfolding settle_future
  cancel result q = record q { done = settle_future result Settled.cancelled q.done }

  -- What happens on the event loop: a call of `enqueue`, a round of the worker, its end, a
  -- cancellation, or `stop`.
  pub data Step : WriteQueue S V → Event S V → WriteQueue S V → Type 0 where
    call :
        (q : WriteQueue S V) (synchronous : Bool) (operation : S → Result V × S) (payload_bytes : ℕ)
        → Step q
            (event_of operation payload_bytes (enqueue synchronous operation payload_bytes q).0)
            (enqueue synchronous operation payload_bytes q).1
    work :
        (q : WriteQueue S V) (e : Entry S V) (rest : List (Entry S V))
        → q.working ≡ true
        → q.queue ≡ e ∷ rest
        → Step q (Event.taken e) (run_entry e rest q)
    finish :
        (q : WriteQueue S V)
        → q.working ≡ true
        → q.queue ≡ []
        → Step q Event.quiet (record q { working = false })
    cancel_future : (q : WriteQueue S V) (result : ℕ) → Step q Event.quiet (cancel result q)
    stop : (q : WriteQueue S V) → Step q Event.quiet (record q { accepting = false })

  pub data Run : WriteQueue S V → List (Event S V) → WriteQueue S V → Type 0 where
    start : (q : WriteQueue S V) → Run q [] q
    next :
        {q q' q'' : WriteQueue S V} {e : Event S V} {es : List (Event S V)}
        → Step q e q'
        → Run q' es q''
        → Run q (e ∷ es) q''
