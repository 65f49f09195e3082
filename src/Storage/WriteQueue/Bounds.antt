-- ===== src/Storage/WriteQueue/Bounds.antt =====
-- server/storage/sqlite/write_queue.py: the limits of the queue, and its worker.
use mathlib.Core.Path.{subst}
use mini_im.Prelude.{
  ℕ, ◌+◌, ◌≤◌, true, false, some, List, [], ◌∷◌, ◌++◌, ◌≡◌, refl, sym, ap, ◌∙◌, ◌⊎◌, inl, inr,
  length, arith,
}
use mini_im.Storage.WriteQueue.{
  Result, Entry, WriteQueue, Event, over_capacity, push, create_queue, run_entry, cancel, Step, Run,
}
use mini_im.Storage.WriteQueue.Order.{enqueue-cases}

module _ {S V : Type 0} where
  unfoldable pub total_bytes : List (Entry S V) → ℕ
  total_bytes [] = 0
  total_bytes (e ∷ es) = e.payload_bytes + total_bytes es

  -- The pending bytes are those of the waiting operations, both limits are kept, and operations
  -- only wait while there is a worker.
  pub record Bounded (q : WriteQueue S V) : Type 0 where
    pub pending : q.pending_payload_bytes ≡ total_bytes q.queue
    pub bytes : q.pending_payload_bytes ≤ q.max_payload_bytes
    pub operations : length q.queue ≤ q.max_operations
    pub served : (q.queue ≡ []) ⊎ (q.working ≡ true)

  total_bytes-snoc :
      (es : List (Entry S V)) (e : Entry S V)
      → total_bytes (es ++ e ∷ []) ≡ total_bytes es + e.payload_bytes
  unfolding total_bytes
  total_bytes-snoc [] e = omega arith
  total_bytes-snoc (x ∷ es) e = omega (arith, total_bytes-snoc es e)

  length-snoc : (es : List (Entry S V)) (e : Entry S V) → length (es ++ e ∷ []) ≡ length es + 1
  length-snoc [] e = omega arith
  length-snoc (x ∷ es) e = omega (arith, length-snoc es e)

  over_capacity_lem :
      (q : WriteQueue S V) (bytes : ℕ)
      → over_capacity q bytes ≡ false
      → (length q.queue + 1 ≤ q.max_operations)
        × (q.pending_payload_bytes + bytes ≤ q.max_payload_bytes)
  unfolding over_capacity
  over_capacity_lem q bytes h = (ground arith, ground arith)

  push-Bounded :
      (operation : S → Result V × S) (bytes : ℕ) (q : WriteQueue S V)
      → over_capacity q bytes ≡ false
      → Bounded q
      → Bounded (push operation bytes q)
  unfolding push
  push-Bounded operation bytes q room h =
      let e : Entry S V = record {
        operation = operation;
        result = q.futures;
        payload_bytes = bytes;
      } in
      record {
        pending = ap (λ n. n + bytes) h.pending ∙ sym (total_bytes-snoc q.queue e);
        bytes = (over_capacity_lem q bytes room).1;
        operations = omega (arith, length-snoc q.queue e, (over_capacity_lem q bytes room).0);
        served = inr refl;
      }

  run_entry-Bounded :
      (e : Entry S V) (es : List (Entry S V)) (q : WriteQueue S V)
      → q.working ≡ true
      → q.queue ≡ e ∷ es
      → Bounded q
      → Bounded (run_entry e es q)
  unfolding run_entry total_bytes
  run_entry-Bounded e es q w l h =
      let total : total_bytes q.queue ≡ e.payload_bytes + total_bytes es = ap total_bytes l in
      let size : length q.queue ≡ length es + 1 = ap length l ∙ omega arith in
      record {
        pending = omega (arith, total, h.pending);
        bytes = omega (arith, h.bytes);
        operations = omega (arith, size, h.operations);
        served = inr w;
      }

  Step-Bounded : {q q' : WriteQueue S V} {e : Event S V} → Step q e q' → Bounded q → Bounded q'
  unfolding cancel
  Step-Bounded (Step.call q s o b) h = elim (enqueue-cases s o b q) [
    | inl (_, f) ↦ subst (λ q'. Bounded q') (sym f) h
    | inr (room, _, f) ↦ subst (λ q'. Bounded q') (sym f) (push-Bounded o b q room h)
  ]
  Step-Bounded (Step.work q e es w l) h = run_entry-Bounded e es q w l h
  Step-Bounded (Step.finish q w l) h = record {
    pending = h.pending;
    bytes = h.bytes;
    operations = h.operations;
    served = inl l;
  }
  Step-Bounded (Step.cancel_future q n) h = record {
    pending = h.pending;
    bytes = h.bytes;
    operations = h.operations;
    served = h.served;
  }
  Step-Bounded (Step.stop q) h = record {
    pending = h.pending;
    bytes = h.bytes;
    operations = h.operations;
    served = h.served;
  }

  Bounded-Run :
      {q q' : WriteQueue S V} {es : List (Event S V)} → Run q es q' → Bounded q → Bounded q'
  Bounded-Run (Run.start q) h = h
  Bounded-Run (Run.next step run) h = Bounded-Run run (Step-Bounded step h)

  create_queue-Bounded :
      (max_operations max_payload_bytes : ℕ) (state : S) (q : WriteQueue S V)
      → create_queue max_operations max_payload_bytes state ≡ some q
      → Bounded q
  unfolding create_queue total_bytes
  create_queue-Bounded max_operations max_payload_bytes state q h =
      let empty_queue : q.queue ≡ [] = ground arith in
      record {
        pending = ground (arith, ap total_bytes empty_queue);
        bytes = ground arith;
        operations = ground arith;
        served = inl empty_queue;
      }

  -- Over any run from a queue that was created: the queue keeps both of its limits, its count of
  -- pending bytes is that of the waiting operations, and operations only wait while there is a
  -- worker.
  pub Run-Bounded :
      (max_operations max_payload_bytes : ℕ) (state : S) (q q' : WriteQueue S V)
      (es : List (Event S V))
      → create_queue max_operations max_payload_bytes state ≡ some q
      → Run q es q'
      → Bounded q'
  Run-Bounded max_operations max_payload_bytes state q q' es h run =
      Bounded-Run run (create_queue-Bounded max_operations max_payload_bytes state q h)
