-- ===== src/Storage/WriteQueue/Drain.antt =====
-- server/storage/sqlite/write_queue.py: the worker empties the queue and settles every future.
use mini_im.Prelude.{ℕ, true, List, [], ◌∷◌, ◌≡◌, refl, any, all, arith}
use mini_im.Storage.WriteQueue.{
  Settled, Entry, WriteQueue, is_done, settle_future, settled_of, run_entry, work_all,
}

module _ {V : Type 0} where
  settle_done :
      (n : ℕ) (s : Settled V) (done : List (ℕ × Settled V))
      → is_done n (settle_future n s done) ≡ true
  unfolding settle_future is_done any
  settle_done n s done = ground arith

  settle_keeps :
      (m n : ℕ) (s : Settled V) (done : List (ℕ × Settled V))
      → is_done m done ≡ true
      → is_done m (settle_future n s done) ≡ true
  unfolding settle_future is_done any
  settle_keeps m n s done h = ground arith

module _ {S V : Type 0} where
  work_all_keeps :
      (m : ℕ) (es : List (Entry S V)) (q : WriteQueue S V)
      → is_done m q.done ≡ true
      → is_done m (work_all es q).done ≡ true
  unfolding work_all run_entry
  work_all_keeps m [] q h = h
  work_all_keeps m (e ∷ es) q h =
      work_all_keeps m es (run_entry e es q)
        (settle_keeps m e.result (settled_of (e.operation q.state).0) q.done h)

  work_all_settles :
      (es : List (Entry S V)) (q : WriteQueue S V)
      → all (λ e. is_done e.result (work_all es q).done) es ≡ true
  unfolding work_all run_entry all
  work_all_settles [] q = refl
  work_all_settles (e ∷ es) q = ground (
    arith,
    work_all_keeps e.result es (run_entry e es q)
        (settle_done e.result (settled_of (e.operation q.state).0) q.done),
    work_all_settles es (run_entry e es q),
  )

  work_all_empties :
      (es : List (Entry S V)) (q : WriteQueue S V) → q.queue ≡ es → (work_all es q).queue ≡ []
  unfolding work_all run_entry
  work_all_empties [] q h = h
  work_all_empties (e ∷ es) q h = work_all_empties es (run_entry e es q) refl

  -- As many rounds of the worker as operations wait empty the queue, and every operation that was
  -- waiting then has a result, whatever the operations do: they return, raise, or return something
  -- to await. This is what `stop` waits for.
  pub work_all-drains :
      (q : WriteQueue S V)
      → ((work_all q.queue q).queue ≡ [])
        × (all (λ e. is_done e.result (work_all q.queue q).done) q.queue ≡ true)
  work_all-drains q = (work_all_empties q.queue q refl, work_all_settles q.queue q)
