-- ===== src/Storage/WriteQueue/Order.antt =====
-- server/storage/sqlite/write_queue.py: accepted operations run once, in the order of acceptance.
use mathlib.Core.Path.{subst}
use mathlib.Core.List.{append_assoc, append-nil}
use mini_im.Prelude.{
  ℕ, Bool, false, List, [], ◌∷◌, ◌++◌, ◌≡◌, refl, sym, ap, ◌∙◌, ◌⊎◌, inl, inr, Bool-cases,
}
use mini_im.Storage.WriteQueue.{
  Result, Entry, WriteQueue, Event, event_of, over_capacity, push, enqueue, run_entry, cancel, Step,
  Run,
}

module _ {S V : Type 0} where
  abbrev of_accepted : Event S V → List (Entry S V) → List (Entry S V)
  of_accepted (Event.accepted e) es = e ∷ es
  of_accepted (Event.taken e) es = es
  of_accepted Event.quiet es = es

  abbrev of_taken : Event S V → List (Entry S V) → List (Entry S V)
  of_taken (Event.accepted e) es = es
  of_taken (Event.taken e) es = e ∷ es
  of_taken Event.quiet es = es

  unfoldable pub all_accepted : List (Event S V) → List (Entry S V)
  all_accepted [] = []
  all_accepted (e ∷ es) = of_accepted e (all_accepted es)

  unfoldable pub all_taken : List (Event S V) → List (Entry S V)
  all_taken [] = []
  all_taken (e ∷ es) = of_taken e (all_taken es)

  -- The state after some operations, one after the other.
  unfoldable pub run_operations : List (Entry S V) → S → S
  run_operations [] s = s
  run_operations (e ∷ es) s = run_operations es (e.operation s).1

  -- A call is refused and changes nothing, or pushes the operation.
  pub enqueue-cases :
      (synchronous : Bool) (operation : S → Result V × S) (bytes : ℕ) (q : WriteQueue S V)
      → ((event_of operation bytes (enqueue synchronous operation bytes q).0 ≡ Event.quiet)
          × ((enqueue synchronous operation bytes q).1 ≡ q))
        ⊎ ((over_capacity q bytes ≡ false)
            × (event_of operation bytes (enqueue synchronous operation bytes q).0
                ≡ Event.accepted
                    (record { operation = operation; result = q.futures; payload_bytes = bytes }))
            × ((enqueue synchronous operation bytes q).1 ≡ push operation bytes q))
  unfolding enqueue event_of
  enqueue-cases synchronous operation bytes q = elim (Bool-cases q.accepting) [
    | inr n ↦ inl (rw n refl, rw n refl)
    | inl a ↦ elim (Bool-cases synchronous) [
      | inr n ↦ inl (rw (a, n) refl, rw (a, n) refl)
      | inl y ↦ elim (Bool-cases (over_capacity q bytes)) [
        | inl f ↦ inl (rw (a, y, f) refl, rw (a, y, f) refl)
        | inr n ↦ inr (n, rw (a, y, n) refl, rw (a, y, n) refl)
      ]
    ]
  ]

  -- What a step adds to the two sides.
  abbrev Balanced : WriteQueue S V → Event S V → WriteQueue S V → Type 0
  Balanced q e q' =
      (accepted taken rest : List (Entry S V))
      → q'.queue ++ accepted ≡ taken ++ rest
      → q.queue ++ of_accepted e accepted ≡ of_taken e taken ++ rest

  push-Balanced :
      (operation : S → Result V × S) (bytes : ℕ) (q : WriteQueue S V)
      → Balanced q
          (Event.accepted
            (record { operation = operation; result = q.futures; payload_bytes = bytes }))
          (push operation bytes q)
  unfolding push
  push-Balanced operation bytes q accepted taken rest h =
      let e : Entry S V = record {
        operation = operation;
        result = q.futures;
        payload_bytes = bytes;
      } in
      sym (append_assoc q.queue (e ∷ []) accepted) ∙ h

  Step-Balanced : {q q' : WriteQueue S V} {e : Event S V} → Step q e q' → Balanced q e q'
  unfolding run_entry cancel
  Step-Balanced (Step.call q s o b) = elim (enqueue-cases s o b q) [
    | inl (e, f) ↦
        subst (λ ev. Balanced q ev (enqueue s o b q).1) (sym e)
          (subst (λ q'. Balanced q Event.quiet q') (sym f) (λ accepted taken rest h. h))
    | inr (_, e, f) ↦
        subst (λ ev. Balanced q ev (enqueue s o b q).1) (sym e)
          (subst
            (λ q'.
              Balanced q
                (Event.accepted (record { operation = o; result = q.futures; payload_bytes = b }))
                q')
            (sym f) (push-Balanced o b q))
  ]
  Step-Balanced (Step.work q e es w l) =
      λ accepted taken rest h. ap (λ xs. xs ++ accepted) l ∙ ap (◌∷◌ e) h
  Step-Balanced (Step.finish q w l) = λ accepted taken rest h. h
  Step-Balanced (Step.cancel_future q n) = λ accepted taken rest h. h
  Step-Balanced (Step.stop q) = λ accepted taken rest h. h

  -- A step runs the operation that it takes, on the state before it, and no other.
  Step-state :
      {q q' : WriteQueue S V} {e : Event S V} (es : List (Entry S V))
      → Step q e q'
      → run_operations es q'.state ≡ run_operations (of_taken e es) q.state
  unfolding run_entry cancel run_operations push
  Step-state es (Step.call q s o b) = elim (enqueue-cases s o b q) [
    | inl (e, f) ↦
        ap (λ (x : WriteQueue S V). run_operations es x.state) f
        ∙ sym (ap (λ ev. run_operations (of_taken ev es) q.state) e)
    | inr (_, e, f) ↦
        ap (λ (x : WriteQueue S V). run_operations es x.state) f
        ∙ sym (ap (λ ev. run_operations (of_taken ev es) q.state) e)
  ]
  Step-state es (Step.work q e rest w l) = refl
  Step-state es (Step.finish q w l) = refl
  Step-state es (Step.cancel_future q n) = refl
  Step-state es (Step.stop q) = refl

  Run-Balanced :
      {q q' : WriteQueue S V} {es : List (Event S V)}
      → Run q es q'
      → q.queue ++ all_accepted es ≡ all_taken es ++ q'.queue
  unfolding all_accepted all_taken
  Run-Balanced (Run.start q) = append-nil q.queue
  Run-Balanced {q' = q'} (Run.next {es = es} step run) =
      Step-Balanced step (all_accepted es) (all_taken es) q'.queue (Run-Balanced run)

  Run-state :
      {q q' : WriteQueue S V} {es : List (Event S V)}
      → Run q es q'
      → q'.state ≡ run_operations (all_taken es) q.state
  unfolding all_taken run_operations
  Run-state (Run.start q) = refl
  Run-state (Run.next {es = es} step run) = Run-state run ∙ Step-state (all_taken es) step

  -- Over any run, in which callers may cancel and the queue may be stopped: the entries that were
  -- waiting, followed by those accepted, are those that the worker took followed by those that wait
  -- at the end; and the state at the end is that of running the operations of the entries taken, one
  -- after the other in this order, on the state at the start. So each accepted operation is run at
  -- most once, in the order of acceptance, whether its future is cancelled or not, nothing else
  -- changes the state, and no operation is lost.
  pub Run-order :
      {q q' : WriteQueue S V} {es : List (Event S V)}
      → Run q es q'
      → (q.queue ++ all_accepted es ≡ all_taken es ++ q'.queue)
        × (q'.state ≡ run_operations (all_taken es) q.state)
  Run-order run = (Run-Balanced run, Run-state run)
