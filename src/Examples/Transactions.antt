-- ===== src/Examples/Transactions.antt =====
-- A transaction whose body catches the error of a transaction inside it.
use mini_im.Prelude.{ℕ, ◌≡◌, refl, inl, inr, true, false}
use mini_im.Storage.Transaction.{
  Connection, Result, ok, raised, in_transaction, savepoint, transaction, complete, recover,
  release, rollback_to, from_name, is_empty,
}
use mini_im.Storage.Transaction.Atomic.{
  idle, Contained, Nested, outcome, transaction-outcome, transaction-Nested, transaction-Contained,
}

abbrev inside : Connection ℕ
inside = savepoint (idle 0 0)

abbrev fails : Connection ℕ → Result ℕ × Connection ℕ
fails c = (raised "conflict", record c { working = 9 })

fails-Contained : Contained fails
fails-Contained c t = inl (9, c.drawn, refl)

abbrev catches : Connection ℕ → Result ℕ × Connection ℕ
catches c = (ok 1, (transaction false fails (record c { working = 5 })).1)

catches-Contained : Contained catches
unfolding in_transaction
catches-Contained c t =
    elim (transaction-Contained false fails fails-Contained (record c { working = 5 }) t) [
      | inl (w, k, e) ↦ inl (w, k, e)
      | inr (k, e) ↦ inr (k, e)
    ]

transaction-outcome_example :
    transaction false catches (idle 0 0) ≡ outcome false 0 (catches (savepoint (idle 0 0)))
transaction-outcome_example = transaction-outcome false catches 0 0 catches-Contained

-- What the body left is committed, without what failed inside it.
kept : transaction false catches (idle 0 0) ≡ (ok 1, idle 5 2)
unfolding transaction savepoint in_transaction complete recover release rollback_to from_name
    is_empty
kept = refl

nested_open : in_transaction inside ≡ true
unfolding in_transaction savepoint is_empty
nested_open = refl

transaction-Nested_example :
    Nested inside (fails (savepoint inside)) (transaction false fails inside)
transaction-Nested_example = transaction-Nested false fails inside fails-Contained nested_open
