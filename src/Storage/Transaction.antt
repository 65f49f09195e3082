-- ===== src/Storage/Transaction.antt =====
-- server/storage/sqlite/db.py: transactions, which nest as savepoints of one SQLite connection. The
-- tables are of any type.
pub mod Atomic
use mini_im.Prelude.{
  ℕ, suc, String, Bool, true, false, ◌&&◌, ◌||◌, not, Option, none, some, List, [], ◌∷◌,
  if◌then◌else◌, ◌==◌,
}

-- `main` is what is committed, `working` what the connection sees; `begun` tells of a transaction
-- that was begun otherwise than by a savepoint. The innermost savepoint comes first, with what it
-- goes back to. `drawn` counts the names that `uuid4` drew.
pub record Connection (D : Type 0) : Type 0 where
  pub main : D
  pub working : D
  pub begun : Bool
  pub savepoints : List (ℕ × D)
  pub drawn : ℕ

pub data Result (A : Type 0) : Type 0 where
  ok : A → Result A
  raised : String → Result A

module _ {D : Type 0} where
  unfoldable pub is_empty : List (ℕ × D) → Bool
  is_empty [] = true
  is_empty (s ∷ savepoints) = false

  unfoldable pub in_transaction : Connection D → Bool
  unfolding is_empty
  in_transaction c = c.begun || not (is_empty c.savepoints)

  -- `SAVEPOINT name`, with a new name.
  unfoldable pub savepoint : Connection D → Connection D
  savepoint c = record c { savepoints = (c.drawn, c.working) ∷ c.savepoints; drawn = suc c.drawn }

  -- The savepoints from the one of a name on.
  unfoldable pub from_name : ℕ → List (ℕ × D) → List (ℕ × D)
  from_name name [] = []
  from_name name ((n, d) ∷ savepoints) =
      if n == name then (n, d) ∷ savepoints else from_name name savepoints

  -- `RELEASE SAVEPOINT name`; `none` is an `sqlite3.Error`. The outermost one commits, which `busy`
  -- lets fail.
  unfoldable pub release : Bool → ℕ → Connection D → Option (Connection D)
  unfolding from_name is_empty
  release busy name c = elim (from_name name c.savepoints) [
    | [] ↦ none
    | s ∷ outer ↦
        if is_empty outer && not c.begun
        then if busy then none else some (record c { main = c.working; savepoints = outer })
        else some (record c { savepoints = outer })
  ]

  -- `ROLLBACK TO SAVEPOINT name`, which keeps the savepoint.
  unfoldable pub rollback_to : ℕ → Connection D → Option (Connection D)
  unfolding from_name
  rollback_to name c = elim (from_name name c.savepoints) [
    | [] ↦ none
    | (n, d) ∷ outer ↦ some (record c { working = d; savepoints = (n, d) ∷ outer })
  ]

  -- `connection.rollback()`
  unfoldable pub rollback : Connection D → Connection D
  rollback c = record c { working = c.main; begun = false; savepoints = [] }

  -- The handler of an exception.
  unfoldable pub recover : {A : Type 0} → Bool → ℕ → String → Connection D → Result A × Connection D
  unfolding in_transaction rollback rollback_to release
  recover outermost name e c =
      if in_transaction c
      then if outermost then (raised e, rollback c) else elim (rollback_to name c) [
        | none ↦ (raised "no such savepoint", c)
        | some c1 ↦ elim (release false name c1) [
          | none ↦ (raised "no such savepoint", c1)
          | some c2 ↦ (raised e, c2)
        ]
      ]
      else (raised e, c)

  -- What follows the body of the `with`.
  unfoldable pub complete :
      {A : Type 0} → Bool → Bool → ℕ → Result A → Connection D → Result A × Connection D
  unfolding release recover
  complete busy outermost name (ok a) c = elim (release busy name c) [
    | none ↦ recover outermost name "release failed" c
    | some c1 ↦ (ok a, c1)
  ]
  complete busy outermost name (raised e) c = recover outermost name e c

  unfoldable pub transaction :
      {A : Type 0}
      → Bool
      → (Connection D → Result A × Connection D)
      → Connection D
      → Result A × Connection D
  unfolding in_transaction savepoint complete
  transaction busy body c =
      let (result, c1) = body (savepoint c) in
      complete busy (not (in_transaction c)) c.drawn result c1
