-- ===== src/Storage/Transaction/Atomic.antt =====
-- server/storage/sqlite/db.py: what a transaction leaves, the outermost one and one inside another.
use mathlib.Core.Path.{subst}
use mini_im.Prelude.{
  ℕ, ◌≡◌, refl, sym, ap, ◌∙◌, ◌⊎◌, inl, inr, String, Bool, true, false, ◌&&◌, ◌||◌, not, List, [],
  ◌∷◌, arith, if◌then◌else◌, ◌==◌,
}
use mini_im.Storage.Transaction.{
  Connection, Result, ok, raised, is_empty, in_transaction, savepoint, from_name, release,
  rollback_to, rollback, recover, complete, transaction,
}

number_refl : (n : ℕ) → (n == n) ≡ true
number_refl n = ground arith

open_outside : (b e : Bool) → (b || not e) ≡ true → (e && not b) ≡ false
open_outside b e h = ground arith

or_true : (b : Bool) → (b || true) ≡ true
or_true b = ground arith

module _ {D : Type 0} where
  from_name-top :
      (n : ℕ) (d : D) (outer : List (ℕ × D)) → from_name n ((n, d) ∷ outer) ≡ (n, d) ∷ outer
  unfolding from_name
  from_name-top n d outer = rw (number_refl n) refl

  -- A connection outside of a transaction.
  abbrev pub idle : D → ℕ → Connection D
  idle d drawn = record { main = d; working = d; begun = false; savepoints = []; drawn = drawn }

  -- The same transaction at the same depth, with other tables and more names drawn.
  abbrev pub Deep : Connection D → Connection D → Type 0
  Deep c c' = (w : D) × (k : ℕ) × (c' ≡ record c { working = w; drawn = k })

  -- SQLite has rolled the whole transaction back, as it does on some errors.
  abbrev pub Gone : Connection D → Connection D → Type 0
  Gone c c' = (k : ℕ) × (c' ≡ idle c.main k)

  -- A body that commits nothing by itself, and leaves the savepoints as it found them, or none.
  abbrev pub Contained : {A : Type 0} → (Connection D → Result A × Connection D) → Type 0
  Contained body =
      (c : Connection D) → in_transaction c ≡ true → Deep c (body c).1 ⊎ Gone c (body c).1

  module _ {A : Type 0} where
    -- What the outermost transaction comes to: all that the body did is committed, or nothing of it.
    unfoldable pub outcome : Bool → D → Result A × Connection D → Result A × Connection D
    unfolding in_transaction
    outcome busy d (ok a, c) =
        if in_transaction c && not busy
        then (ok a, idle c.working c.drawn)
        else (raised "release failed", idle d c.drawn)
    outcome busy d (raised e, c) = (raised e, idle d c.drawn)

    complete_deep :
        (busy : Bool) (r : Result A) (d w : D) (n k : ℕ)
        → let c : Connection D = record {
          main = d;
          working = w;
          begun = false;
          savepoints = (n, d) ∷ [];
          drawn = k;
        } in
          complete busy true n r c ≡ outcome busy d (r, c)
    unfolding complete release recover rollback is_empty in_transaction outcome
    complete_deep true (ok a) d w n k = rw (complete, release, from_name-top n d []) refl
    complete_deep false (ok a) d w n k = rw (complete, release, from_name-top n d []) refl
    complete_deep busy (raised e) d w n k = refl

    complete_gone :
        (busy : Bool) (r : Result A) (d : D) (n k : ℕ)
        → complete busy true n r (idle d k) ≡ outcome busy d (r, idle d k)
    unfolding complete release recover rollback from_name is_empty in_transaction outcome
    complete_gone busy (ok a) d n k = refl
    complete_gone busy (raised e) d n k = refl

    -- From a connection outside of a transaction, `transaction` comes to this: if the body returns,
    -- the transaction is still there and its commit does not fail, then what the body did is
    -- committed and the body's result returned; else an error is raised and the tables are those
    -- before. In each case the connection is outside of a transaction afterwards. The body commits
    -- nothing by itself and leaves the savepoints as it found them, or SQLite has rolled all of it
    -- back.
    pub transaction-outcome :
        (busy : Bool) (body : Connection D → Result A × Connection D) (d : D) (k : ℕ)
        → Contained body
        → transaction busy body (idle d k) ≡ outcome busy d (body (savepoint (idle d k)))
    unfolding transaction in_transaction savepoint is_empty
    transaction-outcome busy body d k h =
        let p = body (savepoint (idle d k)) in
        elim (h (savepoint (idle d k)) refl) [
          | inl (w, j, e) ↦
              ap (complete busy true k p.0) e
              ∙ complete_deep busy p.0 d w k j
              ∙ ap (λ (c : Connection D). outcome busy d (p.0, c)) (sym e)
          | inr (j, e) ↦
              ap (complete busy true k p.0) e
              ∙ complete_gone busy p.0 d k j
              ∙ ap (λ (c : Connection D). outcome busy d (p.0, c)) (sym e)
        ]

    -- A transaction inside another one: the body's tables are kept if it returns; on an error the
    -- tables are those before, or the whole transaction is gone.
    abbrev pub Nested : Connection D → Result A × Connection D → Result A × Connection D → Type 0
    Nested c (r, c1) (r', c') =
        ((a : A) × (r ≡ ok a)
          × (r' ≡ ok a)
          × (c' ≡ record c { working = c1.working; drawn = c1.drawn }))
        ⊎ ((e : String) × (r' ≡ raised e)
            × ((c' ≡ record c { drawn = c1.drawn }) ⊎ (c' ≡ idle c.main c1.drawn)))

    complete-Nested :
        (busy : Bool) (r : Result A) (c : Connection D) (w : D) (n k : ℕ)
        → (is_empty c.savepoints && not c.begun) ≡ false
        → let c1 : Connection D = record c {
          working = w;
          savepoints = (n, c.working) ∷ c.savepoints;
          drawn = k;
        } in
          Nested c (r, c1) (complete busy false n r c1)
    unfolding complete release recover rollback rollback_to in_transaction
    complete-Nested busy (ok a) c w n k h =
        rw (complete, release, from_name-top n c.working c.savepoints, h)
          (inl (a, refl, refl, refl))
    complete-Nested busy (raised e) c w n k h =
        rw
          (
            or_true c.begun,
            from_name-top n c.working c.savepoints,
            release,
            from_name-top n c.working c.savepoints,
            h,
          )
          (inr (e, refl, inl refl))

    complete_gone-Nested :
        (busy : Bool) (r : Result A) (c : Connection D) (n k : ℕ)
        → Nested c (r, idle c.main k) (complete busy false n r (idle c.main k))
    unfolding complete release recover rollback from_name is_empty in_transaction
    complete_gone-Nested busy (ok a) c n k = inr ("release failed", refl, inr refl)
    complete_gone-Nested busy (raised e) c n k = inr (e, refl, inr refl)

    -- A transaction inside another one does not commit: if it returns, its body returned the result,
    -- and the savepoints are those before, with the tables that the body left; else the tables are
    -- those before it, or SQLite has rolled back the whole transaction.
    pub transaction-Nested :
        (busy : Bool) (body : Connection D → Result A × Connection D) (c : Connection D)
        → Contained body
        → in_transaction c ≡ true
        → Nested c (body (savepoint c)) (transaction busy body c)
    unfolding transaction savepoint in_transaction is_empty
    transaction-Nested busy body c h t =
        let p = body (savepoint c) in
        let outside : (is_empty c.savepoints && not c.begun) ≡ false =
          open_outside c.begun (is_empty c.savepoints) t in
        elim (h (savepoint c) (or_true c.begun)) [
          | inl (w, j, e) ↦ rw t (
              subst (λ (c1 : Connection D). Nested c (p.0, c1) (complete busy false c.drawn p.0 c1))
                (sym e) (complete-Nested busy p.0 c w c.drawn j outside))
          | inr (j, e) ↦ rw t (
              subst (λ (c1 : Connection D). Nested c (p.0, c1) (complete busy false c.drawn p.0 c1))
                (sym e) (complete_gone-Nested busy p.0 c c.drawn j))
        ]

    -- A transaction is itself a body that a transaction may have.
    pub transaction-Contained :
        (busy : Bool) (body : Connection D → Result A × Connection D)
        → Contained body
        → Contained (transaction busy body)
    transaction-Contained busy body h c t = elim (transaction-Nested busy body c h t) [
      | inl (a, r, r', e) ↦ inl ((body (savepoint c)).1.working, (body (savepoint c)).1.drawn, e)
      | inr (m, r', inl e) ↦ inl (c.working, (body (savepoint c)).1.drawn, e)
      | inr (m, r', inr e) ↦ inr ((body (savepoint c)).1.drawn, e)
    ]
