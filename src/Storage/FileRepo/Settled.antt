-- ===== src/Storage/FileRepo/Settled.antt =====
-- server/storage/repo/file_repo.py: what holds of the table of transfers over any sequence of steps.
use mathlib.Core.Path.{subst}
use text.Mathlib.TextEquality.{eq_iff}
use mathlib.Core.Bool.{false≢true}
use mini_im.Prelude.{
  text_test, text_test_no, Bool-cases, ◌≢◌, ◌==◌, String_discrete, ℕ, ◌≤◌, ◌≡◌, refl, sym, ap, ◌∙◌,
  ◌⊎◌, inl, inr, String, true, false, ◌||◌, none, some, List, [], ◌∷◌, arith, if◌then◌else◌, ◌=?◌,
  find?, update_where,
}
use mini_im.Storage.Db.{FileTransferRow}
use mini_im.Storage.FileRepo.{is_final, find_transfer}
use mini_im.Storage.FileRepo.Rows.{
  Transition, receive, rewind, complete, fail, restart, cancel, Moved, Has, RowStep, same, insert,
  update,
}

-- The bytes of a transfer fit its size, and all have arrived once it is uploaded or completed.
pub record Filled (r : FileTransferRow) : Type 0 where
  pub within : r.received_bytes ≤ r.file_size
  pub whole :
      ((r.status =? "uploaded") || (r.status =? "completed")) ≡ true
      → r.received_bytes ≡ r.file_size

-- Every transfer is filled, and no two have the same identifier.
abbrev pub WellFormed : List FileTransferRow → Type 0
WellFormed [] = Unit {0}
WellFormed (r ∷ rows) = (find_transfer r.file_id rows ≡ none) × Filled r × WellFormed rows

-- What a row becomes: its identity stays, its version does not decrease, and nothing at all changes
-- once it is completed or cancelled.
pub record Evolved (row row' : FileTransferRow) : Type 0 where
  pub frame : row' ≡ record row {
    request_id = row'.request_id;
    priority = row'.priority;
    received_bytes = row'.received_bytes;
    status = row'.status;
    version = row'.version;
    updated_at_ms = row'.updated_at_ms;
  }
  pub version : row.version ≤ row'.version
  pub final : is_final row.status ≡ true → row' ≡ row

pub Evolved-refl : (row : FileTransferRow) → Evolved row row
Evolved-refl row = record { frame = refl; version = omega arith; final = λ _. refl }

pub Evolved-trans : {a b c : FileTransferRow} → Evolved a b → Evolved b c → Evolved a c
Evolved-trans {a} {b} {c} h k = record {
  frame =
      k.frame
      ∙ ap
          (λ (r : FileTransferRow). record r {
            request_id = c.request_id;
            priority = c.priority;
            received_bytes = c.received_bytes;
            status = c.status;
            version = c.version;
            updated_at_ms = c.updated_at_ms;
          })
          h.frame;
  version = omega (arith, h.version, k.version);
  final = λ done.
      k.final (subst (λ (r : FileTransferRow). is_final r.status ≡ true) (sym (h.final done)) done)
      ∙ h.final done;
}

abbrev Whole : ℕ → String → ℕ → Type 0
Whole size status received_bytes =
    ((status =? "uploaded") || (status =? "completed")) ≡ true → received_bytes ≡ size

-- A status that is neither.
open_status :
    (size n : ℕ) (status : String) (s' : String)
    → s' ≡ status
    → ((status =? "uploaded") || (status =? "completed")) ≡ false
    → Whole size s' n
open_status size n status s' e no_ w = absurd (
    false≢true
      (sym no_ ∙ subst (λ (t : String). ((t =? "uploaded") || (t =? "completed")) ≡ true) e w))

-- A transition keeps a transfer filled.
fills :
    (size : ℕ) (s : String) (n : ℕ) (s' : String) (n' : ℕ)
    → Transition size s n s' n'
    → n ≤ size
    → Whole size s n
    → (n' ≤ size) × Whole size s' n'
unfolding String_discrete
fills size s n s' n' (receive more fits e) h w = (
  fits,
  elim (Bool-cases (n' == size)) [
    | inl full ↦ λ _. ground arith
    | inr part ↦ open_status size n' "uploading" s' (e ∙ rw part refl) refl
  ],
)
fills size s n s' n' (rewind less (inl e)) h w =
    (omega arith, open_status size n' "failed_integrity" s' e refl)
fills size s n s' n' (rewind less (inr e)) h w = (
  omega arith,
  elim (Bool-cases (n' == 0)) [
    | inl start ↦ open_status size n' "init" s' (e ∙ rw start refl) refl
    | inr part ↦ open_status size n' "uploading" s' (e ∙ rw part refl) refl
  ],
)
fills size s n s' n' (complete e f) h w = (omega arith, λ _. e)
fills size s n s' n' (fail e f) h w = (omega arith, open_status size n' "failed" s' f refl)
fills size s n s' n' (restart e (inl f)) h w = (omega arith, open_status size n' "init" s' f refl)
fills size s n s' n' (restart e (inr f)) h w = (
  omega arith,
  λ k. e ∙ w (subst (λ (t : String). ((t =? "uploaded") || (t =? "completed")) ≡ true) f k),
)
fills size s n s' n' (cancel e f) h w = (omega arith, open_status size n' "cancelled" s' f refl)

Transition-Filled : {old new : FileTransferRow} → Filled old → Moved old new → Filled new
Transition-Filled {old} {new} h m =
    let size : new.file_size ≡ old.file_size = ap (λ (r : FileTransferRow). r.file_size) m.frame in
    let f =
      fills old.file_size old.status old.received_bytes new.status new.received_bytes m.transition
        h.within h.whole in
    record { within = omega (arith, size, f.0); whole = λ w. f.1 w ∙ sym size }

-- A row that a look-up misses has another identifier.
missed :
    (file_id : String) (r : FileTransferRow) (rows : List FileTransferRow)
    → Has r rows
    → find_transfer file_id rows ≡ none
    → r.file_id ≢ file_id
unfolding find_transfer find?
missed file_id r [] h n = absurd h
missed file_id r (x ∷ rows) (inl e) n = ground (arith, eq_iff r.file_id file_id)
missed file_id r (x ∷ rows) (inr h) n = missed file_id r rows h (ground arith)

-- Rows of equal identifiers are equal.
only_row :
    (old r : FileTransferRow) (rows : List FileTransferRow)
    → WellFormed rows
    → Has old rows
    → Has r rows
    → r.file_id ≡ old.file_id
    → r ≡ old
only_row old r [] w h k e = absurd h
only_row old r (x ∷ rows) w (inl p) (inl q) e = sym q ∙ p
only_row old r (x ∷ rows) w (inl p) (inr k) e =
    absurd (missed x.file_id r rows k w.0 (e ∙ ap (λ (y : FileTransferRow). y.file_id) (sym p)))
only_row old r (x ∷ rows) w (inr h) (inl q) e =
    absurd
      (missed x.file_id old rows h w.0 (sym e ∙ ap (λ (y : FileTransferRow). y.file_id) (sym q)))
only_row old r (x ∷ rows) w (inr h) (inr k) e = only_row old r rows w.2 h k e

-- A row that moves, in a table where it is the only one with its identifier.
module _ (old : FileTransferRow) (f : FileTransferRow → FileTransferRow)
    (moved : Moved old (f old)) where
  same_id : (f old).file_id ≡ old.file_id
  same_id = ap (λ (r : FileTransferRow). r.file_id) moved.frame

  abbrev Only : List FileTransferRow → Type 0
  Only rows = (r : FileTransferRow) → Has r rows → r.file_id ≡ old.file_id → r ≡ old

  abbrev move : FileTransferRow → FileTransferRow
  move r = if r.file_id =? old.file_id then f r else r

  move-cases :
      (r : FileTransferRow)
      → (r.file_id ≡ old.file_id → r ≡ old)
      → (move r ≡ r) ⊎ ((move r ≡ f old) × (r ≡ old))
  move-cases r only = elim (String_discrete r.file_id old.file_id) [
    | yes e ↦ inr (rw (text_test r.file_id old.file_id e) (ap f (only e)), only e)
    | no n ↦ inl (rw (text_test_no r.file_id old.file_id n) refl)
  ]

  move_id :
      (r : FileTransferRow) → (r.file_id ≡ old.file_id → r ≡ old) → (move r).file_id ≡ r.file_id
  move_id r only = elim (move-cases r only) [
    | inl e ↦ ap (λ (x : FileTransferRow). x.file_id) e
    | inr (e, o) ↦
        ap (λ (x : FileTransferRow). x.file_id) e
        ∙ same_id
        ∙ ap (λ (x : FileTransferRow). x.file_id) (sym o)
  ]

  move-Evolved :
      (r : FileTransferRow)
      → (r.file_id ≡ old.file_id → r ≡ old)
      → is_final old.status ≡ false
      → Evolved r (move r)
  move-Evolved r only going = elim (move-cases r only) [
    | inl e ↦ subst (λ (x : FileTransferRow). Evolved r x) (sym e) (Evolved-refl r)
    | inr (e, o) ↦
        subst (λ (x : FileTransferRow). Evolved r x) (sym e)
          (subst (λ (x : FileTransferRow). Evolved x (f old)) (sym o)
            (record {
              frame = moved.frame;
              version = omega (arith, moved.version);
              final = λ done. absurd (false≢true (sym going ∙ done));
            }))
  ]

  move-Filled :
      (r : FileTransferRow) → (r.file_id ≡ old.file_id → r ≡ old) → Filled r → Filled (move r)
  move-Filled r only h = elim (move-cases r only) [
    | inl e ↦ subst Filled (sym e) h
    | inr (e, o) ↦ subst Filled (sym e) (Transition-Filled (subst Filled o h) moved)
  ]

  still_missed :
      (file_id : String) (rows : List FileTransferRow)
      → Only rows
      → find_transfer file_id rows ≡ none
      → find_transfer file_id (update_where (λ r. r.file_id =? old.file_id) f rows) ≡ none
  unfolding find_transfer find? update_where
  still_missed file_id [] only h = refl
  still_missed file_id (r ∷ rows) only h = elim (String_discrete r.file_id file_id) [
    | yes e ↦ absurd (ground arith)
    | no n ↦
        rw (move_id r (only r (inl refl)), text_test_no r.file_id file_id n)
          (still_missed file_id rows (λ x k. only x (inr k)) (ground arith))
  ]

  update-WellFormed :
      (rows : List FileTransferRow)
      → Only rows
      → WellFormed rows
      → WellFormed (update_where (λ r. r.file_id =? old.file_id) f rows)
  unfolding update_where
  update-WellFormed [] only w = tt
  update-WellFormed (r ∷ rows) only w = (
    rw (move_id r (only r (inl refl))) (still_missed r.file_id rows (λ x k. only x (inr k)) w.0),
    move-Filled r (only r (inl refl)) w.1,
    update-WellFormed rows (λ x k. only x (inr k)) w.2,
  )

  update-Evolved :
      (file_id : String) (rows : List FileTransferRow) (row : FileTransferRow)
      → Only rows
      → is_final old.status ≡ false
      → find_transfer file_id rows ≡ some row
      → (row' : FileTransferRow) × (find_transfer file_id
            (update_where (λ r. r.file_id =? old.file_id) f rows)
          ≡ some row')
        × Evolved row row'
  unfolding find_transfer find? update_where
  update-Evolved file_id [] row only going h = cc
  update-Evolved file_id (r ∷ rows) row only going h = elim (String_discrete r.file_id file_id) [
    | yes e ↦ (
      move r,
      rw (move_id r (only r (inl refl)), text_test r.file_id file_id e) refl,
      subst (λ (x : FileTransferRow). Evolved x (move r)) (ground arith)
          (move-Evolved r (only r (inl refl)) going),
    )
    | no n ↦
        let rest = update-Evolved file_id rows row (λ x k. only x (inr k)) going (ground arith) in
        (
          rest.0,
          rw (move_id r (only r (inl refl)), text_test_no r.file_id file_id n) rest.1,
          rest.2,
        )
  ]

-- What a step keeps.
pub step-WellFormed :
    {rows rows' : List FileTransferRow} → RowStep rows rows' → WellFormed rows → WellFormed rows'
unfolding String_discrete
step-WellFormed (same e) w = subst WellFormed (sym e) w
step-WellFormed (insert row free empty_ start e) w = subst WellFormed (sym e) (
  free,
  record {
    within = omega (arith, empty_);
    whole = open_status row.file_size row.received_bytes "init" row.status start refl;
  },
  w,
)
step-WellFormed {rows} (update old f has going moved e) w =
    subst WellFormed (sym e)
      (update-WellFormed old f moved rows (λ r k same_. only_row old r rows w has k same_) w)

-- A new row hides no other.
find-insert :
    (file_id : String) (row new : FileTransferRow) (rows : List FileTransferRow)
    → find_transfer new.file_id rows ≡ none
    → find_transfer file_id rows ≡ some row
    → find_transfer file_id (new ∷ rows) ≡ some row
unfolding find_transfer find?
find-insert file_id row new rows free h = elim (String_discrete new.file_id file_id) [
  | yes e ↦ cc (subst (λ (t : String). find_transfer t rows ≡ none) e free)
  | no n ↦ rw (text_test_no new.file_id file_id n) h
]

pub step-Evolved :
    {rows rows' : List FileTransferRow} (file_id : String) {row : FileTransferRow}
    → RowStep rows rows'
    → WellFormed rows
    → find_transfer file_id rows ≡ some row
    → (row' : FileTransferRow) × (find_transfer file_id rows' ≡ some row') × Evolved row row'
step-Evolved file_id {row} (same e) w h = (row, rw e h, Evolved-refl row)
step-Evolved {rows} file_id {row} (insert new free empty_ start e) w h =
    (row, rw e (find-insert file_id row new rows free h), Evolved-refl row)
step-Evolved {rows} file_id {row} (update old f has going moved e) w h = rw e (
    update-Evolved old f moved file_id rows row (λ r k same_. only_row old r rows w has k same_)
      going h)
