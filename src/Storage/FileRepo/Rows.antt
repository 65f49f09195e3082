-- ===== src/Storage/FileRepo/Rows.antt =====
-- server/storage/repo/file_repo.py: the steps of the state machine of a transfer, on the table.
use text.Mathlib.TextEquality.{eq_iff}
use mini_im.Prelude.{
  ℕ, ◌+◌, ◌≤◌, ◌<◌, ◌≡◌, ◌⊎◌, inl, inr, String, Bool, true, false, none, some, List, [], ◌∷◌, arith,
  if◌then◌else◌, ◌=?◌, ◌==◌, filter, find?, update_where,
}
use mini_im.Storage.Db.{FileTransferRow}
use mini_im.Storage.Sql.{order_by, insert_by}
use mini_im.Storage.FileRepo.{is_final, find_transfer}

-- What an operation makes of a transfer of `size` bytes that is not final, with its status and the
-- bytes received before (`s`, `n`) and after (`s'`, `n'`).
pub data Transition (size : ℕ) (s : String) (n : ℕ) (s' : String) (n' : ℕ) : Type 0 where
  receive :
      n < n'
      → n' ≤ size
      → s' ≡ (if n' == size then "uploaded" else "uploading")
      → Transition size s n s' n'
  rewind :
      n' ≤ n
      → (s' ≡ "failed_integrity") ⊎ (s' ≡ (if n' == 0 then "init" else "uploading"))
      → Transition size s n s' n'
  complete : n' ≡ size → s' ≡ "completed" → Transition size s n s' n'
  fail : n' ≡ n → s' ≡ "failed" → Transition size s n s' n'
  restart : n' ≡ n → (s' ≡ "init") ⊎ (s' ≡ s) → Transition size s n s' n'
  cancel : n' ≡ n → s' ≡ "cancelled" → Transition size s n s' n'

-- The new row is the old one but for its request, its priority, and a transition, which has the
-- next version and a later time.
pub record Moved (old new : FileTransferRow) : Type 0 where
  pub frame : new ≡ record old {
    request_id = new.request_id;
    priority = new.priority;
    received_bytes = new.received_bytes;
    status = new.status;
    version = new.version;
    updated_at_ms = new.updated_at_ms;
  }
  pub version : new.version ≡ old.version + 1
  pub later : old.updated_at_ms < new.updated_at_ms
  pub transition :
      Transition old.file_size old.status old.received_bytes new.status new.received_bytes

abbrev pub Has : FileTransferRow → List FileTransferRow → Type 0
Has row [] = ⊥
Has row (r ∷ rows) = (r ≡ row) ⊎ Has row rows

-- One step of the table of transfers: a transfer that is not final moves, or a new one is added
-- whose identifier is not in use.
pub data RowStep (rows rows' : List FileTransferRow) : Type 0 where
  same : rows' ≡ rows → RowStep rows rows'
  insert :
      (row : FileTransferRow)
      → find_transfer row.file_id rows ≡ none
      → row.received_bytes ≡ 0
      → row.status ≡ "init"
      → rows' ≡ row ∷ rows
      → RowStep rows rows'
  update :
      (old : FileTransferRow) (f : FileTransferRow → FileTransferRow)
      → Has old rows
      → is_final old.status ≡ false
      → Moved old (f old)
      → rows' ≡ update_where (λ r. r.file_id =? old.file_id) f rows
      → RowStep rows rows'

pub find_transfer-Has :
    (file_id : String) (rows : List FileTransferRow) {row : FileTransferRow}
    → find_transfer file_id rows ≡ some row
    → Has row rows × (row.file_id ≡ file_id)
unfolding find_transfer find?
find_transfer-Has file_id [] h = cc
find_transfer-Has file_id (r ∷ rows) {row} h =
    ground (arith, find_transfer-Has file_id rows {row = row}, eq_iff r.file_id file_id)

pub Has-filter :
    (p : FileTransferRow → Bool) (rows : List FileTransferRow) (row : FileTransferRow)
    → Has row (filter p rows)
    → Has row rows × (p row ≡ true)
unfolding filter
Has-filter p [] row h = absurd h
Has-filter p (r ∷ rows) row h = ground (arith, Has-filter p rows row)

Has-insert_by :
    (before : FileTransferRow → FileTransferRow → Bool) (r : FileTransferRow)
    (rows : List FileTransferRow) (row : FileTransferRow)
    → Has row (insert_by before r rows)
    → (r ≡ row) ⊎ Has row rows
unfolding insert_by
Has-insert_by before r [] row h = h
Has-insert_by before r (s ∷ rows) row h = ground (arith, Has-insert_by before r rows row)

pub Has-order_by :
    (before : FileTransferRow → FileTransferRow → Bool) (rows : List FileTransferRow)
    (row : FileTransferRow)
    → Has row (order_by before rows)
    → Has row rows
unfolding order_by
Has-order_by before [] row h = h
Has-order_by before (r ∷ rows) row h = elim (Has-insert_by before r (order_by before rows) row h) [
  | inl e ↦ inl e
  | inr k ↦ inr (Has-order_by before rows row k)
]
