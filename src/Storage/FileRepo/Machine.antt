-- ===== src/Storage/FileRepo/Machine.antt =====
-- server/storage/repo/file_repo.py: starting, resuming and cancelling are steps of the transfers.
use mathlib.Core.Path.{subst}
use mini_im.Prelude.{
  ℕ, suc, ◌+◌, ◌≡◌, refl, ◌⊎◌, inl, inr, String, Bool, true, false, ◌&&◌, ◌||◌, not, List, [], ◌∷◌,
  arith, max, ◌=?◌, ◌==◌, ltb, Bool-cases, Option-cases,
}
use mini_im.Protocol.{Body, FileInit}
use mini_im.Text.{starts_with}
use mini_im.Storage.Db.{Db, Env, FileTransferRow, uuid4}
use mini_im.Storage.Sql.{sqlite_integer_max, order_by}
use mini_im.Storage.SyncEvent.Frame.{append_sync_events-OnlyEvents}
use mini_im.Storage.FileRepo.Requests.{FileEnv, remember_init_request}
use mini_im.Storage.FileRepo.{
  StoredFileTransfer, is_final, row_to_transfer, find_transfer, file_updated_body,
  append_file_updated_sync_events, append_if, save_progress, save_if, intent_rows,
}
use mini_im.Storage.FileRepo.Intents.{
  created_before, is_stale, next_status, mismatch, new_row, create_transfer, remember_old_request,
  restart_transfer, resume_transfer, resume_first, create_or_resume_rows, create_or_resume_transfer,
}
use mini_im.Storage.FileRepo.Cancel.{
  insert_cancellation, owner_and_members, cancel_found, cancel_rows, cancel_transfer,
}
use mini_im.Storage.FileRepo.Rows.{
  Transition, restart, cancel, Has, RowStep, same, insert, update, Has-filter, Has-order_by,
}

-- One step between the tables of two states.
abbrev pub FilesStep : Db → Db → Type 0
FilesStep before after = RowStep before.file_transfers after.file_transfers

after_same : {a b c : List FileTransferRow} → b ≡ a → RowStep b c → RowStep a c
after_same {c} e h = subst (λ rows. RowStep rows c) e h

append_file_updated-step :
    (env : Env) (member_ids : List String) (t : StoredFileTransfer) (db db' : Db)
    → FilesStep db db'
    → FilesStep db (append_file_updated_sync_events env member_ids t db').1
unfolding append_file_updated_sync_events
append_file_updated-step env member_ids t db db' h =
    rw
      (append_sync_events-OnlyEvents env t.conversation_id "file_updated"
        (Body.file_updated (file_updated_body t)) t.updated_at_ms member_ids db').transfers
      h

append_if-step :
    (env : Env) (changed : Bool) (member_ids : List String) (t : StoredFileTransfer) (db db' : Db)
    → FilesStep db db'
    → FilesStep db (append_if env changed member_ids t db').1
unfolding append_if
append_if-step env true member_ids t db db' h = append_file_updated-step env member_ids t db db' h
append_if-step env false member_ids t db db' h = h

-- Saving a transfer of which only the status and the bytes changed.
save_progress-step :
    (now_ms : ℕ) (old : FileTransferRow) (status : String) (received_bytes : ℕ) (db : Db)
    → Has old db.file_transfers
    → is_final old.status ≡ false
    → Transition old.file_size old.status old.received_bytes status received_bytes
    → FilesStep db
        (save_progress now_ms
          (record (row_to_transfer old) { received_bytes = received_bytes; status = status })
          db).1
unfolding save_progress row_to_transfer
save_progress-step now_ms old status received_bytes db has open_ move =
    update old
      (λ r. record r {
        received_bytes = received_bytes;
        status = status;
        version = old.version + 1;
        updated_at_ms = max now_ms (old.updated_at_ms + 1);
      })
      has open_ (record { frame = refl; version = refl; later = omega arith; transition = move })
      refl

pub save_if-step :
    (env : Env) (now_ms : ℕ) (changed : Bool) (member_ids : List String) (old : FileTransferRow)
    (t : StoredFileTransfer) (status : String) (received_bytes : ℕ) (db : Db)
    → Has old db.file_transfers
    → (changed ≡ true
        → (is_final old.status ≡ false)
          × Transition old.file_size old.status old.received_bytes status received_bytes
          × (t ≡ record (row_to_transfer old) { received_bytes = received_bytes; status = status }))
    → FilesStep db (save_if env now_ms changed member_ids t db).1
unfolding save_if
save_if-step env now_ms true member_ids old t status received_bytes db has h =
    append_file_updated-step env member_ids (save_progress now_ms t db).0 db
      (save_progress now_ms t db).1
      (rw ((h refl).2)
        (save_progress-step now_ms old status received_bytes db has (h refl).0 (h refl).1))
save_if-step env now_ms false member_ids old t status received_bytes db has h = same refl

-- The rows of an intent are in the table.
intent-Has :
    (owner_id client_file_id : String) (db : Db) (old : FileTransferRow)
    → Has old (intent_rows owner_id client_file_id db)
    → Has old db.file_transfers
unfolding intent_rows
intent-Has owner_id client_file_id db old h = (Has-filter _ db.file_transfers old h).0

insert_cancellation-transfers :
    (owner_id client_file_id file_id : String) (now_ms : ℕ) (db : Db)
    → (insert_cancellation owner_id client_file_id file_id now_ms db).file_transfers
      ≡ db.file_transfers
unfolding insert_cancellation
insert_cancellation-transfers owner_id client_file_id file_id now_ms db = ground arith

remember_old_request-transfers :
    (env : Env) (fenv : FileEnv) (user_id old_request : String) (init : FileInit) (db : Db)
    → (remember_old_request env fenv user_id old_request init db).file_transfers ≡ db.file_transfers
unfolding remember_old_request remember_init_request
remember_old_request-transfers env fenv user_id old_request init db = ground arith

not_final :
    (status : String)
    → (status =? "completed") ≡ false
    → (status =? "cancelled") ≡ false
    → is_final status ≡ false
unfolding is_final
not_final status h k = rw (h, k) refl

cancel_found-step :
    (env : Env) (save_ms : ℕ) (user_id : String) (old : FileTransferRow) (db : Db)
    → Has old db.file_transfers
    → (old.status =? "completed") ≡ false
    → FilesStep db (cancel_found env save_ms user_id (row_to_transfer old) db).1
unfolding cancel_found row_to_transfer
cancel_found-step env save_ms user_id old db has h = elim (Bool-cases (old.status =? "cancelled")) [
  | inl again ↦ rw (cancel_found, again) (same refl)
  | inr first ↦
      rw (cancel_found, first)
        (let saved =
            save_progress save_ms (record (row_to_transfer old) { status = "cancelled" }) db in
          append_file_updated-step env (owner_and_members user_id saved.0.conversation_id saved.1)
            saved.0 db saved.1
            (save_progress-step save_ms old "cancelled" old.received_bytes db has
              (not_final old.status h first) (cancel refl refl)))
]

cancel_rows-step :
    (env : Env) (now_ms save_ms : ℕ) (user_id client_file_id file_id : String)
    (rows : List FileTransferRow) (db : Db)
    → ((old : FileTransferRow) → Has old rows → Has old db.file_transfers)
    → FilesStep db (cancel_rows env now_ms save_ms user_id client_file_id file_id rows db).1
unfolding cancel_rows row_to_transfer
cancel_rows-step env now_ms save_ms user_id client_file_id file_id [] db within =
    elim (Bool-cases (file_id =? "")) [
      | inr some_ ↦ rw (cancel_rows, some_) (same refl)
      | inl no_ ↦
          rw (cancel_rows, no_)
            (same (insert_cancellation-transfers user_id client_file_id "" now_ms db))
    ]
cancel_rows-step env now_ms save_ms user_id client_file_id file_id (row ∷ []) db within =
    elim (Bool-cases (not (file_id =? "") && not (row.file_id =? file_id))) [
      | inl other ↦ rw (cancel_rows, other) (same refl)
      | inr this ↦ elim (Bool-cases (row.status =? "completed")) [
        | inl done ↦ rw (cancel_rows, this, done) (same refl)
        | inr going ↦
            rw (cancel_rows, this, going)
              (after_same
                (insert_cancellation-transfers user_id client_file_id row.file_id now_ms db)
                (cancel_found-step env save_ms user_id row
                  (insert_cancellation user_id client_file_id row.file_id now_ms db)
                  (rw (insert_cancellation-transfers user_id client_file_id row.file_id now_ms db)
                    (within row (inl refl)))
                  going))
      ]
    ]
cancel_rows-step env now_ms save_ms user_id client_file_id file_id (row ∷ other ∷ rows) db within =
    same refl

pub cancel_transfer-step :
    (env : Env) (now_ms save_ms : ℕ) (user_id client_file_id file_id : String) (db : Db)
    → FilesStep db (cancel_transfer env now_ms save_ms user_id client_file_id file_id db).1
unfolding cancel_transfer
cancel_transfer-step env now_ms save_ms user_id client_file_id file_id db =
    cancel_rows-step env now_ms save_ms user_id client_file_id file_id
      (intent_rows user_id client_file_id db) db (intent-Has user_id client_file_id db)

create_transfer-step :
    (env : Env) (fenv : FileEnv) (now_ms : ℕ) (user_id request_id : String) (init : FileInit)
    (member_ids : List String) (path : String) (db : Db)
    → FilesStep db (create_transfer env fenv now_ms user_id request_id init member_ids path db).1
unfolding create_transfer uuid4 new_row
create_transfer-step env fenv now_ms user_id request_id init member_ids path db =
    let file_id = env.uuid db.issued in
    elim (Bool-cases (ltb sqlite_integer_max init.file_size)) [
      | inl over ↦ rw (create_transfer, over) (same refl)
      | inr fits ↦ elim (Option-cases (find_transfer file_id db.file_transfers)) [
        | inr (row, taken) ↦ rw (create_transfer, fits, taken) (same refl)
        | inl free ↦
            rw (create_transfer, fits, free)
              (let row = new_row fenv now_ms user_id request_id init path file_id in
                append_file_updated-step env member_ids (row_to_transfer row) db
                  (record db { issued = suc db.issued; file_transfers = row ∷ db.file_transfers })
                  (insert row free refl refl refl))
      ]
    ]

next_status-cases :
    (stale : Bool) (t : StoredFileTransfer)
    → (next_status stale t ≡ "init") ⊎ (next_status stale t ≡ t.status)
unfolding next_status
next_status-cases stale t = elim (Bool-cases (stale || starts_with t.status "failed")) [
  | inl again ↦ inl (rw (next_status, again) refl)
  | inr going ↦ inr (rw (next_status, going) refl)
]

restart_transfer-step :
    (now_ms : ℕ) (request_id : String) (priority : ℕ) (status : String) (old : FileTransferRow)
    (db : Db)
    → Has old db.file_transfers
    → is_final old.status ≡ false
    → (status ≡ "init") ⊎ (status ≡ old.status)
    → FilesStep db (restart_transfer now_ms request_id priority status (row_to_transfer old) db).1
unfolding restart_transfer row_to_transfer
restart_transfer-step now_ms request_id priority status old db has going next =
    update old
      (λ r. record r {
        request_id = request_id;
        status = status;
        priority = priority;
        version = old.version + 1;
        updated_at_ms = max now_ms (old.updated_at_ms + 1);
      })
      has going
      (record { frame = refl; version = refl; later = omega arith; transition = restart refl next })
      refl

module _ (env : Env) (fenv : FileEnv) (now_ms : ℕ) (user_id request_id : String) (init : FileInit)
    (member_ids : List String) (stale_timeout_ms : ℕ) where
  resume_transfer-step :
      (old : FileTransferRow) (db : Db)
      → Has old db.file_transfers
      → (old.status =? "cancelled") ≡ false
      → FilesStep db
          (resume_transfer env fenv now_ms user_id request_id init member_ids stale_timeout_ms
            old.request_id
            (row_to_transfer old)
            db).1
  unfolding resume_transfer row_to_transfer
  resume_transfer-step old db has open_ =
      let db₁ = remember_old_request env fenv user_id old.request_id init db in
      let kept = remember_old_request-transfers env fenv user_id old.request_id init db in
      let t = row_to_transfer old in
      let stale = is_stale now_ms stale_timeout_ms t in
      let status = next_status stale t in
      elim (Bool-cases (
        not (t.status =? "completed")
        && (stale || not (t.status =? status) || not (t.priority == init.priority)))) [
          | inr still ↦ rw (resume_transfer, still) (same kept)
          | inl changed ↦
              rw (resume_transfer, changed)
                (let moved = restart_transfer now_ms request_id init.priority status t db₁ in
                  append_file_updated-step env member_ids moved.0 db moved.1 (
                    after_same kept (
                      restart_transfer-step now_ms request_id init.priority status old db₁
                        (rw kept has) (not_final old.status (ground arith) open_)
                        (next_status-cases stale t))))
        ]

  resume_first-step :
      (row : FileTransferRow) (rows : List FileTransferRow) (db : Db)
      → Has row db.file_transfers
      → FilesStep db
          (resume_first env fenv now_ms user_id request_id init member_ids stale_timeout_ms row rows
            db).1
  unfolding resume_first row_to_transfer
  resume_first-step row [] db has = elim (Option-cases (mismatch fenv (row_to_transfer row) init)) [
    | inr (field, differs) ↦ rw (resume_first, differs) (same refl)
    | inl equal ↦ elim (Bool-cases (row.status =? "cancelled")) [
      | inl gone ↦ rw (resume_first, equal, gone) (same refl)
      | inr open_ ↦ rw (resume_first, equal, open_) (resume_transfer-step row db has open_)
    ]
  ]
  resume_first-step row (other ∷ rows) db has = same refl

  create_or_resume_rows-step :
      (path : String) (rows : List FileTransferRow) (db : Db)
      → ((old : FileTransferRow) → Has old rows → Has old db.file_transfers)
      → FilesStep db
          (create_or_resume_rows env fenv now_ms user_id request_id init member_ids path
            stale_timeout_ms rows db).1
  unfolding create_or_resume_rows
  create_or_resume_rows-step path [] db within =
      create_transfer-step env fenv now_ms user_id request_id init member_ids path db
  create_or_resume_rows-step path (row ∷ rows) db within =
      resume_first-step row rows db (within row (inl refl))

  pub create_or_resume_transfer-step :
      (path : String) (db : Db)
      → FilesStep db
          (create_or_resume_transfer env fenv now_ms user_id request_id init member_ids path
            stale_timeout_ms db).1
  unfolding create_or_resume_transfer
  create_or_resume_transfer-step path db =
      create_or_resume_rows-step path
        (order_by created_before (intent_rows user_id init.client_file_id db)) db
        (λ old h.
          intent-Has user_id init.client_file_id db old (Has-order_by created_before _ old h))
