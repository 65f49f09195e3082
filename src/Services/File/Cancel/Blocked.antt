-- ===== src/Services/File/Cancel/Blocked.antt =====
-- server/services/file/service.py: a cancelled intent cannot start again.
use mathlib.Core.Bool.{false≢true}
use mini_im.Prelude.{
  text_test, ℕ, ◌≡◌, refl, ap, ◌∙◌, inl, inr, String, Bool, true, false, ◌&&◌, ◌||◌, not, List, [],
  ◌∷◌, ◌++◌, ◌=?◌, ◌==◌, Bool-cases, find?,
}
use mini_im.Protocol.{Body, FileInit, FileCancel}
use mini_im.Text.{strip}
use mini_im.Storage.Db.{Db, Env, FileTransferRow, FileCancellationRow}
use mini_im.Storage.Sql.{is_some}
use mini_im.Storage.SyncEvent.Frame.{append_sync_events-OnlyEvents}
use mini_im.Storage.ControlWrite.{reject}
use mini_im.Storage.FileRepo.Requests.{FileEnv, init_fingerprint, init_request_conflict}
use mini_im.Storage.FileRepo.{
  StoredFileTransfer, Result, file_updated_body, row_to_transfer, save_progress, append_if,
  append_file_updated_sync_events, intent_rows,
}
use mini_im.Storage.FileRepo.Cancel.{
  find_cancellation, is_cancelled, insert_cancellation, refuse_cancel, owner_and_members,
  cancel_found, cancel_rows, cancel_transfer,
}
use mini_im.Services.File.{Disk, FileTools, refuse, answer}
use mini_im.Services.File.Init.{
  InitClock, Outcome, check_init, apply_file_init, settle_init, handle_file_init,
}
use mini_im.Services.File.Cancel.{CancelClock, apply_cancel}
use mini_im.Services.File.Finish.Verified.{succeeds}

-- The intent is cancelled in the state that a cancellation is inserted into.
insert_cancellation-is_cancelled :
    (owner_id client_file_id file_id : String) (now_ms : ℕ) (db : Db)
    → is_cancelled
        (insert_cancellation owner_id client_file_id file_id now_ms db)
        owner_id
        client_file_id
      ≡ true
unfolding insert_cancellation is_cancelled find_cancellation find?
insert_cancellation-is_cancelled owner_id client_file_id file_id now_ms db =
    elim (Bool-cases (is_cancelled db owner_id client_file_id)) [
      | inl old ↦ rw (insert_cancellation, old) old
      | inr new ↦
          rw
            (
              insert_cancellation,
              new,
              is_cancelled,
              find_cancellation,
              find?,
              text_test owner_id owner_id refl,
              text_test client_file_id client_file_id refl,
            )
            refl
    ]

found-append {ℓ} :
    {A : Type ℓ} (p : A → Bool) (extra rows : List A)
    → is_some (find? p rows) ≡ true
    → is_some (find? p (extra ++ rows)) ≡ true
unfolding find?
found-append p [] rows h = h
found-append p (r ∷ extra) rows h = elim (Bool-cases (p r)) [
  | inl e ↦ rw e refl
  | inr n ↦ rw n (found-append p extra rows h)
]

-- It stays so where cancellations are only added.
is_cancelled-append :
    (owner_id client_file_id : String) (db later : Db) (extra : List FileCancellationRow)
    → later.file_cancellations ≡ extra ++ db.file_cancellations
    → is_cancelled db owner_id client_file_id ≡ true
    → is_cancelled later owner_id client_file_id ≡ true
unfolding is_cancelled find_cancellation
is_cancelled-append owner_id client_file_id db later extra e h = rw e (
    found-append (λ r. (r.owner_id =? owner_id) && (r.client_file_id =? client_file_id)) extra
      db.file_cancellations h)

-- What is not cancelled is refused by `cancel_transfer`.
cancel_found-cancellations :
    (env : Env) (save_ms : ℕ) (user_id : String) (t : StoredFileTransfer) (db : Db)
    → (cancel_found env save_ms user_id t db).1.file_cancellations ≡ db.file_cancellations
unfolding cancel_found save_progress append_if append_file_updated_sync_events
cancel_found-cancellations env save_ms user_id t db = elim (Bool-cases (t.status =? "cancelled")) [
  | inl again ↦ rw (cancel_found, again) refl
  | inr first ↦
      let saved = save_progress save_ms (record t { status = "cancelled" }) db in
      rw (cancel_found, first)
        (append_sync_events-OnlyEvents env saved.0.conversation_id "file_updated"
          (Body.file_updated (file_updated_body saved.0)) saved.0.updated_at_ms
          (owner_and_members user_id saved.0.conversation_id saved.1) saved.1).cancellations
]

cancel_rows-is_cancelled :
    (env : Env) (now_ms save_ms : ℕ) (user_id client_file_id file_id : String)
    (rows : List FileTransferRow) (db : Db)
    → let after = cancel_rows env now_ms save_ms user_id client_file_id file_id rows db in
      (after.0.code == 0) ≡ true → is_cancelled after.1 user_id client_file_id ≡ true
unfolding cancel_rows refuse_cancel row_to_transfer
cancel_rows-is_cancelled env now_ms save_ms user_id client_file_id file_id [] db =
    elim (Bool-cases (file_id =? "")) [
      | inr some_ ↦ rw (cancel_rows, some_) (λ h. absurd (false≢true h))
      | inl none_ ↦
          rw (cancel_rows, none_)
            (λ h. insert_cancellation-is_cancelled user_id client_file_id "" now_ms db)
    ]
cancel_rows-is_cancelled env now_ms save_ms user_id client_file_id file_id (row ∷ []) db =
    elim (Bool-cases (not (file_id =? "") && not (row.file_id =? file_id))) [
      | inl other ↦ rw (cancel_rows, other) (λ h. absurd (false≢true h))
      | inr this ↦ elim (Bool-cases (row.status =? "completed")) [
        | inl done ↦ rw (cancel_rows, this, done) (λ h. absurd (false≢true h))
        | inr going ↦
            let marked = insert_cancellation user_id client_file_id row.file_id now_ms db in
            rw (cancel_rows, this, going)
              (λ h.
                is_cancelled-append user_id client_file_id marked
                  (cancel_found env save_ms user_id (row_to_transfer row) marked).1 []
                  (cancel_found-cancellations env save_ms user_id (row_to_transfer row) marked)
                  (insert_cancellation-is_cancelled user_id client_file_id row.file_id now_ms db))
      ]
    ]
cancel_rows-is_cancelled env now_ms save_ms user_id client_file_id file_id (row ∷ other ∷ rows) db =
    λ h. absurd (false≢true h)

apply_cancel-is_cancelled :
    (env : Env) (tools : FileTools) (clock : CancelClock) (user_id request_id : String)
    (request : FileCancel) (db : Db)
    → let after = apply_cancel env tools clock user_id request_id request db in
      after.0.0.ack.success ≡ true → is_cancelled after.1 user_id request.client_file_id ≡ true
unfolding apply_cancel cancel_transfer reject
apply_cancel-is_cancelled env tools clock user_id request_id request db =
    elim (Bool-cases (strip request.client_file_id =? "")) [
      | inl blank ↦ rw (apply_cancel, blank) (λ h. absurd (false≢true h))
      | inr named ↦
          rw (apply_cancel, named)
            (cancel_rows-is_cancelled env clock.now_ms clock.save_ms user_id request.client_file_id
              request.file_id (intent_rows user_id request.client_file_id db) db)
    ]

-- The request is refused, and nothing changes.
abbrev pub Refused : Db → Disk → Outcome → Type 0
Refused db disk outcome = (succeeds outcome.0 ≡ false) × (outcome.1 ≡ db) × (outcome.2 ≡ disk)

module _ (env : Env) (fenv : FileEnv) (tools : FileTools) (stale_timeout_ms : ℕ) (clock : InitClock)
    (user_id request_id : String) (init : FileInit) (db : Db) (disk : Disk)
    (cancelled : is_cancelled db user_id init.client_file_id ≡ true) where
  settle_init-Refused :
      (code : ℕ) (message : String)
      → Refused db disk (
          settle_init env fenv tools stale_timeout_ms clock user_id request_id init db
            (Result.ok (refuse request_id code message clock.now_ms), db, disk))
  unfolding settle_init refuse answer
  settle_init-Refused code message = (refl, refl, refl)

  handle_file_init-Refused :
      Refused db disk
        (handle_file_init env fenv tools stale_timeout_ms clock user_id request_id init db disk)
  unfolding handle_file_init apply_file_init check_init refuse answer
  handle_file_init-Refused = elim (Bool-cases ((user_id =? "") || (strip request_id =? ""))) [
    | inl blank ↦ rw (handle_file_init, blank) (refl, refl, refl)
    | inr named ↦
        elim (Bool-cases
          (init_request_conflict env fenv user_id request_id (init_fingerprint env fenv init) db)) [
            | inl taken ↦ rw (handle_file_init, named, taken) (refl, refl, refl)
            | inr free ↦ elim (Bool-cases (strip init.client_file_id =? "")) [
              | inl empty_ ↦
                  rw (handle_file_init, named, free, apply_file_init, check_init, empty_)
                    (settle_init-Refused 400 "invalid file_init")
              | inr some_ ↦
                  rw (handle_file_init, named, free, apply_file_init, check_init, some_, cancelled)
                    (settle_init-Refused 409 "file intent was cancelled")
            ]
          ]
  ]

-- After a cancellation of an intent that succeeds, and any further cancellations, every
-- initialization under that intent by the same user is refused and changes neither the tables nor
-- the disk, whatever else it asks for.
pub apply_cancel-blocks :
    (env : Env) (fenv : FileEnv) (tools : FileTools) (clock : CancelClock)
    (user_id request_id : String) (request : FileCancel) (db later : Db)
    (extra : List FileCancellationRow) (stale_timeout_ms : ℕ) (init_clock : InitClock)
    (init_request_id : String) (init : FileInit) (disk : Disk)
    → let after = apply_cancel env tools clock user_id request_id request db in
      after.0.0.ack.success ≡ true
      → later.file_cancellations ≡ extra ++ after.1.file_cancellations
      → init.client_file_id ≡ request.client_file_id
      → Refused later disk (
          handle_file_init env fenv tools stale_timeout_ms init_clock user_id init_request_id init
            later disk)
apply_cancel-blocks env fenv tools clock user_id request_id request db later extra stale_timeout_ms
      init_clock init_request_id init disk success more same_intent =
    let after = apply_cancel env tools clock user_id request_id request db in
    handle_file_init-Refused env fenv tools stale_timeout_ms init_clock user_id init_request_id init
      later disk
      (ap (is_cancelled later user_id) same_intent
        ∙ is_cancelled-append user_id request.client_file_id after.1 later extra more
            (apply_cancel-is_cancelled env tools clock user_id request_id request db success))
