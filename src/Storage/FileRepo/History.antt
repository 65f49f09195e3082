-- ===== src/Storage/FileRepo/History.antt =====
-- server/storage/repo/file_repo.py: transfers over any sequence of operations.
use mathlib.Core.Path.{subst}
use mini_im.Prelude.{ℕ, ◌≡◌, sym, String, Bool, some, List}
use mini_im.Protocol.{FileInit}
use mini_im.Storage.Db.{Db, Env, FileTransferRow}
use mini_im.Storage.FileRepo.Requests.{FileEnv}
use mini_im.Storage.FileRepo.{find_transfer, apply_progress, rewind_upload, apply_finish}
use mini_im.Storage.FileRepo.Intents.{create_or_resume_transfer}
use mini_im.Storage.FileRepo.Cancel.{cancel_transfer}
use mini_im.Storage.FileRepo.Rows.{same}
use mini_im.Storage.FileRepo.Machine.{
  FilesStep, cancel_transfer-step, create_or_resume_transfer-step,
}
use mini_im.Storage.FileRepo.Progress.{apply_progress-step, rewind_upload-step, apply_finish-step}
use mini_im.Storage.FileRepo.Settled.{
  WellFormed, Evolved, Evolved-refl, Evolved-trans, step-WellFormed, step-Evolved,
}

-- Any operation of the repository on transfers, or a step that leaves the table of transfers alone.
pub data FileStep (env : Env) (fenv : FileEnv) (db db' : Db) : Type 0 where
  create_or_resume :
      (now_ms : ℕ) (user_id request_id : String) (init : FileInit) (member_ids : List String)
      (path : String) (stale_timeout_ms : ℕ)
      → db'
        ≡ (create_or_resume_transfer env fenv now_ms user_id request_id init member_ids path
            stale_timeout_ms db).1
      → FileStep env fenv db db'
  progress :
      (now_ms : ℕ) (file_id : String) (received_bytes : ℕ) (member_ids : List String)
      → db' ≡ (apply_progress env now_ms file_id received_bytes member_ids db).1
      → FileStep env fenv db db'
  rewound :
      (now_ms : ℕ) (file_id : String) (received_bytes : ℕ) (member_ids : List String)
      (integrity_failed : Bool)
      → db' ≡ (rewind_upload env now_ms file_id received_bytes member_ids integrity_failed db).1
      → FileStep env fenv db db'
  finish :
      (now_ms : ℕ) (file_id : String) (success : Bool) (member_ids : List String)
      → db' ≡ (apply_finish env now_ms file_id success member_ids db).1
      → FileStep env fenv db db'
  cancelled :
      (now_ms save_ms : ℕ) (user_id client_file_id file_id : String)
      → db' ≡ (cancel_transfer env now_ms save_ms user_id client_file_id file_id db).1
      → FileStep env fenv db db'
  other : db'.file_transfers ≡ db.file_transfers → FileStep env fenv db db'

pub data Reach (env : Env) (fenv : FileEnv) (db : Db) : Db → Type 0 where
  here : Reach env fenv db db
  next : {a b : Db} → Reach env fenv db a → FileStep env fenv a b → Reach env fenv db b

-- Whatever an operation on transfers is called with, and whether it applies, refuses or raises, the
-- table of transfers makes one step of the state machine: it stays as it is, gets a new transfer
-- under an unused identifier in status init with no byte, or one transfer that is neither completed
-- nor cancelled receives, rewinds, completes, fails, restarts or is cancelled, with the next
-- version, a later time, and nothing else changed but its request and priority.
pub FileStep-Refines :
    (env : Env) (fenv : FileEnv) {db db' : Db} → FileStep env fenv db db' → FilesStep db db'
FileStep-Refines env fenv {db}
      (create_or_resume now_ms user_id request_id init members path stale e) =
    subst (FilesStep db) (sym e)
      (create_or_resume_transfer-step env fenv now_ms user_id request_id init members stale path db)
FileStep-Refines env fenv {db} (progress now_ms file_id received_bytes members e) =
    subst (FilesStep db) (sym e) (apply_progress-step env now_ms file_id members db received_bytes)
FileStep-Refines env fenv {db} (rewound now_ms file_id received_bytes members failed e) =
    subst (FilesStep db) (sym e)
      (rewind_upload-step env now_ms file_id members db received_bytes failed)
FileStep-Refines env fenv {db} (finish now_ms file_id success members e) =
    subst (FilesStep db) (sym e) (apply_finish-step env now_ms file_id members db success)
FileStep-Refines env fenv {db} (cancelled now_ms save_ms user_id client_file_id file_id e) =
    subst (FilesStep db) (sym e)
      (cancel_transfer-step env now_ms save_ms user_id client_file_id file_id db)
FileStep-Refines env fenv (other e) = same e

-- If all identifiers of transfers differ, no transfer has received more bytes than its size, and
-- each that is uploaded or completed has received all of them, then the same holds after any
-- sequence of operations on transfers and of steps that leave the table alone.
pub Reach-WellFormed :
    (env : Env) (fenv : FileEnv) {db db' : Db}
    → WellFormed db.file_transfers
    → Reach env fenv db db'
    → WellFormed db'.file_transfers
Reach-WellFormed env fenv w here = w
Reach-WellFormed env fenv w (next r st) =
    step-WellFormed (FileStep-Refines env fenv st) (Reach-WellFormed env fenv w r)

-- In a table whose transfers are filled and have different identifiers, a transfer is still there
-- after any sequence of operations: its identity, size, digest and path are the same, its version is
-- not lower, and if it was completed or cancelled then nothing of it has changed.
pub Reach-Evolved :
    (env : Env) (fenv : FileEnv) (file_id : String) (row : FileTransferRow) {db db' : Db}
    → WellFormed db.file_transfers
    → find_transfer file_id db.file_transfers ≡ some row
    → Reach env fenv db db'
    → (row' : FileTransferRow) × (find_transfer file_id db'.file_transfers ≡ some row')
      × Evolved row row'
Reach-Evolved env fenv file_id row w h here = (row, h, Evolved-refl row)
Reach-Evolved env fenv file_id row w h (next r st) =
    let before = Reach-Evolved env fenv file_id row w h r in
    let after =
      step-Evolved file_id {row = before.0} (FileStep-Refines env fenv st)
        (Reach-WellFormed env fenv w r) before.1 in
    (after.0, after.1, Evolved-trans before.2 after.2)
