-- ===== src/Services/File/Init.antt =====
-- server/services/file/service.py: the start of an upload or a download.
use Prim.Native.String.{◌++◌ as ◌<>◌, count}
use mini_im.Prelude.{
  ℕ, String, Bool, true, false, ◌&&◌, ◌||◌, not, Option, none, some, List, ◌++◌, if◌then◌else◌,
  ◌=?◌, ◌==◌, ltb, length,
}
use mini_im.Protocol.{FileInit, file_direction_upload, file_direction_download}
use mini_im.Text.{strip, take_text}
use mini_im.Storage.Db.{Db, Env}
use mini_im.Storage.ConversationRepo.{is_member, list_member_ids}
use mini_im.Storage.FileRepo.Requests.{
  FileEnv, init_fingerprint, init_request_conflict, remember_init_request,
}
use mini_im.Storage.FileRepo.{
  StoredFileTransfer, FileTransferInitResult, FileError, Result, get_transfer_by_file_id,
}
use mini_im.Storage.FileRepo.Intents.{create_or_resume_transfer}
use mini_im.Storage.FileRepo.Cancel.{is_cancelled}
use mini_im.Services.File.{Disk, FileTools, FileServiceResult, answer, refuse, file_updated_of}
use mini_im.Services.File.Chunks.{reconcile_upload}

-- What the checks of the request make of it: a refusal with its code, or the transfer to make,
-- with the source of a download.
pub data Checked : Type 0 where
  refused : ℕ → String → Checked
  checked : FileInit → Option StoredFileTransfer → Checked

-- The fields of a download are those of its source.
unfoldable pub of_source : FileInit → StoredFileTransfer → FileInit
of_source init source = record init {
  conversation_id = source.conversation_id;
  file_name = source.file_name;
  file_size = source.file_size;
  sha256 = source.sha256;
}

unfoldable pub check_source : Db → FileInit → Checked
unfolding strip get_transfer_by_file_id of_source
check_source db init =
    if strip init.source_file_id =? ""
    then Checked.refused 400 "missing source_file_id"
    else elim (get_transfer_by_file_id db init.source_file_id) [
      | none ↦ Checked.refused 404 "source file not found"
      | some source ↦
          if not (source.status =? "completed") || not (source.direction == file_direction_upload)
          then Checked.refused 404 "source file not found"
          else if not (init.conversation_id =? "")
              && not (init.conversation_id =? source.conversation_id)
          then Checked.refused 409 "download conversation does not match source"
          else Checked.checked (of_source init source) (some source)
    ]

unfoldable pub check_direction : Db → FileInit → Checked
unfolding check_source
check_direction db init =
    if init.direction == file_direction_download
    then check_source db init
    else if not (init.direction == file_direction_upload)
    then Checked.refused 400 "invalid file direction"
    else if not (init.source_file_id =? "")
    then Checked.refused 400 "uploads cannot reference a source file"
    else Checked.checked init none

-- The source of a download is on the disk, with its whole size.
unfoldable pub is_available : Disk → StoredFileTransfer → Bool
is_available disk source = elim (disk source.storage_path) [
  | none ↦ false
  | some b ↦ length b == source.file_size
]

-- The checks of the effective fields, of the membership, and of the source on the disk.
unfoldable pub check_effective : Db → Disk → String → FileInit → Option StoredFileTransfer → Checked
unfolding strip is_member is_available
check_effective db disk user_id init source =
    if (strip init.conversation_id =? "")
      || (strip init.file_name =? "")
      || init.file_size == 0
      || ltb init.file_size init.resume_offset
    then Checked.refused 400 "invalid file_init"
    else if not (is_member db init.conversation_id user_id)
    then Checked.refused 403 "sender is not a conversation member"
    else elim source [
      | none ↦ Checked.checked init none
      | some s ↦
          if is_available disk s
          then Checked.checked init (some s)
          else Checked.refused 409
              "source file unavailable; restore the original file before retrying"
    ]

-- `_apply_file_init` up to `normalized_init`.
unfoldable pub check_init : Db → Disk → String → FileInit → Checked
unfolding strip is_cancelled check_direction check_effective
check_init db disk user_id init =
    if strip init.client_file_id =? ""
    then Checked.refused 400 "invalid file_init"
    else if is_cancelled db user_id init.client_file_id
    then Checked.refused 409 "file intent was cancelled"
    else elim (check_direction db init) [
      | Checked.refused code message ↦ Checked.refused code message
      | Checked.checked effective source ↦ check_effective db disk user_id effective source
    ]

unfoldable pub safe_suffix : FileEnv → FileTools → String → String
unfolding strip
safe_suffix fenv tools file_name =
    let suffix = fenv.lower (strip (tools.suffix file_name)) in
    if (suffix =? "") || ltb 16 (count suffix) then ".bin" else suffix

unfoldable pub make_file_id : FileTools → String → String → String
make_file_id tools user_id client_file_id = tools.sha1_hex (user_id <> ":" <> client_file_id)

unfoldable pub relative_storage_path : FileEnv → FileTools → String → String → String
unfolding take_text safe_suffix
relative_storage_path fenv tools file_id file_name =
    tools.join (take_text 2 file_id) (file_id <> safe_suffix fenv tools file_name)

-- The readings of the clock: for the refusals, by `create_or_resume_transfer`, by `rewind_upload`,
-- and for the acknowledgement.
pub record InitClock : Type 0 where
  pub now_ms : ℕ
  pub create_ms : ℕ
  pub rewind_ms : ℕ
  pub done_ms : ℕ

-- A result with the state, which an exception inside a transaction rolls back.
abbrev pub Outcome : Type 0
Outcome = Result FileServiceResult × Db × Disk

module _ (env : Env) (fenv : FileEnv) (tools : FileTools) (stale_timeout_ms : ℕ)
    (clock : InitClock) where
  unfoldable pub accept_init :
      String → String → FileInit → FileTransferInitResult → FileServiceResult
  unfolding answer file_updated_of
  accept_init user_id request_id init r =
      record (answer
        (record {
          request_id = request_id;
          success = true;
          code = 0;
          message = if r.created then "ok" else "ok(idempotent)";
          entity_id = r.transfer.file_id;
          server_time_ms = clock.done_ms;
        })
        (some (file_updated_of r.transfer r.sync_events user_id)) r.sync_events) {
          start_download = init.direction == file_direction_download;
          download_file_id = r.transfer.file_id;
          download_offset = init.resume_offset;
        }

  -- After `create_or_resume_transfer`, inside the transaction.
  unfoldable pub repair :
      String → String → FileInit → List String → FileTransferInitResult → Db → Disk → Outcome
  unfolding reconcile_upload accept_init
  repair user_id request_id init member_ids r db disk =
      if (init.direction == file_direction_download) || (r.transfer.status =? "completed")
      then (Result.ok (accept_init user_id request_id init r), db, disk)
      else let (repaired, db', disk') =
          reconcile_upload env clock.rewind_ms r.transfer member_ids db disk in
        elim repaired [
          | Result.raised e ↦ (Result.raised e, db', disk')
          | Result.ok none ↦
              (Result.raised (FileError.value_error "no attribute 'transfer'"), db', disk')
          | Result.ok (some p) ↦ (
            Result.ok (
                accept_init user_id request_id init (record r {
                  transfer = p.transfer;
                  sync_events = r.sync_events ++ p.sync_events;
                })),
            db',
            disk',
          )
        ]

  unfoldable pub make_transfer : String → String → FileInit → Db → Disk → Outcome
  unfolding list_member_ids make_file_id relative_storage_path create_or_resume_transfer repair
      refuse
  make_transfer user_id request_id init db disk =
      let member_ids = list_member_ids db init.conversation_id in
      let path =
        relative_storage_path fenv tools (make_file_id tools user_id init.client_file_id)
          init.file_name in
      let (created, db') =
        create_or_resume_transfer env fenv clock.create_ms user_id request_id init member_ids path
          stale_timeout_ms db in
      elim created [
        | Result.raised e ↦ (Result.raised e, db', disk)
        | Result.ok r ↦
            if not (r.conflict =? "")
            then (Result.ok (refuse request_id 409 r.conflict clock.now_ms), db', disk)
            else repair user_id request_id init member_ids r db' disk
      ]

  unfoldable pub apply_file_init : String → String → FileInit → Db → Disk → Outcome
  unfolding check_init make_transfer refuse
  apply_file_init user_id request_id init db disk = elim (check_init db disk user_id init) [
    | Checked.refused code message ↦
        (Result.ok (refuse request_id code message clock.now_ms), db, disk)
    | Checked.checked normalized source ↦ make_transfer user_id request_id normalized db disk
  ]

  -- The end of the transaction: the fingerprint of a successful request is remembered, an
  -- exception rolls the tables back.
  unfoldable pub settle_init : String → String → FileInit → Db → Outcome → Outcome
  unfolding remember_init_request init_fingerprint
  settle_init user_id request_id init before (Result.raised e, db, disk) =
      (Result.raised e, record before { issued = db.issued }, disk)
  settle_init user_id request_id init before (Result.ok r, db, disk) = (
    Result.ok r,
    if r.ack.success
        then remember_init_request user_id request_id (init_fingerprint env fenv init) db
        else db,
    disk,
  )

  -- An acknowledgement without a time has the time 0.
  unfoldable pub handle_file_init : String → String → FileInit → Db → Disk → Outcome
  unfolding strip refuse init_request_conflict init_fingerprint apply_file_init settle_init
  handle_file_init user_id request_id init db disk =
      if (user_id =? "") || (strip request_id =? "")
      then (
        Result.ok (refuse request_id 400 "file initialization requires user and request id" 0),
        db,
        disk,
      )
      else if init_request_conflict env fenv user_id request_id (init_fingerprint env fenv init) db
      then (
        Result.ok (
            refuse request_id 409
              "request id already belongs to a different initialization or write" 0),
        db,
        disk,
      )
      else settle_init user_id request_id init db (apply_file_init user_id request_id init db disk)
