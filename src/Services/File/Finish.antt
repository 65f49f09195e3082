-- ===== src/Services/File/Finish.antt =====
-- server/services/file/service.py: the end of a transfer.
pub mod Verified
use Prim.Native.String.{◌++◌ as ◌<>◌}
use mini_im.Prelude.{
  ℕ, String, Bool, true, false, ◌&&◌, ◌||◌, not, Option, none, some, List, [], ◌∷◌, ◌++◌,
  if◌then◌else◌, ◌=?◌, ◌==◌, length,
}
use mini_im.Protocol.{Ack, SendMessage, FileFinish, FileUpdated, msg_file, file_direction_download}
use mini_im.Text.{strip}
use mini_im.Storage.Db.{Db, Env}
use mini_im.Storage.SyncEvent.{StoredSyncEvent}
use mini_im.Storage.ConversationRepo.{list_member_ids}
use mini_im.Storage.MessageRepo.{append_message, get_message_by_client_msg_id}
use mini_im.Storage.ControlWrite.{ControlWriteResult, Apply, reject, execute}
use mini_im.Storage.FileRepo.Requests.{FileEnv, owns_init_request}
use mini_im.Storage.FileRepo.{
  StoredFileTransfer, FileTransferProgressResult, FileError, Result, get_transfer_by_file_id,
  rewind_upload, apply_finish,
}
use mini_im.Services.File.{
  build_file_message_content, Disk, FileTools, FileServiceResult, answer, refuse, file_updated_of,
}

-- The readings of the clock: by the control write, for the refusals, by `rewind_upload` and
-- `apply_finish`, by `append_message`, and for the acknowledgement.
pub record FinishClock : Type 0 where
  pub request_ms : ℕ
  pub now_ms : ℕ
  pub write_ms : ℕ
  pub message_ms : ℕ
  pub done_ms : ℕ

-- `_verify_file_sha256`
unfoldable pub verify_file_sha256 : FileEnv → FileTools → Disk → StoredFileTransfer → Bool
verify_file_sha256 fenv tools disk t = elim (disk t.storage_path) [
  | none ↦ false
  | some content ↦
      length content == t.file_size
      && (fenv.lower (tools.sha256_hex content) =? fenv.lower t.sha256)
]

-- What the checks of a finish make of it: it goes on, it is refused, or the upload is rewound.
pub data Verdict : Type 0 where
  proceed : Verdict
  refused : ℕ → String → Verdict
  damaged : Verdict

-- The checks of a successful finish of a transfer that is not completed.
unfoldable pub check_content :
    FileEnv → FileTools → Disk → FileFinish → StoredFileTransfer → Verdict
unfolding verify_file_sha256
check_content fenv tools disk finish t =
    if t.direction == file_direction_download
    then (if not (finish.transferred_bytes == t.file_size)
        then Verdict.refused 400 "download confirmation size mismatch"
        else if not (fenv.lower finish.sha256 =? fenv.lower t.sha256)
        then Verdict.refused 409 "download confirmation sha256 mismatch"
        else Verdict.proceed)
    else if not (t.received_bytes == t.file_size)
    then Verdict.refused 503 "upload data is still arriving; retry completion"
    else if not (verify_file_sha256 fenv tools disk t)
    then Verdict.damaged
    else Verdict.proceed

unfoldable pub check_finish : FileEnv → FileTools → Disk → FileFinish → StoredFileTransfer → Verdict
unfolding check_content
check_finish fenv tools disk finish t =
    if t.status =? "cancelled"
    then Verdict.refused 409 "file intent was cancelled"
    else if finish.success && not (t.status =? "completed")
    then check_content fenv tools disk finish t
    else Verdict.proceed

module _ (env : Env) (fenv : FileEnv) (tools : FileTools) (clock : FinishClock) where
  -- `_append_file_message`
  unfoldable pub append_file_message :
      String → StoredFileTransfer → String → List String → Db → List StoredSyncEvent × Db
  unfolding get_message_by_client_msg_id append_message build_file_message_content
  append_file_message user_id t request_id member_ids db =
      let client_msg_id = "file-msg-" <> t.file_id in
      elim (get_message_by_client_msg_id db t.conversation_id user_id client_msg_id) [
        | some existing ↦ ([], db)
        | none ↦
            let message : SendMessage = record {
              conversation_id = t.conversation_id;
              client_msg_id = client_msg_id;
              type = msg_file;
              content = build_file_message_content tools t;
              burn_mode = 0;
              burn_ttl_sec = 0;
            } in
            let (stored, db') =
              append_message env clock.message_ms (request_id <> "-filemsg") user_id message
                member_ids none db in
            (stored.sync_events, db')
      ]

  -- The message of a completed upload.
  unfoldable pub publish :
      String
      → String
      → FileFinish
      → StoredFileTransfer
      → List String
      → Db
      → List StoredSyncEvent × Db
  unfolding append_file_message
  publish user_id request_id finish t member_ids db =
      if finish.success && not (t.direction == file_direction_download) && (t.status =? "completed")
      then append_file_message user_id t request_id member_ids db
      else ([], db)

  unfoldable pub finish_transfer :
      String → String → FileFinish → StoredFileTransfer → Db → FileServiceResult × Db
  unfolding list_member_ids apply_finish publish refuse answer file_updated_of
  finish_transfer user_id request_id finish t db =
      let member_ids = list_member_ids db t.conversation_id in
      let (result, db₁) = apply_finish env clock.write_ms t.file_id finish.success member_ids db in
      elim result [
        | none ↦ (refuse request_id 400 "invalid file_finish" clock.now_ms, db₁)
        | some r ↦
            let (events, db₂) = publish user_id request_id finish r.transfer member_ids db₁ in
            (
              answer
                  (record {
                    request_id = request_id;
                    success = true;
                    code = 0;
                    message = if r.changed then "ok" else "ok(idempotent)";
                    entity_id = t.file_id;
                    server_time_ms = clock.done_ms;
                  })
                  (some (file_updated_of r.transfer r.sync_events user_id))
                  (r.sync_events ++ events),
              db₂,
            )
      ]

  -- A complete upload whose digest is wrong starts again.
  unfoldable pub restart_damaged :
      String → String → StoredFileTransfer → Db → Result FileServiceResult × Db
  unfolding list_member_ids rewind_upload refuse file_updated_of
  restart_damaged user_id request_id t db =
      let member_ids = list_member_ids db t.conversation_id in
      let (repaired, db') = rewind_upload env clock.write_ms t.file_id 0 member_ids true db in
      elim repaired [
        | Result.raised e ↦ (Result.raised e, db')
        | Result.ok none ↦ (Result.raised (FileError.value_error "no attribute 'transfer'"), db')
        | Result.ok (some p) ↦ (
          Result.ok
              (record (refuse request_id 409 "sha256 mismatch; retry the original upload"
                clock.now_ms) {
                  file_updated = some (file_updated_of p.transfer p.sync_events user_id);
                  sync_events = p.sync_events;
                }),
          db',
        )
      ]

  unfoldable pub finish_owned :
      Disk → String → String → FileFinish → StoredFileTransfer → Db → Result FileServiceResult × Db
  unfolding check_finish refuse restart_damaged finish_transfer
  finish_owned disk user_id request_id finish t db = elim (check_finish fenv tools disk finish t) [
    | Verdict.refused code message ↦ (Result.ok (refuse request_id code message clock.now_ms), db)
    | Verdict.damaged ↦ restart_damaged user_id request_id t db
    | Verdict.proceed ↦
        let (result, db') = finish_transfer user_id request_id finish t db in
        (Result.ok result, db')
  ]

  unfoldable pub apply_file_finish :
      Disk → String → String → FileFinish → Db → Result FileServiceResult × Db
  unfolding owns_init_request strip get_transfer_by_file_id finish_owned refuse
  apply_file_finish disk user_id request_id finish db =
      if owns_init_request user_id request_id db
      then (
        Result.ok (
            refuse request_id 409 "request id already belongs to a file initialization"
              clock.now_ms),
        db,
      )
      else if strip finish.file_id =? ""
      then (Result.ok (refuse request_id 400 "invalid file_finish" clock.now_ms), db)
      else elim (get_transfer_by_file_id db finish.file_id) [
        | none ↦ (Result.ok (refuse request_id 403 "file_finish rejected" clock.now_ms), db)
        | some t ↦
            if not (t.owner_id =? user_id)
            then (Result.ok (refuse request_id 403 "file_finish rejected" clock.now_ms), db)
            else finish_owned disk user_id request_id finish t db
      ]

  -- The closure `apply`; it leaves its result. An exception stands beside a result that is not used.
  unfoldable pub apply_closure :
      Disk → String → String → FileFinish → Apply (Result FileServiceResult)
  unfolding apply_file_finish reject
  apply_closure disk user_id request_id finish db =
      let (result, db') = apply_file_finish disk user_id request_id finish db in
      elim result [
        | Result.raised e ↦ ((reject request_id 500 "" clock.now_ms, Result.raised e), db')
        | Result.ok r ↦ ((record { ack = r.ack; sync_events = r.sync_events }, Result.ok r), db')
      ]

  -- The answer to a request that was not applied: the transfer of a recorded success, if it is the
  -- user's.
  unfoldable pub recorded_update : String → ControlWriteResult → Db → Option FileUpdated
  unfolding get_transfer_by_file_id file_updated_of
  recorded_update user_id result db =
      if not result.ack.success
      then none
      else elim (get_transfer_by_file_id db result.ack.entity_id) [
        | none ↦ none
        | some t ↦ if t.owner_id =? user_id then some (file_updated_of t [] user_id) else none
      ]

  unfoldable pub finish_answer :
      String
      → Db
      → (ControlWriteResult × Option (Result FileServiceResult)) × Db
      → Result FileServiceResult × Db
  unfolding answer recorded_update
  finish_answer user_id before ((result, some (Result.raised e)), db) =
      (Result.raised e, record before { issued = db.issued })
  finish_answer user_id before ((result, some (Result.ok applied)), db) =
      (Result.ok (answer result.ack applied.file_updated result.sync_events), db)
  finish_answer user_id before ((result, none), db) =
      (Result.ok (answer result.ack (recorded_update user_id result db) result.sync_events), db)

  unfoldable pub handle_file_finish :
      Disk → String → String → FileFinish → Db → Result FileServiceResult × Db
  unfolding execute apply_closure finish_answer
  handle_file_finish disk user_id request_id finish db = finish_answer user_id db (
      execute env clock.request_ms user_id request_id "file_finish"
        (tools.serialize_finish (record finish { sha256 = fenv.lower finish.sha256 }))
        (apply_closure disk user_id request_id finish) db)
