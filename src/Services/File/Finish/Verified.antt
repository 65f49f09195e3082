-- ===== src/Services/File/Finish/Verified.antt =====
-- server/services/file/service.py: an upload is completed only with the bytes that it announced.
use mathlib.Core.Bool.{false≢true}
use Prim.Native.String.{◌++◌ as ◌<>◌}
use text.Mathlib.TextEquality.{eq_iff}
use mini_im.Prelude.{
  ◌⊎◌, text_test, text_test_no, ℕ, ◌≡◌, refl, sym, ap, ◌∙◌, inl, inr, String, Bool, true, false,
  ◌&&◌, Option, none, some, List, if◌then◌else◌, ◌=?◌, ◌==◌, length, arith, Bool-cases,
  Option-cases,
}
use mini_im.Protocol.{Bytes, Message, FileFinish, SendMessage, msg_file, file_direction_download}
use mini_im.Text.{strip}
use mini_im.Storage.Db.{Db, Env}
use mini_im.Storage.SyncEvent.{StoredSyncEvent}
use mini_im.Storage.ConversationRepo.{list_member_ids}
use mini_im.Storage.MessageRepo.{append_message, get_message_by_client_msg_id}
use mini_im.Storage.MessageRepo.Append.{
  new_row, messages-append_message, transfers-append_message, find_newest,
}
use mini_im.Storage.FileRepo.Requests.{FileEnv, owns_init_request}
use mini_im.Storage.FileRepo.{
  StoredFileTransfer, FileError, Result, is_final, get_transfer_by_file_id, save_progress,
  append_if, save_if, apply_finish, rewind_upload,
}
use mini_im.Services.File.{
  build_file_message_content, Disk, FileTools, FileServiceResult, refuse, answer,
}
use mini_im.Services.File.Chunks.Recovery.{transfer_id}
use mini_im.Services.File.Chunks.Append.{save_progress-found, append_if-found}
use mini_im.Services.File.Finish.{
  FinishClock, verify_file_sha256, Verdict, check_content, check_finish, append_file_message,
  publish, finish_transfer, restart_damaged, finish_owned, apply_file_finish,
}

Result-cases :
    {A : Type 0} (r : Result (Option A))
    → ((e : FileError) × (r ≡ Result.raised e))
      ⊎ (r ≡ Result.ok none)
      ⊎ ((a : A) × (r ≡ Result.ok (some a)))
Result-cases (Result.raised e) = inl (e, refl)
Result-cases (Result.ok none) = inr (inl refl)
Result-cases (Result.ok (some a)) = inr (inr (a, refl))

-- A success is acknowledged.
abbrev pub succeeds : Result FileServiceResult → Bool
succeeds (Result.raised e) = false
succeeds (Result.ok r) = r.ack.success

module _ (env : Env) (fenv : FileEnv) (tools : FileTools) (clock : FinishClock) (disk : Disk)
    (user_id request_id : String) (finish : FileFinish) (t : StoredFileTransfer) where
  -- The file has the announced size and digest.
  pub record Verified : Type 0 where
    pub bytes : Bytes
    pub stored : disk t.storage_path ≡ some bytes
    pub size : length bytes ≡ t.file_size
    pub digest : fenv.lower (tools.sha256_hex bytes) ≡ fenv.lower t.sha256

  -- The transfer is completed with all its bytes, and its message is in the conversation.
  pub record Published (db : Db) : Type 0 where
    pub transfer : StoredFileTransfer
    pub found : get_transfer_by_file_id db finish.file_id ≡ some transfer
    pub completed : transfer.status ≡ "completed"
    pub whole : transfer.received_bytes ≡ t.file_size
    pub message : Message
    pub sent :
        get_message_by_client_msg_id db t.conversation_id user_id ("file-msg-" <> t.file_id)
        ≡ some message

  verify_file_sha256_lem : verify_file_sha256 fenv tools disk t ≡ true → Verified
  unfolding verify_file_sha256
  verify_file_sha256_lem h = elim (Option-cases (disk t.storage_path)) [
    | inl n ↦ absurd (false≢true (sym (rw (verify_file_sha256, n) refl) ∙ h))
    | inr (b, e) ↦
        let k : (length b == t.file_size
              && (fenv.lower (tools.sha256_hex b) =? fenv.lower t.sha256))
            ≡ true =
          sym (rw (verify_file_sha256, e) refl) ∙ h in
        record {
          bytes = b;
          stored = e;
          size = ground arith;
          digest = ground (arith, eq_iff (fenv.lower (tools.sha256_hex b)) (fenv.lower t.sha256));
        }
  ]

  -- A damaged upload is not acknowledged.
  restart_damaged-fails :
      (db : Db) → succeeds (restart_damaged env fenv tools clock user_id request_id t db).0 ≡ false
  unfolding restart_damaged refuse answer
  restart_damaged-fails db =
      elim (Result-cases
        (rewind_upload env clock.write_ms t.file_id 0 (list_member_ids db t.conversation_id) true
          db).0) [
            | inl (e, p) ↦ rw (restart_damaged, p) refl
            | inr (inl p) ↦ rw (restart_damaged, p) refl
            | inr (inr (r, p)) ↦ rw (restart_damaged, p) refl
          ]

  module _ (upload : (t.direction == file_direction_download) ≡ false)
      (success : finish.success ≡ true) (going : is_final t.status ≡ false) where
    -- The statuses that are not final.
    not_cancelled : (t.status =? "cancelled") ≡ false
    unfolding is_final
    not_cancelled = ground arith

    not_completed : (t.status =? "completed") ≡ false
    unfolding is_final
    not_completed = ground arith

    check_finish_lem : check_finish fenv tools disk finish t ≡ (
        if t.received_bytes == t.file_size
        then (if verify_file_sha256 fenv tools disk t then Verdict.proceed else Verdict.damaged)
        else Verdict.refused 503 "upload data is still arriving; retry completion")
    unfolding check_finish check_content
    check_finish_lem =
        rw (check_finish, not_cancelled, success, not_completed, check_content, upload)
          (elim (Bool-cases (t.received_bytes == t.file_size)) [
            | inr part ↦ rw part refl
            | inl full ↦ rw full (elim (Bool-cases (verify_file_sha256 fenv tools disk t)) [
              | inl good ↦ rw good refl
              | inr bad ↦ rw bad refl
            ])
          ])

    -- The transfer as `apply_finish` saves it.
    abbrev saved : Db → StoredFileTransfer × Db
    saved db =
        save_progress clock.write_ms
          (record t { received_bytes = t.file_size; status = "completed" }) db

    abbrev told : Db → List String → List StoredSyncEvent × Db
    told db member_ids = append_if env true member_ids (saved db).0 (saved db).1

    apply_finish_lem :
        (db : Db) (member_ids : List String)
        → get_transfer_by_file_id db finish.file_id ≡ some t
        → apply_finish env clock.write_ms t.file_id true member_ids db ≡ (
          some (record {
            transfer = (saved db).0;
            sync_events = (told db member_ids).0;
            changed = true;
          }),
          (told db member_ids).1,
        )
    unfolding apply_finish save_if
    apply_finish_lem db member_ids found =
        rw
          (
            apply_finish,
            ap (get_transfer_by_file_id db) (transfer_id finish.file_id db t found) ∙ found,
            not_cancelled,
            text_test_no "completed" t.status
                (λ e. false≢true (sym not_completed ∙ text_test t.status "completed" (sym e))),
          )
          refl

    apply_finish_as :
        (db : Db) (member_ids : List String)
        → get_transfer_by_file_id db finish.file_id ≡ some t
        → apply_finish env clock.write_ms t.file_id finish.success member_ids db ≡ (
          some (record {
            transfer = (saved db).0;
            sync_events = (told db member_ids).0;
            changed = true;
          }),
          (told db member_ids).1,
        )
    apply_finish_as db member_ids found =
        ap (λ (b : Bool). apply_finish env clock.write_ms t.file_id b member_ids db) success
        ∙ apply_finish_lem db member_ids found

    abbrev message_of : StoredFileTransfer → SendMessage
    message_of u = record {
      conversation_id = u.conversation_id;
      client_msg_id = "file-msg-" <> u.file_id;
      type = msg_file;
      content = build_file_message_content tools u;
      burn_mode = 0;
      burn_ttl_sec = 0;
    }

    abbrev after_message : Db → List String → StoredFileTransfer → Db
    after_message db member_ids u =
        (append_message env clock.message_ms (request_id <> "-filemsg") user_id (message_of u)
          member_ids none db).1

    -- The message that is stored is found, and the transfers stay as they are.
    stored_message :
        (db : Db) (member_ids : List String) (u : StoredFileTransfer)
        → (message : Message) × (get_message_by_client_msg_id
              (after_message db member_ids u)
              u.conversation_id
              user_id
              ("file-msg-" <> u.file_id)
            ≡ some message)
          × (get_transfer_by_file_id (after_message db member_ids u) finish.file_id
              ≡ get_transfer_by_file_id db finish.file_id)
    unfolding get_transfer_by_file_id
    stored_message db member_ids u =
        let m = message_of u in
        let id = request_id <> "-filemsg" in
        let row = new_row env clock.message_ms id user_id m member_ids none db in
        let newest =
          find_newest (after_message db member_ids u) row db.messages
            (messages-append_message env clock.message_ms id user_id m member_ids none db) in
        (
          newest.0,
          newest.1,
          rw
              (
                get_transfer_by_file_id,
                transfers-append_message env clock.message_ms id user_id m member_ids none db,
              )
              refl,
        )

    sent_as :
        (db : Db) (u : StoredFileTransfer) (message : Message)
        → u.conversation_id ≡ t.conversation_id
        → u.file_id ≡ t.file_id
        → get_message_by_client_msg_id db u.conversation_id user_id ("file-msg-" <> u.file_id)
          ≡ some message
        → get_message_by_client_msg_id db t.conversation_id user_id ("file-msg-" <> t.file_id)
          ≡ some message
    sent_as db u message c f e = rw (sym c, sym f) e

    publish-Published :
        (db : Db) (member_ids : List String) (u : StoredFileTransfer)
        → u.conversation_id ≡ t.conversation_id
        → u.file_id ≡ t.file_id
        → u.status ≡ "completed"
        → u.received_bytes ≡ t.file_size
        → u.direction ≡ t.direction
        → get_transfer_by_file_id db finish.file_id ≡ some u
        → Published (publish env fenv tools clock user_id request_id finish u member_ids db).1
    unfolding publish append_file_message
    publish-Published db member_ids u c f s r d found =
        let name = "file-msg-" <> u.file_id in
        let not_down : (u.direction == file_direction_download) ≡ false =
          ap (λ (n : ℕ). n == file_direction_download) d ∙ upload in
        elim (Option-cases (get_message_by_client_msg_id db u.conversation_id user_id name)) [
          | inr (m, e) ↦
              rw
                (
                  publish,
                  success,
                  not_down,
                  text_test u.status "completed" s,
                  append_file_message,
                  e,
                )
                (record {
                  transfer = u;
                  found = found;
                  completed = s;
                  whole = r;
                  message = m;
                  sent = sent_as db u m c f e;
                })
          | inl n ↦
              let sent = stored_message db member_ids u in
              rw
                (
                  publish,
                  success,
                  not_down,
                  text_test u.status "completed" s,
                  append_file_message,
                  n,
                )
                (record {
                  transfer = u;
                  found = sent.2 ∙ found;
                  completed = s;
                  whole = r;
                  message = sent.0;
                  sent = sent_as (after_message db member_ids u) u sent.0 c f sent.1;
                })
        ]

    finish_transfer-Published :
        (db : Db)
        → get_transfer_by_file_id db finish.file_id ≡ some t
        → Published (finish_transfer env fenv tools clock user_id request_id finish t db).1
    unfolding finish_transfer save_progress
    finish_transfer-Published db found =
        let member_ids = list_member_ids db t.conversation_id in
        rw
          (
            finish_transfer,
            apply_finish_as db member_ids found,
            apply_finish_as db member_ids found,
          )
          (publish-Published (told db member_ids).1 member_ids (saved db).0 refl refl refl refl refl
            (append_if-found env true member_ids (saved db).0 finish.file_id (saved db).1
              ∙ save_progress-found clock.write_ms "completed" t.file_size finish.file_id t db
                  found))

    finish_owned-Verified :
        (db : Db)
        → get_transfer_by_file_id db finish.file_id ≡ some t
        → succeeds (finish_owned env fenv tools clock disk user_id request_id finish t db).0 ≡ true
        → Verified
          × Published (finish_owned env fenv tools clock disk user_id request_id finish t db).1
    unfolding finish_owned refuse answer
    finish_owned-Verified db found =
        rw (finish_owned, check_finish_lem)
          (elim (Bool-cases (t.received_bytes == t.file_size)) [
            | inr part ↦ rw part (λ h. absurd (false≢true h))
            | inl full ↦ rw full (elim (Bool-cases (verify_file_sha256 fenv tools disk t)) [
              | inr bad ↦ rw bad (λ h. absurd (false≢true (sym (restart_damaged-fails db) ∙ h)))
              | inl good ↦
                  rw good (λ h. (verify_file_sha256_lem good, finish_transfer-Published db found))
            ])
          ])

    -- If the request to finish an upload that is neither completed nor cancelled as a success is
    -- answered with a success, then the file on the disk has the announced size and SHA-256 digest,
    -- and afterwards the transfer is completed with all its bytes and its message is in the
    -- conversation.
    pub apply_file_finish-Verified :
        (db : Db)
        → get_transfer_by_file_id db finish.file_id ≡ some t
        → succeeds (apply_file_finish env fenv tools clock disk user_id request_id finish db).0
          ≡ true
        → Verified
          × Published (apply_file_finish env fenv tools clock disk user_id request_id finish db).1
    unfolding apply_file_finish refuse answer
    apply_file_finish-Verified db found =
        elim (Bool-cases (owns_init_request user_id request_id db)) [
          | inl owned ↦ rw (apply_file_finish, owned) (λ h. absurd (false≢true h))
          | inr free ↦ elim (Bool-cases (strip finish.file_id =? "")) [
            | inl blank ↦ rw (apply_file_finish, free, blank) (λ h. absurd (false≢true h))
            | inr named ↦ elim (Bool-cases (t.owner_id =? user_id)) [
              | inr other ↦
                  rw (apply_file_finish, free, named, found, other) (λ h. absurd (false≢true h))
              | inl mine ↦
                  rw (apply_file_finish, free, named, found, mine) (finish_owned-Verified db found)
            ]
          ]
        ]
