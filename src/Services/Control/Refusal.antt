-- ===== src/Services/Control/Refusal.antt =====
-- server/services/control/service.py: a refused write leaves the tables as they were.
use mini_im.Prelude.{
  ℕ, String, Bool, true, false, ◌||◌, Option, none, some, List, [], ◌∷◌, ◌≡◌, refl, sym,
  if◌then◌else◌, ◌=?◌, arith, ltb, ◌==◌, length, filter, not,
}
use mathlib.Core.Bool.{false≢true}
use mini_im.Protocol.{Receipt, Recall, conversation_group, conversation_direct}
use mini_im.Text.{strip}
use mini_im.Storage.Db.{Db, Env}
use mini_im.Storage.Untouched.{Untouched}
use mini_im.Storage.SyncEvent.{from_keys}
use mini_im.Storage.ControlWrite.{ControlWriteResult}
use mini_im.Storage.DeliveryRepo.{apply_receipt, apply_recall}
use mini_im.Storage.ConversationRepo.Create.{
  Creation, create_group_conversation, create_direct_conversation,
}
use mini_im.Storage.ConversationRepo.Members.{
  Update, add_members, remove_members, leave_conversation, join_conversation, rename_conversation,
}
use mini_im.Storage.ConversationRepo.Refusal.{
  CleanUpdate, CleanCreation, create_conversation-CleanCreation, rename_conversation-CleanUpdate,
  add_members-CleanUpdate, join_conversation-CleanUpdate, remove_members-CleanUpdate,
  leave_conversation-CleanUpdate,
}
use mini_im.Services.Delivery.{done, receipt_answer, recall_answer, handle_receipt, handle_recall}
use mini_im.Services.Conversation.{
  CreateConversation, MembersChange, RenameConversation, Answer, refuse, accept, creation_answer,
  result_from_update, nonblank, stripped, is_empty, create_direct, handle_create_conversation,
  handle_add_members, handle_remove_members, handle_leave_conversation, handle_join_conversation,
  handle_rename_conversation,
}
use mini_im.Services.Control.{WriteBody, of_conversation, of_delivery, run_handler}

-- A failure leaves the tables as they were.
abbrev pub Clean : Db → Option ControlWriteResult × Db → Type 0
Clean before (none, db) = Untouched before db
Clean before (some r, db) = r.ack.success ≡ false → Untouched before db

on_test :
    (before : Db) (b : Bool) (x y : Answer)
    → Clean before (of_conversation x)
    → Clean before (of_conversation y)
    → Clean before (of_conversation (if b then x else y))
on_test before true x y h k = h
on_test before false x y h k = k

refuse-Clean :
    (request_id : String) (code : ℕ) (message : String) (now_ms : ℕ) (db : Db)
    → Clean db (of_conversation (some (refuse request_id code message now_ms), db))
unfolding of_conversation
refuse-Clean request_id code message now_ms db _ = refl

module _ (now_ms done_ms : ℕ) (request_id : String) (before : Db) where
  result_from_update-Clean :
      (conversation_id failure : String) (u : Update × Db)
      → CleanUpdate before u
      → Clean before
          (of_conversation (result_from_update now_ms done_ms request_id conversation_id failure u))
  unfolding of_conversation result_from_update accept
  result_from_update-Clean conversation_id failure (Update.rejected, db) h = λ _. h
  result_from_update-Clean conversation_id failure (Update.must_exist, db) h = h
  result_from_update-Clean conversation_id failure (Update.updated r, db) h =
      λ e. absurd (false≢true (sym e))

  creation_answer-Clean :
      (missing : String) (c : Creation × Db)
      → CleanCreation before c
      → Clean before (of_conversation (creation_answer now_ms done_ms request_id missing c))
  unfolding of_conversation creation_answer accept
  creation_answer-Clean missing (Creation.member_missing, db) h = λ _. h
  creation_answer-Clean missing (Creation.must_exist, db) h = h
  creation_answer-Clean missing (Creation.done r, db) h = λ e. absurd (false≢true (sym e))

module _ (env : Env) (now_ms write_ms done_ms : ℕ) (user_id request_id : String) (db : Db) where
  handle_add_members-Clean :
      (c : MembersChange)
      → Clean db
          (of_conversation (handle_add_members env now_ms write_ms done_ms user_id request_id c db))
  unfolding handle_add_members
  handle_add_members-Clean c =
      on_test db ((strip c.conversation_id =? "") || is_empty (stripped c.member_ids)) _ _
        (refuse-Clean request_id 400 "invalid add_members" now_ms db)
        (result_from_update-Clean now_ms done_ms request_id db (strip c.conversation_id)
          "add_members rejected"
          (add_members env write_ms user_id (strip c.conversation_id) (stripped c.member_ids) db)
          (add_members-CleanUpdate env write_ms user_id (strip c.conversation_id) db
            (stripped c.member_ids)))

  handle_remove_members-Clean :
      (c : MembersChange)
      → Clean db (
          of_conversation
            (handle_remove_members env now_ms write_ms done_ms user_id request_id c db))
  unfolding handle_remove_members
  handle_remove_members-Clean c =
      on_test db ((strip c.conversation_id =? "") || is_empty (stripped c.member_ids)) _ _
        (refuse-Clean request_id 400 "invalid remove_members" now_ms db)
        (result_from_update-Clean now_ms done_ms request_id db (strip c.conversation_id)
          "remove_members rejected"
          (remove_members env write_ms user_id (strip c.conversation_id) (stripped c.member_ids) db)
          (remove_members-CleanUpdate env write_ms user_id (strip c.conversation_id) db
            (stripped c.member_ids)))

  handle_leave_conversation-Clean :
      (c : String)
      → Clean db (
          of_conversation
            (handle_leave_conversation env now_ms write_ms done_ms user_id request_id c db))
  unfolding handle_leave_conversation
  handle_leave_conversation-Clean c =
      on_test db (strip c =? "") _ _
        (refuse-Clean request_id 400 "invalid leave_conversation" now_ms db)
        (result_from_update-Clean now_ms done_ms request_id db (strip c)
          "leave_conversation rejected" (leave_conversation env write_ms user_id (strip c) db)
          (leave_conversation-CleanUpdate env write_ms user_id (strip c) db))

  handle_join_conversation-Clean :
      (c : String)
      → Clean db (
          of_conversation
            (handle_join_conversation env now_ms write_ms done_ms user_id request_id c db))
  unfolding handle_join_conversation
  handle_join_conversation-Clean c =
      on_test db (strip c =? "") _ _
        (refuse-Clean request_id 400 "invalid join_conversation" now_ms db)
        (result_from_update-Clean now_ms done_ms request_id db (strip c)
          "join_conversation rejected" (join_conversation env write_ms user_id (strip c) db)
          (join_conversation-CleanUpdate env write_ms user_id (strip c) db))

  handle_rename_conversation-Clean :
      (c : RenameConversation)
      → Clean db (
          of_conversation
            (handle_rename_conversation env now_ms write_ms done_ms user_id request_id c db))
  unfolding handle_rename_conversation
  handle_rename_conversation-Clean c =
      on_test db ((strip c.conversation_id =? "") || (strip c.title =? "")) _ _
        (refuse-Clean request_id 400 "invalid rename_conversation" now_ms db)
        (result_from_update-Clean now_ms done_ms request_id db (strip c.conversation_id)
          "rename_conversation rejected"
          (rename_conversation env write_ms user_id (strip c.conversation_id) (strip c.title) db)
          (rename_conversation-CleanUpdate env write_ms user_id (strip c.conversation_id) db
            (strip c.title)))

  create_direct-Clean :
      (client_conv_id : String) (peers : List String)
      → Clean db (
          of_conversation
            (create_direct env now_ms write_ms done_ms user_id request_id client_conv_id peers db))
  unfolding create_direct create_direct_conversation
  create_direct-Clean client_conv_id [] =
      refuse-Clean request_id 400 "direct conversation requires exactly 1 peer" now_ms db
  create_direct-Clean client_conv_id (p ∷ q ∷ ps) =
      refuse-Clean request_id 400 "direct conversation requires exactly 1 peer" now_ms db
  create_direct-Clean client_conv_id (p ∷ []) =
      creation_answer-Clean now_ms done_ms request_id db "direct peer does not exist"
        (create_direct_conversation env write_ms user_id client_conv_id p db)
        (create_conversation-CleanCreation env write_ms user_id client_conv_id "" (p ∷ [])
          conversation_direct db)

  handle_create_conversation-Clean :
      (c : CreateConversation)
      → Clean db (
          of_conversation
            (handle_create_conversation env now_ms write_ms done_ms user_id request_id c db))
  unfolding handle_create_conversation create_group_conversation
  handle_create_conversation-Clean c =
      on_test db (strip c.client_conv_id =? "") _ _
        (refuse-Clean request_id 400 "invalid create_conversation" now_ms db)
        (on_test db (c.type == conversation_group) _ _
          (on_test db (ltb (length (from_keys (user_id ∷ nonblank c.member_ids))) 2) _ _
            (refuse-Clean request_id 400 "group conversation requires at least 2 members" now_ms db)
            (creation_answer-Clean now_ms done_ms request_id db "conversation member does not exist"
              (create_group_conversation env write_ms user_id (strip c.client_conv_id)
                (strip c.title) (nonblank c.member_ids) db)
              (create_conversation-CleanCreation env write_ms user_id (strip c.client_conv_id)
                (strip c.title) (nonblank c.member_ids) conversation_group db)))
          (on_test db (c.type == conversation_direct) _ _
            (create_direct-Clean (strip c.client_conv_id)
              (filter (λ item. not (item =? user_id)) (from_keys (nonblank c.member_ids))))
            (refuse-Clean request_id 400 "unsupported conversation type" now_ms db)))

  apply_receipt-refused :
      (burn_enabled : Bool) (conversation_id : String) (last_read_seq : ℕ)
      → (apply_receipt env burn_enabled write_ms user_id conversation_id last_read_seq db).0 ≡ none
      → (apply_receipt env burn_enabled write_ms user_id conversation_id last_read_seq db).1 ≡ db
  unfolding apply_receipt
  apply_receipt-refused burn_enabled conversation_id last_read_seq h = ground arith

  apply_recall-refused :
      (conversation_id message_id : String)
      → (apply_recall env write_ms user_id conversation_id message_id db).0 ≡ none
      → (apply_recall env write_ms user_id conversation_id message_id db).1 ≡ db
  unfolding apply_recall
  apply_recall-refused conversation_id message_id h = ground arith

  handle_receipt-Clean :
      (burn_enabled : Bool) (r : Receipt)
      → Clean db (
          of_delivery
            (handle_receipt env burn_enabled now_ms write_ms done_ms user_id request_id r db))
  unfolding handle_receipt of_delivery receipt_answer done
  handle_receipt-Clean burn_enabled r e =
      ground (arith, apply_receipt-refused burn_enabled r.conversation_id r.last_read_seq)

  handle_recall-Clean :
      (r : Recall)
      → Clean db (of_delivery (handle_recall env now_ms write_ms done_ms user_id request_id r db))
  unfolding handle_recall of_delivery recall_answer done
  handle_recall-Clean r e = ground (arith, apply_recall-refused r.conversation_id r.message_id)

  -- Whatever the request: if the handler of a control write refuses or raises, then every table is
  -- as it was.
  pub run_handler-Clean :
      (burn_enabled : Bool) (body : WriteBody)
      → Clean db (run_handler env burn_enabled now_ms write_ms done_ms user_id request_id body db)
  unfolding run_handler
  run_handler-Clean burn_enabled (WriteBody.create_conversation c) =
      handle_create_conversation-Clean c
  run_handler-Clean burn_enabled (WriteBody.add_members c) = handle_add_members-Clean c
  run_handler-Clean burn_enabled (WriteBody.remove_members c) = handle_remove_members-Clean c
  run_handler-Clean burn_enabled (WriteBody.leave_conversation c) =
      handle_leave_conversation-Clean c
  run_handler-Clean burn_enabled (WriteBody.join_conversation c) = handle_join_conversation-Clean c
  run_handler-Clean burn_enabled (WriteBody.rename_conversation c) =
      handle_rename_conversation-Clean c
  run_handler-Clean burn_enabled (WriteBody.receipt r) = handle_receipt-Clean burn_enabled r
  run_handler-Clean burn_enabled (WriteBody.recall r) = handle_recall-Clean r
  run_handler-Clean burn_enabled WriteBody.unhandled = refl
