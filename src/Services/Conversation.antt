-- ===== src/Services/Conversation.antt =====
-- server/services/conversation/service.py: the requests that create and change conversations. The
-- clock readings are arguments: of the acknowledgement, in the repository, at the end.
use mini_im.Prelude.{
  ℕ, String, Bool, true, false, ◌||◌, not, Option, none, some, List, [], ◌∷◌, map, if◌then◌else◌,
  ◌=?◌, ◌==◌, ltb, length, filter,
}
use mini_im.Protocol.{Ack, ConversationUpdated, conversation_group, conversation_direct}
use mini_im.Text.{strip}
use mini_im.Storage.Db.{Db, Env}
use mini_im.Storage.SyncEvent.{StoredSyncEvent, from_keys}
use mini_im.Storage.ConversationRepo.Create.{
  Creation, create_group_conversation, create_direct_conversation,
}
use mini_im.Storage.ConversationRepo.Members.{
  Update, add_members, remove_members, leave_conversation, join_conversation, rename_conversation,
}

-- The bodies of the requests; leaving and joining name a conversation only.
pub record CreateConversation : Type 0 where
  pub client_conv_id : String
  pub type : ℕ
  pub title : String
  pub member_ids : List String

-- `AddMembers` and `RemoveMembers`
pub record MembersChange : Type 0 where
  pub conversation_id : String
  pub member_ids : List String

pub record RenameConversation : Type 0 where
  pub conversation_id : String
  pub title : String

pub record CreateConversationServiceResult : Type 0 where
  pub ack : Ack
  pub conversation_updated : Option ConversationUpdated
  pub sync_events : List StoredSyncEvent

-- `_make_ack`, and the results that carry no conversation.
unfoldable pub refuse : String → ℕ → String → ℕ → CreateConversationServiceResult
refuse request_id code message now_ms = record {
  ack = record {
    request_id = request_id;
    success = false;
    code = code;
    message = message;
    entity_id = "";
    server_time_ms = now_ms;
  };
  conversation_updated = none;
  sync_events = [];
}

unfoldable pub accept :
    String
    → Bool
    → String
    → ℕ
    → ConversationUpdated
    → List StoredSyncEvent
    → CreateConversationServiceResult
accept request_id changed conversation_id done_ms conversation sync_events = record {
  ack = record {
    request_id = request_id;
    success = true;
    code = 0;
    message = if changed then "ok" else "ok(idempotent)";
    entity_id = conversation_id;
    server_time_ms = done_ms;
  };
  conversation_updated = some conversation;
  sync_events = sync_events;
}

-- What a handler returns; none is the `RuntimeError` of the repository, which it lets through.
abbrev pub Answer : Type 0
Answer = Option CreateConversationServiceResult × Db

unfoldable pub creation_answer : ℕ → ℕ → String → String → Creation × Db → Answer
unfolding refuse accept
creation_answer now_ms done_ms request_id missing (Creation.must_exist, db) = (none, db)
creation_answer now_ms done_ms request_id missing (Creation.member_missing, db) =
    (some (refuse request_id 400 missing now_ms), db)
creation_answer now_ms done_ms request_id missing (Creation.done result, db) = (
  some (
      accept request_id result.created result.conversation.conversation_id done_ms
        result.conversation result.sync_events),
  db,
)

-- `[item for item in member_ids if item.strip()]`
unfoldable pub nonblank : List String → List String
unfolding filter strip
nonblank = filter λ item. not (strip item =? "")

unfoldable pub create_direct :
    Env → ℕ → ℕ → ℕ → String → String → String → List String → Db → Answer
unfolding create_direct_conversation creation_answer refuse
create_direct env now_ms write_ms done_ms user_id request_id client_conv_id (peer ∷ []) db =
    creation_answer now_ms done_ms request_id "direct peer does not exist"
      (create_direct_conversation env write_ms user_id client_conv_id peer db)
create_direct env now_ms write_ms done_ms user_id request_id client_conv_id _ db =
    (some (refuse request_id 400 "direct conversation requires exactly 1 peer" now_ms), db)

unfoldable pub handle_create_conversation :
    Env → ℕ → ℕ → ℕ → String → String → CreateConversation → Db → Answer
unfolding strip nonblank from_keys filter refuse creation_answer create_group_conversation
    create_direct
handle_create_conversation env now_ms write_ms done_ms user_id request_id request db =
    let member_ids = nonblank request.member_ids in
    if strip request.client_conv_id =? ""
    then (some (refuse request_id 400 "invalid create_conversation" now_ms), db)
    else if request.type == conversation_group
    then (if ltb (length (from_keys (user_id ∷ member_ids))) 2
        then (
          some (refuse request_id 400 "group conversation requires at least 2 members" now_ms),
          db,
        )
        else creation_answer now_ms done_ms request_id "conversation member does not exist" (
            create_group_conversation env write_ms user_id (strip request.client_conv_id)
              (strip request.title) member_ids db))
    else if request.type == conversation_direct
    then create_direct env now_ms write_ms done_ms user_id request_id (strip request.client_conv_id)
        (filter (λ item. not (item =? user_id)) (from_keys member_ids)) db
    else (some (refuse request_id 400 "unsupported conversation type" now_ms), db)

-- `_result_from_update`
unfoldable pub result_from_update : ℕ → ℕ → String → String → String → Update × Db → Answer
unfolding refuse accept
result_from_update now_ms done_ms request_id conversation_id failure (Update.must_exist, db) =
    (none, db)
result_from_update now_ms done_ms request_id conversation_id failure (Update.rejected, db) =
    (some (refuse request_id 403 failure now_ms), db)
result_from_update now_ms done_ms request_id conversation_id failure (Update.updated result, db) = (
  some (
      accept request_id result.changed conversation_id done_ms result.conversation
        result.sync_events),
  db,
)

-- `[item.strip() for item in member_ids if item.strip()]`
unfoldable pub stripped : List String → List String
unfolding strip nonblank
stripped member_ids = map strip (nonblank member_ids)

-- `not member_ids`
abbrev pub is_empty : List String → Bool
is_empty [] = true
is_empty (_ ∷ _) = false

module _ (env : Env) (now_ms write_ms done_ms : ℕ) (user_id request_id : String) where
  unfoldable pub handle_add_members : MembersChange → Db → Answer
  unfolding strip stripped refuse add_members result_from_update
  handle_add_members request db =
      let conversation_id = strip request.conversation_id in
      let member_ids = stripped request.member_ids in
      if (conversation_id =? "") || is_empty member_ids
      then (some (refuse request_id 400 "invalid add_members" now_ms), db)
      else result_from_update now_ms done_ms request_id conversation_id "add_members rejected"
          (add_members env write_ms user_id conversation_id member_ids db)

  unfoldable pub handle_remove_members : MembersChange → Db → Answer
  unfolding strip stripped refuse remove_members result_from_update
  handle_remove_members request db =
      let conversation_id = strip request.conversation_id in
      let member_ids = stripped request.member_ids in
      if (conversation_id =? "") || is_empty member_ids
      then (some (refuse request_id 400 "invalid remove_members" now_ms), db)
      else result_from_update now_ms done_ms request_id conversation_id "remove_members rejected"
          (remove_members env write_ms user_id conversation_id member_ids db)

  unfoldable pub handle_leave_conversation : String → Db → Answer
  unfolding strip refuse leave_conversation result_from_update
  handle_leave_conversation requested_id db =
      let conversation_id = strip requested_id in
      if conversation_id =? ""
      then (some (refuse request_id 400 "invalid leave_conversation" now_ms), db)
      else result_from_update now_ms done_ms request_id conversation_id
          "leave_conversation rejected" (leave_conversation env write_ms user_id conversation_id db)

  unfoldable pub handle_join_conversation : String → Db → Answer
  unfolding strip refuse join_conversation result_from_update
  handle_join_conversation requested_id db =
      let conversation_id = strip requested_id in
      if conversation_id =? ""
      then (some (refuse request_id 400 "invalid join_conversation" now_ms), db)
      else result_from_update now_ms done_ms request_id conversation_id "join_conversation rejected"
          (join_conversation env write_ms user_id conversation_id db)

  unfoldable pub handle_rename_conversation : RenameConversation → Db → Answer
  unfolding strip refuse rename_conversation result_from_update
  handle_rename_conversation request db =
      let conversation_id = strip request.conversation_id in
      let title = strip request.title in
      if (conversation_id =? "") || (title =? "")
      then (some (refuse request_id 400 "invalid rename_conversation" now_ms), db)
      else result_from_update now_ms done_ms request_id conversation_id
          "rename_conversation rejected"
          (rename_conversation env write_ms user_id conversation_id title db)
