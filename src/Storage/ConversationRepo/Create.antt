-- ===== src/Storage/ConversationRepo/Create.antt =====
-- server/storage/repo/conversation_repo.py: `create_conversation` and its two callers.
use mini_im.Prelude.{
  ℕ, String, Bool, true, false, not, Option, none, some, List, [], ◌∷◌, ◌&&◌, if◌then◌else◌, ◌=?◌,
  find?,
}
use mini_im.Protocol.{ConversationUpdated, Body, conversation_group, conversation_direct}
use mini_im.Storage.Db.{Db, Env, CreateRequestRow, uuid4}
use mini_im.Storage.SyncEvent.{StoredSyncEvent, append_sync_events}
use mini_im.Storage.ConversationRepo.{
  normalize_member_ids, insert_user, has_any_user, all_users_exist, get_conversation,
  conversation_updated_of,
}

pub record CreateConversationResult : Type 0 where
  pub conversation : ConversationUpdated
  pub sync_events : List StoredSyncEvent
  pub created : Bool

-- `ValueError` and `RuntimeError` are values.
pub data Creation : Type 0 where
  done : CreateConversationResult → Creation
  member_missing : Creation
  must_exist : Creation

-- A transaction left by an exception is rolled back; the random source is not.
abbrev pub rolled_back : Db → Db → Db
rolled_back before after = record before { issued = after.issued }

unfoldable pub insert_users : List String → ℕ → Db → Db
unfolding insert_user
insert_users [] now_ms db = db
insert_users (user_id ∷ user_ids) now_ms db =
    insert_users user_ids now_ms (insert_user user_id now_ms db)

-- One round of the loop over `members`.
unfoldable pub insert_new_member : String → String → ℕ → String → Db → Db
insert_new_member conversation_id owner_id now_ms member_id db = record db {
  conversation_members =
      record {
        conversation_id = conversation_id;
        user_id = member_id;
        role = if member_id =? owner_id then "owner" else "member";
        joined_at_ms = now_ms;
        last_read_seq = 0;
      }
      ∷ db.conversation_members;
}

unfoldable pub insert_members : String → String → ℕ → List String → Db → Db
unfolding insert_new_member
insert_members conversation_id owner_id now_ms [] db = db
insert_members conversation_id owner_id now_ms (member_id ∷ member_ids) db =
    insert_members conversation_id owner_id now_ms member_ids
      (insert_new_member conversation_id owner_id now_ms member_id db)

unfoldable pub find_create_request : String → String → Db → Option CreateRequestRow
unfolding find?
find_create_request user_id client_conv_id db =
    find? (λ r. (r.user_id =? user_id) && (r.client_conv_id =? client_conv_id))
      db.conversation_create_requests

-- The inserts of a new conversation, with its identifier.
unfoldable pub insert_conversation :
    Env → ℕ → String → String → String → List String → ℕ → Db → String × Db
unfolding uuid4 insert_members
insert_conversation env now_ms owner_id client_conv_id title members conversation_type db =
    let (conversation_id, db₁) = uuid4 env db in
    let db₂ = record db₁ {
      conversations =
          record {
            conversation_id = conversation_id;
            type = conversation_type;
            title = title;
            owner_id = owner_id;
            created_at_ms = now_ms;
          }
          ∷ db₁.conversations;
    } in
    let db₃ = insert_members conversation_id owner_id now_ms members db₂ in
    (
      conversation_id,
      record db₃ {
        conversation_create_requests =
            record {
              user_id = owner_id;
              client_conv_id = client_conv_id;
              conversation_id = conversation_id;
              created_at_ms = now_ms;
            }
            ∷ db₃.conversation_create_requests;
      },
    )

-- From `record = self.get_conversation(conversation_id)` on.
unfoldable pub finish_creation : Env → ℕ → String → Bool → Db → Creation × Db
unfolding get_conversation conversation_updated_of append_sync_events
finish_creation env now_ms conversation_id created db = elim (get_conversation db conversation_id) [
  | none ↦ (Creation.must_exist, db)
  | some r ↦
      let updated = conversation_updated_of r "" now_ms in
      let (events, db') =
        append_sync_events env r.conversation_id "conversation_updated"
          (Body.conversation_updated updated) now_ms r.member_ids db in
      if created
      then (
        Creation.done (record { conversation = updated; sync_events = events; created = true }),
        db',
      )
      else (
        Creation.done (record { conversation = updated; sync_events = []; created = false }),
        db,
      )
]

unfoldable pub find_or_insert :
    Env → ℕ → String → String → String → List String → ℕ → Db → (String × Bool) × Db
unfolding find_create_request insert_conversation
find_or_insert env now_ms owner_id client_conv_id title members conversation_type db =
    elim (find_create_request owner_id client_conv_id db) [
      | some row ↦ ((row.conversation_id, false), db)
      | none ↦
          let (conversation_id, db') =
            insert_conversation env now_ms owner_id client_conv_id title members conversation_type
              db in
          ((conversation_id, true), db')
    ]

-- The outcome of the `with` block: an exception rolls the tables back.
abbrev pub leave_transaction : Db → Creation × Db → Creation × Db
leave_transaction before (Creation.done r, db) = (Creation.done r, db)
leave_transaction before (Creation.member_missing, db) =
    (Creation.member_missing, rolled_back before db)
leave_transaction before (Creation.must_exist, db) = (Creation.must_exist, rolled_back before db)

unfoldable pub create_conversation :
    Env → ℕ → String → String → String → List String → ℕ → Db → Creation × Db
unfolding normalize_member_ids has_any_user all_users_exist insert_users find_or_insert
    finish_creation
create_conversation env now_ms owner_id client_conv_id title member_ids conversation_type db =
    let members = normalize_member_ids owner_id member_ids in
    if has_any_user db && not (all_users_exist db members)
    then (Creation.member_missing, db)
    else let db₁ = if has_any_user db then db else insert_users members now_ms db in
      let ((conversation_id, created), db₂) =
        find_or_insert env now_ms owner_id client_conv_id title members conversation_type db₁ in
      leave_transaction db (finish_creation env now_ms conversation_id created db₂)

unfoldable pub create_group_conversation :
    Env → ℕ → String → String → String → List String → Db → Creation × Db
unfolding create_conversation
create_group_conversation env now_ms owner_id client_conv_id title member_ids db =
    create_conversation env now_ms owner_id client_conv_id title member_ids conversation_group db

unfoldable pub create_direct_conversation : Env → ℕ → String → String → String → Db → Creation × Db
unfolding create_conversation
create_direct_conversation env now_ms owner_id client_conv_id target_user_id db =
    create_conversation env now_ms owner_id client_conv_id "" (target_user_id ∷ [])
      conversation_direct db
