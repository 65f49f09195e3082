-- ===== src/Storage/ConversationRepo/Members.antt =====
-- server/storage/repo/conversation_repo.py: renaming a group and changing its members.
use mini_im.Prelude.{
  ℕ, String, Bool, true, false, not, Option, none, some, List, [], ◌∷◌, ◌&&◌, if◌then◌else◌, ◌=?◌,
  ◌==◌, filter, update_where,
}
use mini_im.Protocol.{ConversationUpdated, conversation_group}
use mini_im.Storage.Db.{Db, Env, ReadHistoryRow}
use mini_im.Storage.SyncEvent.{StoredSyncEvent, contains}
use mini_im.Storage.ConversationRepo.{
  ConversationRecord, unique_user_ids, user_exists, all_users_exist, get_conversation, is_key,
  build_conversation_updated_events, keep_read_position, delete_member,
}

pub record UpdateConversationResult : Type 0 where
  pub conversation : ConversationUpdated
  pub sync_events : List StoredSyncEvent
  pub changed : Bool

-- `None`, a result, or the `RuntimeError` of a conversation that has gone.
pub data Update : Type 0 where
  rejected : Update
  updated : UpdateConversationResult → Update
  must_exist : Update

-- The record, if it is a group.
unfoldable pub get_group : Db → String → Option ConversationRecord
unfolding get_conversation
get_group db conversation_id = elim (get_conversation db conversation_id) [
  | none ↦ none
  | some r ↦ if r.type == conversation_group then some r else none
]

unfoldable pub unchanged : Env → ConversationRecord → ℕ → Db → Update × Db
unfolding build_conversation_updated_events
unchanged env r now_ms db =
    let ((conversation, _), db') = build_conversation_updated_events env r [] now_ms db in
    (
      Update.updated (record { conversation = conversation; sync_events = []; changed = false }),
      db',
    )

-- The end of each operation: the record is read again and its news goes to `targets`, or to the
-- members that it has now.
unfoldable pub publish : Env → String → Option (List String) → ℕ → Db → Update × Db
unfolding get_conversation build_conversation_updated_events
publish env conversation_id targets now_ms db = elim (get_conversation db conversation_id) [
  | none ↦ (Update.must_exist, db)
  | some r ↦
      let ((conversation, events), db') =
        build_conversation_updated_events env r
          (elim targets [ none ↦ r.member_ids | some users ↦ users ]) now_ms db in
      (
        Update.updated
            (record { conversation = conversation; sync_events = events; changed = true }),
        db',
      )
]

-- The outcome of the `with` block: the exception rolls the tables back.
abbrev pub leave_transaction : Db → Update × Db → Update × Db
leave_transaction before (Update.rejected, db) = (Update.rejected, db)
leave_transaction before (Update.updated r, db) = (Update.updated r, db)
leave_transaction before (Update.must_exist, db) =
    (Update.must_exist, record before { issued = db.issued })

-- `UPDATE conversations SET title = ? WHERE conversation_id = ?`
unfoldable pub set_title : String → String → Db → Db
set_title conversation_id title db = record db {
  conversations =
      update_where (λ c. c.conversation_id =? conversation_id) (λ c. record c { title = title })
        db.conversations;
}

unfoldable pub rename_conversation : Env → ℕ → String → String → String → Db → Update × Db
unfolding get_group unchanged publish set_title
rename_conversation env now_ms operator_id conversation_id title db =
    elim (get_group db conversation_id) [
      | none ↦ (Update.rejected, db)
      | some r ↦
          if not (r.owner_id =? operator_id)
          then (Update.rejected, db)
          else if r.title =? title
          then unchanged env r now_ms db
          else leave_transaction db
              (publish env conversation_id none now_ms (set_title conversation_id title db))
    ]

-- `COALESCE((SELECT last_read_seq FROM conversation_read_history WHERE …),0)`
unfoldable pub kept_read_seq : String → String → List ReadHistoryRow → ℕ
kept_read_seq conversation_id user_id [] = 0
kept_read_seq conversation_id user_id (h ∷ rows) =
    if (h.conversation_id =? conversation_id) && (h.user_id =? user_id)
    then h.last_read_seq
    else kept_read_seq conversation_id user_id rows

unfoldable pub insert_member : String → ℕ → String → Db → Db
unfolding kept_read_seq
insert_member conversation_id now_ms user_id db = record db {
  conversation_members =
      record {
        conversation_id = conversation_id;
        user_id = user_id;
        role = "member";
        joined_at_ms = now_ms;
        last_read_seq = kept_read_seq conversation_id user_id db.conversation_read_history;
      }
      ∷ db.conversation_members;
}

unfoldable pub insert_members : String → ℕ → List String → Db → Db
unfolding insert_member
insert_members conversation_id now_ms [] db = db
insert_members conversation_id now_ms (user_id ∷ user_ids) db =
    insert_members conversation_id now_ms user_ids (insert_member conversation_id now_ms user_id db)

unfoldable pub add_members : Env → ℕ → String → String → List String → Db → Update × Db
unfolding get_group unique_user_ids all_users_exist unchanged publish insert_members
add_members env now_ms operator_id conversation_id member_ids db =
    elim (get_group db conversation_id) [
      | none ↦ (Update.rejected, db)
      | some r ↦
          if not (r.owner_id =? operator_id)
          then (Update.rejected, db)
          else elim (filter (λ item. not (contains item r.member_ids))
              (unique_user_ids member_ids)) [
                | [] ↦ unchanged env r now_ms db
                | user_id ∷ user_ids ↦
                    if all_users_exist db (user_id ∷ user_ids)
                    then leave_transaction db (
                        publish env conversation_id none now_ms
                          (insert_members conversation_id now_ms (user_id ∷ user_ids) db))
                    else (Update.rejected, db)
              ]
    ]

unfoldable pub join_conversation : Env → ℕ → String → String → Db → Update × Db
unfolding get_group user_exists unchanged publish insert_member contains
join_conversation env now_ms user_id conversation_id db = elim (get_group db conversation_id) [
  | none ↦ (Update.rejected, db)
  | some r ↦
      if not (user_exists db user_id)
      then (Update.rejected, db)
      else if contains user_id r.member_ids
      then unchanged env r now_ms db
      else leave_transaction db (
          publish env conversation_id none now_ms (insert_member conversation_id now_ms user_id db))
]

unfoldable pub remove_member : String → ℕ → String → Db → Db
unfolding keep_read_position delete_member
remove_member conversation_id now_ms user_id db =
    delete_member conversation_id user_id (keep_read_position conversation_id user_id now_ms db)

unfoldable pub remove_each : String → ℕ → List String → Db → Db
unfolding remove_member
remove_each conversation_id now_ms [] db = db
remove_each conversation_id now_ms (user_id ∷ user_ids) db =
    remove_each conversation_id now_ms user_ids (remove_member conversation_id now_ms user_id db)

-- Those of the requested users that may be removed.
unfoldable pub removable : ConversationRecord → List String → List String
unfolding filter contains unique_user_ids
removable r member_ids =
    filter (λ item. contains item r.member_ids && not (item =? r.owner_id))
      (unique_user_ids member_ids)

unfoldable pub remove_members : Env → ℕ → String → String → List String → Db → Update × Db
unfolding get_group removable unchanged publish remove_each
remove_members env now_ms operator_id conversation_id member_ids db =
    elim (get_group db conversation_id) [
      | none ↦ (Update.rejected, db)
      | some r ↦
          if not (r.owner_id =? operator_id)
          then (Update.rejected, db)
          else elim (removable r member_ids) [
            | [] ↦ unchanged env r now_ms db
            | user_id ∷ user_ids ↦ leave_transaction db (
                publish env conversation_id (some r.member_ids) now_ms
                  (remove_each conversation_id now_ms (user_id ∷ user_ids) db))
          ]
    ]

-- `UPDATE conversations SET owner_id = ?` and `UPDATE conversation_members SET role = 'owner'`.
unfoldable pub set_owner : String → String → Db → Db
unfolding update_where is_key
set_owner conversation_id new_owner db = record db {
  conversations =
      update_where (λ c. c.conversation_id =? conversation_id)
        (λ c. record c { owner_id = new_owner }) db.conversations;
  conversation_members =
      update_where (is_key conversation_id new_owner) (λ m. record m { role = "owner" })
        db.conversation_members;
}

unfoldable pub leave_conversation : Env → ℕ → String → String → Db → Update × Db
unfolding get_group contains filter remove_member set_owner publish
leave_conversation env now_ms user_id conversation_id db = elim (get_group db conversation_id) [
  | none ↦ (Update.rejected, db)
  | some r ↦
      if not (contains user_id r.member_ids)
      then (Update.rejected, db)
      else elim (filter (λ item. not (item =? user_id)) r.member_ids) [
        | [] ↦ (Update.rejected, db)
        | new_owner ∷ others ↦
            let db₁ = remove_member conversation_id now_ms user_id db in
            let db₂ =
              if r.owner_id =? user_id then set_owner conversation_id new_owner db₁ else db₁ in
            leave_transaction db (publish env conversation_id (some r.member_ids) now_ms db₂)
      ]
]
