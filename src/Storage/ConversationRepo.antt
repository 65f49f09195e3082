-- ===== src/Storage/ConversationRepo.antt =====
-- server/storage/repo/conversation_repo.py: users, conversations and their members. The operations
-- that change the members of a group are in the child `Members`.
pub mod Create
pub mod Members
pub mod Refusal
pub mod Owner
pub mod Ownership
pub mod Removal
pub mod Groups
pub mod Founding
pub mod Rejoin
pub mod Positions
pub mod Kept
pub mod Return
pub mod Finish
pub mod Again
use mini_im.Prelude.{
  ℕ, String, Bool, true, false, ◌&&◌, ◌||◌, not, Option, none, some, List, [], ◌∷◌, map,
  if◌then◌else◌, ◌=?◌, ◌==◌, ltb, filter, any, all, find?,
}
use mini_im.Protocol.{ConversationUpdated, Body}
use mini_im.Text.{strip}
use mini_im.Storage.Db.{Db, Env, UserRow, MemberRow, uuid4}
use mini_im.Storage.Sql.{text_lt, order_by}
use mini_im.Storage.SyncEvent.{StoredSyncEvent, add_key, append_sync_events}
use mini_im.Storage.ReadState.{preserve_read_position}

pub record ConversationRecord : Type 0 where
  pub conversation_id : String
  pub title : String
  pub type : ℕ
  pub owner_id : String
  pub member_ids : List String

-- The loop that strips the identifiers and keeps the first mention of each that is not empty.
unfoldable pub add_stripped : List String → List String → List String
unfolding strip add_key
add_stripped keys [] = keys
add_stripped keys (member_id ∷ member_ids) =
    let item = strip member_id in
    add_stripped (if item =? "" then keys else add_key keys item) member_ids

unfoldable pub normalize_member_ids : String → List String → List String
unfolding add_stripped
normalize_member_ids owner_id member_ids = add_stripped (owner_id ∷ []) member_ids

unfoldable pub unique_user_ids : List String → List String
unfolding add_stripped
unique_user_ids user_ids = add_stripped [] user_ids

-- `INSERT OR IGNORE INTO users`
unfoldable pub insert_user : String → ℕ → Db → Db
unfolding any
insert_user user_id now_ms db = if any (λ u. u.user_id =? user_id) db.users then db else record db {
  users = record { user_id = user_id; nickname = user_id; created_at_ms = now_ms } ∷ db.users;
}

unfoldable pub ensure_user : String → ℕ → Db → Db
unfolding insert_user strip
ensure_user user_id now_ms db =
    let item = strip user_id in if item =? "" then db else insert_user item now_ms db

unfoldable pub user_exists : Db → String → Bool
unfolding strip any
user_exists db user_id = let item = strip user_id in any (λ u. u.user_id =? item) db.users

unfoldable pub all_users_exist : Db → List String → Bool
unfolding user_exists unique_user_ids all
all_users_exist db user_ids = all (user_exists db) (unique_user_ids user_ids)

unfoldable pub has_any_user : Db → Bool
has_any_user db = elim db.users [ [] ↦ false | u ∷ us ↦ true ]

unfoldable pub is_key : String → String → MemberRow → Bool
is_key conversation_id user_id m = (m.conversation_id =? conversation_id) && (m.user_id =? user_id)

unfoldable pub is_member : Db → String → String → Bool
unfolding is_key any
is_member db conversation_id user_id = any (is_key conversation_id user_id) db.conversation_members

-- `ORDER BY joined_at_ms ASC, user_id ASC`
unfoldable pub joined_before : MemberRow → MemberRow → Bool
joined_before m n =
    ltb m.joined_at_ms n.joined_at_ms
    || (m.joined_at_ms == n.joined_at_ms && text_lt m.user_id n.user_id)

unfoldable pub list_member_ids : Db → String → List String
unfolding order_by joined_before filter
list_member_ids db conversation_id =
    map (λ m. m.user_id)
      (order_by joined_before
        (filter (λ m. m.conversation_id =? conversation_id) db.conversation_members))

unfoldable pub get_conversation : Db → String → Option ConversationRecord
unfolding find? list_member_ids
get_conversation db conversation_id =
    elim (find? (λ c. c.conversation_id =? conversation_id) db.conversations) [
      | none ↦ none
      | some row ↦ some (record {
        conversation_id = row.conversation_id;
        title = row.title;
        type = row.type;
        owner_id = row.owner_id;
        member_ids = list_member_ids db conversation_id;
      })
    ]

unfoldable pub conversation_updated_of : ConversationRecord → String → ℕ → ConversationUpdated
conversation_updated_of r event_id now_ms = record {
  event_id = event_id;
  conversation_id = r.conversation_id;
  updated_at_ms = now_ms;
  title = r.title;
  type = r.type;
  owner_id = r.owner_id;
  member_ids = r.member_ids;
}

unfoldable pub build_conversation_updated_events :
    Env
    → ConversationRecord
    → List String
    → ℕ
    → Db
    → (ConversationUpdated × List StoredSyncEvent) × Db
unfolding uuid4 conversation_updated_of unique_user_ids append_sync_events
build_conversation_updated_events env r target_user_ids now_ms db =
    let (event_id, db₁) = uuid4 env db in
    let updated = conversation_updated_of r event_id now_ms in
    let (events, db₂) =
      append_sync_events env r.conversation_id "conversation_updated"
        (Body.conversation_updated updated) now_ms (unique_user_ids target_user_ids) db₁ in
    ((updated, events), db₂)

-- `_preserve_read_position`
unfoldable pub keep_read_position : String → String → ℕ → Db → Db
unfolding find? is_key preserve_read_position
keep_read_position conversation_id user_id now_ms db =
    elim (find? (is_key conversation_id user_id) db.conversation_members) [
      | none ↦ db
      | some row ↦ preserve_read_position conversation_id user_id row.last_read_seq now_ms db
    ]

-- `DELETE FROM conversation_members WHERE conversation_id = ? AND user_id = ?`
unfoldable pub delete_member : String → String → Db → Db
unfolding filter is_key
delete_member conversation_id user_id db = record db {
  conversation_members =
      filter (λ m. not (is_key conversation_id user_id m)) db.conversation_members;
}
