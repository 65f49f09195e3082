-- ===== src/Storage/ConversationRepo/Founding.antt =====
-- server/storage/repo/conversation_repo.py: a new conversation has its owner among its members.
use mathlib.Core.Path.{subst}
use mini_im.Prelude.{
  ℕ, suc, String, String_discrete, Bool, true, false, ◌&&◌, ◌||◌, not, Option, none, some, List, [],
  ◌∷◌, ◌≡◌, refl, sym, ◌∙◌, if◌then◌else◌, ◌=?◌, any, arith, ◌⊎◌, inl, inr, Bool-cases,
  Option-cases,
}
use mini_im.Protocol.{Body}
use mini_im.Text.{strip}
use mini_im.Storage.Db.{Db, Env, uuid4}
use mini_im.Storage.SyncEvent.{contains, add_key, append_sync_events}
use mini_im.Storage.SyncEvent.Keys.{contains-add_key}
use mini_im.Storage.SyncEvent.Frame.{append_sync_events-OnlyEvents}
use mini_im.Storage.ConversationRepo.{
  ConversationRecord, add_stripped, normalize_member_ids, insert_user, has_any_user,
  all_users_exist, get_conversation, conversation_updated_of, is_key,
}
use mini_im.Storage.ConversationRepo.Create.{
  Creation, insert_users, insert_new_member, insert_members, insert_conversation, finish_creation,
  find_or_insert, leave_transaction, create_conversation,
}
use mini_im.Storage.ConversationRepo.Owner.{owner_of, has_member, OwnerJoined, Owned}
use mini_im.Storage.ConversationRepo.Ownership.{SameGroups, Owned-SameGroups}

contains-add_stripped :
    (u : String) (keys ids : List String)
    → contains u keys ≡ true
    → contains u (add_stripped keys ids) ≡ true
unfolding add_stripped
contains-add_stripped u keys [] h = h
contains-add_stripped u keys (id ∷ ids) h =
    contains-add_stripped u (if strip id =? "" then keys else add_key keys (strip id)) ids
      (ground (arith, contains-add_key keys (strip id) u))

contains-normalize_member_ids :
    (owner : String) (ids : List String) → contains owner (normalize_member_ids owner ids) ≡ true
unfolding normalize_member_ids contains
contains-normalize_member_ids owner ids =
    contains-add_stripped owner (owner ∷ []) ids (ground arith)

insert_members-members :
    (c owner : String) (now_ms : ℕ) (ids : List String) (db : Db) (d v : String)
    → has_member d v (insert_members c owner now_ms ids db).conversation_members
      ≡ has_member d v db.conversation_members || ((c =? d) && contains v ids)
unfolding insert_members insert_new_member has_member any contains is_key
insert_members-members c owner now_ms [] db d v = ground arith
insert_members-members c owner now_ms (id ∷ ids) db d v =
    insert_members-members c owner now_ms ids (insert_new_member c owner now_ms id db) d v
    ∙ ground arith

insert_members-conversations :
    (c owner : String) (now_ms : ℕ) (ids : List String) (db : Db)
    → (insert_members c owner now_ms ids db).conversations ≡ db.conversations
unfolding insert_members
insert_members-conversations c owner now_ms [] db = refl
insert_members-conversations c owner now_ms (id ∷ ids) db =
    insert_members-conversations c owner now_ms ids (insert_new_member c owner now_ms id db)

insert_users-SameGroups :
    (ids : List String) (now_ms : ℕ) (db : Db) → SameGroups db (insert_users ids now_ms db)
unfolding insert_users insert_user
insert_users-SameGroups [] now_ms db = ground arith
insert_users-SameGroups (id ∷ ids) now_ms db = ground (
  arith,
  (insert_users-SameGroups ids now_ms (insert_user id now_ms db)).conversations,
  (insert_users-SameGroups ids now_ms (insert_user id now_ms db)).members,
)

module _ (env : Env) (now_ms : ℕ) (owner_id client_conv_id title : String) (type : ℕ) where
  -- The state with the row of the new conversation.
  abbrev opened : Db → Db
  opened db = record db {
    conversations =
        record {
          conversation_id = env.uuid db.issued;
          type = type;
          title = title;
          owner_id = owner_id;
          created_at_ms = now_ms;
        }
        ∷ db.conversations;
    issued = suc db.issued;
  }

  abbrev founded : List String → Db → Db
  founded members db = insert_members (env.uuid db.issued) owner_id now_ms members (opened db)

  founded_joined :
      (members : List String) (db : Db) (d : String) (same : Dec (env.uuid db.issued ≡ d))
      (o : Option String)
      → contains owner_id members ≡ true
      → OwnerJoined d o db.conversation_members
      → ((v : String)
          → has_member d v (founded members db).conversation_members
            ≡ has_member d v db.conversation_members
              || (elim same [ yes _ ↦ true | no _ ↦ false ] && contains v members))
      → OwnerJoined d
          (if elim same [ yes _ ↦ true | no _ ↦ false ] then some owner_id else o)
          (founded members db).conversation_members
  founded_joined members db d (yes e) o joined h grown = grown owner_id ∙ ground arith
  founded_joined members db d (no n) none joined h grown = tt
  founded_joined members db d (no n) (some v) joined h grown = grown v ∙ ground arith

  insert_conversation-Owned :
      (members : List String) (db : Db)
      → contains owner_id members ≡ true
      → Owned db
      → Owned (insert_conversation env now_ms owner_id client_conv_id title members type db).1
  unfolding insert_conversation uuid4 owner_of
  insert_conversation-Owned members db joined h d =
      subst (λ rows. OwnerJoined d (owner_of d rows) (founded members db).conversation_members)
        (sym
          (insert_members-conversations (env.uuid db.issued) owner_id now_ms members (opened db)))
        (founded_joined members db d (String_discrete (env.uuid db.issued) d)
          (owner_of d db.conversations) joined (h d)
          (insert_members-members (env.uuid db.issued) owner_id now_ms members (opened db) d))

  find_or_insert-cases :
      (members : List String) (db : Db)
      → ((find_or_insert env now_ms owner_id client_conv_id title members type db).1 ≡ db)
        ⊎ ((find_or_insert env now_ms owner_id client_conv_id title members type db).1
            ≡ (insert_conversation env now_ms owner_id client_conv_id title members type db).1)
  unfolding find_or_insert
  find_or_insert-cases members db = ground arith

  find_or_insert-Owned :
      (members : List String) (db : Db)
      → contains owner_id members ≡ true
      → Owned db
      → Owned (find_or_insert env now_ms owner_id client_conv_id title members type db).1
  find_or_insert-Owned members db joined h = elim (find_or_insert-cases members db) [
    | inl e ↦ subst (λ d. Owned d) (sym e) h
    | inr e ↦ subst (λ d. Owned d) (sym e) (insert_conversation-Owned members db joined h)
  ]

  -- The state with the events of a conversation.
  abbrev announced : ConversationRecord → Db → Db
  announced r db =
      (append_sync_events env r.conversation_id "conversation_updated"
        (Body.conversation_updated (conversation_updated_of r "" now_ms)) now_ms r.member_ids db).1

  finish_creation-cases :
      (c : String) (created : Bool) (db : Db)
      → ((finish_creation env now_ms c created db).1 ≡ db)
        ⊎ ((r : ConversationRecord) × ((finish_creation env now_ms c created db).1
              ≡ announced r db))
  unfolding finish_creation
  finish_creation-cases c created db = elim (Option-cases (get_conversation db c)) [
    | inl e ↦ inl (ground arith)
    | inr (r, e) ↦ elim (Bool-cases created) [
      | inl y ↦ inr (r, ground arith)
      | inr n ↦ inl (ground arith)
    ]
  ]

  finish_creation-Owned :
      (c : String) (created : Bool) (db : Db)
      → Owned db
      → Owned (finish_creation env now_ms c created db).1
  finish_creation-Owned c created db h = elim (finish_creation-cases c created db) [
    | inl e ↦ subst (λ d. Owned d) (sym e) h
    | inr (r, e) ↦
        subst (λ d. Owned d) (sym e)
          (let same =
              append_sync_events-OnlyEvents env r.conversation_id "conversation_updated"
                (Body.conversation_updated (conversation_updated_of r "" now_ms)) now_ms
                r.member_ids db in
            Owned-SameGroups {db = db} {db' = announced r db}
              (record { conversations = same.conversations; members = same.members }) h)
  ]

  left-creation :
      (before : Db) (out : Creation × Db)
      → Owned before
      → Owned out.1
      → Owned (leave_transaction before out).1
  left-creation before (Creation.done r, db) h k = k
  left-creation before (Creation.member_missing, db) h k = h
  left-creation before (Creation.must_exist, db) h k = h

  pub create_conversation-Owned :
      (member_ids : List String) (db : Db)
      → Owned db
      → Owned (create_conversation env now_ms owner_id client_conv_id title member_ids type db).1
  unfolding create_conversation
  create_conversation-Owned member_ids db h =
      let members = normalize_member_ids owner_id member_ids in
      let db₁ = if has_any_user db then db else insert_users members now_ms db in
      let found = find_or_insert env now_ms owner_id client_conv_id title members type db₁ in
      go (has_any_user db && not (all_users_exist db members))
        (leave_transaction db (finish_creation env now_ms found.0.0 found.0.1 found.1))
        (left-creation db (finish_creation env now_ms found.0.0 found.0.1 found.1) h (
          finish_creation-Owned found.0.0 found.0.1 found.1 (
            find_or_insert-Owned members db₁ (contains-normalize_member_ids owner_id member_ids)
              (users_inserted (has_any_user db) members))))
    where
      go :
          (b : Bool) (y : Creation × Db)
          → Owned y.1
          → Owned (if b then (Creation.member_missing, db) else y).1
      go true y k = h
      go false y k = k

      users_inserted :
          (b : Bool) (members : List String)
          → Owned (if b then db else insert_users members now_ms db)
      users_inserted true members = h
      users_inserted false members = Owned-SameGroups (insert_users-SameGroups members now_ms db) h
