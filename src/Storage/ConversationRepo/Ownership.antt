-- ===== src/Storage/ConversationRepo/Ownership.antt =====
-- server/storage/repo/conversation_repo.py: every conversation has its owner among its members.
use mathlib.Core.Path.{subst}
use mini_im.Prelude.{ℕ, String, true, Option, none, some, List, [], ◌∷◌, ◌≡◌, sym, any, arith}
use mini_im.Protocol.{Body}
use mini_im.Storage.Db.{Db, Env, uuid4}
use mini_im.Storage.SyncEvent.Frame.{append_sync_events-OnlyEvents}
use mini_im.Storage.ReadState.{preserve_read_position}
use mini_im.Storage.ConversationRepo.{
  ConversationRecord, get_conversation, conversation_updated_of, unique_user_ids,
  build_conversation_updated_events, keep_read_position,
}
use mini_im.Storage.ConversationRepo.Members.{
  Update, unchanged, publish, leave_transaction, set_title, insert_member, insert_members,
}
use mini_im.Storage.ConversationRepo.Owner.{
  owner_of, has_member, OwnerJoined, Owned, owner_of-set_title,
}

-- Two states have the same conversations and members.
pub record SameGroups (db db' : Db) : Type 0 where
  pub conversations : db'.conversations ≡ db.conversations
  pub members : db'.conversation_members ≡ db.conversation_members

pub Owned-SameGroups : {db db' : Db} → SameGroups db db' → Owned db → Owned db'
Owned-SameGroups {db} {db'} same h c =
    subst (λ rows. OwnerJoined c (owner_of c db'.conversations) rows) (sym same.members)
      (subst (λ rows. OwnerJoined c (owner_of c rows) db.conversation_members)
        (sym same.conversations) (h c))

build-SameGroups :
    (env : Env) (r : ConversationRecord) (users : List String) (now_ms : ℕ) (db : Db)
    → SameGroups db (build_conversation_updated_events env r users now_ms db).1
unfolding build_conversation_updated_events uuid4
build-SameGroups env r users now_ms db =
    let same =
      append_sync_events-OnlyEvents env r.conversation_id "conversation_updated"
        (Body.conversation_updated (conversation_updated_of r (env.uuid db.issued) now_ms)) now_ms
        (unique_user_ids users) (uuid4 env db).1 in
    record { conversations = same.conversations; members = same.members }

pub unchanged-Owned :
    (env : Env) (r : ConversationRecord) (now_ms : ℕ) (db : Db)
    → Owned db
    → Owned (unchanged env r now_ms db).1
unfolding unchanged
unchanged-Owned env r now_ms db h = Owned-SameGroups (build-SameGroups env r [] now_ms db) h

-- What leaving the transaction after a publication gives.
pub left-Owned :
    (env : Env) (c : String) (targets : Option (List String)) (now_ms : ℕ) (before db : Db)
    → Owned before
    → Owned db
    → Owned (leave_transaction before (publish env c targets now_ms db)).1
unfolding publish
left-Owned env c targets now_ms before db h k =
    elim (get_conversation db c)
      as (λ found.
        Owned
          (leave_transaction before (elim found [
            | none ↦ (Update.must_exist, db)
            | some r ↦
                let ((conversation, events), db') =
                  build_conversation_updated_events env r
                    (elim targets [ none ↦ r.member_ids | some users ↦ users ]) now_ms db in
                (
                  Update.updated (record {
                    conversation = conversation;
                    sync_events = events;
                    changed = true;
                  }),
                  db',
                )
          ])).1) [
            | none ↦ h
            | some r ↦
                Owned-SameGroups
                  (build-SameGroups env r
                    (elim targets [ none ↦ r.member_ids | some users ↦ users ]) now_ms db)
                  k
          ]

pub insert_member-Owned :
    (c : String) (now_ms : ℕ) (user_id : String) (db : Db)
    → Owned db
    → Owned (insert_member c now_ms user_id db)
unfolding insert_member has_member any
insert_member-Owned c now_ms user_id db h d =
    elim (owner_of d db.conversations)
        as (λ o.
          OwnerJoined d o db.conversation_members
          → OwnerJoined d o (insert_member c now_ms user_id db).conversation_members) [
            | none ↦ λ _. tt
            | some owner ↦ λ e. ground arith
          ]
      (h d)

pub insert_members-Owned :
    (c : String) (now_ms : ℕ) (user_ids : List String) (db : Db)
    → Owned db
    → Owned (insert_members c now_ms user_ids db)
unfolding insert_members
insert_members-Owned c now_ms [] db h = h
insert_members-Owned c now_ms (u ∷ us) db h =
    insert_members-Owned c now_ms us (insert_member c now_ms u db)
      (insert_member-Owned c now_ms u db h)

pub set_title-Owned : (c title : String) (db : Db) → Owned db → Owned (set_title c title db)
unfolding set_title
set_title-Owned c title db h d =
    subst (λ o. OwnerJoined d o db.conversation_members)
      (sym (owner_of-set_title c d title db.conversations)) (h d)

pub keep_read_position-SameGroups :
    (c u : String) (now_ms : ℕ) (db : Db) → SameGroups db (keep_read_position c u now_ms db)
unfolding keep_read_position preserve_read_position
keep_read_position-SameGroups c u now_ms db = ground arith
