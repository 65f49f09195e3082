-- ===== src/Storage/ConversationRepo/Finish.antt =====
-- server/storage/repo/conversation_repo.py: what a creation leaves for the next one.
use mathlib.Core.Path.{subst}
use mini_im.Prelude.{
  ℕ, suc, String, Bool, true, false, none, some, List, [], ◌∷◌, ◌≡◌, refl, sym, ◌⊎◌, inl, inr, ◌=?◌,
  find?, arith, Bool-cases, Option-cases,
}
use mini_im.Protocol.{Body}
use mini_im.Storage.Db.{Db, Env, ConversationRow, CreateRequestRow, uuid4}
use mini_im.Storage.SyncEvent.{append_sync_events}
use mini_im.Storage.SyncEvent.Frame.{append_sync_events-OnlyEvents}
use mini_im.Storage.ConversationRepo.{
  ConversationRecord, normalize_member_ids, has_any_user, all_users_exist, get_conversation,
  conversation_updated_of,
}
use mini_im.Storage.ConversationRepo.Create.{
  Creation, insert_new_member, insert_members, find_create_request, insert_conversation,
  finish_creation, find_or_insert, leave_transaction, create_conversation,
}

-- What creating a conversation needs of the state.
pub record SameRequests (db db' : Db) : Type 0 where
  pub users : db'.users ≡ db.users
  pub conversations : db'.conversations ≡ db.conversations
  pub requests : db'.conversation_create_requests ≡ db.conversation_create_requests
  pub members : db'.conversation_members ≡ db.conversation_members

find_conversation :
    (c : String) (rows : List ConversationRow) (r : ConversationRow)
    → find? (λ x. x.conversation_id =? c) rows ≡ some r
    → r.conversation_id ≡ c
unfolding find?
find_conversation c [] r h = ground arith
find_conversation c (x ∷ rows) r h = ground (arith, find_conversation c rows r)

get_conversation-id :
    (db : Db) (c : String) (r : ConversationRecord)
    → get_conversation db c ≡ some r
    → r.conversation_id ≡ c
unfolding get_conversation
get_conversation-id db c r h =
    elim (Option-cases (find? (λ x. x.conversation_id =? c) db.conversations)) [
      | inl e ↦ ground arith
      | inr (row, e) ↦ ground (arith, find_conversation c db.conversations row e)
    ]

insert_members-users :
    (c owner : String) (now_ms : ℕ) (ids : List String) (db : Db)
    → ((insert_members c owner now_ms ids db).users ≡ db.users)
unfolding insert_members insert_new_member
insert_members-users c owner now_ms [] db = refl
insert_members-users c owner now_ms (id ∷ ids) db =
    insert_members-users c owner now_ms ids (insert_new_member c owner now_ms id db)

pair_ext : {A B : Type 0} {a : A} {b : B} (p : A × B) → p.0 ≡ a → p.1 ≡ b → Path (A × B) p (a, b)
pair_ext p h k = ground (arith, h, k)

module _ (env : Env) (now_ms : ℕ) (owner client : String) where
  -- The request is stored with the conversation.
  abbrev pub Requested : String → Db → Type 0
  Requested c db =
      (row : CreateRequestRow) × (find_create_request owner client db ≡ some row)
      × (row.conversation_id ≡ c)

  pub found_row :
      (title : String) (members : List String) (type : ℕ) (db : Db) (row : CreateRequestRow)
      → find_create_request owner client db ≡ some row
      → find_or_insert env now_ms owner client title members type db
        ≡ ((row.conversation_id, false), db)
  unfolding find_or_insert
  found_row title members type db row e = ground arith

  fresh_row :
      (title : String) (members : List String) (type : ℕ) (db : Db)
      → find_create_request owner client db ≡ none
      → find_or_insert env now_ms owner client title members type db ≡ (
        ((insert_conversation env now_ms owner client title members type db).0, true),
        (insert_conversation env now_ms owner client title members type db).1,
      )
  unfolding find_or_insert
  fresh_row title members type db e = ground arith

  insert_conversation-request :
      (title : String) (members : List String) (type : ℕ) (db : Db)
      → find_create_request owner client
          (insert_conversation env now_ms owner client title members type db).1
        ≡ some (record {
          user_id = owner;
          client_conv_id = client;
          conversation_id = (insert_conversation env now_ms owner client title members type db).0;
          created_at_ms = now_ms;
        })
  unfolding insert_conversation find_create_request find?
  insert_conversation-request title members type db = ground arith

  insert_conversation-users :
      (title : String) (members : List String) (type : ℕ) (db : Db)
      → (insert_conversation env now_ms owner client title members type db).1.users ≡ db.users
  unfolding insert_conversation uuid4
  insert_conversation-users title members type db =
      insert_members-users (env.uuid db.issued) owner now_ms members (record db {
        conversations =
            record {
              conversation_id = env.uuid db.issued;
              type = type;
              title = title;
              owner_id = owner;
              created_at_ms = now_ms;
            }
            ∷ db.conversations;
        issued = suc db.issued;
      })

  abbrev Stored : Db → (String × Bool) × Db → Type 0
  Stored db ((c, _), after) = Requested c after × (after.users ≡ db.users)

  pub find_or_insert-Stored :
      (title : String) (members : List String) (type : ℕ) (db : Db)
      → Stored db (find_or_insert env now_ms owner client title members type db)
  find_or_insert-Stored title members type db =
      elim (Option-cases (find_create_request owner client db)) [
        | inl e ↦ subst (Stored db) (sym (fresh_row title members type db e)) (
          (_, insert_conversation-request title members type db, refl),
          insert_conversation-users title members type db,
        )
        | inr (row, e) ↦
            subst (Stored db) (sym (found_row title members type db row e)) ((row, e, refl), refl)
      ]

  abbrev told : ConversationRecord → Db → Db
  told r db =
      (append_sync_events env r.conversation_id "conversation_updated"
        (Body.conversation_updated (conversation_updated_of r "" now_ms)) now_ms r.member_ids db).1

  finish-missing :
      (c : String) (created : Bool) (db : Db)
      → get_conversation db c ≡ none
      → finish_creation env now_ms c created db ≡ (Creation.must_exist, db)
  unfolding finish_creation
  finish-missing c created db h = ground arith

  finish-created :
      (c : String) (db : Db) (r : ConversationRecord)
      → get_conversation db c ≡ some r
      → (finish_creation env now_ms c true db).1 ≡ told r db
  unfolding finish_creation
  finish-created c db r h = ground arith

  pub finish-existing :
      (c : String) (db : Db) (r : ConversationRecord)
      → get_conversation db c ≡ some r
      → finish_creation env now_ms c false db ≡ (
        Creation.done (record {
          conversation = conversation_updated_of r "" now_ms;
          sync_events = [];
          created = false;
        }),
        db,
      )
  unfolding finish_creation
  finish-existing c db r h = ground arith

  told-SameRequests : (r : ConversationRecord) (db : Db) → SameRequests db (told r db)
  told-SameRequests r db =
      let only =
        append_sync_events-OnlyEvents env r.conversation_id "conversation_updated"
          (Body.conversation_updated (conversation_updated_of r "" now_ms)) now_ms r.member_ids
          db in
      record {
        users = only.users;
        conversations = only.conversations;
        requests = only.requests;
        members = only.members;
      }

  finish-created_done :
      (c : String) (db : Db) (r : ConversationRecord)
      → get_conversation db c ≡ some r
      → (finish_creation env now_ms c true db).0
        ≡ Creation.done (record {
          conversation = conversation_updated_of r "" now_ms;
          sync_events =
              (append_sync_events env r.conversation_id "conversation_updated"
                (Body.conversation_updated (conversation_updated_of r "" now_ms))
                now_ms
                r.member_ids
                db).0;
          created = true;
        })
  unfolding finish_creation
  finish-created_done c db r h = ground arith

  -- What a finished creation leaves: the conversation, and the tables that the next one reads.
  abbrev pub Finished : String → Db → Creation × Db → Type 0
  Finished c d (Creation.member_missing, after) = Unit {0}
  Finished c d (Creation.must_exist, after) = Unit {0}
  Finished c d (Creation.done result, after) =
      (result.conversation.conversation_id ≡ c)
      × ((r : ConversationRecord) × (get_conversation d c ≡ some r))
      × SameRequests d after

  pub finish-Finished :
      (before : Db) (c : String) (created : Bool) (d : Db)
      → Finished c d (leave_transaction before (finish_creation env now_ms c created d))
  unfolding conversation_updated_of
  finish-Finished before c true d = elim (Option-cases (get_conversation d c)) [
    | inl e ↦
        subst (λ p. Finished c d (leave_transaction before p)) (sym (finish-missing c true d e)) tt
    | inr (r, e) ↦
        subst (λ p. Finished c d (leave_transaction before p))
          (sym (
            pair_ext (finish_creation env now_ms c true d) (finish-created_done c d r e)
              (finish-created c d r e)))
          (get_conversation-id d c r e, (r, e), told-SameRequests r d)
  ]
  finish-Finished before c false d = elim (Option-cases (get_conversation d c)) [
    | inl e ↦
        subst (λ p. Finished c d (leave_transaction before p)) (sym (finish-missing c false d e)) tt
    | inr (r, e) ↦
        subst (λ p. Finished c d (leave_transaction before p)) (sym (finish-existing c d r e))
          (
            get_conversation-id d c r e,
            (r, e),
            record { users = refl; conversations = refl; requests = refl; members = refl },
          )
  ]

  module _ (title : String) (ids : List String) (type : ℕ) (db : Db) where
    abbrev pub found : (String × Bool) × Db
    found = find_or_insert env now_ms owner client title (normalize_member_ids owner ids) type db

    abbrev creation : Creation × Db
    creation = create_conversation env now_ms owner client title ids type db

    pub create-cases :
        has_any_user db ≡ true
        → (creation ≡ (Creation.member_missing, db))
          ⊎ (creation
              ≡ leave_transaction db (finish_creation env now_ms found.0.0 found.0.1 found.1))
    unfolding create_conversation
    create-cases h = elim (Bool-cases (all_users_exist db (normalize_member_ids owner ids))) [
      | inl y ↦ inr (rw (h, y) refl)
      | inr n ↦ inl (rw (h, n) refl)
    ]
