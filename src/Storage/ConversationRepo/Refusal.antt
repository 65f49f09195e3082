-- ===== src/Storage/ConversationRepo/Refusal.antt =====
-- server/storage/repo/conversation_repo.py: a refused operation leaves the tables as they were.
use mini_im.Prelude.{
  ℕ, String, Bool, true, false, ◌&&◌, not, Option, none, some, List, [], ◌∷◌, refl, if◌then◌else◌,
  filter, ◌=?◌,
}
use mini_im.Storage.Db.{Db, Env}
use mini_im.Storage.Untouched.{Untouched}
use mini_im.Storage.SyncEvent.{contains}
use mini_im.Storage.ConversationRepo.{
  ConversationRecord, get_conversation, build_conversation_updated_events, all_users_exist,
  user_exists, unique_user_ids, normalize_member_ids, has_any_user,
}
use mini_im.Storage.ConversationRepo.Create
use mini_im.Storage.ConversationRepo.Create.{
  Creation, create_conversation, find_or_insert, insert_users, finish_creation,
}
use mini_im.Storage.ConversationRepo.Members.{
  Update, get_group, unchanged, publish, leave_transaction, rename_conversation, add_members,
  insert_member, join_conversation, removable, remove_members, leave_conversation,
}

-- The operation is not refused, or its refusal left the tables as they were.
abbrev pub CleanUpdate : Db → Update × Db → Type 0
CleanUpdate before (Update.rejected, db) = Untouched before db
CleanUpdate before (Update.must_exist, db) = Untouched before db
CleanUpdate before (Update.updated r, db) = Unit {0}

abbrev pub CleanCreation : Db → Creation × Db → Type 0
CleanCreation before (Creation.done r, db) = Unit {0}
CleanCreation before (Creation.member_missing, db) = Untouched before db
CleanCreation before (Creation.must_exist, db) = Untouched before db

unchanged-CleanUpdate :
    (env : Env) (r : ConversationRecord) (now_ms : ℕ) (db before : Db)
    → CleanUpdate before (unchanged env r now_ms db)
unfolding unchanged
unchanged-CleanUpdate env r now_ms db before = tt

-- A publication that is not refused is not made into a refusal by leaving the transaction.
left-CleanUpdate :
    (env : Env) (conversation_id : String) (targets : Option (List String)) (now_ms : ℕ)
    (before db : Db)
    → CleanUpdate before (leave_transaction before (publish env conversation_id targets now_ms db))
unfolding publish
left-CleanUpdate env conversation_id targets now_ms before db =
    elim (get_conversation db conversation_id)
      as (λ found. CleanUpdate before (
        leave_transaction before (elim found [
          | none ↦ (Update.must_exist, db)
          | some r ↦
              let ((conversation, events), db') =
                build_conversation_updated_events env r
                  (elim targets [ none ↦ r.member_ids | some users ↦ users ]) now_ms db in
              (
                Update.updated
                    (record { conversation = conversation; sync_events = events; changed = true }),
                db',
              )
        ]))) [ none ↦ refl | some r ↦ tt ]

on_test :
    (before : Db) (b : Bool) (x y : Update × Db)
    → CleanUpdate before x
    → CleanUpdate before y
    → CleanUpdate before (if b then x else y)
on_test before true x y h k = h
on_test before false x y h k = k

on_found :
    (before : Db) (found : Option ConversationRecord) (f : ConversationRecord → Update × Db)
    → ((r : ConversationRecord) → CleanUpdate before (f r))
    → CleanUpdate before (elim found [ none ↦ (Update.rejected, before) | some r ↦ f r ])
on_found before none f h = refl
on_found before (some r) f h = h r

on_list :
    (before : Db) (users : List String) (x : Update × Db) (f : String → List String → Update × Db)
    → CleanUpdate before x
    → ((u : String) (us : List String) → CleanUpdate before (f u us))
    → CleanUpdate before (elim users [ [] ↦ x | u ∷ us ↦ f u us ])
on_list before [] x f h k = h
on_list before (u ∷ us) x f h k = k u us

module _ (env : Env) (now_ms : ℕ) (user_id conversation_id : String) (db : Db) where
  pub rename_conversation-CleanUpdate :
      (title : String)
      → CleanUpdate db (rename_conversation env now_ms user_id conversation_id title db)
  unfolding rename_conversation
  rename_conversation-CleanUpdate title = on_found db (get_group db conversation_id) _ (λ r.
      on_test db (not (r.owner_id =? user_id)) _ _ refl (
        on_test db (r.title =? title) _ _ (unchanged-CleanUpdate env r now_ms db db)
          (left-CleanUpdate env conversation_id none now_ms db _)))

  pub add_members-CleanUpdate :
      (member_ids : List String)
      → CleanUpdate db (add_members env now_ms user_id conversation_id member_ids db)
  unfolding add_members
  add_members-CleanUpdate member_ids = on_found db (get_group db conversation_id) _ (λ r.
      on_test db (not (r.owner_id =? user_id)) _ _ refl (
        on_list db (filter (λ item. not (contains item r.member_ids)) (unique_user_ids member_ids))
          _ _ (unchanged-CleanUpdate env r now_ms db db)
          (λ u us.
            on_test db (all_users_exist db (u ∷ us)) _ _
              (left-CleanUpdate env conversation_id none now_ms db _) refl)))

  pub join_conversation-CleanUpdate :
      CleanUpdate db (join_conversation env now_ms user_id conversation_id db)
  unfolding join_conversation
  join_conversation-CleanUpdate = on_found db (get_group db conversation_id) _ (λ r.
      on_test db (not (user_exists db user_id)) _ _ refl (
        on_test db (contains user_id r.member_ids) _ _ (unchanged-CleanUpdate env r now_ms db db) (
          left-CleanUpdate env conversation_id none now_ms db
            (insert_member conversation_id now_ms user_id db))))

  pub remove_members-CleanUpdate :
      (member_ids : List String)
      → CleanUpdate db (remove_members env now_ms user_id conversation_id member_ids db)
  unfolding remove_members
  remove_members-CleanUpdate member_ids = on_found db (get_group db conversation_id) _ (λ r.
      on_test db (not (r.owner_id =? user_id)) _ _ refl (
        on_list db (removable r member_ids) _ _ (unchanged-CleanUpdate env r now_ms db db)
          (λ u us. left-CleanUpdate env conversation_id (some r.member_ids) now_ms db _)))

  pub leave_conversation-CleanUpdate :
      CleanUpdate db (leave_conversation env now_ms user_id conversation_id db)
  unfolding leave_conversation
  leave_conversation-CleanUpdate = on_found db (get_group db conversation_id) _ (λ r.
      on_test db (not (contains user_id r.member_ids)) _ _ refl (
        on_list db (filter (λ item. not (item =? user_id)) r.member_ids) _ _ refl
          (λ u us. left-CleanUpdate env conversation_id (some r.member_ids) now_ms db _)))

-- Leaving the transaction by an exception rolls it back.
left-CleanCreation :
    (before : Db) (out : Creation × Db) → CleanCreation before (Create.leave_transaction before out)
left-CleanCreation before (Creation.done r, db) = tt
left-CleanCreation before (Creation.member_missing, db) = refl
left-CleanCreation before (Creation.must_exist, db) = refl

creation_test :
    (before : Db) (b : Bool) (x y : Creation × Db)
    → CleanCreation before x
    → CleanCreation before y
    → CleanCreation before (if b then x else y)
creation_test before true x y h k = h
creation_test before false x y h k = k

pub create_conversation-CleanCreation :
    (env : Env) (now_ms : ℕ) (owner_id client_conv_id title : String) (member_ids : List String)
    (type : ℕ) (db : Db)
    → CleanCreation db
        (create_conversation env now_ms owner_id client_conv_id title member_ids type db)
unfolding create_conversation
create_conversation-CleanCreation env now_ms owner_id client_conv_id title member_ids type db =
    let members = normalize_member_ids owner_id member_ids in
    let found =
      find_or_insert env now_ms owner_id client_conv_id title members type
        (if has_any_user db then db else insert_users members now_ms db) in
    creation_test db (has_any_user db && not (all_users_exist db members)) _ _ refl
      (left-CleanCreation db (finish_creation env now_ms found.0.0 found.0.1 found.1))
