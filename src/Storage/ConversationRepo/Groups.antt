-- ===== src/Storage/ConversationRepo/Groups.antt =====
-- server/storage/repo/conversation_repo.py: every operation on groups keeps every conversation's
-- owner among its members.
use mini_im.Prelude.{
  ℕ, String, Bool, true, false, ◌&&◌, not, Option, none, some, List, [], ◌∷◌, ◌≡◌, refl, sym, ap,
  ◌∙◌, if◌then◌else◌, ◌=?◌, String_discrete, filter, arith,
}
use mini_im.Storage.Db.{Db, Env}
use mini_im.Storage.SyncEvent.{contains}
use mini_im.Storage.ConversationRepo.{
  ConversationRecord, unique_user_ids, user_exists, all_users_exist,
}
use mini_im.Storage.ConversationRepo.Members.{
  Update, get_group, set_title, rename_conversation, insert_member, insert_members, add_members,
  join_conversation, remove_member, remove_each, removable, remove_members, set_owner,
  leave_conversation,
}
use mini_im.Storage.ConversationRepo.Owner.{
  has_member, Owned, contains-list_member_ids, get_group-some,
}
use mini_im.Storage.ConversationRepo.Ownership.{
  unchanged-Owned, left-Owned, insert_member-Owned, insert_members-Owned, set_title-Owned,
}
use mini_im.Storage.ConversationRepo.Removal.{
  contains-filter, remove_member-Owned, remove_each-Owned, contains-removable, handed-Owned,
}

abbrev OwnedAfter : Update × Db → Type 0
OwnedAfter out = Owned out.1

on_test : (b : Bool) (x y : Update × Db) → Owned x.1 → Owned y.1 → Owned (if b then x else y).1
on_test true x y h k = h
on_test false x y h k = k

on_group :
    (db : Db) (c : String) (f : ConversationRecord → Update × Db)
    → Owned db
    → ((r : ConversationRecord) → get_group db c ≡ some r → Owned (f r).1)
    → OwnedAfter (elim (get_group db c) [ none ↦ (Update.rejected, db) | some r ↦ f r ])
on_group db c f h k = go (get_group db c) refl
  where
    go :
        (found : Option ConversationRecord)
        → get_group db c ≡ found
        → OwnedAfter (elim found [ none ↦ (Update.rejected, db) | some r ↦ f r ])
    go none e = h
    go (some r) e = k r e

on_list :
    (users : List String) (x : Update × Db) (f : String → List String → Update × Db)
    → Owned x.1
    → ((u : String) (us : List String) → users ≡ u ∷ us → Owned (f u us).1)
    → OwnedAfter (elim users [ [] ↦ x | u ∷ us ↦ f u us ])
on_list [] x f h k = h
on_list (u ∷ us) x f h k = k u us refl

module _ (env : Env) (now_ms : ℕ) (user_id c : String) (db : Db) (h : Owned db) where
  pub rename_conversation-Owned :
      (title : String) → Owned (rename_conversation env now_ms user_id c title db).1
  unfolding rename_conversation
  rename_conversation-Owned title = on_group db c _ h (λ r e.
      on_test (not (r.owner_id =? user_id)) _ _ h (
        on_test (r.title =? title) _ _ (unchanged-Owned env r now_ms db h) (
          left-Owned env c none now_ms db (set_title c title db) h (set_title-Owned c title db h))))

  pub add_members-Owned :
      (member_ids : List String) → Owned (add_members env now_ms user_id c member_ids db).1
  unfolding add_members
  add_members-Owned member_ids = on_group db c _ h (λ r e.
      on_test (not (r.owner_id =? user_id)) _ _ h (
        on_list (filter (λ item. not (contains item r.member_ids)) (unique_user_ids member_ids)) _ _
          (unchanged-Owned env r now_ms db h)
          (λ u us _.
            on_test (all_users_exist db (u ∷ us)) _ _
              (left-Owned env c none now_ms db (insert_members c now_ms (u ∷ us) db) h
                (insert_members-Owned c now_ms (u ∷ us) db h))
              h)))

  pub join_conversation-Owned : Owned (join_conversation env now_ms user_id c db).1
  unfolding join_conversation
  join_conversation-Owned = on_group db c _ h (λ r e. on_test (not (user_exists db user_id)) _ _ h (
      on_test (contains user_id r.member_ids) _ _ (unchanged-Owned env r now_ms db h) (
        left-Owned env c none now_ms db (insert_member c now_ms user_id db) h
          (insert_member-Owned c now_ms user_id db h))))

  pub remove_members-Owned :
      (member_ids : List String) → Owned (remove_members env now_ms user_id c member_ids db).1
  unfolding remove_members
  remove_members-Owned member_ids = on_group db c _ h (λ r e.
      on_test (not (r.owner_id =? user_id)) _ _ h (
        on_list (removable r member_ids) _ _ (unchanged-Owned env r now_ms db h) (λ u us l.
          left-Owned env c (some r.member_ids) now_ms db (remove_each c now_ms (u ∷ us) db) h (
            remove_each-Owned c now_ms (u ∷ us) r.owner_id db (get_group-some db c r e).0
              (ap (contains r.owner_id) (sym l) ∙ contains-removable r member_ids) h))))

  -- Who is left when the user is taken out: a member, and another one.
  rest_head :
      (r : ConversationRecord) (u : String) (us : List String)
      → get_group db c ≡ some r
      → filter (λ item. not (item =? user_id)) r.member_ids ≡ u ∷ us
      → (has_member c u db.conversation_members ≡ true) × ((user_id =? u) ≡ false)
  unfolding contains
  rest_head r u us e l =
      let inside : contains u r.member_ids && not (u =? user_id) ≡ true =
        sym (contains-filter u (λ item. not (item =? user_id)) r.member_ids)
        ∙ ap (contains u) l
        ∙ ground arith in
      (
        sym (contains-list_member_ids db c u)
            ∙ ap (contains u) (sym (get_group-some db c r e).1)
            ∙ ground arith,
        ground arith,
      )

  departed-Owned :
      (r : ConversationRecord) (u : String) (us : List String)
      → get_group db c ≡ some r
      → filter (λ item. not (item =? user_id)) r.member_ids ≡ u ∷ us
      → Owned (
          if r.owner_id =? user_id
          then set_owner c u (remove_member c now_ms user_id db)
          else remove_member c now_ms user_id db)
  departed-Owned r u us e l = go (String_discrete r.owner_id user_id)
    where
      go :
          (same : Dec (r.owner_id ≡ user_id))
          → Owned (
              if elim same [ yes _ ↦ true | no _ ↦ false ]
              then set_owner c u (remove_member c now_ms user_id db)
              else remove_member c now_ms user_id db)
      go (yes s) =
          handed-Owned c now_ms user_id u db (rest_head r u us e l).0 (rest_head r u us e l).1
            ((get_group-some db c r e).0 ∙ ap some s) h
      go (no n) =
          remove_member-Owned c now_ms user_id r.owner_id db (get_group-some db c r e).0
            (ground arith) h

  pub leave_conversation-Owned : Owned (leave_conversation env now_ms user_id c db).1
  unfolding leave_conversation
  leave_conversation-Owned = on_group db c _ h (λ r e.
      on_test (not (contains user_id r.member_ids)) _ _ h (
        on_list (filter (λ item. not (item =? user_id)) r.member_ids) _ _ h (λ u us l.
          left-Owned env c (some r.member_ids) now_ms db
            (if r.owner_id =? user_id
              then set_owner c u (remove_member c now_ms user_id db)
              else remove_member c now_ms user_id db)
            h (departed-Owned r u us e l))))
