-- ===== src/Storage/ConversationRepo/Kept.antt =====
-- server/storage/repo/conversation_repo.py: what the changes of a member's row keep, the operations keep.
use mini_im.Prelude.{
  ℕ, String, Bool, true, false, not, Option, none, some, List, [], ◌∷◌, if◌then◌else◌, ◌=?◌, filter,
}
use mini_im.Storage.Db.{Db, Env}
use mini_im.Storage.SyncEvent.{contains}
use mini_im.Storage.ConversationRepo.{
  ConversationRecord, get_conversation, unique_user_ids, user_exists, all_users_exist,
  build_conversation_updated_events,
}
use mini_im.Storage.ConversationRepo.Members.{
  Update, get_group, unchanged, publish, leave_transaction, insert_member, insert_members,
  add_members, join_conversation, remove_member, remove_each, removable, remove_members, set_owner,
  leave_conversation,
}
use mini_im.Storage.ConversationRepo.Positions.{About, set_owner-About, build-About}

module _ (c u : String) where
  -- A property of both that the members' rows keep is kept by the operations.
  module _ (Q : Option ℕ → ℕ → Type 0) where
    on_test :
        (b : Bool) (x y : Update × Db)
        → About c u Q x.1
        → About c u Q y.1
        → About c u Q (if b then x else y).1
    on_test true x y h k = h
    on_test false x y h k = k

    abbrev After : Update × Db → Type 0
    After out = About c u Q out.1

    on_group :
        (db : Db) (f : ConversationRecord → Update × Db)
        → About c u Q db
        → ((r : ConversationRecord) → About c u Q (f r).1)
        → After (elim (get_group db c) [ none ↦ (Update.rejected, db) | some r ↦ f r ])
    on_group db f h k = go (get_group db c)
      where
        go :
            (found : Option ConversationRecord)
            → After (elim found [ none ↦ (Update.rejected, db) | some r ↦ f r ])
        go none = h
        go (some r) = k r

    on_list :
        (users : List String) (x : Update × Db) (f : String → List String → Update × Db)
        → About c u Q x.1
        → ((w : String) (ws : List String) → About c u Q (f w ws).1)
        → After (elim users [ [] ↦ x | w ∷ ws ↦ f w ws ])
    on_list [] x f h k = h
    on_list (w ∷ ws) x f h k = k w ws

    left :
        (env : Env) (targets : Option (List String)) (now_ms : ℕ) (before db : Db)
        → About c u Q before
        → About c u Q db
        → About c u Q (leave_transaction before (publish env c targets now_ms db)).1
    unfolding publish
    left env targets now_ms before db h k =
        elim (get_conversation db c)
          as (λ found.
            About c u Q
              (leave_transaction before (elim found [
                | none ↦ (Update.must_exist, db)
                | some r ↦
                    let ((conversation, events), db') =
                      build_conversation_updated_events env r
                        (elim targets [ none ↦ r.member_ids | some users ↦ users ]) now_ms db in
                    (
                      Update.updated (record {
                        conversation = conversation;
                        sync_events = events;
                        changed = true;
                      }),
                      db',
                    )
              ])).1) [
                | none ↦ h
                | some r ↦
                    build-About c u Q env r
                      (elim targets [ none ↦ r.member_ids | some users ↦ users ]) now_ms db k
              ]

    unchanged-About :
        (env : Env) (r : ConversationRecord) (now_ms : ℕ) (db : Db)
        → About c u Q db
        → About c u Q (unchanged env r now_ms db).1
    unfolding unchanged
    unchanged-About env r now_ms db h = build-About c u Q env r [] now_ms db h

    handed :
        (b : Bool) (w : String) (db : Db)
        → About c u Q db
        → About c u Q (if b then set_owner c w db else db)
    handed true w db h = set_owner-About c u Q w db h
    handed false w db h = h

    remove_each-About :
        (now_ms : ℕ)
        → ((w : String) (d : Db) → About c u Q d → About c u Q (remove_member c now_ms w d))
        → (ws : List String) (db : Db) → About c u Q db
        → About c u Q (remove_each c now_ms ws db)
    unfolding remove_each
    remove_each-About now_ms step [] db h = h
    remove_each-About now_ms step (w ∷ ws) db h =
        remove_each-About now_ms step ws (remove_member c now_ms w db) (step w db h)

    insert_members-About :
        (now_ms : ℕ)
        → ((w : String) (d : Db) → About c u Q d → About c u Q (insert_member c now_ms w d))
        → (ws : List String) (db : Db) → About c u Q db
        → About c u Q (insert_members c now_ms ws db)
    unfolding insert_members
    insert_members-About now_ms step [] db h = h
    insert_members-About now_ms step (w ∷ ws) db h =
        insert_members-About now_ms step ws (insert_member c now_ms w db) (step w db h)

    module _ (env : Env) (now_ms : ℕ) (db : Db) (h : About c u Q db) where
      pub removing :
          ((w : String) (d : Db) → About c u Q d → About c u Q (remove_member c now_ms w d))
          → (operator : String) (member_ids : List String)
          → About c u Q (remove_members env now_ms operator c member_ids db).1
      unfolding remove_members
      removing step operator member_ids = on_group db _ h (λ r.
          on_test (not (r.owner_id =? operator)) _ _ h (
            on_list (removable r member_ids) _ _ (unchanged-About env r now_ms db h) (λ w ws.
              left env (some r.member_ids) now_ms db (remove_each c now_ms (w ∷ ws) db) h
                (remove_each-About now_ms step (w ∷ ws) db h))))

      pub leaving :
          ((w : String) (d : Db) → About c u Q d → About c u Q (remove_member c now_ms w d))
          → About c u Q (leave_conversation env now_ms u c db).1
      unfolding leave_conversation
      leaving step = on_group db _ h (λ r. on_test (not (contains u r.member_ids)) _ _ h (
          on_list (filter (λ item. not (item =? u)) r.member_ids) _ _ h (λ w ws.
            left env (some r.member_ids) now_ms db
              (if r.owner_id =? u
                then set_owner c w (remove_member c now_ms u db)
                else remove_member c now_ms u db)
              h (handed (r.owner_id =? u) w (remove_member c now_ms u db) (step u db h)))))

      pub adding :
          ((w : String) (d : Db) → About c u Q d → About c u Q (insert_member c now_ms w d))
          → (operator : String) (member_ids : List String)
          → About c u Q (add_members env now_ms operator c member_ids db).1
      unfolding add_members
      adding step operator member_ids = on_group db _ h (λ r.
          on_test (not (r.owner_id =? operator)) _ _ h (
            on_list (filter (λ item. not (contains item r.member_ids)) (unique_user_ids member_ids))
              _ _ (unchanged-About env r now_ms db h)
              (λ w ws.
                on_test (all_users_exist db (w ∷ ws)) _ _
                  (left env none now_ms db (insert_members c now_ms (w ∷ ws) db) h
                    (insert_members-About now_ms step (w ∷ ws) db h))
                  h)))

      pub joining :
          ((w : String) (d : Db) → About c u Q d → About c u Q (insert_member c now_ms w d))
          → About c u Q (join_conversation env now_ms u c db).1
      unfolding join_conversation
      joining step = on_group db _ h (λ r. on_test (not (user_exists db u)) _ _ h (
          on_test (contains u r.member_ids) _ _ (unchanged-About env r now_ms db h)
            (left env none now_ms db (insert_member c now_ms u db) h (step u db h))))
