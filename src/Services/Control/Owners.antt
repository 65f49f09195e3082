-- ===== src/Services/Control/Owners.antt =====
-- server/services/control/service.py: every write keeps every conversation's owner among its
-- members.
use mathlib.Core.Path.{subst}
use mini_im.Prelude.{
  ℕ, String, Bool, true, false, ◌||◌, not, Option, none, some, List, [], ◌∷◌, ◌≡◌, sym, ◌⊎◌, inl,
  inr, if◌then◌else◌, ◌=?◌, ◌==◌, ltb, length, filter, arith, Bool-cases,
}
use mini_im.Protocol.{Bytes, conversation_group, conversation_direct}
use mini_im.Text.{strip}
use mini_im.Storage.Db.{Db, Env}
use mini_im.Storage.SyncEvent.{from_keys}
use mini_im.Storage.ControlWrite.{ControlWriteResult, Apply, execute, settle, is_transient, reject}
use mini_im.Storage.ConversationRepo.Create.{
  Creation, create_group_conversation, create_direct_conversation,
}
use mini_im.Storage.ConversationRepo.Members.{Update}
use mini_im.Storage.ConversationRepo.Owner.{Owned}
use mini_im.Storage.ConversationRepo.Groups.{
  rename_conversation-Owned, add_members-Owned, join_conversation-Owned, remove_members-Owned,
  leave_conversation-Owned,
}
use mini_im.Storage.ConversationRepo.Founding.{create_conversation-Owned}
use mini_im.Storage.DeliveryRepo.Owners.{apply_receipt-Owned, apply_recall-Owned}
use mini_im.Services.Delivery.{DeliveryServiceResult, handle_receipt, handle_recall}
use mini_im.Services.Conversation.{
  CreateConversation, Answer, creation_answer, result_from_update, nonblank, stripped, is_empty,
  create_direct, handle_create_conversation, handle_add_members, handle_remove_members,
  handle_leave_conversation, handle_join_conversation, handle_rename_conversation,
}
use mini_im.Services.Control.{
  WriteBody, operation_of, of_conversation, of_delivery, run_handler, apply_write, unless_raised,
  handle,
}

on_test : (b : Bool) (x y : Answer) → Owned x.1 → Owned y.1 → Owned (if b then x else y).1
on_test true x y h k = h
on_test false x y h k = k

on_delivery :
    (b : Bool) (x y : DeliveryServiceResult × Db)
    → Owned x.1
    → Owned y.1
    → Owned (of_delivery (if b then x else y)).1
unfolding of_delivery
on_delivery true x y h k = h
on_delivery false x y h k = k

of_conversation-Owned : (a : Answer) → Owned a.1 → Owned (of_conversation a).1
unfolding of_conversation
of_conversation-Owned (none, db) h = h
of_conversation-Owned (some r, db) h = h

module _ (now_ms done_ms : ℕ) (request_id text failure : String) where
  result_from_update-Owned :
      (u : Update × Db)
      → Owned u.1
      → Owned (result_from_update now_ms done_ms request_id text failure u).1
  unfolding result_from_update
  result_from_update-Owned (Update.rejected, db) h = h
  result_from_update-Owned (Update.must_exist, db) h = h
  result_from_update-Owned (Update.updated r, db) h = h

  creation_answer-Owned :
      (u : Creation × Db) → Owned u.1 → Owned (creation_answer now_ms done_ms request_id text u).1
  unfolding creation_answer
  creation_answer-Owned (Creation.member_missing, db) h = h
  creation_answer-Owned (Creation.must_exist, db) h = h
  creation_answer-Owned (Creation.done r, db) h = h

module _ (env : Env) (burn_enabled : Bool) (now_ms write_ms done_ms : ℕ)
    (user_id request_id : String) (db : Db) (h : Owned db) where
  create_direct-Owned :
      (conv_id : String) (peers : List String)
      → Owned (create_direct env now_ms write_ms done_ms user_id request_id conv_id peers db).1
  unfolding create_direct create_direct_conversation
  create_direct-Owned conv_id [] = h
  create_direct-Owned conv_id (p ∷ q ∷ ps) = h
  create_direct-Owned conv_id (p ∷ []) =
      creation_answer-Owned now_ms done_ms request_id "direct peer does not exist" ""
        (create_direct_conversation env write_ms user_id conv_id p db)
        (create_conversation-Owned env write_ms user_id conv_id "" conversation_direct (p ∷ []) db
          h)

  handle_create_conversation-Owned :
      (r : CreateConversation)
      → Owned (handle_create_conversation env now_ms write_ms done_ms user_id request_id r db).1
  unfolding handle_create_conversation create_group_conversation
  handle_create_conversation-Owned r = on_test (strip r.client_conv_id =? "") _ _ h (
      on_test (r.type == conversation_group) _ _
        (on_test (ltb (length (from_keys (user_id ∷ nonblank r.member_ids))) 2) _ _ h (
          creation_answer-Owned now_ms done_ms request_id "conversation member does not exist" ""
            (create_group_conversation env write_ms user_id (strip r.client_conv_id) (strip r.title)
              (nonblank r.member_ids) db)
            (create_conversation-Owned env write_ms user_id (strip r.client_conv_id) (strip r.title)
              conversation_group (nonblank r.member_ids) db h)))
        (on_test (r.type == conversation_direct) _ _
          (create_direct-Owned (strip r.client_conv_id)
            (filter (λ item. not (item =? user_id)) (from_keys (nonblank r.member_ids))))
          h))

  -- Every control write keeps every conversation's owner among its members.
  pub run_handler-Owned :
      (body : WriteBody)
      → Owned (run_handler env burn_enabled now_ms write_ms done_ms user_id request_id body db).1
  unfolding run_handler handle_add_members handle_remove_members handle_leave_conversation
      handle_join_conversation handle_rename_conversation handle_receipt handle_recall of_delivery
  run_handler-Owned (WriteBody.create_conversation r) =
      of_conversation-Owned _ (handle_create_conversation-Owned r)
  run_handler-Owned (WriteBody.add_members r) = of_conversation-Owned _ (
      on_test ((strip r.conversation_id =? "") || is_empty (stripped r.member_ids)) _ _ h (
        result_from_update-Owned now_ms done_ms request_id (strip r.conversation_id)
          "add_members rejected" _
          (add_members-Owned env write_ms user_id (strip r.conversation_id) db h
            (stripped r.member_ids))))
  run_handler-Owned (WriteBody.remove_members r) = of_conversation-Owned _ (
      on_test ((strip r.conversation_id =? "") || is_empty (stripped r.member_ids)) _ _ h (
        result_from_update-Owned now_ms done_ms request_id (strip r.conversation_id)
          "remove_members rejected" _
          (remove_members-Owned env write_ms user_id (strip r.conversation_id) db h
            (stripped r.member_ids))))
  run_handler-Owned (WriteBody.leave_conversation c) = of_conversation-Owned _ (
      on_test (strip c =? "") _ _ h (
        result_from_update-Owned now_ms done_ms request_id (strip c) "leave_conversation rejected" _
          (leave_conversation-Owned env write_ms user_id (strip c) db h)))
  run_handler-Owned (WriteBody.join_conversation c) = of_conversation-Owned _ (
      on_test (strip c =? "") _ _ h (
        result_from_update-Owned now_ms done_ms request_id (strip c) "join_conversation rejected" _
          (join_conversation-Owned env write_ms user_id (strip c) db h)))
  run_handler-Owned (WriteBody.rename_conversation r) = of_conversation-Owned _ (
      on_test ((strip r.conversation_id =? "") || (strip r.title =? "")) _ _ h (
        result_from_update-Owned now_ms done_ms request_id (strip r.conversation_id)
          "rename_conversation rejected" _
          (rename_conversation-Owned env write_ms user_id (strip r.conversation_id) db h
            (strip r.title))))
  run_handler-Owned (WriteBody.receipt r) =
      on_delivery (r.conversation_id =? "") _ _ h (
        apply_receipt-Owned env burn_enabled write_ms user_id r.conversation_id db r.last_read_seq
          h)
  run_handler-Owned (WriteBody.recall r) =
      on_delivery ((r.conversation_id =? "") || (r.message_id =? "")) _ _ h
        (apply_recall-Owned env write_ms user_id r.conversation_id r.message_id db h)
  run_handler-Owned WriteBody.unhandled = h

execute-cases :
    {S : Type 0} (env : Env) (now_ms : ℕ) (user_id request_id operation : String) (payload : Bytes)
    (apply : Apply S) (db : Db)
    → ((execute env now_ms user_id request_id operation payload apply db).1 ≡ db)
      ⊎ ((execute env now_ms user_id request_id operation payload apply db).1
          ≡ (settle user_id request_id operation (env.sha256 payload) now_ms db (apply db)).1)
unfolding execute
execute-cases env now_ms user_id request_id operation payload apply db = ground arith

settle-Owned :
    {S : Type 0} (user_id request_id operation : String) (fingerprint : Bytes) (now_ms : ℕ)
    (before : Db) (out : (ControlWriteResult × S) × Db)
    → Owned before
    → Owned out.1
    → Owned (settle user_id request_id operation fingerprint now_ms before out).1
unfolding settle
settle-Owned user_id request_id operation fingerprint now_ms before ((result, side), db) h k =
    elim (Bool-cases (is_transient result.ack)) [ inl t ↦ rw t h | inr f ↦ rw f k ]

unless_raised-Owned :
    (before : Db) (out : (ControlWriteResult × Option Bool) × Db)
    → Owned before
    → Owned out.1
    → Owned (unless_raised before out).1
unfolding unless_raised
unless_raised-Owned before ((result, none), db) h k = k
unless_raised-Owned before ((result, some true), db) h k = h
unless_raised-Owned before ((result, some false), db) h k = k

module _ (env : Env) (burn_enabled : Bool) (serialize : WriteBody → Bytes)
    (request_ms now_ms write_ms done_ms : ℕ) (user_id request_id : String) (body : WriteBody)
    (db : Db) (h : Owned db) where
  apply_write-state :
      (apply_write env burn_enabled now_ms write_ms done_ms user_id request_id body db).1
      ≡ (run_handler env burn_enabled now_ms write_ms done_ms user_id request_id body db).1
  unfolding apply_write
  apply_write-state = ground arith

  executed-Owned :
      (operation : String)
      → Owned
          (execute env request_ms user_id request_id operation
            (serialize body)
            (apply_write env burn_enabled now_ms write_ms done_ms user_id request_id body)
            db).1
  executed-Owned operation =
      let write = apply_write env burn_enabled now_ms write_ms done_ms user_id request_id body in
      elim (execute-cases env request_ms user_id request_id operation (serialize body) write db) [
        | inl e ↦ subst (λ d. Owned d) (sym e) h
        | inr e ↦
            subst (λ d. Owned d) (sym e)
              (settle-Owned user_id request_id operation (env.sha256 (serialize body)) request_ms db
                (write db) h
                (subst (λ d. Owned d) (sym apply_write-state)
                  (run_handler-Owned env burn_enabled now_ms write_ms done_ms user_id request_id db
                    h body)))
      ]

  -- If every conversation has its owner among its members, then it has after any control write:
  -- new or repeated, accepted, refused or failed, whether it creates, renames, joins or leaves a
  -- conversation, changes its members, or is a receipt or a recall.
  pub handle-Owned :
      Owned
        (handle env burn_enabled serialize request_ms now_ms write_ms done_ms user_id request_id
          body db).1
  unfolding handle
  handle-Owned = go (operation_of body)
    where
      go :
          (o : Option String)
          → Owned
              (elim o as (λ _. Option ControlWriteResult × Db) [
                | none ↦ (some (reject request_id 400 "unsupported control write" request_ms), db)
                | some operation ↦ unless_raised db (
                    execute env request_ms user_id request_id operation
                      (serialize body)
                      (apply_write env burn_enabled now_ms write_ms done_ms user_id request_id body)
                      db)
              ]).1
      go none = h
      go (some operation) =
          unless_raised-Owned db
            (execute env request_ms user_id request_id operation (serialize body)
              (apply_write env burn_enabled now_ms write_ms done_ms user_id request_id body) db)
            h (executed-Owned operation)
