-- ===== src/Services/Control.antt =====
-- server/services/control/service.py: conversation and delivery writes go through the durable
-- requests.
pub mod Refusal
pub mod Owners
pub mod Retry
use mini_im.Prelude.{ℕ, String, Bool, true, false, Option, none, some, List, [], if◌then◌else◌}
use mini_im.Protocol.{Bytes, Receipt, Recall}
use mini_im.Storage.Db.{Db, Env}
use mini_im.Storage.ControlWrite.{ControlWriteResult, Apply, reject, execute}
use mini_im.Services.Delivery.{DeliveryServiceResult, handle_receipt, handle_recall}
use mini_im.Services.Conversation.{
  CreateConversation, MembersChange, RenameConversation, Answer, handle_create_conversation,
  handle_add_members, handle_remove_members, handle_leave_conversation, handle_join_conversation,
  handle_rename_conversation,
}

-- The body of an envelope: one that has a handler, or another one.
pub data WriteBody : Type 0 where
  create_conversation : CreateConversation → WriteBody
  add_members : MembersChange → WriteBody
  remove_members : MembersChange → WriteBody
  leave_conversation : String → WriteBody
  join_conversation : String → WriteBody
  rename_conversation : RenameConversation → WriteBody
  receipt : Receipt → WriteBody
  recall : Recall → WriteBody
  unhandled : WriteBody

-- `envelope.WhichOneof("body")`, if `m_handlers` has it.
unfoldable pub operation_of : WriteBody → Option String
operation_of (WriteBody.create_conversation _) = some "create_conversation"
operation_of (WriteBody.add_members _) = some "add_members"
operation_of (WriteBody.remove_members _) = some "remove_members"
operation_of (WriteBody.leave_conversation _) = some "leave_conversation"
operation_of (WriteBody.join_conversation _) = some "join_conversation"
operation_of (WriteBody.rename_conversation _) = some "rename_conversation"
operation_of (WriteBody.receipt _) = some "receipt"
operation_of (WriteBody.recall _) = some "recall"
operation_of WriteBody.unhandled = none

unfoldable pub handles : WriteBody → Bool
unfolding operation_of
handles body = elim (operation_of body) [ none ↦ false | some _ ↦ true ]

-- `ControlWriteResult(result.ack, result.sync_events)`; none if the handler raises.
unfoldable pub of_conversation : Answer → Option ControlWriteResult × Db
of_conversation (none, db) = (none, db)
of_conversation (some result, db) =
    (some (record { ack = result.ack; sync_events = result.sync_events }), db)

unfoldable pub of_delivery : DeliveryServiceResult × Db → Option ControlWriteResult × Db
of_delivery (result, db) =
    (some (record { ack = result.ack; sync_events = result.sync_events }), db)

module _ (env : Env) (burn_enabled : Bool) (now_ms write_ms done_ms : ℕ)
    (user_id request_id : String) where
  -- `self.m_handlers[operation](user_id, envelope.request_id, body)`
  unfoldable pub run_handler : WriteBody → Db → Option ControlWriteResult × Db
  unfolding of_conversation of_delivery handle_create_conversation handle_add_members
      handle_remove_members handle_leave_conversation handle_join_conversation
      handle_rename_conversation handle_receipt handle_recall
  run_handler (WriteBody.create_conversation c) db =
      of_conversation
        (handle_create_conversation env now_ms write_ms done_ms user_id request_id c db)
  run_handler (WriteBody.add_members c) db =
      of_conversation (handle_add_members env now_ms write_ms done_ms user_id request_id c db)
  run_handler (WriteBody.remove_members c) db =
      of_conversation (handle_remove_members env now_ms write_ms done_ms user_id request_id c db)
  run_handler (WriteBody.leave_conversation c) db =
      of_conversation
        (handle_leave_conversation env now_ms write_ms done_ms user_id request_id c db)
  run_handler (WriteBody.join_conversation c) db =
      of_conversation (handle_join_conversation env now_ms write_ms done_ms user_id request_id c db)
  run_handler (WriteBody.rename_conversation c) db =
      of_conversation
        (handle_rename_conversation env now_ms write_ms done_ms user_id request_id c db)
  run_handler (WriteBody.receipt r) db =
      of_delivery (handle_receipt env burn_enabled now_ms write_ms done_ms user_id request_id r db)
  run_handler (WriteBody.recall r) db =
      of_delivery (handle_recall env now_ms write_ms done_ms user_id request_id r db)
  run_handler WriteBody.unhandled db = (none, db)

  -- The closure `apply`; what it leaves is whether the handler raised. A result then stands only
  -- for the one that there is not.
  unfoldable pub apply_write : WriteBody → Apply Bool
  unfolding run_handler reject
  apply_write body db =
      let (result, db') = run_handler body db in
      elim result [
        | none ↦ ((reject request_id 500 "" now_ms, true), db')
        | some r ↦ ((r, false), db')
      ]

-- An exception leaves the transaction of `execute`, which rolls the tables back.
unfoldable pub unless_raised :
    Db → (ControlWriteResult × Option Bool) × Db → Option ControlWriteResult × Db
unless_raised before ((result, some true), db) = (none, record before { issued = db.issued })
unless_raised before ((result, some false), db) = (some result, db)
unless_raised before ((result, none), db) = (some result, db)

-- `serialize` is the deterministic encoding of the body; none is an exception.
unfoldable pub handle :
    Env
    → Bool
    → (WriteBody → Bytes)
    → ℕ
    → ℕ
    → ℕ
    → ℕ
    → String
    → String
    → WriteBody
    → Db
    → Option ControlWriteResult × Db
unfolding operation_of apply_write execute reject unless_raised
handle env burn_enabled serialize request_ms now_ms write_ms done_ms user_id request_id body db =
    elim (operation_of body) [
      | none ↦ (some (reject request_id 400 "unsupported control write" request_ms), db)
      | some operation ↦ unless_raised db (
          execute env request_ms user_id request_id operation (serialize body)
            (apply_write env burn_enabled now_ms write_ms done_ms user_id request_id body) db)
    ]
