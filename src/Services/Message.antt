-- ===== src/Services/Message.antt =====
-- server/services/message/service.py: sending a message. The clock readings are arguments, in the
-- order in which the code reads the clock.
pub mod Send
use mini_im.Prelude.{
  ℕ, String, Bool, true, false, ◌&&◌, ◌||◌, not, Option, none, some, List, [], ◌∷◌, if◌then◌else◌,
  ◌=?◌, ◌==◌, ltb,
}
use mini_im.Protocol.{Bytes, SendMessage, Message, Ack, msg_unspecified, msg_text, msg_system}
use mini_im.Storage.Db.{Db, Env}
use mini_im.Storage.SyncEvent.{StoredSyncEvent}
use mini_im.Storage.MessageIntent.{message_intent_payload, message_intent_fingerprint}
use mini_im.Storage.MessageRepo.{
  append_message, get_message_by_client_msg_id, get_intent_fingerprint,
}
use mini_im.Storage.ConversationRepo.{is_member, list_member_ids}
use mini_im.Storage.ControlWrite.{ControlWriteResult, Apply, same_optional, execute}

-- A `MessagePush` with its one message.
pub record MessagePush : Type 0 where
  pub event_id : String
  pub message : Message

pub record SendMessageResult : Type 0 where
  pub ack : Ack
  pub message_push : Option MessagePush
  pub sync_events : List StoredSyncEvent

abbrev pub burn_mode_off : ℕ
burn_mode_off = 0

abbrev pub burn_mode_after_read : ℕ
burn_mode_after_read = 1

abbrev pub min_burn_ttl_sec : ℕ
min_burn_ttl_sec = 5

abbrev pub max_burn_ttl_sec : ℕ
max_burn_ttl_sec = 604800

unfoldable pub refuse : String → ℕ → String → ℕ → SendMessageResult
refuse request_id code message now_ms = record {
  ack = record {
    request_id = request_id;
    success = false;
    code = code;
    message = message;
    entity_id = "";
    server_time_ms = now_ms;
  };
  message_push = none;
  sync_events = [];
}

unfoldable pub accept :
    String → String → String → ℕ → Option MessagePush → List StoredSyncEvent → SendMessageResult
accept request_id message entity_id now_ms message_push sync_events = record {
  ack = record {
    request_id = request_id;
    success = true;
    code = 0;
    message = message;
    entity_id = entity_id;
    server_time_ms = now_ms;
  };
  message_push = message_push;
  sync_events = sync_events;
}

-- The request as it is stored, or the message of the refusal: from `normalized.CopyFrom` to the
-- checks of the burn settings.
pub data Normalized : Type 0 where
  normal : SendMessage → Normalized
  invalid : String → Normalized

unfoldable pub normalize : Bool → SendMessage → Normalized
normalize burn_enabled m =
    let type = if m.type == msg_unspecified then msg_text else m.type in
    let quiet = type == msg_system || not burn_enabled in
    let burn_mode = if quiet then burn_mode_off else m.burn_mode in
    let burn_ttl_sec = if quiet then 0 else m.burn_ttl_sec in
    if not (burn_mode == burn_mode_off || burn_mode == burn_mode_after_read)
    then Normalized.invalid "invalid burn_mode"
    else if burn_mode == burn_mode_off
    then Normalized.normal (record m { type = type; burn_mode = burn_mode; burn_ttl_sec = 0 })
    else if ltb burn_ttl_sec min_burn_ttl_sec || ltb max_burn_ttl_sec burn_ttl_sec
    then Normalized.invalid "invalid burn_ttl_sec"
    else Normalized.normal
        (record m { type = type; burn_mode = burn_mode; burn_ttl_sec = burn_ttl_sec })

-- `sync_events[0].event_id if sync_events else ""`
unfoldable pub first_event_id : List StoredSyncEvent → String
first_event_id [] = ""
first_event_id (e ∷ es) = e.event_id

-- The answer to a client message id that is stored already.
unfoldable pub answer_existing : String → ℕ → ℕ → Bytes → Option Bytes → Message → SendMessageResult
unfolding refuse accept
answer_existing request_id now_ms done_ms fingerprint original existing =
    if same_optional original fingerprint
    then accept request_id "ok(idempotent)" existing.message_id done_ms none []
    else refuse request_id 409
        (elim original [
          | none ↦ "original message intent unavailable after legacy content purge"
          | some b ↦ "client_msg_id reused with different message content or settings"
        ])
        now_ms

unfoldable pub store_message :
    Env → ℕ → ℕ → String → String → Bytes → SendMessage → Db → SendMessageResult × Db
unfolding list_member_ids append_message first_event_id accept
store_message env write_ms done_ms user_id request_id fingerprint normalized db =
    let members = list_member_ids db normalized.conversation_id in
    let (stored, db') =
      append_message env write_ms request_id user_id normalized members (some fingerprint) db in
    let push : MessagePush = record {
      event_id = first_event_id stored.sync_events;
      message = stored.message;
    } in
    (accept request_id "ok" stored.message.message_id done_ms (some push) stored.sync_events, db')

unfoldable pub apply_send_message :
    Env → Bool → ℕ → ℕ → ℕ → String → String → SendMessage → Db → SendMessageResult × Db
unfolding refuse is_member message_intent_fingerprint get_message_by_client_msg_id
    get_intent_fingerprint answer_existing normalize store_message
apply_send_message env burn_enabled now_ms write_ms done_ms user_id request_id send_message db =
    if (send_message.conversation_id =? "") || (send_message.client_msg_id =? "")
    then (refuse request_id 400 "invalid send_message" now_ms, db)
    else if not (is_member db send_message.conversation_id user_id)
    then (refuse request_id 403 "sender is not a conversation member" now_ms, db)
    else let fingerprint = message_intent_fingerprint env send_message in
      elim (get_message_by_client_msg_id db send_message.conversation_id user_id
        send_message.client_msg_id) [
          | some existing ↦ (
            answer_existing request_id now_ms done_ms fingerprint
                (get_intent_fingerprint db existing.message_id) existing,
            db,
          )
          | none ↦ elim (normalize burn_enabled send_message) [
            | Normalized.invalid message ↦ (refuse request_id 400 message now_ms, db)
            | Normalized.normal normalized ↦
                store_message env write_ms done_ms user_id request_id fingerprint normalized db
          ]
        ]

-- `applied.message_push if applied is not None`
unfoldable pub pushed : Option SendMessageResult → Option MessagePush
pushed none = none
pushed (some applied) = applied.message_push

-- `handle_send_message`: the write goes through the durable requests; the push of the write is
-- handed out only if it ran and succeeded.
unfoldable pub handle_send_message :
    Env → Bool → ℕ → ℕ → ℕ → ℕ → String → String → SendMessage → Db → SendMessageResult × Db
unfolding apply_send_message message_intent_payload execute pushed
handle_send_message env burn_enabled request_ms now_ms write_ms done_ms user_id request_id
      send_message db =
    let apply : Apply SendMessageResult = λ d.
      let (applied, d') =
        apply_send_message env burn_enabled now_ms write_ms done_ms user_id request_id send_message
          d in
      ((record { ack = applied.ack; sync_events = applied.sync_events }, applied), d') in
    let ((result, applied), db') =
      execute env request_ms user_id request_id "send_message"
        (message_intent_payload env send_message) apply db in
    (
      record {
        ack = result.ack;
        message_push = if result.ack.success then pushed applied else none;
        sync_events = result.sync_events;
      },
      db',
    )
