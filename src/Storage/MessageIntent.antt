-- ===== src/Storage/MessageIntent.antt =====
-- server/storage/repo/message_intent.py: the identity of a message intent.
use mini_im.Prelude.{◌==◌, if◌then◌else◌}
use mini_im.Protocol.{Bytes, SendMessage, msg_text, msg_system}
use mini_im.Storage.Db.{Env}

-- The canonical request that `MessageIntentPayload` serializes.
unfoldable pub canonical : SendMessage → SendMessage
canonical request =
    let message_type = if request.type == 0 then msg_text else request.type in
    let burn_mode = if message_type == msg_system then 0 else request.burn_mode in
    record {
      conversation_id = request.conversation_id;
      client_msg_id = request.client_msg_id;
      type = message_type;
      content = request.content;
      burn_mode = burn_mode;
      burn_ttl_sec = if burn_mode == 0 then 0 else request.burn_ttl_sec;
    }

unfoldable pub message_intent_payload : Env → SendMessage → Bytes
unfolding canonical
message_intent_payload env request = env.serialize (canonical request)

unfoldable pub message_intent_fingerprint : Env → SendMessage → Bytes
unfolding message_intent_payload
message_intent_fingerprint env request = env.sha256 (message_intent_payload env request)
