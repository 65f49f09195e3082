-- ===== src/Storage/MessageRepo/Append.antt =====
-- server/storage/repo/message_repo.py: what `append_message` stores.
use mini_im.Prelude.{
  ℕ, ◌+◌, ◌≡◌, refl, String, false, Option, some, List, [], ◌∷◌, arith, if◌then◌else◌, ◌=?◌,
}
use mini_im.Protocol.{Bytes, SendMessage, Message, Body}
use mini_im.Storage.Db.{Db, Env, MessageRow}
use mini_im.Storage.Sql.{coalesce}
use mini_im.Storage.SyncEvent.{append_sync_events}
use mini_im.Storage.SyncEvent.Frame.{OnlyEvents, append_sync_events-OnlyEvents}
use mini_im.Storage.SyncEvent.Numbering.{Numbered, append_sync_events-Numbered}
use mini_im.Storage.MessageIntent.{message_intent_fingerprint}
use mini_im.Storage.MessageRepo.{
  StoredMessage, max_conversation_seq, insert_message, append_message, get_message_by_client_msg_id,
  get_intent_fingerprint, row_to_message, unread_count_of,
}

-- The number of messages of a conversation.
unfoldable pub count_messages : String → List MessageRow → ℕ
count_messages conversation_id [] = 0
count_messages conversation_id (m ∷ rows) =
    if m.conversation_id =? conversation_id
    then count_messages conversation_id rows + 1
    else count_messages conversation_id rows

-- Each message's number is its position in its conversation, the oldest being 1.
abbrev pub SeqNumbered : List MessageRow → Type 0
SeqNumbered [] = Unit {0}
SeqNumbered (m ∷ rows) =
    (m.conversation_seq ≡ count_messages m.conversation_id rows + 1) × SeqNumbered rows

pub max_conversation_seq-SeqNumbered :
    (conversation_id : String) (rows : List MessageRow)
    → SeqNumbered rows
    → max_conversation_seq conversation_id rows ≡ count_messages conversation_id rows
unfolding max_conversation_seq count_messages
max_conversation_seq-SeqNumbered conversation_id [] h = refl
max_conversation_seq-SeqNumbered conversation_id (m ∷ rows) h =
    ground (arith, max_conversation_seq-SeqNumbered conversation_id rows h.1)

-- The look-ups find the message that was stored last.
pub find_newest :
    (db : Db) (row : MessageRow) (rows : List MessageRow)
    → db.messages ≡ row ∷ rows
    → (existing : Message) × (get_message_by_client_msg_id db row.conversation_id row.sender_id
          row.client_msg_id
        ≡ some existing)
      × (existing.message_id ≡ row.server_msg_id)
unfolding get_message_by_client_msg_id
find_newest db row rows h = (
  row_to_message row (unread_count_of row.server_msg_id db.message_read_counters),
  ground arith,
  ground arith,
)

pub fingerprint_of_newest :
    (db : Db) (row : MessageRow) (rows : List MessageRow)
    → db.messages ≡ row ∷ rows
    → get_intent_fingerprint db row.server_msg_id ≡ row.intent_fingerprint
unfolding get_intent_fingerprint
fingerprint_of_newest db row rows h = ground arith

module _ (env : Env) (now_ms : ℕ) (request_id sender_id : String) (send_message : SendMessage)
    (member_ids : List String) (fingerprint : Option Bytes) (db : Db) where
  -- The row that `append_message` inserts.
  abbrev pub new_row : MessageRow
  new_row = record {
    server_msg_id = env.uuid db.issued;
    conversation_id = send_message.conversation_id;
    sender_id = sender_id;
    client_msg_id = send_message.client_msg_id;
    request_id = request_id;
    conversation_seq = max_conversation_seq send_message.conversation_id db.messages + 1;
    type = send_message.type;
    content = send_message.content;
    created_at_ms = now_ms;
    recalled = false;
    burn_mode = send_message.burn_mode;
    burn_ttl_sec = send_message.burn_ttl_sec;
    intent_fingerprint = some (coalesce fingerprint (message_intent_fingerprint env send_message));
    content_purged_at_ms = 0;
  }

  abbrev inserted : Message × Db
  inserted = insert_message env now_ms request_id sender_id send_message member_ids fingerprint db

  abbrev appended : StoredMessage × Db
  appended = append_message env now_ms request_id sender_id send_message member_ids fingerprint db

  only_events :
      OnlyEvents inserted.1
        (append_sync_events env send_message.conversation_id "message"
          (Body.message inserted.0)
          now_ms
          member_ids
          inserted.1).1
  only_events =
      append_sync_events-OnlyEvents env send_message.conversation_id "message"
        (Body.message inserted.0) now_ms member_ids inserted.1

  pub messages-append_message : appended.1.messages ≡ new_row ∷ db.messages
  unfolding append_message
  messages-append_message = only_events.messages

  pub members-append_message : appended.1.conversation_members ≡ db.conversation_members
  unfolding append_message
  members-append_message = only_events.members

  pub transfers-append_message : appended.1.file_transfers ≡ db.file_transfers
  unfolding append_message
  transfers-append_message = only_events.transfers

  events-Numbered : Numbered db.sync_events → Numbered appended.1.sync_events
  unfolding append_message
  events-Numbered k =
      append_sync_events-Numbered env send_message.conversation_id "message"
        (Body.message inserted.0) now_ms member_ids inserted.1 k

  pub message-append_message :
      (appended.0.message.message_id ≡ env.uuid db.issued)
      × (appended.0.message.seq ≡ max_conversation_seq send_message.conversation_id db.messages + 1)
      × (appended.0.message.content ≡ send_message.content)
  unfolding append_message
  message-append_message = (refl, refl, refl)

  -- Storing a message keeps the messages of every conversation numbered from 1 without a gap, and
  -- the event stream of every user too.
  pub append_message-SeqNumbered :
      SeqNumbered db.messages
      → Numbered db.sync_events
      → SeqNumbered appended.1.messages × Numbered appended.1.sync_events
  append_message-SeqNumbered h k = (
    rw messages-append_message (
        ground
          (arith, max_conversation_seq-SeqNumbered send_message.conversation_id db.messages h)),
    events-Numbered k,
  )
