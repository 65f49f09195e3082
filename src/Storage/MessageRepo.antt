-- ===== src/Storage/MessageRepo.antt =====
-- server/storage/repo/message_repo.py: storing a message with its deliveries, counter and events.
pub mod Append
use mini_im.Prelude.{
  ℕ, zero, suc, ◌+◌, ◌*◌, String, Bool, true, false, ◌&&◌, ◌||◌, not, Option, none, some, List, [],
  ◌∷◌, max, if◌then◌else◌, ◌=?◌, ◌==◌, leb, length, filter, find?,
}
use mini_im.Protocol.{Bytes, SendMessage, Message, Body}
use mini_im.Storage.Db.{Db, Env, MessageRow, DeliveryRow, CounterRow, SyncCursorRow, uuid4}
use mini_im.Storage.Sql.{coalesce}
use mini_im.Storage.SyncEvent.{StoredSyncEvent, append_sync_events}
use mini_im.Storage.MessageIntent.{message_intent_fingerprint}

pub record StoredMessage : Type 0 where
  pub message : Message
  pub sync_events : List StoredSyncEvent

abbrev pub burn_mode_after_read : ℕ
burn_mode_after_read = 1

unfoldable pub compute_burn_at_ms : ℕ → ℕ → ℕ → Option ℕ
compute_burn_at_ms burn_mode burn_ttl_sec started_at_ms =
    if not (burn_mode == burn_mode_after_read) || leb burn_ttl_sec 0
    then none
    else some (started_at_ms + burn_ttl_sec * 1000)

-- `COALESCE(c.unread_count, 0)` of the `LEFT JOIN` with the counters.
unfoldable pub unread_count_of : String → List CounterRow → ℕ
unread_count_of message_id [] = 0
unread_count_of message_id (c ∷ rows) =
    if c.server_msg_id =? message_id then c.unread_count else unread_count_of message_id rows

unfoldable pub row_to_message : MessageRow → ℕ → Message
row_to_message row unread_count = record {
  message_id = row.server_msg_id;
  conversation_id = row.conversation_id;
  sender_id = row.sender_id;
  client_msg_id = row.client_msg_id;
  seq = row.conversation_seq;
  type = row.type;
  content = row.content;
  created_at_ms = row.created_at_ms;
  recalled = row.recalled;
  unread_count = unread_count;
  burn_mode = row.burn_mode;
  burn_ttl_sec = row.burn_ttl_sec;
}

unfoldable pub has_client_msg_id : String → String → String → MessageRow → Bool
has_client_msg_id conversation_id sender_id client_msg_id m =
    (m.conversation_id =? conversation_id)
    && (m.sender_id =? sender_id)
    && (m.client_msg_id =? client_msg_id)

unfoldable pub get_message_by_client_msg_id : Db → String → String → String → Option Message
unfolding has_client_msg_id find? row_to_message unread_count_of
get_message_by_client_msg_id db conversation_id sender_id client_msg_id =
    elim (find? (has_client_msg_id conversation_id sender_id client_msg_id) db.messages) [
      | none ↦ none
      | some row ↦
          some (row_to_message row (unread_count_of row.server_msg_id db.message_read_counters))
    ]

unfoldable pub get_message_by_id : Db → String → String → Option Message
unfolding find? row_to_message unread_count_of
get_message_by_id db conversation_id message_id =
    elim (find? (λ m. (m.conversation_id =? conversation_id) && (m.server_msg_id =? message_id))
      db.messages) [
        | none ↦ none
        | some row ↦
            some (row_to_message row (unread_count_of row.server_msg_id db.message_read_counters))
      ]

unfoldable pub get_intent_fingerprint : Db → String → Option Bytes
unfolding find?
get_intent_fingerprint db message_id =
    elim (find? (λ m. m.server_msg_id =? message_id) db.messages) [
      | none ↦ none
      | some row ↦ row.intent_fingerprint
    ]

-- `SELECT COALESCE(MAX(conversation_seq), 0) FROM messages WHERE conversation_id = ?`
unfoldable pub max_conversation_seq : String → List MessageRow → ℕ
max_conversation_seq conversation_id [] = 0
max_conversation_seq conversation_id (m ∷ rows) =
    if m.conversation_id =? conversation_id
    then max m.conversation_seq (max_conversation_seq conversation_id rows)
    else max_conversation_seq conversation_id rows

-- The row that the loop over `member_ids` inserts for one member.
unfoldable pub delivery_of : String → String → ℕ → ℕ → ℕ → String → ℕ → String → DeliveryRow
unfolding compute_burn_at_ms
delivery_of message_id conversation_id conversation_seq burn_mode burn_ttl_sec sender_id now_ms
      member_id =
    let burn_at_ms =
      if member_id =? sender_id then compute_burn_at_ms burn_mode burn_ttl_sec now_ms else none in
    record {
      server_msg_id = message_id;
      user_id = member_id;
      conversation_id = conversation_id;
      seq = conversation_seq;
      status = if member_id =? sender_id then "read" else "sent";
      sent_at_ms = now_ms;
      delivered_at_ms = if member_id =? sender_id then some now_ms else none;
      read_at_ms = if member_id =? sender_id then some now_ms else none;
      burn_started_at_ms = elim burn_at_ms [ none ↦ none | some t ↦ some now_ms ];
      burn_at_ms = burn_at_ms;
      burned_at_ms = none;
    }

-- `INSERT OR REPLACE`: a row of the same key is deleted first.
unfoldable pub replace_delivery : DeliveryRow → List DeliveryRow → List DeliveryRow
unfolding filter
replace_delivery d rows =
    d ∷ filter (λ r. not ((r.server_msg_id =? d.server_msg_id) && (r.user_id =? d.user_id))) rows

unfoldable pub insert_deliveries :
    (String → DeliveryRow) → List String → List DeliveryRow → List DeliveryRow
unfolding replace_delivery
insert_deliveries of [] rows = rows
insert_deliveries of (member_id ∷ member_ids) rows =
    insert_deliveries of member_ids (replace_delivery (of member_id) rows)

-- `INSERT INTO sync_cursors … ON CONFLICT(user_id, conversation_id) DO UPDATE SET …`
unfoldable pub upsert_cursor : SyncCursorRow → List SyncCursorRow → List SyncCursorRow
upsert_cursor c [] = c ∷ []
upsert_cursor c (r ∷ rows) =
    if (r.user_id =? c.user_id) && (r.conversation_id =? c.conversation_id)
    then record r { last_seq = c.last_seq; updated_at_ms = c.updated_at_ms } ∷ rows
    else r ∷ upsert_cursor c rows

unfoldable pub upsert_cursors :
    String → ℕ → ℕ → List String → List SyncCursorRow → List SyncCursorRow
unfolding upsert_cursor
upsert_cursors conversation_id last_seq now_ms [] rows = rows
upsert_cursors conversation_id last_seq now_ms (member_id ∷ member_ids) rows =
    upsert_cursors conversation_id last_seq now_ms member_ids (
      upsert_cursor
        (record {
          user_id = member_id;
          conversation_id = conversation_id;
          last_seq = last_seq;
          updated_at_ms = now_ms;
        })
        rows)

-- `sum(1 for member_id in member_ids if member_id != sender_id)`
unfoldable pub count_others : String → List String → ℕ
count_others sender_id [] = 0
count_others sender_id (member_id ∷ member_ids) =
    if member_id =? sender_id
    then count_others sender_id member_ids
    else count_others sender_id member_ids + 1

-- `append_message` up to the construction of `message`: the inserted rows.
unfoldable pub insert_message :
    Env → ℕ → String → String → SendMessage → List String → Option Bytes → Db → Message × Db
unfolding uuid4 count_others max_conversation_seq delivery_of insert_deliveries
    message_intent_fingerprint
insert_message env now_ms request_id sender_id send_message member_ids intent_fingerprint db =
    let (message_id, db₁) = uuid4 env db in
    let unread = count_others sender_id member_ids in
    let conversation_seq = max_conversation_seq send_message.conversation_id db₁.messages + 1 in
    let row : MessageRow = record {
      server_msg_id = message_id;
      conversation_id = send_message.conversation_id;
      sender_id = sender_id;
      client_msg_id = send_message.client_msg_id;
      request_id = request_id;
      conversation_seq = conversation_seq;
      type = send_message.type;
      content = send_message.content;
      created_at_ms = now_ms;
      recalled = false;
      burn_mode = send_message.burn_mode;
      burn_ttl_sec = send_message.burn_ttl_sec;
      intent_fingerprint =
          some (coalesce intent_fingerprint (message_intent_fingerprint env send_message));
      content_purged_at_ms = 0;
    } in
    let counter : CounterRow = record {
      server_msg_id = message_id;
      conversation_id = send_message.conversation_id;
      conversation_seq = conversation_seq;
      member_count = unread;
      read_count = 0;
      unread_count = unread;
      updated_at_ms = now_ms;
    } in
    let message : Message = record {
      message_id = message_id;
      conversation_id = send_message.conversation_id;
      sender_id = sender_id;
      client_msg_id = send_message.client_msg_id;
      seq = conversation_seq;
      type = send_message.type;
      content = send_message.content;
      created_at_ms = now_ms;
      recalled = false;
      unread_count = unread;
      burn_mode = send_message.burn_mode;
      burn_ttl_sec = send_message.burn_ttl_sec;
    } in
    (
      message,
      record db₁ {
        messages = row ∷ db₁.messages;
        message_deliveries =
            insert_deliveries
              (delivery_of message_id send_message.conversation_id conversation_seq
                send_message.burn_mode send_message.burn_ttl_sec sender_id now_ms)
              member_ids db₁.message_deliveries;
        message_read_counters = counter ∷ db₁.message_read_counters;
      },
    )

unfoldable pub append_message :
    Env → ℕ → String → String → SendMessage → List String → Option Bytes → Db → StoredMessage × Db
unfolding insert_message upsert_cursors append_sync_events
append_message env now_ms request_id sender_id send_message member_ids intent_fingerprint db =
    let (message, db₁) =
      insert_message env now_ms request_id sender_id send_message member_ids intent_fingerprint
        db in
    let (events, db₂) =
      append_sync_events env send_message.conversation_id "message" (Body.message message) now_ms
        member_ids db₁ in
    (
      record { message = message; sync_events = events },
      record db₂ {
        sync_cursors =
            upsert_cursors send_message.conversation_id message.seq now_ms member_ids
              db₂.sync_cursors;
      },
    )
