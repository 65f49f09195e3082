-- ===== src/Storage/SyncRepo/Applied.antt =====
-- server/storage/repo/sync_repo.py: a device confirms the prefix of the stream that it has stored.
use mini_im.Prelude.{
  ℕ, String, Bool, true, ◌&&◌, ◌||◌, some, List, [], ◌∷◌, ◌++◌, max, if◌then◌else◌, ◌=?◌, ltb, leb,
  filter, any, update_where,
}
use mini_im.Protocol.{Body}
use mini_im.Storage.Db.{Db, Env, MessageRow, DeliveryRow, SyncEventRow, AppliedCursorRow}
use mini_im.Storage.Sql.{text_lt, order_by}
use mini_im.Storage.SyncEvent.{StoredSyncEvent, max_seq, append_sync_events}
use mini_im.Storage.ControlWrite.{ControlWriteResult, reject}

unfoldable pub is_device : String → String → AppliedCursorRow → Bool
is_device user_id device_id r = (r.user_id =? user_id) && (r.device_id =? device_id)

-- `int(previous[0]) if previous else 0`
unfoldable pub applied_cursor : String → String → List AppliedCursorRow → ℕ
unfolding is_device
applied_cursor user_id device_id [] = 0
applied_cursor user_id device_id (r ∷ rows) =
    if is_device user_id device_id r then r.global_cursor else applied_cursor user_id device_id rows

-- `INSERT … ON CONFLICT(user_id,device_id) DO UPDATE SET …`
unfoldable pub upsert_applied : AppliedCursorRow → List AppliedCursorRow → List AppliedCursorRow
unfolding is_device
upsert_applied a [] = a ∷ []
upsert_applied a (r ∷ rows) =
    if is_device a.user_id a.device_id r
    then record r { global_cursor = a.global_cursor; updated_at_ms = a.updated_at_ms } ∷ rows
    else r ∷ upsert_applied a rows

-- `SELECT d.*, m.sender_id`
pub record SentRow : Type 0 where
  pub delivery : DeliveryRow
  pub sender_id : String

-- The subselect: the user's events of new messages between the two cursors.
unfoldable pub is_confirmed : String → ℕ → ℕ → String → SyncEventRow → Bool
is_confirmed user_id old_cursor cursor message_id e =
    (e.user_id =? user_id)
    && (e.event_type =? "message")
    && ltb old_cursor e.seq
    && leb e.seq cursor
    && (e.entity_id =? message_id)

-- The join of one delivery with the messages.
unfoldable pub sent_rows_of : DeliveryRow → List MessageRow → List SentRow
sent_rows_of d [] = []
sent_rows_of d (m ∷ rows) =
    let rest = sent_rows_of d rows in
    if m.server_msg_id =? d.server_msg_id
    then record { delivery = d; sender_id = m.sender_id } ∷ rest
    else rest

unfoldable pub join_sent : List DeliveryRow → List MessageRow → List SentRow
unfolding sent_rows_of
join_sent [] messages = []
join_sent (d ∷ deliveries) messages = sent_rows_of d messages ++ join_sent deliveries messages

-- `ORDER BY d.conversation_id, d.seq`
unfoldable pub sent_before : SentRow → SentRow → Bool
sent_before r s =
    text_lt r.delivery.conversation_id s.delivery.conversation_id
    || ((r.delivery.conversation_id =? s.delivery.conversation_id)
        && ltb r.delivery.seq s.delivery.seq)

unfoldable pub sent_rows : String → ℕ → ℕ → Db → List SentRow
unfolding filter any is_confirmed join_sent order_by sent_before
sent_rows user_id old_cursor cursor db = order_by sent_before (
    join_sent
      (filter
        (λ d.
          (d.user_id =? user_id)
          && (d.status =? "sent")
          && any (is_confirmed user_id old_cursor cursor d.server_msg_id) db.sync_events)
        db.message_deliveries)
      db.messages)

unfoldable pub is_sent : String → String → DeliveryRow → Bool
is_sent message_id user_id d =
    (d.server_msg_id =? message_id) && (d.user_id =? user_id) && (d.status =? "sent")

unfoldable pub mark_delivered : String → SentRow → ℕ → Db → Db
unfolding is_sent update_where
mark_delivered user_id row delivered_at db = record db {
  message_deliveries =
      update_where (is_sent row.delivery.server_msg_id user_id)
        (λ d. record d { status = "delivered"; delivered_at_ms = some delivered_at })
        db.message_deliveries;
}

unfoldable pub delivery_body : String → SentRow → ℕ → Body
delivery_body user_id row delivered_at = Body.delivery_updated (record {
  event_id = "";
  conversation_id = row.delivery.conversation_id;
  message_id = row.delivery.server_msg_id;
  user_id = user_id;
  status = "delivered";
  sent_at_ms = row.delivery.sent_at_ms;
  delivered_at_ms = delivered_at;
})

-- One round of the loop over the rows.
unfoldable pub confirm_row : Env → String → ℕ → SentRow → Db → List StoredSyncEvent × Db
unfolding mark_delivered delivery_body append_sync_events
confirm_row env user_id now_ms row db =
    let delivered_at = max now_ms row.delivery.sent_at_ms in
    append_sync_events env row.delivery.conversation_id "delivery_updated"
      (delivery_body user_id row delivered_at) now_ms (row.sender_id ∷ user_id ∷ [])
      (mark_delivered user_id row delivered_at db)

unfoldable pub confirm_rows : Env → String → ℕ → List SentRow → Db → List StoredSyncEvent × Db
unfolding confirm_row
confirm_rows env user_id now_ms [] db = ([], db)
confirm_rows env user_id now_ms (row ∷ rows) db =
    let (events, db₁) = confirm_row env user_id now_ms row db in
    let (more, db₂) = confirm_rows env user_id now_ms rows db₁ in (events ++ more, db₂)

unfoldable pub set_applied : String → String → ℕ → ℕ → Db → Db
unfolding upsert_applied
set_applied user_id device_id cursor now_ms db = record db {
  sync_applied_cursors =
      upsert_applied
        (record {
          user_id = user_id;
          device_id = device_id;
          global_cursor = cursor;
          updated_at_ms = now_ms;
        })
        db.sync_applied_cursors;
}

-- The body of `if cursor > old_cursor`.
unfoldable pub move_cursor : Env → String → String → ℕ → ℕ → ℕ → Db → List StoredSyncEvent × Db
unfolding sent_rows confirm_rows set_applied
move_cursor env user_id device_id old_cursor cursor now_ms db =
    let (events, db₁) =
      confirm_rows env user_id now_ms (sent_rows user_id old_cursor cursor db) db in
    (events, set_applied user_id device_id cursor now_ms db₁)

-- A cursor is unsigned on the wire, so `cursor < 0` never holds. `str` writes a number in decimal;
-- `reject_ms` is the clock reading of `reject`.
unfoldable pub confirm_applied :
    Env → (ℕ → String) → ℕ → ℕ → String → String → String → ℕ → Db → ControlWriteResult × Db
unfolding reject max_seq applied_cursor move_cursor
confirm_applied env str reject_ms now_ms user_id device_id request_id cursor db =
    if device_id =? ""
    then (reject request_id 400 "confirmation requires device and nonnegative cursor" reject_ms, db)
    else if ltb (max_seq user_id db.sync_events) cursor
    then (reject request_id 400 "confirmation exceeds user sync stream" reject_ms, db)
    else let old_cursor = applied_cursor user_id device_id db.sync_applied_cursors in
      let (events, db') =
        (if ltb old_cursor cursor
          then move_cursor env user_id device_id old_cursor cursor now_ms db
          else ([], db)) in
      (
        record {
          ack = record {
            request_id = request_id;
            success = true;
            code = 0;
            message = "";
            entity_id = str cursor;
            server_time_ms = now_ms;
          };
          sync_events = events;
        },
        db',
      )
