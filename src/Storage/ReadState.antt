-- ===== src/Storage/ReadState.antt =====
-- server/storage/repo/read_state.py: display counts rebuilt from deliveries, preserved read positions.
pub mod Frame
use mini_im.Prelude.{
  ℕ, ◌-◌, String, Bool, ◌&&◌, ◌||◌, not, List, [], ◌∷◌, ◌++◌, map, max, if◌then◌else◌, ◌=?◌, ltb,
  leb, length, filter,
}
use mini_im.Protocol.{Body}
use mini_im.Storage.Db.{Db, Env, MessageRow, DeliveryRow, CounterRow, ReadHistoryRow}
use mini_im.Storage.Sql.{text_lt, order_by, is_some}
use mini_im.Storage.SyncEvent.{StoredSyncEvent, append_sync_events}

-- `ON d.server_msg_id=m.server_msg_id AND d.user_id<>m.sender_id`
unfoldable pub recipients : MessageRow → List DeliveryRow → List DeliveryRow
unfolding filter
recipients m = filter λ d. (d.server_msg_id =? m.server_msg_id) && not (d.user_id =? m.sender_id)

unfoldable pub readers : MessageRow → List DeliveryRow → List DeliveryRow
unfolding recipients
readers m deliveries = filter (λ d. is_some d.read_at_ms) (recipients m deliveries)

-- The row that the `SELECT` of `RebuildReadCounters` gives for one message.
unfoldable pub counted : List DeliveryRow → ℕ → MessageRow → CounterRow
unfolding readers
counted deliveries now_ms m =
    let total = length (recipients m deliveries) in
    let read = length (readers m deliveries) in
    record {
      server_msg_id = m.server_msg_id;
      conversation_id = m.conversation_id;
      conversation_seq = m.conversation_seq;
      member_count = total;
      read_count = read;
      unread_count = total - read;
      updated_at_ms = now_ms;
    }

-- `INSERT … ON CONFLICT(server_msg_id) DO UPDATE SET …`
unfoldable pub upsert_counter : CounterRow → List CounterRow → List CounterRow
upsert_counter c [] = c ∷ []
upsert_counter c (r ∷ rows) =
    if r.server_msg_id =? c.server_msg_id
    then record r {
      member_count = c.member_count;
      read_count = c.read_count;
      unread_count = c.unread_count;
      updated_at_ms = c.updated_at_ms;
    }
      ∷ rows
    else r ∷ upsert_counter c rows

unfoldable pub upsert_counters : List CounterRow → List CounterRow → List CounterRow
unfolding upsert_counter
upsert_counters [] rows = rows
upsert_counters (c ∷ cs) rows = upsert_counters cs (upsert_counter c rows)

-- `WHERE (?='' OR m.conversation_id=?) AND m.conversation_seq>? AND m.conversation_seq<=?`
unfoldable pub in_range : String → ℕ → ℕ → MessageRow → Bool
in_range conversation_id after_seq through_seq m =
    ((conversation_id =? "") || (m.conversation_id =? conversation_id))
    && ltb after_seq m.conversation_seq
    && leb m.conversation_seq through_seq

unfoldable pub rebuild_read_counters : ℕ → String → ℕ → ℕ → Db → Db
unfolding counted upsert_counters in_range
rebuild_read_counters now_ms conversation_id after_seq through_seq db = record db {
  message_read_counters =
      upsert_counters
        (map (counted db.message_deliveries now_ms)
          (filter (in_range conversation_id after_seq through_seq) db.messages))
        db.message_read_counters;
}

-- `INSERT … ON CONFLICT(conversation_id,user_id) DO UPDATE SET last_read_seq=MAX(…)`
unfoldable pub upsert_history : ReadHistoryRow → List ReadHistoryRow → List ReadHistoryRow
upsert_history h [] = h ∷ []
upsert_history h (r ∷ rows) =
    if (r.conversation_id =? h.conversation_id) && (r.user_id =? h.user_id)
    then record r {
      last_read_seq = max r.last_read_seq h.last_read_seq;
      updated_at_ms = h.updated_at_ms;
    }
      ∷ rows
    else r ∷ upsert_history h rows

unfoldable pub preserve_read_position : String → String → ℕ → ℕ → Db → Db
unfolding upsert_history
preserve_read_position conversation_id user_id last_read_seq now_ms db = record db {
  conversation_read_history =
      upsert_history
        (record {
          conversation_id = conversation_id;
          user_id = user_id;
          last_read_seq = last_read_seq;
          updated_at_ms = now_ms;
        })
        db.conversation_read_history;
}

-- `SELECT user_id FROM message_deliveries WHERE server_msg_id=? ORDER BY user_id`
unfoldable pub delivery_users : String → Db → List String
unfolding order_by filter
delivery_users server_msg_id db =
    map (λ d. d.user_id)
      (order_by (λ d e. text_lt d.user_id e.user_id)
        (filter (λ d. d.server_msg_id =? server_msg_id) db.message_deliveries))

unfoldable pub read_count_body : CounterRow → Body
read_count_body row = Body.read_count_updated (record {
  event_id = "";
  conversation_id = row.conversation_id;
  message_id = row.server_msg_id;
  unread_count = row.unread_count;
})

-- One round of the loop of `AppendReadCounts`.
unfoldable pub append_read_count : Env → CounterRow → ℕ → Db → List StoredSyncEvent × Db
unfolding read_count_body delivery_users append_sync_events
append_read_count env row now_ms db =
    append_sync_events env row.conversation_id "read_count_updated" (read_count_body row) now_ms
      (delivery_users row.server_msg_id db) db

unfoldable pub append_read_counts : Env → List CounterRow → ℕ → Db → List StoredSyncEvent × Db
unfolding append_read_count
append_read_counts env [] now_ms db = ([], db)
append_read_counts env (row ∷ rows) now_ms db =
    let (events, db') = append_read_count env row now_ms db in
    let (more, db'') = append_read_counts env rows now_ms db' in (events ++ more, db'')
