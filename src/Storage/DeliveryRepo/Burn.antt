-- ===== src/Storage/DeliveryRepo/Burn.antt =====
-- server/storage/repo/delivery_repo.py: messages that burn after reading.
use mini_im.Prelude.{
  ℕ, suc, ◌+◌, String, Bool, true, false, ◌&&◌, ◌||◌, not, Option, none, some, List, [], ◌∷◌, ◌++◌,
  max, min, if◌then◌else◌, ◌=?◌, ◌==◌, ltb, leb, filter, any, take, update_where,
}
use mini_im.Protocol.{Body}
use mini_im.Storage.Db.{Db, Env, MessageRow, DeliveryRow}
use mini_im.Storage.Sql.{text_lt, order_by, is_some}
use mini_im.Storage.SyncEvent.{StoredSyncEvent, add_key, append_sync_events}
use mini_im.Storage.SyncEvent.Redact.{purged_message_content, redact_message_events}
use mini_im.Storage.MessageRepo.{burn_mode_after_read}

-- `max(1, min(int(limit), 500))`
unfoldable pub safe_limit : ℕ → ℕ
safe_limit limit = max 1 (min limit 500)

-- `burn_at_ms IS NOT NULL AND burn_at_ms <= ?`
abbrev pub due : Option ℕ → ℕ → Bool
due none now_ms = false
due (some t) now_ms = leb t now_ms

-- `WHERE server_msg_id = ? AND user_id = ? AND burned_at_ms IS NULL AND …`
unfoldable pub may_burn_out : String → String → ℕ → DeliveryRow → Bool
may_burn_out message_id user_id now_ms d =
    (d.server_msg_id =? message_id)
    && (d.user_id =? user_id)
    && not (is_some d.burned_at_ms)
    && due d.burn_at_ms now_ms

-- One of the rows that the first `SELECT` gives.
pub record DueRow : Type 0 where
  pub server_msg_id : String
  pub user_id : String
  pub conversation_id : String
  pub burn_at_ms : ℕ

-- `ORDER BY d.burn_at_ms ASC, d.server_msg_id ASC, d.user_id ASC`
unfoldable pub due_before : DueRow → DueRow → Bool
due_before r s =
    ltb r.burn_at_ms s.burn_at_ms
    || (r.burn_at_ms == s.burn_at_ms
        && (text_lt r.server_msg_id s.server_msg_id
            || ((r.server_msg_id =? s.server_msg_id) && text_lt r.user_id s.user_id)))

-- The join of one delivery with the messages.
unfoldable pub due_rows_of : ℕ → DeliveryRow → List MessageRow → List DueRow
due_rows_of now_ms d [] = []
due_rows_of now_ms d (m ∷ rows) =
    let rest = due_rows_of now_ms d rows in
    elim d.burn_at_ms [
      | none ↦ rest
      | some t ↦
          if (m.server_msg_id =? d.server_msg_id)
            && not m.recalled
            && m.burn_mode == burn_mode_after_read
            && ltb 0 t
            && leb t now_ms
            && not (is_some d.burned_at_ms)
          then record {
            server_msg_id = d.server_msg_id;
            user_id = d.user_id;
            conversation_id = m.conversation_id;
            burn_at_ms = t;
          }
            ∷ rest
          else rest
    ]

unfoldable pub join_due : ℕ → List DeliveryRow → List MessageRow → List DueRow
unfolding due_rows_of
join_due now_ms [] messages = []
join_due now_ms (d ∷ deliveries) messages =
    due_rows_of now_ms d messages ++ join_due now_ms deliveries messages

unfoldable pub due_rows : ℕ → ℕ → Db → List DueRow
unfolding join_due order_by due_before
due_rows now_ms limit db =
    take limit (order_by due_before (join_due now_ms db.message_deliveries db.messages))

unfoldable pub burn_delivery : ℕ → DueRow → Db → Db
unfolding update_where may_burn_out
burn_delivery now_ms row db = record db {
  message_deliveries =
      update_where (may_burn_out row.server_msg_id row.user_id now_ms)
        (λ d. record d { burned_at_ms = some now_ms }) db.message_deliveries;
}

unfoldable pub system_recall : ℕ → DueRow → Body
system_recall now_ms row = Body.recall (record {
  event_id = "";
  conversation_id = row.conversation_id;
  message_id = row.server_msg_id;
  ts_ms = now_ms;
  operator_id = "system-burn";
})

-- One round of the loop over the due rows, if its `UPDATE` changes a row.
unfoldable pub burn_row : Env → ℕ → DueRow → Db → List StoredSyncEvent × Db
unfolding burn_delivery system_recall append_sync_events redact_message_events
burn_row env now_ms row db =
    let (events, db') =
      append_sync_events env row.conversation_id "recall" (system_recall now_ms row) now_ms
        (row.user_id ∷ []) (burn_delivery now_ms row db) in
    (events, redact_message_events env row.server_msg_id (some row.user_id) db')

-- The loop: the events, and the messages that it affected.
unfoldable pub burn_rows :
    Env → ℕ → List DueRow → List String → Db → (List StoredSyncEvent × List String) × Db
unfolding any may_burn_out burn_row add_key
burn_rows env now_ms [] affected db = (([], affected), db)
burn_rows env now_ms (row ∷ rows) affected db =
    let hit = any (may_burn_out row.server_msg_id row.user_id now_ms) db.message_deliveries in
    let (events, db₁) = if hit then burn_row env now_ms row db else ([], db) in
    let affected₁ = if hit then add_key affected row.server_msg_id else affected in
    let ((more, affected₂), db₂) = burn_rows env now_ms rows affected₁ db₁ in
    ((events ++ more, affected₂), db₂)

-- `NOT EXISTS(SELECT 1 FROM message_deliveries WHERE server_msg_id = ? AND burned_at_ms IS NULL)`
unfoldable pub all_burned : String → List DeliveryRow → Bool
unfolding any
all_burned message_id deliveries =
    not (any (λ d. (d.server_msg_id =? message_id) && not (is_some d.burned_at_ms)) deliveries)

unfoldable pub close_messages : List String → Db → Db
unfolding update_where all_burned
close_messages [] db = db
close_messages (message_id ∷ message_ids) db = close_messages message_ids (record db {
  messages =
      update_where
        (λ m.
          (m.server_msg_id =? message_id)
          && not m.recalled
          && all_burned message_id db.message_deliveries)
        (λ m. record m { recalled = true }) db.messages;
})

unfoldable pub collect_due_burn_sync_events : Env → Bool → ℕ → ℕ → Db → List StoredSyncEvent × Db
unfolding safe_limit due_rows burn_rows close_messages
collect_due_burn_sync_events env burn_enabled now_ms limit db =
    if not burn_enabled
    then ([], db)
    else let ((events, affected), db') =
        burn_rows env now_ms (due_rows now_ms (safe_limit limit) db) [] db in
      (events, close_messages affected db')

unfoldable pub may_purge : List DeliveryRow → MessageRow → Bool
unfolding all_burned
may_purge deliveries m =
    m.burn_mode == burn_mode_after_read
    && m.recalled
    && m.content_purged_at_ms == 0
    && all_burned m.server_msg_id deliveries

-- `ORDER BY m.created_at_ms ASC, m.server_msg_id ASC`
unfoldable pub created_before : MessageRow → MessageRow → Bool
created_before m n =
    ltb m.created_at_ms n.created_at_ms
    || (m.created_at_ms == n.created_at_ms && text_lt m.server_msg_id n.server_msg_id)

-- The clock is read once for each row; `clock` gives the readings by number.
unfoldable pub purge_rows : Env → (ℕ → ℕ) → ℕ → List MessageRow → Db → ℕ × Db
unfolding update_where any purged_message_content redact_message_events
purge_rows env clock i [] db = (0, db)
purge_rows env clock i (row ∷ rows) db =
    let unpurged =
      λ (m : MessageRow). (m.server_msg_id =? row.server_msg_id) && m.content_purged_at_ms == 0 in
    let affected = if any unpurged db.messages then 1 else 0 in
    let db₁ = redact_message_events env row.server_msg_id none (record db {
      messages =
          update_where unpurged
            (λ m. record m {
              content = purged_message_content env row.type row.content;
              content_purged_at_ms = clock i;
            })
            db.messages;
    }) in
    let (purged, db₂) = purge_rows env clock (suc i) rows db₁ in (affected + purged, db₂)

unfoldable pub purge_burned_message_content : Env → Bool → (ℕ → ℕ) → ℕ → Db → ℕ × Db
unfolding safe_limit may_purge created_before order_by filter purge_rows
purge_burned_message_content env burn_enabled clock limit db =
    if not burn_enabled
    then (0, db)
    else let rows =
        take (safe_limit limit)
          (order_by created_before (filter (may_purge db.message_deliveries) db.messages)) in
      purge_rows env clock 0 rows db
