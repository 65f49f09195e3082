-- ===== src/Storage/DeliveryRepo.antt =====
-- server/storage/repo/delivery_repo.py: receipts and recalls. Burning is in the child `Burn`.
pub mod Burn
pub mod Receipts
pub mod Position
pub mod Hidden
pub mod Owners
pub mod Recalls
use mini_im.Prelude.{
  ℕ, ◌+◌, ◌*◌, String, Bool, true, false, ◌&&◌, not, Option, none, some, List, [], ◌∷◌, ◌++◌, map,
  max, min, if◌then◌else◌, ◌=?◌, ◌==◌, ltb, leb, filter, any, find?, update_where,
}
use mini_im.Protocol.{Receipt, Recall, Body}
use mini_im.Storage.Db.{Db, Env, MemberRow, MessageRow, DeliveryRow, CounterRow}
use mini_im.Storage.Sql.{coalesce, is_some}
use mini_im.Storage.SyncEvent.{StoredSyncEvent, append_sync_events}
use mini_im.Storage.SyncEvent.Redact.{redact_message_events}
use mini_im.Storage.ReadState.{rebuild_read_counters, append_read_counts}
use mini_im.Storage.MessageRepo.{max_conversation_seq, burn_mode_after_read}
use mini_im.Storage.ConversationRepo.{is_key, list_member_ids}

pub record ReceiptApplyResult : Type 0 where
  pub receipt : Receipt
  pub sync_events : List StoredSyncEvent
  pub updated : Bool

pub record RecallApplyResult : Type 0 where
  pub recall : Recall
  pub sync_events : List StoredSyncEvent
  pub updated : Bool

-- `user_id = ? AND conversation_id = ? AND seq > ? AND seq <= ?`
unfoldable pub in_read_range : String → String → ℕ → ℕ → DeliveryRow → Bool
in_read_range user_id conversation_id after through d =
    (d.user_id =? user_id)
    && (d.conversation_id =? conversation_id)
    && ltb after d.seq
    && leb d.seq through

-- The messages of other senders that the receipt reads for the first time.
unfoldable pub changed_messages : String → String → ℕ → ℕ → Db → List String
unfolding in_read_range filter any
changed_messages user_id conversation_id after through db =
    map (λ d. d.server_msg_id)
      (filter
        (λ d.
          in_read_range user_id conversation_id after through d
          && not (is_some d.read_at_ms)
          && any (λ m. (m.server_msg_id =? d.server_msg_id) && not (m.sender_id =? user_id))
              db.messages)
        db.message_deliveries)

-- `SET status = 'read', read_at_ms = COALESCE(…), delivered_at_ms = COALESCE(…)`
unfoldable pub mark_read : ℕ → DeliveryRow → DeliveryRow
mark_read now_ms d = record d {
  status = "read";
  read_at_ms = some (coalesce d.read_at_ms now_ms);
  delivered_at_ms = some (coalesce d.delivered_at_ms now_ms);
}

-- `SELECT m.burn_ttl_sec * 1000 FROM messages AS m WHERE m.server_msg_id = …`
unfoldable pub burn_ttl_ms : String → List MessageRow → ℕ
burn_ttl_ms message_id [] = 0
burn_ttl_ms message_id (m ∷ rows) =
    if m.server_msg_id =? message_id then m.burn_ttl_sec * 1000 else burn_ttl_ms message_id rows

unfoldable pub start_burn : ℕ → List MessageRow → DeliveryRow → DeliveryRow
unfolding burn_ttl_ms
start_burn now_ms messages d = record d {
  burn_started_at_ms = some (coalesce d.burn_started_at_ms now_ms);
  burn_at_ms = some (coalesce d.burn_at_ms (now_ms + burn_ttl_ms d.server_msg_id messages));
}

-- The `WHERE` clause of the statement that starts the countdown.
unfoldable pub may_burn : String → String → ℕ → ℕ → List MessageRow → DeliveryRow → Bool
unfolding in_read_range any
may_burn user_id conversation_id after through messages d =
    in_read_range user_id conversation_id after through d
    && not (is_some d.burned_at_ms)
    && not (is_some d.burn_started_at_ms)
    && any
        (λ m.
          (m.server_msg_id =? d.server_msg_id)
          && (m.conversation_id =? conversation_id)
          && ltb after m.conversation_seq
          && leb m.conversation_seq through
          && not (m.sender_id =? user_id)
          && m.burn_mode == burn_mode_after_read
          && ltb 0 m.burn_ttl_sec)
        messages

-- The updates of a receipt that moves the position: the member, the deliveries, the countdowns.
unfoldable pub read_through : Bool → ℕ → String → String → ℕ → ℕ → Db → Db
unfolding update_where is_key mark_read start_burn may_burn in_read_range
read_through burn_enabled now_ms user_id conversation_id after through db =
    let deliveries =
      update_where (in_read_range user_id conversation_id after through) (mark_read now_ms)
        db.message_deliveries in
    record db {
      conversation_members =
          update_where (is_key conversation_id user_id) (λ m. record m { last_read_seq = through })
            db.conversation_members;
      message_deliveries =
          if burn_enabled
          then update_where (may_burn user_id conversation_id after through db.messages)
              (start_burn now_ms db.messages) deliveries
          else deliveries;
    }

unfoldable pub find_counter : String → List CounterRow → List CounterRow
find_counter message_id [] = []
find_counter message_id (c ∷ rows) =
    if c.server_msg_id =? message_id then c ∷ [] else find_counter message_id rows

-- The loop over `changed_messages`. `RebuildReadCounters` has written the counter of each.
unfoldable pub announce_counts : Env → ℕ → List String → Db → List StoredSyncEvent × Db
unfolding find_counter append_read_counts
announce_counts env now_ms [] db = ([], db)
announce_counts env now_ms (message_id ∷ message_ids) db =
    let (events, db') =
      append_read_counts env (find_counter message_id db.message_read_counters) now_ms db in
    let (more, db'') = announce_counts env now_ms message_ids db' in (events ++ more, db'')

unfoldable pub receipt_of : String → String → ℕ → ℕ → Receipt
receipt_of user_id conversation_id last_read_seq now_ms = record {
  event_id = "";
  conversation_id = conversation_id;
  last_read_seq = last_read_seq;
  read_at_ms = now_ms;
  reader_id = user_id;
}

-- `max(old_last_read_seq, min(int(last_read_seq), max_seq))`
unfoldable pub clamp_position : ℕ → ℕ → ℕ → ℕ
clamp_position old last_read_seq max_seq = max old (min last_read_seq max_seq)

-- The tables after a receipt that moves the position, before its events.
unfoldable pub advance : Bool → ℕ → String → String → ℕ → ℕ → Db → Db
unfolding read_through rebuild_read_counters
advance burn_enabled now_ms user_id conversation_id old new db =
    rebuild_read_counters now_ms conversation_id old new
      (read_through burn_enabled now_ms user_id conversation_id old new db)

unfoldable pub announce_receipt : Env → Receipt → ℕ → Db → List StoredSyncEvent × Db
unfolding list_member_ids append_sync_events
announce_receipt env receipt now_ms db =
    append_sync_events env receipt.conversation_id "receipt" (Body.receipt receipt) now_ms
      (list_member_ids db receipt.conversation_id) db

unfoldable pub move_position :
    Env → Bool → ℕ → String → String → ℕ → ℕ → Db → ReceiptApplyResult × Db
unfolding changed_messages advance announce_receipt announce_counts receipt_of
move_position env burn_enabled now_ms user_id conversation_id old new db =
    let receipt = receipt_of user_id conversation_id new now_ms in
    let changed = changed_messages user_id conversation_id old new db in
    let (events, db₁) =
      announce_receipt env receipt now_ms
        (advance burn_enabled now_ms user_id conversation_id old new db) in
    let (counts, db₂) = announce_counts env now_ms changed db₁ in
    (record { receipt = receipt; sync_events = events ++ counts; updated = true }, db₂)

unfoldable pub apply_receipt :
    Env → Bool → ℕ → String → String → ℕ → Db → Option ReceiptApplyResult × Db
unfolding find? is_key max_conversation_seq clamp_position receipt_of move_position
apply_receipt env burn_enabled now_ms user_id conversation_id last_read_seq db =
    elim (find? (is_key conversation_id user_id) db.conversation_members) [
      | none ↦ (none, db)
      | some member ↦
          let old = member.last_read_seq in
          let new =
            clamp_position old last_read_seq (max_conversation_seq conversation_id db.messages) in
          if leb new old
          then (
            some (record {
              receipt = receipt_of user_id conversation_id new now_ms;
              sync_events = [];
              updated = false;
            }),
            db,
          )
          else let (result, db') =
              move_position env burn_enabled now_ms user_id conversation_id old new db in
            (some result, db')
    ]

-- `SET burned_at_ms = COALESCE(burned_at_ms, ?)`
unfoldable pub burn_now : ℕ → DeliveryRow → DeliveryRow
burn_now now_ms d = record d { burned_at_ms = some (coalesce d.burned_at_ms now_ms) }

unfoldable pub recall_of : String → String → String → ℕ → Recall
recall_of user_id conversation_id message_id now_ms = record {
  event_id = "";
  conversation_id = conversation_id;
  message_id = message_id;
  ts_ms = now_ms;
  operator_id = user_id;
}

unfoldable pub is_message : String → String → MessageRow → Bool
is_message conversation_id message_id m =
    (m.server_msg_id =? message_id) && (m.conversation_id =? conversation_id)

-- The updates of a recall, before its events.
unfoldable pub recall_rows : Env → ℕ → String → String → Db → Db
unfolding update_where is_message burn_now redact_message_events
recall_rows env now_ms conversation_id message_id db =
    redact_message_events env message_id none (record db {
      messages =
          update_where (is_message conversation_id message_id) (λ m. record m { recalled = true })
            db.messages;
      message_deliveries =
          update_where (λ d. d.server_msg_id =? message_id) (burn_now now_ms) db.message_deliveries;
    })

unfoldable pub apply_recall :
    Env → ℕ → String → String → String → Db → Option RecallApplyResult × Db
unfolding find? is_message recall_of recall_rows list_member_ids append_sync_events
apply_recall env now_ms user_id conversation_id message_id db =
    elim (find? (is_message conversation_id message_id) db.messages) [
      | none ↦ (none, db)
      | some row ↦
          if not (row.sender_id =? user_id)
          then (none, db)
          else let recall = recall_of user_id conversation_id message_id now_ms in
            if row.recalled
            then (some (record { recall = recall; sync_events = []; updated = false }), db)
            else let (events, db') =
                append_sync_events env conversation_id "recall" (Body.recall recall) now_ms
                  (list_member_ids db conversation_id)
                  (recall_rows env now_ms conversation_id message_id db) in
              (some (record { recall = recall; sync_events = events; updated = true }), db')
    ]
