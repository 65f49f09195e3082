-- ===== src/Storage/SyncEvent/Frame.antt =====
-- server/storage/repo/sync_event.py: what `AppendSyncEvents` leaves alone.
use mini_im.Prelude.{ℕ, String, ◌≡◌, List, [], ◌∷◌, arith}
use mini_im.Protocol.{Body}
use mini_im.Storage.Db.{Db, Env}
use mini_im.Storage.SyncEvent.{append_event, append_events, append_sync_events, from_keys}

-- Two states agree on all tables but `sync_events`.
pub record OnlyEvents (db db' : Db) : Type 0 where
  pub users : db'.users ≡ db.users
  pub conversations : db'.conversations ≡ db.conversations
  pub requests : db'.conversation_create_requests ≡ db.conversation_create_requests
  pub members : db'.conversation_members ≡ db.conversation_members
  pub messages : db'.messages ≡ db.messages
  pub deliveries : db'.message_deliveries ≡ db.message_deliveries
  pub counters : db'.message_read_counters ≡ db.message_read_counters
  pub cursors : db'.sync_cursors ≡ db.sync_cursors
  pub applied : db'.sync_applied_cursors ≡ db.sync_applied_cursors
  pub history : db'.conversation_read_history ≡ db.conversation_read_history
  pub results : db'.control_write_results ≡ db.control_write_results
  pub inits : db'.file_init_requests ≡ db.file_init_requests
  pub transfers : db'.file_transfers ≡ db.file_transfers
  pub cancellations : db'.file_cancellations ≡ db.file_cancellations

pub OnlyEvents-refl : (db : Db) → OnlyEvents db db
OnlyEvents-refl db = ground arith

pub OnlyEvents-trans : {a b c : Db} → OnlyEvents a b → OnlyEvents b c → OnlyEvents a c
OnlyEvents-trans h k = ground arith

module _ (env : Env) (conversation_id event_type : String) (body : Body) (now_ms : ℕ) where
  append_event-OnlyEvents :
      (user_id : String) (db : Db)
      → OnlyEvents db (append_event env conversation_id event_type body now_ms user_id db).1
  unfolding append_event
  append_event-OnlyEvents user_id db = ground arith

  append_events-OnlyEvents :
      (user_ids : List String) (db : Db)
      → OnlyEvents db (append_events env conversation_id event_type body now_ms user_ids db).1
  unfolding append_events
  append_events-OnlyEvents [] db = OnlyEvents-refl db
  append_events-OnlyEvents (u ∷ us) db =
      OnlyEvents-trans (append_event-OnlyEvents u db) (append_events-OnlyEvents us _)

  pub append_sync_events-OnlyEvents :
      (user_ids : List String) (db : Db)
      → OnlyEvents db (append_sync_events env conversation_id event_type body now_ms user_ids db).1
  unfolding append_sync_events
  append_sync_events-OnlyEvents user_ids db = append_events-OnlyEvents (from_keys user_ids) db
