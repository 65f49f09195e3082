-- ===== src/Storage/SyncEvent.antt =====
-- server/storage/repo/sync_event.py: the per-user stream of sync events.
pub mod Keys
pub mod Frame
pub mod Numbering
pub mod Redact
pub mod Scrub
use mini_im.Prelude.{
  ℕ, suc, ◌+◌, ◌≤◌, String, Bool, true, false, ◌||◌, List, [], ◌∷◌, ◌++◌, max, if◌then◌else◌, ◌=?◌,
}
use mini_im.Protocol.{Body, Message}
use mini_im.Storage.Db.{Db, Env, SyncEventRow, uuid4}

pub record StoredSyncEvent : Type 0 where
  pub user_id : String
  pub global_seq : ℕ
  pub event_id : String
  pub event_type : String
  pub payload : Body

-- `item in keys`
unfoldable pub contains : String → List String → Bool
contains item [] = false
contains item (k ∷ keys) = (k =? item) || contains item keys

-- Appending to a list of keys what is not in it yet: an insertion into a dict or one round of the
-- loops that remove duplicates.
unfoldable pub add_key : List String → String → List String
add_key keys item = if contains item keys then keys else keys ++ item ∷ []

unfoldable pub add_keys : List String → List String → List String
add_keys keys [] = keys
add_keys keys (item ∷ items) = add_keys (add_key keys item) items

-- `dict.fromkeys(items)`, iterated.
unfoldable pub from_keys : List String → List String
unfolding add_keys add_key contains
from_keys items = add_keys [] items

-- `SELECT COALESCE(MAX(seq), 0) FROM sync_events WHERE user_id = ?`
unfoldable pub max_seq : String → List SyncEventRow → ℕ
max_seq user_id [] = 0
max_seq user_id (r ∷ rows) =
    if r.user_id =? user_id then max r.seq (max_seq user_id rows) else max_seq user_id rows

-- `if "event_id" in user_body.DESCRIPTOR.fields_by_name: user_body.event_id = event_id`
unfoldable pub with_event_id : String → Body → Body
with_event_id event_id (Body.message m) = Body.message m
with_event_id event_id (Body.recall r) = Body.recall (record r { event_id = event_id })
with_event_id event_id (Body.receipt r) = Body.receipt (record r { event_id = event_id })
with_event_id event_id (Body.conversation_updated c) =
    Body.conversation_updated (record c { event_id = event_id })
with_event_id event_id (Body.file_updated f) = Body.file_updated (record f { event_id = event_id })
with_event_id event_id (Body.read_count_updated r) =
    Body.read_count_updated (record r { event_id = event_id })
with_event_id event_id (Body.delivery_updated d) =
    Body.delivery_updated (record d { event_id = event_id })

-- `user_body.message_id`; only asked of a `Message`.
unfoldable pub message_id_of : Body → String
message_id_of (Body.message m) = m.message_id
message_id_of _ = ""

module _ (env : Env) (conversation_id event_type : String) (body : Body) (now_ms : ℕ) where
  -- One round of the loop of `AppendSyncEvents`.
  unfoldable pub append_event : String → Db → StoredSyncEvent × Db
  unfolding uuid4 max_seq with_event_id message_id_of
  append_event user_id db =
      let (event_id, db') = uuid4 env db in
      let global_seq = max_seq user_id db'.sync_events + 1 in
      let payload = with_event_id event_id body in
      let entity_id = if event_type =? "message" then message_id_of payload else "" in
      let row : SyncEventRow = record {
        event_id = event_id;
        user_id = user_id;
        seq = global_seq;
        conversation_id = conversation_id;
        event_type = event_type;
        entity_id = entity_id;
        payload = payload;
        created_at_ms = now_ms;
      } in
      (
        record {
          user_id = user_id;
          global_seq = global_seq;
          event_id = event_id;
          event_type = event_type;
          payload = payload;
        },
        record db' { sync_events = row ∷ db'.sync_events },
      )

  unfoldable pub append_events : List String → Db → List StoredSyncEvent × Db
  unfolding append_event
  append_events [] db = ([], db)
  append_events (user_id ∷ user_ids) db =
      let (event, db') = append_event user_id db in
      let (events, db'') = append_events user_ids db' in (event ∷ events, db'')

  unfoldable pub append_sync_events : List String → Db → List StoredSyncEvent × Db
  unfolding append_events from_keys
  append_sync_events user_ids db = append_events (from_keys user_ids) db
