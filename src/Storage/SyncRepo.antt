-- ===== src/Storage/SyncRepo.antt =====
-- server/storage/repo/sync_repo.py: reading a user's stream of events. The confirmations of a
-- device are in the child `Applied`.
pub mod Applied
pub mod Confirm
pub mod Pages
use mini_im.Prelude.{
  ℕ, String, Bool, ◌&&◌, ◌||◌, Option, none, some, List, map, if◌then◌else◌, ◌=?◌, ltb, filter,
  take,
}
use mini_im.Protocol.{Body}
use mini_im.Storage.Db.{Db, SyncEventRow}
use mini_im.Storage.Sql.{order_by, sqlite_integer_max}

-- The source's `SyncEventRow`.
pub record LoadedEvent : Type 0 where
  pub event_id : String
  pub seq : ℕ
  pub event_type : String
  pub payload : Body

unfoldable pub loaded : SyncEventRow → LoadedEvent
loaded r = record {
  event_id = r.event_id;
  seq = r.seq;
  event_type = r.event_type;
  payload = r.payload;
}

-- `WHERE user_id = ? AND seq > ? {filter_clause}`
unfoldable pub is_selected : String → ℕ → String → SyncEventRow → Bool
is_selected user_id after_global_cursor conversation_id r =
    (r.user_id =? user_id)
    && ltb after_global_cursor r.seq
    && ((conversation_id =? "") || (r.conversation_id =? conversation_id))

unfoldable pub seq_before : SyncEventRow → SyncEventRow → Bool
seq_before r s = ltb r.seq s.seq

-- A cursor that does not fit the column type raises an `OverflowError`: none.
unfoldable pub load_events : String → ℕ → ℕ → String → Db → Option (List LoadedEvent)
unfolding loaded is_selected filter order_by seq_before
load_events user_id after_global_cursor limit conversation_id db =
    if ltb sqlite_integer_max after_global_cursor
    then none
    else some (
        map loaded (
          take limit (
            order_by seq_before
              (filter (is_selected user_id after_global_cursor conversation_id) db.sync_events))))
