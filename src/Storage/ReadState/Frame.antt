-- ===== src/Storage/ReadState/Frame.antt =====
-- server/storage/repo/read_state.py: announcing read counts changes no table but the events.
use mini_im.Prelude.{ℕ, List, [], ◌∷◌}
use mini_im.Storage.Db.{Db, Env, CounterRow}
use mini_im.Storage.SyncEvent.Frame.{
  OnlyEvents, OnlyEvents-refl, OnlyEvents-trans, append_sync_events-OnlyEvents,
}
use mini_im.Storage.SyncEvent.Numbering.{Numbered, append_sync_events-Numbered}
use mini_im.Storage.ReadState.{
  read_count_body, delivery_users, append_read_count, append_read_counts,
}

module _ (env : Env) (row : CounterRow) (now_ms : ℕ) (db : Db) where
  append_read_count-OnlyEvents : OnlyEvents db (append_read_count env row now_ms db).1
  unfolding append_read_count
  append_read_count-OnlyEvents =
      append_sync_events-OnlyEvents env row.conversation_id "read_count_updated"
        (read_count_body row) now_ms (delivery_users row.server_msg_id db) db

  append_read_count-Numbered :
      Numbered db.sync_events → Numbered (append_read_count env row now_ms db).1.sync_events
  unfolding append_read_count
  append_read_count-Numbered h =
      append_sync_events-Numbered env row.conversation_id "read_count_updated" (read_count_body row)
        now_ms (delivery_users row.server_msg_id db) db h

pub append_read_counts-OnlyEvents :
    (env : Env) (rows : List CounterRow) (now_ms : ℕ) (db : Db)
    → OnlyEvents db (append_read_counts env rows now_ms db).1
unfolding append_read_counts
append_read_counts-OnlyEvents env [] now_ms db = OnlyEvents-refl db
append_read_counts-OnlyEvents env (row ∷ rows) now_ms db =
    OnlyEvents-trans (append_read_count-OnlyEvents env row now_ms db)
      (append_read_counts-OnlyEvents env rows now_ms (append_read_count env row now_ms db).1)

pub append_read_counts-Numbered :
    (env : Env) (rows : List CounterRow) (now_ms : ℕ) (db : Db)
    → Numbered db.sync_events
    → Numbered (append_read_counts env rows now_ms db).1.sync_events
unfolding append_read_counts
append_read_counts-Numbered env [] now_ms db h = h
append_read_counts-Numbered env (row ∷ rows) now_ms db h =
    append_read_counts-Numbered env rows now_ms (append_read_count env row now_ms db).1
      (append_read_count-Numbered env row now_ms db h)
