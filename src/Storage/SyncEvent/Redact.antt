-- ===== src/Storage/SyncEvent/Redact.antt =====
-- server/storage/repo/sync_event.py: taking the content out of the events of a message.
use mini_im.Prelude.{
  ℕ, String, Bool, true, ◌&&◌, not, Option, none, some, [], ◌==◌, if◌then◌else◌, ◌=?◌, update_where,
}
use mini_im.Protocol.{Bytes, Body, msg_file}
use mini_im.Storage.Db.{Db, Env, SyncEventRow}

-- `PurgedMessageContent`: only a reference to a file stays.
unfoldable pub purged_message_content : Env → ℕ → Bytes → Bytes
purged_message_content env message_type content =
    let file_id = env.file_id_of content in
    if message_type == msg_file && not (file_id =? "") then env.file_reference file_id else []

-- The body of the loop of `RedactEventRows`; the payload of such a row is a `Message`.
unfoldable pub redact_body : Env → Body → Body
unfolding purged_message_content
redact_body env (Body.message m) =
    Body.message
      (record m { content = purged_message_content env m.type m.content; recalled = true })
redact_body env other = other

unfoldable pub redact_row : Env → SyncEventRow → SyncEventRow
unfolding redact_body
redact_row env r = record r { payload = redact_body env r.payload }

-- `event_type = 'message' AND entity_id = ?`, and `AND user_id = ?` where a user is given.
unfoldable pub is_event_of : String → Option String → SyncEventRow → Bool
is_event_of message_id user_id r =
    (r.event_type =? "message")
    && (r.entity_id =? message_id)
    && elim user_id [ none ↦ true | some u ↦ r.user_id =? u ]

unfoldable pub redact_message_events : Env → String → Option String → Db → Db
unfolding is_event_of redact_row
redact_message_events env message_id user_id db = record db {
  sync_events = update_where (is_event_of message_id user_id) (redact_row env) db.sync_events;
}
