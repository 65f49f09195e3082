-- ===== src/Storage/Db.antt =====
-- server/storage/sqlite/schema.sql: the tables that the repositories read and write. A table is
-- the list of its rows, the latest insert first. A nullable column is an option.

use mini_im.Prelude.{ℕ, suc, String, Bool, List, [], Option}
use mini_im.Protocol.{Bytes, SendMessage, Ack, Body}

pub record UserRow : Type 0 where
  pub user_id : String
  pub nickname : String
  pub created_at_ms : ℕ

pub record ConversationRow : Type 0 where
  pub conversation_id : String
  pub type : ℕ
  pub title : String
  pub owner_id : String
  pub created_at_ms : ℕ

pub record CreateRequestRow : Type 0 where
  pub user_id : String
  pub client_conv_id : String
  pub conversation_id : String
  pub created_at_ms : ℕ

pub record MemberRow : Type 0 where
  pub conversation_id : String
  pub user_id : String
  pub role : String
  pub joined_at_ms : ℕ
  pub last_read_seq : ℕ

pub record MessageRow : Type 0 where
  pub server_msg_id : String
  pub conversation_id : String
  pub sender_id : String
  pub client_msg_id : String
  pub request_id : String
  pub conversation_seq : ℕ
  pub type : ℕ
  pub content : Bytes
  pub created_at_ms : ℕ
  pub recalled : Bool
  pub burn_mode : ℕ
  pub burn_ttl_sec : ℕ
  pub intent_fingerprint : Option Bytes
  pub content_purged_at_ms : ℕ

-- The columns `failed_at_ms` and `failure_reason` are NULL in every row that the server writes.
pub record DeliveryRow : Type 0 where
  pub server_msg_id : String
  pub user_id : String
  pub conversation_id : String
  pub seq : ℕ
  pub status : String
  pub sent_at_ms : ℕ
  pub delivered_at_ms : Option ℕ
  pub read_at_ms : Option ℕ
  pub burn_started_at_ms : Option ℕ
  pub burn_at_ms : Option ℕ
  pub burned_at_ms : Option ℕ

pub record CounterRow : Type 0 where
  pub server_msg_id : String
  pub conversation_id : String
  pub conversation_seq : ℕ
  pub member_count : ℕ
  pub read_count : ℕ
  pub unread_count : ℕ
  pub updated_at_ms : ℕ

pub record SyncEventRow : Type 0 where
  pub event_id : String
  pub user_id : String
  pub seq : ℕ
  pub conversation_id : String
  pub event_type : String
  pub entity_id : String
  pub payload : Body
  pub created_at_ms : ℕ

pub record SyncCursorRow : Type 0 where
  pub user_id : String
  pub conversation_id : String
  pub last_seq : ℕ
  pub updated_at_ms : ℕ

pub record AppliedCursorRow : Type 0 where
  pub user_id : String
  pub device_id : String
  pub global_cursor : ℕ
  pub updated_at_ms : ℕ

pub record ReadHistoryRow : Type 0 where
  pub conversation_id : String
  pub user_id : String
  pub last_read_seq : ℕ
  pub updated_at_ms : ℕ

pub record ControlResultRow : Type 0 where
  pub user_id : String
  pub request_id : String
  pub operation : String
  pub fingerprint : Bytes
  pub ack : Ack
  pub created_at_ms : ℕ

-- The fingerprint of each accepted `FileInit`; empty where a request of an old version is unknown.
pub record FileInitRow : Type 0 where
  pub user_id : String
  pub request_id : String
  pub fingerprint : Bytes

pub record FileTransferRow : Type 0 where
  pub file_id : String
  pub conversation_id : String
  pub owner_id : String
  pub client_file_id : String
  pub request_id : String
  pub file_name : String
  pub file_size : ℕ
  pub sha256 : String
  pub storage_path : String
  pub direction : ℕ
  pub source_file_id : String
  pub priority : ℕ
  pub received_bytes : ℕ
  pub version : ℕ
  pub status : String
  pub created_at_ms : ℕ
  pub updated_at_ms : ℕ

pub record FileCancellationRow : Type 0 where
  pub owner_id : String
  pub client_file_id : String
  pub file_id : String
  pub created_at_ms : ℕ

pub record Db : Type 0 where
  pub users : List UserRow
  pub conversations : List ConversationRow
  pub conversation_create_requests : List CreateRequestRow
  pub conversation_members : List MemberRow
  pub messages : List MessageRow
  pub message_deliveries : List DeliveryRow
  pub message_read_counters : List CounterRow
  pub sync_events : List SyncEventRow
  pub sync_cursors : List SyncCursorRow
  pub sync_applied_cursors : List AppliedCursorRow
  pub conversation_read_history : List ReadHistoryRow
  pub control_write_results : List ControlResultRow
  pub file_init_requests : List FileInitRow
  pub file_transfers : List FileTransferRow
  pub file_cancellations : List FileCancellationRow
  -- How many identifiers have been drawn from the random source; not a table.
  pub issued : ℕ

-- What the server calls and does not implement: the identifiers that `uuid.uuid4()` returns in
-- turn, SHA-256, the deterministic protobuf encoding of a `SendMessage`, and JSON: the stripped
-- `fileId` of the object that some bytes encode (empty if they encode none), and the encoding of
-- a reference to a file.
pub record Env : Type 0 where
  pub uuid : ℕ → String
  pub sha256 : Bytes → Bytes
  pub serialize : SendMessage → Bytes
  pub file_id_of : Bytes → String
  pub file_reference : String → Bytes

-- `str(uuid.uuid4())`
unfoldable pub uuid4 : Env → Db → String × Db
uuid4 env db = (env.uuid db.issued, record db { issued = suc db.issued })

abbrev pub empty : Db
empty = record {
  users = [];
  conversations = [];
  conversation_create_requests = [];
  conversation_members = [];
  messages = [];
  message_deliveries = [];
  message_read_counters = [];
  sync_events = [];
  sync_cursors = [];
  sync_applied_cursors = [];
  conversation_read_history = [];
  control_write_results = [];
  file_init_requests = [];
  file_transfers = [];
  file_cancellations = [];
  issued = 0;
}
