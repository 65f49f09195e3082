-- ===== src/Protocol.antt =====
-- The application messages of proto/*.proto that the server builds and stores, as records with the
-- source's field names, without fields that it never sets. Integers are natural numbers, bytes are
-- lists of numbers.
use mini_im.Prelude.{ℕ, String, Bool, List}

abbrev pub Bytes : Type 0
Bytes = List ℕ

pub record SendMessage : Type 0 where
  pub conversation_id : String
  pub client_msg_id : String
  pub type : ℕ
  pub content : Bytes
  pub burn_mode : ℕ
  pub burn_ttl_sec : ℕ

pub record Message : Type 0 where
  pub message_id : String
  pub conversation_id : String
  pub sender_id : String
  pub client_msg_id : String
  pub seq : ℕ
  pub type : ℕ
  pub content : Bytes
  pub created_at_ms : ℕ
  pub recalled : Bool
  pub unread_count : ℕ
  pub burn_mode : ℕ
  pub burn_ttl_sec : ℕ

pub record Ack : Type 0 where
  pub request_id : String
  pub success : Bool
  pub code : ℕ
  pub message : String
  pub entity_id : String
  pub server_time_ms : ℕ

pub record Receipt : Type 0 where
  pub event_id : String
  pub conversation_id : String
  pub last_read_seq : ℕ
  pub read_at_ms : ℕ
  pub reader_id : String

pub record Recall : Type 0 where
  pub event_id : String
  pub conversation_id : String
  pub message_id : String
  pub ts_ms : ℕ
  pub operator_id : String

pub record ConversationUpdated : Type 0 where
  pub event_id : String
  pub conversation_id : String
  pub updated_at_ms : ℕ
  pub title : String
  pub type : ℕ
  pub owner_id : String
  pub member_ids : List String

pub record FileUpdated : Type 0 where
  pub event_id : String
  pub file_id : String
  pub conversation_id : String
  pub transferred_bytes : ℕ
  pub completed : Bool
  pub version : ℕ
  pub updated_at_ms : ℕ
  pub file_size : ℕ
  pub sha256 : String
  pub direction : ℕ
  pub status : String
  pub file_name : String

pub record ReadCountUpdated : Type 0 where
  pub event_id : String
  pub conversation_id : String
  pub message_id : String
  pub unread_count : ℕ

pub record DeliveryUpdated : Type 0 where
  pub event_id : String
  pub conversation_id : String
  pub message_id : String
  pub user_id : String
  pub status : String
  pub sent_at_ms : ℕ
  pub delivered_at_ms : ℕ

-- What the payload of a stored sync event encodes.
pub data Body : Type 0 where
  message : Message → Body
  recall : Recall → Body
  receipt : Receipt → Body
  conversation_updated : ConversationUpdated → Body
  file_updated : FileUpdated → Body
  read_count_updated : ReadCountUpdated → Body
  delivery_updated : DeliveryUpdated → Body

-- proto/common.proto
abbrev pub msg_unspecified : ℕ
msg_unspecified = 0

abbrev pub msg_text : ℕ
msg_text = 1

abbrev pub msg_file : ℕ
msg_file = 3

abbrev pub msg_system : ℕ
msg_system = 4

abbrev pub conversation_direct : ℕ
conversation_direct = 1

abbrev pub conversation_group : ℕ
conversation_group = 2

pub record FileInit : Type 0 where
  pub conversation_id : String
  pub client_file_id : String
  pub file_name : String
  pub file_size : ℕ
  pub sha256 : String
  pub direction : ℕ
  pub resume_offset : ℕ
  pub priority : ℕ
  pub source_file_id : String

pub record FileFinish : Type 0 where
  pub file_id : String
  pub success : Bool
  pub transferred_bytes : ℕ
  pub sha256 : String

pub record FileCancel : Type 0 where
  pub client_file_id : String
  pub file_id : String

abbrev pub file_direction_upload : ℕ
file_direction_upload = 1

abbrev pub file_direction_download : ℕ
file_direction_download = 2
