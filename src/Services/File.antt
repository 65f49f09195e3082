-- ===== src/Services/File.antt =====
-- server/services/file/service.py: what its handlers share. The store of files is a function from
-- paths to contents; `none` is a path without a file.
pub mod Chunks
pub mod Init
pub mod Finish
pub mod Cancel
use mini_im.Prelude.{
  ℕ, ◌+◌, String, Bool, true, false, ◌&&◌, ◌||◌, not, Option, none, some, List, [], ◌∷◌, ◌++◌,
  if◌then◌else◌, ◌=?◌, ◌==◌, ltb, length,
}
use mini_im.Protocol.{Bytes, Ack, FileUpdated, FileInit, FileFinish, FileCancel}
use mini_im.Text.{strip}
use mini_im.Storage.Db.{Db}
use mini_im.Storage.SyncEvent.{StoredSyncEvent}
use mini_im.Storage.FileRepo.{StoredFileTransfer, get_transfer_by_file_id, file_updated_body}

abbrev pub Disk : Type 0
Disk = String → Option Bytes

unfoldable pub write_file : String → Bytes → Disk → Disk
write_file path content disk p = if p =? path then some content else disk p

-- The object that a file message holds.
pub record FileContent : Type 0 where
  pub kind : String
  pub file_id : String
  pub file_name : String
  pub file_size : ℕ
  pub sha256 : String
  pub version : ℕ

-- What the service calls and does not implement: the digests of hashlib in hexadecimal, the suffix
-- of a file name and the joining of paths of pathlib, JSON, and the deterministic encodings of
-- requests.
pub record FileTools : Type 0 where
  pub sha256_hex : Bytes → String
  pub sha1_hex : String → String
  pub suffix : String → String
  pub join : String → String → String
  pub dumps : FileContent → Bytes
  pub serialize_finish : FileFinish → Bytes
  pub serialize_cancel : FileCancel → Bytes

unfoldable pub build_file_message_content : FileTools → StoredFileTransfer → Bytes
build_file_message_content tools t = tools.dumps (record {
  kind = "file";
  file_id = t.file_id;
  file_name = t.file_name;
  file_size = t.file_size;
  sha256 = t.sha256;
  version = t.version;
})

pub record FileServiceResult : Type 0 where
  pub ack : Ack
  pub file_updated : Option FileUpdated
  pub sync_events : List StoredSyncEvent
  pub start_download : Bool
  pub download_file_id : String
  pub download_offset : ℕ
  pub cancelled_file_id : String

unfoldable pub answer : Ack → Option FileUpdated → List StoredSyncEvent → FileServiceResult
answer ack file_updated sync_events = record {
  ack = ack;
  file_updated = file_updated;
  sync_events = sync_events;
  start_download = false;
  download_file_id = "";
  download_offset = 0;
  cancelled_file_id = "";
}

unfoldable pub refuse : String → ℕ → String → ℕ → FileServiceResult
unfolding answer
refuse request_id code message now_ms =
    answer
      (record {
        request_id = request_id;
        success = false;
        code = code;
        message = message;
        entity_id = "";
        server_time_ms = now_ms;
      })
      none []

-- The last event of a transfer for the user.
unfoldable pub last_event : String → List StoredSyncEvent → Option StoredSyncEvent
last_event user_id [] = none
last_event user_id (e ∷ events) = elim (last_event user_id events) [
  | some later ↦ some later
  | none ↦ if (e.user_id =? user_id) && (e.event_type =? "file_updated") then some e else none
]

unfoldable pub file_updated_of : StoredFileTransfer → List StoredSyncEvent → String → FileUpdated
unfolding file_updated_body last_event
file_updated_of t events user_id = record (file_updated_body t) {
  event_id = elim (last_event user_id events) [ none ↦ "" | some e ↦ e.event_id ];
}

unfoldable pub get_transfer_for_upload : Db → String → String → Option StoredFileTransfer
unfolding get_transfer_by_file_id
get_transfer_for_upload db user_id file_id = elim (get_transfer_by_file_id db file_id) [
  | none ↦ none
  | some t ↦ if t.owner_id =? user_id then some t else none
]
