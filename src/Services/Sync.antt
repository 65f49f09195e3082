-- ===== src/Services/Sync.antt =====
-- server/services/sync/service.py: pages of a user's stream, and the confirmations of a device.
pub mod Pages
use mini_im.Prelude.{
  ℕ, ◌+◌, String, Bool, true, false, ◌||◌, Option, none, some, List, [], ◌∷◌, map, max, min,
  if◌then◌else◌, ◌=?◌, ltb, length, take,
}
use mini_im.Protocol.{Bytes, Body}
use mini_im.Storage.Db.{Db, Env}
use mini_im.Storage.ControlWrite.{ControlWriteResult, Apply, execute}
use mini_im.Storage.SyncRepo.{LoadedEvent, load_events}
use mini_im.Storage.SyncRepo.Applied.{confirm_applied}

-- The fields that the server reads.
pub record SyncRequest : Type 0 where
  pub global_cursor : ℕ
  pub limit : ℕ
  pub conversation_id : String

pub record SyncEvent : Type 0 where
  pub event_id : String
  pub global_seq : ℕ
  pub body : Option Body

pub record SyncResponse : Type 0 where
  pub new_global_cursor : ℕ
  pub events : List SyncEvent
  pub has_more : Bool

-- The event types of the chain of tests.
unfoldable pub is_known : String → Bool
is_known event_type =
    (event_type =? "message")
    || (event_type =? "recall")
    || (event_type =? "receipt")
    || (event_type =? "conversation_updated")
    || (event_type =? "file_updated")
    || (event_type =? "read_count_updated")
    || (event_type =? "delivery_updated")

-- A row's payload is of the row's type.
unfoldable pub sync_event_of : LoadedEvent → SyncEvent
unfolding is_known
sync_event_of row = record {
  event_id = row.event_id;
  global_seq = row.seq;
  body = if is_known row.event_type then some row.payload else none;
}

-- The cursor after the loop over the selected rows.
unfoldable pub advance_cursor : ℕ → List LoadedEvent → ℕ
unfolding is_known
advance_cursor cursor [] = cursor
advance_cursor cursor (row ∷ rows) =
    advance_cursor (if is_known row.event_type then max cursor row.seq else cursor) rows

unfoldable pub clamp_limit : ℕ → ℕ
clamp_limit requested =
    let limit = if ltb 0 requested then requested else 50 in max 1 (min limit 200)

unfoldable pub page_of : ℕ → ℕ → List LoadedEvent → SyncResponse
unfolding sync_event_of advance_cursor
page_of global_cursor limit rows =
    let selected_rows = take limit rows in
    record {
      new_global_cursor = advance_cursor global_cursor selected_rows;
      events = map sync_event_of selected_rows;
      has_more = ltb limit (length rows);
    }

-- The response with the cursor that the code returns beside it; none if loading raises.
unfoldable pub answer_page : ℕ → ℕ → Option (List LoadedEvent) → Option (SyncResponse × ℕ)
unfolding page_of
answer_page global_cursor limit none = none
answer_page global_cursor limit (some rows) =
    let response = page_of global_cursor limit rows in some (response, response.new_global_cursor)

unfoldable pub handle_sync_request : String → SyncRequest → Db → Option (SyncResponse × ℕ)
unfolding clamp_limit load_events answer_page
handle_sync_request user_id request db =
    let limit = clamp_limit request.limit in
    answer_page request.global_cursor limit
      (load_events user_id request.global_cursor (limit + 1) request.conversation_id db)

-- `encode` gives the JSON list of the device and the hexadecimal encoding of the request.
unfoldable pub handle_sync_applied :
    Env
    → (ℕ → String)
    → (String → ℕ → Bytes)
    → ℕ
    → ℕ
    → ℕ
    → String
    → String
    → String
    → ℕ
    → Db
    → ControlWriteResult × Db
unfolding confirm_applied execute
handle_sync_applied env str encode request_ms reject_ms now_ms user_id device_id request_id cursor
      db =
    let apply : Apply (Unit {0}) = λ d.
      let (result, d') =
        confirm_applied env str reject_ms now_ms user_id device_id request_id cursor d in
      ((result, tt), d') in
    let ((result, _), db') =
      execute env request_ms user_id request_id "sync_applied" (encode device_id cursor) apply db in
    (result, db')
