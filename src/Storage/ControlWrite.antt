-- ===== src/Storage/ControlWrite.antt =====
-- server/storage/repo/control_write_repo.py: a write and its recorded result commit together.
pub mod Once
use mini_im.Prelude.{
  ℕ, String, Bool, true, false, ◌&&◌, ◌||◌, not, Option, none, some, List, [], ◌∷◌, if◌then◌else◌,
  ◌=?◌, ◌==◌, leb, filter, any, find?,
}
use mini_im.Protocol.{Bytes, Ack}
use mini_im.Text.{strip}
use mini_im.Storage.Db.{Db, Env, ControlResultRow, MessageRow, FileInitRow, FileTransferRow}
use mini_im.Storage.SyncEvent.{StoredSyncEvent}

pub record ControlWriteResult : Type 0 where
  pub ack : Ack
  pub sync_events : List StoredSyncEvent

unfoldable pub reject : String → ℕ → String → ℕ → ControlWriteResult
reject request_id code message now_ms = record {
  ack = record {
    request_id = request_id;
    success = false;
    code = code;
    message = message;
    entity_id = "";
    server_time_ms = now_ms;
  };
  sync_events = [];
}

-- Equality of two byte strings.
unfoldable pub same_bytes : Bytes → Bytes → Bool
same_bytes [] [] = true
same_bytes (x ∷ xs) (y ∷ ys) = x == y && same_bytes xs ys
same_bytes _ _ = false

unfoldable pub find_result : String → String → Db → Option ControlResultRow
unfolding find?
find_result user_id request_id db =
    find? (λ r. (r.user_id =? user_id) && (r.request_id =? request_id)) db.control_write_results

unfoldable pub is_file_request : String → String → Db → Bool
unfolding any
is_file_request user_id request_id db =
    any (λ r. (r.user_id =? user_id) && (r.request_id =? request_id)) db.file_init_requests
    || any (λ r. (r.owner_id =? user_id) && (r.request_id =? request_id)) db.file_transfers

unfoldable pub legacy_messages : String → String → Db → List MessageRow
unfolding filter
legacy_messages user_id request_id db =
    filter (λ m. (m.sender_id =? user_id) && (m.request_id =? request_id)) db.messages

abbrev pub same_optional : Option Bytes → Bytes → Bool
same_optional none b = false
same_optional (some a) b = same_bytes a b

-- Whether messages stored before there were recorded results forbid the write.
unfoldable pub legacy_conflict : String → Bytes → List MessageRow → Bool
unfolding same_bytes
legacy_conflict operation fingerprint [] = false
legacy_conflict operation fingerprint (m ∷ []) =
    not (operation =? "send_message") || not (same_optional m.intent_fingerprint fingerprint)
legacy_conflict operation fingerprint (m ∷ n ∷ rows) = true

-- `result.ack.code in (401, 408, 429) or result.ack.code >= 500`
unfoldable pub is_transient : Ack → Bool
is_transient ack =
    not ack.success && (ack.code == 401 || ack.code == 408 || ack.code == 429 || leb 500 ack.code)

-- The business write that `execute` is given. It runs inside the transaction; the `S` is what the
-- closure leaves in the variables that it captures.
abbrev pub Apply : Type 0 → Type 0
Apply S = Db → (ControlWriteResult × S) × Db

-- The result of `execute`, and what the closure left, if it ran.
abbrev pub Outcome : Type 0 → Type 0
Outcome S = (ControlWriteResult × Option S) × Db

-- After `result = apply()`: raise `RetryableWrite`, which rolls the tables back, or record.
unfoldable pub settle :
    {S : Type 0}
    → String
    → String
    → String
    → Bytes
    → ℕ
    → Db
    → (ControlWriteResult × S) × Db
    → Outcome S
unfolding is_transient
settle user_id request_id operation fingerprint now_ms before ((result, side), db) =
    if is_transient result.ack
    then (
      (record { ack = result.ack; sync_events = [] }, some side),
      record before { issued = db.issued },
    )
    else (
      (result, some side),
      record db {
        control_write_results =
            record {
              user_id = user_id;
              request_id = request_id;
              operation = operation;
              fingerprint = fingerprint;
              ack = result.ack;
              created_at_ms = now_ms;
            }
            ∷ db.control_write_results;
      },
    )

unfoldable pub replay : String → String → Bytes → ℕ → ControlResultRow → ControlWriteResult
unfolding reject same_bytes
replay request_id operation fingerprint now_ms previous =
    if not (previous.operation =? operation) || not (same_bytes previous.fingerprint fingerprint)
    then reject request_id 409 "request id already belongs to a different write" now_ms
    else record { ack = previous.ack; sync_events = [] }

unfoldable pub execute :
    {S : Type 0} → Env → ℕ → String → String → String → Bytes → Apply S → Db → Outcome S
unfolding find_result is_file_request legacy_messages legacy_conflict settle replay strip
execute env now_ms user_id request_id operation payload apply db =
    let fingerprint = env.sha256 payload in
    if (user_id =? "") || (strip request_id =? "")
    then ((reject request_id 400 "control write requires user and request id" now_ms, none), db)
    else elim (find_result user_id request_id db) [
      | some previous ↦ ((replay request_id operation fingerprint now_ms previous, none), db)
      | none ↦
          if is_file_request user_id request_id db
          then (
            (
              reject request_id 409 "request id already belongs to a file initialization" now_ms,
              none,
            ),
            db,
          )
          else if legacy_conflict operation fingerprint (legacy_messages user_id request_id db)
          then (
            (
              reject request_id 409 "legacy message request identity unavailable or conflicting"
                  now_ms,
              none,
            ),
            db,
          )
          else settle user_id request_id operation fingerprint now_ms db (apply db)
    ]
