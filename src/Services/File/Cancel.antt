-- ===== src/Services/File/Cancel.antt =====
-- server/services/file/service.py: the cancellation of an intent.
pub mod Blocked
use mini_im.Prelude.{
  ℕ, String, Bool, true, false, ◌&&◌, ◌||◌, not, Option, none, some, List, [], ◌∷◌, if◌then◌else◌,
  ◌=?◌, ◌==◌,
}
use mini_im.Protocol.{Ack, FileCancel}
use mini_im.Text.{strip}
use mini_im.Storage.Db.{Db, Env}
use mini_im.Storage.ControlWrite.{ControlWriteResult, Apply, reject, execute}
use mini_im.Storage.FileRepo.Cancel.{cancel_transfer, cancelled_file_id}
use mini_im.Services.File.{FileTools, FileServiceResult, answer}

-- The readings of the clock: by the control write, by `cancel_transfer` for the cancellation and
-- for the transfer, and for the acknowledgement.
pub record CancelClock : Type 0 where
  pub request_ms : ℕ
  pub now_ms : ℕ
  pub save_ms : ℕ
  pub done_ms : ℕ

module _ (env : Env) (tools : FileTools) (clock : CancelClock) where
  -- The closure `apply`.
  unfoldable pub apply_cancel : String → String → FileCancel → Apply (Unit {0})
  unfolding strip reject cancel_transfer
  apply_cancel user_id request_id request db =
      if strip request.client_file_id =? ""
      then ((reject request_id 400 "file cancellation requires intent id" clock.done_ms, tt), db)
      else let (result, db') =
          cancel_transfer env clock.now_ms clock.save_ms user_id request.client_file_id
            request.file_id db in
        (
          (
            record {
              ack = record {
                request_id = request_id;
                success = result.code == 0;
                code = result.code;
                message = if result.error =? "" then "cancelled" else result.error;
                entity_id = request.client_file_id;
                server_time_ms = clock.done_ms;
              };
              sync_events = result.sync_events;
            },
            tt,
          ),
          db',
        )

  unfoldable pub handle_file_cancel : String → String → FileCancel → Db → FileServiceResult × Db
  unfolding execute apply_cancel answer cancelled_file_id
  handle_file_cancel user_id request_id request db =
      let ((result, side), db') =
        execute env clock.request_ms user_id request_id "file_cancel"
          (tools.serialize_cancel request) (apply_cancel user_id request_id request) db in
      (
        record (answer result.ack none result.sync_events) {
          cancelled_file_id =
              if result.ack.success
              then cancelled_file_id db' user_id request.client_file_id
              else "";
        },
        db',
      )
