-- ===== src/Services/Auth/Hello.antt =====
-- server/services/auth/service.py: the answer to a hello.
use mini_im.Prelude.{ℕ, String, Bool, false}
use mini_im.Storage.Db.{Env}
use mini_im.Services.Auth.Tokens.{resolve_user_id}
use mini_im.Services.Auth.Sessions.{SessionManager, create_or_resume}

-- The fields that the server reads.
pub record Hello : Type 0 where
  pub token : String
  pub device_id : String
  pub global_cursor : ℕ
  pub resume_session_id : String
  pub last_acked_request_id : String

pub record Welcome : Type 0 where
  pub session_id : String
  pub user_id : String
  pub server_time_ms : ℕ
  pub heartbeat_interval_sec : ℕ
  pub global_cursor : ℕ
  pub resumable : Bool
  pub need_reauth : Bool

unfoldable pub handle_hello : Env → ℕ → ℕ → Hello → SessionManager → Welcome × SessionManager
unfolding resolve_user_id create_or_resume
handle_hello env now_ms done_ms hello manager =
    let user_id = resolve_user_id hello.token in
    let ((session, resumed), manager') =
      create_or_resume env now_ms user_id hello.device_id hello.resume_session_id
        hello.global_cursor hello.last_acked_request_id manager in
    (
      record {
        session_id = session.session_id;
        user_id = user_id;
        server_time_ms = done_ms;
        heartbeat_interval_sec = 15;
        global_cursor = session.global_cursor;
        resumable = resumed;
        need_reauth = false;
      },
      manager',
    )
