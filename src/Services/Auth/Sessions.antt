-- ===== src/Services/Auth/Sessions.antt =====
-- server/services/auth/session_mgr.py: the sessions of the devices, in memory.
use mini_im.Prelude.{
  ℕ, suc, String, Bool, true, false, ◌&&◌, Option, none, some, List, [], ◌∷◌, max, if◌then◌else◌,
  ◌=?◌,
}
use mini_im.Storage.Db.{Env}

pub record SessionRecord : Type 0 where
  pub session_id : String
  pub user_id : String
  pub device_id : String
  pub global_cursor : ℕ
  pub last_acked_request_id : String
  pub updated_at_ms : ℕ

-- The dict `m_sessions`, whose keys are the identifiers of its sessions, and the number of
-- identifiers that were drawn.
pub record SessionManager : Type 0 where
  pub sessions : List SessionRecord
  pub issued : ℕ

-- `self.m_sessions.get(session_id)`
unfoldable pub find_session : String → List SessionRecord → Option SessionRecord
find_session session_id [] = none
find_session session_id (s ∷ sessions) =
    if s.session_id =? session_id then some s else find_session session_id sessions

-- An assignment to a key of the dict, or a change of the object that a key holds.
unfoldable pub store_session : SessionRecord → List SessionRecord → List SessionRecord
store_session session [] = session ∷ []
store_session session (s ∷ sessions) =
    if s.session_id =? session.session_id
    then session ∷ sessions
    else s ∷ store_session session sessions

-- `get`, which is also how `create_or_resume` looks a session up.
unfoldable pub get : String → SessionManager → Option SessionRecord
unfolding find_session
get session_id manager = if session_id =? "" then none else find_session session_id manager.sessions

unfoldable pub can_resume : String → String → Option SessionRecord → Bool
can_resume user_id device_id none = false
can_resume user_id device_id (some s) = (s.user_id =? user_id) && (s.device_id =? device_id)

unfoldable pub resumed : ℕ → ℕ → String → SessionRecord → SessionRecord
resumed now_ms global_cursor last_acked_request_id s = record s {
  global_cursor = max s.global_cursor global_cursor;
  last_acked_request_id =
      if last_acked_request_id =? "" then s.last_acked_request_id else last_acked_request_id;
  updated_at_ms = now_ms;
}

-- The session that is not resumed, under a fresh identifier.
unfoldable pub create_session :
    Env
    → ℕ
    → String
    → String
    → ℕ
    → String
    → SessionManager
    → (SessionRecord × Bool) × SessionManager
unfolding store_session
create_session env now_ms user_id device_id global_cursor last_acked_request_id manager =
    let session : SessionRecord = record {
      session_id = env.uuid manager.issued;
      user_id = user_id;
      device_id = device_id;
      global_cursor = global_cursor;
      last_acked_request_id = last_acked_request_id;
      updated_at_ms = now_ms;
    } in
    (
      (session, false),
      record { sessions = store_session session manager.sessions; issued = suc manager.issued },
    )

unfoldable pub resume_session :
    ℕ → ℕ → String → SessionRecord → SessionManager → (SessionRecord × Bool) × SessionManager
unfolding store_session resumed
resume_session now_ms global_cursor last_acked_request_id s manager =
    let session = resumed now_ms global_cursor last_acked_request_id s in
    ((session, true), record manager { sessions = store_session session manager.sessions })

unfoldable pub create_or_resume :
    Env
    → ℕ
    → String
    → String
    → String
    → ℕ
    → String
    → SessionManager
    → (SessionRecord × Bool) × SessionManager
unfolding get can_resume create_session resume_session
create_or_resume env now_ms user_id device_id resume_session_id global_cursor last_acked manager =
    elim (get resume_session_id manager) [
      | none ↦ create_session env now_ms user_id device_id global_cursor last_acked manager
      | some s ↦
          if can_resume user_id device_id (some s)
          then resume_session now_ms global_cursor last_acked s manager
          else create_session env now_ms user_id device_id global_cursor last_acked manager
    ]

unfoldable pub touch : ℕ → String → SessionManager → SessionManager
unfolding find_session store_session
touch now_ms session_id manager = elim (find_session session_id manager.sessions) [
  | none ↦ manager
  | some s ↦ record manager {
    sessions = store_session (record s { updated_at_ms = now_ms }) manager.sessions;
  }
]
