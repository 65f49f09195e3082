-- ===== src/Services/Auth/Resume.antt =====
-- server/services/auth: whose session a hello gets, and what it leaves alone.
use mathlib.Core.Path.{subst}
use mini_im.Prelude.{
  ℕ, ◌≤◌, String, Bool, true, false, ◌&&◌, ◌≡◌, ◌≢◌, refl, sym, ap, ◌∙◌, ◌⊎◌, inl, inr, some, List,
  [], ◌∷◌, if◌then◌else◌, ◌=?◌, arith, Bool-cases, Option-cases,
}
use mini_im.Storage.Db.{Env}
use mini_im.Services.Auth.Tokens.{resolve_user_id}
use mini_im.Services.Auth.Named.{Named, resolve_user_id-Named}
use mini_im.Services.Auth.Sessions.{
  SessionRecord, SessionManager, find_session, store_session, get, can_resume, resumed,
  create_session, resume_session, create_or_resume,
}
use mini_im.Services.Auth.Hello.{Hello, handle_hello}

find_session-store_session :
    (s : SessionRecord) (id : String) (sessions : List SessionRecord)
    → find_session id (store_session s sessions)
      ≡ (if s.session_id =? id then some s else find_session id sessions)
unfolding find_session store_session
find_session-store_session s id [] = refl
find_session-store_session s id (r ∷ sessions) =
    ground (arith, find_session-store_session s id sessions)

-- The session is of the user and the device, stored, and not behind the requested cursor; every
-- other session is as it was.
abbrev Bound :
    String → String → ℕ → SessionManager → (SessionRecord × Bool) × SessionManager → Type 0
Bound user_id device_id cursor manager ((s, again), after) =
    (s.user_id ≡ user_id)
    × (s.device_id ≡ device_id)
    × (cursor ≤ s.global_cursor)
    × ((id : String)
        → find_session id after.sessions
          ≡ (if s.session_id =? id then some s else find_session id manager.sessions))

create_session-Bound :
    (env : Env) (now_ms : ℕ) (user_id device_id : String) (cursor : ℕ) (acked : String)
    (manager : SessionManager)
    → Bound user_id device_id cursor manager
        (create_session env now_ms user_id device_id cursor acked manager)
unfolding create_session
create_session-Bound env now_ms user_id device_id cursor acked manager =
    (refl, refl, omega arith, λ id. find_session-store_session _ id manager.sessions)

resume_session-Bound :
    (now_ms : ℕ) (user_id device_id : String) (cursor : ℕ) (acked : String) (s : SessionRecord)
    (manager : SessionManager)
    → can_resume user_id device_id (some s) ≡ true
    → Bound user_id device_id cursor manager (resume_session now_ms cursor acked s manager)
unfolding resume_session can_resume resumed
resume_session-Bound now_ms user_id device_id cursor acked s manager h = (
  ground arith,
  ground arith,
  ground arith,
  λ id. find_session-store_session (resumed now_ms cursor acked s) id manager.sessions,
)

module _ (env : Env) (now_ms : ℕ) (user_id device_id resume_id : String) (cursor : ℕ)
    (acked : String) (manager : SessionManager) where
  abbrev chosen : (SessionRecord × Bool) × SessionManager
  chosen = create_or_resume env now_ms user_id device_id resume_id cursor acked manager

  create_or_resume-cases :
      ((can_resume user_id device_id (get resume_id manager) ≡ false)
        × (chosen ≡ create_session env now_ms user_id device_id cursor acked manager))
      ⊎ ((s : SessionRecord) × (can_resume user_id device_id (get resume_id manager) ≡ true)
          × (can_resume user_id device_id (some s) ≡ true)
          × (chosen ≡ resume_session now_ms cursor acked s manager))
  unfolding create_or_resume can_resume
  create_or_resume-cases = elim (Option-cases (get resume_id manager)) [
    | inl e ↦ inl (ground arith, ground arith)
    | inr (s, e) ↦ elim (Bool-cases ((s.user_id =? user_id) && (s.device_id =? device_id))) [
      | inl y ↦ inr (s, ground arith, y, ground arith)
      | inr n ↦ inl (ground arith, ground arith)
    ]
  ]

  create_or_resume-Bound : Bound user_id device_id cursor manager chosen
  create_or_resume-Bound = elim create_or_resume-cases [
    | inl (_, e) ↦
        subst (Bound user_id device_id cursor manager) (sym e)
          (create_session-Bound env now_ms user_id device_id cursor acked manager)
    | inr (s, _, y, e) ↦
        subst (Bound user_id device_id cursor manager) (sym e)
          (resume_session-Bound now_ms user_id device_id cursor acked s manager y)
  ]

  create_or_resume-flag : chosen.0.1 ≡ can_resume user_id device_id (get resume_id manager)
  unfolding create_session resume_session
  create_or_resume-flag = elim create_or_resume-cases [
    | inl (n, e) ↦ ap (λ p. p.0.1) e ∙ sym n
    | inr (s, y, _, e) ↦ ap (λ p. p.0.1) e ∙ sym y
  ]

-- A hello is answered for the user whom its token names: the text after `dev-token:`, stripped, if it
-- has the required form, and `u-demo` if it has not or the token does not start so. The session that it names is stored, belongs to that user and the device
-- of the hello, and its cursor is not behind the hello's; every session under another identifier
-- is as it was. It is a resumed one if and only if the hello names a stored session of the same
-- user and device.
pub handle_hello-session :
    (env : Env) (now_ms done_ms : ℕ) (hello : Hello) (manager : SessionManager)
    → let (welcome, after) = handle_hello env now_ms done_ms hello manager in
      Named hello.token welcome.user_id
      × ((s : SessionRecord) × (find_session welcome.session_id after.sessions ≡ some s)
          × (s.user_id ≡ welcome.user_id)
          × (s.device_id ≡ hello.device_id)
          × (s.global_cursor ≡ welcome.global_cursor)
          × (hello.global_cursor ≤ s.global_cursor))
      × ((id : String)
          → welcome.session_id ≢ id
          → find_session id after.sessions ≡ find_session id manager.sessions)
      × (welcome.resumable
          ≡ can_resume welcome.user_id hello.device_id (get hello.resume_session_id manager))
unfolding handle_hello
handle_hello-session env now_ms done_ms hello manager =
    let user = resolve_user_id hello.token in
    let out =
      create_or_resume env now_ms user hello.device_id hello.resume_session_id hello.global_cursor
        hello.last_acked_request_id manager in
    let (u, d, c, found) =
      create_or_resume-Bound env now_ms user hello.device_id hello.resume_session_id
        hello.global_cursor hello.last_acked_request_id manager in
    (
      resolve_user_id-Named hello.token,
      (out.0.0, found out.0.0.session_id ∙ ground arith, u, d, refl, c),
      λ id other. found id ∙ ground arith,
      create_or_resume-flag env now_ms user hello.device_id hello.resume_session_id
          hello.global_cursor hello.last_acked_request_id manager,
    )
