-- ===== src/Examples/Auth.antt =====
-- Hellos of server/services/auth on one device.
use mini_im.Prelude.{String_discrete, if◌then◌else◌, [], ◌∷◌, ◌≡◌, refl}
use mini_im.Text.{strip}
use mini_im.Services.Auth.Tokens.{is_user_id, resolve_user_id}
use mini_im.Services.Auth.Sessions.{SessionRecord, SessionManager}
use mini_im.Services.Auth.Hello.{Hello, handle_hello}
use mini_im.Services.Auth.Resume.{handle_hello-session}
use mini_im.Examples.Fixture.{env}

abbrev phone : SessionRecord
phone = record {
  session_id = "s1";
  user_id = "ann";
  device_id = "phone";
  global_cursor = 4;
  last_acked_request_id = "";
  updated_at_ms = 1;
}

abbrev known : SessionManager
known = record { sessions = phone ∷ []; issued = 0 }

abbrev hello : Hello
hello = record {
  token = "dev-token: ann ";
  device_id = "phone";
  global_cursor = 3;
  resume_session_id = "s1";
  last_acked_request_id = "";
}

ann_named : resolve_user_id "dev-token: ann " ≡ "ann"
unfolding resolve_user_id is_user_id
ann_named = refl

-- ann's phone resumes its session and is not set back to the older cursor.
ann_resumes : (handle_hello env 7 8 hello known).0.global_cursor ≡ 4
unfolding handle_hello is_user_id String_discrete
ann_resumes = refl

handle_hello-session_example :
    (handle_hello env 7 8 hello known).0.user_id
    ≡ (if is_user_id (strip " ann ") then strip " ann " else "u-demo")
handle_hello-session_example = (handle_hello-session env 7 8 hello known).0.0 " ann " refl
