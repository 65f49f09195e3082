-- ===== src/Examples/Control.antt =====
-- Control writes of server/storage/repo/control_write_repo.py on the small server.
use text.Mathlib.TextEquality.{eq_iff}
use mini_im.Prelude.{ℕ, String, ◌≡◌, ◌≢◌, refl, inl, inr, Bool, true, false, none, [], ◌∷◌, arith}
use mini_im.Text.{strip}
use mini_im.Storage.ControlWrite.{
  Apply, execute, find_result, is_file_request, legacy_messages, legacy_conflict, is_transient,
}
use mini_im.Storage.ControlWrite.Once.{IsNew, execute-again, execute-transient}
use mini_im.Examples.Fixture.{env, group}

abbrev answer : ℕ → Bool → Apply (Unit {0})
answer code success db = (
  (
    record {
      ack = record {
        request_id = "r";
        success = success;
        code = code;
        message = "m";
        entity_id = "e";
        server_time_ms = 5;
      };
      sync_events = [];
    },
    tt,
  ),
  record db { users = [] },
)

u_named : ◌≢◌ {A = String} "u" ""
u_named = ground (arith, eq_iff "u" "")

r_named : strip "r" ≢ ""
unfolding strip
r_named = ground (arith, eq_iff "r" "")

new : IsNew env "u" "r" "op" (1 ∷ []) group
unfolding find_result is_file_request legacy_messages legacy_conflict
new = record {
  user = u_named;
  request = r_named;
  unrecorded = refl;
  no_file = refl;
  no_conflict = refl;
}

execute-again_example :
    let after = (execute env 1 "u" "r" "op" (1 ∷ []) (answer 0 true) group).1 in
    execute env 2 "u" "r" "op" (1 ∷ []) (answer 500 false) after
    ≡ ((record { ack = (answer 0 true group).0.0.ack; sync_events = [] }, none), after)
unfolding is_transient
execute-again_example =
    execute-again env 1 2 "u" "r" "op" (1 ∷ []) (answer 0 true) (answer 500 false) group new refl

-- A failure with 429, and then a success.
execute-transient_example :
    let after = (execute env 1 "u" "r" "op" (1 ∷ []) (answer 429 false) group).1 in
    (execute env 2 "u" "r" "op" (1 ∷ []) (answer 0 true) after).0.0.ack
    ≡ (answer 0 true after).0.0.ack
execute-transient_example =
    (execute-transient env 1 2 "u" "r" "op" (1 ∷ []) (answer 429 false) (answer 0 true) group new
      refl (inr (inr (inl refl)))).2
