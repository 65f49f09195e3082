-- ===== src/Examples/Retry.antt =====
-- A control write of server/services/control/service.py that is sent twice, and a refused one.
use mathlib.Core.Path.{subst}
use text.Mathlib.TextEquality.{eq_iff}
use mini_im.Prelude.{
  String_discrete, ◌≡◌, refl, true, false, if◌then◌else◌, any, none, some, [], ◌∷◌, arith,
}
use mini_im.Protocol.{Bytes}
use mini_im.Text.{strip}
use mini_im.Storage.ConversationRepo.{is_key}
use mini_im.Storage.ConversationRepo.Owner.{Owned, owner_of, OwnerJoined, has_member}
use mini_im.Storage.ControlWrite.{
  find_result, is_file_request, legacy_messages, legacy_conflict, is_transient, ControlWriteResult,
}
use mini_im.Storage.ControlWrite.Once.{IsNew}
use mini_im.Services.Control.{WriteBody, operation_of, run_handler, handle}
use mini_im.Services.Control.Refusal.{Clean, run_handler-Clean}
use mini_im.Services.Control.Owners.{handle-Owned}
use mini_im.Services.Control.Retry.{handle-again}
use mini_im.Examples.Fixture.{env, posted}

abbrev serialize : WriteBody → Bytes
serialize _ = 7 ∷ []

abbrev empty_receipt : WriteBody
empty_receipt = WriteBody.receipt (record {
  event_id = "";
  conversation_id = "";
  last_read_seq = 1;
  read_at_ms = 0;
  reader_id = "";
})

-- Refused with code 400, which is recorded.
new : IsNew env "bob" "r9" "receipt" (serialize empty_receipt) posted
unfolding find_result is_file_request legacy_messages legacy_conflict strip String_discrete
new = record {
  user = ground (arith, eq_iff "bob" "");
  request = ground (arith, eq_iff "r9" "");
  unrecorded = refl;
  no_file = refl;
  no_conflict = refl;
}

abbrev refusal : ControlWriteResult
refusal = record {
  ack = record {
    request_id = "r9";
    success = false;
    code = 400;
    message = "invalid receipt";
    entity_id = "";
    server_time_ms = 5;
  };
  sync_events = [];
}

refused : (run_handler env true 5 6 7 "bob" "r9" empty_receipt posted).0 ≡ some refusal
unfolding run_handler String_discrete
refused = refl

handle-again_example :
    handle env true serialize 11 12 13 14 "bob" "r9" empty_receipt
      (handle env true serialize 4 5 6 7 "bob" "r9" empty_receipt posted).1
    ≡ (some refusal, (handle env true serialize 4 5 6 7 "bob" "r9" empty_receipt posted).1)
unfolding operation_of is_transient
handle-again_example =
    (handle-again env true serialize 4 5 6 7 "bob" "r9" empty_receipt "receipt" posted refusal 11 12
      13 14 refl new refused refl).1

run_handler-Clean_example :
    Clean posted (run_handler env true 5 6 7 "bob" "r9" empty_receipt posted)
run_handler-Clean_example = run_handler-Clean env 5 6 7 "bob" "r9" posted true empty_receipt

ann_joined : has_member "g" "ann" posted.conversation_members ≡ true
unfolding has_member any is_key String_discrete
ann_joined = refl

posted-Owned : Owned posted
unfolding owner_of
posted-Owned c = go (String_discrete "g" c)
  where
    go :
        (same : Dec ("g" ≡ c))
        → OwnerJoined c
            (if elim same [ yes _ ↦ true | no _ ↦ false ] then some "ann" else none)
            posted.conversation_members
    go (yes e) = subst (λ d. has_member d "ann" posted.conversation_members ≡ true) e ann_joined
    go (no n) = tt

-- The owner leaves, and the group goes to bob.
handle-Owned_example :
    Owned (handle env true serialize 4 5 6 7 "ann" "r9" (WriteBody.leave_conversation "g") posted).1
handle-Owned_example =
    handle-Owned env true serialize 4 5 6 7 "ann" "r9" (WriteBody.leave_conversation "g") posted
      posted-Owned
