-- ===== src/Examples/Send.antt =====
-- Messages of server/services/message/service.py on the small server.
use mini_im.Prelude.{String_discrete, ◌≡◌, refl, true, false, none, some, [], ◌∷◌}
use mini_im.Protocol.{Body}
use mini_im.Storage.Db.{Db}
use mini_im.Storage.SyncEvent.{from_keys, append_sync_events}
use mini_im.Storage.SyncEvent.Numbering.{Numbered, numbers, next_seqs, append_sync_events-numbers}
use mini_im.Storage.MessageRepo.{append_message}
use mini_im.Storage.MessageRepo.Append.{SeqNumbered, append_message-SeqNumbered}
use mini_im.Services.Message.{
  SendMessageResult, MessagePush, apply_send_message, normalize, Normalized,
}
use mini_im.Services.Message.Send.{IsReplay, apply_send_message-again}
use mini_im.Examples.Fixture.{env, dots, group, hello}

abbrev first : SendMessageResult × Db
first = apply_send_message env true 10 11 12 "ann" "r1" hello group

first_event_seqs : numbers first.0.sync_events ≡ ("ann", 1) ∷ ("bob", 1) ∷ []
unfolding apply_send_message String_discrete dots
first_event_seqs = refl

abbrev first_push : MessagePush
first_push = record {
  event_id = dots 1;
  message = record {
    message_id = dots 0;
    conversation_id = "g";
    sender_id = "ann";
    client_msg_id = "c1";
    seq = 1;
    type = 1;
    content = 104 ∷ 105 ∷ [];
    created_at_ms = 11;
    recalled = false;
    unread_count = 1;
    burn_mode = 1;
    burn_ttl_sec = 10;
  };
}

first_pushes : first.0.message_push ≡ some first_push
unfolding apply_send_message String_discrete
first_pushes = refl

apply_send_message-again_example :
    IsReplay env hello
      (record hello { content = [] })
      first
      (apply_send_message env true 20 21 22 "ann" "r2" (record hello { content = [] }) first.1)
apply_send_message-again_example =
    apply_send_message-again env true 10 11 12 20 21 22 "ann" "r1" "r2" hello
      (record hello { content = [] }) group first_push first_pushes refl refl

eve_refused : (apply_send_message env true 10 11 12 "eve" "r1" hello group).0.ack.success ≡ false
unfolding apply_send_message String_discrete
eve_refused = refl

hello_normal : normalize true hello ≡ Normalized.normal (record hello { type = 1 })
unfolding normalize
hello_normal = refl

append_message-SeqNumbered_example :
    let db' = (append_message env 11 "r1" "ann" hello ("ann" ∷ "bob" ∷ []) none group).1 in
    SeqNumbered db'.messages × Numbered db'.sync_events
append_message-SeqNumbered_example =
    append_message-SeqNumbered env 11 "r1" "ann" hello ("ann" ∷ "bob" ∷ []) none group tt tt

append_sync_events-numbers_example :
    numbers
      (append_sync_events env "g" "receipt"
        (Body.message first_push.message)
        9
        ("bob" ∷ "ann" ∷ "bob" ∷ [])
        group).0
    ≡ next_seqs (from_keys ("bob" ∷ "ann" ∷ "bob" ∷ [])) group.sync_events
append_sync_events-numbers_example =
    (append_sync_events-numbers env "g" "receipt" (Body.message first_push.message) 9
      ("bob" ∷ "ann" ∷ "bob" ∷ []) group).0
