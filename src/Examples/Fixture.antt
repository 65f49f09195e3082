-- ===== src/Examples/Fixture.antt =====
-- A small server: a source of identifiers, an encoding, and a group of two users.
use Prim.Native.String.{◌++◌}
use mini_im.Prelude.{ℕ, zero, suc, String, false, none, [], ◌∷◌}
use mini_im.Protocol.{SendMessage, Body}
use mini_im.Storage.Db.{Db, Env, MemberRow, MessageRow, DeliveryRow, SyncEventRow, empty}

-- Identifiers that differ in their number of dots.
unfoldable pub dots : ℕ → String
dots zero = "#"
dots (suc n) = "." ++ dots n

abbrev pub env : Env
env = record {
  uuid = dots;
  sha256 = λ b. b;
  serialize = λ m. m.type ∷ m.burn_mode ∷ m.burn_ttl_sec ∷ m.content;
  file_id_of = λ b. "";
  file_reference = λ id. [];
}

abbrev pub joined : String → String → MemberRow
joined user_id role = record {
  conversation_id = "g";
  user_id = user_id;
  role = role;
  joined_at_ms = 1;
  last_read_seq = 0;
}

abbrev pub group : Db
group = record empty {
  users =
      record { user_id = "ann"; nickname = "ann"; created_at_ms = 0 }
      ∷ record { user_id = "bob"; nickname = "bob"; created_at_ms = 0 }
      ∷ [];
  conversations =
      record { conversation_id = "g"; type = 2; title = "t"; owner_id = "ann"; created_at_ms = 1 }
      ∷ [];
  conversation_members = joined "bob" "member" ∷ joined "ann" "owner" ∷ [];
}

abbrev pub hello : SendMessage
hello = record {
  conversation_id = "g";
  client_msg_id = "c1";
  type = 0;
  content = 104 ∷ 105 ∷ [];
  burn_mode = 1;
  burn_ttl_sec = 10;
}

abbrev pub hi : MessageRow
hi = record {
  server_msg_id = "m1";
  conversation_id = "g";
  sender_id = "ann";
  client_msg_id = "c1";
  request_id = "r1";
  conversation_seq = 1;
  type = 1;
  content = 104 ∷ 105 ∷ [];
  created_at_ms = 5;
  recalled = false;
  burn_mode = 0;
  burn_ttl_sec = 0;
  intent_fingerprint = none;
  content_purged_at_ms = 0;
}

abbrev pub hi_event : String → String → SyncEventRow
hi_event event_id user_id = record {
  event_id = event_id;
  user_id = user_id;
  seq = 1;
  conversation_id = "g";
  event_type = "message";
  entity_id = "m1";
  payload = Body.message (record {
    message_id = "m1";
    conversation_id = "g";
    sender_id = "ann";
    client_msg_id = "c1";
    seq = 1;
    type = 1;
    content = 104 ∷ 105 ∷ [];
    created_at_ms = 5;
    recalled = false;
    unread_count = 1;
    burn_mode = 0;
    burn_ttl_sec = 0;
  });
  created_at_ms = 5;
}

abbrev pub hi_delivery : DeliveryRow
hi_delivery = record {
  server_msg_id = "m1";
  user_id = "bob";
  conversation_id = "g";
  seq = 1;
  status = "sent";
  sent_at_ms = 5;
  delivered_at_ms = none;
  read_at_ms = none;
  burn_started_at_ms = none;
  burn_at_ms = none;
  burned_at_ms = none;
}

-- The group with one message from ann.
abbrev pub posted : Db
posted = record group {
  messages = hi ∷ [];
  message_deliveries = hi_delivery ∷ [];
  sync_events = hi_event "e2" "bob" ∷ hi_event "e1" "ann" ∷ [];
}
