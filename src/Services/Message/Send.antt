-- ===== src/Services/Message/Send.antt =====
-- server/services/message/service.py: refusals store nothing, and a message sent twice is one.
use mathlib.Core.Path.{subst}
use mini_im.Prelude.{
  ℕ, ◌≤◌, ◌≡◌, ◌≢◌, refl, sym, ap, ◌∙◌, ◌⊎◌, String, Bool, true, false, Option, none, some, [], ◌∷◌,
  arith, any,
}
use mini_im.Protocol.{Bytes, SendMessage, Message, msg_system}
use mini_im.Storage.Db.{Db, Env, MessageRow}
use mini_im.Storage.MessageIntent.{message_intent_fingerprint}
use mini_im.Storage.MessageRepo.{get_message_by_client_msg_id, get_intent_fingerprint}
use mini_im.Storage.MessageRepo.Append.{
  new_row, messages-append_message, members-append_message, message-append_message, find_newest,
  fingerprint_of_newest,
}
use mini_im.Storage.ConversationRepo.{is_key, is_member, list_member_ids}
use mini_im.Storage.ControlWrite.Once.{same_bytes_refl, eq_of_same_bytes}
use mini_im.Services.Message.{
  SendMessageResult, MessagePush, Normalized, normalize, answer_existing, store_message,
  apply_send_message, burn_mode_off, burn_mode_after_read, min_burn_ttl_sec, max_burn_ttl_sec,
}

-- What is stored has a known type, and burn settings within the limits of the service: burning is
-- off with no time to live, or it is on, enabled, not asked for by a system message, and lasts
-- between 5 seconds and 7 days. Nothing else of the request changes.
pub normalize-InLimits :
    (burn_enabled : Bool) (m n : SendMessage)
    → normalize burn_enabled m ≡ Normalized.normal n
    → (n.type ≢ 0)
      × (n.content ≡ m.content)
      × (n.conversation_id ≡ m.conversation_id)
      × (n.client_msg_id ≡ m.client_msg_id)
      × ((n.burn_mode ≡ burn_mode_off) × (n.burn_ttl_sec ≡ 0)
          ⊎ (n.burn_mode ≡ burn_mode_after_read)
            × (burn_enabled ≡ true)
            × (n.type ≢ msg_system)
            × (min_burn_ttl_sec ≤ n.burn_ttl_sec)
            × (n.burn_ttl_sec ≤ max_burn_ttl_sec))
unfolding normalize
normalize-InLimits burn_enabled m n h = ground arith

-- What the look-ups of the next request find in the state that `store_message` leaves.
module _ (env : Env) (write_ms done_ms : ℕ) (user_id request_id : String) (fingerprint : Bytes)
    (n : SendMessage) (db : Db) where
  abbrev after : SendMessageResult × Db
  after = store_message env write_ms done_ms user_id request_id fingerprint n db

  messages-after :
      after.1.messages
      ≡ new_row env write_ms request_id user_id n
          (list_member_ids db n.conversation_id)
          (some fingerprint)
          db
        ∷ db.messages
  unfolding store_message
  messages-after =
      messages-append_message env write_ms request_id user_id n
        (list_member_ids db n.conversation_id) (some fingerprint) db

  abbrev stored_row : MessageRow
  stored_row =
      new_row env write_ms request_id user_id n (list_member_ids db n.conversation_id)
        (some fingerprint) db

  find_message-after :
      (existing : Message) × (get_message_by_client_msg_id after.1 n.conversation_id user_id
          n.client_msg_id
        ≡ some existing)
      × (existing.message_id ≡ env.uuid db.issued)
  find_message-after = find_newest after.1 stored_row db.messages messages-after

  fingerprint-after : get_intent_fingerprint after.1 (env.uuid db.issued) ≡ some fingerprint
  fingerprint-after = fingerprint_of_newest after.1 stored_row db.messages messages-after

  is_member-after : (c u : String) → is_member after.1 c u ≡ is_member db c u
  unfolding is_member store_message
  is_member-after c u = ap (any (is_key c u)) (
      members-append_message env write_ms request_id user_id n
        (list_member_ids db n.conversation_id) (some fingerprint) db)

  entity-after : after.0.ack.entity_id ≡ env.uuid db.issued
  unfolding store_message
  entity-after =
      (message-append_message env write_ms request_id user_id n
        (list_member_ids db n.conversation_id) (some fingerprint) db).0

module _ (env : Env) (burn_enabled : Bool) (now_ms write_ms done_ms : ℕ)
    (user_id request_id : String) (send_message : SendMessage) (db : Db) where
  abbrev sent : SendMessageResult × Db
  sent =
      apply_send_message env burn_enabled now_ms write_ms done_ms user_id request_id send_message db

  -- A request that is refused, or that is answered without a push because the message is stored
  -- already, changes nothing and publishes no event.
  pub apply_send_message-quiet :
      (sent.0.ack.success ≡ false) ⊎ (sent.0.message_push ≡ none)
      → (sent.1 ≡ db) × (sent.0.sync_events ≡ [])
  unfolding apply_send_message
  apply_send_message-quiet h = ground arith

  -- What a request that got as far as a push has done.
  record IsStored (normalized : SendMessage) : Type 0 where
    member : is_member db send_message.conversation_id user_id ≡ true
    named : (send_message.conversation_id ≢ "") × (send_message.client_msg_id ≢ "")
    same_conversation : normalized.conversation_id ≡ send_message.conversation_id
    same_client_msg_id : normalized.client_msg_id ≡ send_message.client_msg_id
    stored :
        sent
        ≡ store_message env write_ms done_ms user_id request_id
            (message_intent_fingerprint env send_message)
            normalized
            db

  normalized-IsStored :
      (push : MessagePush) (n : Normalized)
      → normalize burn_enabled send_message ≡ n
      → sent.0.message_push ≡ some push
      → (normalized : SendMessage) × IsStored normalized
  unfolding apply_send_message
  normalized-IsStored push (Normalized.invalid message) e h = absurd (ground arith)
  normalized-IsStored push (Normalized.normal n) e h =
      let limits = normalize-InLimits burn_enabled send_message n e in
      (
        n,
        record {
          member = ground arith;
          named = (ground arith, ground arith);
          same_conversation = limits.2;
          same_client_msg_id = limits.3;
          stored = ground arith;
        },
      )

  pushed-IsStored :
      (push : MessagePush)
      → sent.0.message_push ≡ some push
      → (normalized : SendMessage) × IsStored normalized
  pushed-IsStored push h = normalized-IsStored push (normalize burn_enabled send_message) refl h

-- A client message id that is stored: the request is answered from the stored message.
apply_send_message-known :
    (env : Env) (burn_enabled : Bool) (now_ms write_ms done_ms : ℕ) (user_id request_id : String)
    (m : SendMessage) (db : Db) (existing : Message)
    → m.conversation_id ≢ ""
    → m.client_msg_id ≢ ""
    → is_member db m.conversation_id user_id ≡ true
    → get_message_by_client_msg_id db m.conversation_id user_id m.client_msg_id ≡ some existing
    → apply_send_message env burn_enabled now_ms write_ms done_ms user_id request_id m db ≡ (
      answer_existing request_id now_ms done_ms
          (message_intent_fingerprint env m)
          (get_intent_fingerprint db existing.message_id)
          existing,
      db,
    )
unfolding apply_send_message
apply_send_message-known env burn_enabled now_ms write_ms done_ms user_id request_id m db existing c
      k b e =
    ground arith

-- The second run, of `m'`, adds nothing to what the first, of `m`, left, and answers by the first.
abbrev pub IsReplay :
    Env → SendMessage → SendMessage → SendMessageResult × Db → SendMessageResult × Db → Type 0
IsReplay env m m' (first, db') (second, db'') =
    (db'' ≡ db')
    × (second.message_push ≡ none)
    × (second.sync_events ≡ [])
    × (message_intent_fingerprint env m' ≡ message_intent_fingerprint env m
        → (second.ack.success ≡ true) × (second.ack.entity_id ≡ first.ack.entity_id))
    × (message_intent_fingerprint env m' ≢ message_intent_fingerprint env m
        → (second.ack.success ≡ false) × (second.ack.code ≡ 409))

answer_existing-IsReplay :
    (env : Env) (m m' : SendMessage) (request' : String) (now' done' : ℕ)
    (first : SendMessageResult) (db : Db) (existing : Message) (original : Option Bytes)
    → first.ack.entity_id ≡ existing.message_id
    → original ≡ some (message_intent_fingerprint env m)
    → IsReplay env m m'
        (first, db)
        (
          answer_existing request' now' done' (message_intent_fingerprint env m') original existing,
          db,
        )
unfolding answer_existing
answer_existing-IsReplay env m m' request' now' done' first db existing original i o = (
  refl,
  ground arith,
  ground arith,
  λ e. ground (arith, o, i, same_bytes_refl (message_intent_fingerprint env m)),
  λ e. ground (
    arith,
    o,
    i,
    eq_of_same_bytes (message_intent_fingerprint env m) (message_intent_fingerprint env m'),
  ),
)

stored-IsReplay :
    (env : Env) (burn_enabled : Bool) (write_ms done_ms now' write' done' : ℕ)
    (user_id request_id request' : String) (m m' n : SendMessage) (db : Db)
    → n.conversation_id ≢ ""
    → n.client_msg_id ≢ ""
    → is_member db n.conversation_id user_id ≡ true
    → m'.conversation_id ≡ n.conversation_id
    → m'.client_msg_id ≡ n.client_msg_id
    → let out =
        store_message env write_ms done_ms user_id request_id
          (message_intent_fingerprint env m)
          n
          db in
      IsReplay env m m' out
        (apply_send_message env burn_enabled now' write' done' user_id request' m' out.1)
stored-IsReplay env burn_enabled write_ms done_ms now' write' done' user_id request_id request' m m'
      n db c k b ec ek =
    let fingerprint = message_intent_fingerprint env m in
    let out = store_message env write_ms done_ms user_id request_id fingerprint n db in
    let (existing, found, id) =
      find_message-after env write_ms done_ms user_id request_id fingerprint n db in
    let known =
      apply_send_message-known env burn_enabled now' write' done' user_id request' m' out.1 existing
        (λ e. c (sym ec ∙ e)) (λ e. k (sym ek ∙ e))
        (rw ec (
          is_member-after env write_ms done_ms user_id request_id fingerprint n db n.conversation_id
            user_id
          ∙ b))
        (rw (ec, ek) found) in
    subst (IsReplay env m m' out) (sym known) (
      answer_existing-IsReplay env m m' request' now' done' out.0 out.1 existing
        (get_intent_fingerprint out.1 existing.message_id)
        (entity-after env write_ms done_ms user_id request_id fingerprint n db ∙ sym id)
        (ap (get_intent_fingerprint out.1) id
          ∙ fingerprint-after env write_ms done_ms user_id request_id fingerprint n db))

-- After a request that was stored and pushed, a request with the same conversation and client
-- message id by the same user changes nothing and publishes nothing. With the same intent
-- fingerprint it succeeds and names the stored message; with another it is refused with code 409.
pub apply_send_message-again :
    (env : Env) (burn_enabled : Bool) (now_ms write_ms done_ms now' write' done' : ℕ)
    (user_id request_id request' : String) (m m' : SendMessage) (db : Db) (push : MessagePush)
    → (apply_send_message env burn_enabled now_ms write_ms done_ms user_id request_id m
        db).0.message_push
      ≡ some push
    → m'.conversation_id ≡ m.conversation_id
    → m'.client_msg_id ≡ m.client_msg_id
    → let out =
        apply_send_message env burn_enabled now_ms write_ms done_ms user_id request_id m db in
      IsReplay env m m' out
        (apply_send_message env burn_enabled now' write' done' user_id request' m' out.1)
apply_send_message-again env burn_enabled now_ms write_ms done_ms now' write' done' user_id
      request_id request' m m' db push pushed same_c same_k =
    let (n, st) =
      pushed-IsStored env burn_enabled now_ms write_ms done_ms user_id request_id m db push
        pushed in
    subst
      (λ o.
        IsReplay env m m' o
          (apply_send_message env burn_enabled now' write' done' user_id request' m' o.1))
      (sym st.stored)
      (stored-IsReplay env burn_enabled write_ms done_ms now' write' done' user_id request_id
        request' m m' n db (λ e. st.named.0 (sym st.same_conversation ∙ e))
        (λ e. st.named.1 (sym st.same_client_msg_id ∙ e)) (rw st.same_conversation st.member)
        (same_c ∙ sym st.same_conversation) (same_k ∙ sym st.same_client_msg_id))
