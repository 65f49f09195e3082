-- ===== src/Storage/DeliveryRepo/Recalls.antt =====
-- server/storage/repo/delivery_repo.py: a recall takes the content of a message away, once.
use mini_im.Prelude.{
  ℕ, ◌≡◌, refl, sym, ap, ◌∙◌, ◌⊎◌, inl, inr, String, true, false, Option, none, some, List, [], ◌∷◌,
  arith, ◌=?◌, any, find?, update_where, Option-cases, Bool-cases, String_discrete,
}
use mathlib.Core.Path.{subst}
use text.Mathlib.TextEquality.{eq_iff}
use mini_im.Protocol.{Body}
use mini_im.Storage.Db.{Db, Env, MessageRow, DeliveryRow}
use mini_im.Storage.SyncEvent.{StoredSyncEvent, append_sync_events}
use mini_im.Storage.SyncEvent.Redact.{redact_message_events}
use mini_im.Storage.SyncEvent.Frame.{OnlyEvents, append_sync_events-OnlyEvents}
use mini_im.Storage.SyncEvent.Scrub.{
  AllScrubbed, redact-AllScrubbed, redact_keeps, append_sync_events-AllScrubbed,
}
use mini_im.Storage.DeliveryRepo.Burn.{all_burned}
use mini_im.Storage.ConversationRepo.{list_member_ids}
use mini_im.Storage.DeliveryRepo.{
  RecallApplyResult, is_message, burn_now, recall_of, recall_rows, apply_recall,
}

update-all_burned :
    (message_id : String) (now_ms : ℕ) (rows : List DeliveryRow)
    → all_burned message_id
        (update_where (λ d. d.server_msg_id =? message_id) (burn_now now_ms) rows)
      ≡ true
unfolding all_burned any update_where burn_now
update-all_burned message_id now_ms [] = refl
update-all_burned message_id now_ms (d ∷ rows) =
    ground (arith, update-all_burned message_id now_ms rows)

find?-recalled :
    (conversation_id message_id : String) (rows : List MessageRow)
    → find? (is_message conversation_id message_id) (
        update_where
          (is_message conversation_id message_id)
          (λ m. record m { recalled = true })
          rows)
      ≡ elim (find? (is_message conversation_id message_id) rows) [
        | none ↦ none
        | some m ↦ some (record m { recalled = true })
      ]
unfolding find? update_where is_message
find?-recalled conversation_id message_id [] = refl
find?-recalled conversation_id message_id (m ∷ rows) =
    ground (arith, find?-recalled conversation_id message_id rows)

module _ (env : Env) (now_ms : ℕ) (user_id conversation_id message_id : String) (db : Db) where
  abbrev pub before : Db
  before = recall_rows env now_ms conversation_id message_id db

  abbrev pub announced : Db
  announced =
      (append_sync_events env conversation_id "recall"
        (Body.recall (recall_of user_id conversation_id message_id now_ms)) now_ms
        (list_member_ids db conversation_id) before).1

  pub announced-OnlyEvents : OnlyEvents before announced
  announced-OnlyEvents =
      append_sync_events-OnlyEvents env conversation_id "recall"
        (Body.recall (recall_of user_id conversation_id message_id now_ms)) now_ms
        (list_member_ids db conversation_id) before

  announced-all_burned : all_burned message_id announced.message_deliveries ≡ true
  unfolding recall_rows redact_message_events
  announced-all_burned =
      ap (all_burned message_id) announced-OnlyEvents.deliveries
      ∙ update-all_burned message_id now_ms db.message_deliveries

  pub announced-AllScrubbed : AllScrubbed env message_id none announced.sync_events
  unfolding recall_rows
  announced-AllScrubbed =
      append_sync_events-AllScrubbed env conversation_id "recall"
        (Body.recall (recall_of user_id conversation_id message_id now_ms)) now_ms
        (ground (arith, eq_iff "recall" "message")) message_id none
        (list_member_ids db conversation_id) before
        (redact-AllScrubbed env message_id none (record db {
          messages =
              update_where (is_message conversation_id message_id)
                (λ m. record m { recalled = true }) db.messages;
          message_deliveries =
              update_where (λ d. d.server_msg_id =? message_id) (burn_now now_ms)
                db.message_deliveries;
        }))

  pub announced_keeps :
      (m u : String)
      → AllScrubbed env m (some u) db.sync_events
      → AllScrubbed env m (some u) announced.sync_events
  unfolding recall_rows
  announced_keeps m u h =
      append_sync_events-AllScrubbed env conversation_id "recall"
        (Body.recall (recall_of user_id conversation_id message_id now_ms)) now_ms
        (ground (arith, eq_iff "recall" "message")) m (some u) (list_member_ids db conversation_id)
        before
        (redact_keeps env message_id none
          (record db {
            messages =
                update_where (is_message conversation_id message_id)
                  (λ r. record r { recalled = true }) db.messages;
            message_deliveries =
                update_where (λ d. d.server_msg_id =? message_id) (burn_now now_ms)
                  db.message_deliveries;
          })
          m (some u) h)

  announced-message :
      find? (is_message conversation_id message_id) announced.messages
      ≡ elim (find? (is_message conversation_id message_id) db.messages) [
        | none ↦ none
        | some m ↦ some (record m { recalled = true })
      ]
  unfolding recall_rows redact_message_events
  announced-message =
      ap (find? (is_message conversation_id message_id)) announced-OnlyEvents.messages
      ∙ find?-recalled conversation_id message_id db.messages

  abbrev target : Option MessageRow
  target = find? (is_message conversation_id message_id) db.messages

  abbrev recall_result : Option RecallApplyResult × Db
  recall_result = apply_recall env now_ms user_id conversation_id message_id db

  -- The message is recalled, its deliveries are burned, and its events have no content.
  abbrev pub Removed : MessageRow → Option RecallApplyResult × Db → Type 0
  Removed row (result, db') =
      (elim result [ none ↦ false | some r ↦ r.updated ] ≡ true)
      × (find? (is_message conversation_id message_id) db'.messages
          ≡ some (record row { recalled = true }))
      × (all_burned message_id db'.message_deliveries ≡ true)
      × AllScrubbed env message_id none db'.sync_events

  abbrev recall_events : List StoredSyncEvent
  recall_events =
      (append_sync_events env conversation_id "recall"
        (Body.recall (recall_of user_id conversation_id message_id now_ms)) now_ms
        (list_member_ids db conversation_id) before).0

  apply_recall-accepted :
      (row : MessageRow)
      → target ≡ some row
      → row.sender_id ≡ user_id
      → row.recalled ≡ false
      → recall_result ≡ (
        some (record {
          recall = recall_of user_id conversation_id message_id now_ms;
          sync_events = recall_events;
          updated = true;
        }),
        announced,
      )
  unfolding apply_recall
  apply_recall-accepted row e s r = ground arith

  -- A user who recalls a message of their own that is not recalled yet: the result is marked as
  -- an update, the message is recalled, each of its deliveries is burned, and every event of the
  -- message, of every user, is marked as recalled and has lost its content but for a reference
  -- to a file.
  pub apply_recall-removes :
      (row : MessageRow)
      → target ≡ some row
      → row.sender_id ≡ user_id
      → row.recalled ≡ false
      → Removed row recall_result
  apply_recall-removes row e s r =
      subst (Removed row) (sym (apply_recall-accepted row e s r))
        (refl, announced-message ∙ ground arith, announced-all_burned, announced-AllScrubbed)

  apply_recall-missing : target ≡ none → recall_result ≡ (none, db)
  unfolding apply_recall
  apply_recall-missing e = ground arith

  apply_recall-foreign :
      (row : MessageRow)
      → target ≡ some row
      → (row.sender_id =? user_id) ≡ false
      → recall_result ≡ (none, db)
  unfolding apply_recall
  apply_recall-foreign row e s = ground arith

  apply_recall-done :
      (row : MessageRow)
      → target ≡ some row
      → row.sender_id ≡ user_id
      → row.recalled ≡ true
      → recall_result ≡ (
        some (record {
          recall = recall_of user_id conversation_id message_id now_ms;
          sync_events = [];
          updated = false;
        }),
        db,
      )
  unfolding apply_recall
  apply_recall-done row e s r = ground arith

  recall_cases :
      (target ≡ none)
      ⊎ ((row : MessageRow) × (target ≡ some row) × ((row.sender_id =? user_id) ≡ false))
      ⊎ ((row : MessageRow) × (target ≡ some row)
          × (row.sender_id ≡ user_id)
          × (row.recalled ≡ true))
      ⊎ ((row : MessageRow) × (target ≡ some row)
          × (row.sender_id ≡ user_id)
          × (row.recalled ≡ false))
  recall_cases = elim (Option-cases target) [
    | inl e ↦ inl e
    | inr (row, e) ↦ elim (String_discrete row.sender_id user_id) [
      | no n ↦ inr (inl (row, e, ground arith))
      | yes s ↦ elim (Bool-cases row.recalled) [
        | inl r ↦ inr (inr (inl (row, e, s, r)))
        | inr r ↦ inr (inr (inr (row, e, s, r)))
      ]
    ]
  ]

module _ (env : Env) (now_ms later_ms : ℕ) (user_id conversation_id message_id : String)
    (db : Db) where
  abbrev pub answer : Option RecallApplyResult → Option RecallApplyResult
  answer none = none
  answer (some _) = some (record {
    recall = recall_of user_id conversation_id message_id later_ms;
    sync_events = [];
    updated = false;
  })

  repeated :
      (first : Option RecallApplyResult × Db)
      → apply_recall env now_ms user_id conversation_id message_id db ≡ first
      → apply_recall env later_ms user_id conversation_id message_id first.1
        ≡ (answer first.0, first.1)
      → apply_recall env later_ms user_id conversation_id message_id
          (apply_recall env now_ms user_id conversation_id message_id db).1
        ≡ (
          answer (apply_recall env now_ms user_id conversation_id message_id db).0,
          (apply_recall env now_ms user_id conversation_id message_id db).1,
        )
  repeated first e h =
      subst
        (λ r. apply_recall env later_ms user_id conversation_id message_id r.1 ≡ (answer r.0, r.1))
        (sym e) h

  -- Whatever a recall did, the same recall again, at any later time, changes no table, adds no
  -- event, and is answered, without an update, if and only if the first one was answered.
  pub apply_recall-again :
      apply_recall env later_ms user_id conversation_id message_id
        (apply_recall env now_ms user_id conversation_id message_id db).1
      ≡ (
        answer (apply_recall env now_ms user_id conversation_id message_id db).0,
        (apply_recall env now_ms user_id conversation_id message_id db).1,
      )
  apply_recall-again = elim (recall_cases env now_ms user_id conversation_id message_id db) [
    | inl e ↦
        repeated (none, db)
          (apply_recall-missing env now_ms user_id conversation_id message_id db e)
          (apply_recall-missing env later_ms user_id conversation_id message_id db e)
    | inr (inl (row, e, s)) ↦
        repeated (none, db)
          (apply_recall-foreign env now_ms user_id conversation_id message_id db row e s)
          (apply_recall-foreign env later_ms user_id conversation_id message_id db row e s)
    | inr (inr (inl (row, e, s, r))) ↦
        repeated
          (
            some (record {
              recall = recall_of user_id conversation_id message_id now_ms;
              sync_events = [];
              updated = false;
            }),
            db,
          )
          (apply_recall-done env now_ms user_id conversation_id message_id db row e s r)
          (apply_recall-done env later_ms user_id conversation_id message_id db row e s r)
    | inr (inr (inr (row, e, s, r))) ↦
        repeated
          (
            some (record {
              recall = recall_of user_id conversation_id message_id now_ms;
              sync_events = recall_events env now_ms user_id conversation_id message_id db;
              updated = true;
            }),
            announced env now_ms user_id conversation_id message_id db,
          )
          (apply_recall-accepted env now_ms user_id conversation_id message_id db row e s r)
          (apply_recall-done env later_ms user_id conversation_id message_id
            (announced env now_ms user_id conversation_id message_id db)
            (record row { recalled = true })
            (announced-message env now_ms user_id conversation_id message_id db ∙ ground arith) s
            refl)
  ]
