-- ===== src/Storage/DeliveryRepo/Receipts.antt =====
-- server/storage/repo/delivery_repo.py: read positions only move forward, within the conversation.
use mathlib.Core.Path.{subst}
use mathlib.Core.Option.{Option}
use mini_im.Prelude.{
  ℕ, ◌≤◌, ◌<◌, ◌≡◌, refl, sym, String, Bool, false, ◌&&◌, Option, none, some, List, [], ◌∷◌, arith,
  if◌then◌else◌, ◌=?◌, max, min, find?, update_where,
}
use mini_im.Protocol.{Body, Receipt}
use mini_im.Storage.Db.{Db, Env, MemberRow}
use mini_im.Storage.SyncEvent.Frame.{
  OnlyEvents, OnlyEvents-refl, OnlyEvents-trans, append_sync_events-OnlyEvents,
}
use mini_im.Storage.SyncEvent.Numbering.{Numbered, append_sync_events-Numbered}
use mini_im.Storage.ReadState.{append_read_counts, rebuild_read_counters}
use mini_im.Storage.ReadState.Frame.{append_read_counts-OnlyEvents, append_read_counts-Numbered}
use mini_im.Storage.MessageRepo.{max_conversation_seq}
use mini_im.Storage.ConversationRepo.{is_key, list_member_ids}
use mini_im.Storage.DeliveryRepo.{
  ReceiptApplyResult, advance, announce_receipt, announce_counts, find_counter, clamp_position,
  receipt_of, read_through, changed_messages, move_position, apply_receipt,
}

-- `SELECT last_read_seq FROM conversation_members WHERE conversation_id = ? AND user_id = ?`
unfoldable pub position_in : String → String → List MemberRow → Option ℕ
position_in conversation_id user_id [] = none
position_in conversation_id user_id (m ∷ rows) =
    if is_key conversation_id user_id m
    then some m.last_read_seq
    else position_in conversation_id user_id rows

announce_counts-OnlyEvents :
    (env : Env) (now_ms : ℕ) (ids : List String) (db : Db)
    → OnlyEvents db (announce_counts env now_ms ids db).1
unfolding announce_counts
announce_counts-OnlyEvents env now_ms [] db = OnlyEvents-refl db
announce_counts-OnlyEvents env now_ms (id ∷ ids) db =
    let rows = find_counter id db.message_read_counters in
    OnlyEvents-trans (append_read_counts-OnlyEvents env rows now_ms db)
      (announce_counts-OnlyEvents env now_ms ids (append_read_counts env rows now_ms db).1)

announce_counts-Numbered :
    (env : Env) (now_ms : ℕ) (ids : List String) (db : Db)
    → Numbered db.sync_events
    → Numbered (announce_counts env now_ms ids db).1.sync_events
unfolding announce_counts
announce_counts-Numbered env now_ms [] db h = h
announce_counts-Numbered env now_ms (id ∷ ids) db h =
    let rows = find_counter id db.message_read_counters in
    announce_counts-Numbered env now_ms ids (append_read_counts env rows now_ms db).1
      (append_read_counts-Numbered env rows now_ms db h)

module _ (env : Env) (receipt : Receipt) (now_ms : ℕ) (db : Db) where
  announce_receipt-OnlyEvents : OnlyEvents db (announce_receipt env receipt now_ms db).1
  unfolding announce_receipt
  announce_receipt-OnlyEvents =
      append_sync_events-OnlyEvents env receipt.conversation_id "receipt" (Body.receipt receipt)
        now_ms (list_member_ids db receipt.conversation_id) db

  announce_receipt-Numbered :
      Numbered db.sync_events → Numbered (announce_receipt env receipt now_ms db).1.sync_events
  unfolding announce_receipt
  announce_receipt-Numbered h =
      append_sync_events-Numbered env receipt.conversation_id "receipt" (Body.receipt receipt)
        now_ms (list_member_ids db receipt.conversation_id) db h

module _ (env : Env) (burn_enabled : Bool) (now_ms : ℕ) (user_id conversation_id : String)
    (old new : ℕ) (db : Db) where
  pub move_position-OnlyEvents :
      OnlyEvents
        (advance burn_enabled now_ms user_id conversation_id old new db)
        (move_position env burn_enabled now_ms user_id conversation_id old new db).1
  unfolding move_position
  move_position-OnlyEvents =
      let receipt = receipt_of user_id conversation_id new now_ms in
      let before = advance burn_enabled now_ms user_id conversation_id old new db in
      OnlyEvents-trans (announce_receipt-OnlyEvents env receipt now_ms before) (
        announce_counts-OnlyEvents env now_ms (changed_messages user_id conversation_id old new db)
          (announce_receipt env receipt now_ms before).1)

  sync_events-advance :
      (advance burn_enabled now_ms user_id conversation_id old new db).sync_events ≡ db.sync_events
  unfolding advance read_through rebuild_read_counters
  sync_events-advance = refl

  pub messages-advance :
      (advance burn_enabled now_ms user_id conversation_id old new db).messages ≡ db.messages
  unfolding advance read_through rebuild_read_counters
  messages-advance = refl

  pub conversations-advance :
      (advance burn_enabled now_ms user_id conversation_id old new db).conversations
      ≡ db.conversations
  unfolding advance read_through rebuild_read_counters
  conversations-advance = refl

  pub members-advance :
      (advance burn_enabled now_ms user_id conversation_id old new db).conversation_members
      ≡ update_where
          (is_key conversation_id user_id)
          (λ m. record m { last_read_seq = new })
          db.conversation_members
  unfolding advance read_through rebuild_read_counters
  members-advance = refl

  pub move_position-Numbered :
      Numbered db.sync_events
      → Numbered
          (move_position env burn_enabled now_ms user_id conversation_id old new db).1.sync_events
  unfolding move_position
  move_position-Numbered h =
      let receipt = receipt_of user_id conversation_id new now_ms in
      let before = advance burn_enabled now_ms user_id conversation_id old new db in
      announce_counts-Numbered env now_ms (changed_messages user_id conversation_id old new db)
        (announce_receipt env receipt now_ms before).1
        (announce_receipt-Numbered env receipt now_ms before
          (subst Numbered (sym sync_events-advance) h))

pub position_in-update :
    (c u c' u' : String) (new : ℕ) (rows : List MemberRow)
    → position_in c' u' (update_where (is_key c u) (λ m. record m { last_read_seq = new }) rows) ≡ (
        if (c =? c') && (u =? u')
        then elim (position_in c u rows) [ none ↦ none | some old ↦ some new ]
        else position_in c' u' rows)
unfolding position_in update_where is_key
position_in-update c u c' u' new [] = ground arith
position_in-update c u c' u' new (m ∷ rows) = ground (arith, position_in-update c u c' u' new rows)

pub position_in-find? :
    (c u : String) (rows : List MemberRow)
    → position_in c u rows
      ≡ elim (find? (is_key c u) rows) [ none ↦ none | some m ↦ some m.last_read_seq ]
unfolding position_in find?
position_in-find? c u [] = refl
position_in-find? c u (m ∷ rows) = ground (arith, position_in-find? c u rows)

module _ (env : Env) (burn_enabled : Bool) (now_ms : ℕ) (user_id conversation_id : String)
    (last_read_seq : ℕ) (db : Db) where
  abbrev pub goal : ℕ → ℕ
  goal old = max old (min last_read_seq (max_conversation_seq conversation_id db.messages))

  abbrev pub unmoved : ℕ → ReceiptApplyResult
  unmoved old = record {
    receipt = receipt_of user_id conversation_id old now_ms;
    sync_events = [];
    updated = false;
  }

  pub apply_receipt-none :
      position_in conversation_id user_id db.conversation_members ≡ none
      → apply_receipt env burn_enabled now_ms user_id conversation_id last_read_seq db ≡ (none, db)
  unfolding apply_receipt
  apply_receipt-none h =
      ground (arith, position_in-find? conversation_id user_id db.conversation_members)

  pub apply_receipt-still :
      (old : ℕ)
      → position_in conversation_id user_id db.conversation_members ≡ some old
      → goal old ≤ old
      → apply_receipt env burn_enabled now_ms user_id conversation_id last_read_seq db
        ≡ (some (unmoved old), db)
  unfolding apply_receipt clamp_position
  apply_receipt-still old h k =
      ground (arith, position_in-find? conversation_id user_id db.conversation_members)

  pub apply_receipt-moves :
      (old : ℕ)
      → position_in conversation_id user_id db.conversation_members ≡ some old
      → old < goal old
      → apply_receipt env burn_enabled now_ms user_id conversation_id last_read_seq db ≡ (
        some (move_position env burn_enabled now_ms user_id conversation_id old (goal old) db).0,
        (move_position env burn_enabled now_ms user_id conversation_id old (goal old) db).1,
      )
  unfolding apply_receipt clamp_position
  apply_receipt-moves old h k =
      ground (arith, position_in-find? conversation_id user_id db.conversation_members)
