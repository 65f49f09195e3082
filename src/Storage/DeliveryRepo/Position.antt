-- ===== src/Storage/DeliveryRepo/Position.antt =====
-- server/storage/repo/delivery_repo.py: read positions only move forward, within the conversation.
use mathlib.Core.Path.{subst}
use mini_im.Prelude.{
  ℕ, ◌≤◌, ◌<◌, ◌≡◌, sym, ap, ◌∙◌, ◌⊎◌, inl, inr, String, Bool, false, ◌&&◌, Option, none, some, [],
  arith, if◌then◌else◌, ◌=?◌, max, min, Option-cases,
}
use mini_im.Storage.Db.{Db, Env}
use mini_im.Storage.SyncEvent.Numbering.{Numbered}
use mini_im.Storage.MessageRepo.{max_conversation_seq}
use mini_im.Storage.DeliveryRepo.{ReceiptApplyResult, receipt_of, move_position, apply_receipt}
use mini_im.Storage.DeliveryRepo.Receipts.{
  position_in, position_in-update, messages-advance, members-advance, move_position-OnlyEvents,
  move_position-Numbered, apply_receipt-none, apply_receipt-still, apply_receipt-moves,
}

module _ (env : Env) (burn_enabled : Bool) (now_ms : ℕ) (user_id conversation_id : String)
    (old new : ℕ) (db : Db) where
  abbrev after_move : Db
  after_move = (move_position env burn_enabled now_ms user_id conversation_id old new db).1

  messages-move_position : after_move.messages ≡ db.messages
  messages-move_position =
      (move_position-OnlyEvents env burn_enabled now_ms user_id conversation_id old new db).messages
      ∙ messages-advance env burn_enabled now_ms user_id conversation_id old new db

  position_in-move_position :
      (c u : String)
      → position_in c u after_move.conversation_members ≡ (
          if (conversation_id =? c) && (user_id =? u)
          then elim (position_in conversation_id user_id db.conversation_members) [
            | none ↦ none
            | some _ ↦ some new
          ]
          else position_in c u db.conversation_members)
  position_in-move_position c u =
      ap (position_in c u) (
        (move_position-OnlyEvents env burn_enabled now_ms user_id conversation_id old new
          db).members
        ∙ members-advance env burn_enabled now_ms user_id conversation_id old new db)
      ∙ position_in-update conversation_id user_id c u new db.conversation_members

module _ (env : Env) (burn_enabled : Bool) (now_ms : ℕ) (user_id conversation_id : String)
    (last_read_seq : ℕ) (db : Db) where
  abbrev after : Db
  after = (apply_receipt env burn_enabled now_ms user_id conversation_id last_read_seq db).1

  abbrev reach : ℕ
  reach = min last_read_seq (max_conversation_seq conversation_id db.messages)

  position_cases :
      (position_in conversation_id user_id db.conversation_members ≡ none)
      ⊎ ((old : ℕ) × (position_in conversation_id user_id db.conversation_members ≡ some old)
          × ((max old reach ≤ old) ⊎ (old < max old reach)))
  position_cases =
      elim (Option-cases (position_in conversation_id user_id db.conversation_members)) [
        | inl e ↦ inl e
        | inr (old, e) ↦ inr (old, e, ground arith)
      ]

  -- A receipt moves the read position of its reader in its conversation to the greater of the old
  -- position and the reported one, the reported one capped at the conversation's highest message
  -- number, and leaves every other position of every member as it was. A reader who is not a
  -- member gets no position.
  pub apply_receipt-position :
      (c u : String)
      → position_in c u after.conversation_members ≡ (
          if (conversation_id =? c) && (user_id =? u)
          then elim (position_in conversation_id user_id db.conversation_members) [
            | none ↦ none
            | some old ↦
                some
                  (max old (min last_read_seq (max_conversation_seq conversation_id db.messages)))
          ]
          else position_in c u db.conversation_members)
  apply_receipt-position c u = elim position_cases [
    | inl e ↦
        ap (λ r. position_in c u r.1.conversation_members)
          (apply_receipt-none env burn_enabled now_ms user_id conversation_id last_read_seq db e)
        ∙ ground arith
    | inr (old, e, inl k) ↦
        ap (λ r. position_in c u r.1.conversation_members)
          (apply_receipt-still env burn_enabled now_ms user_id conversation_id last_read_seq db old
            e k)
        ∙ ground arith
    | inr (old, e, inr k) ↦
        ap (λ r. position_in c u r.1.conversation_members)
          (apply_receipt-moves env burn_enabled now_ms user_id conversation_id last_read_seq db old
            e k)
        ∙ position_in-move_position env burn_enabled now_ms user_id conversation_id old
            (max old reach) db c u
        ∙ ground arith
  ]

  messages-apply_receipt : after.messages ≡ db.messages
  messages-apply_receipt = elim position_cases [
    | inl e ↦
        ap (λ r. r.1.messages)
          (apply_receipt-none env burn_enabled now_ms user_id conversation_id last_read_seq db e)
    | inr (old, e, inl k) ↦
        ap (λ r. r.1.messages)
          (apply_receipt-still env burn_enabled now_ms user_id conversation_id last_read_seq db old
            e k)
    | inr (old, e, inr k) ↦
        ap (λ r. r.1.messages)
          (apply_receipt-moves env burn_enabled now_ms user_id conversation_id last_read_seq db old
            e k)
        ∙ messages-move_position env burn_enabled now_ms user_id conversation_id old (max old reach)
            db
  ]

  -- A receipt keeps the numbering of the event streams.
  pub apply_receipt-Numbered : Numbered db.sync_events → Numbered after.sync_events
  apply_receipt-Numbered h = elim position_cases [
    | inl e ↦
        subst (λ r. Numbered r.1.sync_events)
          (sym
            (apply_receipt-none env burn_enabled now_ms user_id conversation_id last_read_seq db e))
          h
    | inr (old, e, inl k) ↦
        subst (λ r. Numbered r.1.sync_events)
          (sym (
            apply_receipt-still env burn_enabled now_ms user_id conversation_id last_read_seq db old
              e k))
          h
    | inr (old, e, inr k) ↦
        subst (λ r. Numbered r.1.sync_events)
          (sym (
            apply_receipt-moves env burn_enabled now_ms user_id conversation_id last_read_seq db old
              e k))
          (move_position-Numbered env burn_enabled now_ms user_id conversation_id old
            (max old reach) db h)
  ]

module _ (env : Env) (burn_enabled : Bool) (user_id conversation_id : String) where
  -- What a receipt gives that does not move the position.
  abbrev pub reported : ℕ → Option ℕ → Option ReceiptApplyResult
  reported now_ms none = none
  reported now_ms (some position) = some (record {
    receipt = record {
      event_id = "";
      conversation_id = conversation_id;
      last_read_seq = position;
      read_at_ms = now_ms;
      reader_id = user_id;
    };
    sync_events = [];
    updated = false;
  })

  apply_receipt-quiet :
      (now_ms seq : ℕ) (db : Db)
      → ((position : ℕ)
          → position_in conversation_id user_id db.conversation_members ≡ some position
          → min seq (max_conversation_seq conversation_id db.messages) ≤ position)
      → apply_receipt env burn_enabled now_ms user_id conversation_id seq db
        ≡ (reported now_ms (position_in conversation_id user_id db.conversation_members), db)
  unfolding receipt_of
  apply_receipt-quiet now_ms seq db h =
      elim (Option-cases (position_in conversation_id user_id db.conversation_members)) [
        | inl e ↦
            apply_receipt-none env burn_enabled now_ms user_id conversation_id seq db e
            ∙ ground arith
        | inr (position, e) ↦
            apply_receipt-still env burn_enabled now_ms user_id conversation_id seq db position e
              (ground (arith, h position e))
            ∙ ground arith
      ]

  -- After a receipt, a receipt of the same reader for the same or a lower message number, at any
  -- later time, changes no table, adds no event and reports the position that the reader has.
  pub apply_receipt-again :
      (now_ms last_read_seq later_ms seq : ℕ) (db : Db)
      → seq ≤ last_read_seq
      → apply_receipt env burn_enabled later_ms user_id conversation_id seq
          (apply_receipt env burn_enabled now_ms user_id conversation_id last_read_seq db).1
        ≡ (
          reported later_ms (
              position_in conversation_id user_id
                (apply_receipt env burn_enabled now_ms user_id conversation_id last_read_seq
                  db).1.conversation_members),
          (apply_receipt env burn_enabled now_ms user_id conversation_id last_read_seq db).1,
        )
  apply_receipt-again now_ms last_read_seq later_ms seq db h =
      apply_receipt-quiet later_ms seq
        (apply_receipt env burn_enabled now_ms user_id conversation_id last_read_seq db).1
        (λ position e. ground (
          arith,
          e,
          apply_receipt-position env burn_enabled now_ms user_id conversation_id last_read_seq db
              conversation_id user_id,
          messages-apply_receipt env burn_enabled now_ms user_id conversation_id last_read_seq db,
        ))
