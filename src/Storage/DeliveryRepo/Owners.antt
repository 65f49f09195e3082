-- ===== src/Storage/DeliveryRepo/Owners.antt =====
-- server/storage/repo/delivery_repo.py: receipts and recalls keep every conversation's owner among
-- its members.
use mathlib.Core.Path.{subst}
use mini_im.Prelude.{
  ℕ, String, Bool, Option, none, some, List, [], ◌∷◌, ◌≡◌, refl, sym, ap, ◌∙◌, ◌⊎◌, inl, inr,
  update_where, any, arith, find?, leb, Option-cases, Bool-cases,
}
use mini_im.Storage.Db.{Db, Env, MemberRow}
use mini_im.Storage.SyncEvent.Redact.{redact_message_events}
use mini_im.Storage.MessageRepo.{max_conversation_seq}
use mini_im.Storage.ConversationRepo.{is_key}
use mini_im.Storage.ConversationRepo.Owner.{owner_of, has_member, OwnerJoined, Owned}
use mini_im.Storage.ConversationRepo.Ownership.{Owned-SameGroups}
use mini_im.Storage.DeliveryRepo.{
  apply_receipt, clamp_position, move_position, recall_rows, apply_recall,
}
use mini_im.Storage.DeliveryRepo.Receipts.{
  move_position-OnlyEvents, members-advance, conversations-advance,
}
use mini_im.Storage.DeliveryRepo.Recalls.{announced, announced-OnlyEvents}

-- A position does not make a member.
has_member-read :
    (c u d v : String) (new : ℕ) (rows : List MemberRow)
    → has_member d v (update_where (is_key c u) (λ m. record m { last_read_seq = new }) rows)
      ≡ has_member d v rows
unfolding has_member any update_where is_key
has_member-read c u d v new [] = refl
has_member-read c u d v new (m ∷ rows) = ground (arith, has_member-read c u d v new rows)

module _ (env : Env) (burn_enabled : Bool) (now_ms : ℕ) (user_id c : String) (db : Db) where
  move_position-Owned :
      (old new : ℕ)
      → Owned db
      → Owned (move_position env burn_enabled now_ms user_id c old new db).1
  move_position-Owned old new h d =
      let only = move_position-OnlyEvents env burn_enabled now_ms user_id c old new db in
      subst
        (λ rows.
          OwnerJoined d (owner_of d rows)
            (move_position env burn_enabled now_ms user_id c old new db).1.conversation_members)
        (sym
          (only.conversations ∙ conversations-advance env burn_enabled now_ms user_id c old new db))
        (go (owner_of d db.conversations) (h d))
    where
      go :
          (o : Option String)
          → OwnerJoined d o db.conversation_members
          → OwnerJoined d o
              (move_position env burn_enabled now_ms user_id c old new db).1.conversation_members
      go none k = tt
      go (some v) k =
          ap (has_member d v) (
            (move_position-OnlyEvents env burn_enabled now_ms user_id c old new db).members
            ∙ members-advance env burn_enabled now_ms user_id c old new db)
          ∙ has_member-read c user_id d v new db.conversation_members
          ∙ k

  apply_receipt-cases :
      (last_read_seq : ℕ)
      → ((apply_receipt env burn_enabled now_ms user_id c last_read_seq db).1 ≡ db)
        ⊎ ((old : ℕ) × (new : ℕ) × ((apply_receipt env burn_enabled now_ms user_id c last_read_seq
                db).1
              ≡ (move_position env burn_enabled now_ms user_id c old new db).1))
  unfolding apply_receipt
  apply_receipt-cases last_read_seq =
      elim (Option-cases (find? (is_key c user_id) db.conversation_members)) [
        | inl e ↦ inl (ground arith)
        | inr (m, e) ↦
            elim (Bool-cases (
              leb
                (clamp_position m.last_read_seq last_read_seq (max_conversation_seq c db.messages))
                m.last_read_seq)) [
                  | inl y ↦ inl (ground arith)
                  | inr n ↦ inr (
                    m.last_read_seq,
                    clamp_position m.last_read_seq last_read_seq
                        (max_conversation_seq c db.messages),
                    ground arith,
                  )
                ]
      ]

  pub apply_receipt-Owned :
      (last_read_seq : ℕ)
      → Owned db
      → Owned (apply_receipt env burn_enabled now_ms user_id c last_read_seq db).1
  apply_receipt-Owned last_read_seq h = elim (apply_receipt-cases last_read_seq) [
    | inl e ↦ subst (λ d. Owned d) (sym e) h
    | inr (old, new, e) ↦ subst (λ d. Owned d) (sym e) (move_position-Owned old new h)
  ]

module _ (env : Env) (now_ms : ℕ) (user_id c message_id : String) (db : Db) where
  announced-Owned : Owned db → Owned (announced env now_ms user_id c message_id db)
  unfolding recall_rows redact_message_events
  announced-Owned h =
      let only = announced-OnlyEvents env now_ms user_id c message_id db in
      Owned-SameGroups {db = db} {db' = announced env now_ms user_id c message_id db}
        (record { conversations = only.conversations; members = only.members }) h

  pub apply_recall-cases :
      ((apply_recall env now_ms user_id c message_id db).1 ≡ db)
      ⊎ ((apply_recall env now_ms user_id c message_id db).1
          ≡ announced env now_ms user_id c message_id db)
  unfolding apply_recall
  apply_recall-cases = ground arith

  pub apply_recall-Owned : Owned db → Owned (apply_recall env now_ms user_id c message_id db).1
  apply_recall-Owned h = elim apply_recall-cases [
    | inl e ↦ subst (λ d. Owned d) (sym e) h
    | inr e ↦ subst (λ d. Owned d) (sym e) (announced-Owned h)
  ]
