-- ===== src/Storage/ConversationRepo/Positions.antt =====
-- server/storage/repo/conversation_repo.py: the read position of a member, in the member's row or kept.
use mathlib.Core.Path.{subst}
use mini_im.Prelude.{
  ℕ, String, true, false, Option, none, some, List, [], ◌∷◌, ◌≡◌, refl, sym, ap, ◌∙◌, ◌⊎◌, inl, inr,
  ◌=?◌, max, find?, update_where, arith, Bool-cases, Option-cases,
}
use mini_im.Protocol.{Body}
use mini_im.Storage.Db.{Db, Env, ReadHistoryRow, MemberRow, uuid4}
use mini_im.Storage.SyncEvent.Frame.{append_sync_events-OnlyEvents}
use mini_im.Storage.ReadState.{upsert_history, preserve_read_position}
use mini_im.Storage.ConversationRepo.{
  ConversationRecord, is_key, conversation_updated_of, unique_user_ids,
  build_conversation_updated_events, keep_read_position, delete_member,
}
use mini_im.Storage.ConversationRepo.Members.{
  kept_read_seq, insert_member, remove_member, set_owner,
}
use mini_im.Storage.ConversationRepo.Rejoin.{removed_history, removed_position}
use mini_im.Storage.DeliveryRepo.Receipts.{position_in, position_in-find?}

same_text : (s t : String) → (s =? t) ≡ true → s ≡ t
same_text s t h = ground arith

same_self : (s : String) → (s =? s) ≡ true
same_self s = ground arith

other_history :
    (c u w : String) (h : ReadHistoryRow) (rows : List ReadHistoryRow)
    → h.user_id ≡ w
    → (w =? u) ≡ false
    → kept_read_seq c u (upsert_history h rows) ≡ kept_read_seq c u rows
unfolding kept_read_seq upsert_history
other_history c u w h [] e n = ground (arith, e, n)
other_history c u w h (r ∷ rows) e n = ground (arith, other_history c u w h rows e n)

role_position :
    (c u c' w : String) (rows : List MemberRow)
    → position_in c u (update_where (is_key c' w) (λ m. record m { role = "owner" }) rows)
      ≡ position_in c u rows
unfolding position_in update_where is_key
role_position c u c' w [] = refl
role_position c u c' w (m ∷ rows) = ground (arith, role_position c u c' w rows)

module _ (c u : String) where
  -- The position of the member, if there is one, and the one that is kept.
  abbrev pub position : Db → Option ℕ
  position db = position_in c u db.conversation_members

  abbrev pub kept : Db → ℕ
  kept db = kept_read_seq c u db.conversation_read_history

  kept_found :
      (now_ms : ℕ) (w : String) (found : Option MemberRow) (db : Db)
      → find? (is_key c w) db.conversation_members ≡ found
      → kept (remove_member c now_ms w db)
        ≡ kept (elim found [
          | none ↦ db
          | some row ↦ preserve_read_position c w row.last_read_seq now_ms db
        ])
  unfolding remove_member delete_member keep_read_position
  kept_found now_ms w found db e =
      ap
        (λ (f : Option MemberRow). kept (elim f as (λ _. Db) [
          | none ↦ db
          | some row ↦ preserve_read_position c w row.last_read_seq now_ms db
        ]))
        e

  kept_absent :
      (now_ms : ℕ) (w : String) (db : Db)
      → position_in c w db.conversation_members ≡ none
      → kept (remove_member c now_ms w db) ≡ kept db
  kept_absent now_ms w db h = elim (Option-cases (find? (is_key c w) db.conversation_members)) [
    | inl e ↦ kept_found now_ms w none db e
    | inr (row, e) ↦ ground (arith, position_in-find? c w db.conversation_members)
  ]

  kept_other :
      (now_ms : ℕ) (w : String) (db : Db)
      → (w =? u) ≡ false
      → kept (remove_member c now_ms w db) ≡ kept db
  unfolding preserve_read_position
  kept_other now_ms w db n = elim (Option-cases (find? (is_key c w) db.conversation_members)) [
    | inl e ↦ kept_found now_ms w none db e
    | inr (row, e) ↦
        kept_found now_ms w (some row) db e
        ∙ other_history c u w
            (record {
              conversation_id = c;
              user_id = w;
              last_read_seq = row.last_read_seq;
              updated_at_ms = now_ms;
            })
            db.conversation_read_history refl n
  ]

  -- Properties of the position and the one that is kept.
  abbrev pub About : (Option ℕ → ℕ → Type 0) → Db → Type 0
  About Q db = Q (position db) (kept db)

  -- The member is there, or is gone and the position is kept.
  abbrev pub Leaving : ℕ → ℕ → Option ℕ → ℕ → Type 0
  Leaving k old p kept_ = ((p ≡ some old) × (kept_ ≡ k)) ⊎ ((p ≡ none) × (kept_ ≡ max k old))

  -- The member is not there, or has the position that was kept.
  abbrev pub Coming : ℕ → Option ℕ → ℕ → Type 0
  Coming k p kept_ = ((p ≡ none) ⊎ (p ≡ some k)) × (kept_ ≡ k)

  self_position : (now_ms : ℕ) (db : Db) → position (remove_member c now_ms u db) ≡ none
  self_position now_ms db = removed_position c u now_ms db c u ∙ rw (same_self c, same_self u) refl

  remove_self :
      (k old now_ms : ℕ) (db : Db)
      → About (Leaving k old) db
      → About (Leaving k old) (remove_member c now_ms u db)
  remove_self k old now_ms db (inl (there, same_)) = inr (
    self_position now_ms db,
    removed_history c u now_ms old db there ∙ ap (λ (n : ℕ). max n old) same_,
  )
  remove_self k old now_ms db (inr (gone, kept_)) =
      inr (self_position now_ms db, kept_absent now_ms u db gone ∙ kept_)

  pub remove_member-Leaving :
      (k old now_ms : ℕ) (w : String) (db : Db)
      → About (Leaving k old) db
      → About (Leaving k old) (remove_member c now_ms w db)
  remove_member-Leaving k old now_ms w db h = elim (Bool-cases (w =? u)) [
    | inl same_ ↦
        subst (λ (x : String). About (Leaving k old) (remove_member c now_ms x db))
          (sym (same_text w u same_)) (remove_self k old now_ms db h)
    | inr n ↦
        subst (λ (x : ℕ). Leaving k old (position (remove_member c now_ms w db)) x)
          (sym (kept_other now_ms w db n))
          (subst (λ (p : Option ℕ). Leaving k old p (kept db))
            (sym (removed_position c w now_ms db c u ∙ ground (arith, n))) h)
  ]

  pub insert_member-Coming :
      (k now_ms : ℕ) (w : String) (db : Db)
      → About (Coming k) db
      → About (Coming k) (insert_member c now_ms w db)
  unfolding insert_member position_in is_key
  insert_member-Coming k now_ms w db h = ground (arith, h)

  pub set_owner-About :
      (Q : Option ℕ → ℕ → Type 0) (w : String) (db : Db) → About Q db → About Q (set_owner c w db)
  unfolding set_owner
  set_owner-About Q w db h =
      subst (λ (p : Option ℕ). Q p (kept db)) (sym (role_position c u c w db.conversation_members))
        h

  pub build-About :
      (Q : Option ℕ → ℕ → Type 0) (env : Env) (r : ConversationRecord) (users : List String)
      (now_ms : ℕ) (db : Db)
      → About Q db
      → About Q (build_conversation_updated_events env r users now_ms db).1
  unfolding build_conversation_updated_events uuid4
  build-About Q env r users now_ms db h =
      let same =
        append_sync_events-OnlyEvents env r.conversation_id "conversation_updated"
          (Body.conversation_updated (conversation_updated_of r (env.uuid db.issued) now_ms)) now_ms
          (unique_user_ids users) (uuid4 env db).1 in
      subst
        (λ (p : Option ℕ). Q p (kept (build_conversation_updated_events env r users now_ms db).1))
        (sym (ap (position_in c u) same.members))
        (subst (Q (position db)) (sym (ap (kept_read_seq c u) same.history)) h)
