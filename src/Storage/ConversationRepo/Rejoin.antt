-- ===== src/Storage/ConversationRepo/Rejoin.antt =====
-- server/storage/repo/conversation_repo.py: what a member's rows say when the member is taken out and
-- put back.
use mini_im.Prelude.{
  ℕ, String, ◌&&◌, not, none, some, List, [], ◌∷◌, ◌≡◌, refl, ap, ◌∙◌, if◌then◌else◌, ◌=?◌, max,
  find?, filter, arith, Bool-cases, Option-cases, inl, inr,
}
use mini_im.Storage.Db.{Db, ReadHistoryRow, MemberRow}
use mini_im.Storage.ReadState.{upsert_history, preserve_read_position}
use mini_im.Storage.ConversationRepo.{is_key, keep_read_position, delete_member}
use mini_im.Storage.ConversationRepo.Members.{kept_read_seq, insert_member, remove_member}
use mini_im.Storage.ConversationRepo.Ownership.{keep_read_position-SameGroups}
use mini_im.Storage.DeliveryRepo.Receipts.{position_in, position_in-find?}

kept_read_seq-upsert_history :
    (h : ReadHistoryRow) (rows : List ReadHistoryRow)
    → kept_read_seq h.conversation_id h.user_id (upsert_history h rows)
      ≡ max (kept_read_seq h.conversation_id h.user_id rows) h.last_read_seq
unfolding kept_read_seq upsert_history
kept_read_seq-upsert_history h [] = ground arith
kept_read_seq-upsert_history h (r ∷ rows) =
    elim (Bool-cases ((r.conversation_id =? h.conversation_id) && (r.user_id =? h.user_id))) [
      | inl e ↦ rw (e, e) refl
      | inr n ↦ rw (n, n) (kept_read_seq-upsert_history h rows)
    ]

position_in-delete :
    (c u d v : String) (rows : List MemberRow)
    → position_in d v (filter (λ m. not (is_key c u m)) rows)
      ≡ (if (c =? d) && (u =? v) then none else position_in d v rows)
unfolding position_in filter is_key
position_in-delete c u d v [] = ground arith
position_in-delete c u d v (m ∷ rows) = ground (arith, position_in-delete c u d v rows)

-- What a removal leaves in the read history.
pub removed_history :
    (c u : String) (now_ms old : ℕ) (db : Db)
    → position_in c u db.conversation_members ≡ some old
    → kept_read_seq c u (remove_member c now_ms u db).conversation_read_history
      ≡ max (kept_read_seq c u db.conversation_read_history) old
unfolding remove_member delete_member keep_read_position preserve_read_position
removed_history c u now_ms old db h =
    elim (Option-cases (find? (is_key c u) db.conversation_members)) [
      | inl e ↦ ground (arith, position_in-find? c u db.conversation_members)
      | inr (row, e) ↦
          ap
            (λ found.
              kept_read_seq c u
                (elim found as (λ _. Db) [
                  | none ↦ db
                  | some m ↦ preserve_read_position c u m.last_read_seq now_ms db
                ]).conversation_read_history)
            e
          ∙ (kept_read_seq-upsert_history
                (record {
                  conversation_id = c;
                  user_id = u;
                  last_read_seq = row.last_read_seq;
                  updated_at_ms = now_ms;
                })
                db.conversation_read_history
              ∙ ap (max (kept_read_seq c u db.conversation_read_history))
                  (ground (arith, position_in-find? c u db.conversation_members)))
    ]

pub removed_position :
    (c u : String) (now_ms : ℕ) (db : Db) (d v : String)
    → position_in d v (remove_member c now_ms u db).conversation_members
      ≡ (if (c =? d) && (u =? v) then none else position_in d v db.conversation_members)
unfolding remove_member delete_member
removed_position c u now_ms db d v =
    position_in-delete c u d v (keep_read_position c u now_ms db).conversation_members
    ∙ ap (λ rows. if (c =? d) && (u =? v) then none else position_in d v rows)
        (keep_read_position-SameGroups c u now_ms db).members

-- A member whose row is taken out and inserted again has the greater of the position at which the member left and the one kept from before; every
-- other member of every conversation keeps theirs.
pub insert_member-remove_member :
    (c u : String) (now_ms later_ms old : ℕ) (db : Db) (d v : String)
    → position_in c u db.conversation_members ≡ some old
    → position_in d v
        (insert_member c later_ms u (remove_member c now_ms u db)).conversation_members
      ≡ (if (c =? d) && (u =? v)
          then some (max (kept_read_seq c u db.conversation_read_history) old)
          else position_in d v db.conversation_members)
unfolding insert_member position_in is_key
insert_member-remove_member c u now_ms later_ms old db d v h =
    ground (arith, removed_position c u now_ms db d v, removed_history c u now_ms old db h)
