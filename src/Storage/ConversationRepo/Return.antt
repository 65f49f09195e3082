-- ===== src/Storage/ConversationRepo/Return.antt =====
-- server/storage/repo/conversation_repo.py: a member who comes back has the read position that the
-- member left with, whichever operations took the member out and back.
use mini_im.Prelude.{ℕ, String, Option, none, some, List, ◌≡◌, refl, sym, ◌∙◌, ◌⊎◌, inl, inr, max}
use mini_im.Storage.Db.{Db, Env}
use mini_im.Storage.ConversationRepo.Members.{
  add_members, join_conversation, remove_members, leave_conversation,
}
use mini_im.Storage.ConversationRepo.Positions.{
  position, kept, About, Leaving, Coming, remove_member-Leaving, insert_member-Coming,
}
use mini_im.Storage.ConversationRepo.Kept.{removing, leaving, adding, joining}

-- How a member may go: somebody removes members, or the member leaves.
pub data Departure : Type 0 where
  removed : (operator_id : String) (member_ids : List String) → Departure
  left : Departure

-- How a member may come: somebody adds members, or the member joins.
pub data Arrival : Type 0 where
  added : (operator_id : String) (member_ids : List String) → Arrival
  joined : Arrival

unfoldable pub depart : Env → ℕ → String → String → Departure → Db → Db
unfolding remove_members leave_conversation
depart env now_ms c u (removed operator_id member_ids) db =
    (remove_members env now_ms operator_id c member_ids db).1
depart env now_ms c u left db = (leave_conversation env now_ms u c db).1

unfoldable pub arrive : Env → ℕ → String → String → Arrival → Db → Db
unfolding add_members join_conversation
arrive env now_ms c u (added operator_id member_ids) db =
    (add_members env now_ms operator_id c member_ids db).1
arrive env now_ms c u joined db = (join_conversation env now_ms u c db).1

depart-Leaving :
    (env : Env) (now_ms k old : ℕ) (c u : String) (gone : Departure) (db : Db)
    → About c u (Leaving c u k old) db
    → About c u (Leaving c u k old) (depart env now_ms c u gone db)
unfolding depart
depart-Leaving env now_ms k old c u (removed operator_id member_ids) db h =
    removing c u (Leaving c u k old) env now_ms db h (remove_member-Leaving c u k old now_ms)
      operator_id member_ids
depart-Leaving env now_ms k old c u left db h =
    leaving c u (Leaving c u k old) env now_ms db h (remove_member-Leaving c u k old now_ms)

arrive-Coming :
    (env : Env) (now_ms k : ℕ) (c u : String) (back : Arrival) (db : Db)
    → About c u (Coming c u k) db
    → About c u (Coming c u k) (arrive env now_ms c u back db)
unfolding arrive
arrive-Coming env now_ms k c u (added operator_id member_ids) db h =
    adding c u (Coming c u k) env now_ms db h (insert_member-Coming c u k now_ms) operator_id
      member_ids
arrive-Coming env now_ms k c u joined db h =
    joining c u (Coming c u k) env now_ms db h (insert_member-Coming c u k now_ms)

some-none : (x : ℕ) → some x ≡ none → ⊥
some-none x e = cc

some_injective : {x y : ℕ} → some x ≡ some y → x ≡ y
some_injective e = cc

kept_of :
    (p : Option ℕ) (kept_ k old : ℕ)
    → p ≡ none
    → ((p ≡ some old) × (kept_ ≡ k)) ⊎ ((p ≡ none) × (kept_ ≡ max k old))
    → kept_ ≡ max k old
kept_of p kept_ k old gone (inl (there, e)) = absurd (some-none old (sym there ∙ gone))
kept_of p kept_ k old gone (inr (e, is)) = is

position_of : (p : Option ℕ) (k new : ℕ) → p ≡ some new → (p ≡ none) ⊎ (p ≡ some k) → new ≡ k
position_of p k new there (inl gone) = absurd (some-none new (sym there ∙ gone))
position_of p k new there (inr e) = some_injective (sym there ∙ e)

-- A member of a conversation who is none any more after a call of `remove_members` or the member's
-- own `leave_conversation`, and who is one again after a call of `add_members` or the member's own
-- `join_conversation`, in any later state in which the member was none and the read position that is
-- kept for the member was the same: the new position is the greater of the one with which the member
-- left and the one that was kept before.
pub arrive-depart :
    (env : Env) (c u : String) (gone : Departure) (back : Arrival) (now_ms later_ms old new : ℕ)
    (db later : Db)
    → position c u db ≡ some old
    → position c u (depart env now_ms c u gone db) ≡ none
    → position c u later ≡ none
    → kept c u later ≡ kept c u (depart env now_ms c u gone db)
    → position c u (arrive env later_ms c u back later) ≡ some new
    → new ≡ max (kept c u db) old
arrive-depart env c u gone back now_ms later_ms old new db later there away absent same_ again =
    let k = kept c u later in
    let left_ = depart-Leaving env now_ms (kept c u db) old c u gone db (inl (there, refl)) in
    let came = arrive-Coming env later_ms k c u back later (inl absent, refl) in
    position_of (position c u (arrive env later_ms c u back later)) k new again came.0
    ∙ same_
    ∙ kept_of (position c u (depart env now_ms c u gone db)) _ (kept c u db) old away left_
