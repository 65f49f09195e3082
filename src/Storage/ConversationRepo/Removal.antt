-- ===== src/Storage/ConversationRepo/Removal.antt =====
-- server/storage/repo/conversation_repo.py: removing and leaving keep every conversation's owner
-- among its members.
use mathlib.Core.Path.{subst}
use mini_im.Prelude.{
  ℕ, String, Bool, true, false, ◌&&◌, not, Option, none, some, List, [], ◌∷◌, ◌≡◌, refl, sym, ap,
  ◌∙◌, if◌then◌else◌, ◌=?◌, filter, arith, String_discrete,
}
use mini_im.Storage.Db.{Db}
use mini_im.Storage.SyncEvent.{contains}
use mini_im.Storage.ConversationRepo.{
  ConversationRecord, keep_read_position, delete_member, unique_user_ids,
}
use mini_im.Storage.ConversationRepo.Members.{remove_member, remove_each, removable, set_owner}
use mini_im.Storage.ConversationRepo.Owner.{
  owner_of, has_member, OwnerJoined, Owned, owner_of-set_owner, has_member-set_role,
  has_member-delete,
}
use mini_im.Storage.ConversationRepo.Ownership.{keep_read_position-SameGroups}

pub contains-filter :
    (u : String) (p : String → Bool) (xs : List String)
    → contains u (filter p xs) ≡ contains u xs && p u
unfolding contains filter
contains-filter u p [] = refl
contains-filter u p (x ∷ xs) = elim (String_discrete x u) [
  | yes e ↦ ground (arith, contains-filter u p xs, ap p e)
  | no n ↦ ground (arith, contains-filter u p xs)
]

remove_member-conversations :
    (c : String) (now_ms : ℕ) (u : String) (db : Db)
    → (remove_member c now_ms u db).conversations ≡ db.conversations
unfolding remove_member delete_member
remove_member-conversations c now_ms u db =
    (keep_read_position-SameGroups c u now_ms db).conversations

remove_member-members :
    (c : String) (now_ms : ℕ) (u : String) (db : Db) (d v : String)
    → has_member d v (remove_member c now_ms u db).conversation_members
      ≡ has_member d v db.conversation_members && not ((c =? d) && (u =? v))
unfolding remove_member delete_member
remove_member-members c now_ms u db d v =
    has_member-delete c u d v (keep_read_position c u now_ms db).conversation_members
    ∙ ap (λ rows. has_member d v rows && not ((c =? d) && (u =? v)))
        (keep_read_position-SameGroups c u now_ms db).members

-- The members of a conversation that has lost one, if that one is not its owner.
pub remove_member-Owned :
    (c : String) (now_ms : ℕ) (u owner : String) (db : Db)
    → owner_of c db.conversations ≡ some owner
    → (u =? owner) ≡ false
    → Owned db
    → Owned (remove_member c now_ms u db)
remove_member-Owned c now_ms u owner db found other h d =
    subst
      (λ rows. OwnerJoined d (owner_of d rows) (remove_member c now_ms u db).conversation_members)
      (sym (remove_member-conversations c now_ms u db))
      (go (owner_of d db.conversations) refl (h d))
  where
    go :
        (o : Option String)
        → owner_of d db.conversations ≡ o
        → OwnerJoined d o db.conversation_members
        → OwnerJoined d o (remove_member c now_ms u db).conversation_members
    go none e k = tt
    go (some v) e k = remove_member-members c now_ms u db d v ∙ ground arith

pub remove_each-Owned :
    (c : String) (now_ms : ℕ) (us : List String) (owner : String) (db : Db)
    → owner_of c db.conversations ≡ some owner
    → contains owner us ≡ false
    → Owned db
    → Owned (remove_each c now_ms us db)
unfolding remove_each contains
remove_each-Owned c now_ms [] owner db found other h = h
remove_each-Owned c now_ms (u ∷ us) owner db found other h =
    remove_each-Owned c now_ms us owner (remove_member c now_ms u db)
      (ap (owner_of c) (remove_member-conversations c now_ms u db) ∙ found) (ground arith)
      (remove_member-Owned c now_ms u owner db found (ground arith) h)

pub contains-removable :
    (r : ConversationRecord) (ids : List String) → contains r.owner_id (removable r ids) ≡ false
unfolding removable
contains-removable r ids =
    contains-filter r.owner_id (λ item. contains item r.member_ids && not (item =? r.owner_id))
      (unique_user_ids ids)
    ∙ ground arith

-- The owner is handed on to a member, and the old owner leaves.
pub handed-Owned :
    (c : String) (now_ms : ℕ) (user new_owner : String) (db : Db)
    → has_member c new_owner db.conversation_members ≡ true
    → (user =? new_owner) ≡ false
    → owner_of c db.conversations ≡ some user
    → Owned db
    → Owned (set_owner c new_owner (remove_member c now_ms user db))
unfolding set_owner
handed-Owned c now_ms user new_owner db joined other found h d =
    subst
      (λ o.
        OwnerJoined d o
          (set_owner c new_owner (remove_member c now_ms user db)).conversation_members)
      (sym (
        owner_of-set_owner c d new_owner (remove_member c now_ms user db).conversations
        ∙ ap
            (λ rows.
              if c =? d
              then elim (owner_of d rows) [ none ↦ none | some _ ↦ some new_owner ]
              else owner_of d rows)
            (remove_member-conversations c now_ms user db)))
      (go (String_discrete c d) (owner_of d db.conversations) refl (h d))
  where
    members :
        (v : String)
        → has_member d v
            (set_owner c new_owner (remove_member c now_ms user db)).conversation_members
          ≡ has_member d v db.conversation_members && not ((c =? d) && (user =? v))
    members v =
        has_member-set_role c new_owner d v (remove_member c now_ms user db).conversation_members
        ∙ remove_member-members c now_ms user db d v

    go :
        (same : Dec (c ≡ d)) (o : Option String)
        → owner_of d db.conversations ≡ o
        → OwnerJoined d o db.conversation_members
        → OwnerJoined d
            (if elim same [ yes _ ↦ true | no _ ↦ false ]
              then elim o [ none ↦ none | some _ ↦ some new_owner ]
              else o)
            (set_owner c new_owner (remove_member c now_ms user db)).conversation_members
    go (yes e) none q k = tt
    go (yes e) (some v) q k =
        members new_owner
        ∙ ground (arith, ap (λ x. has_member x new_owner db.conversation_members) e)
    go (no n) none q k = tt
    go (no n) (some v) q k = members v ∙ ground arith
