-- ===== src/Storage/ConversationRepo/Owner.antt =====
-- server/storage/repo/conversation_repo.py: owners and members after each change of the tables.
use mini_im.Prelude.{
  String, Bool, true, ◌&&◌, not, Option, none, some, List, [], ◌∷◌, map, ◌≡◌, refl, ◌∙◌,
  if◌then◌else◌, ◌=?◌, any, filter, find?, update_where, arith,
}
use mini_im.Storage.Db.{Db, ConversationRow, MemberRow}
use mini_im.Storage.Sql.{order_by, any-order_by}
use mini_im.Storage.SyncEvent.{contains}
use mini_im.Storage.ConversationRepo.{
  ConversationRecord, is_key, joined_before, list_member_ids, get_conversation,
}
use mini_im.Storage.ConversationRepo.Members.{get_group}

-- `SELECT owner_id FROM conversations WHERE conversation_id = ?`
unfoldable pub owner_of : String → List ConversationRow → Option String
owner_of conversation_id [] = none
owner_of conversation_id (c ∷ rows) =
    if c.conversation_id =? conversation_id then some c.owner_id else owner_of conversation_id rows

unfoldable pub has_member : String → String → List MemberRow → Bool
unfolding any is_key
has_member conversation_id user_id rows = any (is_key conversation_id user_id) rows

abbrev pub OwnerJoined : String → Option String → List MemberRow → Type 0
OwnerJoined conversation_id none members = Unit {0}
OwnerJoined conversation_id (some owner) members = has_member conversation_id owner members ≡ true

-- Every conversation has its owner among its members.
abbrev pub Owned : Db → Type 0
Owned db =
    (conversation_id : String)
    → OwnerJoined conversation_id (owner_of conversation_id db.conversations)
        db.conversation_members

pub owner_of-set_title :
    (c d title : String) (rows : List ConversationRow)
    → owner_of d (update_where (λ r. r.conversation_id =? c) (λ r. record r { title = title }) rows)
      ≡ owner_of d rows
unfolding owner_of update_where
owner_of-set_title c d title [] = refl
owner_of-set_title c d title (r ∷ rows) = ground (arith, owner_of-set_title c d title rows)

pub owner_of-set_owner :
    (c d owner : String) (rows : List ConversationRow)
    → owner_of d
        (update_where (λ r. r.conversation_id =? c) (λ r. record r { owner_id = owner }) rows)
      ≡ (if c =? d
          then elim (owner_of d rows) [ none ↦ none | some _ ↦ some owner ]
          else owner_of d rows)
unfolding owner_of update_where
owner_of-set_owner c d owner [] = ground arith
owner_of-set_owner c d owner (r ∷ rows) = ground (arith, owner_of-set_owner c d owner rows)

pub has_member-set_role :
    (c u d v : String) (rows : List MemberRow)
    → has_member d v (update_where (is_key c u) (λ m. record m { role = "owner" }) rows)
      ≡ has_member d v rows
unfolding has_member any update_where is_key
has_member-set_role c u d v [] = refl
has_member-set_role c u d v (m ∷ rows) = ground (arith, has_member-set_role c u d v rows)

pub has_member-delete :
    (c u d v : String) (rows : List MemberRow)
    → has_member d v (filter (λ m. not (is_key c u m)) rows)
      ≡ has_member d v rows && not ((c =? d) && (u =? v))
unfolding has_member any filter is_key
has_member-delete c u d v [] = refl
has_member-delete c u d v (m ∷ rows) = ground (arith, has_member-delete c u d v rows)

contains-map :
    (user_id : String) (rows : List MemberRow)
    → contains user_id (map (λ m. m.user_id) rows) ≡ any (λ m. m.user_id =? user_id) rows
unfolding contains any
contains-map user_id [] = refl
contains-map user_id (m ∷ rows) = ground (arith, contains-map user_id rows)

any-filter_members :
    (c u : String) (rows : List MemberRow)
    → any (λ m. m.user_id =? u) (filter (λ m. m.conversation_id =? c) rows) ≡ has_member c u rows
unfolding any filter has_member is_key
any-filter_members c u [] = refl
any-filter_members c u (m ∷ rows) = ground (arith, any-filter_members c u rows)

-- The listed members are the members.
pub contains-list_member_ids :
    (db : Db) (c u : String)
    → contains u (list_member_ids db c) ≡ has_member c u db.conversation_members
unfolding list_member_ids
contains-list_member_ids db c u =
    contains-map u
      (order_by joined_before (filter (λ m. m.conversation_id =? c) db.conversation_members))
    ∙ any-order_by joined_before (λ m. m.user_id =? u)
        (filter (λ m. m.conversation_id =? c) db.conversation_members)
    ∙ any-filter_members c u db.conversation_members

owner_of-find? :
    (c : String) (rows : List ConversationRow)
    → owner_of c rows
      ≡ elim (find? (λ r. r.conversation_id =? c) rows) [ none ↦ none | some r ↦ some r.owner_id ]
unfolding owner_of find?
owner_of-find? c [] = refl
owner_of-find? c (r ∷ rows) = ground (arith, owner_of-find? c rows)

-- The record of a group has its owner and its members.
pub get_group-some :
    (db : Db) (c : String) (r : ConversationRecord)
    → get_group db c ≡ some r
    → (owner_of c db.conversations ≡ some r.owner_id) × (r.member_ids ≡ list_member_ids db c)
unfolding get_group get_conversation
get_group-some db c r h = (ground (arith, owner_of-find? c db.conversations), ground arith)
