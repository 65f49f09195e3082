-- ===== src/Storage/ConversationRepo/Again.antt =====
-- server/storage/repo/conversation_repo.py: a conversation that is created twice is created once.
use mathlib.Core.Path.{subst}
use mini_im.Prelude.{
  ℕ, String, Bool, true, false, ◌&&◌, some, List, [], ◌∷◌, ◌≡◌, sym, ap, ◌∙◌, ◌⊎◌, inl, inr, ◌=?◌,
  find?, arith,
}
use mini_im.Storage.Db.{Db, Env}
use mini_im.Storage.ConversationRepo.{
  ConversationRecord, normalize_member_ids, has_any_user, get_conversation, conversation_updated_of,
  list_member_ids,
}
use mini_im.Storage.ConversationRepo.Create.{
  Creation, CreateConversationResult, find_create_request, finish_creation, leave_transaction,
  create_conversation,
}
use mini_im.Storage.ConversationRepo.Finish.{
  SameRequests, Requested, Finished, found, found_row, find_or_insert-Stored, finish-existing,
  finish-Finished, create-cases,
}

get_conversation-same :
    (db db' : Db) (c : String)
    → SameRequests db db'
    → get_conversation db' c ≡ get_conversation db c
unfolding get_conversation list_member_ids
get_conversation-same db db' c same = ground (arith, same.conversations, same.members)

find_create_request-same :
    (db db' : Db) (owner client : String)
    → SameRequests db db'
    → find_create_request owner client db' ≡ find_create_request owner client db
unfolding find_create_request
find_create_request-same db db' owner client same =
    ap (find? (λ r. (r.user_id =? owner) && (r.client_conv_id =? client))) same.requests

has_any_user-same : (db db' : Db) → db'.users ≡ db.users → has_any_user db' ≡ has_any_user db
unfolding has_any_user
has_any_user-same db db' e = ap (λ us. elim us as (λ _. Bool) [ [] ↦ false | u ∷ rest ↦ true ]) e

from_done :
    (env : Env) (now_ms : ℕ) (owner client c : String) (d : Db) (result : CreateConversationResult)
    (p : Creation × Db)
    → Finished env now_ms owner client c d p
    → p.0 ≡ Creation.done result
    → (result.conversation.conversation_id ≡ c)
      × ((r : ConversationRecord) × (get_conversation d c ≡ some r))
      × SameRequests d p.1
from_done env now_ms owner client c d result (Creation.member_missing, after) h q =
    absurd (ground arith)
from_done env now_ms owner client c d result (Creation.must_exist, after) h q =
    absurd (ground arith)
from_done env now_ms owner client c d result (Creation.done other, after) (i, g, s) q =
    (ground (arith, i, q), g, s)

module _ (env : Env) (now_ms later_ms : ℕ) (owner client title title' : String)
    (ids ids' : List String) (type type' : ℕ) (db : Db) (result : CreateConversationResult) where
  abbrev first : Creation × Db
  first = create_conversation env now_ms owner client title ids type db

  abbrev second : Creation × Db
  second = create_conversation env later_ms owner client title' ids' type' first.1

  -- The identifier that the first creation found or drew, with its state.
  abbrev stored : (String × Bool) × Db
  stored = found env now_ms owner client title ids type db

  -- The state lets the next creation find the conversation.
  abbrev Ready : Db → Type 0
  Ready d =
      ((r : ConversationRecord) × (get_conversation d result.conversation.conversation_id ≡ some r))
      × Requested env now_ms owner client result.conversation.conversation_id d
      × (has_any_user d ≡ true)

  finished-Ready :
      has_any_user db ≡ true
      → first ≡ leave_transaction db (finish_creation env now_ms stored.0.0 stored.0.1 stored.1)
      → first.0 ≡ Creation.done result
      → Ready first.1
  finished-Ready u e q =
      let (same_id, (r, g), same) =
        from_done env now_ms owner client stored.0.0 stored.1 result first
          (subst (Finished env now_ms owner client stored.0.0 stored.1) (sym e)
            (finish-Finished env now_ms owner client db stored.0.0 stored.0.1 stored.1))
          q in
      let ((row, k, l), users) =
        find_or_insert-Stored env now_ms owner client title (normalize_member_ids owner ids) type
          db in
      (
        (
          r,
          get_conversation-same stored.1 first.1 result.conversation.conversation_id same
              ∙ ap (get_conversation stored.1) same_id
              ∙ g,
        ),
        (row, find_create_request-same stored.1 first.1 owner client same ∙ k, l ∙ sym same_id),
        has_any_user-same stored.1 first.1 same.users ∙ has_any_user-same db stored.1 users ∙ u,
      )

  first-Ready : has_any_user db ≡ true → first.0 ≡ Creation.done result → Ready first.1
  first-Ready u q = elim (create-cases env now_ms owner client title ids type db u) [
    | inl e ↦ absurd (ground (arith, ap (λ p. p.0) e, q))
    | inr e ↦ finished-Ready u e q
  ]

  abbrev pub repeated : ConversationRecord → Creation
  repeated r = Creation.done (record {
    conversation = conversation_updated_of r "" later_ms;
    sync_events = [];
    created = false;
  })

  -- Where there are users: after a conversation was created, or found, for a client's identifier,
  -- each later creation by the same owner under that identifier, whatever its title, members and
  -- type, changes no table and publishes no event. It names the same conversation, as it is now,
  -- unless it mentions a user who does not exist.
  pub create_conversation-again :
      has_any_user db ≡ true
      → first.0 ≡ Creation.done result
      → (second ≡ (Creation.member_missing, first.1))
        ⊎ ((r : ConversationRecord) × (get_conversation first.1 result.conversation.conversation_id
              ≡ some r)
            × (second ≡ (repeated r, first.1)))
  create_conversation-again u q =
      let ((r, g), (row, k, l), users) = first-Ready u q in
      let again : found env later_ms owner client title' ids' type' first.1
          ≡ ((row.conversation_id, false), first.1) =
        found_row env later_ms owner client title' (normalize_member_ids owner ids') type' first.1
          row k in
      elim (create-cases env later_ms owner client title' ids' type' first.1 users) [
        | inl e ↦ inl e
        | inr e ↦ inr (
          r,
          g,
          e
              ∙ ap (λ f. leave_transaction first.1 (finish_creation env later_ms f.0.0 f.0.1 f.1))
                  again
              ∙ ap (leave_transaction first.1) (
                  finish-existing env later_ms owner client row.conversation_id first.1 r
                    (ap (get_conversation first.1) l ∙ g)),
        )
      ]
