-- ===== src/Examples/Groups.antt =====
-- Groups of server/storage/repo/conversation_repo.py on the small server.
use mini_im.Prelude.{String_discrete, true, false, none, max, some, [], ◌∷◌, ◌≡◌, ◌⊎◌, refl}
use mini_im.Storage.Db.{Db}
use mini_im.Storage.ConversationRepo.{is_key, has_any_user, get_conversation, ConversationRecord}
use mini_im.Storage.ConversationRepo.Create.{
  Creation, CreateConversationResult, create_conversation,
}
use mini_im.Storage.ConversationRepo.Members.{leave_conversation, join_conversation}
use mini_im.Storage.ConversationRepo.Positions.{kept}
use mini_im.Storage.ConversationRepo.Return.{
  left, joined as joined_again, depart, arrive, arrive-depart,
}
use mini_im.Storage.ConversationRepo.Again.{create_conversation-again, repeated}
use mini_im.Storage.DeliveryRepo.Receipts.{position_in}
use mini_im.Examples.Fixture.{dots, env, joined, posted}

-- bob has read one message.
abbrev read : Db
read = record posted {
  conversation_members =
      record (joined "bob" "member") { last_read_seq = 1 } ∷ joined "ann" "owner" ∷ [];
}

bob_at_one : position_in "g" "bob" read.conversation_members ≡ some 1
unfolding position_in is_key String_discrete
bob_at_one = refl

-- bob leaves the group and joins again.
abbrev without_bob : Db
without_bob = depart env 8 "g" "bob" left read

bob_away : position_in "g" "bob" without_bob.conversation_members ≡ none
unfolding depart leave_conversation position_in is_key String_discrete
bob_away = refl

bob_back :
    position_in "g" "bob" (arrive env 9 "g" "bob" joined_again without_bob).conversation_members
    ≡ some 1
unfolding arrive join_conversation depart leave_conversation position_in is_key String_discrete
bob_back = refl

arrive-depart_example : 1 ≡ max (kept "g" "bob" read) 1
arrive-depart_example =
    arrive-depart env "g" "bob" left joined_again 8 9 1 1 read without_bob bob_at_one bob_away
      bob_away refl bob_back

abbrev nothing : CreateConversationResult
nothing = record {
  conversation = record {
    event_id = "";
    conversation_id = "";
    updated_at_ms = 0;
    title = "";
    type = 0;
    owner_id = "";
    member_ids = [];
  };
  sync_events = [];
  created = false;
}

abbrev result_of : Creation → CreateConversationResult
result_of (Creation.done r) = r
result_of Creation.member_missing = nothing
result_of Creation.must_exist = nothing

abbrev founded : Creation × Db
founded = create_conversation env 5 "ann" "c9" "new" ("bob" ∷ []) 2 posted

founded_done : founded.0 ≡ Creation.done (result_of founded.0)
unfolding create_conversation String_discrete dots
founded_done = refl

posted_used : has_any_user posted ≡ true
unfolding has_any_user
posted_used = refl

create_conversation-again_example :
    (create_conversation env 6 "ann" "c9" "other" [] 2 founded.1
      ≡ (Creation.member_missing, founded.1))
    ⊎ ((r : ConversationRecord) × (get_conversation founded.1
            (result_of founded.0).conversation.conversation_id
          ≡ some r)
        × (create_conversation env 6 "ann" "c9" "other" [] 2 founded.1 ≡ (
          repeated env 5 6 "ann" "c9" "new" "other"
              ("bob" ∷ [])
              []
              2
              2
              posted
              (result_of founded.0)
              r,
          founded.1,
        )))
create_conversation-again_example =
    create_conversation-again env 5 6 "ann" "c9" "new" "other" ("bob" ∷ []) [] 2 2 posted
      (result_of founded.0) posted_used founded_done
