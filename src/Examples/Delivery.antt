-- ===== src/Examples/Delivery.antt =====
-- Receipts and recalls of server/storage/repo/delivery_repo.py on the small server.
use mathlib.Core.Bool.{false≢true}
use mini_im.Prelude.{
  String, sym, ◌∙◌, ◌∷◌, any, false, [], String_discrete, ◌≡◌, refl, true, some, find?, arith,
}
use mini_im.Storage.Db.{Db}
use mini_im.Storage.MessageRepo.{max_conversation_seq}
use mini_im.Storage.ConversationRepo.{is_key}
use mini_im.Storage.DeliveryRepo.{is_message, apply_receipt, apply_recall}
use mini_im.Storage.DeliveryRepo.Receipts.{position_in}
use mini_im.Storage.DeliveryRepo.Position.{apply_receipt-position, apply_receipt-again, reported}
use mini_im.Storage.DeliveryRepo.Recalls.{Removed, answer, apply_recall-removes, apply_recall-again}
use mini_im.Storage.DeliveryRepo.Burn.{all_burned, collect_due_burn_sync_events}
use mini_im.Storage.DeliveryRepo.Hidden.{
  Hidden, is_burned, collect_due_burn_sync_events-Hidden, apply_recall-Hidden,
}
use mini_im.Storage.SyncEvent.Scrub.{AllScrubbed}
use mini_im.Examples.Fixture.{env, posted, hi, hi_delivery}

abbrev read : Db
read = (apply_receipt env true 9 "bob" "g" 7 posted).1

bob_reads : position_in "g" "bob" read.conversation_members ≡ some 1
unfolding position_in apply_receipt is_key String_discrete
bob_reads = refl

apply_receipt-position_example : position_in "g" "bob" read.conversation_members ≡ some 1
unfolding position_in is_key String_discrete max_conversation_seq
apply_receipt-position_example = apply_receipt-position env true 9 "bob" "g" 7 posted "g" "bob"

apply_receipt-again_example :
    apply_receipt env true 10 "bob" "g" 1 read
    ≡ (reported env true "bob" "g" 10 (position_in "g" "bob" read.conversation_members), read)
apply_receipt-again_example = apply_receipt-again env true "bob" "g" 9 7 10 1 posted (omega arith)

hi_found : find? (is_message "g" "m1") posted.messages ≡ some hi
unfolding find? is_message String_discrete
hi_found = refl

apply_recall-removes_example :
    Removed env 9 "ann" "g" "m1" posted hi (apply_recall env 9 "ann" "g" "m1" posted)
apply_recall-removes_example =
    apply_recall-removes env 9 "ann" "g" "m1" posted hi hi_found refl refl

apply_recall-again_example :
    apply_recall env 12 "ann" "g" "m1" (apply_recall env 9 "ann" "g" "m1" posted).1 ≡ (
      answer env 9 12 "ann" "g" "m1" posted (apply_recall env 9 "ann" "g" "m1" posted).0,
      (apply_recall env 9 "ann" "g" "m1" posted).1,
    )
apply_recall-again_example = apply_recall-again env 9 12 "ann" "g" "m1" posted

-- bob has read a message that burns, and its time has come.
abbrev due : Db
due = record posted {
  messages = record hi { burn_mode = 1; burn_ttl_sec = 10 } ∷ [];
  message_deliveries =
      record hi_delivery {
        status = "read";
        read_at_ms = some 6;
        burn_started_at_ms = some 6;
        burn_at_ms = some 16;
      }
      ∷ [];
}

none_burned : (m u : String) → is_burned m u due.message_deliveries ≡ false
unfolding is_burned any
none_burned m u = ground arith

due-Hidden : Hidden env due
due-Hidden m u burned = absurd (false≢true (sym (none_burned m u) ∙ burned))

abbrev swept : Db
swept = (collect_due_burn_sync_events env true 20 50 due).1

bob_burned : is_burned "m1" "bob" swept.message_deliveries ≡ true
unfolding is_burned any collect_due_burn_sync_events all_burned String_discrete
bob_burned = refl

collect_due_burn_sync_events-Hidden_example : AllScrubbed env "m1" (some "bob") swept.sync_events
collect_due_burn_sync_events-Hidden_example =
    collect_due_burn_sync_events-Hidden env true 20 50 due due-Hidden "m1" "bob" bob_burned

apply_recall-Hidden_example : Hidden env (apply_recall env 9 "ann" "g" "m1" due).1
apply_recall-Hidden_example = apply_recall-Hidden env 9 "ann" "g" "m1" due due-Hidden
