-- ===== src/Services/Delivery.antt =====
-- server/services/delivery/service.py: receipts and recalls of clients. The clock readings are
-- arguments: at the start, in the repository, at the end.
use mini_im.Prelude.{
  ℕ, String, Bool, true, false, ◌||◌, Option, none, some, List, [], if◌then◌else◌, ◌=?◌,
}
use mini_im.Protocol.{Ack, Receipt, Recall}
use mini_im.Storage.Db.{Db, Env}
use mini_im.Storage.SyncEvent.{StoredSyncEvent}
use mini_im.Storage.DeliveryRepo.{
  ReceiptApplyResult, RecallApplyResult, apply_receipt, apply_recall,
}

pub record DeliveryServiceResult : Type 0 where
  pub ack : Ack
  pub sync_events : List StoredSyncEvent

unfoldable pub failed : String → ℕ → String → ℕ → DeliveryServiceResult
failed request_id code message now_ms = record {
  ack = record {
    request_id = request_id;
    success = false;
    code = code;
    message = message;
    entity_id = "";
    server_time_ms = now_ms;
  };
  sync_events = [];
}

unfoldable pub done : String → Bool → String → ℕ → List StoredSyncEvent → DeliveryServiceResult
done request_id updated entity_id done_ms sync_events = record {
  ack = record {
    request_id = request_id;
    success = true;
    code = 0;
    message = if updated then "ok" else "ok(idempotent)";
    entity_id = entity_id;
    server_time_ms = done_ms;
  };
  sync_events = sync_events;
}

-- What is answered to the result of `apply_receipt`.
unfoldable pub receipt_answer :
    ℕ → ℕ → String → String → Option ReceiptApplyResult → DeliveryServiceResult
unfolding failed done
receipt_answer now_ms done_ms request_id conversation_id none =
    failed request_id 403 "reader is not a conversation member" now_ms
receipt_answer now_ms done_ms request_id conversation_id (some result) =
    done request_id result.updated conversation_id done_ms result.sync_events

unfoldable pub handle_receipt :
    Env → Bool → ℕ → ℕ → ℕ → String → String → Receipt → Db → DeliveryServiceResult × Db
unfolding failed receipt_answer apply_receipt
handle_receipt env burn_enabled now_ms write_ms done_ms user_id request_id receipt db =
    if receipt.conversation_id =? ""
    then (failed request_id 400 "invalid receipt" now_ms, db)
    else let (result, db') =
        apply_receipt env burn_enabled write_ms user_id receipt.conversation_id
          receipt.last_read_seq db in
      (receipt_answer now_ms done_ms request_id receipt.conversation_id result, db')

unfoldable pub recall_answer :
    ℕ → ℕ → String → String → Option RecallApplyResult → DeliveryServiceResult
unfolding failed done
recall_answer now_ms done_ms request_id message_id none =
    failed request_id 403 "recall rejected" now_ms
recall_answer now_ms done_ms request_id message_id (some result) =
    done request_id result.updated message_id done_ms result.sync_events

unfoldable pub handle_recall :
    Env → ℕ → ℕ → ℕ → String → String → Recall → Db → DeliveryServiceResult × Db
unfolding failed recall_answer apply_recall
handle_recall env now_ms write_ms done_ms user_id request_id recall db =
    if (recall.conversation_id =? "") || (recall.message_id =? "")
    then (failed request_id 400 "invalid recall" now_ms, db)
    else let (result, db') =
        apply_recall env write_ms user_id recall.conversation_id recall.message_id db in
      (recall_answer now_ms done_ms request_id recall.message_id result, db')
