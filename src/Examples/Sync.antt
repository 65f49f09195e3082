-- ===== src/Examples/Sync.antt =====
-- Pages and confirmations of server/services/sync/service.py on the small server.
use mini_im.Prelude.{ℕ, String, String_discrete, ◌≡◌, refl, true, some, all, arith}
use mini_im.Storage.Db.{Db}
use mini_im.Storage.SyncEvent.{max_seq}
use mini_im.Storage.SyncEvent.Numbering.{Numbered, count}
use mini_im.Storage.SyncRepo.Applied.{applied_cursor}
use mini_im.Storage.SyncRepo.Confirm.{after, confirm_applied-cursor}
use mini_im.Services.Sync.{SyncRequest, SyncResponse, is_known, handle_sync_request}
use mini_im.Services.Sync.Pages.{Covers, handle_sync_request-Covers}
use mini_im.Examples.Fixture.{env, posted}

abbrev from_start : SyncRequest
from_start = record { global_cursor = 0; limit = 0; conversation_id = "" }

posted-Numbered : Numbered posted.sync_events
unfolding count String_discrete
posted-Numbered = (refl, (refl, tt))

posted_known : all (λ r. is_known r.event_type) posted.sync_events ≡ true
unfolding all is_known String_discrete
posted_known = refl

handle_sync_request-Covers_example :
    (response : SyncResponse) × (handle_sync_request "bob" from_start posted
      ≡ some (response, response.new_global_cursor))
    × Covers 0 50 1 response
unfolding count String_discrete
handle_sync_request-Covers_example =
    handle_sync_request-Covers "bob" from_start posted posted-Numbered posted_known refl
      (omega arith)

abbrev str : ℕ → String
str n = "1"

abbrev confirmed : Db
confirmed = after env str 8 9 "bob" "phone" "r2" 1 posted

confirm_applied-cursor_example : applied_cursor "bob" "phone" confirmed.sync_applied_cursors ≡ 1
unfolding applied_cursor max_seq String_discrete
confirm_applied-cursor_example =
    confirm_applied-cursor env str 8 9 "bob" "phone" "r2" 1 posted "bob" "phone"
