-- ===== src/Examples/Hub.antt =====
-- Two connections of a user, one of which leaves, and the events that the other one is sent.
use mini_im.Prelude.{◌≡◌, refl, ◌&&◌, not, none, some, [], ◌∷◌, filter, String_discrete}
use mini_im.Protocol.{Body}
use mini_im.Storage.SyncEvent.{StoredSyncEvent}
use mini_im.Quic.Dict.{get, put, pop, values}
use mini_im.Quic.Upload.{new_registry, release_owner, release_owned}
use mini_im.Quic.Hub.{
  OnlineSessionHub, new_hub, register, unregister, member, add, discard, bucket_of, settle_bucket,
  is_excluded, fanout_sync_events,
}
use mini_im.Quic.Hub.Online.{registered, unregistered, run, is_online}
use mini_im.Quic.Hub.Fanout.{received, fanout_sync_events-received}

abbrev news : StoredSyncEvent
news = record {
  user_id = "ann";
  global_seq = 1;
  event_id = "x";
  event_type = "receipt";
  payload =
      Body.read_count_updated
        (record { event_id = "x"; conversation_id = "g"; message_id = "m"; unread_count = 0 });
}

abbrev hub : OnlineSessionHub
hub = register "ann" 2 (new_hub 60000)

left : run (unregistered "ann" 1 ∷ registered "ann" 1 ∷ registered "ann" 2 ∷ []) 60000 ≡ some hub
unfolding run new_hub new_registry register unregister release_owner release_owned values get put
    pop member add discard bucket_of settle_bucket String_discrete
left = refl

fanout_sync_events-received_example :
    received 2 (fanout_sync_events (news ∷ []) none hub)
    ≡ filter
        (λ event.
          is_online
            (unregistered "ann" 1 ∷ registered "ann" 1 ∷ registered "ann" 2 ∷ [])
            event.user_id
            2
          && not (is_excluded none 2))
        (news ∷ [])
fanout_sync_events-received_example =
    fanout_sync_events-received
      (unregistered "ann" 1 ∷ registered "ann" 1 ∷ registered "ann" 2 ∷ []) 60000 hub (news ∷ [])
      none 2 left
