-- ===== src/Quic/Hub.antt =====
-- server/quic/server.py, `OnlineSessionHub`: the connections of the users that are online. A
-- connection is a number; a set of connections is a list, in no order that a theorem uses.
pub mod Buckets
pub mod Online
pub mod Fanout
use mini_im.Prelude.{
  ℕ, String, Bool, true, false, ◌&&◌, ◌||◌, not, Option, none, some, List, [], ◌∷◌, ◌++◌,
  if◌then◌else◌, ◌==◌,
}
use mini_im.Storage.SyncEvent.{StoredSyncEvent}
use mini_im.Quic.Dict.{get, put, remove}
use mini_im.Quic.Upload.{UploadRegistry, new_registry, same_file, release_owner}

pub record OnlineSessionHub : Type 0 where
  pub uploads : UploadRegistry
  pub protocols : List (String × List ℕ)

unfoldable pub new_hub : ℕ → OnlineSessionHub
unfolding new_registry
new_hub upload_idle_ms = record { uploads = new_registry upload_idle_ms; protocols = [] }

-- `protocol in bucket`, `bucket.add(protocol)` and `bucket.discard(protocol)`.
unfoldable pub member : ℕ → List ℕ → Bool
member p [] = false
member p (q ∷ bucket) = p == q || member p bucket

unfoldable pub add : ℕ → List ℕ → List ℕ
unfolding member
add p bucket = if member p bucket then bucket else p ∷ bucket

unfoldable pub discard : ℕ → List ℕ → List ℕ
discard p [] = []
discard p (q ∷ bucket) = let rest = discard p bucket in if p == q then rest else q ∷ rest

-- `self.m_protocols.get(user_id, set())`
unfoldable pub bucket_of : String → List (String × List ℕ) → List ℕ
unfolding get
bucket_of user_id protocols = elim (get same_file user_id protocols) [
  | none ↦ []
  | some bucket ↦ bucket
]

unfoldable pub register : String → ℕ → OnlineSessionHub → OnlineSessionHub
unfolding add bucket_of put
register user_id protocol hub = record hub {
  protocols = put same_file user_id (add protocol (bucket_of user_id hub.protocols)) hub.protocols;
}

-- What is left of a bucket; an empty one is popped.
unfoldable pub settle_bucket : String → List ℕ → List (String × List ℕ) → List (String × List ℕ)
unfolding put remove
settle_bucket user_id [] protocols = remove same_file user_id protocols
settle_bucket user_id (q ∷ bucket) protocols = put same_file user_id (q ∷ bucket) protocols

-- `none` is the `KeyError` of `release_owner`.
unfoldable pub unregister : String → ℕ → OnlineSessionHub → Option OnlineSessionHub
unfolding release_owner get discard settle_bucket
unregister user_id protocol hub = elim (release_owner protocol none hub.uploads) [
  | none ↦ none
  | some uploads ↦ elim (get same_file user_id hub.protocols) [
    | none ↦ some (record hub { uploads = uploads })
    | some bucket ↦ some (record {
      uploads = uploads;
      protocols = settle_bucket user_id (discard protocol bucket) hub.protocols;
    })
  ]
]

-- `exclude_protocol is not None and protocol is exclude_protocol`
unfoldable pub is_excluded : Option ℕ → ℕ → Bool
is_excluded none p = false
is_excluded (some q) p = p == q

-- The calls of `send_sync_event` that `fanout_sync_events` makes, in order.
unfoldable pub send_to : StoredSyncEvent → Option ℕ → List ℕ → List (ℕ × StoredSyncEvent)
unfolding is_excluded
send_to event exclude [] = []
send_to event exclude (p ∷ bucket) =
    let rest = send_to event exclude bucket in
    if is_excluded exclude p then rest else (p, event) ∷ rest

unfoldable pub fanout_sync_events :
    List StoredSyncEvent → Option ℕ → OnlineSessionHub → List (ℕ × StoredSyncEvent)
unfolding bucket_of send_to
fanout_sync_events [] exclude hub = []
fanout_sync_events (event ∷ events) exclude hub =
    send_to event exclude (bucket_of event.user_id hub.protocols)
    ++ fanout_sync_events events exclude hub
