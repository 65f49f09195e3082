-- ===== src/Quic/Hub/Fanout.antt =====
-- server/quic/server.py, `OnlineSessionHub`: whom the events reach.
use mathlib.Core.Path.{subst}
use mini_im.Prelude.{
  ℕ, ◌≡◌, refl, sym, ap, ◌∙◌, inl, inr, Bool, true, false, ◌&&◌, not, Option, some, List, [], ◌∷◌,
  ◌++◌, arith, if◌then◌else◌, ◌==◌, Bool-cases, filter,
}
use mini_im.Storage.SyncEvent.{StoredSyncEvent}
use mini_im.Quic.Upload.Consistent.{same_number}
use mini_im.Quic.Hub.{OnlineSessionHub, member, bucket_of, is_excluded, send_to, fanout_sync_events}
use mini_im.Quic.Hub.Online.{Call, is_online, run, run-Agrees}
use mini_im.Quic.Hub.Buckets.{Distinct}

-- The events that a connection was sent, in order.
unfoldable pub received : ℕ → List (ℕ × StoredSyncEvent) → List StoredSyncEvent
received p [] = []
received p ((q, event) ∷ sends) =
    let rest = received p sends in if p == q then event ∷ rest else rest

received-append :
    (p : ℕ) (a b : List (ℕ × StoredSyncEvent)) → received p (a ++ b) ≡ received p a ++ received p b
unfolding received
received-append p [] b = refl
received-append p ((q, event) ∷ a) b = elim (Bool-cases (p == q)) [
  | inl e ↦ rw e (ap (◌∷◌ event) (received-append p a b))
  | inr n ↦ rw n (received-append p a b)
]

received-none :
    (p : ℕ) (event : StoredSyncEvent) (exclude : Option ℕ) (bucket : List ℕ)
    → member p bucket ≡ false
    → received p (send_to event exclude bucket) ≡ []
unfolding received send_to member
received-none p event exclude [] h = refl
received-none p event exclude (q ∷ bucket) h = ground (arith, received-none p event exclude bucket)

received-send_to :
    (p : ℕ) (event : StoredSyncEvent) (exclude : Option ℕ) (bucket : List ℕ)
    → Distinct bucket
    → received p (send_to event exclude bucket)
      ≡ (if member p bucket && not (is_excluded exclude p) then event ∷ [] else [])
unfolding received send_to member
received-send_to p event exclude [] h = refl
received-send_to p event exclude (q ∷ bucket) h = elim (Bool-cases (p == q)) [
  | inl same_ ↦
      let pq : p ≡ q = same_number p q same_ in
      let absent : member p bucket ≡ false =
        subst (λ (x : ℕ). member x bucket ≡ false) (sym pq) h.0 in
      let excluded_same : is_excluded exclude q ≡ is_excluded exclude p =
        ap (is_excluded exclude) (sym pq) in
      rw (excluded_same, same_)
        (elim (Bool-cases (is_excluded exclude p)) [
          | inl x ↦ rw x (received-none p event exclude bucket absent)
          | inr k ↦ rw (k, same_) (ap (◌∷◌ event) (received-none p event exclude bucket absent))
        ])
  | inr other ↦ rw other (elim (Bool-cases (is_excluded exclude q)) [
    | inl x ↦ rw x (received-send_to p event exclude bucket h.1)
    | inr k ↦ rw (k, other) (received-send_to p event exclude bucket h.1)
  ])
]

one_more :
    (b : Bool) (event : StoredSyncEvent) (rest : List StoredSyncEvent)
    → ((if b then event ∷ [] else []) ++ rest) ≡ (if b then event ∷ rest else rest)
one_more true event rest = refl
one_more false event rest = refl

-- After any calls of `register` and `unregister` that raise no error, the events that
-- `fanout_sync_events` sends to a connection, in the order in which it sends them, are exactly the
-- events it is given, in their order, whose user the connection is online for, each once; and none
-- if the connection is the excluded one.
pub fanout_sync_events-received :
    (calls : List Call) (idle : ℕ) (hub : OnlineSessionHub) (events : List StoredSyncEvent)
    (exclude : Option ℕ) (p : ℕ)
    → run calls idle ≡ some hub
    → received p (fanout_sync_events events exclude hub)
      ≡ filter (λ event. is_online calls event.user_id p && not (is_excluded exclude p)) events
unfolding fanout_sync_events filter received
fanout_sync_events-received calls idle hub [] exclude p e = refl
fanout_sync_events-received calls idle hub (event ∷ events) exclude p e =
    let agrees = run-Agrees calls idle hub e event.user_id in
    let bucket = bucket_of event.user_id hub.protocols in
    received-append p (send_to event exclude bucket) (fanout_sync_events events exclude hub)
    ∙ ap
        (λ (sent : List StoredSyncEvent).
          sent ++ received p (fanout_sync_events events exclude hub))
        (received-send_to p event exclude bucket agrees.0
          ∙ ap (λ (b : Bool). if b && not (is_excluded exclude p) then event ∷ [] else [])
              (agrees.1 p))
    ∙ ap
        (λ (rest : List StoredSyncEvent).
          (if is_online calls event.user_id p && not (is_excluded exclude p)
            then event ∷ []
            else [])
          ++ rest)
        (fanout_sync_events-received calls idle hub events exclude p e)
    ∙ one_more (is_online calls event.user_id p && not (is_excluded exclude p)) event _
