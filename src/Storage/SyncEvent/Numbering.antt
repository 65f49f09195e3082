-- ===== src/Storage/SyncEvent/Numbering.antt =====
-- server/storage/repo/sync_event.py: the events of each user are numbered 1, 2, 3, … with no gap.
use mini_im.Prelude.{
  ℕ, ◌+◌, String, ◌≡◌, refl, ap, ◌∙◌, false, List, [], ◌∷◌, map, arith, if◌then◌else◌, ◌=?◌,
}
use mini_im.Protocol.{Body}
use mini_im.Storage.Db.{Db, Env, SyncEventRow}
use mini_im.Storage.SyncEvent.{
  StoredSyncEvent, contains, from_keys, max_seq, append_event, append_events, append_sync_events,
}
use mini_im.Storage.SyncEvent.Keys.{Distinct, Distinct-from_keys, contains-from_keys}

-- The number of events in a user's stream.
unfoldable pub count : String → List SyncEventRow → ℕ
count user_id [] = 0
count user_id (r ∷ rows) =
    if r.user_id =? user_id then count user_id rows + 1 else count user_id rows

-- Each row's number is its position in its user's stream, the oldest being 1.
abbrev pub Numbered : List SyncEventRow → Type 0
Numbered [] = Unit {0}
Numbered (r ∷ rows) = (r.seq ≡ count r.user_id rows + 1) × Numbered rows

pub max_seq-Numbered :
    (user_id : String) (rows : List SyncEventRow)
    → Numbered rows
    → max_seq user_id rows ≡ count user_id rows
unfolding max_seq count
max_seq-Numbered user_id [] h = refl
max_seq-Numbered user_id (r ∷ rows) h = ground (arith, max_seq-Numbered user_id rows h.1)

-- Who gets which number if each of the users gets one event.
unfoldable pub next_seqs : List String → List SyncEventRow → List (String × ℕ)
next_seqs [] rows = []
next_seqs (u ∷ us) rows = (u, max_seq u rows + 1) ∷ next_seqs us rows

abbrev pub numbers : List StoredSyncEvent → List (String × ℕ)
numbers = map λ e. (e.user_id, e.global_seq)

next_seqs-cons :
    (us : List String) (r : SyncEventRow) (rows : List SyncEventRow)
    → contains r.user_id us ≡ false
    → next_seqs us (r ∷ rows) ≡ next_seqs us rows
unfolding next_seqs max_seq contains
next_seqs-cons [] r rows h = refl
next_seqs-cons (u ∷ us) r rows h = ground (arith, next_seqs-cons us r rows)

module _ (env : Env) (conversation_id event_type : String) (body : Body) (now_ms : ℕ) where
  append_events-Numbered :
      (us : List String) (db : Db)
      → Numbered db.sync_events
      → Numbered (append_events env conversation_id event_type body now_ms us db).1.sync_events
  unfolding append_events append_event
  append_events-Numbered [] db h = h
  append_events-Numbered (u ∷ us) db h =
      append_events-Numbered us (append_event env conversation_id event_type body now_ms u db).1
        (ground (arith, max_seq-Numbered u db.sync_events h))

  next_seqs-append_event :
      (us : List String) (u : String) (db : Db)
      → contains u us ≡ false
      → next_seqs us (append_event env conversation_id event_type body now_ms u db).1.sync_events
        ≡ next_seqs us db.sync_events
  unfolding append_event
  next_seqs-append_event us u db h = next_seqs-cons us _ db.sync_events h

  append_events-numbers :
      (us : List String) (db : Db)
      → Distinct us
      → numbers (append_events env conversation_id event_type body now_ms us db).0
        ≡ next_seqs us db.sync_events
  unfolding append_events append_event next_seqs
  append_events-numbers [] db d = refl
  append_events-numbers (u ∷ us) db d = ap (◌∷◌ (u, max_seq u db.sync_events + 1)) (
      append_events-numbers us (append_event env conversation_id event_type body now_ms u db).1 d.1
      ∙ next_seqs-append_event us u db d.0)

  count-append_event :
      (u other : String) (db : Db)
      → count other (append_event env conversation_id event_type body now_ms u db).1.sync_events
        ≡ (if u =? other then count other db.sync_events + 1 else count other db.sync_events)
  unfolding append_event count
  count-append_event u other db = refl

  append_events-count :
      (us : List String) (db : Db) (other : String)
      → Distinct us
      → count other (append_events env conversation_id event_type body now_ms us db).1.sync_events
        ≡ (if contains other us then count other db.sync_events + 1 else count other db.sync_events)
  unfolding append_events contains
  append_events-count [] db other d = refl
  append_events-count (u ∷ us) db other d =
      append_events-count us (append_event env conversation_id event_type body now_ms u db).1 other
        d.1
      ∙ ground (arith, count-append_event u other db)

  -- Appending events keeps every user's stream numbered from 1 without a gap.
  pub append_sync_events-Numbered :
      (user_ids : List String) (db : Db)
      → Numbered db.sync_events
      → Numbered
          (append_sync_events env conversation_id event_type body now_ms user_ids db).1.sync_events
  unfolding append_sync_events
  append_sync_events-Numbered user_ids db h = append_events-Numbered (from_keys user_ids) db h

  -- Whatever duplicates the list of recipients has: each recipient is returned exactly one event,
  -- in the order of first mention, numbered one above the highest number of that user's stream
  -- before the call; each recipient's stream grows by one event, and every other user's stream
  -- keeps its length.
  pub append_sync_events-numbers :
      (user_ids : List String) (db : Db)
      → (numbers (append_sync_events env conversation_id event_type body now_ms user_ids db).0
          ≡ next_seqs (from_keys user_ids) db.sync_events)
        × ((other : String)
            → count other
                (append_sync_events env conversation_id event_type body now_ms user_ids
                  db).1.sync_events
              ≡ (if contains other user_ids
                  then count other db.sync_events + 1
                  else count other db.sync_events))
  unfolding append_sync_events
  append_sync_events-numbers user_ids db = (
    append_events-numbers (from_keys user_ids) db (Distinct-from_keys user_ids),
    λ other.
        append_events-count (from_keys user_ids) db other (Distinct-from_keys user_ids)
        ∙ ap (λ b. if b then count other db.sync_events + 1 else count other db.sync_events)
            (contains-from_keys user_ids other),
  )
