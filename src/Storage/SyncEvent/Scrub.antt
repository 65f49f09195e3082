-- ===== src/Storage/SyncEvent/Scrub.antt =====
-- server/storage/repo/sync_event.py: what redaction leaves in the events of a message.
use mathlib.Core.Bool.{false≢true}
use mini_im.Prelude.{
  ℕ, ◌≡◌, refl, ◌⊎◌, inl, inr, String, Bool, true, false, ◌&&◌, not, Option, none, some, List, [],
  ◌∷◌, ◌==◌, if◌then◌else◌, ◌=?◌, update_where, arith, Bool-cases, sym, ◌∙◌,
}
use mini_im.Protocol.{Bytes, Body, msg_file}
use mini_im.Storage.Db.{Db, Env, SyncEventRow}
use mini_im.Storage.SyncEvent.{append_event, append_events, append_sync_events, from_keys}
use mini_im.Storage.SyncEvent.Redact.{
  purged_message_content, redact_body, redact_row, is_event_of, redact_message_events,
}

module _ (env : Env) where
  -- No content, or no more than a reference to a file.
  abbrev pub IsReference : ℕ → Bytes → Type 0
  IsReference type content =
      (content ≡ [])
      ⊎ ((type ≡ msg_file) × (file_id : String) × (content ≡ env.file_reference file_id))

  -- The payload is a message that is marked as recalled and has no content of its own.
  abbrev pub IsScrubbed : Body → Type 0
  IsScrubbed (Body.message m) = (m.recalled ≡ true) × IsReference m.type m.content
  IsScrubbed (Body.recall _) = Unit {0}
  IsScrubbed (Body.receipt _) = Unit {0}
  IsScrubbed (Body.conversation_updated _) = Unit {0}
  IsScrubbed (Body.file_updated _) = Unit {0}
  IsScrubbed (Body.read_count_updated _) = Unit {0}
  IsScrubbed (Body.delivery_updated _) = Unit {0}

  -- Every event of the message, or the user's events of it, are without content.
  abbrev pub AllScrubbed : String → Option String → List SyncEventRow → Type 0
  AllScrubbed message_id user_id [] = Unit {0}
  AllScrubbed message_id user_id (r ∷ rows) =
      (is_event_of message_id user_id r ≡ true → IsScrubbed r.payload)
      × AllScrubbed message_id user_id rows

  purged-IsReference :
      (type : ℕ) (content : Bytes) → IsReference type (purged_message_content env type content)
  unfolding purged_message_content
  purged-IsReference type content =
      elim (Bool-cases (type == msg_file && not (env.file_id_of content =? ""))) [
        | inl e ↦ inr (ground arith, env.file_id_of content, ground arith)
        | inr e ↦ inl (ground arith)
      ]

  redact_body-IsScrubbed : (body : Body) → IsScrubbed (redact_body env body)
  unfolding redact_body
  redact_body-IsScrubbed (Body.message m) = (refl, purged-IsReference m.type m.content)
  redact_body-IsScrubbed (Body.recall _) = tt
  redact_body-IsScrubbed (Body.receipt _) = tt
  redact_body-IsScrubbed (Body.conversation_updated _) = tt
  redact_body-IsScrubbed (Body.file_updated _) = tt
  redact_body-IsScrubbed (Body.read_count_updated _) = tt
  redact_body-IsScrubbed (Body.delivery_updated _) = tt

  redact_if :
      (message_id : String) (user_id : Option String) (r : SyncEventRow) (b : Bool)
      → is_event_of message_id user_id r ≡ b
      → is_event_of message_id user_id (if b then redact_row env r else r) ≡ true
      → IsScrubbed (if b then redact_row env r else r).payload
  unfolding redact_row
  redact_if message_id user_id r true e h = redact_body-IsScrubbed r.payload
  redact_if message_id user_id r false e h = absurd (false≢true (sym e ∙ h))

  update-AllScrubbed :
      (message_id : String) (user_id : Option String) (rows : List SyncEventRow)
      → AllScrubbed message_id user_id
          (update_where (is_event_of message_id user_id) (redact_row env) rows)
  unfolding update_where redact_row
  update-AllScrubbed message_id user_id [] = tt
  update-AllScrubbed message_id user_id (r ∷ rows) = (
    redact_if message_id user_id r (is_event_of message_id user_id r) refl,
    update-AllScrubbed message_id user_id rows,
  )

  pub redact-AllScrubbed :
      (message_id : String) (user_id : Option String) (db : Db)
      → AllScrubbed message_id user_id (redact_message_events env message_id user_id db).sync_events
  unfolding redact_message_events
  redact-AllScrubbed message_id user_id db = update-AllScrubbed message_id user_id db.sync_events

  redact_if_keeps :
      (message_id : String) (user_id : Option String) (r : SyncEventRow) (b : Bool) (m : String)
      (u : Option String)
      → (is_event_of m u r ≡ true → IsScrubbed r.payload)
      → is_event_of m u (if b then redact_row env r else r) ≡ true
      → IsScrubbed (if b then redact_row env r else r).payload
  unfolding redact_row
  redact_if_keeps message_id user_id r true m u h k = redact_body-IsScrubbed r.payload
  redact_if_keeps message_id user_id r false m u h k = h k

  update_keeps :
      (message_id : String) (user_id : Option String) (rows : List SyncEventRow) (m : String)
      (u : Option String)
      → AllScrubbed m u rows
      → AllScrubbed m u (update_where (is_event_of message_id user_id) (redact_row env) rows)
  unfolding update_where
  update_keeps message_id user_id [] m u h = tt
  update_keeps message_id user_id (r ∷ rows) m u (h, k) = (
    redact_if_keeps message_id user_id r (is_event_of message_id user_id r) m u h,
    update_keeps message_id user_id rows m u k,
  )

  -- Redaction keeps what is without content.
  pub redact_keeps :
      (message_id : String) (user_id : Option String) (db : Db) (m : String) (u : Option String)
      → AllScrubbed m u db.sync_events
      → AllScrubbed m u (redact_message_events env message_id user_id db).sync_events
  unfolding redact_message_events
  redact_keeps message_id user_id db = update_keeps message_id user_id db.sync_events

  event_of_none :
      (m u : String) (r : SyncEventRow)
      → is_event_of m (some u) r ≡ true
      → is_event_of m none r ≡ true
  unfolding is_event_of
  event_of_none m u r h = ground arith

  pub AllScrubbed-user :
      (m u : String) (rows : List SyncEventRow)
      → AllScrubbed m none rows
      → AllScrubbed m (some u) rows
  AllScrubbed-user m u [] h = tt
  AllScrubbed-user m u (r ∷ rows) (h, k) =
      (λ e. h (event_of_none m u r e), AllScrubbed-user m u rows k)

  module _ (conversation_id event_type : String) (body : Body) (now_ms : ℕ)
      (other : (event_type =? "message") ≡ false) (message_id : String) (user : Option String) where
    append_events-AllScrubbed :
        (us : List String) (db : Db)
        → AllScrubbed message_id user db.sync_events
        → AllScrubbed message_id user
            (append_events env conversation_id event_type body now_ms us db).1.sync_events
    unfolding append_events append_event is_event_of
    append_events-AllScrubbed [] db h = h
    append_events-AllScrubbed (u ∷ us) db h =
        append_events-AllScrubbed us
          (append_event env conversation_id event_type body now_ms u db).1 (ground arith)

    pub append_sync_events-AllScrubbed :
        (us : List String) (db : Db)
        → AllScrubbed message_id user db.sync_events
        → AllScrubbed message_id user
            (append_sync_events env conversation_id event_type body now_ms us db).1.sync_events
    unfolding append_sync_events
    append_sync_events-AllScrubbed us db h = append_events-AllScrubbed (from_keys us) db h
