-- ===== src/Storage/SyncRepo/Confirm.antt =====
-- server/storage/repo/sync_repo.py: the confirmed cursor of a device only moves forward, and never
-- past the end of the user's stream.
use mathlib.Core.Path.{subst}
use mini_im.Prelude.{
  ℕ, ◌≤◌, ◌≡◌, ◌≢◌, refl, sym, ap, ◌∙◌, ◌⊎◌, inl, inr, String, Bool, true, false, ◌&&◌, not, List,
  [], ◌∷◌, max, if◌then◌else◌, ◌=?◌, ltb, leb, arith,
}
use mini_im.Protocol.{Body}
use mini_im.Storage.Db.{Db, Env, AppliedCursorRow}
use mini_im.Storage.SyncEvent.{max_seq, append_event, append_events, append_sync_events, from_keys}
use mini_im.Storage.SyncEvent.Frame.{append_sync_events-OnlyEvents}
use mini_im.Storage.SyncEvent.Numbering.{Numbered, append_sync_events-Numbered}
use mini_im.Storage.SyncRepo.Applied.{
  SentRow, is_device, applied_cursor, upsert_applied, sent_rows, mark_delivered, delivery_body,
  confirm_row, confirm_rows, set_applied, move_cursor, confirm_applied,
}

applied_cursor-upsert_applied :
    (a : AppliedCursorRow) (u d : String) (rows : List AppliedCursorRow)
    → applied_cursor u d (upsert_applied a rows) ≡ (
        if (a.user_id =? u) && (a.device_id =? d) then a.global_cursor else applied_cursor u d rows)
unfolding applied_cursor upsert_applied is_device
applied_cursor-upsert_applied a u d [] = ground arith
applied_cursor-upsert_applied a u d (r ∷ rows) =
    ground (arith, applied_cursor-upsert_applied a u d rows)

module _ (env : Env) (conversation_id event_type : String) (body : Body) (now_ms : ℕ)
    (u : String) where
  append_events-max_seq_le :
      (us : List String) (db : Db)
      → max_seq u db.sync_events
        ≤ max_seq u (append_events env conversation_id event_type body now_ms us db).1.sync_events
  unfolding append_events append_event max_seq
  append_events-max_seq_le [] db = omega arith
  append_events-max_seq_le (v ∷ us) db = ground (
    arith,
    append_events-max_seq_le us (append_event env conversation_id event_type body now_ms v db).1,
  )

  append_sync_events-max_seq_le :
      (us : List String) (db : Db)
      → max_seq u db.sync_events
        ≤ max_seq u
            (append_sync_events env conversation_id event_type body now_ms us db).1.sync_events
  unfolding append_sync_events
  append_sync_events-max_seq_le us db = append_events-max_seq_le (from_keys us) db

-- What confirming keeps: the confirmed cursors, the numbering, and at least the length of streams.
record Keeps (db db' : Db) : Type 0 where
  applied : db'.sync_applied_cursors ≡ db.sync_applied_cursors
  numbered : Numbered db.sync_events → Numbered db'.sync_events
  longer : (u : String) → max_seq u db.sync_events ≤ max_seq u db'.sync_events

module _ (env : Env) (user_id : String) (now_ms : ℕ) where
  module _ (row : SentRow) (db : Db) where
    abbrev delivered_at : ℕ
    delivered_at = max now_ms row.delivery.sent_at_ms

    confirm_row-Keeps : Keeps db (confirm_row env user_id now_ms row db).1
    unfolding confirm_row mark_delivered
    confirm_row-Keeps = record {
      applied =
          (append_sync_events-OnlyEvents env row.delivery.conversation_id "delivery_updated"
            (delivery_body user_id row delivered_at) now_ms (row.sender_id ∷ user_id ∷ [])
            (mark_delivered user_id row delivered_at db)).applied;
      numbered =
          append_sync_events-Numbered env row.delivery.conversation_id "delivery_updated"
            (delivery_body user_id row delivered_at) now_ms (row.sender_id ∷ user_id ∷ [])
            (mark_delivered user_id row delivered_at db);
      longer = λ u.
          append_sync_events-max_seq_le env row.delivery.conversation_id "delivery_updated"
            (delivery_body user_id row delivered_at) now_ms u (row.sender_id ∷ user_id ∷ [])
            (mark_delivered user_id row delivered_at db);
    }

  confirm_rows-Keeps :
      (rows : List SentRow) (db : Db) → Keeps db (confirm_rows env user_id now_ms rows db).1
  unfolding confirm_rows
  confirm_rows-Keeps [] db = record { applied = refl; numbered = λ h. h; longer = λ u. omega arith }
  confirm_rows-Keeps (row ∷ rows) db =
      let h = confirm_row-Keeps row db in
      let k = confirm_rows-Keeps rows (confirm_row env user_id now_ms row db).1 in
      record {
        applied = k.applied ∙ h.applied;
        numbered = λ n. k.numbered (h.numbered n);
        longer = λ u. omega (arith, h.longer u, k.longer u);
      }

  module _ (device_id : String) (old_cursor cursor : ℕ) (db : Db) where
    abbrev moved : Db
    moved = (move_cursor env user_id device_id old_cursor cursor now_ms db).1

    abbrev confirmed : Db
    confirmed = (confirm_rows env user_id now_ms (sent_rows user_id old_cursor cursor db) db).1

    confirmed-Keeps : Keeps db confirmed
    confirmed-Keeps = confirm_rows-Keeps (sent_rows user_id old_cursor cursor db) db

    moved-applied :
        (u d : String)
        → applied_cursor u d moved.sync_applied_cursors ≡ (
            if (user_id =? u) && (device_id =? d)
            then cursor
            else applied_cursor u d db.sync_applied_cursors)
    unfolding move_cursor set_applied
    moved-applied u d =
        applied_cursor-upsert_applied
          (record {
            user_id = user_id;
            device_id = device_id;
            global_cursor = cursor;
            updated_at_ms = now_ms;
          })
          u d confirmed.sync_applied_cursors
        ∙ ap
            (λ rows. if (user_id =? u) && (device_id =? d) then cursor else applied_cursor u d rows)
            confirmed-Keeps.applied

    moved-Numbered : Numbered db.sync_events → Numbered moved.sync_events
    unfolding move_cursor set_applied
    moved-Numbered = confirmed-Keeps.numbered

    moved_longer : (u : String) → max_seq u db.sync_events ≤ max_seq u moved.sync_events
    unfolding move_cursor set_applied
    moved_longer = confirmed-Keeps.longer

module _ (env : Env) (str : ℕ → String) (reject_ms now_ms : ℕ)
    (user_id device_id request_id : String) (cursor : ℕ) (db : Db) where
  abbrev pub after : Db
  after = (confirm_applied env str reject_ms now_ms user_id device_id request_id cursor db).1

  abbrev old : ℕ
  old = applied_cursor user_id device_id db.sync_applied_cursors

  abbrev accepts : Bool
  accepts = not (device_id =? "") && leb cursor (max_seq user_id db.sync_events)

  after-cases :
      ((accepts && ltb old cursor) ≡ true)
        × (after ≡ moved env user_id now_ms device_id old cursor db)
      ⊎ ((accepts && ltb old cursor) ≡ false) × (after ≡ db)
  unfolding confirm_applied
  after-cases = ground arith

  -- The confirmed cursor of each device after any confirmation: that of the confirming device of
  -- the confirming user becomes the greater of the old one and the sent one, provided that the
  -- request names a device and a cursor within the user's stream; otherwise it keeps its value, as
  -- does that of every other device.
  pub confirm_applied-cursor :
      (u d : String)
      → applied_cursor u d after.sync_applied_cursors ≡ (
          if (user_id =? u) && (device_id =? d) && accepts
          then max old cursor
          else applied_cursor u d db.sync_applied_cursors)
  confirm_applied-cursor u d = elim after-cases [
    | inl (t, e) ↦
        ap (λ db'. applied_cursor u d db'.sync_applied_cursors) e
        ∙ moved-applied env user_id now_ms device_id old cursor db u d
        ∙ ground arith
    | inr (t, e) ↦ ap (λ db'. applied_cursor u d db'.sync_applied_cursors) e ∙ ground arith
  ]

  pub confirm_applied-Numbered : Numbered db.sync_events → Numbered after.sync_events
  confirm_applied-Numbered h = elim after-cases [
    | inl (t, e) ↦
        subst (λ db'. Numbered db'.sync_events) (sym e)
          (moved-Numbered env user_id now_ms device_id old cursor db h)
    | inr (t, e) ↦ subst (λ db'. Numbered db'.sync_events) (sym e) h
  ]

  stream_longer : (u : String) → max_seq u db.sync_events ≤ max_seq u after.sync_events
  stream_longer u = elim after-cases [
    | inl (t, e) ↦
        subst (λ db'. max_seq u db.sync_events ≤ max_seq u db'.sync_events) (sym e)
          (moved_longer env user_id now_ms device_id old cursor db u)
    | inr (t, e) ↦
        subst (λ db'. max_seq u db.sync_events ≤ max_seq u db'.sync_events) (sym e) (omega arith)
  ]

  -- If no device has confirmed past the end of its user's stream, then none has after any
  -- confirmation.
  pub confirm_applied-bounded :
      ((u d : String) → applied_cursor u d db.sync_applied_cursors ≤ max_seq u db.sync_events)
      → (u d : String) → applied_cursor u d after.sync_applied_cursors ≤ max_seq u after.sync_events
  confirm_applied-bounded h u d =
      ground (arith, confirm_applied-cursor u d, stream_longer u, h u d, h user_id device_id)

confirm_applied-quiet :
    (env : Env) (str : ℕ → String) (reject_ms now_ms : ℕ) (user_id device_id request_id : String)
    (cursor : ℕ) (db : Db)
    → device_id ≢ ""
    → cursor ≤ max_seq user_id db.sync_events
    → cursor ≤ applied_cursor user_id device_id db.sync_applied_cursors
    → confirm_applied env str reject_ms now_ms user_id device_id request_id cursor db ≡ (
      record {
        ack = record {
          request_id = request_id;
          success = true;
          code = 0;
          message = "";
          entity_id = str cursor;
          server_time_ms = now_ms;
        };
        sync_events = [];
      },
      db,
    )
unfolding confirm_applied
confirm_applied-quiet env str reject_ms now_ms user_id device_id request_id cursor db h k l =
    ground arith

module _ (env : Env) (str : ℕ → String) (reject_ms now_ms later_ms : ℕ)
    (user_id device_id request_id later_id : String) (cursor : ℕ) (db : Db) where
  -- After a device has confirmed a cursor within its user's stream, each later confirmation of the
  -- same or a lower cursor by the device is acknowledged, publishes no event and changes nothing.
  pub confirm_applied-again :
      (again : ℕ)
      → device_id ≢ ""
      → cursor ≤ max_seq user_id db.sync_events
      → again ≤ cursor
      → let db' = after env str reject_ms now_ms user_id device_id request_id cursor db in
        confirm_applied env str reject_ms later_ms user_id device_id later_id again db' ≡ (
          record {
            ack = record {
              request_id = later_id;
              success = true;
              code = 0;
              message = "";
              entity_id = str again;
              server_time_ms = later_ms;
            };
            sync_events = [];
          },
          db',
        )
  confirm_applied-again again named within lower =
      confirm_applied-quiet env str reject_ms later_ms user_id device_id later_id again
        (after env str reject_ms now_ms user_id device_id request_id cursor db) named
        (omega (
          arith,
          stream_longer env str reject_ms now_ms user_id device_id request_id cursor db user_id,
        ))
        (ground (
          arith,
          confirm_applied-cursor env str reject_ms now_ms user_id device_id request_id cursor db
              user_id device_id,
        ))
