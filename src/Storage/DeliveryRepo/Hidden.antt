-- ===== src/Storage/DeliveryRepo/Hidden.antt =====
-- server/storage/repo/delivery_repo.py: a user whose copy of a message is burned does not find its
-- content among the user's events.
use mathlib.Core.Path.{subst}
use text.Mathlib.TextEquality.{eq_iff}
use mini_im.Prelude.{
  ℕ, String, String_discrete, Bool, true, false, ◌&&◌, ◌||◌, some, List, [], ◌∷◌, ◌≡◌, sym, ap, ◌∙◌,
  inl, inr, if◌then◌else◌, ◌=?◌, any, update_where, arith, Bool-cases,
}
use mini_im.Storage.Db.{Db, Env, DeliveryRow}
use mini_im.Storage.Sql.{is_some}
use mini_im.Storage.SyncEvent.{StoredSyncEvent, add_key, append_sync_events}
use mini_im.Storage.SyncEvent.Frame.{append_sync_events-OnlyEvents}
use mini_im.Storage.SyncEvent.Redact.{redact_message_events}
use mini_im.Storage.SyncEvent.Scrub.{
  AllScrubbed, redact-AllScrubbed, redact_keeps, AllScrubbed-user, append_sync_events-AllScrubbed,
}
use mini_im.Storage.DeliveryRepo.{burn_now, recall_rows, apply_recall}
use mini_im.Storage.DeliveryRepo.Recalls.{
  announced, announced-OnlyEvents, announced-AllScrubbed, announced_keeps,
}
use mini_im.Storage.DeliveryRepo.Owners.{apply_recall-cases}
use mini_im.Storage.DeliveryRepo.Burn.{
  DueRow, may_burn_out, due_rows, safe_limit, burn_delivery, system_recall, burn_row, burn_rows,
  close_messages, collect_due_burn_sync_events,
}

-- The user's copy of the message is burned.
unfoldable pub is_burned : String → String → List DeliveryRow → Bool
unfolding any
is_burned message_id user_id =
    any λ d. (d.server_msg_id =? message_id) && (d.user_id =? user_id) && is_some d.burned_at_ms

-- No burned copy has its content among the events of its user.
abbrev pub Hidden : Env → Db → Type 0
Hidden env db =
    (message_id user_id : String)
    → is_burned message_id user_id db.message_deliveries ≡ true
    → AllScrubbed env message_id (some user_id) db.sync_events

is_burned-burn_out :
    (m u : String) (now_ms : ℕ) (m' u' : String) (rows : List DeliveryRow)
    → is_burned m' u'
        (update_where (may_burn_out m u now_ms) (λ d. record d { burned_at_ms = some now_ms }) rows)
      ≡ true
    → ((m =? m') && (u =? u')) || is_burned m' u' rows ≡ true
unfolding is_burned any update_where may_burn_out
is_burned-burn_out m u now_ms m' u' [] h = ground arith
is_burned-burn_out m u now_ms m' u' (d ∷ rows) h =
    ground (arith, is_burned-burn_out m u now_ms m' u' rows)

is_burned-burn_now :
    (m : String) (now_ms : ℕ) (m' u' : String) (rows : List DeliveryRow)
    → is_burned m' u' (update_where (λ d. d.server_msg_id =? m) (burn_now now_ms) rows) ≡ true
    → (m =? m') || is_burned m' u' rows ≡ true
unfolding is_burned any update_where burn_now
is_burned-burn_now m now_ms m' u' [] h = ground arith
is_burned-burn_now m now_ms m' u' (d ∷ rows) h =
    ground (arith, is_burned-burn_now m now_ms m' u' rows)

same_pair :
    (s t s' t' : String) → (s =? s') && (t =? t') ≡ true → Path (String × String) (s, t) (s', t')
same_pair s t s' t' h = ground arith

module _ (env : Env) (now_ms : ℕ) where
  abbrev told : DueRow → Db → Db
  told row db =
      (append_sync_events env row.conversation_id "recall" (system_recall now_ms row) now_ms
        (row.user_id ∷ []) (burn_delivery now_ms row db)).1

  told_burned :
      (row : DueRow) (db : Db) (m u : String)
      → is_burned m u (told row db).message_deliveries ≡ true
      → ((row.server_msg_id =? m) && (row.user_id =? u)) || is_burned m u db.message_deliveries
        ≡ true
  unfolding burn_delivery
  told_burned row db m u burned =
      is_burned-burn_out row.server_msg_id row.user_id now_ms m u db.message_deliveries (
        ap (is_burned m u) (
          sym
            (append_sync_events-OnlyEvents env row.conversation_id "recall"
              (system_recall now_ms row) now_ms (row.user_id ∷ [])
              (burn_delivery now_ms row db)).deliveries)
        ∙ burned)

  told_keeps :
      (row : DueRow) (db : Db) (m u : String)
      → AllScrubbed env m (some u) db.sync_events
      → AllScrubbed env m (some u) (told row db).sync_events
  unfolding burn_delivery
  told_keeps row db m u =
      append_sync_events-AllScrubbed env row.conversation_id "recall" (system_recall now_ms row)
        now_ms (ground (arith, eq_iff "recall" "message")) m (some u) (row.user_id ∷ [])
        (burn_delivery now_ms row db)

  burn_row-Hidden :
      (row : DueRow) (db : Db) → Hidden env db → Hidden env (burn_row env now_ms row db).1
  unfolding burn_row redact_message_events
  burn_row-Hidden row db h m u burned =
      elim (Bool-cases ((row.server_msg_id =? m) && (row.user_id =? u))) [
        | inl same ↦
            subst
              (λ p.
                AllScrubbed env p.0 (some p.1)
                  (redact_message_events env row.server_msg_id (some row.user_id)
                    (told row db)).sync_events)
              (same_pair row.server_msg_id row.user_id m u same)
              (redact-AllScrubbed env row.server_msg_id (some row.user_id) (told row db))
        | inr other ↦
            redact_keeps env row.server_msg_id (some row.user_id) (told row db) m (some u)
              (told_keeps row db m u (h m u (ground (arith, told_burned row db m u burned))))
      ]

  abbrev burned_if : Bool → DueRow → Db → List StoredSyncEvent × Db
  burned_if hit row db = if hit then burn_row env now_ms row db else ([], db)

  burned_if-Hidden :
      (hit : Bool) (row : DueRow) (db : Db) → Hidden env db → Hidden env (burned_if hit row db).1
  burned_if-Hidden true row db h = burn_row-Hidden row db h
  burned_if-Hidden false row db h = h

  burn_rows-Hidden :
      (rows : List DueRow) (affected : List String) (db : Db)
      → Hidden env db
      → Hidden env (burn_rows env now_ms rows affected db).1
  unfolding burn_rows
  burn_rows-Hidden [] affected db h = h
  burn_rows-Hidden (row ∷ rows) affected db h =
      let hit = any (may_burn_out row.server_msg_id row.user_id now_ms) db.message_deliveries in
      burn_rows-Hidden rows (if hit then add_key affected row.server_msg_id else affected)
        (burned_if hit row db).1 (burned_if-Hidden hit row db h)

close_messages-Hidden :
    (env : Env) (ids : List String) (db : Db) → Hidden env db → Hidden env (close_messages ids db)
unfolding close_messages
close_messages-Hidden env [] db h = h
close_messages-Hidden env (id ∷ ids) db h = close_messages-Hidden env ids _ h

-- If no burned copy of a message has its content among the events of its user, then none has after
-- a sweep that burns the copies that are due.
pub collect_due_burn_sync_events-Hidden :
    (env : Env) (burn_enabled : Bool) (now_ms limit : ℕ) (db : Db)
    → Hidden env db
    → Hidden env (collect_due_burn_sync_events env burn_enabled now_ms limit db).1
unfolding collect_due_burn_sync_events
collect_due_burn_sync_events-Hidden env true now_ms limit db h =
    let out = burn_rows env now_ms (due_rows now_ms (safe_limit limit) db) [] db in
    close_messages-Hidden env out.0.1 out.1
      (burn_rows-Hidden env now_ms (due_rows now_ms (safe_limit limit) db) [] db h)
collect_due_burn_sync_events-Hidden env false now_ms limit db h = h

module _ (env : Env) (now_ms : ℕ) (user_id c message_id : String) (db : Db) where
  announced_burned :
      (m u : String)
      → is_burned m u (announced env now_ms user_id c message_id db).message_deliveries ≡ true
      → (message_id =? m) || is_burned m u db.message_deliveries ≡ true
  unfolding recall_rows redact_message_events
  announced_burned m u burned = is_burned-burn_now message_id now_ms m u db.message_deliveries (
      ap (is_burned m u) (sym (announced-OnlyEvents env now_ms user_id c message_id db).deliveries)
      ∙ burned)

  announced-Hidden : Hidden env db → Hidden env (announced env now_ms user_id c message_id db)
  announced-Hidden h m u burned = elim (String_discrete message_id m) [
    | yes same ↦
        subst
          (λ n.
            AllScrubbed env n (some u) (announced env now_ms user_id c message_id db).sync_events)
          same
          (AllScrubbed-user env message_id u
            (announced env now_ms user_id c message_id db).sync_events
            (announced-AllScrubbed env now_ms user_id c message_id db))
    | no other ↦
        announced_keeps env now_ms user_id c message_id db m u
          (h m u (ground (arith, announced_burned m u burned)))
  ]

  -- If no burned copy of a message has its content among the events of its user, then none has
  -- after a recall, which burns every copy of its message.
  pub apply_recall-Hidden :
      Hidden env db → Hidden env (apply_recall env now_ms user_id c message_id db).1
  apply_recall-Hidden h = elim (apply_recall-cases env now_ms user_id c message_id db) [
    | inl e ↦ subst (λ d. Hidden env d) (sym e) h
    | inr e ↦ subst (λ d. Hidden env d) (sym e) (announced-Hidden h)
  ]
