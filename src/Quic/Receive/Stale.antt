-- ===== src/Quic/Receive/Stale.antt =====
-- server/quic/server.py: an upload stream whose lease went to another connection, or was released.
use mini_im.Prelude.{
  ℕ, suc, ◌≡◌, refl, ap, ◌∙◌, inl, inr, String, Bool, true, false, ◌||◌, Option, some, List, [],
  ◌∷◌, ◌++◌, arith, ◌=?◌, length, Bool-cases,
}
use mini_im.Protocol.{Bytes}
use mini_im.Storage.Db.{Env}
use mini_im.Quic.Dict.{get, get-put}
use mini_im.Quic.Upload.{current}
use mini_im.Quic.Upload.Consistent.{Consistent}
use mini_im.Quic.Download.Jobs.{same_stream_sound, same_stream_refl}
use mini_im.Quic.Receive.{FileStreamState, Receiver, Write, same_stream, put_state, contains}
use mini_im.Quic.Receive.Handle.{
  FaultConfig, extended, receive_bound, handle_file_stream_data, run_flush, accepted, enqueue_flush,
}
use mini_im.Quic.Receive.Flush.{Held}
use mini_im.Quic.Receive.Going.{extended-Held}
use mini_im.Quic.Receive.Whole.{enqueue-accepted}
use mini_im.Quic.Receive.Run.{Event, arrived, expired, flushed, happen, run}
use mini_im.Quic.Receive.Reject.{Same, Lost, bound-Rejected, flush-Rejected}

or_true : (a b : Bool) → b ≡ true → (a || b) ≡ true
or_true a b h = ground arith

module _ (stream_id : ℕ) where
  module _ (env : Env) (config : FaultConfig) (writes : ℕ → Write) (now : ℕ) where
    put-Held :
        (state : FileStreamState) (r : Receiver)
        → Held stream_id state (put_state stream_id state r)
    unfolding put_state
    put-Held state r =
        get-put same_stream same_stream_sound same_stream_refl stream_id state r.streams

    handle-bound :
        (decode : Bytes → Option String) (d : Bytes) (end_stream : Bool) (state : FileStreamState)
        (a : ℕ) (r : Receiver)
        → ((r.user_id =? "") || contains stream_id r.rejected) ≡ false
        → extended stream_id d r ≡ state
        → state.lease ≡ some a
        → handle_file_stream_data env config writes now decode stream_id d end_stream r
          ≡ receive_bound env config writes now stream_id state end_stream
              (put_state stream_id state r)
    unfolding handle_file_stream_data
    handle-bound decode d end_stream state a r admitted e lease =
        rw (handle_file_stream_data, admitted, ap (λ (s : FileStreamState). s.lease) e ∙ lease)
          (ap
            (λ (s : FileStreamState).
              receive_bound env config writes now stream_id s end_stream (put_state stream_id s r))
            e)

    handle-ignored :
        (decode : Bytes → Option String) (d : Bytes) (end_stream : Bool) (r : Receiver)
        → ((r.user_id =? "") || contains stream_id r.rejected) ≡ true
        → handle_file_stream_data env config writes now decode stream_id d end_stream r ≡ some r
    unfolding handle_file_stream_data
    handle-ignored decode d end_stream r ignored = rw (handle_file_stream_data, ignored) refl

    pub handle-Lost :
        (decode : Bytes → Option String) (d : Bytes) (end_stream : Bool) (r : Receiver)
        → Lost stream_id r
        → (r' : Receiver) × (handle_file_stream_data env config writes now decode stream_id d
              end_stream r
            ≡ some r')
          × Lost stream_id r'
          × Same r r'
    unfolding put_state
    handle-Lost decode d end_stream r (inl (there, gone)) = (
      r,
      handle-ignored decode d end_stream r (or_true (r.user_id =? "") _ there),
      inl (there, gone),
      (refl, refl, refl),
    )
    handle-Lost decode d end_stream r (inr (h, state, a, held, lease, lost)) =
        elim (Bool-cases ((r.user_id =? "") || contains stream_id r.rejected)) [
          | inl ignored ↦ (
            r,
            handle-ignored decode d end_stream r ignored,
            inr (h, state, a, held, lease, lost),
            (refl, refl, refl),
          )
          | inr admitted ↦
              let state' = record state { buffer = state.buffer ++ d } in
              let (r', e, rejected, same) =
                bound-Rejected stream_id env config writes now end_stream state' a
                  (put_state stream_id state' r) h lease lost in
              (
                r',
                handle-bound decode d end_stream state' a r admitted
                      (extended-Held stream_id d state r held) lease
                    ∙ e,
                inl rejected,
                same,
              )
        ]

    pub run_flush-Lost :
        (r : Receiver)
        → Lost stream_id r
        → (r' : Receiver) × (run_flush env config writes now stream_id r ≡ some r')
          × Lost stream_id r'
          × Same r r'
    unfolding run_flush put_state
    run_flush-Lost r (inl (there, gone)) =
        rw (run_flush, gone) (r, refl, inl (there, gone), (refl, refl, refl))
    run_flush-Lost r (inr (h, state, a, held, lease, lost)) =
        let state' = record state { flush_queued = false } in
        elim (Bool-cases (r.control_closed || r.storage_failed)) [
          | inl over ↦
              rw (run_flush, held, over)
                (
                  put_state stream_id state' r,
                  refl,
                  inr (h, state', a, put-Held state' r, lease, lost),
                  (refl, refl, refl),
                )
          | inr going ↦
              let (r', e, rejected, same) =
                flush-Rejected stream_id env config writes now true state' a r h lease lost in
              rw (run_flush, held, going, e) (r', refl, inl rejected, same)
        ]

  pub enqueue-Lost :
      (r : Receiver)
      → Lost stream_id r
      → (r' : Receiver) × ((enqueue_flush accepted stream_id r).1 ≡ r')
        × Lost stream_id r'
        × Same r r'
  unfolding enqueue_flush put_state
  enqueue-Lost r (inl (there, gone)) =
      (r, rw (enqueue_flush, gone) refl, inl (there, gone), (refl, refl, refl))
  enqueue-Lost r (inr (h, state, a, held, lease, lost)) =
      let state' = record state { flush_timer = false; flush_queued = true } in
      (
        put_state stream_id state' r,
        enqueue-accepted stream_id state r held,
        inr (
          h,
          state',
          a,
          get-put same_stream same_stream_sound same_stream_refl stream_id state' r.streams,
          lease,
          lost,
        ),
        (refl, refl, refl),
      )

Same-trans : (r s t : Receiver) → Same r s → Same s t → Same r t
Same-trans r s t (db, disk, published) (db', disk', published') =
    (db' ∙ db, disk' ∙ disk, published' ∙ published)

module _ (env : Env) (config : FaultConfig) (decode : Bytes → Option String) (stream_id : ℕ) where
  module _ (writes : ℕ → ℕ → Write) (clock : ℕ → ℕ) where
    happen-Lost :
        (event : Event) (left : ℕ) (r : Receiver)
        → Lost stream_id r
        → (r' : Receiver) × (happen env config decode stream_id writes clock event left r ≡ some r')
          × Lost stream_id r'
          × Same r r'
    unfolding happen
    happen-Lost (arrived d) left r h =
        handle-Lost stream_id env config (writes left) (clock left) decode d false r h
    happen-Lost expired left r h =
        let (r', e, h', same) = enqueue-Lost stream_id r h in (r', ap some e, h', same)
    happen-Lost flushed left r h =
        run_flush-Lost stream_id env config (writes left) (clock left) r h

    run-Lost :
        (events : List Event) (r : Receiver)
        → Lost stream_id r
        → (r' : Receiver) × (run env config decode stream_id writes clock events r ≡ some r')
          × Lost stream_id r'
          × Same r r'
    unfolding run
    run-Lost [] r h = (r, refl, h, (refl, refl, refl))
    run-Lost (event ∷ events) r h =
        let (r₁, e₁, h₁, same₁) = happen-Lost event (suc (length events)) r h in
        let (r₂, e₂, h₂, same₂) = run-Lost events r₁ h₁ in
        (r₂, rw (run, e₁) e₂, h₂, Same-trans r r₁ r₂ same₁ same₂)

    -- A stream that has a lease which is no longer current, in a consistent registry: whatever data
    -- arrives, however often its timer runs out and its flush is run, in any order, and whatever the
    -- clocks and the disk do, no call raises an error, and the tables, the files and the events that
    -- were published stay as they are. The same holds of any data after that, if it ends the stream
    -- or not.
    pub run-Same :
        (a : ℕ) (state : FileStreamState) (r : Receiver)
        → Consistent r.uploads
        → get same_stream stream_id r.streams ≡ some state
        → state.lease ≡ some a
        → current r.uploads a ≡ false
        → (events : List Event) (d : Bytes) (end_stream : Bool)
        → (r₁ r₂ : Receiver) × (run env config decode stream_id writes clock events r ≡ some r₁)
          × (handle_file_stream_data env config
                (writes 0)
                (clock 0)
                decode
                stream_id
                d
                end_stream
                r₁
              ≡ some r₂)
          × Same r r₁
          × Same r r₂
    run-Same a state r h held lease lost events d end_stream =
        let (r₁, e₁, h₁, same₁) = run-Lost events r (inr (h, state, a, held, lease, lost)) in
        let (r₂, e₂, h₂, same₂) =
          handle-Lost stream_id env config (writes 0) (clock 0) decode d end_stream r₁ h₁ in
        (r₁, r₂, e₁, e₂, same₁, Same-trans r r₁ r₂ same₁ same₂)
