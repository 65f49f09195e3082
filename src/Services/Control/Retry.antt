-- ===== src/Services/Control/Retry.antt =====
-- server/services/control/service.py: a write that is sent again is not applied again.
use mathlib.Core.Path.{subst}
use mini_im.Prelude.{ℕ, String, Bool, false, Option, some, [], ◌≡◌, sym, ap, ◌∙◌, arith}
use mini_im.Protocol.{Bytes}
use mini_im.Storage.Db.{Db, Env}
use mini_im.Storage.ControlWrite.{ControlWriteResult, Apply, is_transient, execute, settle}
use mini_im.Storage.ControlWrite.Once.{IsNew, execute-again, execute-settle}
use mini_im.Services.Control.{
  WriteBody, operation_of, run_handler, apply_write, unless_raised, handle,
}

module _ (env : Env) (burn_enabled : Bool) (serialize : WriteBody → Bytes)
    (request_ms now_ms write_ms done_ms : ℕ) (user_id request_id : String) (body : WriteBody)
    (operation : String) (db : Db) where
  -- What running the handler would give.
  abbrev pub run : Option ControlWriteResult × Db
  run = run_handler env burn_enabled now_ms write_ms done_ms user_id request_id body db

  abbrev first : Option ControlWriteResult × Db
  first =
      handle env burn_enabled serialize request_ms now_ms write_ms done_ms user_id request_id body
        db

  handled :
      operation_of body ≡ some operation
      → first
        ≡ unless_raised db (
            execute env request_ms user_id request_id operation
              (serialize body)
              (apply_write env burn_enabled now_ms write_ms done_ms user_id request_id body)
              db)
  unfolding handle
  handled h = ground arith

  applied :
      (result : ControlWriteResult)
      → run.0 ≡ some result
      → apply_write env burn_enabled now_ms write_ms done_ms user_id request_id body db
        ≡ ((result, false), run.1)
  unfolding apply_write
  applied result h = ground arith

  first-settle :
      (result : ControlWriteResult)
      → operation_of body ≡ some operation
      → IsNew env user_id request_id operation (serialize body) db
      → run.0 ≡ some result
      → first
        ≡ unless_raised db (
            settle user_id request_id operation
              (env.sha256 (serialize body))
              request_ms
              db
              ((result, false), run.1))
  first-settle result h new ran =
      handled h
      ∙ ap (unless_raised db) (
          execute-settle env request_ms user_id request_id operation (serialize body)
            (apply_write env burn_enabled now_ms write_ms done_ms user_id request_id body) db new
          ∙ ap (settle user_id request_id operation (env.sha256 (serialize body)) request_ms db)
              (applied result ran))

  executed_state :
      (result : ControlWriteResult)
      → operation_of body ≡ some operation
      → IsNew env user_id request_id operation (serialize body) db
      → run.0 ≡ some result
      → is_transient result.ack ≡ false
      → (first.0 ≡ some result)
        × (first.1
            ≡ (execute env request_ms user_id request_id operation
                (serialize body)
                (apply_write env burn_enabled now_ms write_ms done_ms user_id request_id body)
                db).1)
  unfolding settle unless_raised
  executed_state result h new ran steady = ground (
    arith,
    first-settle result h new ran,
    execute-settle env request_ms user_id request_id operation (serialize body)
        (apply_write env burn_enabled now_ms write_ms done_ms user_id request_id body) db new,
    applied result ran,
  )

module _ (env : Env) (burn_enabled : Bool) (serialize : WriteBody → Bytes)
    (request_ms now_ms write_ms done_ms : ℕ) (user_id request_id : String) (body : WriteBody)
    (operation : String) (db : Db) (result : ControlWriteResult)
    (request_ms' now_ms' write_ms' done_ms' : ℕ) where
  abbrev again : Db → Option ControlWriteResult × Db
  again =
      handle env burn_enabled serialize request_ms' now_ms' write_ms' done_ms' user_id request_id
        body

  abbrev write : Apply Bool
  write = apply_write env burn_enabled now_ms write_ms done_ms user_id request_id body

  abbrev rewrite : Apply Bool
  rewrite = apply_write env burn_enabled now_ms' write_ms' done_ms' user_id request_id body

  replayed :
      operation_of body ≡ some operation
      → IsNew env user_id request_id operation (serialize body) db
      → is_transient (write db).0.0.ack ≡ false
      → again (execute env request_ms user_id request_id operation (serialize body) write db).1 ≡ (
        some (record { ack = (write db).0.0.ack; sync_events = [] }),
        (execute env request_ms user_id request_id operation (serialize body) write db).1,
      )
  unfolding unless_raised
  replayed h new steady =
      let after =
        (execute env request_ms user_id request_id operation (serialize body) write db).1 in
      handled env burn_enabled serialize request_ms' now_ms' write_ms' done_ms' user_id request_id
        body operation after h
      ∙ ap (unless_raised after) (
          execute-again env request_ms request_ms' user_id request_id operation (serialize body)
            write rewrite db new steady)

  -- A new conversation or delivery write whose handler gives a result that is not transient is
  -- answered with it. If the envelope comes again, at any later time, then the handler's effects
  -- are not repeated: nothing changes, no event is published, and the answer has the first
  -- acknowledgement.
  pub handle-again :
      operation_of body ≡ some operation
      → IsNew env user_id request_id operation (serialize body) db
      → (run_handler env burn_enabled now_ms write_ms done_ms user_id request_id body db).0
        ≡ some result
      → is_transient result.ack ≡ false
      → let (answer, after) =
          handle env burn_enabled serialize request_ms now_ms write_ms done_ms user_id request_id
            body db in
        (answer ≡ some result)
        × (again after ≡ (some (record { ack = result.ack; sync_events = [] }), after))
  handle-again h new ran steady =
      let e =
        applied env burn_enabled serialize request_ms now_ms write_ms done_ms user_id request_id
          body operation db result ran in
      let (answered, state) =
        executed_state env burn_enabled serialize request_ms now_ms write_ms done_ms user_id
          request_id body operation db result h new ran steady in
      (
        answered,
        subst (λ d. again d ≡ (some (record { ack = result.ack; sync_events = [] }), d)) (sym state)
            (replayed h new (ap (λ w. is_transient w.0.0.ack) e ∙ steady)
              ∙ ap
                  (λ w. (
                    some (record { ack = w.0.0.ack; sync_events = [] }),
                    (execute env request_ms user_id request_id operation (serialize body) write
                        db).1,
                  ))
                  e),
      )
