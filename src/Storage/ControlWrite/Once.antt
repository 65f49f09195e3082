-- ===== src/Storage/ControlWrite/Once.antt =====
-- server/storage/repo/control_write_repo.py: a request identifier names one write, applied once.
use mathlib.Core.Path.{subst}
use mini_im.Prelude.{
  ℕ, ◌≤◌, ◌≡◌, ◌≢◌, refl, sym, ap, ◌∙◌, ◌⊎◌, inl, inr, String, true, false, none, some, [], ◌∷◌,
  arith, find?, Bool-cases,
}
use mini_im.Protocol.{Ack, Bytes}
use mini_im.Text.{strip}
use mini_im.Storage.Db.{Db, Env, ControlResultRow}
use mini_im.Storage.ControlWrite.{
  ControlWriteResult, Apply, Outcome, reject, same_bytes, find_result, is_file_request,
  legacy_messages, legacy_conflict, is_transient, settle, replay, execute,
}

pub same_bytes_refl : (b : Bytes) → same_bytes b b ≡ true
unfolding same_bytes
same_bytes_refl [] = refl
same_bytes_refl (x ∷ xs) = ground (arith, same_bytes_refl xs)

pub eq_of_same_bytes : (a b : Bytes) → same_bytes a b ≡ true → a ≡ b
unfolding same_bytes
eq_of_same_bytes [] [] h = refl
eq_of_same_bytes [] (y ∷ ys) h = ground arith
eq_of_same_bytes (x ∷ xs) [] h = ground arith
eq_of_same_bytes (x ∷ xs) (y ∷ ys) h = ground (arith, eq_of_same_bytes xs ys)

-- A request that the checks before `apply` let through.
pub record IsNew (env : Env) (user_id request_id operation : String) (payload : Bytes) (db : Db)
    : Type 0 where
  pub user : user_id ≢ ""
  pub request : strip request_id ≢ ""
  pub unrecorded : find_result user_id request_id db ≡ none
  pub no_file : is_file_request user_id request_id db ≡ false
  pub no_conflict :
      legacy_conflict operation (env.sha256 payload) (legacy_messages user_id request_id db) ≡ false

module _ {S : Type 0} (env : Env) (now_ms : ℕ) (user_id request_id operation : String)
    (payload : Bytes) (apply : Apply S) (db : Db) where
  pub execute-settle :
      IsNew env user_id request_id operation payload db
      → execute env now_ms user_id request_id operation payload apply db
        ≡ settle user_id request_id operation (env.sha256 payload) now_ms db (apply db)
  unfolding execute
  execute-settle new = ground arith

  find_result-settle :
      is_transient (apply db).0.0.ack ≡ false
      → find_result user_id request_id
          (settle user_id request_id operation (env.sha256 payload) now_ms db (apply db)).1
        ≡ some (record {
          user_id = user_id;
          request_id = request_id;
          operation = operation;
          fingerprint = env.sha256 payload;
          ack = (apply db).0.0.ack;
          created_at_ms = now_ms;
        })
  unfolding find_result settle find?
  find_result-settle steady = ground arith

execute-recorded :
    {S : Type 0} (env : Env) (now_ms : ℕ) (user_id request_id operation : String) (payload : Bytes)
    (apply : Apply S) (db : Db) (row : ControlResultRow)
    → user_id ≢ ""
    → strip request_id ≢ ""
    → find_result user_id request_id db ≡ some row
    → execute env now_ms user_id request_id operation payload apply db
      ≡ ((replay request_id operation (env.sha256 payload) now_ms row, none), db)
unfolding execute
execute-recorded env now_ms user_id request_id operation payload apply db row u r h = ground arith

IsNew-issued :
    (env : Env) (user_id request_id operation : String) (payload : Bytes) (db : Db) (n : ℕ)
    → IsNew env user_id request_id operation payload db
    → IsNew env user_id request_id operation payload (record db { issued = n })
unfolding find_result is_file_request legacy_messages
IsNew-issued env user_id request_id operation payload db n new = record {
  user = new.user;
  request = new.request;
  unrecorded = new.unrecorded;
  no_file = new.no_file;
  no_conflict = new.no_conflict;
}

settle-transient :
    {S : Type 0} (user_id request_id operation : String) (fingerprint : Bytes) (now_ms : ℕ)
    (before : Db) (out : (ControlWriteResult × S) × Db)
    → is_transient out.0.0.ack ≡ true
    → settle user_id request_id operation fingerprint now_ms before out ≡ (
      (record { ack = out.0.0.ack; sync_events = [] }, some out.0.1),
      record before { issued = out.1.issued },
    )
unfolding settle
settle-transient user_id request_id operation fingerprint now_ms before ((result, side), db) h =
    rw h

-- The write is recorded in the state, with the acknowledgement of the result.
abbrev Recorded : {S : Type 0} → String → String → String → Bytes → Outcome S → Type 0
Recorded user_id request_id operation fingerprint out =
    (row : ControlResultRow) × (find_result user_id request_id out.1 ≡ some row)
    × (row.operation ≡ operation)
    × (row.fingerprint ≡ fingerprint)
    × (row.ack ≡ out.0.0.ack)

settle-Recorded :
    {S : Type 0} (user_id request_id operation : String) (fingerprint : Bytes) (now_ms : ℕ)
    (before : Db) (out : (ControlWriteResult × S) × Db)
    → (settle user_id request_id operation fingerprint now_ms before out).0.0.sync_events ≢ []
    → Recorded user_id request_id operation fingerprint
        (settle user_id request_id operation fingerprint now_ms before out)
unfolding settle find_result find?
settle-Recorded user_id request_id operation fingerprint now_ms before ((result, side), db) h =
    elim (Bool-cases (is_transient result.ack)) [
      | inl t ↦ absurd (h (rw t))
      | inr f ↦ rw f (
        record {
          user_id = user_id;
          request_id = request_id;
          operation = operation;
          fingerprint = fingerprint;
          ack = result.ack;
          created_at_ms = now_ms;
        },
        ground arith,
        refl,
        refl,
        refl,
      )
    ]

-- A new write whose result is not transient is recorded: sent again under its request identifier,
-- with any business write `apply'` behind it, the same operation and payload change nothing more,
-- publish no events and are answered with the first acknowledgement.
pub execute-again :
    {S : Type 0} (env : Env) (now_ms later_ms : ℕ) (user_id request_id operation : String)
    (payload : Bytes) (apply apply' : Apply S) (db : Db)
    → IsNew env user_id request_id operation payload db
    → is_transient (apply db).0.0.ack ≡ false
    → let after = (execute env now_ms user_id request_id operation payload apply db).1 in
      execute env later_ms user_id request_id operation payload apply' after
      ≡ ((record { ack = (apply db).0.0.ack; sync_events = [] }, none), after)
unfolding replay
execute-again env now_ms later_ms user_id request_id operation payload apply apply' db new steady =
    rw (execute-settle env now_ms user_id request_id operation payload apply db new) (
      execute-recorded env later_ms user_id request_id operation payload apply' _ _ new.user
        new.request
        (find_result-settle env now_ms user_id request_id operation payload apply db steady)
      ∙ ground (arith, same_bytes_refl (env.sha256 payload)))

-- A recorded request identifier that comes back with another operation, or with a payload of
-- another SHA-256 digest, is refused with code 409 and changes nothing.
pub execute-conflict :
    {S : Type 0} (env : Env) (now_ms : ℕ) (user_id request_id operation : String) (payload : Bytes)
    (apply : Apply S) (db : Db) (row : ControlResultRow)
    → user_id ≢ ""
    → strip request_id ≢ ""
    → find_result user_id request_id db ≡ some row
    → (row.operation ≢ operation) ⊎ (row.fingerprint ≢ env.sha256 payload)
    → execute env now_ms user_id request_id operation payload apply db
      ≡ ((reject request_id 409 "request id already belongs to a different write" now_ms, none), db)
unfolding replay
execute-conflict env now_ms user_id request_id operation payload apply db row u r h other =
    execute-recorded env now_ms user_id request_id operation payload apply db row u r h
    ∙ ground (arith, eq_of_same_bytes row.fingerprint (env.sha256 payload), other)

settle_runs :
    {S : Type 0} (user_id request_id operation : String) (fingerprint : Bytes) (now_ms : ℕ)
    (before : Db) (out : (ControlWriteResult × S) × Db)
    → ((settle user_id request_id operation fingerprint now_ms before out).0.0.ack ≡ out.0.0.ack)
      × ((settle user_id request_id operation fingerprint now_ms before out).0.1 ≡ some out.0.1)
unfolding settle
settle_runs user_id request_id operation fingerprint now_ms before ((result, side), db) =
    elim (Bool-cases (is_transient result.ack)) [
      | inl y ↦ rw (settle, y) (refl, refl)
      | inr n ↦ rw (settle, n) (refl, refl)
    ]

-- The codes of a failure that may pass.
abbrev pub MayPass : ℕ → Type 0
MayPass code = (code ≡ 401) ⊎ (code ≡ 408) ⊎ (code ≡ 429) ⊎ (500 ≤ code)

MayPass-is_transient :
    (ack : Ack) → ack.success ≡ false → MayPass ack.code → is_transient ack ≡ true
unfolding is_transient
MayPass-is_transient ack failed h = ground (arith, failed, h)

-- Where a write is new and fails with code 401, 408, 429, or 500 and above, `execute` hands out its
-- acknowledgement without events and leaves every table as it was. The same request again, at any
-- later time, is not answered from a record: the business write is run again, whatever it does then,
-- on those tables, and its acknowledgement is handed out.
pub execute-transient :
    {S : Type 0} (env : Env) (now_ms later_ms : ℕ) (user_id request_id operation : String)
    (payload : Bytes) (apply apply' : Apply S) (db : Db)
    → IsNew env user_id request_id operation payload db
    → (apply db).0.0.ack.success ≡ false
    → MayPass (apply db).0.0.ack.code
    → let ((result, side), after) =
        execute env now_ms user_id request_id operation payload apply db in
      let ((result', side'), after') =
        execute env later_ms user_id request_id operation payload apply' after in
      (result ≡ record { ack = (apply db).0.0.ack; sync_events = [] })
      × (after ≡ record db { issued = after.issued })
      × (result'.ack ≡ (apply' after).0.0.ack)
      × (side' ≡ some (apply' after).0.1)
execute-transient env now_ms later_ms user_id request_id operation payload apply apply' db new
      failed may =
    let transient = MayPass-is_transient (apply db).0.0.ack failed may in
    let e =
      execute-settle env now_ms user_id request_id operation payload apply db new
      ∙ settle-transient user_id request_id operation (env.sha256 payload) now_ms db (apply db)
          transient in
    let after = (execute env now_ms user_id request_id operation payload apply db).1 in
    let again : IsNew env user_id request_id operation payload after =
      subst (IsNew env user_id request_id operation payload) (sym (ap (λ p. p.1) e))
        (IsNew-issued env user_id request_id operation payload db (apply db).1.issued new) in
    let e' = execute-settle env later_ms user_id request_id operation payload apply' after again in
    let (ack, side) =
      settle_runs user_id request_id operation (env.sha256 payload) later_ms after (apply' after) in
    (ap (λ p. p.0.0) e, ground (arith, e), ap (λ p. p.0.0.ack) e' ∙ ack, ap (λ p. p.0.1) e' ∙ side)

execute-cases :
    {S : Type 0} (env : Env) (now_ms : ℕ) (user_id request_id operation : String) (payload : Bytes)
    (apply : Apply S) (db : Db)
    → ((execute env now_ms user_id request_id operation payload apply db).0.0.sync_events ≡ [])
      ⊎ (execute env now_ms user_id request_id operation payload apply db
          ≡ settle user_id request_id operation (env.sha256 payload) now_ms db (apply db))
unfolding execute replay reject
execute-cases env now_ms user_id request_id operation payload apply db = ground arith

-- Whatever the request: if `execute` publishes events, then the write is recorded under its request
-- identifier, with the operation, the digest of the payload, and the acknowledgement that is
-- returned.
pub execute-publishes :
    {S : Type 0} (env : Env) (now_ms : ℕ) (user_id request_id operation : String) (payload : Bytes)
    (apply : Apply S) (db : Db)
    → (execute env now_ms user_id request_id operation payload apply db).0.0.sync_events ≢ []
    → let ((result, side), after) =
        execute env now_ms user_id request_id operation payload apply db in
      (row : ControlResultRow) × (find_result user_id request_id after ≡ some row)
      × (row.operation ≡ operation)
      × (row.fingerprint ≡ env.sha256 payload)
      × (row.ack ≡ result.ack)
execute-publishes env now_ms user_id request_id operation payload apply db h =
    elim (execute-cases env now_ms user_id request_id operation payload apply db) [
      | inl quiet ↦ absurd (h quiet)
      | inr settled ↦
          subst (Recorded user_id request_id operation (env.sha256 payload)) (sym settled) (
            settle-Recorded user_id request_id operation (env.sha256 payload) now_ms db (apply db)
              (λ q. h (ap (λ p. p.0.0.sync_events) settled ∙ q)))
    ]
