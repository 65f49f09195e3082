-- ===== src/Quic/Upload/Run.antt =====
-- server/quic/upload.py: any sequence of calls of the registry.
use mathlib.Core.Path.{subst}
use mini_im.Prelude.{
  ℕ, ◌≡◌, refl, sym, ap, ◌∙◌, ◌⊎◌, inl, inr, String, true, Option, none, some, List, [], ◌∷◌,
  Option-cases,
}
use mini_im.Quic.Dict.{get, values}
use mini_im.Quic.Upload.{
  UploadRegistry, new_registry, same_file, intent_key, next_generation, find_intent, find_file,
  current, release, release_previous, grant, bind, advance, release_owner,
}
use mini_im.Quic.Upload.Consistent.{
  Consistent, current_lem, one_per_intent, enter-Consistent, some_injective,
}
use mini_im.Quic.Upload.Calls.{
  Returns, ReturnsFree, bind-Consistent, lease_of, release-Returns, release_owned-Returns,
  release_previous-Free, write-Consistent,
}

-- What a connection has the registry do.
pub data Command : Type 0 where
  connect : Command
  granted :
      (now : ℕ) (user_id intent file_id : String) (owner offset : ℕ) (device_id : String)
      (generation : ℕ)
      → Command
  bound : (now owner : ℕ) (file_id : String) (stream_id offset : ℕ) → Command
  advanced : (now a offset : ℕ) → Command
  released : (a : ℕ) → Command
  disconnected : (owner : ℕ) (stream_id : Option ℕ) → Command

-- `none` is a `KeyError`.
unfoldable pub execute : Command → UploadRegistry → Option UploadRegistry
execute connect r = some (next_generation r).1
execute (granted now user_id intent file_id owner offset device_id generation) r =
    elim (grant now user_id intent file_id owner offset device_id generation r) [
      | none ↦ none
      | some (a, r') ↦ some r'
    ]
execute (bound now owner file_id stream_id offset) r =
    some (bind now owner file_id stream_id offset r).1
execute (advanced now a offset) r = some (advance now a offset r)
execute (released a) r = release a r
execute (disconnected owner stream_id) r = release_owner owner stream_id r

unfoldable pub run : List Command → UploadRegistry → Option UploadRegistry
unfolding execute
run [] r = some r
run (c ∷ commands) r =
    let rest = run commands in elim (execute c r) [ none ↦ none | some r' ↦ rest r' ]

execute-Returns : (c : Command) (r : UploadRegistry) → Consistent r → Returns (execute c r)
unfolding execute grant release_owner advance next_generation find_file find_intent
execute-Returns connect r h = h
execute-Returns (granted now user_id intent file_id owner offset device_id generation) r h =
    let free = release_previous-Free user_id intent r h in
    elim (Option-cases (release_previous (find_intent r user_id intent) r)) [
      | inl n ↦ absurd (subst (ReturnsFree user_id intent) n free)
      | inr (r', e) ↦
          rw (Returns, execute, grant, e)
            (enter-Consistent
              (lease_of now user_id intent file_id owner offset device_id generation) r'
              (subst (ReturnsFree user_id intent) e free).0
              (subst (ReturnsFree user_id intent) e free).1)
    ]
execute-Returns (bound now owner file_id stream_id offset) r h =
    bind-Consistent now owner file_id stream_id offset r h
execute-Returns (advanced now a offset) r h = write-Consistent a _ r refl refl h
execute-Returns (released a) r h = release-Returns a r h
execute-Returns (disconnected owner stream_id) r h =
    release_owned-Returns owner stream_id (values same_file r.by_file) r h

-- From a consistent registry, any sequence of connections, grants, bindings, advances, releases and
-- disconnections runs without a `KeyError` and leaves a consistent registry.
pub run-Consistent :
    (commands : List Command) (r : UploadRegistry)
    → Consistent r
    → (r' : UploadRegistry) × (run commands r ≡ some r') × Consistent r'
unfolding run
run-Consistent [] r h = (r, refl, h)
run-Consistent (c ∷ commands) r h = elim (Option-cases (execute c r)) [
  | inl n ↦ absurd (subst Returns n (execute-Returns c r h))
  | inr (s, e) ↦
      let rest = run-Consistent commands s (subst Returns e (execute-Returns c r h)) in
      (rest.0, rw (run, e) rest.1, rest.2)
]

pub new_registry-Consistent : (idle_timeout_ms : ℕ) → Consistent (new_registry idle_timeout_ms)
unfolding new_registry find_file get
new_registry-Consistent idle_timeout_ms file_id a e = cc

-- Two leases that are both current are one lease, if they are for the same user and intent, or for
-- the same file.
abbrev pub Exclusive : UploadRegistry → Type 0
Exclusive r =
    (a b : ℕ)
    → current r a ≡ true
    → current r b ≡ true
    → (intent_key (r.leases a) ≡ intent_key (r.leases b))
      ⊎ ((r.leases a).file_id ≡ (r.leases b).file_id)
    → a ≡ b

Consistent-Exclusive : (r : UploadRegistry) → Consistent r → Exclusive r
Consistent-Exclusive r h a b p q (inl k) =
    one_per_intent r (r.leases a).file_id (r.leases b).file_id a b h (current_lem r a p)
      (current_lem r b q) k
Consistent-Exclusive r h a b p q (inr k) =
    some_injective (sym (current_lem r a p) ∙ ap (find_file r) k ∙ current_lem r b q)

-- Any sequence of connections, grants, bindings, advances, releases and disconnections on a new
-- registry runs without a `KeyError`, and then there is at most one current lease for each user and
-- intent, and at most one for each file.
pub run-Exclusive :
    (idle_timeout_ms : ℕ) (commands : List Command)
    → (r : UploadRegistry) × (run commands (new_registry idle_timeout_ms) ≡ some r) × Exclusive r
run-Exclusive idle_timeout_ms commands =
    let done =
      run-Consistent commands (new_registry idle_timeout_ms)
        (new_registry-Consistent idle_timeout_ms) in
    (done.0, done.1, Consistent-Exclusive done.0 done.2)
