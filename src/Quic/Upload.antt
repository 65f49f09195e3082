-- ===== src/Quic/Upload.antt =====
-- server/quic/upload.py: the leases that bind an upload to a connection and a stream. A lease is an
-- object that both dictionaries refer to: it stands in a store, under the address that identifies
-- it. A connection is a number. The clock is read in milliseconds.
pub mod Consistent
pub mod Calls
pub mod Run
pub mod Owners
use mini_im.Prelude.{
  ℕ, suc, ◌+◌, String, Bool, true, false, ◌&&◌, ◌||◌, not, Option, none, some, List, [], ◌∷◌,
  if◌then◌else◌, ◌=?◌, ◌==◌, ltb, leb,
}
use mini_im.Storage.Sql.{is_some}
use mini_im.Quic.Dict.{get, put, pop, values}

pub record UploadLease : Type 0 where
  pub user_id : String
  pub intent : String
  pub file_id : String
  pub owner : ℕ
  pub device_id : String
  pub generation : ℕ
  pub offset : ℕ
  pub touched : ℕ
  pub stream_id : Option ℕ

-- `leases` is the store and `issued` the number of leases created.
pub record UploadRegistry : Type 0 where
  pub idle_timeout_ms : ℕ
  pub generation : ℕ
  pub by_intent : List ((String × String) × ℕ)
  pub by_file : List (String × ℕ)
  pub leases : ℕ → UploadLease
  pub issued : ℕ

-- `UploadRegistry(idle_timeout_ms)`, with no lease in the store: an address that was not issued reads
-- as `blank`.
abbrev blank : UploadLease
blank = record {
  user_id = "";
  intent = "";
  file_id = "";
  owner = 0;
  device_id = "";
  generation = 0;
  offset = 0;
  touched = 0;
  stream_id = none;
}

unfoldable pub new_registry : ℕ → UploadRegistry
new_registry idle_timeout_ms = record {
  idle_timeout_ms = idle_timeout_ms;
  generation = 0;
  by_intent = [];
  by_file = [];
  leases = λ a. blank;
  issued = 0;
}

-- The equality of the keys of `by_intent` and of `by_file`.
abbrev pub same_intent : String × String → String × String → Bool
same_intent (user_id, intent) (user_id', intent') = (user_id =? user_id') && (intent =? intent')

abbrev pub same_file : String → String → Bool
same_file f g = f =? g

abbrev pub intent_key : UploadLease → String × String
intent_key l = (l.user_id, l.intent)

-- An assignment to fields of the lease at an address.
unfoldable pub write : ℕ → UploadLease → (ℕ → UploadLease) → ℕ → UploadLease
write address l leases a = if a == address then l else leases a

unfoldable pub next_generation : UploadRegistry → ℕ × UploadRegistry
next_generation r = (suc r.generation, record r { generation = suc r.generation })

-- `by_intent.get((user_id, intent))`
unfoldable pub find_intent : UploadRegistry → String → String → Option ℕ
unfolding get
find_intent r user_id intent = get same_intent (user_id, intent) r.by_intent

-- `by_file.get(file_id)`
unfoldable pub find_file : UploadRegistry → String → Option ℕ
unfolding get
find_file r file_id = get same_file file_id r.by_file

unfoldable pub available : UploadRegistry → ℕ → String → String → ℕ → String → ℕ → Bool
unfolding find_intent
available r now user_id intent owner device_id generation = elim (find_intent r user_id intent) [
  | none ↦ true
  | some a ↦
      let lease = r.leases a in
      (lease.owner == owner && not (is_some lease.stream_id))
      || (not (device_id =? "")
          && (lease.device_id =? device_id)
          && ltb lease.generation generation)
      || (ltb 0 r.idle_timeout_ms && leb (lease.touched + r.idle_timeout_ms) now)
]

-- `current(lease)`
unfoldable pub current : UploadRegistry → ℕ → Bool
unfolding find_file
current r a = elim (find_file r (r.leases a).file_id) [ none ↦ false | some b ↦ b == a ]

-- `release(lease)`; `none` is a `KeyError`.
unfoldable pub release : ℕ → UploadRegistry → Option UploadRegistry
unfolding current pop
release a r =
    if current r a
    then elim (pop same_file (r.leases a).file_id r.by_file) [
      | none ↦ none
      | some by_file ↦ elim (pop same_intent (intent_key (r.leases a)) r.by_intent) [
        | none ↦ none
        | some by_intent ↦ some (record r { by_file = by_file; by_intent = by_intent })
      ]
    ]
    else some r

-- The new lease under the next address, in both dictionaries.
unfoldable pub enter : UploadLease → UploadRegistry → UploadRegistry
unfolding put write
enter lease r = record r {
  by_intent = put same_intent (intent_key lease) r.issued r.by_intent;
  by_file = put same_file lease.file_id r.issued r.by_file;
  leases = write r.issued lease r.leases;
  issued = suc r.issued;
}

-- `previous`, released if there is one.
unfoldable pub release_previous : Option ℕ → UploadRegistry → Option UploadRegistry
unfolding release
release_previous none r = some r
release_previous (some a) r = release a r

unfoldable pub grant :
    ℕ → String → String → String → ℕ → ℕ → String → ℕ → UploadRegistry → Option (ℕ × UploadRegistry)
unfolding find_intent release_previous enter
grant now user_id intent file_id owner offset device_id generation r =
    elim (release_previous (find_intent r user_id intent) r) [
      | none ↦ none
      | some r' ↦ some (
        r'.issued,
        enter
            (record {
              user_id = user_id;
              intent = intent;
              file_id = file_id;
              owner = owner;
              device_id = device_id;
              generation = generation;
              offset = offset;
              touched = now;
              stream_id = none;
            })
            r',
      )
    ]

unfoldable pub bind : ℕ → ℕ → String → ℕ → ℕ → UploadRegistry → Option ℕ × UploadRegistry
unfolding find_file write
bind now owner file_id stream_id offset r = elim (find_file r file_id) [
  | none ↦ (none, r)
  | some a ↦
      let lease = r.leases a in
      if not (lease.owner == owner) || is_some lease.stream_id || not (lease.offset == offset)
      then (none, r)
      else (
        some a,
        record r {
          leases = write a (record lease { stream_id = some stream_id; touched = now }) r.leases;
        },
      )
]

unfoldable pub advance : ℕ → ℕ → ℕ → UploadRegistry → UploadRegistry
unfolding write
advance now a offset r = record r {
  leases = write a (record (r.leases a) { offset = offset; touched = now }) r.leases;
}

-- `lease.owner is owner and (stream_id is None or lease.stream_id == stream_id)`
unfoldable pub owned_by : ℕ → Option ℕ → UploadLease → Bool
owned_by owner none lease = lease.owner == owner
owned_by owner (some stream_id) lease =
    lease.owner == owner && elim lease.stream_id [ none ↦ false | some s ↦ s == stream_id ]

-- The loop of `release_owner` over a copy of the leases.
unfoldable pub release_owned : ℕ → Option ℕ → List ℕ → UploadRegistry → Option UploadRegistry
unfolding owned_by release
release_owned owner stream_id [] r = some r
release_owned owner stream_id (a ∷ addresses) r =
    let rest = release_owned owner stream_id addresses in
    if owned_by owner stream_id (r.leases a)
    then elim (release a r) [ none ↦ none | some r' ↦ rest r' ]
    else rest r

unfoldable pub release_owner : ℕ → Option ℕ → UploadRegistry → Option UploadRegistry
unfolding values release_owned
release_owner owner stream_id r = release_owned owner stream_id (values same_file r.by_file) r
