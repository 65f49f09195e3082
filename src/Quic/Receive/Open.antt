-- ===== src/Quic/Receive/Open.antt =====
-- server/quic/server.py: the first data of an upload stream, with its header.
use mini_im.Prelude.{
  ℕ, ◌≤◌, ◌≡◌, refl, sym, ap, ◌∙◌, String, Bool, true, false, ◌||◌, Option, none, some, ◌++◌, ◌=?◌,
  ◌==◌, ltb, length,
}
use mathlib.Core.Path.{subst}
use mini_im.Protocol.{Bytes, file_direction_upload}
use mini_im.Storage.Db.{Env}
use mini_im.Storage.FileRepo.{StoredFileTransfer, is_uploading_status, get_transfer_by_file_id}
use mini_im.Services.File.Chunks.{content}
use mini_im.Services.File.Chunks.Recovery.{same_size}
use mini_im.Quic.Dict.{get}
use mini_im.Quic.Upload.{UploadLease, UploadRegistry, same_file, current, find_file, bind, write}
use mini_im.Quic.Upload.Consistent.{Consistent, write_same}
use mini_im.Quic.Upload.Calls.{write-Consistent}
use mini_im.Quic.Receive.{
  FileStreamState, new_state, Receiver, Write, same_stream, put_state, contains,
}
use mini_im.Quic.Receive.Header.{split_line, parse_header, bind_header, bind_upload_stream}
use mini_im.Quic.Receive.Handle.{
  FaultConfig, fault, extended, receive_bound, handle_file_stream_data,
}
use mini_im.Quic.Receive.Flush.{Uploading}
use mini_im.Quic.Receive.Drain.{put_state-Held, upload_transfer-found}
use mini_im.Quic.Receive.Going.{Going}
use mini_im.Quic.Receive.Whole.{transfer-Going, receive_found}

-- The data starts with a header that names the file and the offset; `rest` follows it.
pub record Headed (decode : Bytes → Option String) (file_id : String) (offset : ℕ)
    (sent rest : Bytes) : Type 0 where
  pub header : Bytes
  pub line : split_line sent ≡ some (header, rest)
  pub short : ltb 512 (length header) ≡ false
  pub parsed : parse_header decode header ≡ some (file_id, offset)

-- The connection has the lease of an upload that accepts bytes, and has not bound it to a stream.
pub record Granted (stream_id a : ℕ) (file_id : String) (t : StoredFileTransfer) (r : Receiver)
    : Type 0 where
  pub named : (r.user_id =? "") ≡ false
  pub admitted : contains stream_id r.rejected ≡ false
  pub running : (r.control_closed || r.storage_failed) ≡ false
  pub consistent : Consistent r.uploads
  pub fresh : get same_stream stream_id r.streams ≡ none
  pub granted : find_file r.uploads file_id ≡ some a
  pub mine : ((r.uploads.leases a).owner == r.connection) ≡ true
  pub free : (r.uploads.leases a).stream_id ≡ none
  pub level : t.received_bytes ≡ (r.uploads.leases a).offset
  pub found : get_transfer_by_file_id r.db file_id ≡ some t
  pub owned : (t.owner_id =? r.user_id) ≡ true
  pub upload : (t.direction == file_direction_upload) ≡ true
  pub going : is_uploading_status t.status ≡ true
  pub aligned : length (content r.disk t.storage_path) ≡ t.received_bytes

-- The lease at an address, bound to a stream.
abbrev bound : ℕ → ℕ → ℕ → UploadRegistry → UploadRegistry
bound now stream_id a r = record r {
  leases = write a (record (r.leases a) { stream_id = some stream_id; touched = now }) r.leases;
}

bind-bound :
    (now owner : ℕ) (file_id : String) (stream_id offset a : ℕ) (r : UploadRegistry)
    → find_file r file_id ≡ some a
    → ((r.leases a).owner == owner) ≡ true
    → (r.leases a).stream_id ≡ none
    → ((r.leases a).offset == offset) ≡ true
    → bind now owner file_id stream_id offset r ≡ (some a, bound now stream_id a r)
unfolding bind
bind-bound now owner file_id stream_id offset a r f o s l = rw (bind, f, o, s, l) refl

current_if :
    (r : UploadRegistry) (a : ℕ) → find_file r (r.leases a).file_id ≡ some a → current r a ≡ true
unfolding current
current_if r a f = rw (current, f) (same_size a)

current-bound :
    (now : ℕ) (file_id : String) (stream_id a : ℕ) (r : UploadRegistry)
    → Consistent r
    → find_file r file_id ≡ some a
    → current (bound now stream_id a r) a ≡ true
unfolding find_file
current-bound now file_id stream_id a r h f =
    let l = record (r.leases a) { stream_id = some stream_id; touched = now } in
    current_if (bound now stream_id a r) a (
      ap (λ (x : UploadLease). get same_file x.file_id r.by_file) (write_same a l r.leases)
      ∙ ap (λ (x : String). get same_file x r.by_file) (h file_id a f).1
      ∙ f)

module _ (decode : Bytes → Option String) (now stream_id : ℕ) where
  header-bound :
      (file_id : String) (offset a : ℕ) (header : Bytes) (state : FileStreamState) (r : Receiver)
      → parse_header decode header ≡ some (file_id, offset)
      → bind now r.connection file_id stream_id offset r.uploads
        ≡ (some a, bound now stream_id a r.uploads)
      → bind_header decode now stream_id header state r ≡ (
        some (record state { file_id = file_id; lease = some a }),
        record r { uploads = bound now stream_id a r.uploads },
      )
  unfolding bind_header
  header-bound file_id offset a header state r parsed e =
      rw (bind_header, parsed, ap (λ (p : Option ℕ × UploadRegistry). p.0) e)
        (ap
          (λ (p : Option ℕ × UploadRegistry).
            (some (record state { file_id = file_id; lease = some a }), record r { uploads = p.1 }))
          e)

  stream-bound :
      (end_stream : Bool) (header rest : Bytes) (state state' : FileStreamState) (r r' : Receiver)
      → split_line state.buffer ≡ some (header, rest)
      → ltb 512 (length header) ≡ false
      → bind_header decode now stream_id header (record state { buffer = rest }) r
        ≡ (some state', r')
      → bind_upload_stream decode now stream_id state end_stream r
        ≡ some (some state', put_state stream_id state' r')
  unfolding bind_upload_stream
  stream-bound end_stream header rest state state' r r' line short e =
      rw (bind_upload_stream, line, short, ap (λ (p : Option FileStreamState × Receiver). p.0) e)
        (ap
          (λ (p : Option FileStreamState × Receiver).
            some (some state', put_state stream_id state' p.1))
          e)

  handle-bound :
      (env : Env) (config : FaultConfig) (writes : ℕ → Write) (end_stream : Bool) (d : Bytes)
      (state : FileStreamState) (r r' : Receiver)
      → (r.user_id =? "") ≡ false
      → contains stream_id r.rejected ≡ false
      → (extended stream_id d r).lease ≡ none
      → bind_upload_stream decode now stream_id
          (extended stream_id d r)
          end_stream
          (put_state stream_id (extended stream_id d r) r)
        ≡ some (some state, r')
      → handle_file_stream_data env config writes now decode stream_id d end_stream r
        ≡ receive_bound env config writes now stream_id state end_stream r'
  unfolding handle_file_stream_data
  handle-bound env config writes end_stream d state r r' named admitted unbound e =
      rw (handle_file_stream_data, named, admitted, unbound, e) refl

  extended-fresh :
      (d : Bytes) (r : Receiver)
      → get same_stream stream_id r.streams ≡ none
      → extended stream_id d r ≡ record new_state { buffer = d }
  unfolding extended
  extended-fresh d r fresh = rw (extended, fresh) refl

module _ (decode : Bytes → Option String) (now stream_id a : ℕ) (file_id : String)
    (sent rest : Bytes) where
  abbrev opened_state : FileStreamState
  opened_state = record new_state { buffer = rest; file_id = file_id; lease = some a }

  abbrev opened : Receiver → Receiver
  opened r =
      put_state stream_id opened_state
        (record (put_state stream_id (record new_state { buffer = sent }) r) {
          uploads = bound now stream_id a r.uploads;
        })

  bind-opened :
      (end_stream : Bool) (t : StoredFileTransfer) (r : Receiver)
      → Headed decode file_id t.received_bytes sent rest
      → Granted stream_id a file_id t r
      → bind_upload_stream decode now stream_id
          (record new_state { buffer = sent })
          end_stream
          (put_state stream_id (record new_state { buffer = sent }) r)
        ≡ some (some opened_state, opened r)
  unfolding put_state
  bind-opened end_stream t r head h =
      let state = record new_state { buffer = sent } in
      stream-bound decode now stream_id end_stream head.header rest state opened_state
        (put_state stream_id state r) _ head.line head.short
        (header-bound decode now stream_id file_id t.received_bytes a head.header
          (record state { buffer = rest }) (put_state stream_id state r) head.parsed
          (bind-bound now r.connection file_id stream_id t.received_bytes a r.uploads h.granted
            h.mine h.free
            (subst (λ (n : ℕ). (n == t.received_bytes) ≡ true) h.level
              (same_size t.received_bytes))))

  opened-Uploading :
      (t : StoredFileTransfer) (r : Receiver)
      → Granted stream_id a file_id t r
      → length (content r.disk t.storage_path ++ rest) ≤ t.file_size
      → Uploading stream_id a t.file_size t.storage_path file_id
          (content r.disk t.storage_path ++ rest)
          opened_state
          t
          (opened r)
  unfolding put_state
  opened-Uploading t r h l = record {
    named = h.named;
    admitted = h.admitted;
    running = h.running;
    lease = refl;
    names = refl;
    consistent = write-Consistent a _ r.uploads refl refl h.consistent;
    live = current-bound now file_id stream_id a r.uploads h.consistent h.granted;
    found = h.found;
    owned = h.owned;
    upload = h.upload;
    going = h.going;
    level = h.level ∙ sym (ap (λ (x : UploadLease). x.offset) (write_same a _ r.uploads.leases));
    at_path = refl;
    of_size = refl;
    aligned = h.aligned;
    whole = refl;
    fits = l;
  }

  module _ (env : Env) (config : FaultConfig) (writes : ℕ → Write) where
    -- The first data of a stream goes to the transfer that its header names.
    open_lem :
        (end_stream : Bool) (t : StoredFileTransfer) (r : Receiver)
        → Headed decode file_id t.received_bytes sent rest
        → Granted stream_id a file_id t r
        → handle_file_stream_data env config writes now decode stream_id sent end_stream r
          ≡ receive_bound env config writes now stream_id opened_state end_stream (opened r)
    open_lem end_stream t r head h =
        let fresh = extended-fresh decode now stream_id sent r h.fresh in
        handle-bound decode now stream_id env config writes end_stream sent opened_state r
          (opened r) h.named h.admitted (ap (λ (s : FileStreamState). s.lease) fresh)
          (ap
              (λ (s : FileStreamState).
                bind_upload_stream decode now stream_id s end_stream (put_state stream_id s r))
              fresh
            ∙ bind-opened end_stream t r head h)

    pub open-Going :
        (t : StoredFileTransfer) (r : Receiver)
        → ((n : ℕ) → fault config n ≡ none)
        → ((n : ℕ) → (writes n).failure ≡ none)
        → Headed decode file_id t.received_bytes sent rest
        → Granted stream_id a file_id t r
        → length (content r.disk t.storage_path ++ rest) ≤ t.file_size
        → (r' : Receiver) × (handle_file_stream_data env config writes now decode stream_id sent
              false r
            ≡ some r')
          × Going stream_id a t.file_size t.storage_path file_id
              (content r.disk t.storage_path ++ rest)
              r'
    open-Going t r quiet works head h l =
        let size = t.file_size in
        let path = t.storage_path in
        let bytes = content r.disk path ++ rest in
        let up = opened-Uploading t r h l in
        let held = put_state-Held stream_id a size path file_id bytes opened_state _ in
        let (r', e, going) =
          transfer-Going stream_id a size path file_id env config quiet writes now works bytes
            opened_state t (opened r) up held in
        (
          r',
          open_lem false t r head h
              ∙ receive_found stream_id a size path file_id env config quiet writes now works
                  opened_state false t (opened r)
                  (upload_transfer-found stream_id a size path file_id bytes opened_state t
                    (opened r) up)
                  refl
              ∙ e,
          going,
        )
