-- ===== src/Quic/Receive/Reject.antt =====
-- server/quic/server.py: how a stream is rejected that has lost its lease.
use mini_im.Prelude.{
  ℕ, ◌≡◌, refl, ◌∙◌, inl, inr, ◌⊎◌, Bool, true, false, ◌||◌, none, some, ◌==◌, any, Option-cases,
}
use mathlib.Core.Path.{subst}
use mini_im.Storage.Db.{Env}
use mini_im.Services.File.{get_transfer_for_upload}
use mini_im.Services.File.Chunks.Recovery.{same_size}
use mini_im.Quic.Dict.{get, get-remove, values}
use mini_im.Quic.Upload.{UploadRegistry, same_file, current, release_owner}
use mini_im.Quic.Upload.Consistent.{Consistent}
use mini_im.Quic.Upload.Calls.{Returns, release_owned-Returns}
use mini_im.Quic.Download.Jobs.{same_stream_sound, same_stream_refl}
use mini_im.Quic.Receive.{
  FileStreamState, Receiver, Write, same_stream, discard_upload_stream, contains,
  reject_file_stream, rejecting, continues, upload_transfer, flush_upload_buffer,
}
use mini_im.Quic.Receive.Handle.{FaultConfig, receive_bound}
use mini_im.Quic.Receive.Flush.{Held}

-- The same tables, files and events.
abbrev pub Same : Receiver → Receiver → Type 0
Same r r' = (r'.db ≡ r.db) × (r'.disk ≡ r.disk) × (r'.published ≡ r.published)

release_owner-Returns :
    (owner stream_id : ℕ) (r : UploadRegistry)
    → Consistent r
    → Returns (release_owner owner (some stream_id) r)
unfolding release_owner
release_owner-Returns owner stream_id r h =
    release_owned-Returns owner (some stream_id) (values same_file r.by_file) r h

module _ (stream_id : ℕ) where
  abbrev pub Rejected : Receiver → Type 0
  Rejected r = (contains stream_id r.rejected ≡ true) × (get same_stream stream_id r.streams ≡ none)

  abbrev pub Stale : Receiver → Type 0
  Stale r =
      Consistent r.uploads
      × (state : FileStreamState) × (a : ℕ) × Held stream_id state r
      × (state.lease ≡ some a)
      × (current r.uploads a ≡ false)

  -- The stream is rejected, or has lost its lease.
  abbrev pub Lost : Receiver → Type 0
  Lost r = Rejected r ⊎ Stale r

  reject-Rejected :
      (r : Receiver)
      → Consistent r.uploads
      → (r' : Receiver) × (reject_file_stream stream_id r ≡ some r') × Rejected r' × Same r r'
  unfolding reject_file_stream discard_upload_stream contains any
  reject-Rejected r h =
      let gone = get-remove same_stream same_stream_sound same_stream_refl stream_id r.streams in
      let there : (stream_id == stream_id || contains stream_id r.rejected) ≡ true =
        rw (same_size stream_id) refl in
      elim (Option-cases (release_owner r.connection (some stream_id) r.uploads)) [
        | inl raised ↦
            absurd (subst Returns raised (release_owner-Returns r.connection stream_id r.uploads h))
        | inr (uploads, e) ↦ rw (reject_file_stream, e) (_, refl, (there, gone), (refl, refl, refl))
      ]

  -- The transfer of a stream that has lost its lease.
  stale-transfer :
      (state : FileStreamState) (a : ℕ) (r : Receiver)
      → state.lease ≡ some a
      → current r.uploads a ≡ false
      → upload_transfer stream_id state r ≡ rejecting none stream_id r
  unfolding upload_transfer continues
  stale-transfer state a r lease lost =
      elim (Option-cases (get_transfer_for_upload r.db r.user_id state.file_id)) [
        | inl none_ ↦ rw (upload_transfer, none_) refl
        | inr (t, e) ↦ rw (upload_transfer, e, continues, lease, lost) refl
      ]

  stale-Rejected :
      (state : FileStreamState) (a : ℕ) (r : Receiver)
      → Consistent r.uploads
      → state.lease ≡ some a
      → current r.uploads a ≡ false
      → (r' : Receiver) × (upload_transfer stream_id state r ≡ some (none, r'))
        × Rejected r'
        × Same r r'
  unfolding rejecting
  stale-Rejected state a r h lease lost =
      let (r', e, rejected, same) = reject-Rejected r h in
      (r', stale-transfer state a r lease lost ∙ rw (rejecting, e) refl, rejected, same)

  module _ (env : Env) (config : FaultConfig) (writes : ℕ → Write) (now : ℕ) where
    pub bound-Rejected :
        (end_stream : Bool) (state : FileStreamState) (a : ℕ) (r : Receiver)
        → Consistent r.uploads
        → state.lease ≡ some a
        → current r.uploads a ≡ false
        → (r' : Receiver) × (receive_bound env config writes now stream_id state end_stream r
            ≡ some r')
          × Rejected r'
          × Same r r'
    unfolding receive_bound
    bound-Rejected end_stream state a r h lease lost =
        let (r', e, rejected, same) = stale-Rejected state a r h lease lost in
        (r', rw (receive_bound, e) refl, rejected, same)

    pub flush-Rejected :
        (force : Bool) (state : FileStreamState) (a : ℕ) (r : Receiver)
        → Consistent r.uploads
        → state.lease ≡ some a
        → current r.uploads a ≡ false
        → (r' : Receiver) × (flush_upload_buffer env writes stream_id state force r
            ≡ some (false, r'))
          × Rejected r'
          × Same r r'
    unfolding flush_upload_buffer
    flush-Rejected force state a r h lease lost =
        let (r', e, rejected, same) = stale-Rejected state a r h lease lost in
        (r', rw (flush_upload_buffer, e) refl, rejected, same)
