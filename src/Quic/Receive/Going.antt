-- ===== src/Quic/Receive/Going.antt =====
-- server/quic/server.py: what an upload that goes on keeps, and its end.
use mini_im.Prelude.{
  ℕ, ◌+◌, ◌≤◌, ◌<◌, ◌≡◌, refl, sym, ap, ◌∙◌, inl, inr, String, Bool, true, false, ◌||◌, Option,
  none, some, [], ◌∷◌, ◌++◌, arith, ◌==◌, length, Bool-cases,
}
use mathlib.Core.Path.{subst}
use mathlib.Core.List.{append_assoc, append-nil}
use mini_im.Protocol.{Bytes}
use mini_im.Storage.FileRepo.{StoredFileTransfer, get_transfer_by_file_id}
use mini_im.Services.File.Chunks.{content}
use mini_im.Quic.Dict.{get, get-remove}
use mini_im.Quic.Upload.{UploadLease, advance}
use mini_im.Quic.Upload.Consistent.{write_same, release_lem}
use mini_im.Quic.Download.Jobs.{same_stream_sound, same_stream_refl}
use mini_im.Quic.Receive.{FileStreamState, Receiver, same_stream, discard_upload_stream}
use mini_im.Quic.Receive.Handle.{extended, end_upload_stream}
use mini_im.Quic.Receive.Flush.{Uploading, Held, buffer-fits, current-advance, advance-Consistent}
use mini_im.Quic.Receive.Drain.{Flushed}

append-empty : (xs ys : Bytes) → length ys ≡ 0 → xs ++ ys ≡ xs
append-empty xs [] h = append-nil xs
append-empty xs (y ∷ ys) h = absurd (omega arith)

pub extended-Held :
    (stream_id : ℕ) (d : Bytes) (state : FileStreamState) (r : Receiver)
    → Held stream_id state r
    → extended stream_id d r ≡ record state { buffer = state.buffer ++ d }
unfolding extended
extended-Held stream_id d state r held = rw (extended, held) refl

module _ (stream_id a size : ℕ) (path file_id : String) where
  -- Bytes that arrive, as long as they fit.
  pub extended-Uploading :
      (bytes d : Bytes) (state : FileStreamState) (t : StoredFileTransfer) (r : Receiver)
      → length (bytes ++ d) ≤ size
      → Uploading stream_id a size path file_id bytes state t r
      → Uploading stream_id a size path file_id
          (bytes ++ d)
          (record state { buffer = state.buffer ++ d })
          t
          r
  extended-Uploading bytes d state t r l h = record {
    named = h.named;
    admitted = h.admitted;
    running = h.running;
    lease = h.lease;
    names = h.names;
    consistent = h.consistent;
    live = h.live;
    found = h.found;
    owned = h.owned;
    upload = h.upload;
    going = h.going;
    level = h.level;
    at_path = h.at_path;
    of_size = h.of_size;
    aligned = h.aligned;
    whole =
        sym (append_assoc (content r.disk t.storage_path) state.buffer d)
        ∙ ap (λ (x : Bytes). x ++ d) h.whole;
    fits = l;
  }

  -- The lease is touched.
  pub touched-Uploading :
      (now : ℕ) (bytes : Bytes) (state : FileStreamState) (t : StoredFileTransfer) (r : Receiver)
      → Uploading stream_id a size path file_id bytes state t r
      → Uploading stream_id a size path file_id bytes state t
          (record r { uploads = advance now a (r.uploads.leases a).offset r.uploads })
  unfolding advance
  touched-Uploading now bytes state t r h = record {
    named = h.named;
    admitted = h.admitted;
    running = h.running;
    lease = h.lease;
    names = h.names;
    consistent = advance-Consistent now a _ r.uploads h.consistent;
    live = current-advance now a _ r.uploads ∙ h.live;
    found = h.found;
    owned = h.owned;
    upload = h.upload;
    going = h.going;
    level = h.level ∙ sym (ap (λ (l : UploadLease). l.offset) (write_same a _ r.uploads.leases));
    at_path = h.at_path;
    of_size = h.of_size;
    aligned = h.aligned;
    whole = h.whole;
    fits = h.fits;
  }

  -- The offset of the lease and the buffer make up all the bytes.
  pub projected_lem :
      (bytes : Bytes) (state : FileStreamState) (t : StoredFileTransfer) (r : Receiver)
      → Uploading stream_id a size path file_id bytes state t r
      → (r.uploads.leases a).offset + length state.buffer ≡ length bytes
  projected_lem bytes state t r h =
      ap (λ (n : ℕ). n + length state.buffer) (sym h.level) ∙ buffer-fits bytes state t r h

  -- The upload on record has as many bytes.
  abbrev pub Recorded : Bytes → Receiver → Type 0
  Recorded bytes r =
      (t : StoredFileTransfer) × (get_transfer_by_file_id r.db file_id ≡ some t)
      × (t.received_bytes ≡ length bytes)

  -- The end of a stream with nothing left in its buffer: the bytes are on the disk.
  pub end-Whole :
      (bytes : Bytes) (state : FileStreamState) (t : StoredFileTransfer) (r : Receiver)
      (file_size : ℕ)
      → Uploading stream_id a size path file_id bytes state t r
      → length state.buffer ≡ 0
      → (r' : Receiver) × (end_upload_stream stream_id a file_size r ≡ some r')
        × (content r'.disk path ≡ bytes)
        × Recorded bytes r'
        × (get same_stream stream_id r'.streams ≡ none)
  unfolding end_upload_stream discard_upload_stream
  end-Whole bytes state t r file_size h none_ =
      let gone = get-remove same_stream same_stream_sound same_stream_refl stream_id r.streams in
      let whole : content r.disk path ≡ bytes =
        ap (content r.disk) (sym h.at_path)
        ∙ sym (append-empty (content r.disk t.storage_path) state.buffer none_)
        ∙ h.whole in
      let row : Recorded bytes r = (
        t,
        subst (λ (x : String). get_transfer_by_file_id r.db x ≡ some t) h.names h.found,
        omega (arith, buffer-fits bytes state t r h, none_),
      ) in
      elim (Bool-cases ((r.uploads.leases a).offset == file_size)) [
        | inl all ↦
            rw (end_upload_stream, all) (discard_upload_stream stream_id r, refl, whole, row, gone)
        | inr short ↦
            rw (end_upload_stream, short, release_lem a r.uploads h.consistent)
              (_, refl, whole, row, gone)
      ]

  -- An upload that goes on, with no chunk or more in its buffer.
  abbrev pub Going : Bytes → Receiver → Type 0
  Going bytes r =
      (state : FileStreamState) × (t : StoredFileTransfer) × Uploading stream_id a size path file_id
        bytes state t r
      × Held stream_id state r
      × (length state.buffer < 65536)

  pub Flushed-Going :
      (bytes : Bytes) (force : Bool) (o : Option (Bool × Receiver))
      → Flushed stream_id a size path file_id bytes force o
      → (r : Receiver) × (o ≡ some (true, r)) × Going bytes r
  Flushed-Going bytes true o (state, t, r, e, h, held, d) =
      (r, e, (state, t, h, held, omega (arith, d)))
  Flushed-Going bytes false o (state, t, r, e, h, held, d) = (r, e, (state, t, h, held, d))

  pub weaker :
      (bytes : Bytes) (force b : Bool) (o : Option (Bool × Receiver))
      → Flushed stream_id a size path file_id bytes (force || b) o
      → Flushed stream_id a size path file_id bytes force o
  weaker bytes true b o f = f
  weaker bytes false true o (state, t, r, e, h, held, d) =
      (state, t, r, e, h, held, omega (arith, d))
  weaker bytes false false o f = f
