-- ===== src/Services/File/Chunks/Recovery.antt =====
-- server/services/file/service.py: the bytes on the disk and the bytes on record agree, also after
-- a write that failed halfway.
use mathlib.Core.Path.{subst}
use mathlib.Core.Bool.{false≢true}
use mini_im.Prelude.{
  text_test, text_test_no, zero, suc, ℕ, ◌+◌, ◌≤◌, ◌≡◌, ◌≢◌, refl, sym, ap, ◌∙◌, inl, inr, String,
  String_discrete, true, false, none, some, List, [], ◌∷◌, ◌++◌, ◌==◌, ltb, length, take, arith,
  Bool-cases, Option-cases, length-append, take-length-append,
}
use mini_im.Protocol.{Bytes, file_direction_upload}
use mini_im.Storage.Db.{Db, Env, FileTransferRow}
use mini_im.Storage.FileRepo.{
  StoredFileTransfer, Result, is_uploading_status, is_final, row_to_transfer, find_transfer,
  get_transfer_by_file_id, save_if, append_if, rewind_upload,
}
use mini_im.Storage.FileRepo.Rows.{find_transfer-Has}
use mini_im.Services.File.{Disk, write_file}
use mini_im.Services.File.Chunks.{
  content, ChunkResult, accepts_chunk, append_file_chunk, verified_offset, truncate,
  reconcile_upload,
}

-- As many bytes are on the disk as are on record.
abbrev pub Aligned : Disk → StoredFileTransfer → Type 0
Aligned disk t = length (content disk t.storage_path) ≡ t.received_bytes

pub content-write_file :
    (path : String) (bytes : Bytes) (disk : Disk)
    → content (write_file path bytes disk) path ≡ bytes
unfolding content write_file
content-write_file path bytes disk = rw (content, write_file, text_test path path refl) refl

pub write_file-other :
    (path other : String) (bytes : Bytes) (disk : Disk)
    → path ≢ other
    → write_file path bytes disk other ≡ disk other
unfolding write_file
write_file-other path other bytes disk n =
    rw (write_file, text_test_no other path (λ e. n (sym e))) refl

length-take : (n : ℕ) (xs : Bytes) → n ≤ length xs → length (take n xs) ≡ n
length-take zero xs h = omega arith
length-take (suc n) [] h = absurd (omega arith)
length-take (suc n) (x ∷ xs) h = omega (arith, length-take n xs)

pub record Accepted (user_id : String) (chunk : Bytes) (t : StoredFileTransfer) : Type 0 where
  pub upload : (t.direction == file_direction_upload) ≡ true
  pub going : is_uploading_status t.status ≡ true
  pub fits : t.received_bytes + length chunk ≤ t.file_size
  pub some_ : (length chunk == 0) ≡ false

pub accepts_chunk_lem :
    (user_id : String) (chunk : Bytes) (t : StoredFileTransfer)
    → accepts_chunk user_id chunk t ≡ true
    → Accepted user_id chunk t
unfolding accepts_chunk
accepts_chunk_lem user_id chunk t h = record {
  upload = ground arith;
  going = ground arith;
  fits = ground arith;
  some_ = ground arith;
}

pub uploading-open : (status : String) → is_uploading_status status ≡ true → is_final status ≡ false
unfolding is_uploading_status is_final String_discrete
uploading-open status h = elim (String_discrete status "completed") [
  | yes e ↦ absurd (false≢true (subst (λ (s : String). is_uploading_status s ≡ true) e h))
  | no n ↦ elim (String_discrete status "cancelled") [
    | yes e ↦ absurd (false≢true (subst (λ (s : String). is_uploading_status s ≡ true) e h))
    | no m ↦
        rw (is_final, text_test_no status "completed" n, text_test_no status "cancelled" m) refl
  ]
]

take_all : (n : ℕ) (xs : Bytes) → length xs ≤ n → take n xs ≡ xs
take_all zero [] h = refl
take_all zero (x ∷ xs) h = absurd (omega arith)
take_all (suc n) [] h = refl
take_all (suc n) (x ∷ xs) h = ap (◌∷◌ x) (take_all n xs (omega arith))

-- Cutting the file off at a length that it has.
content-truncate :
    (offset : ℕ) (path : String) (disk : Disk)
    → offset ≤ length (content disk path)
    → content (truncate offset path disk) path ≡ take offset (content disk path)
unfolding truncate
content-truncate offset path disk h = elim (Bool-cases (ltb offset (length (content disk path)))) [
  | inl more ↦ rw (truncate, more) (content-write_file path (take offset (content disk path)) disk)
  | inr equal ↦ rw (truncate, equal) (sym (take_all offset (content disk path) (ground arith)))
]

ltb_self : (n : ℕ) → ltb n n ≡ false
ltb_self n = ground arith

-- A rewind to the recorded bytes changes nothing.
rewind_upload-quiet :
    (env : Env) (now_ms : ℕ) (file_id : String) (member_ids : List String) (db : Db)
    (t : StoredFileTransfer)
    → get_transfer_by_file_id db file_id ≡ some t
    → (t.direction == file_direction_upload) ≡ true
    → rewind_upload env now_ms file_id t.received_bytes member_ids false db
      ≡ (Result.ok (some (record { transfer = t; sync_events = []; changed = false })), db)
unfolding rewind_upload save_if append_if
rewind_upload-quiet env now_ms file_id member_ids db t h up =
    rw (rewind_upload, h, up, ltb_self t.received_bytes)
      (elim (Bool-cases (is_final t.status)) [ inl f ↦ rw f refl | inr f ↦ rw f refl ])

pub same_size : (n : ℕ) → (n == n) ≡ true
same_size n = ground arith

truncate-other :
    (offset : ℕ) (path other : String) (disk : Disk)
    → path ≢ other
    → truncate offset path disk other ≡ disk other
unfolding truncate
truncate-other offset path other disk n =
    elim (Bool-cases (ltb offset (length (content disk path)))) [
      | inl more ↦
          rw (truncate, more) (write_file-other path other (take offset (content disk path)) disk n)
      | inr equal ↦ rw (truncate, equal) refl
    ]

-- The disk holds the same bytes at every path.
abbrev pub SameFiles : Disk → Disk → Type 0
SameFiles disk disk' = (path : String) → content disk' path ≡ content disk path

none_not_some {ℓ} : {A : Type ℓ} {a : A} → none ≡ some a → ⊥
none_not_some e = cc

pub some_injective {ℓ} : {A : Type ℓ} {a b : A} → some a ≡ some b → a ≡ b
some_injective e = cc

-- The row of a transfer that is found.
pub found_row :
    (file_id : String) (db : Db) (t : StoredFileTransfer)
    → get_transfer_by_file_id db file_id ≡ some t
    → (row : FileTransferRow) × (find_transfer file_id db.file_transfers ≡ some row)
      × (t ≡ row_to_transfer row)
unfolding get_transfer_by_file_id
found_row file_id db t h = elim (Option-cases (find_transfer file_id db.file_transfers)) [
  | inl n ↦ absurd (none_not_some (sym (rw (get_transfer_by_file_id, n) refl) ∙ h))
  | inr (row, e) ↦ (row, e, some_injective (sym h ∙ rw (get_transfer_by_file_id, e) refl))
]

pub transfer_id :
    (file_id : String) (db : Db) (t : StoredFileTransfer)
    → get_transfer_by_file_id db file_id ≡ some t
    → t.file_id ≡ file_id
unfolding row_to_transfer
transfer_id file_id db t h =
    let r = found_row file_id db t h in
    ap (λ (x : StoredFileTransfer). x.file_id) r.2
    ∙ (find_transfer-Has file_id db.file_transfers {row = r.0} r.1).1

-- Reconciling a file that begins with the recorded bytes.
reconcile_prefix :
    (env : Env) (rewind_ms : ℕ) (member_ids : List String) (file_id : String)
    (t : StoredFileTransfer) (db : Db) (disk : Disk) (old rest : Bytes)
    → get_transfer_by_file_id db file_id ≡ some t
    → (t.direction == file_direction_upload) ≡ true
    → t.received_bytes ≤ t.file_size
    → length old ≡ t.received_bytes
    → content disk t.storage_path ≡ old ++ rest
    → (reconcile_upload env rewind_ms t member_ids db disk ≡ (
      Result.ok (some (record { transfer = t; sync_events = []; changed = false })),
      db,
      truncate t.received_bytes t.storage_path disk,
    ))
      × (content (truncate t.received_bytes t.storage_path disk) t.storage_path ≡ old)
unfolding reconcile_upload verified_offset
reconcile_prefix env rewind_ms member_ids file_id t db disk old rest found up fits size e =
    let whole : length (content disk t.storage_path) ≡ t.received_bytes + length rest =
      ap length e ∙ length-append old rest ∙ ap (λ (n : ℕ). n + length rest) size in
    let offset : verified_offset disk t ≡ t.received_bytes = omega (arith, whole, fits) in
    (
      rw
          (
            offset,
            rewind_upload-quiet env rewind_ms t.file_id member_ids db t
                (ap (get_transfer_by_file_id db) (transfer_id file_id db t found) ∙ found) up,
          )
          refl,
      content-truncate t.received_bytes t.storage_path disk (omega (arith, whole))
          ∙ ap (take t.received_bytes) e
          ∙ ap (λ (n : ℕ). take n (old ++ rest)) (sym size)
          ∙ take-length-append old rest,
    )

-- A file that is written and cut off to what it was.
restored :
    (path : String) (disk : Disk) (bytes : Bytes) (offset : ℕ)
    → content (truncate offset path (write_file path bytes disk)) path ≡ content disk path
    → SameFiles disk (truncate offset path (write_file path bytes disk))
unfolding content
restored path disk bytes offset h q = elim (String_discrete path q) [
  | yes e ↦
      subst
        (λ (x : String).
          content (truncate offset path (write_file path bytes disk)) x ≡ content disk x)
        e h
  | no n ↦
      rw
        (
          content,
          truncate-other offset path q (write_file path bytes disk) n,
          write_file-other path q bytes disk n,
        )
        refl
]

module _ (env : Env) (user_id file_id : String) (chunk : Bytes) (t : StoredFileTransfer) (db : Db)
    (disk : Disk) (found : get_transfer_by_file_id db file_id ≡ some t)
    (accepted : accepts_chunk user_id chunk t ≡ true) (aligned : Aligned disk t) where
  failed_write :
      (write_ms n : ℕ)
      → append_file_chunk env write_ms (some n) user_id file_id chunk db disk ≡ (
        ChunkResult.os_error "write failed",
        db,
        write_file t.storage_path (content disk t.storage_path ++ take n chunk) disk,
      )
  unfolding append_file_chunk
  failed_write write_ms n =
      rw (append_file_chunk, found, accepted, aligned, same_size t.received_bytes) refl

  -- An upload that accepts a chunk and whose bytes on the disk are as many as are on record: if the
  -- write of the chunk fails after any number of bytes, then the tables stay as they are, and
  -- reconciling the upload leaves the tables as they are too and every file as it was before the
  -- chunk.
  pub append_file_chunk-recovers :
      (write_ms rewind_ms n : ℕ) (member_ids : List String)
      → let after = append_file_chunk env write_ms (some n) user_id file_id chunk db disk in
        (disk' : Disk) × (reconcile_upload env rewind_ms t member_ids after.1 after.2 ≡ (
          Result.ok (some (record { transfer = t; sync_events = []; changed = false })),
          db,
          disk',
        ))
        × SameFiles disk disk'
  append_file_chunk-recovers write_ms rewind_ms n member_ids =
      let path = t.storage_path in
      let old = content disk path in
      let broken = write_file path (old ++ take n chunk) disk in
      let ok_ = accepts_chunk_lem user_id chunk t accepted in
      let done =
        reconcile_prefix env rewind_ms member_ids file_id t db broken old (take n chunk) found
          ok_.upload (omega (arith, ok_.fits)) aligned (content-write_file path _ disk) in
      (
        truncate t.received_bytes path broken,
        rw (failed_write write_ms n) done.0,
        λ q. restored path disk (content disk path ++ take n chunk) t.received_bytes done.1 q,
      )
