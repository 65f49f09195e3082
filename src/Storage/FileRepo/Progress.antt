-- ===== src/Storage/FileRepo/Progress.antt =====
-- server/storage/repo/file_repo.py: progress, a rewind and a finish are steps of the transfer.
use text.Mathlib.TextEquality.{eq_iff}
use mini_im.Prelude.{
  ℕ, ◌≡◌, refl, ◌⊎◌, inl, inr, String, Bool, true, false, ◌&&◌, ◌||◌, not, some, List, arith,
  if◌then◌else◌, ◌=?◌, ◌==◌, ltb, Bool-cases, Option-cases,
}
use mini_im.Protocol.{file_direction_upload}
use mini_im.Storage.Db.{Db, Env, FileTransferRow}
use mini_im.Storage.FileRepo.{
  is_final, row_to_transfer, find_transfer, get_transfer_by_file_id, apply_progress, rewind_upload,
  apply_finish,
}
use mini_im.Storage.FileRepo.Rows.{
  Transition, receive, rewind, complete, fail, Has, same, find_transfer-Has,
}
use mini_im.Storage.FileRepo.Machine.{FilesStep, save_if-step}

-- The status after a finish.
abbrev target : Bool → FileTransferRow → String
target success old = if success || (old.status =? "completed") then "completed" else "failed"

target-open :
    (success : Bool) (old : FileTransferRow)
    → (old.status =? "cancelled") ≡ false
    → not (target success old =? old.status) ≡ true
    → is_final old.status ≡ false
unfolding is_final
target-open success old open_ c = ground (arith, eq_iff old.status "completed")

finished :
    (success : Bool) (old : FileTransferRow)
    → (old.status =? "cancelled") ≡ false
    → not (target success old =? old.status) ≡ true
    → Transition old.file_size old.status old.received_bytes
        (target success old)
        (if success then old.file_size else old.received_bytes)
finished true old open_ c = complete refl refl
finished false old open_ c = elim (Bool-cases (old.status =? "completed")) [
  | inl done ↦ absurd (ground (arith, eq_iff old.status "completed"))
  | inr more ↦ rw more (fail refl refl)
]

module _ (env : Env) (now_ms : ℕ) (file_id : String) (member_ids : List String) (db : Db) where
  -- The row that a read by identifier found is in the table.
  found :
      {old : FileTransferRow}
      → find_transfer file_id db.file_transfers ≡ some old
      → Has old db.file_transfers
  found {old} e = (find_transfer-Has file_id db.file_transfers {row = old} e).0

  pub apply_progress-step :
      (received_bytes : ℕ)
      → FilesStep db (apply_progress env now_ms file_id received_bytes member_ids db).1
  unfolding apply_progress get_transfer_by_file_id row_to_transfer
  apply_progress-step received_bytes =
      elim (Option-cases (find_transfer file_id db.file_transfers)) [
        | inl e ↦ rw (apply_progress, get_transfer_by_file_id, e) (same refl)
        | inr (old, e) ↦
            rw (apply_progress, get_transfer_by_file_id, e)
              (elim (Bool-cases (ltb old.file_size received_bytes)) [
                | inl over ↦ rw over (same refl)
                | inr fits ↦ rw fits (
                    save_if-step env now_ms
                      (not (is_final old.status) && ltb old.received_bytes received_bytes)
                      member_ids old _
                      (if received_bytes == old.file_size then "uploaded" else "uploading")
                      received_bytes db (found e)
                      (λ c. (ground arith, receive (ground arith) (ground arith) refl, rw c refl)))
              ])
      ]

  rewound :
      (integrity_failed : Bool) (n : ℕ)
      → let status : String =
          if integrity_failed then "failed_integrity" else if n == 0 then "init" else "uploading" in
        (status ≡ "failed_integrity") ⊎ (status ≡ (if n == 0 then "init" else "uploading"))
  rewound true n = inl refl
  rewound false n = inr refl

  pub rewind_upload-step :
      (received_bytes : ℕ) (integrity_failed : Bool)
      → FilesStep db
          (rewind_upload env now_ms file_id received_bytes member_ids integrity_failed db).1
  unfolding rewind_upload get_transfer_by_file_id row_to_transfer
  rewind_upload-step received_bytes integrity_failed =
      elim (Option-cases (find_transfer file_id db.file_transfers)) [
        | inl e ↦ rw (rewind_upload, get_transfer_by_file_id, e) (same refl)
        | inr (old, e) ↦
            rw (rewind_upload, get_transfer_by_file_id, e)
              (elim (Bool-cases (old.direction == file_direction_upload)) [
                | inr down ↦ rw down (same refl)
                | inl up ↦ rw up (elim (Bool-cases (ltb old.received_bytes received_bytes)) [
                  | inl over ↦ rw over (same refl)
                  | inr fits ↦ rw fits (
                      save_if-step env now_ms
                        (not (is_final old.status)
                          && (ltb received_bytes old.received_bytes
                              || (integrity_failed && not (old.status =? "failed_integrity"))))
                        member_ids old _
                        (if integrity_failed
                          then "failed_integrity"
                          else if received_bytes == 0
                          then "init"
                          else "uploading")
                        received_bytes db (found e)
                        (λ c. (
                          ground arith,
                          rewind (ground arith) (rewound integrity_failed received_bytes),
                          rw c refl,
                        )))
                ])
              ])
      ]

  pub apply_finish-step :
      (success : Bool) → FilesStep db (apply_finish env now_ms file_id success member_ids db).1
  unfolding apply_finish get_transfer_by_file_id row_to_transfer
  apply_finish-step success = elim (Option-cases (find_transfer file_id db.file_transfers)) [
    | inl e ↦ rw (apply_finish, get_transfer_by_file_id, e) (same refl)
    | inr (old, e) ↦
        rw (apply_finish, get_transfer_by_file_id, e)
          (elim (Bool-cases (old.status =? "cancelled")) [
            | inl gone ↦ rw gone (same refl)
            | inr open_ ↦ rw open_ (
                save_if-step env now_ms (not (target success old =? old.status)) member_ids old _
                  (target success old) (if success then old.file_size else old.received_bytes) db
                  (found e)
                  (λ c. (target-open success old open_ c, finished success old open_ c, rw c refl)))
          ])
  ]
