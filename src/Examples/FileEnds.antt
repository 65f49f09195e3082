-- ===== src/Examples/FileEnds.antt =====
-- An upload that is completed, and an intent that is cancelled.
use mini_im.Prelude.{
  ◌≡◌, refl, String_discrete, true, false, none, some, [], ◌∷◌, if◌then◌else◌, ◌=?◌, find?,
}
use mini_im.Protocol.{FileInit, FileFinish, FileCancel}
use mini_im.Storage.Db.{Db}
use mini_im.Storage.FileRepo.{StoredFileTransfer, get_transfer_by_file_id, is_final}
use mini_im.Services.File.{Disk}
use mini_im.Services.File.Init.{InitClock, handle_file_init}
use mini_im.Services.File.Finish.{FinishClock, apply_file_finish}
use mini_im.Services.File.Finish.Verified.{
  succeeds, Verified, Published, apply_file_finish-Verified,
}
use mini_im.Services.File.Cancel.{CancelClock, apply_cancel}
use mini_im.Services.File.Cancel.Blocked.{Refused, apply_cancel-blocks}
use mini_im.Examples.Fixture.{env}
use mini_im.Examples.Files.{fenv, tools, part, transfer, files, disk}

abbrev uploaded : StoredFileTransfer
uploaded = record transfer { received_bytes = 3; status = "uploaded" }

abbrev whole : Db
whole = record files {
  file_transfers = record part { received_bytes = 3; status = "uploaded" } ∷ [];
}

abbrev whole_disk : Disk
whole_disk p = if p =? "p" then some (1 ∷ 2 ∷ 3 ∷ []) else none

abbrev clock : FinishClock
clock = record { request_ms = 7; now_ms = 8; write_ms = 9; message_ms = 10; done_ms = 11 }

abbrev finish : FileFinish
finish = record { file_id = "f1"; success = true; transferred_bytes = 3; sha256 = "d" }

uploaded_found : get_transfer_by_file_id whole "f1" ≡ some uploaded
unfolding get_transfer_by_file_id find? String_discrete
uploaded_found = refl

not_final : is_final uploaded.status ≡ false
unfolding is_final String_discrete
not_final = refl

acknowledged :
    succeeds (apply_file_finish env fenv tools clock whole_disk "ann" "r6" finish whole).0 ≡ true
unfolding apply_file_finish String_discrete
acknowledged = refl

apply_file_finish-Verified_example :
    Verified env fenv tools clock whole_disk "ann" "r6" finish uploaded
    × Published env fenv tools clock whole_disk "ann" "r6" finish uploaded
        (apply_file_finish env fenv tools clock whole_disk "ann" "r6" finish whole).1
apply_file_finish-Verified_example =
    apply_file_finish-Verified env fenv tools clock whole_disk "ann" "r6" finish uploaded refl refl
      not_final whole uploaded_found acknowledged

abbrev cancel_clock : CancelClock
cancel_clock = record { request_ms = 7; now_ms = 8; save_ms = 9; done_ms = 10 }

abbrev init_clock : InitClock
init_clock = record { now_ms = 20; create_ms = 21; rewind_ms = 22; done_ms = 23 }

abbrev request : FileCancel
request = record { client_file_id = "i1"; file_id = "f1" }

abbrev init : FileInit
init = record {
  conversation_id = "g";
  client_file_id = "i1";
  file_name = "a.txt";
  file_size = 3;
  sha256 = "d";
  direction = 1;
  resume_offset = 0;
  priority = 0;
  source_file_id = "";
}

abbrev after : Db
after = (apply_cancel env tools cancel_clock "ann" "r7" request files).1

cancelled : (apply_cancel env tools cancel_clock "ann" "r7" request files).0.0.ack.success ≡ true
unfolding apply_cancel String_discrete
cancelled = refl

apply_cancel-blocks_example :
    Refused after disk (handle_file_init env fenv tools 1000 init_clock "ann" "r8" init after disk)
apply_cancel-blocks_example =
    apply_cancel-blocks env fenv tools cancel_clock "ann" "r7" request files after [] 1000
      init_clock "r8" init disk cancelled refl refl
