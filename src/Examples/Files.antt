-- ===== src/Examples/Files.antt =====
-- An upload of three bytes of which two have arrived, through the repository and the service of
-- files.
use Prim.Native.String.{◌++◌}
use mini_im.Prelude.{
  ◌≡◌, refl, String_discrete, true, false, none, some, [], ◌∷◌, arith, if◌then◌else◌, ◌=?◌, find?,
}
use mini_im.Storage.Db.{Db, FileTransferRow}
use mini_im.Storage.FileRepo.Requests.{FileEnv}
use mini_im.Storage.FileRepo.{
  StoredFileTransfer, Result, find_transfer, get_transfer_by_file_id, apply_progress,
}
use mini_im.Storage.FileRepo.Machine.{FilesStep}
use mini_im.Storage.FileRepo.Settled.{WellFormed, Evolved}
use mini_im.Storage.FileRepo.History.{
  progress, here, next, FileStep-Refines, Reach-WellFormed, Reach-Evolved,
}
use mini_im.Services.File.{Disk, FileTools}
use mini_im.Services.File.Chunks.{content, accepts_chunk, append_file_chunk, reconcile_upload}
use mini_im.Services.File.Chunks.Recovery.{Aligned, SameFiles, append_file_chunk-recovers}
use mini_im.Examples.Fixture.{env, posted}

abbrev pub fenv : FileEnv
fenv = record { lower = λ s. s; serialize_init = λ i. 1 ∷ [] }

abbrev pub tools : FileTools
tools = record {
  sha256_hex = λ b. "d";
  sha1_hex = λ s. "abcd";
  suffix = λ s. ".txt";
  join = λ a b. a ++ "/" ++ b;
  dumps = λ c. 9 ∷ [];
  serialize_finish = λ f. 2 ∷ [];
  serialize_cancel = λ c. 3 ∷ [];
}

abbrev pub part : FileTransferRow
part = record {
  file_id = "f1";
  conversation_id = "g";
  owner_id = "ann";
  client_file_id = "i1";
  request_id = "r5";
  file_name = "a.txt";
  file_size = 3;
  sha256 = "d";
  storage_path = "p";
  direction = 1;
  source_file_id = "";
  priority = 0;
  received_bytes = 2;
  version = 2;
  status = "uploading";
  created_at_ms = 5;
  updated_at_ms = 6;
}

abbrev pub transfer : StoredFileTransfer
transfer = record {
  file_id = "f1";
  conversation_id = "g";
  owner_id = "ann";
  client_file_id = "i1";
  file_name = "a.txt";
  file_size = 3;
  sha256 = "d";
  storage_path = "p";
  direction = 1;
  priority = 0;
  received_bytes = 2;
  version = 2;
  status = "uploading";
  updated_at_ms = 6;
  source_file_id = "";
}

abbrev pub files : Db
files = record posted { file_transfers = part ∷ [] }

abbrev pub disk : Disk
disk p = if p =? "p" then some (1 ∷ 2 ∷ []) else none

FileStep-Refines_example : FilesStep files (apply_progress env 7 "f1" 3 ("ann" ∷ []) files).1
FileStep-Refines_example = FileStep-Refines env fenv (progress 7 "f1" 3 ("ann" ∷ []) refl)

part-WellFormed : WellFormed files.file_transfers
unfolding find_transfer find? String_discrete
part-WellFormed = (refl, record { within = omega arith; whole = λ w. cc }, tt)

Reach-WellFormed_example :
    WellFormed (apply_progress env 7 "f1" 3 ("ann" ∷ []) files).1.file_transfers
Reach-WellFormed_example =
    Reach-WellFormed env fenv part-WellFormed (next here (progress 7 "f1" 3 ("ann" ∷ []) refl))

part_found : find_transfer "f1" files.file_transfers ≡ some part
unfolding find_transfer find? String_discrete
part_found = refl

Reach-Evolved_example :
    (row : FileTransferRow) × (find_transfer "f1"
        (apply_progress env 7 "f1" 3 ("ann" ∷ []) files).1.file_transfers
      ≡ some row)
    × Evolved part row
Reach-Evolved_example =
    Reach-Evolved env fenv "f1" part part-WellFormed part_found
      (next here (progress 7 "f1" 3 ("ann" ∷ []) refl))

pub transfer_found : get_transfer_by_file_id files "f1" ≡ some transfer
unfolding get_transfer_by_file_id find? String_discrete
transfer_found = refl

pub accepted : accepts_chunk "ann" (3 ∷ []) transfer ≡ true
unfolding accepts_chunk String_discrete
accepted = refl

pub aligned : Aligned disk transfer
unfolding content String_discrete
aligned = refl

append_file_chunk-recovers_example :
    (disk' : Disk) × (reconcile_upload env 8 transfer
        ("ann" ∷ [])
        (append_file_chunk env 7 (some 1) "ann" "f1" (3 ∷ []) files disk).1
        (append_file_chunk env 7 (some 1) "ann" "f1" (3 ∷ []) files disk).2
      ≡ (
        Result.ok (some (record { transfer = transfer; sync_events = []; changed = false })),
        files,
        disk',
      ))
    × SameFiles disk disk'
append_file_chunk-recovers_example =
    append_file_chunk-recovers env "ann" "f1" (3 ∷ []) transfer files disk transfer_found accepted
      aligned 7 8 1 ("ann" ∷ [])
