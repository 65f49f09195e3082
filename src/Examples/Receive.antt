-- ===== src/Examples/Receive.antt =====
-- An upload stream that goes on after the second of six bytes.
use mini_im.Prelude.{
  ℕ, ◌≡◌, ◌<◌, ◌≤◌, refl, String, String_discrete, true, false, Option, none, some, List, [], ◌∷◌,
  ◌++◌, arith, if◌then◌else◌, find?, length, any, all, leb,
}
use mini_im.Protocol.{Bytes}
use mini_im.Text.{encode}
use mini_im.Text.Utf8.{encode_char}
use mini_im.Storage.Db.{Db}
use mini_im.Storage.ControlWrite.{same_bytes}
use mini_im.Storage.FileRepo.{StoredFileTransfer, get_transfer_by_file_id, is_uploading_status}
use mini_im.Services.File.Chunks.{content}
use mini_im.Quic.Dict.{get, put, remove}
use mini_im.Quic.Upload.{
  UploadLease, UploadRegistry, new_registry, find_file, current, enter, write,
}
use mini_im.Quic.Upload.Consistent.{Consistent, without, enter-Consistent}
use mini_im.Quic.Upload.Run.{new_registry-Consistent}
use mini_im.Quic.Receive.{FileStreamState, new_state, Receiver, Write, same_stream, contains}
use mini_im.Quic.Receive.Header.{split_line, split_spaces, parse_header, is_decimal, number_from}
use mini_im.Quic.Receive.Handle.{FaultConfig, handle_file_stream_data}
use mini_im.Quic.Receive.Open.{Headed, Granted}
use mini_im.Quic.Receive.Run.{Event, arrived, expired, flushed, arrivals, run, upload-Whole}
use mini_im.Quic.Receive.Reject.{Same}
use mini_im.Quic.Receive.Stale.{run-Same}
use mini_im.Quic.Upload.Calls.{after_release, release-Consistent}
use mini_im.Examples.Fixture.{env}
use mini_im.Examples.Files.{part, transfer, files, disk}

abbrev longer : StoredFileTransfer
longer = record transfer { file_size = 6 }

abbrev tables : Db
tables = record files { file_transfers = record part { file_size = 6 } ∷ [] }

abbrev lease : UploadLease
lease = record {
  user_id = "ann";
  intent = "i1";
  file_id = "f1";
  owner = 4;
  device_id = "d1";
  generation = 1;
  offset = 2;
  touched = 1;
  stream_id = none;
}

abbrev uploads : UploadRegistry
uploads = enter lease (new_registry 60000)

uploads-Consistent : Consistent uploads
unfolding new_registry find_file get
uploads-Consistent =
    enter-Consistent lease (new_registry 60000) (new_registry-Consistent 60000) (λ file_id b e. cc)

abbrev receiver : Receiver
receiver = record {
  user_id = "ann";
  connection = 4;
  uploads = uploads;
  db = tables;
  disk = disk;
  streams = [];
  rejected = [];
  receive_ends = [];
  storage_failed = false;
  control_closed = false;
  overloaded = false;
  published = [];
  calls = [];
}

abbrev config : FaultConfig
config = record { file_drop_after_bytes = 0; random_drop = false }

abbrev decode : Bytes → Option String
decode name = if same_bytes name (encode "f1") then some "f1" else none

abbrev writes : ℕ → ℕ → Write
writes k n = record { write_ms = 7; failure = none; now = 8 }

abbrev sent : Bytes
sent = encode "MINIIMFILE2 f1 2" ++ 10 ∷ 3 ∷ []

header_parsed : parse_header decode (encode "MINIIMFILE2 f1 2") ≡ some ("f1", 2)
unfolding parse_header encode encode_char split_spaces is_decimal number_from same_bytes all
header_parsed = refl

line_split : split_line sent ≡ some (encode "MINIIMFILE2 f1 2", 3 ∷ [])
unfolding split_line encode encode_char
line_split = refl

not_long : leb (length (encode "MINIIMFILE2 f1 2")) 512 ≡ true
unfolding encode encode_char
not_long = refl

headed : Headed decode "f1" 2 sent (3 ∷ [])
headed = record {
  header = encode "MINIIMFILE2 f1 2";
  line = line_split;
  short = ground (arith, not_long);
  parsed = header_parsed;
}

granted : Granted 8 0 "f1" longer receiver
unfolding contains any get find_file enter write get_transfer_by_file_id find? String_discrete
    is_uploading_status content new_registry
granted = record {
  named = refl;
  admitted = refl;
  running = refl;
  consistent = uploads-Consistent;
  fresh = refl;
  granted = refl;
  mine = refl;
  free = refl;
  level = refl;
  found = refl;
  owned = refl;
  upload = refl;
  going = refl;
  aligned = refl;
}

abbrev events : List Event
events = expired ∷ arrived (4 ∷ []) ∷ flushed ∷ arrived (5 ∷ []) ∷ []

fits : length (content disk "p" ++ ((3 ∷ []) ++ (arrivals events ++ (6 ∷ [])))) ≤ 6
unfolding content arrivals String_discrete
fits = omega arith

upload-Whole_example :
    (waiting ended : Receiver) × (state : FileStreamState) × (run env config decode 8 writes
        (λ n. 7)
        (arrived sent ∷ events)
        receiver
      ≡ some waiting)
    × (get same_stream 8 waiting.streams ≡ some state)
    × (length state.buffer < 65536)
    × (handle_file_stream_data env config (writes 0) 7 decode 8 (6 ∷ []) true waiting ≡ some ended)
    × (content ended.disk "p" ≡ content disk "p" ++ ((3 ∷ []) ++ (arrivals events ++ (6 ∷ []))))
    × (row : StoredFileTransfer) × (get_transfer_by_file_id ended.db "f1" ≡ some row)
    × (row.received_bytes
        ≡ length (content disk "p" ++ ((3 ∷ []) ++ (arrivals events ++ (6 ∷ [])))))
    × (get same_stream 8 ended.streams ≡ none)
upload-Whole_example =
    upload-Whole env config decode 8 writes (λ n. 7) 0 "f1" longer sent (3 ∷ []) (6 ∷ []) events
      receiver refl refl (λ k n. refl) headed granted fits

-- The stream of a lease that was released.
abbrev stale_state : FileStreamState
stale_state = record new_state { buffer = 3 ∷ []; file_id = "f1"; lease = some 0 }

abbrev stale_receiver : Receiver
stale_receiver = record receiver {
  uploads = after_release 0 uploads;
  streams = (8, stale_state) ∷ [];
}

released : current (after_release 0 uploads) 0 ≡ false
unfolding current new_registry find_file get enter put write without remove String_discrete
released = refl

held : get same_stream 8 stale_receiver.streams ≡ some stale_state
unfolding get
held = refl

run-Same_example :
    (r₁ r₂ : Receiver) × (run env config decode 8 writes
        (λ n. 7)
        (flushed ∷ arrived (4 ∷ []) ∷ [])
        stale_receiver
      ≡ some r₁)
    × (handle_file_stream_data env config (writes 0) 7 decode 8 (5 ∷ []) true r₁ ≡ some r₂)
    × Same stale_receiver r₁
    × Same stale_receiver r₂
run-Same_example =
    run-Same env config decode 8 writes (λ n. 7) 0 stale_state stale_receiver
      (release-Consistent 0 uploads uploads-Consistent) held refl released
      (flushed ∷ arrived (4 ∷ []) ∷ []) (5 ∷ []) true
