-- ===== src/Examples/Downloads.antt =====
-- A download over a transport that keeps what it is given and sends nothing away.
use mini_im.Prelude.{
  ℕ, suc, ◌≤◌, ◌≡◌, refl, sym, String, Bool, true, false, ◌||◌, none, some, List, [], ◌∷◌, ◌++◌,
  arith, if◌then◌else◌, ◌==◌, max, length-append,
}
use mini_im.Protocol.{Bytes}
use mini_im.Text.{encode}
use mini_im.Text.Utf8.{encode_char}
use mini_im.Quic.Upload.Consistent.{some_injective}
use mini_im.Quic.Dict.{get, put, remove, values}
use mini_im.Quic.Download.{
  Transport, DownloadScheduler, new_scheduler, start, enter, header, can_accept, transmit_all,
  is_stopped, pending_bytes, finished, reset_requested, measure, total_pending,
}
use mini_im.Quic.Download.Turns.{
  Files, read_chunk, insert_job, by_priority, is_empty, stop, end_turn, visit, stream_ids, turn,
  assign, account, fail, send_chunk, read_done, resume_at, resume,
}
use mini_im.Quic.Download.Steps.{Reach, here, after, started, resumed}
use mini_im.Quic.Download.Budget.{Calmer, Buffers, AnyFiles, AnyCall, Within}
use mini_im.Quic.Download.Content.{Quiet, Records, Unchanged, Delivering}
use mini_im.Quic.Download.Limits.{Reach-Within}
use mini_im.Quic.Download.Delivery.{Reach-Delivering}

-- The calls of `send_stream_data`, the last one first.
abbrev Log : Type 0
Log = List (ℕ × Bytes × Bool)

abbrev next_id : Log → ℕ
next_id [] = 0
next_id ((id, d, fin) ∷ l) = max (suc id) (next_id l)

abbrev given : Log → ℕ → Bytes
given [] k = []
given ((id, d, fin) ∷ l) k = let rest = given l k in if id == k then rest ++ d else rest

abbrev given_end : Log → ℕ → Bool
given_end [] k = false
given_end ((id, d, fin) ∷ l) k = let rest = given_end l k in if id == k then rest || fin else rest

abbrev keeper : Transport Log
keeper = record {
  streams =
      λ l k. some (record { buffer = given l k; is_finished = false; reset_error_code = none });
  get_next_available_stream_id = next_id;
  send_stream_data = λ id d fin l. (id, d, fin) ∷ l;
  reset_stream = λ id code l. l;
  transmit = λ l. l;
}

number_refl : (k : ℕ) → (k == k) ≡ true
number_refl k = ground arith

below : (id k n : ℕ) → max (suc id) n ≤ k → (id == k) ≡ false
below id k n h = ground arith

new-empty : (l : Log) (k : ℕ) → next_id l ≤ k → (given l k ≡ []) × (given_end l k ≡ false)
new-empty [] k h = (refl, refl)
new-empty ((id, d, fin) ∷ l) k h = rw (below id k (next_id l) h) (new-empty l k (omega (arith, h)))

keeper-Buffers : Buffers keeper
unfolding pending_bytes
keeper-Buffers = record {
  send_adds = λ id d fin l. rw (number_refl id) (omega (arith, length-append (given l id) d));
  send_other = λ id k d fin l n. rw n (omega arith);
  send_ids = λ id d fin l. omega arith;
  send_takes = λ d fin l. omega arith;
  fresh = λ l. rw (new-empty l (next_id l) (omega arith)).0 refl;
  reset_calm = λ id code l. (λ k. omega arith, omega arith);
  transmit_calm = λ l. (λ k. omega arith, omega arith);
}

abbrev source : String → Bytes
source path = 1 ∷ 2 ∷ 3 ∷ []

-- `start` is called for three bytes of one file, from its first byte.
abbrev Called : String → String → ℕ → ℕ → ℕ → Type 0
Called file_id path size offset priority =
    (file_id ≡ "f") × (path ≡ "p") × (size ≡ 3) × (offset ≡ 0) × (priority ≡ 0)

abbrev readable : Files
readable path = some (source path)

keeper-Records : Records keeper given given_end source Called
keeper-Records = record {
  send_same = λ id d fin l. rw (number_refl id) (refl, refl);
  send_other = λ id k d fin l n. rw n (refl, refl);
  fresh = λ l. new-empty l (next_id l) (omega arith);
  reset_quiet = λ id code l k. (refl, refl);
  transmit_quiet = λ l k. (refl, refl);
}

-- A download of three bytes is started, read and sent, and ended.
abbrev s0 : DownloadScheduler Log
s0 = new_scheduler []

abbrev s1 : DownloadScheduler Log
s1 = (start keeper "f" "p" 3 0 0 s0).1

abbrev s2 : DownloadScheduler Log
s2 = resume keeper readable s1

abbrev s3 : DownloadScheduler Log
s3 = resume keeper readable s2

abbrev s4 : DownloadScheduler Log
s4 = resume keeper readable s3

abbrev s5 : DownloadScheduler Log
s5 = resume keeper readable s4

-- The file was sent, and the end with it.
sent_all : (given s5.quic 0 ≡ header "f" ++ 1 ∷ 2 ∷ 3 ∷ []) × (given_end s5.quic 0 ≡ true)
unfolding new_scheduler start enter header encode encode_char can_accept transmit_all is_stopped
    pending_bytes finished reset_requested measure total_pending get put remove values insert_job
    by_priority is_empty stop end_turn visit stream_ids turn assign account fail send_chunk
    read_chunk read_done resume_at resume
sent_all = (refl, refl)

asked : Reach keeper (Calmer keeper) (AnyFiles keeper) (AnyCall keeper) s0 s5
asked =
    after {t = s4}
      (after {t = s3}
        (after {t = s2}
          (after {t = s1} (after here (started "f" "p" 3 0 0 tt)) (resumed readable tt))
          (resumed readable tt))
        (resumed readable tt))
      (resumed readable tt)

Reach-Within_example : Within keeper s5
Reach-Within_example = Reach-Within keeper keeper-Buffers [] s5 asked

unchanged : Unchanged keeper given given_end source Called readable
unchanged path content e = some_injective (sym e)

found :
    Reach keeper
      (Quiet keeper given given_end source Called)
      (Unchanged keeper given given_end source Called)
      Called
      s0
      s5
found =
    after {t = s4}
      (after {t = s3}
        (after {t = s2}
          (after {t = s1} (after here (started "f" "p" 3 0 0 (refl, refl, refl, refl, refl)))
            (resumed readable unchanged))
          (resumed readable unchanged))
        (resumed readable unchanged))
      (resumed readable unchanged)

Reach-Delivering_example : Delivering keeper given given_end source Called s5.quic s5.jobs
Reach-Delivering_example =
    Reach-Delivering keeper given given_end source Called keeper-Records [] s5 found
