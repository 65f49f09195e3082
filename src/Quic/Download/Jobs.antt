-- ===== src/Quic/Download/Jobs.antt =====
-- server/quic/download.py: the job under a stream, when jobs change, and the bytes of a source.
use native.Mathlib.Numerals.{unary_clauses}
use mini_im.Prelude.{
  ℕ, zero, suc, ◌+◌, ◌-◌, ◌≤◌, ◌≡◌, refl, sym, ap, ◌∙◌, inl, inr, String, true, false, none, some,
  List, [], ◌∷◌, ◌++◌, arith, if◌then◌else◌, ◌=?◌, ◌==◌, length, take, drop, Bool-cases,
}
use mini_im.Protocol.{Bytes}
use mini_im.Quic.Upload.Consistent.{same_number, some_injective}
use mini_im.Quic.Dict.{get}
use mini_im.Quic.Download.{Transport, DownloadJob, same_stream, end_jobs}
use mini_im.Quic.Download.Turns.{assign}

pub none-some : {A : Type 0} (x : A) → none ≡ some x → ⊥
none-some x e = cc

pub same_stream_sound : (j k : ℕ) → same_stream j k ≡ true → j ≡ k
same_stream_sound j k h = same_number j k h

pub same_stream_refl : (k : ℕ) → same_stream k k ≡ true
same_stream_refl k = ground arith

suc_add : (m n : ℕ) → suc (m + n) ≡ suc m + n
suc_add m n = omega arith

take-length-take : (n : ℕ) (xs : Bytes) → take (length (take n xs)) xs ≡ take n xs
take-length-take zero xs = refl
take-length-take (suc n) [] = refl
take-length-take (suc n) (x ∷ xs) = ap (◌∷◌ x) (take-length-take n xs)

-- Two chunks that follow each other.
take-drop :
    (m n : ℕ) (xs : Bytes)
    → take m xs ++ take n (drop m xs) ≡ take (m + length (take n (drop m xs))) xs
take-drop zero n xs = sym (take-length-take n xs) ∙ ap (λ (m : ℕ). take m xs) (omega arith)
take-drop (suc m) zero [] = simp unary_clauses refl
take-drop (suc m) (suc n) [] = simp unary_clauses refl
take-drop (suc m) n (x ∷ xs) =
    ap (◌∷◌ x) (take-drop m n xs)
    ∙ ap (λ (k : ℕ). take k (x ∷ xs)) (suc_add m (length (take n (drop m xs))))

drop-nil : (n : ℕ) → drop {A = ℕ} n [] ≡ []
drop-nil zero = refl
drop-nil (suc n) = refl

drop-drop : (m n : ℕ) (xs : Bytes) → drop n (drop m xs) ≡ drop (m + n) xs
drop-drop zero n xs = ap (λ (m : ℕ). drop m xs) (omega arith)
drop-drop (suc m) n [] = drop-nil n ∙ sym (drop-nil (suc m + n))
drop-drop (suc m) n (x ∷ xs) = drop-drop m n xs ∙ ap (λ (k : ℕ). drop k (x ∷ xs)) (suc_add m n)

-- The bytes from `begin` to `offset`, and the chunk that is found at `offset`.
pub slice-grows :
    (begin offset size : ℕ) (xs : Bytes)
    → begin ≤ offset
    → take (offset - begin) (drop begin xs) ++ take size (drop offset xs)
      ≡ take (offset + length (take size (drop offset xs)) - begin) (drop begin xs)
slice-grows begin offset size xs le =
    let m = offset - begin in
    let at : drop m (drop begin xs) ≡ drop offset xs =
      drop-drop begin m xs ∙ ap (λ (n : ℕ). drop n xs) (omega arith) in
    ap (λ (rest : Bytes). take m (drop begin xs) ++ take size rest) (sym at)
    ∙ take-drop m size (drop begin xs)
    ∙ ap (λ (rest : Bytes). take (m + length (take size rest)) (drop begin xs)) at
    ∙ ap (λ (n : ℕ). take n (drop begin xs)) (omega arith)

module _ {Q : Type 0} (transport : Transport Q) where
  other_entry : (j id k : ℕ) → (j == k) ≡ true → (id == k) ≡ false → (j == id) ≡ false
  other_entry j id k e n = ground arith

  pub get-assign_other :
      (id k : ℕ) (f : DownloadJob → DownloadJob) (jobs : List (ℕ × DownloadJob))
      → (id == k) ≡ false
      → get same_stream k (assign transport id f jobs) ≡ get same_stream k jobs
  unfolding get assign
  get-assign_other id k f [] n = refl
  get-assign_other id k f ((j, job) ∷ jobs) n = elim (Bool-cases (j == k)) [
    | inl e ↦ rw (e, other_entry j id k e n) refl
    | inr d ↦ rw d (get-assign_other id k f jobs n)
  ]

  pub get-assign_same :
      (id : ℕ) (f : DownloadJob → DownloadJob) (job : DownloadJob) (jobs : List (ℕ × DownloadJob))
      → get same_stream id jobs ≡ some job
      → get same_stream id (assign transport id f jobs) ≡ some (f job)
  unfolding get assign
  get-assign_same id f job [] e = absurd (none-some job e)
  get-assign_same id f job ((j, held) ∷ jobs) e = elim (Bool-cases (j == id)) [
    | inl t ↦ rw t (ap some (ap f (some_injective (sym (rw t refl) ∙ e))))
    | inr n ↦ rw n (get-assign_same id f job jobs (sym (rw n refl) ∙ e))
  ]

  pub get-assign-none :
      (id : ℕ) (f : DownloadJob → DownloadJob) (jobs : List (ℕ × DownloadJob))
      → get same_stream id jobs ≡ none
      → get same_stream id (assign transport id f jobs) ≡ none
  unfolding get assign
  get-assign-none id f [] e = refl
  get-assign-none id f ((j, held) ∷ jobs) e = elim (Bool-cases (j == id)) [
    | inl t ↦ absurd (none-some held (sym e ∙ rw t refl))
    | inr n ↦ rw n (get-assign-none id f jobs (sym (rw n refl) ∙ e))
  ]

  pub get-end_jobs :
      (file_id : String) (id : ℕ) (job : DownloadJob) (jobs : List (ℕ × DownloadJob))
      → get same_stream id jobs ≡ some job
      → get same_stream id (end_jobs transport file_id jobs)
        ≡ some (if job.file_id =? file_id then record job { eof = true } else job)
  unfolding get end_jobs
  get-end_jobs file_id id job [] e = absurd (none-some job e)
  get-end_jobs file_id id job ((j, held) ∷ jobs) e = elim (Bool-cases (j == id)) [
    | inl t ↦ rw t (
        ap (λ (x : DownloadJob). some (if x.file_id =? file_id then record x { eof = true } else x))
          (some_injective (sym (rw t refl) ∙ e)))
    | inr n ↦ rw n (get-end_jobs file_id id job jobs (sym (rw n refl) ∙ e))
  ]

  pub get-end_jobs-none :
      (file_id : String) (id : ℕ) (jobs : List (ℕ × DownloadJob))
      → get same_stream id jobs ≡ none
      → get same_stream id (end_jobs transport file_id jobs) ≡ none
  unfolding get end_jobs
  get-end_jobs-none file_id id [] e = refl
  get-end_jobs-none file_id id ((j, held) ∷ jobs) e = elim (Bool-cases (j == id)) [
    | inl t ↦ absurd (none-some held (sym e ∙ rw t refl))
    | inr n ↦ rw n (get-end_jobs-none file_id id jobs (sym (rw n refl) ∙ e))
  ]
