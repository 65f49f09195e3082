-- ===== src/Storage/SyncRepo/Pages.antt =====
-- server/storage/repo/sync_repo.py: a page holds the next events of a stream, with no gap.
use mini_im.Prelude.{
  ℕ, zero, suc, ◌+◌, ◌-◌, ◌≤◌, ◌≡◌, refl, sym, ap, ◌∙◌, String, Bool, true, false, some, List, [],
  ◌∷◌, ◌++◌, map, if◌then◌else◌, filter, all, take, arith, min,
}
use mini_im.Storage.Db.{Db, SyncEventRow}
use mini_im.Storage.Sql.{order_by, insert_by, sqlite_integer_max}
use mini_im.Storage.SyncEvent.Numbering.{Numbered, count}
use mini_im.Storage.SyncRepo.{LoadedEvent, loaded, is_selected, seq_before, load_events}

-- n, n + 1, …, in number k
unfoldable pub count_from : ℕ → ℕ → List ℕ
count_from n zero = []
count_from n (suc k) = n ∷ count_from (suc n) k

count_from-snoc : (n k : ℕ) → count_from n k ++ (n + k) ∷ [] ≡ count_from n (suc k)
unfolding count_from
count_from-snoc n zero = ap (λ x. x ∷ []) (omega arith)
count_from-snoc n (suc k) =
    ap (◌∷◌ n) (ap (λ x. count_from (suc n) k ++ x ∷ []) (omega arith) ∙ count_from-snoc (suc n) k)

suc-min : (m k : ℕ) → suc (min m k) ≡ min (suc m) (suc k)
suc-min m k = ground arith

count_from-min : (n m k : ℕ) → n ∷ count_from (suc n) (min m k) ≡ count_from n (min (suc m) (suc k))
unfolding count_from
count_from-min n m k = ap (count_from n) (suc-min m k)

pub take-count_from : (m n k : ℕ) → take m (count_from n k) ≡ count_from n (min m k)
unfolding count_from
take-count_from zero n k = ground arith
take-count_from (suc m) n zero = ground arith
take-count_from (suc m) n (suc k) = ap (◌∷◌ n) (take-count_from m (suc n) k) ∙ count_from-min n m k

abbrev seqs : List SyncEventRow → List ℕ
seqs = map λ r. r.seq

-- A row that comes after all others is inserted last.
insert_last :
    (r : SyncEventRow) (rows : List SyncEventRow) (n k : ℕ)
    → seqs rows ≡ count_from n k
    → r.seq ≡ n + k
    → seqs (insert_by seq_before r rows) ≡ count_from n (suc k)
unfolding insert_by seq_before count_from
insert_last r [] n zero h e = ap (λ x. x ∷ []) (e ∙ omega arith)
insert_last r [] n (suc k) h e = ground arith
insert_last r (s ∷ rows) n zero h e = ground arith
insert_last r (s ∷ rows) n (suc k) h e =
    ground (arith, insert_last r rows (suc n) k (ground arith) (omega (arith, e)))

module _ (user_id : String) (after : ℕ) where
  abbrev wanted : List SyncEventRow → List SyncEventRow
  wanted = filter (is_selected user_id after "")

  count-step_selected :
      (r : SyncEventRow) (rows : List SyncEventRow)
      → Numbered (r ∷ rows)
      → is_selected user_id after "" r ≡ true
      → (r.seq ≡ suc after + (count user_id rows - after))
        × (count user_id (r ∷ rows) - after ≡ suc (count user_id rows - after))
  unfolding is_selected count
  count-step_selected r rows h e = (ground arith, ground arith)

  count-step_skipped :
      (r : SyncEventRow) (rows : List SyncEventRow)
      → Numbered (r ∷ rows)
      → is_selected user_id after "" r ≡ false
      → count user_id (r ∷ rows) - after ≡ count user_id rows - after
  unfolding is_selected count
  count-step_skipped r rows h e = ground arith

  ordered_step :
      (r : SyncEventRow) (rows : List SyncEventRow) (b : Bool)
      → Numbered (r ∷ rows)
      → is_selected user_id after "" r ≡ b
      → seqs (order_by seq_before (wanted rows))
        ≡ count_from (suc after) (count user_id rows - after)
      → seqs (order_by seq_before (if b then r ∷ wanted rows else wanted rows))
        ≡ count_from (suc after) (count user_id (r ∷ rows) - after)
  unfolding order_by
  ordered_step r rows true h e ih =
      let (number, grown) = count-step_selected r rows h e in
      insert_last r (order_by seq_before (wanted rows)) (suc after) (count user_id rows - after) ih
        number
      ∙ ap (count_from (suc after)) (sym grown)
  ordered_step r rows false h e ih =
      ih ∙ ap (count_from (suc after)) (sym (count-step_skipped r rows h e))

  -- The user's events behind the cursor, ordered by number, are numbered without a gap.
  pub seqs-ordered :
      (rows : List SyncEventRow)
      → Numbered rows
      → seqs (order_by seq_before (wanted rows))
        ≡ count_from (suc after) (count user_id rows - after)
  unfolding order_by filter count count_from
  seqs-ordered [] h = ground arith
  seqs-ordered (r ∷ rows) h =
      ordered_step r rows (is_selected user_id after "" r) h refl (seqs-ordered rows h.1)

map-take : {A B : Type 0} (f : A → B) (n : ℕ) (xs : List A) → map f (take n xs) ≡ take n (map f xs)
map-take f zero xs = refl
map-take f (suc n) [] = refl
map-take f (suc n) (x ∷ xs) = ap (◌∷◌ (f x)) (map-take f n xs)

map-seq-loaded : (rows : List SyncEventRow) → map (λ r. r.seq) (map loaded rows) ≡ seqs rows
unfolding loaded
map-seq-loaded [] = refl
map-seq-loaded (r ∷ rows) = ap (◌∷◌ r.seq) (map-seq-loaded rows)

-- What a load of at most `limit` events of all conversations gives.
abbrev pub page_rows : String → ℕ → ℕ → Db → List LoadedEvent
page_rows user_id after limit db =
    map loaded
      (take limit (order_by seq_before (filter (is_selected user_id after "") db.sync_events)))

pub load_events-page_rows :
    (user_id : String) (after limit : ℕ) (db : Db)
    → after ≤ sqlite_integer_max
    → load_events user_id after limit "" db ≡ some (page_rows user_id after limit db)
unfolding load_events
load_events-page_rows user_id after limit db h = ground arith

pub page_rows-numbers :
    (user_id : String) (after limit : ℕ) (db : Db)
    → Numbered db.sync_events
    → map (λ r. r.seq) (page_rows user_id after limit db)
      ≡ count_from (suc after) (min limit (count user_id db.sync_events - after))
page_rows-numbers user_id after limit db h =
    map-seq-loaded (take limit (order_by seq_before (wanted user_id after db.sync_events)))
    ∙ map-take (λ r. r.seq) limit (order_by seq_before (wanted user_id after db.sync_events))
    ∙ ap (take limit) (seqs-ordered user_id after db.sync_events h)
    ∙ take-count_from limit (suc after) (count user_id db.sync_events - after)

module _ (p : String → Bool) where
  abbrev has : SyncEventRow → Bool
  has r = p r.event_type

  all-filter :
      (q : SyncEventRow → Bool) (rows : List SyncEventRow)
      → all has rows ≡ true
      → all has (filter q rows) ≡ true
  unfolding all filter
  all-filter q [] h = refl
  all-filter q (r ∷ rows) h = ground (arith, all-filter q rows)

  all-insert_by :
      (r : SyncEventRow) (rows : List SyncEventRow)
      → has r ≡ true
      → all has rows ≡ true
      → all has (insert_by seq_before r rows) ≡ true
  unfolding all insert_by
  all-insert_by r [] e h = ground arith
  all-insert_by r (s ∷ rows) e h = ground (arith, all-insert_by r rows)

  all-order_by :
      (rows : List SyncEventRow) → all has rows ≡ true → all has (order_by seq_before rows) ≡ true
  unfolding all order_by
  all-order_by [] h = refl
  all-order_by (r ∷ rows) h =
      all-insert_by r (order_by seq_before rows) (ground arith) (all-order_by rows (ground arith))

  all-take-loaded :
      (n : ℕ) (rows : List SyncEventRow)
      → all has rows ≡ true
      → all (λ r. p r.event_type) (map loaded (take n rows)) ≡ true
  unfolding all loaded
  all-take-loaded zero rows h = refl
  all-take-loaded (suc n) [] h = refl
  all-take-loaded (suc n) (r ∷ rows) h = ground (arith, all-take-loaded n rows)

  -- A test of the event type that all stored events pass is passed by those of a page.
  pub page_rows-all :
      (user_id : String) (after limit : ℕ) (db : Db)
      → all (λ r. p r.event_type) db.sync_events ≡ true
      → all (λ r. p r.event_type) (page_rows user_id after limit db) ≡ true
  page_rows-all user_id after limit db h =
      all-take-loaded limit (order_by seq_before (wanted user_id after db.sync_events)) (
        all-order_by (wanted user_id after db.sync_events)
          (all-filter (is_selected user_id after "") db.sync_events h))
