-- ===== src/Services/Sync/Pages.antt =====
-- server/services/sync/service.py: a client that pages through its stream misses nothing.
use mathlib.Core.Path.{subst}
use mini_im.Prelude.{
  ℕ, zero, suc, ◌+◌, ◌-◌, ◌≤◌, ◌≡◌, refl, sym, ap, ◌∙◌, String, Bool, true, Option, none, some,
  List, [], ◌∷◌, map, max, min, if◌then◌else◌, ltb, length, take, all, arith,
}
use mini_im.Storage.Db.{Db}
use mini_im.Storage.Sql.{sqlite_integer_max}
use mini_im.Storage.SyncEvent.Numbering.{Numbered, count}
use mini_im.Storage.SyncRepo.{LoadedEvent, load_events}
use mini_im.Storage.SyncRepo.Pages.{
  count_from, take-count_from, page_rows, load_events-page_rows, page_rows-numbers, page_rows-all,
}
use mini_im.Services.Sync.{
  SyncRequest, SyncResponse, is_known, sync_event_of, advance_cursor, clamp_limit, page_of,
  answer_page, handle_sync_request,
}

abbrev known : List LoadedEvent → Bool
known = all λ r. is_known r.event_type

abbrev numbers : List LoadedEvent → List ℕ
numbers = map λ r. r.seq

advance_cursor-consecutive :
    (cursor k : ℕ) (rows : List LoadedEvent)
    → known rows ≡ true
    → numbers rows ≡ count_from (suc cursor) k
    → advance_cursor cursor rows ≡ cursor + k
unfolding advance_cursor all count_from
advance_cursor-consecutive cursor zero [] h e = ground arith
advance_cursor-consecutive cursor (suc k) [] h e = ground arith
advance_cursor-consecutive cursor zero (r ∷ rows) h e = ground arith
advance_cursor-consecutive cursor (suc k) (r ∷ rows) h e =
    ground (arith, advance_cursor-consecutive (suc cursor) k rows (ground arith) (ground arith))

length-count_from : (n k : ℕ) → length (count_from n k) ≡ k
unfolding count_from
length-count_from n zero = refl
length-count_from n (suc k) = ap suc (length-count_from (suc n) k)

length-numbers : (rows : List LoadedEvent) → length (numbers rows) ≡ length rows
length-numbers [] = refl
length-numbers (r ∷ rows) = ap suc (length-numbers rows)

take-known : (n : ℕ) (rows : List LoadedEvent) → known rows ≡ true → known (take n rows) ≡ true
unfolding all
take-known zero rows h = refl
take-known (suc n) [] h = refl
take-known (suc n) (r ∷ rows) h = ground (arith, take-known n rows)

take-numbers : (n : ℕ) (rows : List LoadedEvent) → numbers (take n rows) ≡ take n (numbers rows)
take-numbers zero rows = refl
take-numbers (suc n) [] = refl
take-numbers (suc n) (r ∷ rows) = ap (◌∷◌ r.seq) (take-numbers n rows)

event_numbers :
    (rows : List LoadedEvent) → map (λ e. e.global_seq) (map sync_event_of rows) ≡ numbers rows
unfolding sync_event_of
event_numbers [] = refl
event_numbers (r ∷ rows) = ap (◌∷◌ r.seq) (event_numbers rows)

-- The response has the next `size` numbers, and the cursor moves over them.
abbrev pub Covers : ℕ → ℕ → ℕ → SyncResponse → Type 0
Covers cursor limit left response =
    (map (λ e. e.global_seq) response.events ≡ count_from (suc cursor) (min limit left))
    × (response.new_global_cursor ≡ cursor + min limit left)
    × (response.has_more ≡ ltb limit left)

page_of-Covers :
    (cursor limit left : ℕ) (rows : List LoadedEvent)
    → known rows ≡ true
    → numbers rows ≡ count_from (suc cursor) (min (limit + 1) left)
    → Covers cursor limit left (page_of cursor limit rows)
unfolding page_of
page_of-Covers cursor limit left rows h e =
    let selected : numbers (take limit rows) ≡ count_from (suc cursor) (min limit left) =
      take-numbers limit rows
      ∙ ap (take limit) e
      ∙ take-count_from limit (suc cursor) (min (limit + 1) left)
      ∙ ap (count_from (suc cursor)) (omega arith) in
    let size : length rows ≡ min (limit + 1) left =
      sym (length-numbers rows)
      ∙ ap length e
      ∙ length-count_from (suc cursor) (min (limit + 1) left) in
    (
      event_numbers (take limit rows) ∙ selected,
      advance_cursor-consecutive cursor (min limit left) (take limit rows) (take-known limit rows h)
          selected,
      ground arith,
    )

clamp_limit-min :
    (requested : ℕ) → clamp_limit requested ≡ min (if ltb 0 requested then requested else 50) 200
unfolding clamp_limit
clamp_limit-min requested = ground arith

answered :
    (user_id : String) (request : SyncRequest) (db : Db) (rows : List LoadedEvent)
    → load_events user_id request.global_cursor
        (clamp_limit request.limit + 1)
        request.conversation_id
        db
      ≡ some rows
    → let response = page_of request.global_cursor (clamp_limit request.limit) rows in
      handle_sync_request user_id request db ≡ some (response, response.new_global_cursor)
unfolding handle_sync_request answer_page
answered user_id request db rows e =
    ap (answer_page request.global_cursor (clamp_limit request.limit)) e

-- If every user's stream is numbered without a gap, as appending keeps it, and all stored events
-- are of known types, then a request over all conversations, with a cursor that fits the column,
-- is answered with the events right behind the cursor: as many as are left, up to the requested
-- number, which is 50 if none is requested and 200 at most. The cursor of the response is the
-- number of its last event, so that the next request goes on with no gap and no repetition, and
-- `has_more` tells whether events are left.
pub handle_sync_request-Covers :
    (user_id : String) (request : SyncRequest) (db : Db)
    → Numbered db.sync_events
    → all (λ r. is_known r.event_type) db.sync_events ≡ true
    → request.conversation_id ≡ ""
    → request.global_cursor ≤ sqlite_integer_max
    → (response : SyncResponse) × (handle_sync_request user_id request db
        ≡ some (response, response.new_global_cursor))
      × Covers request.global_cursor
          (min (if ltb 0 request.limit then request.limit else 50) 200)
          (count user_id db.sync_events - request.global_cursor)
          response
handle_sync_request-Covers user_id request db numbered known_types everywhere fits =
    let limit = clamp_limit request.limit in
    let rows = page_rows user_id request.global_cursor (limit + 1) db in
    (
      page_of request.global_cursor limit rows,
      answered user_id request db rows (
          ap (λ c. load_events user_id request.global_cursor (limit + 1) c db) everywhere
          ∙ load_events-page_rows user_id request.global_cursor (limit + 1) db fits),
      subst
          (λ l.
            Covers request.global_cursor l (count user_id db.sync_events - request.global_cursor)
              (page_of request.global_cursor limit rows))
          (clamp_limit-min request.limit)
          (page_of-Covers request.global_cursor limit
            (count user_id db.sync_events - request.global_cursor) rows
            (page_rows-all is_known user_id request.global_cursor (limit + 1) db known_types)
            (page_rows-numbers user_id request.global_cursor (limit + 1) db numbered)),
    )

advance_cursor_le : (cursor : ℕ) (rows : List LoadedEvent) → cursor ≤ advance_cursor cursor rows
unfolding advance_cursor
advance_cursor_le cursor [] = omega arith
advance_cursor_le cursor (r ∷ rows) =
    ground
      (arith, advance_cursor_le (if is_known r.event_type then max cursor r.seq else cursor) rows)

length-take_le : {A : Type 0} (n : ℕ) (xs : List A) → length (take n xs) ≤ n
length-take_le zero xs = omega arith
length-take_le (suc n) [] = omega arith
length-take_le (suc n) (x ∷ xs) = omega (arith, length-take_le n xs)

length-map : {A B : Type 0} (f : A → B) (xs : List A) → length (map f xs) ≡ length xs
length-map f [] = refl
length-map f (x ∷ xs) = ap suc (length-map f xs)

clamp_limit_le : (requested : ℕ) → clamp_limit requested ≤ 200
unfolding clamp_limit
clamp_limit_le requested = ground arith

-- What holds of every response.
abbrev pub InBounds : ℕ → Option (SyncResponse × ℕ) → Type 0
InBounds cursor none = Unit {0}
InBounds cursor (some (response, new_cursor)) =
    (length response.events ≤ 200)
    × (cursor ≤ new_cursor)
    × (new_cursor ≡ response.new_global_cursor)

page_of-InBounds :
    (cursor limit : ℕ) (rows : List LoadedEvent)
    → limit ≤ 200
    → InBounds cursor
        (some (page_of cursor limit rows, (page_of cursor limit rows).new_global_cursor))
unfolding page_of
page_of-InBounds cursor limit rows h = (
  omega (arith, h, length-take_le limit rows, length-map sync_event_of (take limit rows)),
  advance_cursor_le cursor (take limit rows),
  refl,
)

answer_page-InBounds :
    (cursor limit : ℕ) (loaded_rows : Option (List LoadedEvent))
    → limit ≤ 200
    → InBounds cursor (answer_page cursor limit loaded_rows)
unfolding answer_page
answer_page-InBounds cursor limit none h = tt
answer_page-InBounds cursor limit (some rows) h = page_of-InBounds cursor limit rows h

-- Whatever is requested and stored, for one conversation or for all: a response holds at most 200
-- events, and its cursor is not below the cursor of the request.
pub handle_sync_request-InBounds :
    (user_id : String) (request : SyncRequest) (db : Db)
    → InBounds request.global_cursor (handle_sync_request user_id request db)
unfolding handle_sync_request
handle_sync_request-InBounds user_id request db =
    answer_page-InBounds request.global_cursor (clamp_limit request.limit)
      (load_events user_id request.global_cursor (clamp_limit request.limit + 1)
        request.conversation_id db)
      (clamp_limit_le request.limit)
