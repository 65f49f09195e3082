-- ===== src/Storage/SyncEvent/Keys.antt =====
-- server/storage/repo/sync_event.py: lists of keys without duplicates, the iteration of
-- `dict.fromkeys` in `AppendSyncEvents`.
use mini_im.Prelude.{
  String, ◌≡◌, refl, false, ◌||◌, List, [], ◌∷◌, ◌++◌, arith, ◌=?◌, Bool-cases, inl, inr,
}
use mini_im.Storage.SyncEvent.{contains, add_key, add_keys, from_keys}

abbrev pub Distinct : List String → Type 0
Distinct [] = Unit {0}
Distinct (k ∷ keys) = (contains k keys ≡ false) × Distinct keys

pub contains-append :
    (item : String) (xs ys : List String)
    → contains item (xs ++ ys) ≡ contains item xs || contains item ys
unfolding contains
contains-append item [] ys = refl
contains-append item (x ∷ xs) ys = ground (arith, contains-append item xs ys)

Distinct-snoc :
    (xs : List String) (item : String)
    → Distinct xs
    → contains item xs ≡ false
    → Distinct (xs ++ item ∷ [])
unfolding contains
Distinct-snoc [] item d h = (refl, tt)
Distinct-snoc (x ∷ xs) item d h =
    ground (arith, contains-append x xs (item ∷ []), Distinct-snoc xs item d.1)

pub Distinct-add_key :
    (keys : List String) (item : String) → Distinct keys → Distinct (add_key keys item)
unfolding add_key
Distinct-add_key keys item d = elim (Bool-cases (contains item keys)) [
  | inl old ↦ rw old d
  | inr new ↦ rw new (Distinct-snoc keys item d new)
]

pub contains-add_key :
    (keys : List String) (item other : String)
    → contains other (add_key keys item) ≡ contains other keys || (item =? other)
unfolding add_key contains
contains-add_key keys item other = elim (Bool-cases (contains item keys)) [
  | inl old ↦ ground arith
  | inr new ↦ ground (arith, contains-append other keys (item ∷ []))
]

pub Distinct-add_keys : (keys items : List String) → Distinct keys → Distinct (add_keys keys items)
unfolding add_keys
Distinct-add_keys keys [] d = d
Distinct-add_keys keys (item ∷ items) d =
    Distinct-add_keys (add_key keys item) items (Distinct-add_key keys item d)

pub contains-add_keys :
    (keys items : List String) (other : String)
    → contains other (add_keys keys items) ≡ contains other keys || contains other items
unfolding add_keys contains
contains-add_keys keys [] other = ground arith
contains-add_keys keys (item ∷ items) other =
    ground
      (arith, contains-add_keys (add_key keys item) items other, contains-add_key keys item other)

pub Distinct-from_keys : (items : List String) → Distinct (from_keys items)
unfolding from_keys
Distinct-from_keys items = Distinct-add_keys [] items tt

pub contains-from_keys :
    (items : List String) (other : String) → contains other (from_keys items) ≡ contains other items
unfolding from_keys
contains-from_keys items other = contains-add_keys [] items other
