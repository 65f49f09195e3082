-- ===== src/Quic/Upload/Calls.antt =====
-- server/quic/upload.py: each call of the registry keeps it consistent.
use mathlib.Core.Path.{subst}
use mathlib.Core.Bool.{false≢true}
use mini_im.Prelude.{
  ℕ, ◌≡◌, ◌≢◌, refl, sym, ap, ◌∙◌, inl, inr, String, true, false, ◌||◌, not, Option, none, some,
  List, [], ◌∷◌, arith, if◌then◌else◌, ◌==◌, Bool-cases, Option-cases,
}
use mini_im.Storage.Sql.{is_some}
use mini_im.Quic.Dict.{get, remove, get-remove, get-remove_other}
use mini_im.Quic.Upload.{
  UploadLease, UploadRegistry, same_intent, same_file, intent_key, write, find_intent, find_file,
  current, release, release_previous, bind, owned_by, release_owned,
}
use mini_im.Quic.Upload.Consistent.{
  Consistent, without, release_lem, without-Consistent, write_same, write_other, same_file_sound,
  same_file_refl, same_intent_sound, same_number, some_injective,
}

-- Some registry is the result, and it is consistent.
abbrev pub Returns : Option UploadRegistry → Type 0
Returns none = ⊥
Returns (some r) = Consistent r

pub different : (b a : ℕ) → (b == a) ≡ false → b ≢ a
different b a n = ground arith

write-keeps :
    (a : ℕ) (l : UploadLease) (h : ℕ → UploadLease) (b : ℕ)
    → l.file_id ≡ (h a).file_id
    → intent_key l ≡ intent_key (h a)
    → ((write a l h b).file_id ≡ (h b).file_id) × (intent_key (write a l h b) ≡ intent_key (h b))
write-keeps a l h b f k = elim (Bool-cases (b == a)) [
  | inl e ↦
      let same_ : b ≡ a = same_number b a e in
      (
        ap (λ (x : ℕ). (write a l h x).file_id) same_
            ∙ ap (λ (x : UploadLease). x.file_id) (write_same a l h)
            ∙ f
            ∙ ap (λ (x : ℕ). (h x).file_id) (sym same_),
        ap (λ (x : ℕ). intent_key (write a l h x)) same_
            ∙ ap intent_key (write_same a l h)
            ∙ k
            ∙ ap (λ (x : ℕ). intent_key (h x)) (sym same_),
      )
  | inr n ↦
      let other : write a l h b ≡ h b = write_other a b l h (different b a n) in
      (ap (λ (x : UploadLease). x.file_id) other, ap intent_key other)
]

-- An assignment to the other fields of a lease.
pub write-Consistent :
    (a : ℕ) (l : UploadLease) (r : UploadRegistry)
    → l.file_id ≡ (r.leases a).file_id
    → intent_key l ≡ intent_key (r.leases a)
    → Consistent r
    → Consistent (record r { leases = write a l r.leases })
unfolding find_file find_intent
write-Consistent a l r f k h file_id b e =
    let x = h file_id b e in
    let keep = write-keeps a l r.leases b f k in
    (x.0, keep.0 ∙ x.1, ap (λ (j : String × String). find_intent r j.0 j.1) keep.1 ∙ x.2)

pub find_without :
    (a b : ℕ) (file_id : String) (r : UploadRegistry)
    → find_file (without a r) file_id ≡ some b
    → (find_file r file_id ≡ some b) × (same_file (r.leases a).file_id file_id ≡ false)
unfolding find_file without
find_without a b file_id r e = elim (Bool-cases (same_file (r.leases a).file_id file_id)) [
  | inl same_ ↦ cc (
      subst
        (λ (f : String). get same_file f (remove same_file (r.leases a).file_id r.by_file) ≡ none)
        (same_file_sound (r.leases a).file_id file_id same_)
        (get-remove same_file same_file_sound same_file_refl (r.leases a).file_id r.by_file))
  | inr other ↦ (
    sym (
          get-remove_other same_file same_file_sound same_file_refl (r.leases a).file_id file_id
            r.by_file other)
        ∙ e,
    other,
  )
]

abbrev pub after_release : ℕ → UploadRegistry → UploadRegistry
after_release a r = if current r a then without a r else r

pub release-Consistent :
    (a : ℕ) (r : UploadRegistry) → Consistent r → Consistent (after_release a r)
release-Consistent a r h = elim (Bool-cases (current r a)) [
  | inl c ↦ rw c (without-Consistent a r c h)
  | inr n ↦ rw n h
]

pub release-Returns : (a : ℕ) (r : UploadRegistry) → Consistent r → Returns (release a r)
release-Returns a r h = rw (release_lem a r h) (release-Consistent a r h)

-- After `previous` is released, no lease of the intent is current.
abbrev Free : String → String → UploadRegistry → Type 0
Free user_id intent r =
    (file_id : String) (b : ℕ)
    → find_file r file_id ≡ some b
    → same_intent (user_id, intent) (intent_key (r.leases b)) ≡ false

abbrev pub ReturnsFree : String → String → Option UploadRegistry → Type 0
ReturnsFree user_id intent none = ⊥
ReturnsFree user_id intent (some r) = Consistent r × Free user_id intent r

pub current_of :
    (r : UploadRegistry) (file_id : String) (a : ℕ)
    → Consistent r
    → find_file r file_id ≡ some a
    → current r a ≡ true
unfolding current
current_of r file_id a h e =
    let f : find_file r (r.leases a).file_id ≡ some a = ap (find_file r) (h file_id a e).1 ∙ e in
    rw (current, f) (ground arith)

-- A lease is not that of an intent for which another lease, or none, is recorded.
not_key :
    (r : UploadRegistry) (user_id intent : String) (b : ℕ)
    → find_intent r (r.leases b).user_id (r.leases b).intent ≡ some b
    → find_intent r user_id intent ≢ some b
    → same_intent (user_id, intent) (intent_key (r.leases b)) ≡ false
not_key r user_id intent b i n =
    elim (Bool-cases (same_intent (user_id, intent) (intent_key (r.leases b)))) [
      | inr d ↦ d
      | inl e ↦ absurd (
          n (
            ap (λ (k : String × String). find_intent r k.0 k.1)
              (same_intent_sound (user_id, intent) (intent_key (r.leases b)) e)
            ∙ i))
    ]

after_release-Free :
    (user_id intent : String) (r : UploadRegistry) (p : ℕ)
    → Consistent r
    → find_intent r user_id intent ≡ some p
    → Free user_id intent (after_release p r)
unfolding without
after_release-Free user_id intent r p h p_ file_id b = elim (Bool-cases (current r p)) [
  | inl c ↦ rw c (λ e.
      let old = find_without p b file_id r e in
      not_key r user_id intent b (h file_id b old.0).2 (λ q.
        let pb : p ≡ b = some_injective (sym p_ ∙ q) in
        false≢true (
          sym old.1
          ∙ ap (λ (x : String). same_file x file_id)
              (ap (λ (c : ℕ). (r.leases c).file_id) pb ∙ (h file_id b old.0).1)
          ∙ same_file_refl file_id)))
  | inr n ↦ rw n (λ e. not_key r user_id intent b (h file_id b e).2 (λ q.
      false≢true
        (sym n ∙ ap (current r) (some_injective (sym p_ ∙ q)) ∙ current_of r file_id b h e)))
]

pub release_previous-Free :
    (user_id intent : String) (r : UploadRegistry)
    → Consistent r
    → ReturnsFree user_id intent (release_previous (find_intent r user_id intent) r)
unfolding release_previous
release_previous-Free user_id intent r h = elim (Option-cases (find_intent r user_id intent)) [
  | inl none_ ↦ rw none_ (h, λ file_id b e. not_key r user_id intent b (h file_id b e).2 (λ q. cc))
  | inr (p, p_) ↦
      rw (p_, release_previous, release_lem p r h)
        (release-Consistent p r h, after_release-Free user_id intent r p h p_)
]

-- The lease that `grant` enters.
abbrev pub lease_of : ℕ → String → String → String → ℕ → ℕ → String → ℕ → UploadLease
lease_of now user_id intent file_id owner offset device_id generation = record {
  user_id = user_id;
  intent = intent;
  file_id = file_id;
  owner = owner;
  device_id = device_id;
  generation = generation;
  offset = offset;
  touched = now;
  stream_id = none;
}

pub release_owned-Returns :
    (owner : ℕ) (stream_id : Option ℕ) (addresses : List ℕ) (r : UploadRegistry)
    → Consistent r
    → Returns (release_owned owner stream_id addresses r)
unfolding release_owned
release_owned-Returns owner stream_id [] r h = h
release_owned-Returns owner stream_id (a ∷ addresses) r h =
    elim (Bool-cases (owned_by owner stream_id (r.leases a))) [
      | inl mine ↦
          rw (release_owned, mine, release_lem a r h)
            (release_owned-Returns owner stream_id addresses (after_release a r)
              (release-Consistent a r h))
      | inr not_mine ↦
          rw (release_owned, not_mine) (release_owned-Returns owner stream_id addresses r h)
    ]

pub bind-Consistent :
    (now owner : ℕ) (file_id : String) (stream_id offset : ℕ) (r : UploadRegistry)
    → Consistent r
    → Consistent (bind now owner file_id stream_id offset r).1
unfolding bind
bind-Consistent now owner file_id stream_id offset r h = elim (Option-cases (find_file r file_id)) [
  | inl n ↦ rw (bind, n) h
  | inr (a, e) ↦
      elim (Bool-cases (
        not ((r.leases a).owner == owner)
        || is_some (r.leases a).stream_id
        || not ((r.leases a).offset == offset))) [
          | inl refused ↦ rw (bind, e, refused) h
          | inr taken ↦ rw (bind, e, taken) (write-Consistent a _ r refl refl h)
        ]
]
