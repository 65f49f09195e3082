-- ===== src/Quic/Upload/Consistent.antt =====
-- server/quic/upload.py: the two dictionaries of leases agree.
use mathlib.Core.Path.{subst}
use mathlib.Core.Bool.{false≢true}
use text.Mathlib.TextEquality.{eq_iff}
use mini_im.Prelude.{
  ℕ, ◌<◌, ◌≡◌, ◌≢◌, refl, sym, ap, ◌∙◌, inl, inr, String, true, false, none, some, arith,
  if◌then◌else◌, ◌==◌, Bool-cases, Option-cases,
}
use mini_im.Quic.Dict.{get, put, pop, remove, get-put, get-put_other, get-remove, get-remove_other}
use mini_im.Quic.Upload.{
  UploadLease, UploadRegistry, same_intent, same_file, intent_key, write, find_intent, find_file,
  current, release, enter,
}

pub same_file_sound : (f g : String) → same_file f g ≡ true → f ≡ g
same_file_sound f g h = ground (arith, eq_iff f g)

pub same_file_refl : (f : String) → same_file f f ≡ true
same_file_refl f = ground arith

pub same_intent_sound : (j k : String × String) → same_intent j k ≡ true → j ≡ k
same_intent_sound (u, i) (v, j) h = ground (arith, eq_iff u v, eq_iff i j)

pub same_intent_refl : (k : String × String) → same_intent k k ≡ true
same_intent_refl (u, i) = ground arith

-- A lease that `by_file` names was created, is about that file, and is the lease of its intent.
abbrev pub Consistent : UploadRegistry → Type 0
Consistent r =
    (file_id : String) (a : ℕ)
    → find_file r file_id ≡ some a
    → (a < r.issued)
      × ((r.leases a).file_id ≡ file_id)
      × (find_intent r (r.leases a).user_id (r.leases a).intent ≡ some a)

pub same_number : (b a : ℕ) → (b == a) ≡ true → b ≡ a
same_number b a h = ground arith

pub current_lem :
    (r : UploadRegistry) (a : ℕ) → current r a ≡ true → find_file r (r.leases a).file_id ≡ some a
unfolding current
current_lem r a h = elim (Option-cases (find_file r (r.leases a).file_id)) [
  | inl n ↦ absurd (false≢true (sym (rw (current, n) refl) ∙ h))
  | inr (b, e) ↦ e ∙ ap some (same_number b a (sym (rw (current, e) refl) ∙ h))
]

-- The registry without a current lease.
unfoldable pub without : ℕ → UploadRegistry → UploadRegistry
without a r = record r {
  by_file = remove same_file (r.leases a).file_id r.by_file;
  by_intent = remove same_intent (intent_key (r.leases a)) r.by_intent;
}

-- No release raises a `KeyError`.
pub release_lem :
    (a : ℕ) (r : UploadRegistry)
    → Consistent r
    → release a r ≡ some (if current r a then without a r else r)
unfolding release without find_file find_intent
release_lem a r h = elim (Bool-cases (current r a)) [
  | inr no_ ↦ rw (release, no_) refl
  | inl is_ ↦
      let f : get same_file (r.leases a).file_id r.by_file ≡ some a = current_lem r a is_ in
      let i : get same_intent (intent_key (r.leases a)) r.by_intent ≡ some a =
        (h (r.leases a).file_id a f).2 in
      rw (release, is_, pop, f, pop, i) refl
]

pub some_injective {ℓ} : {A : Type ℓ} {a b : A} → some a ≡ some b → a ≡ b
some_injective e = cc

-- There is one current lease for an intent.
pub one_per_intent :
    (r : UploadRegistry) (f g : String) (a b : ℕ)
    → Consistent r
    → find_file r f ≡ some a
    → find_file r g ≡ some b
    → intent_key (r.leases a) ≡ intent_key (r.leases b)
    → a ≡ b
one_per_intent r f g a b h p q e =
    some_injective
      (sym (h f a p).2 ∙ ap (λ (k : String × String). find_intent r k.0 k.1) e ∙ (h g b q).2)

distinct_intents :
    (r : UploadRegistry) (f g : String) (a b : ℕ)
    → Consistent r
    → find_file r f ≡ some a
    → find_file r g ≡ some b
    → same_file f g ≡ false
    → same_intent (intent_key (r.leases a)) (intent_key (r.leases b)) ≡ false
distinct_intents r f g a b h p q n =
    elim (Bool-cases (same_intent (intent_key (r.leases a)) (intent_key (r.leases b)))) [
      | inr d ↦ d
      | inl e ↦
          let ab =
            one_per_intent r f g a b h p q
              (same_intent_sound (intent_key (r.leases a)) (intent_key (r.leases b)) e) in
          let fg : f ≡ g =
            sym (h f a p).1 ∙ ap (λ (c : ℕ). (r.leases c).file_id) ab ∙ (h g b q).1 in
          absurd (false≢true (sym n ∙ ap (same_file f) (sym fg) ∙ same_file_refl f))
    ]

pub without-Consistent :
    (a : ℕ) (r : UploadRegistry) → current r a ≡ true → Consistent r → Consistent (without a r)
unfolding without find_file find_intent
without-Consistent a r c h file_id b e =
    elim (Bool-cases (same_file (r.leases a).file_id file_id)) [
      | inl same_ ↦ cc (
          subst
            (λ (f : String).
              get same_file f (remove same_file (r.leases a).file_id r.by_file) ≡ none)
            (same_file_sound (r.leases a).file_id file_id same_)
            (get-remove same_file same_file_sound same_file_refl (r.leases a).file_id r.by_file))
      | inr other ↦
          let old : find_file r file_id ≡ some b =
            sym (
              get-remove_other same_file same_file_sound same_file_refl (r.leases a).file_id file_id
                r.by_file other)
            ∙ e in
          let k = h file_id b old in
          (
            k.0,
            k.1,
            get-remove_other same_intent same_intent_sound same_intent_refl
                  (intent_key (r.leases a)) (intent_key (r.leases b)) r.by_intent
                  (distinct_intents r (r.leases a).file_id file_id a b h (current_lem r a c) old
                    other)
                ∙ k.2,
          )
    ]

pub write_same : (a : ℕ) (l : UploadLease) (h : ℕ → UploadLease) → write a l h a ≡ l
unfolding write
write_same a l h = ground arith

pub write_other : (a b : ℕ) (l : UploadLease) (h : ℕ → UploadLease) → b ≢ a → write a l h b ≡ h b
unfolding write
write_other a b l h n = ground arith

pub enter-Consistent :
    (lease : UploadLease) (r : UploadRegistry)
    → Consistent r
    → ((file_id : String) (b : ℕ)
        → find_file r file_id ≡ some b
        → same_intent (intent_key lease) (intent_key (r.leases b)) ≡ false)
    → Consistent (enter lease r)
unfolding enter find_file find_intent
enter-Consistent lease r h free file_id c e = elim (Bool-cases (same_file lease.file_id file_id)) [
  | inl same_ ↦
      let new : r.issued ≡ c = some_injective (
        sym (get-put same_file same_file_sound same_file_refl lease.file_id r.issued r.by_file)
        ∙ ap (λ (f : String). get same_file f (put same_file lease.file_id r.issued r.by_file))
            (same_file_sound lease.file_id file_id same_)
        ∙ e) in
      let lease_ : write r.issued lease r.leases c ≡ lease =
        ap (write r.issued lease r.leases) (sym new) ∙ write_same r.issued lease r.leases in
      (
        omega (arith, new),
        ap (λ (l : UploadLease). l.file_id) lease_ ∙ same_file_sound lease.file_id file_id same_,
        ap
              (λ (l : UploadLease).
                get same_intent (intent_key l)
                  (put same_intent (intent_key lease) r.issued r.by_intent))
              lease_
            ∙ get-put same_intent same_intent_sound same_intent_refl (intent_key lease) r.issued
                r.by_intent
            ∙ ap some new,
      )
  | inr other ↦
      let old : find_file r file_id ≡ some c =
        sym (
          get-put_other same_file same_file_sound same_file_refl lease.file_id file_id r.issued
            r.by_file other)
        ∙ e in
      let k = h file_id c old in
      let lease_ : write r.issued lease r.leases c ≡ r.leases c =
        write_other r.issued c lease r.leases (λ q. omega (arith, k.0, q)) in
      (
        omega (arith, k.0),
        ap (λ (l : UploadLease). l.file_id) lease_ ∙ k.1,
        ap
              (λ (l : UploadLease).
                get same_intent (intent_key l)
                  (put same_intent (intent_key lease) r.issued r.by_intent))
              lease_
            ∙ get-put_other same_intent same_intent_sound same_intent_refl (intent_key lease)
                (intent_key (r.leases c)) r.issued r.by_intent (free file_id c old)
            ∙ k.2,
      )
]
