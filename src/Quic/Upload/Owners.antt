-- ===== src/Quic/Upload/Owners.antt =====
-- server/quic/upload.py: what the end of a connection or of a stream releases.
use mathlib.Core.Path.{subst}
use mathlib.Core.Bool.{false≢true}
use mini_im.Prelude.{
  ℕ, ◌≡◌, refl, sym, ap, ◌∙◌, inl, inr, String, Bool, true, false, ◌&&◌, ◌||◌, not, Option, none,
  some, List, [], ◌∷◌, arith, ◌==◌, Bool-cases,
}
use mini_im.Quic.Dict.{get, values, get-remove, get-remove_other}
use mini_im.Quic.Upload.{
  UploadRegistry, same_file, find_file, current, owned_by, release_owned, release_owner,
}
use mini_im.Quic.Upload.Consistent.{
  Consistent, current_lem, same_number, some_injective, same_file_sound, same_file_refl, without,
  release_lem,
}
use mini_im.Quic.Upload.Calls.{after_release, release-Consistent}

unfoldable contains : ℕ → List ℕ → Bool
contains b [] = false
contains b (a ∷ addresses) = b == a || contains b addresses

number_test : (b a : ℕ) → b ≡ a → (b == a) ≡ true
number_test b a e = ground arith

kept_mine : (c k o : Bool) → ((c && not false) && not (k && o)) ≡ (c && not ((false || k) && o))
kept_mine c k o = ground arith

kept_other : (c k o : Bool) → (c && not (k && o)) ≡ (c && not ((false || k) && o))
kept_other c k o = ground arith

-- The release of a current lease makes no other lease current or not current.
without-current :
    (a b : ℕ) (r : UploadRegistry)
    → Consistent r
    → current r a ≡ true
    → current (without a r) b ≡ (current r b && not (b == a))
unfolding without find_file current
without-current a b r h c =
    elim (Bool-cases (same_file (r.leases a).file_id (r.leases b).file_id)) [
      | inl same_ ↦
          let fa : (r.leases a).file_id ≡ (r.leases b).file_id =
            same_file_sound (r.leases a).file_id (r.leases b).file_id same_ in
          let gone : find_file (without a r) (r.leases b).file_id ≡ none =
            subst (λ (f : String). find_file (without a r) f ≡ none) fa
              (get-remove same_file same_file_sound same_file_refl (r.leases a).file_id
                r.by_file) in
          rw (current, gone)
            (elim (Bool-cases (current r b)) [
              | inr n ↦ rw n refl
              | inl d ↦
                  let ba : b ≡ a =
                    some_injective
                      (sym (current_lem r b d) ∙ ap (find_file r) (sym fa) ∙ current_lem r a c) in
                  rw (d, number_test b a ba) refl
            ])
      | inr other ↦
          let kept : find_file (without a r) (r.leases b).file_id
              ≡ find_file r (r.leases b).file_id =
            get-remove_other same_file same_file_sound same_file_refl (r.leases a).file_id
              (r.leases b).file_id r.by_file other in
          elim (Bool-cases (b == a)) [
            | inl e ↦ absurd (
                false≢true (
                  sym other
                  ∙ ap (λ (x : ℕ). same_file (r.leases a).file_id (r.leases x).file_id)
                      (same_number b a e)
                  ∙ same_file_refl (r.leases a).file_id))
            | inr n ↦ rw n (rw (current, kept) (ground arith))
          ]
    ]

after_release-current :
    (a b : ℕ) (r : UploadRegistry)
    → Consistent r
    → current (after_release a r) b ≡ (current r b && not (b == a))
after_release-current a b r h = elim (Bool-cases (current r a)) [
  | inl c ↦ rw c (without-current a b r h c)
  | inr n ↦ rw n (elim (Bool-cases (b == a)) [
    | inl e ↦ rw e (ap (current r) (same_number b a e) ∙ n ∙ ground arith)
    | inr d ↦ rw d (ground arith)
  ])
]

after_release-leases : (a : ℕ) (r : UploadRegistry) → (after_release a r).leases ≡ r.leases
unfolding without
after_release-leases a r = elim (Bool-cases (current r a)) [ inl c ↦ rw c refl | inr n ↦ rw n refl ]

module _ (owner : ℕ) (stream_id : Option ℕ) where
  -- What the loop leaves current.
  abbrev left : List ℕ → UploadRegistry → ℕ → Bool
  left addresses r b =
      current r b && not (contains b addresses && owned_by owner stream_id (r.leases b))

  owned_same :
      (a b : ℕ) (r : UploadRegistry)
      → (b == a) ≡ true
      → owned_by owner stream_id (r.leases b) ≡ owned_by owner stream_id (r.leases a)
  owned_same a b r e = ap (λ (x : ℕ). owned_by owner stream_id (r.leases x)) (same_number b a e)

  after_mine :
      (a : ℕ) (addresses : List ℕ) (r : UploadRegistry) (b : ℕ)
      → Consistent r
      → owned_by owner stream_id (r.leases a) ≡ true
      → left addresses (after_release a r) b ≡ left (a ∷ addresses) r b
  unfolding contains
  after_mine a addresses r b h mine =
      rw (after_release-leases a r, after_release-current a b r h)
        (elim (Bool-cases (b == a)) [
          | inl e ↦ rw (e, owned_same a b r e, mine) (ground arith)
          | inr n ↦ rw n (
              kept_mine (current r b) (contains b addresses)
                (owned_by owner stream_id (r.leases b)))
        ])

  after_other :
      (a : ℕ) (addresses : List ℕ) (r : UploadRegistry) (b : ℕ)
      → owned_by owner stream_id (r.leases a) ≡ false
      → left addresses r b ≡ left (a ∷ addresses) r b
  unfolding contains
  after_other a addresses r b other = elim (Bool-cases (b == a)) [
    | inl e ↦ rw (e, owned_same a b r e, other) (ground arith)
    | inr n ↦
        rw n
          (kept_other (current r b) (contains b addresses) (owned_by owner stream_id (r.leases b)))
  ]

  release_owned-current :
      (addresses : List ℕ) (r : UploadRegistry)
      → Consistent r
      → (r' : UploadRegistry) × (release_owned owner stream_id addresses r ≡ some r')
        × (r'.leases ≡ r.leases)
        × ((b : ℕ) → current r' b ≡ left addresses r b)
  unfolding release_owned contains
  release_owned-current [] r h = (r, refl, refl, λ b. ground arith)
  release_owned-current (a ∷ addresses) r h =
      elim (Bool-cases (owned_by owner stream_id (r.leases a))) [
        | inl mine ↦
            let rest =
              release_owned-current addresses (after_release a r) (release-Consistent a r h) in
            (
              rest.0,
              rw (release_owned, mine, release_lem a r h) rest.1,
              rest.2 ∙ after_release-leases a r,
              λ b. rest.3 b ∙ after_mine a addresses r b h mine,
            )
        | inr not_mine ↦
            let rest = release_owned-current addresses r h in
            (
              rest.0,
              rw (release_owned, not_mine) rest.1,
              rest.2,
              λ b. rest.3 b ∙ after_other a addresses r b not_mine,
            )
      ]

value_of_get :
    (file_id : String) (a : ℕ) (d : List (String × ℕ))
    → get same_file file_id d ≡ some a
    → contains a (values same_file d) ≡ true
unfolding get values contains
value_of_get file_id a [] h = cc
value_of_get file_id a ((f, b) ∷ d) h = ground (arith, value_of_get file_id a d)

-- From a consistent registry the end of a connection, or of one of its streams, raises no
-- `KeyError`, leaves every lease as it is, and a lease is current afterwards if and only if it was
-- current before and does not belong to the connection, or to the stream if one is named.
pub release_owner-current :
    (owner : ℕ) (stream_id : Option ℕ) (r : UploadRegistry)
    → Consistent r
    → (r' : UploadRegistry) × (release_owner owner stream_id r ≡ some r')
      × (r'.leases ≡ r.leases)
      × ((a : ℕ) → current r' a ≡ (current r a && not (owned_by owner stream_id (r.leases a))))
unfolding release_owner find_file
release_owner-current owner stream_id r h =
    let done = release_owned-current owner stream_id (values same_file r.by_file) r h in
    (
      done.0,
      done.1,
      done.2,
      λ a. done.3 a ∙ elim (Bool-cases (current r a)) [
        | inr n ↦ rw n refl
        | inl c ↦ rw (value_of_get (r.leases a).file_id a r.by_file (current_lem r a c)) refl
      ],
    )
