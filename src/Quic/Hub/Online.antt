-- ===== src/Quic/Hub/Online.antt =====
-- server/quic/server.py, `OnlineSessionHub`: which connections are in the buckets.
use mathlib.Core.Path.{subst}
use mini_im.Prelude.{
  ℕ, ◌≡◌, refl, sym, ap, ◌∙◌, inl, inr, String, Bool, true, false, ◌&&◌, ◌||◌, not, Option, none,
  some, List, [], ◌∷◌, arith, ◌==◌, Bool-cases, Option-cases,
}
use mini_im.Quic.Dict.{get, put, get-put, get-put_other, get-remove, get-remove_other}
use mini_im.Quic.Upload.{same_file, release_owner}
use mini_im.Quic.Upload.Consistent.{same_file_sound, same_file_refl, some_injective}
use mini_im.Quic.Download.Jobs.{none-some}
use mini_im.Quic.Hub.{
  OnlineSessionHub, new_hub, member, add, discard, register, bucket_of, settle_bucket, unregister,
}
use mini_im.Quic.Hub.Buckets.{Distinct, member-discard, discard-Distinct, member-add, add-Distinct}

and_true : (b : Bool) → (b && true) ≡ b
and_true b = ground arith

-- What happened to the hub, the last call first.
pub data Call : Type 0 where
  registered : (user_id : String) (protocol : ℕ) → Call
  unregistered : (user_id : String) (protocol : ℕ) → Call

unfoldable pub run : List Call → ℕ → Option OnlineSessionHub
unfolding new_hub register unregister
run [] idle = some (new_hub idle)
run (registered user_id protocol ∷ calls) idle = elim (run calls idle) [
  | none ↦ none
  | some hub ↦ some (register user_id protocol hub)
]
run (unregistered user_id protocol ∷ calls) idle = elim (run calls idle) [
  | none ↦ none
  | some hub ↦ unregister user_id protocol hub
]

-- A connection is online for a user if the last call about them registered it.
unfoldable pub is_online : List Call → String → ℕ → Bool
is_online [] user_id p = false
is_online (registered u q ∷ calls) user_id p =
    (same_file u user_id && p == q) || is_online calls user_id p
is_online (unregistered u q ∷ calls) user_id p =
    is_online calls user_id p && not (same_file u user_id && q == p)

-- Each bucket is a set, of the connections that are online.
abbrev Agrees : List Call → List (String × List ℕ) → Type 0
Agrees calls protocols =
    (user_id : String)
    → Distinct (bucket_of user_id protocols)
      × ((p : ℕ) → member p (bucket_of user_id protocols) ≡ is_online calls user_id p)

bucket_of-put :
    (user_id : String) (bucket : List ℕ) (protocols : List (String × List ℕ))
    → bucket_of user_id (put same_file user_id bucket protocols) ≡ bucket
unfolding bucket_of
bucket_of-put user_id bucket protocols =
    rw (bucket_of, get-put same_file same_file_sound same_file_refl user_id bucket protocols) refl

bucket_of-put_other :
    (user_id other : String) (bucket : List ℕ) (protocols : List (String × List ℕ))
    → same_file user_id other ≡ false
    → bucket_of other (put same_file user_id bucket protocols) ≡ bucket_of other protocols
unfolding bucket_of
bucket_of-put_other user_id other bucket protocols n =
    rw
      (
        bucket_of,
        get-put_other same_file same_file_sound same_file_refl user_id other bucket protocols n,
      )
      refl

bucket_of-settle_bucket :
    (user_id : String) (bucket : List ℕ) (protocols : List (String × List ℕ))
    → bucket_of user_id (settle_bucket user_id bucket protocols) ≡ bucket
unfolding bucket_of settle_bucket
bucket_of-settle_bucket user_id [] protocols =
    rw (bucket_of, get-remove same_file same_file_sound same_file_refl user_id protocols) refl
bucket_of-settle_bucket user_id (q ∷ bucket) protocols =
    rw (bucket_of, get-put same_file same_file_sound same_file_refl user_id (q ∷ bucket) protocols)
      refl

bucket_of-settle_bucket_other :
    (user_id other : String) (bucket : List ℕ) (protocols : List (String × List ℕ))
    → same_file user_id other ≡ false
    → bucket_of other (settle_bucket user_id bucket protocols) ≡ bucket_of other protocols
unfolding bucket_of settle_bucket
bucket_of-settle_bucket_other user_id other [] protocols n =
    rw
      (
        bucket_of,
        get-remove_other same_file same_file_sound same_file_refl user_id other protocols n,
      )
      refl
bucket_of-settle_bucket_other user_id other (q ∷ bucket) protocols n =
    rw
      (
        bucket_of,
        get-put_other same_file same_file_sound same_file_refl user_id other (q ∷ bucket) protocols
            n,
      )
      refl

register-Agrees :
    (calls : List Call) (u : String) (q : ℕ) (protocols : List (String × List ℕ))
    → Agrees calls protocols
    → Agrees (registered u q ∷ calls) (put same_file u (add q (bucket_of u protocols)) protocols)
unfolding is_online
register-Agrees calls u q protocols h user_id = elim (Bool-cases (same_file u user_id)) [
  | inr other ↦
      let b = bucket_of-put_other u user_id (add q (bucket_of u protocols)) protocols other in
      (subst Distinct (sym b) (h user_id).0, λ p. rw (b, other) ((h user_id).1 p))
  | inl same_ ↦
      let e : u ≡ user_id = same_file_sound u user_id same_ in
      let b : bucket_of user_id (put same_file u (add q (bucket_of u protocols)) protocols)
          ≡ add q (bucket_of user_id protocols) =
        ap (λ (x : String). bucket_of x (put same_file u (add q (bucket_of u protocols)) protocols))
          (sym e)
        ∙ bucket_of-put u (add q (bucket_of u protocols)) protocols
        ∙ ap (λ (x : String). add q (bucket_of x protocols)) e in
      (
        subst Distinct (sym b) (add-Distinct q (bucket_of user_id protocols) (h user_id).0),
        λ p.
            rw (b, same_)
              (member-add q p (bucket_of user_id protocols)
                ∙ ap (λ (x : Bool). p == q || x) ((h user_id).1 p)),
      )
]

unregister-Agrees :
    (calls : List Call) (u : String) (q : ℕ) (protocols : List (String × List ℕ))
    → Agrees calls protocols
    → Agrees
        (unregistered u q ∷ calls)
        (settle_bucket u (discard q (bucket_of u protocols)) protocols)
unfolding is_online
unregister-Agrees calls u q protocols h user_id = elim (Bool-cases (same_file u user_id)) [
  | inr other ↦
      let b =
        bucket_of-settle_bucket_other u user_id (discard q (bucket_of u protocols)) protocols
          other in
      (
        subst Distinct (sym b) (h user_id).0,
        λ p. rw (b, other) ((h user_id).1 p ∙ sym (and_true (is_online calls user_id p))),
      )
  | inl same_ ↦
      let e : u ≡ user_id = same_file_sound u user_id same_ in
      let settled = settle_bucket u (discard q (bucket_of u protocols)) protocols in
      let b : bucket_of user_id settled ≡ discard q (bucket_of user_id protocols) =
        ap (λ (x : String). bucket_of x settled) (sym e)
        ∙ bucket_of-settle_bucket u (discard q (bucket_of u protocols)) protocols
        ∙ ap (λ (x : String). discard q (bucket_of x protocols)) e in
      (
        subst Distinct (sym b) (discard-Distinct q (bucket_of user_id protocols) (h user_id).0),
        λ p.
            rw (b, same_)
              (member-discard q p (bucket_of user_id protocols)
                ∙ ap (λ (x : Bool). x && not (q == p)) ((h user_id).1 p)),
      )
]

-- A user without a bucket has nothing to discard.
absent_bucket :
    (u : String) (q : ℕ) (protocols : List (String × List ℕ))
    → get same_file u protocols ≡ none
    → bucket_of u protocols ≡ discard q (bucket_of u protocols)
unfolding discard bucket_of
absent_bucket u q protocols g = rw (bucket_of, g) refl

no_bucket :
    (u : String) (q : ℕ) (protocols : List (String × List ℕ))
    → get same_file u protocols ≡ none
    → (user_id : String)
    → bucket_of user_id protocols
      ≡ bucket_of user_id (settle_bucket u (discard q (bucket_of u protocols)) protocols)
no_bucket u q protocols g user_id = elim (Bool-cases (same_file u user_id)) [
  | inr other ↦
      sym (
        bucket_of-settle_bucket_other u user_id (discard q (bucket_of u protocols)) protocols other)
  | inl same_ ↦
      let e : u ≡ user_id = same_file_sound u user_id same_ in
      let settled = settle_bucket u (discard q (bucket_of u protocols)) protocols in
      ap (λ (x : String). bucket_of x protocols) (sym e)
      ∙ absent_bucket u q protocols g
      ∙ sym (bucket_of-settle_bucket u (discard q (bucket_of u protocols)) protocols)
      ∙ ap (λ (x : String). bucket_of x settled) e
]

bucket_of_found :
    (u : String) (bucket : List ℕ) (protocols : List (String × List ℕ))
    → get same_file u protocols ≡ some bucket
    → bucket_of u protocols ≡ bucket
unfolding bucket_of
bucket_of_found u bucket protocols g = rw (bucket_of, g) refl

unregister-protocols :
    (u : String) (q : ℕ) (hub after : OnlineSessionHub)
    → unregister u q hub ≡ some after
    → (user_id : String)
    → bucket_of user_id after.protocols
      ≡ bucket_of user_id (settle_bucket u (discard q (bucket_of u hub.protocols)) hub.protocols)
unfolding unregister
unregister-protocols u q hub after e user_id =
    elim (Option-cases (release_owner q none hub.uploads)) [
      | inl r ↦ absurd (none-some after (sym (rw (unregister, r) refl) ∙ e))
      | inr (uploads, r) ↦ elim (Option-cases (get same_file u hub.protocols)) [
        | inl g ↦
            let kept : record hub { uploads = uploads } ≡ after =
              some_injective (sym (rw (unregister, r, g) refl) ∙ e) in
            ap (λ (h : OnlineSessionHub). bucket_of user_id h.protocols) (sym kept)
            ∙ no_bucket u q hub.protocols g user_id
        | inr (bucket, g) ↦
            let settled : OnlineSessionHub = record {
              uploads = uploads;
              protocols = settle_bucket u (discard q bucket) hub.protocols;
            } in
            let kept : settled ≡ after = some_injective (sym (rw (unregister, r, g) refl) ∙ e) in
            ap (λ (h : OnlineSessionHub). bucket_of user_id h.protocols) (sym kept)
            ∙ ap (λ (b : List ℕ). bucket_of user_id (settle_bucket u (discard q b) hub.protocols))
                (sym (bucket_of_found u bucket hub.protocols g))
      ]
    ]

register_hub-Agrees :
    (calls : List Call) (u : String) (q : ℕ) (hub : OnlineSessionHub)
    → Agrees calls hub.protocols
    → Agrees (registered u q ∷ calls) (register u q hub).protocols
unfolding register
register_hub-Agrees calls u q hub h = register-Agrees calls u q hub.protocols h

pub run-Agrees :
    (calls : List Call) (idle : ℕ) (hub : OnlineSessionHub)
    → run calls idle ≡ some hub
    → Agrees calls hub.protocols
unfolding run new_hub bucket_of is_online
run-Agrees [] idle hub e =
    let empty : [] ≡ hub.protocols =
      ap (λ (h : OnlineSessionHub). h.protocols) (some_injective e) in
    subst (λ (protocols : List (String × List ℕ)). Agrees [] protocols) empty (λ u. (tt, λ p. refl))
run-Agrees (registered u q ∷ calls) idle hub e = elim (Option-cases (run calls idle)) [
  | inl n ↦ absurd (none-some hub (sym (rw n refl) ∙ e))
  | inr (before, r) ↦
      let is : register u q before ≡ hub = some_injective (sym (rw r refl) ∙ e) in
      subst (λ (h : OnlineSessionHub). Agrees (registered u q ∷ calls) h.protocols) is
        (register_hub-Agrees calls u q before (run-Agrees calls idle before r))
]
run-Agrees (unregistered u q ∷ calls) idle hub e = elim (Option-cases (run calls idle)) [
  | inl n ↦ absurd (none-some hub (sym (rw n refl) ∙ e))
  | inr (before, r) ↦
      let same_buckets = unregister-protocols u q before hub (sym (rw r refl) ∙ e) in
      let agrees = unregister-Agrees calls u q before.protocols (run-Agrees calls idle before r) in
      λ user_id. (
        subst Distinct (sym (same_buckets user_id)) (agrees user_id).0,
        λ p. ap (member p) (same_buckets user_id) ∙ (agrees user_id).1 p,
      )
]
