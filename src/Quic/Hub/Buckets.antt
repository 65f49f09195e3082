-- ===== src/Quic/Hub/Buckets.antt =====
-- server/quic/server.py, `OnlineSessionHub`: sets of connections.
use mathlib.Core.Path.{subst}
use mini_im.Prelude.{
  ℕ, ◌≡◌, refl, sym, ap, ◌∙◌, inl, inr, Bool, true, false, ◌&&◌, ◌||◌, not, List, [], ◌∷◌, arith,
  ◌==◌, Bool-cases,
}
use mini_im.Quic.Upload.Consistent.{same_number}
use mini_im.Quic.Hub.{member, add, discard}

abbrev pub Distinct : List ℕ → Type 0
Distinct [] = Unit {0}
Distinct (q ∷ bucket) = (member q bucket ≡ false) × Distinct bucket

pub member-discard :
    (p q : ℕ) (bucket : List ℕ) → member q (discard p bucket) ≡ (member q bucket && not (p == q))
unfolding member discard
member-discard p q [] = refl
member-discard p q (r ∷ bucket) = ground (arith, member-discard p q bucket)

pub discard-Distinct : (p : ℕ) (bucket : List ℕ) → Distinct bucket → Distinct (discard p bucket)
unfolding discard
discard-Distinct p [] h = tt
discard-Distinct p (q ∷ bucket) h = elim (Bool-cases (p == q)) [
  | inl e ↦ rw e (discard-Distinct p bucket h.1)
  | inr n ↦ rw n (
    member-discard p q bucket ∙ ap (λ (b : Bool). b && not (p == q)) h.0,
    discard-Distinct p bucket h.1,
  )
]

pub member-add : (p q : ℕ) (bucket : List ℕ) → member q (add p bucket) ≡ (q == p || member q bucket)
unfolding member add
member-add p q bucket = elim (Bool-cases (member p bucket)) [
  | inr n ↦ rw n refl
  | inl e ↦ elim (Bool-cases (q == p)) [
    | inr d ↦ rw (e, d) refl
    | inl same_ ↦
        rw (e, same_) (subst (λ (x : ℕ). member x bucket ≡ true) (sym (same_number q p same_)) e)
  ]
]

pub add-Distinct : (p : ℕ) (bucket : List ℕ) → Distinct bucket → Distinct (add p bucket)
unfolding add
add-Distinct p bucket h = elim (Bool-cases (member p bucket)) [
  | inl e ↦ rw e h
  | inr n ↦ rw n (n, h)
]
