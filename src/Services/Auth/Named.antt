-- ===== src/Services/Auth/Named.antt =====
-- server/services/auth/service.py: the user that a token names.
use Prim.Native.Char.{Char, code}
use Prim.Native.String.{◌++◌, [], ◌∷◌}
use text.Mathlib.TextLemmas.{nil-append, cons-append}
use text.Mathlib.TextEquality.{Char-path}
use mini_im.Prelude.{
  ℕ, String, true, ◌≡◌, ◌≢◌, refl, sym, ap, ◌∙◌, inl, inr, none, some, if◌then◌else◌, ◌==◌, arith,
  Bool-cases, Option-cases,
}
use mini_im.Text.{strip}
use mini_im.Services.Auth.Tokens.{after_prefix, is_user_id, resolve_user_id}

number_of : (a b : ℕ) → (a == b) ≡ true → a ≡ b
number_of a b h = ground arith

same_code : (n : ℕ) → (n == n) ≡ true
same_code n = ground arith

none-some : (x : String) → none ≡ some x → ⊥
none-some x e = cc

some_injective : {a b : String} → some a ≡ some b → a ≡ b
some_injective e = cc

-- What follows a prefix is found, and only what follows it.
after_prefix-append : (p t : String) → after_prefix p (p ++ t) ≡ some t
unfolding after_prefix
after_prefix-append [] t = ap some (nil-append t)
after_prefix-append (c ∷ p) t =
    ap (after_prefix (c ∷ p)) (cons-append c p t)
    ∙ rw (same_code (code c)) (after_prefix-append p t)

after_prefix_sound : (p s t : String) → after_prefix p s ≡ some t → s ≡ p ++ t
unfolding after_prefix
after_prefix_sound [] s t h = some_injective h ∙ sym (nil-append t)
after_prefix_sound (c ∷ p) [] t h = absurd (cc)
after_prefix_sound (c ∷ p) (d ∷ s) t h = elim (Bool-cases (code c == code d)) [
  | inl e ↦
      let same_ : c ≡ d = Char-path c d (number_of (code c) (code d) e) in
      ap (λ (x : Char). x ∷ s) (sym same_)
      ∙ ap (λ (x : String). c ∷ x) (after_prefix_sound p s t (sym (rw e refl) ∙ h))
      ∙ sym (cons-append c p t)
  | inr n ↦ absurd (none-some t (sym (rw n refl) ∙ h))
]

-- The user that a token names: the text after the prefix without the spaces around it, where this
-- has the required form, and the demonstration user otherwise.
abbrev pub Named : String → String → Type 0
Named token user_id =
    ((name : String)
      → token ≡ "dev-token:" ++ name
      → user_id ≡ (if is_user_id (strip name) then strip name else "u-demo"))
    × (((name : String) → token ≢ "dev-token:" ++ name) → user_id ≡ "u-demo")

pub resolve_user_id-Named : (token : String) → Named token (resolve_user_id token)
unfolding resolve_user_id
resolve_user_id-Named token = (
  λ name e.
      rw (resolve_user_id, ap (after_prefix "dev-token:") e ∙ after_prefix-append "dev-token:" name)
        refl,
  λ no_name. elim (Option-cases (after_prefix "dev-token:" token)) [
    | inl none_ ↦ rw (resolve_user_id, none_) refl
    | inr (rest, e) ↦ absurd (no_name rest (after_prefix_sound "dev-token:" token rest e))
  ],
)
