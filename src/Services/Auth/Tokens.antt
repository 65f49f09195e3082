-- ===== src/Services/Auth/Tokens.antt =====
-- server/services/auth/service.py: the user that a token names.
use Prim.Native.Char.{Char, code}
use Prim.Native.String.{[], ◌∷◌}
use mini_im.Prelude.{
  ℕ, suc, String, Bool, true, ◌&&◌, ◌||◌, Option, none, some, if◌then◌else◌, ◌==◌, leb,
}
use mini_im.Text.{strip}

-- What follows a prefix that a text starts with.
unfoldable pub after_prefix : String → String → Option String
after_prefix [] s = some s
after_prefix (p ∷ ps) [] = none
after_prefix (p ∷ ps) (c ∷ s) =
    let rest = after_prefix ps s in if code p == code c then rest else none

-- `[A-Za-z0-9_.-]`
unfoldable pub is_id_char : Char → Bool
is_id_char ch =
    let c = code ch in
    (leb 65 c && leb c 90)
    || (leb 97 c && leb c 122)
    || (leb 48 c && leb c 57)
    || c == 95
    || c == 46
    || c == 45

unfoldable pub text_length : String → ℕ
text_length [] = 0
text_length (c ∷ s) = suc (text_length s)

unfoldable pub all_id_chars : String → Bool
unfolding is_id_char
all_id_chars [] = true
all_id_chars (c ∷ s) = is_id_char c && all_id_chars s

-- `USER_ID_PATTERN.fullmatch(user_id)`
unfoldable pub is_user_id : String → Bool
unfolding text_length all_id_chars
is_user_id s = leb 1 (text_length s) && leb (text_length s) 64 && all_id_chars s

-- `_resolve_user_id`; the two tests after the first one have the same result.
unfoldable pub resolve_user_id : String → String
unfolding after_prefix strip is_user_id
resolve_user_id token = elim (after_prefix "dev-token:" token) [
  | none ↦ "u-demo"
  | some rest ↦ let user_id = strip rest in if is_user_id user_id then user_id else "u-demo"
]
