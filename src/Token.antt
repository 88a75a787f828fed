-- ===== src/Token.antt =====
-- src/token.rs: which texts are accepted as project tokens.
mod Laws
mod Tests
use hoglet.Prelude.{
  ℕ, Bool, true, false, not, ◌&&◌, List, [], ◌∷◌, ltb, ◌==◌, nat_eq, string_eq, length, any, all,
  codes, Result, ok, ◌>>=◌, ◌>>◌, fail_if,
}

abbrev pub max_token_bytes : ℕ
max_token_bytes = 64

-- The bytes of `phx_`.
abbrev pub personal_key_prefix : List ℕ
personal_key_prefix = codes "phx_"

pub data TokenError : Type 0 where
  empty too_long not_ascii null_byte personal_api_key : TokenError

-- `str::starts_with`, on bytes.
unfoldable pub starts_with : List ℕ → List ℕ → Bool
starts_with [] token = true
starts_with (p ∷ ps) [] = false
starts_with (p ∷ ps) (b ∷ bs) = p == b && starts_with ps bs

unfoldable pub is_empty : List ℕ → Bool
is_empty [] = true
is_empty (b ∷ bs) = false

-- A token is its UTF-8 bytes.
unfoldable pub validate : List ℕ → Result (Unit {0}) TokenError
unfolding starts_with is_empty
validate token = do
  fail_if (is_empty token) empty
  fail_if (ltb max_token_bytes (length token)) too_long
  fail_if (not (all (λ b. ltb b 128) token)) not_ascii
  fail_if (any (λ b. b == 0) token) null_byte
  fail_if (starts_with personal_key_prefix token) personal_api_key
  ok tt
