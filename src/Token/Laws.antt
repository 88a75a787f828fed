-- ===== src/Token/Laws.antt =====
-- The tokens that `validate` accepts, described without its tests.
use hoglet.Prelude.{
  ℕ, ◌≤◌, ◌<◌, ◌≡◌, refl, ap, ◌≢◌, ◌↔◌, inl, inr, true, false, List, [], ◌∷◌, ◌++◌, arith, ltb,
  Bool-cases, ◌==◌, nat_eq, string_eq, length, any, all, All, ok,
}
use hoglet.Token.{personal_key_prefix, max_token_bytes, starts_with, validate, is_empty}

-- A token of 1 to 64 bytes, each ASCII and not null, that does not go on from `phx_`.
pub record IsToken (token : List ℕ) : Type 0 where
  pub nonempty : 1 ≤ length token
  pub bounded : length token ≤ max_token_bytes
  pub ascii : All (λ b. (0 < b) × (b < 128)) token
  pub not_personal : (rest : List ℕ) → token ≢ personal_key_prefix ++ rest

bytes_sound :
    (l : List ℕ)
    → all (λ b. ltb b 128) l ≡ true
    → any (λ b. b == 0) l ≡ false
    → All (λ b. (0 < b) × (b < 128)) l
bytes_sound [] h k = tt
bytes_sound (b ∷ bs) h k = ground (arith, bytes_sound bs)

all_complete : (l : List ℕ) → All (λ b. (0 < b) × (b < 128)) l → all (λ b. ltb b 128) l ≡ true
all_complete [] h = refl
all_complete (b ∷ bs) h = ground (arith, all_complete bs h.1)

any_complete : (l : List ℕ) → All (λ b. (0 < b) × (b < 128)) l → any (λ b. b == 0) l ≡ false
any_complete [] h = refl
any_complete (b ∷ bs) h = ground (arith, any_complete bs h.1)

starts_with-append : (p rest : List ℕ) → starts_with p (p ++ rest) ≡ true
unfolding starts_with
starts_with-append [] rest = refl
starts_with-append (b ∷ p) rest = ground (arith, starts_with-append p rest)

starts_with_split : (p t : List ℕ) → starts_with p t ≡ true → (rest : List ℕ) × (t ≡ p ++ rest)
unfolding starts_with
starts_with_split [] t h = (t, refl)
starts_with_split (b ∷ p) [] h = ground arith
starts_with_split (b ∷ p) (c ∷ t) h =
    let (rest, e) = starts_with_split p t (ground arith) in (rest, ground arith)

validate_sound : (token : List ℕ) → validate token ≡ ok tt → IsToken token
unfolding validate is_empty
validate_sound [] h = ground arith
validate_sound (b ∷ bs) h = record {
  nonempty = omega arith;
  bounded = ground arith;
  ascii = bytes_sound (b ∷ bs) (ground arith) (ground arith);
  not_personal = λ rest p.
      ground (
        arith,
        starts_with-append personal_key_prefix rest,
        ap (starts_with personal_key_prefix) p,
      );
}

validate_complete : (token : List ℕ) → IsToken token → validate token ≡ ok tt
unfolding validate is_empty
validate_complete [] t = absurd (omega (arith, t.nonempty))
validate_complete (b ∷ bs) t = elim (Bool-cases (starts_with personal_key_prefix (b ∷ bs))) [
  | inl h ↦
      let (rest, p) = starts_with_split personal_key_prefix (b ∷ bs) h in
      absurd (t.not_personal rest p)
  | inr h ↦ ground (arith, all_complete (b ∷ bs) t.ascii, any_complete (b ∷ bs) t.ascii)
]

-- `validate` accepts a token exactly when it has 1 to 64 bytes, every byte is ASCII and not null,
-- and it is not `phx_` followed by anything.
pub validate-ok_iff : (token : List ℕ) → (validate token ≡ ok tt) ↔ IsToken token
validate-ok_iff token = (validate_sound token, validate_complete token)
