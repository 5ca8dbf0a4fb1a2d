-- ===== src/Secrets/Memory.antt =====
-- Hashes, tokens and a mail service in memory: the value that shows that the assumptions on
-- `Secrets` can be met. A hash is the password behind a letter, and a token its contents.
use Prim.Native.String.compare as compare_text
use Prim.Native.String.{String, ◌∷◌}
use text.Mathlib.Text.{◌==◌ as str_eq, is_eq}
use movie_reservation_system.Base.{
  ℕ, ◌+◌, ◌/◌, ◌≤◌, Bool, true, false, Option, some, none, ◌≡◌, refl, ap, ltb, if◌then◌else◌,
}
use movie_reservation_system.Table.{Result, ok}
use movie_reservation_system.Secrets.{
  Secrets, Mailer, HashError, Claims, Secret, access_secret, refresh_secret, link_state_secret,
}

pub record Token : Type 0 where
  pub secret : Secret
  pub claims : Claims
  pub expires : ℕ

unfoldable pub argon2_hash : String → ℕ → String
argon2_hash p salt = "a" ∷ p

unfoldable pub argon2_verify : String → String → Result HashError Bool
argon2_verify h p = ok (str_eq h ("a" ∷ p))

unfoldable pub bcrypt_hash : String → ℕ → String
bcrypt_hash p salt = "b" ∷ p

unfoldable pub bcrypt_compare : String → String → Bool
bcrypt_compare p h = str_eq h ("b" ∷ p)

unfoldable pub same_secret : Secret → Secret → Bool
same_secret access_secret access_secret = true
same_secret refresh_secret refresh_secret = true
same_secret link_state_secret link_state_secret = true
same_secret _ _ = false

unfoldable pub jwt_sign : Secret → Claims → ℕ → ℕ → Token
jwt_sign k c lifetime now = record { secret = k; claims = c; expires = now / 1000 + lifetime }

unfoldable pub jwt_verify : Secret → ℕ → Token → Option Claims
unfolding same_secret
jwt_verify k t x =
    if same_secret x.secret k
    then (if ltb (t / 1000) x.expires then some x.claims else none)
    else none

pub argon2_lem : (p q : String) (salt : ℕ) → argon2_verify (argon2_hash p salt) q ≡ ok (str_eq p q)
unfolding argon2_verify argon2_hash
argon2_lem p q salt = ap (λ o. ok (is_eq o)) (compare_text.cons-cons "a" "a" p q)

pub bcrypt_compare-argon2_hash :
    (p q : String) (salt : ℕ) → bcrypt_compare p (argon2_hash q salt) ≡ false
unfolding bcrypt_compare argon2_hash
bcrypt_compare-argon2_hash p q salt = ap is_eq (compare_text.cons-cons "a" "b" q p)

pub jwt_lem :
    (k : Secret) (c : Claims) (lifetime now t : ℕ)
    → now ≤ t
    → jwt_verify k t (jwt_sign k c lifetime now)
      ≡ (if ltb (t / 1000) (now / 1000 + lifetime) then some c else none)
unfolding jwt_verify jwt_sign same_secret
jwt_lem access_secret c lifetime now t h = refl
jwt_lem refresh_secret c lifetime now t h = refl
jwt_lem link_state_secret c lifetime now t h = refl

abbrev pub memory : Secrets
memory = record {
  Token = Token;
  argon2_hash = argon2_hash;
  argon2_verify = argon2_verify;
  bcrypt_hash = bcrypt_hash;
  bcrypt_compare = bcrypt_compare;
  jwt_sign = jwt_sign;
  jwt_verify = jwt_verify;
  argon2_lem = argon2_lem;
  bcrypt_compare-argon2_hash = bcrypt_compare-argon2_hash;
  jwt_lem = jwt_lem;
}

-- A mail service that takes every mail.
abbrev pub post : Mailer
post = record { accepts = λ to body. true }
