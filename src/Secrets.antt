-- ===== src/Secrets.antt =====
-- The packages that authentication calls: argon2 (auth/auth.service.ts), bcrypt
-- (users/users.service.ts), @nestjs/jwt (auth/token.service.ts) and nodemailer
-- (mailer/mailer.service.ts). They are not part of the repository, so they are a parameter. What
-- they draw at random (salts) is an argument. Two different passwords are taken to differ for
-- argon2, and a signed token to be as good as its contents.
pub mod Memory
use Prim.Native.String.{String}
use text.Mathlib.Text.{◌==◌ as str_eq}
use movie_reservation_system.Base.{
  ℕ, ◌+◌, ◌/◌, ◌≤◌, Bool, false, Option, some, none, ◌≡◌, ltb, if◌then◌else◌,
}
use movie_reservation_system.Table.{Result, ok}
use movie_reservation_system.Schema.{UserRole}

-- What `argon2.verify` throws on a text that is no hash of its own.
pub data HashError : Type 0 where
  malformed : HashError

-- auth/token.service.ts, `AuthUser`
pub record AuthUser : Type 0 where
  pub id : ℕ
  pub name : String
  pub email : String
  pub role : UserRole

-- auth/token.service.ts, `AccessPayload`
pub record AccessPayload : Type 0 where
  pub sub : ℕ
  pub name : String
  pub email : String
  pub role : UserRole
  pub ver : ℕ

-- auth/token.service.ts, `RefreshPayload`
pub record RefreshPayload : Type 0 where
  pub sub : ℕ
  pub jti : String

-- The payloads that the code signs, each with a secret and a lifetime of its own.
pub data Claims : Type 0 where
  access : AccessPayload → Claims
  refresh : RefreshPayload → Claims
  link_state : ℕ → Claims

pub data Secret : Type 0 where
  access_secret refresh_secret link_state_secret : Secret

pub record Secrets : Type 1 where
  pub Token : Type 0
  -- `argon2.hash` and `argon2.verify(hash, password)`
  pub argon2_hash : String → ℕ → String
  pub argon2_verify : String → String → Result HashError Bool
  -- `bcrypt.hash` and `bcrypt.compare(password, hash)`
  pub bcrypt_hash : String → ℕ → String
  pub bcrypt_compare : String → String → Bool
  -- `JwtService.sign` with a secret and a lifetime in seconds, and `JwtService.verify`; the times in
  -- milliseconds
  pub jwt_sign : Secret → Claims → ℕ → ℕ → Token
  pub jwt_verify : Secret → ℕ → Token → Option Claims
  pub argon2_lem :
      (p q : String) (salt : ℕ) → argon2_verify (argon2_hash p salt) q ≡ ok (str_eq p q)
  -- `bcrypt.compare` with a text that is no hash of bcrypt is `false`.
  pub bcrypt_compare-argon2_hash :
      (p q : String) (salt : ℕ) → bcrypt_compare p (argon2_hash q salt) ≡ false
  -- A token counts the seconds.
  pub jwt_lem :
      (k : Secret) (c : Claims) (lifetime now t : ℕ)
      → now ≤ t
      → jwt_verify k t (jwt_sign k c lifetime now)
        ≡ (if ltb (t / 1000) (now / 1000 + lifetime) then some c else none)

-- `transporter.sendMail`: whether the mail is taken.
pub record Mailer : Type 0 where
  pub accepts : String → String → Bool
