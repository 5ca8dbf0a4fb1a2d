-- ===== src/Settings.antt =====
-- The settings of authentication: the helpers of backend/src/auth/auth-env.config.ts, which stop the
-- process where a variable is missing or no positive integer. `String` and `Number` of JavaScript are
-- parameters: `number s` is the integer that `s` reads as, if it is one and not negative.
use Prim.Native.String.{String}
use text.Mathlib.Text.{◌==◌ as str_eq}
use movie_reservation_system.Base.{
  ℕ, ◌<◌, Bool, Option, none, some, ◌≡◌, ltb, if◌then◌else◌, arith, Option-cases, inl, inr,
}

-- `process.env[name] ?? (process.env.NODE_ENV === 'test' ? fallback : undefined)`
abbrev pub with_fallback : Option String → Bool → Option String → Option String
with_fallback (some value) is_test fallback = some value
with_fallback none is_test fallback = if is_test then fallback else none

-- `if (!value) throw …`, with `none` for the error
abbrev pub not_empty : Option String → Option String
not_empty none = none
not_empty (some s) = if str_eq s "" then none else some s

-- `requireString`
unfoldable pub require_string : Option String → Bool → Option String → Option String
require_string value is_test fallback = not_empty (with_fallback value is_test fallback)

-- `!Number.isInteger(parsed) || parsed <= 0`
abbrev pub positive : Option ℕ → Option ℕ
positive none = none
positive (some n) = if ltb 0 n then some n else none

module _ (number : String → Option ℕ) (show : ℕ → String) where
  abbrev pub shown : Option ℕ → Option String
  shown none = none
  shown (some n) = some (show n)

  abbrev pub parsed : Option String → Option ℕ
  parsed none = none
  parsed (some raw) = positive (number raw)

  -- `requirePositiveInt`
  unfoldable pub require_positive_int : Option String → Bool → Option ℕ → Option ℕ
  require_positive_int value is_test fallback =
      parsed (not_empty (with_fallback value is_test (shown fallback)))

  -- A number that is read is positive, as `AuthEnv` has it.
  pub require_positive_int-lt :
      (value : Option String) (is_test : Bool) (fallback : Option ℕ) (n : ℕ)
      → require_positive_int value is_test fallback ≡ some n
      → 0 < n
  unfolding require_positive_int
  require_positive_int-lt value is_test fallback n h =
      elim (Option-cases (not_empty (with_fallback value is_test (shown fallback)))) [
        | inl a ↦ absurd (ground (arith, a, h))
        | inr (raw, a) ↦ elim (Option-cases (number raw)) [
          | inl b ↦ absurd (ground (arith, a, b, h))
          | inr (m, b) ↦ ground (arith, a, b, h)
        ]
      ]
