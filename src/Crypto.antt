-- ===== src/Crypto.antt =====
-- Node's `crypto` and the JWT library, which the repository does not hold, as parameters. Bytes are
-- given by their digits in base 16, `toString('hex')`; `E` is the state of the source of randomness.
use Prim.Native.Char.{code}
use Prim.Native.String.{[], ◌∷◌}
use mathplat.Common.{
  leb, false, ◌&&◌, ◌||◌, ℕ, ◌≢◌, ◌+◌, ◌/◌, ◌<◌, String, ◌≡◌, Bool, true, Option, ◌==◌,
}
use mathplat.Common.Outcome.{Outcome, ok, throws, fault}
use mathplat.Common.Text.{utf16_length, utf8_length, is_empty}

pub record Crypto (E : Type 0) : Type 0 where
  pub random_bytes : ℕ → E → String × E
  pub random_uuid : E → String × E
  -- `createHash('sha256').update(text).digest('hex')`
  pub sha256 : String → String
  -- `scryptSync(password, salt, bytes)`
  pub scrypt : String → String → ℕ → String
  -- of the bytes of two texts; throws if they differ in number
  pub timing_safe_equal : String → String → Outcome Bool

-- Digits in base 16, at least one.
abbrev pub is_digit : ℕ → Bool
is_digit n = leb b'0' n && leb n b'9' || leb b'a' n && leb n b'f'

abbrev pub all_digits : String → Bool
all_digits [] = true
all_digits (c ∷ s) = is_digit (code c) && all_digits s

abbrev pub IsHex : String → Type 0
IsHex s = (is_empty s ≡ false) × (all_digits s ≡ true)

-- What Node documents: a comparison of as many bytes tells whether they are the same, and one of
-- different numbers of bytes throws; random bytes and derived keys are digits, and a digest of SHA-256
-- has 64.
pub record IsCrypto {E : Type 0} (crypto : Crypto E) : Type 0 where
  pub equal_size :
      (a b : String) → utf8_length a ≡ utf8_length b → crypto.timing_safe_equal a b ≡ ok (a == b)
  pub other_size :
      (a b : String)
      → utf8_length a ≢ utf8_length b
      → (text : String) × (crypto.timing_safe_equal a b ≡ throws (fault text))
  pub random_digits : (n : ℕ) (e : E) → IsHex (crypto.random_bytes (n + 1) e).0
  pub scrypt_digits : (password salt : String) (n : ℕ) → IsHex (crypto.scrypt password salt (n + 1))
  pub digest_length : (a : String) → utf16_length (crypto.sha256 a) ≡ 64

-- What a token says; only a refresh token has a `tokenId`.
pub record Claims : Type 0 where
  pub user_id : String
  pub session_id : String
  pub token_id : Option String

-- `JwtService` with the secret of the configuration. A time to live is in seconds, the clock, which
-- comes last, in milliseconds.
pub record Jwt : Type 0 where
  pub sign : Claims → (expires_in : ℕ) → ℕ → Outcome String
  pub verify : String → ℕ → Outcome Claims

-- What it documents, of a secret that is set: it signs, and a token says what was signed until it
-- expires, the second of the signing and the present one both counted from their start.
pub record IsJwt (jwt : Jwt) : Type 0 where
  pub sign_ok : (c : Claims) (ttl now : ℕ) → (token : String) × (jwt.sign c ttl now ≡ ok token)
  pub verify_signed :
      (c : Claims) (ttl : ℕ) (token : String) (then_ now : ℕ)
      → jwt.sign c ttl then_ ≡ ok token
      → now / 1000 < then_ / 1000 + ttl
      → jwt.verify token now ≡ ok c
