-- ===== src/Utils.antt =====
-- common/utils.ts: hashes, random texts and passwords.
pub mod Comparison
pub mod Passwords
pub mod Masking
mod Tests
use mathplat.Common.{
  ℕ, ◌+◌, ◌/◌, ◌||◌, String, Bool, true, false, if◌then◌else◌, num_eq, List, [], ◌∷◌,
}
use mathplat.Common.Outcome.{Outcome, ok}
use mathplat.Common.Text.{◌⧺◌, is_empty, split, take, utf16_length}
use mathplat.Crypto.{Crypto}

module _ {E : Type 0} (crypto : Crypto E) where
  unfoldable pub sha256_hash : String → String
  sha256_hash input = crypto.sha256 input

  unfoldable pub generate_secure_random_string : ℕ → E → String × E
  generate_secure_random_string n e =
      let (digits, e') = crypto.random_bytes ((n + 1) / 2) e in (take n digits, e')

  unfoldable pub constant_time_compare : String → String → Outcome Bool
  constant_time_compare a b =
      if num_eq (utf16_length a) (utf16_length b) then crypto.timing_safe_equal a b else ok false

  unfoldable pub hash_password : String → E → String × E
  hash_password password e =
      let (salt, e') = crypto.random_bytes 16 e in (salt ⧺ ":" ⧺ crypto.scrypt password salt 64, e')

  -- With `[salt, hash]`, the first two parts.
  abbrev pub verify_parts : String → List String → Outcome Bool
  verify_parts password (salt ∷ hash ∷ _) =
      if is_empty salt || is_empty hash
      then ok false
      else constant_time_compare hash (crypto.scrypt password salt 64)
  verify_parts password _ = ok false

  unfoldable pub verify_password : String → String → Outcome Bool
  verify_password password stored = verify_parts password (split b':' stored)
