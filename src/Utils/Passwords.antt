-- ===== src/Utils/Passwords.antt =====
-- common/utils.ts: a password against the hash of a password.
use Prim.Native.String.{[], ◌∷◌}
use text.Mathlib.TextLemmas.{cons-append, nil-append}
use mathplat.Common.{String, ◌≡◌, ◌≢◌, ◌⊎◌, refl, eq_refl, true, false, arith, List}
use mathplat.Common.Outcome.{ok, throws, fault}
use mathplat.Common.Text.{◌⧺◌, split}
use mathplat.Common.Splitting.{lacks, split-pair}
use mathplat.Crypto.{Crypto, IsCrypto, all_digits}
use mathplat.Utils.{hash_password, verify_password, constant_time_compare}
use mathplat.Utils.Comparison.{constant_time_compare-cases}

-- Digits are no colons.
lacks-digits : (s : String) → all_digits s ≡ true → lacks b':' s ≡ true
lacks-digits [] h = refl
lacks-digits (c ∷ s) h = ground (arith, lacks-digits s)

colon : (s : String) → ":" ⧺ s ≡ ":" ∷ s
colon s = rw (cons-append ":" [] s, nil-append s) refl

module _ {E : Type 0} (crypto : Crypto E) (law : IsCrypto crypto) where
  stored-parts :
      (password : String) (e : E)
      → split b':' (hash_password crypto password e).0
        ≡ List.◌∷◌
            (crypto.random_bytes 16 e).0
            (List.◌∷◌ (crypto.scrypt password (crypto.random_bytes 16 e).0 64) List.[])
  unfolding hash_password
  stored-parts password e =
      let salt : String = (crypto.random_bytes 16 e).0 in
      let key : String = crypto.scrypt password salt 64 in
      rw (colon key) (
        split-pair b':' ":" salt key refl (lacks-digits salt (law.random_digits 15 e).1)
          (lacks-digits key (law.scrypt_digits password salt 63).1))

  -- Verification compares the two keys.
  verify-stored :
      (password other : String) (e : E)
      → verify_password crypto other (hash_password crypto password e).0
        ≡ constant_time_compare crypto
            (crypto.scrypt password (crypto.random_bytes 16 e).0 64)
            (crypto.scrypt other (crypto.random_bytes 16 e).0 64)
  unfolding verify_password
  verify-stored password other e =
      let (salted, _) = law.random_digits 15 e in
      let (keyed, _) = law.scrypt_digits password (crypto.random_bytes 16 e).0 63 in
      rw (stored-parts password e, salted, keyed) refl

  -- A password is accepted against its own hash. Another one is accepted where scrypt derives the
  -- same key from it, refused where it derives another, or Node throws.
  pub verify_password-hash :
      (password other : String) (e : E)
      → (let stored = (hash_password crypto password e).0 in
          let salt = (crypto.random_bytes 16 e).0 in
          let key = crypto.scrypt password salt 64 in
          let other_key = crypto.scrypt other salt 64 in
          (verify_password crypto password stored ≡ ok true)
          × ((verify_password crypto other stored ≡ ok true) × (key ≡ other_key)
              ⊎ (verify_password crypto other stored ≡ ok false) × (key ≢ other_key)
              ⊎ ((x : String) × (verify_password crypto other stored ≡ throws (fault x)))))
  unfolding constant_time_compare
  verify_password-hash password other e =
      let key : String = crypto.scrypt password (crypto.random_bytes 16 e).0 64 in
      let other_key : String = crypto.scrypt other (crypto.random_bytes 16 e).0 64 in
      (
        rw (verify-stored password password e, law.equal_size key key refl, eq_refl key)
            (ground arith),
        rw (verify-stored password other e) (constant_time_compare-cases crypto law key other_key),
      )
