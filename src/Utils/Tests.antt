-- ===== src/Utils/Tests.antt =====
-- The theorems on common/utils.ts at concrete texts.
use mathplat.Utils.Masking.{
  mask_sensitive_data, mask_sensitive_data-length, is_basic, min, drop, stars,
}
use mathplat.Common.Text.{utf16_length, utf8_length, take}
use mathplat.Common.{◌==◌, ◌*◌, ◌+◌, refl, String, ◌≡◌, ◌≢◌, ◌⊎◌, true, false}
use mathplat.Common.Outcome.{ok, throws, fault}
use mathplat.Utils.{hash_password, verify_password, constant_time_compare}
use mathplat.Utils.Comparison.{constant_time_compare_lem}
use mathplat.Utils.Passwords.{verify_password-hash}
use mathplat.Auth.Samples.{sample_crypto, sample_crypto-IsCrypto}

abbrev one : String
one = "abc"

abbrev other : String
other = "abd"

constant_time_compare_lem_example :
    (constant_time_compare sample_crypto one other ≡ ok (one == other))
    ⊎ (utf16_length one ≡ utf16_length other)
      × (utf8_length one ≢ utf8_length other)
      × ((e : String) × (constant_time_compare sample_crypto one other ≡ throws (fault e)))
constant_time_compare_lem_example =
    constant_time_compare_lem sample_crypto sample_crypto-IsCrypto one other

-- As long, but not as many bytes.
thrown : constant_time_compare sample_crypto "e" "é" ≡ throws (fault "RangeError")
unfolding constant_time_compare utf16_length utf8_length
thrown = refl

abbrev stored : String
stored = (hash_password sample_crypto "secret" tt).0

abbrev key : String
key = "cd"

abbrev other_key : String
other_key = "ef"

verify_password-hash_example :
    (verify_password sample_crypto "secret" stored ≡ ok true)
    × ((verify_password sample_crypto "other" stored ≡ ok true) × (key ≡ other_key)
        ⊎ (verify_password sample_crypto "other" stored ≡ ok false) × (key ≢ other_key)
        ⊎ ((x : String) × (verify_password sample_crypto "other" stored ≡ throws (fault x))))
verify_password-hash_example =
    verify_password-hash sample_crypto sample_crypto-IsCrypto "secret" "other" tt

mask_sensitive_data-length_example :
    utf16_length (mask_sensitive_data "sk_live_0123456789" 4)
    ≡ min (utf16_length "sk_live_0123456789") (4 * 2 + 10)
unfolding is_basic
mask_sensitive_data-length_example = mask_sensitive_data-length "sk_live_0123456789" 4 refl

masked : mask_sensitive_data "sk_live_0123456789" 4 ≡ "sk_l**********6789"
unfolding mask_sensitive_data utf16_length take drop stars
masked = refl

masked_short : mask_sensitive_data "secret" 4 ≡ "******"
unfolding mask_sensitive_data utf16_length stars
masked_short = refl
