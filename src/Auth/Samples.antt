-- ===== src/Auth/Samples.antt =====
-- Concrete parameters of auth/auth.service.ts for the examples: tokens that spell out their claims,
-- two digests, and a source of randomness that always gives the same.
use mathplat.Redis.{refused, value}
use Prim.Native.Char.{code}
use Prim.Native.String.{[], ◌∷◌, ◌++◌}
use text.Mathlib.TextLemmas.{cons-append, append-nil, nil-append}
use mathplat.Common.{
  arith, ◌+◌, ◌*◌, String, ◌≡◌, refl, if◌then◌else◌, Option, none, some, List, num_eq, ◌==◌,
  Bool-cases, inl, inr, subst,
}
use mathplat.Common.Outcome.{Outcome, ok, throws, fault}
use mathplat.Common.Text.{◌⧺◌, utf8_length, utf16_length}
use mathplat.Cache.{Cache}
use mathplat.Crypto.{Crypto, IsCrypto, IsHex, Jwt, IsJwt, Claims}
use mathplat.Accounts.{User, Session, Accounts}
use mathplat.Auth.{Env, new_session}
use mathplat.Auth.Caching.{IsCaching, redis_cache, redis_cache-IsCaching}
use mathplat.Samples.{Server, server, server-IsServing, plain, tables, ready_on, empty}

-- A text with a mark before each character and another at its end.
unfoldable pub spell : String → String
spell [] = "e"
spell (c ∷ s) = "x" ∷ c ∷ spell s

abbrev put : String → Option (String × String) → Option (String × String)
put c none = none
put c (some (s, rest)) = some (c ⧺ s, rest)

unfoldable pub read : String → Option (String × String)
read [] = none
read (c ∷ []) = if num_eq (code c) b'e' then some ("", "") else none
read (c ∷ d ∷ s) =
    let rest = read s in if num_eq (code c) b'e' then some ("", d ∷ s) else put (d ∷ []) rest

read-end : (rest : String) → read ("e" ∷ rest) ≡ some ("", rest)
unfolding read
read-end [] = refl
read-end (c ∷ rest) = refl

read-spell : (s rest : String) → read (spell s ++ rest) ≡ some (s, rest)
unfolding read spell
read-spell [] rest = rw (cons-append "e" [] rest, nil-append rest) (read-end rest)
read-spell (c ∷ s) rest =
    rw
      (
        cons-append "x" (c ∷ spell s) rest,
        cons-append c (spell s) rest,
        read-spell s rest,
        cons-append c [] s,
        nil-append s,
      )
      refl

unfoldable pub spell_claims : Claims → String
spell_claims c =
    spell c.user_id ⧺ spell c.session_id ⧺ elim c.token_id [ none ↦ "" | some id ↦ spell id ]

-- What is left is the identifier of a refresh token, if anything is.
unfoldable pub read_id : String → Option String
read_id s = elim (read s) [ none ↦ none | some (id, rest) ↦ some id ]

abbrev claims_with : String → Option (String × String) → Outcome Claims
claims_with user none = throws (fault "jwt malformed")
claims_with user (some (session, rest)) =
    ok (record { user_id = user; session_id = session; token_id = read_id rest })

abbrev claims_of : Option (String × String) → Outcome Claims
claims_of none = throws (fault "jwt malformed")
claims_of (some (user, rest)) = claims_with user (read rest)

abbrev pub plain_jwt : Jwt
plain_jwt = record {
  sign = λ c ttl now. ok (spell_claims c);
  verify = λ token now. claims_of (read token);
}

read_id-spell : (o : Option String) → read_id (elim o [ none ↦ "" | some id ↦ spell id ]) ≡ o
unfolding read_id
read_id-spell none = unfold read in refl
read_id-spell (some id) =
    let it : read (spell id) ≡ some (id, "") =
      subst (λ s. read s ≡ some (id, "")) (append-nil (spell id)) (read-spell id "") in
    rw (read_id, it) refl

pub read-claims : (c : Claims) → claims_of (read (spell_claims c)) ≡ ok c
unfolding spell_claims
read-claims c =
    let id : String = elim c.token_id [ none ↦ "" | some id ↦ spell id ] in
    rw
      (
        read-spell c.user_id (spell c.session_id ⧺ id),
        read-spell c.session_id id,
        read_id-spell c.token_id,
      )
      refl

pub plain_jwt-IsJwt : IsJwt plain_jwt
plain_jwt-IsJwt = record {
  sign_ok = λ c ttl now. (_, refl);
  verify_signed = λ c ttl token then_ now e alive.
      let it : spell_claims c ≡ token = cc e in rw (← it) (read-claims c);
}

-- The claims of the refresh token that the sample session holds the digest of.
abbrev pub first_claims : Claims
first_claims = record { user_id = "u1"; session_id = "s1"; token_id = some "r1" }

abbrev pub first_digest : String
first_digest = "aaaaaaaaaaaaaaaaaaaaaaaaaaaaaaaaaaaaaaaaaaaaaaaaaaaaaaaaaaaaaaaa"

abbrev other_digest : String
other_digest = "bbbbbbbbbbbbbbbbbbbbbbbbbbbbbbbbbbbbbbbbbbbbbbbbbbbbbbbbbbbbbbbb"

abbrev digest : String → String
digest s = if s == spell_claims first_claims then first_digest else other_digest

abbrev pub sample_crypto : Crypto Unit
sample_crypto = record {
  random_bytes = λ n e. ("ab", e);
  random_uuid = λ e. ("s2", e);
  sha256 = digest;
  scrypt = λ password salt n. if password == "secret" then "cd" else "ef";
  timing_safe_equal = λ a b.
      if num_eq (utf8_length a) (utf8_length b) then ok (a == b) else throws (fault "RangeError");
}

pub digest-length : (s : String) → utf16_length (digest s) ≡ 64
unfolding utf16_length
digest-length s = elim (Bool-cases (s == spell_claims first_claims)) [
  | inl e ↦ rw e refl
  | inr e ↦ rw e refl
]

pub key-IsHex : (p : String) → IsHex (if p == "secret" then "cd" else "ef")
key-IsHex p = elim (Bool-cases (p == "secret")) [
  | inl e ↦ rw e (refl, refl)
  | inr e ↦ rw e (refl, refl)
]

pub sample_crypto-IsCrypto : IsCrypto sample_crypto
sample_crypto-IsCrypto = record {
  equal_size = λ a b e. ground arith;
  other_size = λ a b e. ("RangeError", ground arith);
  random_digits = λ n e. (refl, refl);
  scrypt_digits = λ p s n. key-IsHex p;
  digest_length = digest-length;
}

pub same_text : (s t : String) → plain.stringify s ≡ ok t → plain.parse t ≡ value s
same_text s t e = cc e

-- A cache that is the service of core/cache/cache.service.ts.
abbrev pub sample_cache-IsCaching : IsCaching (redis_cache server plain)
sample_cache-IsCaching =
    redis_cache-IsCaching server plain server-IsServing (λ s. (s, refl)) same_text

abbrev pub env : Env List (Cache Server) Unit
env = record {
  prisma = tables;
  cache = redis_cache server plain;
  crypto = sample_crypto;
  jwt = plain_jwt;
  json = record {
    stringify = λ i. throws (fault "not cached");
    parse = λ s. refused;
    text = λ s. record { id = ""; email = ""; name = ""; picture = none; session_id = "" };
  };
  max_devices = 1;
  add_seconds = λ n time. time + 1000 * n;
}

abbrev pub gauss : User
gauss = record {
  id = "u1";
  google_id = some "g1";
  email = "gauss@example.org";
  password = none;
  name = "Gauss";
  picture = none;
  created_at = 0;
  updated_at = 0;
  deleted_at = none;
}

abbrev pub session : Session
session = new_session "u1" (digest (spell_claims first_claims)) 1000 0 "s1"

-- One user with one session, and a cache that is ready.
abbrev pub start : Accounts List (Cache Server) Unit
start = record {
  users = List.◌∷◌ gauss List.[];
  sessions = List.◌∷◌ session List.[];
  cache_service = some (ready_on empty);
  entropy = tt;
  now = 1;
}
