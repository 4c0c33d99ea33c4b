-- ===== src/Auth/Tests.antt =====
-- The theorems on auth/auth.service.ts at one user with one session.
use mathplat.Common.{
  ◌≤◌, String, ◌≡◌, ◌≢◌, refl, Bool, true, false, none, some, List, arith, ap, ◌==◌,
}
use mathplat.Common.Outcome.{Exception, ok}
use mathplat.Common.Triple.{Post}
use mathplat.Common.Text.{take, utf8_length, utf16_length}
use mathplat.Utils.{constant_time_compare, sha256_hash, generate_secure_random_string}
use mathplat.Accounts.{Accounts, find_session, update_session}
use mathplat.Auth.{generate_tokens, random_string, sign, store_hash}
use mathplat.Cache.{Cache}
use mathplat.Auth.Login.{handle_google_login, GoogleProfile, create_authenticated_session}
use mathplat.Auth.Sessions.{TokenRefresh, refresh_tokens, logout}
use mathplat.Auth.Rows.{active}
use mathplat.Auth.History.{Reach, starts, goes_on, google_login, Reach-Within}
use mathplat.Auth.Rotation.{IsFault}
use mathplat.Auth.Refreshed.{Rotated, Refused, refresh_tokens-answer}
use mathplat.Auth.Replay.{Detected, refresh_tokens-replayed}
use mathplat.Auth.Issued.{GoesThrough, create_authenticated_session-refreshes}
use mathplat.Auth.LoggedOut.{StaysOut, logout-StaysOut}
use mathplat.Auth.Samples.{
  first_digest, spell, read, read_id, env, start, session, gauss, first_claims, spell_claims,
  sample_crypto-IsCrypto, plain_jwt-IsJwt, sample_cache-IsCaching, read-claims,
}
use mathplat.Samples.{Server, tables-IsStore}

abbrev unique : Exception → Bool
unique e = false

abbrev profile : GoogleProfile
profile = record { google_id = "g1"; email = "gauss@example.org"; name = "Gauss"; picture = none }

abbrev before : Accounts List (Cache Server) Unit
before = record start { sessions = List.[] }

abbrev once : Accounts List (Cache Server) Unit
once = (handle_google_login env profile before).1

abbrev twice : Accounts List (Cache Server) Unit
twice = (handle_google_login env profile once).1

abbrev history : Reach env tables-IsStore unique twice
history =
    goes_on (goes_on (starts before refl) (google_login profile before)) (google_login profile once)

Reach-Within_example : active "u1" twice.sessions ≤ 1
Reach-Within_example = Reach-Within env tables-IsStore unique (omega arith) history "u1"

abbrev token : String
token = spell_claims first_claims

refresh_tokens-answer_example :
    Post
      (Rotated env tables-IsStore sample_crypto-IsCrypto plain_jwt-IsJwt token first_claims session
        start)
      (Refused env tables-IsStore sample_crypto-IsCrypto plain_jwt-IsJwt token first_claims session
        start)
      (refresh_tokens env token start).0
      (refresh_tokens env token start).1
refresh_tokens-answer_example =
    refresh_tokens-answer env tables-IsStore sample_crypto-IsCrypto plain_jwt-IsJwt token
      first_claims session start (read-claims first_claims) refl

logout-StaysOut_example :
    Post
      (λ _. StaysOut env tables-IsStore sample_cache-IsCaching "u1" token "s1" 7)
      (λ e _. IsFault e)
      (logout env "u1" "s1" true start).0
      (logout env "u1" "s1" true start).1
logout-StaysOut_example =
    logout-StaysOut env tables-IsStore sample_cache-IsCaching "u1" "s1" true session start refl
      ((tt, tt), refl) (record { up = refl; filled = λ j s e. cc }) "u1" token first_claims 7
      (read-claims first_claims) refl

create_authenticated_session-refreshes_example :
    Post
      (λ r w.
        GoesThrough env tables-IsStore sample_crypto-IsCrypto plain_jwt-IsJwt gauss true start
          (refresh_tokens env r.refresh_token (record w { now = 9 })).0)
      (λ e _. IsFault e)
      (create_authenticated_session env gauss true start).0
      (create_authenticated_session env gauss true start).1
create_authenticated_session-refreshes_example =
    create_authenticated_session-refreshes env tables-IsStore sample_crypto-IsCrypto plain_jwt-IsJwt
      gauss true start 9 refl (omega arith) (omega arith)

abbrev pair : TokenRefresh
pair = record {
  access_token = spell_claims (record first_claims { token_id = none });
  refresh_token = spell_claims (record first_claims { token_id = some "ab" });
  access_expires_in = 3600;
  refresh_expires_in = 2592000;
}

exchanged : (refresh_tokens env token start).0 ≡ ok pair
unfolding refresh_tokens find_session constant_time_compare sha256_hash generate_tokens
    random_string generate_secure_random_string sign store_hash update_session take utf16_length
    utf8_length spell spell_claims read read_id
exchanged = refl

digests_apart : env.crypto.sha256 pair.refresh_token ≢ env.crypto.sha256 token
unfolding spell_claims spell
digests_apart e = let it : false ≡ true = ap (λ s. s == first_digest) e in cc it

refresh_tokens-replayed_example :
    Detected env tables-IsStore sample_crypto-IsCrypto plain_jwt-IsJwt token first_claims session
      start refl refl
      (refresh_tokens env token (record (refresh_tokens env token start).1 { now = 5 })).0
      (refresh_tokens env token (record (refresh_tokens env token start).1 { now = 5 })).1
refresh_tokens-replayed_example =
    refresh_tokens-replayed env tables-IsStore sample_crypto-IsCrypto plain_jwt-IsJwt token
      first_claims session start refl refl pair 5 (read-claims first_claims) exchanged
      (read-claims first_claims) (omega arith) digests_apart
