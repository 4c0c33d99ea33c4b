-- ===== src/Auth.antt =====
-- auth/auth.service.ts: sessions and tokens. Here are the methods that the others share: the cache,
-- which the service may do without and whose errors it swallows, the tokens, and the ends of
-- sessions. Log lines are left out.
pub mod Rows
pub mod Frame
pub mod Bounded
pub mod Devices
pub mod Room
pub mod Limit
pub mod History
pub mod Rotation
pub mod Refreshed
pub mod Replay
pub mod Issued
pub mod Caching
pub mod Closed
pub mod Closing
pub mod Marking
pub mod LoggedOut
pub mod Samples
mod Tests
pub mod Sessions
pub mod Login
use mathplat.Common.{
  ℕ, zero, suc, ◌+◌, ◌*◌, String, Bool, true, false, not, ◌&&◌, ◌||◌, if◌then◌else◌, Option, none,
  some, List, [], ◌∷◌, map, is_none, is_some, ltb, leb, num_eq, length, or_else, ◌==◌,
}
use mathplat.Common.Outcome.{
  Outcome, ok, throws, Exception, http, Done, Action, pure, throw, ◌>>=◌, ◌>>◌,
}
use mathplat.Common.StrSet
use mathplat.Common.Text.{◌⧺◌, is_empty}
use mathplat.Redis.{Json, Parsed, value, null, refused}
use mathplat.Prisma.{Prisma}
use mathplat.Crypto.{Crypto, Jwt, Claims}
use mathplat.Utils.{sha256_hash, generate_secure_random_string}
use mathplat.Accounts.{
  User, Session, Accounts, find_sessions, create_session_row, update_session, update_sessions,
}

abbrev pub access_token_expires_in_seconds : ℕ
access_token_expires_in_seconds = 3600

abbrev pub refresh_token_expires_in_seconds : ℕ
refresh_token_expires_in_seconds = 2592000

abbrev pub session_invalid_prefix : String
session_invalid_prefix = "session_invalid"

abbrev pub user_info_prefix : String
user_info_prefix = "user_info"

abbrev pub user_info_cache_ttl : ℕ
user_info_cache_ttl = 3600

-- `GeneratedTokens`
pub record GeneratedTokens : Type 0 where
  pub access_token : String
  pub refresh_token : String
  pub token_id : String

-- `CacheServiceInterface`, over the state `K` of the service; any call may throw.
pub record CacheService (K : Type 0) : Type 0 where
  pub get : String → K → Outcome (Option String) × K
  pub set : String → String → ℕ → K → Outcome Done × K
  pub del : String → K → Outcome Done × K
  pub exists : String → K → Outcome Bool × K

-- What stands in the cache for a user.
pub record UserInfo : Type 0 where
  pub id : String
  pub email : String
  pub name : String
  pub picture : Option String
  pub session_id : String

-- What the constructor is given. `add_seconds` is `date.setSeconds(date.getSeconds() + n)`, which
-- counts in the local time of the server.
pub record Env (T : Type 0 → Type 0) (K E : Type 0) : Type 1 where
  pub prisma : Prisma T
  pub cache : CacheService K
  pub crypto : Crypto E
  pub jwt : Jwt
  pub json : Json UserInfo
  pub max_devices : ℕ
  pub add_seconds : ℕ → ℕ → ℕ

unfoldable pub invalid_key : String → String
invalid_key session = session_invalid_prefix ⧺ ":" ⧺ session

unfoldable pub info_key : String → String
info_key user = user_info_prefix ⧺ ":" ⧺ user

-- `userId`, `isValid: true`, `deletedAt: null`
abbrev pub is_active : String → Session → Bool
is_active user s = s.user_id == user && s.is_valid && is_none s.deleted_at

abbrev pub ended : ℕ → Session → Session
ended now s = record s { is_valid = false; updated_at = now }

abbrev pub hashed : String → ℕ → Session → Session
hashed digest now s = record s { refresh_token = digest; updated_at = now }

abbrev pub new_session : String → String → ℕ → ℕ → String → Session
new_session user digest expires_at now id = record {
  id = id;
  user_id = user;
  refresh_token = digest;
  is_valid = true;
  created_at = now;
  updated_at = now;
  deleted_at = none;
  expires_at = expires_at;
}

module _ {T : Type 0 → Type 0} {K E : Type 0} where
  -- `setCacheService`
  unfoldable pub set_cache_service : K → Accounts T K E → Accounts T K E
  set_cache_service k w = record w { cache_service = some k }

abbrev pub attempt {ℓ} : {A : Type ℓ} → A → Outcome A → A
attempt d (ok a) = a
attempt d (throws e) = d

module _ {T : Type 0 → Type 0} {K E A : Type 0} where
  -- A call of the cache, if there is one; `d` where there is none and where the call throws.
  unfoldable pub try_cache : A → (K → Outcome A × K) → Action (Accounts T K E) A
  try_cache d call w = elim w.cache_service [
    | none ↦ (ok d, w)
    | some k ↦ (ok (attempt d (call k).0), record w { cache_service = some (call k).1 })
  ]

module _ {T : Type 0 → Type 0} {K E : Type 0} (env : Env T K E) where
  unfoldable pub mark_session_invalid_in_cache : String → Action (Accounts T K E) Done
  mark_session_invalid_in_cache session =
      try_cache tt (env.cache.set (invalid_key session) "true" refresh_token_expires_in_seconds)

  unfoldable pub is_session_invalidated_in_cache : String → Action (Accounts T K E) Bool
  is_session_invalidated_in_cache session = try_cache false (env.cache.exists (invalid_key session))

  -- Where `JSON.stringify` throws, nothing is sent.
  abbrev pub send_info : String → Outcome String → K → Outcome Done × K
  send_info user (ok text) k = env.cache.set (info_key user) text user_info_cache_ttl k
  send_info user (throws e) k = (throws e, k)

  unfoldable pub cache_user_info : String → UserInfo → Action (Accounts T K E) Done
  cache_user_info user info = try_cache tt (send_info user (env.json.stringify info))

  abbrev if_value : Parsed UserInfo → Option UserInfo
  if_value (value info) = some info
  if_value null = none
  if_value refused = none

  -- No text, the empty text, `null`, and a text that `JSON.parse` refuses are no information.
  abbrev pub parse_info : Option String → Option UserInfo
  parse_info none = none
  parse_info (some text) = if is_empty text then none else if_value (env.json.parse text)

  abbrev pub read_info : Outcome (Option String) × K → Outcome (Option UserInfo) × K
  read_info (ok text, k) = (ok (parse_info text), k)
  read_info (throws e, k) = (throws e, k)

  unfoldable pub get_cached_user_info : String → Action (Accounts T K E) (Option UserInfo)
  get_cached_user_info user = try_cache none (λ k. read_info (env.cache.get (info_key user) k))

  unfoldable pub clear_cached_user_info : String → Action (Accounts T K E) Done
  clear_cached_user_info user = try_cache tt (env.cache.del (info_key user))

  -- `for (const sid of ...) await this.markSessionInvalidInCache(sid)`
  unfoldable pub mark_all : List String → Action (Accounts T K E) Done
  mark_all [] = pure tt
  mark_all (id ∷ ids) = mark_session_invalid_in_cache id >> mark_all ids

  unfoldable pub random_string : ℕ → Action (Accounts T K E) String
  random_string n w =
      let (text, e) = generate_secure_random_string env.crypto n w.entropy in
      (ok text, record w { entropy = e })

  unfoldable pub sign : Claims → ℕ → Action (Accounts T K E) String
  sign claims expires_in w = (env.jwt.sign claims expires_in w.now, w)

  unfoldable pub generate_tokens : String → String → Action (Accounts T K E) GeneratedTokens
  generate_tokens user session = do
    id ← random_string 32
    access ←
        sign (record { user_id = user; session_id = session; token_id = none })
          access_token_expires_in_seconds
    refresh ←
        sign (record { user_id = user; session_id = session; token_id = some id })
          refresh_token_expires_in_seconds
    pure (record { access_token = access; refresh_token = refresh; token_id = id })

  -- `data: { isValid: false }` of one session
  unfoldable pub end_session : String → Action (Accounts T K E) Session
  end_session id w = update_session env.prisma id (ended w.now) w

  unfoldable pub end_sessions : (Session → Bool) → Action (Accounts T K E) ℕ
  end_sessions p w = update_sessions env.prisma p (ended w.now) w

  -- `data: { refreshToken: hash }` of one session
  unfoldable pub store_hash : String → String → Action (Accounts T K E) Session
  store_hash id digest w = update_session env.prisma id (hashed digest w.now) w

  unfoldable pub invalidate_single_session : String → Action (Accounts T K E) Done
  invalidate_single_session id = end_session id >> mark_session_invalid_in_cache id

  abbrev pub end_found : String → List Session → Action (Accounts T K E) ℕ
  end_found user [] = pure 0
  end_found user (s ∷ ss) = do
    end_sessions (is_active user)
    mark_all (map (λ s. s.id) (s ∷ ss))
    pure (length (s ∷ ss))

  unfoldable pub invalidate_all_user_sessions : String → Action (Accounts T K E) ℕ
  invalidate_all_user_sessions user = do
    active ← find_sessions env.prisma (is_active user)
    end_found user active

  -- The sessions of the list end, if with a new one they would be more than the user may have.
  abbrev pub end_if_full : List Session → Action (Accounts T K E) Done
  end_if_full active =
      if ltb 0 env.max_devices && leb env.max_devices (length active)
      then (do
        end_sessions (λ s. StrSet.has s.id (map (λ a. a.id) active))
        mark_all (map (λ a. a.id) active))
      else pure tt

  unfoldable pub invalidate_existing_sessions : String → Action (Accounts T K E) Done
  invalidate_existing_sessions user = do
    active ← find_sessions env.prisma (is_active user)
    end_if_full active

  unfoldable pub create_session : String → Action (Accounts T K E) Session
  create_session user w =
      create_session_row env.prisma
        (new_session user "" (env.add_seconds refresh_token_expires_in_seconds w.now) w.now) w
