-- ===== src/Auth/Sessions.antt =====
-- auth/auth.service.ts: the rotation of refresh tokens, the validation of a session, and logging out;
-- and auth/guards/token-validation.guard.ts, which lets a request pass if its session is valid.
use mathplat.Common.{
  ℕ, String, Bool, true, false, not, ◌||◌, if◌then◌else◌, Option, none, some, ltb, is_some, ◌==◌,
}
use mathplat.Common.Outcome.{
  Outcome, ok, throws, Exception, http, Action, pure, throw, gets, ◌>>=◌, ◌>>◌,
}
use mathplat.Common.Text.{is_empty}
use mathplat.Crypto.{Claims}
use mathplat.Utils.{sha256_hash, constant_time_compare}
use mathplat.Accounts.{User, Session, Accounts, find_session, find_session_with_user}
use mathplat.Auth.{
  Env, UserInfo, generate_tokens, end_session, store_hash, access_token_expires_in_seconds,
  refresh_token_expires_in_seconds, invalidate_all_user_sessions, invalidate_single_session,
  is_session_invalidated_in_cache, get_cached_user_info, cache_user_info, clear_cached_user_info,
}

-- `TokenRefreshResponseDto`
pub record TokenRefresh : Type 0 where
  pub access_token : String
  pub refresh_token : String
  pub access_expires_in : ℕ
  pub refresh_expires_in : ℕ

-- What `validateSession` returns of a valid session.
pub record SessionInfo : Type 0 where
  pub user_id : String
  pub session_id : String
  pub email : String
  pub name : String
  pub picture : Option String

-- `LogoutResponseDto`
pub record LogoutReply : Type 0 where
  pub message : String
  pub sessions_invalidated : ℕ

abbrev pub invalid_token : Exception
invalid_token = http 401 "Invalid refresh token"

abbrev pub no_longer_valid : Exception
no_longer_valid = http 401 "Session is no longer valid"

abbrev pub has_expired : Exception
has_expired = http 401 "Session has expired"

abbrev pub reuse_detected : Exception
reuse_detected = http 401 "Token reuse detected. All sessions have been invalidated for security."

module _ {T : Type 0 → Type 0} {K E : Type 0} (env : Env T K E) where
  abbrev pub rotate : Claims → Session → Action (Accounts T K E) TokenRefresh
  rotate c s = do
    tokens ← generate_tokens env c.user_id s.id
    store_hash env s.id (sha256_hash env.crypto tokens.refresh_token)
    pure (record {
      access_token = tokens.access_token;
      refresh_token = tokens.refresh_token;
      access_expires_in = access_token_expires_in_seconds;
      refresh_expires_in = refresh_token_expires_in_seconds;
    })

  abbrev pub stolen : Claims → Action (Accounts T K E) TokenRefresh
  stolen c = do invalidate_all_user_sessions env c.user_id; throw reuse_detected

  abbrev pub compared : Claims → Session → Bool → Action (Accounts T K E) TokenRefresh
  compared c s hashes_match = if hashes_match then rotate c s else stolen c

  abbrev pub expired : Session → Action (Accounts T K E) TokenRefresh
  expired s = do end_session env s.id; throw has_expired

  abbrev pub compare_hash : String → Session → Action (Accounts T K E) Bool
  compare_hash token s w =
      (constant_time_compare env.crypto (sha256_hash env.crypto token) s.refresh_token, w)

  abbrev pub unless_expired : String → Claims → Session → ℕ → Action (Accounts T K E) TokenRefresh
  unless_expired token c s now =
      if ltb s.expires_at now then expired s else compare_hash token s >>= compared c s

  abbrev pub refresh_with : String → Claims → Option Session → Action (Accounts T K E) TokenRefresh
  refresh_with token c none = throw no_longer_valid
  refresh_with token c (some s) =
      if not s.is_valid || is_some s.deleted_at
      then throw no_longer_valid
      else gets (λ w. w.now) >>= unless_expired token c s

  abbrev pub refresh_verified : String → Outcome Claims → Action (Accounts T K E) TokenRefresh
  refresh_verified token (throws e) = throw invalid_token
  refresh_verified token (ok c) = do
    session ← find_session env.prisma c.session_id
    refresh_with token c session

  unfoldable pub refresh_tokens : String → Action (Accounts T K E) TokenRefresh
  refresh_tokens token w = refresh_verified token (env.jwt.verify token w.now) w

  abbrev pub info_of : Session → User → UserInfo
  info_of s u = record {
    id = u.id;
    email = u.email;
    name = u.name;
    picture = u.picture;
    session_id = s.id;
  }

  abbrev pub session_info : UserInfo → String → SessionInfo
  session_info i session = record {
    user_id = i.id;
    session_id = session;
    email = i.email;
    name = i.name;
    picture = i.picture;
  }

  abbrev pub if_current : String → Session → User → ℕ → Action (Accounts T K E) (Option SessionInfo)
  if_current user s u now =
      if ltb s.expires_at now
      then end_session env s.id >> pure none
      else cache_user_info env user (info_of s u) >> pure (some (session_info (info_of s u) s.id))

  abbrev pub with_row :
      String → Option (Session × User) → Action (Accounts T K E) (Option SessionInfo)
  with_row user none = pure none
  with_row user (some (s, u)) =
      if not s.is_valid || is_some s.deleted_at || not (s.user_id == user)
      then pure none
      else gets (λ w. w.now) >>= if_current user s u

  abbrev pub with_cached :
      String → String → Option UserInfo → Action (Accounts T K E) (Option SessionInfo)
  with_cached user session (some i) = pure (some (session_info i session))
  with_cached user session none = do
    row ← find_session_with_user env.prisma session
    with_row user row

  abbrev pub unless_invalidated :
      String → String → Bool → Action (Accounts T K E) (Option SessionInfo)
  unless_invalidated user session true = pure none
  unless_invalidated user session false = do
    cached ← get_cached_user_info env user
    with_cached user session cached

  unfoldable pub validate_session : String → String → Action (Accounts T K E) (Option SessionInfo)
  validate_session user session = do
    invalidated ← is_session_invalidated_in_cache env session
    unless_invalidated user session invalidated

  abbrev pub logged_out : Bool → ℕ → LogoutReply
  logged_out all_devices n = record {
    message =
        if all_devices
        then "All sessions have been invalidated"
        else "Session has been invalidated";
    sessions_invalidated = n;
  }

  abbrev pub end_devices : String → String → Bool → Action (Accounts T K E) ℕ
  end_devices user session true = invalidate_all_user_sessions env user
  end_devices user session false = invalidate_single_session env session >> pure 1

  unfoldable pub logout : String → String → Bool → Action (Accounts T K E) LogoutReply
  logout user session all_devices = do
    n ← end_devices user session all_devices
    clear_cached_user_info env user
    pure (logged_out all_devices n)

  -- `TokenValidationGuard.canActivate`: of `request.user` what the token gave it, if it gave it
  -- anything; on a pass, the session that joins it.
  abbrev pub admit : Option SessionInfo → Action (Accounts T K E) SessionInfo
  admit none = throw (http 401 "Session has been invalidated")
  admit (some i) = pure i

  unfoldable pub can_activate : Option (String × String) → Action (Accounts T K E) SessionInfo
  can_activate none = throw (http 401 "Invalid authentication credentials")
  can_activate (some (user, session)) =
      if is_empty user || is_empty session
      then throw (http 401 "Invalid authentication credentials")
      else validate_session user session >>= admit
