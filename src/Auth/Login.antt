-- ===== src/Auth/Login.antt =====
-- auth/auth.service.ts: the ways to log in.
use mathplat.Common.{
  ℕ, String, Bool, true, false, not, ◌||◌, if◌then◌else◌, Option, none, some, ◌==◌, or_else,
}
use mathplat.Common.Outcome.{Outcome, ok, throws, Exception, http, Action, pure, throw, ◌>>=◌, ◌>>◌}
use mathplat.Common.Text.{is_empty}
use mathplat.Utils.{sha256_hash, hash_password, verify_password}
use mathplat.Accounts.{
  User, Session, Accounts, find_user, create_user, update_user, create_session_row,
}
use mathplat.Auth.{
  Env, UserInfo, GeneratedTokens, generate_tokens, end_sessions, store_hash, is_active, new_session,
  access_token_expires_in_seconds, refresh_token_expires_in_seconds, invalidate_existing_sessions,
  create_session, cache_user_info,
}

-- `GoogleProfile`, less what nothing reads.
pub record GoogleProfile : Type 0 where
  pub google_id : String
  pub email : String
  pub name : String
  pub picture : Option String

-- `AuthResponseDto`
pub record AuthResponse : Type 0 where
  pub id : String
  pub email : String
  pub name : String
  pub picture : Option String
  pub access_token : String
  pub refresh_token : String
  pub access_expires_in : ℕ
  pub refresh_expires_in : ℕ
  pub token_type : String
  pub is_new_user : Bool

-- `picture || undefined`
abbrev pub picture_or_undefined : Option String → Option String
picture_or_undefined none = none
picture_or_undefined (some p) = if is_empty p then none else some p

abbrev pub response : User → GeneratedTokens → Bool → AuthResponse
response u tokens is_new = record {
  id = u.id;
  email = u.email;
  name = u.name;
  picture = picture_or_undefined u.picture;
  access_token = tokens.access_token;
  refresh_token = tokens.refresh_token;
  access_expires_in = access_token_expires_in_seconds;
  refresh_expires_in = refresh_token_expires_in_seconds;
  token_type = "Bearer";
  is_new_user = is_new;
}

-- `profile.picture !== user.picture`: what the profile lacks is undefined, what the row lacks is null.
abbrev pub picture_differs : Option String → Option String → Bool
picture_differs (some p) (some q) = not (p == q)
picture_differs _ _ = true

abbrev pub new_google_user : GoogleProfile → ℕ → String → User
new_google_user p now id = record {
  id = id;
  google_id = some p.google_id;
  email = p.email;
  password = none;
  name = p.name;
  picture = p.picture;
  created_at = now;
  updated_at = now;
  deleted_at = none;
}

abbrev pub new_dev_user : String → String → String → ℕ → String → User
new_dev_user email password name now id = record {
  id = id;
  google_id = none;
  email = email;
  password = some password;
  name = name;
  picture = none;
  created_at = now;
  updated_at = now;
  deleted_at = none;
}

abbrev pub is_google : String → User → Bool
is_google id u = elim u.google_id [ none ↦ false | some g ↦ g == id ]

abbrev pub user_id_is : String → User → Bool
user_id_is id u = u.id == id

-- `updateData`, put into the row.
abbrev pub with_profile : GoogleProfile → ℕ → User → User
with_profile p now u =
    let named : User = if p.name == u.name then u else record u { name = p.name } in
    let pictured : User =
      if picture_differs p.picture u.picture
      then record named { picture = some (or_else p.picture "") }
      else named in
    record pictured { updated_at = now }

abbrev pub info_for : User → String → UserInfo
info_for u session = record {
  id = u.id;
  email = u.email;
  name = u.name;
  picture = u.picture;
  session_id = session;
}

abbrev pub wrong_password : Exception
wrong_password = http 401 "Invalid email or password"

module _ {T : Type 0 → Type 0} {K E : Type 0} (env : Env T K E) where
  abbrev pub create_if_free : GoogleProfile → Option User → Action (Accounts T K E) (User × Bool)
  create_if_free p (some u) =
      throw (http 401 "Email is already registered with a different account")
  create_if_free p none = do
    user ← λ w. create_user env.prisma (new_google_user p w.now) w
    pure (user, true)

  abbrev pub update_profile : GoogleProfile → User → Action (Accounts T K E) User
  update_profile p u w = update_user env.prisma (user_id_is u.id) (with_profile p w.now) w

  abbrev pub found_or_new : GoogleProfile → Option User → Action (Accounts T K E) (User × Bool)
  found_or_new p none = do
    by_email ← find_user env.prisma (λ u. u.email == p.email)
    create_if_free p by_email
  found_or_new p (some u) =
      if not (p.name == u.name) || picture_differs p.picture u.picture
      then (do user ← update_profile p u; pure (user, false))
      else pure (u, false)

  abbrev pub start_session : User → Bool → Action (Accounts T K E) AuthResponse
  start_session u is_new = do
    invalidate_existing_sessions env u.id
    session ← create_session env u.id
    tokens ← generate_tokens env u.id session.id
    store_hash env session.id (sha256_hash env.crypto tokens.refresh_token)
    cache_user_info env u.id (info_for u session.id)
    pure (response u tokens is_new)

  unfoldable pub handle_google_login : GoogleProfile → Action (Accounts T K E) AuthResponse
  handle_google_login p = do
    found ← find_user env.prisma (is_google p.google_id)
    user ← found_or_new p found
    start_session user.0 user.1

  abbrev pub random_uuid : Action (Accounts T K E) String
  random_uuid w =
      let (id, e) = env.crypto.random_uuid w.entropy in (ok id, record w { entropy = e })

  abbrev pub create_own_session : String → String → String → Action (Accounts T K E) Session
  create_own_session user id digest w =
      create_session_row env.prisma
        (λ _.
          new_session user digest (env.add_seconds refresh_token_expires_in_seconds w.now) w.now id)
        w

  abbrev pub issue : User → Bool → String → Action (Accounts T K E) AuthResponse
  issue u is_new session = do
    tokens ← generate_tokens env u.id session
    create_own_session u.id session (sha256_hash env.crypto tokens.refresh_token)
    cache_user_info env u.id (info_for u session)
    pure (response u tokens is_new)

  unfoldable pub create_authenticated_session : User → Bool → Action (Accounts T K E) AuthResponse
  create_authenticated_session u is_new = random_uuid >>= issue u is_new

  -- The `catch` about the creation of a user. `is_unique_violation` is the test for an error
  -- `P2002` of Prisma.
  abbrev pub or_conflict : (Exception → Bool) → Outcome User → Action (Accounts T K E) User
  or_conflict is_unique_violation (ok u) = pure u
  or_conflict is_unique_violation (throws e) =
      if is_unique_violation e then throw (http 409 "Email is already registered") else throw e

  abbrev pub hash_new : String → Action (Accounts T K E) String
  hash_new password w =
      let (text, e) = hash_password env.crypto password w.entropy in
      (ok text, record w { entropy = e })

  abbrev pub create_dev_user :
      (Exception → Bool) → String → String → String → Action (Accounts T K E) User
  create_dev_user is_unique_violation email password name w =
      let (r, w') = create_user env.prisma (new_dev_user email password name w.now) w in
      or_conflict is_unique_violation r w'

  unfoldable pub handle_dev_signup :
      (Exception → Bool) → String → String → String → Action (Accounts T K E) AuthResponse
  handle_dev_signup is_unique_violation email password name = do
    hashed ← hash_new password
    user ← create_dev_user is_unique_violation email hashed name
    create_authenticated_session user true

  abbrev pub log_in : User → Bool → Action (Accounts T K E) AuthResponse
  log_in u right =
      if right
      then (do end_sessions env (is_active u.id); create_authenticated_session u false)
      else throw wrong_password

  abbrev pub check_password : String → Option User → Action (Accounts T K E) AuthResponse
  check_password password none = throw wrong_password
  check_password password (some u) = elim u.password [
    | none ↦ throw wrong_password
    | some stored ↦
        if is_empty stored
        then throw wrong_password
        else (λ w. (verify_password env.crypto password stored, w)) >>= log_in u
  ]

  unfoldable pub handle_dev_login : String → String → Action (Accounts T K E) AuthResponse
  handle_dev_login email password = do
    user ← find_user env.prisma (λ u. u.email == email)
    check_password password user
