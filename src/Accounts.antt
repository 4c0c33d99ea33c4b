-- ===== src/Accounts.antt =====
-- The rows of prisma/schema.prisma for users and their sessions, and the state of the services that
-- keep them: the two tables, the cache that AuthService may have been given, the source of
-- randomness, and the clock in milliseconds.
use mathplat.Common.{ℕ, String, Bool, Option, is_none, List, ◌&&◌, ◌==◌}
use mathplat.Common.Outcome.{Action}
use mathplat.Prisma.{Prisma}

pub record User : Type 0 where
  pub id : String
  pub google_id : Option String
  pub email : String
  pub password : Option String
  pub name : String
  pub picture : Option String
  pub created_at : ℕ
  pub updated_at : ℕ
  pub deleted_at : Option ℕ

-- `UserSession`; the device and the address, which nothing writes, are left out.
pub record Session : Type 0 where
  pub id : String
  pub user_id : String
  -- the digest of the token
  pub refresh_token : String
  pub is_valid : Bool
  pub created_at : ℕ
  pub updated_at : ℕ
  pub deleted_at : Option ℕ
  pub expires_at : ℕ

pub record Accounts (T : Type 0 → Type 0) (K E : Type 0) : Type 0 where
  pub users : T User
  pub sessions : T Session
  -- `this.cacheService`
  pub cache_service : Option K
  pub entropy : E
  pub now : ℕ

abbrev pub has_id : String → Session → Bool
has_id id s = s.id == id

module _ {T : Type 0 → Type 0} {K E : Type 0} (prisma : Prisma T) where
  -- `findUnique`, which the middleware for soft deletion gives `deletedAt: null`.
  unfoldable pub find_user : (User → Bool) → Action (Accounts T K E) (Option User)
  find_user p w = (prisma.find_first (λ u. p u && is_none u.deleted_at) w.users, w)

  unfoldable pub create_user : (String → User) → Action (Accounts T K E) User
  create_user make w = let (r, t) = prisma.create make w.users in (r, record w { users = t })

  unfoldable pub update_user : (User → Bool) → (User → User) → Action (Accounts T K E) User
  update_user p f w = let (r, t) = prisma.update p f w.users in (r, record w { users = t })

  unfoldable pub find_session : String → Action (Accounts T K E) (Option Session)
  find_session id w = (prisma.find_first (λ s. has_id id s && is_none s.deleted_at) w.sessions, w)

  unfoldable pub find_session_with_user : String → Action (Accounts T K E) (Option (Session × User))
  find_session_with_user id w = (
    prisma.find_first_with (λ s. has_id id s && is_none s.deleted_at) (λ s u. u.id == s.user_id)
        w.sessions w.users,
    w,
  )

  unfoldable pub find_sessions : (Session → Bool) → Action (Accounts T K E) (List Session)
  find_sessions p w = (prisma.find_many p w.sessions, w)

  unfoldable pub create_session_row : (String → Session) → Action (Accounts T K E) Session
  create_session_row make w =
      let (r, t) = prisma.create make w.sessions in (r, record w { sessions = t })

  unfoldable pub update_session : String → (Session → Session) → Action (Accounts T K E) Session
  update_session id f w =
      let (r, t) = prisma.update (has_id id) f w.sessions in (r, record w { sessions = t })

  unfoldable pub update_sessions :
      (Session → Bool) → (Session → Session) → Action (Accounts T K E) ℕ
  update_sessions p f w =
      let (r, t) = prisma.update_many p f w.sessions in (r, record w { sessions = t })
