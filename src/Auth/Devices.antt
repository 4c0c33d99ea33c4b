-- ===== src/Auth/Devices.antt =====
-- The limit on the devices of a user in auth/auth.service.ts, call by call.
use mathplat.Common.{
  ℕ, String, refl, Bool, true, false, not, ◌||◌, Option, none, some, ltb, is_some, ◌==◌,
}
use mathplat.Common.Outcome.{Outcome, ok, throws, gets}
use mathplat.Common.Triple.{Keeps, Keeps-pure, Keeps-throw, Triple-if, Triple-weaken, bind}
use mathplat.Prisma.{IsStore}
use mathplat.Crypto.{Claims}
use mathplat.Accounts.{User, Session, has_id, find_session, find_session_with_user}
use mathplat.Auth.{Env, UserInfo, end_session, store_hash}
use mathplat.Auth.Sessions.{
  rotate, stolen, compared, expired, refresh_with, compare_hash, unless_expired, refresh_verified,
  refresh_tokens, info_of, with_row, with_cached, unless_invalidated, validate_session, end_devices,
  logout,
}
use mathplat.Auth.Rows.{Within}
use mathplat.Auth.Frame.{
  Keeps-same, Keeps-end_session, Keeps-store_hash, Keeps-generate_tokens, Keeps-cache_user_info,
  Keeps-get_cached, Keeps-clear_cached, Keeps-is_invalidated,
}
use mathplat.Auth.Bounded.{
  Within-ended, Within-hashed, but_none-fewer, Holds, Keeps-invalidate_single,
  invalidate_all-Triple,
}

module _ {T : Type 0 → Type 0} {K E : Type 0} (env : Env T K E) (store : IsStore env.prisma) where
  open store use {rows}

  module _ (b : String → ℕ) where
    Keeps-end : (id : String) → Keeps (Holds env store b) (end_session env id)
    Keeps-end id =
        Keeps-end_session env store (Within b) id (λ now ss. Within-ended b (has_id id) now ss)

    pub Keeps-store : (id digest : String) → Keeps (Holds env store b) (store_hash env id digest)
    Keeps-store id digest =
        Keeps-store_hash env store (Within b) id digest
          (λ now ss. Within-hashed b (has_id id) digest now ss)

    Keeps-rotate : (c : Claims) (s : Session) → Keeps (Holds env store b) (rotate env c s)
    Keeps-rotate c s =
        bind (Keeps-generate_tokens env store (Within b) c.user_id s.id)
          λ tokens. bind (Keeps-store s.id _) λ _. Keeps-pure _

    Keeps-stolen : (c : Claims) → Keeps (Holds env store b) (stolen env c)
    Keeps-stolen c =
        bind
          (Triple-weaken (λ w h. h) (λ _ w h. but_none-fewer b c.user_id (rows w.sessions) h)
            (λ _ w h. h) (invalidate_all-Triple env store b c.user_id))
          λ _. Keeps-throw _

    Keeps-compared :
        (c : Claims) (s : Session) (match_ : Bool)
        → Keeps (Holds env store b) (compared env c s match_)
    Keeps-compared c s match_ = Triple-if match_ (λ _. Keeps-rotate c s) (λ _. Keeps-stolen c)

    Keeps-expired : (s : Session) → Keeps (Holds env store b) (expired env s)
    Keeps-expired s = bind (Keeps-end s.id) λ _. Keeps-throw _

    Keeps-clock : Keeps (Holds env store b) (gets (λ w. w.now))
    Keeps-clock = Keeps-same env store (Within b) (λ _. refl)

    Keeps-unless_expired :
        (token : String) (c : Claims) (s : Session) (now : ℕ)
        → Keeps (Holds env store b) (unless_expired env token c s now)
    Keeps-unless_expired token c s now =
        let compares : Keeps (Holds env store b) (compare_hash env token s) =
          Keeps-same env store (Within b) (λ _. refl) in
        Triple-if (ltb s.expires_at now) (λ _. Keeps-expired s)
          λ _. bind compares λ match_. Keeps-compared c s match_

    Keeps-refresh_with :
        (token : String) (c : Claims) (found : Option Session)
        → Keeps (Holds env store b) (refresh_with env token c found)
    Keeps-refresh_with token c none = Keeps-throw _
    Keeps-refresh_with token c (some s) =
        Triple-if (not s.is_valid || is_some s.deleted_at) (λ _. Keeps-throw _)
          λ _. bind Keeps-clock λ now. Keeps-unless_expired token c s now

    Keeps-find_session : (id : String) → Keeps (Holds env store b) (find_session env.prisma id)
    unfolding find_session
    Keeps-find_session id = Keeps-same env store (Within b) (λ _. refl)

    Keeps-refresh_verified :
        (token : String) (r : Outcome Claims)
        → Keeps (Holds env store b) (refresh_verified env token r)
    Keeps-refresh_verified token (throws e) = Keeps-throw _
    Keeps-refresh_verified token (ok c) =
        bind (Keeps-find_session c.session_id) λ found. Keeps-refresh_with token c found

    pub Keeps-refresh_tokens :
        (token : String) → Keeps (Holds env store b) (refresh_tokens env token)
    unfolding refresh_tokens
    Keeps-refresh_tokens token = record {
      at = λ w. (Keeps-refresh_verified token (env.jwt.verify token w.now)).at w;
    }

    Keeps-with_row :
        (user : String) (row : Option (Session × User))
        → Keeps (Holds env store b) (with_row env user row)
    Keeps-with_row user none = Keeps-pure none
    Keeps-with_row user (some (s, u)) =
        Triple-if (not s.is_valid || is_some s.deleted_at || not (s.user_id == user))
          (λ _. Keeps-pure none)
          λ _. bind Keeps-clock λ now.
            Triple-if (ltb s.expires_at now) (λ _. bind (Keeps-end s.id) λ _. Keeps-pure none)
              λ _.
                bind (Keeps-cache_user_info env store (Within b) user (info_of env s u))
                  λ _. Keeps-pure _

    Keeps-find_with_user :
        (id : String) → Keeps (Holds env store b) (find_session_with_user env.prisma id)
    unfolding find_session_with_user
    Keeps-find_with_user id = Keeps-same env store (Within b) (λ _. refl)

    Keeps-with_cached :
        (user session : String) (cached : Option UserInfo)
        → Keeps (Holds env store b) (with_cached env user session cached)
    Keeps-with_cached user session (some i) = Keeps-pure _
    Keeps-with_cached user session none =
        bind (Keeps-find_with_user session) λ row. Keeps-with_row user row

    Keeps-unless_invalidated :
        (user session : String) (invalidated : Bool)
        → Keeps (Holds env store b) (unless_invalidated env user session invalidated)
    Keeps-unless_invalidated user session true = Keeps-pure none
    Keeps-unless_invalidated user session false =
        bind (Keeps-get_cached env store (Within b) user)
          λ cached. Keeps-with_cached user session cached

    pub Keeps-validate_session :
        (user session : String) → Keeps (Holds env store b) (validate_session env user session)
    unfolding validate_session
    Keeps-validate_session user session =
        bind (Keeps-is_invalidated env store (Within b) session)
          λ invalidated. Keeps-unless_invalidated user session invalidated

    Keeps-end_devices :
        (user session : String) (all_devices : Bool)
        → Keeps (Holds env store b) (end_devices env user session all_devices)
    Keeps-end_devices user session true =
        Triple-weaken (λ w h. h) (λ _ w h. but_none-fewer b user (rows w.sessions) h) (λ _ w h. h)
          (invalidate_all-Triple env store b user)
    Keeps-end_devices user session false =
        bind (Keeps-invalidate_single env store b session) λ _. Keeps-pure 1

    pub Keeps-logout :
        (user session : String) (all_devices : Bool)
        → Keeps (Holds env store b) (logout env user session all_devices)
    unfolding logout
    Keeps-logout user session all_devices =
        bind (Keeps-end_devices user session all_devices)
          λ n. bind (Keeps-clear_cached env store (Within b) user) λ _. Keeps-pure _
