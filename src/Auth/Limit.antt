-- ===== src/Auth/Limit.antt =====
-- The limit on the devices of a user in auth/auth.service.ts: every way to log in, and every history
-- of calls.
use mathplat.Common.{
  ℕ, ◌<◌, String, ◌≡◌, refl, Bool, true, false, not, ◌&&◌, ◌||◌, Option, none, some, List, arith,
  ltb, leb, length, keep, map, inl, inr, ◌==◌, Option-cases,
}
use mathplat.Common.Text.{is_empty}
use mathplat.Common.Outcome.{Outcome-cases, Exception, pure}
use mathplat.Common.StrSet
use mathplat.Common.Triple.{Triple, Keeps, Keeps-pure, Keeps-throw, Triple-if, Triple-weaken, bind}
use mathplat.Prisma.{IsStore}
use mathplat.Utils.{sha256_hash}
use mathplat.Accounts.{User, Session, create_user}
use mathplat.Auth.{
  Env, GeneratedTokens, end_sessions, is_active, invalidate_existing_sessions, end_if_full,
}
use mathplat.Auth.Login.{
  wrong_password, new_dev_user, picture_differs, update_profile, new_google_user, user_id_is,
  with_profile, GoogleProfile, response, create_if_free, found_or_new, start_session,
  handle_google_login, random_uuid, create_authenticated_session, hash_new, create_dev_user,
  handle_dev_signup, log_in, check_password, handle_dev_login, info_for,
}
use mathplat.Auth.Rows.{Within, active-listed}
use mathplat.Auth.Frame.{
  Of, Keeps-same, Keeps-mark_all, Keeps-generate_tokens, Keeps-cache_user_info,
  cache_user_info-Triple, end_sessions-Triple, find_sessions-Triple,
}
use mathplat.Auth.Bounded.{
  one_more, but_none, but_none-Within, but_none-fewer, Holds, end_active-Triple,
}
use mathplat.Auth.Devices.{Keeps-store}
use mathplat.Auth.Room.{
  room, but_none-room, few-room, one_more-room, create_session-Triple, create_own-Triple,
  Keeps-find_user, Keeps-create_user, Keeps-update_user,
}

module _ {T : Type 0 → Type 0} {K E : Type 0} (env : Env T K E) (store : IsStore env.prisma) where
  open store use {rows}

  module _ (some_device : 0 < env.max_devices) where
    abbrev limit : String → ℕ
    limit v = env.max_devices

    abbrev Listed : String → List Session → List Session → Type 0
    Listed user found ss = Within limit ss × (found ≡ keep (is_active user) ss)

    end_if_full-Triple :
        (user : String) (found : List Session)
        → Triple
            (Of env store (Listed user found))
            (end_if_full env found)
            (λ _. Holds env store (room user env.max_devices))
            (λ _. Holds env store limit)
    end_if_full-Triple user found =
        let listed : Session → Bool = λ s. StrSet.has s.id (map (λ a. a.id) found) in
        let ends : Triple (Of env store (Listed user found)) (end_sessions env listed)
            (λ _. Holds env store (but_none user limit)) (λ _. Of env store (Listed user found)) =
          end_sessions-Triple env store (Listed user found) (Within (but_none user limit)) listed
            (λ now ss (h, e).
              but_none-Within limit user listed now ss (rw e (active-listed user now ss)) h) in
        Triple-if (ltb 0 env.max_devices && leb env.max_devices (length found))
          (λ _.
            Triple-weaken (λ w h. h)
              (λ _ w h. but_none-room user env.max_devices (rows w.sessions) h) (λ _ w h. h)
              (bind (Triple-weaken (λ w h. h) (λ _ w h. h) (λ _ w h. h.0) ends) λ _.
                Triple-weaken (λ w h. h) (λ _ w h. h)
                  (λ _ w h. but_none-fewer limit user (rows w.sessions) h)
                  (Keeps-mark_all env store (Within (but_none user limit))
                    (map (λ a. a.id) found))))
          λ few. record {
            at = λ w (h, e).
                few-room user env.max_devices (rows w.sessions)
                  (rw (← e) (ground (arith, some_device))) h;
          }

    invalidate_existing-Triple :
        (user : String)
        → Triple
            (Holds env store limit)
            (invalidate_existing_sessions env user)
            (λ _. Holds env store (room user env.max_devices))
            (λ _. Holds env store limit)
    unfolding invalidate_existing_sessions
    invalidate_existing-Triple user =
        bind (find_sessions-Triple env store (Within limit) (is_active user))
          λ found. end_if_full-Triple user found

    Keeps-start_session :
        (u : User) (is_new : Bool) → Keeps (Holds env store limit) (start_session env u is_new)
    Keeps-start_session u is_new = bind (invalidate_existing-Triple u.id) λ _.
        bind
          (Triple-weaken (λ w h. h)
            (λ _ w h. one_more-room u.id env.max_devices (rows w.sessions) some_device h)
            (λ _ w h v. ground (arith, h v))
            (create_session-Triple env store (room u.id env.max_devices) u.id))
          λ s. bind (Keeps-generate_tokens env store (Within limit) u.id s.id) λ tokens.
            bind (Keeps-store env store limit s.id _) λ _.
              bind (Keeps-cache_user_info env store (Within limit) u.id (info_for u s.id))
                λ _. Keeps-pure _

    Keeps-create_if_free :
        (p : GoogleProfile) (found : Option User)
        → Keeps (Holds env store limit) (create_if_free env p found)
    Keeps-create_if_free p (some u) = Keeps-throw _
    Keeps-create_if_free p none =
        bind
          (record { at = λ w. (Keeps-create_user env store limit (new_google_user p w.now)).at w })
          λ u. Keeps-pure _

    Keeps-found_or_new :
        (p : GoogleProfile) (found : Option User)
        → Keeps (Holds env store limit) (found_or_new env p found)
    Keeps-found_or_new p none =
        bind (Keeps-find_user env store limit _) λ by_email. Keeps-create_if_free p by_email
    Keeps-found_or_new p (some u) =
        let updates : Keeps (Holds env store limit) (update_profile env p u) = record {
          at = λ w.
              (Keeps-update_user env store limit (user_id_is u.id) (with_profile p w.now)).at w;
        } in
        Triple-if (not (p.name == u.name) || picture_differs p.picture u.picture)
          (λ _. bind updates λ v. Keeps-pure (v, false)) λ _. Keeps-pure (u, false)

    pub Keeps-handle_google_login :
        (p : GoogleProfile) → Keeps (Holds env store limit) (handle_google_login env p)
    unfolding handle_google_login
    Keeps-handle_google_login p =
        bind (Keeps-find_user env store limit _)
          λ found. bind (Keeps-found_or_new p found) λ user. Keeps-start_session user.0 user.1

  module _ (b : String → ℕ) where
    answered :
        (u : User) (tokens : GeneratedTokens) (is_new : Bool)
        → Triple
            (Holds env store (one_more u.id b))
            (pure (response u tokens is_new))
            (λ r w. (r.id ≡ u.id) × Holds env store (one_more u.id b) w)
            (λ _. Holds env store b)
    answered u tokens is_new = record { at = λ w h. (refl, h) }

    create_authenticated-Triple :
        (u : User) (is_new : Bool)
        → Triple
            (Holds env store b)
            (create_authenticated_session env u is_new)
            (λ r w. (r.id ≡ u.id) × Holds env store (one_more u.id b) w)
            (λ _. Holds env store b)
    unfolding create_authenticated_session
    create_authenticated-Triple u is_new =
        let uuid : Keeps (Holds env store b) (random_uuid env) =
          Keeps-same env store (Within b) (λ _. refl) in
        bind uuid λ id. bind (Keeps-generate_tokens env store (Within b) u.id id) λ tokens.
          bind (create_own-Triple env store b u.id id (sha256_hash env.crypto tokens.refresh_token))
            λ s.
              bind
                (Triple-weaken (λ w h. h) (λ _ w h. h) (λ _ w none. elim none [ ])
                  (cache_user_info-Triple env store (Within (one_more u.id b)) u.id
                    (info_for u id)))
                λ _. Triple-weaken (λ w h. h) (λ r w h. h) (λ _ w h. h) (answered u tokens is_new)

    Keeps-create_dev_user :
        (unique : Exception → Bool) (email hashed name : String)
        → Keeps (Holds env store b) (create_dev_user env unique email hashed name)
    unfolding create_user
    Keeps-create_dev_user unique email hashed name = Keeps-same env store (Within b) λ w.
        elim (Outcome-cases (create_user env.prisma (new_dev_user email hashed name w.now) w).0) [
          | inl (u, e) ↦ ground (arith, e)
          | inr (x, e) ↦ ground (arith, e)
        ]

    -- Signing up gives the new user one more session.
    pub handle_dev_signup-Triple :
        (unique : Exception → Bool) (email password name : String)
        → Triple
            (Holds env store b)
            (handle_dev_signup env unique email password name)
            (λ r. Holds env store (one_more r.id b))
            (λ _. Holds env store b)
    unfolding handle_dev_signup
    handle_dev_signup-Triple unique email password name =
        bind (Keeps-same env store (Within b) {m = hash_new env password} (λ _. refl)) λ hashed.
          bind (Keeps-create_dev_user unique email hashed name) λ u.
            Triple-weaken (λ w h. h) (λ r w (e, h). rw e h) (λ _ w h. h)
              (create_authenticated-Triple u true)

  module _ (some_device : 0 < env.max_devices) where
    Keeps-log_in :
        (u : User) (right : Bool) → Keeps (Holds env store (limit some_device)) (log_in env u right)
    Keeps-log_in u right =
        let b : String → ℕ = limit some_device in
        Triple-if right
          (λ _. bind (end_active-Triple env store b u.id) λ n.
            Triple-weaken (λ w h. h) (λ r w (e, h) v. ground (arith, h v, some_device))
              (λ _ w h. but_none-fewer b u.id (rows w.sessions) h)
              (create_authenticated-Triple (but_none u.id b) u false))
          λ _. Keeps-throw wrong_password

    Keeps-check_password :
        (password : String) (found : Option User)
        → Keeps (Holds env store (limit some_device)) (check_password env password found)
    Keeps-check_password password none = Keeps-throw _
    Keeps-check_password password (some u) = elim (Option-cases u.password) [
      | inl e ↦ rw e (Keeps-throw wrong_password)
      | inr (stored, e) ↦ rw e (
          Triple-if (is_empty stored) (λ _. Keeps-throw wrong_password)
            λ _.
              bind (Keeps-same env store (Within (limit some_device)) (λ _. refl))
                λ right. Keeps-log_in u right)
    ]

    pub Keeps-handle_dev_login :
        (email password : String)
        → Keeps (Holds env store (limit some_device)) (handle_dev_login env email password)
    unfolding handle_dev_login
    Keeps-handle_dev_login email password =
        bind (Keeps-find_user env store (limit some_device) _)
          λ found. Keeps-check_password password found
