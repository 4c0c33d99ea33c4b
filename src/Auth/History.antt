-- ===== src/Auth/History.antt =====
-- Every history of calls of auth/auth.service.ts, from a database without sessions: logins of both
-- kinds, refreshed tokens, validated sessions and logging out, in any order and at any time. The
-- identifier of a new user is new, so it has no session yet.
use mathplat.Common.{
  ℕ, ◌≤◌, ◌<◌, String, ◌≡◌, Bool, List, [], arith, inl, inr, ◌==◌, eq_iff, Bool-cases, subst,
}
use mathplat.Common.Outcome.{Outcome, ok, throws, Exception}
use mathplat.Common.Triple.{Keeps-state, Post}
use mathplat.Prisma.{IsStore}
use mathplat.Accounts.{Session, Accounts}
use mathplat.Auth.{Env, set_cache_service}
use mathplat.Auth.Sessions.{refresh_tokens, validate_session, logout}
use mathplat.Auth.Login.{
  GoogleProfile, AuthResponse, handle_google_login, handle_dev_signup, handle_dev_login,
}
use mathplat.Auth.Rows.{active}
use mathplat.Auth.Bounded.{one_more, Holds}
use mathplat.Auth.Devices.{Keeps-refresh_tokens, Keeps-validate_session, Keeps-logout}
use mathplat.Auth.Limit.{
  Keeps-handle_google_login, handle_dev_signup-Triple, Keeps-handle_dev_login,
}

module _ {T : Type 0 → Type 0} {K E : Type 0} (env : Env T K E) (store : IsStore env.prisma)
    (unique : Exception → Bool) where
  open store use {rows}

  -- Whom a call signs up has no session in `ss`.
  abbrev pub SignsUpNew : Outcome AuthResponse → List Session → Type 0
  SignsUpNew (ok r) ss = active r.id ss ≡ 0
  SignsUpNew (throws e) ss = Unit

  pub data Step : Accounts T K E → Accounts T K E → Type 0 where
    given_cache : (k : K) (w : Accounts T K E) → Step w (set_cache_service k w)
    waits : (time : ℕ) (w : Accounts T K E) → w.now ≤ time → Step w (record w { now = time })
    google_login : (p : GoogleProfile) (w : Accounts T K E) → Step w (handle_google_login env p w).1
    dev_signup :
        (email password name : String) (w : Accounts T K E)
        → SignsUpNew (handle_dev_signup env unique email password name w).0 (rows w.sessions)
        → Step w (handle_dev_signup env unique email password name w).1
    dev_login :
        (email password : String) (w : Accounts T K E)
        → Step w (handle_dev_login env email password w).1
    refreshes : (token : String) (w : Accounts T K E) → Step w (refresh_tokens env token w).1
    validates :
        (user session : String) (w : Accounts T K E)
        → Step w (validate_session env user session w).1
    logs_out :
        (user session : String) (all_devices : Bool) (w : Accounts T K E)
        → Step w (logout env user session all_devices w).1

  pub data Reach : Accounts T K E → Type 0 where
    starts : (w : Accounts T K E) → rows w.sessions ≡ [] → Reach w
    goes_on : {w v : Accounts T K E} → Reach w → Step w v → Reach v

  module _ (some_device : 0 < env.max_devices) where
    AtMost : Accounts T K E → Type 0
    AtMost w = Holds env store (λ _. env.max_devices) w

    signed_up-AtMost :
        (r : Outcome AuthResponse) (w v : Accounts T K E)
        → SignsUpNew r (rows w.sessions)
        → Holds env store (λ _. env.max_devices) w
        → Post
            (λ r. Holds env store (one_more r.id (λ u. active u (rows w.sessions))))
            (λ _. Holds env store (λ u. active u (rows w.sessions)))
            r
            v
        → Holds env store (λ _. env.max_devices) v
    signed_up-AtMost (ok r) w v new h grown = λ u. elim (Bool-cases (r.id == u)) [
      | inl e ↦
          let it : r.id ≡ u = (eq_iff r.id u).0 e in
          let none_yet : active u (rows w.sessions) ≡ 0 =
            subst (λ i. active i (rows w.sessions) ≡ 0) it new in
          ground (arith, grown u, none_yet, some_device)
      | inr e ↦ ground (arith, grown u, h u)
    ]
    signed_up-AtMost (throws e) w v new h same = λ u. omega (arith, same u, h u)

    Step-AtMost :
        {w v : Accounts T K E}
        → Step w v
        → Holds env store (λ _. env.max_devices) w
        → Holds env store (λ _. env.max_devices) v
    unfolding set_cache_service
    Step-AtMost (given_cache k w) h = h
    Step-AtMost (waits time w later) h = h
    Step-AtMost (google_login p w) h =
        Keeps-state (Keeps-handle_google_login env store some_device p) w h
    Step-AtMost (dev_signup email password name w new) h = signed_up-AtMost _ w _ new h (
        (handle_dev_signup-Triple env store (λ u. active u (rows w.sessions)) unique email password
            name).at
          w (λ u. omega arith))
    Step-AtMost (dev_login email password w) h =
        Keeps-state (Keeps-handle_dev_login env store some_device email password) w h
    Step-AtMost (refreshes token w) h = Keeps-state (Keeps-refresh_tokens env store _ token) w h
    Step-AtMost (validates user session w) h =
        Keeps-state (Keeps-validate_session env store _ user session) w h
    Step-AtMost (logs_out user session all_devices w) h =
        Keeps-state (Keeps-logout env store _ user session all_devices) w h

  -- With a limit of `maxDevicesPerUser` greater than 0, a user has at no time more than that many
  -- active sessions: after any history of logins (of new users, whose identifiers have no session
  -- yet, and of old ones), refreshed tokens, validated sessions and logouts, whatever queries of the
  -- database and calls of the cache have thrown.
  pub Reach-Within :
      0 < env.max_devices
      → {w : Accounts T K E} → Reach w
      → (user : String) → active user (rows w.sessions) ≤ env.max_devices
  Reach-Within some_device (starts w none_yet) user = rw none_yet (omega arith)
  Reach-Within some_device (goes_on r step) user =
      Step-AtMost some_device step (λ u. Reach-Within some_device r u) user
