-- ===== src/Auth/Closed.antt =====
-- auth/auth.service.ts: a session that has ended, in the database and in the cache, is let in by
-- nothing.
use mathplat.Common.{
  String, ◌≡◌, ◌⊎◌, refl, true, false, Option, none, some, List, [], ◌∷◌, arith, first, inl, inr,
  subst, ◌==◌, Bool-cases, Option-cases, All,
}
use mathplat.Common.Outcome.{Outcome, ok, throws, fault}
use mathplat.Prisma.{IsStore}
use mathplat.Crypto.{Claims}
use mathplat.Accounts.{User, Session, Accounts, has_id, find_session, find_session_with_user}
use mathplat.Auth.{
  Env, try_cache, invalid_key, is_session_invalidated_in_cache, get_cached_user_info,
}
use mathplat.Auth.Sessions.{
  TokenRefresh, SessionInfo, no_longer_valid, refresh_tokens, validate_session, with_cached,
  with_row,
}
use mathplat.Auth.Caching.{IsCaching}
use mathplat.Auth.Rotation.{is_live}

-- Every session of this identifier has ended.
abbrev pub Invalid : String → List Session → Type 0
Invalid id ss = All (λ s. has_id id s ≡ true → s.is_valid ≡ false) ss

Invalid-first :
    (id : String) (ss : List Session) (s : Session)
    → Invalid id ss
    → first (is_live id) ss ≡ some s
    → s.is_valid ≡ false
Invalid-first id [] s h e = cc
Invalid-first id (r ∷ ss) s (h, hs) e = elim (Bool-cases (is_live id r)) [
  | inl live ↦
      let it : r ≡ s = ground (arith, e) in subst (λ q. q.is_valid ≡ false) it (ground (arith, h))
  | inr other ↦ Invalid-first id ss s hs (ground (arith, e))
]

-- What validation and refreshing say to a session that has ended.
abbrev pub Unknown : Outcome (Option SessionInfo) → Type 0
Unknown r = (r ≡ ok none) ⊎ ((e : String) × (r ≡ throws (fault e)))

abbrev pub Denied : Outcome TokenRefresh → Type 0
Denied r = (r ≡ throws no_longer_valid) ⊎ ((e : String) × (r ≡ throws (fault e)))

module _ {T : Type 0 → Type 0} {K E : Type 0} (env : Env T K E) (store : IsStore env.prisma)
    (caching : IsCaching env.cache) where
  open store use {rows}
  open caching use {Ready, view}

  -- The cache, if there is one, works.
  abbrev pub CacheUp : Option K → Type 0
  CacheUp none = Unit
  CacheUp (some k) = Ready k

  -- It says that the session has ended.
  abbrev pub Marked : String → Option K → Type 0
  Marked id none = Unit
  Marked id (some k) = Ready k × (view k (invalid_key id) ≡ some "true")

  abbrev pub Closed : String → Accounts T K E → Type 0
  Closed id w = Invalid id (rows w.sessions) × Marked id w.cache_service

  with_row-denied :
      (user : String) (s : Session) (u : User) (w : Accounts T K E)
      → s.is_valid ≡ false
      → (with_row env user (some (s, u)) w).0 ≡ ok none
  with_row-denied user s u w ended = rw ended refl

  by_rows :
      (user id : String) (w : Accounts T K E)
      → Invalid id (rows w.sessions)
      → Unknown (with_cached env user id none w).0
  unfolding find_session_with_user
  by_rows user id w h =
      elim (store.find_first_with_lem (is_live id) (λ s u. u.id == s.user_id) w.sessions w.users) [
        | inl (missing, e) ↦ inl (rw e refl)
        | inr (inl (s, u, found, there, e)) ↦
            inl (rw e (with_row-denied user s u w (Invalid-first id (rows w.sessions) s h found)))
        | inr (inr (x, e)) ↦ inr (x, rw e refl)
      ]

  marked-true :
      (id : String) (k : K)
      → Ready k
      → view k (invalid_key id) ≡ some "true"
      → (env.cache.exists (invalid_key id) k).0 ≡ ok true
  marked-true id k up marked =
      let (told, _, _) = caching.exists_lem (invalid_key id) k up in rw (told, marked) refl

  pub validate_session-Closed :
      (user id : String) (w : Accounts T K E)
      → Closed id w
      → Unknown (validate_session env user id w).0
  unfolding validate_session is_session_invalidated_in_cache get_cached_user_info try_cache
  validate_session-Closed user id w (invalid, marked) = elim (Option-cases w.cache_service) [
    | inl e ↦ rw e (by_rows user id (record w { cache_service = none }) invalid)
    | inr (k, e) ↦
        let (up, it) = subst (Marked id) e marked in inl (rw (e, marked-true id k up it) refl)
  ]

  pub refresh_tokens-Closed :
      (token : String) (c : Claims) (w : Accounts T K E)
      → env.jwt.verify token w.now ≡ ok c
      → Invalid c.session_id (rows w.sessions)
      → Denied (refresh_tokens env token w).0
  unfolding refresh_tokens find_session
  refresh_tokens-Closed token c w verified invalid =
      elim (store.find_first_lem (is_live c.session_id) w.sessions) [
        | inr (x, e) ↦ inr (x, rw (verified, e) refl)
        | inl e ↦ elim (Option-cases (first (is_live c.session_id) (rows w.sessions))) [
          | inl missing ↦ inl (rw (verified, e, missing) refl)
          | inr (s, found) ↦
              let ended : s.is_valid ≡ false =
                Invalid-first c.session_id (rows w.sessions) s invalid found in
              inl (rw (verified, e, found, ended) refl)
        ]
      ]
