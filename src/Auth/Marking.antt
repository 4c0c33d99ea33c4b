-- ===== src/Auth/Marking.antt =====
-- auth/auth.service.ts: the marks of ended sessions in the cache.
use mathplat.Common.{
  String, ◌≡◌, true, Option, none, some, List, [], ◌∷◌, arith, inl, inr, subst, ◌==◌, eq_iff,
  eq_refl, Bool-cases, Option-cases,
}
use mathplat.Common.StrSet
use mathplat.Common.Triple.{Triple, Triple-weaken, bind}
use mathplat.Prisma.{IsStore}
use mathplat.Accounts.{Session, Accounts}
use mathplat.Auth.{
  Env, try_cache, invalid_key, info_key, mark_session_invalid_in_cache, mark_all,
  clear_cached_user_info, refresh_token_expires_in_seconds,
}
use mathplat.Auth.Caching.{IsCaching, keys_apart}
use mathplat.Auth.Closed.{CacheUp, Marked}
use mathplat.Auth.Rotation.{IsFault}

module _ {T : Type 0 → Type 0} {K E : Type 0} (env : Env T K E) (store : IsStore env.prisma)
    (caching : IsCaching env.cache) where
  open store use {rows}
  open caching use {view}

  -- Of the sessions and of the cache.
  abbrev pub Both : (List Session → Type 0) → (Option K → Type 0) → Accounts T K E → Type 0
  Both Q C w = Q (rows w.sessions) × C w.cache_service

  abbrev pub Up : Option K → Type 0
  Up c = CacheUp env store caching c

  abbrev pub Said : String → Option K → Type 0
  Said id c = Marked env store caching id c

  module _ (Q : List Session → Type 0) where
    pub mark-Marked :
        (id : String)
        → Triple
            (Both Q Up)
            (mark_session_invalid_in_cache env id)
            (λ _. Both Q (Said id))
            (λ e _. IsFault e)
    unfolding mark_session_invalid_in_cache try_cache
    mark-Marked id = record {
      at = λ w (h, up). elim (Option-cases w.cache_service) [
        | inl e ↦ rw e (h, tt)
        | inr (k, e) ↦
            let (still, views) =
              caching.set_lem (invalid_key id) "true" refresh_token_expires_in_seconds k
                (subst Up e up) in
            rw e (h, (still, ground (arith, views (invalid_key id), eq_refl (invalid_key id))))
      ];
    }

    -- What is marked stays so when another session is.
    mark-keeps :
        (id other : String)
        → Triple
            (Both Q (Said id))
            (mark_session_invalid_in_cache env other)
            (λ _. Both Q (Said id))
            (λ e _. IsFault e)
    unfolding mark_session_invalid_in_cache try_cache
    mark-keeps id other = record {
      at = λ w (h, said). elim (Option-cases w.cache_service) [
        | inl e ↦ rw e (h, tt)
        | inr (k, e) ↦
            let (up, marked) = subst (Said id) e said in
            let (still, views) =
              caching.set_lem (invalid_key other) "true" refresh_token_expires_in_seconds k up in
            rw e (h, (still, ground (arith, views (invalid_key id), marked)))
      ];
    }

    mark_all-keeps :
        (id : String) (ids : List String)
        → Triple (Both Q (Said id)) (mark_all env ids) (λ _. Both Q (Said id)) (λ e _. IsFault e)
    unfolding mark_all
    mark_all-keeps id [] = record { at = λ w h. h }
    mark_all-keeps id (other ∷ ids) = bind (mark-keeps id other) λ _. mark_all-keeps id ids

    Said-Up : (id : String) (c : Option K) → Said id c → Up c
    Said-Up id none h = tt
    Said-Up id (some k) (up, marked) = up

    -- Each session of the list gets its mark.
    pub mark_all-Marked :
        (id : String) (ids : List String)
        → StrSet.has id ids ≡ true
        → Triple (Both Q Up) (mark_all env ids) (λ _. Both Q (Said id)) (λ e _. IsFault e)
    unfolding mark_all StrSet.has
    mark_all-Marked id [] there = cc
    mark_all-Marked id (other ∷ ids) there = elim (Bool-cases (other == id)) [
      | inl e ↦
          let it : other ≡ id = (eq_iff other id).0 e in
          bind (mark-Marked other) λ _.
            Triple-weaken (λ w h. subst (λ i. Both Q (Said i) w) it h) (λ _ w h. h) (λ _ w h. h)
              (mark_all-keeps id ids)
      | inr e ↦ bind (mark-Marked other) λ _.
          Triple-weaken (λ w (h, said). (h, Said-Up other w.cache_service said)) (λ _ w h. h)
            (λ _ w h. h) (mark_all-Marked id ids (ground arith))
    ]

    -- The user's own key is another one.
    pub clear-keeps :
        (id user : String)
        → Triple
            (Both Q (Said id))
            (clear_cached_user_info env user)
            (λ _. Both Q (Said id))
            (λ e _. IsFault e)
    unfolding clear_cached_user_info try_cache
    clear-keeps id user = record {
      at = λ w (h, said). elim (Option-cases w.cache_service) [
        | inl e ↦ rw e (h, tt)
        | inr (k, e) ↦
            let (up, marked) = subst (Said id) e said in
            let (still, views) = caching.del_lem (info_key user) k up in
            rw e (h, (still, ground (arith, views (invalid_key id), keys_apart user id, marked)))
      ];
    }
