-- ===== src/Auth/Frame.antt =====
-- What the methods of auth/auth.service.ts that only cache, sign and read leave of the sessions, and
-- what each query makes of them.
use mathplat.Common.{
  ℕ, String, ◌≡◌, refl, Bool, List, [], ◌∷◌, inl, inr, Option-cases, keep, sym, subst,
}
use mathplat.Common.Outcome.{Outcome, Action}
use mathplat.Common.Triple.{Triple, Keeps, Keeps-pure, Keeps-step, bind}
use mathplat.Prisma.{IsStore, change, change_all}
use mathplat.Crypto.{Claims}
use mathplat.Accounts.{update_session, update_sessions, Session, Accounts, has_id, find_sessions}
use mathplat.Auth.{
  Env, UserInfo, try_cache, mark_session_invalid_in_cache, is_session_invalidated_in_cache,
  cache_user_info, get_cached_user_info, clear_cached_user_info, mark_all, random_string, sign,
  generate_tokens, end_session, end_sessions, store_hash, ended, hashed,
}

module _ {T : Type 0 → Type 0} {K E : Type 0} (env : Env T K E) (store : IsStore env.prisma) where
  open store use {rows}

  -- What holds of the rows of the sessions.
  abbrev pub Of : (List Session → Type 0) → Accounts T K E → Type 0
  Of P w = P (rows w.sessions)

  module _ (P : List Session → Type 0) where
    -- A method that leaves the table as it is.
    pub Keeps-same :
        {A : Type 0} {m : Action (Accounts T K E) A}
        → ((w : Accounts T K E) → (m w).1.sessions ≡ w.sessions)
        → Keeps (Of P) m
    Keeps-same {m} same = Keeps-step (λ w h. subst (λ t. P (rows t)) (sym (same w)) h)

    pub Keeps-try_cache :
        {A : Type 0} (d : A) (call : K → Outcome A × K) → Keeps (Of P) (try_cache d call)
    unfolding try_cache
    Keeps-try_cache d call =
        Keeps-same
          (λ w. elim (Option-cases w.cache_service) [ inl e ↦ rw e refl | inr (k, e) ↦ rw e refl ])

    -- The service swallows what the cache throws.
    pub cache_user_info-Triple :
        (user : String) (info : UserInfo)
        → Triple (Of P) (cache_user_info env user info) (λ _. Of P) (λ _ _. ⊥)
    unfolding cache_user_info try_cache
    cache_user_info-Triple user info = record {
      at = λ w h. elim (Option-cases w.cache_service) [ inl e ↦ rw e h | inr (k, e) ↦ rw e h ];
    }

    pub Keeps-mark_session : (id : String) → Keeps (Of P) (mark_session_invalid_in_cache env id)
    unfolding mark_session_invalid_in_cache
    Keeps-mark_session id = Keeps-try_cache tt _

    pub Keeps-is_invalidated : (id : String) → Keeps (Of P) (is_session_invalidated_in_cache env id)
    unfolding is_session_invalidated_in_cache
    Keeps-is_invalidated id = Keeps-try_cache _ _

    pub Keeps-cache_user_info :
        (user : String) (info : UserInfo) → Keeps (Of P) (cache_user_info env user info)
    unfolding cache_user_info
    Keeps-cache_user_info user info = Keeps-try_cache tt _

    pub Keeps-get_cached : (user : String) → Keeps (Of P) (get_cached_user_info env user)
    unfolding get_cached_user_info
    Keeps-get_cached user = Keeps-try_cache _ _

    pub Keeps-clear_cached : (user : String) → Keeps (Of P) (clear_cached_user_info env user)
    unfolding clear_cached_user_info
    Keeps-clear_cached user = Keeps-try_cache tt _

    pub Keeps-mark_all : (ids : List String) → Keeps (Of P) (mark_all env ids)
    unfolding mark_all
    Keeps-mark_all [] = Keeps-pure tt
    Keeps-mark_all (id ∷ ids) = bind (Keeps-mark_session id) λ _. Keeps-mark_all ids

    Keeps-random_string : (n : ℕ) → Keeps (Of P) (random_string env n)
    unfolding random_string
    Keeps-random_string n = Keeps-same (λ w. refl)

    Keeps-sign : (c : Claims) (ttl : ℕ) → Keeps (Of P) (sign env c ttl)
    unfolding sign
    Keeps-sign c ttl = Keeps-same (λ w. refl)

    pub Keeps-generate_tokens :
        (user session : String) → Keeps (Of P) (generate_tokens env user session)
    unfolding generate_tokens
    Keeps-generate_tokens user session =
        bind (Keeps-random_string 32)
          λ id. bind (Keeps-sign _ _) λ a. bind (Keeps-sign _ _) λ r. Keeps-pure _

    -- A query that changes sessions, where each change keeps `P`.
    pub Keeps-end_session :
        (id : String)
        → ((now : ℕ) (ss : List Session) → P ss → P (change (has_id id) (ended now) ss))
        → Keeps (Of P) (end_session env id)
    unfolding end_session update_session
    Keeps-end_session id keeps = Keeps-step λ w h.
        elim (store.update_lem (has_id id) (ended w.now) w.sessions) [
          | inl (s, found, done, changed) ↦ subst P (sym changed) (keeps w.now (rows w.sessions) h)
          | inr (e, failed, same) ↦ subst P (sym same) h
        ]

    pub Keeps-store_hash :
        (id digest : String)
        → ((now : ℕ) (ss : List Session) → P ss → P (change (has_id id) (hashed digest now) ss))
        → Keeps (Of P) (store_hash env id digest)
    unfolding store_hash update_session
    Keeps-store_hash id digest keeps = Keeps-step λ w h.
        elim (store.update_lem (has_id id) (hashed digest w.now) w.sessions) [
          | inl (s, found, done, changed) ↦ subst P (sym changed) (keeps w.now (rows w.sessions) h)
          | inr (e, failed, same) ↦ subst P (sym same) h
        ]

    -- Ending many: what they leave, or an error that leaves all as it was.
    pub end_sessions-Triple :
        (Q : List Session → Type 0) (p : Session → Bool)
        → ((now : ℕ) (ss : List Session) → P ss → Q (change_all p (ended now) ss))
        → Triple (Of P) (end_sessions env p) (λ _. Of Q) (λ _. Of P)
    unfolding end_sessions update_sessions
    end_sessions-Triple Q p makes = record {
      at = λ w h. elim (store.update_many_lem p (ended w.now) w.sessions) [
        | inl (n, done, changed) ↦ rw done (subst Q (sym changed) (makes w.now (rows w.sessions) h))
        | inr (e, failed, same) ↦ rw failed (subst P (sym same) h)
      ];
    }

    -- A list of sessions is what passes now.
    pub find_sessions-Triple :
        (p : Session → Bool)
        → Triple
            (Of P)
            (find_sessions env.prisma p)
            (λ found. Of (λ ss. P ss × (found ≡ keep p ss)))
            (λ _. Of P)
    unfolding find_sessions
    find_sessions-Triple p = record {
      at = λ w h. elim (store.find_many_lem p w.sessions) [
        | inl e ↦ rw e (h, refl)
        | inr (x, e) ↦ rw e h
      ];
    }
