-- ===== src/Auth/Rotation.antt =====
-- auth/auth.service.ts: what `refreshTokens` makes of a token that the JWT library accepts.
use mathplat.Common.{
  ℕ, String, ◌≡◌, ◌≢◌, ◌⊎◌, refl, Bool, true, false, ◌&&◌, some, List, [], ◌∷◌, map, arith, is_none,
  inl, inr, sym, eq_refl, Option-cases,
}
use mathplat.Common.Outcome.{ok, fault, Exception, Action}
use mathplat.Common.Triple.{Triple, Triple-weaken, Triple-fact, Triple-both, bind}
use mathplat.Prisma.{IsStore, change}
use mathplat.Crypto.{Claims, IsCrypto, IsJwt}
use mathplat.Utils.{sha256_hash}
use mathplat.Utils.Comparison.{constant_time_compare-cases}
use mathplat.Accounts.{Session, Accounts, has_id, find_sessions, update_session, update_sessions}
use mathplat.Auth.{
  Env, try_cache, mark_session_invalid_in_cache, mark_all, end_sessions, end_found, is_active,
  ended, hashed, random_string, sign, generate_tokens, store_hash, end_session,
  invalidate_all_user_sessions, refresh_token_expires_in_seconds,
}
use mathplat.Auth.Sessions.{compare_hash}
use mathplat.Auth.Rows.{active}
use mathplat.Auth.Bounded.{invalidate_all-Triple}

-- An error that is no answer of the service, such as one of the database.
abbrev pub IsFault : Exception → Type 0
IsFault e = (text : String) × (e ≡ fault text)

-- A session that a query by its identifier finds.
abbrev pub is_live : String → Session → Bool
is_live id s = has_id id s && is_none s.deleted_at

module _ {T : Type 0 → Type 0} {K E : Type 0} (env : Env T K E) (store : IsStore env.prisma)
    (crypto : IsCrypto env.crypto) (jwt : IsJwt env.jwt) where
  open store use {rows}

  -- The sessions and the time are those at the start.
  abbrev pub Same : Accounts T K E → Accounts T K E → Type 0
  Same start w = (w.sessions ≡ start.sessions) × (w.now ≡ start.now)

  Same-random :
      (start : Accounts T K E) (n : ℕ)
      → Triple (Same start) (random_string env n) (λ _. Same start) (λ _ _. ⊥)
  unfolding random_string
  Same-random start n = record { at = λ w h. h }

  -- Signing leaves the state, and the token is that of the time at the start.
  sign-Triple :
      (start : Accounts T K E) (c : Claims) (ttl : ℕ)
      → Triple
          (Same start)
          (sign env c ttl)
          (λ token w. (env.jwt.sign c ttl start.now ≡ ok token) × Same start w)
          (λ _ _. ⊥)
  unfolding sign
  sign-Triple start c ttl = record {
    at = λ w (s, n). let (token, e) = jwt.sign_ok c ttl w.now in rw e (rw (← n) e, (s, n));
  }

  -- The refresh token is signed for the user and the session.
  abbrev pub IsSigned : (user session : String) → ℕ → String → Type 0
  IsSigned user session now token =
      (id : String) × (env.jwt.sign
          (record { user_id = user; session_id = session; token_id = some id })
          refresh_token_expires_in_seconds now
        ≡ ok token)

  pub generate_tokens-Triple :
      (start : Accounts T K E) (user session : String)
      → Triple
          (Same start)
          (generate_tokens env user session)
          (λ t w. IsSigned user session start.now t.refresh_token × Same start w)
          (λ _ _. ⊥)
  unfolding generate_tokens
  generate_tokens-Triple start user session = bind (Same-random start 32) λ id.
      bind (sign-Triple start _ _) λ access.
        Triple-fact
          λ _. bind (sign-Triple start _ _) λ refresh. record { at = λ w (e, h). ((id, e), h) }

  -- What the rotation leaves: the digest of the new token in place of the old.
  abbrev pub Stored : Accounts T K E → String → String → Accounts T K E → Type 0
  Stored start id digest w =
      rows w.sessions ≡ change (has_id id) (hashed digest start.now) (rows start.sessions)

  pub store_hash-Triple :
      (start : Accounts T K E) (id digest : String)
      → Triple
          (Same start)
          (store_hash env id digest)
          (λ _. Stored start id digest)
          (λ e _. IsFault e)
  unfolding store_hash update_session
  store_hash-Triple start id digest = record {
    at = λ w (s, n). elim (store.update_lem (has_id id) (hashed digest w.now) w.sessions) [
      | inl (r, found, done, changed) ↦ rw done (rw changed (rw (s, n) refl))
      | inr (e, failed, same) ↦ rw failed (e, refl)
    ];
  }

  pub end_session-Triple :
      (start : Accounts T K E) (id : String)
      → Triple
          (Same start)
          (end_session env id)
          (λ _ w. rows w.sessions ≡ change (has_id id) (ended start.now) (rows start.sessions))
          (λ e _. IsFault e)
  unfolding end_session update_session
  end_session-Triple start id = record {
    at = λ w (s, n). elim (store.update_lem (has_id id) (ended w.now) w.sessions) [
      | inl (r, found, done, changed) ↦ rw done (rw changed (rw (s, n) refl))
      | inr (e, failed, same) ↦ rw failed (e, refl)
    ];
  }

  -- What the comparison of the digests says.
  pub compare_hash-Triple :
      (start : Accounts T K E) (token : String) (s : Session)
      → Triple
          (Same start)
          (compare_hash env token s)
          (λ b w.
            ((b ≡ true) × (s.refresh_token ≡ env.crypto.sha256 token)
              ⊎ (b ≡ false) × (s.refresh_token ≢ env.crypto.sha256 token))
            × Same start w)
          (λ e _. IsFault e)
  unfolding sha256_hash
  compare_hash-Triple start token s = record {
    at = λ w h.
        elim (constant_time_compare-cases env.crypto crypto (env.crypto.sha256 token)
          s.refresh_token) [
            | inl (e, same) ↦ rw e (inl (refl, sym same), h)
            | inr (inl (e, other)) ↦ rw e (inr (refl, λ same. other (sym same)), h)
            | inr (inr (x, e)) ↦ rw e (x, refl)
          ];
  }

  -- What a method throws is no answer of the service.
  Faults : {A : Type 0} → Action (Accounts T K E) A → Type 0
  Faults m = Triple (λ _. Unit) m (λ _ _. Unit) (λ e _. IsFault e)

  Faults-mark : (id : String) → Faults (mark_session_invalid_in_cache env id)
  unfolding Faults mark_session_invalid_in_cache try_cache
  Faults-mark id = record {
    at = λ w _. elim (Option-cases w.cache_service) [ inl e ↦ rw e tt | inr (k, e) ↦ rw e tt ];
  }

  Faults-mark_all : (ids : List String) → Faults (mark_all env ids)
  unfolding Faults mark_all
  Faults-mark_all [] = record { at = λ w _. tt }
  Faults-mark_all (id ∷ ids) = bind (Faults-mark id) λ _. Faults-mark_all ids

  Faults-find : (p : Session → Bool) → Faults (find_sessions env.prisma p)
  unfolding Faults find_sessions
  Faults-find p = record {
    at = λ w _. elim (store.find_many_lem p w.sessions) [
      | inl e ↦ rw e tt
      | inr (x, e) ↦ rw e (x, refl)
    ];
  }

  Faults-end : (p : Session → Bool) → Faults (end_sessions env p)
  unfolding Faults end_sessions update_sessions
  Faults-end p = record {
    at = λ w _. elim (store.update_many_lem p (ended w.now) w.sessions) [
      | inl (n, e, _) ↦ rw e tt
      | inr (x, e, _) ↦ rw e (x, refl)
    ];
  }

  Faults-end_found : (user : String) (found : List Session) → Faults (end_found env user found)
  unfolding Faults
  Faults-end_found user [] = record { at = λ w _. tt }
  Faults-end_found user (s ∷ ss) =
      bind (Faults-end (is_active user))
        λ _. bind (Faults-mark_all (map (λ s. s.id) (s ∷ ss))) λ _. record { at = λ w _. tt }

  Faults-invalidate_all : (user : String) → Faults (invalidate_all_user_sessions env user)
  unfolding Faults invalidate_all_user_sessions
  Faults-invalidate_all user =
      bind (Faults-find (is_active user)) λ found. Faults-end_found user found

  -- No session of the user is left, or the database has thrown.
  pub ends_all-Triple :
      (user : String)
      → Triple
          (λ _. Unit)
          (invalidate_all_user_sessions env user)
          (λ _ w. active user (rows w.sessions) ≡ 0)
          (λ e _. IsFault e)
  unfolding Faults
  ends_all-Triple user = record {
    at = λ w _.
        let b : String → ℕ = λ u. active u (rows w.sessions) in
        (Triple-weaken {P' = λ v. v ≡ w} (λ v e. rw e ((λ u. omega arith), tt))
            (λ _ v (h, _). ground (arith, h user, eq_refl user)) (λ e v (_, x). x)
            (Triple-both (invalidate_all-Triple env store b user) (Faults-invalidate_all user))).at
          w refl;
  }
