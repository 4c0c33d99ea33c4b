-- ===== src/Auth/Issued.antt =====
-- auth/auth.service.ts: the tokens that a new session comes with.
use mathplat.Common.{
  ℕ, ◌+◌, ◌/◌, ◌≤◌, ◌<◌, String, ◌≡◌, ◌⊎◌, refl, Bool, some, none, List, [], ◌∷◌, ◌++◌, arith,
  first, inl, inr, sym, subst, eq_refl,
}
use mathplat.Common.Outcome.{Outcome, ok, throws, fault}
use mathplat.Common.Triple.{Triple, Post, Triple-weaken, Triple-fact, bind}
use mathplat.Prisma.{IsStore}
use mathplat.Prisma.Tables.{first-append_none}
use mathplat.Crypto.{Claims, IsCrypto, IsJwt}
use mathplat.Utils.{sha256_hash}
use mathplat.Accounts.{User, Session, Accounts, has_id, create_session_row}
use mathplat.Auth.{Env, new_session, refresh_token_expires_in_seconds}
use mathplat.Auth.Sessions.{TokenRefresh, refresh_tokens}
use mathplat.Auth.Login.{
  AuthResponse, random_uuid, create_own_session, issue, create_authenticated_session, info_for,
}
use mathplat.Auth.Frame.{cache_user_info-Triple}
use mathplat.Auth.Rotation.{IsFault, Same, IsSigned, generate_tokens-Triple}
use mathplat.Auth.Refreshed.{Rotated, Refused, refresh_tokens-answer}
use mathplat.Auth.Replay.{first-is_live}

module _ {T : Type 0 → Type 0} {K E : Type 0} (env : Env T K E) (store : IsStore env.prisma)
    (crypto : IsCrypto env.crypto) (jwt : IsJwt env.jwt) where
  open store use {rows}

  module _ (u : User) (is_new : Bool) (start : Accounts T K E) where
    -- The identifier of the new session.
    abbrev pub new_id : String
    new_id = (env.crypto.random_uuid start.entropy).0

    -- Its row, with the digest of its refresh token.
    abbrev pub new_row : String → Session
    new_row token =
        new_session u.id (env.crypto.sha256 token)
          (env.add_seconds refresh_token_expires_in_seconds start.now) start.now new_id

    At : Accounts T K E → Type 0
    At w = Same env store crypto jwt start w

    abbrev Grown : String → List Session → Type 0
    Grown token ss = ss ≡ rows start.sessions ++ new_row token ∷ []

    uuid-Triple :
        Triple
          (λ w. w ≡ start)
          (random_uuid env)
          (λ id w. (id ≡ new_id) × Same env store crypto jwt start w)
          (λ e _. IsFault e)
    uuid-Triple = record { at = λ w e. rw e (refl, (refl, refl)) }

    row-Triple :
        (token : String)
        → Triple
            (Same env store crypto jwt start)
            (create_own_session env u.id new_id (sha256_hash env.crypto token))
            (λ _ w. Grown token (rows w.sessions))
            (λ e _. IsFault e)
    unfolding create_session_row sha256_hash
    row-Triple token = record {
      at = λ w (s, n).
          elim (store.create_lem
            (λ _.
              new_session u.id (env.crypto.sha256 token)
                (env.add_seconds refresh_token_expires_in_seconds w.now) w.now new_id)
            w.sessions) [
              | inl (id, done, grown) ↦ rw done (rw grown (rw (s, n) refl))
              | inr (x, failed, same) ↦ rw failed (x, refl)
            ];
    }

    -- Signed for the session, and stored with its digest.
    abbrev Made : AuthResponse → Accounts T K E → Type 0
    Made r w =
        IsSigned env store crypto jwt u.id new_id start.now r.refresh_token
        × Grown r.refresh_token (rows w.sessions)

    issue-Triple :
        Triple (Same env store crypto jwt start) (issue env u is_new new_id) Made (λ e _. IsFault e)
    issue-Triple =
        bind
          (Triple-weaken (λ w h. h) (λ t w h. h) (λ e w h. elim h [ ])
            (generate_tokens-Triple env store crypto jwt start u.id new_id))
          λ t. Triple-fact λ signed. bind (row-Triple t.refresh_token) λ s.
            bind
              (Triple-weaken (λ w h. h) (λ t w h. h) (λ e w h. elim h [ ])
                (cache_user_info-Triple env store (Grown t.refresh_token) u.id (info_for u new_id)))
              λ _. record { at = λ w h. (signed, h) }

    create-Triple :
        Triple (λ w. w ≡ start) (create_authenticated_session env u is_new) Made (λ e _. IsFault e)
    unfolding create_authenticated_session
    create-Triple = bind {f = issue env u is_new} uuid-Triple λ id. Triple-fact λ it.
        subst
          (λ i.
            Triple (Same env store crypto jwt start) (issue env u is_new i) Made (λ e _. IsFault e))
          (sym it) issue-Triple

    -- The exchange goes through, or the database or Node throws.
    abbrev pub GoesThrough : Outcome TokenRefresh → Type 0
    GoesThrough r =
        ((pair : TokenRefresh) × (r ≡ ok pair)) ⊎ ((e : String) × (r ≡ throws (fault e)))

    goes_through :
        (token : String) (c : Claims) (v : Accounts T K E) (r : Outcome TokenRefresh)
        (w : Accounts T K E)
        → v.now ≤ env.add_seconds refresh_token_expires_in_seconds start.now
        → Post
            (Rotated env store crypto jwt token c (new_row token) v)
            (Refused env store crypto jwt token c (new_row token) v)
            r
            w
        → GoesThrough r
    goes_through token c v (ok pair) w early h = inl (pair, refl)
    goes_through token c v (throws e) w early (inl (_, invalid, _)) = cc
    goes_through token c v (throws e) w early (inr (inl (_, _, late, _))) =
        let absurd : ⊥ = omega (arith, late, early) in elim absurd [ ]
    goes_through token c v (throws e) w early (inr (inr (inl (_, _, _, other, _)))) =
        elim (other refl) [ ]
    goes_through token c v (throws e) w early (inr (inr (inr (x, it)))) = inr (x, rw it refl)

    refreshes :
        (later : ℕ) (r : Outcome AuthResponse) (w : Accounts T K E)
        → first (has_id new_id) (rows start.sessions) ≡ none
        → later ≤ env.add_seconds refresh_token_expires_in_seconds start.now
        → later / 1000 < start.now / 1000 + refresh_token_expires_in_seconds
        → Post
            (λ r w.
              IsSigned env store crypto jwt u.id new_id start.now r.refresh_token
              × Grown r.refresh_token (rows w.sessions))
            (λ e _. IsFault e)
            r
            w
        → Post
            (λ r w. GoesThrough (refresh_tokens env r.refresh_token (record w { now = later })).0)
            (λ e _. IsFault e)
            r
            w
    refreshes later (throws e) w fresh early alive h = h
    refreshes later (ok r) w fresh early alive ((id, signed), grown) =
        let c : Claims = record { user_id = u.id; session_id = new_id; token_id = some id } in
        let v : Accounts T K E = record w { now = later } in
        let verified : env.jwt.verify r.refresh_token later ≡ ok c =
          jwt.verify_signed c refresh_token_expires_in_seconds r.refresh_token start.now later
            signed alive in
        let row : Session = new_row r.refresh_token in
        let found : first (has_id new_id) (rows w.sessions) ≡ some row =
          rw
            (
              grown,
              first-append_none (has_id new_id) (rows start.sessions) (row ∷ []) fresh,
              eq_refl new_id,
            )
            refl in
        goes_through r.refresh_token c v _ _ early (
          refresh_tokens-answer env store crypto jwt r.refresh_token c row v verified
            (first-is_live new_id (rows w.sessions) row found refl))

    -- The refresh token of a new session works. If the identifier drawn for the session is no
    -- session's yet, and the session is made, and no other call comes in between, then at any later
    -- time within the life of the session, and in whole seconds within the life of the token, the
    -- refresh token is exchanged for a new pair, or the database or Node throws.
    pub create_authenticated_session-refreshes :
        (later : ℕ)
        → first (has_id new_id) (rows start.sessions) ≡ none
        → later ≤ env.add_seconds refresh_token_expires_in_seconds start.now
        → later / 1000 < start.now / 1000 + refresh_token_expires_in_seconds
        → Post
            (λ r w. GoesThrough (refresh_tokens env r.refresh_token (record w { now = later })).0)
            (λ e _. IsFault e)
            (create_authenticated_session env u is_new start).0
            (create_authenticated_session env u is_new start).1
    create_authenticated_session-refreshes later fresh early alive =
        refreshes later _ _ fresh early alive (create-Triple.at start refl)
