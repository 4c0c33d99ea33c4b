-- ===== src/Auth/Refreshed.antt =====
-- auth/auth.service.ts: every answer of `refreshTokens`, and what becomes of a token that comes twice.
use mathplat.Common.{
  ◌≤◌, ◌<◌, String, ◌≡◌, ◌≢◌, ◌⊎◌, refl, true, false, not, ◌||◌, none, some, arith, ltb, first,
  is_some, inl, inr,
}
use mathplat.Common.Outcome.{ok, Exception}
use mathplat.Common.Triple.{Triple, Post, Triple-if, Triple-weaken, Triple-fact, bind}
use mathplat.Prisma.{IsStore, change}
use mathplat.Prisma.Tables.{first-holds}
use mathplat.Crypto.{Claims, IsCrypto, IsJwt}
use mathplat.Utils.{sha256_hash}
use mathplat.Accounts.{Session, Accounts, has_id, find_session}
use mathplat.Auth.{Env, ended}
use mathplat.Auth.Sessions.{
  TokenRefresh, no_longer_valid, has_expired, reuse_detected, rotate, stolen, unless_expired,
  refresh_with, refresh_tokens,
}
use mathplat.Auth.Rows.{active}
use mathplat.Auth.Rotation.{
  IsFault, is_live, Same, IsSigned, Stored, generate_tokens-Triple, store_hash-Triple,
  end_session-Triple, compare_hash-Triple, ends_all-Triple,
}

module _ {T : Type 0 → Type 0} {K E : Type 0} (env : Env T K E) (store : IsStore env.prisma)
    (crypto : IsCrypto env.crypto) (jwt : IsJwt env.jwt) where
  open store use {rows}

  module _ (token : String) (c : Claims) (s : Session) (start : Accounts T K E) where
    -- A rotation: the session is valid, within its time, and holds the digest of the token; after
    -- it, the digest of the new one.
    abbrev pub Rotated : TokenRefresh → Accounts T K E → Type 0
    Rotated pair w =
        (s.is_valid ≡ true)
        × (start.now ≤ s.expires_at)
        × (s.refresh_token ≡ env.crypto.sha256 token)
        × IsSigned env store crypto jwt c.user_id s.id start.now pair.refresh_token
        × Stored env store crypto jwt start s.id (env.crypto.sha256 pair.refresh_token) w

    -- A refusal, with what it leaves.
    abbrev pub Refused : Exception → Accounts T K E → Type 0
    Refused e w =
        (e ≡ no_longer_valid) × (s.is_valid ≡ false) × (w.sessions ≡ start.sessions)
        ⊎ (e ≡ has_expired)
          × (s.is_valid ≡ true)
          × (s.expires_at < start.now)
          × (rows w.sessions ≡ change (has_id s.id) (ended start.now) (rows start.sessions))
        ⊎ (e ≡ reuse_detected)
          × (s.is_valid ≡ true)
          × (start.now ≤ s.expires_at)
          × (s.refresh_token ≢ env.crypto.sha256 token)
          × (active c.user_id (rows w.sessions) ≡ 0)
        ⊎ IsFault e

    At : Accounts T K E → Type 0
    At w = Same env store crypto jwt start w

    rotate-Triple :
        s.is_valid ≡ true
        → start.now ≤ s.expires_at
        → s.refresh_token ≡ env.crypto.sha256 token
        → Triple (Same env store crypto jwt start) (rotate env c s) Rotated Refused
    unfolding sha256_hash
    rotate-Triple valid early same =
        bind
          (Triple-weaken (λ w h. h) (λ t w h. h) (λ e w h. elim h [ ])
            (generate_tokens-Triple env store crypto jwt start c.user_id s.id))
          λ t. Triple-fact λ signed.
            bind
              (Triple-weaken (λ w h. h) (λ t w h. h) (λ e w h. inr (inr (inr h)))
                (store_hash-Triple env store crypto jwt start s.id
                  (env.crypto.sha256 t.refresh_token)))
              λ r. record { at = λ w h. (valid, early, same, signed, h) }

    stolen-Triple :
        s.is_valid ≡ true
        → start.now ≤ s.expires_at
        → s.refresh_token ≢ env.crypto.sha256 token
        → Triple (Same env store crypto jwt start) (stolen env c) Rotated Refused
    stolen-Triple valid early other =
        bind
          (Triple-weaken (λ w h. tt) (λ t w h. h) (λ e w h. inr (inr (inr h)))
            (ends_all-Triple env store crypto jwt c.user_id))
          λ n. record { at = λ w h. inr (inr (inl (refl, valid, early, other, h))) }

    unless_expired-Triple :
        s.is_valid ≡ true
        → Triple
            (Same env store crypto jwt start)
            (unless_expired env token c s start.now)
            Rotated
            Refused
    unless_expired-Triple valid =
        Triple-if (ltb s.expires_at start.now)
          (λ late.
            bind
              (Triple-weaken (λ w h. h) (λ t w h. h) (λ e w h. inr (inr (inr h)))
                (end_session-Triple env store crypto jwt start s.id))
              λ r. record { at = λ w h. inr (inl (refl, valid, ground arith, h)) })
          λ early.
            bind
              (Triple-weaken (λ w h. h) (λ t w h. h) (λ e w h. inr (inr (inr h)))
                (compare_hash-Triple env store crypto jwt start token s))
              λ b. Triple-fact λ told. elim told [
                | inl (e, same) ↦ rw e (rotate-Triple valid (ground arith) same)
                | inr (e, other) ↦ rw e (stolen-Triple valid (ground arith) other)
              ]

    refresh_with-Triple :
        s.deleted_at ≡ none
        → Triple (λ w. w ≡ start) (refresh_with env token c (some s)) Rotated Refused
    refresh_with-Triple alive =
        Triple-if (not s.is_valid || is_some s.deleted_at)
          (λ e. record { at = λ w here. inl (refl, ground (arith, alive), ground arith) })
          λ e. record {
            at = λ w here. rw here ((unless_expired-Triple (ground arith)).at start (refl, refl));
          }

    -- Where the JWT library accepts the token, and the session that it names is not deleted, one of
    -- five things holds. The session is valid, within its time, and holds the digest of the token:
    -- then new tokens are signed for it and the digest of the new refresh token takes the place of
    -- the old one. It is not valid: 401, and nothing changes. It is past its time: 401, and it ends.
    -- It holds another digest: 401, and the user of the token has no active session any more. Or
    -- the database or Node has thrown.
    pub refresh_tokens-answer :
        env.jwt.verify token start.now ≡ ok c
        → first (is_live c.session_id) (rows start.sessions) ≡ some s
        → Post Rotated Refused (refresh_tokens env token start).0 (refresh_tokens env token start).1
    unfolding refresh_tokens find_session
    refresh_tokens-answer verified found =
        let passes : is_live c.session_id s ≡ true =
          first-holds (is_live c.session_id) (rows start.sessions) s found in
        let alive : s.deleted_at ≡ none = ground arith in
        elim (store.find_first_lem (is_live c.session_id) start.sessions) [
          | inl e ↦ rw (verified, e, found) ((refresh_with-Triple alive).at start refl)
          | inr (x, e) ↦ rw (verified, e) (inr (inr (inr (x, refl))))
        ]
