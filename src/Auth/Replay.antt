-- ===== src/Auth/Replay.antt =====
-- auth/auth.service.ts: a refresh token that comes a second time, as one does that was stolen.
use mathplat.Common.{
  ℕ, ◌≤◌, String, ◌≡◌, ◌≢◌, ◌⊎◌, refl, true, some, none, List, [], ◌∷◌, arith, first, inl, inr, sym,
  subst, eq_iff,
}
use mathplat.Common.Outcome.{Outcome, ok, throws, fault}
use mathplat.Common.Triple.{Post}
use mathplat.Prisma.{IsStore, change}
use mathplat.Prisma.Tables.{first-change, first-holds}
use mathplat.Crypto.{Claims, IsCrypto, IsJwt}
use mathplat.Accounts.{Session, Accounts, has_id}
use mathplat.Auth.{Env, hashed}
use mathplat.Auth.Sessions.{TokenRefresh, reuse_detected, refresh_tokens}
use mathplat.Auth.Rows.{active}
use mathplat.Auth.Rotation.{is_live}
use mathplat.Auth.Refreshed.{Rotated, Refused, refresh_tokens-answer}

-- The row of an identifier, if it is not deleted, is what a query for live rows finds.
pub first-is_live :
    (id : String) (ss : List Session) (s : Session)
    → first (has_id id) ss ≡ some s
    → s.deleted_at ≡ none
    → first (is_live id) ss ≡ some s
first-is_live id [] s found alive = cc
first-is_live id (r ∷ ss) s found alive = ground (arith, first-is_live id ss s)

module _ {T : Type 0 → Type 0} {K E : Type 0} (env : Env T K E) (store : IsStore env.prisma)
    (crypto : IsCrypto env.crypto) (jwt : IsJwt env.jwt) where
  open store use {rows}

  module _ (token : String) (c : Claims) (s : Session) (start : Accounts T K E)
      (found : first (has_id c.session_id) (rows start.sessions) ≡ some s)
      (alive : s.deleted_at ≡ none) where
    -- The session of the token after its rotation.
    rotated_row :
        (digest : String) (ss : List Session)
        → ss ≡ change (has_id s.id) (hashed digest start.now) (rows start.sessions)
        → first (is_live c.session_id) ss ≡ some (hashed digest start.now s)
    rotated_row digest ss changed =
        let passes : has_id c.session_id s ≡ true =
          first-holds (has_id c.session_id) (rows start.sessions) s found in
        let own : s.id ≡ c.session_id = (eq_iff s.id c.session_id).0 passes in
        let f : Session → Session = hashed digest start.now in
        let there : first (has_id c.session_id)
              (change (has_id c.session_id) f (rows start.sessions))
            ≡ some (f s) =
          first-change (has_id c.session_id) f s (rows start.sessions) (λ r h. h) found in
        first-is_live c.session_id ss (f s)
          (rw changed (
            subst
              (λ i.
                first (has_id c.session_id) (change (has_id i) f (rows start.sessions))
                ≡ some (f s))
              (sym own) there))
          alive

    -- What the second time brings, if the digest is another one.
    abbrev pub Detected : Outcome TokenRefresh → Accounts T K E → Type 0
    Detected r w =
        (r ≡ throws reuse_detected) × (active c.user_id (rows w.sessions) ≡ 0)
        ⊎ ((e : String) × (r ≡ throws (fault e)))

    detected :
        (digest : String) (v : Accounts T K E) (r : Outcome TokenRefresh) (w : Accounts T K E)
        → digest ≢ env.crypto.sha256 token
        → s.is_valid ≡ true
        → v.now ≤ s.expires_at
        → Post
            (Rotated env store crypto jwt token c (hashed digest start.now s) v)
            (Refused env store crypto jwt token c (hashed digest start.now s) v)
            r
            w
        → Detected r w
    detected digest v (ok pair) w other valid early (_, _, same, _, _) = elim (other same) [ ]
    detected digest v (throws e) w other valid early (inl (_, invalid, _)) = cc
    detected digest v (throws e) w other valid early (inr (inl (_, _, late, _))) =
        let absurd : ⊥ = omega arith in elim absurd [ ]
    detected digest v (throws e) w other valid early (inr (inr (inl (it, _, _, _, none_left)))) =
        inl (rw it refl, none_left)
    detected digest v (throws e) w other valid early (inr (inr (inr (x, it)))) = inr (x, rw it refl)

    -- A refresh token that has been exchanged for a new pair is exchanged no second time. If it
    -- comes again while its session lasts, and the digests of the two refresh tokens differ, then
    -- the answer is 401 with the reuse detected and no active session of the user is left, or the
    -- database or Node has thrown.
    pub refresh_tokens-replayed :
        (pair : TokenRefresh) (again : ℕ)
        → env.jwt.verify token start.now ≡ ok c
        → (refresh_tokens env token start).0 ≡ ok pair
        → env.jwt.verify token again ≡ ok c
        → again ≤ s.expires_at
        → env.crypto.sha256 pair.refresh_token ≢ env.crypto.sha256 token
        → (let second =
              refresh_tokens env token
                (record (refresh_tokens env token start).1 { now = again }) in
            Detected second.0 second.1)
    refresh_tokens-replayed pair again first_time exchanged second_time early other =
        let v : Accounts T K E = (refresh_tokens env token start).1 in
        let (valid, _, _, _, changed) =
          subst
            (λ r.
              Post (Rotated env store crypto jwt token c s start)
                (Refused env store crypto jwt token c s start) r v)
            exchanged
            (refresh_tokens-answer env store crypto jwt token c s start first_time
              (first-is_live c.session_id (rows start.sessions) s found alive)) in
        let later : Accounts T K E = record v { now = again } in
        let digest : String = env.crypto.sha256 pair.refresh_token in
        detected digest later _ _ other valid early (
          refresh_tokens-answer env store crypto jwt token c (hashed digest start.now s) later
            second_time (rotated_row digest (rows v.sessions) changed))
