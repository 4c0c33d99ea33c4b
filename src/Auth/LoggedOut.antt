-- ===== src/Auth/LoggedOut.antt =====
-- auth/auth.service.ts: after `logout`, what has ended stays out.
use mathplat.Common.{
  ℕ, String, ◌≡◌, refl, Bool, true, false, Option, some, List, [], ◌∷◌, first, keep, map, inl, inr,
  subst, sym,
}
use mathplat.Common.Outcome.{Outcome, ok, throws}
use mathplat.Common.StrSet
use mathplat.Common.Triple.{Triple, Post, Triple-weaken, Triple-fact, bind}
use mathplat.Prisma.{IsStore}
use mathplat.Crypto.{Claims}
use mathplat.Accounts.{Session, Accounts, has_id, update_session, update_sessions, find_sessions}
use mathplat.Auth.{
  Env, is_active, ended, end_session, end_sessions, end_found, invalidate_single_session,
  invalidate_all_user_sessions,
}
use mathplat.Auth.Sessions.{LogoutReply, end_devices, logout, validate_session, refresh_tokens}
use mathplat.Auth.Caching.{IsCaching}
use mathplat.Auth.Closed.{
  Invalid, Unknown, Denied, CacheUp, Closed, validate_session-Closed, refresh_tokens-Closed,
}
use mathplat.Auth.Closing.{IsKeyed, Owns, Invalid-ended, Invalid-all_ended, Owns-first, has-first}
use mathplat.Auth.Marking.{Both, Up, Said, mark-Marked, mark_all-Marked, clear-keeps}
use mathplat.Auth.Rotation.{IsFault}

module _ {T : Type 0 → Type 0} {K E : Type 0} (env : Env T K E) (store : IsStore env.prisma)
    (caching : IsCaching env.cache) where
  open store use {rows}

  abbrev With : (List Session → Type 0) → (Option K → Type 0) → Accounts T K E → Type 0
  With Q C w = Both env store caching Q C w

  abbrev Works : Option K → Type 0
  Works c = Up env store caching c

  abbrev Noted : String → Option K → Type 0
  Noted id c = Said env store caching id c

  end_one-Triple :
      (id : String)
      → Triple
          (With IsKeyed Works)
          (end_session env id)
          (λ _. With (Invalid id) Works)
          (λ e _. IsFault e)
  unfolding end_session update_session
  end_one-Triple id = record {
    at = λ w (keyed, up). elim (store.update_lem (has_id id) (ended w.now) w.sessions) [
      | inl (s, found, done, changed) ↦
          rw done
            (subst (Invalid id) (sym changed) (Invalid-ended id w.now (rows w.sessions) keyed), up)
      | inr (x, failed, same) ↦ rw failed (x, refl)
    ];
  }

  end_own-Triple :
      (user id : String)
      → Triple
          (With (Owns user id) Works)
          (end_sessions env (is_active user))
          (λ _. With (Invalid id) Works)
          (λ e _. IsFault e)
  unfolding end_sessions update_sessions
  end_own-Triple user id = record {
    at = λ w (own, up). elim (store.update_many_lem (is_active user) (ended w.now) w.sessions) [
      | inl (n, done, changed) ↦ rw done (
        subst (Invalid id) (sym changed) (Invalid-all_ended user id w.now (rows w.sessions) own),
        up,
      )
      | inr (x, failed, same) ↦ rw failed (x, refl)
    ];
  }

  -- A session of the list that is found.
  abbrev Listed : String → String → List Session → Type 0
  Listed user id ss =
      Owns user id ss × (StrSet.has id (map (λ a. a.id) (keep (is_active user) ss)) ≡ true)

  find-Triple :
      (user id : String)
      → Triple
          (With (Listed user id) Works)
          (find_sessions env.prisma (is_active user))
          (λ found w. (StrSet.has id (map (λ a. a.id) found) ≡ true) × With (Owns user id) Works w)
          (λ e _. IsFault e)
  unfolding find_sessions
  find-Triple user id = record {
    at = λ w ((own, there), up). elim (store.find_many_lem (is_active user) w.sessions) [
      | inl e ↦ rw e (there, (own, up))
      | inr (x, e) ↦ rw e (x, refl)
    ];
  }

  end_found-Triple :
      (user id : String) (found : List Session)
      → StrSet.has id (map (λ a. a.id) found) ≡ true
      → Triple
          (With (Owns user id) Works)
          (end_found env user found)
          (λ _. With (Invalid id) (Noted id))
          (λ e _. IsFault e)
  unfolding StrSet.has
  end_found-Triple user id [] there = cc
  end_found-Triple user id (s ∷ ss) there = bind (end_own-Triple user id) λ _.
      bind (mark_all-Marked env store caching (Invalid id) id (map (λ a. a.id) (s ∷ ss)) there)
        λ _. record { at = λ w h. h }

  -- What a logout ends: all the user's active sessions, or the one of the call.
  abbrev pub Ends : Bool → String → String → Session → Type 0
  Ends true user session s = is_active user s ≡ true
  Ends false user session s = s.id ≡ session

  -- The row of an identifier that no other row has.
  abbrev pub IsRow : Session → List Session → Type 0
  IsRow s ss = IsKeyed ss × (first (has_id s.id) ss ≡ some s)

  end_devices-Triple :
      (user session : String) (all_devices : Bool) (s : Session)
      → Ends all_devices user session s
      → Triple
          (With (IsRow s) Works)
          (end_devices env user session all_devices)
          (λ _. With (Invalid s.id) (Noted s.id))
          (λ e _. IsFault e)
  unfolding invalidate_all_user_sessions invalidate_single_session
  end_devices-Triple user session true s active =
      Triple-weaken
        (λ w ((keyed, found), up). (
          (
            Owns-first user s.id (rows w.sessions) s keyed found active,
            has-first user s.id (rows w.sessions) s found active,
          ),
          up,
        ))
        (λ _ w h. h) (λ _ w h. h)
        (bind (find-Triple user s.id)
          λ found. Triple-fact λ there. end_found-Triple user s.id found there)
  end_devices-Triple user session false s own =
      subst
        (λ i.
          Triple (With (IsRow s) Works) (end_devices env user i false)
            (λ _. With (Invalid s.id) (Noted s.id)) (λ e _. IsFault e))
        own
        (Triple-weaken (λ w ((keyed, found), up). (keyed, up)) (λ _ w h. h) (λ _ w h. h)
          (bind (bind (end_one-Triple s.id) λ _. mark-Marked env store caching (Invalid s.id) s.id)
            λ _. record { at = λ w h. h }))

  logout-Triple :
      (user session : String) (all_devices : Bool) (s : Session)
      → Ends all_devices user session s
      → Triple
          (With (IsRow s) Works)
          (logout env user session all_devices)
          (λ _. Closed env store caching s.id)
          (λ e _. IsFault e)
  unfolding logout
  logout-Triple user session all_devices s ends =
      bind (end_devices-Triple user session all_devices s ends) λ n.
        bind (clear-keeps env store caching (Invalid s.id) s.id user) λ _. record { at = λ w h. h }

  -- What a closed session meets at a later time.
  abbrev pub StaysOut : (user token : String) → String → ℕ → Accounts T K E → Type 0
  StaysOut user token id later w =
      let v : Accounts T K E = record w { now = later } in
      Unknown (validate_session env user id v).0 × Denied (refresh_tokens env token v).0

  denied :
      (user token : String) (c : Claims) (s : Session) (later : ℕ)
      → env.jwt.verify token later ≡ ok c
      → c.session_id ≡ s.id
      → (r : Outcome LogoutReply) (w : Accounts T K E)
      → Post (λ _. Closed env store caching s.id) (λ e _. IsFault e) r w
      → Post (λ _. StaysOut user token s.id later) (λ e _. IsFault e) r w
  denied user token c s later verified names (ok reply) w (invalid, marked) = (
    validate_session-Closed env store caching user s.id (record w { now = later })
        (invalid, marked),
    refresh_tokens-Closed env store caching token c (record w { now = later }) verified
        (subst (λ i. Invalid i (rows w.sessions)) (sym names) invalid),
  )
  denied user token c s later verified names (throws e) w h = h

  -- Logging out ends what it says, for all ways in. Take a session that the call ends: the one of
  -- the call, or, with all devices, any active one of the user; identifiers are unique, and the
  -- cache, if the service has one, works. Then, if the logout does not throw an error of the
  -- database, at any later time the validation of the session finds nothing, whatever the user, and
  -- the exchange of any refresh token for it is refused with 401, or the database throws.
  pub logout-StaysOut :
      (user session : String) (all_devices : Bool) (s : Session) (start : Accounts T K E)
      → Ends all_devices user session s
      → IsRow s (rows start.sessions)
      → CacheUp env store caching start.cache_service
      → (someone token : String) (c : Claims) (later : ℕ) → env.jwt.verify token later ≡ ok c
      → c.session_id ≡ s.id
      → Post
          (λ _. StaysOut someone token s.id later)
          (λ e _. IsFault e)
          (logout env user session all_devices start).0
          (logout env user session all_devices start).1
  logout-StaysOut user session all_devices s start ends row up someone token c later verified
        names =
      denied someone token c s later verified names _ _
        ((logout-Triple user session all_devices s ends).at start (row, up))
