-- ===== src/Auth/Bounded.antt =====
-- How many active sessions the methods of auth/auth.service.ts leave a user.
use mathplat.Common.{
  ℕ, ◌+◌, ◌≤◌, String, ◌≡◌, refl, Bool, if◌then◌else◌, List, [], ◌∷◌, arith, length, keep, map, inl,
  inr, subst, ◌==◌, eq_iff, Bool-cases,
}
use mathplat.Common.Triple.{Triple, Keeps, Keeps-pure, Triple-weaken, bind}
use mathplat.Prisma.{IsStore, change, change_all}
use mathplat.Accounts.{Session, Accounts, has_id}
use mathplat.Auth.{
  Env, is_active, ended, hashed, end_sessions, invalidate_single_session,
  invalidate_all_user_sessions, end_found,
}
use mathplat.Auth.Rows.{
  active, Within, active-change, active-change_all, ended-Calms, hashed-Calms, active-none,
}
use mathplat.Auth.Frame.{
  Of, Keeps-mark_session, Keeps-mark_all, Keeps-end_session, end_sessions-Triple,
  find_sessions-Triple,
}

-- One more for this user, or none of this user.
abbrev pub one_more : String → (String → ℕ) → String → ℕ
one_more user b v = b v + (if user == v then 1 else 0)

abbrev pub but_none : String → (String → ℕ) → String → ℕ
but_none user b v = if user == v then 0 else b v

pub Within-ended :
    (b : String → ℕ) (p : Session → Bool) (now : ℕ) (ss : List Session)
    → Within b ss
    → Within b (change p (ended now) ss)
Within-ended b p now ss h =
    λ v. omega (arith, h v, active-change p (ended now) v ss (ended-Calms now))

pub Within-hashed :
    (b : String → ℕ) (p : Session → Bool) (digest : String) (now : ℕ) (ss : List Session)
    → Within b ss
    → Within b (change p (hashed digest now) ss)
Within-hashed b p digest now ss h =
    λ v. omega (arith, h v, active-change p (hashed digest now) v ss (hashed-Calms digest now))

Within-all_ended :
    (b : String → ℕ) (p : Session → Bool) (now : ℕ) (ss : List Session)
    → Within b ss
    → Within b (change_all p (ended now) ss)
Within-all_ended b p now ss h =
    λ v. omega (arith, h v, active-change_all p (ended now) v ss (ended-Calms now))

-- Where the change leaves none of the user.
pub but_none-Within :
    (b : String → ℕ) (user : String) (p : Session → Bool) (now : ℕ) (ss : List Session)
    → active user (change_all p (ended now) ss) ≡ 0
    → Within b ss
    → Within (but_none user b) (change_all p (ended now) ss)
but_none-Within b user p now ss zero h = λ v. elim (Bool-cases (user == v)) [
  | inl e ↦
      let it : user ≡ v = (eq_iff user v).0 e in
      rw e (subst (λ u. active u (change_all p (ended now) ss) ≤ 0) it (omega (arith, zero)))
  | inr e ↦ rw e (Within-all_ended b p now ss h v)
]

pub but_none-fewer :
    (b : String → ℕ) (user : String) (ss : List Session) → Within (but_none user b) ss → Within b ss
but_none-fewer b user ss h = λ v. ground (arith, h v)

module _ {T : Type 0 → Type 0} {K E : Type 0} (env : Env T K E) (store : IsStore env.prisma) where
  open store use {rows}

  abbrev pub Holds : (String → ℕ) → Accounts T K E → Type 0
  Holds b = Of env store (Within b)

  pub Keeps-invalidate_single :
      (b : String → ℕ) (id : String) → Keeps (Holds b) (invalidate_single_session env id)
  unfolding invalidate_single_session
  Keeps-invalidate_single b id =
      bind (Keeps-end_session env store (Within b) id (λ now ss. Within-ended b (has_id id) now ss))
        λ s. Keeps-mark_session env store (Within b) id

  -- All the active sessions of a user end.
  pub end_active-Triple :
      (b : String → ℕ) (user : String)
      → Triple
          (Holds b)
          (end_sessions env (is_active user))
          (λ _. Holds (but_none user b))
          (λ _. Holds b)
  end_active-Triple b user =
      end_sessions-Triple env store (Within b) (Within (but_none user b)) (is_active user)
        (λ now ss h. but_none-Within b user (is_active user) now ss (active-none user now ss) h)

  end_found-Triple :
      (b : String → ℕ) (user : String) (found : List Session)
      → Triple
          (Of env store (λ ss. Within b ss × (found ≡ keep (is_active user) ss)))
          (end_found env user found)
          (λ _. Holds (but_none user b))
          (λ _. Holds b)
  end_found-Triple b user [] = record {
    at = λ w (h, e) v.
        let none_found : active user (rows w.sessions) ≡ 0 = rw (← e) refl in
        elim (Bool-cases (user == v)) [
          | inl same ↦
              let it : user ≡ v = (eq_iff user v).0 same in
              rw same (subst (λ u. active u (rows w.sessions) ≤ 0) it (omega (arith, none_found)))
          | inr other ↦ rw other (h v)
        ];
  }
  end_found-Triple b user (s ∷ ss) =
      let rest : Triple (Holds (but_none user b)) _ (λ _. Holds (but_none user b)) (λ _. Holds b) =
        Triple-weaken (λ w h. h) (λ _ w h. h) (λ _ w h. but_none-fewer b user (rows w.sessions) h)
          (bind (Keeps-mark_all env store (Within (but_none user b)) (map (λ s. s.id) (s ∷ ss)))
            λ _. Keeps-pure {P = Holds (but_none user b)} (length (s ∷ ss))) in
      bind (Triple-weaken (λ w h. h.0) (λ _ w h. h) (λ _ w h. h) (end_active-Triple b user))
        λ _. rest

  -- The end of all the user's sessions leaves none active.
  pub invalidate_all-Triple :
      (b : String → ℕ) (user : String)
      → Triple
          (Holds b)
          (invalidate_all_user_sessions env user)
          (λ _. Holds (but_none user b))
          (λ _. Holds b)
  unfolding invalidate_all_user_sessions
  invalidate_all-Triple b user =
      bind (find_sessions-Triple env store (Within b) (is_active user))
        λ found. end_found-Triple b user found
