-- ===== src/Auth/Room.antt =====
-- Room for one more session of a user, and the calls of the users and sessions in
-- auth/auth.service.ts, under bounds on the sessions in use.
use mathplat.Common.{
  ℕ, ◌-◌, ◌≤◌, ◌<◌, String, ◌≡◌, refl, Bool, if◌then◌else◌, List, arith, inl, inr, subst, sym, ◌==◌,
  eq_iff, Bool-cases,
}
use mathplat.Common.Triple.{Triple, Keeps}
use mathplat.Prisma.{IsStore}
use mathplat.Accounts.{User, Session, find_user, create_user, update_user, create_session_row}
use mathplat.Auth.{Env, new_session, create_session, refresh_token_expires_in_seconds}
use mathplat.Auth.Login.{create_own_session}
use mathplat.Auth.Rows.{active, Within, active-new}
use mathplat.Auth.Frame.{Keeps-same}
use mathplat.Auth.Bounded.{one_more, but_none, Holds}

-- Room for one more session of this user.
abbrev pub room : String → ℕ → String → ℕ
room user n v = if user == v then n - 1 else n

pub but_none-room :
    (user : String) (n : ℕ) (ss : List Session)
    → Within (but_none user (λ _. n)) ss
    → Within (room user n) ss
but_none-room user n ss h = λ v. ground (arith, h v)

-- Too few to be ended.
pub few-room :
    (user : String) (n : ℕ) (ss : List Session)
    → active user ss < n
    → Within (λ _. n) ss
    → Within (room user n) ss
few-room user n ss few h = λ v. elim (Bool-cases (user == v)) [
  | inl e ↦
      let it : user ≡ v = (eq_iff user v).0 e in
      rw e (subst (λ u. active u ss ≤ n - 1) it (omega (arith, few)))
  | inr e ↦ rw e (h v)
]

pub one_more-room :
    (user : String) (n : ℕ) (ss : List Session)
    → 0 < n
    → Within (one_more user (room user n)) ss
    → Within (λ _. n) ss
one_more-room user n ss some_device h = λ v. ground (arith, h v)

module _ {T : Type 0 → Type 0} {K E : Type 0} (env : Env T K E) (store : IsStore env.prisma) where
  open store use {rows}

  module _ (b : String → ℕ) where
    -- A row of the sessions that is made for a user.
    pub create_row-Triple :
        (owner digest : String) (expires_at created : ℕ) (id_of : String → String)
        → Triple
            (Holds env store b)
            (create_session_row env.prisma
              (λ id. new_session owner digest expires_at created (id_of id)))
            (λ _. Holds env store (one_more owner b))
            (λ _. Holds env store b)
    unfolding create_session_row
    create_row-Triple owner digest expires_at created id_of = record {
      at = λ w h.
          let make : String → Session =
            λ id. new_session owner digest expires_at created (id_of id) in
          elim (store.create_lem make w.sessions) [
            | inl (id, done, grown) ↦ rw done (λ v.
                rw
                  (grown, active-new owner v digest (id_of id) expires_at created (rows w.sessions))
                  (ground (arith, h v)))
            | inr (e, failed, same) ↦ rw failed (subst (Within b) (sym same) h)
          ];
    }

    pub create_session-Triple :
        (user : String)
        → Triple
            (Holds env store b)
            (create_session env user)
            (λ _. Holds env store (one_more user b))
            (λ _. Holds env store b)
    unfolding create_session
    create_session-Triple user = record {
      at = λ w.
          (create_row-Triple user "" (env.add_seconds refresh_token_expires_in_seconds w.now) w.now
              (λ id. id)).at
            w;
    }

    pub create_own-Triple :
        (user id digest : String)
        → Triple
            (Holds env store b)
            (create_own_session env user id digest)
            (λ _. Holds env store (one_more user b))
            (λ _. Holds env store b)
    create_own-Triple user id digest = record {
      at = λ w.
          (create_row-Triple user digest (env.add_seconds refresh_token_expires_in_seconds w.now)
              w.now (λ _. id)).at
            w;
    }

    pub Keeps-find_user : (p : User → Bool) → Keeps (Holds env store b) (find_user env.prisma p)
    unfolding find_user
    Keeps-find_user p = Keeps-same env store (Within b) (λ _. refl)

    pub Keeps-create_user :
        (make : String → User) → Keeps (Holds env store b) (create_user env.prisma make)
    unfolding create_user
    Keeps-create_user make = Keeps-same env store (Within b) (λ _. refl)

    pub Keeps-update_user :
        (p : User → Bool) (f : User → User) → Keeps (Holds env store b) (update_user env.prisma p f)
    unfolding update_user
    Keeps-update_user p f = Keeps-same env store (Within b) (λ _. refl)
