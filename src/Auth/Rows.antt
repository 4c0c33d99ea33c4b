-- ===== src/Auth/Rows.antt =====
-- How many sessions of a user are active, and what the queries of auth/auth.service.ts do to their
-- number.
use mathplat.Common.{
  ℕ, ◌+◌, ◌≤◌, String, ◌≡◌, refl, Bool, true, if◌then◌else◌, List, [], ◌∷◌, ◌++◌, map, arith, ◌==◌,
  eq_refl, keep, length, All, length-append, keep-append, inl, inr, Bool-cases, sym, subst,
}
use mathplat.Common.StrSet
use mathplat.Prisma.{change, change_all}
use mathplat.Accounts.{Session}
use mathplat.Auth.{is_active, ended, hashed, new_session}

-- The sessions that count for a user.
abbrev pub active : String → List Session → ℕ
active user ss = length (keep (is_active user) ss)

-- No more of each user than this.
abbrev pub Within : (String → ℕ) → List Session → Type 0
Within b ss = (user : String) → active user ss ≤ b user

module _ (p : Session → Bool) (f : Session → Session) where
  -- The change makes no session active.
  abbrev Calms : Type 0
  Calms = (user : String) (s : Session) → is_active user (f s) ≡ true → is_active user s ≡ true

  pub active-change :
      (user : String) (ss : List Session) → Calms → active user (change p f ss) ≤ active user ss
  active-change user [] calms = omega arith
  active-change user (s ∷ ss) calms = grind (arith, calms user s, active-change user ss calms)

  pub active-change_all :
      (user : String) (ss : List Session) → Calms → active user (change_all p f ss) ≤ active user ss
  active-change_all user [] calms = omega arith
  active-change_all user (s ∷ ss) calms =
      grind (arith, calms user s, active-change_all user ss calms)

pub ended-Calms :
    (now : ℕ) (user : String) (s : Session)
    → is_active user (ended now s) ≡ true
    → is_active user s ≡ true
ended-Calms now user s e = ground arith

pub hashed-Calms :
    (digest : String) (now : ℕ) (user : String) (s : Session)
    → is_active user (hashed digest now s) ≡ true
    → is_active user s ≡ true
hashed-Calms digest now user s e = e

-- Every active session of the user passes the test.
abbrev Covers : String → (Session → Bool) → List Session → Type 0
Covers user p ss = All (λ s. is_active user s ≡ true → p s ≡ true) ss

-- Ending them leaves none.
active-ended :
    (user : String) (p : Session → Bool) (now : ℕ) (ss : List Session)
    → Covers user p ss
    → active user (change_all p (ended now) ss) ≡ 0
active-ended user p now [] c = refl
active-ended user p now (s ∷ ss) (c, cs) = elim (Bool-cases (p s)) [
  | inl e ↦ rw e (ground (arith, active-ended user p now ss cs))
  | inr e ↦ ground (arith, c, active-ended user p now ss cs)
]

abbrev ids : List Session → List String
ids ss = map (λ s. s.id) ss

Covers-more :
    (user id : String) (l : List String) (ss : List Session)
    → Covers user (λ s. StrSet.has s.id l) ss
    → Covers user (λ s. StrSet.has s.id (id ∷ l)) ss
unfolding StrSet.has
Covers-more user id l [] c = tt
Covers-more user id l (s ∷ ss) (c, cs) = (λ e. ground (arith, c e), Covers-more user id l ss cs)

Covers-ids :
    (user : String) (ss : List Session)
    → Covers user (λ s. StrSet.has s.id (ids (keep (is_active user) ss))) ss
unfolding StrSet.has
Covers-ids user [] = tt
Covers-ids user (s ∷ ss) =
    let In : List String → Type 0 = λ l. Covers user (λ r. StrSet.has r.id l) (s ∷ ss) in
    let rest : List String = ids (keep (is_active user) ss) in
    let covers : Covers user (λ r. StrSet.has r.id rest) ss = Covers-ids user ss in
    elim (Bool-cases (is_active user s)) [
      | inl e ↦
          let it : ids (keep (is_active user) (s ∷ ss)) ≡ s.id ∷ rest = rw e refl in
          subst In (sym it)
            ((λ _. ground (arith, eq_refl s.id)), Covers-more user s.id rest ss covers)
      | inr e ↦
          let it : ids (keep (is_active user) (s ∷ ss)) ≡ rest = rw e refl in
          subst In (sym it) ((λ h. cc), covers)
    ]

-- Ending the sessions of the list that a query for the active ones gives.
pub active-listed :
    (user : String) (now : ℕ) (ss : List Session)
    → active user (
        change_all
          (λ s. StrSet.has s.id (map (λ a. a.id) (keep (is_active user) ss)))
          (ended now)
          ss)
      ≡ 0
active-listed user now ss = active-ended user _ now ss (Covers-ids user ss)

Covers-self : (user : String) (ss : List Session) → Covers user (is_active user) ss
Covers-self user [] = tt
Covers-self user (s ∷ ss) = (λ e. e, Covers-self user ss)

-- Ending the active ones.
pub active-none :
    (user : String) (now : ℕ) (ss : List Session)
    → active user (change_all (is_active user) (ended now) ss) ≡ 0
active-none user now ss = active-ended user (is_active user) now ss (Covers-self user ss)

-- A new session counts for its user.
pub active-new :
    (owner user digest id : String) (expires_at now : ℕ) (ss : List Session)
    → active user (ss ++ new_session owner digest expires_at now id ∷ [])
      ≡ active user ss + (if owner == user then 1 else 0)
active-new owner user digest id expires_at now ss =
    let new : Session = new_session owner digest expires_at now id in
    ground (
      arith,
      keep-append (is_active user) ss (new ∷ []),
      length-append (keep (is_active user) ss) (keep (is_active user) (new ∷ [])),
    )
