-- ===== src/Progress/History.antt =====
-- progress/progress.service.ts over any history of marked attempts.
use mathplat.Common.{
  ℕ, ◌+◌, String, ◌≡◌, Bool, true, ◌&&◌, Option, List, [], ◌∷◌, arith, ◌==◌, eq_iff, inl, inr,
  eq_refl, Bool-cases, subst,
}
use mathplat.Redis.{Redis}
use mathplat.Prisma.{Prisma, IsStore}
use mathplat.World.{Progress, World}
use mathplat.Progress.{one_if, update_progress}
use mathplat.Progress.Effect.{Counts, is_ok, row_of, update_progress-Tallied}

Counts-sums :
    (o : Option Progress) (n a b m c d : ℕ)
    → Counts o (n + a + b) (m + c + d)
    → Counts o (n + (a + b)) (m + (c + d))
Counts-sums o n a b m c d h =
    let left : n + a + b ≡ n + (a + b) = omega arith in
    let right : m + c + d ≡ m + (c + d) = omega arith in
    subst (λ k. Counts o k (m + (c + d))) left (subst (Counts o (n + a + b)) right h)

-- One marked attempt.
pub record Mark : Type 0 where
  pub user : String
  pub topic : String
  pub correct : Bool

module _ {T : Type 0 → Type 0} {R : Type 0} (prisma : Prisma T) (redis : Redis R) where
  abbrev pub marks : List Mark → World T R → World T R
  marks [] w = w
  marks (k ∷ ks) w = marks ks (update_progress prisma redis k.user k.topic k.correct w).1

  -- How many of the attempts of one user at one topic went through, and how many of these are right.
  abbrev pub went_through : String → String → List Mark → World T R → ℕ
  went_through u t [] w = 0
  went_through u t (k ∷ ks) w =
      let done = update_progress prisma redis k.user k.topic k.correct w in
      let rest = went_through u t ks done.1 in
      one_if (k.user == u && k.topic == t && is_ok done.0) + rest

  abbrev pub were_right : String → String → List Mark → World T R → ℕ
  were_right u t [] w = 0
  were_right u t (k ∷ ks) w =
      let done = update_progress prisma redis k.user k.topic k.correct w in
      let rest = were_right u t ks done.1 in
      one_if (k.user == u && k.topic == t && k.correct && is_ok done.0) + rest

  module _ (store : IsStore prisma) where
    open store use {rows}

    abbrev row : World T R → String → String → Option Progress
    row w u t = row_of prisma redis store w u t

    and_true : (b : Bool) → (b && true) ≡ b
    and_true b = ground arith

    update_progress-Counts :
        (k : Mark) (u t : String) (n m : String → String → ℕ) (w : World T R)
        → ((v s : String) → Counts (row w v s) (n v s) (m v s))
        → (let done = update_progress prisma redis k.user k.topic k.correct w in
            Counts
              (row done.1 u t)
              (n u t + one_if (k.user == u && k.topic == t && is_ok done.0))
              (m u t + one_if (k.user == u && k.topic == t && k.correct && is_ok done.0)))
    update_progress-Counts k u t n m w all =
        elim (update_progress-Tallied prisma redis store k.user k.topic k.correct (n k.user k.topic)
          (m k.user k.topic) w (all k.user k.topic)) [
            | inl (through, (mine, others)) ↦ elim (Bool-cases (k.user == u && k.topic == t)) [
              | inl same ↦
                  let is_u : k.user ≡ u = ground (arith, eq_iff k.user u) in
                  let is_t : k.topic ≡ t = ground (arith, eq_iff k.topic t) in
                  rw (← is_u, ← is_t, eq_refl k.user, eq_refl k.topic, through, and_true k.correct)
                    (mine (n k.user k.topic) (m k.user k.topic) (all k.user k.topic))
              | inr apart ↦ rw (apart, others u t apart) (ground (arith, all u t))
            ]
            | inr (stopped, kept) ↦ rw (stopped, kept) (ground (arith, all u t))
          ]

    -- With a database that keeps its laws, and rows that count some attempts each and are not deleted:
    -- after any calls for any users, the row of a user and a topic counts as many attempts more as
    -- calls for them have gone through, and as many right answers more as these had, and its
    -- mastery is the quotient; a call that throws has counted nothing.
    pub marks-Counts :
        (ks : List Mark) (u t : String) (n m : String → String → ℕ) (w : World T R)
        → ((v s : String) → Counts (row w v s) (n v s) (m v s))
        → Counts
            (row (marks ks w) u t)
            (n u t + went_through u t ks w)
            (m u t + were_right u t ks w)
    marks-Counts [] u t n m w all = ground (arith, all u t)
    marks-Counts (k ∷ ks) u t n m w all =
        let done = update_progress prisma redis k.user k.topic k.correct w in
        Counts-sums (row (marks ks done.1) u t) (n u t)
          (one_if (k.user == u && k.topic == t && is_ok done.0)) (went_through u t ks done.1)
          (m u t) (one_if (k.user == u && k.topic == t && k.correct && is_ok done.0))
          (were_right u t ks done.1)
          (marks-Counts ks u t (λ v s. n v s + one_if (k.user == v && k.topic == s && is_ok done.0))
            (λ v s. m v s + one_if (k.user == v && k.topic == s && k.correct && is_ok done.0))
            done.1 (λ v s. update_progress-Counts k v s n m w all))
