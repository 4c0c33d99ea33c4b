-- ===== src/Attempt/Counted.antt =====
-- What a submission of attempt/attempt.service.ts records, and that the statistics of the problem are
-- those of its recorded attempts.
use mathplat.Common.{
  ℕ, ◌+◌, String, Bool, ◌≡◌, refl, some, List, [], ◌∷◌, ◌++◌, keep, length, first, inl, inr,
}
use mathplat.Common.Triple.{Triple, bind}
use mathplat.Redis.{Redis, Json}
use mathplat.Prisma.{Prisma, IsStore}
use mathplat.Prisma.Tables.{first-change}
use mathplat.World.{Problem, Attempt, UserStats, Rate, World}
use mathplat.Problem.Rows.{by_id, counted, change_by_id}
use mathplat.Problem.{update_stats, forget_problem}
use mathplat.Attempt.{
  SubmitAttempt, new_attempt, made_by, made_at, right_at, count_by_user_and_problem, create_attempt,
  get_problem_stats, update_problem_stats,
}

module _ {T : Type 0 → Type 0} {R : Type 0} (prisma : Prisma T) (redis : Redis R)
    (json : Json Problem) (store : IsStore prisma) where
  open store use {rows}

  -- The statistics of a problem are those of some attempts.
  abbrev pub IsCounted : String → List Attempt → T Problem → Type 0
  IsCounted problem done ps =
      (p : Problem) × (first (by_id prisma problem) (rows ps) ≡ some p)
      × (p.solve_count ≡ length (keep (made_at problem) done))
      × (p.correct_rate ≡ record {
        over = length (keep (right_at problem) done);
        under = length (keep (made_at problem) done);
      })

  count-Recorded :
      (problem : String) (done : List Attempt)
      → Triple
          (λ w. rows w.attempts ≡ done)
          (get_problem_stats {R = R} prisma problem)
          (λ c w.
            (rows w.attempts ≡ done)
            × (c ≡ (length (keep (made_at problem) done), length (keep (right_at problem) done))))
          (λ _ _. Unit)
  unfolding get_problem_stats
  count-Recorded problem done = record {
    at = λ w h. elim (store.count_lem (made_at problem) w.attempts) [
      | inr (e, failed) ↦ rw failed tt
      | inl total ↦ elim (store.count_lem (right_at problem) w.attempts) [
        | inr (e, failed) ↦ rw (total, failed) tt
        | inl right ↦ rw (total, right) (h, rw h refl)
      ]
    ];
  }

  abbrev pub Recorded : String → List Attempt → World T R → Type 0
  Recorded problem done w = (rows w.attempts ≡ done) × IsCounted problem done w.problems

  change-Recorded :
      (problem : String) (done : List Attempt)
      → Triple
          (λ w. rows w.attempts ≡ done)
          (change_by_id {R = R} prisma problem (
            counted (length (keep (made_at problem) done)) (record {
              over = length (keep (right_at problem) done);
              under = length (keep (made_at problem) done);
            })))
          (λ _ w. Recorded problem done w)
          (λ _ _. Unit)
  unfolding change_by_id counted
  change-Recorded problem done =
      let total = length (keep (made_at problem) done) in
      let rate : Rate = record {
        over = length (keep (right_at problem) done);
        under = length (keep (made_at problem) done);
      } in
      record {
        at = λ w h.
            elim (store.update_lem (by_id prisma problem) (counted total rate w.now) w.problems) [
              | inr (e, failed, same) ↦ rw failed tt
              | inl (p, found, done_, changed) ↦ rw done_ (
                h,
                (
                  counted total rate w.now p,
                  rw changed (
                      first-change (by_id prisma problem) (counted total rate w.now) p
                        (rows w.problems) (λ q g. g) found),
                  refl,
                  refl,
                ),
              )
            ];
      }

  forget-Recorded :
      (problem : String) (done : List Attempt)
      → Triple
          (Recorded problem done)
          (forget_problem {T = T} prisma redis json problem)
          (λ _ w. Recorded problem done w)
          (λ _ _. Unit)
  forget-Recorded problem done = record { at = λ w h. h }

  update_stats-Recorded :
      (problem : String) (done : List Attempt) (c : ℕ × ℕ)
      → Triple
          (λ w.
            (rows w.attempts ≡ done)
            × (c ≡ (length (keep (made_at problem) done), length (keep (right_at problem) done))))
          (λ w.
            update_stats {T = T} prisma redis json problem c.0
              (record { over = c.1; under = c.0 })
              w)
          (λ _ w. Recorded problem done w)
          (λ _ _. Unit)
  unfolding update_stats
  update_stats-Recorded problem done c = record {
    at = λ w (h, e).
        rw e ((bind (change-Recorded problem done) λ p. forget-Recorded problem done).at w h);
  }

  pub update_problem_stats-Recorded :
      (stats : Json UserStats) (midnight : ℕ → ℕ) (lower : String → String) (problem : String)
      (done : List Attempt)
      → Triple
          (λ w. rows w.attempts ≡ done)
          (update_problem_stats {T = T} prisma redis json stats midnight lower problem)
          (λ _ w. Recorded problem done w)
          (λ _ _. Unit)
  unfolding update_problem_stats
  update_problem_stats-Recorded stats midnight lower problem done =
      bind (count-Recorded problem done) λ c. update_stats-Recorded problem done c

  -- How a submission numbers and marks an attempt.
  pub count-Made :
      (user problem : String) (made : List Attempt)
      → Triple
          (λ w. rows w.attempts ≡ made)
          (count_by_user_and_problem {R = R} prisma user problem)
          (λ n w. (rows w.attempts ≡ made) × (n ≡ length (keep (made_by user problem) made)))
          (λ _ _. Unit)
  unfolding count_by_user_and_problem
  count-Made user problem made = record {
    at = λ w h. elim (store.count_lem (made_by user problem) w.attempts) [
      | inr (e, failed) ↦ rw failed tt
      | inl done ↦ rw done (h, rw h refl)
    ];
  }

  -- The new attempt, and its place in the table.
  abbrev pub IsNew : String → Bool → List Attempt → SubmitAttempt → Attempt → Type 0
  IsNew user right made dto a =
      (a.user_id ≡ user)
      × (a.problem_id ≡ dto.problem_id)
      × (a.submitted_answer ≡ dto.submitted_answer)
      × (a.is_correct ≡ right)
      × (a.attempt_number ≡ length (keep (made_by user dto.problem_id) made) + 1)

  pub create-New :
      (user : String) (dto : SubmitAttempt) (right : Bool) (made : List Attempt) (n : ℕ)
      → Triple
          (λ w. (rows w.attempts ≡ made) × (n ≡ length (keep (made_by user dto.problem_id) made)))
          (create_attempt {R = R} prisma user dto right (n + 1))
          (λ a w. IsNew user right made dto a × (rows w.attempts ≡ made ++ a ∷ []))
          (λ _ _. Unit)
  unfolding create_attempt new_attempt
  create-New user dto right made n = record {
    at = λ w (h, e). elim (store.create_lem (new_attempt user dto right (n + 1) w.now) w.attempts) [
      | inr (x, failed, same) ↦ rw failed tt
      | inl (id, done, grown) ↦ rw done ((refl, refl, refl, refl, rw e refl), rw (grown, h) refl)
    ];
  }
