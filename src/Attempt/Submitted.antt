-- ===== src/Attempt/Submitted.antt =====
-- What a submission to attempt/attempt.service.ts does, from the first query to the last.
use mathplat.Common.{ℕ, String, Bool, ◌≡◌, refl, Option, none, some, List, [], ◌∷◌, ◌++◌, or_else}
use mathplat.Common.Outcome.{ok}
use mathplat.Common.Triple.{
  Triple, Keeps-pure, Post, bind, Triple-forget, Triple-fact, Triple-result,
}
use mathplat.Redis.{Redis, Json}
use mathplat.Prisma.{Prisma, IsStore}
use mathplat.World.{Problem, Attempt, UserStats, World}
use mathplat.Problem.{find_problem}
use mathplat.Attempt.{SubmitAttempt, grade, is_right, progress_if_marked, submit}
use mathplat.Attempt.Frame.{
  find_problem-OfTables, update_progress-OfTables, update_stats_after_attempt-OfTables,
  check_achievements-OfTables,
}
use mathplat.Attempt.Counted.{
  IsCounted, IsNew, Recorded, count-Made, create-New, update_problem_stats-Recorded,
}

module _ {T : Type 0 → Type 0} {R : Type 0} (prisma : Prisma T) (redis : Redis R)
    (problems : Json Problem) (stats : Json UserStats) (midnight : ℕ → ℕ) (lower : String → String)
    (store : IsStore prisma) where
  open store use {rows}

  -- What a submission that returns `a` leaves, from the state `start`.
  abbrev pub Submitted : String → SubmitAttempt → World T R → Attempt → World T R → Type 0
  Submitted user dto start a w =
      (p : Problem) × ((find_problem prisma redis problems dto.problem_id start).0 ≡ ok p)
      × IsNew prisma redis problems store user
          (is_right (grade lower p.kind p.answer dto.submitted_answer)) (rows start.attempts) dto a
      × Recorded prisma redis problems store dto.problem_id (rows start.attempts ++ a ∷ []) w

  module _ (user problem : String) (done : List Attempt) where
    abbrev Kept : World T R → Type 0
    Kept w = Recorded prisma redis problems store problem done w

    abbrev OnTables : T Problem → T Attempt → Type 0
    OnTables ps made = (rows made ≡ done) × IsCounted prisma redis problems store problem done ps

    progress-Kept :
        (topic : String) (o : Option Bool)
        → Triple Kept
            (progress_if_marked {T = T} prisma redis problems stats midnight lower user topic o)
            (λ _ w. Kept w)
            (λ _ _. Unit)
    progress-Kept topic none = Triple-forget (Keeps-pure tt)
    progress-Kept topic (some b) =
        Triple-forget (update_progress-OfTables prisma redis OnTables user topic b)

  submit-Submitted :
      (user : String) (dto : SubmitAttempt) (start : World T R)
      → Triple
          (λ w. w ≡ start)
          (submit {T = T} prisma redis problems stats midnight lower user dto)
          (λ a w. Submitted user dto start a w)
          (λ _ _. Unit)
  unfolding submit
  submit-Submitted user dto start =
      let made : List Attempt = rows start.attempts in
      bind
        (Triple-result start refl (
          find_problem-OfTables prisma redis (λ ps done. rows done ≡ rows start.attempts) problems
            dto.problem_id))
        λ p. Triple-fact λ found.
          bind (count-Made prisma redis problems store user dto.problem_id made) λ n.
            bind
              (create-New prisma redis problems store user dto
                (is_right (grade lower p.kind p.answer dto.submitted_answer)) made n)
              λ a. Triple-fact λ new.
                let verdict : Option Bool = grade lower p.kind p.answer dto.submitted_answer in
                let done : List Attempt = made ++ a ∷ [] in
                let on : T Problem → T Attempt → Type 0 = OnTables user dto.problem_id done in
                bind
                  (update_problem_stats-Recorded prisma redis problems store stats midnight lower
                    dto.problem_id done)
                  λ _. bind (progress-Kept user dto.problem_id done p.topic_id verdict) λ _.
                    bind
                      (Triple-forget (
                        update_stats_after_attempt-OfTables prisma redis on stats midnight user
                          verdict (or_else dto.time_taken 0)))
                      λ _.
                        bind
                          (Triple-forget
                            (check_achievements-OfTables prisma redis on stats midnight user))
                          λ _. record { at = λ w kept. (p, found, new, kept) }

  -- With a database that keeps its laws: when `submit` returns an attempt, this is the user's for the
  -- problem and the answer of the request, is marked as `grade` marks the answer for the problem that
  -- `findById` found (an essay as not right), and is numbered one after the user's attempts at the
  -- problem before; it is the one new row of the attempts; and the problem's row has for its
  -- count and its rate those of all attempts at the problem that are not deleted, the new one included.
  pub submit-counts :
      (user : String) (dto : SubmitAttempt) (start : World T R)
      → Post
          (Submitted user dto start)
          (λ _ _. Unit)
          (submit prisma redis problems stats midnight lower user dto start).0
          (submit prisma redis problems stats midnight lower user dto start).1
  submit-counts user dto start = (submit-Submitted user dto start).at start refl
