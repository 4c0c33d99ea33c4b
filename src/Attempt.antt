-- ===== src/Attempt.antt =====
-- attempt/attempt.service.ts and attempt/attempt.repository.ts: an answer is marked, recorded, and
-- counted in the statistics of the problem, of the user's topic and of the user.
pub mod Frame
pub mod Counted
pub mod Submitted
mod Tests
use mathplat.Common.{
  ℕ, ◌+◌, String, Bool, true, false, ◌&&◌, if◌then◌else◌, Option, none, some, List, ◌==◌, is_none,
  or_else, ltb,
}
use mathplat.Common.JsonValue.{JsonValue, stringify, to_text}
use mathplat.Common.Outcome.{Outcome, ok, throws, Action, pure, proceed, ◌>>=◌, ◌>>◌, Done}
use mathplat.Common.Text.{trim}
use mathplat.Redis.{Redis, Json}
use mathplat.Prisma.{Prisma}
use mathplat.World.{
  ProblemType, multiple_choice, short_answer, essay, true_false, fill_in_blank, Problem, Attempt,
  UserStats, Rate, World, query,
}
use mathplat.Problem.{find_problem, update_stats}
use mathplat.Progress.{update_progress}
use mathplat.Achievement.{update_stats_after_attempt, check_achievements}

-- `SubmitAttemptDto`
pub record SubmitAttempt : Type 0 where
  pub problem_id : String
  pub submitted_answer : JsonValue
  pub time_taken : Option ℕ

abbrev same_json : JsonValue → JsonValue → Bool
same_json a b = stringify a == stringify b

-- `String(value).trim().toLowerCase()`; the lower case is the runtime's.
unfoldable pub normal : (lower : String → String) → JsonValue → String
normal lower a = lower (trim (to_text a))

abbrev same_text : (lower : String → String) → JsonValue → JsonValue → Bool
same_text lower a b = normal lower a == normal lower b

-- Whether an answer is right; `none` where a person has to mark it.
unfoldable pub grade :
    (lower : String → String) → ProblemType → (answer submitted : JsonValue) → Option Bool
unfolding normal stringify
grade lower multiple_choice a b = some (same_json a b)
grade lower true_false a b = some (same_json a b)
grade lower short_answer a b = some (same_text lower a b)
grade lower fill_in_blank a b = some (same_text lower a b)
grade lower essay a b = none

-- `isCorrect === true`
abbrev pub is_right : Option Bool → Bool
is_right none = false
is_right (some b) = b

unfoldable pub new_attempt :
    (user : String) → SubmitAttempt → (right : Bool) → (number now : ℕ) → String → Attempt
new_attempt user dto right number now id = record {
  id = id;
  user_id = user;
  problem_id = dto.problem_id;
  is_correct = right;
  submitted_answer = dto.submitted_answer;
  time_taken = or_else dto.time_taken 0;
  attempt_number = number;
  created_at = now;
  updated_at = now;
  deleted_at = none;
}

-- `where: { userId, problemId, deletedAt: null }`, and the two counts of a problem
abbrev pub made_by : String → String → Attempt → Bool
made_by user problem a = a.user_id == user && a.problem_id == problem && is_none a.deleted_at

abbrev pub made_at : String → Attempt → Bool
made_at problem a = a.problem_id == problem && is_none a.deleted_at

abbrev pub right_at : String → Attempt → Bool
right_at problem a = a.problem_id == problem && a.is_correct && is_none a.deleted_at

abbrev pub both : Outcome ℕ → Outcome ℕ → Outcome (ℕ × ℕ)
both (ok total) (ok right) = ok (total, right)
both (ok total) (throws e) = throws e
both (throws e) r = throws e

module _ {T : Type 0 → Type 0} {R : Type 0} (prisma : Prisma T) where
  unfoldable pub count_by_user_and_problem : String → String → Action (World T R) ℕ
  count_by_user_and_problem user problem =
      query (λ w. prisma.count (made_by user problem) w.attempts)

  unfoldable pub find_by_user_and_problem : String → String → Action (World T R) (List Attempt)
  find_by_user_and_problem user problem =
      query (λ w. prisma.find_many (made_by user problem) w.attempts)

  unfoldable pub create_attempt : String → SubmitAttempt → Bool → ℕ → Action (World T R) Attempt
  create_attempt user dto right number w =
      let (r, t) = prisma.create (new_attempt user dto right number w.now) w.attempts in
      (r, record w { attempts = t })

  -- The total and the right answers.
  unfoldable pub get_problem_stats : String → Action (World T R) (ℕ × ℕ)
  get_problem_stats problem = query (λ w.
      both (prisma.count (made_at problem) w.attempts) (prisma.count (right_at problem) w.attempts))

module _ {T : Type 0 → Type 0} {R : Type 0} (prisma : Prisma T) (redis : Redis R)
    (problems : Json Problem) (stats : Json UserStats) (midnight : ℕ → ℕ)
    (lower : String → String) where
  -- `total > 0 ? correct / total : 0`: a rate over nothing is 0.
  abbrev pub store_rate : String → ℕ × ℕ → Action (World T R) ℕ
  store_rate problem (total, right) =
      update_stats prisma redis problems problem total (record { over = right; under = total })

  unfoldable pub update_problem_stats : String → Action (World T R) ℕ
  unfolding get_problem_stats
  update_problem_stats problem = do
    counts ← get_problem_stats prisma problem
    store_rate problem counts

  abbrev pub progress_if_marked : String → String → Option Bool → Action (World T R) Done
  progress_if_marked user topic none = pure tt
  progress_if_marked user topic (some right) = update_progress prisma redis user topic right

  unfoldable pub submit : String → SubmitAttempt → Action (World T R) Attempt
  unfolding find_problem grade count_by_user_and_problem create_attempt update_problem_stats
      update_progress update_stats_after_attempt check_achievements
  submit user dto = do
    problem ← find_problem prisma redis problems dto.problem_id
    let verdict : Option Bool = grade lower problem.kind problem.answer dto.submitted_answer
    made ← count_by_user_and_problem prisma user dto.problem_id
    attempt ← create_attempt prisma user dto (is_right verdict) (made + 1)
    update_problem_stats dto.problem_id
    progress_if_marked user problem.topic_id verdict
    update_stats_after_attempt prisma redis stats midnight user verdict (or_else dto.time_taken 0)
    check_achievements prisma redis stats midnight user
    pure attempt
