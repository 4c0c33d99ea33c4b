-- ===== src/World.antt =====
-- The rows of prisma/schema.prisma that the learning services read and write, and the state that
-- the services share: the tables, the cache and the clock. Times are milliseconds; a rate, a float
-- in the schema, is the exact quotient that the code computes.
use mathplat.Common.{ℕ, String, Bool, Option}
use mathplat.Common.JsonValue.{JsonValue}
use mathplat.Common.Outcome.{Outcome, ok, Action}
use mathplat.Cache.{Cache}

pub data ProblemType : Type 0 where
  multiple_choice short_answer essay true_false fill_in_blank : ProblemType

-- `over / under`, or 0 where `under` is 0.
pub record Rate : Type 0 where
  pub over : ℕ
  pub under : ℕ

pub record Problem : Type 0 where
  pub id : String
  pub topic_id : String
  pub objective_id : Option String
  pub content : String
  pub kind : ProblemType
  pub difficulty : ℕ
  pub answer : JsonValue
  pub solution : JsonValue
  pub hints : Option JsonValue
  pub concept_tags : Option JsonValue
  pub estimated_time : ℕ
  pub solve_count : ℕ
  pub correct_rate : Rate
  pub created_at : ℕ
  pub updated_at : ℕ
  pub deleted_at : Option ℕ

-- `UserProblemAttempt`
pub record Attempt : Type 0 where
  pub id : String
  pub user_id : String
  pub problem_id : String
  pub is_correct : Bool
  pub submitted_answer : JsonValue
  pub time_taken : ℕ
  pub attempt_number : ℕ
  pub created_at : ℕ
  pub updated_at : ℕ
  pub deleted_at : Option ℕ

-- `UserProgress`
pub record Progress : Type 0 where
  pub id : String
  pub user_id : String
  pub topic_id : String
  pub mastery_level : Rate
  pub problems_solved : ℕ
  pub correct_count : ℕ
  pub created_at : ℕ
  pub updated_at : ℕ
  pub deleted_at : Option ℕ

-- The members of `Achievement.condition` that are read.
pub record Condition : Type 0 where
  pub total_problems_solved : Option ℕ
  pub current_streak : Option ℕ
  pub level : Option ℕ
  pub total_xp : Option ℕ

pub record Achievement : Type 0 where
  pub id : String
  pub name : String
  pub description : String
  pub icon_url : Option String
  pub condition : Condition
  pub xp_reward : ℕ
  pub created_at : ℕ
  pub updated_at : ℕ
  pub deleted_at : Option ℕ

pub record UserAchievement : Type 0 where
  pub id : String
  pub user_id : String
  pub achievement_id : String
  pub earned_at : ℕ
  pub created_at : ℕ
  pub updated_at : ℕ
  pub deleted_at : Option ℕ

pub record UserStats : Type 0 where
  pub id : String
  pub user_id : String
  pub total_xp : ℕ
  pub level : ℕ
  pub current_streak : ℕ
  pub longest_streak : ℕ
  pub total_problems_solved : ℕ
  pub total_study_time : ℕ
  pub created_at : ℕ
  pub updated_at : ℕ
  pub deleted_at : Option ℕ

pub record World (T : Type 0 → Type 0) (R : Type 0) : Type 0 where
  pub problems : T Problem
  pub attempts : T Attempt
  pub progress : T Progress
  pub achievements : T Achievement
  pub user_achievements : T UserAchievement
  pub stats : T UserStats
  pub cache : Cache R
  pub now : ℕ

-- A call of the cache inside a method.
module _ {T : Type 0 → Type 0} {R A : Type 0} where
  abbrev pub cached : (Cache R → A × Cache R) → Action (World T R) A
  cached f w = (ok (f w.cache).0, record w { cache = (f w.cache).1 })

  -- A query that reads.
  abbrev pub query : (World T R → Outcome A) → Action (World T R) A
  query q w = (q w, w)
