-- ===== src/Problem/Rows.antt =====
-- problem/problem.repository.ts: the queries on the table of problems.
use mathplat.Common.{ℕ, String, Bool, Option, none, some, ◌==◌, ◌&&◌, is_none, or_else}
use mathplat.Common.JsonValue.{JsonValue}
use mathplat.Common.Outcome.{Action}
use mathplat.Prisma.{Prisma}
use mathplat.World.{ProblemType, multiple_choice, Rate, Problem, World, query}

-- `CreateProblemDto`
pub record CreateProblem : Type 0 where
  pub topic_id : String
  pub objective_id : Option String
  pub content : String
  pub kind : Option ProblemType
  pub difficulty : Option ℕ
  pub answer : JsonValue
  pub solution : JsonValue
  pub hints : Option JsonValue
  pub concept_tags : Option JsonValue
  pub estimated_time : Option ℕ

-- `UpdateProblemDto`: a field that is absent stays as it is. The columns that may be null can be set
-- to it, by `some none`.
pub record UpdateProblem : Type 0 where
  pub topic_id : Option String
  pub objective_id : Option (Option String)
  pub content : Option String
  pub kind : Option ProblemType
  pub difficulty : Option ℕ
  pub answer : Option JsonValue
  pub solution : Option JsonValue
  pub hints : Option (Option JsonValue)
  pub concept_tags : Option (Option JsonValue)
  pub estimated_time : Option ℕ

-- The new row, with the defaults of the schema.
unfoldable pub new_problem : CreateProblem → ℕ → String → Problem
new_problem dto now id = record {
  id = id;
  topic_id = dto.topic_id;
  objective_id = dto.objective_id;
  content = dto.content;
  kind = or_else dto.kind multiple_choice;
  difficulty = or_else dto.difficulty 1;
  answer = dto.answer;
  solution = dto.solution;
  hints = dto.hints;
  concept_tags = dto.concept_tags;
  estimated_time = or_else dto.estimated_time 60;
  solve_count = 0;
  correct_rate = record { over = 0; under = 0 };
  created_at = now;
  updated_at = now;
  deleted_at = none;
}

unfoldable pub edited : UpdateProblem → ℕ → Problem → Problem
edited dto now p = record p {
  topic_id = or_else dto.topic_id p.topic_id;
  objective_id = or_else dto.objective_id p.objective_id;
  content = or_else dto.content p.content;
  kind = or_else dto.kind p.kind;
  difficulty = or_else dto.difficulty p.difficulty;
  answer = or_else dto.answer p.answer;
  solution = or_else dto.solution p.solution;
  hints = or_else dto.hints p.hints;
  concept_tags = or_else dto.concept_tags p.concept_tags;
  estimated_time = or_else dto.estimated_time p.estimated_time;
  updated_at = now;
}

-- The client sets the column `@updatedAt` by itself.
unfoldable pub removed : ℕ → Problem → Problem
removed now p = record p { deleted_at = some now; updated_at = now }

unfoldable pub counted : ℕ → Rate → ℕ → Problem → Problem
counted solved rate now p = record p { solve_count = solved; correct_rate = rate; updated_at = now }

-- `where: { id, deletedAt: null }` and `where: { id }`, as the database compares texts.
module _ {T : Type 0 → Type 0} (prisma : Prisma T) where
  abbrev pub by_id : String → Problem → Bool
  by_id id p = prisma.collate p.id == prisma.collate id

  abbrev pub live : String → Problem → Bool
  live id p = by_id id p && is_none p.deleted_at

module _ {T : Type 0 → Type 0} {R : Type 0} (prisma : Prisma T) where
  unfoldable pub find_by_id : String → Action (World T R) (Option Problem)
  find_by_id id = query (λ w. prisma.find_first (live prisma id) w.problems)

  unfoldable pub create : CreateProblem → Action (World T R) Problem
  create dto w =
      let (r, t) = prisma.create (new_problem dto w.now) w.problems in
      (r, record w { problems = t })

  -- The queries of `update`, `softDelete` and `updateStats`: the row with this identifier, changed.
  unfoldable pub change_by_id : String → (ℕ → Problem → Problem) → Action (World T R) Problem
  change_by_id id f w =
      let (r, t) = prisma.update (by_id prisma id) (f w.now) w.problems in
      (r, record w { problems = t })
