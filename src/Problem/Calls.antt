-- ===== src/Problem/Calls.antt =====
-- A history of calls of problem/problem.service.ts.
use mathplat.Common.{ℕ, String, List, [], ◌∷◌}
use mathplat.Redis.{Redis, Json}
use mathplat.Prisma.{Prisma}
use mathplat.World.{Problem, Rate, World}
use mathplat.Problem.Rows.{CreateProblem, UpdateProblem}
use mathplat.Problem.{create_problem, find_problem, update_problem, delete_problem, update_stats}

-- One call of the service.
pub data Call : Type 0 where
  creates : CreateProblem → Call
  finds : String → Call
  updates : String → UpdateProblem → Call
  deletes : String → Call
  counts : String → ℕ → Rate → Call

module _ {T : Type 0 → Type 0} {R : Type 0} (prisma : Prisma T) (redis : Redis R)
    (json : Json Problem) where
  -- The state that a call leaves, whatever it returns or throws.
  unfoldable pub call : Call → World T R → World T R
  unfolding create_problem find_problem update_problem delete_problem update_stats
  call (creates dto) w = (create_problem prisma redis json dto w).1
  call (finds id) w = (find_problem prisma redis json id w).1
  call (updates id dto) w = (update_problem prisma redis json id dto w).1
  call (deletes id) w = (delete_problem prisma redis json id w).1
  call (counts id solved rate) w = (update_stats prisma redis json id solved rate w).1

  unfoldable pub calls : List Call → World T R → World T R
  unfolding call
  calls [] w = w
  calls (c ∷ cs) w = calls cs (call c w)
