-- ===== src/Problem.antt =====
-- problem/problem.service.ts: the problems, with a cache in front of their table.
pub mod Rows
pub mod Fresh
pub mod Calls
pub mod Pages
pub mod Conditions
pub mod Listed
pub mod Served
mod Tests
use mathplat.Common.{
  ℕ, String, Bool, true, false, if◌then◌else◌, Option, none, some, List, [], ◌∷◌, ◌==◌, not,
}
use mathplat.Common.Outcome.{
  Outcome, ok, throws, Exception, http, Action, pure, throw, ◌>>=◌, ◌>>◌, Done,
}
use mathplat.Common.Text.{is_empty}
use mathplat.Redis.{Redis, Json}
use mathplat.Prisma.{Prisma}
use mathplat.Cache.Reads.{get}
use mathplat.Cache.Writes.{set, del}
use mathplat.Cache.Keys
use mathplat.Cache.Ttl
use mathplat.World.{Problem, Rate, World, cached}
use Rows.{CreateProblem, UpdateProblem, edited, removed, counted, find_by_id, create, change_by_id}

abbrev pub not_found : String → Exception
not_found message = http 404 message

module _ {T : Type 0 → Type 0} {R : Type 0} (prisma : Prisma T) (redis : Redis R)
    (json : Json Problem) where
  abbrev pub invalidate_problem_list : String → Action (World T R) ℕ
  invalidate_problem_list topic = cached (del redis (Keys.problem_list topic ∷ []))

  abbrev pub forget_problem : String → Action (World T R) ℕ
  forget_problem id = cached (del redis (Keys.problem id ∷ []))

  unfoldable pub create_problem : CreateProblem → Action (World T R) Problem
  unfolding create
  create_problem dto = do
    problem ← create prisma dto
    invalidate_problem_list dto.topic_id
    pure problem

  abbrev pub found_or_cached : String → Option Problem → Action (World T R) Problem
  found_or_cached id none = throw (not_found "Problem not found")
  found_or_cached id (some p) = do
    cached (set redis json (Keys.problem id) p (some Ttl.problem))
    pure p

  abbrev pub cached_or_found : String → Option Problem → Action (World T R) Problem
  cached_or_found id (some p) = pure p
  cached_or_found id none = do found ← find_by_id prisma id; found_or_cached id found

  unfoldable pub find_problem : String → Action (World T R) Problem
  unfolding find_by_id
  find_problem id = do hit ← cached (get redis json (Keys.problem id)); cached_or_found id hit

  abbrev pub require : Option Problem → Action (World T R) Problem
  require none = throw (not_found "Problem not found")
  require (some p) = pure p

  -- `dto.topicId && dto.topicId !== existing.topicId`
  abbrev pub moved_list : Option String → String → Action (World T R) ℕ
  moved_list none old = pure 0
  moved_list (some topic) old =
      if is_empty topic
      then pure 0
      else if topic == old
      then pure 0
      else invalidate_problem_list topic

  unfoldable pub update_problem : String → UpdateProblem → Action (World T R) Problem
  unfolding find_by_id change_by_id
  update_problem id dto = do
    found ← find_by_id prisma id
    existing ← require found
    updated ← change_by_id prisma id (edited dto)
    forget_problem id
    invalidate_problem_list existing.topic_id
    moved_list dto.topic_id existing.topic_id
    pure updated

  unfoldable pub delete_problem : String → Action (World T R) Problem
  unfolding find_by_id change_by_id
  delete_problem id = do
    found ← find_by_id prisma id
    existing ← require found
    deleted ← change_by_id prisma id removed
    forget_problem id
    invalidate_problem_list existing.topic_id
    pure deleted

  unfoldable pub update_stats : String → ℕ → Rate → Action (World T R) ℕ
  unfolding change_by_id
  update_stats id solved rate = do change_by_id prisma id (counted solved rate); forget_problem id
