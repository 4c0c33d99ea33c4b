-- ===== src/Problem/Pages.antt =====
-- The list of problems of problem/problem.service.ts, page by page, without their answers.
use mathplat.Common.{
  ℕ, zero, suc, ◌+◌, ◌-◌, ◌*◌, ◌/◌, String, Bool, true, ◌&&◌, ◌||◌, Option, none, some, List, map,
  ◌==◌, is_none, or_else, ltb, num_eq, leb,
}
use mathplat.Common.JsonValue.{JsonValue}
use mathplat.Common.Outcome.{Outcome, ok, throws, Action}
use mathplat.Common.Text.{is_empty}
use mathplat.Prisma.{Prisma}
use mathplat.World.{
  ProblemType, multiple_choice, short_answer, essay, true_false, fill_in_blank, Problem, Rate,
  World, query,
}

-- `ProblemFilterDto`, whose page and limit are at least 1.
pub record ProblemFilter : Type 0 where
  pub topic_id : Option String
  pub objective_id : Option String
  pub difficulty_min : Option ℕ
  pub difficulty_max : Option ℕ
  pub kind : Option ProblemType
  pub page : Option ℕ
  pub limit : Option ℕ

-- A problem without `answer` and `solution`.
pub record Summary : Type 0 where
  pub id : String
  pub topic_id : String
  pub objective_id : Option String
  pub content : String
  pub kind : ProblemType
  pub difficulty : ℕ
  pub hints : Option JsonValue
  pub concept_tags : Option JsonValue
  pub estimated_time : ℕ
  pub solve_count : ℕ
  pub correct_rate : Rate
  pub created_at : ℕ
  pub updated_at : ℕ
  pub deleted_at : Option ℕ

pub record Page : Type 0 where
  pub items : List Summary
  pub page : ℕ
  pub limit : ℕ
  pub total : ℕ
  pub total_pages : ℕ

abbrev pub summary : Problem → Summary
summary p = record {
  id = p.id;
  topic_id = p.topic_id;
  objective_id = p.objective_id;
  content = p.content;
  kind = p.kind;
  difficulty = p.difficulty;
  hints = p.hints;
  concept_tags = p.concept_tags;
  estimated_time = p.estimated_time;
  solve_count = p.solve_count;
  correct_rate = p.correct_rate;
  created_at = p.created_at;
  updated_at = p.updated_at;
  deleted_at = p.deleted_at;
}

abbrev pub kind_code : ProblemType → ℕ
kind_code multiple_choice = 0
kind_code short_answer = 1
kind_code essay = 2
kind_code true_false = 3
kind_code fill_in_blank = 4

module _ {T : Type 0 → Type 0} (prisma : Prisma T) where
  -- Texts that the database takes for equal.
  abbrev pub same_text : (s t : String) → Bool
  same_text s t = prisma.collate s == prisma.collate t

  -- `if (filter.topicId) where.topicId = ...`
  abbrev pub wants_text : Option String → String → Bool
  wants_text none s = true
  wants_text (some t) s = is_empty t || same_text s t

  -- A problem may have no objective.
  abbrev pub wants_optional : Option String → Option String → Bool
  wants_optional none o = true
  wants_optional (some t) none = is_empty t
  wants_optional (some t) (some s) = is_empty t || same_text s t

abbrev pub wants_kind : Option ProblemType → ProblemType → Bool
wants_kind none k = true
wants_kind (some j) k = num_eq (kind_code k) (kind_code j)

abbrev pub at_least : Option ℕ → ℕ → Bool
at_least none n = true
at_least (some m) n = leb m n

abbrev pub at_most : Option ℕ → ℕ → Bool
at_most none n = true
at_most (some m) n = leb n m

-- The `where` of the query.
unfoldable pub passes : {T : Type 0 → Type 0} → Prisma T → ProblemFilter → Problem → Bool
passes prisma f p =
    is_none p.deleted_at
    && wants_text prisma f.topic_id p.topic_id
    && wants_optional prisma f.objective_id p.objective_id
    && wants_kind f.kind p.kind
    && at_least f.difficulty_min p.difficulty
    && at_most f.difficulty_max p.difficulty

-- By difficulty, the newest first among equals.
unfoldable pub before : Problem → Problem → Bool
before p q =
    ltb p.difficulty q.difficulty
    || num_eq p.difficulty q.difficulty && ltb q.created_at p.created_at

-- `Math.ceil(total / limit)`
abbrev pub ceil_div : ℕ → ℕ → ℕ
ceil_div n zero = 0
ceil_div n (suc d) = (n + d) / suc d

abbrev page_with : (page limit : ℕ) → List Problem → ℕ → Page
page_with page limit items total = record {
  items = map summary items;
  page = page;
  limit = limit;
  total = total;
  total_pages = ceil_div total limit;
}

-- Both queries of `Promise.all`.
abbrev collected : (page limit : ℕ) → Outcome (List Problem) → Outcome ℕ → Outcome Page
collected page limit (ok items) (ok total) = ok (page_with page limit items total)
collected page limit (ok items) (throws e) = throws e
collected page limit (throws e) r = throws e

module _ {T : Type 0 → Type 0} {R : Type 0} (prisma : Prisma T) where
  unfoldable pub find_many : ProblemFilter → Action (World T R) Page
  unfolding passes before
  find_many f =
      let page : ℕ = or_else f.page 1 in
      let limit : ℕ = or_else f.limit 20 in
      query (λ w.
        collected page limit
          (prisma.find_page (passes prisma f) before ((page - 1) * limit) limit w.problems)
          (prisma.count (passes prisma f) w.problems))
