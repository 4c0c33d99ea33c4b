-- ===== src/Problem/Tests.antt =====
-- The theorem on problem/problem.service.ts at a short history.
use native.Mathlib.Decide.{ℕ_discrete}
use mathplat.Common.Outcome.{fault}
use mathplat.Problem.Pages.{ProblemFilter, find_many}
use mathplat.Problem.Listed.{Lists, find_many-Lists}
use mathplat.Common.{length, ◌≤◌, ◌<◌, ◌*◌, ◌+◌, String, ◌≡◌, refl, none, some, List, [], ◌∷◌}
use mathplat.Common.Outcome.{ok}
use mathplat.Common.Triple.{Post}
use text.Mathlib.Text.{starts_with}
use mathplat.Common.{Bool, true}
use mathplat.Redis.{Json, value}
use mathplat.World.{Problem, World}
use mathplat.Problem.{find_problem}
use mathplat.Problem.Rows.{UpdateProblem}
use mathplat.Problem.Calls.{Call, finds, updates, calls}
use mathplat.Problem.Served.{dateless, Fresh, Served, Refused, find_problem-calls}
use mathplat.Samples.{
  sum, known, known-round_trip, string_discrete, blank, Server, server, server-IsServing, tables,
  tables-IsStore,
}

problem_discrete : Discrete Problem
problem_discrete = hlevel (string_discrete, ℕ_discrete)

-- JSON for the one problem.
abbrev codec : Json Problem
codec = known problem_discrete sum

round_trip :
    (p : Problem) (s : String)
    → codec.stringify p ≡ ok s
    → (q : Problem) × (codec.parse s ≡ value q) × (dateless q ≡ dateless p)
round_trip p s h = (p, known-round_trip problem_discrete sum p s h, refl)

-- The identifiers of problems have a small first letter.
abbrev spelled : String → Bool
spelled s = starts_with s "p"

one_spelling :
    (a b : String)
    → spelled a ≡ true
    → spelled b ≡ true
    → tables.collate a ≡ tables.collate b
    → a ≡ b
one_spelling a b p q e = e

abbrev world : World List Server
world = record blank { problems = sum ∷ [] }

abbrev harder : UpdateProblem
harder = record {
  topic_id = none;
  objective_id = none;
  content = none;
  kind = none;
  difficulty = some 2;
  answer = none;
  solution = none;
  hints = none;
  concept_tags = none;
  estimated_time = none;
}

abbrev history : List Call
history = finds "p1" ∷ updates "p1" harder ∷ []

world-Fresh :
    Fresh tables server codec tables-IsStore server-IsServing spelled one_spelling round_trip world
world-Fresh = record { coherent = record { up = refl; fresh = λ k s e. cc } }

find_problem-calls_example :
    Post
      (λ p v.
        Served tables server codec tables-IsStore server-IsServing spelled one_spelling round_trip
          "p1" p v)
      (Refused tables server codec tables-IsStore server-IsServing spelled one_spelling round_trip
        "p1")
      (find_problem tables server codec "p1" (calls tables server codec history world)).0
      (find_problem tables server codec "p1" (calls tables server codec history world)).1
find_problem-calls_example =
    find_problem-calls tables server codec tables-IsStore server-IsServing spelled one_spelling
      round_trip history "p1" world (refl, (refl, tt)) refl world-Fresh

abbrev first_page : ProblemFilter
first_page = record {
  topic_id = some "t1";
  objective_id = none;
  difficulty_min = some 1;
  difficulty_max = none;
  kind = none;
  page = none;
  limit = some 10;
}

find_many-Lists_example :
    Post
      (λ r v.
        (v ≡ world)
        × Lists tables tables-IsStore first_page 10 world r
        × (length r.items ≤ 10)
        × (r.total ≤ 10 * r.total_pages)
        × (10 * r.total_pages < r.total + 10))
      (λ e v. (v ≡ world) × ((m : String) × (e ≡ fault m)))
      (find_many tables first_page world).0
      (find_many tables first_page world).1
find_many-Lists_example = find_many-Lists tables tables-IsStore first_page 9 world refl
