-- ===== src/Attempt/Tests.antt =====
-- The theorem on attempt/attempt.service.ts at one answer.
use mathplat.Redis.{refused}
use mathplat.Common.{ℕ, String, some, List, [], ◌∷◌}
use mathplat.Common.JsonValue.{num}
use mathplat.Common.Outcome.{throws, fault}
use mathplat.Common.Triple.{Post}
use mathplat.Redis.{Json}
use mathplat.World.{World}
use mathplat.Attempt.{SubmitAttempt, submit}
use mathplat.Attempt.Submitted.{Submitted, submit-counts}
use mathplat.Samples.{Server, server, tables, tables-IsStore, blank, sum, beginner}

-- Values that are not cached.
abbrev uncached : {V : Type 0} → V → Json V
uncached v = record {
  stringify = λ x. throws (fault "not cached");
  parse = λ s. refused;
  text = λ s. v;
}

abbrev world : World List Server
world = record blank { problems = sum ∷ []; stats = beginner ∷ [] }

abbrev answer : SubmitAttempt
answer = record { problem_id = "p1"; submitted_answer = num "2"; time_taken = some 12 }

abbrev midnight : ℕ → ℕ
midnight t = t

abbrev lower : String → String
lower s = s

submit-counts_example :
    Post
      (Submitted tables server
        (uncached sum)
        (uncached beginner)
        midnight
        lower
        tables-IsStore
        "u1"
        answer
        world)
      (λ _ _. Unit)
      (submit tables server (uncached sum) (uncached beginner) midnight lower "u1" answer world).0
      (submit tables server (uncached sum) (uncached beginner) midnight lower "u1" answer world).1
submit-counts_example =
    submit-counts tables server (uncached sum) (uncached beginner) midnight lower tables-IsStore
      "u1" answer world
