-- ===== src/Progress/Tests.antt =====
-- The theorem on progress/progress.service.ts at three marked attempts.
use mathplat.Common.{◌+◌, refl, true, false, List, [], ◌∷◌}
use mathplat.Progress.Effect.{Counts, row_of}
use mathplat.Progress.History.{Mark, marks, went_through, were_right, marks-Counts}
use mathplat.Samples.{server, tables, tables-IsStore, blank}

abbrev history : List Mark
history =
    record { user = "u1"; topic = "t1"; correct = true }
    ∷ record { user = "u2"; topic = "t1"; correct = true }
    ∷ record { user = "u1"; topic = "t1"; correct = false }
    ∷ []

marks-Counts_example :
    Counts
      (row_of tables server tables-IsStore (marks tables server history blank) "u1" "t1")
      (0 + went_through tables server "u1" "t1" history blank)
      (0 + were_right tables server "u1" "t1" history blank)
marks-Counts_example =
    marks-Counts tables server tables-IsStore history "u1" "t1" (λ v s. 0) (λ v s. 0) blank
      (λ v s. (refl, refl))
