-- ===== src/Achievement/History.antt =====
-- A history of attempts that one user hands in to achievement/achievement.service.ts.
use mathplat.Common.{
  ℕ, String, ◌≡◌, refl, Bool, true, false, if◌then◌else◌, some, List, [], ◌∷◌, inl, inr, ◌∙◌,
  Bool-cases,
}
use mathplat.Common.Outcome.{Outcome, ok, throws, Done}
use mathplat.Common.Triple.{Post}
use mathplat.Redis.{Redis, Json, IsServing, value}
use mathplat.Prisma.{Prisma, IsStore}
use mathplat.World.{UserStats, World}
use mathplat.Achievement.{update_stats_after_attempt}
use mathplat.Achievement.Streak.{Try, attempted, replay}
use mathplat.Achievement.Refined.{update_stats-Holds}
use mathplat.Achievement.Stored.{row_of, IsFresh, Holds, Fails}

abbrev is_ok : Outcome Done → Bool
is_ok (ok _) = true
is_ok (throws e) = false

module _ {T : Type 0 → Type 0} {R : Type 0} (prisma : Prisma T) (redis : Redis R)
    (json : Json UserStats) (midnight : ℕ → ℕ) (user : String) where
  -- An attempt is handed in at its time.
  abbrev hand_in : Try → World T R → Outcome Done × World T R
  hand_in t w =
      update_stats_after_attempt prisma redis json midnight user t.correct t.taken
        (record w { now = t.at })

  abbrev pub serve : List Try → World T R → World T R
  serve [] w = w
  serve (t ∷ ts) w = serve ts (hand_in t w).1

  -- The attempts for which the service does not throw.
  abbrev pub stored : List Try → World T R → List Try
  stored [] w = []
  stored (t ∷ ts) w =
      let rest = stored ts (hand_in t w).1 in if is_ok (hand_in t w).0 then t ∷ rest else rest

module _ {T : Type 0 → Type 0} {R : Type 0} (prisma : Prisma T) (redis : Redis R)
    (json : Json UserStats) (midnight : ℕ → ℕ) (store : IsStore prisma) (serving : IsServing redis)
    (round_trip : (s : UserStats) (t : String)
      → json.stringify s ≡ ok t
      → json.parse t ≡ value s) where
  open store use {rows}
  open serving use {view}

  settled :
      (u : String) (s r : UserStats) (n : ℕ) (o : Outcome Done) (w : World T R)
      → Post
          (λ _ v. Holds prisma redis json midnight store serving round_trip u r n v)
          (Fails prisma redis json midnight store serving round_trip u s n)
          o
          w
      → IsFresh prisma redis json midnight store serving round_trip w
        × (row_of prisma redis json midnight store serving round_trip w u
            ≡ some (if is_ok o then r else s))
  settled u s r n (ok _) w h = (h.0, h.1)
  settled u s r n (throws e) w h = (h.0.0, h.0.1)

  -- With a cache server that answers, a database that keeps its laws, and JSON that gives back what it
  -- took: from a state where no statistics are deleted and the cache holds nothing stale, after any
  -- attempts of a user the row holds the statistics of those for which the service did not throw, and
  -- the cache again holds nothing stale.
  pub serve-replay :
      (u : String) (ts : List Try) (s : UserStats) (w : World T R)
      → IsFresh prisma redis json midnight store serving round_trip w
      → row_of prisma redis json midnight store serving round_trip w u ≡ some s
      → IsFresh prisma redis json midnight store serving round_trip
          (serve prisma redis json midnight u ts w)
        × (row_of prisma redis json midnight store serving round_trip
              (serve prisma redis json midnight u ts w)
              u
            ≡ some (replay midnight (stored prisma redis json midnight u ts w) s))
  serve-replay u [] s w fresh here = (fresh, here)
  serve-replay u (t ∷ ts) s w fresh here =
      let done = hand_in prisma redis json midnight u t w in
      let timed : IsFresh prisma redis json midnight store serving round_trip
          (record w { now = t.at }) =
        record { alive = fresh.alive; coherent = fresh.coherent } in
      let (still, row) = settled u s (attempted midnight s t) t.at done.0 done.1 (
        (update_stats-Holds prisma redis json midnight store serving round_trip u s t.correct
            t.taken t.at).at
          (record w { now = t.at }) (timed, here, refl)) in
      elim (Bool-cases (is_ok done.0)) [
        | inl through ↦
            rw through
              (serve-replay u ts (attempted midnight s t) done.1 still (row ∙ rw through refl))
        | inr stopped ↦ rw stopped (serve-replay u ts s done.1 still (row ∙ rw stopped refl))
      ]
