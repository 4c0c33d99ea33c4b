-- ===== src/Attempt/Frame.antt =====
-- What the calls inside attempt/attempt.service.ts leave alone: the tables of problems and attempts.
use mathplat.Common.{ℕ, String, Bool, Option, none, some, List, [], ◌∷◌, map}
use mathplat.Common.Outcome.{Outcome, ok, throws, proceed}
use mathplat.Common.Triple.{
  Keeps, Keeps-pure, Keeps-step, Keeps-state, Keeps-throw, Triple-if, bind,
}
use mathplat.Redis.{Redis, Json}
use mathplat.Prisma.{Prisma}
use mathplat.Cache.Reads.{get}
use mathplat.Cache.Writes.{set, del}
use mathplat.Cache.Keys
use mathplat.Cache.Ttl
use mathplat.World.{Problem, Attempt, Achievement, UserAchievement, UserStats, Rate, World, cached}
use mathplat.Problem.Rows.{find_by_id}
use mathplat.Problem.{found_or_cached, cached_or_found, find_problem, not_found}
use mathplat.Progress.{solved_after, correct_after, find_by_user_and_topic, upsert, update_progress}
use mathplat.Achievement.Frame.{update_stats_after_attempt-Kept, find_stats-Kept, reward-Kept}
use mathplat.Achievement.Rows.{create_user_achievement, find_all_achievements, find_earned}
use mathplat.Achievement.{
  find_stats, update_stats_after_attempt, grant, grant_due, is_due, check_achievements,
}

module _ {T : Type 0 → Type 0} {R : Type 0} (prisma : Prisma T) (redis : Redis R)
    (Q : T Problem → T Attempt → Type 0) where
  abbrev pub OfTables : World T R → Type 0
  OfTables w = Q w.problems w.attempts

  drop-OfTables : (k : String) → Keeps OfTables (cached {T = T} (del redis (k ∷ [])))
  drop-OfTables k = record { at = λ w h. h }

  find_progress-OfTables :
      (user topic : String) → Keeps OfTables (find_by_user_and_topic {R = R} prisma user topic)
  unfolding find_by_user_and_topic
  find_progress-OfTables user topic = Keeps-step (λ w h. h)

  upsert_progress-OfTables :
      (user topic : String) (n m : ℕ) (r : Rate)
      → Keeps OfTables (upsert {R = R} prisma user topic n m r)
  unfolding upsert
  upsert_progress-OfTables user topic n m r = Keeps-step (λ w h. h)

  pub update_progress-OfTables :
      (user topic : String) (b : Bool)
      → Keeps OfTables (update_progress {T = T} prisma redis user topic b)
  unfolding update_progress
  update_progress-OfTables user topic b = bind (find_progress-OfTables user topic) λ o.
      bind
        (upsert_progress-OfTables user topic (solved_after o) (correct_after o b)
          (record { over = correct_after o b; under = solved_after o }))
        λ p. bind (drop-OfTables (Keys.user_progress user topic)) λ n. Keeps-pure tt

  module _ (json : Json UserStats) (midnight : ℕ → ℕ) (user : String) where
    pub update_stats_after_attempt-OfTables :
        (correct : Option Bool) (taken : ℕ)
        → Keeps OfTables
            (update_stats_after_attempt {T = T} prisma redis json midnight user correct taken)
    update_stats_after_attempt-OfTables =
        update_stats_after_attempt-Kept prisma redis OfTables (λ w t c h. h) json midnight user

    earn-OfTables :
        (a : Achievement) → Keeps OfTables (create_user_achievement {R = R} prisma user a.id)
    unfolding create_user_achievement
    earn-OfTables a = Keeps-step (λ w h. h)

    grant-OfTables :
        (a : Achievement) → Keeps OfTables (grant {T = T} prisma redis json midnight user a)
    unfolding grant
    grant-OfTables a = bind (earn-OfTables a) λ r.
        bind (reward-Kept prisma redis OfTables (λ w t c h. h) json midnight user a.xp_reward) λ d.
          bind (drop-OfTables (Keys.user_achievements user))
            λ n. bind (drop-OfTables (Keys.user_stats user)) λ m. Keeps-pure tt

    pub grant_due-OfTables :
        (earned : List String) (s : UserStats) (rows : List Achievement)
        → Keeps OfTables (grant_due {T = T} prisma redis json midnight user earned s rows)
    unfolding grant_due
    grant_due-OfTables earned s [] = Keeps-pure tt
    grant_due-OfTables earned s (a ∷ rest) =
        Triple-if (is_due {T = T} prisma redis json midnight earned s a)
          (λ _. bind (grant-OfTables a) λ d. grant_due-OfTables earned s rest)
          (λ _. grant_due-OfTables earned s rest)

    -- The loop after the three queries, or the exception of one of them.
    granted-OfTables :
        (all : Outcome (List Achievement)) (mine : Outcome (List UserAchievement))
        (stats : Outcome UserStats)
        → Keeps OfTables (
            proceed all (λ rows. proceed mine (λ earned. proceed stats (λ s.
              grant_due {T = T} prisma redis json midnight user
                (map (λ e. e.achievement_id) earned)
                s
                rows))))
    granted-OfTables (throws e) mine stats = Keeps-throw e
    granted-OfTables (ok rows) (throws e) stats = Keeps-throw e
    granted-OfTables (ok rows) (ok earned) (throws e) = Keeps-throw e
    granted-OfTables (ok rows) (ok earned) (ok s) =
        grant_due-OfTables (map (λ e. e.achievement_id) earned) s rows

    pub check_achievements-OfTables :
        Keeps OfTables (check_achievements {T = T} prisma redis json midnight user)
    unfolding check_achievements find_all_achievements find_earned
    check_achievements-OfTables = Keeps-step λ w h.
        let (stats, v) = find_stats prisma redis json midnight user w in
        Keeps-state
          (granted-OfTables (find_all_achievements prisma w).0 (find_earned prisma user w).0 stats)
          v
          (Keeps-state (find_stats-Kept prisma redis OfTables (λ w t c h. h) json midnight user) w
            h)

  module _ (json : Json Problem) where
    look-OfTables : (k : String) → Keeps OfTables (cached {T = T} (get redis json k))
    look-OfTables k = record { at = λ w h. h }

    hold-OfTables :
        (k : String) (p : Problem) (n : Option ℕ)
        → Keeps OfTables (cached {T = T} (set redis json k p n))
    hold-OfTables k p n = record { at = λ w h. h }

    find_by_id-OfTables : (id : String) → Keeps OfTables (find_by_id {R = R} prisma id)
    unfolding find_by_id
    find_by_id-OfTables id = Keeps-step (λ w h. h)

    found-OfTables :
        (id : String) (o : Option Problem)
        → Keeps OfTables (found_or_cached {T = T} prisma redis json id o)
    found-OfTables id none = Keeps-throw (not_found "Problem not found")
    found-OfTables id (some p) =
        bind (hold-OfTables (Keys.problem id) p (some Ttl.problem)) λ b. Keeps-pure p

    hit-OfTables :
        (id : String) (o : Option Problem)
        → Keeps OfTables (cached_or_found {T = T} prisma redis json id o)
    hit-OfTables id (some p) = Keeps-pure p
    hit-OfTables id none = bind (find_by_id-OfTables id) λ found. found-OfTables id found

    pub find_problem-OfTables :
        (id : String) → Keeps OfTables (find_problem {T = T} prisma redis json id)
    unfolding find_problem
    find_problem-OfTables id = bind (look-OfTables (Keys.problem id)) λ hit. hit-OfTables id hit
