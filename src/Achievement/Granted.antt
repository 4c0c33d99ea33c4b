-- ===== src/Achievement/Granted.antt =====
-- Which achievements achievement/achievement.service.ts grants after an attempt.
use mathplat.Common.{
  leb, not, ◌&&◌, Option, true, false, arith, some, Bool, ℕ, String, ◌≡◌, refl, sym, ◌∙◌, ap, none,
  List, [], ◌∷◌, ◌++◌, map, keep, inl, inr, is_none,
}
use mathplat.Common.Outcome.{Outcome, ok, throws, Action, Outcome-cases, Done}
use mathplat.Common.Triple.{Triple, Keeps-state, Keeps-pure, Post, bind, Triple-forget, Triple-if}
use mathplat.Common.StrSet
use mathplat.Redis.{Redis, Json}
use mathplat.Prisma.{Prisma, IsStore}
use mathplat.Cache.{Cache}
use mathplat.Cache.Keys
use mathplat.World.{Achievement, UserAchievement, UserStats, World}
use mathplat.Achievement.Rows.{
  new_user_achievement, earned_by, create_user_achievement, find_all_achievements, find_earned,
}
use mathplat.Achievement.{find_stats, is_met, is_due, grant, grant_due, check_achievements}
use mathplat.Achievement.Frame.{drop-Kept, find_stats-Kept, reward-Kept}

-- `new` are live rows of the user, one for each of the achievements, in order.
abbrev pub AreGrants : String → List Achievement → List UserAchievement → Type 0
AreGrants user [] [] = Unit
AreGrants user [] (r ∷ rs) = ⊥
AreGrants user (a ∷ rest) [] = ⊥
AreGrants user (a ∷ rest) (r ∷ rs) =
    (r.user_id ≡ user) × (r.achievement_id ≡ a.id) × (r.deleted_at ≡ none) × AreGrants user rest rs

append-nil : (rs : List UserAchievement) → rs ++ [] ≡ rs
append-nil [] = refl
append-nil (r ∷ rs) = ap (λ ss. r ∷ ss) (append-nil rs)

-- A statistic is at least what a condition wants, if it wants anything.
abbrev attains : ℕ → Option ℕ → Bool
attains n none = true
attains n (some wanted) = leb wanted n

-- The user has not got the achievement, and has what it takes.
abbrev pub owed : List String → UserStats → Achievement → Bool
owed earned s a =
    not (StrSet.has a.id earned)
    && (attains s.total_problems_solved a.condition.total_problems_solved
        && attains s.current_streak a.condition.current_streak
        && attains s.level a.condition.level
        && attains s.total_xp a.condition.total_xp)

module _ {T : Type 0 → Type 0} {R : Type 0} (prisma : Prisma T) (redis : Redis R)
    (json : Json UserStats) (midnight : ℕ → ℕ) (store : IsStore prisma) (user : String) where
  open store use {rows}

  -- The rows are those of before and the grants of these achievements.
  abbrev pub Granted : List UserAchievement → List Achievement → World T R → Type 0
  Granted before due w =
      (new : List UserAchievement) × (rows w.user_achievements ≡ before ++ new)
      × AreGrants user due new

  abbrev Holds : List UserAchievement → World T R → Type 0
  Holds before w = rows w.user_achievements ≡ before

  abbrev Adds : List UserAchievement → Achievement → World T R → Type 0
  Adds before a w =
      (r : UserAchievement) × (rows w.user_achievements ≡ before ++ r ∷ [])
      × (r.user_id ≡ user)
      × (r.achievement_id ≡ a.id)
      × (r.deleted_at ≡ none)

  earn-Adds :
      (before : List UserAchievement) (a : Achievement)
      → Triple
          (Holds before)
          (create_user_achievement {R = R} prisma user a.id)
          (λ _ w. Adds before a w)
          (λ _ _. Unit)
  unfolding create_user_achievement new_user_achievement
  earn-Adds before a = record {
    at = λ w h. elim (store.create_lem (new_user_achievement user a.id w.now) w.user_achievements) [
      | inr (e, failed, same) ↦ rw failed tt
      | inl (id, done, grown) ↦
          rw done (new_user_achievement user a.id w.now id, rw (grown, h) refl, refl, refl, refl)
    ];
  }

  grant-Adds :
      (before : List UserAchievement) (a : Achievement)
      → Triple
          (Holds before)
          (grant {T = T} prisma redis json midnight user a)
          (λ _ w. Adds before a w)
          (λ _ _. Unit)
  unfolding grant
  grant-Adds before a =
      let only_grants : (w : World T R) (t : T UserStats) (c : Cache R)
          → Adds before a w
          → Adds before a w =
        λ w t c h. h in
      bind (earn-Adds before a) λ r.
        bind
          (Triple-forget
            (reward-Kept prisma redis (Adds before a) only_grants json midnight user a.xp_reward))
          λ d.
            bind
              (Triple-forget
                (drop-Kept prisma redis (Adds before a) only_grants (Keys.user_achievements user)))
              λ n.
                bind
                  (Triple-forget
                    (drop-Kept prisma redis (Adds before a) only_grants (Keys.user_stats user)))
                  λ m. Triple-forget (Keeps-pure tt)

  append-one :
      (before : List UserAchievement) (r : UserAchievement) (new : List UserAchievement)
      → (before ++ r ∷ []) ++ new ≡ before ++ r ∷ new
  append-one [] r new = refl
  append-one (b ∷ before) r new = ap (λ rs. b ∷ rs) (append-one before r new)

  -- From the grant of the first of some achievements to that of all.
  more-Granted :
      (before : List UserAchievement) (a : Achievement) (due : List Achievement)
      (m : Action (World T R) Done)
      → ((rs : List UserAchievement) → Triple (Holds rs) m (λ _ w. Granted rs due w) (λ _ _. Unit))
      → Triple (Adds before a) m (λ _ w. Granted before (a ∷ due) w) (λ _ _. Unit)
  more-Granted before a due m k = record {
    at = λ w (r, grown, mine, same, alive).
        weaken r (mine, same, alive) (m w).0 (m w).1 ((k (before ++ r ∷ [])).at w grown);
  }
    where
      weaken :
          (r : UserAchievement)
          → (r.user_id ≡ user) × (r.achievement_id ≡ a.id) × (r.deleted_at ≡ none)
          → (o : Outcome Done) (w : World T R)
          → Post (λ _ v. Granted (before ++ r ∷ []) due v) (λ _ _. Unit) o w
          → Post (λ _ v. Granted before (a ∷ due) v) (λ _ _. Unit) o w
      weaken r (mine, same, alive) (ok d) w (new, grown, all) =
          (r ∷ new, grown ∙ append-one before r new, (mine, same, alive, all))
      weaken r facts (throws e) w h = tt

  owed_lem :
      (earned : List String) (s : UserStats) (a : Achievement)
      → owed earned s a ≡ is_due {T = T} prisma redis json midnight earned s a
  unfolding is_met
  owed_lem earned s a = ground arith

  grant_due-Granted :
      (earned : List String) (s : UserStats) (all : List Achievement)
      (before : List UserAchievement)
      → Triple
          (Holds before)
          (grant_due {T = T} prisma redis json midnight user earned s all)
          (λ _ w. Granted before (keep (owed earned s) all) w)
          (λ _ _. Unit)
  unfolding grant_due
  grant_due-Granted earned s [] before = record {
    at = λ w h. ([], h ∙ sym (append-nil before), tt);
  }
  grant_due-Granted earned s (a ∷ rest) before =
      Triple-if (is_due {T = T} prisma redis json midnight earned s a)
        (λ due.
          let here : owed earned s a ≡ true = owed_lem earned s a ∙ due in
          rw here (
            bind (grant-Adds before a) λ d.
              more-Granted before a (keep (owed earned s) rest)
                (grant_due {T = T} prisma redis json midnight user earned s rest)
                (λ rs. grant_due-Granted earned s rest rs)))
        (λ not_due.
          let here : owed earned s a ≡ false = owed_lem earned s a ∙ not_due in
          rw here (grant_due-Granted earned s rest before))

  -- The achievements of the table, and those that the user has, before the call.
  abbrev pub defined : World T R → List Achievement
  defined w = keep (λ a. is_none a.deleted_at) (rows w.achievements)

  abbrev pub earned_before : World T R → List String
  earned_before w = map (λ e. e.achievement_id) (keep (earned_by user) (rows w.user_achievements))

  with_stats :
      (before : List UserAchievement) (all : List Achievement) (earned : List String)
      (s : UserStats) (o : Outcome Done) (w : World T R)
      → Post (λ _ v. Granted before (keep (owed earned s) all) v) (λ _ _. Unit) o w
      → Post
          (λ _ v. (t : UserStats) × (ok s ≡ ok t) × Granted before (keep (owed earned t) all) v)
          (λ _ _. Unit)
          o
          w
  with_stats before all earned s (ok d) w h = (s, refl, h)
  with_stats before all earned s (throws e) w h = tt

  -- With a database that keeps its laws: if `checkAchievements` returns, the table of granted achievements
  -- has for its new rows one live row of the user for each achievement, in order, that is not deleted,
  -- that the user has not been granted before, and whose condition the user's statistics meet,
  -- and no others; the statistics are those that `findStatsByUserId` gives before the call.
  pub check_achievements-Granted :
      (w : World T R)
      → Post
          (λ _ v.
            (s : UserStats) × ((find_stats prisma redis json midnight user w).0 ≡ ok s)
            × Granted (rows w.user_achievements) (keep (owed (earned_before w) s) (defined w)) v)
          (λ _ _. Unit)
          (check_achievements prisma redis json midnight user w).0
          (check_achievements prisma redis json midnight user w).1
  unfolding check_achievements find_all_achievements find_earned
  check_achievements-Granted w =
      let before : List UserAchievement = rows w.user_achievements in
      elim (store.find_many_lem (λ a. is_none a.deleted_at) w.achievements) [
        | inr (e, failed) ↦ rw failed tt
        | inl all ↦ elim (store.find_many_lem (earned_by user) w.user_achievements) [
          | inr (e, failed) ↦ rw (all, failed) tt
          | inl mine ↦ elim (Outcome-cases (find_stats prisma redis json midnight user w).0) [
            | inr (e, failed) ↦ rw (all, mine, failed) tt
            | inl (s, found) ↦
                let after : World T R = (find_stats prisma redis json midnight user w).1 in
                let held : Holds before after =
                  Keeps-state
                    (find_stats-Kept prisma redis (Holds before) (λ w t c h. h) json midnight user)
                    w refl in
                rw (all, mine, found)
                  (with_stats before (defined w) (earned_before w) s
                    (grant_due {T = T} prisma redis json midnight user (earned_before w) s
                      (defined w) after).0
                    (grant_due {T = T} prisma redis json midnight user (earned_before w) s
                      (defined w) after).1
                    ((grant_due-Granted (earned_before w) s (defined w) before).at after held))
          ]
        ]
      ]
