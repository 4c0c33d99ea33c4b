-- ===== src/Progress.antt =====
-- progress/progress.service.ts and progress/progress.repository.ts: how much of a topic a user has
-- mastered. The topic that a query brings along with a row is left out, and so
-- is the order of a list.
pub mod Effect
pub mod History
mod Tests
use mathplat.Common.{
  ℕ, ◌+◌, String, Bool, true, false, if◌then◌else◌, Option, none, some, List, [], ◌∷◌, ◌==◌, ◌&&◌,
  is_none,
}
use mathplat.Common.Outcome.{
  Outcome, ok, throws, Exception, http, Done, Action, pure, throw, ◌>>=◌, ◌>>◌,
}
use mathplat.Redis.{Redis, Json}
use mathplat.Prisma.{Prisma}
use mathplat.Cache.Reads.{get}
use mathplat.Cache.Writes.{set, del}
use mathplat.Cache.Keys
use mathplat.Cache.Ttl
use mathplat.World.{Progress, Rate, World, cached, query}

-- `where: { userId_topicId: { userId, topicId } }`, and `where: { userId, topicId, deletedAt: null }`
abbrev pub is_of : String → String → Progress → Bool
is_of user topic p = p.user_id == user && p.topic_id == topic

abbrev pub live : String → String → Progress → Bool
live user topic p = is_of user topic p && is_none p.deleted_at

-- The `update` and the `create` of the upsert.
unfoldable pub tallied : (solved correct : ℕ) → Rate → ℕ → Progress → Progress
tallied solved correct rate now p = record p {
  problems_solved = solved;
  correct_count = correct;
  mastery_level = rate;
  updated_at = now;
}

unfoldable pub new_progress :
    (user topic : String) → (solved correct : ℕ) → Rate → ℕ → String → Progress
new_progress user topic solved correct rate now id = record {
  id = id;
  user_id = user;
  topic_id = topic;
  mastery_level = rate;
  problems_solved = solved;
  correct_count = correct;
  created_at = now;
  updated_at = now;
  deleted_at = none;
}

abbrev pub one_if : Bool → ℕ
one_if true = 1
one_if false = 0

-- `problemsSolved` and `correctCount` with the new attempt.
abbrev pub solved_after : Option Progress → ℕ
solved_after none = 1
solved_after (some p) = p.problems_solved + 1

abbrev pub correct_after : Option Progress → Bool → ℕ
correct_after none correct = one_if correct
correct_after (some p) correct = p.correct_count + one_if correct

module _ {T : Type 0 → Type 0} {R : Type 0} (prisma : Prisma T) where
  unfoldable pub find_by_user_and_topic : String → String → Action (World T R) (Option Progress)
  find_by_user_and_topic user topic = query (λ w. prisma.find_first (live user topic) w.progress)

  unfoldable pub find_all_by_user : String → Action (World T R) (List Progress)
  find_all_by_user user =
      query (λ w. prisma.find_many (λ p. p.user_id == user && is_none p.deleted_at) w.progress)

  unfoldable pub upsert : String → String → ℕ → ℕ → Rate → Action (World T R) Progress
  upsert user topic solved correct rate w =
      let (r, t) =
        prisma.upsert (is_of user topic) (tallied solved correct rate w.now)
          (new_progress user topic solved correct rate w.now) w.progress in
      (r, record w { progress = t })

module _ {T : Type 0 → Type 0} {R : Type 0} (prisma : Prisma T) (redis : Redis R)
    (json : Json Progress) where
  abbrev pub found_or_cached : String → String → Option Progress → Action (World T R) Progress
  found_or_cached user topic none = throw (http 404 "Progress not found for this topic")
  found_or_cached user topic (some p) = do
    cached (set redis json (Keys.user_progress user topic) p (some Ttl.user_progress))
    pure p

  abbrev pub cached_or_found : String → String → Option Progress → Action (World T R) Progress
  cached_or_found user topic (some p) = pure p
  cached_or_found user topic none = do
    found ← find_by_user_and_topic prisma user topic
    found_or_cached user topic found

  unfoldable pub find_progress : String → String → Action (World T R) Progress
  unfolding find_by_user_and_topic
  find_progress user topic = do
    hit ← cached (get redis json (Keys.user_progress user topic))
    cached_or_found user topic hit

module _ {T : Type 0 → Type 0} {R : Type 0} (prisma : Prisma T) (redis : Redis R) where
  unfoldable pub update_progress : String → String → Bool → Action (World T R) Done
  unfolding find_by_user_and_topic upsert
  update_progress user topic correct = do
    existing ← find_by_user_and_topic prisma user topic
    let solved : ℕ = solved_after existing
    let right : ℕ = correct_after existing correct
    upsert prisma user topic solved right (record { over = right; under = solved })
    cached (del redis (Keys.user_progress user topic ∷ []))
    pure tt
