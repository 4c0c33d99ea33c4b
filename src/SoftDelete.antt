-- ===== src/SoftDelete.antt =====
-- core/database/soft-delete.middleware.ts: what becomes of a query before it goes to the database.
-- The arguments are objects, as lists of members.
pub mod Rewriting
mod Tests
use mathplat.Common.{
  ℕ, String, Bool, true, false, if◌then◌else◌, Option, none, some, List, [], ◌∷◌, or_else,
}
use mathplat.Common.Outcome.{Outcome, ok, throws, fault}
use mathplat.Common.StrSet
use mathplat.Common.Dict

pub data Operation : Type 0 where
  find_first find_many find_unique find_unique_or_throw find_first_or_throw count : Operation
  delete delete_many update update_many create upsert : Operation
  -- any other, by its name
  other : String → Operation

-- The value of a member: undefined, `null`, a time, or anything else, by a text for it.
pub data Value : Type 0 where
  undefined null : Value
  time : ℕ → Value
  given : String → Value

abbrev pub Members : Type 0
Members = List (String × Value)

-- `params.args`: its `where` and its `data`, if it has them, and its other members.
pub record Args : Type 0 where
  pub where_ : Option Members
  pub data_ : Option Members
  pub rest : Members

pub record Params : Type 0 where
  pub model : Option String
  pub action : Operation
  pub args : Option Args

abbrev soft_delete_models : List String
soft_delete_models =
    "User" ∷ "UserSession" ∷ "Curriculum" ∷ "Chapter" ∷ "Section" ∷ "Topic" ∷ "LearningObjective"
    ∷ "Problem" ∷ "UserProblemAttempt" ∷ "UserProgress" ∷ "Achievement" ∷ "UserAchievement"
    ∷ "UserStats" ∷ []

abbrev pub is_soft : Option String → Bool
is_soft none = false
is_soft (some model) = StrSet.has model soft_delete_models

unfoldable pub is_read : Operation → Bool
is_read find_first = true
is_read find_many = true
is_read find_unique = true
is_read find_unique_or_throw = true
is_read find_first_or_throw = true
is_read count = true
is_read delete = false
is_read delete_many = false
is_read update = false
is_read update_many = false
is_read create = false
is_read upsert = false
is_read (other name) = false

abbrev pub no_args : Args
no_args = record { where_ = none; data_ = none; rest = [] }

abbrev pub args_of : Option Args → Args
args_of a = or_else a no_args

abbrev pub is_undefined : Option Value → Bool
is_undefined none = true
is_undefined (some undefined) = true
is_undefined (some null) = false
is_undefined (some (time n)) = false
is_undefined (some (given s)) = false

-- `if (where.deletedAt === undefined) where.deletedAt = null`
unfoldable pub live_only : Members → Members
live_only where_ =
    if is_undefined (Dict.get "deletedAt" where_) then Dict.put "deletedAt" null where_ else where_

abbrev pub read_args : Args → Args
read_args a = record a { where_ = some (live_only (or_else a.where_ [])) }

abbrev read : Params → Params
read p = record p { args = some (read_args (args_of p.args)) }

abbrev mark : ℕ → Args → Option Args
mark now a = some (record a { data_ = some (("deletedAt", time now) ∷ []) })

-- `params.args['data'] = ...` throws if there are no arguments; `deleteMany` makes them.
abbrev erase : ℕ → Params → Operation → Outcome Params
erase now p delete_many = ok (record p { action = update_many; args = mark now (args_of p.args) })
erase now p delete = elim p.args [
  | none ↦ throws (fault "Cannot set properties of undefined (setting 'data')")
  | some a ↦ ok (record p { action = update; args = mark now a })
]
erase now p _ = ok p

-- What goes on to `next`.
unfoldable pub rewrite : ℕ → Params → Outcome Params
unfolding is_read StrSet.has live_only
rewrite now p =
    if is_soft p.model
    then (if is_read p.action then ok (read p) else erase now p p.action)
    else ok p
