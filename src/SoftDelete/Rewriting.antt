-- ===== src/SoftDelete/Rewriting.antt =====
-- What core/database/soft-delete.middleware.ts makes of the queries.
use mathplat.Common.{
  ℕ, String, Bool, ◌≡◌, ◌≢◌, refl, true, false, Option, none, some, List, [], ◌∷◌, arith, ◌⊎◌, inl,
  inr, or_else, Bool-cases, ◌==◌,
}
use mathplat.Common.Outcome.{Outcome, ok, throws, fault}
use mathplat.Common.StrSet
use mathplat.Common.Dict
use mathplat.SoftDelete.{
  Operation, find_first, find_many, find_unique, find_unique_or_throw, find_first_or_throw, count,
  delete, delete_many, update, update_many, create, upsert, other, null, time, Members, Args,
  Params, is_soft, is_read, is_undefined, args_of, live_only, read_args, rewrite,
}

-- The models of prisma/schema.prisma, all of which have a column `deletedAt`.
abbrev pub models : List String
models =
    "User" ∷ "UserSession" ∷ "Curriculum" ∷ "Chapter" ∷ "Section" ∷ "Topic" ∷ "LearningObjective"
    ∷ "Problem" ∷ "UserProblemAttempt" ∷ "UserProgress" ∷ "Achievement" ∷ "UserAchievement"
    ∷ "UserStats" ∷ []

abbrev pub has_column : Option String → Bool
has_column none = false
has_column (some model) = StrSet.has model models

-- The operations that read rows one by one, or count them.
pub data Reads : Operation → Type 0 where
  first_row : Reads find_first
  rows : Reads find_many
  unique : Reads find_unique
  unique_there : Reads find_unique_or_throw
  first_there : Reads find_first_or_throw
  number : Reads count

-- What a deletion becomes.
pub data Becomes : Operation → Operation → Type 0 where
  one : Becomes delete update
  many : Becomes delete_many update_many

-- The condition on `deletedAt` of a read: the caller's own, or `null` if there is none.
abbrev pub IsLive : Members → Members → Type 0
IsLive before after =
    (is_undefined (Dict.get "deletedAt" before) ≡ true) × (Dict.get "deletedAt" after ≡ some null)
    ⊎ (is_undefined (Dict.get "deletedAt" before) ≡ false)
      × (Dict.get "deletedAt" after ≡ Dict.get "deletedAt" before)

-- A read of live rows, all other conditions and arguments as they were.
abbrev pub IsLiveRead : Params → Params → Type 0
IsLiveRead p q =
    Reads p.action
    × (q.action ≡ p.action)
    × (q.model ≡ p.model)
    × ((where_ : Members) × (a : Args) × (q.args ≡ some a)
        × (a.where_ ≡ some where_)
        × IsLive (or_else (args_of p.args).where_ []) where_
        × ((j : String)
            → ("deletedAt" == j) ≡ false
            → Dict.get j where_ ≡ Dict.get j (or_else (args_of p.args).where_ []))
        × (a.data_ ≡ (args_of p.args).data_)
        × (a.rest ≡ (args_of p.args).rest))

-- A deletion that has become an update, which marks the rows under the same conditions.
abbrev pub IsMarked : ℕ → Params → Params → Type 0
IsMarked now p q =
    Becomes p.action q.action
    × (q.model ≡ p.model)
    × ((a : Args) × (q.args ≡ some a)
        × (a.where_ ≡ (args_of p.args).where_)
        × (a.data_ ≡ some (("deletedAt", time now) ∷ []))
        × (a.rest ≡ (args_of p.args).rest))

-- Neither a read nor a deletion.
abbrev pub IsOther : Operation → Type 0
IsOther a = (Reads a → ⊥) × (a ≢ delete) × (a ≢ delete_many)

abbrev pub Rewritten : ℕ → Params → Outcome Params → Type 0
Rewritten now p r =
    ((q : Params) × (r ≡ ok q) × (has_column p.model ≡ true) × (IsLiveRead p q ⊎ IsMarked now p q))
    ⊎ (r ≡ ok p) × ((has_column p.model ≡ false) ⊎ IsOther p.action)
    ⊎ (has_column p.model ≡ true)
      × (p.action ≡ delete)
      × (p.args ≡ none)
      × ((e : String) × (r ≡ throws (fault e)))

live_only-IsLive : (m : Members) → IsLive m (live_only m)
unfolding live_only
live_only-IsLive m = elim (Bool-cases (is_undefined (Dict.get "deletedAt" m))) [
  | inl e ↦ inl (e, rw e (Dict.get-put "deletedAt" "deletedAt" null m))
  | inr e ↦ inr (e, rw e refl)
]

live_only-others :
    (m : Members) (j : String)
    → ("deletedAt" == j) ≡ false
    → Dict.get j (live_only m) ≡ Dict.get j m
unfolding live_only
live_only-others m j ne = ground (arith, Dict.get-put "deletedAt" j null m)

read-IsLiveRead :
    (p : Params)
    → Reads p.action
    → IsLiveRead p (record p { args = some (read_args (args_of p.args)) })
read-IsLiveRead p h =
    let conditions : Members = or_else (args_of p.args).where_ [] in
    (
      h,
      refl,
      refl,
      (
        live_only conditions,
        read_args (args_of p.args),
        refl,
        refl,
        live_only-IsLive conditions,
        live_only-others conditions,
        refl,
        refl,
      ),
    )

abbrev query : Option String → Option Args → Operation → Params
query m o a = record { model = m; action = a; args = o }

delete-Rewritten :
    (now : ℕ) (m : Option String) (o : Option Args)
    → is_soft m ≡ true
    → Rewritten now (query m o delete) (rewrite now (query m o delete))
unfolding rewrite is_read
delete-Rewritten now m none e =
    rw e
      (inr (inr (refl, refl, refl, ("Cannot set properties of undefined (setting 'data')", refl))))
delete-Rewritten now m (some a) e =
    rw e (inl (_, refl, refl, inr (one, refl, (_, refl, refl, refl, refl))))

module _ (now : ℕ) (m : Option String) (o : Option Args) where
  read-Rewritten :
      (a : Operation)
      → is_soft m ≡ true
      → is_read a ≡ true
      → Reads a
      → Rewritten now (query m o a) (rewrite now (query m o a))
  unfolding rewrite
  read-Rewritten a e reads h =
      rw (e, reads)
        (inl (
          record { model = m; action = a; args = some (read_args (args_of o)) },
          refl,
          refl,
          inl (read-IsLiveRead (query m o a) h),
        ))

  soft-Rewritten :
      (a : Operation) → is_soft m ≡ true → Rewritten now (query m o a) (rewrite now (query m o a))
  unfolding rewrite is_read
  soft-Rewritten find_first e = read-Rewritten find_first e refl first_row
  soft-Rewritten find_many e = read-Rewritten find_many e refl rows
  soft-Rewritten find_unique e = read-Rewritten find_unique e refl unique
  soft-Rewritten find_unique_or_throw e = read-Rewritten find_unique_or_throw e refl unique_there
  soft-Rewritten find_first_or_throw e = read-Rewritten find_first_or_throw e refl first_there
  soft-Rewritten count e = read-Rewritten count e refl number
  soft-Rewritten delete e = delete-Rewritten now m o e
  soft-Rewritten delete_many e =
      rw e (inl (_, refl, refl, inr (many, refl, (_, refl, refl, refl, refl))))
  soft-Rewritten update e = rw e (inr (inl (refl, inr (λ h. elim h [ ], λ h. cc, λ h. cc))))
  soft-Rewritten update_many e = rw e (inr (inl (refl, inr (λ h. elim h [ ], λ h. cc, λ h. cc))))
  soft-Rewritten create e = rw e (inr (inl (refl, inr (λ h. elim h [ ], λ h. cc, λ h. cc))))
  soft-Rewritten upsert e = rw e (inr (inl (refl, inr (λ h. elim h [ ], λ h. cc, λ h. cc))))
  soft-Rewritten (other name) e = rw e (inr (inl (refl, inr (λ h. elim h [ ], λ h. cc, λ h. cc))))

-- Whatever the query, one of four holds. It is a read of a model with a column `deletedAt`: then it
-- goes on as it was, but with the condition that `deletedAt` is null unless the caller has a
-- condition on it, all other conditions kept. Or it is a deletion from such a model: then it goes on as
-- the update, under the same conditions, that sets `deletedAt` to the present time. Or it is of no such
-- model, or neither a read nor a deletion: then it goes on as it was. Or it is a `delete` from
-- such a model without any arguments: then it is not sent, and an error is thrown.
pub rewrite-Rewritten : (now : ℕ) (p : Params) → Rewritten now p (rewrite now p)
unfolding rewrite
rewrite-Rewritten now p = elim (Bool-cases (is_soft p.model)) [
  | inl e ↦ soft-Rewritten now p.model p.args p.action e
  | inr e ↦ rw e (inr (inl (refl, inl refl)))
]
