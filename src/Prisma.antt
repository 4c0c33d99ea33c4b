-- ===== src/Prisma.antt =====
-- The database client (Prisma), which the repository does not hold: the queries that the
-- repositories send, as a parameter over the state `T Row` of a table. A `where` clause is the test
-- that its rows pass, the `data` of an update what it makes of a row, and the `data` of a new row
-- the row that it makes with the identifier that the database gives. Any query may throw. Reads
-- leave the table as it is.
pub mod Tables
use mathlib.Core.List.{Perm}
use mathplat.Common.{
  ℕ, String, ◌≡◌, ◌⊎◌, if◌then◌else◌, Bool, Option, some, none, List, [], ◌∷◌, ◌++◌, keep, first,
  length, true, zero, suc, every, not, ◌&&◌,
}
use mathplat.Common.Outcome.{Outcome, ok, throws, fault}

pub record Prisma (T : Type 0 → Type 0) : Type 1 where
  -- the weight of a text in the collation of the columns: a `where` takes texts of equal weight, such
  -- as two that differ in case, for equal
  pub collate : String → String
  pub find_first : {Row : Type 0} → (Row → Bool) → T Row → Outcome (Option Row)
  pub find_many : {Row : Type 0} → (Row → Bool) → T Row → Outcome (List Row)
  -- the rows that pass, in an order, from the `skip`th on, at most `take`
  pub find_page :
      {Row : Type 0}
      → (Row → Bool)
      → (Row → Row → Bool)
      → (skip take : ℕ) → T Row
      → Outcome (List Row)
  pub count : {Row : Type 0} → (Row → Bool) → T Row → Outcome ℕ
  pub create : {Row : Type 0} → (String → Row) → T Row → Outcome Row × T Row
  pub update : {Row : Type 0} → (Row → Bool) → (Row → Row) → T Row → Outcome Row × T Row
  -- how many rows it has changed
  pub update_many : {Row : Type 0} → (Row → Bool) → (Row → Row) → T Row → Outcome ℕ × T Row
  pub upsert :
      {Row : Type 0} → (Row → Bool) → (Row → Row) → (String → Row) → T Row → Outcome Row × T Row
  -- with `include`: the first row that passes, beside the row of another table that it refers to
  pub find_first_with :
      {Row Other : Type 0}
      → (Row → Bool)
      → (Row → Other → Bool)
      → T Row
      → T Other
      → Outcome (Option (Row × Other))

-- The first row that passes, changed.
abbrev pub change : {Row : Type 0} → (Row → Bool) → (Row → Row) → List Row → List Row
change p f [] = []
change p f (r ∷ rs) = if p r then f r ∷ rs else r ∷ change p f rs

-- Every row that passes, changed.
abbrev pub change_all : {Row : Type 0} → (Row → Bool) → (Row → Row) → List Row → List Row
change_all p f [] = []
change_all p f (r ∷ rs) = (if p r then f r else r) ∷ change_all p f rs

-- The row is one of these.
abbrev pub IsAmong : {Row : Type 0} → Row → List Row → Type 0
IsAmong r [] = ⊥
IsAmong r (s ∷ ss) = (r ≡ s) ⊎ IsAmong r ss

abbrev pub skipped : {Row : Type 0} → ℕ → List Row → List Row
skipped zero rs = rs
skipped (suc n) [] = []
skipped (suc n) (r ∷ rs) = skipped n rs

abbrev pub page_of : {Row : Type 0} → ℕ → List Row → List Row
page_of zero rs = []
page_of (suc n) [] = []
page_of (suc n) (r ∷ rs) = r ∷ page_of n rs

-- No later row comes before an earlier one.
abbrev pub is_ordered : {Row : Type 0} → (Row → Row → Bool) → List Row → Bool
is_ordered before [] = true
is_ordered before (r ∷ rs) = every (λ s. not (before s r)) rs && is_ordered before rs

-- What Prisma documents of a query: it throws an error of its own and changes nothing, or does what it says to the rows
-- of its table. `update` throws where no row passes.
pub record IsStore {T : Type 0 → Type 0} (prisma : Prisma T) : Type 1 where
  pub rows : {Row : Type 0} → T Row → List Row
  pub find_first_lem :
      {Row : Type 0} (p : Row → Bool) (t : T Row)
      → (prisma.find_first p t ≡ ok (first p (rows t)))
        ⊎ ((e : String) × (prisma.find_first p t ≡ throws (fault e)))
  pub find_many_lem :
      {Row : Type 0} (p : Row → Bool) (t : T Row)
      → (prisma.find_many p t ≡ ok (keep p (rows t)))
        ⊎ ((e : String) × (prisma.find_many p t ≡ throws (fault e)))
  pub find_page_lem :
      {Row : Type 0} (p : Row → Bool) (before : Row → Row → Bool) (skip take : ℕ) (t : T Row)
      → ((sorted : List Row) × Perm sorted (keep p (rows t))
          × (is_ordered before sorted ≡ true)
          × (prisma.find_page p before skip take t ≡ ok (page_of take (skipped skip sorted))))
        ⊎ ((e : String) × (prisma.find_page p before skip take t ≡ throws (fault e)))
  pub count_lem :
      {Row : Type 0} (p : Row → Bool) (t : T Row)
      → (prisma.count p t ≡ ok (length (keep p (rows t))))
        ⊎ ((e : String) × (prisma.count p t ≡ throws (fault e)))
  pub create_lem :
      {Row : Type 0} (mk : String → Row) (t : T Row)
      → ((id : String) × ((prisma.create mk t).0 ≡ ok (mk id))
          × (rows (prisma.create mk t).1 ≡ rows t ++ mk id ∷ []))
        ⊎ ((e : String) × ((prisma.create mk t).0 ≡ throws (fault e))
            × (rows (prisma.create mk t).1 ≡ rows t))
  pub update_lem :
      {Row : Type 0} (p : Row → Bool) (f : Row → Row) (t : T Row)
      → ((r : Row) × (first p (rows t) ≡ some r)
          × ((prisma.update p f t).0 ≡ ok (f r))
          × (rows (prisma.update p f t).1 ≡ change p f (rows t)))
        ⊎ ((e : String) × ((prisma.update p f t).0 ≡ throws (fault e))
            × (rows (prisma.update p f t).1 ≡ rows t))
  pub upsert_lem :
      {Row : Type 0} (p : Row → Bool) (f : Row → Row) (mk : String → Row) (t : T Row)
      → ((r : Row) × (first p (rows t) ≡ some r)
          × ((prisma.upsert p f mk t).0 ≡ ok (f r))
          × (rows (prisma.upsert p f mk t).1 ≡ change p f (rows t)))
        ⊎ ((id : String) × (first p (rows t) ≡ none)
            × ((prisma.upsert p f mk t).0 ≡ ok (mk id))
            × (rows (prisma.upsert p f mk t).1 ≡ rows t ++ mk id ∷ []))
        ⊎ ((e : String) × ((prisma.upsert p f mk t).0 ≡ throws (fault e))
            × (rows (prisma.upsert p f mk t).1 ≡ rows t))
  pub update_many_lem :
      {Row : Type 0} (p : Row → Bool) (f : Row → Row) (t : T Row)
      → ((n : ℕ) × ((prisma.update_many p f t).0 ≡ ok n)
          × (rows (prisma.update_many p f t).1 ≡ change_all p f (rows t)))
        ⊎ ((e : String) × ((prisma.update_many p f t).0 ≡ throws (fault e))
            × (rows (prisma.update_many p f t).1 ≡ rows t))
  pub find_first_with_lem :
      {Row Other : Type 0} (p : Row → Bool) (refers : Row → Other → Bool) (t : T Row) (o : T Other)
      → (first p (rows t) ≡ none) × (prisma.find_first_with p refers t o ≡ ok none)
        ⊎ ((r : Row) × (s : Other) × (first p (rows t) ≡ some r)
            × (first (refers r) (rows o) ≡ some s)
            × (prisma.find_first_with p refers t o ≡ ok (some (r, s))))
        ⊎ ((e : String) × (prisma.find_first_with p refers t o ≡ throws (fault e)))
