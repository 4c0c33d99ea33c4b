-- ===== src/Problem/Conditions.antt =====
-- The condition of the list in problem/problem.repository.ts, and what it asks for.
use Prim.Native.String as Str
use mathplat.Common.{
  ℕ, ◌≤◌, String, ◌≡◌, refl, Bool, true, false, ◌&&◌, ◌↔◌, ◌⊎◌, Option, none, some, inl, inr, arith,
  ◌∙◌, ap, sym, eq_iff, num_eq, is_none, ◌||◌,
}
use mathplat.Common.Text.{is_empty}
use mathplat.Prisma.{Prisma}
use mathplat.World.{
  ProblemType, multiple_choice, short_answer, essay, true_false, fill_in_blank, Problem,
}
use mathplat.Problem.Pages.{
  ProblemFilter, passes, wants_text, wants_optional, wants_kind, at_least, at_most, kind_code,
}

-- A filter that is absent or empty asks for nothing.
abbrev pub Asks : (String → Type 0) → Option String → Type 0
Asks P none = Unit
Asks P (some t) = (t ≡ "") ⊎ P t

abbrev pub Above : Option ℕ → ℕ → Type 0
Above none n = Unit
Above (some m) n = m ≤ n

abbrev pub Below : Option ℕ → ℕ → Type 0
Below none n = Unit
Below (some m) n = n ≤ m

abbrev pub OfKind : Option ProblemType → ProblemType → Type 0
OfKind none k = Unit
OfKind (some j) k = k ≡ j

module _ {T : Type 0 → Type 0} (prisma : Prisma T) where
  -- Not deleted, and everything that the filter asks for.
  abbrev pub Wanted : ProblemFilter → Problem → Type 0
  Wanted f p =
      (p.deleted_at ≡ none)
      × Asks (λ t. prisma.collate p.topic_id ≡ prisma.collate t) f.topic_id
      × Asks (λ t. (s : String) × (p.objective_id ≡ some s) × (prisma.collate s ≡ prisma.collate t))
          f.objective_id
      × OfKind f.kind p.kind
      × Above f.difficulty_min p.difficulty
      × Below f.difficulty_max p.difficulty

  both : (a b : Bool) {P Q : Type 0} → (a ≡ true) ↔ P → (b ≡ true) ↔ Q → ((a && b) ≡ true) ↔ (P × Q)
  both true true f g = (λ h. (f.0 h, g.0 h), λ h. refl)
  both true false f g = (λ h. cc, λ (p, q). g.1 q)
  both false b f g = (λ h. cc, λ (p, q). f.1 p)

  empty_iff : (t : String) → (is_empty t ≡ true) ↔ (t ≡ "")
  empty_iff Str.[] = (λ h. refl, λ h. refl)
  empty_iff (Str.◌∷◌ c s) = (λ h. cc, λ h. ap is_empty h)

  either :
      (a b : Bool) {P Q : Type 0} → (a ≡ true) ↔ P → (b ≡ true) ↔ Q → ((a || b) ≡ true) ↔ (P ⊎ Q)
  either true b f g = (λ h. inl (f.0 refl), λ h. refl)
  either false true f g = (λ h. inr (g.0 refl), λ h. refl)
  either false false f g = (λ h. cc, λ h. elim h [ inl p ↦ f.1 p | inr q ↦ g.1 q ])

  text_iff :
      (o : Option String) (s : String)
      → (wants_text prisma o s ≡ true) ↔ Asks (λ t. prisma.collate s ≡ prisma.collate t) o
  text_iff none s = (λ h. tt, λ h. refl)
  text_iff (some t) s =
      either (is_empty t) _ (empty_iff t) (eq_iff (prisma.collate s) (prisma.collate t))

  optional_iff :
      (o s : Option String)
      → (wants_optional prisma o s ≡ true)
        ↔ Asks (λ t. (r : String) × (s ≡ some r) × (prisma.collate r ≡ prisma.collate t)) o
  optional_iff none s = (λ h. tt, λ h. refl)
  optional_iff (some t) none =
      (λ h. inl ((empty_iff t).0 h), λ h. elim h [ inl e ↦ (empty_iff t).1 e | inr (r, e, _) ↦ cc ])
  optional_iff (some t) (some s) = either (is_empty t) _ (empty_iff t) (
    λ h. (s, refl, (eq_iff (prisma.collate s) (prisma.collate t)).0 h),
    λ (r, e, same).
        let it : s ≡ r = ground arith in
        (eq_iff (prisma.collate s) (prisma.collate t)).1 (rw it same),
  )

  of_code : ℕ → ProblemType
  of_code n = elim (num_eq n 0) [
    | true ↦ multiple_choice
    | false ↦ elim (num_eq n 1) [
      | true ↦ short_answer
      | false ↦ elim (num_eq n 2) [
        | true ↦ essay
        | false ↦ elim (num_eq n 3) [ true ↦ true_false | false ↦ fill_in_blank ]
      ]
    ]
  ]

  code-of : (k : ProblemType) → of_code (kind_code k) ≡ k
  unfolding of_code
  code-of multiple_choice = refl
  code-of short_answer = refl
  code-of essay = refl
  code-of true_false = refl
  code-of fill_in_blank = refl

  num_eq_refl : (n : ℕ) → num_eq n n ≡ true
  num_eq_refl n = ground arith

  kind_iff : (o : Option ProblemType) (k : ProblemType) → (wants_kind o k ≡ true) ↔ OfKind o k
  kind_iff none k = (λ h. tt, λ h. refl)
  kind_iff (some j) k = (
    λ h.
        let same : kind_code k ≡ kind_code j = ground arith in
        sym (code-of k) ∙ ap of_code same ∙ code-of j,
    λ h. rw h (num_eq_refl (kind_code j)),
  )

  low_iff : (o : Option ℕ) (n : ℕ) → (at_least o n ≡ true) ↔ Above o n
  low_iff none n = (λ h. tt, λ h. refl)
  low_iff (some m) n = (λ h. ground arith, λ h. ground arith)

  high_iff : (o : Option ℕ) (n : ℕ) → (at_most o n ≡ true) ↔ Below o n
  high_iff none n = (λ h. tt, λ h. refl)
  high_iff (some m) n = (λ h. ground arith, λ h. ground arith)

  undeleted_iff : (o : Option ℕ) → (is_none o ≡ true) ↔ (o ≡ none)
  undeleted_iff none = (λ h. refl, λ h. refl)
  undeleted_iff (some n) = (λ h. cc, λ h. cc)

  -- The condition of the query is what is wanted.
  pub passes_iff : (f : ProblemFilter) (p : Problem) → (passes prisma f p ≡ true) ↔ Wanted f p
  unfolding passes
  passes_iff f p =
      let (to, from) =
        both _ _
          (both _ _
            (both _ _
              (both _ _ (both _ _ (undeleted_iff p.deleted_at) (text_iff f.topic_id p.topic_id))
                (optional_iff f.objective_id p.objective_id))
              (kind_iff f.kind p.kind))
            (low_iff f.difficulty_min p.difficulty))
          (high_iff f.difficulty_max p.difficulty) in
      (
        λ h.
            let (((((alive, topic), objective), kind), low), high) = to h in
            (alive, topic, objective, kind, low, high),
        λ (alive, topic, objective, kind, low, high).
            from (((((alive, topic), objective), kind), low), high),
      )
