-- ===== src/Common/Triple.antt =====
-- Rules for what holds after a method: of the value and the state if it returns, of the exception
-- and the state if it throws.
use mathlib.Core.Path.{◌≡◌, refl}
use mathlib.Core.Bool.{Bool, true, false}
use mathplat.Common.Tests.{if◌then◌else◌}
use mathplat.Common.Outcome.{Exception, Outcome, ok, throws, Action, pure, throw, proceed, ◌>>=◌}

module _ {ℓ} {W A : Type ℓ} where
  abbrev pub Post : (A → W → Type ℓ) → (Exception → W → Type ℓ) → Outcome A → W → Type ℓ
  Post Q E (ok a) w = Q a w
  Post Q E (throws e) w = E e w

  -- From a state with `P`, the method ends with `Q` or throws with `E`.
  pub record Triple (P : W → Type ℓ) (m : Action W A) (Q : A → W → Type ℓ)
      (E : Exception → W → Type ℓ) : Type ℓ where
    pub at : (w : W) → P w → Post Q E (m w).0 (m w).1

  -- `P` stays, whatever happens.
  abbrev pub Keeps : (W → Type ℓ) → Action W A → Type ℓ
  Keeps P m = Triple P m (λ _ w. P w) (λ _ w. P w)

  pub Keeps-pure : {P : W → Type ℓ} (a : A) → Keeps P (pure a)
  Keeps-pure a = record { at = λ w h. h }

  pub Keeps-throw : {P : W → Type ℓ} (e : Exception) → Keeps P (throw {A = A} e)
  Keeps-throw e = record { at = λ w h. h }

  pub Triple-if :
      {P : W → Type ℓ} {Q : A → W → Type ℓ} {E : Exception → W → Type ℓ} (b : Bool)
      {m n : Action W A}
      → (b ≡ true → Triple P m Q E)
      → (b ≡ false → Triple P n Q E)
      → Triple P (if b then m else n) Q E
  Triple-if true km kn = km refl
  Triple-if false km kn = kn refl

  pub Post-state :
      (P : W → Type ℓ) (r : Outcome A) (w : W) → Post (λ _ w. P w) (λ _ w. P w) r w → P w
  Post-state P (ok a) w h = h
  Post-state P (throws e) w h = h

  -- What a method keeps holds of the state that it leaves.
  pub Keeps-state : {P : W → Type ℓ} {m : Action W A} → Keeps P m → (w : W) → P w → P (m w).1
  Keeps-state {P} {m} k w h = Post-state P (m w).0 (m w).1 (k.at w h)

  -- It is enough that `P` holds of the state that the method leaves.
  Post-keeps : (P : W → Type ℓ) (r : Outcome A) (w : W) → P w → Post (λ _ w. P w) (λ _ w. P w) r w
  Post-keeps P (ok a) w h = h
  Post-keeps P (throws e) w h = h

  pub Keeps-step : {P : W → Type ℓ} {m : Action W A} → ((w : W) → P w → P (m w).1) → Keeps P m
  Keeps-step {P} {m} k = record { at = λ w h. Post-keeps P (m w).0 (m w).1 (k w h) }

  Post-forget :
      (P : W → Type ℓ) (Q : A → W → Type ℓ) (E : Exception → W → Type ℓ) (r : Outcome A) (w : W)
      → Post Q E r w
      → Post Q (λ _ _. Unit) r w
  Post-forget P Q E (ok a) w h = h
  Post-forget P Q E (throws e) w h = tt

  Post-result :
      (P : W → Type ℓ) (o r : Outcome A) (w : W)
      → o ≡ r
      → Post (λ _ w. P w) (λ _ w. P w) r w
      → Post (λ a w. (o ≡ ok a) × P w) (λ _ _. Unit) r w
  Post-result P o (ok a) w e h = (e, h)
  Post-result P o (throws x) w e h = tt

  -- A method from one state: its result is that of a run from there.
  pub Triple-result :
      {P : W → Type ℓ} {m : Action W A} (start : W)
      → P start
      → Keeps P m
      → Triple (λ w. w ≡ start) m (λ a w. ((m start).0 ≡ ok a) × P w) (λ _ _. Unit)
  Triple-result {P} {m} start h k = record {
    at = λ w e. rw e (Post-result P (m start).0 (m start).0 (m start).1 refl (k.at start h));
  }

  -- A fact that is not about the state may be used for the method.
  pub Triple-fact :
      {F : Type ℓ} {P : W → Type ℓ} {Q : A → W → Type ℓ} {E : Exception → W → Type ℓ}
      {m : Action W A}
      → (F → Triple P m Q E)
      → Triple (λ w. F × P w) m Q E
  Triple-fact k = record { at = λ w (f, h). (k f).at w h }

  Post-weaken :
      (Q Q' : A → W → Type ℓ) (E E' : Exception → W → Type ℓ) (r : Outcome A) (w : W)
      → ((a : A) (w : W) → Q a w → Q' a w)
      → ((e : Exception) (w : W) → E e w → E' e w)
      → Post Q E r w
      → Post Q' E' r w
  Post-weaken Q Q' E E' (ok a) w q e h = q a w h
  Post-weaken Q Q' E E' (throws x) w q e h = e x w h

  -- From less to more, and from more to less.
  pub Triple-weaken :
      {P P' : W → Type ℓ} {Q Q' : A → W → Type ℓ} {E E' : Exception → W → Type ℓ} {m : Action W A}
      → ((w : W) → P' w → P w)
      → ((a : A) (w : W) → Q a w → Q' a w)
      → ((e : Exception) (w : W) → E e w → E' e w)
      → Triple P m Q E
      → Triple P' m Q' E'
  Triple-weaken {Q} {Q'} {E} {E'} {m} p q e k = record {
    at = λ w h. Post-weaken Q Q' E E' (m w).0 (m w).1 q e (k.at w (p w h));
  }

  Post-both :
      (Q Q' : A → W → Type ℓ) (E E' : Exception → W → Type ℓ) (r : Outcome A) (w : W)
      → Post Q E r w
      → Post Q' E' r w
      → Post (λ a w. Q a w × Q' a w) (λ e w. E e w × E' e w) r w
  Post-both Q Q' E E' (ok a) w h k = (h, k)
  Post-both Q Q' E E' (throws x) w h k = (h, k)

  -- Two things that hold after the same method.
  pub Triple-both :
      {P P' : W → Type ℓ} {Q Q' : A → W → Type ℓ} {E E' : Exception → W → Type ℓ} {m : Action W A}
      → Triple P m Q E
      → Triple P' m Q' E'
      → Triple (λ w. P w × P' w) m (λ a w. Q a w × Q' a w) (λ e w. E e w × E' e w)
  Triple-both {Q} {Q'} {E} {E'} {m} h k = record {
    at = λ w (p, p'). Post-both Q Q' E E' (m w).0 (m w).1 (h.at w p) (k.at w p');
  }

  -- With nothing said of exceptions.
  pub Triple-forget :
      {P : W → Type ℓ} {Q : A → W → Type ℓ} {E : Exception → W → Type ℓ} {m : Action W A}
      → Triple P m Q E
      → Triple P m Q (λ _ _. Unit)
  Triple-forget {P} {Q} {E} {m} k = record {
    at = λ w h. Post-forget P Q E (m w).0 (m w).1 (k.at w h);
  }

module _ {ℓ} {W A B : Type ℓ} where
  Post-proceed :
      (Q : A → W → Type ℓ) (S : B → W → Type ℓ) (E : Exception → W → Type ℓ) (f : A → Action W B)
      → ((a : A) → Triple (Q a) (f a) S E)
      → (r : Outcome A) (w : W) → Post Q E r w
      → Post S E (proceed r f w).0 (proceed r f w).1
  Post-proceed Q S E f k (ok a) w h = (k a).at w h
  Post-proceed Q S E f k (throws e) w h = h

  pub bind :
      {P : W → Type ℓ} {Q : A → W → Type ℓ} {S : B → W → Type ℓ} {E : Exception → W → Type ℓ}
      {m : Action W A} {f : A → Action W B}
      → Triple P m Q E
      → ((a : A) → Triple (Q a) (f a) S E)
      → Triple P (m >>= f) S E
  bind {Q} {S} {E} {m} {f} head rest = record {
    at = λ w h. Post-proceed Q S E f rest (m w).0 (m w).1 (head.at w h);
  }
