-- ===== src/Common/StrSet.antt =====
-- JavaScript's `Set` of strings, as the list of its items in insertion order.
use Prim.Native.String.{String}
use mathlib.Core.Path.{◌≡◌, refl}
use mathlib.Core.Logic.{◌≢◌}
use mathlib.Core.Bool.{Bool, false, not, ◌&&◌, ◌||◌}
use mathlib.Core.List.{List, [], ◌∷◌, ◌++◌}
use native.Mathlib.Omega.{arith}
use text.Mathlib.Text.{◌==◌}
use text.Mathlib.TextEquality.{eq_iff}
use mathplat.Common.Tests.{if◌then◌else◌}
use mathplat.Common.Lists.{keep}

-- `set.has(a)`
unfoldable pub has : String → List String → Bool
has a [] = false
has a (b ∷ s) = b == a || has a s

-- `set.add(a)`
unfoldable pub add : String → List String → List String
unfolding has
add a s = if has a s then s else s ++ a ∷ []

-- `set.delete(a)`
unfoldable pub delete : String → List String → List String
delete a s = keep (λ b. not (b == a)) s

has-append : (a : String) (s t : List String) → has a (s ++ t) ≡ (has a s || has a t)
unfolding has
has-append a [] t = refl
has-append a (b ∷ s) t = ground (arith, has-append a s t)

pub has-add : (a b : String) (s : List String) → has b (add a s) ≡ (a == b || has b s)
unfolding add
has-add a b s = ground (arith, eq_iff a b, has-append b s (a ∷ []))

pub has-delete : (a b : String) (s : List String) → has b (delete a s) ≡ (not (a == b) && has b s)
unfolding has delete
has-delete a b [] = ground arith
has-delete a b (c ∷ s) = ground (arith, eq_iff a b, eq_iff c a, eq_iff c b, has-delete a b s)

pub add-ne-nil : (a : String) (s : List String) → add a s ≢ []
unfolding add has
add-ne-nil a [] = ground arith
add-ne-nil a (b ∷ s) = ground arith
