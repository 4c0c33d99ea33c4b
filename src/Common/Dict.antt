-- ===== src/Common/Dict.antt =====
-- JavaScript's `Map` with string keys, as the list of its entries in insertion order.
use Prim.Native.String.{String}
use mathlib.Core.Path.{◌≡◌, refl}
use mathlib.Core.Bool.{Bool}
use mathlib.Core.Option.{Option, none, some}
use mathlib.Core.List.{List, [], ◌∷◌}
use native.Mathlib.Omega.{arith}
use text.Mathlib.Text.{◌==◌}
use text.Mathlib.TextEquality.{eq_iff}
use mathplat.Common.Tests.{if◌then◌else◌, is_some}
use mathplat.Common.Lists.{All}

module _ {ℓ} {V : Type ℓ} where
  -- `map.get(k)`
  unfoldable pub get : String → List (String × V) → Option V
  get k [] = none
  get k ((j, v) ∷ m) = if j == k then some v else get k m

  -- `map.has(k)`
  abbrev pub has : String → List (String × V) → Bool
  has k m = is_some (get k m)

  -- `map.set(k, v)`: a key that is there keeps its place
  unfoldable pub put : String → V → List (String × V) → List (String × V)
  put k v [] = (k, v) ∷ []
  put k v ((j, w) ∷ m) = if j == k then (j, v) ∷ m else (j, w) ∷ put k v m

  -- `map.delete(k)`
  unfoldable pub delete : String → List (String × V) → List (String × V)
  delete k [] = []
  delete k ((j, v) ∷ m) = let rest = delete k m in if j == k then rest else (j, v) ∷ rest

  pub get-put :
      (k j : String) (v : V) (m : List (String × V))
      → get j (put k v m) ≡ (if k == j then some v else get j m)
  unfolding get put
  get-put k j v [] = refl
  get-put k j v ((i, w) ∷ m) = ground (arith, eq_iff k j, eq_iff i k, eq_iff i j, get-put k j v m)

  pub get-delete :
      (k j : String) (m : List (String × V))
      → get j (delete k m) ≡ (if k == j then none else get j m)
  unfolding get delete
  get-delete k j [] = ground arith
  get-delete k j ((i, w) ∷ m) = ground (arith, eq_iff k j, eq_iff i k, eq_iff i j, get-delete k j m)

module _ {ℓ} {V : Type ℓ} where
  -- No key stands twice, as in every `Map`.
  abbrev pub IsMap : List (String × V) → Type ℓ
  IsMap [] = Unit
  IsMap ((j, v) ∷ m) = (get j m ≡ none) × IsMap m

  pub IsMap-put : (k : String) (v : V) (m : List (String × V)) → IsMap m → IsMap (put k v m)
  unfolding put
  IsMap-put k v [] u = (unfold get in refl, tt)
  IsMap-put k v ((j, w) ∷ m) (fresh, u) =
      ground (arith, get-put k j v m, eq_iff j k, eq_iff k j, IsMap-put k v m u)

  pub IsMap-delete : (k : String) (m : List (String × V)) → IsMap m → IsMap (delete k m)
  unfolding delete
  IsMap-delete k [] u = tt
  IsMap-delete k ((j, w) ∷ m) (fresh, u) = ground (arith, get-delete k j m, IsMap-delete k m u)

module _ {ℓ κ} {V : Type ℓ} (P : String × V → Type κ) where
  pub All-put :
      (k : String) (v : V) (m : List (String × V))
      → ((j : String) → P (j, v))
      → All P m
      → All P (put k v m)
  unfolding put
  All-put k v [] new _ = (new k, tt)
  All-put k v ((j, w) ∷ m) new (h, hs) = ground (arith, new j, All-put k v m new hs)

  pub All-delete : (k : String) (m : List (String × V)) → All P m → All P (delete k m)
  unfolding delete
  All-delete k [] _ = tt
  All-delete k ((j, w) ∷ m) (h, hs) = ground (arith, All-delete k m hs)

pub ruleset dict_laws = (get-put, get-delete)
