-- ===== src/Common/Splitting.antt =====
-- What `split` gives of a text with one separator.
use Prim.Native.Char.{Char, code}
use Prim.Native.Nat.{ℕ}
use Prim.Native.String.{String, [], ◌∷◌}
use mathlib.Core.Path.{◌≡◌, refl}
use mathlib.Core.Bool.{Bool, true, false, ◌&&◌, not}
use mathlib.Core.List.{List}
use native.Mathlib.Omega.{arith}
use text.Mathlib.TextLemmas.{cons-append, append_assoc, append-nil, nil-append}
use mathplat.Common.Tests.{num_eq}
use mathplat.Common.Text.{◌⧺◌, split, split_from}

-- The character is nowhere in the text.
abbrev pub lacks : ℕ → String → Bool
lacks sep [] = true
lacks sep (c ∷ s) = not (num_eq (code c) sep) && lacks sep s

pub split_from-plain :
    (sep : ℕ) (cur s : String)
    → lacks sep s ≡ true
    → split_from sep cur s ≡ List.◌∷◌ (cur ⧺ s) List.[]
unfolding split_from
split_from-plain sep cur [] h = rw (append-nil cur) refl
split_from-plain sep cur (c ∷ s) h =
    let apart : num_eq (code c) sep ≡ false = ground arith in
    let rest = split_from-plain sep (cur ⧺ (c ∷ [])) s (ground arith) in
    rw (apart, rest, append_assoc cur (c ∷ []) s, cons-append c [] s, nil-append s) refl

pub split_from-at :
    (sep : ℕ) (d : Char) (cur s t : String)
    → num_eq (code d) sep ≡ true
    → lacks sep s ≡ true
    → split_from sep cur (s ⧺ (d ∷ t)) ≡ List.◌∷◌ (cur ⧺ s) (split_from sep "" t)
unfolding split_from
split_from-at sep d cur [] t here h = rw (nil-append (d ∷ t), here, append-nil cur) refl
split_from-at sep d cur (c ∷ s) t here h =
    let apart : num_eq (code c) sep ≡ false = ground arith in
    let rest = split_from-at sep d (cur ⧺ (c ∷ [])) s t here (ground arith) in
    rw
      (
        cons-append c s (d ∷ t),
        apart,
        rest,
        append_assoc cur (c ∷ []) s,
        cons-append c [] s,
        nil-append s,
      )
      refl

-- Two parts without the separator.
pub split-pair :
    (sep : ℕ) (d : Char) (s t : String)
    → num_eq (code d) sep ≡ true
    → lacks sep s ≡ true
    → lacks sep t ≡ true
    → split sep (s ⧺ (d ∷ t)) ≡ List.◌∷◌ s (List.◌∷◌ t List.[])
unfolding split
split-pair sep d s t here h k =
    rw (split_from-at sep d "" s t here h, split_from-plain sep "" t k, nil-append s, nil-append t)
      refl

pub lacks-append :
    (sep : ℕ) (s t : String) → lacks sep s ≡ true → lacks sep t ≡ true → lacks sep (s ⧺ t) ≡ true
lacks-append sep [] t h k = rw (nil-append t) k
lacks-append sep (c ∷ s) t h k =
    let rest = lacks-append sep s t (ground arith) k in
    let apart : num_eq (code c) sep ≡ false = ground arith in
    rw (cons-append c s t, apart, rest) refl
