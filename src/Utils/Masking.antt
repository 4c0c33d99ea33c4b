-- ===== src/Utils/Masking.antt =====
-- common/utils.ts: how `maskSensitiveData` hides a text. Every character is taken to be one unit of
-- UTF-16, so that `substring` cuts none in two.
use Prim.Native.Char.{code}
use Prim.Native.String.{◌∷◌, []}
use text.Mathlib.TextLemmas.{cons-append, nil-append}
use mathplat.Common.{
  ℕ, suc, ◌+◌, ◌*◌, ◌-◌, ◌≤◌, String, Bool, true, ◌&&◌, ◌≡◌, refl, if◌then◌else◌, leb, ltb, arith,
}
use mathplat.Common.Text.{◌⧺◌, utf16_length, take}

-- `s.substring(n)`
unfoldable pub drop : ℕ → String → String
drop ℕ.zero s = s
drop (suc n) [] = []
drop (suc n) (c ∷ s) = drop n s

-- `'*'.repeat(n)`
unfoldable pub stars : ℕ → String
stars ℕ.zero = []
stars (suc n) = "*" ∷ stars n

abbrev pub min : ℕ → ℕ → ℕ
min a b = if leb a b then a else b

-- `maskSensitiveData`
unfoldable pub mask_sensitive_data : String → (visible_chars : ℕ) → String
mask_sensitive_data value n =
    if leb (utf16_length value) (n * 2)
    then stars (utf16_length value)
    else take n value
      ⧺ stars (min (utf16_length value - n * 2) 10)
      ⧺ drop (utf16_length value - n) value

-- Each character is one unit.
unfoldable pub is_basic : String → Bool
is_basic [] = true
is_basic (c ∷ s) = ltb (code c) 0x10000 && is_basic s

utf16_length-append : (s t : String) → utf16_length (s ⧺ t) ≡ utf16_length s + utf16_length t
unfolding utf16_length
utf16_length-append [] t = rw (nil-append t) (omega arith)
utf16_length-append (c ∷ s) t = rw (cons-append c s t, utf16_length-append s t) (omega arith)

utf16_length-stars : (n : ℕ) → utf16_length (stars n) ≡ n
unfolding utf16_length stars
utf16_length-stars ℕ.zero = refl
utf16_length-stars (suc n) = rw (utf16_length-stars n) (omega arith)

utf16_length-take :
    (n : ℕ) (s : String) → is_basic s ≡ true → n ≤ utf16_length s → utf16_length (take n s) ≡ n
unfolding utf16_length take is_basic
utf16_length-take ℕ.zero s h le = refl
utf16_length-take (suc n) [] h le = ground arith
utf16_length-take (suc n) (c ∷ s) h le = ground (arith, utf16_length-take n s)

utf16_length-drop :
    (n : ℕ) (s : String) → is_basic s ≡ true → utf16_length (drop n s) ≡ utf16_length s - n
unfolding utf16_length drop is_basic
utf16_length-drop ℕ.zero s h = omega arith
utf16_length-drop (suc n) [] h = omega arith
utf16_length-drop (suc n) (c ∷ s) h = ground (arith, utf16_length-drop n s)

-- A masked text of n characters shown at each end is as long as the value, but at most 2n + 10: of a
-- longer value it does not tell the length. Every character of the value is one unit.
pub mask_sensitive_data-length :
    (value : String) (n : ℕ)
    → is_basic value ≡ true
    → utf16_length (mask_sensitive_data value n) ≡ min (utf16_length value) (n * 2 + 10)
unfolding mask_sensitive_data
mask_sensitive_data-length value n h =
    let len : ℕ = utf16_length value in
    let middle : ℕ = min (len - n * 2) 10 in
    let start : String = take n value in
    let last : String = drop (len - n) value in
    ground (
      arith,
      utf16_length-stars len,
      utf16_length-stars middle,
      utf16_length-append start (stars middle ⧺ last),
      utf16_length-append (stars middle) last,
      utf16_length-take n value h,
      utf16_length-drop (len - n) value h,
    )
