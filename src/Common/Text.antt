-- ===== src/Common/Text.antt =====
-- The string methods of JavaScript that the program uses, over the characters of a text.
use Prim.Native.Char.{code}
use Prim.Native.Nat.{ℕ, suc, ◌+◌, ◌-◌, ◌*◌}
use Prim.Native.String
use Prim.Native.String.{String, [], ◌∷◌}
use mathlib.Core.Bool.{Bool, true, false, ◌&&◌, ◌||◌}
use mathlib.Core.Option
use mathlib.Core.Option.{Option, none, some}
use mathlib.Core.List.{List}
use mathplat.Common.Tests.{leb, ltb, num_eq, if◌then◌else◌, or_else}
use mathplat.Common.Int.{ℤ, pos, negsuc}

infixr 60 ◌⧺◌
-- String concatenation, `a + b`.
abbrev pub ◌⧺◌ : String → String → String
◌⧺◌ = String.◌++◌

abbrev pub is_empty : String → Bool
is_empty [] = true
is_empty (c ∷ s) = false

-- `s.split(sep)` for a separator of one character: the part being read comes first.
unfoldable pub split_from : ℕ → String → String → List String
split_from sep cur [] = List.◌∷◌ cur List.[]
split_from sep cur (c ∷ s) =
    let closed = List.◌∷◌ cur (split_from sep "" s) in
    let longer = split_from sep (cur ⧺ (c ∷ [])) s in if num_eq (code c) sep then closed else longer

unfoldable pub split : ℕ → String → List String
unfolding split_from
split sep s = split_from sep "" s

-- White space and line terminators, as `trim` takes them off.
unfoldable pub is_space : ℕ → Bool
is_space n =
    leb 9 n && leb n 13
    || num_eq n 32
    || num_eq n 0xa0
    || num_eq n 0x1680
    || leb 0x2000 n && leb n 0x200a
    || num_eq n 0x2028
    || num_eq n 0x2029
    || num_eq n 0x202f
    || num_eq n 0x205f
    || num_eq n 0x3000
    || num_eq n 0xfeff

unfoldable pub trim_start : String → String
trim_start [] = []
trim_start (c ∷ s) = if is_space (code c) then trim_start s else c ∷ s

unfoldable pub trim_end : String → String
trim_end [] = []
trim_end (c ∷ s) =
    let rest = trim_end s in if is_space (code c) && is_empty rest then [] else c ∷ rest

-- `s.trim()`
unfoldable pub trim : String → String
unfolding trim_start trim_end
trim s = trim_end (trim_start s)

is_digit : ℕ → Bool
is_digit n = leb b'0' n && leb n b'9'

-- The value of the leading digits; `none` stands for `NaN`, where there are none.
digits_from : Option ℕ → String → Option ℕ
unfolding is_digit
digits_from acc [] = acc
digits_from acc (c ∷ s) =
    let more = digits_from (some (or_else acc 0 * 10 + (code c - b'0'))) s in
    if is_digit (code c) then more else acc

negate : ℕ → ℤ
negate ℕ.zero = pos 0
negate (suc n) = negsuc n

signed : String → Option ℤ
unfolding digits_from negate
signed [] = none
signed (c ∷ s) =
    if num_eq (code c) b'-'
    then Option.map negate (digits_from none s)
    else if num_eq (code c) b'+'
    then Option.map pos (digits_from none s)
    else Option.map pos (digits_from none (c ∷ s))

-- `parseInt(s, 10)`
unfoldable pub parse_int : String → Option ℤ
unfolding signed trim_start
parse_int s = signed (trim_start s)

-- `s.length`, in units of UTF-16.
unfoldable pub utf16_length : String → ℕ
utf16_length [] = 0
utf16_length (c ∷ s) = (if leb 0x10000 (code c) then 2 else 1) + utf16_length s

-- `Buffer.from(s).length`, in bytes of UTF-8.
unfoldable pub utf8_length : String → ℕ
utf8_length [] = 0
utf8_length (c ∷ s) =
    (if ltb (code c) 0x80
      then 1
      else if ltb (code c) 0x800
      then 2
      else if ltb (code c) 0x10000
      then 3
      else 4)
    + utf8_length s

-- The first characters, `s.slice(0, n)` of a text in which each is one unit.
unfoldable pub take : ℕ → String → String
take ℕ.zero s = []
take (suc n) [] = []
take (suc n) (c ∷ s) = c ∷ take n s
