-- ===== src/Rooms/Names.antt =====
-- The names of rooms: the regular expression of core/socket/room-manager.service.ts,
-- `/^(group|channel|user|broadcast):[a-zA-Z0-9_-]+$/`.
use Prim.Native.Char.{code}
use Prim.Native.String.{String, [], ◌∷◌}
use text.Mathlib.TextEquality.{Char-path}
use text.Mathlib.TextLemmas.{cons-append, nil-append, cons-ne-nil}
use mathplat.Common.{
  ℕ, ◌≡◌, ◌≢◌, ◌↔◌, ◌⊎◌, inl, inr, refl, Bool, true, false, ◌&&◌, ◌||◌, not, Option, none, some,
  leb, num_eq, if◌then◌else◌, arith, Bool-cases, ap,
}
use mathplat.Common.Text.{◌⧺◌, is_empty}

-- `[a-zA-Z0-9_-]`
unfoldable pub is_word : ℕ → Bool
is_word n =
    leb b'a' n && leb n b'z'
    || leb b'A' n && leb n b'Z'
    || leb b'0' n && leb n b'9'
    || num_eq n b'_'
    || num_eq n b'-'

unfoldable pub all_words : String → Bool
unfolding is_word
all_words [] = true
all_words (c ∷ s) = is_word (code c) && all_words s

-- What follows a literal at the start of a text.
unfoldable pub strip : String → String → Option String
strip [] s = some s
strip (c ∷ p) [] = none
strip (c ∷ p) (d ∷ s) = if num_eq (code c) (code d) then strip p s else none

abbrev pub is_tail : Option String → Bool
is_tail none = false
is_tail (some s) = not (is_empty s) && all_words s

unfoldable pub is_valid_room_id : String → Bool
unfolding strip all_words
is_valid_room_id s =
    is_tail (strip "group:" s)
    || is_tail (strip "channel:" s)
    || is_tail (strip "user:" s)
    || is_tail (strip "broadcast:" s)

-- A text that begins with the literal `p` and goes on with one or more word characters.
abbrev pub IsNamed : String → String → Type 0
IsNamed p s = (rest : String) × (s ≡ p ⧺ rest) × (rest ≢ "") × (all_words rest ≡ true)

strip_sound : (p s rest : String) → strip p s ≡ some rest → s ≡ p ⧺ rest
unfolding strip
strip_sound [] s rest e = let same : s ≡ rest = cc in rw nil-append same
strip_sound (c ∷ p) [] rest e = cc
strip_sound (c ∷ p) (d ∷ s) rest e = elim (Bool-cases (num_eq (code c) (code d))) [
  | inl same ↦
      let heads : c ≡ d = Char-path c d (ground arith) in
      let tails : s ≡ p ⧺ rest = strip_sound p s rest (ground arith) in rw cons-append (cc)
  | inr other ↦ absurd (ground arith)
]

strip_complete : (p rest : String) → strip p (p ⧺ rest) ≡ some rest
unfolding strip
strip_complete [] rest = ap some (nil-append rest)
strip_complete (c ∷ p) rest = rw cons-append (ground (arith, strip_complete p rest))

is_tail_iff : (p s : String) → (is_tail (strip p s) ≡ true) ↔ IsNamed p s
is_tail_iff p s = (to (strip p s) refl, from)
  where
    to : (o : Option String) → strip p s ≡ o → is_tail o ≡ true → IsNamed p s
    to none e h = cc
    to (some []) e h = cc
    to (some (c ∷ rest)) e h = (c ∷ rest, strip_sound p s (c ∷ rest) e, cons-ne-nil c rest, h)

    from : IsNamed p s → is_tail (strip p s) ≡ true
    from ([], e, filled, words) = absurd (filled refl)
    from (c ∷ rest, e, filled, words) = rw (e, strip_complete p (c ∷ rest)) words

-- A room name is accepted exactly when it is `group:`, `channel:`, `user:` or `broadcast:` followed
-- by one or more letters, digits, underscores or hyphens, and nothing else.
pub is_valid_room_id_iff :
    (s : String)
    → (is_valid_room_id s ≡ true)
      ↔ (IsNamed "group:" s ⊎ IsNamed "channel:" s ⊎ IsNamed "user:" s ⊎ IsNamed "broadcast:" s)
unfolding is_valid_room_id
is_valid_room_id_iff s = ground (
  arith,
  is_tail_iff "group:" s,
  is_tail_iff "channel:" s,
  is_tail_iff "user:" s,
  is_tail_iff "broadcast:" s,
)
