-- ===== src/Setup/Reading.antt =====
-- setup/setup.server.ts: how a line that is written is read.
use Prim.Native.Char.{code}
use Prim.Native.String.{[], ◌∷◌}
use text.Mathlib.TextLemmas.{cons-append, nil-append, append-nil}
use mathplat.Common.{
  ℕ, String, ◌≡◌, refl, Bool, true, false, not, ◌&&◌, num_eq, some, List, sym, subst,
}
use mathplat.Common.Dict
use mathplat.Common.Text.{◌⧺◌, trim, trim_start, trim_end, is_space, is_empty}
use mathplat.Common.Splitting.{lacks}
use mathplat.Setup.{cut, starts_with, is_quoted, read_line, entry, write_line}

-- A character of a key.
abbrev is_key_char : ℕ → Bool
is_key_char n =
    not (is_space n) && not (num_eq n b'=') && not (num_eq n b'#') && not (num_eq n b'\n')

abbrev pub all_key_chars : String → Bool
all_key_chars [] = true
all_key_chars (c ∷ s) = is_key_char (code c) && all_key_chars s

abbrev pub is_key : String → Bool
is_key s = not (is_empty s) && all_key_chars s

-- A value that a line can hold: without white space at its ends, without an end of line, and not
-- within quotation marks.
pub record IsPlain (v : String) : Type 0 where
  pub starts : trim_start v ≡ v
  pub ends : trim_end v ≡ v
  pub one_line : lacks b'\n' v ≡ true
  pub bare : is_quoted v ≡ false

and_left : (a b : Bool) → (a && b) ≡ true → a ≡ true
and_left true b e = refl
and_left false b e = e

and_right : (a b : Bool) → (a && b) ≡ true → b ≡ true
and_right true b e = e
and_right false b e = cc

false_of_not : (a : Bool) → not a ≡ true → a ≡ false
false_of_not true e = sym e
false_of_not false e = refl

-- What a character of a key is not.
key_char-lem :
    (n : ℕ)
    → is_key_char n ≡ true
    → (is_space n ≡ false)
      × (num_eq n b'=' ≡ false)
      × (num_eq n b'#' ≡ false)
      × (num_eq n b'\n' ≡ false)
key_char-lem n e =
    let three = and_left (not (is_space n) && not (num_eq n b'=') && not (num_eq n b'#')) _ e in
    let two = and_left (not (is_space n) && not (num_eq n b'=')) _ three in
    (
      false_of_not (is_space n) (and_left (not (is_space n)) _ two),
      false_of_not (num_eq n b'=') (and_right (not (is_space n)) _ two),
      false_of_not (num_eq n b'#') (and_right (not (is_space n) && not (num_eq n b'=')) _ three),
      false_of_not (num_eq n b'\n')
          (and_right (not (is_space n) && not (num_eq n b'=') && not (num_eq n b'#')) _ e),
    )

trim_end-append :
    (k v : String) → all_key_chars k ≡ true → trim_end v ≡ v → trim_end (k ⧺ v) ≡ k ⧺ v
unfolding trim_end
trim_end-append [] v h e = rw (nil-append v) e
trim_end-append (c ∷ k) v h e =
    let rest = trim_end-append k v (and_right (is_key_char (code c)) _ h) e in
    let (black, _, _, _) = key_char-lem (code c) (and_left _ (all_key_chars k) h) in
    rw (cons-append c k v, rest, black) refl

cut-key : (k v : String) → all_key_chars k ≡ true → cut b'=' (k ⧺ ("=" ∷ v)) ≡ some (k, v)
unfolding cut
cut-key [] v h = rw (nil-append ("=" ∷ v)) refl
cut-key (c ∷ k) v h =
    let rest = cut-key k v (and_right (is_key_char (code c)) _ h) in
    let (_, other, _, _) = key_char-lem (code c) (and_left _ (all_key_chars k) h) in
    rw (cons-append c k ("=" ∷ v), rest, other) refl

lacks-key :
    (k v : String)
    → all_key_chars k ≡ true
    → lacks b'\n' v ≡ true
    → lacks b'\n' (k ⧺ ("=" ∷ v)) ≡ true
lacks-key [] v h e = rw (nil-append ("=" ∷ v)) e
lacks-key (c ∷ k) v h e =
    let rest = lacks-key k v (and_right (is_key_char (code c)) _ h) e in
    let (_, _, _, other) = key_char-lem (code c) (and_left _ (all_key_chars k) h) in
    rw (cons-append c k ("=" ∷ v), rest, other) refl

trim_start-key : (k v : String) → is_key k ≡ true → trim_start (k ⧺ v) ≡ k ⧺ v
unfolding trim_start
trim_start-key [] v h = cc
trim_start-key (c ∷ k) v h =
    let (black, _, _, _) = key_char-lem (code c) (and_left _ (all_key_chars k) h) in
    rw (cons-append c k v, black) refl

trim_end-equals : (v : String) → trim_end v ≡ v → trim_end ("=" ∷ v) ≡ "=" ∷ v
unfolding trim_end is_space
trim_end-equals v e = rw e refl

chars : (k : String) → is_key k ≡ true → all_key_chars k ≡ true
chars [] h = refl
chars (c ∷ k) h = h

-- A key keeps all its characters.
trim-key : (k : String) → is_key k ≡ true → trim k ≡ k
unfolding trim
trim-key k h =
    let start : trim_start k ≡ k =
      subst (λ s. trim_start s ≡ s) (append-nil k) (trim_start-key k "" h) in
    let end : trim_end k ≡ k =
      subst (λ s. trim_end s ≡ s) (append-nil k)
        (trim_end-append k "" (chars k h) (unfold trim_end in refl)) in
    rw (start, end) refl

trim-entry :
    (k v : String) → is_key k ≡ true → trim_end v ≡ v → trim (k ⧺ ("=" ∷ v)) ≡ k ⧺ ("=" ∷ v)
unfolding trim
trim-entry k v h e =
    rw (trim_start-key k ("=" ∷ v) h, trim_end-append k ("=" ∷ v) (chars k h) (trim_end-equals v e))
      refl

no_comment :
    (k v : String)
    → is_key k ≡ true
    → (is_empty (k ⧺ v) ≡ false) × (starts_with b'#' (k ⧺ v) ≡ false)
no_comment [] v h = cc
no_comment (c ∷ k) v h =
    let (_, _, other, _) = key_char-lem (code c) (and_left _ (all_key_chars k) h) in
    (rw (cons-append c k v) refl, rw (cons-append c k v) other)

equals : (v : String) → "=" ⧺ v ≡ "=" ∷ v
equals v = rw (cons-append "=" [] v, nil-append v) refl

-- The line of a variable is read as what it was written from.
pub read_line-entry :
    (k v : String) (m : List (String × String))
    → is_key k ≡ true
    → IsPlain v
    → read_line (trim (write_line (entry k v))) m ≡ Dict.put k v m
read_line-entry k v m h plain =
    let (full, plainly) = no_comment k ("=" ∷ v) h in
    let trimmed : trim v ≡ v = unfold trim in rw (plain.starts, plain.ends) refl in
    rw
      (
        equals v,
        trim-entry k v h plain.ends,
        full,
        plainly,
        cut-key k v (chars k h),
        trim-key k h,
        trimmed,
        plain.bare,
      )
      refl

pub lacks-entry :
    (k v : String)
    → is_key k ≡ true
    → lacks b'\n' v ≡ true
    → lacks b'\n' (write_line (entry k v)) ≡ true
lacks-entry k v h e = rw (equals v) (lacks-key k v (chars k h) e)
