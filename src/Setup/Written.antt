-- ===== src/Setup/Written.antt =====
-- setup/setup.server.ts: what is read of lines that are written.
use Prim.Native.String.{[], ◌∷◌}
use text.Mathlib.TextLemmas.{cons-append, nil-append}
use mathplat.Common.{
  String, ◌≡◌, refl, Bool, true, ◌||◌, if◌then◌else◌, Option, some, List, map, ◌==◌, All, ◌∙◌, ap,
}
use mathplat.Common.Dict
use mathplat.Common.Dict.{get-put}
use mathplat.Common.Text.{◌⧺◌, split, split_from, trim, trim_start, trim_end, is_empty}
use mathplat.Common.Splitting.{lacks, split_from-plain, split_from-at}
use mathplat.Setup.{
  starts_with, read_line, read_lines, parse_env, join, Line, note, entry, write_line,
}
use mathplat.Setup.Reading.{is_key, IsPlain, read_line-entry, lacks-entry}

-- An empty line, or one that starts a comment.
abbrev pub is_note : String → Bool
is_note s = is_empty s || starts_with b'#' s

-- A line that can be read again.
abbrev pub IsWritable : Line → Type 0
IsWritable (note s) = (is_note (trim s) ≡ true) × (lacks b'\n' s ≡ true)
IsWritable (entry k v) = (is_key k ≡ true) × IsPlain v

-- The variables of the lines, the later over the earlier.
abbrev pub stored : List Line → List (String × String) → List (String × String)
stored List.[] m = m
stored (List.◌∷◌ (note s) ls) m = stored ls m
stored (List.◌∷◌ (entry k v) ls) m = stored ls (Dict.put k v m)

skipped_line : (s : String) (m : List (String × String)) → is_note s ≡ true → read_line s m ≡ m
skipped_line s m e = rw e refl

read_lines-written :
    (ls : List Line) (m : List (String × String))
    → All IsWritable ls
    → read_lines (map write_line ls) m ≡ stored ls m
unfolding read_lines
read_lines-written List.[] m h = refl
read_lines-written (List.◌∷◌ (note s) ls) m ((skipped, _), hs) =
    ap (read_lines (map write_line ls)) (skipped_line (trim s) m skipped)
    ∙ read_lines-written ls m hs
read_lines-written (List.◌∷◌ (entry k v) ls) m ((key, plain), hs) =
    ap (read_lines (map write_line ls)) (read_line-entry k v m key plain)
    ∙ read_lines-written ls (Dict.put k v m) hs

line-lacks : (l : Line) → IsWritable l → lacks b'\n' (write_line l) ≡ true
line-lacks (note s) (_, h) = h
line-lacks (entry k v) (key, plain) = lacks-entry k v key plain.one_line

-- Splitting undoes the joining of lines that hold no end of line.
split-join :
    (l : Line) (ls : List Line)
    → All IsWritable (List.◌∷◌ l ls)
    → split b'\n' (join (map write_line (List.◌∷◌ l ls))) ≡ map write_line (List.◌∷◌ l ls)
unfolding split join
split-join l List.[] (h, _) =
    rw (split_from-plain b'\n' "" (write_line l) (line-lacks l h), nil-append (write_line l)) refl
split-join l (List.◌∷◌ next ls) (h, hs) =
    let rest : String = join (map write_line (List.◌∷◌ next ls)) in
    let newline : "\n" ⧺ rest ≡ "\n" ∷ rest = rw (cons-append "\n" [] rest, nil-append rest) refl in
    rw
      (
        newline,
        split_from-at b'\n' "\n" "" (write_line l) rest refl (line-lacks l h),
        nil-append (write_line l),
        split-join next ls hs,
      )
      refl

pub parse_env-written :
    (ls : List Line) → All IsWritable ls → parse_env (join (map write_line ls)) ≡ stored ls List.[]
unfolding parse_env
parse_env-written List.[] h =
    unfold join split split_from read_lines trim trim_start trim_end in refl
parse_env-written (List.◌∷◌ l ls) h =
    rw (split-join l ls h) (read_lines-written (List.◌∷◌ l ls) List.[] h)

-- What a lookup in the lines finds, where it would have found `o` before them.
abbrev pub last_of : String → List Line → Option String → Option String
last_of j List.[] o = o
last_of j (List.◌∷◌ (note s) ls) o = last_of j ls o
last_of j (List.◌∷◌ (entry k v) ls) o = last_of j ls (if k == j then some v else o)

pub get-stored :
    (j : String) (ls : List Line) (m : List (String × String))
    → Dict.get j (stored ls m) ≡ last_of j ls (Dict.get j m)
get-stored j List.[] m = refl
get-stored j (List.◌∷◌ (note s) ls) m = get-stored j ls m
get-stored j (List.◌∷◌ (entry k v) ls) m =
    get-stored j ls (Dict.put k v m) ∙ ap (last_of j ls) (get-put k j v m)
