-- ===== src/Setup/RoundTrip.antt =====
-- setup/setup.server.ts: the file that `buildEnvContent` writes, read by `parseEnvFile`.
use Prim.Native.String.{◌∷◌}
use text.Mathlib.TextLemmas.{cons-append}
use mathplat.Common.{
  arith, Bool, false, ◌==◌, map, ◌++◌, if◌then◌else◌, String, ◌≡◌, refl, true, not, none, some,
  List, All, All-map, every-All, All-keep_keep, All-append, ap, ◌∙◌, keep,
}
use mathplat.Common.Dict
use mathplat.Common.StrSet
use mathplat.Common.Text.{◌⧺◌, trim, trim_start, trim_end, is_space}
use mathplat.Common.Splitting.{lacks, lacks-append}
use mathplat.Setup.{
  parse_env, Line, note, value_of, database_url, env_definitions, is_part_of_url, content_lines,
  build_env_content, entry, group_lines,
}
use mathplat.Setup.Definition.{EnvDefinition}
use mathplat.Setup.Reading.{IsPlain, is_key}
use mathplat.Setup.Written.{IsWritable, parse_env-written, last_of, get-stored}

-- The variables that get a line of their own.
abbrev pub written : List EnvDefinition
written = keep (λ d. not (is_part_of_url d)) env_definitions

-- The line with the time is a comment.
generated-IsWritable :
    (time : String)
    → lacks b'\n' time ≡ true
    → IsWritable (note ("# Generated by Setup Wizard at " ⧺ time))
unfolding trim trim_start trim_end is_space
generated-IsWritable time h =
    let start : String = "# Generated by Setup Wizard at " in
    let rest : String = " Generated by Setup Wizard at " ⧺ time in
    let hash : start ⧺ time ≡ "#" ∷ rest = cons-append "#" " Generated by Setup Wizard at " time in
    (rw hash refl, lacks-append b'\n' start time refl h)

-- The keys are names.
keys : All (λ d. is_key d.key ≡ true) written
unfolding StrSet.has is_space
keys = every-All (λ d. is_key d.key) written refl

All-if :
    (b : Bool) (xs ys : List Line)
    → All IsWritable xs
    → All IsWritable ys
    → All IsWritable (if b then xs else ys)
All-if true xs ys h k = h
All-if false xs ys h k = k

module _ (encode : String → String) (time : String) (form : List (String × String)) where
  abbrev line : EnvDefinition → Line
  line d = entry d.key (value_of form d)

  entries-IsWritable :
      (ds : List EnvDefinition)
      → All (λ d. is_key d.key ≡ true) ds
      → All (λ d. IsPlain (value_of form d)) ds
      → All IsWritable (map line ds)
  entries-IsWritable List.[] k p = tt
  entries-IsWritable (List.◌∷◌ d ds) (k, ks) (p, ps) = ((k, p), entries-IsWritable ds ks ps)

  group-IsWritable :
      (name comment : String)
      → IsWritable (note comment)
      → All (λ d. IsPlain (value_of form d)) written
      → IsPlain (database_url encode form)
      → All IsWritable (
          group_lines line name comment
            (entry "DATABASE_URL" (database_url encode form))
            env_definitions)
  unfolding trim trim_start trim_end is_space StrSet.has
  group-IsWritable name comment c plain url =
      let own : EnvDefinition → Bool = λ d. not (is_part_of_url d) in
      let named : EnvDefinition → Bool = λ d. d.group == name in
      let ds : List EnvDefinition = keep own (keep named env_definitions) in
      let k = All-keep_keep (λ d. is_key d.key ≡ true) named own env_definitions keys in
      let p = All-keep_keep (λ d. IsPlain (value_of form d)) named own env_definitions plain in
      (
        (refl, refl),
        (
          c,
          All-if (name == "database")
              (List.◌∷◌ (entry "DATABASE_URL" (database_url encode form)) List.[]) (map line ds)
              ((refl, url), tt) (entries-IsWritable ds k p),
        ),
      )

  abbrev groups : List (String × String) → List Line
  groups List.[] = List.◌∷◌ (note "") List.[]
  groups (List.◌∷◌ (name, comment) gs) =
      group_lines line name comment (entry "DATABASE_URL" (database_url encode form))
        env_definitions
      ++ groups gs

  groups-IsWritable :
      (gs : List (String × String))
      → All (λ g. IsWritable (note (g.1))) gs
      → All (λ d. IsPlain (value_of form d)) written
      → IsPlain (database_url encode form)
      → All IsWritable (groups gs)
  unfolding trim trim_start trim_end is_space
  groups-IsWritable List.[] c plain url = ((refl, refl), tt)
  groups-IsWritable (List.◌∷◌ (name, comment) gs) (c, cs) plain url =
      All-append IsWritable
        (group_lines line name comment (entry "DATABASE_URL" (database_url encode form))
          env_definitions)
        (groups gs) (group-IsWritable name comment c plain url) (groups-IsWritable gs cs plain url)

  lines-IsWritable :
      lacks b'\n' time ≡ true
      → All (λ d. IsPlain (value_of form d)) written
      → IsPlain (database_url encode form)
      → All IsWritable (content_lines encode time form)
  unfolding content_lines trim trim_start trim_end is_space StrSet.has
  lines-IsWritable h plain url =
      let gs : List (String × String) =
        List.◌∷◌ ("app", "# App")
          (List.◌∷◌ ("database", "# Database")
            (List.◌∷◌ ("redis", "# Redis")
              (List.◌∷◌ ("auth", "# Auth / Security") (List.◌∷◌ ("etc", "# Etc") List.[])))) in
      let cs : All (λ g. IsWritable (note (g.1))) gs =
        ((refl, refl), ((refl, refl), ((refl, refl), ((refl, refl), ((refl, refl), tt))))) in
      (
        (refl, refl),
        (
          generated-IsWritable time h,
          ((refl, refl), ((refl, refl), groups-IsWritable gs cs plain url)),
        ),
      )

  found :
      All
        (λ d. last_of d.key (content_lines encode time form) none ≡ some (value_of form d))
        written
  unfolding content_lines StrSet.has
  found = ground arith

  -- A lookup in what is read of the file.
  lookup :
      (j : String)
      → All IsWritable (content_lines encode time form)
      → Dict.get j (parse_env (build_env_content encode time form))
        ≡ last_of j (content_lines encode time form) none
  unfolding build_env_content Dict.get
  lookup j h =
      ap (Dict.get j) (parse_env-written (content_lines encode time form) h)
      ∙ get-stored j (content_lines encode time form) List.[]

  -- The settings that are written are read again. If every value, given or by default, is plain (no
  -- white space at its ends, no end of line, not within quotation marks), and so is the URL of the
  -- database, and the time has no end of line, then in what `parseEnvFile` makes of the content
  -- that `buildEnvContent` gives, every variable with a line of its own has its value, and
  -- DATABASE_URL is the URL.
  pub parse_env-build_env_content :
      lacks b'\n' time ≡ true
      → All (λ d. IsPlain (value_of form d)) written
      → IsPlain (database_url encode form)
      → (let file = parse_env (build_env_content encode time form) in
          All (λ d. Dict.get d.key file ≡ some (value_of form d)) written
          × (Dict.get "DATABASE_URL" file ≡ some (database_url encode form)))
  unfolding content_lines StrSet.has
  parse_env-build_env_content h plain url =
      let ok_ : All IsWritable (content_lines encode time form) = lines-IsWritable h plain url in
      (
        All-map
            {P = λ d. last_of d.key (content_lines encode time form) none ≡ some (value_of form d)}
            {Q = λ d.
              Dict.get d.key (parse_env (build_env_content encode time form))
              ≡ some (value_of form d)}
            (λ d e. lookup d.key ok_ ∙ e) written found,
        lookup "DATABASE_URL" ok_,
      )
