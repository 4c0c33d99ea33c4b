-- ===== src/Setup.antt =====
-- setup/env-definitions.ts and the parts of setup/setup.server.ts that read and write `.env` files.
-- A record of strings is a list of its entries; `encode` is `encodeURIComponent`, and `time` the
-- text of the present time. Reading and writing the files is left out.
pub mod Definition
pub mod ServerDefinitions
pub mod SecurityDefinitions
pub mod Reading
pub mod Written
pub mod RoundTrip
mod Tests
use Prim.Native.Char.{code}
use Prim.Native.String.{[], ◌∷◌}
use mathplat.Common.{
  ℕ, String, Bool, true, false, not, ◌&&◌, ◌||◌, if◌then◌else◌, num_eq, Option, none, some, ◌==◌,
  or_else, keep, map, List, ◌++◌,
}
use mathplat.Common.Dict
use mathplat.Common.StrSet
use mathplat.Common.Text.{◌⧺◌, split, trim, is_empty}
use mathplat.Setup.Definition.{EnvDefinition}
use mathplat.Setup.ServerDefinitions.{server_definitions}
use mathplat.Setup.SecurityDefinitions.{security_definitions}

abbrev pub env_definitions : List EnvDefinition
env_definitions = server_definitions ++ security_definitions

-- What stands before the first such character, and what after it: `indexOf` and two slices.
unfoldable pub cut : ℕ → String → Option (String × String)
cut sep [] = none
cut sep (c ∷ s) =
    let rest = cut sep s in
    if num_eq (code c) sep
    then some ("", s)
    else elim rest [ none ↦ none | some (k, v) ↦ some (c ∷ k, v) ]

abbrev pub starts_with : ℕ → String → Bool
starts_with n [] = false
starts_with n (c ∷ s) = num_eq (code c) n

unfoldable pub ends_with : ℕ → String → Bool
ends_with n [] = false
ends_with n (c ∷ s) = let rest = ends_with n s in if is_empty s then num_eq (code c) n else rest

-- `s.slice(1, -1)`
unfoldable pub drop_last : String → String
drop_last [] = []
drop_last (c ∷ s) = let rest = drop_last s in if is_empty s then [] else c ∷ rest

abbrev pub inner : String → String
inner [] = []
inner (c ∷ s) = drop_last s

-- Within quotation marks of one kind.
abbrev pub is_quoted : String → Bool
is_quoted v = starts_with b'"' v && ends_with b'"' v || starts_with 39 v && ends_with 39 v

abbrev pub unquoted : String → String
unquoted v = if is_quoted v then inner v else v

abbrev pub store_entry : Option (String × String) → List (String × String) → List (String × String)
store_entry none m = m
store_entry (some (k, v)) m = Dict.put (trim k) (unquoted (trim v)) m

-- One line, trimmed.
abbrev pub read_line : String → List (String × String) → List (String × String)
read_line line m =
    if is_empty line || starts_with b'#' line then m else store_entry (cut b'=' line) m

unfoldable pub read_lines : List String → List (String × String) → List (String × String)
read_lines List.[] m = m
read_lines (List.◌∷◌ line lines) m = read_lines lines (read_line (trim line) m)

-- `parseEnvFile`, from the content of the file on.
unfoldable pub parse_env : String → List (String × String)
parse_env content = read_lines (split b'\n' content) List.[]

-- `lines.join('\n')`
unfoldable pub join : List String → String
join List.[] = ""
join (List.◌∷◌ line List.[]) = line
join (List.◌∷◌ line (List.◌∷◌ next lines)) = line ⧺ "\n" ⧺ join (List.◌∷◌ next lines)

-- `data[key] || d`
abbrev pub given_or : String → String → List (String × String) → String
given_or d key form = let v : String = or_else (Dict.get key form) "" in if is_empty v then d else v

unfoldable pub build_database_url :
    (String → String) → (host port user password db_name : String) → String
build_database_url encode host port user password db_name =
    "mysql://" ⧺ user ⧺ ":" ⧺ encode password ⧺ "@" ⧺ host ⧺ ":" ⧺ port ⧺ "/" ⧺ db_name

abbrev pub database_url : (String → String) → List (String × String) → String
database_url encode form =
    build_database_url encode (given_or "localhost" "DB_HOST" form) (given_or "3306" "DB_PORT" form)
      (given_or "root" "DB_USER" form) (given_or "" "DB_PASSWORD" form)
      (given_or "nestjs_engine_db" "DB_NAME" form)

-- `data[def.key] ?? def.defaultValue`
abbrev pub value_of : List (String × String) → EnvDefinition → String
value_of form d = or_else (Dict.get d.key form) d.default_value

-- One line of the content, before it is put together.
pub data Line : Type 0 where
  note : String → Line
  entry : (key value : String) → Line

abbrev pub write_line : Line → String
write_line (note s) = s
write_line (entry key value) = key ⧺ "=" ⧺ value

-- The parts of the database have gone into its URL.
abbrev pub is_part_of_url : EnvDefinition → Bool
is_part_of_url d = StrSet.has d.key (
    List.◌∷◌ "DB_HOST" (
      List.◌∷◌ "DB_PORT"
        (List.◌∷◌ "DB_USER" (List.◌∷◌ "DB_PASSWORD" (List.◌∷◌ "DB_NAME" List.[])))))

abbrev pub group_lines :
    (EnvDefinition → Line) → String → String → Line → List EnvDefinition → List Line
group_lines line group comment url defs = List.◌∷◌ (note "") (
    List.◌∷◌ (note comment) (
      if group == "database"
      then List.◌∷◌ url List.[]
      else map line (keep (λ d. not (is_part_of_url d)) (keep (λ d. d.group == group) defs))))

unfoldable pub content_lines :
    (String → String) → (time : String) → List (String × String) → List Line
content_lines encode time form =
    let line : EnvDefinition → Line = λ d. entry d.key (value_of form d) in
    let url : Line = entry "DATABASE_URL" (database_url encode form) in
    let group : String → String → List Line =
      λ name comment. group_lines line name comment url env_definitions in
    List.◌∷◌ (note "# NestJS Engine Environment Configuration") (
      List.◌∷◌ (note ("# Generated by Setup Wizard at " ⧺ time)) (
        List.◌∷◌ (note "") (
          List.◌∷◌ (note "# App") (
            group "app" "# App"
            ++ group "database" "# Database"
            ++ group "redis" "# Redis"
            ++ group "auth" "# Auth / Security"
            ++ group "etc" "# Etc"
            ++ List.◌∷◌ (note "") List.[]))))

-- `buildEnvContent`
unfoldable pub build_env_content :
    (String → String) → (time : String) → List (String × String) → String
build_env_content encode time form = join (map write_line (content_lines encode time form))
