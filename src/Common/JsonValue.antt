-- ===== src/Common/JsonValue.antt =====
-- JSON values, with `JSON.stringify` and `String` as JavaScript defines them. A number is held by the
-- text that JavaScript prints for it.
use Prim.Native.Char.{Char, code}
use Prim.Native.Nat.{ℕ, ◌+◌, ◌/◌, ◌%◌}
use Prim.Native.String.{String, [], ◌∷◌, slice}
use mathlib.Core.Bool.{Bool, true, false}
use mathplat.Common.Tests.{ltb, num_eq, if◌then◌else◌}
use mathplat.Common.Text.{◌⧺◌}

mutual
  pub data JsonValue : Type 0 where
    null : JsonValue
    bool : Bool → JsonValue
    num : String → JsonValue
    str : String → JsonValue
    arr : Items → JsonValue
    obj : Fields → JsonValue

  pub data Items : Type 0 where
    nil : Items
    cons : JsonValue → Items → Items

  pub data Fields : Type 0 where
    end : Fields
    field : String → JsonValue → Fields → Fields

abbrev bool_text : Bool → String
bool_text true = "true"
bool_text false = "false"

abbrev hex : ℕ → String
hex n = slice "0123456789abcdef" n (n + 1)

-- One character inside a quoted text.
unfoldable pub escape : Char → String
escape c =
    let n = code c in
    if num_eq n 34
    then "\\\""
    else if num_eq n 92
    then "\\\\"
    else if num_eq n 8
    then "\\b"
    else if num_eq n 9
    then "\\t"
    else if num_eq n 10
    then "\\n"
    else if num_eq n 12
    then "\\f"
    else if num_eq n 13
    then "\\r"
    else if ltb n 32
    then "\\u00" ⧺ hex (n / 16) ⧺ hex (n % 16)
    else c ∷ []

unfoldable pub escape_all : String → String
unfolding escape
escape_all [] = []
escape_all (c ∷ s) = escape c ⧺ escape_all s

abbrev quote : String → String
quote s = "\"" ⧺ escape_all s ⧺ "\""

-- `JSON.stringify(value)`
unfoldable mutual
  pub stringify : JsonValue → String
  stringify null = "null"
  stringify (bool b) = bool_text b
  stringify (num t) = t
  stringify (str s) = quote s
  stringify (arr vs) = "[" ⧺ stringify_items vs ⧺ "]"
  stringify (obj fs) = "{" ⧺ stringify_fields fs ⧺ "}"

  pub stringify_items : Items → String
  stringify_items nil = ""
  stringify_items (cons v nil) = stringify v
  stringify_items (cons v (cons w vs)) = stringify v ⧺ "," ⧺ stringify_items (cons w vs)

  pub stringify_fields : Fields → String
  stringify_fields end = ""
  stringify_fields (field k v end) = quote k ⧺ ":" ⧺ stringify v
  stringify_fields (field k v (field l w fs)) =
      quote k ⧺ ":" ⧺ stringify v ⧺ "," ⧺ stringify_fields (field l w fs)

-- `String(value)`; in an array `null` is printed as nothing.
unfoldable mutual
  pub to_text : JsonValue → String
  to_text null = "null"
  to_text (bool b) = bool_text b
  to_text (num t) = t
  to_text (str s) = s
  to_text (arr vs) = join_items vs
  to_text (obj fs) = "[object Object]"

  pub join_items : Items → String
  join_items nil = ""
  join_items (cons v vs) = item_text v ⧺ join_more vs

  pub join_more : Items → String
  join_more nil = ""
  join_more (cons v vs) = "," ⧺ item_text v ⧺ join_more vs

  pub item_text : JsonValue → String
  item_text null = ""
  item_text (bool b) = bool_text b
  item_text (num t) = t
  item_text (str s) = s
  item_text (arr vs) = join_items vs
  item_text (obj fs) = "[object Object]"
