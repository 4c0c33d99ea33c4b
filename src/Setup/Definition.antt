-- ===== src/Setup/Definition.antt =====
-- setup/env-definitions.ts: what the wizard knows of a variable.
use mathplat.Common.{ℕ, String, Bool, Option, List}

pub data Kind : Type 0 where
  text password_ number select : Kind

pub record EnvDefinition : Type 0 where
  pub key : String
  pub label : String
  pub group : String
  pub kind : Kind
  pub default_value : String
  pub placeholder : String
  pub required : Bool
  pub options : Option (List String)
  pub auto_generate : Option Bool
  pub auto_generate_length : Option ℕ
  pub description : Option String
  pub hide_when_env : Option String
