-- ===== src/Gateway/Auth.antt =====
-- core/socket/socket-auth.adapter.ts: the handshake of a socket.
use text.Mathlib.Text.{starts_with}
use mathplat.Common.{String, Option, none, some, List, [], ◌∷◌, if◌then◌else◌}
use mathplat.Common.Text.{trim, is_empty}
use mathplat.Gateway.{error, Effect, emit}
use Prim.Native.String.{slice, len}

-- The claims of a token that the program reads.
pub record Claims : Type 0 where
  pub sub : Option String
  pub user_id : Option String
  pub session_id : Option String

-- `socket.data`, where the handshake succeeds, and what is sent.
pub record Handshake : Type 0 where
  pub granted : Option (String × String)
  pub effects : List Effect

abbrev refuse : String → String → String → Handshake
refuse socket code message = record {
  granted = none;
  effects = emit socket (error code message) ∷ [];
}

-- `trimmed.slice(7)` takes off the prefix, which has as many bytes as characters.
unfoldable pub extract_token : String → String
extract_token raw =
    let trimmed = trim raw in
    if starts_with trimmed "Bearer " then slice trimmed 7 (len trimmed) else trimmed

-- A string that JavaScript takes for true.
abbrev pub truthy : Option String → Option String
truthy none = none
truthy (some s) = if is_empty s then none else some s

abbrev with_session : String → String → Option String → Handshake
with_session socket user none = refuse socket "AUTH_005" "Session invalid"
with_session socket user (some session) = record { granted = some (user, session); effects = [] }

abbrev with_user : String → Option String → Option String → Handshake
with_user socket none session = refuse socket "AUTH_001" "Invalid token payload"
with_user socket (some user) session = with_session socket user session

abbrev with_claims : String → Option Claims → Handshake
with_claims socket none = refuse socket "AUTH_001" "Invalid or expired token"
with_claims socket (some claims) = with_user socket (truthy claims.sub) (truthy claims.session_id)

-- `verify` is `jwtService.verifyAsync`, which throws (`none`) on a token that it does not accept.
module _ (verify : String → Option Claims) where
  unfoldable pub authenticate : String → Option String → Handshake
  unfolding extract_token
  authenticate socket token = elim (truthy token) [
    | none ↦ refuse socket "AUTH_003" "Token not provided"
    | some raw ↦ with_claims socket (verify (extract_token raw))
  ]
