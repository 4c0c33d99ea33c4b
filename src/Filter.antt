-- ===== src/Filter.antt =====
-- common/filters/http-exception.filter.ts: the reply to a request whose handler throws. A reply is
-- the JSON value that is sent; what an `HttpException` carries is a JSON value too.
pub mod Standard
mod Tests
use mathplat.Common.{
  ℕ, num_eq, leb, String, Bool, true, false, if◌then◌else◌, ◌==◌, Option, some, none,
}
use mathplat.Common.JsonValue.{
  JsonValue, null, bool, str, arr, obj, Fields, end, field, to_text, Items, nil, cons, item_text,
}
use mathplat.Common.Outcome.{Outcome, ok, throws, Exception, fault}
use mathplat.Common.Text.{◌⧺◌}

-- What a handler throws: an `HttpException` with `getStatus()`, `getResponse()` and its stack,
-- another `Error` with its message and its stack, or any other value.
pub data Thrown : Type 0 where
  http_exception : (status : ℕ) (response : JsonValue) (stack : Option String) → Thrown
  error : (message : String) (stack : Option String) → Thrown
  other : Thrown

pub data Level : Type 0 where
  warn : Level
  severe : Level

-- The object that is given to the logger. A member that is undefined is none.
pub record Logged : Type 0 where
  pub level : Level
  pub status_code : ℕ
  pub path : String
  pub method : String
  pub error_code : Option JsonValue
  pub message : Option JsonValue
  pub stack : Option String

pub record Reply : Type 0 where
  pub status : ℕ
  pub body : JsonValue
  pub log : Logged

-- A member of an object.
unfoldable pub member : String → Fields → Option JsonValue
member k end = none
member k (field j v fs) = if k == j then some v else member k fs

-- `value.k`, where null has no members, and a value that is not an object has none of these.
abbrev pub property : String → JsonValue → Outcome (Option JsonValue)
property k null = throws (fault "TypeError")
property k (obj fs) = ok (member k fs)
property k v = ok none

-- `getErrorCode`
unfoldable pub get_error_code : ℕ → String
get_error_code status =
    if num_eq status 400
    then "REQ_001"
    else if num_eq status 401
    then "AUTH_001"
    else if num_eq status 403
    then "PERM_001"
    else if num_eq status 404
    then "NOT_001"
    else if num_eq status 429
    then "RATE_001"
    else if num_eq status 409
    then "REQ_002"
    else if num_eq status 422
    then "REQ_003"
    else "SRV_001"

-- The `error` of a response in the standard form.
abbrev pub error_response : JsonValue → JsonValue
error_response e = obj (field "success" (bool false) (field "error" e end))

abbrev pub detail : (code message : String) → JsonValue
detail code message = obj (field "code" (str code) (field "message" (str message) end))

abbrev pub internal : JsonValue
internal = detail "SRV_001" "Internal server error"

-- `rawMessage.join(', ')`
abbrev pub join_rest : Items → String
join_rest nil = ""
join_rest (cons v vs) = ", " ⧺ item_text v ⧺ join_rest vs

abbrev pub joined : Items → String
joined nil = ""
joined (cons v vs) = item_text v ⧺ join_rest vs

abbrev pub formatted_message : JsonValue → String
formatted_message (arr vs) = joined vs
formatted_message (str s) = s
formatted_message v = to_text v

-- `responseObj.success === false`
abbrev pub is_failure : Option JsonValue → Bool
is_failure (some (bool false)) = true
is_failure _ = false

-- A body, and its `error`, from which the log takes the code and the message.
abbrev pub with_message : ℕ → Option JsonValue → JsonValue × JsonValue
with_message status (some raw) =
    let e : JsonValue = detail (get_error_code status) (formatted_message raw) in
    (error_response e, e)
with_message status none = (error_response internal, internal)

abbrev pub of_object : ℕ → Fields → Bool → Option JsonValue → JsonValue × JsonValue
of_object status fs true (some e) = (obj fs, e)
of_object status fs _ _ = with_message status (member "message" fs)

abbrev pub error_body : ℕ → JsonValue → JsonValue × JsonValue
error_body status (obj fs) =
    of_object status fs (is_failure (member "success" fs)) (member "error" fs)
error_body status (str s) =
    let e : JsonValue = detail (get_error_code status) s in (error_response e, e)
error_body status _ = (error_response internal, internal)

abbrev pub level_of : ℕ → Level
level_of status = if leb 500 status then severe else warn

abbrev pub logged :
    ℕ
    → (path method : String) → Option String
    → Outcome (Option JsonValue)
    → Outcome (Option JsonValue)
    → JsonValue
    → Outcome Reply
logged status path method stack (ok code) (ok message) body = ok (record {
  status = status;
  body = body;
  log = record {
    level = level_of status;
    status_code = status;
    path = path;
    method = method;
    error_code = code;
    message = message;
    stack = if leb 500 status then stack else none;
  };
})
logged status path method stack (throws e) _ body = throws e
logged status path method stack (ok _) (throws e) body = throws e

abbrev pub unhandled : (path method message : String) → Option String → Reply
unhandled path method message stack = record {
  status = 500;
  body = error_response internal;
  log = record {
    level = severe;
    status_code = 500;
    path = path;
    method = method;
    error_code = some (str "SRV_001");
    message = some (str message);
    stack = stack;
  };
}

-- `catch`
unfoldable pub catch : (path method : String) → Thrown → Outcome Reply
catch path method (http_exception status response stack) =
    let (body, e) = error_body status response in
    logged status path method stack (property "code" e) (property "message" e) body
catch path method (error message stack) = ok (unhandled path method message stack)
catch path method other = ok (unhandled path method "Unknown error" none)
