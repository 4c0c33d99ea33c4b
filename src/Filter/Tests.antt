-- ===== src/Filter/Tests.antt =====
-- Runs of the exception filter.
use mathplat.Common.{◌≡◌, refl, false, none}
use mathplat.Common.JsonValue.{obj, end, field, arr, cons, nil, str, num, null, bool, item_text}
use mathplat.Common.Outcome.{ok, throws, fault}
use mathplat.Filter.{
  Thrown, http_exception, catch, detail, error_response, Reply, get_error_code, member,
}
use mathplat.Filter.Standard.{catch-IsStandard, Answers, carries_null}

-- What the validation of a request throws.
abbrev invalid : Thrown
invalid =
    http_exception 400
      (obj (
        field "message" (arr (cons (str "a") (cons (str "b") nil)))
          (field "error" (str "Bad Request") (field "statusCode" (num "400") end))))
      none

abbrev empty_error : Thrown
empty_error = http_exception 400 (obj (field "success" (bool false) (field "error" null end))) none

invalid_body :
    (r : Reply) × (catch "/" "GET" invalid ≡ ok r)
    × (r.body ≡ error_response (detail "REQ_001" "a, b"))
unfolding catch get_error_code member item_text
invalid_body = (_, refl, refl)

empty_error_run : catch "/" "GET" empty_error ≡ throws (fault "TypeError")
unfolding catch get_error_code member
empty_error_run = refl

catch-IsStandard_example : Answers "/" "GET" invalid
unfolding carries_null member
catch-IsStandard_example = catch-IsStandard "/" "GET" invalid refl
