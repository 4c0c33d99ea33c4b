-- ===== src/Filter/Standard.antt =====
-- common/filters/http-exception.filter.ts: the form of the replies.
use mathplat.Common.{
  ℕ, String, Bool, true, false, ◌&&◌, Option, some, none, ◌≡◌, refl, is_some, arith,
}
use mathplat.Common.JsonValue.{JsonValue, null, bool, num, str, arr, obj, Fields}
use mathplat.Common.Outcome.{ok}
use mathplat.Filter.{
  Thrown, http_exception, error, other, Reply, member, catch, is_failure, level_of, unhandled,
  logged, property, with_message,
}

-- `success` is false and there is an `error`.
unfoldable pub is_standard : JsonValue → Bool
is_standard (obj fs) = is_failure (member "success" fs) && is_some (member "error" fs)
is_standard _ = false

unfoldable pub status_of : Thrown → ℕ
status_of (http_exception status response stack) = status
status_of _ = 500

-- A response in the standard form whose `error` is null.
abbrev is_null : Option JsonValue → Bool
is_null (some null) = true
is_null _ = false

unfoldable pub carries_null : Thrown → Bool
carries_null (http_exception status (obj fs) stack) =
    is_failure (member "success" fs) && is_null (member "error" fs)
carries_null _ = false

module _ (path method : String) where
  abbrev pub Answers : Thrown → Type 0
  Answers x =
      (r : Reply) × (catch path method x ≡ ok r)
      × (is_standard r.body ≡ true)
      × (r.status ≡ status_of x)
      × (r.log.level ≡ level_of r.status)

  answered-message :
      (status : ℕ) (s : Option String) (m : Option JsonValue)
      → (r : Reply) × (logged status path method s
            (property "code" (with_message status m).1)
            (property "message" (with_message status m).1)
            (with_message status m).0
          ≡ ok r)
        × (is_standard r.body ≡ true)
        × (r.status ≡ status)
        × (r.log.level ≡ level_of r.status)
  unfolding is_standard member
  answered-message status s none = (_, refl, refl, refl, refl)
  answered-message status s (some raw) = (_, refl, refl, refl, refl)

  answered-object :
      (status : ℕ) (fs : Fields) (s : Option String) (b : Bool) (o : Option JsonValue)
      → is_failure (member "success" fs) ≡ b
      → member "error" fs ≡ o
      → (b && is_null o) ≡ false
      → Answers (http_exception status (obj fs) s)
  unfolding catch is_standard status_of
  answered-object status fs s false o e k h = rw e (answered-message status s (member "message" fs))
  answered-object status fs s true none e k h =
      rw (e, k) (answered-message status s (member "message" fs))
  answered-object status fs s true (some null) e k h = ground arith
  answered-object status fs s true (some (bool b)) e k h =
      rw (e, k) (_, refl, rw (e, k) refl, refl, refl)
  answered-object status fs s true (some (num t)) e k h =
      rw (e, k) (_, refl, rw (e, k) refl, refl, refl)
  answered-object status fs s true (some (str t)) e k h =
      rw (e, k) (_, refl, rw (e, k) refl, refl, refl)
  answered-object status fs s true (some (arr vs)) e k h =
      rw (e, k) (_, refl, rw (e, k) refl, refl, refl)
  answered-object status fs s true (some (obj gs)) e k h =
      rw (e, k) (_, refl, rw (e, k) refl, refl, refl)

  -- Every exception has a reply. Unless the exception carries a response in the standard form whose
  -- error is null, `catch` gives a reply; its body is in the standard form, success false with an
  -- error; its status is that of the exception, or 500 if it is no HttpException; and it is logged
  -- as severe from status 500 on, as a warning below.
  pub catch-IsStandard : (x : Thrown) → carries_null x ≡ false → Answers x
  unfolding catch is_standard status_of member carries_null
  catch-IsStandard (error m s) h = (unhandled path method m s, refl, refl, refl, refl)
  catch-IsStandard other h = (unhandled path method "Unknown error" none, refl, refl, refl, refl)
  catch-IsStandard (http_exception status (str m) s) h = (_, refl, refl, refl, refl)
  catch-IsStandard (http_exception status null s) h = (_, refl, refl, refl, refl)
  catch-IsStandard (http_exception status (bool b) s) h = (_, refl, refl, refl, refl)
  catch-IsStandard (http_exception status (num b) s) h = (_, refl, refl, refl, refl)
  catch-IsStandard (http_exception status (arr b) s) h = (_, refl, refl, refl, refl)
  catch-IsStandard (http_exception status (obj fs) s) h =
      answered-object status fs s (is_failure (member "success" fs)) (member "error" fs) refl refl h
