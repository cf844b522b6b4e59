-- ===== src/Util/Guards.antt =====
-- src/util: assert.ts, defined.ts, isRecord.ts, toError.ts.
use graphqlade.Common.{
  String, Bool, true, false, Option, none, some, Value, undefined, null, num, str, obj, Fields,
  prop, Error, ErrorClass, Thrown, error, value, Result, ok, ℤ, pos, plain_error, throw_type_error,
  concat, [], ◌∷◌,
}

-- `assert(condition, message)`; the message defaults to 'Assertion failed'.
abbrev pub assert : Bool → Option String → Result (Unit {0})
assert true message = ok tt
assert false (some message) = throw_type_error message
assert false none = throw_type_error "Assertion failed"

-- `defined(value, message)`; the message defaults to 'Unexpected undefined value'.
abbrev pub defined : Value → Option String → Result Value
defined undefined (some message) = throw_type_error message
defined null (some message) = throw_type_error message
defined undefined none = throw_type_error "Unexpected undefined value"
defined null none = throw_type_error "Unexpected undefined value"
defined v message = ok v

-- A value is a record if it is an object and no array; the answer carries its properties.
abbrev pub is_record : Value → Option Fields
is_record (obj fs) = some fs
is_record _ = none

-- The object case of `toError`: an object with a string `message` and a string `stack` passes for
-- an error. `code` is what `closeByError` looks for on it.
abbrev code_of : Value → Option ℤ
code_of (num n) = some (pos n)
code_of _ = none

abbrev error_like : Value → Value → Value → Option Error
error_like (str message) (str stack) code =
    some (record { class = ErrorClass.plain; message = message; code = code_of code })
error_like _ _ _ = none

-- `toError(err)`; `stringify` is `JSON.stringify`.
module _ (stringify : Value → String) where
  abbrev unknown_error : Value → Error
  unknown_error v = plain_error (concat ("Unknown error: " ∷ stringify v ∷ []))

  unfoldable pub to_error : Thrown → Error
  unfolding prop
  to_error (error e) = e
  to_error (value (obj fs)) =
      elim (error_like (prop "message" fs) (prop "stack" fs) (prop "code" fs)) [
        | none ↦ unknown_error (obj fs)
        | some e ↦ e
      ]
  to_error (value v) = unknown_error v
