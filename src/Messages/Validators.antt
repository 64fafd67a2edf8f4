-- ===== src/Messages/Validators.antt =====
-- The field validators of src/protocols/local_stt_v1.py, in the order in which pydantic calls them for the
-- fields of a start message that are numbers. How pydantic makes a float of an integer is a parameter.
use rtc_asr.Prelude.{
  zero, suc, ◌+◌, ◌≡◌, Bool, true, false, not, leb, ltb, if◌then◌else◌, Result, ok, err, ◌>>=◌,
  Ensures, Ensures-ok,
}
use rtc_asr.Prelude.Int.{ℤ, pos, negsuc}
use rtc_asr.Json.{
  Float, finite, infinity, minus_infinity, nan, Value, null, boolean, integer, float, string, array,
  object,
}
use rtc_asr.Session.Create.{float_limit}

-- The types of validation errors, and the exceptions that pydantic lets through.
pub data Rejection : Type 0 where
  invalid_integer_field invalid_numeric_field invalid_boolean_field : Rejection
  invalid_string_field invalid_metadata_field : Rejection
  overflow_error type_error : Rejection

unfoldable pub reject_boolean_integer_field : Value → Result Rejection Value
reject_boolean_integer_field null = ok null
reject_boolean_integer_field (integer z) = ok (integer z)
reject_boolean_integer_field v = err invalid_integer_field

-- `math.isfinite`, which makes a float of an integer.
abbrev pub is_float_size : ℤ → Result Rejection Bool
is_float_size (pos n) = if leb float_limit n then err overflow_error else ok true
is_float_size (negsuc n) = if leb float_limit (n + 1) then err overflow_error else ok true

abbrev pub is_finite_float : Float → Bool
is_finite_float (finite n d) = true
is_finite_float f = false

abbrev pub is_finite : Value → Result Rejection Bool
is_finite (integer z) = is_float_size z
is_finite (float f) = ok (is_finite_float f)
is_finite (boolean b) = ok true
is_finite v = err type_error

abbrev pub unless_finite : Value → Bool → Result Rejection Value
unless_finite v true = ok v
unless_finite v false = err invalid_numeric_field

unfoldable pub reject_boolean_numeric_field : Value → Result Rejection Value
reject_boolean_numeric_field null = ok null
reject_boolean_numeric_field (integer z) = is_float_size z >>= unless_finite (integer z)
reject_boolean_numeric_field (float f) = unless_finite (float f) (is_finite_float f)
reject_boolean_numeric_field v = err invalid_numeric_field

unfoldable pub require_finite_numeric_field : Value → Result Rejection Value
require_finite_numeric_field null = ok null
require_finite_numeric_field v = is_finite v >>= unless_finite v

-- `value < 1`
abbrev pub is_below_one : Value → Result Rejection Bool
is_below_one (integer (pos zero)) = ok true
is_below_one (integer (pos (suc n))) = ok false
is_below_one (integer (negsuc n)) = ok true
is_below_one (boolean b) = ok (not b)
is_below_one (float (finite (pos n) d)) = ok (ltb n (d + 1))
is_below_one (float (finite (negsuc n) d)) = ok true
is_below_one (float minus_infinity) = ok true
is_below_one (float f) = ok false
is_below_one v = err type_error

abbrev pub unless_below : Value → Bool → Result Rejection Value
unless_below v true = err invalid_integer_field
unless_below v false = ok v

unfoldable pub require_positive_integer_field : Value → Result Rejection Value
require_positive_integer_field null = ok null
require_positive_integer_field v = is_below_one v >>= unless_below v

-- `value <= 0`
abbrev pub is_not_positive : Value → Result Rejection Bool
is_not_positive (integer (pos (suc n))) = ok false
is_not_positive (integer z) = ok true
is_not_positive (boolean b) = ok (not b)
is_not_positive (float (finite (pos (suc n)) d)) = ok false
is_not_positive (float (finite z d)) = ok true
is_not_positive (float minus_infinity) = ok true
is_not_positive (float f) = ok false
is_not_positive v = err type_error

abbrev pub unless_not_positive : Value → Bool → Result Rejection Value
unless_not_positive v true = err invalid_numeric_field
unless_not_positive v false = ok v

unfoldable pub require_positive_numeric_field : Value → Result Rejection Value
require_positive_numeric_field null = ok null
require_positive_numeric_field v = is_not_positive v >>= unless_not_positive v

unfoldable pub require_boolean_field : Value → Result Rejection Value
require_boolean_field (boolean b) = ok (boolean b)
require_boolean_field v = err invalid_boolean_field

unfoldable pub require_metadata_object : Value → Result Rejection Value
require_metadata_object (object d) = ok (object d)
require_metadata_object v = err invalid_metadata_field

unfoldable pub require_string_field : Value → Result Rejection Value
require_string_field (string t) = ok (string t)
require_string_field v = err invalid_string_field

unfoldable pub require_optional_string_field : Value → Result Rejection Value
require_optional_string_field null = ok null
require_optional_string_field v = require_string_field v

-- `partial_interval_ms` and `stable_partial_cycles`: pydantic keeps an integer as it is.
unfoldable pub integer_field : Value → Result Rejection Value
integer_field v = do number ← reject_boolean_integer_field v; require_positive_integer_field number

-- pydantic's value of a field of type `float | None`, after the first validator.
abbrev pub as_float : (ℤ → Float) → Value → Value
as_float float_of (integer z) = float (float_of z)
as_float float_of v = v

-- `partial_window_seconds` and `max_buffer_seconds`.
unfoldable pub seconds_field : (ℤ → Float) → Value → Result Rejection Value
seconds_field float_of v = do
  number ← reject_boolean_numeric_field v
  finite_number ← require_finite_numeric_field (as_float float_of number)
  require_positive_numeric_field finite_number

-- Nothing, or a number that is finite and above 0.
abbrev pub IsDuration : Value → Type 0
IsDuration null = Unit {0}
IsDuration (float (finite (pos (suc n)) d)) = Unit {0}
IsDuration v = true ≡ false

-- Nothing, or an integer above 0.
abbrev pub IsCount : Value → Type 0
IsCount null = Unit {0}
IsCount (integer (pos (suc n))) = Unit {0}
IsCount v = true ≡ false

integer_field-Ensures : (v : Value) → Ensures IsCount (integer_field v)
unfolding integer_field reject_boolean_integer_field require_positive_integer_field
integer_field-Ensures null = Ensures-ok null tt
integer_field-Ensures (integer (pos (suc n))) = Ensures-ok (integer (pos (suc n))) tt
integer_field-Ensures (integer (pos zero)) = record { at = λ w p. cc }
integer_field-Ensures (integer (negsuc n)) = record { at = λ w p. cc }
integer_field-Ensures (boolean b) = record { at = λ w p. cc }
integer_field-Ensures (float f) = record { at = λ w p. cc }
integer_field-Ensures (string t) = record { at = λ w p. cc }
integer_field-Ensures (array items) = record { at = λ w p. cc }
integer_field-Ensures (object d) = record { at = λ w p. cc }

module _ (float_of : ℤ → Float) where
  float-Ensures :
      (f : Float)
      → Ensures IsDuration
          (require_finite_numeric_field (float f) >>= require_positive_numeric_field)
  unfolding require_finite_numeric_field require_positive_numeric_field
  float-Ensures (finite (pos (suc n)) d) = Ensures-ok (float (finite (pos (suc n)) d)) tt
  float-Ensures (finite (pos zero) d) = record { at = λ w p. cc }
  float-Ensures (finite (negsuc n) d) = record { at = λ w p. cc }
  float-Ensures infinity = record { at = λ w p. cc }
  float-Ensures minus_infinity = record { at = λ w p. cc }
  float-Ensures nan = record { at = λ w p. cc }

  sized-Ensures :
      (z : ℤ) (size : Result Rejection Bool)
      → Ensures IsDuration (
          (size >>= unless_finite (integer z)) >>= λ number.
          require_finite_numeric_field (as_float float_of number)
          >>= require_positive_numeric_field)
  sized-Ensures z (err e) = record { at = λ w p. cc }
  sized-Ensures z (ok false) = record { at = λ w p. cc }
  sized-Ensures z (ok true) = float-Ensures (float_of z)

  given-Ensures :
      (f : Float) (b : Bool)
      → Ensures IsDuration (
          unless_finite (float f) b >>= λ number.
          require_finite_numeric_field (as_float float_of number)
          >>= require_positive_numeric_field)
  given-Ensures f false = record { at = λ w p. cc }
  given-Ensures f true = float-Ensures f

  seconds_field-Ensures : (v : Value) → Ensures IsDuration (seconds_field float_of v)
  unfolding seconds_field reject_boolean_numeric_field require_finite_numeric_field
      require_positive_numeric_field
  seconds_field-Ensures null = Ensures-ok null tt
  seconds_field-Ensures (integer z) = sized-Ensures z (is_float_size z)
  seconds_field-Ensures (float f) = given-Ensures f (is_finite_float f)
  seconds_field-Ensures (boolean b) = record { at = λ w p. cc }
  seconds_field-Ensures (string t) = record { at = λ w p. cc }
  seconds_field-Ensures (array items) = record { at = λ w p. cc }
  seconds_field-Ensures (object d) = record { at = λ w p. cc }

-- Whatever value a client sends for a number of seconds, what is accepted is nothing or a float that is
-- finite and above 0: no truth value, no infinity and no NaN, whatever float pydantic makes of an integer.
pub seconds_field-IsDuration :
    (float_of : ℤ → Float) (v w : Value) → seconds_field float_of v ≡ ok w → IsDuration w
seconds_field-IsDuration float_of v w e = (seconds_field-Ensures float_of v).at w e

-- An integer field that is accepted is absent or an integer above 0.
integer_field-IsCount : (v w : Value) → integer_field v ≡ ok w → IsCount w
integer_field-IsCount v w e = (integer_field-Ensures v).at w e
