-- ===== src/Json.antt =====
-- JSON documents as `json.loads` gives them to the program: objects are association lists in the
-- order of insertion, numbers are integers or floats.
use rtc_asr.Prelude.{ℕ, Bool, true, false, Option, none, some, String, if◌then◌else◌}
use rtc_asr.Prelude.Int.{ℤ}
use rtc_asr.Text.{Text}
use text.Mathlib.Text.{◌==◌ as str_eq}

-- A float by its exact value: `finite n d` is n / (d + 1).
pub data Float : Type 0 where
  finite : ℤ → ℕ → Float
  infinity minus_infinity nan : Float

mutual
  pub data Value : Type 0 where
    null : Value
    boolean : Bool → Value
    integer : ℤ → Value
    float : Float → Value
    string : Text → Value
    array : Items → Value
    object : Fields → Value

  pub data Items : Type 0 where
    nil : Items
    cons : Value → Items → Items

  pub data Fields : Type 0 where
    end : Fields
    field : String → Value → Fields → Fields

-- `d.get(key)`, with the value `None` told from a missing key by the option.
unfoldable pub lookup : String → Fields → Option Value
lookup key end = none
lookup key (field k v rest) = if str_eq k key then some v else lookup key rest

-- `d.get(key, default)`
abbrev pub get_or : String → Value → Fields → Value
get_or key default d = elim (lookup key d) [ none ↦ default | some v ↦ v ]

-- `d.get(key)`
abbrev pub get : String → Fields → Value
get key d = get_or key null d

abbrev pub has_key : String → Fields → Bool
has_key key d = elim (lookup key d) [ none ↦ false | some v ↦ true ]

-- `d[key] = value`
unfoldable pub insert : String → Value → Fields → Fields
insert key v end = field key v end
insert key v (field k w rest) =
    if str_eq k key then field k v rest else field k w (insert key v rest)

abbrev pub is_empty_object : Fields → Bool
is_empty_object end = true
is_empty_object (field k v rest) = false
