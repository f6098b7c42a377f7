-- ===== src/Data/Access.antt =====
-- Reading integers out of elements and dictionaries (Holder/DTUtils.h). A floating-point number is
-- its bit pattern, and `float_to` and `double_to` are the casts of the compiler to an integer type.
use holder.Prelude.{
  ℕ, Bool, false, Option, none, some, Name, name_beq, nat_beq, if◌then◌else◌, ◌&&◌,
}
use holder.Data.Convert.{
  ℤ, IntType, bits, is_unsigned, same, ConvertResult, converted, narrowing, no_conversion,
  convert_integral, compiles, int32, int64,
}
use holder.Data.Walk.{Datum, element, object, list, dict, Entries, end, entry}

pub data AccessResult : Type 0 where
  ok narrowed not_dictionary not_list no_such_element wrong_target_type wrong_element_type :
      AccessResult

-- What an element holds, by its ElementType.
pub data ElementValue : Type 0 where
  none_value : ElementValue
  boolean : Bool → ElementValue
  integer : IntType → ℤ → ElementValue
  float : ℕ → ElementValue
  double : ℕ → ElementValue
  string : Name → ElementValue

-- `==` on the tags of integer types.
abbrev pub type_beq : IntType → IntType → Bool
type_beq s t = if same (is_unsigned s) (is_unsigned t) then nat_beq (bits s) (bits t) else false

unfoldable pub access_of : ConvertResult → AccessResult
access_of converted = ok
access_of narrowing = narrowed
access_of no_conversion = wrong_element_type

unfoldable pub find_entry : Name → Entries → Option Datum
find_entry key end = none
find_entry key (entry k d ds) = if name_beq k key then some d else find_entry key ds

-- GetDictChild for elements.
unfoldable pub get_dict_child : Datum → Name → AccessResult × Option ℕ
unfolding find_entry
get_dict_child (element x) key = (not_dictionary, none)
get_dict_child (object x) key = (not_dictionary, none)
get_dict_child (list ds) key = (not_dictionary, none)
get_dict_child (dict ds) key = elim (find_entry key ds) [
  | none ↦ (no_such_element, none)
  | some d ↦ elim d [
    | element x ↦ (ok, some x)
    | object x ↦ (wrong_target_type, none)
    | list es ↦ (wrong_target_type, none)
    | dict es ↦ (wrong_target_type, none)
  ]
]

module _ (float_to double_to : IntType → ℕ → ℤ) where
  -- The switch of GetCoercedValue; `none` inside leaves the target as it was.
  unfoldable pub coerced_value : IntType → ElementValue → Option (AccessResult × Option ℤ)
  unfolding access_of convert_integral
  coerced_value to none_value = some (wrong_element_type, none)
  coerced_value to (boolean b) = some (wrong_element_type, none)
  coerced_value to (integer from x) = elim (convert_integral from to x) [
    | none ↦ none
    | some (result, y) ↦ some (access_of result, some y)
  ]
  coerced_value to (float f) = some (narrowed, some (float_to to f))
  coerced_value to (double f) = some (narrowed, some (double_to to f))
  coerced_value to (string s) = some (wrong_element_type, none)

  -- GetCoercedValue with an integer as the target. It converts from every integer type, so it compiles
  -- for a target to which int32_t and int64_t are converted; for others there is no code.
  unfoldable pub get_coerced_value : IntType → ElementValue → Option (AccessResult × Option ℤ)
  unfolding coerced_value compiles
  get_coerced_value to v =
      if compiles int32 to && compiles int64 to then coerced_value to v else none

  unfoldable pub get_element_value : IntType → ElementValue → Option (AccessResult × Option ℤ)
  get_element_value to v =
      let coerced = get_coerced_value to v in
      elim coerced [ none ↦ none | some answer ↦ some (exact_or to v answer) ]
    where
      exact_or : IntType → ElementValue → AccessResult × Option ℤ → AccessResult × Option ℤ
      exact_or to (integer from x) answer = if type_beq from to then (ok, some x) else answer
      exact_or to v answer = answer

  -- GetDictValue, where `values` has what the elements hold.
  unfoldable pub get_dict_value :
      (ℕ → ElementValue) → IntType → Datum → Name → Option (AccessResult × Option ℤ)
  get_dict_value values to d key = elim (get_dict_child d key).1 [
    | none ↦ some ((get_dict_child d key).0, none)
    | some x ↦ get_element_value to (values x)
  ]
