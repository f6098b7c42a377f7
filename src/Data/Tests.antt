-- ===== src/Data/Tests.antt =====
-- A list of an element and an empty list, a dictionary, and conversions at the limits.
use holder.Prelude.{ℕ, ◌≡◌, ◌↔◌, refl, List, [], ◌∷◌, none, some, name_beq, arith}
use holder.Data.Convert.{
  ℤ, ConvertResult, compiles, negates_min, pos, negsuc, int8, uint8, int16, int32, converted,
  narrowing, convert_integral, cast, to_bits, of_bits, is_below, is_above, max_of, min_of,
}
use holder.Data.Range.{IsIn, nearest, convert_integral-nearest}
use holder.Data.Walk.{
  Datum, element, list, dict, nil, cons, end, entry, IterInstruction, enter, SerializerCall,
  serialize_data_tree, walk, walk_round, visit_level, start_level, start_compound, load_children,
  take_child, new_level, item_children, entry_children, children_of,
}
use holder.Data.Walk.Order.{serialize}
use holder.Data.Walk.Steps.{more}
use holder.Data.Walk.Fuel.{serialize_data_tree-serialize}
use holder.Data.Access.{
  narrowed, integer, get_dict_value, get_dict_child, get_element_value, get_coerced_value,
  coerced_value, access_of, find_entry,
}

converting : Unit {0}
unfolding convert_integral compiles negates_min cast to_bits of_bits is_below is_above max_of min_of
    nearest get_dict_value get_dict_child get_element_value get_coerced_value coerced_value
    access_of find_entry name_beq
converting = tt

clamped : convert_integral int16 uint8 (pos 300) ≡ some (narrowing, pos 255)
unfolding converting
clamped = refl

clamped_below : convert_integral int16 int8 (negsuc 199) ≡ some (narrowing, negsuc 127)
unfolding converting
clamped_below = refl

-- For signed types of 32 bits there is no code.
not_compiled : convert_integral int32 int8 (negsuc 199) ≡ none
unfolding converting
not_compiled = refl

convert_integral-nearest_example :
    (result : ConvertResult) × (y : ℤ) × (convert_integral int16 uint8 (pos 300) ≡ some (result, y))
    × (y ≡ nearest uint8 (pos 300))
    × IsIn uint8 y
    × ((result ≡ converted) ↔ IsIn uint8 (pos 300))
    × ((result ≡ narrowing) ↔ (IsIn uint8 (pos 300) → ⊥))
convert_integral-nearest_example =
    convert_integral-nearest int16 uint8 (pos 300) (unfold compiles in refl)
      (unfold max_of in omega arith)

abbrev tree : Datum
tree = dict (
    entry (1 ∷ []) (list (cons (element 5) (cons (list nil) nil))) (entry (2 ∷ []) (element 6) end))

abbrev all : List SerializerCall → IterInstruction
all calls = enter

walking : Unit {0}
unfolding serialize_data_tree walk walk_round visit_level start_level start_compound load_children
    take_child new_level item_children entry_children children_of serialize more
walking = tt

tree_calls : serialize_data_tree all 9 tree ≡ some (serialize all tree [])
unfolding walking
tree_calls = refl

out_of_fuel : serialize_data_tree all 7 tree ≡ none
unfolding walking
out_of_fuel = refl

serialize_data_tree-serialize_example :
    (n : ℕ) × ((f : ℕ) → serialize_data_tree all (more n f) tree ≡ some (serialize all tree []))
serialize_data_tree-serialize_example = serialize_data_tree-serialize all tree

element_read :
    get_dict_value (λ t f. pos 0) (λ t f. pos 0) (λ x. integer int16 (negsuc 2)) uint8 tree (2 ∷ [])
    ≡ some (narrowed, some (pos 0))
unfolding converting
element_read = refl
