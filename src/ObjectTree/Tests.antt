-- ===== src/ObjectTree/Tests.antt =====
-- A tree with the dictionary "a" and in it the value "b".
use holder.Prelude.{
  ℕ, ◌^◌, ◌≡◌, refl, Name, name_beq, [], ◌∷◌, lookup, emplace, assign, erase, nat_eq, name_eq,
  arith, true,
}
use holder.ObjectTree.{
  NodeType, dictionary, value, ok, ObjectTree, null, object_tree, create_node, create_child,
  add_node, find_child, find_in, get_node, get_node_type, get_value, set_value, remove_node,
  remove_value, remove_dictionary, remove_from_parent, remove_child, is_empty_list, analyze_id,
  synthesize_id,
}
use holder.ObjectTree.Valid.{IsValid}
use holder.ObjectTree.Adding.{Adds, add_node-Adds}
use holder.ObjectTree.Values.{Sets, set_value-Sets}
use holder.ObjectTree.Removal.{remove_node_keeps_name}

abbrev pub fresh_tree : ObjectTree ℕ ℕ
fresh_tree = object_tree

pub fresh_tree-IsValid : IsValid fresh_tree
unfolding object_tree lookup emplace
fresh_tree-IsValid = record {
  dict_fits = omega arith;
  val_fits = omega arith;
  dict_below = λ i n h. ground arith;
  dict_id = λ i n h. ground arith;
  val_below = λ i n h. ground arith;
  root = (_, refl);
  children = λ i n name id h g. absurd (ground arith);
}

unfoldable pub ready : Unit {0}
unfolding name_beq object_tree lookup emplace assign erase create_node create_child add_node
    find_child find_in get_node get_node_type get_value set_value remove_node remove_value
    remove_dictionary remove_from_parent remove_child is_empty_list analyze_id synthesize_id
ready = tt

abbrev pub a : Name
a = 97 ∷ []

abbrev pub b : Name
b = 98 ∷ []

-- AddNode, and the tree after it.
abbrev pub grow : ObjectTree ℕ ℕ → ℕ → Name → NodeType → ObjectTree ℕ ℕ
grow t p name kind = (add_node t p name kind 0).0

abbrev pub small : ObjectTree ℕ ℕ
small = grow (grow fresh_tree 0 a dictionary) 1 b value

with_a : Adds fresh_tree (grow fresh_tree 0 a dictionary) 0 a dictionary 1
unfolding ready
with_a =
    (add_node-Adds fresh_tree 0 7 7 0 a dictionary fresh_tree-IsValid
      (record { dict_room = omega arith; val_room = omega arith }) (ground arith) refl).1

add_node-Adds_example :
    let (t', result, id) = add_node (grow fresh_tree 0 a dictionary) 1 b value 0 in
    (result ≡ ok) × Adds (grow fresh_tree 0 a dictionary) t' 1 b value id
unfolding ready
add_node-Adds_example =
    add_node-Adds (grow fresh_tree 0 a dictionary) 1 7 7 0 b value with_a.valid
      (record { dict_room = omega arith; val_room = omega arith }) (ground arith) refl

small-IsValid : IsValid small
small-IsValid = add_node-Adds_example.1.valid

set_value-Sets_example :
    let (t', result) = set_value small (2 ^ 32) 42 in (result ≡ ok) × Sets small t' (2 ^ 32) 42
unfolding ready
set_value-Sets_example = set_value-Sets small (2 ^ 32) 42 small-IsValid (omega arith) refl

remove_node_keeps_name_example :
    let (t', result) = remove_node small (2 ^ 32) true in
    (result ≡ ok) × (get_node t' (2 ^ 32) ≡ null) × (find_child t' 1 b 7 ≡ (ok, 2 ^ 32))
unfolding ready
remove_node_keeps_name_example = remove_node_keeps_name small 1 7 (2 ^ 32) b (omega arith) refl refl
