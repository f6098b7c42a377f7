-- ===== src/ObjectTree.antt =====
-- ObjectTree (Holder/ObjectTree.h): named nodes in two tables, addressed by tagged 64-bit ids.
mod Nodes
pub mod Valid
pub mod Growth
pub mod Adding
pub mod Extends
pub mod Values
pub mod Removal
pub mod Tests
unfoldable pub use Nodes.*
use holder.Prelude.{
  ℕ, Bool, true, false, List, [], ◌∷◌, Name, nat_beq, if◌then◌else◌, Option, none, some, lookup,
  emplace, assign, erase, nat_eq, name_eq,
}

-- DictionaryNode::FindChild.
unfoldable pub find_in : {Metadata : Type 0} → DictionaryNode Metadata → Name → Option ℕ
find_in n name = lookup name n.child_nodes

unfoldable pub is_empty_list : List (Name × ℕ) → Bool
is_empty_list [] = true
is_empty_list (c ∷ cs) = false

-- DictionaryNode::RemoveChild: the first entry with the id goes.
unfoldable pub remove_child : ℕ → List (Name × ℕ) → List (Name × ℕ)
remove_child child_id [] = []
remove_child child_id ((name, id) ∷ cs) =
    if nat_beq id child_id then cs else (name, id) ∷ remove_child child_id cs

module _ {Val Metadata : Type 0} where
  -- DictionaryNode::CreateChild on the node at `idx`: the tree, the id, and whether it is new. The
  -- emplaced entry gets its id after the node is made.
  unfoldable pub create_child :
      ObjectTree Val Metadata
      → ℕ
      → DictionaryNode Metadata
      → Name
      → NodeType
      → ObjectTree Val Metadata × ℕ × Bool
  create_child t idx n name node_type = elim (lookup name n.child_nodes) [
    | some id ↦ (t, id, false)
    | none ↦
        let (t', id) = create_node t n.my_id node_type in
        (
          record t' {
            dict_nodes =
                assign idx
                  (record n { child_nodes = assign name id (emplace name node_root n.child_nodes) })
                  t'.dict_nodes;
          },
          id,
          true,
        )
  ]

  -- The id that AddNode and FindChild write stays as it was where they fail.
  unfoldable pub add_node :
      ObjectTree Val Metadata → ℕ → Name → NodeType → ℕ → ObjectTree Val Metadata × NodeResult × ℕ
  add_node t parent_id name node_type result_id = elim (get_node t parent_id) [
    | null ↦ (t, invalid_node_id, result_id)
    | value_node n ↦ (t, need_dictionary, result_id)
    | dictionary_node n ↦
        let (t', id, is_new) = create_child t (analyze_id parent_id).1 n name node_type in
        (t', if is_new then ok else duplicate_name, id)
  ]

  unfoldable pub find_child : ObjectTree Val Metadata → ℕ → Name → ℕ → NodeResult × ℕ
  unfolding find_in
  find_child t parent_id name child_id = elim (get_node t parent_id) [
    | null ↦ (invalid_node_id, child_id)
    | value_node n ↦ (need_dictionary, child_id)
    | dictionary_node n ↦ elim (find_in n name) [
      | none ↦ (name_not_found, child_id)
      | some id ↦ (ok, id)
    ]
  ]

  unfoldable pub is_empty : ObjectTree Val Metadata → ℕ → Bool
  is_empty t id = elim (get_node t id) [
    | null ↦ false
    | value_node n ↦ false
    | dictionary_node n ↦ is_empty_list n.child_nodes
  ]

  -- GetValue: the value that it writes, if it is OK.
  unfoldable pub get_value : ObjectTree Val Metadata → ℕ → NodeResult × Option Val
  get_value t id = elim (get_node t id) [
    | null ↦ (invalid_node_id, none)
    | dictionary_node n ↦ (need_value, none)
    | value_node n ↦ (ok, n.m_value)
  ]

  unfoldable pub set_value :
      ObjectTree Val Metadata → ℕ → Val → ObjectTree Val Metadata × NodeResult
  set_value t id v = elim (get_node t id) [
    | null ↦ (t, invalid_node_id)
    | dictionary_node n ↦ (t, need_value)
    | value_node n ↦ (
      record t { val_nodes = assign (analyze_id id).1 (record n { m_value = some v }) t.val_nodes },
      ok,
    )
  ]

  -- The visitor may change the metadata; it answers whether it went well.
  unfoldable pub visit_metadata :
      ObjectTree Val Metadata
      → ℕ
      → (Option Metadata → Option Metadata × Bool)
      → ObjectTree Val Metadata × NodeResult
  visit_metadata t id visitor = elim (get_node t id) [
    | null ↦ (t, invalid_node_id)
    | dictionary_node n ↦
        let (m, went_well) = visitor n.meta_data in
        (
          record t {
            dict_nodes = assign (analyze_id id).1 (record n { meta_data = m }) t.dict_nodes;
          },
          if went_well then ok else visitor_error,
        )
    | value_node n ↦
        let (m, went_well) = visitor n.meta_data in
        (
          record t {
            val_nodes = assign (analyze_id id).1 (record n { meta_data = m }) t.val_nodes;
          },
          if went_well then ok else visitor_error,
        )
  ]

  unfoldable pub get_node_type : ObjectTree Val Metadata → ℕ → NodeType
  get_node_type t id = elim (get_node t id) [
    | null ↦ no_type
    | dictionary_node n ↦ dictionary
    | value_node n ↦ value
  ]

  -- The parent's part of RemoveNodeInternal. It hands the index of the node to RemoveChild. A
  -- parent that is not there is undefined behaviour in the source; here it changes nothing.
  unfoldable pub remove_from_parent : ObjectTree Val Metadata → ℕ → ℕ → ObjectTree Val Metadata
  unfolding remove_child
  remove_from_parent t parent_id node_idx = elim (lookup (analyze_id parent_id).1 t.dict_nodes) [
    | none ↦ t
    | some n ↦ record t {
      dict_nodes =
          assign (analyze_id parent_id).1
            (record n { child_nodes = remove_child node_idx n.child_nodes }) t.dict_nodes;
    }
  ]

  -- RemoveNodeInternal on each of the two tables.
  unfoldable pub remove_dictionary :
      ObjectTree Val Metadata → ℕ → Bool → ObjectTree Val Metadata × NodeResult
  remove_dictionary t node_idx update_parent = elim (lookup node_idx t.dict_nodes) [
    | none ↦ (t, invalid_node_id)
    | some n ↦
        let t' = if update_parent then remove_from_parent t n.parent_id node_idx else t in
        if is_empty_list n.child_nodes
        then (record t' { dict_nodes = erase node_idx t'.dict_nodes }, ok)
        else (t, dict_empty_required)
  ]

  unfoldable pub remove_value :
      ObjectTree Val Metadata → ℕ → Bool → ObjectTree Val Metadata × NodeResult
  remove_value t node_idx update_parent = elim (lookup node_idx t.val_nodes) [
    | none ↦ (t, invalid_node_id)
    | some n ↦
        let t' = if update_parent then remove_from_parent t n.parent_id node_idx else t in
        (record t' { val_nodes = erase node_idx t'.val_nodes }, ok)
  ]

  unfoldable pub remove_node :
      ObjectTree Val Metadata → ℕ → Bool → ObjectTree Val Metadata × NodeResult
  remove_node t id update_parent =
      let (node_type, idx) = analyze_id id in
      if nat_beq id node_root then (t, root_invalid) else elim node_type [
        | dictionary ↦ remove_dictionary t idx update_parent
        | value ↦ remove_value t idx update_parent
        | no_type ↦ (t, invalid_node_id)
      ]
