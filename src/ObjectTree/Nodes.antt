-- ===== src/ObjectTree/Nodes.antt =====
-- ObjectTree's types, ids and node tables (Holder/ObjectTree.h).
use holder.Prelude.{
  ℕ, ◌+◌, ◌%◌, ◌^◌, Bool, List, [], Name, nat_beq, if◌then◌else◌, Option, none, some, inc_u64,
  lookup, emplace, nat_eq, name_eq,
}
use Prim.Native.Nat.{◌/◌}

pub data NodeType : Type 0 where
  no_type dictionary value : NodeType

pub data NodeResult : Type 0 where
  ok invalid_node_id need_dictionary need_value duplicate_name name_not_found root_invalid :
      NodeResult
  dict_empty_required visitor_error : NodeResult

abbrev pub node_root : ℕ
node_root = 0

-- `id & (1 << 32)`.
abbrev pub bit_32 : ℕ → Bool
bit_32 id = nat_beq (id / 2 ^ 32 % 2) 1

unfoldable pub analyze_id : ℕ → NodeType × ℕ
analyze_id id = if bit_32 id then (value, id % 2 ^ 32) else (dictionary, id)

-- `(1 << 32) | idx` for a value.
unfoldable pub synthesize_id : NodeType → ℕ → ℕ
synthesize_id value idx = if bit_32 idx then idx else idx + 2 ^ 32
synthesize_id dictionary idx = idx
synthesize_id no_type idx = idx

-- The owner of a node is the tree that it is in. Metadata that is `none` is as constructed.
pub record DictionaryNode (Metadata : Type 0) : Type 0 where
  pub my_id : ℕ
  pub parent_id : ℕ
  pub meta_data : Option Metadata
  pub child_nodes : List (Name × ℕ)

-- `m_value` is indeterminate until it is set: `none`.
pub record ValueNode (Val Metadata : Type 0) : Type 0 where
  pub my_id : ℕ
  pub parent_id : ℕ
  pub meta_data : Option Metadata
  pub m_value : Option Val

pub record ObjectTree (Val Metadata : Type 0) : Type 0 where
  pub dict_nodes : List (ℕ × DictionaryNode Metadata)
  pub next_dict : ℕ
  pub val_nodes : List (ℕ × ValueNode Val Metadata)
  pub next_val : ℕ

-- What GetNode returns: a null pointer, or a node with the type that it writes to `nodeType`.
pub data NodePtr (Val Metadata : Type 0) : Type 0 where
  null : NodePtr Val Metadata
  dictionary_node : DictionaryNode Metadata → NodePtr Val Metadata
  value_node : ValueNode Val Metadata → NodePtr Val Metadata

abbrev pub new_dictionary : {Metadata : Type 0} → ℕ → ℕ → DictionaryNode Metadata
new_dictionary my_id parent_id = record {
  my_id = my_id;
  parent_id = parent_id;
  meta_data = none;
  child_nodes = [];
}

module _ {Val Metadata : Type 0} where
  abbrev pub new_value : ℕ → ℕ → ValueNode Val Metadata
  new_value my_id parent_id = record {
    my_id = my_id;
    parent_id = parent_id;
    meta_data = none;
    m_value = none;
  }

  -- The constructor: a tree with the root dictionary.
  unfoldable pub object_tree : ObjectTree Val Metadata
  object_tree = record {
    dict_nodes = emplace 0 (new_dictionary node_root node_root) [];
    next_dict = 1;
    val_nodes = [];
    next_val = 0;
  }

  abbrev pub dictionary_ptr : Option (DictionaryNode Metadata) → NodePtr Val Metadata
  dictionary_ptr none = null
  dictionary_ptr (some n) = dictionary_node n

  abbrev pub value_ptr : Option (ValueNode Val Metadata) → NodePtr Val Metadata
  value_ptr none = null
  value_ptr (some n) = value_node n

  unfoldable pub get_node : ObjectTree Val Metadata → ℕ → NodePtr Val Metadata
  get_node t id = elim (analyze_id id).0 [
    | value ↦ value_ptr (lookup (analyze_id id).1 t.val_nodes)
    | dictionary ↦ dictionary_ptr (lookup (analyze_id id).1 t.dict_nodes)
    | no_type ↦ null
  ]

  -- The private CreateNode: a node of the type, and a value node for any type but Dictionary.
  unfoldable pub create_node : ObjectTree Val Metadata → ℕ → NodeType → ObjectTree Val Metadata × ℕ
  create_node t parent_id dictionary =
      let id = synthesize_id dictionary t.next_dict in
      (
        record t {
          next_dict = inc_u64 t.next_dict;
          dict_nodes = emplace t.next_dict (new_dictionary id parent_id) t.dict_nodes;
        },
        id,
      )
  create_node t parent_id node_type =
      let id = synthesize_id node_type t.next_val in
      (
        record t {
          next_val = inc_u64 t.next_val;
          val_nodes = emplace t.next_val (new_value id parent_id) t.val_nodes;
        },
        id,
      )
