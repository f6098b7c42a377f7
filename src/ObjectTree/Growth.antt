-- ===== src/ObjectTree/Growth.antt =====
-- The trees that AddNode makes, and their nodes.
pub mod Keeps
use holder.Prelude.{
  ℕ, ◌+◌, ◌%◌, ◌^◌, ◌≡◌, refl, sym, ◌∙◌, ◌≢◌, ◌≤◌, ◌<◌, Bool, true, false, Name, nat_beq,
  if◌then◌else◌, Option, none, some, lookup, nat_eq, name_eq, arith, Option-cases, inl, inr, ◌⊎◌,
  lookup-emplace, lookup-assign, emplace, assign, or_else, name_beq_iff, nat_beq_iff, inc_u64,
  name_beq,
}
use mathlib.Core.Path.{subst}
use mathlib.Core.List.{[]}
use holder.ObjectTree.{
  NodeType, no_type, dictionary, value, NodeResult, ok, duplicate_name, name_not_found, node_root,
  analyze_id, synthesize_id, DictionaryNode, ValueNode, ObjectTree, NodePtr, null, dictionary_node,
  value_node, dictionary_ptr, value_ptr, get_node, new_dictionary, new_value, create_node,
  create_child, add_node, find_child, find_in, get_node_type, get_value,
}
use holder.ObjectTree.Valid.{
  analyze_id-synthesize_id, get_node-dict, get_node-val, get_node_dictionary, get_node_value,
  IsValid,
}

-- The parent with the new entry.
abbrev pub with_child :
    {Metadata : Type 0} → DictionaryNode Metadata → Name → ℕ → DictionaryNode Metadata
with_child n name id = record n {
  child_nodes = assign name id (emplace name node_root n.child_nodes);
}

module _ {Val Metadata : Type 0} where
  -- There is room for one more node of each type.
  pub record HasRoom (t : ObjectTree Val Metadata) : Type 0 where
    pub dict_room : t.next_dict < 2 ^ 32
    pub val_room : t.next_val < 2 ^ 32

  -- The tree after CreateChild has made a node.
  abbrev pub add_dictionary :
      ObjectTree Val Metadata → ℕ → DictionaryNode Metadata → Name → ObjectTree Val Metadata
  add_dictionary t p n name = record t {
    next_dict = inc_u64 t.next_dict;
    dict_nodes =
        assign p (with_child n name t.next_dict)
          (emplace t.next_dict (new_dictionary t.next_dict n.my_id) t.dict_nodes);
  }

  abbrev pub add_value :
      ObjectTree Val Metadata → ℕ → DictionaryNode Metadata → Name → ObjectTree Val Metadata
  add_value t p n name = record t {
    dict_nodes = assign p (with_child n name (t.next_val + 2 ^ 32)) t.dict_nodes;
    next_val = inc_u64 t.next_val;
    val_nodes = emplace t.next_val (new_value (t.next_val + 2 ^ 32) n.my_id) t.val_nodes;
  }

  module _ (t : ObjectTree Val Metadata) (p x : ℕ) (n : DictionaryNode Metadata) (name : Name)
      (found : get_node t p ≡ dictionary_node n) where
    pub add_node_duplicate :
        (kind : NodeType) (id : ℕ)
        → lookup name n.child_nodes ≡ some id
        → add_node t p name kind x ≡ (t, duplicate_name, id)
    unfolding add_node create_child
    add_node_duplicate kind id h = rw (found, add_node) (rw (h, create_child) refl)

    pub add_node_dictionary :
        lookup name n.child_nodes ≡ none
        → add_node t p name dictionary x ≡ (add_dictionary t p n name, ok, t.next_dict)
    unfolding add_node create_child create_node synthesize_id
    add_node_dictionary h =
        let (at, _) = get_node_dictionary t p n found in
        rw (found, add_node) (rw (h, create_child) (rw at refl))

    pub add_node_value :
        lookup name n.child_nodes ≡ none
        → t.next_val < 2 ^ 32
        → add_node t p name value x ≡ (add_value t p n name, ok, t.next_val + 2 ^ 32)
    unfolding add_node create_child create_node
    add_node_value h room =
        let (at, _) = get_node_dictionary t p n found in
        let id : synthesize_id value t.next_val ≡ t.next_val + 2 ^ 32 =
          unfold synthesize_id in ground arith in
        rw (found, add_node) (rw (h, create_child) (rw (at, id) refl))

  module _ (t : ObjectTree Val Metadata) (p : ℕ) (n : DictionaryNode Metadata) (name : Name)
      (v : IsValid t) (room : HasRoom t) (at : lookup p t.dict_nodes ≡ some n) where
    parent_below : p < t.next_dict
    parent_below = v.dict_below p n at

    fresh_dictionary : lookup t.next_dict t.dict_nodes ≡ none
    fresh_dictionary = elim (Option-cases (lookup t.next_dict t.dict_nodes)) [
      | inl e ↦ e
      | inr (m, e) ↦ absurd (omega (arith, v.dict_below t.next_dict m e))
    ]

    fresh_value : lookup t.next_val t.val_nodes ≡ none
    fresh_value = elim (Option-cases (lookup t.next_val t.val_nodes)) [
      | inl e ↦ e
      | inr (m, e) ↦ absurd (omega (arith, v.val_below t.next_val m e))
    ]

    get_node-add_dictionary :
        (q : ℕ)
        → get_node (add_dictionary t p n name) q ≡ (
            if nat_beq p q
            then dictionary_node (with_child n name t.next_dict)
            else if nat_beq t.next_dict q
            then dictionary_node (new_dictionary t.next_dict n.my_id)
            else get_node t q)
    unfolding get_node analyze_id
    get_node-add_dictionary q =
        let made : DictionaryNode Metadata = new_dictionary t.next_dict n.my_id in
        ground (
          arith,
          parent_below,
          fresh_dictionary,
          room.dict_room,
          lookup-assign p q (with_child n name t.next_dict) (emplace t.next_dict made t.dict_nodes),
          lookup-emplace t.next_dict q made t.dict_nodes,
        )

    get_node-add_value :
        (q : ℕ)
        → q < 2 ^ 33
        → get_node (add_value t p n name) q ≡ (
            if nat_beq p q
            then dictionary_node (with_child n name (t.next_val + 2 ^ 32))
            else if nat_beq (t.next_val + 2 ^ 32) q
            then value_node (new_value (t.next_val + 2 ^ 32) n.my_id)
            else get_node t q)
    unfolding get_node analyze_id
    get_node-add_value q h =
        let made : ValueNode Val Metadata = new_value (t.next_val + 2 ^ 32) n.my_id in
        ground (
          arith,
          parent_below,
          fresh_value,
          room.dict_room,
          room.val_room,
          lookup-assign p q (with_child n name (t.next_val + 2 ^ 32)) t.dict_nodes,
          lookup-emplace t.next_val (q % 2 ^ 32) made t.val_nodes,
        )

  -- `t'` is `t` with the node `made`, of id `id`, as the child `name` of `p`.
  pub record Grows (t t' : ObjectTree Val Metadata) (p : ℕ) (n : DictionaryNode Metadata)
      (name : Name) (id : ℕ) (made : NodePtr Val Metadata) : Type 0 where
    pub parent : get_node t p ≡ dictionary_node n
    pub fresh : get_node t id ≡ null
    pub fits : (p < 2 ^ 33) × (id < 2 ^ 33)
    pub nodes :
        (q : ℕ)
        → q < 2 ^ 33
        → get_node t' q ≡ (
            if nat_beq p q
            then dictionary_node (with_child n name id)
            else if nat_beq id q
            then made
            else get_node t q)

  module _ (t : ObjectTree Val Metadata) (p : ℕ) (n : DictionaryNode Metadata) (name : Name)
      (v : IsValid t) (room : HasRoom t) (found : get_node t p ≡ dictionary_node n) where
    at : lookup p t.dict_nodes ≡ some n
    at = (get_node_dictionary t p n found).1

    pub add_dictionary-Grows :
        Grows t
          (add_dictionary t p n name)
          p
          n
          name
          t.next_dict
          (dictionary_node (new_dictionary t.next_dict n.my_id))
    add_dictionary-Grows = record {
      parent = found;
      fresh =
          rw (get_node-dict t t.next_dict room.dict_room, fresh_dictionary t p n name v room at)
            refl;
      fits = omega (arith, parent_below t p n name v room at, room.dict_room);
      nodes = λ q _. get_node-add_dictionary t p n name v room at q;
    }

    pub add_value-Grows :
        Grows t
          (add_value t p n name)
          p
          n
          name
          (t.next_val + 2 ^ 32)
          (value_node (new_value (t.next_val + 2 ^ 32) n.my_id))
    add_value-Grows = record {
      parent = found;
      fresh = rw (get_node-val t t.next_val room.val_room, fresh_value t p n name v room at) refl;
      fits = omega (arith, parent_below t p n name v room at, room.dict_room, room.val_room);
      nodes = get_node-add_value t p n name v room at;
    }
