-- ===== src/ObjectTree/Removal.antt =====
-- RemoveNode on a value: the node goes, and its name stays in the parent.
use holder.Prelude.{
  ℕ, ◌%◌, ◌^◌, ◌≡◌, refl, ◌≢◌, ◌<◌, Name, true, false, nat_beq, some, lookup, erase, nat_eq,
  name_eq, arith, inl, inr, lookup-assign, lookup-erase, List, [], ◌∷◌, Option-cases,
}
use holder.ObjectTree.{
  value, dictionary, get_node_type, ok, analyze_id, DictionaryNode, ValueNode, ObjectTree, null,
  dictionary_node, get_node, find_child, find_in, remove_child, remove_from_parent, remove_value,
  remove_node, node_root,
}
use holder.ObjectTree.Valid.{get_node_value, get_node_dictionary}
use holder.ObjectTree.Adding.{find_child_ok}
use holder.ObjectTree.Values.{get_node_type_value}
use native.Mathlib.Decide.{ℕ_discrete}

lookup-remove_child :
    (name : Name) (id j : ℕ) (cs : List (Name × ℕ))
    → lookup name cs ≡ some id
    → id ≢ j
    → lookup name (remove_child j cs) ≡ some id
unfolding lookup remove_child
lookup-remove_child name id j [] h ne = h
lookup-remove_child name id j ((nm, i) ∷ cs) h ne = ground (arith, lookup-remove_child name id j cs)

value_id : (id idx : ℕ) → analyze_id id ≡ (value, idx) → id ≢ idx
unfolding analyze_id
value_id id idx e = ground arith

module _ {Val Metadata : Type 0} where
  -- RemoveChild is given an index, which is the id of no value: the entry of the value stays.
  kept_entry :
      (t : ObjectTree Val Metadata) (p parent id idx : ℕ) (n : DictionaryNode Metadata)
      (name : Name)
      → lookup p t.dict_nodes ≡ some n
      → lookup name n.child_nodes ≡ some id
      → id ≢ idx
      → (m : DictionaryNode Metadata) × (lookup p (remove_from_parent t parent idx).dict_nodes
          ≡ some m)
        × (lookup name m.child_nodes ≡ some id)
  unfolding remove_from_parent
  kept_entry t p parent id idx n name at entry ne =
      elim (Option-cases (lookup (analyze_id parent).1 t.dict_nodes)) [
        | inl e ↦ rw (e, remove_from_parent) (n, at, entry)
        | inr (m, e) ↦
            let cut : DictionaryNode Metadata = record m {
              child_nodes = remove_child idx m.child_nodes;
            } in
            rw (e, remove_from_parent)
              (elim (ℕ_discrete (analyze_id parent).1 p) [
                | yes same ↦ (
                  cut,
                  ground (arith, lookup-assign (analyze_id parent).1 p cut t.dict_nodes),
                  ground (arith, lookup-remove_child name id idx m.child_nodes),
                )
                | no other ↦ (
                  n,
                  ground (arith, lookup-assign (analyze_id parent).1 p cut t.dict_nodes),
                  entry,
                )
              ])
      ]

  -- RemoveNode of the value at `idx`, and the tree that it leaves.
  abbrev without : ObjectTree Val Metadata → ℕ → ObjectTree Val Metadata
  without t idx = record t { val_nodes = erase idx t.val_nodes }

  remove_value_lem :
      (t : ObjectTree Val Metadata) (id idx : ℕ) (v : ValueNode Val Metadata)
      → analyze_id id ≡ (value, idx)
      → lookup idx t.val_nodes ≡ some v
      → id ≢ idx
      → remove_node t id true ≡ (without (remove_from_parent t v.parent_id idx) idx, ok)
  unfolding remove_node remove_value
  remove_value_lem t id idx v tag stored ne =
      let not_root : nat_beq id node_root ≡ false = not_zero id tag in
      rw (tag, not_root, remove_node) (rw tag (rw (stored, remove_value) refl))
    where
      not_zero : (id : ℕ) → analyze_id id ≡ (value, idx) → nat_beq id 0 ≡ false
      not_zero id tag = unfold analyze_id in ground arith

  without-get_node :
      (t : ObjectTree Val Metadata) (id idx : ℕ)
      → analyze_id id ≡ (value, idx)
      → get_node (without t idx) id ≡ null
  unfolding get_node
  without-get_node t id idx tag =
      rw (tag, get_node) (rw tag (ground (arith, lookup-erase idx idx t.val_nodes)))

  without-find_child :
      (t : ObjectTree Val Metadata) (p x idx id : ℕ) (name : Name) (m : DictionaryNode Metadata)
      → analyze_id p ≡ (dictionary, p)
      → lookup p t.dict_nodes ≡ some m
      → lookup name m.child_nodes ≡ some id
      → find_child (without t idx) p name x ≡ (ok, id)
  unfolding find_child find_in get_node
  without-find_child t p x idx id name m tag there entry =
      let node : get_node (without t idx) p ≡ dictionary_node m =
        rw (tag, get_node) (rw tag (rw there refl)) in
      rw (node, find_child) (ground arith)

  -- Where a name finds a value node, RemoveNode of that node with its parent succeeds and deletes the
  -- node, but the name still finds the id, which now names no node.
  pub remove_node_keeps_name :
      (t : ObjectTree Val Metadata) (p x id : ℕ) (name : Name)
      → id < 2 ^ 33
      → find_child t p name x ≡ (ok, id)
      → get_node_type t id ≡ value
      → let (t', result) = remove_node t id true in
        (result ≡ ok) × (get_node t' id ≡ null) × (find_child t' p name x ≡ (ok, id))
  remove_node_keeps_name t p x id name h found k =
      let (v, is_value) = get_node_type_value t id k in
      let (n, at, entry) = find_child_ok t p x name id found in
      let (tag, stored) = get_node_value t id v is_value in
      let (tag', at') = get_node_dictionary t p n at in
      let idx = id % 2 ^ 32 in
      let big : id ≢ idx = value_id id idx tag in
      let (m, there, entry') = kept_entry t p v.parent_id id idx n name at' entry big in
      let removed = remove_value_lem t id idx v tag stored big in
      rw removed (
        refl,
        without-get_node _ id idx tag,
        without-find_child _ p x idx id name m tag' there entry',
      )
