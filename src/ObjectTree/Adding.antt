-- ===== src/ObjectTree/Adding.antt =====
-- AddNode and FindChild.
use holder.Prelude.{
  ℕ, ◌+◌, ◌^◌, ◌≡◌, refl, ◌≢◌, ◌≤◌, ◌<◌, Name, none, some, lookup, nat_eq, name_eq, arith, inl, inr,
  ◌⊎◌,
}
use holder.ObjectTree.{
  NodeType, no_type, dictionary, value, ok, duplicate_name, name_not_found, DictionaryNode,
  ObjectTree, null, dictionary_node, get_node, add_node, find_child, find_in, get_node_type,
  get_value,
}
use holder.ObjectTree.Growth.{
  HasRoom, add_dictionary, add_value, add_dictionary-Grows, add_value-Grows, add_node_duplicate,
  add_node_dictionary, add_node_value,
}
use holder.ObjectTree.Growth.Keeps.{
  find_child-Grows, find_child-Grows_ne, get_value-Grows, get_node_type-Grows,
  add_dictionary-IsValid, add_value-IsValid,
}
use holder.ObjectTree.Valid.{NodePtr-cases, IsValid}

module _ {Val Metadata : Type 0} where
  -- `t'` is `t` with one more node, `id` of type `kind`, the child `name` of `p`.
  pub record Adds (t t' : ObjectTree Val Metadata) (p : ℕ) (name : Name) (kind : NodeType) (id : ℕ)
      : Type 0 where
    pub valid : IsValid t'
    pub grown : t'.next_dict ≤ t.next_dict + 1
    pub same_values : kind ≡ dictionary → t'.next_val ≡ t.next_val
    pub fits : id < 2 ^ 33
    pub fresh : get_node t id ≡ null
    pub made : get_node_type t' id ≡ kind
    pub empty :
        kind ≡ dictionary → (other : Name) (x : ℕ) → find_child t' id other x ≡ (name_not_found, x)
    pub found : (x : ℕ) → find_child t' p name x ≡ (ok, id)
    pub others :
        (q x : ℕ) (other : Name)
        → q < 2 ^ 33
        → get_node t q ≢ null
        → (q ≢ p) ⊎ (other ≢ name)
        → find_child t' q other x ≡ find_child t q other x
    pub values : (q : ℕ) → q < 2 ^ 33 → get_node t q ≢ null → get_value t' q ≡ get_value t q
    pub types : (q : ℕ) → q < 2 ^ 33 → get_node t q ≢ null → get_node_type t' q ≡ get_node_type t q

  -- FindChild names the dictionary and its entry.
  pub find_child_ok :
      (t : ObjectTree Val Metadata) (p x : ℕ) (name : Name) (id : ℕ)
      → find_child t p name x ≡ (ok, id)
      → (n : DictionaryNode Metadata) × (get_node t p ≡ dictionary_node n)
        × (lookup name n.child_nodes ≡ some id)
  unfolding find_child find_in
  find_child_ok t p x name id h = elim (NodePtr-cases (get_node t p)) [
    | inl e ↦ absurd (ground arith)
    | inr (inr (n, e)) ↦ absurd (ground arith)
    | inr (inl (n, e)) ↦ (n, e, ground arith)
  ]

  pub find_child_missing :
      (t : ObjectTree Val Metadata) (p x y : ℕ) (name : Name)
      → find_child t p name x ≡ (name_not_found, y)
      → (n : DictionaryNode Metadata) × (get_node t p ≡ dictionary_node n)
        × (lookup name n.child_nodes ≡ none)
  unfolding find_child find_in
  find_child_missing t p x y name h = elim (NodePtr-cases (get_node t p)) [
    | inl e ↦ absurd (ground arith)
    | inr (inr (n, e)) ↦ absurd (ground arith)
    | inr (inl (n, e)) ↦ (n, e, ground arith)
  ]

  -- A name that is there: AddNode answers with the node that has it and changes nothing.
  pub add_node-find_child :
      (t : ObjectTree Val Metadata) (p x y : ℕ) (name : Name) (kind : NodeType) (id : ℕ)
      → find_child t p name x ≡ (ok, id)
      → add_node t p name kind y ≡ (t, duplicate_name, id)
  add_node-find_child t p x y name kind id h =
      let (n, at, e) = find_child_ok t p x name id h in add_node_duplicate t p y n name at kind id e

  made_dictionary :
      (t : ObjectTree Val Metadata) (p : ℕ) (n : DictionaryNode Metadata) (name : Name)
      → IsValid t
      → HasRoom t
      → get_node t p ≡ dictionary_node n
      → Adds t (add_dictionary t p n name) p name dictionary t.next_dict
  unfolding get_node_type
  made_dictionary t p n name v room at =
      let g = add_dictionary-Grows t p n name v room at in
      record {
        valid = add_dictionary-IsValid t p n name v room at;
        grown = omega arith;
        same_values = λ e. refl;
        fits = g.fits.1;
        fresh = g.fresh;
        made = ground (arith, g.nodes t.next_dict g.fits.1, g.fresh, g.parent);
        empty = λ e other x.
            unfold find_child find_in lookup in
            ground (arith, g.nodes t.next_dict g.fits.1, g.fresh, g.parent);
        found = find_child-Grows g;
        others = find_child-Grows_ne g;
        values = get_value-Grows g;
        types = get_node_type-Grows g;
      }

  made_value :
      (t : ObjectTree Val Metadata) (p : ℕ) (n : DictionaryNode Metadata) (name : Name)
      → IsValid t
      → HasRoom t
      → get_node t p ≡ dictionary_node n
      → Adds t (add_value t p n name) p name value (t.next_val + 2 ^ 32)
  unfolding get_node_type
  made_value t p n name v room at =
      let g = add_value-Grows t p n name v room at in
      record {
        valid = add_value-IsValid t p n name v room at;
        grown = omega arith;
        same_values = λ e. absurd (ground arith);
        fits = g.fits.1;
        fresh = g.fresh;
        made = ground (arith, g.nodes (t.next_val + 2 ^ 32) g.fits.1, g.fresh, g.parent);
        empty = λ e other x. absurd (ground arith);
        found = find_child-Grows g;
        others = find_child-Grows_ne g;
        values = get_value-Grows g;
        types = get_node_type-Grows g;
      }

  -- A name that is not there, in a valid tree with room: AddNode of a dictionary or a value
  -- succeeds and makes one node, which FindChild finds; ids, types, values and names of the nodes
  -- that were there stay.
  pub add_node-Adds :
      (t : ObjectTree Val Metadata) (p x y z : ℕ) (name : Name) (kind : NodeType)
      → IsValid t
      → HasRoom t
      → kind ≢ no_type
      → find_child t p name x ≡ (name_not_found, y)
      → let (t', result, id) = add_node t p name kind z in (result ≡ ok) × Adds t t' p name kind id
  add_node-Adds t p x y z name dictionary v room k h =
      let (n, at, e) = find_child_missing t p x y name h in
      rw (add_node_dictionary t p z n name at e) (refl, made_dictionary t p n name v room at)
  add_node-Adds t p x y z name value v room k h =
      let (n, at, e) = find_child_missing t p x y name h in
      rw (add_node_value t p z n name at e room.val_room) (refl, made_value t p n name v room at)
  add_node-Adds t p x y z name no_type v room k h = absurd (k refl)
