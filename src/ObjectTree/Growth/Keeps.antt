-- ===== src/ObjectTree/Growth/Keeps.antt =====
-- What a tree keeps when a node is added.
use holder.Prelude.{
  ℕ, ◌+◌, ◌^◌, ◌≡◌, ◌≢◌, ◌<◌, Name, some, lookup, nat_eq, name_eq, arith, inl, inr, ◌⊎◌,
  lookup-emplace, lookup-assign, emplace, name_beq_iff,
}
use mathlib.Core.Path.{subst}
use mathlib.Core.List.{[]}
use holder.ObjectTree.{
  ok, node_root, DictionaryNode, ValueNode, ObjectTree, NodePtr, null, dictionary_node, get_node,
  new_dictionary, new_value, find_child, find_in, get_node_type, get_value,
}
use holder.ObjectTree.Growth.{
  HasRoom, with_child, add_dictionary, add_value, Grows, add_dictionary-Grows, add_value-Grows,
}
use holder.ObjectTree.Valid.{get_node_dictionary, IsValid}

module _ {Val Metadata : Type 0} where
  module _ {t t' : ObjectTree Val Metadata} {p : ℕ} {n : DictionaryNode Metadata} {name : Name}
      {id : ℕ} {made : NodePtr Val Metadata} (g : Grows t t' p n name id made) where
    pub find_child-Grows : (x : ℕ) → find_child t' p name x ≡ (ok, id)
    unfolding find_child find_in
    find_child-Grows x = ground (
      arith,
      g.nodes p g.fits.0,
      lookup-assign name name id (emplace name node_root n.child_nodes),
      name_beq_iff name name,
    )

    -- Every other name under every other node is found as before.
    pub find_child-Grows_ne :
        (q x : ℕ) (other : Name)
        → q < 2 ^ 33
        → get_node t q ≢ null
        → (q ≢ p) ⊎ (other ≢ name)
        → find_child t' q other x ≡ find_child t q other x
    unfolding find_child find_in
    find_child-Grows_ne q x other h there ne = ground (
      arith,
      g.nodes q h,
      g.parent,
      g.fresh,
      lookup-assign name other id (emplace name node_root n.child_nodes),
      lookup-emplace name other node_root n.child_nodes,
      name_beq_iff name other,
    )

    pub get_value-Grows :
        (q : ℕ) → q < 2 ^ 33 → get_node t q ≢ null → get_value t' q ≡ get_value t q
    unfolding get_value
    get_value-Grows q h there = ground (arith, g.nodes q h, g.parent, g.fresh)

    pub get_node_type-Grows :
        (q : ℕ) → q < 2 ^ 33 → get_node t q ≢ null → get_node_type t' q ≡ get_node_type t q
    unfolding get_node_type
    get_node_type-Grows q h there = ground (arith, g.nodes q h, g.parent, g.fresh)

    kept-Grows : (q : ℕ) → q < 2 ^ 33 → get_node t q ≢ null → get_node t' q ≢ null
    kept-Grows q h there = ground (arith, g.nodes q h, g.fresh)

    child-with_child :
        (nm : Name) (cid : ℕ)
        → lookup nm (with_child n name id).child_nodes ≡ some cid
        → (cid ≡ id) ⊎ (lookup nm n.child_nodes ≡ some cid)
    child-with_child nm cid = ground (
      arith,
      lookup-assign name nm id (emplace name node_root n.child_nodes),
      lookup-emplace name nm node_root n.child_nodes,
    )

    children-Grows :
        (i : ℕ) (m : DictionaryNode Metadata) (nm : Name) (cid : ℕ)
        → IsValid t
        → made ≢ null
        → (m ≡ with_child n name id) ⊎ ((m.child_nodes ≡ []) ⊎ (lookup i t.dict_nodes ≡ some m))
        → lookup nm m.child_nodes ≡ some cid
        → (cid < 2 ^ 33) × (get_node t' cid ≢ null)
    unfolding lookup
    children-Grows i m nm cid v is_made (inl e) c =
        elim (child-with_child nm cid (subst (λ m. lookup nm m.child_nodes ≡ some cid) e c)) [
          | inl same ↦ (
            omega (arith, g.fits.1),
            rw same (ground (arith, g.nodes id g.fits.1, g.fresh, g.parent)),
          )
          | inr old ↦
              let (h, there) = v.children p n nm cid (get_node_dictionary t p n g.parent).1 old in
              (h, kept-Grows cid h there)
        ]
    children-Grows i m nm cid v is_made (inr (inl e)) c = absurd (false_some (rw e at c))
      where
        false_some : lookup nm [] ≡ some cid → ⊥
        false_some c = ground arith
    children-Grows i m nm cid v is_made (inr (inr a)) c =
        let (h, there) = v.children i m nm cid a c in (h, kept-Grows cid h there)

  module _ (t : ObjectTree Val Metadata) (p : ℕ) (n : DictionaryNode Metadata) (name : Name)
      (v : IsValid t) (room : HasRoom t) (found : get_node t p ≡ dictionary_node n) where
    node_at : lookup p t.dict_nodes ≡ some n
    node_at = (get_node_dictionary t p n found).1

    pub add_dictionary-IsValid : IsValid (add_dictionary t p n name)
    add_dictionary-IsValid =
        let made : DictionaryNode Metadata = new_dictionary t.next_dict n.my_id in
        let look = λ (i : ℕ).
          lookup-assign p i (with_child n name t.next_dict)
            (emplace t.next_dict made t.dict_nodes) in
        let look' = λ (i : ℕ). lookup-emplace t.next_dict i made t.dict_nodes in
        record {
          dict_fits = omega (arith, room.dict_room);
          val_fits = v.val_fits;
          dict_below = λ i m a.
              ground (
                arith,
                look i,
                look' i,
                room.dict_room,
                v.dict_below i m,
                v.dict_below p n node_at,
              );
          dict_id = λ i m a. ground (arith, look i, look' i, v.dict_id i m, v.dict_id p n node_at);
          val_below = v.val_below;
          root = ground (arith, look 0, look' 0, v.root);
          children = λ i m nm cid a.
              children-Grows (add_dictionary-Grows t p n name v room found) i m nm cid v
                (λ e. ground arith) (ground (arith, look i, look' i));
        }

    pub add_value-IsValid : IsValid (add_value t p n name)
    add_value-IsValid =
        let id = t.next_val + 2 ^ 32 in
        let made : ValueNode Val Metadata = new_value id n.my_id in
        let look = λ (i : ℕ). lookup-assign p i (with_child n name id) t.dict_nodes in
        let look' = λ (i : ℕ). lookup-emplace t.next_val i made t.val_nodes in
        record {
          dict_fits = v.dict_fits;
          val_fits = omega (arith, room.val_room);
          dict_below = λ i m a. ground (arith, look i, v.dict_below i m, v.dict_below p n node_at);
          dict_id = λ i m a. ground (arith, look i, v.dict_id i m, v.dict_id p n node_at);
          val_below = λ i m a. ground (arith, look' i, room.val_room, v.val_below i m);
          root = ground (arith, look 0, v.root);
          children = λ i m nm cid a.
              children-Grows (add_value-Grows t p n name v room found) i m nm cid v
                (λ e. ground arith) (ground (arith, look i));
        }
