-- ===== src/Data/Walk/Order.antt =====
-- The walk with the stack calls the serializer as recursion on the tree does.
use holder.Prelude.{Bool, true, false, List, ◌∷◌, if◌then◌else◌}
use holder.Data.Walk.{
  Datum, element, object, list, dict, Items, nil, cons, Entries, end, entry, IterInstruction, enter,
  skip, break, SerializerCall, on_element, on_object, on_list, on_dict, on_dict_key, end_compound,
  has_items, has_entries,
}

module _ (decide : List SerializerCall → IterInstruction) where
  -- The end of a compound that was entered and has children.
  abbrev pub close : Bool → Bool × List SerializerCall → Bool × List SerializerCall
  close has_children (false, calls) = (false, calls)
  close has_children (true, calls) = (true, if has_children then end_compound ∷ calls else calls)

  -- A later part only follows if nothing broke off.
  abbrev pub followed :
      Bool × List SerializerCall
      → (List SerializerCall → Bool × List SerializerCall)
      → Bool × List SerializerCall
  followed (false, calls) f = (false, calls)
  followed (true, calls) f = f calls

  -- Depth first: a compound is announced, its children if it is entered, and its end. The answer is
  -- false as soon as a callback breaks off.
  unfoldable mutual
    pub serialize : Datum → List SerializerCall → Bool × List SerializerCall
    serialize (element x) calls = elim (decide (on_element x ∷ calls)) [
      | break ↦ (false, on_element x ∷ calls)
      | _ ↦ (true, on_element x ∷ calls)
    ]
    serialize (object x) calls = elim (decide (on_object x ∷ calls)) [
      | break ↦ (false, on_object x ∷ calls)
      | _ ↦ (true, on_object x ∷ calls)
    ]
    serialize (list ds) calls =
        let calls' = on_list ds (has_items ds) ∷ calls in
        elim (decide calls') [
          | enter ↦ close (has_items ds) (serialize_items ds calls')
          | skip ↦ (true, calls')
          | break ↦ (false, calls')
        ]
    serialize (dict ds) calls =
        let calls' = on_dict ds (has_entries ds) ∷ calls in
        elim (decide calls') [
          | enter ↦ close (has_entries ds) (serialize_entries ds calls')
          | skip ↦ (true, calls')
          | break ↦ (false, calls')
        ]

    pub serialize_items : Items → List SerializerCall → Bool × List SerializerCall
    serialize_items nil calls = (true, calls)
    serialize_items (cons d ds) calls = followed (serialize d calls) (λ c. serialize_items ds c)

    pub serialize_entries : Entries → List SerializerCall → Bool × List SerializerCall
    serialize_entries end calls = (true, calls)
    serialize_entries (entry key d ds) calls = elim (decide (on_dict_key key ∷ calls)) [
      | enter ↦ followed (serialize d (on_dict_key key ∷ calls)) (λ c. serialize_entries ds c)
      | skip ↦ serialize_entries ds (on_dict_key key ∷ calls)
      | break ↦ (false, on_dict_key key ∷ calls)
    ]
