-- ===== src/ObjectTree/Values.antt =====
-- SetValue and GetValue.
use holder.Prelude.{
  ℕ, ◌%◌, ◌^◌, ◌≡◌, refl, ◌≢◌, ◌<◌, Name, nat_beq, if◌then◌else◌, some, assign, nat_eq, name_eq,
  arith, inl, inr, lookup-assign,
}
use holder.ObjectTree.{
  value, ok, analyze_id, ValueNode, ObjectTree, value_node, get_node, find_child, get_node_type,
  get_value, set_value,
}
use holder.ObjectTree.Valid.{NodePtr-cases, get_node_value, IsValid}

module _ {Val Metadata : Type 0} where
  abbrev with_value :
      ObjectTree Val Metadata → ℕ → ValueNode Val Metadata → Val → ObjectTree Val Metadata
  with_value t id n v = record t {
    val_nodes = assign (id % 2 ^ 32) (record n { m_value = some v }) t.val_nodes;
  }

  set_value_lem :
      (t : ObjectTree Val Metadata) (id : ℕ) (n : ValueNode Val Metadata) (v : Val)
      → get_node t id ≡ value_node n
      → set_value t id v ≡ (with_value t id n v, ok)
  unfolding set_value
  set_value_lem t id n v e = rw (e, set_value) (rw ((get_node_value t id n e).0) refl)

  get_node-with_value :
      (t : ObjectTree Val Metadata) (id : ℕ) (n : ValueNode Val Metadata) (v : Val) (q : ℕ)
      → get_node t id ≡ value_node n
      → id < 2 ^ 33
      → q < 2 ^ 33
      → get_node (with_value t id n v) q
        ≡ (if nat_beq id q then value_node (record n { m_value = some v }) else get_node t q)
  unfolding get_node analyze_id
  get_node-with_value t id n v q e h g =
      ground (
        arith,
        lookup-assign (id % 2 ^ 32) (q % 2 ^ 32) (record n { m_value = some v }) t.val_nodes,
      )

  pub get_node_type_value :
      (t : ObjectTree Val Metadata) (id : ℕ)
      → get_node_type t id ≡ value
      → (n : ValueNode Val Metadata) × (get_node t id ≡ value_node n)
  unfolding get_node_type
  get_node_type_value t id h = elim (NodePtr-cases (get_node t id)) [
    | inl e ↦ absurd (ground arith)
    | inr (inl (n, e)) ↦ absurd (ground arith)
    | inr (inr (n, e)) ↦ (n, e)
  ]

  -- What SetValue on the value node `id` leaves.
  pub record Sets (t t' : ObjectTree Val Metadata) (id : ℕ) (v : Val) : Type 0 where
    pub valid : IsValid t'
    pub read : get_value t' id ≡ (ok, some v)
    pub others : (q : ℕ) → q < 2 ^ 33 → q ≢ id → get_value t' q ≡ get_value t q
    pub names :
        (q x : ℕ) (name : Name) → q < 2 ^ 33 → find_child t' q name x ≡ find_child t q name x
    pub types : (q : ℕ) → q < 2 ^ 33 → get_node_type t' q ≡ get_node_type t q

  -- SetValue on a value node of a valid tree succeeds: GetValue then reads the value there, and
  -- every other value, every name and every type is as before.
  pub set_value-Sets :
      (t : ObjectTree Val Metadata) (id : ℕ) (v : Val)
      → IsValid t
      → id < 2 ^ 33
      → get_node_type t id ≡ value
      → let (t', result) = set_value t id v in (result ≡ ok) × Sets t t' id v
  unfolding get_value find_child get_node_type
  set_value-Sets t id v valid h k =
      let (n, e) = get_node_type_value t id k in
      let at = (get_node_value t id n e).1 in
      let node = λ (q : ℕ) (g : q < 2 ^ 33). get_node-with_value t id n v q e h g in
      let look =
        λ (i : ℕ). lookup-assign (id % 2 ^ 32) i (record n { m_value = some v }) t.val_nodes in
      rw (set_value_lem t id n v e) (
        refl,
        record {
          valid = record {
            dict_fits = valid.dict_fits;
            val_fits = valid.val_fits;
            dict_below = valid.dict_below;
            dict_id = valid.dict_id;
            val_below = λ i m a.
                ground (arith, look i, valid.val_below i m, valid.val_below (id % 2 ^ 32) n at);
            root = valid.root;
            children = λ i m nm cid a b.
                let (fits, there) = valid.children i m nm cid a b in
                (fits, ground (arith, node cid fits));
          };
          read = ground (arith, node id h);
          others = λ q g ne. ground (arith, node q g);
          names = λ q x name g. ground (arith, node q g);
          types = λ q g. ground (arith, node q g);
        },
      )
