-- ===== src/ObjectTree/Valid.antt =====
-- Ids and tables that fit together.
use holder.Prelude.{
  ℕ, ◌+◌, ◌%◌, ◌^◌, ◌≡◌, refl, ◌≢◌, ◌≤◌, ◌<◌, Name, some, lookup, nat_eq, name_eq, arith, inl, inr,
  ◌⊎◌,
}
use holder.ObjectTree.{
  dictionary, value, analyze_id, synthesize_id, DictionaryNode, ValueNode, ObjectTree, NodePtr,
  null, dictionary_node, value_node, dictionary_ptr, value_ptr, get_node,
}

pub NodePtr-cases :
    {Val Metadata : Type 0} (r : NodePtr Val Metadata)
    → (r ≡ null)
      ⊎ (((n : DictionaryNode Metadata) × (r ≡ dictionary_node n))
          ⊎ ((n : ValueNode Val Metadata) × (r ≡ value_node n)))
NodePtr-cases null = inl refl
NodePtr-cases (dictionary_node n) = inr (inl (n, refl))
NodePtr-cases (value_node n) = inr (inr (n, refl))

-- The tag of an id survives: SynthesizeID and AnalyzeID are inverse below 2^32.
pub analyze_id-synthesize_id :
    (idx : ℕ)
    → idx < 2 ^ 32
    → (analyze_id (synthesize_id dictionary idx) ≡ (dictionary, idx))
      × (analyze_id (synthesize_id value idx) ≡ (value, idx))
unfolding analyze_id synthesize_id
analyze_id-synthesize_id idx h = (ground arith, ground arith)

pub analyze_id-value : (i : ℕ) → i < 2 ^ 32 → analyze_id (i + 2 ^ 32) ≡ (value, i)
unfolding analyze_id
analyze_id-value i h = ground arith

module _ {Val Metadata : Type 0} (t : ObjectTree Val Metadata) where
  pub get_node-dict :
      (id : ℕ) → id < 2 ^ 32 → get_node t id ≡ dictionary_ptr (lookup id t.dict_nodes)
  unfolding get_node analyze_id
  get_node-dict id h = ground arith

  pub get_node-val :
      (i : ℕ) → i < 2 ^ 32 → get_node t (i + 2 ^ 32) ≡ value_ptr (lookup i t.val_nodes)
  unfolding get_node
  get_node-val i h = rw (analyze_id-value i h, get_node) (rw (analyze_id-value i h))

  -- An id that names a dictionary is its index.
  pub get_node_dictionary :
      (id : ℕ) (n : DictionaryNode Metadata)
      → get_node t id ≡ dictionary_node n
      → (analyze_id id ≡ (dictionary, id)) × (lookup id t.dict_nodes ≡ some n)
  unfolding get_node analyze_id
  get_node_dictionary id n h = ground arith

  pub get_node_value :
      (id : ℕ) (n : ValueNode Val Metadata)
      → get_node t id ≡ value_node n
      → (analyze_id id ≡ (value, id % 2 ^ 32)) × (lookup (id % 2 ^ 32) t.val_nodes ≡ some n)
  unfolding get_node analyze_id
  get_node_value id n h = ground arith

  -- Indices are below the counters, nodes know their ids, the root is there, and children exist.
  pub record IsValid : Type 0 where
    pub dict_fits : t.next_dict ≤ 2 ^ 32
    pub val_fits : t.next_val ≤ 2 ^ 32
    pub dict_below :
        (i : ℕ) (n : DictionaryNode Metadata) → lookup i t.dict_nodes ≡ some n → i < t.next_dict
    pub dict_id :
        (i : ℕ) (n : DictionaryNode Metadata) → lookup i t.dict_nodes ≡ some n → n.my_id ≡ i
    pub val_below :
        (i : ℕ) (n : ValueNode Val Metadata) → lookup i t.val_nodes ≡ some n → i < t.next_val
    pub root : (n : DictionaryNode Metadata) × (lookup 0 t.dict_nodes ≡ some n)
    pub children :
        (i : ℕ) (n : DictionaryNode Metadata) (name : Name) (id : ℕ)
        → lookup i t.dict_nodes ≡ some n
        → lookup name n.child_nodes ≡ some id
        → (id < 2 ^ 33) × (get_node t id ≢ null)
