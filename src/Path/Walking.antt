-- ===== src/Path/Walking.antt =====
-- The names of a path, followed through the tree by NodeFinder.
use holder.Prelude.{ℕ, suc, ◌<◌, ◌≡◌, refl, Bool, true, false, List, [], ◌∷◌, Name, arith}
use mathlib.Core.Logic.{◌⊎◌, inl, inr, ◌≢◌}
use holder.Prelude.{Option-cases, lookup, name_eq}
use holder.ObjectTree.{
  get_node, find_in, dictionary, value, NodeResult, duplicate_name, ObjectTree, add_node,
  find_child, invalid_node_id, need_dictionary, name_not_found,
}
use holder.ObjectTree.Valid.{NodePtr-cases}
use holder.ObjectTree.Adding.{find_child_ok}
use holder.Path.{
  find_child_action, create_dictionary, create_value, Visitor, trace_from, NodeFinder, node_finder,
}

module _ {Val Metadata : Type 0} where
  -- The names lead from `p` to `id`, one child after the other.
  abbrev pub Walks : ObjectTree Val Metadata → ℕ → List Name → ℕ → Type 0
  Walks t p [] id = p ≡ id
  Walks t p (name ∷ names) id =
      (q : ℕ) × (find_child t p name 0 ≡ (NodeResult.ok, q)) × Walks t q names id

  pub find_child_any :
      (t : ObjectTree Val Metadata) (p x y : ℕ) (name : Name) (id : ℕ)
      → find_child t p name x ≡ (NodeResult.ok, id)
      → find_child t p name y ≡ (NodeResult.ok, id)
  find_child_any t p x y name id h =
      let (n, at, e) = find_child_ok t p x name id h in
      unfold find_child find_in in rw (at, find_child) (rw e refl)

  -- FindChild answers with a node, or with an error and what it was given.
  pub find_child-cases :
      (t : ObjectTree Val Metadata) (p x : ℕ) (name : Name)
      → ((q : ℕ) × (find_child t p name x ≡ (NodeResult.ok, q)))
        ⊎ ((e : NodeResult) × (e ≢ NodeResult.ok) × (find_child t p name x ≡ (e, x)))
  unfolding find_child find_in
  find_child-cases t p x name = elim (NodePtr-cases (get_node t p)) [
    | inl e ↦ inr (invalid_node_id, ground arith, ground arith)
    | inr (inr (n, e)) ↦ inr (need_dictionary, ground arith, ground arith)
    | inr (inl (n, e)) ↦ elim (Option-cases (lookup name n.child_nodes)) [
      | inl f ↦ inr (name_not_found, ground arith, ground arith)
      | inr (q, f) ↦ inl (q, ground arith)
    ]
  ]

-- One round of the loop of TracePathGeneric.
module _ {S Val Metadata : Type 0} (callback : Visitor S Val Metadata) (c : Bool) (n : ℕ)
    (name : Name) (names : List Name) (idx : ℕ) (s s' : S) (t t' : ObjectTree Val Metadata)
    (p id : ℕ) (w : Bool) where
  pub trace_found :
      callback s t idx n p w ≡ (s', find_child_action)
      → find_child t p name p ≡ (NodeResult.ok, id)
      → trace_from callback c n (name ∷ names) idx s t p w
        ≡ trace_from callback c n names (suc idx) s' t id false
  unfolding trace_from
  trace_found h e = ground arith

  pub trace_lost :
      (r : NodeResult)
      → callback s t idx n p w ≡ (s', find_child_action)
      → find_child t p name p ≡ (r, p)
      → r ≢ NodeResult.ok
      → trace_from callback c n (name ∷ names) idx s t p w ≡ (s', t, r)
  unfolding trace_from
  trace_lost r h e k = ground arith

  pub trace_create_dictionary :
      callback s t idx n p w ≡ (s', create_dictionary)
      → add_node t p name dictionary p ≡ (t', NodeResult.ok, id)
      → trace_from callback false n (name ∷ names) idx s t p w
        ≡ trace_from callback false n names (suc idx) s' t' id true
  unfolding trace_from
  trace_create_dictionary h e = ground arith

  pub trace_create_value :
      callback s t idx n p w ≡ (s', create_value)
      → add_node t p name value p ≡ (t', NodeResult.ok, id)
      → trace_from callback false n (name ∷ names) idx s t p w
        ≡ trace_from callback false n names (suc idx) s' t' id true
  unfolding trace_from
  trace_create_value h e = ground arith

  pub trace_dictionary_there :
      callback s t idx n p w ≡ (s', create_dictionary)
      → add_node t p name dictionary p ≡ (t', duplicate_name, id)
      → trace_from callback false n (name ∷ names) idx s t p w
        ≡ trace_from callback false n names (suc idx) s' t' id false
  unfolding trace_from
  trace_dictionary_there h e = ground arith

  pub trace_value_there :
      callback s t idx n p w ≡ (s', create_value)
      → add_node t p name value p ≡ (t', duplicate_name, id)
      → trace_from callback false n (name ∷ names) idx s t p w
        ≡ trace_from callback false n names (suc idx) s' t' id false
  unfolding trace_from
  trace_value_there h e = ground arith

module _ {Val Metadata : Type 0} (t : ObjectTree Val Metadata) (n : ℕ) where
  pub finder_mid :
      (s : NodeFinder) (idx p : ℕ) (w : Bool)
      → idx < n
      → node_finder s t idx n p w ≡ (s, find_child_action)
  unfolding node_finder
  finder_mid s idx p w h = ground arith

  pub finder_end :
      (s : NodeFinder) (idx p : ℕ) (w : Bool) (c : Bool)
      → idx ≡ n
      → trace_from node_finder c n [] idx s t p w ≡ (record s { node_id = p }, t, NodeResult.ok)
  unfolding node_finder trace_from
  finder_end s idx p w c h = ground arith
