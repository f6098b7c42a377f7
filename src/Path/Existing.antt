-- ===== src/Path/Existing.antt =====
-- NodeAdder on a path that is there, and NodeFinder after NodeAdder.
use mathlib.Core.Logic.{inl, inr, ◌≢◌}
use holder.Prelude.{
  ℕ, suc, ◌+◌, ◌<◌, ◌≤◌, ◌^◌, ◌≡◌, refl, Bool, true, false, List, [], ◌∷◌, Name, length, arith, ◌∙◌,
  ap, Bool-cases,
}
use holder.ObjectTree.{dictionary, value, NodeResult, visitor_error, ObjectTree}
use holder.ObjectTree.Valid.{IsValid}
use holder.ObjectTree.Adding.{add_node-find_child}
use holder.Path.{
  path_from_string, components, size, find_child_action, trace_from, trace_path, NodeAdder,
  node_adder, NodeFinder, node_finder,
}
use holder.Path.Adding.{adder_mid, adder_last, adder_end, IsOpen, trace_path-node_adder_new}
use holder.Path.Finding.{trace_path-start, trace_path-node_finder_iff}
use holder.Path.Splitting.{length-components}
use holder.Path.Walking.{
  Walks, find_child_any, trace_found, trace_dictionary_there, trace_value_there,
}

module _ {Val Metadata : Type 0} (s : NodeAdder) (t : ObjectTree Val Metadata) (n id : ℕ)
    (short : n < 2 ^ 64) where
  adder_find :
      (idx p : ℕ) (w : Bool)
      → s.create_dirs ≡ false
      → idx + 1 < n
      → node_adder s t idx n p w ≡ (s, find_child_action)
  unfolding node_adder
  adder_find idx p w d h = ground arith

  adder_again :
      (names : List Name) (idx p : ℕ) (w : Bool)
      → idx + length names ≡ n
      → 0 < length names
      → Walks t p names id
      → trace_from node_adder false n names idx s t p w
        ≡ (record s { node_id = id }, t, visitor_error)
  adder_again [] idx p w e h walks = absurd (omega arith)
  adder_again (name ∷ []) idx p w e h (q, f, there) =
      trace_value_there node_adder false n name [] idx s s t t p q w
        (adder_last s t n idx p w (omega arith) short) (add_node-find_child t p 0 p name value q f)
      ∙ adder_end s t n (suc idx) q false (omega arith) (omega arith) short
      ∙ ap last there
    where
      last : ℕ → NodeAdder × ObjectTree Val Metadata × NodeResult
      last i = (record s { node_id = i }, t, visitor_error)
  adder_again (name ∷ m ∷ names) idx p w e h (q, f, walks) =
      let rest = adder_again (m ∷ names) (suc idx) q false (omega arith) (omega arith) walks in
      elim (Bool-cases s.create_dirs) [
        | inl d ↦
            trace_dictionary_there node_adder false n name (m ∷ names) idx s s t t p q w
              (adder_mid s t n idx p w d (omega arith) short)
              (add_node-find_child t p 0 p name dictionary q f)
            ∙ rest
        | inr d ↦
            trace_found node_adder false n name (m ∷ names) idx s s t t p q w
              (adder_find idx p w d (omega arith)) (find_child_any t p 0 p name q f)
            ∙ rest
      ]

-- A path of fewer than 2^64 components that is there, for a separator that is not 0: TracePath
-- with a NodeAdder changes nothing and fails with VisitorError, but tells the id of the node at
-- the end of the path.
pub trace_path-node_adder_again :
    {Val Metadata : Type 0} (t : ObjectTree Val Metadata) (sep : ℕ) (path : Name) (start id : ℕ)
    (s : NodeAdder)
    → sep ≢ 0
    → length (components sep path) < 2 ^ 64
    → Walks t start (components sep path) id
    → trace_path node_adder false (path_from_string path sep) start s t
      ≡ (record s { node_id = id }, t, visitor_error)
unfolding path_from_string size
trace_path-node_adder_again t sep path start id s nz short walks =
    let names = components sep path in
    trace_path-start node_adder false sep path start s t nz
    ∙ adder_again s t (length names) id short names 0 start false (omega arith)
        (omega (arith, length-components sep path)) walks

-- On a valid tree with room for the nodes of a path of which a component is missing below a
-- dictionary, and for a separator that is not 0: the id that a NodeAdder that creates directories
-- tells is the one that a NodeFinder finds by the same path, and adding the path again fails and
-- tells the same id.
pub trace_path-add_find :
    {Val Metadata : Type 0} (t : ObjectTree Val Metadata) (sep : ℕ) (path : Name) (start : ℕ)
    (s : NodeAdder) (f : NodeFinder)
    → sep ≢ 0
    → s.create_dirs ≡ true
    → IsValid t
    → start < 2 ^ 33
    → t.next_dict + length (components sep path) ≤ 2 ^ 32
    → t.next_val < 2 ^ 32
    → IsOpen t start (components sep path)
    → let p = path_from_string path sep in
      let (s', t', added) = trace_path node_adder false p start s t in
      (added ≡ NodeResult.ok)
      × (trace_path node_finder true p start f t'
          ≡ (record { node_id = s'.node_id }, t', NodeResult.ok))
      × (trace_path node_adder false p start s t' ≡ (s', t', visitor_error))
trace_path-add_find t sep path start s f nz dirs v h r rv o =
    let (t', id, ends, a) = trace_path-node_adder_new t sep path start s nz dirs v h r rv o in
    rw ends (
      refl,
      (trace_path-node_finder_iff t' true sep path start id f nz).1 a.walks,
      trace_path-node_adder_again t' sep path start id s nz (omega arith) a.walks,
    )
