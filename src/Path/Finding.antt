-- ===== src/Path/Finding.antt =====
-- NodeFinder: TracePath finds the node that the names lead to.
use mathlib.Core.Logic.{inl, inr, ◌≢◌}
use holder.Prelude.{
  ℕ, suc, ◌+◌, ◌≡◌, ◌↔◌, Bool, false, List, [], ◌∷◌, Name, length, nat_beq, if◌then◌else◌, arith,
  ap, ◌||◌,
}
use mathlib.Core.Path.{subst}
use holder.ObjectTree.{node_root, NodeResult, ObjectTree, find_child}
use holder.Path.{
  path_from_string, components, size, trace_from, trace_path, NodeFinder, node_finder, Visitor,
}
use holder.Path.Splitting.{rooted-path_from_string}
use holder.Path.Walking.{
  Walks, find_child_any, find_child-cases, trace_found, trace_lost, finder_mid, finder_end,
}

module _ {Val Metadata : Type 0} (t : ObjectTree Val Metadata) (c : Bool) (n id : ℕ) where
  finder_iff :
      (names : List Name) (idx : ℕ) (s : NodeFinder) (p : ℕ) (w : Bool)
      → idx + length names ≡ n
      → (trace_from node_finder c n names idx s t p w ≡ (record { node_id = id }, t, NodeResult.ok))
        ↔ Walks t p names id
  finder_iff [] idx s p w h = rw (finder_end t n s idx p w c (omega arith)) (
    λ e. ap (λ (r : NodeFinder × ObjectTree Val Metadata × NodeResult). r.0.node_id) e,
    λ e. ap found e,
  )
    where
      found : ℕ → NodeFinder × ObjectTree Val Metadata × NodeResult
      found i = (record { node_id = i }, t, NodeResult.ok)
  finder_iff (name ∷ names) idx s p w h =
      let mid = finder_mid t n s idx p w (omega arith) in
      elim (find_child-cases t p p name) [
        | inl (q, e) ↦
            let rest = finder_iff names (suc idx) s q false (omega arith) in
            rw (trace_found node_finder c n name names idx s s t t p q w mid e) (
              λ f. (q, find_child_any t p p 0 name q e, rest.0 f),
              λ (q', e', f). rest.1 (
                  subst (λ i. Walks t i names id) (same q q' e (find_child_any t p 0 p name q' e'))
                    f),
            )
        | inr (r, k, e) ↦ rw (trace_lost node_finder c n name names idx s s t t p p w r mid e k) (
          λ f. absurd (k (ap (λ (r : NodeFinder × ObjectTree Val Metadata × NodeResult). r.2) f)),
          λ (q', e', f). absurd (k (ground (arith, find_child_any t p 0 p name q' e'))),
        )
      ]
    where
      same :
          (q q' : ℕ)
          → find_child t p name p ≡ (NodeResult.ok, q)
          → find_child t p name p ≡ (NodeResult.ok, q')
          → q' ≡ q
      same q q' e f = ground arith

-- The path of a string starts where it is told to.
pub trace_path-start :
    {S Val Metadata : Type 0} (callback : Visitor S Val Metadata) (c : Bool) (sep : ℕ) (path : Name)
    (start : ℕ) (s : S) (t : ObjectTree Val Metadata)
    → sep ≢ 0
    → let p = path_from_string path sep in
      trace_path callback c p start s t
      ≡ trace_from callback c (size p) p.analyzed_path 0 s t start false
unfolding trace_path
trace_path-start callback c sep path start s t h =
    let p = path_from_string path sep in
    rw (rooted-path_from_string sep path h, trace_path)
      (ap (λ i. trace_from callback c (size p) p.analyzed_path 0 s t i false) (same start))
  where
    same : (start : ℕ) → (if false || nat_beq start node_root then node_root else start) ≡ start
    same start = ground arith

-- For a separator that is not 0, TracePath with NodeFinder succeeds with a node exactly when the
-- components of the path lead there, each the name of a child, from the node where it starts.
pub trace_path-node_finder_iff :
    {Val Metadata : Type 0} (t : ObjectTree Val Metadata) (c : Bool) (sep : ℕ) (path : Name)
    (start id : ℕ) (s : NodeFinder)
    → sep ≢ 0
    → (trace_path node_finder c (path_from_string path sep) start s t
        ≡ (record { node_id = id }, t, NodeResult.ok))
      ↔ Walks t start (components sep path) id
unfolding path_from_string size
trace_path-node_finder_iff t c sep path start id s h =
    rw (trace_path-start node_finder c sep path start s t h) (
      finder_iff t c (size (path_from_string path sep)) id (components sep path) 0 s start false
        (omega arith))
