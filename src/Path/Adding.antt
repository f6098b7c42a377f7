-- ===== src/Path/Adding.antt =====
-- NodeAdder: TracePath makes the missing directories and the value.
use mathlib.Core.Logic.{◌⊎◌, inl, inr, ◌≢◌}
use holder.Prelude.{
  ℕ, suc, ◌+◌, ◌<◌, ◌≤◌, ◌^◌, ◌≡◌, refl, Bool, true, false, List, [], ◌∷◌, Name, length,
  if◌then◌else◌, arith, ◌∙◌,
}
use holder.ObjectTree.{
  NodeType, dictionary, value, NodeResult, add_node, visitor_error, name_not_found, ObjectTree,
  null, get_node, find_child, get_node_type,
}
use holder.ObjectTree.Valid.{IsValid, get_node_dictionary}
use holder.ObjectTree.Growth.{HasRoom}
use holder.ObjectTree.Adding.{Adds, add_node-Adds, add_node-find_child, find_child_ok}
use holder.ObjectTree.Extends.{Extends, null-Extends, Extends-trans, Adds-Extends}
use holder.Path.{
  path_from_string, components, size, create_dictionary, create_value, trace_from, trace_path,
  NodeAdder, node_adder,
}
use holder.Path.Finding.{trace_path-start}
use holder.Path.Walking.{Walks, trace_create_dictionary, trace_create_value, trace_dictionary_there}

module _ {Val Metadata : Type 0} where
  -- The names lead through dictionaries to one in which the next name is missing.
  abbrev pub IsOpen : ObjectTree Val Metadata → ℕ → List Name → Type 0
  IsOpen t p [] = ⊥
  IsOpen t p (name ∷ names) =
      (find_child t p name 0 ≡ (name_not_found, 0))
      ⊎ ((q : ℕ) × (find_child t p name 0 ≡ (NodeResult.ok, q)) × IsOpen t q names)

  -- `t'` is `t` with the value `id` at the end of the names, and with the directories before it.
  pub record AddsPath (t t' : ObjectTree Val Metadata) (p : ℕ) (names : List Name) (id : ℕ)
      : Type 0 where
    pub valid : IsValid t'
    pub extends : Extends t t'
    pub walks : Walks t' p names id
    pub fits : id < 2 ^ 33
    pub fresh : get_node t id ≡ null
    pub made : get_node_type t' id ≡ value

module _ {Val Metadata : Type 0} (s : NodeAdder) (t : ObjectTree Val Metadata) (n : ℕ) where
  pub adder_mid :
      (idx p : ℕ) (w : Bool)
      → s.create_dirs ≡ true
      → idx + 1 < n
      → n < 2 ^ 64
      → node_adder s t idx n p w ≡ (s, create_dictionary)
  unfolding node_adder
  adder_mid idx p w d h g = ground arith

  pub adder_last :
      (idx p : ℕ) (w : Bool)
      → idx + 1 ≡ n
      → n < 2 ^ 64
      → node_adder s t idx n p w ≡ (s, create_value)
  unfolding node_adder
  adder_last idx p w h g = ground arith

  pub adder_end :
      (idx p : ℕ) (w : Bool)
      → idx ≡ n
      → 0 < n
      → n < 2 ^ 64
      → trace_from node_adder false n [] idx s t p w
        ≡ (record s { node_id = p }, t, if w then NodeResult.ok else visitor_error)
  unfolding node_adder trace_from
  adder_end idx p w h g k = ground arith

child_fits :
    {Val Metadata : Type 0} (t : ObjectTree Val Metadata) (p x : ℕ) (name : Name) (q : ℕ)
    → IsValid t
    → find_child t p name x ≡ (NodeResult.ok, q)
    → q < 2 ^ 33
child_fits t p x name q v h =
    let (n, at, e) = find_child_ok t p x name q h in
    (v.children p n name q (get_node_dictionary t p n at).1 e).0

module _ {Val Metadata : Type 0} (s : NodeAdder) (n : ℕ) (dirs : s.create_dirs ≡ true)
    (short : n < 2 ^ 64) where
  -- How the trace that adds a path ends.
  AddsFrom :
      ObjectTree Val Metadata
      → ℕ
      → List Name
      → NodeAdder × ObjectTree Val Metadata × NodeResult
      → Type 0
  AddsFrom t p names r =
      (t' : ObjectTree Val Metadata) × (id : ℕ) × (r
        ≡ (record s { node_id = id }, t', NodeResult.ok))
      × AddsPath t t' p names id

  -- After one more child is made, and the rest of the names are added below it.
  add_below :
      (t t1 t' : ObjectTree Val Metadata) (p q id : ℕ) (name : Name) (names : List Name)
      (kind : NodeType)
      → p < 2 ^ 33
      → find_child t p name 0 ≡ (name_not_found, 0)
      → Adds t t1 p name kind q
      → AddsPath t1 t' q names id
      → AddsPath t t' p (name ∷ names) id
  add_below t t1 t' p q id name names kind h gone a b = record {
    valid = b.valid;
    extends = Extends-trans (Adds-Extends p 0 0 gone a) b.extends;
    walks = (q, b.extends.names p 0 name q h (a.found 0), b.walks);
    fits = b.fits;
    fresh = null-Extends id (Adds-Extends p 0 0 gone a) b.fits b.fresh;
    made = b.made;
  }

  adder_new :
      (names : List Name) (idx p : ℕ) (t : ObjectTree Val Metadata) (w : Bool)
      → IsValid t
      → p < 2 ^ 33
      → idx + length names ≡ n
      → t.next_dict + length names ≤ 2 ^ 32
      → t.next_val < 2 ^ 32
      → IsOpen t p names
      → AddsFrom t p names (trace_from node_adder false n names idx s t p w)
  unfolding AddsFrom
  adder_new [] idx p t w v h e r rv o = absurd o
  adder_new (name ∷ []) idx p t w v h e r rv (inr (q, f, o)) = absurd o
  adder_new (name ∷ []) idx p t w v h e r rv (inl gone) =
      let room : HasRoom t = record { dict_room = omega arith; val_room = rv } in
      let (t1, result, id) = add_node t p name value p in
      let (well, a) = add_node-Adds t p 0 0 p name value v room (ground arith) gone in
      let step =
        trace_create_value node_adder false n name [] idx s s t t1 p id w
          (adder_last s t n idx p w (omega arith) short) (ground arith) in
      (
        t1,
        id,
        step ∙ adder_end s t1 n (suc idx) id true (omega arith) (omega arith) short,
        record {
          valid = a.valid;
          extends = Adds-Extends p 0 0 gone a;
          walks = (id, a.found 0, refl);
          fits = a.fits;
          fresh = a.fresh;
          made = a.made;
        },
      )
  adder_new (name ∷ m ∷ names) idx p t w v h e r rv (inr (q, f, o)) =
      let there =
        trace_dictionary_there node_adder false n name (m ∷ names) idx s s t t p q w
          (adder_mid s t n idx p w dirs (omega arith) short)
          (add_node-find_child t p 0 p name dictionary q f) in
      let (t', id, ends, b) =
        adder_new (m ∷ names) (suc idx) q t false v (child_fits t p 0 name q v f) (omega arith)
          (omega arith) rv o in
      (
        t',
        id,
        there ∙ ends,
        record {
          valid = b.valid;
          extends = b.extends;
          walks = (q, b.extends.names p 0 name q h f, b.walks);
          fits = b.fits;
          fresh = b.fresh;
          made = b.made;
        },
      )
  adder_new (name ∷ m ∷ names) idx p t w v h e r rv (inl gone) =
      let room : HasRoom t = record { dict_room = omega arith; val_room = rv } in
      let (t1, result, q) = add_node t p name dictionary p in
      let (well, a) = add_node-Adds t p 0 0 p name dictionary v room (ground arith) gone in
      let step =
        trace_create_dictionary node_adder false n name (m ∷ names) idx s s t t1 p q w
          (adder_mid s t n idx p w dirs (omega arith) short) (ground arith) in
      let (t', id, ends, b) =
        adder_new (m ∷ names) (suc idx) q t1 true a.valid a.fits (omega arith)
          (omega (arith, a.grown)) (omega (arith, a.same_values refl, rv))
          (inl (a.empty refl m 0)) in
      (t', id, step ∙ ends, add_below t t1 t' p q id name (m ∷ names) dictionary h gone a b)

-- On a valid tree with room for the nodes of a path of which a component is missing below a
-- dictionary, and for a separator that is not 0: TracePath with a NodeAdder that creates
-- directories succeeds, and tells the id of a new value at the end of the path; what was in the
-- tree stays.
pub trace_path-node_adder_new :
    {Val Metadata : Type 0} (t : ObjectTree Val Metadata) (sep : ℕ) (path : Name) (start : ℕ)
    (s : NodeAdder)
    → sep ≢ 0
    → s.create_dirs ≡ true
    → IsValid t
    → start < 2 ^ 33
    → t.next_dict + length (components sep path) ≤ 2 ^ 32
    → t.next_val < 2 ^ 32
    → IsOpen t start (components sep path)
    → (t' : ObjectTree Val Metadata) × (id : ℕ) × (trace_path node_adder false
          (path_from_string path sep)
          start
          s
          t
        ≡ (record s { node_id = id }, t', NodeResult.ok))
      × AddsPath t t' start (components sep path) id
unfolding path_from_string size AddsFrom
trace_path-node_adder_new t sep path start s nz dirs v h r rv o =
    let names = components sep path in
    let (t', id, ends, a) =
      adder_new s (length names) dirs (omega arith) names 0 start t false v h (omega arith) r rv
        o in
    (t', id, trace_path-start node_adder false sep path start s t nz ∙ ends, a)
