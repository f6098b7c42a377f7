-- ===== src/Path.antt =====
-- Paths: PathFromString (Holder/PathFromString.h, PathFromString.cpp) and the traces over an
-- ObjectTree (Holder/PathLib.h). The callbacks of the source only read the tree.
pub mod Splitting
pub mod Walking
pub mod Finding
pub mod Adding
pub mod Existing
pub mod Tests
use holder.Prelude.{
  ℕ, suc, ◌≡◌, Bool, true, false, ◌||◌, ◌&&◌, List, [], ◌∷◌, Name, name_beq, nat_beq, ltb, length,
  if◌then◌else◌, dec_u64,
}
use holder.ObjectTree.{
  NodeType, dictionary, value, NodeResult, visitor_error, duplicate_name, ObjectTree, node_root,
  add_node, find_child,
}

pub record PathFromString : Type 0 where
  pub analyzed_path : List Name
  pub path_buffer : List ℕ
  pub sep : ℕ

-- A character at the front of the component that is being read.
abbrev cons_head : ℕ → List Name → List Name
cons_head c [] = (c ∷ []) ∷ []
cons_head c (s ∷ ss) = (c ∷ s) ∷ ss

-- The components that start at the pointers of the loop: each ends at the zero that replaces the
-- next separator, or at the end.
unfoldable pub components : ℕ → List ℕ → List Name
components sep [] = [] ∷ []
components sep (c ∷ cs) =
    let rest = components sep cs in if nat_beq c sep then [] ∷ rest else cons_head c rest

-- The buffer after the loop, with its terminating zero.
unfoldable pub stored : ℕ → List ℕ → List ℕ
stored sep [] = 0 ∷ []
stored sep (c ∷ cs) = (if nat_beq c sep then 0 else c) ∷ stored sep cs

unfoldable pub path_from_string : Name → ℕ → PathFromString
path_from_string path sep = record {
  analyzed_path = components sep path;
  path_buffer = stored sep path;
  sep = sep;
}

abbrev first_is : ℕ → List ℕ → Bool
first_is sep [] = false
first_is sep (c ∷ cs) = nat_beq c sep

unfoldable pub rooted : PathFromString → Bool
rooted p = first_is p.sep p.path_buffer

unfoldable pub size : PathFromString → ℕ
size p = length p.analyzed_path

-- std::mismatch from the start of the prefix: whether it comes to the prefix's end.
unfoldable pub matches_to_end : List Name → List Name → Bool
matches_to_end [] path = true
matches_to_end (s ∷ prefix) [] = false
matches_to_end (s ∷ prefix) (r ∷ path) = name_beq s r && matches_to_end prefix path

unfoldable pub path_starts_with : List Name → List Name → Bool
path_starts_with path prefix =
    if ltb (length path) (length prefix) then false else matches_to_end prefix path

pub data TraceAction : Type 0 where
  ok stop_trace find_child_action create_dictionary create_value : TraceAction

-- A visitor: its state, the tree, the index and number of components, the node, and whether the
-- node was created.
abbrev pub Visitor : Type 0 → Type 0 → Type 0 → Type 0
Visitor S Val Metadata = S → ObjectTree Val Metadata → ℕ → ℕ → ℕ → Bool → S × TraceAction

module _ {S Val Metadata : Type 0} (callback : Visitor S Val Metadata) (is_const : Bool)
    (path_size : ℕ) where
  -- The loop of TracePathGeneric from component `idx` on, and the visit of the last entry.
  unfoldable pub trace_from :
      List Name
      → ℕ
      → S
      → ObjectTree Val Metadata
      → ℕ
      → Bool
      → S × ObjectTree Val Metadata × NodeResult
  trace_from [] idx s t node was_created =
      let (s', action) = callback s t idx path_size node was_created in
      (s', t, elim action [ ok ↦ NodeResult.ok | _ ↦ visitor_error ])
  trace_from (name ∷ names) idx s t node was_created =
      let (s', action) = callback s t idx path_size node was_created in
      let create = λ (kind : NodeType).
        let (t', result, id) = add_node t node name kind node in
        let answer : S × ObjectTree Val Metadata × NodeResult = elim result [
          | NodeResult.ok ↦ trace_from names (suc idx) s' t' id true
          | duplicate_name ↦ trace_from names (suc idx) s' t' id false
          | other ↦ (s', t', other)
        ] in
        if is_const then (s', t, visitor_error) else answer in
      let (result, id) = find_child t node name node in
      let find : S × ObjectTree Val Metadata × NodeResult = elim result [
        | NodeResult.ok ↦ trace_from names (suc idx) s' t id false
        | other ↦ (s', t, other)
      ] in
      elim action [
        | stop_trace ↦ (s', t, visitor_error)
        | create_dictionary ↦ create dictionary
        | create_value ↦ create value
        | ok ↦ find
        | find_child_action ↦ find
      ]

-- TracePathGeneric; `start` counts only if it is not the root and the path is not rooted.
unfoldable pub trace_path :
    {S Val Metadata : Type 0}
    → Visitor S Val Metadata
    → Bool
    → PathFromString
    → ℕ
    → S
    → ObjectTree Val Metadata
    → S × ObjectTree Val Metadata × NodeResult
trace_path callback is_const path start s t =
    trace_from callback is_const (size path) path.analyzed_path 0 s t
      (if rooted path || nat_beq start node_root then node_root else start) false

pub record NodeAdder : Type 0 where
  pub node_id : ℕ
  pub create_dirs : Bool

unfoldable pub node_adder : {Val Metadata : Type 0} → Visitor NodeAdder Val Metadata
node_adder s t path_idx path_size node was_created =
    if ltb path_idx (dec_u64 path_size)
    then (s, if s.create_dirs then create_dictionary else find_child_action)
    else if nat_beq path_idx (dec_u64 path_size)
    then (s, create_value)
    else (record s { node_id = node }, if was_created then ok else stop_trace)

pub record NodeFinder : Type 0 where
  pub node_id : ℕ

unfoldable pub node_finder : {Val Metadata : Type 0} → Visitor NodeFinder Val Metadata
node_finder s t path_idx path_size node was_created =
    if ltb path_idx path_size then (s, find_child_action) else (record s { node_id = node }, ok)
