-- ===== src/Path/Tests.antt =====
-- Paths with '/' as the separator, and "a/b" in a tree.
use holder.Prelude.{ℕ, ◌+◌, ◌≡◌, refl, [], ◌∷◌, Name, count, false, true, arith, ◌↔◌, nat_eq}
use holder.Prelude.{◌^◌, inl}
use holder.ObjectTree.{NodeResult, visitor_error, ObjectTree}
use holder.ObjectTree.Tests.{fresh_tree, fresh_tree-IsValid, small, ready}
use holder.Path.Walking.{Walks}
use holder.Path.Adding.{IsOpen, AddsPath, trace_path-node_adder_new}
use holder.Path.Existing.{trace_path-node_adder_again, trace_path-add_find}
use holder.Path.Finding.{trace_path-node_finder_iff}
use holder.Path.{NodeAdder, NodeFinder, node_adder, node_finder, trace_path}
use holder.Path.{path_from_string, size, rooted, components}
use holder.Path.Splitting.{join, Free, path_from_string-splits, rooted-path_from_string}

abbrev slash_ab_c : Name
slash_ab_c = 47 ∷ 97 ∷ 98 ∷ 47 ∷ 99 ∷ []

path_from_string-splits_example :
    let p = path_from_string slash_ab_c 47 in
    (size p ≡ count 47 slash_ab_c + 1)
    × Free 47 p.analyzed_path
    × (join 47 p.analyzed_path ≡ slash_ab_c)
path_from_string-splits_example = path_from_string-splits 47 slash_ab_c

splits_in_three :
    (path_from_string slash_ab_c 47).analyzed_path ≡ [] ∷ (97 ∷ 98 ∷ []) ∷ (99 ∷ []) ∷ []
unfolding path_from_string components
splits_in_three = refl

rooted-path_from_string_example : rooted (path_from_string slash_ab_c 47) ≡ false
rooted-path_from_string_example = rooted-path_from_string 47 slash_ab_c (ground arith)

abbrev slash : ℕ
slash = 47

abbrev a_slash_b : Name
a_slash_b = 97 ∷ 47 ∷ 98 ∷ []

abbrev adder : NodeAdder
adder = record { node_id = 0; create_dirs = true }

abbrev finder : NodeFinder
finder = record { node_id = 0 }

names_of : components slash a_slash_b ≡ (97 ∷ []) ∷ (98 ∷ []) ∷ []
unfolding components
names_of = refl

missing : IsOpen fresh_tree 0 (components slash a_slash_b)
unfolding components ready
missing = inl refl

there : Walks small 0 (components slash a_slash_b) (2 ^ 32)
unfolding components ready
there = (1, refl, (2 ^ 32, refl, refl))

trace_path-node_finder_iff_example :
    (trace_path node_finder true (path_from_string a_slash_b slash) 0 finder small
      ≡ (record { node_id = 2 ^ 32 }, small, NodeResult.ok))
    ↔ Walks small 0 (components slash a_slash_b) (2 ^ 32)
trace_path-node_finder_iff_example =
    trace_path-node_finder_iff small true slash a_slash_b 0 (2 ^ 32) finder (ground arith)

trace_path-node_adder_new_example :
    (t' : ObjectTree ℕ ℕ) × (id : ℕ) × (trace_path node_adder false
        (path_from_string a_slash_b slash)
        0
        adder
        fresh_tree
      ≡ (record { node_id = id; create_dirs = true }, t', NodeResult.ok))
    × AddsPath fresh_tree t' 0 (components slash a_slash_b) id
unfolding ready
trace_path-node_adder_new_example =
    trace_path-node_adder_new fresh_tree slash a_slash_b 0 adder (ground arith) refl
      fresh_tree-IsValid (omega arith) (rw names_of (omega arith)) (omega arith) missing

trace_path-node_adder_again_example :
    trace_path node_adder false (path_from_string a_slash_b slash) 0 adder small
    ≡ (record { node_id = 2 ^ 32; create_dirs = true }, small, visitor_error)
trace_path-node_adder_again_example =
    trace_path-node_adder_again small slash a_slash_b 0 (2 ^ 32) adder (ground arith)
      (rw names_of (omega arith)) there

trace_path-add_find_example :
    let p = path_from_string a_slash_b slash in
    let (s', t', added) = trace_path node_adder false p 0 adder fresh_tree in
    (added ≡ NodeResult.ok)
    × (trace_path node_finder true p 0 finder t'
        ≡ (record { node_id = s'.node_id }, t', NodeResult.ok))
    × (trace_path node_adder false p 0 adder t' ≡ (s', t', visitor_error))
unfolding ready
trace_path-add_find_example =
    trace_path-add_find fresh_tree slash a_slash_b 0 adder finder (ground arith) refl
      fresh_tree-IsValid (omega arith) (rw names_of (omega arith)) (omega arith) missing
