-- ===== src/AsyncTasks/Graph.antt =====
-- AsyncGraphBuilder (AsyncTasks/AsyncTaskGraph.h, AsyncTaskGraph.cpp). A task pointer is a number.
pub mod Edits
pub mod Edges
use holder.Prelude.{
  ℕ, ◌||◌, List, [], ◌∷◌, ◌++◌, length, modify, get_elem?, set_emplace, set_erase, leb,
  if◌then◌else◌, none, some, Exit, returned, thrown, and_then, nat_eq,
}

pub record Vertex : Type 0 where
  pub p_task : ℕ
  pub v_from : List ℕ
  pub v_to : List ℕ

pub record AsyncGraphBuilder : Type 0 where
  pub vertices : List Vertex

-- A read past the end is undefined behaviour in the source; here it finds no edges.
abbrev pub froms : AsyncGraphBuilder → ℕ → List ℕ
froms b i = elim (get_elem? b.vertices i) [ none ↦ [] | some v ↦ v.v_from ]

abbrev pub tos : AsyncGraphBuilder → ℕ → List ℕ
tos b i = elim (get_elem? b.vertices i) [ none ↦ [] | some v ↦ v.v_to ]

abbrev pub size : AsyncGraphBuilder → ℕ
size b = length b.vertices

unfoldable pub add_task : AsyncGraphBuilder → ℕ → AsyncGraphBuilder × ℕ
add_task b p_task = (record b { vertices = b.vertices ++ vertex ∷ [] }, size b)
  where
    vertex : Vertex
    vertex = record { p_task = p_task; v_from = []; v_to = [] }

-- `vTo.erase(taskID)` of one vertex.
unfoldable pub erase_to : ℕ → Vertex → Vertex
erase_to i v = record v { v_to = set_erase i v.v_to }

-- The loop of ClearDependencies over the vertices that the task depends on.
unfoldable pub erase_back_edges : ℕ → List ℕ → List Vertex → List Vertex
unfolding erase_to
erase_back_edges i [] vs = vs
erase_back_edges i (d ∷ ds) vs = erase_back_edges i ds (modify vs d (erase_to i))

unfoldable pub clear_from : Vertex → Vertex
clear_from v = record v { v_from = [] }

unfoldable pub clear_dependencies : AsyncGraphBuilder → ℕ → Exit AsyncGraphBuilder
unfolding erase_back_edges clear_from
clear_dependencies b i =
    if leb (size b) i
    then thrown b
    else returned
        (record b { vertices = modify (erase_back_edges i (froms b i) b.vertices) i clear_from })

unfoldable pub emplace_from : ℕ → Vertex → Vertex
emplace_from i v = record v { v_from = set_emplace i v.v_from }

unfoldable pub emplace_to : ℕ → Vertex → Vertex
emplace_to i v = record v { v_to = set_emplace i v.v_to }

unfoldable pub add_dependency : AsyncGraphBuilder → ℕ → ℕ → Exit AsyncGraphBuilder
unfolding emplace_from emplace_to
add_dependency b from to =
    if leb (size b) from || leb (size b) to
    then thrown b
    else returned (record b {
      vertices = modify (modify b.vertices from (emplace_from to)) to (emplace_to from);
    })

-- The overload for a list of tasks: what was added before a throw stays.
unfoldable pub add_dependencies : AsyncGraphBuilder → ℕ → List ℕ → Exit AsyncGraphBuilder
unfolding add_dependency
add_dependencies b from [] = returned b
add_dependencies b from (to ∷ tos) =
    and_then (add_dependency b from to) (λ b'. add_dependencies b' from tos)
