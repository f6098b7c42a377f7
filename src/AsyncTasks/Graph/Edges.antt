-- ===== src/AsyncTasks/Graph/Edges.antt =====
-- The builder's two edge sets mirror one another and stay within the vertices.
use holder.Prelude.{
  ℕ, ◌≡◌, ◌≢◌, ◌↔◌, ◌⊎◌, inl, inr, ◌<◌, ◌≤◌, List, [], ◌∷◌, modify, contains, count, contains-count,
  if◌then◌else◌, nat_beq, arith, get_elem?-snoc, get_elem?_out, after, after-and_then,
  length-modify, length-append, count-set_emplace, thrown, nat_eq, set_emplace,
}
use native.Mathlib.Decide.{dec_lt}
use holder.AsyncTasks.Graph.{
  AsyncGraphBuilder, froms, tos, size, add_task, erase_back_edges, clear_from, clear_dependencies,
  emplace_from, emplace_to, add_dependency, add_dependencies,
}
use holder.AsyncTasks.Graph.Edits.{
  froms-clear_from, tos-clear_from, froms-emplace_to, tos-emplace_from, froms-emplace_from,
  tos-emplace_to, froms-erase_back_edges, tos-erase_back_edges, length-erase_back_edges,
}

-- `i` waits for `j` in the one set as often as in the other, at most once, and both are vertices.
pub record IsMirrored (b : AsyncGraphBuilder) : Type 0 where
  pub mirror : (i j : ℕ) → count j (froms b i) ≡ count i (tos b j)
  pub distinct : (i j : ℕ) → count j (froms b i) ≤ 1
  pub within : (i j : ℕ) → 0 < count j (froms b i) → j < size b

froms-out : (b : AsyncGraphBuilder) (i : ℕ) → size b ≤ i → froms b i ≡ []
froms-out b i h = ground (arith, get_elem?_out b.vertices i)

froms-add_task : (b : AsyncGraphBuilder) (p i : ℕ) → froms (add_task b p).0 i ≡ froms b i
unfolding add_task
froms-add_task b p i = ground (
  arith,
  get_elem?-snoc b.vertices (record { p_task = p; v_from = []; v_to = [] }) i,
  froms-out b i,
)

tos-out : (b : AsyncGraphBuilder) (i : ℕ) → size b ≤ i → tos b i ≡ []
tos-out b i h = ground (arith, get_elem?_out b.vertices i)

tos-add_task : (b : AsyncGraphBuilder) (p i : ℕ) → tos (add_task b p).0 i ≡ tos b i
unfolding add_task
tos-add_task b p i = ground (
  arith,
  get_elem?-snoc b.vertices (record { p_task = p; v_from = []; v_to = [] }) i,
  tos-out b i,
)

-- A new task has no edges, and those of the others stay.
pub add_task-IsMirrored :
    (b : AsyncGraphBuilder) (p : ℕ) → IsMirrored b → IsMirrored (add_task b p).0
add_task-IsMirrored b p v = record {
  mirror = λ i j. rw (froms-add_task, tos-add_task) (v.mirror i j);
  distinct = λ i j. rw froms-add_task (v.distinct i j);
  within = λ i j h. grow i j (rw froms-add_task at h);
}
  where
    grow : (i j : ℕ) → 0 < count j (froms b i) → j < size (add_task b p).0
    grow i j h =
        unfold add_task in
        omega (
          arith,
          v.within i j h,
          length-append b.vertices (record { p_task = p; v_from = []; v_to = [] } ∷ []),
        )

module _ (b : AsyncGraphBuilder) (k i : ℕ) where
  froms-clear_dependencies :
      froms (after (clear_dependencies b k)) i ≡ (if nat_beq k i then [] else froms b i)
  unfolding clear_dependencies
  froms-clear_dependencies =
      let vs = erase_back_edges k (froms b k) b.vertices in
      ground (
        arith,
        froms-clear_from vs k k i,
        froms-erase_back_edges k i (froms b k) b.vertices,
        froms-out b i,
      )

  tos-clear_dependencies :
      (j : ℕ)
      → count j (tos (after (clear_dependencies b k)) i) ≡ (
          if contains i (froms b k)
          then (if nat_beq k j then 0 else count j (tos b i))
          else count j (tos b i))
  unfolding clear_dependencies contains
  tos-clear_dependencies j =
      let vs = erase_back_edges k (froms b k) b.vertices in
      ground (
        arith,
        tos-clear_from vs k k i,
        tos-erase_back_edges k i j (froms b k) b.vertices,
        froms-out b k,
      )

size-clear_dependencies :
    (b : AsyncGraphBuilder) (k : ℕ) → size (after (clear_dependencies b k)) ≡ size b
unfolding clear_dependencies
size-clear_dependencies b k =
    let vs = erase_back_edges k (froms b k) b.vertices in
    ground
      (arith, length-modify vs k clear_from, length-erase_back_edges k 0 (froms b k) b.vertices)

clear_dependencies-keeps :
    (b : AsyncGraphBuilder) (k : ℕ) → IsMirrored b → IsMirrored (after (clear_dependencies b k))
unfolding contains count
clear_dependencies-keeps b k v = record {
  mirror = λ i j.
      rw (froms-clear_dependencies b k i, tos-clear_dependencies b k j i)
        (ground (arith, v.mirror i j, v.mirror k j, contains-count j (froms b k)));
  distinct = λ i j. rw (froms-clear_dependencies b k i) (ground (arith, v.distinct i j));
  within = λ i j h.
      rw (size-clear_dependencies b k)
        (ground (arith, froms-clear_dependencies b k i, v.within i j));
}

-- ClearDependencies of `k` on edge sets that mirror one another leaves sets that mirror one another.
-- After it `k` waits for no task and no task lists `k`, each other task waits for what it waited for,
-- each task lists the others as before, and no task is added or lost. It throws exactly when `k` is
-- out of range.
pub clear_dependencies-IsMirrored :
    (b : AsyncGraphBuilder) (k : ℕ)
    → IsMirrored b
    → let b' = after (clear_dependencies b k) in
      IsMirrored b'
      × (froms b' k ≡ [])
      × ((i : ℕ) → count k (tos b' i) ≡ 0)
      × ((i : ℕ) → i ≢ k → froms b' i ≡ froms b i)
      × ((i j : ℕ) → j ≢ k → count j (tos b' i) ≡ count j (tos b i))
      × (size b' ≡ size b)
      × ((clear_dependencies b k ≡ thrown b) ↔ (size b ≤ k))
unfolding contains count
clear_dependencies-IsMirrored b k v = (
  clear_dependencies-keeps b k v,
  rw (froms-clear_dependencies b k k) (ground arith),
  λ i.
      rw (tos-clear_dependencies b k i k)
        (ground (arith, v.mirror k i, contains-count i (froms b k))),
  λ i h. rw (froms-clear_dependencies b k i) (ground arith),
  λ i j h. rw (tos-clear_dependencies b k i j) (ground arith),
  size-clear_dependencies b k,
  unfold clear_dependencies in (λ e. ground arith, λ h. ground arith),
)

module _ (b : AsyncGraphBuilder) (k l : ℕ) where
  froms-add_dependency :
      (i : ℕ)
      → k < size b
      → l < size b
      → froms (after (add_dependency b k l)) i
        ≡ (if nat_beq k i then set_emplace l (froms b i) else froms b i)
  unfolding add_dependency
  froms-add_dependency i h g = ground (
    arith,
    froms-emplace_to (modify b.vertices k (emplace_from l)) l k i,
    froms-emplace_from b.vertices k l i,
  )

  tos-add_dependency :
      (i : ℕ)
      → k < size b
      → l < size b
      → tos (after (add_dependency b k l)) i
        ≡ (if nat_beq l i then set_emplace k (tos b i) else tos b i)
  unfolding add_dependency
  tos-add_dependency i h g = ground (
    arith,
    tos-emplace_to (modify b.vertices k (emplace_from l)) l k i,
    tos-emplace_from b.vertices k l i,
    length-modify b.vertices k (emplace_from l),
  )

  size-add_dependency : size (after (add_dependency b k l)) ≡ size b
  unfolding add_dependency
  size-add_dependency = ground (
    arith,
    length-modify (modify b.vertices k (emplace_from l)) l (emplace_to k),
    length-modify b.vertices k (emplace_from l),
  )

  -- A task out of range throws and leaves the builder as it was.
  add_dependency_throws : (size b ≤ k) ⊎ (size b ≤ l) → add_dependency b k l ≡ thrown b
  unfolding add_dependency
  add_dependency_throws h = ground arith

  -- AddDependency, of tasks in range or not, keeps the mirror.
  pub add_dependency-IsMirrored : IsMirrored b → IsMirrored (after (add_dependency b k l))
  add_dependency-IsMirrored v = elim (dec_lt k (size b)) [
    | no out ↦ rw (add_dependency_throws (inl (omega arith))) v
    | yes h ↦ elim (dec_lt l (size b)) [
      | no out ↦ rw (add_dependency_throws (inr (omega arith))) v
      | yes g ↦ record {
        mirror = λ i j.
            rw (froms-add_dependency i h g, tos-add_dependency j h g)
              (ground (
                arith,
                v.mirror i j,
                v.mirror k l,
                v.distinct k l,
                count-set_emplace l j (froms b k),
                count-set_emplace k i (tos b l),
              ));
        distinct = λ i j.
            rw (froms-add_dependency i h g)
              (ground (arith, v.distinct i j, v.distinct k l, count-set_emplace l j (froms b k)));
        within = λ i j c. rw size-add_dependency (
            ground (
              arith,
              froms-add_dependency i h g,
              v.within i j,
              v.distinct k l,
              count-set_emplace l j (froms b k),
            ));
      }
    ]
  ]

-- AddDependency of a list of tasks keeps the mirror, also where it throws on the way.
pub add_dependencies-IsMirrored :
    (b : AsyncGraphBuilder) (k : ℕ) (ls : List ℕ)
    → IsMirrored b
    → IsMirrored (after (add_dependencies b k ls))
unfolding add_dependencies
add_dependencies-IsMirrored b k [] v = v
add_dependencies-IsMirrored b k (l ∷ ls) v =
    after-and_then IsMirrored (add_dependency b k l) (λ b'. add_dependencies b' k ls)
      (add_dependency-IsMirrored b k l v) (λ b' w. add_dependencies-IsMirrored b' k ls w)
