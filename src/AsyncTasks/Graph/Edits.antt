-- ===== src/AsyncTasks/Graph/Edits.antt =====
-- What the edits of one vertex, and the loop of ClearDependencies, do to the edges of the builder.
use holder.Prelude.{
  ℕ, ◌≡◌, refl, ◌<◌, List, [], ◌∷◌, length, modify, contains, count, if◌then◌else◌, nat_beq, arith,
  get_elem?-modify, get_elem?_total, length-modify, count-set_erase, nat_eq, set_emplace, set_erase,
}
use holder.AsyncTasks.Graph.{
  Vertex, froms, tos, erase_to, erase_back_edges, clear_from, emplace_from, emplace_to,
}

abbrev pub tos_in : List Vertex → ℕ → List ℕ
tos_in vs i = tos (record { vertices = vs }) i

abbrev pub froms_in : List Vertex → ℕ → List ℕ
froms_in vs i = froms (record { vertices = vs }) i

module _ (vs : List Vertex) (k a i : ℕ) where
  pub froms-erase_to : froms_in (modify vs k (erase_to a)) i ≡ froms_in vs i
  unfolding erase_to
  froms-erase_to = ground (arith, get_elem?-modify vs k i (erase_to a))

  pub tos-erase_to :
      tos_in (modify vs k (erase_to a)) i
      ≡ (if nat_beq k i then set_erase a (tos_in vs i) else tos_in vs i)
  unfolding erase_to set_erase
  tos-erase_to = ground (arith, get_elem?-modify vs k i (erase_to a))

  pub froms-clear_from :
      froms_in (modify vs k clear_from) i ≡ (if nat_beq k i then [] else froms_in vs i)
  unfolding clear_from
  froms-clear_from = ground (arith, get_elem?-modify vs k i clear_from)

  pub tos-clear_from : tos_in (modify vs k clear_from) i ≡ tos_in vs i
  unfolding clear_from
  tos-clear_from = ground (arith, get_elem?-modify vs k i clear_from)

  pub froms-emplace_to : froms_in (modify vs k (emplace_to a)) i ≡ froms_in vs i
  unfolding emplace_to
  froms-emplace_to = ground (arith, get_elem?-modify vs k i (emplace_to a))

  pub tos-emplace_from : tos_in (modify vs k (emplace_from a)) i ≡ tos_in vs i
  unfolding emplace_from
  tos-emplace_from = ground (arith, get_elem?-modify vs k i (emplace_from a))

  pub froms-emplace_from :
      k < length vs
      → froms_in (modify vs k (emplace_from a)) i
        ≡ (if nat_beq k i then set_emplace a (froms_in vs i) else froms_in vs i)
  unfolding emplace_from
  froms-emplace_from h =
      ground (arith, get_elem?-modify vs k i (emplace_from a), get_elem?_total vs k h)

  pub tos-emplace_to :
      k < length vs
      → tos_in (modify vs k (emplace_to a)) i
        ≡ (if nat_beq k i then set_emplace a (tos_in vs i) else tos_in vs i)
  unfolding emplace_to
  tos-emplace_to h = ground (arith, get_elem?-modify vs k i (emplace_to a), get_elem?_total vs k h)

-- The loop of ClearDependencies takes `a` out of the `v_to` of every vertex that it visits.
module _ (a i : ℕ) where
  pub froms-erase_back_edges :
      (ds : List ℕ) (vs : List Vertex) → froms_in (erase_back_edges a ds vs) i ≡ froms_in vs i
  unfolding erase_back_edges
  froms-erase_back_edges [] vs = refl
  froms-erase_back_edges (d ∷ ds) vs =
      ground (arith, froms-erase_back_edges ds (modify vs d (erase_to a)), froms-erase_to vs d a i)

  pub tos-erase_back_edges :
      (j : ℕ) (ds : List ℕ) (vs : List Vertex)
      → count j (tos_in (erase_back_edges a ds vs) i) ≡ (
          if contains i ds
          then (if nat_beq a j then 0 else count j (tos_in vs i))
          else count j (tos_in vs i))
  unfolding erase_back_edges contains
  tos-erase_back_edges j [] vs = refl
  tos-erase_back_edges j (d ∷ ds) vs = ground (
    arith,
    tos-erase_back_edges j ds (modify vs d (erase_to a)),
    tos-erase_to vs d a i,
    count-set_erase a j (tos_in vs i),
  )

  pub length-erase_back_edges :
      (ds : List ℕ) (vs : List Vertex) → length (erase_back_edges a ds vs) ≡ length vs
  unfolding erase_back_edges
  length-erase_back_edges [] vs = refl
  length-erase_back_edges (d ∷ ds) vs = ground (
    arith,
    length-erase_back_edges ds (modify vs d (erase_to a)),
    length-modify vs d (erase_to a),
  )
