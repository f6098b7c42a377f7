-- ===== src/Execution/Removal.antt =====
-- RemoveExecutor: the executor that is moved into the gap keeps its old place in the map.
use holder.Prelude.{
  ℕ, zero, suc, ◌+◌, ◌-◌, ◌<◌, ◌≡◌, refl, sym, ◌∙◌, false, List, [], ◌∷◌, ◌++◌, some, length,
  get_elem?, set, lookup, assign, erase, nat_beq, dec_u32, nat_eq, arith, get_elem?-set, length-set,
  lookup-assign, lookup-erase,
}
use holder.Execution.{
  ExecutorState, ExecutorThread, pop_back, swap_with_last, remove_found, remove_executor, de_init,
}
use holder.Execution.Indexing.{IsIndexed}

length-pop_back : (es : List ExecutorState) → length (pop_back es) ≡ length es - 1
unfolding pop_back
length-pop_back [] = omega arith
length-pop_back (e ∷ []) = omega arith
length-pop_back (e ∷ f ∷ es) = omega (arith, length-pop_back (f ∷ es))

get_elem?-pop_back :
    (es : List ExecutorState) (i : ℕ)
    → i + 1 < length es
    → get_elem? (pop_back es) i ≡ get_elem? es i
unfolding pop_back
get_elem?-pop_back [] i h = refl
get_elem?-pop_back (e ∷ []) i h = absurd (omega arith)
get_elem?-pop_back (e ∷ f ∷ es) zero h = refl
get_elem?-pop_back (e ∷ f ∷ es) (suc i) h = get_elem?-pop_back (f ∷ es) i (omega arith)

module _ (t : ExecutorThread) (id i last : ℕ) (exec other : ExecutorState) where
  abbrev swapped : List ExecutorState
  swapped = set (set t.executors i other) last exec

  abbrev after_swap : ExecutorThread
  after_swap = record t {
    calls = t.calls ++ de_init exec.p_executor ∷ [];
    executors = pop_back swapped;
    signal_map = erase id (assign exec.exec_id i t.signal_map);
    n_active = dec_u32 t.n_active;
  }

  removed :
      lookup id t.signal_map ≡ some i
      → get_elem? t.executors i ≡ some exec
      → get_elem? t.executors last ≡ some other
      → last ≡ length t.executors - 1
      → i < last
      → remove_executor t id ≡ after_swap
  unfolding remove_executor remove_found swap_with_last
  removed h at end is inside =
      let test : nat_beq i last ≡ false = ground arith in
      rw (h, remove_executor)
        (rw at (rw (sym is, remove_found) (rw test (rw (end, swap_with_last) refl))))

-- On a thread whose map is right, RemoveExecutor of an executor that is not the last one puts the
-- last one in its place, but the map still leads from the id of that one to its old place, where
-- no executor is any more.
pub remove_executor_stale :
    (t : ExecutorThread) (id i last : ℕ) (exec other : ExecutorState)
    → IsIndexed t
    → lookup id t.signal_map ≡ some i
    → get_elem? t.executors i ≡ some exec
    → get_elem? t.executors last ≡ some other
    → last + 1 ≡ length t.executors
    → i < last
    → let t' = remove_executor t id in
      (get_elem? t'.executors i ≡ some other)
      × (lookup other.exec_id t'.signal_map ≡ some last)
      × (length t'.executors ≡ last)
remove_executor_stale t id i last exec other v h at end is inside =
    let first = set t.executors i other in
    let final = swapped t id i last exec other in
    let size : length final ≡ last + 1 =
      length-set first last exec ∙ length-set t.executors i other ∙ sym is in
    let moved : get_elem? final i ≡ some other = ground (
      arith,
      get_elem?-set first last i exec (omega (arith, length-set t.executors i other)),
      get_elem?-set t.executors i i other (omega arith),
    ) in
    let apart : nat_beq id other.exec_id ≡ false =
      ground (arith, v.place i exec at, v.place last other end) in
    let named : exec.exec_id ≡ id = same v in
    rw (removed t id i last exec other h at end (omega arith) inside) (
      get_elem?-pop_back final i (omega (arith, size)) ∙ moved,
      ground (
        arith,
        lookup-erase id other.exec_id (assign exec.exec_id i t.signal_map),
        lookup-assign exec.exec_id other.exec_id i t.signal_map,
        v.place last other end,
      ),
      length-pop_back final ∙ omega (arith, size),
    )
  where
    same : IsIndexed t → exec.exec_id ≡ id
    same v = let (e, there, is) = v.entry id i h in ground arith
