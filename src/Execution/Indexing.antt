-- ===== src/Execution/Indexing.antt =====
-- The map of an executor thread names the places of its executors.
use mathlib.Core.Logic.{inl, inr}
use holder.Prelude.{
  ℕ, ◌+◌, ◌^◌, ◌<◌, ◌≤◌, ◌≡◌, refl, Bool, List, [], ◌∷◌, ◌++◌, none, some, length, get_elem?,
  lookup, emplace, modify, nat_beq, nat_eq, arith, Option-cases, Bool-cases, get_elem?-snoc,
  get_elem?-modify, length-modify, get_elem?-lt, length-append, lookup-emplace,
}
use holder.Execution.{
  ExecutorStateTag, executing, suspended, ExecutorState, ExecutorThread, add_executor,
}

abbrev pub active : ExecutorStateTag → ℕ
active executing = 1
active suspended = 0

unfoldable pub active_count : List ExecutorState → ℕ
active_count [] = 0
active_count (e ∷ es) = active e.state_tag + active_count es

-- Ids and places name one another, and the count is of the executors that are not suspended.
pub record IsIndexed (t : ExecutorThread) : Type 0 where
  pub place :
      (i : ℕ) (e : ExecutorState)
      → get_elem? t.executors i ≡ some e
      → lookup e.exec_id t.signal_map ≡ some i
  pub entry :
      (id i : ℕ)
      → lookup id t.signal_map ≡ some i
      → (e : ExecutorState) × (get_elem? t.executors i ≡ some e) × (e.exec_id ≡ id)
  pub counted : t.n_active ≡ active_count t.executors
  pub fits : length t.executors < 2 ^ 32

active_count-append :
    (es : List ExecutorState) (e : ExecutorState)
    → active_count (es ++ e ∷ []) ≡ active_count es + active e.state_tag
unfolding active_count
active_count-append [] e = omega arith
active_count-append (f ∷ es) e = omega (arith, active_count-append es e)

pub active_count-le : (es : List ExecutorState) → active_count es ≤ length es
unfolding active_count
active_count-le [] = omega arith
active_count-le (e ∷ es) = ground (arith, active_count-le es)

-- AddExecutor of an executor with a new id, on a thread with fewer than 2^32 executors after it,
-- keeps the places and the count right, whether or not its Init succeeds.
pub add_executor-IsIndexed :
    (init : ℕ → Bool) (t : ExecutorThread) (id p : ℕ)
    → IsIndexed t
    → lookup id t.signal_map ≡ none
    → length t.executors + 1 < 2 ^ 32
    → IsIndexed (add_executor init t id p)
unfolding add_executor
add_executor-IsIndexed init t id p v new room = elim (Bool-cases (init p)) [
  | inr e ↦ rw e v
  | inl e ↦
      let x : ExecutorState = record { exec_id = id; state_tag = executing; p_executor = p } in
      rw e (record {
        place = λ i f h. ground (
          arith,
          get_elem?-snoc t.executors x i,
          lookup-emplace id f.exec_id (length t.executors) t.signal_map,
          v.place i f,
        );
        entry = λ j i h. entry x refl j i h;
        counted =
            omega
              (arith, v.counted, active_count-append t.executors x, active_count-le t.executors);
        fits = omega (arith, length-append t.executors (x ∷ []));
      })
]
  where
    entry :
        (x : ExecutorState)
        → x.exec_id ≡ id
        → (j i : ℕ) → lookup j (emplace id (length t.executors) t.signal_map) ≡ some i
        → (f : ExecutorState) × (get_elem? (t.executors ++ x ∷ []) i ≡ some f) × (f.exec_id ≡ j)
    entry x named j i h = elim (Option-cases (lookup j t.signal_map)) [
      | inl gone ↦ (
        x,
        ground (
          arith,
          lookup-emplace id j (length t.executors) t.signal_map,
          get_elem?-snoc t.executors x i,
        ),
        ground (arith, lookup-emplace id j (length t.executors) t.signal_map),
      )
      | inr (k, there) ↦
          let (f, at, is) = v.entry j k there in
          (
            f,
            ground (
              arith,
              lookup-emplace id j (length t.executors) t.signal_map,
              get_elem?-snoc t.executors x i,
              get_elem?-lt t.executors k at,
            ),
            is,
          )
    ]

-- A change of one executor that keeps its id.
pub modify-IsIndexed :
    (t : ExecutorThread) (i n : ℕ) (f : ExecutorState → ExecutorState)
    → ((e : ExecutorState) → (f e).exec_id ≡ e.exec_id)
    → n ≡ active_count (modify t.executors i f)
    → IsIndexed t
    → IsIndexed (record t { n_active = n; executors = modify t.executors i f })
modify-IsIndexed t i n f same count v = record {
  place = λ j e h. place j e h;
  entry = λ id j h. entry id j h;
  counted = count;
  fits = omega (arith, v.fits, length-modify t.executors i f);
}
  where
    place :
        (j : ℕ) (e : ExecutorState)
        → get_elem? (modify t.executors i f) j ≡ some e
        → lookup e.exec_id t.signal_map ≡ some j
    place j e h = elim (Option-cases (get_elem? t.executors j)) [
      | inl gone ↦ absurd (ground (arith, get_elem?-modify t.executors i j f))
      | inr (g, there) ↦
          ground (arith, get_elem?-modify t.executors i j f, v.place j g there, same g)
    ]

    entry :
        (id j : ℕ)
        → lookup id t.signal_map ≡ some j
        → (e : ExecutorState) × (get_elem? (modify t.executors i f) j ≡ some e) × (e.exec_id ≡ id)
    entry id j h =
        let (g, there, is) = v.entry id j h in
        elim (Bool-cases (nat_beq i j)) [
          | inl b ↦
              (f g, ground (arith, get_elem?-modify t.executors i j f), ground (arith, same g))
          | inr b ↦ (g, ground (arith, get_elem?-modify t.executors i j f), is)
        ]
