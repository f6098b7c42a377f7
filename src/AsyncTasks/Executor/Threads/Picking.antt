-- ===== src/AsyncTasks/Executor/Threads/Picking.antt =====
-- PostTaskToThread picks a thread with the smallest load.
use holder.Prelude.{
  ℕ, zero, suc, ◌+◌, ◌≡◌, refl, sym, ◌≤◌, ◌<◌, List, [], ◌∷◌, length, get_elem?, ltb, some, arith,
  Bool-cases, inl, inr, ◌⊎◌,
}
use mathlib.Core.Path.{subst}
use holder.AsyncTasks.Executor.Threads.{pick_from, pick_thread}

-- Thread `i` is one of `loads`, and none has a load that is smaller and below the limit.
pub record IsLeast (limit i : ℕ) (loads : List ℕ) : Type 0 where
  pub load : ℕ
  pub chosen : get_elem? loads i ≡ some load
  pub least : (j other : ℕ) → get_elem? loads j ≡ some other → other < limit → load ≤ other

-- The rest of the loop answers with the best so far, or with a smaller load of the rest.
abbrev Answers : ℕ → ℕ → ℕ → List ℕ → Type 0
Answers i smallest best loads =
    ((pick_from i smallest best loads ≡ best)
      × ((j other : ℕ) → get_elem? loads j ≡ some other → smallest ≤ other))
    ⊎ ((k load : ℕ) × (pick_from i smallest best loads ≡ i + k)
        × (get_elem? loads k ≡ some load)
        × (load < smallest)
        × ((j other : ℕ) → get_elem? loads j ≡ some other → load ≤ other))

least-cons :
    (bound load : ℕ) (loads : List ℕ)
    → bound ≤ load
    → ((j other : ℕ) → get_elem? loads j ≡ some other → bound ≤ other)
    → (j other : ℕ) → get_elem? (load ∷ loads) j ≡ some other
    → bound ≤ other
least-cons bound load loads h least zero other e = ground arith
least-cons bound load loads h least (suc j) other e = least j other e

pick_from-Answers : (i smallest best : ℕ) (loads : List ℕ) → Answers i smallest best loads
unfolding pick_from
pick_from-Answers i smallest best [] = inl (refl, λ j other h. absurd (ground arith))
pick_from-Answers i smallest best (load ∷ loads) = elim (Bool-cases (ltb load smallest)) [
  | inl h ↦ rw h (elim (pick_from-Answers (suc i) load i loads) [
    | inl (same, below) ↦
        inr (
          0,
          load,
          ground arith,
          refl,
          ground arith,
          least-cons load load loads (ground arith) below,
        )
    | inr (k, found, at, there, smaller, below) ↦ inr (
      suc k,
      found,
      ground arith,
      there,
      ground arith,
      least-cons found load loads (ground arith) below,
    )
  ])
  | inr h ↦ rw h (elim (pick_from-Answers (suc i) smallest best loads) [
    | inl (same, below) ↦ inl (same, least-cons smallest load loads (ground arith) below)
    | inr (k, found, at, there, smaller, below) ↦ inr (
      suc k,
      found,
      ground arith,
      there,
      smaller,
      least-cons found load loads (ground arith) below,
    )
  ])
]

-- With at least one thread, PostTaskToThread chooses one of them, and no thread with a load below
-- 100000000 has a smaller load than the chosen one.
pub pick_thread-IsLeast :
    (loads : List ℕ) → 0 < length loads → IsLeast 100000000 (pick_thread loads) loads
unfolding pick_thread
pick_thread-IsLeast [] h = absurd (omega arith)
pick_thread-IsLeast (x ∷ loads) h = elim (pick_from-Answers 0 100000000 0 (x ∷ loads)) [
  | inl (same, below) ↦ record {
    load = x;
    chosen = rw same refl;
    least = λ j other e small. absurd (omega (arith, below j other e));
  }
  | inr (k, load, at, there, _, below) ↦
      let e : pick_from 0 100000000 0 (x ∷ loads) ≡ k = omega arith in
      record {
        load = load;
        chosen = subst (λ i. get_elem? (x ∷ loads) i ≡ some load) (sym e) there;
        least = λ j other e' _. below j other e';
      }
]
