-- ===== src/Data/Walk/Steps.antt =====
-- Single rounds of the walk, and single steps of the recursion on the tree.
use holder.Prelude.{
  ℕ, zero, suc, ◌≡◌, refl, ap, sym, Bool, true, false, List, [], ◌∷◌, Option, none, some, inl, inr,
  Name, get_elem?, arith, ◌⊎◌,
}
use holder.Data.Walk.{
  Datum, list, dict, Items, Entries, entry, IterInstruction, enter, skip, break, SerializerCall,
  on_list, on_dict, on_dict_key, DfsLevel, new_level, item_children, entry_children, children_of,
  load_children, is_dict, has_items, has_entries, WalkRound, stops, goes_on, start_compound,
  start_level, visit_level, take_child, walk_round, walk,
}
use holder.Data.Walk.Order.{close, followed, serialize, serialize_items, serialize_entries}

-- `n` rounds of fuel on top of `f`.
unfoldable pub more : ℕ → ℕ → ℕ
more zero f = f
more (suc n) f = suc (more n f)

pub more-more : (n k f : ℕ) → more n (more k f) ≡ more (more n k) f
unfolding more
more-more zero k f = refl
more-more (suc n) k f = ap suc (more-more n k f)

unfoldable pub suffix {ℓ} : {A : Type ℓ} → List A → ℕ → List A
suffix cs zero = cs
suffix [] (suc i) = []
suffix (c ∷ cs) (suc i) = suffix cs i

pub suffix-cons {ℓ} :
    {A : Type ℓ} (cs : List A) (i : ℕ) {c : A} {rest : List A}
    → suffix cs i ≡ c ∷ rest
    → (get_elem? cs i ≡ some c) × (suffix cs (suc i) ≡ rest)
unfolding suffix
suffix-cons [] zero h = absurd (ground arith)
suffix-cons (c ∷ cs) zero h = (ground arith, ground arith)
suffix-cons [] (suc i) h = absurd (ground arith)
suffix-cons (c ∷ []) (suc i) h = suffix-cons [] i h
suffix-cons (c ∷ d ∷ cs) (suc i) h = suffix-cons (d ∷ cs) i h

pub suffix-nil {ℓ} : {A : Type ℓ} (cs : List A) (i : ℕ) → suffix cs i ≡ [] → get_elem? cs i ≡ none
unfolding suffix
suffix-nil [] i h = refl
suffix-nil (c ∷ cs) zero h = absurd (ground arith)
suffix-nil (c ∷ cs) (suc i) h = suffix-nil cs i h

pub Answer-cases : (a : IterInstruction) → (a ≡ enter) ⊎ ((a ≡ skip) ⊎ (a ≡ break))
Answer-cases enter = inl refl
Answer-cases skip = inr (inl refl)
Answer-cases break = inr (inr refl)

module _ (decide : List SerializerCall → IterInstruction) where
  abbrev pub run_round : ℕ → WalkRound → Option (Bool × List SerializerCall)
  run_round f (stops calls) = some (false, calls)
  run_round f (goes_on stack calls) = walk decide f stack calls

  -- After a part with this answer, the rest of the stack.
  abbrev pub resume :
      Bool × List SerializerCall → ℕ → List DfsLevel → Option (Bool × List SerializerCall)
  resume (false, calls) f stack = some (false, calls)
  resume (true, calls) f stack = walk decide f stack calls

  -- Some rounds lead from a stack to what follows.
  abbrev pub Leads :
      (ℕ → Option (Bool × List SerializerCall))
      → Bool × List SerializerCall
      → List DfsLevel
      → Type 0
  Leads run r stack = (n : ℕ) × ((f : ℕ) → run (more n f) ≡ resume r f stack)

  abbrev pub later : Datum → List (Name × Datum) → ℕ → DfsLevel
  later d cs i = record { level = d; children = cs; cur_idx = i; children_loaded = true }

  pub walk-later :
      (d : Datum) (cs : List (Name × Datum)) (i : ℕ) (s : List DfsLevel)
      (calls : List SerializerCall)
      → walk_round decide (later d cs (suc i)) s calls
        ≡ take_child decide (later d cs (suc i)) s calls
  unfolding walk_round visit_level
  walk-later d cs i s calls = ground arith

  pub take-item :
      (d : Datum) (cs : List (Name × Datum)) (i : ℕ) (k : Name) (y : Datum) (s : List DfsLevel)
      (calls : List SerializerCall)
      → is_dict d ≡ false
      → get_elem? cs i ≡ some (k, y)
      → take_child decide (later d cs i) s calls
        ≡ goes_on (new_level y ∷ later d cs (suc i) ∷ s) calls
  unfolding take_child
  take-item d cs i k y s calls plain at = rw (at, take_child) (rw plain refl)

  -- What an answer to a key leads to, in the loop and in the recursion.
  abbrev pub keyed_round :
      IterInstruction → DfsLevel → Datum → List DfsLevel → List SerializerCall → WalkRound
  keyed_round answer l y s called = elim answer [
    | enter ↦ goes_on (new_level y ∷ l ∷ s) called
    | skip ↦ goes_on (l ∷ s) called
    | break ↦ stops called
  ]

  abbrev pub keyed_part :
      IterInstruction → Datum → Entries → List SerializerCall → Bool × List SerializerCall
  keyed_part answer y ys called = elim answer [
    | enter ↦ followed decide (serialize decide y called) (λ c. serialize_entries decide ys c)
    | skip ↦ serialize_entries decide ys called
    | break ↦ (false, called)
  ]

  pub take-entry :
      (d : Datum) (cs : List (Name × Datum)) (i : ℕ) (k : Name) (y : Datum) (s : List DfsLevel)
      (calls : List SerializerCall)
      → is_dict d ≡ true
      → get_elem? cs i ≡ some (k, y)
      → {a : IterInstruction} → decide (on_dict_key k ∷ calls) ≡ a
      → take_child decide (later d cs i) s calls
        ≡ keyed_round a (later d cs (suc i)) y s (on_dict_key k ∷ calls)
  unfolding take_child
  take-entry d cs i k y s calls keyed at {a} e =
      rw (at, take_child)
        (rw keyed (ap (λ b. keyed_round b (later d cs (suc i)) y s (on_dict_key k ∷ calls)) e))

  pub serialize-entry :
      (k : Name) (y : Datum) (ys : Entries) (calls : List SerializerCall) {a : IterInstruction}
      → decide (on_dict_key k ∷ calls) ≡ a
      → serialize_entries decide (entry k y ys) calls ≡ keyed_part a y ys (on_dict_key k ∷ calls)
  unfolding serialize
  serialize-entry k y ys calls {a} e = ap (λ b. keyed_part b y ys (on_dict_key k ∷ calls)) e

  pub start_compound-enter :
      (call : SerializerCall) (d : Datum) (calls : List SerializerCall)
      → decide (call ∷ calls) ≡ enter
      → start_compound decide call (new_level d) calls
        ≡ (enter, later d (children_of d) 0, call ∷ calls)
  unfolding start_compound load_children new_level
  start_compound-enter call d calls e = rw (e, start_compound) refl

  abbrev pub after_visit :
      List DfsLevel → IterInstruction × DfsLevel × List SerializerCall → WalkRound
  after_visit s (instruction, l, calls) = elim instruction [
    | enter ↦ take_child decide l s calls
    | skip ↦ take_child decide l s calls
    | break ↦ stops calls
  ]

  pub serialize-list :
      (ds : Items) (calls : List SerializerCall)
      → decide (on_list ds (has_items ds) ∷ calls) ≡ enter
      → close decide (has_items ds) (serialize_items decide ds (on_list ds (has_items ds) ∷ calls))
        ≡ serialize decide (list ds) calls
  unfolding serialize
  serialize-list ds calls e =
      let called = on_list ds (has_items ds) ∷ calls in
      ap
        (λ (a : IterInstruction). elim a as (λ _. Bool × List SerializerCall) [
          | enter ↦ close decide (has_items ds) (serialize_items decide ds called)
          | skip ↦ (true, called)
          | break ↦ (false, called)
        ])
        (sym e)

  pub serialize-dict :
      (ds : Entries) (calls : List SerializerCall)
      → decide (on_dict ds (has_entries ds) ∷ calls) ≡ enter
      → close decide
          (has_entries ds)
          (serialize_entries decide ds (on_dict ds (has_entries ds) ∷ calls))
        ≡ serialize decide (dict ds) calls
  unfolding serialize
  serialize-dict ds calls e =
      let called = on_dict ds (has_entries ds) ∷ calls in
      ap
        (λ (a : IterInstruction). elim a as (λ _. Bool × List SerializerCall) [
          | enter ↦ close decide (has_entries ds) (serialize_entries decide ds called)
          | skip ↦ (true, called)
          | break ↦ (false, called)
        ])
        (sym e)

  pub start-list :
      (ds : Items) (s : List DfsLevel) (calls : List SerializerCall)
      → decide (on_list ds (has_items ds) ∷ calls) ≡ enter
      → walk_round decide (new_level (list ds)) s calls
        ≡ take_child decide
            (later (list ds) (item_children ds) 0)
            s
            (on_list ds (has_items ds) ∷ calls)
  unfolding walk_round visit_level start_level new_level children_of
  start-list ds s calls e =
      ap (after_visit s) (start_compound-enter (on_list ds (has_items ds)) (list ds) calls e)

  pub start-dict :
      (ds : Entries) (s : List DfsLevel) (calls : List SerializerCall)
      → decide (on_dict ds (has_entries ds) ∷ calls) ≡ enter
      → walk_round decide (new_level (dict ds)) s calls
        ≡ take_child decide
            (later (dict ds) (entry_children ds) 0)
            s
            (on_dict ds (has_entries ds) ∷ calls)
  unfolding walk_round visit_level start_level new_level children_of
  start-dict ds s calls e =
      ap (after_visit s) (start_compound-enter (on_dict ds (has_entries ds)) (dict ds) calls e)
