-- ===== src/Data/Walk/Fuel.antt =====
-- The walk with the stack ends, and does what the recursion on the tree does.
use mathlib.Core.Path.{subst}
use holder.Prelude.{
  ℕ, zero, suc, ◌≡◌, refl, ap, sym, ◌∙◌, Bool, true, false, List, [], ◌∷◌, Option, some, inl, inr,
  Name, arith,
}
use holder.Data.Walk.{
  Datum, element, object, list, dict, Items, nil, cons, Entries, end, entry, IterInstruction, enter,
  skip, break, SerializerCall, on_element, on_object, on_list, on_dict, on_dict_key, DfsLevel,
  new_level, item_children, entry_children, children_of, load_children, is_dict, no_children,
  start_compound, start_level, visit_level, take_child, walk_round, walk, serialize_data_tree,
}
use holder.Data.Walk.Order.{close, followed, serialize, serialize_items, serialize_entries}
use holder.Data.Walk.Steps.{
  more, more-more, suffix, suffix-cons, suffix-nil, Answer-cases, run_round, resume, Leads, later,
  walk-later, take-item, keyed_round, keyed_part, take-entry, serialize-entry, serialize-list,
  serialize-dict, start-list, start-dict,
}

module _ (decide : List SerializerCall → IterInstruction) where
  -- A child, and then the rest of the level.
  child-then :
      (l : DfsLevel) (s : List DfsLevel) (rest : List SerializerCall → Bool × List SerializerCall)
      → ((c : List SerializerCall)
          → Leads decide
              (λ f. run_round decide f (walk_round decide l s c))
              (close decide true (rest c))
              s)
      → (r : Bool × List SerializerCall)
      → Leads decide
          (λ f. resume decide r (suc f) (l ∷ s))
          (close decide true (followed decide r rest))
          s
  unfolding walk more
  child-then l s rest h (false, c) = (0, λ f. refl)
  child-then l s rest h (true, c) = h c

  -- Rounds after rounds.
  leads-then :
      (run : ℕ → Option (Bool × List SerializerCall)) (r q : Bool × List SerializerCall)
      (l : DfsLevel) (s : List DfsLevel)
      → Leads decide run r (l ∷ s)
      → Leads decide (λ f. resume decide r (suc f) (l ∷ s)) q s
      → Leads decide run q s
  unfolding more
  leads-then run r q l s (n, p) (k, t) =
      (more n (suc k), λ f. ap run (sym (more-more n (suc k) f)) ∙ (p (suc (more k f)) ∙ t f))

  mutual
    unfolding serialize serialize_items serialize_entries walk walk_round visit_level start_level
        start_compound load_children take_child new_level item_children entry_children children_of
        more suffix

    walk-serialize :
        (d : Datum) (s : List DfsLevel) (calls : List SerializerCall)
        → Leads decide (λ f. walk decide f (new_level d ∷ s) calls) (serialize decide d calls) s
    walk-serialize (element x) s calls = elim (Answer-cases (decide (on_element x ∷ calls))) [
      | inl e ↦ (1, λ f. ground arith)
      | inr (inl e) ↦ (1, λ f. ground arith)
      | inr (inr e) ↦ (1, λ f. ground arith)
    ]
    walk-serialize (object x) s calls = elim (Answer-cases (decide (on_object x ∷ calls))) [
      | inl e ↦ (1, λ f. ground arith)
      | inr (inl e) ↦ (1, λ f. ground arith)
      | inr (inr e) ↦ (1, λ f. ground arith)
    ]
    walk-serialize (list nil) s calls = elim (Answer-cases (decide (on_list nil false ∷ calls))) [
      | inl e ↦ (1, λ f. ground arith)
      | inr (inl e) ↦ (1, λ f. ground arith)
      | inr (inr e) ↦ (1, λ f. ground arith)
    ]
    walk-serialize (list (cons y ys)) s calls =
        let called = on_list (cons y ys) true ∷ calls in
        elim (Answer-cases (decide called)) [
          | inl e ↦
              let (n, p) =
                walk-items (cons y ys) (list (cons y ys)) (item_children (cons y ys)) 0 s called
                  refl refl refl in
              (
                suc n,
                λ f.
                    ap (run_round decide (more n f)) (start-list decide (cons y ys) s calls e)
                    ∙ (p f
                        ∙ ap (λ r. resume decide r f s)
                            (serialize-list decide (cons y ys) calls e)),
              )
          | inr (inl e) ↦ (1, λ f. ground arith)
          | inr (inr e) ↦ (1, λ f. ground arith)
        ]
    walk-serialize (dict end) s calls = elim (Answer-cases (decide (on_dict end false ∷ calls))) [
      | inl e ↦ (1, λ f. ground arith)
      | inr (inl e) ↦ (1, λ f. ground arith)
      | inr (inr e) ↦ (1, λ f. ground arith)
    ]
    walk-serialize (dict (entry k y ys)) s calls =
        let called = on_dict (entry k y ys) true ∷ calls in
        elim (Answer-cases (decide called)) [
          | inl e ↦
              let (n, p) =
                walk-entries (entry k y ys) (dict (entry k y ys)) (entry_children (entry k y ys)) 0
                  s called refl refl refl in
              (
                suc n,
                λ f.
                    ap (run_round decide (more n f)) (start-dict decide (entry k y ys) s calls e)
                    ∙ (p f
                        ∙ ap (λ r. resume decide r f s)
                            (serialize-dict decide (entry k y ys) calls e)),
              )
          | inr (inl e) ↦ (1, λ f. ground arith)
          | inr (inr e) ↦ (1, λ f. ground arith)
        ]

    walk-items :
        (ds : Items) (d : Datum) (cs : List (Name × Datum)) (i : ℕ) (s : List DfsLevel)
        (calls : List SerializerCall)
        → is_dict d ≡ false
        → no_children cs ≡ false
        → suffix cs i ≡ item_children ds
        → Leads decide
            (λ f. run_round decide f (take_child decide (later decide d cs i) s calls))
            (close decide true (serialize_items decide ds calls))
            s
    walk-items nil d cs i s calls plain some_there at = (0, λ f. ground (arith, suffix-nil cs i at))
    walk-items (cons y ys) d cs i s calls plain some_there at =
        let (here, next) = suffix-cons cs i at in
        let l = later decide d cs (suc i) in
        subst
          (λ r.
            Leads decide (λ f. run_round decide f r)
              (close decide true (serialize_items decide (cons y ys) calls)) s)
          (sym (take-item decide d cs i [] y s calls plain here))
          (leads-then (λ f. walk decide f (new_level y ∷ l ∷ s) calls) (serialize decide y calls) _
            l s (walk-serialize y (l ∷ s) calls)
            (child-then l s (serialize_items decide ys)
              (λ c.
                subst
                  (λ r.
                    Leads decide (λ f. run_round decide f r)
                      (close decide true (serialize_items decide ys c)) s)
                  (sym (walk-later decide d cs i s c))
                  (walk-items ys d cs (suc i) s c plain some_there next))
              (serialize decide y calls)))

    walk-entries :
        (ds : Entries) (d : Datum) (cs : List (Name × Datum)) (i : ℕ) (s : List DfsLevel)
        (calls : List SerializerCall)
        → is_dict d ≡ true
        → no_children cs ≡ false
        → suffix cs i ≡ entry_children ds
        → Leads decide
            (λ f. run_round decide f (take_child decide (later decide d cs i) s calls))
            (close decide true (serialize_entries decide ds calls))
            s
    walk-entries end d cs i s calls keyed some_there at =
        (0, λ f. ground (arith, suffix-nil cs i at))
    walk-entries (entry k y ys) d cs i s calls keyed some_there at =
        let (here, next) = suffix-cons cs i at in
        let l = later decide d cs (suc i) in
        let called = on_dict_key k ∷ calls in
        let rest = λ (c : List SerializerCall).
          subst
            (λ r.
              Leads decide (λ f. run_round decide f r)
                (close decide true (serialize_entries decide ys c)) s)
            (sym (walk-later decide d cs i s c))
            (walk-entries ys d cs (suc i) s c keyed some_there next) in
        let keyed_leads =
          λ (a : IterInstruction) (e : decide called ≡ a)
              (core : Leads decide (λ f. run_round decide f (keyed_round decide a l y s called))
                (close decide true (keyed_part decide a y ys called)) s).
            subst
              (λ r.
                Leads decide (λ f. run_round decide f r)
                  (close decide true (serialize_entries decide (entry k y ys) calls)) s)
              (sym (take-entry decide d cs i k y s calls keyed here e))
              (subst
                (λ q.
                  Leads decide (λ f. run_round decide f (keyed_round decide a l y s called))
                    (close decide true q) s)
                (sym (serialize-entry decide k y ys calls e)) core) in
        elim (Answer-cases (decide called)) [
          | inl e ↦ keyed_leads enter e (
              leads-then (λ f. walk decide f (new_level y ∷ l ∷ s) called)
                (serialize decide y called) _ l s (walk-serialize y (l ∷ s) called)
                (child-then l s (serialize_entries decide ys) rest (serialize decide y called)))
          | inr (inl e) ↦ keyed_leads skip e (let (n, p) = rest called in (suc n, p))
          | inr (inr e) ↦ keyed_leads break e (0, λ f. refl)
        ]

  -- For every tree and every serializer there is fuel from which on SerializeDataTree returns, and it
  -- then has made the same calls in the same order, and has the same answer, as the recursion that
  -- announces a compound, serializes its children if it is entered, and ends it.
  pub serialize_data_tree-serialize :
      (d : Datum)
      → (n : ℕ) × ((f : ℕ) → serialize_data_tree decide (more n f) d ≡ some (serialize decide d []))
  unfolding serialize_data_tree walk
  serialize_data_tree-serialize d =
      let (n, p) = walk-serialize d [] [] in (n, λ f. p f ∙ at_end (serialize decide d []) f)
    where
      at_end : (r : Bool × List SerializerCall) (f : ℕ) → resume decide r f [] ≡ some r
      at_end (false, calls) f = refl
      at_end (true, calls) zero = refl
      at_end (true, calls) (suc f) = refl
