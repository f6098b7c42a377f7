-- ===== src/Data/Simple.antt =====
-- The lists and dictionaries of Holder/DTSimpleList.cpp and DTSimpleDict.cpp, over any type of data.
use holder.Prelude.{
  ℕ, zero, suc, ◌+◌, ◌-◌, ◌^◌, ◌≡◌, ◌≤◌, ◌<◌, refl, Bool, true, false, not, ◌||◌, List, [], ◌∷◌,
  ◌++◌, Option, none, some, Name, is_some, length, get_elem?, set, lookup, assign, ltb, leb,
  nat_beq, if◌then◌else◌, name_eq, arith,
}

abbrev pub list_npos : ℕ
list_npos = 2 ^ 64 - 1

module _ {ℓ} {A : Type ℓ} where
  -- List::GetEntry; `none` is the answer false.
  unfoldable pub list_get_entry : ℕ → List A → Option A
  list_get_entry idx xs = if ltb idx (length xs) then get_elem? xs idx else none

  -- The loop of GetRange, `n` rounds from the index `i` on.
  unfoldable pub range_loop : ℕ → ℕ → List A → List A → List A
  range_loop zero i xs sequence = sequence
  range_loop (suc n) i xs sequence =
      range_loop n (suc i) xs
        (elim (get_elem? xs i) [ none ↦ sequence | some a ↦ sequence ++ a ∷ [] ])

  -- GetRange: the answer and the sequence.
  unfoldable pub get_range : List A → ℕ → ℕ → List A → Bool × List A
  unfolding range_loop
  get_range sequence start_idx end_idx xs =
      let last = if nat_beq end_idx list_npos then length xs else end_idx in
      if leb (length xs) start_idx || ltb (length xs) last
      then (false, sequence)
      else (ltb start_idx last, range_loop (last - start_idx) start_idx xs sequence)

  unfoldable pub insert_at : ℕ → A → List A → List A
  insert_at zero a xs = a ∷ xs
  insert_at (suc i) a [] = a ∷ []
  insert_at (suc i) a (x ∷ xs) = x ∷ insert_at i a xs

  unfoldable pub insert_entry : A → ℕ → List A → Bool × List A
  unfolding insert_at
  insert_entry a index_before xs =
      let index = if nat_beq index_before list_npos then length xs else index_before in
      if ltb (length xs) index then (false, xs) else (true, insert_at index a xs)

  unfoldable pub list_set_entry : A → ℕ → List A → Bool × List A
  list_set_entry a index_at xs =
      if leb (length xs) index_at then (false, xs) else (true, set xs index_at a)

  -- Dictionary::HasEntry, GetEntry and SetEntry; SetEntry says whether the key is new.
  unfoldable pub has_entry : Name → List (Name × A) → Bool
  has_entry key m = is_some (lookup key m)

  unfoldable pub dict_get_entry : Name → List (Name × A) → Option A
  dict_get_entry key m = lookup key m

  unfoldable pub dict_set_entry : Name → A → List (Name × A) → Bool × List (Name × A)
  dict_set_entry key a m = (not (is_some (lookup key m)), assign key a m)

module _ {A : Type 0} where
  -- What is read after an insertion, at every index.
  pub insert_entry-get :
      (a : A) (i j : ℕ) (xs : List A)
      → i ≤ length xs
      → length xs < list_npos
      → let (inserted, ys) = insert_entry a i xs in
        (inserted ≡ true)
        × (list_get_entry j ys ≡ (
            if ltb j i
            then list_get_entry j xs
            else if nat_beq j i
            then some a
            else list_get_entry (j - 1) xs))
  unfolding insert_entry list_get_entry
  insert_entry-get a i j xs h few =
      (ground arith, ground (arith, get_elem?-insert_at a i j xs h, length-insert_at a i xs h))
    where
      length-insert_at :
          (b : A) (k : ℕ) (ys : List A) → k ≤ length ys → length (insert_at k b ys) ≡ length ys + 1
      length-insert_at b zero ys p = omega arith
      length-insert_at b (suc k) [] p = absurd (omega arith)
      length-insert_at b (suc k) (y ∷ ys) p = omega (arith, length-insert_at b k ys (omega arith))

      get_elem?-insert_at :
          (b : A) (k l : ℕ) (ys : List A)
          → k ≤ length ys
          → get_elem? (insert_at k b ys) l ≡ (
              if ltb l k
              then get_elem? ys l
              else if nat_beq l k
              then some b
              else get_elem? ys (l - 1))
      get_elem?-insert_at b zero zero ys p = refl
      get_elem?-insert_at b zero (suc l) ys p = ground arith
      get_elem?-insert_at b (suc k) l [] p = absurd (omega arith)
      get_elem?-insert_at b (suc k) zero (y ∷ ys) p = ground arith
      get_elem?-insert_at b (suc k) (suc zero) (y ∷ ys) p =
          ground (arith, get_elem?-insert_at b k zero ys)
      get_elem?-insert_at b (suc k) (suc (suc l)) (y ∷ ys) p =
          ground (arith, get_elem?-insert_at b k (suc l) ys)
