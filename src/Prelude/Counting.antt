-- ===== src/Prelude/Counting.antt =====
-- The length of a list of numbers below a bound, from how often it holds each.
use Prim.Native.Nat.{ℕ, zero, suc, ◌+◌, ◌≤◌, ◌<◌}
use mathlib.Core.Path.{◌≡◌, refl, ◌∙◌}
use mathlib.Core.List.{List, [], ◌∷◌}
use native.Mathlib.Omega.{arith}
use holder.Prelude.Tests.{nat_eq}
use holder.Prelude.Lists.{length, count, set_erase, count-set_erase}

length-set_erase : (a : ℕ) (xs : List ℕ) → length xs ≡ count a xs + length (set_erase a xs)
unfolding count set_erase
length-set_erase a [] = omega arith
length-set_erase a (x ∷ xs) = ground (arith, length-set_erase a xs)

sum_counts : ℕ → List ℕ → ℕ
sum_counts zero xs = 0
sum_counts (suc n) xs = count n xs + sum_counts n xs

sum_counts-cong :
    (n : ℕ) (xs ys : List ℕ)
    → ((t : ℕ) → t < n → count t xs ≡ count t ys)
    → sum_counts n xs ≡ sum_counts n ys
unfolding sum_counts
sum_counts-cong zero xs ys h = refl
sum_counts-cong (suc n) xs ys h =
    omega (arith, h n (omega arith), sum_counts-cong n xs ys (λ t p. h t (omega arith)))

length-sum_counts :
    (n : ℕ) (xs : List ℕ) → ((t : ℕ) → n ≤ t → count t xs ≡ 0) → length xs ≡ sum_counts n xs
unfolding sum_counts
length-sum_counts zero [] h = refl
length-sum_counts zero (x ∷ xs) h = absurd (unfold count in ground (arith, h x (omega arith)))
length-sum_counts (suc n) xs h =
    let ys = set_erase n xs in
    let smaller = length-sum_counts n ys (λ t p. ground (arith, count-set_erase n t xs, h t)) in
    let same = sum_counts-cong n ys xs (λ t p. ground (arith, count-set_erase n t xs)) in
    omega (arith, length-set_erase n xs, smaller, same)

sum_counts-le : (n : ℕ) (xs : List ℕ) → ((t : ℕ) → t < n → count t xs ≤ 1) → sum_counts n xs ≤ n
unfolding sum_counts
sum_counts-le zero xs h = omega arith
sum_counts-le (suc n) xs h =
    omega (arith, h n (omega arith), sum_counts-le n xs (λ t p. h t (omega arith)))

-- If all are there once, the sum is the bound, and otherwise less.
sum_counts-full :
    (n : ℕ) (xs : List ℕ)
    → ((t : ℕ) → t < n → count t xs ≤ 1)
    → n ≤ sum_counts n xs
    → (t : ℕ) → t < n
    → count t xs ≡ 1
unfolding sum_counts
sum_counts-full zero xs h full t p = absurd (omega arith)
sum_counts-full (suc n) xs h full t p =
    let below = sum_counts-le n xs (λ t p. h t (omega arith)) in
    let here = h n (omega arith) in
    ground (arith, below, here, sum_counts-full n xs (λ t p. h t (omega arith)) (omega arith) t)

sum_counts-all : (n : ℕ) (xs : List ℕ) → ((t : ℕ) → t < n → count t xs ≡ 1) → sum_counts n xs ≡ n
unfolding sum_counts
sum_counts-all zero xs h = refl
sum_counts-all (suc n) xs h =
    omega (arith, h n (omega arith), sum_counts-all n xs (λ t p. h t (omega arith)))

module _ (n : ℕ) (xs : List ℕ) (out : (t : ℕ) → n ≤ t → count t xs ≡ 0)
    (once : (t : ℕ) → t < n → count t xs ≤ 1) where
  pub length-le_of_distinct : length xs ≤ n
  length-le_of_distinct = omega (arith, length-sum_counts n xs out, sum_counts-le n xs once)

  pub count_of_full : n ≤ length xs → (t : ℕ) → t < n → count t xs ≡ 1
  count_of_full h = sum_counts-full n xs once (omega (arith, length-sum_counts n xs out))

  pub length_of_all : ((t : ℕ) → t < n → count t xs ≡ 1) → length xs ≡ n
  length_of_all h = length-sum_counts n xs out ∙ sum_counts-all n xs h
