-- ===== src/Data/Range.antt =====
-- A converted integer is the nearest one of the target's type.
use holder.Prelude.{
  ℕ, zero, suc, ◌≤◌, ◌≡◌, ◌↔◌, refl, true, some, leb, if◌then◌else◌, arith, inl, inr, Bool-cases,
}
use holder.Data.Convert.{
  ℤ, pos, negsuc, IntType, int8, uint8, int16, uint16, int32, uint32, int64, uint64, is_unsigned,
  max_of, min_of, negate, is_below, is_above, cast, ConvertResult, converted, narrowing,
  convert_integral, compiles,
}

abbrev pub IsIn : IntType → ℤ → Type 0
IsIn t (pos n) = n ≤ max_of t
IsIn t (negsuc n) = suc n ≤ min_of t

-- The value of the type that is nearest to an integer.
unfoldable pub nearest : IntType → ℤ → ℤ
nearest t (pos n) = if leb n (max_of t) then pos n else pos (max_of t)
nearest t (negsuc n) = if leb (suc n) (min_of t) then negsuc n else negate (min_of t)

cast-IsIn : (t : IntType) (x : ℤ) → IsIn t x → cast t x ≡ x
unfolding cast max_of min_of
cast-IsIn int8 (pos n) h = ground arith
cast-IsIn uint8 (pos n) h = ground arith
cast-IsIn int16 (pos n) h = ground arith
cast-IsIn uint16 (pos n) h = ground arith
cast-IsIn int32 (pos n) h = ground arith
cast-IsIn uint32 (pos n) h = ground arith
cast-IsIn int64 (pos n) h = ground arith
cast-IsIn uint64 (pos n) h = ground arith
cast-IsIn int8 (negsuc n) h = ground arith
cast-IsIn uint8 (negsuc n) h = ground arith
cast-IsIn int16 (negsuc n) h = ground arith
cast-IsIn uint16 (negsuc n) h = ground arith
cast-IsIn int32 (negsuc n) h = ground arith
cast-IsIn uint32 (negsuc n) h = ground arith
cast-IsIn int64 (negsuc n) h = ground arith
cast-IsIn uint64 (negsuc n) h = ground arith

min_of-unsigned : (t : IntType) → is_unsigned t ≡ true → min_of t ≡ 0
unfolding min_of
min_of-unsigned t h = ground arith

-- Within the type an integer is converted as it is, and else to the nearest limit.
abbrev expected : IntType → ℤ → ConvertResult × ℤ
expected t (pos n) = if leb n (max_of t) then (converted, pos n) else (narrowing, pos (max_of t))
expected t (negsuc n) =
    if leb (suc n) (min_of t) then (converted, negsuc n) else (narrowing, negate (min_of t))

convert_integral-expected :
    (from to : IntType) (x : ℤ)
    → compiles from to ≡ true
    → IsIn from x
    → convert_integral from to x ≡ some (expected to x)
unfolding convert_integral is_below is_above
convert_integral-expected from to (pos n) c h =
    ground (arith, cast-IsIn to (pos n), min_of-unsigned from, min_of-unsigned to)
convert_integral-expected from to (negsuc n) c h =
    ground (arith, cast-IsIn to (negsuc n), min_of-unsigned from, min_of-unsigned to)

-- Between integer types for which ConvertValue compiles, that is, not from one signed type to another
-- where either has 32 or 64 bits, a value of the one type is converted to the nearest value of the
-- other, which is in the range of that type, and the result says that it was narrowed exactly when
-- the value is outside it.
pub convert_integral-nearest :
    (from to : IntType) (x : ℤ)
    → compiles from to ≡ true
    → IsIn from x
    → (result : ConvertResult) × (y : ℤ) × (convert_integral from to x ≡ some (result, y))
      × (y ≡ nearest to x)
      × IsIn to y
      × ((result ≡ converted) ↔ IsIn to x)
      × ((result ≡ narrowing) ↔ (IsIn to x → ⊥))
unfolding nearest
convert_integral-nearest from to x c h =
    let (result, y) = expected to x in
    let (near, inside, kept, cut) = by_sign x in
    (result, y, convert_integral-expected from to x c h, near, inside, kept, cut)
  where
    by_sign :
        (z : ℤ)
        → let (result, y) = expected to z in
          (y ≡ nearest to z)
          × IsIn to y
          × ((result ≡ converted) ↔ IsIn to z)
          × ((result ≡ narrowing) ↔ (IsIn to z → ⊥))
    by_sign (pos n) = elim (Bool-cases (leb n (max_of to))) [
      | inl b ↦ rw b (
        refl,
        ground arith,
        (λ e. ground arith, λ e. refl),
        (λ e. cc, λ f. absurd (f (ground arith))),
      )
      | inr b ↦ rw b (
        refl,
        omega arith,
        (λ e. cc, λ e. absurd (ground arith)),
        (λ e f. ground arith, λ f. refl),
      )
    ]
    by_sign (negsuc n) = elim (Bool-cases (leb (suc n) (min_of to))) [
      | inl b ↦ rw b (
        refl,
        ground arith,
        (λ e. ground arith, λ e. refl),
        (λ e. cc, λ f. absurd (f (ground arith))),
      )
      | inr b ↦ rw b (
        refl,
        negate-IsIn (min_of to) refl,
        (λ e. cc, λ e. absurd (ground arith)),
        (λ e f. ground arith, λ f. refl),
      )
    ]
      where
        negate-IsIn : (k : ℕ) → min_of to ≡ k → IsIn to (negate k)
        negate-IsIn zero e = omega arith
        negate-IsIn (suc k) e = omega arith
