-- ===== src/Data/Convert.antt =====
-- ConvertValue between integer types (Holder/DTUtils.h).
use holder.Prelude.{
  ℕ, zero, suc, ◌-◌, ◌%◌, ◌^◌, Bool, true, false, not, ◌||◌, ◌&&◌, leb, ltb, if◌then◌else◌, Option,
  none, some,
}

-- `negsuc n` is -(n + 1).
pub data ℤ : Type 0 where
  pos : ℕ → ℤ
  negsuc : ℕ → ℤ

-- The integer types of elements.
pub data IntType : Type 0 where
  int8 uint8 int16 uint16 int32 uint32 int64 uint64 : IntType

abbrev pub bits : IntType → ℕ
bits int8 = 8
bits uint8 = 8
bits int16 = 16
bits uint16 = 16
bits int32 = 32
bits uint32 = 32
bits int64 = 64
bits uint64 = 64

abbrev pub is_unsigned : IntType → Bool
is_unsigned int8 = false
is_unsigned uint8 = true
is_unsigned int16 = false
is_unsigned uint16 = true
is_unsigned int32 = false
is_unsigned uint32 = true
is_unsigned int64 = false
is_unsigned uint64 = true

-- `numeric_limits<T>::max()`, and how far `numeric_limits<T>::min()` is below 0.
unfoldable pub max_of : IntType → ℕ
max_of t = if is_unsigned t then 2 ^ bits t - 1 else 2 ^ (bits t - 1) - 1

unfoldable pub min_of : IntType → ℕ
min_of t = if is_unsigned t then 0 else 2 ^ (bits t - 1)

-- -n.
abbrev pub negate : ℕ → ℤ
negate zero = pos 0
negate (suc n) = negsuc n

-- `x < -n` and `n < x`.
unfoldable pub is_below : ℤ → ℕ → Bool
is_below (pos k) n = false
is_below (negsuc k) n = ltb n (suc k)

unfoldable pub is_above : ℤ → ℕ → Bool
is_above (pos k) n = ltb n k
is_above (negsuc k) n = false

-- The bits of an integer, and the integer that bits stand for.
unfoldable pub to_bits : ℕ → ℤ → ℕ
to_bits m (pos n) = n % m
to_bits m (negsuc n) = m - 1 - n % m

unfoldable pub of_bits : ℕ → ℕ → ℕ → ℤ
of_bits m max w = if leb w max then pos w else negsuc (m - 1 - w)

-- `(T)x`, which wraps around.
unfoldable pub cast : IntType → ℤ → ℤ
unfolding to_bits of_bits max_of
cast t x = of_bits (2 ^ bits t) (max_of t) (to_bits (2 ^ bits t) x)

pub data ConvertResult : Type 0 where
  converted narrowing no_conversion : ConvertResult

abbrev pub same : Bool → Bool → Bool
same true b = b
same false b = not b

-- Whether `-numeric_limits<T>::min()` is a constant: the type is promoted to one of 32 bits or more,
-- and the negation of the least number of that type overflows.
unfoldable pub negates_min : IntType → Bool
negates_min t = is_unsigned t || ltb (bits t) 32

-- Whether ConvertValue compiles: between signed types `widerToMin` negates both minima.
unfoldable pub compiles : IntType → IntType → Bool
unfolding negates_min
compiles from to =
    if same (is_unsigned from) (is_unsigned to)
    then is_unsigned from || (negates_min to && negates_min from)
    else true

-- Between types for which it does not compile there is no code, and `none` is the answer. The limits of
-- the target are cast to the source's type only where that holds them.
unfoldable pub convert_integral : IntType → IntType → ℤ → Option (ConvertResult × ℤ)
unfolding compiles
convert_integral from to x =
    let wider_to_max = ltb (max_of from) (max_of to) in
    let wider_to_min = is_unsigned from || ltb (min_of from) (min_of to) in
    let low : ConvertResult × ℤ = (narrowing, negate (min_of to)) in
    let high : ConvertResult × ℤ = (narrowing, pos (max_of to)) in
    let exact : ConvertResult × ℤ = (converted, cast to x) in
    let up = if is_above x (max_of to) then high else exact in
    let value : ConvertResult × ℤ =
      if same (is_unsigned from) (is_unsigned to)
      then if not wider_to_min || not wider_to_max
        then if is_below x (min_of to) then low else up
        else exact
      else if is_unsigned from
      then if not wider_to_max then up else exact
      else if is_below x 0
      then (narrowing, pos 0)
      else if not wider_to_max
      then up
      else exact in
    if compiles from to then some value else none
