-- ===== src/Prelude/Tests.antt =====
-- Boolean tests on native numbers and on names, the conditional, and case lemmas.
use Prim.Native.Nat.{ℕ, ◌+◌, ◌-◌, ◌%◌, ◌^◌, compare, Ordering}
use mathlib.Core.Path.{◌≡◌, refl}
use mathlib.Core.Logic.{◌↔◌, ◌⊎◌, inl, inr}
use mathlib.Core.Bool.{Bool, true, false, ◌&&◌}
use mathlib.Core.List.{List, [], ◌∷◌}
use mathlib.Core.Option.{Option, none, some}
use native.Mathlib.Omega.{arith}

abbrev pub ltb : ℕ → ℕ → Bool
ltb a b = elim (compare a b) [ Ordering.lt ↦ true | _ ↦ false ]

abbrev pub leb : ℕ → ℕ → Bool
leb a b = elim (compare a b) [ Ordering.gt ↦ false | _ ↦ true ]

abbrev pub nat_beq : ℕ → ℕ → Bool
nat_beq a b = elim (compare a b) [ Ordering.eq ↦ true | _ ↦ false ]

infix 1 if◌then◌else◌
abbrev pub if◌then◌else◌ {ℓ} : {A : Type ℓ} → Bool → A → A → A
if true then x else y = x
if false then x else y = y

pub nat_beq_iff : (a b : ℕ) → (nat_beq a b ≡ true) ↔ (a ≡ b)
nat_beq_iff a b = ground arith

-- A key type's `operator==`, which decides equality.
pub record Eq {ℓ} (Key : Type ℓ) : Type ℓ where
  pub equals : Key → Key → Bool
  pub decides : (k k' : Key) → (equals k k' ≡ true) ↔ (k ≡ k')

instance abbrev pub nat_eq : Eq ℕ
nat_eq = record { equals = nat_beq; decides = nat_beq_iff }

infix 50 ◌==◌
abbrev pub ◌==◌ {ℓ} : {Key : Type ℓ} ⦃e : Eq Key⦄ → Key → Key → Bool
◌==◌ ⦃e⦄ = e.equals

-- A C string: its characters before the terminating zero.
abbrev pub Name : Type 0
Name = List ℕ

unfoldable pub name_beq : Name → Name → Bool
name_beq [] [] = true
name_beq [] (_ ∷ _) = false
name_beq (_ ∷ _) [] = false
name_beq (a ∷ s) (b ∷ t) = nat_beq a b && name_beq s t

pub name_beq_iff : (s t : Name) → (name_beq s t ≡ true) ↔ (s ≡ t)
unfolding name_beq
name_beq_iff [] [] = ground arith
name_beq_iff [] (b ∷ t) = ground arith
name_beq_iff (a ∷ s) [] = ground arith
name_beq_iff (a ∷ s) (b ∷ t) = ground (arith, name_beq_iff s t)

instance abbrev pub name_eq : Eq Name
name_eq = record { equals = name_beq; decides = name_beq_iff }

pub Bool-cases : (b : Bool) → (b ≡ true) ⊎ (b ≡ false)
Bool-cases true = inl refl
Bool-cases false = inr refl

pub Option-cases {ℓ} : {A : Type ℓ} (o : Option A) → (o ≡ none) ⊎ ((a : A) × (o ≡ some a))
Option-cases none = inl refl
Option-cases (some a) = inr (a, refl)

-- `--x` and `++x` on `uint32_t` and `uint64_t`, with their wrap-around.
abbrev pub dec_u32 : ℕ → ℕ
dec_u32 n = if nat_beq n 0 then 2 ^ 32 - 1 else n - 1

abbrev pub dec_u64 : ℕ → ℕ
dec_u64 n = if nat_beq n 0 then 2 ^ 64 - 1 else n - 1

abbrev pub inc_u32 : ℕ → ℕ
inc_u32 n = (n + 1) % 2 ^ 32

abbrev pub inc_u64 : ℕ → ℕ
inc_u64 n = (n + 1) % 2 ^ 64

-- How a call that changes an object ends: it returns, or throws with the object as it then is.
pub data Exit {ℓ} (S : Type ℓ) : Type ℓ where
  returned : S → Exit S
  thrown : S → Exit S

-- The object after the call, however it ended.
abbrev pub after {ℓ} : {S : Type ℓ} → Exit S → S
after (returned s) = s
after (thrown s) = s

-- The next statement runs only after a normal return.
abbrev pub and_then {ℓ} : {S : Type ℓ} → Exit S → (S → Exit S) → Exit S
and_then (returned s) f = f s
and_then (thrown s) f = thrown s

-- What two statements keep, their sequence keeps.
pub after-and_then {ℓ κ} :
    {S : Type ℓ} (P : S → Type κ) (x : Exit S) (f : S → Exit S)
    → P (after x)
    → ((s : S) → P s → P (after (f s)))
    → P (after (and_then x f))
after-and_then P (returned s) f p step = step s p
after-and_then P (thrown s) f p step = p
