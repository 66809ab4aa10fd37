-- ===== src/Prelude/Tests.antt =====
-- Boolean tests on the native numbers, the conditional, and Python's `or` on optional numbers.
use Prim.Native.Nat.{ℕ, compare, Ordering}
use mathlib.Core.Path.{◌≡◌, refl, subst}
use mathlib.Core.Logic.{◌↔◌, ◌⊎◌, inl, inr}
use mathlib.Core.Bool.{Bool, true, false}
use mathlib.Core.Option.{Option, none, some}
use native.Mathlib.Omega.{arith}

abbrev pub ltb : ℕ → ℕ → Bool
ltb a b = elim (compare a b) [ Ordering.lt ↦ true | _ ↦ false ]

abbrev pub leb : ℕ → ℕ → Bool
leb a b = elim (compare a b) [ Ordering.gt ↦ false | _ ↦ true ]

infix 50 ◌==◌
abbrev pub ◌==◌ : ℕ → ℕ → Bool
a == b = elim (compare a b) [ Ordering.eq ↦ true | _ ↦ false ]

infix 1 if◌then◌else◌
abbrev pub if◌then◌else◌ {ℓ} : {A : Type ℓ} → Bool → A → A → A
if true then x else y = x
if false then x else y = y

pub ==_iff : (a b : ℕ) → ((a == b) ≡ true) ↔ (a ≡ b)
==_iff a b = ground arith

pub ==_refl : (a : ℕ) → (a == a) ≡ true
==_refl a = ground arith

-- A split on a computed value that keeps the equation.
pub Bool-cases : (b : Bool) → (b ≡ true) ⊎ (b ≡ false)
Bool-cases true = inl refl
Bool-cases false = inr refl

pub Option-cases {ℓ} : {A : Type ℓ} (o : Option A) → (o ≡ none) ⊎ ((a : A) × (o ≡ some a))
Option-cases none = inl refl
Option-cases (some a) = inr (a, refl)

abbrev pub is_some {ℓ} : {A : Type ℓ} → Option A → Bool
is_some none = false
is_some (some a) = true

-- `o == some n`, for an optional number.
abbrev pub opt_eq : Option ℕ → ℕ → Bool
opt_eq none n = false
opt_eq (some m) n = m == n

-- `o or n`: Python takes the second where the first is `None` or 0.
abbrev pub or_else : Option ℕ → ℕ → ℕ
or_else none n = n
or_else (some m) n = if m == 0 then n else m

pub if_then {ℓ} : {A : Type ℓ} → (b : Bool) (x y : A) → b ≡ true → (if b then x else y) ≡ x
if_then b x y h = rw h

pub if_else {ℓ} : {A : Type ℓ} → (b : Bool) (x y : A) → b ≡ false → (if b then x else y) ≡ y
if_else b x y h = rw h

-- The exception of a value that is not there goes on.
infixl 5 ◌>>=◌
abbrev pub ◌>>=◌ {ℓ κ} : {A : Type ℓ} {B : Type κ} → Option A → (A → Option B) → Option B
none >>= f = none
some a >>= f = f a

-- A predicate of the value, where there is one.
abbrev pub OnSome {ℓ κ} : {A : Type ℓ} → (A → Type κ) → Option A → Type κ
OnSome P none = Unit
OnSome P (some a) = P a

pub OnSome-some {ℓ κ} :
    {A : Type ℓ} (P : A → Type κ) (o : Option A) (a : A) → OnSome P o → o ≡ some a → P a
OnSome-some P none a h e = absurd (ground (arith, e))
OnSome-some P (some b) a h e = let same : b ≡ a = cc in subst P same h
