-- ===== src/Prelude/Tests.antt =====
-- Boolean tests: the conditional, orders of numbers, and equality as an instance.
use Prim.Native.Nat.{ℕ, compare, Ordering}
use Prim.Native.String.{String}
use mathlib.Core.Path.{◌≡◌, refl, ap}
use mathlib.Core.Logic.{◌↔◌, ◌⊎◌, inl, inr}
use mathlib.Core.Bool.{Bool, true, false}
use mathlib.Core.Option.{Option, none, some}
use native.Mathlib.Omega.{arith}
use text.Mathlib.Text.{◌==◌ as str_eq}
use text.Mathlib.TextEquality.{eq_iff}

abbrev pub ltb : ℕ → ℕ → Bool
ltb a b = elim (compare a b) [ Ordering.lt ↦ true | _ ↦ false ]

abbrev pub leb : ℕ → ℕ → Bool
leb a b = elim (compare a b) [ Ordering.gt ↦ false | _ ↦ true ]

abbrev pub nat_beq : ℕ → ℕ → Bool
nat_beq a b = elim (compare a b) [ Ordering.eq ↦ true | _ ↦ false ]

infix 1 if◌then◌else◌
abbrev pub if◌then◌else◌ {ℓ} : {A : Type ℓ} → Bool → A → A → A
if true then x else y = x
if false then x else y = y

pub nat_beq_iff : (a b : ℕ) → (nat_beq a b ≡ true) ↔ (a ≡ b)
nat_beq_iff a b = ground arith

abbrev pub option_beq {ℓ} : {A : Type ℓ} → (A → A → Bool) → Option A → Option A → Bool
option_beq f none none = true
option_beq f none (some b) = false
option_beq f (some a) none = false
option_beq f (some a) (some b) = f a b

-- A type whose items can be compared: the comparison, and that it decides equality.
pub record Comparable {ℓ} (T : Type ℓ) : Type ℓ where
  pub equal : T → T → Bool
  pub decides : (x y : T) → (equal x y ≡ true) ↔ (x ≡ y)

pub option_decides {ℓ} :
    {T : Type ℓ} (c : Comparable T) (x y : Option T) → (option_beq c.equal x y ≡ true) ↔ (x ≡ y)
option_decides c none none = (λ _. refl, λ _. refl)
option_decides c none (some y) = (λ h. cc, λ h. cc)
option_decides c (some x) none = (λ h. cc, λ h. cc)
option_decides c (some x) (some y) =
    (λ h. ap some ((c.decides x y).0 h), λ h. (c.decides x y).1 (cc))

instance abbrev pub string_eq : Comparable String
string_eq = record { equal = str_eq; decides = eq_iff }

instance abbrev pub option_eq {ℓ} : {T : Type ℓ} ⦃c : Comparable T⦄ → Comparable (Option T)
option_eq ⦃c⦄ = record { equal = option_beq c.equal; decides = option_decides c }

instance abbrev pub nat_eq : Comparable ℕ
nat_eq = record { equal = nat_beq; decides = nat_beq_iff }

abbrev pub is_some {ℓ} : {A : Type ℓ} → Option A → Bool
is_some none = false
is_some (some a) = true

-- To split on a computed value and keep the equation.
pub Bool-cases : (b : Bool) → (b ≡ true) ⊎ (b ≡ false)
Bool-cases true = inl refl
Bool-cases false = inr refl

pub Option-cases {ℓ} : {A : Type ℓ} (o : Option A) → (o ≡ none) ⊎ ((a : A) × (o ≡ some a))
Option-cases none = inl refl
Option-cases (some a) = inr (a, refl)

-- x == y, of the items of any comparable type
infix 50 ◌==◌
abbrev pub ◌==◌ {ℓ} : {T : Type ℓ} ⦃c : Comparable T⦄ → T → T → Bool
◌==◌ ⦃c⦄ x y = c.equal x y

-- The same at the two types that the tables use, as tactics are given it.
pub option_text_iff : (a b : Option String) → ((a == b) ≡ true) ↔ (a ≡ b)
option_text_iff a b = option_decides string_eq a b

pub option_nat_iff : (a b : Option ℕ) → ((a == b) ≡ true) ↔ (a ≡ b)
option_nat_iff a b = option_decides nat_eq a b

pub text_same : (x : String) → (x == x) ≡ true
text_same x = (eq_iff x x).1 refl

pub text_sym : (x y : String) → (x == y) ≡ (y == x)
text_sym x y = ground (arith, eq_iff x y, eq_iff y x)

-- what holds on both branches of a test
pub if-holds {ℓ κ} :
    {A : Type ℓ} (P : A → Type κ) (b : Bool) (x y : A)
    → (b ≡ true → P x)
    → (b ≡ false → P y)
    → P (if b then x else y)
if-holds P true x y hx hy = hx refl
if-holds P false x y hx hy = hy refl
