-- ===== src/Prelude/Tests.antt =====
-- Boolean tests on the native numbers, the conditional, and case lemmas.
use Prim.Native.Nat.{ℕ, ◌<◌, compare, Ordering}
use mathlib.Core.Path.{◌≡◌, refl}
use mathlib.Core.Logic.{◌↔◌, ◌⊎◌, inl, inr}
use mathlib.Core.Bool.{Bool, true, false, ◌||◌}
use mathlib.Core.Option.{Option, none, some}
use native.Mathlib.Omega.{arith}

abbrev pub ltb : ℕ → ℕ → Bool
ltb a b = elim (compare a b) [ Ordering.lt ↦ true | _ ↦ false ]

abbrev pub leb : ℕ → ℕ → Bool
leb a b = elim (compare a b) [ Ordering.gt ↦ false | _ ↦ true ]

infix 50 ◌==◌
abbrev pub ◌==◌ : ℕ → ℕ → Bool
a == b = elim (compare a b) [ Ordering.eq ↦ true | _ ↦ false ]

infix 1 if◌then◌else◌
abbrev pub if◌then◌else◌ {ℓ} : {A : Type ℓ} → Bool → A → A → A
if true then x else y = x
if false then x else y = y

pub ltb→lt : (a b : ℕ) → ltb a b ≡ true → a < b
ltb→lt a b h = ground arith

pub ==_iff : (a b : ℕ) → ((a == b) ≡ true) ↔ (a ≡ b)
==_iff a b = ground arith

-- To split on a computed value and keep the equation.
pub Bool-cases : (b : Bool) → (b ≡ true) ⊎ (b ≡ false)
Bool-cases true = inl refl
Bool-cases false = inr refl

pub or_right : (a b : Bool) → b ≡ true → a || b ≡ true
or_right true b h = refl
or_right false b h = h

pub Option-cases {ℓ} : {A : Type ℓ} (o : Option A) → (o ≡ none) ⊎ ((a : A) × (o ≡ some a))
Option-cases none = inl refl
Option-cases (some a) = inr (a, refl)

abbrev pub is_some {ℓ} : {A : Type ℓ} → Option A → Bool
is_some none = false
is_some (some a) = true

-- A branch on an `Option`, as a function of it.
abbrev pub on_found {ℓ κ} : {A : Type ℓ} {B : Type κ} → Option A → B → (A → B) → B
on_found none missing f = missing
on_found (some a) missing f = f a

pub some-eq {ℓ} : {A : Type ℓ} {a b : A} → some a ≡ some b → a ≡ b
some-eq p = cc

pub pair-eq {ℓ κ} :
    {A : Type ℓ} {B : Type κ} {a b : A} {c d : B} → a ≡ b → c ≡ d → ◌≡◌ {A = A × B} (a, c) (b, d)
pair-eq p q = cc

pub triple-eq {ℓ κ μ} :
    {A : Type ℓ} {B : Type κ} {C : Type μ} {a b : A} {c d : B} {x y : C}
    → a ≡ b
    → c ≡ d
    → x ≡ y
    → ◌≡◌ {A = A × B × C} (a, c, x) (b, d, y)
triple-eq p q r = cc

-- A property of a choice between two values, and between four.
pub either {ℓ κ} :
    {A : Type ℓ} (P : A → Type κ) (b : Bool) (x y : A) → P x → P y → P (if b then x else y)
either P true x y px py = px
either P false x y px py = py

pub chosen {ℓ κ} :
    {A : Type ℓ} (P : A → Type κ) (a b c : Bool) (w x y z : A)
    → (a ≡ true → P w)
    → (a ≡ false → P x)
    → P y
    → P z
    → P (if a then w else if b then x else if c then y else z)
chosen P true b c w x y z fw fx py pz = fw refl
chosen P false true c w x y z fw fx py pz = fx refl
chosen P false false true w x y z fw fx py pz = py
chosen P false false false w x y z fw fx py pz = pz
