-- ===== src/Prelude/Decimal.antt =====
-- Decimal print of a number, as `%d` and `strconv` give it. A number has fewer digits than its
-- value, so the fuel is enough.
use Prim.Native.Nat.{ℕ, zero, suc, ◌+◌, ◌-◌, ◌*◌, ◌/◌, ◌%◌, ◌≤◌, ◌<◌}
use mathlib.Core.Path.{◌≡◌, refl, ap, sym, ◌∙◌}
use mathlib.Core.Logic.{inl, inr}
use mathlib.Core.List.{[], ◌∷◌}
use native.Mathlib.Omega.{arith}
use cursor_byok_lite.Prelude.Tests.{ltb, if◌then◌else◌, Bool-cases}
use cursor_byok_lite.Prelude.Lists.{length}
use cursor_byok_lite.Prelude.Int.{ℤ, pos, negsuc}
use cursor_byok_lite.Prelude.Text.{Text, codes}

digits : ℕ → ℕ → Text → Text
digits zero n out = out
digits (suc fuel) n out =
    let rest = digits fuel (n / 10) ((48 + n % 10) ∷ out) in
    if ltb n 10 then (48 + n) ∷ out else rest

unfoldable pub format_nat : ℕ → Text
unfolding digits
format_nat n = digits (suc n) n []

-- a signed number
unfoldable pub format_int : ℤ → Text
format_int (pos n) = format_nat n
format_int (negsuc n) = b'-' ∷ format_nat (suc n)

-- the number that a text of digits spells behind `n`
abbrev pub value : ℕ → Text → ℕ
value n [] = n
value n (c ∷ s) = value (n * 10 + (c - 48)) s

value-digits : (fuel n : ℕ) (out : Text) → n < fuel → value 0 (digits fuel n out) ≡ value n out
unfolding digits
value-digits zero n out h = absurd (omega arith)
value-digits (suc fuel) n out h = elim (Bool-cases (ltb n 10)) [
  | inl e ↦ rw e (ap (λ k. value k out) (let q : 0 * 10 + (48 + n - 48) ≡ n = omega arith in q))
  | inr e ↦ rw e (
      value-digits fuel (n / 10) ((48 + n % 10) ∷ out) (ground arith)
      ∙ ap (λ k. value k out) (let q : n / 10 * 10 + (48 + n % 10 - 48) ≡ n = omega arith in q))
]

pub value-format_nat : (n : ℕ) → value 0 (format_nat n) ≡ n
unfolding format_nat
value-format_nat n = value-digits (suc n) n [] (omega arith)

-- Different numbers print differently.
pub format_nat-injective : (m n : ℕ) → format_nat m ≡ format_nat n → m ≡ n
format_nat-injective m n e = sym (value-format_nat m) ∙ ap (value 0) e ∙ value-format_nat n

le-length-digits : (f n : ℕ) (out : Text) → length out ≤ length (digits f n out)
unfolding digits
le-length-digits zero n out = omega arith
le-length-digits (suc f) n out = ground (arith, le-length-digits f (n / 10) ((48 + n % 10) ∷ out))

length-digits-le :
    (f g m n : ℕ) (xs ys : Text)
    → m ≤ n
    → m < f
    → n < g
    → length (digits f m xs) + length ys ≤ length (digits g n ys) + length xs
unfolding digits
length-digits-le zero g m n xs ys le hm hn = absurd (omega arith)
length-digits-le (suc f) zero m n xs ys le hm hn = absurd (omega arith)
length-digits-le (suc f) (suc g) m n xs ys le hm hn = ground (
  arith,
  le-length-digits g (n / 10) ((48 + n % 10) ∷ ys),
  length-digits-le f g (m / 10) (n / 10) ((48 + m % 10) ∷ xs) ((48 + n % 10) ∷ ys),
)

-- A smaller number has no more digits.
pub length-format_nat-le : (m n : ℕ) → m ≤ n → length (format_nat m) ≤ length (format_nat n)
unfolding format_nat
length-format_nat-le m n h =
    omega (arith, length-digits-le (suc m) (suc n) m n [] [] h (omega arith) (omega arith))

format_nat_test : format_nat 1024 ≡ codes "1024"
unfolding format_nat
format_nat_test = refl
