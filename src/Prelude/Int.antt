-- ===== src/Prelude/Int.antt =====
-- Go's `int`, `int64` and `uint64`: signed integers over the native numbers, and wrap-around.
use Prim.Native.Nat.{ℕ, suc, ◌+◌, ◌-◌, ◌%◌, ◌^◌, ◌≤◌, ◌<◌}
use mathlib.Core.Path.{◌≡◌}
use mathlib.Core.Bool.{Bool, true}
use mathlib.Core.Logic.{◌↔◌}
use native.Mathlib.Omega.{arith}
use cursor_byok_lite.Prelude.Tests.{ltb, leb, ◌==◌, if◌then◌else◌}

-- `negsuc n` is -(n + 1).
pub data ℤ : Type 0 where
  pos : ℕ → ℤ
  negsuc : ℕ → ℤ

abbrev pub pos_part : ℤ → ℕ
pos_part (pos n) = n
pos_part (negsuc n) = 0

abbrev pub neg_part : ℤ → ℕ
neg_part (pos n) = 0
neg_part (negsuc n) = suc n

abbrev pub ltb_ℤ : ℤ → ℤ → Bool
ltb_ℤ a b = ltb (pos_part a + neg_part b) (pos_part b + neg_part a)

abbrev pub leb_ℤ : ℤ → ℤ → Bool
leb_ℤ a b = leb (pos_part a + neg_part b) (pos_part b + neg_part a)

abbrev pub eqb_ℤ : ℤ → ℤ → Bool
eqb_ℤ a b = (pos_part a + neg_part b) == (pos_part b + neg_part a)

infix 50 ◌≤ℤ◌ ◌<ℤ◌
abbrev pub ◌≤ℤ◌ : ℤ → ℤ → Type 0
a ≤ℤ b = pos_part a + neg_part b ≤ pos_part b + neg_part a

abbrev pub ◌<ℤ◌ : ℤ → ℤ → Type 0
a <ℤ b = pos_part a + neg_part b < pos_part b + neg_part a

pub eqb_ℤ_iff : (a b : ℤ) → (eqb_ℤ a b ≡ true) ↔ (a ≡ b)
eqb_ℤ_iff (pos a) (pos b) = ground arith
eqb_ℤ_iff (pos a) (negsuc b) = ground arith
eqb_ℤ_iff (negsuc a) (pos b) = ground arith
eqb_ℤ_iff (negsuc a) (negsuc b) = ground arith

abbrev pub u64_mod : ℕ
u64_mod = 2 ^ 64

abbrev pub i64_max : ℕ
i64_max = 2 ^ 63 - 1

-- The 64 bits of an `int64`, read as unsigned; and back.
abbrev pub bits64 : ℤ → ℕ
bits64 (pos n) = n % u64_mod
bits64 (negsuc n) = u64_mod - 1 - n % u64_mod

abbrev pub signed64 : ℕ → ℤ
signed64 n = if leb n i64_max then pos n else negsuc (u64_mod - 1 - n)

-- `a + b` and `a - b` on `int64`.
unfoldable pub add64 : ℤ → ℤ → ℤ
add64 a b = signed64 ((bits64 a + bits64 b) % u64_mod)

unfoldable pub sub64 : ℤ → ℤ → ℤ
sub64 a b = signed64 ((bits64 a + u64_mod - bits64 b) % u64_mod)

-- Without overflow the sum of two `int64` values is their sum.
pub add64-pos : (a b : ℕ) → a + b ≤ i64_max → add64 (pos a) (pos b) ≡ pos (a + b)
unfolding add64
add64-pos a b h = ground arith

pub sub64-pos : (a b : ℕ) → b ≤ a → a ≤ i64_max → sub64 (pos a) (pos b) ≡ pos (a - b)
unfolding sub64
sub64-pos a b h k = ground arith

pub sub64-neg : (a b : ℕ) → a < b → b ≤ i64_max → sub64 (pos a) (pos b) ≡ negsuc (b - a - 1)
unfolding sub64
sub64-neg a b h k = ground arith
