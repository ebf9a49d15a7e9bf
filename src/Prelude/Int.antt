-- ===== src/Prelude/Int.antt =====
-- Python's int over the native numbers, as far as the gateway's arithmetic needs it.
use Prim.Native.Nat.{ℕ, zero, suc, ◌+◌, ◌-◌}
use mathlib.Core.Path.{◌≡◌, refl}
use mathlib.Core.Bool.{Bool, true, false}
use native.Mathlib.Omega.{arith}
use neuro_voice.Prelude.Tests.{ltb, leb, if◌then◌else◌}

pub data ℤ : Type 0 where
  pos negsuc : ℕ → ℤ

-- `m - n`
abbrev pub sub_nat : ℕ → ℕ → ℤ
sub_nat m n = if leb n m then pos (m - n) else negsuc (n - m - 1)

infixl 65 ◌+ℤ◌
abbrev pub ◌+ℤ◌ : ℤ → ℤ → ℤ
pos m +ℤ pos n = pos (m + n)
pos m +ℤ negsuc n = sub_nat m (suc n)
negsuc m +ℤ pos n = sub_nat n (suc m)
negsuc m +ℤ negsuc n = negsuc (suc (m + n))

abbrev pub neg_ℤ : ℤ → ℤ
neg_ℤ (pos zero) = pos 0
neg_ℤ (pos (suc n)) = negsuc n
neg_ℤ (negsuc n) = pos (suc n)

infixl 65 ◌-ℤ◌
abbrev pub ◌-ℤ◌ : ℤ → ℤ → ℤ
a -ℤ b = a +ℤ neg_ℤ b

abbrev pub lt_ℤ : ℤ → ℤ → Bool
lt_ℤ (pos m) (pos n) = ltb m n
lt_ℤ (pos m) (negsuc n) = false
lt_ℤ (negsuc m) (pos n) = true
lt_ℤ (negsuc m) (negsuc n) = ltb n m

abbrev pub le_ℤ : ℤ → ℤ → Bool
le_ℤ (pos m) (pos n) = leb m n
le_ℤ (pos m) (negsuc n) = false
le_ℤ (negsuc m) (pos n) = true
le_ℤ (negsuc m) (negsuc n) = leb n m

pub +ℤ_comm : (a b : ℤ) → a +ℤ b ≡ b +ℤ a
+ℤ_comm (pos m) (pos n) = ground arith
+ℤ_comm (pos m) (negsuc n) = refl
+ℤ_comm (negsuc m) (pos n) = refl
+ℤ_comm (negsuc m) (negsuc n) = ground arith

pub +ℤ_assoc : (a b c : ℤ) → (a +ℤ b) +ℤ c ≡ a +ℤ (b +ℤ c)
+ℤ_assoc (pos m) (pos n) (pos k) = ground arith
+ℤ_assoc (pos m) (pos n) (negsuc k) = ground arith
+ℤ_assoc (pos m) (negsuc n) (pos k) = ground arith
+ℤ_assoc (pos m) (negsuc n) (negsuc k) = ground arith
+ℤ_assoc (negsuc m) (pos n) (pos k) = ground arith
+ℤ_assoc (negsuc m) (pos n) (negsuc k) = ground arith
+ℤ_assoc (negsuc m) (negsuc n) (pos k) = ground arith
+ℤ_assoc (negsuc m) (negsuc n) (negsuc k) = ground arith

pub zero_+ℤ : (a : ℤ) → pos 0 +ℤ a ≡ a
zero_+ℤ (pos n) = ground arith
zero_+ℤ (negsuc n) = ground arith
