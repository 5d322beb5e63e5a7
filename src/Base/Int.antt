-- ===== src/Base/Int.antt =====
-- Python integers over the native numbers, under the library's names.
use Prim.Native.Nat.{ℕ, ◌-◌, ◌%◌, ◌^◌, ◌<◌}
use mathlib.Core.Path.{◌≡◌, refl}
use mathlib.Core.Bool.{Bool, true, false}
use native.Mathlib.Omega.{arith}
use chess_pyspec.Base.Tests.{==_refl, ltb, leb, ◌==◌, if◌then◌else◌}

-- `negsuc n` is -(n + 1).
pub data ℤ : Type 0 where
  pos : ℕ → ℤ
  negsuc : ℕ → ℤ

abbrev pub eq_ℤ : ℤ → ℤ → Bool
eq_ℤ (pos a) (pos b) = a == b
eq_ℤ (negsuc a) (negsuc b) = a == b
eq_ℤ _ _ = false

-- `n <= z` for a natural number n
abbrev pub nat_le_ℤ : ℕ → ℤ → Bool
nat_le_ℤ n (pos z) = leb n z
nat_le_ℤ n (negsuc z) = false

-- The word that a 32-bit C field stores for an integer: the value modulo 2 ^ 32.
abbrev pub word32 : ℤ → ℕ
word32 (pos n) = n % 2 ^ 32
word32 (negsuc n) = 2 ^ 32 - 1 - n % 2 ^ 32

-- The integer that a stored word stands for in a signed field.
abbrev pub signed32 : ℕ → ℤ
signed32 w = if ltb w (2 ^ 31) then pos w else negsuc (2 ^ 32 - 1 - w)

abbrev pub IsUint32 : ℤ → Type 0
IsUint32 (pos n) = n < 2 ^ 32
IsUint32 (negsuc n) = ⊥

abbrev pub IsInt32 : ℤ → Type 0
IsInt32 (pos n) = n < 2 ^ 31
IsInt32 (negsuc n) = n < 2 ^ 31

pub word32-lt : (z : ℤ) → word32 z < 2 ^ 32
word32-lt (pos n) = omega arith
word32-lt (negsuc n) = omega arith

pub signed32-word32 : (z : ℤ) → IsInt32 z → signed32 (word32 z) ≡ z
signed32-word32 (pos n) h = ground arith
signed32-word32 (negsuc n) h = ground arith

pub unsigned32-word32 : (z : ℤ) → IsUint32 z → pos (word32 z) ≡ z
unsigned32-word32 (pos n) h = ground arith
unsigned32-word32 (negsuc n) h = elim h [ ]

pub signed32-IsInt32 : (w : ℕ) → w < 2 ^ 32 → IsInt32 (signed32 w)
signed32-IsInt32 w h = ground arith

pub eq_ℤ-refl : (z : ℤ) → eq_ℤ z z ≡ true
eq_ℤ-refl (pos n) = ==_refl n
eq_ℤ-refl (negsuc n) = ==_refl n

pub eq_ℤ-eq : (y z : ℤ) → eq_ℤ y z ≡ true → y ≡ z
eq_ℤ-eq (pos m) (pos n) h = ground arith
eq_ℤ-eq (negsuc m) (negsuc n) h = ground arith
eq_ℤ-eq (pos m) (negsuc n) h = absurd (ground arith)
eq_ℤ-eq (negsuc m) (pos n) h = absurd (ground arith)

pub eq_ℤ-sym : (y z : ℤ) → eq_ℤ y z ≡ eq_ℤ z y
eq_ℤ-sym (pos m) (pos n) = ground arith
eq_ℤ-sym (negsuc m) (negsuc n) = ground arith
eq_ℤ-sym (pos m) (negsuc n) = refl
eq_ℤ-sym (negsuc m) (pos n) = refl
