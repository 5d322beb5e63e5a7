-- ===== src/Bytes/Words.antt =====
-- Integers as bytes in the two byte orders, as `struct` and `ctypes` write and read them.
use mathlib.Core.List.{reverse-append, reverse-reverse}
use native.Mathlib.Nat.{pow-suc}
use chess_pyspec.Base.{
  ℕ, zero, suc, ◌+◌, ◌*◌, ◌/◌, ◌%◌, ◌^◌, ◌<◌, ◌≡◌, refl, ap, ◌∙◌, [], ◌∷◌, reverse, arith, Bytes,
  length, length-append,
}

-- "<" and ">"
pub data Endian : Type 0 where
  little big : Endian

abbrev pub IsByte : ℕ → Type 0
IsByte b = b < 256

-- The `n` lowest bytes of a number, the lowest first.
unfoldable pub le_bytes : ℕ → ℕ → Bytes
le_bytes zero w = []
le_bytes (suc n) w = (w % 256) ∷ le_bytes n (w / 256)

unfoldable pub of_le : Bytes → ℕ
of_le [] = 0
of_le (b ∷ bs) = b + 256 * of_le bs

unfoldable pub to_bytes : Endian → ℕ → ℕ → Bytes
unfolding le_bytes
to_bytes little n w = le_bytes n w
to_bytes big n w = reverse (le_bytes n w)

unfoldable pub of_bytes : Endian → Bytes → ℕ
unfolding of_le
of_bytes little bs = of_le bs
of_bytes big bs = of_le (reverse bs)

length-le_bytes : (n w : ℕ) → length (le_bytes n w) ≡ n
unfolding le_bytes
length-le_bytes zero w = refl
length-le_bytes (suc n) w = ap suc (length-le_bytes n (w / 256))

of_le-le_bytes : (n w : ℕ) → w < 256 ^ n → of_le (le_bytes n w) ≡ w
unfolding le_bytes of_le
of_le-le_bytes zero w h = omega arith
of_le-le_bytes (suc n) w h =
    omega (arith, of_le-le_bytes n (w / 256) (omega (arith, pow-suc 256 n)))

pub length-reverse : (xs : Bytes) → length (reverse xs) ≡ length xs
length-reverse [] = refl
length-reverse (x ∷ xs) =
    ap length (reverse-append (x ∷ []) xs)
    ∙ omega (arith, length-append (reverse xs) (x ∷ []), length-reverse xs)

pub length-to_bytes : (e : Endian) (n w : ℕ) → length (to_bytes e n w) ≡ n
unfolding to_bytes
length-to_bytes little n w = length-le_bytes n w
length-to_bytes big n w = length-reverse (le_bytes n w) ∙ length-le_bytes n w

pub of_bytes-to_bytes : (e : Endian) (n w : ℕ) → w < 256 ^ n → of_bytes e (to_bytes e n w) ≡ w
unfolding to_bytes of_bytes
of_bytes-to_bytes little n w h = of_le-le_bytes n w h
of_bytes-to_bytes big n w h = rw reverse-reverse (of_le-le_bytes n w h)
