-- ===== src/Tests/Instances.antt =====
-- Concrete functions for the parameters `Floats` and `Numpy`: a `float` that is a whole number, with
-- decimal numerals, and arrays that are all zero.
use chess_pyspec.Base.{
  ℕ, zero, suc, ◌+◌, ◌-◌, ◌*◌, ◌/◌, ◌%◌, ◌≤◌, ◌<◌, ◌≡◌, refl, true, Option, none, some, List, [],
  ◌∷◌, ◌++◌, arith, ltb, ◌==◌, ==_refl, if◌then◌else◌, Text, Bytes, codes, length, replicate,
  length-replicate, length-append, All,
}
use mathlib.Core.Option
use chess_pyspec.Base.Int.{ℤ, pos, negsuc}
use chess_pyspec.Bytes.Utf8.{IsAscii}
use chess_pyspec.Bytes.Words.{little, of_bytes}
use chess_pyspec.Platform.{Number, int, float, Floats, Numpy}
use chess_pyspec.Protocol.TypeCode.{Dtype, Kind}

unfoldable pub parse_digits : ℕ → Text → Option ℕ
parse_digits n [] = some n
parse_digits n (c ∷ cs) =
    let more = parse_digits (n * 10 + (c - b'0')) cs in
    if ltb c b'0' then none else if ltb b'9' c then none else more

unfoldable pub parse : Text → Option ℤ
unfolding parse_digits
parse [] = none
parse (c ∷ cs) = Option.map pos (parse_digits 0 (c ∷ cs))

-- The last digits of a number, as many as the fuel says.
unfoldable pub digits : ℕ → ℕ → Text
digits zero n = (b'0' + n % 10) ∷ []
digits (suc f) n =
    let more = digits f (n / 10) in
    if ltb n 10 then (b'0' + n) ∷ [] else more ++ ((b'0' + n % 10) ∷ [])

All-append : (P : ℕ → Type 0) (s t : Text) → All P s → All P t → All P (s ++ t)
All-append P [] t h k = k
All-append P (c ∷ s) t h k = (h.0, All-append P s t h.1 k)

digits-IsAscii : (f n : ℕ) → All IsAscii (digits f n)
unfolding digits
digits-IsAscii zero n = (omega arith, tt)
digits-IsAscii (suc f) n = ground (
  arith,
  All-append IsAscii (digits f (n / 10)) ((b'0' + n % 10) ∷ []) (digits-IsAscii f (n / 10))
      ((omega arith, tt)),
)

digits-IsPositive : (f n : ℕ) → 0 < length (digits f n)
unfolding digits
digits-IsPositive zero n = omega arith
digits-IsPositive (suc f) n =
    ground (arith, length-append (digits f (n / 10)) ((b'0' + n % 10) ∷ []))

unfoldable pub print : Number ℤ → Text
unfolding digits
print (int (pos n)) = digits 20 n
print (int (negsuc n)) = b'-' ∷ digits 20 (n + 1)
print (float (pos n)) = digits 20 n
print (float (negsuc n)) = b'-' ∷ digits 20 (n + 1)

pub print-IsAscii : (v : Number ℤ) → All IsAscii (print v)
unfolding print
print-IsAscii (int (pos n)) = digits-IsAscii 20 n
print-IsAscii (int (negsuc n)) = (omega arith, digits-IsAscii 20 (n + 1))
print-IsAscii (float (pos n)) = digits-IsAscii 20 n
print-IsAscii (float (negsuc n)) = (omega arith, digits-IsAscii 20 (n + 1))

pub print-IsPositive : (v : Number ℤ) → 0 < length (print v)
unfolding print
print-IsPositive (int (pos n)) = digits-IsPositive 20 n
print-IsPositive (int (negsuc n)) = omega arith
print-IsPositive (float (pos n)) = digits-IsPositive 20 n
print-IsPositive (float (negsuc n)) = omega arith

pub parse-none : parse (codes "None") ≡ none
unfolding parse
parse-none = refl

pub parse-empty : parse [] ≡ none
unfolding parse
parse-empty = refl

abbrev pub floats : Floats
floats = record {
  F = ℤ;
  parse = parse;
  is_integer = λ v. true;
  to_int = λ v. v;
  format_15g = print;
  format_5g = print;
  to_str = print;
  format_15g-IsAscii = print-IsAscii;
  format_15g-IsPositive = print-IsPositive;
  parse-none = parse-none;
  parse-empty = parse-empty;
  unpack_double = λ e b. if length b == 8 then some (pos (of_bytes e b)) else none;
}

-- `buffer d n` is flat, of n bytes.
pub data Zeros : Type 0 where
  zeros : Dtype → List ℕ → Zeros
  buffer : Dtype → ℕ → Zeros

abbrev pub items : List ℕ → ℕ
items [] = 1
items (n ∷ []) = n
items (r ∷ c ∷ []) = r * c
items (r ∷ c ∷ d ∷ ns) = r * items (c ∷ d ∷ ns)

abbrev pub dtype_of : Zeros → Dtype
dtype_of (zeros d ns) = d
dtype_of (buffer d n) = d

abbrev pub shape_of : Zeros → List ℕ
shape_of (zeros d ns) = ns
shape_of (buffer d n) = n / d.itemsize ∷ []

abbrev pub grow : List ℕ → List ℕ
grow [] = 1 ∷ 1 ∷ []
grow (n ∷ []) = 1 ∷ n ∷ []
grow ns = ns

abbrev pub two_dimensional : Zeros → Zeros
two_dimensional (zeros d ns) = zeros d (grow ns)
two_dimensional (buffer d n) = zeros d (1 ∷ n / d.itemsize ∷ [])

abbrev pub cast : Zeros → Dtype → Zeros
cast (zeros d ns) e = zeros e ns
cast (buffer d n) e = zeros e (n / d.itemsize ∷ [])

abbrev pub bytes_of : Zeros → Bytes
bytes_of (zeros d ns) = replicate (items ns * d.itemsize) 0
bytes_of (buffer d n) = replicate n 0

abbrev pub reshaped : Zeros → ℕ → ℕ → Option Zeros
reshaped (zeros d ns) r c = if items ns == r * c then some (zeros d (r ∷ c ∷ [])) else none
reshaped (buffer d n) r c = if n == r * c * d.itemsize then some (zeros d (r ∷ c ∷ [])) else none

pub shape-two_dimensional :
    (a : Zeros)
    → length (shape_of a) ≤ 2
    → (r : ℕ) × (c : ℕ) × (shape_of (two_dimensional a) ≡ r ∷ c ∷ [])
shape-two_dimensional (zeros d []) h = (1, 1, refl)
shape-two_dimensional (zeros d (n ∷ [])) h = (1, n, refl)
shape-two_dimensional (zeros d (r ∷ c ∷ [])) h = (r, c, refl)
shape-two_dimensional (zeros d (r ∷ c ∷ k ∷ ns)) h = absurd (omega arith)
shape-two_dimensional (buffer d n) h = (1, n / d.itemsize, refl)

pub dtype-two_dimensional : (a : Zeros) → dtype_of (two_dimensional a) ≡ dtype_of a
dtype-two_dimensional (zeros d ns) = refl
dtype-two_dimensional (buffer d n) = refl

pub dtype-cast : (a : Zeros) (d : Dtype) → dtype_of (cast a d) ≡ d
dtype-cast (zeros d ns) e = refl
dtype-cast (buffer d n) e = refl

pub shape-cast : (a : Zeros) (d : Dtype) → shape_of (cast a d) ≡ shape_of a
shape-cast (zeros d ns) e = refl
shape-cast (buffer d n) e = refl

pub length-bytes_of :
    (a : Zeros) (r c : ℕ)
    → shape_of a ≡ r ∷ c ∷ []
    → length (bytes_of a) ≡ r * c * (dtype_of a).itemsize
length-bytes_of (zeros d ns) r c h = rw h (length-replicate (r * c * d.itemsize) 0)
length-bytes_of (buffer d n) r c h = absurd (ground arith)

pub reshape-buffer :
    (a : Zeros) (r c : ℕ)
    → shape_of a ≡ r ∷ c ∷ []
    → reshaped (buffer (dtype_of a) (length (bytes_of a))) r c ≡ some a
reshape-buffer (zeros d ns) r c h =
    rw (h, length-replicate {A = ℕ} (r * c * d.itemsize) 0, ==_refl (r * c * d.itemsize)) refl
reshape-buffer (buffer d n) r c h = absurd (ground arith)

abbrev pub arrays : Numpy
arrays = record {
  Array = Zeros;
  dtype = dtype_of;
  shape = shape_of;
  atleast_2d = two_dimensional;
  astype = cast;
  tobytes = bytes_of;
  frombuffer = λ d b. buffer d (length b);
  reshape = reshaped;
  flatten = λ a. zeros (dtype_of a) (items (shape_of a) ∷ []);
  strings = λ a. replicate (items (shape_of a)) [];
  of_strings =
      λ ts. zeros (record { kind = Kind.unicode; itemsize = 4; order = little }) (length ts ∷ []);
  shape-atleast_2d = shape-two_dimensional;
  dtype-atleast_2d = dtype-two_dimensional;
  dtype-astype = dtype-cast;
  shape-astype = shape-cast;
  length-tobytes = length-bytes_of;
  reshape-frombuffer = reshape-buffer;
}
