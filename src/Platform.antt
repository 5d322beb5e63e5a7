-- ===== src/Platform.antt =====
-- What the program takes from Python's `float` and from numpy, as parameters of the model.
use chess_pyspec.Base.{
  ℕ, ◌*◌, ◌<◌, ◌≤◌, ◌≡◌, Bool, Option, none, some, List, [], ◌∷◌, Text, Bytes, codes, length, All,
}
use chess_pyspec.Base.Int.{ℤ}
use chess_pyspec.Bytes.Utf8.{IsAscii}
use chess_pyspec.Bytes.Words.{Endian}
use chess_pyspec.Protocol.TypeCode.{Dtype}

-- A Python `int` or `float`.
pub data Number (F : Type 0) : Type 0 where
  int : ℤ → Number F
  float : F → Number F

-- The type `float`: reading a text, and the texts of numbers. A `float` is never computed with.
pub record Floats : Type 1 where
  pub F : Type 0
  -- `float(s)`, none where it raises `ValueError`
  pub parse : Text → Option F
  pub is_integer : F → Bool
  -- `int(v)`
  pub to_int : F → ℤ
  -- `f"{v:.15g}"`, `f"{v:.5g}"` and `str(v)`
  pub format_15g : Number F → Text
  pub format_5g : Number F → Text
  pub to_str : Number F → Text
  pub format_15g-IsAscii : (v : Number F) → All IsAscii (format_15g v)
  pub format_15g-IsPositive : (v : Number F) → 0 < length (format_15g v)
  -- "None" is no numeral, and neither is the empty text
  pub parse-none : parse (codes "None") ≡ none
  pub parse-empty : parse [] ≡ none
  -- `struct.unpack("<d", b)[0]`, none where the length is not 8
  pub unpack_double : Endian → Bytes → Option F

-- The numpy arrays, and the operations on them that the program uses.
pub record Numpy : Type 1 where
  pub Array : Type 0
  pub dtype : Array → Dtype
  pub shape : Array → List ℕ
  pub atleast_2d : Array → Array
  pub astype : Array → Dtype → Array
  pub tobytes : Array → Bytes
  pub frombuffer : Dtype → Bytes → Array
  -- none where the sizes differ
  pub reshape : Array → ℕ → ℕ → Option Array
  pub flatten : Array → Array
  -- `[str(s) for s in a.flat]`, and `np.array(strings, dtype="|U...")`
  pub strings : Array → List Text
  pub of_strings : List Text → Array
  pub shape-atleast_2d :
      (a : Array) → length (shape a) ≤ 2 → (r : ℕ) × (c : ℕ) × (shape (atleast_2d a) ≡ r ∷ c ∷ [])
  pub dtype-atleast_2d : (a : Array) → dtype (atleast_2d a) ≡ dtype a
  pub dtype-astype : (a : Array) (d : Dtype) → dtype (astype a d) ≡ d
  pub shape-astype : (a : Array) (d : Dtype) → shape (astype a d) ≡ shape a
  pub length-tobytes :
      (a : Array) (r c : ℕ) → shape a ≡ r ∷ c ∷ [] → length (tobytes a) ≡ r * c * (dtype a).itemsize
  pub reshape-frombuffer :
      (a : Array) (r c : ℕ)
      → shape a ≡ r ∷ c ∷ []
      → reshape (frombuffer (dtype a) (tobytes a)) r c ≡ some a
