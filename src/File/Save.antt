-- ===== src/File/Save.antt =====
-- `getData` and `save` of `Scan` in pyspec/file/spec.py.
pub mod Ink
pub mod Words
pub mod Pieces
pub mod Scanned
pub mod Lines
pub mod RoundTrip
pub mod Indexed
pub mod Opened
use chess_pyspec.Base.{
  ℕ, ◌≡◌, Option, none, some, List, [], ◌∷◌, ◌++◌, map, length, if◌then◌else◌, Text, All, codes,
  is_empty,
}
use chess_pyspec.Base.Texts.{join_with}
use chess_pyspec.Base.Int.{ℤ, pos}
use chess_pyspec.Base.Result.{
  Result, ok, err, type_error, name_error, attribute_error, or_raise, ◌>>=◌,
}
use chess_pyspec.File.Block.Getters.{ScanBlock, parsed}

-- The arrays of two dimensions that numpy makes: the second number of their shape, and their rows
pub record Arrays (V : Type 0) : Type 0 where
  pub array : List (List V) → Result (ℕ × List (List V))
  pub empty : ℤ → Result (ℕ × List (List V))

-- numpy makes an array of the rows of a list that are equally long.
pub record MakesArrays (V : Type 0) (numpy : Arrays V) : Type 0 where
  pub rows_array :
      (n : ℕ) (r : List V) (rs : List (List V))
      → All (λ x. length x ≡ n) (r ∷ rs)
      → numpy.array (r ∷ rs) ≡ ok (n, r ∷ rs)

pub data Format : Type 0 where
  tabs csv spec other : Format

-- The separators of the labels and of the data
abbrev pub separators : Format → Result (Text × Text)
separators tabs = ok (b'\t' ∷ [], b'\t' ∷ [])
separators csv = ok (b',' ∷ [], b',' ∷ [])
separators spec = ok (b' ' ∷ b' ' ∷ [], b' ' ∷ [])
separators other = err name_error

module _ {V : Type 0} (numpy : Arrays V) where
  unfoldable pub array_of : ScanBlock V → Result (ℕ × List (List V))
  array_of s =
      if is_empty s.block.rows then numpy.empty s.block.meta.columns else numpy.array s.block.rows

-- `"%.12g" % val` is `show`, and `"%s" % n` of a number is `print`.
module _ {V : Type 0} (show : V → Text) (print : ℤ → Text) where
  unfoldable pub preamble : Format → ℤ → Text → ℕ → Text
  preamble spec number command n =
      codes "\n#S "
      ++ (print number ++ (b' ' ∷ (command ++ (codes "\n#N " ++ (print (pos n) ++ codes "\n#L ")))))
  preamble _ number command n = []

  unfoldable pub data_lines : Text → List (List V) → Text
  unfolding join_with
  data_lines sep [] = []
  data_lines sep (r ∷ rs) = join_with sep (map show r) ++ (b'\n' ∷ data_lines sep rs)

  abbrev pub labels_text : Text → Option (List Text) → Result Text
  labels_text sep none = err type_error
  labels_text sep (some ls) = ok (join_with sep ls)

  -- What `save` writes, by the scan that has been parsed
  unfoldable pub written : Arrays V → Format → ScanBlock V → Result Text
  unfolding array_of preamble data_lines
  written numpy format s = do
    (n, rows) ← array_of numpy s
    number ← or_raise s.block.meta.number attribute_error
    (label_sep, data_sep) ← separators format
    labels ← labels_text label_sep s.block.meta.labels
    ok (
        preamble format number s.block.meta.command n
        ++ (labels ++ (b'\n' ∷ (data_lines data_sep rows ++ (b'\n' ∷ [])))))

  -- `save`: the scan as it is then, and what it writes
  unfoldable pub save :
      (Text → Option ℤ)
      → (Text → Option V)
      → Arrays V
      → Format
      → ScanBlock V
      → Result (ScanBlock V × Text)
  unfolding parsed written
  save int float numpy format s =
      parsed int float s >>= λ p. written numpy format p >>= λ t. ok (p, t)
