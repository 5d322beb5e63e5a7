-- ===== src/File/Block/Parse.antt =====
-- `FileBlock.parse`, `McaData._addLine` and `Scan.finalizeParsing` of pyspec/file/spec.py.
use chess_pyspec.Base.{
  ℕ, zero, suc, ◌+◌, Bool, true, false, not, ◌&&◌, ◌||◌, Option, none, some, List, [], ◌∷◌, ◌++◌,
  length, take, drop, ◌==◌, leb, if◌then◌else◌, Text, is_empty,
}
use chess_pyspec.Base.Blank.{strip, words}
use chess_pyspec.Base.Int.{ℤ, pos, eq_ℤ}
use chess_pyspec.Base.Result.{Result, ok, err, index_error, value_error, ◌>>=◌, or_raise}
use chess_pyspec.Base.Spacing.{find, last_char}
use chess_pyspec.Base.Texts.{split, init}
use chess_pyspec.File.Block.{
  Block, Metadata, unknown_line, unknown_header_line, wrong_data_line, wrong_number_of_columns,
  no_motor_names, different_counts, handler_of, call, wrong_line, reported,
}

-- The local variables of `parse`, with the block and `tmpmca`
pub record Reading (V : Type 0) : Type 0 where
  pub block : Block V
  pub tmpmca : List V
  pub lineno : ℕ
  pub oned_idx : ℕ
  pub data_line : ℕ
  pub comp_line : ℕ

abbrev within : ℕ → ℕ → ℕ → Bool
within lo hi c = leb lo c && leb c hi

-- `c in string.ascii_letters + "@"`
unfoldable pub is_key : ℕ → Bool
is_key c = within b'a' b'z' c || within b'A' b'Z' c || c == b'@'

-- `metaval`, `content` by the place of the first space; without one the place is -1.
unfoldable pub fields_of : Text → Text × Text
unfolding find strip init last_char
fields_of t = elim (find b' ' t) [
  | none ↦ (strip (drop 1 (init t)), strip (last_char t))
  | some n ↦ (strip (drop 1 (take n t)), strip (drop n t))
]

abbrev pub begins_with : ℕ → Text → Bool
begins_with d [] = false
begins_with d (c ∷ cs) = c == d

abbrev ends_with : ℕ → Text → Bool
ends_with d [] = false
ends_with d (c ∷ []) = c == d
ends_with d (c ∷ e ∷ cs) = ends_with d (e ∷ cs)

abbrev pub zip : List Text → List Text → List (Text × Text)
zip (x ∷ xs) (y ∷ ys) = (x, y) ∷ zip xs ys
zip _ _ = []

-- `getMotorNames` of a scan, by the motor labels of its header
unfoldable pub own_or_header : List Text → Option (List Text) → Option (List Text)
own_or_header (l ∷ ls) h = some (l ∷ ls)
own_or_header [] none = none
own_or_header [] (some []) = none
own_or_header [] (some (l ∷ ls)) = some (l ∷ ls)

-- `self.funcs[metakey](content, metaval)`, where there is such a method
unfoldable pub called : (Text → Option ℤ) → ℕ → Text × Text → Metadata → Option (Result Metadata)
unfolding handler_of call strip
called int c f m = elim (handler_of c) [
  | none ↦ none
  | some h ↦ some (call int h (strip f.1) f.0 m)
]

module _ {V : Type 0} where
  -- What the call in `try` does to the block, with none for a key that has no method
  abbrev pub noted : ℕ → Text → Option (Result Metadata) → Reading V → Reading V
  noted c t none r = record r { block = wrong_line r.lineno t (unknown_header_line c) r.block }
  noted c t (some (err e)) r = record r { block = wrong_line r.lineno t (unknown_line c) r.block }
  noted c t (some (ok m)) r = record r { block = record r.block { meta = m } }

  unfoldable pub meta_line : (Text → Option ℤ) → ℕ → Text → Reading V → Reading V
  unfolding fields_of wrong_line called
  meta_line int c t r = noted c t (called int c (fields_of t) r.block.meta) r

  -- `self._oneds[n].append(mca)`
  unfoldable pub append_mca : List (List (List V)) → ℕ → List V → Result (List (List (List V)))
  append_mca [] n mca = err index_error
  append_mca (o ∷ os) zero mca = ok ((o ++ (mca ∷ [])) ∷ os)
  append_mca (o ∷ os) (suc n) mca = append_mca os n mca >>= λ rest. ok (o ∷ rest)

  -- Behind `_addLine`
  unfoldable pub keep_mca : Bool → Reading V → Result (Reading V)
  unfolding append_mca
  keep_mca false r = ok r
  keep_mca true r = append_mca r.block.oneds r.oned_idx r.tmpmca >>= λ os. ok (record r {
    block = record r.block { oneds = os; reading_mca = false };
    oned_idx = r.oned_idx + 1;
  })

  -- The branch for "@A"
  abbrev pub open_mca : Reading V → Reading V
  open_mca r = record r {
    comp_line = if r.data_line == 1 then 1 else r.comp_line;
    block = record r.block {
      reading_mca = true;
      oneds = if r.block.find_oned then r.block.oneds ++ ([] ∷ []) else r.block.oneds;
    };
    tmpmca = [];
  }

  -- `Scan.finalizeParsing`, by the motor names
  unfoldable pub finalize_parsing : Option (List Text) → Block V → Block V
  finalize_parsing none b = reported none no_motor_names (record b { motor_positions_list = none })
  finalize_parsing (some labels) b =
      let blank = record b { motor_positions_list = none } in
      if not (length labels == length b.meta.motor_positions)
      then reported none different_counts blank
      else record blank { motor_positions_list = some (zip labels b.meta.motor_positions) }

  -- A line of data, by its values
  abbrev pub with_row : Text → Option (List V) → Reading V → Reading V
  with_row t none r = record r { block = wrong_line r.lineno t wrong_data_line r.block }
  with_row t (some vs) r =
      if eq_ℤ (pos (length vs)) r.block.meta.columns
      then record r {
        block = record r.block {
          rows = r.block.rows ++ (vs ∷ []);
          find_oned = r.block.find_oned && not (length r.block.rows + 1 == r.comp_line);
        };
      }
      else record r { block = wrong_line r.lineno t wrong_number_of_columns r.block }

  abbrev pub start_of : Block V → Reading V
  start_of b = record {
    block = b;
    tmpmca = [];
    lineno = 0;
    oned_idx = 0;
    data_line = 0;
    comp_line = 2;
  }

module _ {V : Type 0} (int : Text → Option ℤ) (float : Text → Option V) where
  -- `list(map(float, t.split()))`
  unfoldable pub floats : List Text → Option (List V)
  floats [] = some []
  floats (w ∷ ws) = elim (float w) [
    | none ↦ none
    | some v ↦ elim (floats ws) [ none ↦ none | some vs ↦ some (v ∷ vs) ]
  ]

  -- Whether `McaData._addLine` finds the spectrum complete, and what it adds
  unfoldable pub mca_values : Text → Result (Bool × List V)
  unfolding floats
  mca_values t =
      let body = strip t in
      let partly = ends_with b'\\' body in
      if is_empty body
      then err index_error
      else (or_raise (floats (words (if partly then init body else t))) value_error >>= λ vs.
          ok (not partly, vs))

  -- `self.tmpmca._addLine(sline)`, and what `parse` does behind it
  unfoldable pub add_mca_line : Text → Reading V → Result (Reading V)
  unfolding mca_values keep_mca
  add_mca_line t r = mca_values t >>= λ p. keep_mca p.0 (record r { tmpmca = r.tmpmca ++ p.1 })

  -- The branch for a line that begins with a letter or "@"
  unfoldable pub key_line : ℕ → Text → Reading V → Result (Reading V)
  unfolding meta_line add_mca_line
  key_line c t r =
      let noted = meta_line int c t r in
      if c == b'@' && begins_with b'A' (drop 1 t)
      then add_mca_line (drop 2 t) (open_mca noted)
      else ok noted

  -- A row of the data
  unfoldable pub row_line : Text → Reading V → Reading V
  unfolding floats wrong_line
  row_line t r = with_row t (floats (words t)) r

  -- A line that is not of metadata, by `self.reading_mca`
  abbrev pub take_line : Bool → Text → Reading V → Result (Reading V)
  take_line true t r = add_mca_line t r
  take_line false t r = ok (row_line t (record r { oned_idx = 0 }))

  -- The branch for any other line
  unfoldable pub data_line_in : Text → Reading V → Result (Reading V)
  unfolding add_mca_line row_line
  data_line_in t r = take_line r.block.reading_mca t (record r { data_line = r.data_line + 1 })

  -- One round of the inner loop; `lineno` is the number of the line.
  unfoldable pub read_line : Text → Reading V → Result (Reading V)
  unfolding key_line data_line_in is_key
  read_line [] r = ok r
  read_line (c ∷ cs) r = if is_key c then key_line c (c ∷ cs) r else data_line_in (c ∷ cs) r

  unfoldable pub read_lines : List Text → Reading V → Result (Reading V)
  unfolding read_line
  read_lines [] r = ok r
  read_lines (t ∷ ts) r = read_line t r >>= λ s. read_lines ts (record s { lineno = s.lineno + 1 })

  -- The two loops of `parse`
  unfoldable pub read_pieces : List Text → Reading V → Result (Reading V)
  unfolding read_lines split
  read_pieces [] r = ok r
  read_pieces (p ∷ ps) r = read_lines (split b'\n' p) r >>= read_pieces ps

  -- `parse` of a header, by its `finalizeParsing` that does nothing
  unfoldable pub parse_header : Block V → Result (Block V)
  unfolding read_pieces
  parse_header b =
      read_pieces b.lines (start_of b) >>= λ r. ok (record r.block { is_parsed = true })

  -- `parse` of a scan; the labels are those of its header.
  unfoldable pub parse_scan : Option (List Text) → Block V → Result (Block V)
  unfolding parse_header own_or_header finalize_parsing
  parse_scan header b =
      parse_header b >>= λ p. ok (finalize_parsing (own_or_header p.meta.motor_labels header) p)
