-- ===== src/File/Save/Scanned.antt =====
-- The rows of a table, as `parse` reads them.
use chess_pyspec.Base.{
  ℕ, ◌+◌, ◌≡◌, refl, sym, ap, ◌∙◌, Bool, false, not, ◌&&◌, Option, some, List, [], ◌∷◌, ◌++◌, map,
  length, append_assoc, append-nil, ◌==◌, All, Text, arith, is_empty,
}
use chess_pyspec.Base.Blank.{words}
use chess_pyspec.Base.Int.{ℤ, pos, eq_ℤ-refl}
use chess_pyspec.Base.Result.{ok}
use chess_pyspec.Base.Texts.{terminated}
use chess_pyspec.File.Block.Parse.{
  Reading, data_line_in, row_line, read_line, read_lines, floats, is_key,
}
use chess_pyspec.File.Block.{spaced_out}
use chess_pyspec.File.Index.{begins_with}
use chess_pyspec.File.Save.Ink.{IsWord, words-spaced_out}
use chess_pyspec.File.Save.{data_lines}
use chess_pyspec.Base.Texts.{join_with}
use chess_pyspec.File.Save.Pieces.{IsPlain, Lacks-spaced_out}

-- Whether the line is of metadata
unfoldable pub key_first : Text → Bool
unfolding is_key
key_first [] = false
key_first (c ∷ cs) = is_key c

key_first-cons : (c : ℕ) (cs ds : Text) → key_first (c ∷ cs) ≡ key_first (c ∷ ds)
unfolding key_first
key_first-cons c cs ds = refl

-- The line of a row
abbrev pub row_text : {V : Type 0} → (V → Text) → List V → Text
row_text show vs = spaced_out (map show vs)

join_with-spaced_out : (ts : List Text) → join_with (b' ' ∷ []) ts ≡ spaced_out ts
unfolding join_with spaced_out
join_with-spaced_out [] = refl
join_with-spaced_out (t ∷ []) = refl
join_with-spaced_out (t ∷ u ∷ ts) = ap (λ x. t ++ (b' ' ∷ x)) (join_with-spaced_out (u ∷ ts))

pub data_lines-terminated :
    {V : Type 0} (show : V → Text) (print : ℤ → Text) (rs : List (List V))
    → data_lines show print (b' ' ∷ []) rs ≡ terminated b'\n' (map (row_text show) rs)
unfolding data_lines terminated
data_lines-terminated show print [] = refl
data_lines-terminated show print (r ∷ rs) =
    rw (join_with-spaced_out (map show r), data_lines-terminated show print rs) refl

-- A value that is read back, and whose text begins neither a line of metadata nor a piece
pub record IsShown (V : Type 0) (float : Text → Option V) (show : V → Text) (v : V) : Type 0 where
  pub read : float (show v) ≡ some v
  pub word : IsWord (show v)
  pub no_key : key_first (show v) ≡ false
  pub no_mark : begins_with b'#' (show v) ≡ false

module _ {V : Type 0} where
  -- The reading behind a row
  abbrev pub after_row : List V → Reading V → Reading V
  after_row vs r = record r {
    block = record r.block {
      rows = r.block.rows ++ (vs ∷ []);
      find_oned = r.block.find_oned && not (length r.block.rows + 1 == r.comp_line);
    };
    data_line = r.data_line + 1;
    oned_idx = 0;
  }

  abbrev pub next_line : Reading V → Reading V
  next_line r = record r { lineno = r.lineno + 1 }

  abbrev pub after_rows : List (List V) → Reading V → Reading V
  after_rows [] r = r
  after_rows (vs ∷ rs) r = after_rows rs (next_line (after_row vs r))

  pub after_rows-rows :
      (rs : List (List V)) (r : Reading V) → (after_rows rs r).block.rows ≡ r.block.rows ++ rs
  after_rows-rows [] r = sym (append-nil r.block.rows)
  after_rows-rows (vs ∷ rs) r =
      after_rows-rows rs (next_line (after_row vs r)) ∙ append_assoc r.block.rows (vs ∷ []) rs

  pub after_rows-meta :
      (rs : List (List V)) (r : Reading V) → (after_rows rs r).block.meta ≡ r.block.meta
  after_rows-meta [] r = refl
  after_rows-meta (vs ∷ rs) r = after_rows-meta rs (next_line (after_row vs r))

module _ {V : Type 0} (int : Text → Option ℤ) (float : Text → Option V) where
  pub read_lines-step :
      (t : Text) (ts : List Text) (r s : Reading V)
      → read_line int float t r ≡ ok s
      → read_lines int float (t ∷ ts) r
        ≡ read_lines int float ts (record s { lineno = s.lineno + 1 })
  unfolding read_lines
  read_lines-step t ts r s e = rw e refl

module _ {V : Type 0} (int : Text → Option ℤ) (float : Text → Option V) (show : V → Text) where
  floats-map :
      (vs : List V) → All (IsShown V float show) vs → floats int float (map show vs) ≡ some vs
  unfolding floats
  floats-map [] h = refl
  floats-map (v ∷ vs) h = rw (h.0.read, floats-map vs h.1) refl

  words_of : (vs : List V) → All (IsShown V float show) vs → All IsWord (map show vs)
  words_of [] h = tt
  words_of (v ∷ vs) h = (h.0.word, words_of vs h.1)

  floats-row_text :
      (vs : List V)
      → All (IsShown V float show) vs
      → floats int float (words (row_text show vs)) ≡ some vs
  floats-row_text vs h =
      ap (floats int float) (words-spaced_out (map show vs) (words_of vs h)) ∙ floats-map vs h

  data_line_in-row :
      (t : Text) (vs : List V) (r : Reading V)
      → floats int float (words t) ≡ some vs
      → r.block.reading_mca ≡ false
      → r.block.meta.columns ≡ pos (length vs)
      → data_line_in int float t r ≡ ok (after_row vs r)
  unfolding data_line_in row_line
  data_line_in-row t vs r e q c = rw (q, e, c, eq_ℤ-refl (pos (length vs))) refl

  -- A text and what it is followed by begin in the same way, unless it is empty.
  row_text-first :
      {B : Type 0} (f : Text → B)
      → ((c : ℕ) (cs ds : Text) → f (c ∷ cs) ≡ f (c ∷ ds))
      → (v : V) (vs : List V) → is_empty (show v) ≡ false
      → f (row_text show (v ∷ vs)) ≡ f (show v)
  unfolding spaced_out
  row_text-first f same v [] h = refl
  row_text-first f same v (w ∷ vs) h = begin_of (show v) h
    where
      begin_of : (t : Text) → is_empty t ≡ false → f (t ++ (b' ' ∷ row_text show (w ∷ vs))) ≡ f t
      begin_of [] h = absurd (ground arith)
      begin_of (c ∷ t) h = same c _ t

  read_line-data :
      (t : Text) (r : Reading V)
      → is_empty t ≡ false
      → key_first t ≡ false
      → read_line int float t r ≡ data_line_in int float t r
  unfolding read_line key_first
  read_line-data [] r h k = absurd (ground arith)
  read_line-data (c ∷ t) r h k = rw k refl

  -- A row with as many values as columns is read.
  read_line-row :
      (vs : List V) (r : Reading V)
      → All (IsShown V float show) vs
      → is_empty vs ≡ false
      → r.block.reading_mca ≡ false
      → r.block.meta.columns ≡ pos (length vs)
      → read_line int float (row_text show vs) r ≡ ok (after_row vs r)
  read_line-row [] r h f q c = absurd (ground arith)
  read_line-row (v ∷ vs) r h f q c =
      read_line-data (row_text show (v ∷ vs)) r
        (row_text-first is_empty (λ c cs ds. refl) v vs h.0.word.0 ∙ h.0.word.0)
        (row_text-first key_first key_first-cons v vs h.0.word.0 ∙ h.0.no_key)
      ∙ data_line_in-row (row_text show (v ∷ vs)) (v ∷ vs) r (floats-row_text (v ∷ vs) h) q c

  pub row_text-IsPlain :
      (vs : List V)
      → All (IsShown V float show) vs
      → is_empty vs ≡ false
      → IsPlain (row_text show vs)
  row_text-IsPlain [] h f = absurd (ground arith)
  row_text-IsPlain (v ∷ vs) h f = (
    Lacks-spaced_out (map show (v ∷ vs)) (words_of (v ∷ vs) h),
    row_text-first (begins_with b'#') (λ c cs ds. refl) v vs h.0.word.0 ∙ h.0.no_mark,
  )

  -- A row of a table: its values are shown, and there are as many as columns.
  abbrev pub IsRow : ℕ → List V → Type 0
  IsRow k vs = All (IsShown V float show) vs × (is_empty vs ≡ false) × (length vs ≡ k)

  pub read_lines-rows :
      (k : ℕ) (rs : List (List V)) (ts : List Text) (r : Reading V)
      → All (IsRow k) rs
      → r.block.reading_mca ≡ false
      → r.block.meta.columns ≡ pos k
      → read_lines int float (map (row_text show) rs ++ ts) r
        ≡ read_lines int float ts (after_rows rs r)
  read_lines-rows k [] ts r h q c = refl
  read_lines-rows k (vs ∷ rs) ts r h q c =
      let step = read_line-row vs r h.0.0 h.0.1 q (c ∙ ap pos (sym h.0.2)) in
      read_lines-step int float (row_text show vs) (map (row_text show) rs ++ ts) r (after_row vs r)
        step
      ∙ read_lines-rows k rs ts (next_line (after_row vs r)) h.1 q c
