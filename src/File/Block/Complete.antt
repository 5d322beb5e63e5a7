-- ===== src/File/Block/Complete.antt =====
-- What a parsed scan holds, and when `FileBlock.parse` returns.
use chess_pyspec.Base.{
  ℕ, ◌+◌, ◌≡◌, refl, ap, ◌∙◌, Bool, true, false, not, ◌&&◌, Option, none, some, List, [], ◌∷◌, ◌++◌,
  length, ◌==◌, All, Text, is_empty, map, inl, inr, arith, Bool-cases,
}
use chess_pyspec.Base.Texts.{split}
use chess_pyspec.Base.Int.{ℤ, pos, eq_ℤ}
use chess_pyspec.Base.Result.{Result, ok, err, ◌>>=◌, Ensures, returns, Ensures-bind, Ensures-eq}
use chess_pyspec.File.Block.{Block, Metadata, reset, wrong_line}
use chess_pyspec.File.Block.Sound.{IsSound, FitsColumns, read_pieces-IsSound}
use chess_pyspec.File.Block.Parse.{
  Reading, read_line, read_lines, read_pieces, start_of, parse_header, parse_scan, own_or_header,
  finalize_parsing, zip, noted, with_row, row_line, key_line, begins_with, is_key, meta_line,
  data_line_in, take_line,
}

-- The motors of a scan with their positions, or an error
pub data IsPaired
    : Option (List Text) → List Text → Option (List (Text × Text)) → Bool → Type 0 where
  paired :
      {names positions : List Text} {ps : List (Text × Text)} {flag : Bool}
      → map (λ p. p.0) ps ≡ names
      → map (λ p. p.1) ps ≡ positions
      → IsPaired (some names) positions (some ps) flag
  unnamed : {positions : List Text} → IsPaired none positions none true
  different :
      {names positions : List Text}
      → (length names ≡ length positions → ⊥)
      → IsPaired (some names) positions none true

pub record IsComplete (V : Type 0) (header : Option (List Text)) (b : Block V) : Type 0 where
  pub done : b.is_parsed ≡ true
  pub flagged : b.contains_error ≡ not (is_empty b.error_messages)
  pub rectangular : All (FitsColumns b.meta.columns) b.rows
  pub motors :
      IsPaired
        (own_or_header b.meta.motor_labels header)
        b.meta.motor_positions
        b.motor_positions_list
        b.contains_error

zip-firsts : (xs ys : List Text) → length xs ≡ length ys → map (λ p. p.0) (zip xs ys) ≡ xs
zip-firsts [] ys h = refl
zip-firsts (x ∷ xs) [] h = absurd (omega arith)
zip-firsts (x ∷ xs) (y ∷ ys) h = ap (◌∷◌ x) (zip-firsts xs ys (omega arith))

zip-seconds : (xs ys : List Text) → length xs ≡ length ys → map (λ p. p.1) (zip xs ys) ≡ ys
zip-seconds [] [] h = refl
zip-seconds [] (y ∷ ys) h = absurd (omega arith)
zip-seconds (x ∷ xs) [] h = absurd (omega arith)
zip-seconds (x ∷ xs) (y ∷ ys) h = ap (◌∷◌ y) (zip-seconds xs ys (omega arith))

is_empty-append : {A : Type 0} (xs : List A) (x : A) → is_empty (xs ++ (x ∷ [])) ≡ false
is_empty-append [] x = refl
is_empty-append (y ∷ xs) x = refl

module _ {V : Type 0} where
  finalize_parsing-IsComplete :
      (header o : Option (List Text)) (b : Block V)
      → own_or_header b.meta.motor_labels header ≡ o
      → b.is_parsed ≡ true
      → b.contains_error ≡ not (is_empty b.error_messages)
      → All (FitsColumns b.meta.columns) b.rows
      → IsComplete V header (finalize_parsing o b)
  unfolding finalize_parsing
  finalize_parsing-IsComplete header none b e d f r = record {
    done = d;
    flagged = rw is_empty-append refl;
    rectangular = r;
    motors = rw e unnamed;
  }
  finalize_parsing-IsComplete header (some ls) b e d f r =
      elim (Bool-cases (length ls == length b.meta.motor_positions)) [
        | inl q ↦ rw q (record {
          done = d;
          flagged = f;
          rectangular = r;
          motors = rw e (paired (zip-firsts ls _ (ground arith)) (zip-seconds ls _ (ground arith)));
        })
        | inr q ↦ rw q (record {
          done = d;
          flagged = rw is_empty-append refl;
          rectangular = r;
          motors = rw e (different λ x. absurd (ground arith));
        })
      ]

-- A header's part of that
abbrev IsRead : (V : Type 0) → Block V → Type 0
IsRead V b =
    (b.is_parsed ≡ true)
    × (b.contains_error ≡ not (is_empty b.error_messages))
    × All (FitsColumns b.meta.columns) b.rows

-- No line of these pieces begins with "@A".
abbrev is_mca : Text → Bool
is_mca [] = false
is_mca (c ∷ cs) = c == b'@' && begins_with b'A' cs

abbrev pub LacksMca : List Text → Type 0
LacksMca = All (λ p. All (λ t. is_mca t ≡ false) (split b'\n' p))

module _ {V : Type 0} where
  pub start_of-IsSound : (b : Block V) → IsSound V (start_of (reset b))
  unfolding reset
  start_of-IsSound b = record {
    flagged = refl;
    reported = refl;
    rectangular = tt;
    below = omega arith;
    room = λ x. absurd (ground arith);
  }

  noted-reading_mca :
      (c : ℕ) (t : Text) (o : Option (Result Metadata)) (r : Reading V)
      → (noted c t o r).block.reading_mca ≡ r.block.reading_mca
  unfolding wrong_line
  noted-reading_mca c t none r = refl
  noted-reading_mca c t (some (err e)) r = refl
  noted-reading_mca c t (some (ok m)) r = refl

  with_row-reading_mca :
      (t : Text) (o : Option (List V)) (r : Reading V)
      → (with_row t o r).block.reading_mca ≡ r.block.reading_mca
  unfolding wrong_line
  with_row-reading_mca t none r = refl
  with_row-reading_mca t (some vs) r =
      elim (Bool-cases (eq_ℤ (pos (length vs)) r.block.meta.columns)) [
        | inl e ↦ rw e refl
        | inr e ↦ rw e refl
      ]

-- The reading goes on, outside a spectrum.
data Reads (V : Type 0) : Result (Reading V) → Type 0 where
  reads : {s : Reading V} → s.block.reading_mca ≡ false → Reads V (ok s)

Reads-bind :
    {V : Type 0} {m : Result (Reading V)} (f : Reading V → Result (Reading V))
    → Reads V m
    → ((s : Reading V) → s.block.reading_mca ≡ false → Reads V (f s))
    → Reads V (m >>= f)
Reads-bind f (reads {s} q) k = k s q

module _ {V : Type 0} (int : Text → Option ℤ) (float : Text → Option V) where
  parse_header-IsRead : (b : Block V) → Ensures (IsRead V) (parse_header int float (reset b))
  unfolding parse_header
  parse_header-IsRead b =
      Ensures-bind (read_pieces int float (reset b).lines (start_of (reset b))) _ λ r e.
        let s =
          Ensures-eq _ (read_pieces-IsSound int float (reset b).lines _ (start_of-IsSound b)) e in
        returns (refl, s.flagged, s.rectangular)

  -- A scan that is parsed from the start has its error flag set exactly when it has messages, rows
  -- with as many values as columns or none, and either each motor name with its position or an error.
  pub parse_scan-IsComplete :
      (header : Option (List Text)) (b : Block V)
      → Ensures (IsComplete V header) (parse_scan int float header (reset b))
  unfolding parse_scan
  parse_scan-IsComplete header b = Ensures-bind (parse_header int float (reset b)) _ λ p e.
      let (d, f, r) = Ensures-eq _ (parse_header-IsRead b) e in
      returns (finalize_parsing-IsComplete header _ p refl d f r)

  take_line_total :
      (b : Bool) (t : Text) (r : Reading V)
      → b ≡ false
      → r.block.reading_mca ≡ false
      → Reads V (take_line int float b t r)
  unfolding row_line
  take_line_total true t r h q = absurd (ground arith)
  take_line_total false t r h q = reads (with_row-reading_mca t _ (record r { oned_idx = 0 }) ∙ q)

  read_line_total :
      (t : Text) (r : Reading V)
      → is_mca t ≡ false
      → r.block.reading_mca ≡ false
      → Reads V (read_line int float t r)
  unfolding read_line key_line data_line_in meta_line
  read_line_total [] r h q = reads q
  read_line_total (c ∷ cs) r h q = elim (Bool-cases (is_key c)) [
    | inl e ↦ rw (e, h) (reads (noted-reading_mca c (c ∷ cs) _ r ∙ q))
    | inr e ↦ rw e (take_line_total _ (c ∷ cs) (record r { data_line = r.data_line + 1 }) q q)
  ]

  read_lines_total :
      (ts : List Text) (r : Reading V)
      → All (λ t. is_mca t ≡ false) ts
      → r.block.reading_mca ≡ false
      → Reads V (read_lines int float ts r)
  unfolding read_lines
  read_lines_total [] r h q = reads q
  read_lines_total (t ∷ ts) r h q =
      Reads-bind (λ s. read_lines int float ts (record s { lineno = s.lineno + 1 }))
        (read_line_total t r h.0 q)
        λ s p. read_lines_total ts (record s { lineno = s.lineno + 1 }) h.1 p

  read_pieces_total :
      (ps : List Text) (r : Reading V)
      → LacksMca ps
      → r.block.reading_mca ≡ false
      → Reads V (read_pieces int float ps r)
  unfolding read_pieces
  read_pieces_total [] r h q = reads q
  read_pieces_total (p ∷ ps) r h q =
      Reads-bind (read_pieces int float ps) (read_lines_total (split b'\n' p) r h.0 q)
        λ s k. read_pieces_total ps s h.1 k

  Reads-returns : {m : Result (Reading V)} → Reads V m → (s : Reading V) × (m ≡ ok s)
  Reads-returns (reads {s} q) = (s, refl)

  pub parse_scan_returns :
      (header : Option (List Text)) (b : Block V) (s : Reading V)
      → read_pieces int float b.lines (start_of b) ≡ ok s
      → parse_scan int float header b
        ≡ ok (
            finalize_parsing
              (own_or_header s.block.meta.motor_labels header)
              (record s.block { is_parsed = true }))
  unfolding parse_scan parse_header
  parse_scan_returns header b s e = rw e refl

  reset-Reads :
      (b : Block V)
      → LacksMca b.lines
      → Reads V (read_pieces int float (reset b).lines (start_of (reset b)))
  unfolding reset
  reset-Reads b h = read_pieces_total b.lines (start_of (reset b)) h refl

  -- A scan none of whose lines begins with "@A" is parsed without an exception, whatever its lines
  -- are, and is complete.
  pub parse_scan_total :
      (header : Option (List Text)) (b : Block V)
      → LacksMca b.lines
      → (p : Block V) × (parse_scan int float header (reset b) ≡ ok p) × IsComplete V header p
  parse_scan_total header b h =
      let (s, e) = Reads-returns (reset-Reads b h) in
      let returned = parse_scan_returns header (reset b) s e in
      (_, returned, Ensures-eq _ (parse_scan-IsComplete header b) returned)
