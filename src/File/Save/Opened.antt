-- ===== src/File/Save/Opened.antt =====
-- The file that `save` writes, opened and parsed.
use chess_pyspec.Base.{
  All-map, ℕ, suc, ◌≡◌, refl, ap, ◌∙◌, inl, inr, true, Option, none, some, List, [], ◌∷◌, ◌++◌,
  length, ◌==◌, All, Text, Bool-cases,
}
use chess_pyspec.Base.Int.{ℤ, pos}
use chess_pyspec.Base.Result.{ok, or_raise}
use chess_pyspec.Base.Texts.{terminated}
use chess_pyspec.File.Block.Complete.{parse_scan_returns}
use chess_pyspec.File.Block.Getters.{ScanBlock, parsed}
use chess_pyspec.File.Block.Parse.{
  Reading, start_of, parse_scan, finalize_parsing, own_or_header, read_pieces,
}
use chess_pyspec.File.Block.{Block, started, spaced_out, reset_metadata}
use chess_pyspec.File.Index.{
  Scan, Table, no_blocks, index_lines, indexed, open_file, number_scans, append_scan, scans_of,
}
use chess_pyspec.File.Save.Lines.{after_table}
use chess_pyspec.File.Save.RoundTrip.{
  IsSavable, saved_lines, saved_text, preamble-append, pieces_saved, read_saved, numbered_as,
  with_columns,
}
use chess_pyspec.File.Save.Scanned.{IsRow, next_line, after_rows-meta, after_rows-rows}
use chess_pyspec.File.Save.{Arrays, MakesArrays, spec, save, written, array_of}
use chess_pyspec.File.Save.Indexed.{scan_of, blocks_of, indexed-saved}

-- What the scan of the file is like, once its place is known
abbrev placed_scan : ℤ → List Text → List Text → Scan
placed_scan n ws ts = record {
  number = n;
  command = ws;
  lines = ts;
  headers_before = 0;
  order = 0;
  number_in_file = 0;
}

-- A block that holds a scan with this number, command, labels and table.
pub record Holds (V : Type 0) (b : Block V) (k : ℕ) (n : ℤ) (ws ls : List Text) (rs : List (List V))
    : Type 0 where
  pub number : b.meta.number ≡ some n
  pub command : b.meta.command ≡ spaced_out ws
  pub labels : b.meta.labels ≡ some ls
  pub columns : b.meta.columns ≡ pos k
  pub rows : b.rows ≡ rs

module _ {V : Type 0} where
  finalize_parsing-Holds :
      (o : Option (List Text)) (b : Block V) (k : ℕ) (n : ℤ) (ws ls : List Text)
      (rs : List (List V))
      → Holds V b k n ws ls rs
      → Holds V (finalize_parsing o b) k n ws ls rs
  unfolding finalize_parsing
  finalize_parsing-Holds none b k n ws ls rs h = record {
    number = h.number;
    command = h.command;
    labels = h.labels;
    columns = h.columns;
    rows = h.rows;
  }
  finalize_parsing-Holds (some os) b k n ws ls rs h =
      elim (Bool-cases (length os == length b.meta.motor_positions)) [
        | inl e ↦ rw e (record {
          number = h.number;
          command = h.command;
          labels = h.labels;
          columns = h.columns;
          rows = h.rows;
        })
        | inr e ↦ rw e (record {
          number = h.number;
          command = h.command;
          labels = h.labels;
          columns = h.columns;
          rows = h.rows;
        })
      ]

module _ {V : Type 0} (int : Text → Option ℤ) (float : Text → Option V) (show : V → Text)
    (print : ℤ → Text) where
  saved_blocks :
      (k : ℕ) (n : ℤ) (ws ls : List Text) (rs : List (List V))
      → IsSavable V int float show print k n ws ls rs
      → indexed int (saved_text int float show print k n ws ls rs)
        ≡ ok (blocks_of int (scan_of int n ws (saved_lines int float show print k n ws ls rs)))
  unfolding indexed terminated
  saved_blocks k n ws ls rs h =
      ap (λ ps. index_lines int ps no_blocks) (pieces_saved int float show print k n ws ls rs h)
      ∙ indexed-saved int n (print n) ws (print (pos k)) _ h.number_read h.number_word
          h.command_words

  open_file-saved :
      (k : ℕ) (n : ℤ) (ws ls : List Text) (rs : List (List V))
      → IsSavable V int float show print k n ws ls rs
      → open_file int (saved_text int float show print k n ws ls rs)
        ≡ ok (
          placed_scan n ws (saved_lines int float show print k n ws ls rs) ∷ [],
          (n, placed_scan n ws (saved_lines int float show print k n ws ls rs) ∷ []) ∷ [],
        )
  unfolding open_file number_scans append_scan scans_of
  open_file-saved k n ws ls rs h = rw (saved_blocks k n ws ls rs h) refl

  -- The reading behind the last line of a saved scan
  abbrev read_behind : ℕ → ℤ → List Text → List Text → List (List V) → Reading V → Reading V
  read_behind k n ws ls rs r = after_table ls rs (
      next_line
        (with_columns int float show print k (next_line (numbered_as int float show print n ws r))))

  read_behind-Holds :
      (k : ℕ) (n : ℤ) (ws ls : List Text) (rs : List (List V)) (r : Reading V)
      → r.block.rows ≡ []
      → Holds V (record (read_behind k n ws ls rs r).block { is_parsed = true }) k n ws ls rs
  read_behind-Holds k n ws ls rs r e =
      let headed = record r.block.meta {
        number = some n;
        command = spaced_out ws;
        columns = pos k;
        labels = some ls;
      } in
      let meta : (read_behind k n ws ls rs r).block.meta ≡ headed = after_rows-meta rs _ in
      record {
        number = ap (λ m. m.number) meta;
        command = ap (λ m. m.command) meta;
        labels = ap (λ m. m.labels) meta;
        columns = ap (λ m. m.columns) meta;
        rows = after_rows-rows rs _ ∙ ap (◌++ rs) e;
      }

  read_started :
      (first k : ℕ) (n : ℤ) (ws : List Text) (l : Text) (ls : List Text) (rs : List (List V))
      (b : Block V)
      → IsSavable V int float show print (suc k) n ws (l ∷ ls) rs
      → b
        ≡ started V first
            (some n)
            (spaced_out ws)
            (saved_lines int float show print (suc k) n ws (l ∷ ls) rs)
      → (read_pieces int float b.lines (start_of b)
          ≡ ok (read_behind (suc k) n ws (l ∷ ls) rs (start_of b)))
        × (b.rows ≡ [])
  unfolding started reset_metadata
  read_started first k n ws l ls rs b h e = (
    ap (λ t. read_pieces int float t (start_of b)) (ap (λ x. x.lines) e)
        ∙ read_saved int float show print k n ws l ls rs (start_of b) h (ap (λ x. x.meta.labels) e)
            (ap (λ x. x.meta.columns) e) (ap (λ x. x.reading_mca) e),
    ap (λ x. x.rows) e,
  )

  parse_scan-saved :
      (header : Option (List Text)) (first k : ℕ) (n : ℤ) (ws : List Text) (l : Text)
      (ls : List Text) (rs : List (List V))
      → IsSavable V int float show print (suc k) n ws (l ∷ ls) rs
      → (p : Block V) × (parse_scan int float header (
            started V first
              (some n)
              (spaced_out ws)
              (saved_lines int float show print (suc k) n ws (l ∷ ls) rs))
          ≡ ok p)
        × Holds V p (suc k) n ws (l ∷ ls) rs
  parse_scan-saved header first k n ws l ls rs h =
      let b =
        started V first (some n) (spaced_out ws)
          (saved_lines int float show print (suc k) n ws (l ∷ ls) rs) in
      let s = read_behind (suc k) n ws (l ∷ ls) rs (start_of b) in
      let (read, empty) = read_started first k n ws l ls rs b h refl in
      (
        finalize_parsing (own_or_header s.block.meta.motor_labels header)
            (record s.block { is_parsed = true }),
        parse_scan_returns int float header b s read,
        finalize_parsing-Holds _ _ (suc k) n ws (l ∷ ls) rs
            (read_behind-Holds (suc k) n ws (l ∷ ls) rs (start_of b) empty),
      )

  written-saved :
      (numpy : Arrays V) (s : ScanBlock V) (k : ℕ) (n : ℤ) (ws ls : List Text) (r : List V)
      (rs : List (List V))
      → MakesArrays V numpy
      → Holds V s.block k n ws ls (r ∷ rs)
      → All (λ x. length x ≡ k) (r ∷ rs)
      → written show print numpy spec s ≡ ok (saved_text int float show print k n ws ls (r ∷ rs))
  unfolding written array_of
  written-saved numpy s k n ws ls r rs makes h lengths =
      rw (h.rows, makes.rows_array k r rs lengths, h.number, or_raise, h.labels, h.command)
        (ap ok (preamble-append int float show print k n ws ls (r ∷ rs)))

  save-saved :
      (numpy : Arrays V) (s : ScanBlock V) (k : ℕ) (n : ℤ) (ws ls : List Text) (r : List V)
      (rs : List (List V))
      → MakesArrays V numpy
      → s.block.is_parsed ≡ true
      → Holds V s.block k n ws ls (r ∷ rs)
      → All (λ x. length x ≡ k) (r ∷ rs)
      → save show print int float numpy spec s
        ≡ ok (s, saved_text int float show print k n ws ls (r ∷ rs))
  unfolding save parsed
  save-saved numpy s k n ws ls r rs makes p h lengths =
      rw (p, written-saved numpy s k n ws ls r rs makes h lengths) refl

  -- A parsed scan of any number, with a command of words, labels without double spaces, and a table
  -- of rows as long as the first and not empty, whose numbers are read back: what `save` writes is a
  -- file of one scan, and that scan, parsed, has the number, command, labels, columns and rows.
  pub save-Holds :
      (numpy : Arrays V) (header : Option (List Text)) (first : ℕ) (s : ScanBlock V) (k : ℕ) (n : ℤ)
      (ws : List Text) (l : Text) (ls : List Text) (r : List V) (rs : List (List V))
      → MakesArrays V numpy
      → s.block.is_parsed ≡ true
      → Holds V s.block (suc k) n ws (l ∷ ls) (r ∷ rs)
      → IsSavable V int float show print (suc k) n ws (l ∷ ls) (r ∷ rs)
      → (t : Text) × (save show print int float numpy spec s ≡ ok (s, t))
        × (saved : Scan) × (table : Table) × (open_file int t ≡ ok (saved ∷ [], table))
        × (p : Block V) × (parse_scan int float header
              (started V first (some saved.number) (spaced_out saved.command) saved.lines)
            ≡ ok p)
        × Holds V p (suc k) n ws (l ∷ ls) (r ∷ rs)
  save-Holds numpy header first s k n ws l ls r rs makes p h g =
      let (b, parses, same) = parse_scan-saved header first k n ws l ls (r ∷ rs) g in
      (
        saved_text int float show print (suc k) n ws (l ∷ ls) (r ∷ rs),
        save-saved numpy s (suc k) n ws (l ∷ ls) r rs makes p h
            (All-map {P = IsRow int float show (suc k)} (r ∷ rs) (λ x q. q.2) g.rows),
        _,
        _,
        open_file-saved (suc k) n ws (l ∷ ls) (r ∷ rs) g,
        b,
        parses,
        same,
      )
