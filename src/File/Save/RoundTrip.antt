-- ===== src/File/Save/RoundTrip.antt =====
-- A scan that `save` wrote is read back.
use chess_pyspec.Base.{
  All-map, ℕ, suc, ◌≡◌, refl, sym, ap, ◌∙◌, false, Option, none, some, List, [], ◌∷◌, ◌++◌, map,
  append_assoc, All, Text,
}
use chess_pyspec.Base.Int.{ℤ, pos}
use chess_pyspec.Base.Result.{ok}
use chess_pyspec.Base.Texts.{terminated, Lacks}
use chess_pyspec.File.Block.Parse.{Reading, read_pieces}
use chess_pyspec.File.Block.{spaced_out}
use chess_pyspec.File.Index.{pieces}
use chess_pyspec.File.Save.{preamble, data_lines, spec}
use chess_pyspec.Base.Texts.{join_with}
use chess_pyspec.File.Save.Scanned.{data_lines-terminated, row_text, next_line, IsRow}
use chess_pyspec.File.Save.Pieces.{pieces-line_append, pieces-terminated}
use chess_pyspec.File.Save.Ink.{IsWord, IsLabel}
use chess_pyspec.File.Save.Lines.{
  scan_line, columns_line, label_line, table, after_table, read_table, one_line, many_lines,
  read_line-scan_line, read_line-columns_line,
}
use chess_pyspec.File.Save.Scanned.{row_text-IsPlain}
use chess_pyspec.File.Save.Pieces.{Lacks-other, Lacks-ink, Lacks-spaced_out, IsPlain}
use chess_pyspec.Base.Texts.{has_char, Lacks-append}

-- What a saved scan holds: a number and words for its command, labels, and a table of rows.
pub record IsSavable (V : Type 0) (int : Text → Option ℤ) (float : Text → Option V)
    (show : V → Text) (print : ℤ → Text) (k : ℕ) (n : ℤ) (ws ls : List Text) (rs : List (List V))
    : Type 0 where
  pub number_read : int (print n) ≡ some n
  pub number_word : IsWord (print n)
  pub columns_read : int (print (pos k)) ≡ some (pos k)
  pub columns_word : IsWord (print (pos k))
  pub command_words : All IsWord ws
  pub labels : All IsLabel ls
  pub labels_line : All (Lacks b'\n') ls
  pub rows : All (IsRow int float show k) rs

Lacks-join_with :
    (ls : List Text) → All (Lacks b'\n') ls → Lacks b'\n' (join_with (b' ' ∷ b' ' ∷ []) ls)
unfolding join_with
Lacks-join_with [] h = unfold has_char in refl
Lacks-join_with (l ∷ []) h = h.0
Lacks-join_with (l ∷ m ∷ ls) h =
    Lacks-append b'\n' l _ h.0
      (Lacks-other b' ' _ refl (Lacks-other b' ' _ refl (Lacks-join_with (m ∷ ls) h.1)))

module _ {V : Type 0} (int : Text → Option ℤ) (float : Text → Option V) (show : V → Text)
    (print : ℤ → Text) where
  Lacks-scan_line :
      (number : Text) (ws : List Text)
      → IsWord number
      → All IsWord ws
      → Lacks b'\n' (scan_line number ws)
  Lacks-scan_line number ws h k = Lacks-other b'S' _ refl (
      Lacks-other b' ' _ refl (
        Lacks-append b'\n' number _ (Lacks-ink number h.1)
          (Lacks-other b' ' _ refl (Lacks-spaced_out ws k))))

  Lacks-columns_line : (t : Text) → IsWord t → Lacks b'\n' (columns_line t)
  Lacks-columns_line t h = Lacks-other b'N' _ refl (Lacks-other b' ' _ refl (Lacks-ink t h.1))

  rows-IsPlain :
      (k : ℕ) (rs : List (List V))
      → All (IsRow int float show k) rs
      → All IsPlain (map (row_text show) rs ++ ([] ∷ []))
  rows-IsPlain k [] h = ((unfold has_char in refl, refl), tt)
  rows-IsPlain k (r ∷ rs) h = (row_text-IsPlain int float show r h.0.0 h.0.1, rows-IsPlain k rs h.1)

  table-IsPlain :
      (k : ℕ) (ls : List Text) (rs : List (List V))
      → All (Lacks b'\n') ls
      → All (IsRow int float show k) rs
      → All IsPlain (table show ls rs)
  table-IsPlain k ls rs h g = (
    (Lacks-other b'L' _ refl (Lacks-other b' ' _ refl (Lacks-join_with ls h)), refl),
    rows-IsPlain k rs g,
  )

  -- The lines that `_indexscans` gives the scan
  abbrev pub saved_lines : ℕ → ℤ → List Text → List Text → List (List V) → List Text
  saved_lines k n ws ls rs =
      scan_line (print n) ws
      ∷ columns_line (print (pos k))
      ∷ terminated b'\n' (table show ls rs)
      ∷ []

  -- The block behind the line of the scan, and behind that of the columns
  abbrev pub numbered_as : ℤ → List Text → Reading V → Reading V
  numbered_as n ws r = record r {
    block = record r.block {
      meta = record r.block.meta { number = some n; command = spaced_out ws };
    };
  }

  abbrev pub with_columns : ℕ → Reading V → Reading V
  with_columns k r = record r {
    block = record r.block { meta = record r.block.meta { columns = pos k } };
  }

  pub read_saved :
      (k : ℕ) (n : ℤ) (ws : List Text) (l : Text) (ls : List Text) (rs : List (List V))
      (r : Reading V)
      → IsSavable V int float show print (suc k) n ws (l ∷ ls) rs
      → r.block.meta.labels ≡ none
      → r.block.meta.columns ≡ pos 0
      → r.block.reading_mca ≡ false
      → read_pieces int float (saved_lines (suc k) n ws (l ∷ ls) rs) r
        ≡ ok (
            after_table
              (l ∷ ls)
              rs
              (next_line (with_columns (suc k) (next_line (numbered_as n ws r)))))
  read_saved k n ws l ls rs r h e c q =
      let r1 = next_line (numbered_as n ws r) in
      let r2 = next_line (with_columns (suc k) r1) in
      one_line int float (scan_line (print n) ws) _ r (numbered_as n ws r)
        (Lacks-scan_line (print n) ws h.number_word h.command_words)
        (read_line-scan_line int float n (print n) ws r h.number_read h.number_word h.command_words)
      ∙ one_line int float (columns_line (print (pos (suc k)))) _ r1 (with_columns (suc k) r1)
          (Lacks-columns_line (print (pos (suc k))) h.columns_word)
          (read_line-columns_line int float (suc k) (print (pos (suc k))) r1 h.columns_read
            h.columns_word c)
      ∙ many_lines int float (table show (l ∷ ls) rs) r2 _
          (All-map {P = IsPlain} (table show (l ∷ ls) rs) (λ t p. p.0)
            (table-IsPlain (suc k) (l ∷ ls) rs h.labels_line h.rows))
          (read_table int float show k l ls rs r2 h.labels h.rows e refl q)

  terminated-append :
      (ts : List Text) (u : Text)
      → terminated b'\n' (ts ++ (u ∷ [])) ≡ terminated b'\n' ts ++ (u ++ (b'\n' ∷ []))
  unfolding terminated
  terminated-append [] u = refl
  terminated-append (t ∷ ts) u =
      ap (λ x. t ++ (b'\n' ∷ x)) (terminated-append ts u)
      ∙ sym (append_assoc t (b'\n' ∷ terminated b'\n' ts) (u ++ (b'\n' ∷ [])))

  -- The text of a saved scan
  abbrev pub saved_text : ℕ → ℤ → List Text → List Text → List (List V) → Text
  saved_text k n ws ls rs =
      b'\n'
      ∷ b'#'
      ∷ (scan_line (print n) ws
          ++ (b'\n'
              ∷ b'#'
              ∷ (columns_line (print (pos k))
                  ++ (b'\n' ∷ b'#' ∷ terminated b'\n' (table show ls rs)))))

  terminated-table :
      (ls : List Text) (rs : List (List V))
      → terminated b'\n' (table show ls rs)
        ≡ label_line ls ++ (b'\n' ∷ (data_lines show print (b' ' ∷ []) rs ++ (b'\n' ∷ [])))
  terminated-table ls rs =
      unfold terminated in
      rw (terminated-append (map (row_text show) rs) [], data_lines-terminated show print rs) refl

  pub preamble-append :
      (k : ℕ) (n : ℤ) (ws ls : List Text) (rs : List (List V))
      → preamble show print spec n (spaced_out ws) k
          ++ (join_with (b' ' ∷ b' ' ∷ []) ls
              ++ (b'\n' ∷ (data_lines show print (b' ' ∷ []) rs ++ (b'\n' ∷ []))))
        ≡ saved_text k n ws ls rs
  preamble-append k n ws ls rs = unfold preamble in simp (append_assoc, terminated-table)

  pub pieces_saved :
      (k : ℕ) (n : ℤ) (ws ls : List Text) (rs : List (List V))
      → IsSavable V int float show print k n ws ls rs
      → pieces (saved_text k n ws ls rs) ≡ [] ∷ saved_lines k n ws ls rs
  pieces_saved k n ws ls rs h =
      pieces-line_append [] _ (unfold has_char in refl)
      ∙ ap (◌∷◌ []) (
          pieces-line_append (scan_line (print n) ws) _
            (Lacks-scan_line (print n) ws h.number_word h.command_words)
          ∙ ap (◌∷◌ (scan_line (print n) ws)) (
              pieces-line_append (columns_line (print (pos k))) _
                (Lacks-columns_line _ h.columns_word)
              ∙ ap (◌∷◌ (columns_line (print (pos k)))) (
                  pieces-terminated (table show ls rs)
                    (table-IsPlain k ls rs h.labels_line h.rows))))
