-- ===== src/File/Save/Lines.antt =====
-- `parse` on the lines that `save` writes.
use chess_pyspec.Base.{
  arith, ℕ, suc, ◌≡◌, refl, ap, ◌∙◌, true, false, Option, none, some, List, [], ◌∷◌, ◌++◌, map,
  append_assoc, All, Text,
}
use chess_pyspec.Base.Blank.{is_space, strip, words}
use chess_pyspec.Base.Spacing.{split_wide}
use chess_pyspec.Base.Int.{ℤ, pos, eq_ℤ}
use chess_pyspec.Base.Result.{ok}
use chess_pyspec.Base.Texts.{terminated, Lacks, split-Lacks, split-terminated}
use chess_pyspec.File.Block.Parse.{
  Reading, read_lines, read_line, read_pieces, key_line, meta_line, called, fields_of, is_key,
}
use chess_pyspec.File.Block.{Metadata, spaced_out, call, handler_of, numbered, labelled}
use chess_pyspec.Base.Texts.{join_with}
use chess_pyspec.File.Save.Scanned.{
  row_text, next_line, after_rows, IsRow, read_lines-step, read_lines-rows,
}
use chess_pyspec.File.Save.Words.{
  IsLabel-IsTrimmed, IsWord-label, strip-space, strip-IsTrimmed, join_with-IsTrimmed,
  split_wide-join_with,
}
use chess_pyspec.File.Save.Ink.{
  IsWord, IsLabel, words-append, words-strip, words-space, words-spaced_out,
}

abbrev scan_content : Text → List Text → Text
scan_content number ws = b' ' ∷ (number ++ (b' ' ∷ spaced_out ws))

labelled-none :
    (content : Text) (m : Metadata)
    → m.labels ≡ none
    → eq_ℤ m.columns (pos 0) ≡ false
    → labelled m.labels content m ≡ record m { labels = some (split_wide content) }
labelled-none content m e c = rw (e, labelled, c) refl

-- The line of a scan's number and command
abbrev pub scan_line : Text → List Text → Text
scan_line number ws = b'S' ∷ b' ' ∷ (number ++ (b' ' ∷ spaced_out ws))

words-scan_line :
    (number : Text) (ws : List Text)
    → IsWord number
    → All IsWord ws
    → words (b' ' ∷ (number ++ (b' ' ∷ spaced_out ws))) ≡ number ∷ ws
words-scan_line number ws h k =
    words-space b' ' _ space
    ∙ words-append number (spaced_out ws) h
    ∙ ap (◌∷◌ number) (words-spaced_out ws k)
  where
    space : is_space b' ' ≡ true
    space = unfold is_space in refl

-- The lines of a scan that was saved: two pieces of one line, and the piece of the table
abbrev pub columns_line : Text → Text
columns_line columns = b'N' ∷ b' ' ∷ columns

abbrev pub label_line : List Text → Text
label_line ls = b'L' ∷ b' ' ∷ join_with (b' ' ∷ b' ' ∷ []) ls

abbrev pub table : {V : Type 0} → (V → Text) → List Text → List (List V) → List Text
table show ls rs = label_line ls ∷ (map (row_text show) rs ++ ([] ∷ []))

module _ {V : Type 0} (int : Text → Option ℤ) (float : Text → Option V) where
  pub read_line-scan_line :
      (n : ℤ) (number : Text) (ws : List Text) (r : Reading V)
      → int number ≡ some n
      → IsWord number
      → All IsWord ws
      → read_line int float (scan_line number ws) r
        ≡ ok (record r {
          block = record r.block {
            meta = record r.block.meta { number = some n; command = spaced_out ws };
          };
        })
  unfolding read_line key_line meta_line called is_key fields_of handler_of call
  read_line-scan_line n number ws r e h k =
      rw
        (
          words-strip (strip (scan_content number ws)),
          words-strip (scan_content number ws),
          words-scan_line number ws h k,
          numbered,
          e,
        )
        refl

  pub read_line-columns_line :
      (k : ℕ) (t : Text) (r : Reading V)
      → int t ≡ some (pos k)
      → IsWord t
      → r.block.meta.columns ≡ pos 0
      → read_line int float (b'N' ∷ b' ' ∷ t) r
        ≡ ok
            (record r { block = record r.block { meta = record r.block.meta { columns = pos k } } })
  unfolding read_line key_line meta_line called is_key fields_of handler_of call
  read_line-columns_line k t r e h z =
      let trimmed = IsLabel-IsTrimmed t (IsWord-label t h) in
      rw (strip-space t trimmed, strip-IsTrimmed t trimmed, z, e) refl

  read_line-label_line :
      (l : Text) (ls : List Text) (r : Reading V)
      → All IsLabel (l ∷ ls)
      → r.block.meta.labels ≡ none
      → eq_ℤ r.block.meta.columns (pos 0) ≡ false
      → read_line int float (b'L' ∷ b' ' ∷ join_with (b' ' ∷ b' ' ∷ []) (l ∷ ls)) r
        ≡ ok (record r {
          block = record r.block { meta = record r.block.meta { labels = some (l ∷ ls) } };
        })
  unfolding read_line key_line meta_line called is_key fields_of handler_of call
  read_line-label_line l ls r h e c =
      let joined = join_with (b' ' ∷ b' ' ∷ []) (l ∷ ls) in
      let trimmed = join_with-IsTrimmed (b' ' ∷ b' ' ∷ []) l ls h in
      rw
        (
          strip-space joined trimmed,
          strip-IsTrimmed joined trimmed,
          labelled-none joined r.block.meta e c,
          split_wide-join_with l ls h,
        )
        refl

  pub one_line :
      (t : Text) (ps : List Text) (r s : Reading V)
      → Lacks b'\n' t
      → read_line int float t r ≡ ok s
      → read_pieces int float (t ∷ ps) r ≡ read_pieces int float ps (next_line s)
  one_line t ps r s h e = unfold read_pieces read_lines in rw (split-Lacks b'\n' t h, e) refl

  pub many_lines :
      (ts : List Text) (r s : Reading V)
      → All (Lacks b'\n') ts
      → read_lines int float (ts ++ ([] ∷ [])) r ≡ ok s
      → read_pieces int float (terminated b'\n' ts ∷ []) r ≡ ok s
  many_lines ts r s h e = unfold read_pieces in rw (split-terminated b'\n' ts h, e) refl

module _ {V : Type 0} where
  -- The reading behind the table
  abbrev pub after_table : List Text → List (List V) → Reading V → Reading V
  after_table ls rs r = next_line (
      next_line (
        after_rows rs (
          next_line (record r {
            block = record r.block { meta = record r.block.meta { labels = some ls } };
          }))))

suc_not_zero : (k : ℕ) → eq_ℤ (pos (suc k)) (pos 0) ≡ false
suc_not_zero k = ground arith

module _ {V : Type 0} (int : Text → Option ℤ) (float : Text → Option V) (show : V → Text) where
  pub read_table :
      (k : ℕ) (l : Text) (ls : List Text) (rs : List (List V)) (r : Reading V)
      → All IsLabel (l ∷ ls)
      → All (IsRow int float show (suc k)) rs
      → r.block.meta.labels ≡ none
      → r.block.meta.columns ≡ pos (suc k)
      → r.block.reading_mca ≡ false
      → read_lines int float (table show (l ∷ ls) rs ++ ([] ∷ [])) r
        ≡ ok (after_table (l ∷ ls) rs r)
  read_table k l ls rs r h g e c q =
      let headed = record r {
        block = record r.block { meta = record r.block.meta { labels = some (l ∷ ls) } };
      } in
      read_lines-step int float (label_line (l ∷ ls)) _ r headed
        (read_line-label_line int float l ls r h e (ap (λ z. eq_ℤ z (pos 0)) c ∙ suc_not_zero k))
      ∙ ap (λ ts. read_lines int float ts (next_line headed))
          (append_assoc (map (row_text show) rs) ([] ∷ []) ([] ∷ []))
      ∙ read_lines-rows int float show (suc k) rs ([] ∷ [] ∷ []) (next_line headed) g q c
      ∙ blank (after_rows rs (next_line headed))
    where
      blank : (s : Reading V) → read_lines int float ([] ∷ [] ∷ []) s ≡ ok (next_line (next_line s))
      blank s = unfold read_lines read_line in refl
