-- ===== src/File/Save/Indexed.antt =====
-- The index of a file that `save` wrote.
use chess_pyspec.Base.{
  ℕ, ◌≡◌, refl, ◌∙◌, inl, inr, false, Option, some, List, [], ◌∷◌, ◌++◌, ◌==◌, All, Text, is_empty,
  Bool-cases,
}
use chess_pyspec.Base.Blank.{is_space, strip, lstrip, rstrip_space}
use chess_pyspec.Base.Int.{ℤ}
use chess_pyspec.Base.Result.{ok}
use chess_pyspec.File.Block.{spaced_out}
use chess_pyspec.File.Index.{
  Scan, Blocks, in_scan, no_blocks, index_line, index_lines, new_scan, first_line, add_line, add_to,
}
use chess_pyspec.File.Save.Lines.{scan_line, columns_line}
use chess_pyspec.File.Save.Ink.{IsWord, words-append, words-spaced_out}

-- A line that begins with a character other than white space is not blank.
strip_filled : (c : ℕ) (t : Text) → is_space c ≡ false → is_empty (strip (c ∷ t)) ≡ false
unfolding strip lstrip rstrip_space
strip_filled c t h = elim (Bool-cases (is_empty (rstrip_space t))) [
  | inl e ↦ rw (h, rstrip_space, e, h) refl
  | inr e ↦ rw (h, rstrip_space, e) refl
]

module _ (int : Text → Option ℤ) where
  abbrev pub scan_of : ℤ → List Text → List Text → Scan
  scan_of n ws ts = record {
    number = n;
    command = ws;
    lines = ts;
    headers_before = 0;
    order = 1;
    number_in_file = 0;
  }

  abbrev pub blocks_of : Scan → Blocks
  blocks_of s = record { headers = []; scans = s ∷ []; current = in_scan }

  index_line-scan_line :
      (n : ℤ) (number : Text) (ws : List Text)
      → int number ≡ some n
      → IsWord number
      → All IsWord ws
      → index_line int (scan_line number ws) no_blocks
        ≡ ok (blocks_of (scan_of n ws (scan_line number ws ∷ [])))
  unfolding index_line new_scan add_line add_to
  index_line-scan_line n number ws e h k =
      rw
        (
          strip_filled b'S' _ (unfold is_space in refl),
          words-append number (spaced_out ws) h,
          words-spaced_out ws k,
          first_line,
          e,
        )
        refl

  index_line-other :
      (c : ℕ) (cs : Text) (n : ℤ) (ws ts : List Text)
      → is_space c ≡ false
      → (c == b'S') ≡ false
      → ((c == b'F') ≡ false) × ((c == b'E') ≡ false)
      → index_line int (c ∷ cs) (blocks_of (scan_of n ws ts))
        ≡ ok (blocks_of (scan_of n ws (ts ++ ((c ∷ cs) ∷ []))))
  unfolding index_line add_line add_to
  index_line-other c cs n ws ts h s f = rw (strip_filled c cs h, s, f.0, f.1) refl

  index_lines-step :
      (t : Text) (ts : List Text) (b c : Blocks)
      → index_line int t b ≡ ok c
      → index_lines int (t ∷ ts) b ≡ index_lines int ts c
  unfolding index_lines
  index_lines-step t ts b c e = rw e refl

  blank : (b : Blocks) → index_line int [] b ≡ ok b
  unfolding index_line strip lstrip rstrip_space
  blank b = refl

  done : (b : Blocks) → index_lines int [] b ≡ ok b
  unfolding index_lines
  done b = refl

  pub indexed-saved :
      (n : ℤ) (number : Text) (ws : List Text) (columns : Text) (labels : Text)
      → int number ≡ some n
      → IsWord number
      → All IsWord ws
      → index_lines int
          ([] ∷ scan_line number ws ∷ columns_line columns ∷ (b'L' ∷ labels) ∷ [])
          no_blocks
        ≡ ok (
            blocks_of
              (scan_of n ws (scan_line number ws ∷ columns_line columns ∷ (b'L' ∷ labels) ∷ [])))
  indexed-saved n number ws columns labels e h k =
      let s0 = scan_line number ws ∷ [] in
      let first = index_line-scan_line n number ws e h k in
      let second = index_line-other b'N' (b' ' ∷ columns) n ws s0 ink_n refl (refl, refl) in
      let third =
        index_line-other b'L' labels n ws (s0 ++ (columns_line columns ∷ [])) ink_l refl
          (refl, refl) in
      index_lines-step [] _ no_blocks no_blocks (blank no_blocks)
      ∙ index_lines-step (scan_line number ws) _ no_blocks _ first
      ∙ index_lines-step (columns_line columns) _ (blocks_of (scan_of n ws s0)) _ second
      ∙ index_lines-step (b'L' ∷ labels) []
          (blocks_of (scan_of n ws (s0 ++ (columns_line columns ∷ [])))) _ third
      ∙ done _
    where
      ink_n : is_space b'N' ≡ false
      ink_n = unfold is_space in refl

      ink_l : is_space b'L' ≡ false
      ink_l = unfold is_space in refl
