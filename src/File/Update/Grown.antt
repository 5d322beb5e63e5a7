-- ===== src/File/Update/Grown.antt =====
-- A file that has grown by whole pieces is read as if it were opened again.
use chess_pyspec.Base.{
  ◌≡◌, refl, sym, subst, ap, ◌∙◌, Bool, true, false, Option, List, [], ◌∷◌, ◌++◌, length,
  length-append, drop-append, ltb, lt→ltb, if◌then◌else◌, Text, is_empty, arith,
}
use chess_pyspec.Base.Blank.{strip, lstrip, rstrip_space}
use chess_pyspec.Base.Int.{ℤ}
use chess_pyspec.Base.Result.{
  Result, ok-injective, err-ne-ok, ok, err, runtime_error, ◌>>=◌, >>=-eq-ok,
}
use chess_pyspec.File.Index.Pieces.{pieces-append}
use chess_pyspec.File.Index.{
  Blocks, Scan, Table, in_scan, no_blocks, index_line, index_lines, pieces, number_scans, in_order,
}
use chess_pyspec.File.Update.{
  FileSpec, any_read, resumed, unread, index_scans, unopened, opened, update, origins_from,
  begins_block, is_read,
}
use chess_pyspec.File.Update.Skipped.{true_ne_false, index_lines-append, index_lines-skipped}

-- What an object shows of its file, but for the origins of the blocks: the blocks, the scans with
-- their places, and the table of them
abbrev pub shown : FileSpec → Blocks × List Scan × Table
shown f = (f.blocks, f.numbered, f.scans)

abbrev numbering : Blocks → Blocks × List Scan × Table
numbering b = let placed = number_scans (in_order b.scans []) [] 0 in (b, placed.0, placed.1)

-- The object when these blocks were found in its file
abbrev scanned : Text → FileSpec → Blocks → FileSpec
scanned contents f b =
    let placed = number_scans (in_order b.scans []) [] 0 in
    record {
      blocks = b;
      origins =
          f.origins ++ origins_from f.lastpos (length contents) 0 (pieces (unread f contents));
      numbered = placed.0;
      scans = placed.1;
      lastpos = if any_read (pieces (unread f contents)) then length contents else f.lastpos;
      st_size = f.st_size;
    }

of-index_scans :
    {B : Type 0} (q : FileSpec → B) (int : Text → Option ℤ) (contents : Text) (f : FileSpec)
    → (index_scans int contents f >>= λ g. ok (q g)) ≡ (
        index_lines int (pieces (unread f contents)) (resumed f.blocks) >>= λ b.
        ok (q (scanned contents f b)))
unfolding index_scans
of-index_scans {B} q int contents f =
    after (index_lines int (pieces (unread f contents)) (resumed f.blocks))
  where
    after :
        (r : Result Blocks)
        → ((r >>= λ b. ok (scanned contents f b)) >>= λ g. ok (q g))
          ≡ (r >>= λ b. ok (q (scanned contents f b)))
    after (ok b) = refl
    after (err x) = refl

-- What the object holds of a file that it opened, when that file had scans
record IsOpened (int : Text → Option ℤ) (a : Text) (f : FileSpec) : Type 0 where
  pub indexed : index_lines int (pieces a) no_blocks ≡ ok f.blocks
  pub has_scans : is_empty f.blocks.scans ≡ false
  pub at_end : f.lastpos ≡ length a
  pub unsized : f.st_size ≡ 0

no_scans :
    (ss : List Scan) → is_empty ss ≡ true → is_empty (number_scans (in_order ss []) [] 0).1 ≡ true
unfolding number_scans
no_scans [] h = refl
no_scans (t ∷ ts) h = absurd (true_ne_false (sym h))

-- The object that `_indexscans` makes of a file that it has not read before
abbrev first_read : Text → Blocks → FileSpec
first_read a b =
    let placed = number_scans (in_order b.scans []) [] 0 in
    record {
      blocks = b;
      origins = origins_from 0 (length a) 0 (pieces a);
      numbered = placed.0;
      scans = placed.1;
      lastpos = if any_read (pieces a) then length a else 0;
      st_size = 0;
    }

first_read-IsOpened :
    (int : Text → Option ℤ) (a : Text) (b : Blocks)
    → index_lines int (pieces a) no_blocks ≡ ok b
    → is_empty (first_read a b).scans ≡ false
    → IsOpened int a (first_read a b)
first_read-IsOpened int a b e h =
    let filled : is_empty b.scans ≡ false = some_scans (is_empty b.scans) refl in
    record {
      indexed = e;
      has_scans = filled;
      at_end = end_of (any_read (pieces a)) refl filled;
      unsized = refl;
    }
  where
    some_scans : (x : Bool) → is_empty b.scans ≡ x → is_empty b.scans ≡ false
    some_scans false q = q
    some_scans true q = absurd (true_ne_false (sym (no_scans b.scans q) ∙ h))

    end_of :
        (x : Bool)
        → any_read (pieces a) ≡ x
        → is_empty b.scans ≡ false
        → (if x then length a else 0) ≡ length a
    end_of true q k = refl
    end_of false q k =
        let none_read = index_lines-skipped int (pieces a) no_blocks b q e in
        absurd (true_ne_false (ap (λ c. is_empty c.scans) (sym none_read) ∙ k))

opened-first_read :
    (int : Text → Option ℤ) (a : Text)
    → opened int a ≡ (
        index_lines int (pieces a) no_blocks >>= λ b.
        if is_empty (first_read a b).scans then err runtime_error else ok (first_read a b))
unfolding opened index_scans
opened-first_read int a = after (index_lines int (pieces a) no_blocks)
  where
    check : FileSpec → Result FileSpec
    check f = if is_empty f.scans then err runtime_error else ok f

    after :
        (r : Result Blocks)
        → ((r >>= λ b. ok (first_read a b)) >>= check) ≡ (r >>= λ b. check (first_read a b))
    after (ok b) = refl
    after (err x) = refl

opened-IsOpened :
    (int : Text → Option ℤ) (a : Text) (f : FileSpec) → opened int a ≡ ok f → IsOpened int a f
opened-IsOpened int a f e =
    let (b, indexed, checked) =
      >>=-eq-ok (index_lines int (pieces a) no_blocks) _ (sym (opened-first_read int a) ∙ e) in
    scanned b indexed (is_empty (first_read a b).scans) refl checked
  where
    scanned :
        (b : Blocks)
        → index_lines int (pieces a) no_blocks ≡ ok b
        → (x : Bool) → is_empty (first_read a b).scans ≡ x
        → (if x then err runtime_error else ok (first_read a b)) ≡ ok f
        → IsOpened int a f
    scanned b i true q k = absurd (err-ne-ok k)
    scanned b i false q k =
        subst (IsOpened int a) (ok-injective k) (first_read-IsOpened int a b i q)

blank_piece :
    (int : Text → Option ℤ) (ps : List Text) (b : Blocks)
    → index_lines int ([] ∷ ps) b ≡ index_lines int ps b
blank_piece int ps b = unfold index_lines index_line strip lstrip rstrip_space in refl

module _ (int : Text → Option ℤ) (a b : Text) (f : FileSpec) (o : IsOpened int a f) where
  abbrev whole : Text
  whole = a ++ (b'\n' ∷ b'#' ∷ b)

  -- Opened again, the file is read to where `f` is, and then the rest.
  read_whole : index_lines int (pieces whole) no_blocks ≡ index_lines int (pieces b) f.blocks
  read_whole =
      ap (λ ps. index_lines int ps no_blocks) (pieces-append a b)
      ∙ index_lines-append int (pieces a) (pieces b) no_blocks
      ∙ ap (λ r. r >>= index_lines int (pieces b)) o.indexed

  read_rest :
      f.blocks.current ≡ in_scan
      → index_lines int (pieces (unread f whole)) (resumed f.blocks)
        ≡ index_lines int (pieces b) f.blocks
  read_rest c =
      rw (o.has_scans, o.at_end, drop-append (length a) a (b'\n' ∷ b'#' ∷ b) refl, ← c)
        (ap (λ ps. index_lines int ps f.blocks) (pieces-append [] b)
          ∙ ap (λ ps. index_lines int (ps ++ pieces b) f.blocks) no_piece
          ∙ blank_piece int (pieces b) f.blocks)
    where
      no_piece : pieces [] ≡ [] ∷ []
      no_piece = unfold pieces in refl

  longer : ltb f.st_size (length whole) ≡ true
  longer = rw o.unsized (lt→ltb 0 (length whole) (rw length-append (omega arith)))

  rest_of : unread f whole ≡ b'\n' ∷ b'#' ∷ b
  rest_of = rw (o.has_scans, o.at_end, drop-append (length a) a (b'\n' ∷ b'#' ∷ b) refl) refl

  origins_rest :
      origins_from f.lastpos (length whole) 0 (pieces (unread f whole))
      ≡ origins_from (length a) (length whole) 1 (pieces b)
  origins_rest =
      rw (rest_of, o.at_end)
        (ap (origins_from (length a) (length whole) 0) (pieces-append [] b)
          ∙ (unfold pieces origins_from begins_block is_read in refl))

  updated :
      {B : Type 0} (q : FileSpec → B)
      → (update int whole f >>= λ r. ok (q r.1))
        ≡ (index_scans int whole (record f { st_size = length whole }) >>= λ g. ok (q g))
  unfolding update
  updated {B} q = rw longer (after (index_scans int whole (record f { st_size = length whole })))
    where
      grown : FileSpec → Result (Bool × FileSpec)
      grown g = ok (true, g)

      after : (r : Result FileSpec) → ((r >>= grown) >>= λ p. ok (q p.1)) ≡ (r >>= λ g. ok (q g))
      after (ok g) = refl
      after (err x) = refl

-- When a file that was opened, whose last block is a scan, has grown by "\n#" and any text, `update`
-- finds the blocks, scans and places that opening the whole file would find, or raises what that
-- would raise. Where the blocks begin is another matter: the origins of those it had stay, and those
-- of the new ones are counted from the end of the old file, and from line 1.
pub update-index_scans :
    (int : Text → Option ℤ) (a b : Text) (f : FileSpec)
    → opened int a ≡ ok f
    → f.blocks.current ≡ in_scan
    → ((update int (a ++ (b'\n' ∷ b'#' ∷ b)) f >>= λ r. ok (shown r.1))
        ≡ (index_scans int (a ++ (b'\n' ∷ b'#' ∷ b)) unopened >>= λ g. ok (shown g)))
      × ((update int (a ++ (b'\n' ∷ b'#' ∷ b)) f >>= λ r. ok r.1.origins) ≡ (
          index_scans int (a ++ (b'\n' ∷ b'#' ∷ b)) unopened >>= λ g.
          ok
            (f.origins ++ origins_from (length a) (length (a ++ (b'\n' ∷ b'#' ∷ b))) 1 (pieces b))))
update-index_scans int a b f e c =
    let o = opened-IsOpened int a f e in
    let all = whole int a b f o in
    let grown = record f { st_size = length all } in
    let new = f.origins ++ origins_from (length a) (length all) 1 (pieces b) in
    let same = read_rest int a b f o c ∙ sym (read_whole int a b f o) in
    (
      updated int a b f o shown
          ∙ of-index_scans shown int all grown
          ∙ ap (λ r. r >>= λ d. ok (numbering d)) same
          ∙ sym (of-index_scans shown int all unopened),
      updated int a b f o (λ g. g.origins)
          ∙ of-index_scans (λ g. g.origins) int all grown
          ∙ ap
              (λ l. index_lines int (pieces (unread f all)) (resumed f.blocks) >>= λ d.
                ok (f.origins ++ l))
              (origins_rest int a b f o)
          ∙ ap (λ r. r >>= λ d. ok new) same
          ∙ sym (of-index_scans (λ g. new) int all unopened),
    )
