-- ===== src/File/Update/Skipped.antt =====
-- Pieces that the index does not read.
use chess_pyspec.Base.{
  ℕ, ◌≡◌, refl, sym, subst, ◌∙◌, inl, inr, Bool, true, false, not, ◌&&◌, ◌||◌, Option, List, [],
  ◌∷◌, ◌++◌, ◌==◌, if◌then◌else◌, Text, is_empty, Bool-cases, arith,
}
use chess_pyspec.Base.Blank.{strip, lstrip, rstrip_space}
use chess_pyspec.Base.Int.{ℤ}
use chess_pyspec.Base.Result.{Result, ok-injective, err-ne-ok, ok, err, ◌>>=◌, >>=-eq-ok}
use chess_pyspec.File.Index.{
  Blocks, index_line, index_lines, begins_with, char_at, add_line, new_header,
}
use chess_pyspec.File.Update.{is_read, any_read}

pub true_ne_false : true ≡ false → ⊥
true_ne_false h = cc

pub index_lines-append :
    (int : Text → Option ℤ) (ps qs : List Text) (b : Blocks)
    → index_lines int (ps ++ qs) b ≡ (index_lines int ps b >>= index_lines int qs)
unfolding index_lines
index_lines-append int [] qs b = refl
index_lines-append int (p ∷ ps) qs b =
    bind_same (index_line int p b) (λ c. index_lines-append int ps qs c)
  where
    bind_same :
        (r : Result Blocks)
        → ((c : Blocks)
            → index_lines int (ps ++ qs) c ≡ (index_lines int ps c >>= index_lines int qs))
        → (r >>= index_lines int (ps ++ qs)) ≡ ((r >>= index_lines int ps) >>= index_lines int qs)
    bind_same (ok c) k = k c
    bind_same (err x) k = refl

mark_not_scan : (d : ℕ) → (d == b'F' || d == b'E') ≡ true → (d == b'S') ≡ false
mark_not_scan d h = ground arith

-- A block that begins with a character other than a space is no block.
index_line-mark :
    (int : Text → Option ℤ) (d : ℕ) (cs : Text) (b c : Blocks)
    → is_empty (strip (d ∷ cs)) ≡ false
    → (d == b'F' || d == b'E') ≡ true
    → begins_with b' ' cs ≡ false
    → index_line int (d ∷ cs) b ≡ ok c
    → c ≡ b
index_line-mark int d cs b c h m k e = marked cs k (sym opens ∙ e)
  where
    opens :
        index_line int (d ∷ cs) b
        ≡ (char_at 0 cs >>= λ x. ok (if x == b' ' then add_line (d ∷ cs) (new_header b) else b))
    opens = unfold index_line in rw (h, mark_not_scan d m, m) refl

    marked :
        (ds : Text)
        → begins_with b' ' ds ≡ false
        → (char_at 0 ds >>= λ x. ok (if x == b' ' then add_line (d ∷ cs) (new_header b) else b))
          ≡ ok c
        → c ≡ b
    marked [] k q = absurd (err-ne-ok q)
    marked (x ∷ ds) k q = sym (
        ok-injective
          (subst (λ y. ok (if y then add_line (d ∷ cs) (new_header b) else b) ≡ ok c) k q))

-- A piece that is not read adds nothing, where the loop goes on behind it.
index_line-skipped :
    (int : Text → Option ℤ) (t : Text) (b c : Blocks)
    → is_read t ≡ false
    → index_line int t b ≡ ok c
    → c ≡ b
index_line-skipped int [] b c h e = sym (ok-injective (sym (blank b) ∙ e))
  where
    blank : (b : Blocks) → index_line int [] b ≡ ok b
    blank b = unfold index_line strip lstrip rstrip_space in refl
index_line-skipped int (d ∷ cs) b c h e = elim (Bool-cases (is_empty (strip (d ∷ cs)))) [
  | inl k ↦ sym (ok-injective (sym (blank_line k) ∙ e))
  | inr k ↦
      let (mark, space) = not_read (d == b'F' || d == b'E') (begins_with b' ' cs) (skip k) in
      index_line-mark int d cs b c k mark space e
]
  where
    blank_line : is_empty (strip (d ∷ cs)) ≡ true → index_line int (d ∷ cs) b ≡ ok b
    blank_line k = unfold index_line in rw k refl

    skip :
        is_empty (strip (d ∷ cs)) ≡ false
        → not ((d == b'F' || d == b'E') && not (begins_with b' ' cs)) ≡ false
    skip k =
        unfold is_read in
        subst (λ y. (not y && not ((d == b'F' || d == b'E') && not (begins_with b' ' cs))) ≡ false)
          k h

    not_read : (m s : Bool) → not (m && not s) ≡ false → (m ≡ true) × (s ≡ false)
    not_read true false q = (refl, refl)
    not_read true true q = absurd (true_ne_false q)
    not_read false s q = absurd (true_ne_false q)

pub index_lines-skipped :
    (int : Text → Option ℤ) (ts : List Text) (b c : Blocks)
    → any_read ts ≡ false
    → index_lines int ts b ≡ ok c
    → c ≡ b
unfolding index_lines any_read
index_lines-skipped int [] b c h e = sym (ok-injective e)
index_lines-skipped int (t ∷ ts) b c h e =
    let (one, more) = neither (is_read t) (any_read ts) h in
    let (d, first, rest) = >>=-eq-ok (index_line int t b) (index_lines int ts) e in
    index_lines-skipped int ts d c more rest ∙ index_line-skipped int t b d one first
  where
    neither : (x y : Bool) → (x || y) ≡ false → (x ≡ false) × (y ≡ false)
    neither false y q = (refl, q)
    neither true y q = absurd (true_ne_false q)
