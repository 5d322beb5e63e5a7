-- ===== src/File/Block/Sound.antt =====
-- What every line keeps of a block while `FileBlock.parse` reads it.
use chess_pyspec.Base.{
  ℕ, zero, suc, ◌+◌, ◌≤◌, ◌≡◌, refl, sym, ap, ◌∙◌, Bool, true, false, not, ◌&&◌, Option, none, some,
  List, [], ◌∷◌, ◌++◌, length, length-append, ◌==◌, if◌then◌else◌, All, All-map, Text, is_empty,
  drop, ◌⊎◌, inl, inr, arith, Bool-cases,
}
use chess_pyspec.Base.Blank.{words}
use chess_pyspec.Base.Texts.{split}
use chess_pyspec.Base.Int.{ℤ, pos, eq_ℤ, eq_ℤ-eq}
use chess_pyspec.Base.Result.{Result, ok, err, Ensures, returns, raises, Ensures-bind, Ensures-eq}
use chess_pyspec.File.Block.{Metadata, wrong_line, Problem}
use chess_pyspec.File.Block.Columns.{KeepsColumns, All?, called-KeepsColumns}
use chess_pyspec.File.Block.Parse.{
  Reading, noted, with_row, mca_values, take_line, meta_line, begins_with, append_mca, keep_mca,
  open_mca, floats, add_mca_line, key_line, row_line, data_line_in, read_line, read_lines,
  read_pieces, fields_of, is_key,
}

-- A row has as many values as the block has columns, or none at all.
abbrev pub FitsColumns : {V : Type 0} → ℤ → List V → Type 0
FitsColumns c vs = (pos (length vs) ≡ c) ⊎ (vs ≡ [])

-- The error flag tells whether there are messages, every message is of a line, the rows fit, and the
-- next spectrum has its place: in a channel that there is, or in the one behind them; while the
-- channels are still being found, in one that there is.
pub record IsSound (V : Type 0) (r : Reading V) : Type 0 where
  pub flagged : r.block.contains_error ≡ not (is_empty r.block.error_messages)
  pub reported : length r.block.error_messages ≡ length r.block.wrong_lines
  pub rectangular : All (FitsColumns r.block.meta.columns) r.block.rows
  pub below : r.oned_idx ≤ length r.block.oneds
  pub room :
      r.block.reading_mca ≡ true → r.block.find_oned ≡ true → suc r.oned_idx ≤ length r.block.oneds

is_empty-append : {A : Type 0} (xs : List A) (x : A) → is_empty (xs ++ (x ∷ [])) ≡ false
is_empty-append [] x = refl
is_empty-append (y ∷ xs) x = refl

All-append {ℓ} :
    {A : Type 0} (P : A → Type ℓ) (xs : List A) (x : A) → All P xs → P x → All P (xs ++ (x ∷ []))
All-append P [] x h p = (p, tt)
All-append P (y ∷ xs) x h p = (h.0, All-append P xs x h.1 p)

length-zero : {V : Type 0} (vs : List V) → pos (length vs) ≡ pos 0 → vs ≡ []
length-zero [] h = refl
length-zero (v ∷ vs) h = absurd (ground arith)

FitsColumns-keep :
    {V : Type 0} (m n : Metadata)
    → KeepsColumns m n
    → (vs : List V) → FitsColumns m.columns vs
    → FitsColumns n.columns vs
FitsColumns-keep m n k vs (inr e) = inr e
FitsColumns-keep m n (inl z) vs (inl h) = inr (length-zero vs (h ∙ z))
FitsColumns-keep m n (inr q) vs (inl h) = inl (h ∙ sym q)

length-append_mca :
    {V : Type 0} (os : List (List (List V))) (n : ℕ) (mca : List V)
    → Ensures (λ ps. (length ps ≡ length os) × (suc n ≤ length os)) (append_mca os n mca)
unfolding append_mca
length-append_mca [] n mca = raises
length-append_mca (o ∷ os) zero mca = returns (refl, omega arith)
length-append_mca (o ∷ os) (suc n) mca =
    Ensures-bind (append_mca os n mca) (λ rest. ok (o ∷ rest))
      λ rest e.
        let (same, lt) = Ensures-eq (append_mca os n mca) (length-append_mca os n mca) e in
        returns (ap suc same, omega arith)

opened :
    {A : Type 0} (b : Bool) (os : List (List A)) (n : ℕ)
    → n ≤ length os
    → (n ≤ length (if b then os ++ ([] ∷ []) else os))
      × (b ≡ true → suc n ≤ length (if b then os ++ ([] ∷ []) else os))
opened true os n h = rw length-append (omega arith, λ _. omega arith)
opened false os n h = (h, λ x. absurd (ground arith))

module _ {V : Type 0} where
  pub wrong_line-IsSound :
      (r : Reading V) (n : ℕ) (t : Text) (p : Problem)
      → IsSound V r
      → IsSound V (record r { block = wrong_line n t p r.block })
  unfolding wrong_line
  wrong_line-IsSound r n t p h = record {
    flagged = rw is_empty-append refl;
    reported = rw (length-append, length-append, h.reported) refl;
    rectangular = h.rectangular;
    below = h.below;
    room = h.room;
  }

  keep_mca-IsSound :
      (complete : Bool) (r : Reading V) → IsSound V r → Ensures (IsSound V) (keep_mca complete r)
  unfolding keep_mca
  keep_mca-IsSound false r h = returns h
  keep_mca-IsSound true r h = Ensures-bind (append_mca r.block.oneds r.oned_idx r.tmpmca) _ λ os e.
      let (same, lt) = Ensures-eq _ (length-append_mca r.block.oneds r.oned_idx r.tmpmca) e in
      returns (record {
        flagged = h.flagged;
        reported = h.reported;
        rectangular = h.rectangular;
        below = rw same (omega arith);
        room = λ x. absurd (ground arith);
      })

  open_mca-IsSound : (r : Reading V) → IsSound V r → IsSound V (open_mca r)
  open_mca-IsSound r h = record {
    flagged = h.flagged;
    reported = h.reported;
    rectangular = h.rectangular;
    below = (opened r.block.find_oned r.block.oneds r.oned_idx h.below).0;
    room = λ _. (opened r.block.find_oned r.block.oneds r.oned_idx h.below).1;
  }

  noted-IsSound :
      (c : ℕ) (t : Text) (o : Option (Result Metadata)) (r : Reading V)
      → All? (Ensures (KeepsColumns r.block.meta)) o
      → IsSound V r
      → IsSound V (noted c t o r)
  noted-IsSound c t none r k h = wrong_line-IsSound r r.lineno t _ h
  noted-IsSound c t (some (err e)) r k h = wrong_line-IsSound r r.lineno t _ h
  noted-IsSound c t (some (ok m)) r k h = record {
    flagged = h.flagged;
    reported = h.reported;
    rectangular =
        All-map r.block.rows (FitsColumns-keep r.block.meta m (Ensures-eq (ok m) k refl))
          h.rectangular;
    below = h.below;
    room = h.room;
  }

  pub meta_line-IsSound :
      (int : Text → Option ℤ) (c : ℕ) (t : Text) (r : Reading V)
      → IsSound V r
      → IsSound V (meta_line int c t r)
  unfolding meta_line
  meta_line-IsSound int c t r h =
      noted-IsSound c t _ r (called-KeepsColumns int c (fields_of t) r.block.meta) h

  with_row-IsSound :
      (t : Text) (o : Option (List V)) (r : Reading V)
      → r.block.reading_mca ≡ false
      → IsSound V r
      → IsSound V (with_row t o r)
  with_row-IsSound t none r q h = wrong_line-IsSound r r.lineno t _ h
  with_row-IsSound t (some vs) r q h =
      elim (Bool-cases (eq_ℤ (pos (length vs)) r.block.meta.columns)) [
        | inl e ↦ rw e (record {
          flagged = h.flagged;
          reported = h.reported;
          rectangular =
              All-append (FitsColumns r.block.meta.columns) r.block.rows vs h.rectangular
                (inl (eq_ℤ-eq _ _ e));
          below = h.below;
          room = λ x. absurd (ground arith);
        })
        | inr e ↦ rw e (wrong_line-IsSound r r.lineno t _ h)
      ]

  module _ (int : Text → Option ℤ) (float : Text → Option V) where
    add_mca_line-IsSound :
        (t : Text) (r : Reading V) → IsSound V r → Ensures (IsSound V) (add_mca_line int float t r)
    unfolding add_mca_line
    add_mca_line-IsSound t r h = Ensures-bind (mca_values int float t) _ λ p _.
        keep_mca-IsSound p.0 _ (record {
          flagged = h.flagged;
          reported = h.reported;
          rectangular = h.rectangular;
          below = h.below;
          room = h.room;
        })

    key_line-IsSound :
        (c : ℕ) (t : Text) (r : Reading V)
        → IsSound V r
        → Ensures (IsSound V) (key_line int float c t r)
    unfolding key_line
    key_line-IsSound c t r h =
        let kept = meta_line-IsSound int c t r h in
        elim (Bool-cases (c == b'@' && begins_with b'A' (drop 1 t))) [
          | inl e ↦ rw e (add_mca_line-IsSound (drop 2 t) _ (open_mca-IsSound _ kept))
          | inr e ↦ rw e (returns kept)
        ]

    take_line-IsSound :
        (b : Bool) (t : Text) (r : Reading V)
        → r.block.reading_mca ≡ b
        → IsSound V r
        → Ensures (IsSound V) (take_line int float b t r)
    unfolding row_line
    take_line-IsSound true t r e h = add_mca_line-IsSound t r h
    take_line-IsSound false t r e h = returns (
        with_row-IsSound t (floats int float (words t)) (record r { oned_idx = 0 }) e
          (record {
            flagged = h.flagged;
            reported = h.reported;
            rectangular = h.rectangular;
            below = omega arith;
            room = λ x. absurd (ground arith);
          }))

    data_line_in-IsSound :
        (t : Text) (r : Reading V) → IsSound V r → Ensures (IsSound V) (data_line_in int float t r)
    unfolding data_line_in
    data_line_in-IsSound t r h =
        take_line-IsSound r.block.reading_mca t (record r { data_line = r.data_line + 1 }) refl
          (record {
            flagged = h.flagged;
            reported = h.reported;
            rectangular = h.rectangular;
            below = h.below;
            room = h.room;
          })

    read_line-IsSound :
        (t : Text) (r : Reading V) → IsSound V r → Ensures (IsSound V) (read_line int float t r)
    unfolding read_line
    read_line-IsSound [] r h = returns h
    read_line-IsSound (c ∷ cs) r h = elim (Bool-cases (is_key c)) [
      | inl e ↦ rw e (key_line-IsSound c (c ∷ cs) r h)
      | inr e ↦ rw e (data_line_in-IsSound (c ∷ cs) r h)
    ]

    read_lines-IsSound :
        (ts : List Text) (r : Reading V)
        → IsSound V r
        → Ensures (IsSound V) (read_lines int float ts r)
    unfolding read_lines
    read_lines-IsSound [] r h = returns h
    read_lines-IsSound (t ∷ ts) r h = Ensures-bind (read_line int float t r) _ λ s e.
        let k = Ensures-eq _ (read_line-IsSound t r h) e in
        read_lines-IsSound ts (record s { lineno = s.lineno + 1 })
          (record {
            flagged = k.flagged;
            reported = k.reported;
            rectangular = k.rectangular;
            below = k.below;
            room = k.room;
          })

    -- From a reading whose error flag is set exactly when there are messages, with as many messages
    -- as wrong lines, rows that fit, and a place for the next spectrum, the reading behind any lines
    -- is such a reading too, unless one of them raises.
    pub read_pieces-IsSound :
        (ps : List Text) (r : Reading V)
        → IsSound V r
        → Ensures (IsSound V) (read_pieces int float ps r)
    unfolding read_pieces
    read_pieces-IsSound [] r h = returns h
    read_pieces-IsSound (p ∷ ps) r h =
        Ensures-bind (read_lines int float (split b'\n' p) r) _
          λ s e. read_pieces-IsSound ps s (Ensures-eq _ (read_lines-IsSound (split b'\n' p) r h) e)
