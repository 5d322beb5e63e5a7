-- ===== src/File/Index/Pieces.antt =====
-- The pieces of a file: `data.split("\n#")`.
use chess_pyspec.Base.{
  ℕ, ◌≡◌, refl, ap, inl, inr, false, ◌&&◌, List, [], ◌∷◌, ◌++◌, ◌==◌, Text, is_empty, Bool-cases,
  arith,
}
use chess_pyspec.File.Index.{pieces, begins_with, add_char, without_first}

pieces-filled : (t : Text) → is_empty (pieces t) ≡ false
unfolding pieces
pieces-filled [] = refl
pieces-filled (c ∷ cs) = elim (Bool-cases (c == b'\n' && begins_with b'#' cs)) [
  | inl e ↦ rw e refl
  | inr e ↦ rw e (add_char-filled c (pieces cs))
]
  where
    add_char-filled : (c : ℕ) (ts : List Text) → is_empty (add_char c ts) ≡ false
    add_char-filled c [] = refl
    add_char-filled c (t ∷ ts) = refl

without_first-add_char :
    (c : ℕ) (ts : List Text) → is_empty ts ≡ false → without_first (add_char c ts) ≡ ts
without_first-add_char c [] h = absurd (ground arith)
without_first-add_char c (t ∷ ts) h = refl

module _ (ps qs : List Text) (h : is_empty ps ≡ false) where
  add_char-append : (c : ℕ) → add_char c (ps ++ qs) ≡ add_char c ps ++ qs
  add_char-append c = split_off ps h
    where
      split_off :
          (ts : List Text) → is_empty ts ≡ false → add_char c (ts ++ qs) ≡ add_char c ts ++ qs
      split_off [] k = absurd (ground arith)
      split_off (t ∷ ts) k = refl

  without_first-append : without_first (ps ++ qs) ≡ without_first ps ++ qs
  without_first-append = split_off ps h
    where
      split_off :
          (ts : List Text) → is_empty ts ≡ false → without_first (ts ++ qs) ≡ without_first ts ++ qs
      split_off [] k = absurd (ground arith)
      split_off (t ∷ ts) k = refl

begins_with-mark : (t rest : Text) → begins_with b'#' (t ++ (b'\n' ∷ rest)) ≡ begins_with b'#' t
begins_with-mark [] rest = refl
begins_with-mark (c ∷ t) rest = refl

-- What stands behind a "\n#" is in pieces of its own.
pub pieces-append : (t rest : Text) → pieces (t ++ (b'\n' ∷ b'#' ∷ rest)) ≡ pieces t ++ pieces rest
unfolding pieces
pieces-append [] rest = ap (◌∷◌ []) (without_first-add_char b'#' (pieces rest) (pieces-filled rest))
pieces-append (c ∷ t) rest =
    let same = pieces-append t rest in
    let mark = begins_with-mark t (b'#' ∷ rest) in
    elim (Bool-cases (c == b'\n' && begins_with b'#' t)) [
      | inl e ↦
          rw (mark, same, e, without_first-append (pieces t) (pieces rest) (pieces-filled t)) refl
      | inr e ↦
          rw (mark, same, e, add_char-append (pieces t) (pieces rest) (pieces-filled t) c) refl
    ]
