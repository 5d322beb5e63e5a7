-- ===== src/File/Save/Pieces.antt =====
-- The pieces of a file that `save` wrote.
use chess_pyspec.Base.{
  ℕ, ◌≡◌, refl, ap, subst, ◌∙◌, inl, inr, true, false, List, [], ◌∷◌, ◌++◌, ◌==◌, ==_iff, All, Text,
  Bool-cases,
}
use chess_pyspec.Base.Blank.{is_space}
use chess_pyspec.Base.Texts.{terminated, has_char, Lacks, Lacks-append, Lacks-cons}
use chess_pyspec.File.Block.{spaced_out}
use chess_pyspec.File.Index.Pieces.{pieces-append}
use chess_pyspec.File.Index.{pieces, begins_with}
use chess_pyspec.File.Save.Ink.{IsWord, all_ink, and_split}

pieces-Lacks : (t : Text) → Lacks b'\n' t → pieces t ≡ t ∷ []
unfolding pieces
pieces-Lacks [] h = refl
pieces-Lacks (c ∷ t) h =
    let (other, k) = Lacks-cons b'\n' c t h in rw (other, pieces-Lacks t k) refl

-- A text without a newline is a piece, where "\n#" stands behind it.
pub pieces-line_append :
    (t rest : Text) → Lacks b'\n' t → pieces (t ++ (b'\n' ∷ b'#' ∷ rest)) ≡ t ∷ pieces rest
pieces-line_append t rest h = pieces-append t rest ∙ ap (◌++ pieces rest) (pieces-Lacks t h)

pieces-line :
    (t u : Text)
    → Lacks b'\n' t
    → begins_with b'#' u ≡ false
    → pieces u ≡ u ∷ []
    → pieces (t ++ (b'\n' ∷ u)) ≡ (t ++ (b'\n' ∷ u)) ∷ []
unfolding pieces
pieces-line [] u h b e = rw (b, e) refl
pieces-line (c ∷ t) u h b e =
    let (other, k) = Lacks-cons b'\n' c t h in rw (other, pieces-line t u k b e) refl

-- A line that stands in one piece with the line before it
abbrev pub IsPlain : Text → Type 0
IsPlain t = Lacks b'\n' t × (begins_with b'#' t ≡ false)

begins_with-terminated :
    (ts : List Text) → All IsPlain ts → begins_with b'#' (terminated b'\n' ts) ≡ false
unfolding terminated
begins_with-terminated [] h = refl
begins_with-terminated ([] ∷ ts) h = refl
begins_with-terminated ((c ∷ t) ∷ ts) h = h.0.1

pub pieces-terminated :
    (ts : List Text) → All IsPlain ts → pieces (terminated b'\n' ts) ≡ terminated b'\n' ts ∷ []
unfolding terminated
pieces-terminated [] h = unfold pieces in refl
pieces-terminated (t ∷ ts) h =
    pieces-line t (terminated b'\n' ts) h.0.0 (begins_with-terminated ts h.1)
      (pieces-terminated ts h.1)

pub Lacks-other : (c : ℕ) (t : Text) → (c == b'\n') ≡ false → Lacks b'\n' t → Lacks b'\n' (c ∷ t)
unfolding has_char
Lacks-other c t h k = rw (h, k) refl

newline_space : (c : ℕ) → is_space c ≡ false → (c == b'\n') ≡ false
newline_space c h = elim (Bool-cases (c == b'\n')) [
  | inl e ↦ absurd (true_ne_false (subst (λ x. is_space x ≡ false) ((==_iff c b'\n').0 e) h))
  | inr e ↦ e
]
  where
    true_ne_false : is_space b'\n' ≡ false → ⊥
    true_ne_false k = unfold is_space in cc

pub Lacks-ink : (t : Text) → all_ink t ≡ true → Lacks b'\n' t
unfolding has_char all_ink
Lacks-ink [] h = refl
Lacks-ink (c ∷ t) h =
    let (s, k) = and_split (is_space c) (all_ink t) h in rw (newline_space c s, Lacks-ink t k) refl

pub Lacks-spaced_out : (ts : List Text) → All IsWord ts → Lacks b'\n' (spaced_out ts)
unfolding spaced_out
Lacks-spaced_out [] h = unfold has_char in refl
Lacks-spaced_out (t ∷ []) h = Lacks-ink t h.0.1
Lacks-spaced_out (t ∷ u ∷ ts) h =
    Lacks-append b'\n' t _ (Lacks-ink t h.0.1)
      (Lacks-other b' ' _ refl (Lacks-spaced_out (u ∷ ts) h.1))
