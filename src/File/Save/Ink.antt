-- ===== src/File/Save/Ink.antt =====
-- Words of a line, read back from the line that joins them.
use chess_pyspec.Base.{
  ℕ, ◌≡◌, refl, sym, subst, ap, ◌∙◌, inl, inr, Bool, true, false, not, ◌&&◌, List, [], ◌∷◌, ◌++◌,
  append-nil, All, Text, arith, Bool-cases, is_empty,
}
use chess_pyspec.Base.Blank.{is_space, lstrip, rstrip_space, strip, words, words_from}
use chess_pyspec.File.Block.{spaced_out}

-- No character of the text is white space.
unfoldable pub all_ink : Text → Bool
unfolding is_space
all_ink [] = true
all_ink (c ∷ cs) = not (is_space c) && all_ink cs

abbrev pub IsWord : Text → Type 0
IsWord t = (is_empty t ≡ false) × (all_ink t ≡ true)

-- Behind a space, or at the start, and elsewhere: no white space at either end, and only single
-- characters of it in between.
unfoldable pub label_from : Bool → Text → Bool
unfolding is_space
label_from edge [] = not edge
label_from edge (c ∷ cs) = not (edge && is_space c) && label_from (is_space c) cs

abbrev pub IsLabel : Text → Type 0
IsLabel t = label_from true t ≡ true

pub false_ne_true : false ≡ true → ⊥
false_ne_true h = cc

pub and_split : (a b : Bool) → (not a && b) ≡ true → (a ≡ false) × (b ≡ true)
and_split true b h = absurd (ground arith)
and_split false b h = (refl, h)

words_from-ink :
    (w t : Text)
    → all_ink w ≡ true
    → words_from (w ++ t) ≡ (w ++ (words_from t).0, (words_from t).1)
unfolding words_from all_ink
words_from-ink [] t h = refl
words_from-ink (c ∷ w) t h =
    let (s, k) = and_split (is_space c) (all_ink w) h in rw (s, words_from-ink w t k) refl

pub words-append : (w t : Text) → IsWord w → words (w ++ (b' ' ∷ t)) ≡ w ∷ words t
unfolding words
words-append (c ∷ w) t h =
    rw (words_from-ink (c ∷ w) (b' ' ∷ t) h.1) (unfold words_from is_space in rw append-nil refl)
words-append [] t h = absurd (ground arith)

pub words-IsWord : (w : Text) → IsWord w → words w ≡ w ∷ []
unfolding words
words-IsWord (c ∷ w) h =
    let read : words_from (c ∷ w) ≡ (c ∷ w, []) =
      subst (λ x. words_from x ≡ (x, [])) (append-nil (c ∷ w))
        (unfold words_from in words_from-ink (c ∷ w) [] h.1) in
    rw read refl
words-IsWord [] h = absurd (ground arith)

pub words-spaced_out : (ws : List Text) → All IsWord ws → words (spaced_out ws) ≡ ws
unfolding spaced_out
words-spaced_out [] h = unfold words words_from in refl
words-spaced_out (w ∷ []) h = words-IsWord w h.0
words-spaced_out (w ∷ u ∷ ws) h = words-append w _ h.0 ∙ ap (◌∷◌ w) (words-spaced_out (u ∷ ws) h.1)

pub words-space : (c : ℕ) (t : Text) → is_space c ≡ true → words (c ∷ t) ≡ words t
unfolding words words_from
words-space c t h = rw h refl

words-lstrip : (t : Text) → words (lstrip t) ≡ words t
unfolding lstrip
words-lstrip [] = refl
words-lstrip (c ∷ cs) = elim (Bool-cases (is_space c)) [
  | inl e ↦ rw e (words-lstrip cs ∙ sym (words-space c cs e))
  | inr e ↦ rw e refl
]

both : (t : Text) (b : Bool) → (is_empty t && b) ≡ true → (t ≡ []) × (b ≡ true)
both [] b h = (refl, h)
both (c ∷ t) b h = absurd (ground arith)

words_from-cons :
    (c : ℕ) (t u : Text) → words_from t ≡ words_from u → words_from (c ∷ t) ≡ words_from (c ∷ u)
unfolding words_from
words_from-cons c t u h = rw h refl

words_from-space :
    (c : ℕ) (t : Text)
    → is_space c ≡ true
    → words_from [] ≡ words_from t
    → words_from [] ≡ words_from (c ∷ t)
words_from-space c t e h = unfold words_from in rw (e, ← h, words_from) refl

words_from-rstrip_space : (t : Text) → words_from (rstrip_space t) ≡ words_from t
unfolding rstrip_space
words_from-rstrip_space [] = refl
words_from-rstrip_space (c ∷ cs) =
    let same = words_from-rstrip_space cs in
    elim (Bool-cases (is_empty (rstrip_space cs) && is_space c)) [
      | inl e ↦
          let (blank, space) = both (rstrip_space cs) (is_space c) e in
          rw e (words_from-space c cs space (ap words_from (sym blank) ∙ same))
      | inr e ↦ rw e (words_from-cons c _ cs same)
    ]

pub words-strip : (t : Text) → words (strip t) ≡ words t
unfolding strip
words-strip t =
    let same : words (rstrip_space (lstrip t)) ≡ words (lstrip t) =
      unfold words in rw (words_from-rstrip_space (lstrip t)) refl in
    same ∙ words-lstrip t
