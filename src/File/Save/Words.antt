-- ===== src/File/Save/Words.antt =====
-- Labels of a line, read back from the line that joins them.
use chess_pyspec.Base.{
  ℕ, ◌≡◌, refl, subst, ap, ◌∙◌, inl, inr, Bool, true, false, not, ◌&&◌, List, [], ◌∷◌, ◌++◌,
  append-nil, All, Text, arith, Bool-cases, is_empty,
}
use chess_pyspec.Base.Blank.{is_space, lstrip, rstrip_space, strip}
use chess_pyspec.Base.Spacing.{in_field, spaced, in_gap, fields_in, split_wide}
use chess_pyspec.Base.Texts.{join_with}
use chess_pyspec.File.Save.Ink.{all_ink, IsWord, label_from, IsLabel, false_ne_true, and_split}

-- Where a field has been read as far as a text `rest` that ends it, the label in front of that text is
-- a field; so it is behind a space that belongs to the field.
abbrev Reads : Text → Text → List Text → Type 0
Reads t rest fs =
    (label_from false t ≡ true → fields_in in_field (t ++ rest) ≡ t ∷ fs)
    × ((s : ℕ) → label_from true t ≡ true → fields_in (spaced s) (t ++ rest) ≡ (s ∷ t) ∷ fs)

and_right : (a b : Bool) → (a && b) ≡ true → (a ≡ true) × (b ≡ true)
and_right true b h = (refl, h)
and_right false b h = absurd (ground arith)

label_from-next :
    (edge b : Bool) (c : ℕ) (t : Text)
    → is_space c ≡ b
    → label_from edge (c ∷ t) ≡ true
    → (not (edge && b) ≡ true) × (label_from b t ≡ true)
unfolding label_from
label_from-next edge b c t k h =
    subst (λ x. (not (edge && x) ≡ true) × (label_from x t ≡ true)) k
      (and_right (not (edge && is_space c)) (label_from (is_space c) t) h)

Reads-cons : (c : ℕ) (t rest : Text) (fs : List Text) → Reads t rest fs → Reads (c ∷ t) rest fs
unfolding fields_in
Reads-cons c t rest fs h = elim (Bool-cases (is_space c)) [
  | inl k ↦ (
    λ e. rw k (h.1 c (label_from-next false true c t k e).1),
    λ s e. absurd (false_ne_true (label_from-next true true c t k e).0),
  )
  | inr k ↦ (
    λ e. rw (k, h.0 (label_from-next false false c t k e).1) refl,
    λ s e. rw (k, h.0 (label_from-next true false c t k e).1) refl,
  )
]

fields_in-Reads :
    (t rest : Text) (fs : List Text) → fields_in in_field rest ≡ [] ∷ fs → Reads t rest fs
fields_in-Reads [] rest fs e = (λ h. e, λ s h. absurd (false_ne_true (unfold label_from in h)))
fields_in-Reads (c ∷ t) rest fs e = Reads-cons c t rest fs (fields_in-Reads t rest fs e)

label_inside : (t : Text) → IsLabel t → label_from false t ≡ true
unfolding label_from
label_inside [] h = refl
label_inside (c ∷ t) h = (and_right (not (is_space c)) (label_from (is_space c) t) h).1

-- The first character of a label ends a gap.
gap-ink :
    (t rest : Text) → IsLabel t → fields_in in_gap (t ++ rest) ≡ fields_in in_field (t ++ rest)
gap-ink [] rest h = absurd (false_ne_true (unfold label_from in h))
gap-ink (c ∷ t) rest h = elim (Bool-cases (is_space c)) [
  | inl k ↦ absurd (false_ne_true (label_from-next true true c t k h).0)
  | inr k ↦ unfold fields_in in rw k refl
]

fields_in-gap :
    (sep : Text) (l : Text) (ls : List Text)
    → IsLabel l
    → fields_in in_gap (join_with sep (l ∷ ls)) ≡ fields_in in_field (join_with sep (l ∷ ls))
unfolding join_with
fields_in-gap sep l [] h =
    subst (λ t. fields_in in_gap t ≡ fields_in in_field t) (append-nil l) (gap-ink l [] h)
fields_in-gap sep l (m ∷ ls) h = gap-ink l (sep ++ join_with sep (m ∷ ls)) h

no_fields : fields_in in_field [] ≡ [] ∷ []
unfolding fields_in
no_fields = refl

gap-fields :
    (t : Text) (fs : List Text)
    → fields_in in_gap t ≡ fs
    → fields_in in_field (b' ' ∷ b' ' ∷ t) ≡ [] ∷ fs
gap-fields t fs h = unfold fields_in is_space in ap (◌∷◌ []) h

fields_in-join_with :
    (l : Text) (ls : List Text)
    → All IsLabel (l ∷ ls)
    → fields_in in_field (join_with (b' ' ∷ b' ' ∷ []) (l ∷ ls)) ≡ l ∷ ls
unfolding join_with
fields_in-join_with l [] h =
    subst (λ t. fields_in in_field t ≡ l ∷ []) (append-nil l)
      ((fields_in-Reads l [] [] no_fields).0 (label_inside l h.0))
fields_in-join_with l (m ∷ ls) h =
    let rest = join_with (b' ' ∷ b' ' ∷ []) (m ∷ ls) in
    let read : fields_in in_gap rest ≡ m ∷ ls =
      fields_in-gap (b' ' ∷ b' ' ∷ []) m ls h.1.0 ∙ fields_in-join_with m ls h.1 in
    (fields_in-Reads l (b' ' ∷ b' ' ∷ rest) (m ∷ ls) (gap-fields rest (m ∷ ls) read)).0
      (label_inside l h.0)

-- Labels that two spaces join are split again.
pub split_wide-join_with :
    (l : Text) (ls : List Text)
    → All IsLabel (l ∷ ls)
    → split_wide (join_with (b' ' ∷ b' ' ∷ []) (l ∷ ls)) ≡ l ∷ ls
unfolding split_wide
split_wide-join_with = fields_in-join_with

-- A text that `strip` leaves as it is
abbrev pub IsTrimmed : Text → Type 0
IsTrimmed t = (lstrip t ≡ t) × (rstrip_space t ≡ t) × (is_empty t ≡ false)

filled : (s t : Text) → is_empty t ≡ false → is_empty (s ++ t) ≡ false
filled [] t h = h
filled (c ∷ s) t h = refl

rstrip_space-append :
    (s t : Text) → is_empty t ≡ false → rstrip_space t ≡ t → rstrip_space (s ++ t) ≡ s ++ t
unfolding rstrip_space
rstrip_space-append [] t h e = e
rstrip_space-append (c ∷ s) t h e = rw (rstrip_space-append s t h e, filled s t h) refl

pub strip-space : (t : Text) → IsTrimmed t → strip (b' ' ∷ t) ≡ t
strip-space t h = unfold strip lstrip is_space in rw (h.0, h.1) refl

pub strip-IsTrimmed : (t : Text) → IsTrimmed t → strip t ≡ t
strip-IsTrimmed t h = unfold strip in rw (h.0, h.1) refl

lstrip-label : (t rest : Text) → IsLabel t → lstrip (t ++ rest) ≡ t ++ rest
lstrip-label [] rest h = absurd (false_ne_true (unfold label_from in h))
lstrip-label (c ∷ t) rest h = elim (Bool-cases (is_space c)) [
  | inl k ↦ absurd (false_ne_true (label_from-next true true c t k h).0)
  | inr k ↦ unfold lstrip in rw k refl
]

rstrip_space-label : (edge : Bool) (t : Text) → label_from edge t ≡ true → rstrip_space t ≡ t
unfolding rstrip_space
rstrip_space-label edge [] h = refl
rstrip_space-label edge (c ∷ []) h = elim (Bool-cases (is_space c)) [
  | inl k ↦ absurd (false_ne_true (unfold label_from in (label_from-next edge true c [] k h).1))
  | inr k ↦ rw k refl
]
rstrip_space-label edge (c ∷ d ∷ t) h =
    rstrip_space-append (c ∷ []) (d ∷ t) refl (
      rstrip_space-label (is_space c) (d ∷ t)
        (label_from-next edge (is_space c) c (d ∷ t) refl h).1)

label_filled : (t : Text) → IsLabel t → is_empty t ≡ false
label_filled [] h = absurd (false_ne_true (unfold label_from in h))
label_filled (c ∷ t) h = refl

pub IsLabel-IsTrimmed : (t : Text) → IsLabel t → IsTrimmed t
IsLabel-IsTrimmed t h = (
  subst (λ u. lstrip u ≡ u) (append-nil t) (lstrip-label t [] h),
  rstrip_space-label true t h,
  label_filled t h,
)

pub join_with-IsTrimmed :
    (sep : Text) (l : Text) (ls : List Text)
    → All IsLabel (l ∷ ls)
    → IsTrimmed (join_with sep (l ∷ ls))
unfolding join_with
join_with-IsTrimmed sep l [] h = IsLabel-IsTrimmed l h.0
join_with-IsTrimmed sep l (m ∷ ls) h =
    let rest = join_with-IsTrimmed sep m ls h.1 in
    let full = filled sep _ rest.2 in
    (
      lstrip-label l (sep ++ join_with sep (m ∷ ls)) h.0,
      rstrip_space-append l _ full (rstrip_space-append sep (join_with sep (m ∷ ls)) rest.2 rest.1),
      filled l _ full,
    )

ink-label : (t : Text) → all_ink t ≡ true → label_from false t ≡ true
unfolding all_ink label_from
ink-label [] h = refl
ink-label (c ∷ t) h =
    let (s, k) = and_split (is_space c) (all_ink t) h in rw (s, ink-label t k) refl

pub IsWord-label : (t : Text) → IsWord t → IsLabel t
IsWord-label [] h = absurd (ground arith)
IsWord-label (c ∷ t) h =
    let (s, k) = and_split (is_space c) (all_ink t) (unfold all_ink in h.1) in
    unfold label_from in rw (s, ink-label t k) refl
