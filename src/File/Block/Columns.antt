-- ===== src/File/Block/Columns.antt =====
-- The number of columns that the lines of a block give.
use chess_pyspec.Base.{
  ℕ, ◌≡◌, refl, Option, none, some, List, [], ◌∷◌, Text, ◌⊎◌, inl, inr, Bool-cases, Option-cases,
}
use chess_pyspec.Base.Blank.{words, strip}
use chess_pyspec.Base.Int.{ℤ, pos, eq_ℤ, eq_ℤ-eq}
use chess_pyspec.Base.Result.{ok, value_error, or_raise, Ensures, returns, raises, Ensures-bind}
use chess_pyspec.File.Block.{
  Metadata, Handler, add_s_line, add_epoch_line, add_columns_line, add_label_line, call, labelled,
  numbered, handler_of,
}
use chess_pyspec.File.Block.Parse.{called}

-- The number of columns stays, once it is not 0.
abbrev pub KeepsColumns : Metadata → Metadata → Type 0
KeepsColumns m n = (m.columns ≡ pos 0) ⊎ (n.columns ≡ m.columns)

labelled-KeepsColumns :
    (o : Option (List Text)) (content : Text) (m : Metadata) → KeepsColumns m (labelled o content m)
labelled-KeepsColumns (some ls) content m = inr refl
labelled-KeepsColumns none content m = elim (Bool-cases (eq_ℤ m.columns (pos 0))) [
  | inl h ↦ inl (eq_ℤ-eq m.columns (pos 0) h)
  | inr h ↦ inr (rw h refl)
]

module _ (int : Text → Option ℤ) where
  numbered-KeepsColumns :
      (ws : List Text) (m : Metadata) → Ensures (KeepsColumns m) (numbered int ws m)
  numbered-KeepsColumns [] m = raises
  numbered-KeepsColumns (w ∷ ws) m =
      Ensures-bind (or_raise (int w) value_error) _ λ n _. returns (inr refl)

  pub call-KeepsColumns :
      (h : Handler) (content val : Text) (m : Metadata)
      → Ensures (KeepsColumns m) (call int h content val m)
  unfolding call
  call-KeepsColumns add_epoch_line content val m =
      Ensures-bind (or_raise (int content) value_error) _ λ n _. returns (inr refl)
  call-KeepsColumns add_s_line content val m = numbered-KeepsColumns (words content) m
  call-KeepsColumns add_columns_line content val m = elim (Bool-cases (eq_ℤ m.columns (pos 0))) [
    | inl h ↦ rw h (
        Ensures-bind (or_raise (int content) value_error) (λ n. ok (record m { columns = n }))
          λ n _. returns (inl (eq_ℤ-eq m.columns (pos 0) h)))
    | inr h ↦ rw h (returns (inr refl))
  ]
  call-KeepsColumns add_label_line content val m =
      returns (labelled-KeepsColumns m.labels content m)
  call-KeepsColumns _ content val m = returns (inr refl)

abbrev pub All? {ℓ} : {A : Type 0} → (A → Type ℓ) → Option A → Type ℓ
All? P none = Unit
All? P (some a) = P a

pub called-KeepsColumns :
    (int : Text → Option ℤ) (c : ℕ) (f : Text × Text) (m : Metadata)
    → All? (Ensures (KeepsColumns m)) (called int c f m)
unfolding called
called-KeepsColumns int c f m = elim (Option-cases (handler_of c)) [
  | inl e ↦ rw (e, All?) tt
  | inr (h, e) ↦ rw (e, All?) (call-KeepsColumns int h (strip f.1) f.0 m)
]
