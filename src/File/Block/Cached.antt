-- ===== src/File/Block/Cached.antt =====
-- A scan is parsed once: the getters of pyspec/file/spec.py read what the first of them parsed.
use chess_pyspec.Base.{
  ◌≡◌, refl, sym, ap, ◌∙◌, subst, inl, inr, Bool, true, false, Option, none, some, List, length,
  ◌==◌, if◌then◌else◌, Text, Bool-cases,
}
use chess_pyspec.Base.Int.{ℤ}
use chess_pyspec.Base.Result.{
  Result, ok, ok-injective, ◌>>=◌, >>=-eq-ok, Ensures, returns, Ensures-bind, Ensures-eq,
}
use chess_pyspec.File.Block.Getters.{ScanBlock, motor_labels_of, parsed, get}
use chess_pyspec.File.Block.Parse.{
  finalize_parsing, parse_header, parse_scan, read_pieces, start_of,
}
use chess_pyspec.File.Block.{Block}

finalize_parsing-parsed :
    {V : Type 0} (o : Option (List Text)) (b : Block V)
    → (finalize_parsing o b).is_parsed ≡ b.is_parsed
unfolding finalize_parsing
finalize_parsing-parsed none b = refl
finalize_parsing-parsed (some ls) b =
    elim (Bool-cases (length ls == length b.meta.motor_positions)) [
      | inl e ↦ rw e refl
      | inr e ↦ rw e refl
    ]

abbrev Parsed : (V : Type 0) → ScanBlock V → Type 0
Parsed V s = s.block.is_parsed ≡ true

module _ {V : Type 0} (int : Text → Option ℤ) (float : Text → Option V) where
  parse_header-parsed : (b : Block V) → Ensures (λ p. p.is_parsed ≡ true) (parse_header int float b)
  unfolding parse_header
  parse_header-parsed b =
      Ensures-bind (read_pieces int float b.lines (start_of b)) _ λ r e. returns refl

  parse_scan-parsed :
      (header : Option (List Text)) (b : Block V)
      → Ensures (λ p. p.is_parsed ≡ true) (parse_scan int float header b)
  unfolding parse_scan
  parse_scan-parsed header b =
      Ensures-bind (parse_header int float b) _
        λ p e. returns (finalize_parsing-parsed _ p ∙ Ensures-eq _ (parse_header-parsed b) e)

  parsed-Parsed : (s : ScanBlock V) → Ensures (Parsed V) (parsed int float s)
  unfolding parsed
  parsed-Parsed s = decided s.block.is_parsed refl
    where
      with_block : Block V → Result (ScanBlock V)
      with_block b = ok (record s { block = b })

      decided :
          (x : Bool)
          → s.block.is_parsed ≡ x
          → Ensures (Parsed V) (
              if x
              then ok s
              else (parse_scan int float (motor_labels_of s.fileheader) s.block >>= with_block))
      decided true e = returns e
      decided false e =
          Ensures-bind (parse_scan int float (motor_labels_of s.fileheader) s.block) with_block
            λ b q.
              returns (Ensures-eq _ (parse_scan-parsed (motor_labels_of s.fileheader) s.block) q)

  -- A getter that returns gives the value that the scan has after it; from then on the scan is
  -- parsed, and every such getter returns its value and leaves the scan as it is.
  pub get-get :
      {A B : Type 0} (f : ScanBlock V → A) (g : ScanBlock V → B) (s t : ScanBlock V) (v : A)
      → get int float f s ≡ ok (t, v)
      → (v ≡ f t) × (get int float g t ≡ ok (t, g t))
  unfolding get
  get-get {B = B} f g s t v e =
      let (p, q, k) = >>=-eq-ok (parsed int float s) (λ x. ok (x, f x)) e in
      let same = ok-injective k in
      let read : Parsed V t =
        subst (Parsed V) (ap (λ x. x.0) same) (Ensures-eq _ (parsed-Parsed s) q) in
      (ap (λ x. x.1) (sym same) ∙ ap (λ x. f x.0) same, again t read)
    where
      result : ScanBlock V → Result (ScanBlock V × B)
      result p = ok (p, g p)

      again : (t : ScanBlock V) → Parsed V t → (parsed int float t >>= result) ≡ ok (t, g t)
      again t h = unfold parsed in rw h refl
