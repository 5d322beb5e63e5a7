-- ===== src/SpecSyntax/Safety.antt =====
-- What an expression that a client sends can make the server evaluate.
use chess_pyspec.Base.{◌≡◌, refl, ap, ◌∙◌, Option, none, some, List, [], ◌∷◌, ◌++◌, Text, inl, inr}
use chess_pyspec.Base.Result.{
  Result, ok, err, value_error, ◌>>=◌, >>=-eq-ok, >>=-ok, Result-cases, ok-injective,
}
use chess_pyspec.Platform.{Floats, Numpy}
use chess_pyspec.Payload.{of_element}
use chess_pyspec.AssociativeArray.{AssociativeArray, Key, get_item}
use chess_pyspec.SpecSyntax.{
  Objects, Expr, constant, name, subscript, call, other, Exprs, nil, cons, Entries, end, entry,
  unpacked, index_all, wrap, subscripted, chain, evaluate, evaluate_all, evaluate_entries,
}

-- An expression with no call and no other node that the evaluator does not know.
abbrev mutual
  pub IsInert : {V : Type 0} → Expr V → Type 0
  IsInert (constant v) = Unit
  IsInert (Expr.tuple es) = AllInert es
  IsInert (Expr.list es) = AllInert es
  IsInert (Expr.set es) = AllInert es
  IsInert (Expr.dict es) = EntriesInert es
  IsInert (name s) = Unit
  IsInert (subscript e s) = IsInert e × IsInert s
  IsInert (call f args keywords) = ⊥
  IsInert other = ⊥

  pub AllInert : {V : Type 0} → Exprs V → Type 0
  AllInert nil = Unit
  AllInert (cons e es) = IsInert e × AllInert es

  pub EntriesInert : {V : Type 0} → Entries V → Type 0
  EntriesInert end = Unit
  EntriesInert (entry k e es) = IsInert k × IsInert e × EntriesInert es
  EntriesInert (unpacked e es) = ⊥

module _ {fl : Floats} {np : Numpy} (py : Objects fl np)
    (resolve : Option (Text → Result py.V)) where
  open py use {V, index, as_assoc}

  mutual
    unfolding chain

    chain-IsInert : (e : Expr V) {r : List V × V} → chain py resolve e ≡ ok r → IsInert e
    chain-IsInert (constant v) h = tt
    chain-IsInert (Expr.tuple es) h =
        let (v, hv, _) = >>=-eq-ok (evaluate_all py resolve es >>= (λ vs. ok (py.tuple vs))) _ h in
        let (vs, hvs, _) = >>=-eq-ok (evaluate_all py resolve es) _ hv in
        evaluate_all-AllInert es hvs
    chain-IsInert (Expr.list es) h =
        let (v, hv, _) = >>=-eq-ok (evaluate_all py resolve es >>= (λ vs. ok (py.list vs))) _ h in
        let (vs, hvs, _) = >>=-eq-ok (evaluate_all py resolve es) _ hv in
        evaluate_all-AllInert es hvs
    chain-IsInert (Expr.set es) h =
        let (v, hv, _) = >>=-eq-ok (evaluate_all py resolve es >>= py.set) _ h in
        let (vs, hvs, _) = >>=-eq-ok (evaluate_all py resolve es) _ hv in
        evaluate_all-AllInert es hvs
    chain-IsInert (Expr.dict es) h =
        let (v, hv, _) = >>=-eq-ok (evaluate_entries py resolve es >>= py.dict) _ h in
        let (vs, hvs, _) = >>=-eq-ok (evaluate_entries py resolve es) _ hv in
        evaluate_entries-EntriesInert es hvs
    chain-IsInert (name s) h = tt
    chain-IsInert (subscript e s) h =
        let (k, hk, h₁) = >>=-eq-ok (chain py resolve s >>= subscripted py) _ h in
        let (r, hr, _) = >>=-eq-ok (chain py resolve s) _ hk in
        let (t, ht, _) = >>=-eq-ok (chain py resolve e) _ h₁ in
        (chain-IsInert e ht, chain-IsInert s hr)
    chain-IsInert (call f args keywords) h = cc
    chain-IsInert other h = cc

    evaluate_all-AllInert :
        (es : Exprs V) {vs : List V} → evaluate_all py resolve es ≡ ok vs → AllInert es
    evaluate_all-AllInert nil h = tt
    evaluate_all-AllInert (cons e es) h =
        let (v, hv, h₁) = >>=-eq-ok (chain py resolve e >>= subscripted py) _ h in
        let (r, hr, _) = >>=-eq-ok (chain py resolve e) _ hv in
        let (vs, hvs, _) = >>=-eq-ok (evaluate_all py resolve es) _ h₁ in
        (chain-IsInert e hr, evaluate_all-AllInert es hvs)

    evaluate_entries-EntriesInert :
        (es : Entries V) {vs : List (V × V)}
        → evaluate_entries py resolve es ≡ ok vs
        → EntriesInert es
    evaluate_entries-EntriesInert end h = tt
    evaluate_entries-EntriesInert (entry k e es) h =
        let (a, ha, h₁) = >>=-eq-ok (chain py resolve k >>= subscripted py) _ h in
        let (r, hr, _) = >>=-eq-ok (chain py resolve k) _ ha in
        let (b, hb, h₂) = >>=-eq-ok (chain py resolve e >>= subscripted py) _ h₁ in
        let (q, hq, _) = >>=-eq-ok (chain py resolve e) _ hb in
        let (vs, hvs, _) = >>=-eq-ok (evaluate_entries py resolve es) _ h₂ in
        (chain-IsInert k hr, chain-IsInert e hq, evaluate_entries-EntriesInert es hvs)
    evaluate_entries-EntriesInert (unpacked e es) h = cc

  -- An expression that is evaluated to a value calls nothing: it has no call and no node of another
  -- kind at any depth.
  pub evaluate-IsInert : (e : Expr V) {v : V} → evaluate py resolve e ≡ ok v → IsInert e
  unfolding evaluate
  evaluate-IsInert e h = let (r, hr, _) = >>=-eq-ok (chain py resolve e) _ h in chain-IsInert e hr

  index_all-append :
      (v : V) (ks : List V) (k : V)
      → index_all py v (ks ++ (k ∷ [])) ≡ (index_all py v ks >>= λ w. index w k)
  unfolding index_all
  index_all-append v [] k = >>=-ok (index v k)
  index_all-append v (j ∷ ks) k = elim (Result-cases (index v j)) [
    | inl (w, e) ↦ rw e (index_all-append w ks k)
    | inr (x, e) ↦ rw e refl
  ]

  wrapped_ok : (r : Result V) {w : V} → wrap py r ≡ ok w → r ≡ ok w
  wrapped_ok (ok v) h = h
  wrapped_ok (err x) h = cc

  subscripted_more :
      (ks : List V) (v k : V) {w : V}
      → as_assoc v ≡ none
      → subscripted py (ks, v) ≡ ok w
      → subscripted py (ks ++ (k ∷ []), v) ≡ wrap py (index w k)
  unfolding subscripted
  subscripted_more [] v k n h =
      rw n (ap (wrap py) (index_all-append v [] k ∙ ap (λ x. index x k) (ok-injective h)))
  subscripted_more (j ∷ js) v k n h =
      let inner = wrapped_ok (index_all py v (j ∷ js)) (rw n at h) in
      rw n (ap (wrap py) (index_all-append v (j ∷ js) k ∙ ap (λ r. r >>= λ x. index x k) inner))

  chain-subscript :
      (e s : Expr V) {ks : List V} {v k : V}
      → chain py resolve e ≡ ok (ks, v)
      → evaluate py resolve s ≡ ok k
      → chain py resolve (subscript e s) ≡ ok (ks ++ (k ∷ []), v)
  unfolding chain evaluate
  chain-subscript e s he hs = rw (hs, he) refl

  -- Where an expression and a subscript have values, and the base of the expression is no
  -- associative array, the two together stand for the one value indexed by the other; any exception
  -- of that becomes a `SpecSyntaxError`.
  pub evaluate-subscript :
      (e s : Expr V) {ks : List V} {v w k : V}
      → chain py resolve e ≡ ok (ks, v)
      → as_assoc v ≡ none
      → evaluate py resolve e ≡ ok w
      → evaluate py resolve s ≡ ok k
      → evaluate py resolve (subscript e s) ≡ wrap py (index w k)
  unfolding evaluate
  evaluate-subscript e s {ks} {v} {w} {k} he n hw hs =
      ap (λ r. r >>= subscripted py) (chain-subscript e s he hs)
      ∙ subscripted_more ks v k n (rw he at hw)

  -- Where an expression is an associative array and three subscripts have values, the first two
  -- read the element with this pair of keys, an exception of that becoming a `SpecSyntaxError`, and
  -- all three are an error.
  pub evaluate-subscript_twice :
      (e s t u : Expr V) {v j k l : V} {a : AssociativeArray fl.F}
      → chain py resolve e ≡ ok ([], v)
      → as_assoc v ≡ some a
      → evaluate py resolve s ≡ ok j
      → evaluate py resolve t ≡ ok k
      → evaluate py resolve u ≡ ok l
      → (evaluate py resolve (subscript (subscript e s) t)
          ≡ wrap py (
              get_item fl a (Key.two (py.as_element j) (py.as_element k)) >>= λ x.
              ok (py.of_data (of_element x))))
        × (evaluate py resolve (subscript (subscript (subscript e s) t) u) ≡ err value_error)
  unfolding evaluate subscripted
  evaluate-subscript_twice e s t u he q hs ht hu =
      let two = chain-subscript (subscript e s) t (chain-subscript e s he hs) ht in
      (
        ap (λ r. r >>= subscripted py) two ∙ rw q refl,
        ap (λ r. r >>= subscripted py) (chain-subscript (subscript (subscript e s) t) u two hu)
            ∙ rw q refl,
      )
