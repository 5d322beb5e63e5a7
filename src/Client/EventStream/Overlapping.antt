-- ===== src/Client/EventStream/Overlapping.antt =====
-- Scopes that overlap.
use chess_pyspec.Base.{
  ℕ, ◌+◌, ◌≡◌, refl, ap, ◌∙◌, Bool, true, false, Option, List, [], ◌∷◌, ◌++◌, drop, ◌==◌,
}
use chess_pyspec.Base.Result.{key_error}
use chess_pyspec.Client.EventStream.{Step, enter, leave, Stream, leave_scope, without, step, run}
use chess_pyspec.Client.EventStream.Nested.{
  Block, steps, values, within, closed, later, seen, kept, run-enter, run-leave, run-first, inside,
  within-append,
}

module _ {V : Type 0} where
  -- No scope is open, and the function of the scope i still listens.
  abbrev pub leaked : ℕ → ℕ → Bool → List V → List V → Stream V
  leaked i w f us es = record {
    depth = 0;
    watchers = w;
    skipping = (i, f) ∷ [];
    listening = true;
    updates = us;
    events = es;
  }

  -- Two scopes, of which the first is left before the second
  abbrev pub overlapping : ℕ → ℕ → Block V → Block V → Block V → List (Step V)
  overlapping i j a b c =
      enter i ∷ (steps a ++ (enter j ∷ (steps b ++ (leave i ∷ (steps c ++ (leave j ∷ []))))))

module _ {V : Type 0} (cast_value : V → Option V) where
  run-last_other :
      (i j w : ℕ) (f : Bool) (us es : List V)
      → (i == j) ≡ false
      → run cast_value (leave j ∷ []) (within 0 w i f us es) ≡ (leaked i w f us es, key_error ∷ [])
  run-last_other i j w f us es h = unfold run step leave_scope without in rw h refl

  within-append_two :
      (d w i : ℕ) (us es xs ys zs : List V)
      → within d w i
          (seen (seen (seen false xs) ys) zs)
          (((us ++ kept cast_value (later false xs)) ++ kept cast_value (later (seen false xs) ys))
            ++ kept cast_value (later (seen (seen false xs) ys) zs))
          (((es ++ xs) ++ ys) ++ zs)
        ≡ within d w i
            (seen false (xs ++ (ys ++ zs)))
            (us ++ kept cast_value (drop 1 (xs ++ (ys ++ zs))))
            (es ++ (xs ++ (ys ++ zs)))
  within-append_two d w i us es xs ys zs =
      within-append cast_value d w i (seen false xs) (us ++ kept cast_value (later false xs))
        (es ++ xs) ys zs
      ∙ within-append cast_value d w i false us es xs (ys ++ zs)

  -- Where scope i is left before scope j, which was entered within it, leaving j raises KeyError:
  -- every value was an event, and every value but the first an update, as its cast, where it has
  -- one, but the functions of i still listen, and the subscriptions are one more than before.
  pub run-overlapping :
      (i j w : ℕ) (a b c : Block V) (us es : List V)
      → (i == j) ≡ false
      → run cast_value (overlapping i j a b c) (closed w us es) ≡ (
        leaked i
            (w + 1)
            (seen false (values a ++ (values b ++ values c)))
            (us ++ kept cast_value (drop 1 (values a ++ (values b ++ values c))))
            (es ++ (values a ++ (values b ++ values c))),
        key_error ∷ [],
      )
  run-overlapping i j w a b c us es h =
      run-first cast_value i _ w us es
      ∙ inside cast_value a _ 0 (w + 1) i false us es
      ∙ run-enter cast_value j _ 0 (w + 1) i _ _ _
      ∙ inside cast_value b _ 1 (w + 1 + 1) i _ _ _
      ∙ run-leave cast_value i _ 0 (w + 1) i _ _ _
      ∙ inside cast_value c (leave j ∷ []) 0 (w + 1) i _ _ _
      ∙ ap (run cast_value (leave j ∷ [])) (within-append_two 0 (w + 1) i us es _ _ _)
      ∙ run-last_other i j (w + 1) _ _ _ h
