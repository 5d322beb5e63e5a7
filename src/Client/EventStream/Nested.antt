-- ===== src/Client/EventStream/Nested.antt =====
-- Scopes that lie within one another.
use chess_pyspec.Base.{
  ℕ, suc, ◌+◌, ◌-◌, ◌≡◌, refl, ap, ◌∙◌, Bool, true, false, Option, sym, List, [], ◌∷◌, ◌++◌,
  append_assoc, append-nil, drop, ◌==◌, ==_refl, arith,
}
use chess_pyspec.Client.EventStream.{
  Step, enter, leave, received, Stream, enter_scope, leave_scope, without, receive, step, run,
  emit_update, emitted,
}

-- Values that arrive and scopes that lie within one another, in their order
pub data Block (V : Type 0) : Type 0 where
  done : Block V
  value : V → Block V → Block V
  scope : ℕ → Block V → Block V → Block V

suc_not_zero : (n : ℕ) → (suc n == 0) ≡ false
suc_not_zero n = ground arith

deeper : (n : ℕ) → (suc (suc n) - 1 == 0) ≡ false
deeper n = ground arith

module _ {V : Type 0} where
  unfoldable pub steps : Block V → List (Step V)
  steps done = []
  steps (value v b) = received v ∷ steps b
  steps (scope i b c) = enter i ∷ (steps b ++ (leave i ∷ steps c))

  unfoldable pub values : Block V → List V
  values done = []
  values (value v b) = v ∷ values b
  values (scope i b c) = values b ++ values c

  -- A property within an outermost scope i, whose first value has arrived or not
  abbrev pub within : ℕ → ℕ → ℕ → Bool → List V → List V → Stream V
  within d w i b us es = record {
    depth = suc d;
    watchers = w;
    skipping = (i, b) ∷ [];
    listening = true;
    updates = us;
    events = es;
  }

  -- No scope is open.
  abbrev pub closed : ℕ → List V → List V → Stream V
  closed w us es = record {
    depth = 0;
    watchers = w;
    skipping = [];
    listening = false;
    updates = us;
    events = es;
  }

  -- The values that are updates, and whether the first has arrived behind them
  abbrev pub later : Bool → List V → List V
  later true vs = vs
  later false vs = drop 1 vs

  abbrev pub seen : Bool → List V → Bool
  seen b [] = b
  seen b (v ∷ vs) = true

  -- One scope and whatever happens within it
  abbrev pub one_scope : ℕ → Block V → List (Step V)
  one_scope i b = enter i ∷ (steps b ++ (leave i ∷ []))

module _ {V : Type 0} (cast_value : V → Option V) where
  -- The values that `_emit_update` emits
  unfoldable pub kept : List V → List V
  kept [] = []
  kept (v ∷ vs) = emit_update cast_value v ++ kept vs

  kept-append : (xs ys : List V) → kept (xs ++ ys) ≡ kept xs ++ kept ys
  unfolding kept
  kept-append [] ys = refl
  kept-append (x ∷ xs) ys =
      rw (kept-append xs ys, append_assoc (emit_update cast_value x) (kept xs) (kept ys)) refl

  pub run-enter :
      (j : ℕ) (rest : List (Step V)) (d w i : ℕ) (f : Bool) (us es : List V)
      → run cast_value (enter j ∷ rest) (within d w i f us es)
        ≡ run cast_value rest (within (suc d) (w + 1) i f us es)
  run-enter j rest d w i f us es =
      unfold run step enter_scope in
      rw (suc_not_zero d) (
        ap (λ n. run cast_value rest (record (within d (w + 1) i f us es) { depth = n }))
          (omega arith))

  shut :
      (d w i : ℕ) (f : Bool) (us es : List V) (n k : ℕ)
      → n ≡ suc d
      → k ≡ w
      → record (within d w i f us es) { depth = n; watchers = k } ≡ within d w i f us es
  shut d w i f us es n k p q = rw (p, q) refl

  pub run-leave :
      (j : ℕ) (rest : List (Step V)) (d w i : ℕ) (f : Bool) (us es : List V)
      → run cast_value (leave j ∷ rest) (within (suc d) (w + 1) i f us es)
        ≡ run cast_value rest (within d w i f us es)
  run-leave j rest d w i f us es =
      unfold run step leave_scope in
      rw (deeper d) (
        ap (run cast_value rest)
          (shut d w i f us es (suc (suc d) - 1) (w + 1 - 1) (omega arith) (omega arith)))

  run-value :
      (v : V) (rest : List (Step V)) (d w i : ℕ) (f : Bool) (us es : List V)
      → run cast_value (received v ∷ rest) (within d w i f us es)
        ≡ run cast_value rest (within d w i true (us ++ kept (later f (v ∷ []))) (es ++ (v ∷ [])))
  unfolding run step receive emitted kept
  run-value v rest d w i true us es = refl
  run-value v rest d w i false us es = refl

  seen-append : (f : Bool) (xs ys : List V) → seen (seen f xs) ys ≡ seen f (xs ++ ys)
  seen-append f [] ys = refl
  seen-append f (x ∷ xs) [] = refl
  seen-append f (x ∷ xs) (y ∷ ys) = refl

  later-append :
      (f : Bool) (xs ys : List V) → later f xs ++ later (seen f xs) ys ≡ later f (xs ++ ys)
  later-append true [] ys = refl
  later-append true (x ∷ xs) ys = refl
  later-append false [] ys = refl
  later-append false (x ∷ xs) ys = refl

  pub within-append :
      (d w i : ℕ) (f : Bool) (us es xs ys : List V)
      → within d w i
          (seen (seen f xs) ys)
          ((us ++ kept (later f xs)) ++ kept (later (seen f xs) ys))
          ((es ++ xs) ++ ys)
        ≡ within d w i (seen f (xs ++ ys)) (us ++ kept (later f (xs ++ ys))) (es ++ (xs ++ ys))
  within-append d w i f us es xs ys =
      rw
        (
          append_assoc us (kept (later f xs)) (kept (later (seen f xs) ys)),
          append_assoc es xs ys,
          sym (kept-append (later f xs) (later (seen f xs) ys)),
          later-append f xs ys,
          seen-append f xs ys,
        )
        refl

  pub inside :
      (b : Block V) (rest : List (Step V)) (d w i : ℕ) (f : Bool) (us es : List V)
      → run cast_value (steps b ++ rest) (within d w i f us es)
        ≡ run cast_value rest
            (within d w i (seen f (values b)) (us ++ kept (later f (values b))) (es ++ values b))
  unfolding steps values kept
  inside done rest d w i true us es = rw (append-nil us, append-nil es) refl
  inside done rest d w i false us es = rw (append-nil us, append-nil es) refl
  inside (value v b) rest d w i f us es =
      run-value v (steps b ++ rest) d w i f us es
      ∙ inside b rest d w i true (us ++ kept (later f (v ∷ []))) (es ++ (v ∷ []))
      ∙ ap (run cast_value rest) (within-append d w i f us es (v ∷ []) (values b))
  inside (scope j b c) rest d w i f us es =
      ap (λ xs. run cast_value (enter j ∷ xs) (within d w i f us es))
        (append_assoc (steps b) (leave j ∷ steps c) rest)
      ∙ run-enter j _ d w i f us es
      ∙ inside b (leave j ∷ (steps c ++ rest)) (suc d) (w + 1) i f us es
      ∙ run-leave j (steps c ++ rest) d w i _ _ _
      ∙ inside c rest d w i _ _ _
      ∙ ap (run cast_value rest) (within-append d w i f us es (values b) (values c))

  pub run-first :
      (i : ℕ) (rest : List (Step V)) (w : ℕ) (us es : List V)
      → run cast_value (enter i ∷ rest) (closed w us es)
        ≡ run cast_value rest (within 0 (w + 1) i false us es)
  unfolding run step enter_scope
  run-first i rest w us es = refl

  run-last :
      (i w : ℕ) (f : Bool) (us es : List V)
      → run cast_value (leave i ∷ []) (within 0 (w + 1) i f us es) ≡ (closed w us es, [])
  run-last i w f us es =
      unfold run step leave_scope without in
      rw (==_refl i) (ap (λ n. (closed n us es, [])) (omega arith))

  -- In a scope that holds any values and any scopes that lie within one another, every value is an
  -- event, every value but the first is an update, as its cast, where it has one, and behind the
  -- scope nothing listens, the subscriptions are as many as before, and no exception was raised.
  pub run-one_scope :
      (i w : ℕ) (b : Block V) (us es : List V)
      → run cast_value (one_scope i b) (closed w us es)
        ≡ (closed w (us ++ kept (drop 1 (values b))) (es ++ values b), [])
  run-one_scope i w b us es =
      run-first i (steps b ++ (leave i ∷ [])) w us es
      ∙ inside b (leave i ∷ []) 0 (w + 1) i false us es
      ∙ run-last i w _ _ _
