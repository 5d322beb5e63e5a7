-- ===== src/Tests/StreamExamples.antt =====
-- The theorems on the scopes of a property, at concrete inputs.
use chess_pyspec.Base.{ℕ, ◌+◌, ◌==◌, if◌then◌else◌, Option, none, some, true, ◌≡◌, refl, [], ◌∷◌}
use chess_pyspec.Base.Result.{key_error}
use chess_pyspec.Client.EventStream.{enter, leave, received, run, emit_update}
use chess_pyspec.Client.EventStream.Nested.{
  Block, done, value, scope, steps, values, kept, closed, run-one_scope,
}
use chess_pyspec.Client.EventStream.Overlapping.{leaked, run-overlapping}

-- `coerce` raises for the number 4.
abbrev coerced : ℕ → Option ℕ
coerced n = if n == 4 then none else some (n + 10)

-- A value, a scope in which another arrives, and one behind it
abbrev block : Block ℕ
block = value 3 (scope 2 (value 4 done) (value 5 done))

run-one_scope_example :
    run coerced
      (enter 1 ∷ received 3 ∷ enter 2 ∷ received 4 ∷ leave 2 ∷ received 5 ∷ leave 1 ∷ [])
      (closed 0 [] [])
    ≡ (closed 0 (15 ∷ []) (3 ∷ 4 ∷ 5 ∷ []), [])
unfolding steps values kept emit_update
run-one_scope_example = run-one_scope coerced 1 0 block [] []

run-overlapping_example :
    run coerced
      (enter 1 ∷ received 3 ∷ enter 2 ∷ leave 1 ∷ received 6 ∷ leave 2 ∷ [])
      (closed 0 [] [])
    ≡ (leaked 1 1 true (16 ∷ []) (3 ∷ 6 ∷ []), key_error ∷ [])
unfolding steps values kept emit_update
run-overlapping_example =
    run-overlapping coerced 1 2 0 (value 3 done) done (value 6 done) [] [] refl
