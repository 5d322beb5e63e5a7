-- ===== src/Tests/SyntaxExamples.antt =====
-- The theorems on expressions at concrete inputs.
use chess_pyspec.Base.{◌≡◌, refl, none, []}
use chess_pyspec.Base.Int.{pos}
use chess_pyspec.Base.Result.{ok}
use chess_pyspec.Platform.{int}
use chess_pyspec.Payload.{Payload}
use chess_pyspec.SpecSyntax
use chess_pyspec.SpecSyntax.{Expr, constant, subscript, nil, cons, chain, evaluate, wrap}
use chess_pyspec.SpecSyntax.Safety.{IsInert, evaluate-IsInert}
use chess_pyspec.Tests.Objects.{Value, objects}

abbrev one : Value
one = Payload.num (int (pos 1))

abbrev pair : Expr Value
pair = SpecSyntax.tuple (cons (constant one) (cons (constant one) nil))

pair_lem : evaluate objects none pair ≡ ok Payload.nothing
unfolding evaluate
pair_lem = refl

evaluate-IsInert_example : IsInert pair
evaluate-IsInert_example = evaluate-IsInert objects none pair pair_lem

constant_chain : chain objects none (constant one) ≡ ok ([], one)
unfolding chain
constant_chain = refl

constant_lem : evaluate objects none (constant one) ≡ ok one
unfolding evaluate
constant_lem = refl

abbrev empty : Value
empty = Payload.assoc (record { items = [] })

empty-chain : chain objects none (constant empty) ≡ ok ([], empty)
unfolding chain
empty-chain = refl
