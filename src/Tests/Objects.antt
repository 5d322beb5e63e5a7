-- ===== src/Tests/Objects.antt =====
-- Python objects, as the values that can be sent.
use chess_pyspec.Base.{refl, Option, none, some, []}
use chess_pyspec.Base.Result.{ok, err, type_error}
use chess_pyspec.Payload.{Payload}
use chess_pyspec.AssociativeArray.{AssociativeArray, Key, Element}
use chess_pyspec.Protocol.Payloads.{Data}
use chess_pyspec.SpecSyntax.{Objects}
use chess_pyspec.Tests.Instances.{floats, arrays}

abbrev pub Value : Type 0
Value = Data floats arrays

abbrev pub as_assoc : Value → Option (AssociativeArray floats.F)
as_assoc (Payload.assoc a) = some a
as_assoc _ = none

abbrev pub as_element : Value → Element floats.F
as_element (Payload.num v) = Element.num v
as_element _ = Element.str []

abbrev pub objects : Objects floats arrays
objects = record {
  V = Value;
  of_data = λ d. d;
  to_data = some;
  to_data-of_data = λ d. refl;
  tuple = λ vs. Payload.nothing;
  list = λ vs. Payload.nothing;
  set = λ vs. err type_error;
  dict = λ vs. err type_error;
  index = λ v k. ok v;
  as_assoc = as_assoc;
  as_assoc-of_data = λ a. refl;
  as_key = λ v. ok (Key.one (as_element v));
  as_element = as_element;
}
