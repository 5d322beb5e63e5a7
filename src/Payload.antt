-- ===== src/Payload.antt =====
-- The values that a message carries: `DataType` of pyspec/_connection/data.py.
use chess_pyspec.Base.{Text}
use chess_pyspec.Platform.{Number}
use chess_pyspec.AssociativeArray.{Element, AssociativeArray}

-- `F` is the type `float` and `A` the type of numpy arrays. `error` is the class `ErrorStr`.
pub data Payload (F A : Type 0) : Type 0 where
  array : A → Payload F A
  text : Text → Payload F A
  num : Number F → Payload F A
  assoc : AssociativeArray F → Payload F A
  error : Text → Payload F A
  nothing : Payload F A

-- An element of an associative array as a value of its own.
abbrev pub of_element : {F A : Type 0} → Element F → Payload F A
of_element (Element.num v) = num v
of_element (Element.str t) = text t
