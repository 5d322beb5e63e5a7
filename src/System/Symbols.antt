-- ===== src/System/Symbols.antt =====
-- A variable that a client passes to a remote function: client_connection.py and server.py.
use chess_pyspec.Base.{◌≡◌, Bool, true, false, ◌&&◌, some, List, [], ◌∷◌, ◌++◌, Text, codes}
use chess_pyspec.Base.Texts.{join_with}
use chess_pyspec.Base.Result.{Result}
use chess_pyspec.Client.Methods.{Arg, property, is_letter, is_name_char}
use chess_pyspec.Dict.{get}
use chess_pyspec.Platform.{Floats, Numpy}
use chess_pyspec.Server.State.{Python, Property, State}
use chess_pyspec.SpecSyntax.{Exprs, name, nil, cons}

unfoldable all_name_chars : Text → Bool
unfolding is_name_char
all_name_chars [] = true
all_name_chars (c ∷ cs) = is_name_char c && all_name_chars cs

-- `[A-Za-z_][A-Za-z0-9_]*`
unfoldable pub is_identifier : Text → Bool
unfolding all_name_chars is_letter
is_identifier [] = false
is_identifier (c ∷ cs) = is_letter c && all_name_chars (c ∷ cs)

-- The text of a call with these arguments
abbrev pub call_text : Text → List Text → Text
call_text f ts = f ++ (b'(' ∷ (join_with (codes ", ") ts ++ (b')' ∷ [])))

module _ {fl : Floats} {np : Numpy} (env : Python fl np) where
  open env use {py, parse}

  -- A variable of the server: the identifier, and the property that is named by var/ and it
  abbrev pub Variable : Type 0
  Variable = Text × Property fl np

  abbrev pub IsVariable : State fl np env → Variable → Type 0
  IsVariable s v = (is_identifier v.0 ≡ true) × (get s.properties (codes "var/" ++ v.0) ≡ some v.1)

  -- The properties at the client, the names that their texts are parsed as, and their values
  unfoldable pub args_of : List Variable → List Arg
  args_of [] = []
  args_of (v ∷ vs) = property (codes "var/" ++ v.0) ∷ args_of vs

  unfoldable pub names_of : List Variable → Exprs py.V
  names_of [] = nil
  names_of (v ∷ vs) = cons (name v.0) (names_of vs)

  unfoldable pub values_of : List Variable → List py.V
  values_of [] = []
  values_of (v ∷ vs) = py.of_data v.1.value ∷ values_of vs

  unfoldable pub identifiers_of : List Variable → List Text
  identifiers_of [] = []
  identifiers_of (v ∷ vs) = v.0 ∷ identifiers_of vs
