-- ===== src/Server/Commands.antt =====
-- Commands and remote functions: `execute_command` and `execute_function` of
-- pyspec/server/server.py, and the parsing of pyspec/server/_remote_function.py.
use chess_pyspec.Base.{none, some, [], ◌++◌, if◌then◌else◌, Text, codes}
use chess_pyspec.Base.Result.{Result, ok, err, value_error, permission_error, ◌>>=◌, or_raise}
use chess_pyspec.Dict.{get}
use chess_pyspec.Platform.{Floats, Numpy}
use chess_pyspec.SpecSyntax.{parse_function_name, parse_function_call, evaluate_spec_expression}
use chess_pyspec.Server.State.{Python, Outcome, returned, State}

abbrev pub var_prefix : Text
var_prefix = codes "var/"

module _ {fl : Floats} {np : Numpy} (env : Python fl np) where
  open env use {py, parse, eval}

  -- `_resolve_variable_symbol`
  unfoldable pub resolve_variable_symbol : State fl np env → Text → Result py.V
  resolve_variable_symbol s name = elim (get s.properties (var_prefix ++ name)) [
    | none ↦ err value_error
    | some p ↦ ok (py.of_data p.value)
  ]

  unfoldable pub execute_function : State fl np env → Text → Result (Outcome py.V)
  unfolding resolve_variable_symbol
  execute_function s t = do
    (name, args) ← parse_function_call py (some (resolve_variable_symbol s)) parse t
    f ← or_raise (get s.functions name) value_error
    f args

  abbrev name_or_empty : Result Text → Text
  name_or_empty (ok t) = t
  name_or_empty (err e) = []

  abbrev or_permission_error : Result py.V → Result (Outcome py.V)
  or_permission_error (ok v) = ok (returned v)
  or_permission_error (err e) = err permission_error

  unfoldable pub execute_command : State fl np env → Text → Result (Outcome py.V)
  unfolding execute_function
  execute_command s t = elim (get s.functions (name_or_empty (parse_function_name parse t))) [
    | some f ↦ execute_function s t
    | none ↦
        if s.allow_remote_code_execution
        then (eval t >>= λ v. ok (returned v))
        else or_permission_error
            (evaluate_spec_expression py (some (resolve_variable_symbol s)) parse t)
  ]
