-- ===== src/Client/Methods.antt =====
-- What the methods of ClientConnection in pyspec/_connection/client_connection.py send, and the text
-- of a call of a remote function.
use chess_pyspec.Base.{
  ℕ, Bool, true, false, ◌&&◌, ◌||◌, Option, none, some, List, [], ◌∷◌, ◌++◌, ◌==◌, leb,
  if◌then◌else◌, Text, codes,
}
use chess_pyspec.Base.Int.{pos}
use chess_pyspec.Base.Result.{Result, ok, value_error, ◌>>=◌, or_raise}
use chess_pyspec.Base.Texts.{join_with}
use chess_pyspec.Platform.{Floats, Numpy}
use chess_pyspec.Payload.{Payload}
use chess_pyspec.Protocol.Command.{Command}
use chess_pyspec.Protocol.Messages.{Header}
use chess_pyspec.Protocol.Payloads.{Data}

abbrev within : ℕ → ℕ → ℕ → Bool
within lo hi c = leb lo c && leb c hi

-- `[A-Za-z_]` and `[A-Za-z0-9_]`
unfoldable pub is_letter : ℕ → Bool
is_letter c = within b'A' b'Z' c || within b'a' b'z' c || c == b'_'

unfoldable pub is_name_char : ℕ → Bool
unfolding is_letter
is_name_char c = is_letter c || within b'0' b'9' c

-- The longest prefix of such characters, and what stands behind it
unfoldable pub name_span : Text → Text × Text
unfolding is_name_char
name_span [] = ([], [])
name_span (c ∷ cs) =
    let rest = name_span cs in if is_name_char c then (c ∷ rest.0, rest.1) else ([], c ∷ cs)

abbrev without_slash : Text → Text
without_slash [] = []
without_slash (c ∷ cs) = if c == b'/' then cs else c ∷ cs

-- `$`, which a last newline may stand behind
abbrev at_end : Text → Bool
at_end [] = true
at_end (c ∷ []) = c == b'\n'
at_end (c ∷ d ∷ cs) = false

abbrev behind : Text → Text → Option Text
behind [] t = some t
behind (c ∷ cs) [] = none
behind (c ∷ cs) (d ∷ ds) = if d == c then behind cs ds else none

abbrev named : Text → Option Text
named [] = none
named (c ∷ cs) =
    if is_letter c
    then (if at_end (without_slash (name_span (c ∷ cs)).1)
        then some (name_span (c ∷ cs)).0
        else none)
    else none

abbrev named? : Option Text → Option Text
named? none = none
named? (some t) = named t

-- `VAR_PROPERTY_NAME_PATTERN.match(t)`, its group
unfoldable pub var_symbol : Text → Option Text
unfolding name_span is_letter
var_symbol t = named? (behind (codes "var/") (without_slash t))

-- An argument of a remote function: a `Property`, by its name, or another value, by its `repr`
pub data Arg : Type 0 where
  property : Text → Arg
  value : Text → Arg

-- `_remote_function_arg_string`
unfoldable pub arg_string : Arg → Result Text
unfolding var_symbol
arg_string (property name) = or_raise (var_symbol name) value_error
arg_string (value t) = ok t

unfoldable pub arg_strings : List Arg → Result (List Text)
unfolding arg_string
arg_strings [] = ok []
arg_strings (a ∷ rest) = arg_string a >>= λ t. arg_strings rest >>= λ ts. ok (t ∷ ts)

unfoldable pub build_remote_function_string : Text → List Arg → Result Text
unfolding arg_strings join_with
build_remote_function_string func args =
    arg_strings args >>= λ ts. ok (func ++ (b'(' ∷ (join_with (codes ", ") ts ++ (b')' ∷ []))))

module _ (fl : Floats) (np : Numpy) where
  -- The methods that send a message
  pub data Method : Type 0 where
    prop_get prop_watch prop_unwatch : Text → Method
    prop_set : Text → Data fl np → Method
    abort hello : Method
    remote_cmd remote_cmd_no_return : Text → Method
    remote_func remote_func_no_return : Text → List Arg → Method

  abbrev pub header : Command → Text → Header
  header c name = record { command = c; sequence_number = pos 0; name = name }

  -- What a method gives to `_send` or `_send_with_reply`
  unfoldable pub sends : Method → Result (Header × Data fl np)
  unfolding build_remote_function_string
  sends (prop_get p) = ok (header Command.chan_read p, Payload.nothing)
  sends (prop_set p d) = ok (header Command.chan_send p, d)
  sends (prop_watch p) = ok (header Command.register p, Payload.nothing)
  sends (prop_unwatch p) = ok (header Command.unregister p, Payload.nothing)
  sends abort = ok (header Command.abort [], Payload.nothing)
  sends hello = ok (header Command.hello [], Payload.nothing)
  sends (remote_cmd t) = ok (header Command.cmd_with_return [], Payload.text t)
  sends (remote_cmd_no_return t) = ok (header Command.cmd [], Payload.text t)
  sends (remote_func f args) = build_remote_function_string f args >>= λ t.
      ok (header Command.func_with_return [], Payload.text t)
  sends (remote_func_no_return f args) =
      build_remote_function_string f args >>= λ t. ok (header Command.func [], Payload.text t)

  -- How a request that waits for its reply ends: an interrupt is CancelledError, a timeout being one,
  -- KeyboardInterrupt or SystemExit.
  pub data Ending : Type 0 where
    replied : Data fl np → Ending
    failed interrupted : Ending

  -- `_abort_on_interrupt`: what is sent behind the request
  unfoldable pub abort_on_interrupt : Ending → List Method
  abort_on_interrupt interrupted = abort ∷ []
  abort_on_interrupt _ = []
