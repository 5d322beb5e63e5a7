-- ===== src/Tests/ServerExamples.antt =====
-- The theorems on the server at concrete inputs.
use chess_pyspec.Base.{
  is_empty, suc, ◌+◌, text_eq, ◌≡◌, refl, true, false, none, some, List, [], ◌∷◌, ◌++◌, Text, codes,
  length,
}
use chess_pyspec.Base.Int.{ℤ, pos}
use chess_pyspec.Base.Result.{Error, ok, err, value_error}
use chess_pyspec.Bytes.Utf8.{encode}
use chess_pyspec.Bytes.Words.{little, big}
use chess_pyspec.Dict.{get}
use chess_pyspec.Platform.{int}
use chess_pyspec.Payload.{Payload}
use chess_pyspec.Protocol.Command.{Command}
use chess_pyspec.Protocol.Messages.{Header, Message, serialize}
use chess_pyspec.Server.Counting.{total}
use chess_pyspec.Server.Dispatch.{texted, command_event, receive-numeric}
use chess_pyspec.Server.Events.{remote_cmd}
use chess_pyspec.Server.Handlers.{set_property, run_tasks, on_property_get, receive}
use chess_pyspec.Server.Runs.{Action, received, turned, run, asked, accepted, total-run}
use chess_pyspec.Server.State.{Python, Property, State, listeners_of, after}
use chess_pyspec.Server.Updates.{
  events, set_property-events, on_property_get-set_property, answered,
}
use chess_pyspec.Server.Commands.{resolve_variable_symbol}
use chess_pyspec.Server.Variables.{
  strip_slashes, variable_property_name, variable_name, resolve-variable_name,
}
use chess_pyspec.Server.Watching.{view, asked_to_listen, view-run}
use chess_pyspec.SpecSyntax
use chess_pyspec.SpecSyntax.{Objects, Expr, constant, evaluate, wrap}
use chess_pyspec.Tests.Objects.{Value, objects}
use chess_pyspec.Tests.Instances.{parse, floats, arrays}

pub unexplained : (e : Error) → encode [] ≡ ok []
unfolding encode
unexplained e = refl

abbrev pub python : Python floats arrays
python = record {
  py = objects;
  parse = λ t. some (SpecSyntax.name t);
  eval = λ t. err value_error;
  native = little;
  explain = λ e. [];
  encode-explain = λ e. ([], unexplained e);
}

abbrev pub energy : Text
energy = codes "var/energy"

abbrev pub five : Value
five = Payload.num (int (pos 5))

abbrev six : Value
six = Payload.num (int (pos 6))

abbrev pub property : Value → Property floats arrays
property v = record { value = v; accepts = λ w. true }

-- A server with one property, and the connections 4 and 7 listening to it
abbrev pub idle : State floats arrays python
idle = record {
  properties = (energy, property five) ∷ [];
  functions = [];
  listeners = (energy, 4 ∷ 7 ∷ []) ∷ [];
  queue = [];
  running = [];
  written = [];
  closed = [];
  stopped = [];
  peers = λ c. none;
  allow_remote_code_execution = false;
  now = record { sec = pos 0; usec = pos 0 };
}

abbrev message : Command → ℤ → Text → Value → Message floats arrays
message k n p v = record {
  header = record { command = k; sequence_number = n; name = p };
  payload = v;
  order = big;
}

abbrev happened : List (Action floats arrays Value)
happened =
    received 7 (message Command.chan_read (pos 3) energy Payload.nothing)
    ∷ received 4 (message Command.unregister (pos 0) energy Payload.nothing)
    ∷ turned
    ∷ turned
    ∷ []

total-run_example :
    total python 7 (pos 3) (run python happened idle)
    ≡ total python 7 (pos 3) idle + asked python 7 (pos 3) happened idle
total-run_example = total-run python 7 (pos 3) happened idle

asked_once : asked python 7 (pos 3) happened idle ≡ 1
unfolding asked accepted
asked_once = refl

view-run_example :
    view python 4 energy (run python happened idle)
    ≡ asked_to_listen python 4 energy happened idle (view python 4 energy idle)
view-run_example = view-run python 4 energy happened idle

listens_no_more : asked_to_listen python 4 energy happened idle true ≡ false
unfolding asked_to_listen accepted text_eq
listens_no_more = refl

abbrev assigned : State floats arrays python
assigned = after floats arrays python idle (set_property python energy six idle)

assigned_lem : set_property python energy six idle ≡ ok assigned
unfolding set_property get text_eq
assigned_lem = refl

set_property-events_example :
    run_tasks python (suc (length (listeners_of floats arrays idle energy))) assigned
    ≡ record assigned {
      queue = [];
      written =
          []
          ++ events python energy six idle.peers idle.now (listeners_of floats arrays idle energy);
    }
set_property-events_example = set_property-events python energy six idle assigned refl assigned_lem

on_property_get-set_property_example :
    on_property_get python 7 (pos 3) energy assigned
    ≡ answered python 7 (pos 3) six assigned (
        serialize floats arrays little
          (record { command = Command.reply; sequence_number = pos 3; name = [] })
          six
          none
          idle.now)
unfolding set_property get text_eq
on_property_get-set_property_example =
    on_property_get-set_property python 7 (pos 3) energy six idle assigned assigned_lem

abbrev command_header : Header
command_header = record { command = Command.cmd_with_return; sequence_number = pos 3; name = [] }

command_lem :
    command_event floats arrays command_header.command command_header.sequence_number (codes "12")
    ≡ some (remote_cmd (pos 3) (codes "12"))
unfolding command_event
command_lem = refl

numeric : floats.parse (codes "12") ≡ some (pos 12)
unfolding parse
numeric = refl

receive-numeric_example :
    receive python 7
      (message Command.hello (pos 4) [] Payload.nothing)
      (receive python 7 (texted floats arrays little command_header (codes "12")) idle)
    ≡ receive python 7 (texted floats arrays little command_header (codes "12")) idle
receive-numeric_example =
    receive-numeric python 7 little command_header (codes "12")
      (message Command.hello (pos 4) [] Payload.nothing) idle command_lem numeric

abbrev slashed : Text
slashed = codes "/energy/"

slashed_lem : is_empty (strip_slashes slashed) ≡ false
unfolding strip_slashes
slashed_lem = refl

registered_lem : get idle.properties (variable_property_name slashed) ≡ some (property five)
unfolding get text_eq variable_property_name
registered_lem = refl

resolve-variable_name_example :
    resolve_variable_symbol python idle (variable_name slashed) ≡ ok five
resolve-variable_name_example = resolve-variable_name python idle slashed registered_lem
