-- ===== src/Tests/MethodExamples.antt =====
-- The theorems on the methods of a client, and what they become at the server, at concrete inputs.
use chess_pyspec.Base.{
  text_eq, ◌≡◌, refl, sym, ◌∙◌, subst, false, none, some, List, [], ◌∷◌, ◌++◌, arith, codes,
  if◌then◌else◌,
}
use chess_pyspec.Base.Blank.{strip}
use chess_pyspec.Base.Int.{pos}
use chess_pyspec.Base.Result.{Result, ok, err, ok-injective, type_error}
use chess_pyspec.Base.Texts.{has_char, join_with}
use chess_pyspec.Bytes.Utf8.{encode}
use chess_pyspec.Bytes.Words.{little, big}
use chess_pyspec.Client.Methods.{
  Method, remote_func, property, value, sends, build_remote_function_string,
}
use chess_pyspec.Client.Requests.{numbered}
use chess_pyspec.Payload.{Payload}
use chess_pyspec.Protocol.Command.{Command}
use chess_pyspec.Protocol.Layout.{fields}
use chess_pyspec.Protocol.Messages.{Header, Packet, Message, serialize, wire, read_one_message}
use chess_pyspec.Protocol.Messages.RoundTrip.{FitsHeader, IsSafe}
use chess_pyspec.Protocol.Payloads.{Data, Encoded, encode_data, terminate}
use chess_pyspec.Protocol.Struct.{build}
use chess_pyspec.Protocol.TypeCode.{TypeCode}
use chess_pyspec.Server.Events.{dispatch}
use chess_pyspec.Server.State.{Python, Outcome, returned, State}
use chess_pyspec.SpecSyntax.{name, call, nil, cons}
use chess_pyspec.System.Methods.{asked, IsSent, read-sends}
use chess_pyspec.System.Symbols.{call_text, Variable, names_of, identifiers_of}
use chess_pyspec.Tests.Instances.{parse, floats, arrays}
use chess_pyspec.Tests.MessageExamples.{packet_of, now}
use chess_pyspec.Tests.Objects.{Value}
use chess_pyspec.Tests.ServerExamples
use chess_pyspec.Tests.ServerExamples.{python, idle, five}

-- `count(energy, 3)`
abbrev method : Method floats arrays
method = remote_func (codes "count") (property (codes "var/energy") ∷ value (codes "3") ∷ [])

method_text :
    build_remote_function_string
      (codes "count")
      (property (codes "var/energy") ∷ value (codes "3") ∷ [])
    ≡ ok (codes "count(energy, 3)")
unfolding build_remote_function_string
method_text = refl

method-IsSent : IsSent floats arrays method
unfolding build_remote_function_string parse
method-IsSent = refl

abbrev sent_method : Header × Data floats arrays
sent_method = (
  record { command = Command.func_with_return; sequence_number = pos 0; name = [] },
  Payload.text (codes "count(energy, 3)"),
)

sends_lem : sends floats arrays method ≡ ok sent_method
unfolding sends build_remote_function_string
sends_lem = refl

abbrev sent_header : Header
sent_header = numbered floats arrays sent_method.0 9

abbrev sent_packet : Packet
sent_packet = packet_of (serialize floats arrays little sent_header sent_method.1 (some big) now)

sent_packet_lem :
    serialize floats arrays little sent_header sent_method.1 (some big) now ≡ ok sent_packet
unfolding serialize encode_data encode build fields
sent_packet_lem = refl

abbrev sent_encoded : Encoded
sent_encoded = record {
  type = TypeCode.string;
  rows = 0;
  cols = 0;
  bytes = codes "count(energy, 3)";
}

sent_encoded_lem : encode_data floats arrays sent_method.1 big ≡ ok sent_encoded
unfolding encode_data encode
sent_encoded_lem = refl

sent_FitsHeader : FitsHeader sent_header sent_encoded
unfolding terminate
sent_FitsHeader = record {
  sequence_fits = omega arith;
  rows_fit = omega arith;
  cols_fit = omega arith;
  length_fits = omega arith;
}

sent-IsSafe : IsSafe floats arrays sent_header sent_method.1 big
unfolding has_char
sent-IsSafe = record {
  sendable = (
    omega arith,
    (
      omega arith,
      (
        omega arith,
        (
          omega arith,
          (
            omega arith,
            (
              omega arith,
              (
                omega arith,
                (
                  omega arith,
                  (
                    omega arith,
                    (
                      omega arith,
                      (
                        omega arith,
                        (
                          omega arith,
                          (omega arith, (omega arith, (omega arith, (omega arith, tt)))),
                        ),
                      ),
                    ),
                  ),
                ),
              ),
            ),
          ),
        ),
      ),
    ),
  );
  clean_name = refl;
  fits = λ p e.
      subst (FitsHeader sent_header) (ok-injective (sym sent_encoded_lem ∙ e)) sent_FitsHeader;
}

read-sends_example :
    (x : Message floats arrays) × (read_one_message floats arrays (wire sent_packet ++ [])
      ≡ ok (x, []))
    × (dispatch floats arrays x ≡ asked floats arrays big 9 method)
read-sends_example =
    read-sends floats arrays little (some big) now 9 method [] sends_lem method-IsSent sent-IsSafe
      sent_packet_lem

-- A server with a function that returns its first argument, and where `ast.parse` reads one text
abbrev calling : Python floats arrays
calling = record python {
  parse = λ t.
      if text_eq t (codes "count(energy)")
      then some (call (name (codes "count")) (cons (name (codes "energy")) nil) false)
      else none;
}

abbrev counts : List Value → Result (Outcome Value)
counts [] = err type_error
counts (v ∷ vs) = ok (returned v)

abbrev ready : State floats arrays calling
ready = record idle { functions = (codes "count", counts) ∷ [] }

abbrev variables : List (Variable calling)
variables = (codes "energy", ServerExamples.property five) ∷ []

parsed :
    calling.parse (strip (call_text (codes "count") (identifiers_of calling variables)))
    ≡ some (call (name (codes "count")) (names_of calling variables) false)
unfolding strip identifiers_of names_of text_eq join_with
parsed = refl
