-- ===== src/Tests/SystemExamples.antt =====
-- The theorem on a client and a server together at a concrete input.
use chess_pyspec.Base.{
  ◌≡◌, refl, sym, ◌∙◌, subst, true, none, some, [], ◌++◌, arith, codes, text_eq,
}
use chess_pyspec.Base.Texts.{has_char}
use chess_pyspec.Client.Sequence.{next_number}
use chess_pyspec.Base.Int.{pos}
use chess_pyspec.Base.Result.{Result, ok, err, ok-injective}
use chess_pyspec.Bytes.Utf8.{encode}
use chess_pyspec.Bytes.Words.{little}
use chess_pyspec.Dict.{get}
use chess_pyspec.Payload.{Payload}
use chess_pyspec.Protocol.Command.{Command}
use chess_pyspec.Protocol.Layout.{fields}
use chess_pyspec.Protocol.Messages.{
  Header, Clock, Packet, Message, serialize, wire, read_one_message,
}
use chess_pyspec.Protocol.Messages.RoundTrip.{FitsHeader, IsSafe}
use chess_pyspec.Protocol.Payloads.{Encoded, encode_data, terminate}
use chess_pyspec.Protocol.Payloads.RoundTrip.{received}
use chess_pyspec.Protocol.Struct.{build}
use chess_pyspec.Protocol.TypeCode
use chess_pyspec.Client.Requests.{Connection, waiting, begin, numbered, on_message, outcome}
use chess_pyspec.Client.Requests.Replies
use chess_pyspec.Client.Requests.Replies.{future_of}
use chess_pyspec.Server.Counting.{wrote}
use chess_pyspec.Server.Events.{property_get, dispatch}
use chess_pyspec.Server.Handlers.{run_task}
use chess_pyspec.Server.State.{handle, reply_header}
use chess_pyspec.System.{get_header, property_get-replies}
use chess_pyspec.Tests.Instances.{floats, arrays, print}
use chess_pyspec.Tests.ServerExamples.{python, idle, energy, five}

abbrev now : Clock
now = record { sec = pos 0; usec = pos 0 }

abbrev client : Connection floats arrays
client = record { last = 0; requests = []; peer = none }

abbrev request : Header
request = numbered floats arrays (get_header python energy) 1

abbrev answer : Header
answer = reply_header floats arrays python Command.reply (pos 1)

abbrev packet_of : Result Packet → Packet
packet_of (ok p) = p
packet_of (err e) = record { order = little; header = []; bytes = [] }

abbrev request_packet : Packet
request_packet = packet_of (serialize floats arrays little request Payload.nothing none now)

abbrev answer_packet : Packet
answer_packet = packet_of (serialize floats arrays little answer five none now)

abbrev asked : Connection floats arrays
asked = (begin floats arrays little (get_header python energy) Payload.nothing now client).0

request_sent :
    (begin floats arrays little (get_header python energy) Payload.nothing now client).1
    ≡ ok request_packet
unfolding begin next_number serialize encode_data encode build fields
request_sent = refl

request_waits : future_of floats arrays asked.requests 1 ≡ some waiting
unfolding begin next_number serialize encode_data encode build fields future_of
request_waits = refl

answer_sent : serialize floats arrays little answer five none now ≡ ok answer_packet
unfolding serialize encode_data encode build fields print
answer_sent = refl

abbrev encoded_nothing : Encoded
encoded_nothing = record { type = TypeCode.string; rows = 0; cols = 0; bytes = [] }

encoded_nothing_lem : encode_data floats arrays Payload.nothing little ≡ ok encoded_nothing
unfolding encode_data
encoded_nothing_lem = refl

abbrev encoded_five : Encoded
encoded_five = record { type = TypeCode.string; rows = 0; cols = 0; bytes = codes "5" }

encoded_five_lem : encode_data floats arrays five little ≡ ok encoded_five
unfolding encode_data encode print
encoded_five_lem = refl

nothing-FitsHeader : FitsHeader request encoded_nothing
unfolding terminate
nothing-FitsHeader = record {
  sequence_fits = omega arith;
  rows_fit = omega arith;
  cols_fit = omega arith;
  length_fits = omega arith;
}

five-FitsHeader : FitsHeader answer encoded_five
unfolding terminate
five-FitsHeader = record {
  sequence_fits = omega arith;
  rows_fit = omega arith;
  cols_fit = omega arith;
  length_fits = omega arith;
}

request-IsSafe : IsSafe floats arrays request Payload.nothing little
unfolding has_char
request-IsSafe = record {
  sendable = tt;
  clean_name = refl;
  fits = λ p e.
      subst (FitsHeader request) (ok-injective (sym encoded_nothing_lem ∙ e)) nothing-FitsHeader;
}

answer-IsSafe : IsSafe floats arrays answer five little
unfolding has_char
answer-IsSafe = record {
  sendable = tt;
  clean_name = refl;
  fits = λ p e. subst (FitsHeader answer) (ok-injective (sym encoded_five_lem ∙ e)) five-FitsHeader;
}

has_energy : get idle.properties energy ≡ some (record { value = five; accepts = λ w. true })
unfolding get text_eq
has_energy = refl

property_get-replies_example :
    ((m : Message floats arrays) × (read_one_message floats arrays (wire request_packet ++ [])
        ≡ ok (m, []))
      × (dispatch floats arrays m ≡ ok (property_get (pos 1) energy)))
    × (run_task python (handle 4 (property_get (pos 1) energy)) idle
        ≡ wrote python idle 4 answer five)
    × ((m : Message floats arrays) × (read_one_message floats arrays (wire answer_packet ++ [])
          ≡ ok (m, []))
        × (future_of floats arrays (on_message floats arrays m asked).requests 1
            ≡ some (outcome floats arrays (received floats arrays little five))))
property_get-replies_example =
    property_get-replies python little energy now 4 idle [] []
      (Replies.starts {n = 0} (omega arith)) request-IsSafe request_sent request_waits has_energy
      answer-IsSafe answer_sent
