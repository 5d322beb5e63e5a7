-- ===== src/Tests/MessageExamples.antt =====
-- The theorems on messages and their payloads at concrete inputs.
use chess_pyspec.Base.{
  ◌≡◌, refl, subst, sym, ◌∙◌, replicate, none, some, [], ◌∷◌, ◌++◌, arith, codes,
}
use chess_pyspec.Base.Int.{pos}
use chess_pyspec.Base.Result.{Result, ok, err, ok-injective, incomplete_read_error}
use chess_pyspec.Bytes.Utf8.{encode}
use chess_pyspec.Bytes.Words.{little, big}
use chess_pyspec.Payload.{Payload}
use chess_pyspec.Protocol.Command.{Command}
use chess_pyspec.Protocol.Messages.{
  Header, Clock, Packet, serialize, wire, read_one_message, message_stream, messages,
}
use chess_pyspec.Protocol.Messages.RoundTrip.{FitsHeader, IsSafe, read-serialize}
use chess_pyspec.Protocol.Messages.Stream.{
  Sends, done, send, wires, messages-wires, message_stream_enough,
}
use chess_pyspec.Protocol.Payloads.{Data, Encoded, encode_data, terminate}
use chess_pyspec.Protocol.Payloads.RoundTrip.{received}
use chess_pyspec.Protocol.Struct.{build}
use chess_pyspec.Protocol.Layout.{fields}
use chess_pyspec.Protocol.TypeCode.{TypeCode, Kind, from_numpy_type, with_endianness}
use chess_pyspec.Base.Texts.{has_char}
use chess_pyspec.Tests.Instances.{floats, arrays, zeros}

abbrev pub packet_of : Result Packet → Packet
packet_of (ok p) = p
packet_of (err e) = record { order = little; header = []; bytes = [] }

abbrev pub now : Clock
now = record { sec = pos 1700000000; usec = pos 5 }

abbrev scan : Data floats arrays
scan = Payload.text (codes "wa")

abbrev scan_header : Header
scan_header = record {
  command = Command.cmd_with_return;
  sequence_number = pos 7;
  name = codes "tty";
}

abbrev scan_packet : Packet
scan_packet = packet_of (serialize floats arrays little scan_header scan none now)

scan_sent : serialize floats arrays little scan_header scan none now ≡ ok scan_packet
unfolding serialize encode_data encode build fields
scan_sent = refl

abbrev scan_encoded : Encoded
scan_encoded = record { type = TypeCode.string; rows = 0; cols = 0; bytes = codes "wa" }

scan_encoded_lem : encode_data floats arrays scan little ≡ ok scan_encoded
unfolding encode_data encode
scan_encoded_lem = refl

scan_FitsHeader : FitsHeader scan_header scan_encoded
unfolding terminate
scan_FitsHeader = record {
  sequence_fits = omega arith;
  rows_fit = omega arith;
  cols_fit = omega arith;
  length_fits = omega arith;
}

scan-IsSafe : IsSafe floats arrays scan_header scan little
unfolding has_char
scan-IsSafe = record {
  sendable = (omega arith, (omega arith, tt));
  clean_name = refl;
  fits = λ p e.
      subst (FitsHeader scan_header) (ok-injective (sym scan_encoded_lem ∙ e)) scan_FitsHeader;
}

read-serialize_example :
    read_one_message floats arrays (wire scan_packet ++ (1 ∷ 2 ∷ []))
    ≡ ok (
      record { header = scan_header; payload = received floats arrays little scan; order = little },
      1 ∷ 2 ∷ [],
    )
read-serialize_example =
    read-serialize floats arrays little scan_header scan none now (1 ∷ 2 ∷ []) scan-IsSafe scan_sent

-- A 2 by 3 array of doubles, sent by a peer of the other byte order.
abbrev image : Data floats arrays
image =
    Payload.array
      (zeros (record { kind = Kind.floating; itemsize = 8; order = little }) (2 ∷ 3 ∷ []))

abbrev image_header : Header
image_header = record { command = Command.event; sequence_number = pos 0; name = codes "var/A" }

abbrev image_packet : Packet
image_packet = packet_of (serialize floats arrays little image_header image (some big) now)

image_sent : serialize floats arrays little image_header image (some big) now ≡ ok image_packet
unfolding serialize encode_data encode build fields from_numpy_type
image_sent = refl

abbrev image_encoded : Encoded
image_encoded = record { type = TypeCode.arr_double; rows = 2; cols = 3; bytes = replicate 48 0 }

image_encoded_lem : encode_data floats arrays image big ≡ ok image_encoded
unfolding encode_data from_numpy_type with_endianness
image_encoded_lem = refl

image_FitsHeader : FitsHeader image_header image_encoded
unfolding terminate
image_FitsHeader = record {
  sequence_fits = omega arith;
  rows_fit = omega arith;
  cols_fit = omega arith;
  length_fits = omega arith;
}

image-IsSafe : IsSafe floats arrays image_header image big
unfolding has_char with_endianness
image-IsSafe = record {
  sendable = ((λ h. cc, λ h. cc), omega arith, λ e h. cc);
  clean_name = refl;
  fits = λ p e.
      subst (FitsHeader image_header) (ok-injective (sym image_encoded_lem ∙ e)) image_FitsHeader;
}

both_sent : Sends floats arrays (scan_packet ∷ image_packet ∷ []) (
    record { header = scan_header; payload = received floats arrays little scan; order = little }
    ∷ record { header = image_header; payload = received floats arrays big image; order = big }
    ∷ [])
both_sent =
    send little scan_header scan none now scan-IsSafe scan_sent
      (send little image_header image (some big) now image-IsSafe image_sent done)

cut_off : read_one_message floats arrays (1 ∷ 2 ∷ []) ≡ err incomplete_read_error
unfolding read_one_message
cut_off = refl

messages-wires_example :
    messages floats arrays (wires floats arrays (scan_packet ∷ image_packet ∷ []) ++ (1 ∷ 2 ∷ []))
    ≡ record { header = scan_header; payload = received floats arrays little scan; order = little }
      ∷ record { header = image_header; payload = received floats arrays big image; order = big }
      ∷ []
messages-wires_example = messages-wires floats arrays (1 ∷ 2 ∷ []) both_sent cut_off

message_stream_enough_example :
    message_stream floats arrays 3 (1 ∷ 2 ∷ []) ≡ message_stream floats arrays 9 (1 ∷ 2 ∷ [])
message_stream_enough_example =
    message_stream_enough floats arrays 3 9 (1 ∷ 2 ∷ []) (omega arith) (omega arith)
