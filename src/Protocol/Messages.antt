-- ===== src/Protocol/Messages.antt =====
-- Whole messages: `serialize`, `_read_prefix`, `_read_one_message` and `message_stream` of
-- pyspec/_connection/protocol.py, and the bytes that `Connection._send` writes.
pub mod Stream
pub mod RoundTrip
pub mod HeaderBytes
pub mod Sending
use chess_pyspec.Base.{
  ℕ, zero, suc, ◌+◌, ◌-◌, ◌≡◌, refl, Bool, true, false, Option, none, some, List, [], ◌∷◌, ◌++◌,
  leb, ◌==◌, if◌then◌else◌, Text, Bytes, length, take, drop, replicate,
}
use chess_pyspec.Base.Int.{ℤ, pos, negsuc, signed32, nat_le_ℤ}
use chess_pyspec.Base.Result.{
  Result, ok, err, value_error, runtime_error, incomplete_read_error, ◌>>=◌,
}
use chess_pyspec.Base.Texts.{rstrip}
use chess_pyspec.Bytes.Utf8.{encode, decode}
use chess_pyspec.Bytes.Words.{Endian, little, big, of_bytes}
use chess_pyspec.Platform.{Floats, Numpy}
use chess_pyspec.Protocol.Command.{Command}
use chess_pyspec.Protocol.Command
use chess_pyspec.Protocol.Fields.{Field, spec_magic, name_len}
use chess_pyspec.Protocol.Layout.{Layout, v4, fields, size_of, determine_header_struct}
use chess_pyspec.Protocol.Payloads.{Data, Encoded, encode_data, terminate, deserialize_data}
use chess_pyspec.Protocol.Struct.{
  Value, int, chars, Instance, build, write, read, int_attr, chars_attr,
}
use chess_pyspec.Protocol.TypeCode

pub record Header : Type 0 where
  pub command : Command
  pub sequence_number : ℤ
  pub name : Text

-- What the clock gives for `int(time.time())` and the microseconds.
pub record Clock : Type 0 where
  pub sec : ℤ
  pub usec : ℤ

-- `b.ljust(n, b"\x00")`
unfoldable pub ljust : ℕ → Bytes → Bytes
ljust n b = b ++ replicate (n - length b) 0

-- The arguments of the header's constructor, in the order of `FIELDS_V4`.
unfoldable pub header_values : Header → Clock → Encoded → ℕ → Bytes → List Value
unfolding ljust
header_values h now p n name =
    int (pos spec_magic)
    ∷ int (pos 4)
    ∷ int (pos (size_of v4))
    ∷ int h.sequence_number
    ∷ int now.sec
    ∷ int now.usec
    ∷ int (pos (Command.value h.command))
    ∷ int (pos (TypeCode.value p.type))
    ∷ int (pos p.rows)
    ∷ int (pos p.cols)
    ∷ int (pos n)
    ∷ int (pos 0)
    ∷ int (pos 0)
    ∷ chars (ljust name_len name)
    ∷ []

-- A message on its way: the order of its bytes, its header and its data.
pub record Packet : Type 0 where
  pub order : Endian
  pub header : Instance
  pub bytes : Bytes

-- The bytes that `_send` writes for a packet.
unfoldable pub wire : Packet → Bytes
wire p = write p.order p.header ++ p.bytes

-- `readexactly(n)` on a stream that holds these bytes up to its end.
unfoldable pub readexactly : ℤ → Bytes → Result (Bytes × Bytes)
readexactly (negsuc n) s = err value_error
readexactly (pos n) s =
    if leb n (length s) then ok (take n s, drop n s) else err incomplete_read_error

pub record Prefix : Type 0 where
  pub bytes : Bytes
  pub version : ℤ
  pub size : ℤ
  pub order : Endian

-- The fields of the format "Iii" in one byte order.
abbrev prefix_in : Endian → Bytes → Prefix
prefix_in e b = record {
  bytes = b;
  version = signed32 (of_bytes e (take 4 (drop 4 b)));
  size = signed32 (of_bytes e (take 4 (drop 8 b)));
  order = e;
}

pub unpack_prefix : Bytes → Result Prefix
unpack_prefix b =
    if of_bytes little (take 4 b) == spec_magic
    then ok (prefix_in little b)
    else if of_bytes big (take 4 b) == spec_magic
    then ok (prefix_in big b)
    else err runtime_error

-- `_read_prefix`
unfoldable pub read_prefix : Bytes → Result (Prefix × Bytes)
unfolding unpack_prefix readexactly
read_prefix s = do (b, rest) ← readexactly (pos 12) s; p ← unpack_prefix b; ok (p, rest)

-- `n - len(prefix_bytes)`
abbrev less_prefix : ℤ → ℤ
less_prefix (pos n) = if leb 12 n then pos (n - 12) else negsuc (12 - n - 1)
less_prefix (negsuc n) = negsuc (n + 12)

-- `max(ctypes.sizeof(header_struct), header_size) - len(prefix_bytes)`
abbrev bytes_left : Layout → ℤ → ℤ
bytes_left h size = less_prefix (if nat_le_ℤ (size_of h) size then size else pos (size_of h))

module _ (fl : Floats) (np : Numpy) where
  -- `serialize`; `native` is `NATIVE_ENDIANNESS`
  unfoldable pub serialize : Endian → Header → Data fl np → Option Endian → Clock → Result Packet
  unfolding header_values
  serialize native h d order now =
      let e : Endian = elim order [ none ↦ native | some o ↦ o ] in
      do
        p ← encode_data fl np d e
        let bytes = terminate p.bytes
        name ← encode h.name
        header ← build (fields v4) (header_values h now p (length bytes) name)
        ok (record { order = e; header = header; bytes = bytes })

  pub record Message : Type 0 where
    pub header : Header
    pub payload : Data fl np
    pub order : Endian

  -- `_read_one_message`: the message and what is left of the stream.
  unfoldable pub read_one_message : Bytes → Result (Message × Bytes)
  unfolding read_prefix
  read_one_message s = do
    (p, s₁) ← read_prefix s
    layout ← determine_header_struct p.version p.size
    (more, s₂) ← readexactly (bytes_left layout p.size) s₁
    let header = read p.order (fields layout) (p.bytes ++ more)
    count ← int_attr Field.length header
    (bytes, s₃) ← readexactly count s₂
    d ← deserialize_data fl np header bytes p.order
    code ← int_attr Field.command header
    command ← Command.of_value code
    sequence_number ← int_attr Field.sequence_number header
    raw ← chars_attr Field.name header
    name ← decode raw
    ok (
      record {
        header = record {
          command = command;
          sequence_number = sequence_number;
          name = rstrip 0 name;
        };
        payload = d;
        order = p.order;
      },
      s₃,
    )

  -- `message_stream`: any exception ends it. The fuel bounds the number of messages.
  unfoldable pub message_stream : ℕ → Bytes → List Message
  message_stream zero s = []
  message_stream (suc n) s = elim (read_one_message s) [
    | ok r ↦ r.0 ∷ message_stream n r.1
    | err x ↦ []
  ]

  -- Every message takes bytes, so a stream has no more messages than bytes.
  unfoldable pub messages : Bytes → List Message
  unfolding message_stream
  messages s = message_stream (suc (length s)) s
