-- ===== src/Protocol/Messages/Sending.antt =====
-- When `serialize` succeeds.
use chess_pyspec.Base.{◌≤◌, ◌≡◌, refl, Option, none, some, [], Bytes, length, arith, Text}
use chess_pyspec.Base.Result.{ok}
use chess_pyspec.Bytes.Utf8.{encode}
use chess_pyspec.Bytes.Words.{Endian}
use chess_pyspec.Platform.{Floats, Numpy}
use chess_pyspec.Payload.{Payload}
use chess_pyspec.Protocol.Fields.{name_len}
use chess_pyspec.Protocol.TypeCode
use chess_pyspec.Protocol.Messages.{Header, Clock, Packet, serialize}
use chess_pyspec.Protocol.Messages.HeaderBytes.{build-ok}
use chess_pyspec.Protocol.Payloads.{Data, Encoded, encode_data, terminate}

blank_name : (h : Header) → h.name ≡ [] → encode h.name ≡ ok []
unfolding encode
blank_name h blank = rw blank refl

module _ (fl : Floats) (np : Numpy) where
  serialize_settled :
      (native : Endian) (h : Header) (d : Data fl np) (order : Option Endian) (now : Clock)
      {p : Encoded} {name : Bytes}
      → encode_data fl np d (elim order [ none ↦ native | some o ↦ o ]) ≡ ok p
      → encode h.name ≡ ok name
      → length name ≤ name_len
      → (pk : Packet) × (serialize fl np native h d order now ≡ ok pk)
  unfolding serialize
  serialize_settled native h d order now {p} {name} hp hn short =
      let (ss, built) = build-ok h now p (length (terminate p.bytes)) name short in
      (
        record {
          order = elim order [ none ↦ native | some o ↦ o ];
          header = ss;
          bytes = terminate p.bytes;
        },
        rw (hp, hn, built) refl,
      )

  encode_error :
      (t : Text) (e : Endian) {b : Bytes}
      → encode t ≡ ok b
      → (p : Encoded) × (encode_data fl np (Payload.error t) e ≡ ok p)
  unfolding encode_data
  encode_error t e {b} h =
      (record { type = TypeCode.error; rows = 0; cols = 0; bytes = b }, rw h refl)

  -- A message with no name, and an error text that can be encoded, is always sent.
  pub serialize-error :
      (native : Endian) (h : Header) (t : Text) (order : Option Endian) (now : Clock) {b : Bytes}
      → h.name ≡ []
      → encode t ≡ ok b
      → (pk : Packet) × (serialize fl np native h (Payload.error t) order now ≡ ok pk)
  serialize-error native h t order now blank he =
      let (p, hp) = encode_error t (elim order [ none ↦ native | some o ↦ o ]) he in
      serialize_settled native h (Payload.error t) order now {name = []} hp (blank_name h blank)
        (omega arith)

  -- So is a message with no name and no data.
  pub serialize-nothing :
      (native : Endian) (h : Header) (order : Option Endian) (now : Clock)
      → h.name ≡ []
      → (pk : Packet) × (serialize fl np native h Payload.nothing order now ≡ ok pk)
  serialize-nothing native h order now blank =
      serialize_settled native h Payload.nothing order now
        {p = record { type = TypeCode.string; rows = 0; cols = 0; bytes = [] }} {name = []}
        (unfold encode_data in refl) (blank_name h blank) (omega arith)
