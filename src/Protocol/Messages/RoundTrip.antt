-- ===== src/Protocol/Messages/RoundTrip.antt =====
-- A message that is read from the bytes that were written for it.
use chess_pyspec.Base.{
  ℕ, ◌-◌, ◌≤◌, ◌<◌, ◌^◌, ◌≡◌, refl, Option, none, some, [], ◌++◌, append-nil, append_assoc, arith,
  le→leb, Bytes, length, length-append, length-replicate, take-append, drop-append,
}
use chess_pyspec.Base.Int.{pos, IsUint32}
use chess_pyspec.Base.Result.{Result, ok, ◌>>=◌, >>=-eq-ok, ok-injective}
use chess_pyspec.Base.Texts.{Lacks, rstrip-Lacks}
use chess_pyspec.Bytes.Utf8.{encode, decode-encode, encode-Lacks}
use chess_pyspec.Bytes.Words.{Endian}
use chess_pyspec.Platform.{Floats, Numpy}
use chess_pyspec.Protocol.Command
use chess_pyspec.Protocol.Fields.{name_len}
use chess_pyspec.Protocol.Layout.{v4, fields, size_of, determine_v4}
use chess_pyspec.Protocol.Messages.{
  Header, Clock, ljust, header_values, Packet, readexactly, read_prefix, serialize, wire,
  read_one_message,
}
use chess_pyspec.Protocol.Messages.HeaderBytes.{
  slots, build-slots, first_bytes, length-first_bytes, unpack_first, behind_prefix, write-slots,
  length-behind_prefix, slots-Describes, slots-length, slots_command, slots_sequence_number,
  slots_name,
}
use chess_pyspec.Protocol.Payloads.{Data, Encoded, encode_data, terminate, deserialize_data}
use chess_pyspec.Protocol.Payloads.RoundTrip.{received, IsSendable, data_arrives}
use chess_pyspec.Protocol.Struct.{build, write, read, read-write, until_nul, until_nul-padded}

pub readexactly-append :
    (n : ℕ) (b s : Bytes) → length b ≡ n → readexactly (pos n) (b ++ s) ≡ ok (b, s)
unfolding readexactly
readexactly-append n b s h =
    rw (le→leb n (length (b ++ s)) (omega (arith, length-append b s, h)))
      (rw (take-append n b s h, drop-append n b s h) refl)

read_prefix-first :
    (e : Endian) (s : Bytes)
    → read_prefix (first_bytes e ++ s)
      ≡ ok (record { bytes = first_bytes e; version = pos 4; size = pos 132; order = e }, s)
unfolding read_prefix
read_prefix-first e s =
    rw (readexactly-append 12 (first_bytes e) s (length-first_bytes e), unpack_first e) refl

-- The memory of a name that has no NUL reads as the name.
until_nul-ljust : (b : Bytes) → Lacks 0 b → until_nul (ljust name_len b) ≡ b
unfolding ljust
until_nul-ljust b h = until_nul-padded b (name_len - length b) h

length-ljust : (b : Bytes) → length b ≤ name_len → length (ljust name_len b) ≡ name_len
unfolding ljust
length-ljust b h = omega (arith, length-append {0}, length-replicate {0})

-- The numbers in the header fit their 32-bit fields.
pub record FitsHeader (h : Header) (p : Encoded) : Type 0 where
  pub sequence_fits : IsUint32 h.sequence_number
  pub rows_fit : p.rows < 2 ^ 32
  pub cols_fit : p.cols < 2 ^ 32
  pub length_fits : length (terminate p.bytes) < 2 ^ 32

module _ (fl : Floats) (np : Numpy) where
  read-slots :
      (h : Header) (now : Clock) (p : Encoded) (d : Data fl np) (e : Endian) (rest name : Bytes)
      → encode h.name ≡ ok name
      → length name ≤ name_len
      → Lacks 0 h.name
      → FitsHeader h p
      → read e
          (fields v4)
          (write e (slots h now p (length (terminate p.bytes)) (ljust name_len name)))
        ≡ slots h now p (length (terminate p.bytes)) (ljust name_len name)
      → deserialize_data fl np
          (slots h now p (length (terminate p.bytes)) (ljust name_len name))
          (terminate p.bytes)
          e
        ≡ ok d
      → read_one_message fl np (
          write e (slots h now p (length (terminate p.bytes)) (ljust name_len name))
          ++ (terminate p.bytes ++ rest))
        ≡ ok (record { header = h; payload = d; order = e }, rest)
  unfolding read_one_message size_of
  read-slots h now p d e rest name named short clean fits reads arrives =
      let bytes = terminate p.bytes in
      let n = length bytes in
      let m = ljust name_len name in
      rw (write-slots h now p n m e) (
        rw (append_assoc (first_bytes e) (behind_prefix h now p n m e) (bytes ++ rest)) (
          rw
            (
              read_prefix-first e (behind_prefix h now p n m e ++ (bytes ++ rest)),
              determine_v4 (pos 132),
              readexactly-append 120 (behind_prefix h now p n m e) (bytes ++ rest)
                  (length-behind_prefix h now p n m e (length-ljust name short)),
            )
            (rw (← write-slots h now p n m e) (
              rw
                (
                  reads,
                  slots-length h now p n m fits.length_fits,
                  readexactly-append n bytes rest refl,
                  arrives,
                  slots_command h now p n m,
                  Command.of_value-value h.command,
                  slots_sequence_number h now p n m fits.sequence_fits,
                  slots_name h now p n m,
                  until_nul-ljust name (encode-Lacks h.name named clean),
                  decode-encode h.name named,
                  rstrip-Lacks 0 h.name clean,
                )
                refl))))

  abbrev pub order_of : Endian → Option Endian → Endian
  order_of native none = native
  order_of native (some o) = o

  -- What a message needs, for it to be known what arrives: the payload is one of those that are
  -- sendable, the name holds no NUL, and the numbers of the header fit their fields.
  pub record IsSafe (h : Header) (d : Data fl np) (e : Endian) : Type 0 where
    pub sendable : IsSendable fl np d
    pub clean_name : Lacks 0 h.name
    pub fits : (p : Encoded) → encode_data fl np d e ≡ ok p → FitsHeader h p

  -- `serialize` in a byte order that is settled.
  serialize_in : Endian → Header → Data fl np → Clock → Result Packet
  serialize_in e h d now = do
    p ← encode_data fl np d e
    name ← encode h.name
    header ← build (fields v4) (header_values h now p (length (terminate p.bytes)) name)
    ok (record { order = e; header = header; bytes = terminate p.bytes })

  read_serialized :
      (e : Endian) (h : Header) (d : Data fl np) (now : Clock) (rest : Bytes) {pk : Packet}
      → IsSafe h d e
      → serialize_in e h d now ≡ ok pk
      → read_one_message fl np (wire pk ++ rest)
        ≡ ok (record { header = h; payload = received fl np e d; order = e }, rest)
  unfolding serialize_in wire
  read_serialized e h d now rest safe q =
      let (p, hp, q₁) = >>=-eq-ok (encode_data fl np d e) _ q in
      let (name, named, q₂) = >>=-eq-ok (encode h.name) _ q₁ in
      let n = length (terminate p.bytes) in
      let (header, built, q₃) = >>=-eq-ok (build (fields v4) (header_values h now p n name)) _ q₂ in
      let (short, same) = build-slots h now p n name built in
      let fit = safe.fits p hp in
      let reads = read-write e (fields v4) (header_values h now p n name) [] built in
      let arrives =
        data_arrives fl np (slots h now p n (ljust name_len name)) d e safe.sendable hp
          (slots-Describes h now p n (ljust name_len name) fit.rows_fit fit.cols_fit) in
      rw (← ok-injective q₃) (
        rw
          (
            ← same,
            append_assoc (write e (slots h now p n (ljust name_len name))) (terminate p.bytes) rest,
          )
          (read-slots h now p (received fl np e d) e rest name named short safe.clean_name fit
            (rw (← same, append-nil (write e (slots h now p n (ljust name_len name)))) at reads)
            arrives))

  -- A message that was serialized, in either byte order, is read back: the reader finds the byte
  -- order, the same command, sequence number and name, and the data as `received` says; and what
  -- follows the message in the stream is left for the next one.
  pub read-serialize :
      (native : Endian) (h : Header) (d : Data fl np) (order : Option Endian) (now : Clock)
      (rest : Bytes) {pk : Packet}
      → IsSafe h d (order_of native order)
      → serialize fl np native h d order now ≡ ok pk
      → read_one_message fl np (wire pk ++ rest)
        ≡ ok (
          record {
            header = h;
            payload = received fl np (order_of native order) d;
            order = order_of native order;
          },
          rest,
        )
  read-serialize native h d none now rest safe q =
      read_serialized native h d now rest safe (unfold serialize serialize_in in q)
  read-serialize native h d (some o) now rest safe q =
      read_serialized o h d now rest safe (unfold serialize serialize_in in q)
