-- ===== src/Protocol/Messages/HeaderBytes.antt =====
-- The header of a message that `serialize` builds: its attributes, and its first bytes.
use chess_pyspec.Base.{
  ℕ, ◌-◌, ◌≤◌, ◌<◌, ◌^◌, ◌≡◌, refl, sym, ap, ◌∙◌, inl, inr, [], ◌∷◌, ◌++◌, append-nil, append_assoc,
  arith, leb, leb→le, le→leb, Bool-cases, true, if◌then◌else◌, Bytes, length, length-append,
  length-replicate, replicate, drop,
}
use chess_pyspec.Base.Int.{ℤ, pos, word32, signed32, IsUint32, unsigned32-word32}
use chess_pyspec.Base.Result.{ok, err, value_error, ok-injective, err-ne-ok}
use chess_pyspec.Bytes.Words.{Endian, little, big, to_bytes, of_bytes, length-to_bytes}
use chess_pyspec.Protocol.Command
use chess_pyspec.Protocol.Command.{has_deleted}
use chess_pyspec.Protocol.Fields.{Field, Ctype, spec_magic, name_len}
use chess_pyspec.Protocol.Layout.{v4, fields, size_of}
use chess_pyspec.Protocol.Messages.{Header, Clock, ljust, header_values, unpack_prefix}
use chess_pyspec.Protocol.Payloads.{Encoded, is_deleted}
use chess_pyspec.Protocol.Payloads.RoundTrip.{Describes}
use chess_pyspec.Protocol.Struct.{
  int, chars, Slot, Instance, build, write, int_attr, chars_attr, until_nul,
}
use chess_pyspec.Protocol.TypeCode

length-ljust : (n : ℕ) (b : Bytes) → length b ≤ n → length (ljust n b) ≡ n
unfolding ljust
length-ljust n b h =
    omega (
      arith,
      length-append b (replicate (n - length b) 0),
      length-replicate {A = ℕ} (n - length b) 0,
    )

length-ljust_ge : (n : ℕ) (b : Bytes) → length b ≤ length (ljust n b)
unfolding ljust
length-ljust_ge n b = omega (arith, length-append b (replicate (n - length b) 0))

abbrev uint : Field → ℤ → Slot
uint f z = record { field = f; ctype = Ctype.c_uint; value = int (pos (word32 z)) }

abbrev sint : Field → ℤ → Slot
sint f z = record { field = f; ctype = Ctype.c_int; value = int (signed32 (word32 z)) }

-- The slots of the header, with `m` the memory of its name.
abbrev pub slots : Header → Clock → Encoded → ℕ → Bytes → Instance
slots h now p n m =
    uint Field.magic (pos spec_magic)
    ∷ sint Field.version (pos 4)
    ∷ uint Field.size (pos 132)
    ∷ uint Field.sequence_number h.sequence_number
    ∷ uint Field.sec now.sec
    ∷ uint Field.usec now.usec
    ∷ sint Field.command (pos (Command.value h.command))
    ∷ sint Field.data_type (pos (TypeCode.value p.type))
    ∷ uint Field.rows (pos p.rows)
    ∷ uint Field.cols (pos p.cols)
    ∷ uint Field.length (pos n)
    ∷ sint Field.err (pos 0)
    ∷ sint Field.flags (pos 0)
    ∷ record { field = Field.name; ctype = Ctype.c_char_array name_len; value = chars m }
    ∷ []

-- The constructor fails just when the name is too long.
build_if :
    (h : Header) (now : Clock) (p : Encoded) (n : ℕ) (name : Bytes)
    → build (fields v4) (header_values h now p n name) ≡ (
        if leb (length (ljust name_len name)) name_len
        then ok (
            slots h now p n
              (ljust name_len name ++ replicate (name_len - length (ljust name_len name)) 0))
        else err value_error)
unfolding build fields header_values size_of
build_if h now p n name = elim (Bool-cases (leb (length (ljust name_len name)) name_len)) [
  | inl fits ↦ rw fits refl
  | inr long ↦ rw long refl
]

pub build-slots :
    (h : Header) (now : Clock) (p : Encoded) (n : ℕ) (name : Bytes) {ss : Instance}
    → build (fields v4) (header_values h now p n name) ≡ ok ss
    → (length name ≤ name_len) × (slots h now p n (ljust name_len name) ≡ ss)
build-slots h now p n name e = elim (Bool-cases (leb (length (ljust name_len name)) name_len)) [
  | inl fits ↦
      let short : length name ≤ name_len =
        omega (arith, length-ljust_ge name_len name, leb→le _ _ fits) in
      let full : name_len - length (ljust name_len name) ≡ 0 =
        omega (arith, length-ljust name_len name short) in
      (
        short,
        ok-injective (
            sym (rw (fits, full, append-nil (ljust name_len name)) refl)
            ∙ sym (build_if h now p n name)
            ∙ e),
      )
  | inr long ↦ absurd (err-ne-ok (rw long at (sym (build_if h now p n name) ∙ e)))
]

-- A name that is short enough never makes the constructor fail.
pub build-ok :
    (h : Header) (now : Clock) (p : Encoded) (n : ℕ) (name : Bytes)
    → length name ≤ name_len
    → (ss : Instance) × (build (fields v4) (header_values h now p n name) ≡ ok ss)
build-ok h now p n name short =
    let m = ljust name_len name in
    let fits : leb (length m) name_len ≡ true =
      le→leb (length m) name_len (omega (arith, length-ljust name_len name short)) in
    (
      slots h now p n (m ++ replicate (name_len - length m) 0),
      build_if h now p n name ∙ rw fits refl,
    )

pub command_small : (c : Command.Command) → Command.value c < 16
unfolding Command.value
command_small Command.close = omega arith
command_small _ = omega arith

pub type_small : (t : TypeCode.TypeCode) → TypeCode.value t < 16
unfolding TypeCode.value
type_small TypeCode.none = omega arith
type_small _ = omega arith

small_word : (n : ℕ) → n < 16 → signed32 (word32 (pos n)) ≡ pos n
small_word n h = ground arith

small_uint : (n : ℕ) → n < 2 ^ 32 → pos (word32 (pos n)) ≡ pos n
small_uint n h = unsigned32-word32 (pos n) h

-- The magic number, the version and the size.
pub first_bytes : Endian → Bytes
first_bytes e = to_bytes e 4 spec_magic ++ (to_bytes e 4 4 ++ to_bytes e 4 132)

pub length-first_bytes : (e : Endian) → length (first_bytes e) ≡ 12
unfolding first_bytes to_bytes
length-first_bytes little = refl
length-first_bytes big = refl

-- The reader finds the byte order, the version and the size of the writer.
pub unpack_first :
    (e : Endian)
    → unpack_prefix (first_bytes e)
      ≡ ok (record { bytes = first_bytes e; version = pos 4; size = pos 132; order = e })
unfolding unpack_prefix first_bytes to_bytes of_bytes
unpack_first little = refl
unpack_first big = refl

module _ (h : Header) (now : Clock) (p : Encoded) (n : ℕ) (m : Bytes) where
  pub slots-Describes : p.rows < 2 ^ 32 → p.cols < 2 ^ 32 → Describes (slots h now p n m) p
  unfolding int_attr is_deleted has_deleted
  slots-Describes r c = record {
    type_code = ap ok (small_word (TypeCode.value p.type) (type_small p.type));
    row_count = ap ok (small_uint p.rows r);
    col_count = ap ok (small_uint p.cols c);
    not_deleted = refl;
  }

  pub slots-length : n < 2 ^ 32 → int_attr Field.length (slots h now p n m) ≡ ok (pos n)
  unfolding int_attr
  slots-length q = ap ok (small_uint n q)

  pub slots_command :
      int_attr Field.command (slots h now p n m) ≡ ok (pos (Command.value h.command))
  unfolding int_attr
  slots_command = ap ok (small_word (Command.value h.command) (command_small h.command))

  pub slots_sequence_number :
      IsUint32 h.sequence_number
      → int_attr Field.sequence_number (slots h now p n m) ≡ ok h.sequence_number
  unfolding int_attr
  slots_sequence_number q = ap ok (unsigned32-word32 h.sequence_number q)

  pub slots_name : chars_attr Field.name (slots h now p n m) ≡ ok (until_nul m)
  unfolding chars_attr
  slots_name = refl

  -- The header's bytes behind its prefix.
  pub behind_prefix : Endian → Bytes
  behind_prefix e = write e (drop 3 (slots h now p n m))

  pub write-slots : (e : Endian) → write e (slots h now p n m) ≡ first_bytes e ++ behind_prefix e
  unfolding write behind_prefix first_bytes
  write-slots e = sym (
      append_assoc (to_bytes e 4 spec_magic) (to_bytes e 4 4 ++ to_bytes e 4 132) _
      ∙ ap (λ r. to_bytes e 4 spec_magic ++ r) (append_assoc (to_bytes e 4 4) (to_bytes e 4 132) _))

  pub length-behind_prefix : (e : Endian) → length m ≡ name_len → length (behind_prefix e) ≡ 120
  unfolding behind_prefix write
  length-behind_prefix e q = omega (arith, length-append {0}, length-to_bytes, q)
