-- ===== src/Protocol/Payloads.antt =====
-- The payload of a message: the data branches of `serialize`, and `_deserialize_data`.
pub mod RoundTrip
pub mod Texts
use chess_pyspec.Base.{
  ℕ, zero, suc, ◌+◌, ◌-◌, ◌*◌, ◌≤◌, ◌<◌, ◌≡◌, refl, Bool, true, false, not, ◌&&◌, ◌||◌, Option,
  none, some, List, [], ◌∷◌, ◌++◌, arith, leb, ◌==◌, if◌then◌else◌, Text, Bytes, length, take,
  replicate, is_empty,
}
use chess_pyspec.Base.Int.{ℤ, pos, negsuc, nat_le_ℤ}
use chess_pyspec.Base.Result.{
  Result, ok, err, value_error, assertion_error, struct_error, ◌>>=◌, ◌>>◌, require, or_raise,
}
use chess_pyspec.Base.Texts.{split, init}
use chess_pyspec.Bytes.Utf8.{encode, decode}
use chess_pyspec.Bytes.Words.{Endian}
use chess_pyspec.Platform.{Floats, Numpy, Number}
use chess_pyspec.Payload.{Payload, array, text, num, assoc, error, nothing, of_element}
use chess_pyspec.AssociativeArray
use chess_pyspec.Protocol.Command.{has_deleted}
use chess_pyspec.Protocol.Fields.{Field}
use chess_pyspec.Protocol.Struct.{Instance, int_attr}
use chess_pyspec.Protocol.TypeCode.{
  TypeCode, of_value, is_array_type, with_endianness, to_numpy_type, from_numpy_type, Dtype,
}

-- `struct.pack("{}s".format(n), b)`: cut or padded to n bytes.
unfoldable pub pack_string : ℕ → Bytes → Bytes
pack_string n b = take n b ++ replicate (n - length b) 0

-- `_encode_numpy_string_array`
unfoldable pub encode_strings : List Text → Result Bytes
encode_strings [] = ok []
encode_strings (t ∷ ts) = do b ← encode t; bs ← encode_strings ts; ok (b ++ (0 ∷ bs))

abbrev add_decoded : Bool → Bytes → Result (List Text) → Result (List Text)
add_decoded true b rest = rest
add_decoded false b rest = do t ← decode b; ts ← rest; ok (t ∷ ts)

-- `[string.decode("utf-8") for string in parts if string]`
unfoldable pub decode_parts : List Bytes → Result (List Text)
decode_parts [] = ok []
decode_parts (b ∷ bs) = add_decoded (is_empty b) b (decode_parts bs)

-- `_decode_to_numpy_string_array`; `max` of no lengths raises.
unfoldable pub decode_strings : Bytes → Result (List Text)
unfolding decode_parts
decode_strings b = do ts ← decode_parts (split 0 b); require (not (is_empty ts)) value_error; ok ts

-- What `serialize` finds out about a payload, before the NUL is put behind it.
pub record Encoded : Type 0 where
  pub type : TypeCode
  pub rows : ℕ
  pub cols : ℕ
  pub bytes : Bytes

abbrev plain : TypeCode → Bytes → Encoded
plain t b = record { type = t; rows = 0; cols = 0; bytes = b }

-- `rows, cols = data.shape`
abbrev two_dims : List ℕ → Result (ℕ × ℕ)
two_dims (r ∷ c ∷ []) = ok (r, c)
two_dims _ = err value_error

-- `if data_bytes: data_bytes += b"\x00"`
unfoldable pub terminate : Bytes → Bytes
terminate [] = []
terminate (b ∷ bs) = (b ∷ bs) ++ (0 ∷ [])

-- `data_bytes.endswith(b"\x00")`
unfoldable pub ends_with_nul : Bytes → Bool
ends_with_nul [] = false
ends_with_nul (b ∷ []) = b == 0
ends_with_nul (b ∷ c ∷ bs) = ends_with_nul (c ∷ bs)

-- The bytes of a payload that is no array end with a NUL, which is taken off.
unfoldable pub strip_nul : Bool → Bytes → Result Bytes
unfolding ends_with_nul
strip_nul is_array [] = ok []
strip_nul true (b ∷ bs) = ok (b ∷ bs)
strip_nul false (b ∷ bs) = do require (ends_with_nul (b ∷ bs)) assertion_error; ok (init (b ∷ bs))

nat_attr : Field → Instance → Result ℕ
nat_attr f h = do z ← int_attr f h; elim z [ pos n ↦ ok n | negsuc n ↦ err value_error ]

-- `header.version >= 4 and (header.flags & Flag.DELETED.value) != 0`
unfoldable pub is_deleted : Instance → Result Bool
is_deleted h = do
  version ← int_attr Field.version h
  if nat_le_ℤ 4 version
      then (do flags ← int_attr Field.flags h; ok (has_deleted flags))
      else ok false

module _ (fl : Floats) (np : Numpy) where
  open fl use {F, format_15g, unpack_double}
  open np use {
    Array, dtype, shape, atleast_2d, astype, tobytes, frombuffer, reshape, flatten, strings,
    of_strings,
  }

  abbrev pub Data : Type 0
  Data = Payload F Array

  array_bytes : TypeCode → Endian → Array → Result Bytes
  unfolding encode_strings
  array_bytes TypeCode.arr_string e a = encode_strings (strings a)
  array_bytes t e a = ok (tobytes (astype a (with_endianness (dtype a) e)))

  unfoldable pub encode_data : Data → Endian → Result Encoded
  unfolding pack_string array_bytes
  encode_data (error t) e = do b ← encode t; ok (plain TypeCode.error b)
  encode_data (text t) e = do b ← encode t; ok (plain TypeCode.string (pack_string (length t) b))
  encode_data (num v) e =
      let t = format_15g v in do b ← encode t; ok (plain TypeCode.string (pack_string (length t) b))
  encode_data (assoc a) e = do b ← AssociativeArray.serialize fl a; ok (plain TypeCode.assoc b)
  encode_data (array a) e = do
    t ← from_numpy_type (dtype a)
    require (leb (length (shape a)) 2) value_error
    (rows, cols) ← two_dims (shape (atleast_2d a))
    b ← array_bytes t e (atleast_2d a)
    ok (record { type = t; rows = rows; cols = cols; bytes = b })
  encode_data nothing e = ok (plain TypeCode.string [])

  -- `array.reshape((rows, cols))`, flat if there is one row
  shaped : Instance → Array → Result Data
  unfolding nat_attr
  shaped h a = do
    rows ← nat_attr Field.rows h
    cols ← nat_attr Field.cols h
    b ← or_raise (reshape a rows cols) value_error
    ok (array (if rows == 1 then flatten b else b))

  numeric_array : TypeCode → Instance → Bytes → Endian → Result Data
  unfolding shaped
  numeric_array t h b e = do
    d ← to_numpy_type t e
    rows ← nat_attr Field.rows h
    cols ← nat_attr Field.cols h
    let expected = rows * cols * d.itemsize
    require (expected == length b || suc expected == length b) value_error
    shaped h (frombuffer d (take expected b))

  string_array : Instance → Bytes → Result Data
  unfolding shaped decode_strings ends_with_nul
  string_array h b = do
    ts ← decode_strings (if ends_with_nul b then init b else b)
    shaped h (of_strings ts)

  decode_data : TypeCode → Instance → Bytes → Endian → Result Data
  unfolding numeric_array string_array is_deleted
  decode_data TypeCode.none h b e = ok nothing
  decode_data TypeCode.double h b e = do
    v ← or_raise (unpack_double e b) struct_error
    ok (num (Number.float v))
  decode_data TypeCode.string h b e = do
    t ← decode b
    ok (of_element (AssociativeArray.try_cast fl t))
  decode_data TypeCode.error h b e = do t ← decode b; ok (error t)
  decode_data TypeCode.assoc h b e = do
    deleted ← is_deleted h
    a ← AssociativeArray.deserialize fl b deleted
    ok (assoc a)
  decode_data TypeCode.arr_string h b e = string_array h b
  decode_data t h b e = numeric_array t h b e

  -- `_deserialize_data`
  unfoldable pub deserialize_data : Instance → Bytes → Endian → Result Data
  unfolding decode_data strip_nul
  deserialize_data h b e = do
    code ← int_attr Field.data_type h
    t ← of_value code
    stripped ← strip_nul (is_array_type t) b
    decode_data t h stripped e
