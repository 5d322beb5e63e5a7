-- ===== src/Protocol/TypeCode.antt =====
-- pyspec/_connection/data.py: the type codes of a payload, and their numpy dtypes.
pub mod Laws
use chess_pyspec.Base.{ℕ, ◌≡◌, refl, Bool, true, false, ◌==◌, if◌then◌else◌}
use chess_pyspec.Base.Int.{ℤ, pos, negsuc}
use chess_pyspec.Base.Result.{Result, ok, err, value_error, ◌>>=◌}
use chess_pyspec.Bytes.Words.{Endian}

-- The class `Type`.
pub data TypeCode : Type 0 where
  none double string error assoc arr_double arr_float arr_long arr_ulong arr_short : TypeCode
  arr_ushort arr_char arr_uchar arr_string arr_long64 arr_ulong64 : TypeCode

-- `Type.X.value`
unfoldable pub value : TypeCode → ℕ
value none = 0
value double = 1
value string = 2
value error = 3
value assoc = 4
value arr_double = 5
value arr_float = 6
value arr_long = 7
value arr_ulong = 8
value arr_short = 9
value arr_ushort = 10
value arr_char = 11
value arr_uchar = 12
value arr_string = 13
value arr_long64 = 14
value arr_ulong64 = 15

of_code : ℕ → Result TypeCode
of_code n =
    if n == 0
    then ok none
    else if n == 1
    then ok double
    else if n == 2
    then ok string
    else if n == 3
    then ok error
    else if n == 4
    then ok assoc
    else if n == 5
    then ok arr_double
    else if n == 6
    then ok arr_float
    else if n == 7
    then ok arr_long
    else if n == 8
    then ok arr_ulong
    else if n == 9
    then ok arr_short
    else if n == 10
    then ok arr_ushort
    else if n == 11
    then ok arr_char
    else if n == 12
    then ok arr_uchar
    else if n == 13
    then ok arr_string
    else if n == 14
    then ok arr_long64
    else if n == 15
    then ok arr_ulong64
    else err value_error

-- `Type(n)`
unfoldable pub of_value : ℤ → Result TypeCode
unfolding of_code
of_value (pos n) = of_code n
of_value (negsuc n) = err value_error

pub of_value-value : (t : TypeCode) → of_value (pos (value t)) ≡ ok t
unfolding of_value value
of_value-value none = refl
of_value-value _ = refl

unfoldable pub is_array_type : TypeCode → Bool
is_array_type none = false
is_array_type double = false
is_array_type string = false
is_array_type error = false
is_array_type assoc = false
is_array_type _ = true

-- `dtype.kind`: "f", "i", "u", "m", "U", "S" and the others
pub data Kind : Type 0 where
  floating signed unsigned timedelta unicode byte_string other : Kind

-- What the code reads of a numpy dtype: its kind, the bytes of an item, and its byte order.
pub record Dtype : Type 0 where
  pub kind : Kind
  pub itemsize : ℕ
  pub order : Endian

unfoldable pub with_endianness : Dtype → Endian → Dtype
with_endianness d e = record d { order = e }

abbrev numeric : Kind → ℕ → Endian → Result Dtype
numeric k n e = ok (record { kind = k; itemsize = n; order = e })

-- `ARRAY_TYPE_TO_NUMERIC_DTYPE`, and `Type.to_numpy_type`
unfoldable pub to_numpy_type : TypeCode → Endian → Result Dtype
to_numpy_type arr_float e = numeric floating 4 e
to_numpy_type arr_double e = numeric floating 8 e
to_numpy_type arr_char e = numeric signed 1 e
to_numpy_type arr_uchar e = numeric unsigned 1 e
to_numpy_type arr_short e = numeric signed 2 e
to_numpy_type arr_ushort e = numeric unsigned 2 e
to_numpy_type arr_long e = numeric signed 4 e
to_numpy_type arr_ulong e = numeric unsigned 4 e
to_numpy_type arr_long64 e = numeric signed 8 e
to_numpy_type arr_ulong64 e = numeric unsigned 8 e
to_numpy_type _ e = err value_error

-- `dtype_str`: the names "float", "int" and "uint" are the kinds. In numpy `timedelta64` is a subclass
-- of `signedinteger`.
dtype_str : Kind → Result Kind
dtype_str floating = ok floating
dtype_str signed = ok signed
dtype_str timedelta = ok signed
dtype_str unsigned = ok unsigned
dtype_str _ = err value_error

-- `NUMERIC_DTYPE_TO_TYPE`
type_of_key : Kind → ℕ → Result TypeCode
type_of_key signed n =
    if n == 1
    then ok arr_char
    else if n == 2
    then ok arr_short
    else if n == 4
    then ok arr_long
    else if n == 8
    then ok arr_long64
    else err value_error
type_of_key unsigned n =
    if n == 1
    then ok arr_uchar
    else if n == 2
    then ok arr_ushort
    else if n == 4
    then ok arr_ulong
    else if n == 8
    then ok arr_ulong64
    else err value_error
type_of_key floating n =
    if n == 4 then ok arr_float else if n == 8 then ok arr_double else err value_error
type_of_key _ n = err value_error

from_kind : Kind → ℕ → Result TypeCode
from_kind unicode n = ok arr_string
from_kind byte_string n = err value_error
from_kind k n = do key ← dtype_str k; type_of_key key n

unfoldable pub from_numpy_type : Dtype → Result TypeCode
unfolding from_kind dtype_str type_of_key
from_numpy_type d = from_kind d.kind d.itemsize
