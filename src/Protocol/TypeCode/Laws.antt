-- ===== src/Protocol/TypeCode/Laws.antt =====
-- The two dtype tables are inverse to one another.
use chess_pyspec.Base.{◌≡◌, refl, ◌≢◌, arith}
use chess_pyspec.Base.Result.{ok}
use chess_pyspec.Bytes.Words.{Endian}
use chess_pyspec.Protocol.TypeCode.{
  TypeCode, Kind, Dtype, with_endianness, to_numpy_type, from_numpy_type,
}

-- The dtype that a type code decodes to is sent under that type code again, in either byte order.
pub from-to_numpy_type :
    (t : TypeCode) (e : Endian) {d : Dtype} → to_numpy_type t e ≡ ok d → from_numpy_type d ≡ ok t
unfolding to_numpy_type from_numpy_type
from-to_numpy_type TypeCode.none e h = cc
from-to_numpy_type _ e h = ground arith

-- The kind at which an array arrives: a `timedelta64` is sent as the integer that it is stored as.
unfoldable pub sent_kind : Kind → Kind
sent_kind Kind.timedelta = Kind.signed
sent_kind k = k

pub sent_kind_same : (k : Kind) → k ≢ Kind.timedelta → sent_kind k ≡ k
unfolding sent_kind
sent_kind_same Kind.timedelta n = absurd (n refl)
sent_kind_same _ n = refl

by_kind :
    (k : Kind) (d : Dtype) (e : Endian) {t : TypeCode}
    → d.kind ≡ k
    → k ≢ Kind.unicode
    → from_numpy_type d ≡ ok t
    → to_numpy_type t e ≡ ok (with_endianness (record d { kind = sent_kind k }) e)
unfolding to_numpy_type from_numpy_type with_endianness sent_kind
by_kind Kind.floating d e q n h = ground arith
by_kind _ d e q n h = ground arith

-- An array that is not of strings and is accepted for sending is read back, under its type code, at
-- its own dtype in the byte order of the connection, but for a `timedelta64`, which is read back
-- as integers.
pub to-from_numpy_type :
    (d : Dtype) (e : Endian) {t : TypeCode}
    → d.kind ≢ Kind.unicode
    → from_numpy_type d ≡ ok t
    → to_numpy_type t e ≡ ok (with_endianness (record d { kind = sent_kind d.kind }) e)
to-from_numpy_type d e n h = by_kind d.kind d e refl n h
