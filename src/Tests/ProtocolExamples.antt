-- ===== src/Tests/ProtocolExamples.antt =====
-- The theorems on headers, dtypes, texts and associative arrays at concrete inputs.
use chess_pyspec.Base.{
  ◌<◌, ◌≡◌, ◌≢◌, ◌↔◌, refl, true, none, some, List, [], ◌∷◌, ◌++◌, arith, Text, codes, text_eq,
  if◌then◌else◌, length, is_empty, Bytes,
}
use chess_pyspec.Base.Int.{pos}
use chess_pyspec.Base.Result.{ok, err, value_error, key_error, or_raise}
use chess_pyspec.Base.Texts.{has_char, join}
use chess_pyspec.Bytes.Utf8.{encode, here, there}
use chess_pyspec.Bytes.Words.{little, big}
use chess_pyspec.Dict.{get, remove}
use chess_pyspec.Platform.{int}
use chess_pyspec.Payload.{Payload}
use chess_pyspec.AssociativeArray.{
  AssociativeArray, num, str, one, get_item, set_item, del_item, contains, compose_key, serialize,
  deserialize, value_text,
}
use chess_pyspec.AssociativeArray.Items.{
  get_item-set_item, contains_iff, get_item-del_item, compose_key-injective,
}
use chess_pyspec.AssociativeArray.Wire.{deserialize-serialize, received_items}
use chess_pyspec.Protocol.Layout.{
  Layout, v2, size_of, determine_header_struct, IsKnown, determine_total, determine_too_small,
}
use chess_pyspec.Protocol.Payloads.{Encoded, encode_data, encode_strings, decode_strings}
use chess_pyspec.Protocol.Payloads.Texts.{
  non_empty, decode_strings-encode_strings, encode_data-HasWide,
}
use chess_pyspec.Protocol.TypeCode.{
  TypeCode, Kind, Dtype, to_numpy_type, from_numpy_type, with_endianness,
}
use chess_pyspec.Protocol.TypeCode.Laws.{sent_kind, from-to_numpy_type, to-from_numpy_type}
use chess_pyspec.Tests.Instances.{floats, arrays, print}

unknown_version : ¬ IsKnown (pos 7)
unknown_version h = ground arith

size_of_v2 : size_of v2 ≡ 124
unfolding size_of
size_of_v2 = refl

determine_too_small_example : determine_header_struct (pos 7) (pos 20) ≡ ok v2
determine_too_small_example =
    determine_too_small (pos 7) 20 unknown_version (omega (arith, size_of_v2))

determine_total_example : (h : Layout) × (determine_header_struct (pos 7) (pos 20) ≡ ok h)
determine_total_example = determine_total (pos 7) (pos 20)

abbrev shorts : Dtype
shorts = record { kind = Kind.signed; itemsize = 2; order = little }

shorts_code : to_numpy_type TypeCode.arr_short little ≡ ok shorts
unfolding to_numpy_type
shorts_code = refl

shorts_type : from_numpy_type shorts ≡ ok TypeCode.arr_short
unfolding from_numpy_type
shorts_type = refl

from-to_numpy_type_example : from_numpy_type shorts ≡ ok TypeCode.arr_short
from-to_numpy_type_example = from-to_numpy_type TypeCode.arr_short little shorts_code

abbrev durations : Dtype
durations = record { kind = Kind.timedelta; itemsize = 8; order = little }

durations_type : from_numpy_type durations ≡ ok TypeCode.arr_long64
unfolding from_numpy_type
durations_type = refl

to-from_numpy_type_example :
    to_numpy_type TypeCode.arr_long64 big
    ≡ ok (with_endianness (record durations { kind = Kind.signed }) big)
unfolding sent_kind
to-from_numpy_type_example = to-from_numpy_type durations big (λ h. cc) durations_type

abbrev pair : AssociativeArray floats.F
pair = record {
  items = (codes "a", some (str (codes "up"))) ∷ (codes "b", some (num (int (pos 5)))) ∷ [];
}

abbrev pair_bytes : Bytes
pair_bytes = codes "a" ++ (0 ∷ (codes "up" ++ (0 ∷ (codes "b" ++ (0 ∷ (codes "5" ++ (0 ∷ [])))))))

pair_sent : serialize floats pair ≡ ok pair_bytes
unfolding serialize encode join print
pair_sent = refl

deserialize-serialize_example :
    deserialize floats pair_bytes true
    ≡ ok (record { items = received_items floats true pair.items })
unfolding text_eq has_char value_text print
deserialize-serialize_example =
    deserialize-serialize floats pair true ((refl, tt), (tt, tt)) (refl, refl, (refl, refl, tt))
      pair_sent

get_item-set_item_example :
    get_item floats (set_item floats pair (one (str (codes "a"))) none) (one (str (codes "b"))) ≡ (
      if text_eq
        (compose_key floats (one (str (codes "a"))))
        (compose_key floats (one (str (codes "b"))))
      then or_raise none key_error
      else get_item floats pair (one (str (codes "b"))))
get_item-set_item_example =
    get_item-set_item floats pair (one (str (codes "a"))) (one (str (codes "b"))) none

contains_iff_example :
    (contains floats pair (one (str (codes "a"))) ≡ true)
    ↔ (get_item floats pair (one (str (codes "a"))) ≢ err key_error)
contains_iff_example = contains_iff floats pair (one (str (codes "a")))

abbrev rest : AssociativeArray floats.F
rest = record { items = (codes "b", some (num (int (pos 5)))) ∷ [] }

pair_without : del_item floats pair (one (str (codes "a"))) ≡ ok rest
unfolding del_item get remove text_eq compose_key
pair_without = refl

get_item-del_item_example : get_item floats rest (one (str (codes "b"))) ≡ (
    if text_eq
      (compose_key floats (one (str (codes "a"))))
      (compose_key floats (one (str (codes "b"))))
    then err key_error
    else get_item floats pair (one (str (codes "b"))))
unfolding text_eq
get_item-del_item_example =
    get_item-del_item floats pair (one (str (codes "a"))) (one (str (codes "b")))
      ((refl, tt), (tt, tt)) pair_without

compose_key-injective_example : (codes "x" ≡ codes "x") × (codes "1" ≡ codes "1")
unfolding has_char
compose_key-injective_example =
    compose_key-injective floats (codes "x") (codes "1") (codes "x") (codes "1") refl refl refl refl
      refl

abbrev words : List Text
words = codes "one" ∷ [] ∷ codes "two" ∷ []

words_sent : encode_strings words ≡ ok (codes "one" ++ (0 ∷ 0 ∷ (codes "two" ++ (0 ∷ []))))
unfolding encode_strings encode
words_sent = refl

decode_strings-encode_strings_example :
    decode_strings (codes "one" ++ (0 ∷ 0 ∷ (codes "two" ++ (0 ∷ []))))
    ≡ (if is_empty (non_empty words) then err value_error else ok (non_empty words))
unfolding has_char
decode_strings-encode_strings_example =
    decode_strings-encode_strings words (refl, (refl, (refl, tt))) words_sent

-- The letter a, and the degree sign.
abbrev degree : Text
degree = b'a' ∷ 0xb0 ∷ []

degree_encoded : encode degree ≡ ok (b'a' ∷ 0xc2 ∷ 0xb0 ∷ [])
unfolding encode
degree_encoded = refl

encode_data-HasWide_example :
    (p : Encoded) × (encode_data floats arrays (Payload.text degree) little ≡ ok p)
    × (length p.bytes < 3)
encode_data-HasWide_example =
    encode_data-HasWide floats arrays degree little (there (here (omega arith))) degree_encoded
