-- ===== src/Protocol/Payloads/Texts.antt =====
-- What texts and arrays of strings lose on their way: `serialize` and `_decode_to_numpy_string_array`
-- of pyspec/_connection/protocol.py.
use chess_pyspec.Base.{
  ℕ, not, replicate, ◌-◌, ◌≤◌, ◌<◌, ◌≡◌, refl, subst, List, [], ◌∷◌, ◌++◌, arith, Text, Bytes,
  length, take, length-append, length-take, length-replicate, is_empty, if◌then◌else◌, All,
}
use chess_pyspec.Base.Result.{ok, err, value_error, require, ◌>>◌, >>=-eq-ok, ok-injective}
use chess_pyspec.Base.Texts.{Lacks, split, split-append}
use chess_pyspec.Bytes.Utf8.{
  encode, decode-encode, encode-Lacks, HasWide, length-encode_gt, length-encode_ge,
}
use chess_pyspec.Bytes.Words.{Endian}
use chess_pyspec.Platform.{Floats, Numpy}
use chess_pyspec.Payload.{Payload}
use chess_pyspec.Protocol.TypeCode.{TypeCode}
use chess_pyspec.Protocol.Payloads.{
  Encoded, pack_string, encode_strings, decode_parts, decode_strings, add_decoded, encode_data,
}

-- The texts that are not empty.
pub non_empty : List Text → List Text
non_empty [] = []
non_empty ([] ∷ ts) = non_empty ts
non_empty ((c ∷ t) ∷ ts) = (c ∷ t) ∷ non_empty ts

encode_strings_cons :
    (t : Text) (ts : List Text) {b : Bytes}
    → encode_strings (t ∷ ts) ≡ ok b
    → (x : Bytes) × (encode t ≡ ok x)
      × (y : Bytes) × (encode_strings ts ≡ ok y)
      × (x ++ (0 ∷ y) ≡ b)
unfolding encode_strings
encode_strings_cons t ts h =
    let (x, hx, more) = >>=-eq-ok (encode t) _ h in
    let (y, hy, e) = >>=-eq-ok (encode_strings ts) _ more in (x, hx, y, hy, cc)

part :
    (t : Text) (ts : List Text) {x : Bytes}
    → encode t ≡ ok x
    → add_decoded (is_empty x) x (ok (non_empty ts)) ≡ ok (non_empty (t ∷ ts))
unfolding non_empty
part [] ts {x} h =
    let e : ok [] ≡ ok x = unfold encode in h in
    subst (λ y. add_decoded (is_empty y) y (ok (non_empty ts)) ≡ ok (non_empty ts)) (ok-injective e)
      refl
part (c ∷ t) ts {x = []} h = absurd (omega (arith, length-encode_ge (c ∷ t) h))
part (c ∷ t) ts {x = y ∷ ys} h = rw (decode-encode (c ∷ t) h) refl

decode_parts-split :
    (ts : List Text) {b : Bytes}
    → All (Lacks 0) ts
    → encode_strings ts ≡ ok b
    → decode_parts (split 0 b) ≡ ok (non_empty ts)
unfolding non_empty decode_parts
decode_parts-split [] {b} h e =
    let q : ok [] ≡ ok b = unfold encode_strings in e in
    subst (λ c. decode_parts (split 0 c) ≡ ok []) (ok-injective q) (unfold split in refl)
decode_parts-split (t ∷ ts) h e =
    let (x, hx, y, hy, q) = encode_strings_cons t ts e in
    rw (← q, split-append 0 x y (encode-Lacks t hx h.0), decode_parts-split ts h.1 hy)
      (part t ts hx)

-- An array of strings that hold no NUL loses its empty strings when it is encoded and decoded, and
-- an array of empty strings only cannot be decoded.
pub decode_strings-encode_strings :
    (ts : List Text) {b : Bytes}
    → All (Lacks 0) ts
    → encode_strings ts ≡ ok b
    → decode_strings b ≡ (if is_empty (non_empty ts) then err value_error else ok (non_empty ts))
unfolding decode_strings
decode_strings-encode_strings ts h e = rw (decode_parts-split ts h e) (if_required (non_empty ts))
  where
    if_required :
        (us : List Text)
        → (require (not (is_empty us)) value_error >> ok us)
          ≡ (if is_empty us then err value_error else ok us)
    if_required [] = refl
    if_required (u ∷ us) = refl

length-pack_string : (n : ℕ) (b : Bytes) → n ≤ length b → length (pack_string n b) ≡ n
unfolding pack_string
length-pack_string n b h = omega (
  arith,
  length-append (take n b) (replicate (n - length b) 0),
  length-take n b h,
  length-replicate {A = ℕ} (n - length b) 0,
)

-- A text with a character that is not ASCII is sent with fewer bytes than its encoding has.
pub encode_data-HasWide :
    (fl : Floats) (np : Numpy) (t : Text) (e : Endian) {b : Bytes}
    → HasWide t
    → encode t ≡ ok b
    → (p : Encoded) × (encode_data fl np (Payload.text t) e ≡ ok p) × (length p.bytes < length b)
unfolding encode_data
encode_data-HasWide fl np t e {b} w h =
    let less = length-encode_gt t w h in
    (
      record { type = TypeCode.string; rows = 0; cols = 0; bytes = pack_string (length t) b },
      rw (h, encode_data) refl,
      omega (arith, length-pack_string (length t) b (omega (arith, less)), less),
    )
