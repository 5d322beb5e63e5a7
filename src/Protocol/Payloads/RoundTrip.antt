-- ===== src/Protocol/Payloads/RoundTrip.antt =====
-- What `_deserialize_data` makes of the bytes that `serialize` wrote.
use chess_pyspec.Base.{
  ℕ, suc, ◌-◌, ◌*◌, ◌≤◌, ◌≡◌, ◌≢◌, refl, sym, ap, ◌∙◌, subst, Bool, true, false, ◌||◌, List, [],
  ◌∷◌, ◌++◌, arith, ◌==◌, if◌then◌else◌, le→leb, Text, Bytes, length, length-append, take-length,
  take-append, append-nil, All,
}
use chess_pyspec.Base.Int.{pos}
use chess_pyspec.Base.Result.{Result, ok, ◌>>=◌, >>=-eq-ok, ok-injective}
use chess_pyspec.Base.Texts.{init-append}
use chess_pyspec.Bytes.Utf8.{encode, decode-encode, encode_ascii, IsAscii}
use chess_pyspec.Bytes.Words.{Endian}
use chess_pyspec.Dict.{IsDict}
use chess_pyspec.Platform.{Floats, Numpy}
use chess_pyspec.Payload.{array, text, num, assoc, error, nothing, of_element}
use chess_pyspec.AssociativeArray
use chess_pyspec.AssociativeArray.Wire.{received_items, IsClean, deserialize-serialize}
use chess_pyspec.Protocol.Fields.{Field}
use chess_pyspec.Protocol.Payloads.{
  Data, Encoded, encode_data, pack_string, terminate, ends_with_nul, strip_nul, is_deleted,
  decode_data, deserialize_data, numeric_array, array_bytes,
}
use chess_pyspec.Protocol.Struct.{Instance, int_attr}
use chess_pyspec.Protocol.TypeCode.{
  TypeCode, Kind, Dtype, value, of_value-value, is_array_type, with_endianness, to_numpy_type,
  from_numpy_type,
}
use chess_pyspec.Protocol.TypeCode.Laws.{to-from_numpy_type, sent_kind_same}

-- The attributes of a header that say how to read the data.
pub record Describes (h : Instance) (p : Encoded) : Type 0 where
  pub type_code : int_attr Field.data_type h ≡ ok (pos (value p.type))
  pub row_count : int_attr Field.rows h ≡ ok (pos p.rows)
  pub col_count : int_attr Field.cols h ≡ ok (pos p.cols)
  pub not_deleted : is_deleted h ≡ ok false

ends_with_nul-append : (b : Bytes) → ends_with_nul (b ++ (0 ∷ [])) ≡ true
unfolding ends_with_nul
ends_with_nul-append [] = refl
ends_with_nul-append (x ∷ []) = refl
ends_with_nul-append (x ∷ y ∷ b) = ends_with_nul-append (y ∷ b)

strip_nul-terminate : (b : Bytes) → strip_nul false (terminate b) ≡ ok b
unfolding strip_nul terminate
strip_nul-terminate [] = refl
strip_nul-terminate (x ∷ b) = rw (ends_with_nul-append (x ∷ b)) (ap ok (init-append (x ∷ b) 0))

strip_nul-true : (b : Bytes) → strip_nul true b ≡ ok b
unfolding strip_nul
strip_nul-true [] = refl
strip_nul-true (x ∷ b) = refl

-- Packing by the number of characters loses nothing of an ASCII text.
pack_ascii : (t : Text) → pack_string (length t) t ≡ t
unfolding pack_string
pack_ascii t =
    let none_left : length t - length t ≡ 0 = omega arith in
    rw (take-length t, none_left) (append-nil t)

terminate_nonempty : (b : Bytes) → b ≢ [] → terminate b ≡ b ++ (0 ∷ [])
unfolding terminate
terminate_nonempty [] n = absurd (n refl)
terminate_nonempty (x ∷ b) n = refl

one_more : (n m : ℕ) → m ≡ suc n → ((n == m) || (suc n == m)) ≡ true
one_more n m h = ground arith

module _ (fl : Floats) (np : Numpy) where
  open fl use {format_15g, format_15g-IsAscii, parse-empty}
  open np use {
    Array, dtype, shape, atleast_2d, astype, tobytes, frombuffer, reshape, flatten,
    shape-atleast_2d, dtype-atleast_2d, dtype-astype, shape-astype, length-tobytes,
    reshape-frombuffer,
  }

  -- The array that is sent: two-dimensional, in the byte order of the connection.
  abbrev pub sent_array : Endian → Array → Array
  sent_array e a = astype (atleast_2d a) (with_endianness (dtype (atleast_2d a)) e)

  abbrev pub has_one_row : List ℕ → Bool
  has_one_row [] = false
  has_one_row (r ∷ rs) = r == 1

  -- What arrives for a value.
  abbrev pub received : Endian → Data fl np → Data fl np
  received e (error t) = error t
  received e (text t) = of_element (AssociativeArray.try_cast fl t)
  received e (num v) = of_element (AssociativeArray.try_cast fl (format_15g v))
  received e (assoc a) = assoc (record { items = received_items fl false a.items })
  received e (array a) =
      let b = sent_array e a in array (if has_one_row (shape b) then flatten b else b)
  received e nothing = text []

  -- The values for which it is known what arrives: texts are ASCII, associative arrays hold no item
  -- separator, and arrays are of numbers and not empty.
  abbrev pub IsSendable : Data fl np → Type 0
  IsSendable (error t) = Unit
  IsSendable (text t) = All IsAscii t
  IsSendable (num v) = Unit
  IsSendable (assoc a) = IsDict a.items × IsClean fl a.items
  IsSendable (array a) =
      (((dtype a).kind ≢ Kind.unicode) × ((dtype a).kind ≢ Kind.timedelta))
      × (length (shape a) ≤ 2)
      × ((e : Endian) → tobytes (sent_array e a) ≢ [])
  IsSendable nothing = Unit

  deserialize-eq :
      (h : Instance) (p : Encoded) (b s : Bytes) (e : Endian)
      → Describes h p
      → strip_nul (is_array_type p.type) b ≡ ok s
      → deserialize_data fl np h b e ≡ decode_data fl np p.type h s e
  unfolding deserialize_data
  deserialize-eq h p b s e d q = rw (d.type_code, of_value-value p.type, q) refl

  string_decodes :
      (h : Instance) (t : Text) (e : Endian)
      → All IsAscii t
      → decode_data fl np TypeCode.string h t e ≡ ok (of_element (AssociativeArray.try_cast fl t))
  unfolding decode_data
  string_decodes h t e ascii = rw (decode-encode t (encode_ascii t ascii)) refl

  error_decodes :
      (h : Instance) (t : Text) (e : Endian) {b : Bytes}
      → encode t ≡ ok b
      → decode_data fl np TypeCode.error h b e ≡ ok (error t)
  unfolding decode_data
  error_decodes h t e q = rw (decode-encode t q) refl

  assoc_decodes :
      (h : Instance) (a : AssociativeArray.AssociativeArray fl.F) (e : Endian) {b : Bytes}
      → is_deleted h ≡ ok false
      → IsSendable (assoc a)
      → AssociativeArray.serialize fl a ≡ ok b
      → decode_data fl np TypeCode.assoc h b e ≡ ok (received e (assoc a))
  unfolding decode_data
  assoc_decodes h a e n s q = rw (n, deserialize-serialize fl a false s.0 s.1 q) refl

  cast_empty : AssociativeArray.try_cast fl [] ≡ AssociativeArray.Element.str []
  unfolding AssociativeArray.try_cast
  cast_empty = rw (parse-empty, AssociativeArray.try_cast) refl

  empty_decodes :
      (h : Instance) (e : Endian) → decode_data fl np TypeCode.string h [] e ≡ ok (text [])
  empty_decodes h e = string_decodes h [] e tt ∙ ap (λ x. ok (of_element x)) cast_empty

  -- `r` arrives for what was encoded as `p`.
  abbrev Arrives : Instance → Endian → Result (Data fl np) → Encoded → Type 0
  Arrives h e r p = Describes h p → deserialize_data fl np h (terminate p.bytes) e ≡ r

  abbrev plain : TypeCode → Bytes → Encoded
  plain t b = record { type = t; rows = 0; cols = 0; bytes = b }

  plain-Arrives :
      (h : Instance) (e : Endian) (t : TypeCode) (b : Bytes) {r : Result (Data fl np)}
      → is_array_type t ≡ false
      → (is_deleted h ≡ ok false → decode_data fl np t h b e ≡ r)
      → Arrives h e r (plain t b)
  plain-Arrives h e t b n q d =
      deserialize-eq h (plain t b) (terminate b) b e d (rw n (strip_nul-terminate b))
      ∙ q d.not_deleted

  string-Arrives :
      (h : Instance) (t : Text) (e : Endian) {p : Encoded}
      → All IsAscii t
      → (encode t >>= λ b. ok (plain TypeCode.string (pack_string (length t) b))) ≡ ok p
      → Arrives h e (ok (of_element (AssociativeArray.try_cast fl t))) p
  string-Arrives h t e {p = p} ascii q =
      let (b, hb, made) = >>=-eq-ok (encode t) _ q in
      let same : b ≡ t = ok-injective (sym hb ∙ encode_ascii t ascii) in
      let packed : pack_string (length t) b ≡ t = ap (pack_string (length t)) same ∙ pack_ascii t in
      subst (Arrives h e _) (ap (plain TypeCode.string) (sym packed) ∙ ok-injective made) (
        plain-Arrives h e TypeCode.string t (unfold is_array_type in refl)
          (λ _. string_decodes h t e ascii))

  error-Arrives :
      (h : Instance) (t : Text) (e : Endian) {p : Encoded}
      → encode_data fl np (error t) e ≡ ok p
      → Arrives h e (ok (error t)) p
  unfolding encode_data
  error-Arrives h t e {p = p} q =
      let (b, hb, made) = >>=-eq-ok (encode t) _ q in
      subst (Arrives h e _) (ok-injective made) (
        plain-Arrives h e TypeCode.error b (unfold is_array_type in refl)
          (λ _. error_decodes h t e hb))

  assoc-Arrives :
      (h : Instance) (a : AssociativeArray.AssociativeArray fl.F) (e : Endian) {p : Encoded}
      → IsSendable (assoc a)
      → encode_data fl np (assoc a) e ≡ ok p
      → Arrives h e (ok (received e (assoc a))) p
  unfolding encode_data
  assoc-Arrives h a e {p = p} s q =
      let (b, hb, made) = >>=-eq-ok (AssociativeArray.serialize fl a) _ q in
      subst (Arrives h e _) (ok-injective made) (
        plain-Arrives h e TypeCode.assoc b (unfold is_array_type in refl)
          (λ n. assoc_decodes h a e n s hb))

  nothing-Arrives :
      (h : Instance) (e : Endian) {p : Encoded}
      → encode_data fl np nothing e ≡ ok p
      → Arrives h e (ok (text [])) p
  unfolding encode_data
  nothing-Arrives h e {p = p} q =
      subst (Arrives h e _) (ok-injective q) (
        plain-Arrives h e TypeCode.string [] (unfold is_array_type in refl)
          (λ _. empty_decodes h e))

  numeric_decodes :
      (h : Instance) (t : TypeCode) (e : Endian) (b : Array) (r c : ℕ)
      → to_numpy_type t e ≡ ok (dtype b)
      → shape b ≡ r ∷ c ∷ []
      → int_attr Field.rows h ≡ ok (pos r)
      → int_attr Field.cols h ≡ ok (pos c)
      → numeric_array fl np t h (tobytes b ++ (0 ∷ [])) e
        ≡ ok (array (if r == 1 then flatten b else b))
  unfolding numeric_array
  numeric_decodes h t e b r c q s hr hc =
      let n = r * c * (dtype b).itemsize in
      let size : length (tobytes b) ≡ n = length-tobytes b r c s in
      let longer : length (tobytes b ++ (0 ∷ [])) ≡ suc n =
        omega (arith, length-append (tobytes b) (0 ∷ []), size) in
      rw
        (
          q,
          hr,
          hc,
          one_more n (length (tobytes b ++ (0 ∷ []))) longer,
          take-append n (tobytes b) (0 ∷ []) size,
          reshape-frombuffer b r c s,
        )
        refl

  array_bytes_numeric :
      (t : TypeCode) (e : Endian) (b : Array) {d : Dtype}
      → to_numpy_type t e ≡ ok d
      → array_bytes fl np t e b ≡ ok (tobytes (astype b (with_endianness (dtype b) e)))
  unfolding array_bytes to_numpy_type
  array_bytes_numeric TypeCode.none e b q = refl
  array_bytes_numeric TypeCode.arr_string e b q = cc
  array_bytes_numeric _ e b q = refl

  decode_data_numeric :
      (t : TypeCode) (h : Instance) (b : Bytes) (e : Endian) {d : Dtype}
      → to_numpy_type t e ≡ ok d
      → (is_array_type t ≡ true) × (decode_data fl np t h b e ≡ numeric_array fl np t h b e)
  unfolding decode_data to_numpy_type is_array_type
  decode_data_numeric TypeCode.none h b e q = (cc, cc)
  decode_data_numeric TypeCode.double h b e q = (cc, cc)
  decode_data_numeric TypeCode.string h b e q = (cc, cc)
  decode_data_numeric TypeCode.error h b e q = (cc, cc)
  decode_data_numeric TypeCode.assoc h b e q = (cc, cc)
  decode_data_numeric TypeCode.arr_string h b e q = (cc, cc)
  decode_data_numeric _ h b e q = (refl, refl)

  array_type :
      (a : Array) (e : Endian) {p : Encoded}
      → encode_data fl np (array a) e ≡ ok p
      → (t : TypeCode) × (from_numpy_type (dtype a) ≡ ok t) × Unit {0}
  unfolding encode_data
  array_type a e q = let (t, ht, _) = >>=-eq-ok (from_numpy_type (dtype a)) _ q in (t, ht, tt)

  encode_array :
      (a : Array) (e : Endian) {t : TypeCode} {r c : ℕ} {b : Bytes}
      → from_numpy_type (dtype a) ≡ ok t
      → length (shape a) ≤ 2
      → shape (atleast_2d a) ≡ r ∷ c ∷ []
      → array_bytes fl np t e (atleast_2d a) ≡ ok b
      → encode_data fl np (array a) e ≡ ok (record { type = t; rows = r; cols = c; bytes = b })
  unfolding encode_data
  encode_array a e ht hd hs hb = rw (ht, le→leb _ 2 hd, hs, hb) refl

  -- The dtype at which the sent array is read back.
  sent_dtype :
      (a : Array) (e : Endian) {t : TypeCode}
      → ((dtype a).kind ≢ Kind.unicode) × ((dtype a).kind ≢ Kind.timedelta)
      → from_numpy_type (dtype a) ≡ ok t
      → to_numpy_type t e ≡ ok (dtype (sent_array e a))
  sent_dtype a e n ht =
      to-from_numpy_type (dtype a) e n.0 ht
      ∙ ap (λ k. ok (with_endianness (record (dtype a) { kind = k }) e))
          (sent_kind_same (dtype a).kind n.1)
      ∙ ap ok
          (sym (dtype-astype (atleast_2d a) _ ∙ ap (λ d. with_endianness d e) (dtype-atleast_2d a)))

  sent_decodes :
      (h : Instance) (a : Array) (e : Endian) (t : TypeCode) (r c : ℕ)
      → IsSendable (array a)
      → to_numpy_type t e ≡ ok (dtype (sent_array e a))
      → shape (sent_array e a) ≡ r ∷ c ∷ []
      → Arrives h e
          (ok (received e (array a)))
          (record { type = t; rows = r; cols = c; bytes = tobytes (sent_array e a) })
  sent_decodes h a e t r c s q hs d =
      let b = sent_array e a in
      let (is_array, reads) = decode_data_numeric t h (tobytes b ++ (0 ∷ [])) e q in
      rw (terminate_nonempty (tobytes b) (s.2 e), hs)
        (deserialize-eq h _ _ (tobytes b ++ (0 ∷ [])) e d (rw is_array (strip_nul-true _))
          ∙ reads
          ∙ numeric_decodes h t e b r c q hs d.row_count d.col_count)

  array-Arrives :
      (h : Instance) (a : Array) (e : Endian) {p : Encoded}
      → IsSendable (array a)
      → encode_data fl np (array a) e ≡ ok p
      → Arrives h e (ok (received e (array a))) p
  array-Arrives h a e {p = p} s q =
      let (t, ht, _) = array_type a e q in
      let (r, c, hs) = shape-atleast_2d a s.1 in
      let hd = sent_dtype a e s.0 ht in
      let hb = array_bytes_numeric t e (atleast_2d a) hd in
      subst (Arrives h e _) (ok-injective (sym (encode_array a e ht s.1 hs hb) ∙ q))
        (sent_decodes h a e t r c s hd (shape-astype (atleast_2d a) _ ∙ hs))

  -- Whatever is sent, of the values above, arrives as `received` says, in either byte order: a text
  -- that reads as a number arrives as that number, and None as the empty text.
  pub data_arrives :
      (h : Instance) (d : Data fl np) (e : Endian) {p : Encoded}
      → IsSendable d
      → encode_data fl np d e ≡ ok p
      → Describes h p
      → deserialize_data fl np h (terminate p.bytes) e ≡ ok (received e d)
  data_arrives h (array a) e s q = array-Arrives h a e s q
  data_arrives h (text t) e s q = string-Arrives h t e s (unfold encode_data in q)
  data_arrives h (num v) e s q =
      string-Arrives h (format_15g v) e (format_15g-IsAscii v) (unfold encode_data in q)
  data_arrives h (assoc a) e s q = assoc-Arrives h a e s q
  data_arrives h (error t) e s q = error-Arrives h t e q
  data_arrives h nothing e s q = nothing-Arrives h e q
