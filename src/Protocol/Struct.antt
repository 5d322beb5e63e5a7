-- ===== src/Protocol/Struct.antt =====
-- `ctypes` structures with fixed fields, in the two byte orders: how an instance is built, written
-- as bytes, read back, and asked for an attribute.
use chess_pyspec.Base.{
  ℕ, zero, suc, ◌+◌, ◌-◌, ◌≡◌, refl, ap, subst, List, [], ◌∷◌, ◌++◌, append_assoc, arith, leb, ◌==◌,
  if◌then◌else◌, Bytes, length, length-append, length-replicate, take, drop, take-append,
  drop-append, replicate,
}
use chess_pyspec.Base.Int.{
  ℤ, pos, word32, signed32, IsUint32, IsInt32, word32-lt, signed32-IsInt32, signed32-word32,
  unsigned32-word32,
}
use chess_pyspec.Base.Result.{
  Result, ok, err, value_error, type_error, attribute_error, ◌>>=◌, >>=-eq-ok, ok-injective,
}
use chess_pyspec.Base.Texts.{has_char, Lacks}
use chess_pyspec.Bytes.Words.{Endian, to_bytes, of_bytes, length-to_bytes, of_bytes-to_bytes}
use chess_pyspec.Protocol.Fields.{Ctype, c_uint, c_int, c_char_array, Field, Fields, tag}

-- What Python reads from a field: an `int`, or the bytes of a `c_char` array.
pub data Value : Type 0 where
  int : ℤ → Value
  chars : Bytes → Value

pub record Slot : Type 0 where
  pub field : Field
  pub ctype : Ctype
  pub value : Value

abbrev pub Instance : Type 0
Instance = List Slot

sizeof_ctype : Ctype → ℕ
sizeof_ctype c_uint = 4
sizeof_ctype c_int = 4
sizeof_ctype (c_char_array n) = n

-- `ctypes.sizeof`: all fields are 4-byte aligned, so there is no padding.
unfoldable pub sizeof : Fields → ℕ
unfolding sizeof_ctype
sizeof [] = 0
sizeof ((f, c) ∷ fs) = sizeof_ctype c + sizeof fs

-- The memory of a field: an integer is kept modulo 2 ^ 32, and an array of `c_char` has its zero
-- padding. A value that is too long for the array is refused.
unfoldable pub store : Ctype → Value → Result Value
store c_uint (int z) = ok (int (pos (word32 z)))
store c_int (int z) = ok (int (signed32 (word32 z)))
store (c_char_array n) (chars b) =
    if leb (length b) n then ok (chars (b ++ replicate (n - length b) 0)) else err value_error
store _ v = err type_error

-- A structure's constructor, with one value for each field.
unfoldable pub build : Fields → List Value → Result Instance
unfolding store
build [] vs = ok []
build (f ∷ fs) [] = err type_error
build ((f, c) ∷ fs) (v ∷ vs) = do
  m ← store c v
  ss ← build fs vs
  ok (record { field = f; ctype = c; value = m } ∷ ss)

write_value : Endian → Ctype → Value → Bytes
write_value e (c_char_array n) (chars b) = b
write_value e _ (int z) = to_bytes e 4 (word32 z)
write_value e _ (chars b) = []

-- `bytes(instance)`
unfoldable pub write : Endian → Instance → Bytes
unfolding write_value
write e [] = []
write e (s ∷ ss) = write_value e s.ctype s.value ++ write e ss

unfoldable pub until_nul : Bytes → Bytes
until_nul [] = []
until_nul (b ∷ bs) = if b == 0 then [] else b ∷ until_nul bs

read_value : Endian → Ctype → Bytes → Value
read_value e c_uint bs = int (pos (of_bytes e bs))
read_value e c_int bs = int (signed32 (of_bytes e bs))
read_value e (c_char_array n) bs = chars bs

-- `from_buffer_copy`
unfoldable pub read : Endian → Fields → Bytes → Instance
unfolding read_value sizeof_ctype
read e [] bs = []
read e ((f, c) ∷ fs) bs =
    record { field = f; ctype = c; value = read_value e c (take (sizeof_ctype c) bs) }
    ∷ read e fs (drop (sizeof_ctype c) bs)

-- `instance.f`
unfoldable pub attr : Field → Instance → Result Value
attr f [] = err attribute_error
attr f (s ∷ ss) = if tag s.field == tag f then ok s.value else attr f ss

abbrev as_int : Value → Result ℤ
as_int (int z) = ok z
as_int (chars b) = err type_error

-- An array of `c_char` is read up to its first NUL.
abbrev as_chars : Value → Result Bytes
as_chars (chars b) = ok (until_nul b)
as_chars (int z) = err type_error

unfoldable pub int_attr : Field → Instance → Result ℤ
unfolding attr
int_attr f s = do v ← attr f s; as_int v

unfoldable pub chars_attr : Field → Instance → Result Bytes
unfolding attr until_nul
chars_attr f s = do v ← attr f s; as_chars v

-- What the memory of a field can hold.
abbrev IsStored : Ctype → Value → Type 0
IsStored c_uint (int z) = IsUint32 z
IsStored c_int (int z) = IsInt32 z
IsStored (c_char_array n) (chars b) = length b ≡ n
IsStored _ _ = ⊥

abbrev pub AllStored : Instance → Type 0
AllStored [] = Unit
AllStored (s ∷ ss) = IsStored s.ctype s.value × AllStored ss

abbrev pub fields_of : Instance → Fields
fields_of [] = []
fields_of (s ∷ ss) = (s.field, s.ctype) ∷ fields_of ss

store-IsStored : (c : Ctype) (v : Value) {m : Value} → store c v ≡ ok m → IsStored c m
unfolding store
store-IsStored c_uint (int z) h = ground (arith, word32-lt z)
store-IsStored c_int (int z) h = ground (arith, word32-lt z, signed32-IsInt32 (word32 z))
store-IsStored (c_char_array n) (chars b) h =
    ground (
      arith,
      length-append b (replicate (n - length b) 0),
      length-replicate {A = ℕ} (n - length b) 0,
    )
store-IsStored c_uint (chars b) h = absurd (ground arith)
store-IsStored c_int (chars b) h = absurd (ground arith)
store-IsStored (c_char_array n) (int z) h = absurd (ground arith)

build_cons :
    (f : Field) (c : Ctype) (fs : Fields) (v : Value) (vs : List Value) {ss : Instance}
    → build ((f, c) ∷ fs) (v ∷ vs) ≡ ok ss
    → (m : Value) × (store c v ≡ ok m)
      × (r : Instance) × (build fs vs ≡ ok r)
      × (record { field = f; ctype = c; value = m } ∷ r ≡ ss)
unfolding build
build_cons f c fs v vs h =
    let (m, hm, more) = >>=-eq-ok (store c v) _ h in
    let (r, hr, e) = >>=-eq-ok (build fs vs) _ more in (m, hm, r, hr, cc)

-- What a constructor returns has its fields, and can be held.
pub build-AllStored :
    (fs : Fields) (vs : List Value) {ss : Instance}
    → build fs vs ≡ ok ss
    → AllStored ss × (fields_of ss ≡ fs)
unfolding build
build-AllStored [] vs h = subst (λ x. AllStored x × (fields_of x ≡ [])) (ok-injective h) (tt, refl)
build-AllStored ((f, c) ∷ fs) [] h = absurd (ground arith)
build-AllStored ((f, c) ∷ fs) (v ∷ vs) h =
    let (m, hm, r, hr, e) = build_cons f c fs v vs h in
    let (stored, same) = build-AllStored fs vs hr in
    rw (← e) ((store-IsStored c v hm, stored), ap (◌∷◌ (f, c)) same)

length-write_value :
    (e : Endian) (c : Ctype) (v : Value)
    → IsStored c v
    → length (write_value e c v) ≡ sizeof_ctype c
unfolding write_value sizeof_ctype
length-write_value e c_uint (int z) h = length-to_bytes e 4 (word32 z)
length-write_value e c_int (int z) h = length-to_bytes e 4 (word32 z)
length-write_value e (c_char_array n) (chars b) h = h
length-write_value e c_uint (chars b) h = elim h [ ]
length-write_value e c_int (chars b) h = elim h [ ]
length-write_value e (c_char_array n) (int z) h = elim h [ ]

read-write_value :
    (e : Endian) (c : Ctype) (v : Value) → IsStored c v → read_value e c (write_value e c v) ≡ v
unfolding write_value read_value
read-write_value e c_uint (int z) h =
    ground (arith, of_bytes-to_bytes e 4 (word32 z), word32-lt z, unsigned32-word32 z)
read-write_value e c_int (int z) h =
    ground (arith, of_bytes-to_bytes e 4 (word32 z), word32-lt z, signed32-word32 z)
read-write_value e (c_char_array n) (chars b) h = refl
read-write_value e c_uint (chars b) h = elim h [ ]
read-write_value e c_int (chars b) h = elim h [ ]
read-write_value e (c_char_array n) (int b) h = elim h [ ]

pub length-write :
    (e : Endian) (ss : Instance) → AllStored ss → length (write e ss) ≡ sizeof (fields_of ss)
unfolding write sizeof
length-write e [] h = refl
length-write e (s ∷ ss) h = omega (
  arith,
  length-append (write_value e s.ctype s.value) (write e ss),
  length-write e ss h.1,
  length-write_value e s.ctype s.value h.0,
)

read-write_stored :
    (e : Endian) (ss : Instance) (rest : Bytes)
    → AllStored ss
    → read e (fields_of ss) (write e ss ++ rest) ≡ ss
unfolding read write
read-write_stored e [] rest h = refl
read-write_stored e (s ∷ ss) rest h =
    let b = write_value e s.ctype s.value in
    let size = length-write_value e s.ctype s.value h.0 in
    rw (append_assoc b (write e ss) rest) (
      rw (take-append (sizeof_ctype s.ctype) b (write e ss ++ rest) size) (
        rw (drop-append (sizeof_ctype s.ctype) b (write e ss ++ rest) size)
          (rw (read-write_value e s.ctype s.value h.0, read-write_stored e ss rest h.1) refl)))

-- The bytes of a structure, in either byte order and with anything behind them, read back as the
-- structure that was built.
pub read-write :
    (e : Endian) (fs : Fields) (vs : List Value) (rest : Bytes) {ss : Instance}
    → build fs vs ≡ ok ss
    → read e fs (write e ss ++ rest) ≡ ss
read-write e fs vs rest {ss = ss} h =
    let (stored, same) = build-AllStored fs vs h in
    subst (λ x. read e x (write e ss ++ rest) ≡ ss) same (read-write_stored e ss rest stored)

pub until_nul-padded : (b : Bytes) (k : ℕ) → Lacks 0 b → until_nul (b ++ replicate k 0) ≡ b
unfolding until_nul has_char
until_nul-padded [] zero h = refl
until_nul-padded [] (suc k) h = refl
until_nul-padded (x ∷ b) k h = ground (arith, until_nul-padded b k)
