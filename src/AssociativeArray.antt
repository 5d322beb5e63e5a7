-- ===== src/AssociativeArray.antt =====
-- pyspec/_connection/associative_array.py: the class `AssociativeArray`.
pub mod Items
pub mod Wire
pub mod PropertyName
use chess_pyspec.Base.{
  ℕ, ◌≡◌, Bool, true, false, not, Option, none, some, List, [], ◌∷◌, ◌++◌, map, if◌then◌else◌, Text,
  Bytes, codes, is_empty,
}
use chess_pyspec.Base.Int.{ℤ}
use chess_pyspec.Base.Result.{Result, ok, err, value_error, key_error, ◌>>=◌, ◌>>◌, or_raise}
use chess_pyspec.Base.Texts.{has_char, split, join, init}
use chess_pyspec.Bytes.Utf8.{encode, decode}
use chess_pyspec.Platform.{Number, int, float, Floats}
use chess_pyspec.Dict.{Dict, get, set, remove, put_all}

-- `KEY_SEPARATOR` and `ITEM_SEPARATOR`
abbrev pub key_separator : ℕ
key_separator = 0x1c

abbrev pub item_separator : ℕ
item_separator = 0

pub data Element (F : Type 0) : Type 0 where
  num : Number F → Element F
  str : Text → Element F

pub data Key (F : Type 0) : Type 0 where
  one : Element F → Key F
  two : Element F → Element F → Key F

-- A value `none` stands for an element that the server deleted.
pub record AssociativeArray (F : Type 0) : Type 0 where
  pub items : Dict (Option (Element F))

abbrev pub empty : {F : Type 0} → AssociativeArray F
empty = record { items = [] }

-- `by_two`: a last item with no partner is dropped.
unfoldable pub by_two {ℓ} : {A : Type ℓ} → List A → List (A × A)
by_two [] = []
by_two (x ∷ []) = []
by_two (x ∷ y ∷ r) = (x, y) ∷ by_two r

-- What `self.data.get(...)` is to `__contains__` and `__getitem__`: None is no value.
abbrev pub live {ℓ} : {A : Type ℓ} → Option (Option A) → Option A
live none = none
live (some v) = v

module _ (fl : Floats) where
  open fl use {F, parse, is_integer, to_int, format_5g, to_str}

  -- `try_cast`, and the class method `try_parse_key`
  unfoldable pub try_cast : Text → Element F
  try_cast t = elim (parse t) [
    | none ↦ str t
    | some v ↦ num (if is_integer v then int (to_int v) else float v)
  ]

  unfoldable pub stringify_key : Element F → Text
  stringify_key (num v) = format_5g v
  stringify_key (str t) = t

  -- `key2 == ""`
  abbrev is_blank : Element F → Bool
  is_blank (num v) = false
  is_blank (str t) = is_empty t

  unfoldable pub compose_key : Key F → Text
  unfolding stringify_key
  compose_key (one k) = stringify_key k
  compose_key (two a b) =
      if is_blank b then stringify_key a else stringify_key a ++ (key_separator ∷ stringify_key b)

  -- The unpacking of `key.split(KEY_SEPARATOR)` into two names wants exactly two parts.
  two_parts : List Text → Result (Key F)
  unfolding try_cast
  two_parts (a ∷ b ∷ []) = ok (two (try_cast a) (try_cast b))
  two_parts _ = err value_error

  unfoldable pub decompose_key : Text → Result (Key F)
  unfolding two_parts
  decompose_key t =
      if has_char key_separator t then two_parts (split key_separator t) else ok (one (try_cast t))

  unfoldable pub contains : AssociativeArray F → Key F → Bool
  contains a k = elim (live (get a.items (compose_key k))) [ none ↦ false | some v ↦ true ]

  unfoldable pub get_item : AssociativeArray F → Key F → Result (Element F)
  get_item a k = or_raise (live (get a.items (compose_key k))) key_error

  unfoldable pub set_item : AssociativeArray F → Key F → Option (Element F) → AssociativeArray F
  set_item a k v = record { items = set a.items (compose_key k) v }

  unfoldable pub del_item : AssociativeArray F → Key F → Result (AssociativeArray F)
  del_item a k = do
    _ ← or_raise (get a.items (compose_key k)) key_error
    ok (record { items = remove a.items (compose_key k) })

  -- `other.data` is written into `self.data`, item by item.
  unfoldable pub update : AssociativeArray F → AssociativeArray F → AssociativeArray F
  update a other = record { items = put_all a.items other.items }

  -- `str(item)` of a value
  unfoldable pub value_text : Option (Element F) → Text
  value_text none = codes "None"
  value_text (some (num v)) = to_str v
  value_text (some (str t)) = t

  unfoldable pub key_values : Dict (Option (Element F)) → List Text
  unfolding value_text
  key_values [] = []
  key_values ((k, v) ∷ d) = k ∷ value_text v ∷ key_values d

  unfoldable pub serialize : AssociativeArray F → Result Bytes
  unfolding key_values
  serialize a = encode (join item_separator (key_values a.items) ++ (item_separator ∷ []))

  unfoldable pub load : Bool → List (Text × Text) → Dict (Option (Element F))
  load deleted kvs =
      put_all [] (map (λ kv. (kv.0, if deleted then none else some (try_cast kv.1))) kvs)

  unfoldable pub deserialize : Bytes → Bool → Result (AssociativeArray F)
  unfolding load by_two
  deserialize bytes deleted = do
    t ← decode bytes
    ok (record { items = load deleted (by_two (init (split item_separator t))) })
