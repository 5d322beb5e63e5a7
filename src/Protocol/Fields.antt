-- ===== src/Protocol/Fields.antt =====
-- The header structures of pyspec/_connection/protocol.py: `FIELDS_V2`, `FIELDS_V3`, `FIELDS_V4`.
use chess_pyspec.Base.{ℕ, List, [], ◌∷◌}

pub data Ctype : Type 0 where
  c_uint c_int : Ctype
  c_char_array : ℕ → Ctype

pub data Field : Type 0 where
  magic version size sequence_number sec usec command data_type rows cols length : Field
  err flags name : Field

abbrev pub name_len : ℕ
name_len = 80

abbrev pub spec_magic : ℕ
spec_magic = 4277009102

abbrev pub Fields : Type 0
Fields = List (Field × Ctype)

unfoldable pub fields_v2 : Fields
fields_v2 =
    (magic, c_uint)
    ∷ (version, c_int)
    ∷ (size, c_int)
    ∷ (sequence_number, c_int)
    ∷ (sec, c_uint)
    ∷ (usec, c_uint)
    ∷ (command, c_int)
    ∷ (data_type, c_int)
    ∷ (rows, c_uint)
    ∷ (cols, c_uint)
    ∷ (length, c_uint)
    ∷ (name, c_char_array name_len)
    ∷ []

unfoldable pub fields_v3 : Fields
fields_v3 =
    (magic, c_uint)
    ∷ (version, c_int)
    ∷ (size, c_int)
    ∷ (sequence_number, c_int)
    ∷ (sec, c_uint)
    ∷ (usec, c_uint)
    ∷ (command, c_int)
    ∷ (data_type, c_int)
    ∷ (rows, c_uint)
    ∷ (cols, c_uint)
    ∷ (length, c_uint)
    ∷ (err, c_int)
    ∷ (name, c_char_array name_len)
    ∷ []

unfoldable pub fields_v4 : Fields
fields_v4 =
    (magic, c_uint)
    ∷ (version, c_int)
    ∷ (size, c_uint)
    ∷ (sequence_number, c_uint)
    ∷ (sec, c_uint)
    ∷ (usec, c_uint)
    ∷ (command, c_int)
    ∷ (data_type, c_int)
    ∷ (rows, c_uint)
    ∷ (cols, c_uint)
    ∷ (length, c_uint)
    ∷ (err, c_int)
    ∷ (flags, c_int)
    ∷ (name, c_char_array name_len)
    ∷ []

-- A number for each field, to compare fields by.
abbrev pub tag : Field → ℕ
tag magic = 0
tag version = 1
tag size = 2
tag sequence_number = 3
tag sec = 4
tag usec = 5
tag command = 6
tag data_type = 7
tag rows = 8
tag cols = 9
tag length = 10
tag err = 11
tag flags = 12
tag name = 13
